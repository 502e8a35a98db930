-- ===== src/Domain/Lifecycle.antt =====
-- The life of an attempt: what the state machine of src/domain/job.rs allows.
use cache_cleaner.Base.{
  ℕ, suc, ◌≤◌, ◌<◌, ◌≡◌, ◌↔◌, refl, Bool, true, false, Option, none, some, is_ok, arith,
}
use cache_cleaner.Base.Word.{wrapping_add}
use cache_cleaner.Domain.Types.{JobId, AttemptId, Generation, UnixTimestamp}
use cache_cleaner.Domain.Job.{
  JobState, pending, queued, admitted, preparing, scanning, planning, awaiting_authorization,
  authorized, waiting_resources, executing, verifying, reconciling, is_terminal, escapes_to,
  can_transition_to, JobAttempt, new_with_generations, transition_with_cas,
}

-- How far along a state is.
abbrev pub rank : JobState → ℕ
rank pending = 0
rank queued = 1
rank admitted = 2
rank preparing = 3
rank scanning = 4
rank planning = 5
rank awaiting_authorization = 6
rank authorized = 7
rank waiting_resources = 8
rank executing = 9
rank verifying = 10
rank reconciling = 11
rank _ = 12

-- Each allowed transition leads further along.
rank-increases : (s t : JobState) → can_transition_to s t ≡ true → rank s < rank t
unfolding can_transition_to escapes_to is_terminal
rank-increases s t h = ground arith

-- No transition leads out of a terminal state.
pub terminal_absorbs : (s t : JobState) → is_terminal s ≡ true → can_transition_to s t ≡ false
unfolding can_transition_to escapes_to is_terminal
terminal_absorbs s t h = ground arith

module _ (now : UnixTimestamp) (a : JobAttempt) (next : JobState) (expected : ℕ) where
  -- A compare-and-swap succeeds exactly when the caller knew the attempt's version and the
  -- transition is allowed; then the state is the new one and the version has gone up, and else the
  -- attempt is as it was.
  pub transition_with_cas_iff :
      ((is_ok (transition_with_cas now a next expected).1 ≡ true)
        ↔ ((a.state_version ≡ expected) × (can_transition_to a.state next ≡ true)))
      × ((is_ok (transition_with_cas now a next expected).1 ≡ true
            → ((transition_with_cas now a next expected).0.state ≡ next)
              × ((transition_with_cas now a next expected).0.state_version
                  ≡ wrapping_add a.state_version 1))
          × (is_ok (transition_with_cas now a next expected).1 ≡ false
              → (transition_with_cas now a next expected).0 ≡ a))
  unfolding transition_with_cas
  transition_with_cas_iff = (
    (λ h. (ground arith, ground arith), λ h. ground arith),
    (λ h. (ground arith, ground arith), λ h. ground arith),
  )

-- The attempts that a new one comes to by successful transitions.
pub data Reachable : JobAttempt → Type 0 where
  created :
      (now : UnixTimestamp) (attempt : AttemptId) (job : JobId) (number : ℕ)
      (catalog config : Generation)
      → Reachable (new_with_generations now attempt job number catalog config)
  moved :
      (now : UnixTimestamp) (a : JobAttempt) (next : JobState) (expected : ℕ)
      → Reachable a
      → is_ok (transition_with_cas now a next expected).1 ≡ true
      → Reachable (transition_with_cas now a next expected).0

abbrev pub is_some : Option ℕ → Bool
is_some none = false
is_some (some _) = true

rank-bound : (s : JobState) → rank s ≤ 12
rank-bound s = ground arith

cas-version :
    (now : UnixTimestamp) (a : JobAttempt) (next : JobState) (expected : ℕ)
    → a.state_version ≤ suc (rank a.state)
    → is_ok (transition_with_cas now a next expected).1 ≡ true
    → (transition_with_cas now a next expected).0.state_version
      ≤ suc (rank (transition_with_cas now a next expected).0.state)
unfolding transition_with_cas
cas-version now a next expected h e =
    ground (arith, rank-increases a.state next, rank-bound next, rank-bound a.state)

-- An attempt makes at most twelve transitions: its version is at most one more than how far along
-- its state is, so that it never wraps around.
pub Reachable-version :
    (a : JobAttempt) → Reachable a → (a.state_version ≤ suc (rank a.state)) × (a.state_version ≤ 13)
unfolding new_with_generations
Reachable-version a (created now attempt job number catalog config) = (omega arith, omega arith)
Reachable-version a (moved now b next expected r e) =
    let bound = cas-version now b next expected (Reachable-version b r).0 e in
    (bound, omega (arith, bound, rank-bound (transition_with_cas now b next expected).0.state))

cas-finished :
    (now : UnixTimestamp) (a : JobAttempt) (next : JobState) (expected : ℕ)
    → is_some a.finished_at ≡ is_terminal a.state
    → is_ok (transition_with_cas now a next expected).1 ≡ true
    → is_some (transition_with_cas now a next expected).0.finished_at
      ≡ is_terminal (transition_with_cas now a next expected).0.state
unfolding transition_with_cas
cas-finished now a next expected h e = ground (arith, terminal_absorbs a.state next, h, e)

-- An attempt has a finishing time exactly in a terminal state.
pub Reachable-finished :
    (a : JobAttempt) → Reachable a → is_some a.finished_at ≡ is_terminal a.state
unfolding new_with_generations is_terminal
Reachable-finished a (created now attempt job number catalog config) = refl
Reachable-finished a (moved now b next expected r e) =
    cas-finished now b next expected (Reachable-finished b r) e
