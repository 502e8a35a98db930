-- ===== src/Executor/Phases.antt =====
-- How the steps of `execute_plan` of src/executor/mod.rs move the phase of the log.
use cache_cleaner.Base.{
  ℕ, ◌≡◌, refl, ap, ◌∙◌, ◌⊎◌, ==_refl, true, false, List, [], ◌∷◌, ◌++◌, Result, ok, err, inl, inr,
  arith,
}
use cache_cleaner.Base.Text.{Text, text_eq_refl}
use cache_cleaner.Domain.Types.{AttemptId, OperationId}
use cache_cleaner.Domain.Intent.{mutating}
use cache_cleaner.Domain.Error.{CleanerError}
use cache_cleaner.System.Os.{Os}
use cache_cleaner.System.World.{
  World, Effect, intent_committed, intent_updated, unlinked, result_recorded,
}
use cache_cleaner.System.Quiet.{Unlinks}
use cache_cleaner.Store.Effects.{Appends}
use cache_cleaner.Store.Codec.{OperationStatus, intent_state_text}
use cache_cleaner.Executor.Progress.{Progress, final_result, end_skipped, end_failed}
use cache_cleaner.Executor.Protocol.{
  Phase, resting, committed, marked, removed, broken, next, phase_of, rests, is_broken,
  run_from-append,
}

pub phase-snoc :
    (a : AttemptId) (k l : List Effect) (e : Effect)
    → k ≡ l ++ e ∷ []
    → phase_of a k ≡ next a (phase_of a l) e
phase-snoc a k l e h = ap (phase_of a) h ∙ run_from-append a resting l (e ∷ [])

-- A step that went on left its attempt between operations, and one that ended the run did not
-- break the order.
unfoldable pub Lawful :
    {Fd S : Type 0} → AttemptId → Result CleanerError (Progress Fd) × World S → Type 0
Lawful a x = elim x.0 [
  | ok _ ↦ rests (phase_of a x.1.log) ≡ true
  | err _ ↦ is_broken (phase_of a x.1.log) ≡ false
]

pub rests-alive : (p : Phase) → rests p ≡ true → is_broken p ≡ false
rests-alive resting h = refl
rests-alive (marked _) h = refl
rests-alive (committed _) h = ground arith
rests-alive (removed _) h = ground arith
rests-alive broken h = ground arith

pub Lawful-alive :
    {Fd S : Type 0} (a : AttemptId) (x : Result CleanerError (Progress Fd) × World S)
    → Lawful a x
    → is_broken (phase_of a x.1.log) ≡ false
unfolding Lawful
Lawful-alive a (ok p, w) h = rests-alive (phase_of a w.log) h
Lawful-alive a (err e, w) h = h

pub Lawful-rests :
    {Fd S : Type 0} (a : AttemptId) (x : Result CleanerError (Progress Fd) × World S)
    (p : Progress Fd)
    → x.0 ≡ ok p
    → Lawful a x
    → rests (phase_of a x.1.log) ≡ true
unfolding Lawful
Lawful-rests a (ok q, w) p e h = h
Lawful-rests a (err f, w) p e h = absurd (ground (arith, e))

pub Lawful-log :
    {Fd S : Type 0} (a : AttemptId) (x : Result CleanerError (Progress Fd) × World S) (w : World S)
    → w.log ≡ x.1.log
    → Lawful a x
    → Lawful a (x.0, w)
unfolding Lawful
Lawful-log a (ok p, v) w e h = ap (λ l. rests (phase_of a l)) e ∙ h
Lawful-log a (err f, v) w e h = ap (λ l. is_broken (phase_of a l)) e ∙ h

-- What an update of the intent in flight does to the phase.
pub settles :
    (a : AttemptId) (op : OperationId) (p : Phase) (s : Text)
    → (p ≡ marked op) ⊎ (p ≡ removed op)
    → next a p (intent_updated a op s) ≡ resting
settles a op p s (inl e) = rw e (ground (arith, ==_refl a, ==_refl op))
settles a op p s (inr e) = rw e (ground (arith, ==_refl a, ==_refl op))

pub marks :
    (a : AttemptId) (op : OperationId)
    → next a (committed op) (intent_updated a op (intent_state_text mutating)) ≡ marked op
marks a op = ground (arith, ==_refl a, ==_refl op, text_eq_refl (intent_state_text mutating))

pub commits :
    (a : AttemptId) (op : OperationId) (p : Phase)
    → rests p ≡ true
    → next a p (intent_committed a op) ≡ committed op
commits a op resting h = ground (arith, ==_refl a)
commits a op (marked _) h = ground (arith, ==_refl a)
commits a op (committed _) h = ground arith
commits a op (removed _) h = ground arith
commits a op broken h = ground arith

module _ (os : Os) (a : AttemptId) where
  open os use {State, Fd}

  -- The intent of the operation is in flight.
  abbrev pub InFlight : OperationId → World State → Type 0
  InFlight op w = (phase_of a w.log ≡ marked op) ⊎ (phase_of a w.log ≡ removed op)

  pub Lawful-ok :
      (p : Progress Fd) (w : World State) → rests (phase_of a w.log) ≡ true → Lawful a (ok p, w)
  unfolding Lawful
  Lawful-ok p w h = h

  pub Lawful-err :
      (e : CleanerError) (w : World State)
      → is_broken (phase_of a w.log) ≡ false
      → Lawful {Fd = Fd} {S = State} a (err e, w)
  unfolding Lawful
  Lawful-err e w h = h

  pub end_failed-Lawful :
      (op : OperationId) (s : OperationStatus) (p : Progress Fd) (w : World State)
      → rests (phase_of a w.log) ≡ true
      → Lawful a (ok (end_failed os op s p w).0, (end_failed os op s p w).1)
  unfolding end_failed final_result Lawful
  end_failed-Lawful op s p w h = h

  pub end_skipped-Lawful :
      (op : OperationId) (s : OperationStatus) (p : Progress Fd) (w : World State)
      → rests (phase_of a w.log) ≡ true
      → Lawful a (ok (end_skipped os op s p w).0, (end_skipped os op s p w).1)
  unfolding end_skipped final_result Lawful
  end_skipped-Lawful op s p w h = h

  pub record-rests :
      (l : List Effect) (x : Result CleanerError (Unit {0}) × World State) (job : ℕ)
      (op : OperationId)
      → phase_of a l ≡ resting
      → Appends l (result_recorded job op) x
      → rests (phase_of a x.1.log) ≡ true
  unfolding Appends
  record-rests l (ok _, w) job op h e =
      ap rests (phase-snoc a w.log l (result_recorded job op) e)
      ∙ ap (λ q. rests (next a q (result_recorded job op))) h
  record-rests l (err _, w) job op h e = ap (λ k. rests (phase_of a k)) e ∙ ap rests h

  -- The phase after an update of the intent in flight.
  pub update-phase :
      (l : List Effect) (x : Result CleanerError (Unit {0}) × World State) (op : OperationId)
      (s : Text)
      → (phase_of a l ≡ marked op) ⊎ (phase_of a l ≡ removed op)
      → Appends l (intent_updated a op s) x
      → (is_broken (phase_of a x.1.log) ≡ false)
        × ((u : Unit {0}) → x.0 ≡ ok u → phase_of a x.1.log ≡ resting)
  unfolding Appends
  update-phase l (ok _, w) op s h e =
      let now = phase-snoc a w.log l (intent_updated a op s) e ∙ settles a op (phase_of a l) s h in
      (ap is_broken now, λ _ _. now)
  update-phase l (err _, w) op s (inl h) e =
      (ap (λ k. is_broken (phase_of a k)) e ∙ ap is_broken h, λ u no. absurd (ground (arith, no)))
  update-phase l (err _, w) op s (inr h) e =
      (ap (λ k. is_broken (phase_of a k)) e ∙ ap is_broken h, λ u no. absurd (ground (arith, no)))

  pub mark-phase :
      (l : List Effect) (x : Result CleanerError (Unit {0}) × World State) (op : OperationId)
      → phase_of a l ≡ committed op
      → Appends l (intent_updated a op (intent_state_text mutating)) x
      → (is_broken (phase_of a x.1.log) ≡ false)
        × ((u : Unit {0}) → x.0 ≡ ok u → phase_of a x.1.log ≡ marked op)
  unfolding Appends
  mark-phase l (ok _, w) op h e =
      let now =
        phase-snoc a w.log l (intent_updated a op (intent_state_text mutating)) e
        ∙ (ap (λ q. next a q (intent_updated a op (intent_state_text mutating))) h ∙ marks a op) in
      (ap is_broken now, λ _ _. now)
  mark-phase l (err _, w) op h e =
      (ap (λ k. is_broken (phase_of a k)) e ∙ ap is_broken h, λ u no. absurd (ground (arith, no)))

  pub commit-phase :
      (l : List Effect) (x : Result CleanerError (Unit {0}) × World State) (op : OperationId)
      → rests (phase_of a l) ≡ true
      → Appends l (intent_committed a op) x
      → ((u : Unit {0}) → x.0 ≡ ok u → phase_of a x.1.log ≡ committed op)
        × ((f : CleanerError) → x.0 ≡ err f → rests (phase_of a x.1.log) ≡ true)
  unfolding Appends
  commit-phase l (ok _, w) op h e = (
    λ _ _. phase-snoc a w.log l (intent_committed a op) e ∙ commits a op (phase_of a l) h,
    λ f no. absurd (ground (arith, no)),
  )
  commit-phase l (err _, w) op h e =
      (λ u no. absurd (ground (arith, no)), λ _ _. ap (λ k. rests (phase_of a k)) e ∙ h)

  pub delete-phase :
      (l : List Effect) (x : Result CleanerError (Unit {0}) × World State) (op : OperationId)
      → phase_of a l ≡ marked op
      → Unlinks l x
      → (phase_of a x.1.log ≡ marked op) ⊎ (phase_of a x.1.log ≡ removed op)
  unfolding Unlinks
  delete-phase l x op h (inl e) = inl (ap (phase_of a) e ∙ h)
  delete-phase l x op h (inr (name, (b, e))) =
      inr (phase-snoc a x.1.log l (unlinked name b) e ∙ ap (λ q. next a q (unlinked name b)) h)
