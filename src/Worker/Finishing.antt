-- ===== src/Worker/Finishing.antt =====
-- `finish_attempt` of src/worker/mod.rs releases the lease of its own claim and no other.
use cache_cleaner.Base.{
  ◌≡◌, ◌∙◌, sym, ap, and-true, ==_iff, ◌≢◌, inl, inr, refl, Bool, true, ◌&&◌, none, some, List, [],
  ◌∷◌, ◌==◌, Bool-cases, arith,
}
use cache_cleaner.Base.Text.{Text, text_eq, text_eq_iff}
use cache_cleaner.Domain.Types.{JobId, AttemptId, WorkerId}
use cache_cleaner.System.Os.{Os}
use cache_cleaner.System.World.{World, LeaseRow, call}
use cache_cleaner.Store.{delete_where, sql, update_attempt_state}
use cache_cleaner.Store.Leases.{lease_of, release_lease}
use cache_cleaner.Worker.{WorkerPool, for_job, finish_attempt}
use cache_cleaner.Worker.Claims.{update_attempt_state-leases}

abbrev is_own : Text → WorkerId → LeaseRow → Bool
is_own resource worker r = text_eq r.resource_id resource && r.worker_id == worker

owned :
    (resource own : Text) (worker : WorkerId) (q r : LeaseRow)
    → q ≡ r
    → q.resource_id ≡ resource
    → is_own own worker q ≡ true
    → (resource ≡ own) × (r.worker_id ≡ worker)
owned resource own worker q r first at mine =
    let both = and-true (text_eq q.resource_id own) (q.worker_id == worker) mine in
    (
      sym at ∙ (text_eq_iff q.resource_id own).0 both.0,
      sym (ap (λ (x : LeaseRow). x.worker_id) first) ∙ (==_iff q.worker_id worker).0 both.1,
    )

lease_of-kept :
    (resource own : Text) (worker : WorkerId) (rs : List LeaseRow) (r : LeaseRow)
    → lease_of resource rs ≡ some r
    → ¬ ((resource ≡ own) × (r.worker_id ≡ worker))
    → lease_of resource (delete_where (is_own own worker) rs) ≡ some r
unfolding lease_of
lease_of-kept resource own worker [] r h foreign = ground (arith, h)
lease_of-kept resource own worker (q ∷ rs) r h foreign =
    elim (Bool-cases (text_eq q.resource_id resource)) [
      | inl same ↦
          let first : q ≡ r = ground (arith, same, h) in
          let at = (text_eq_iff q.resource_id resource).0 same in
          elim (Bool-cases (is_own own worker q)) [
            | inl mine ↦ absurd (foreign (owned resource own worker q r first at mine))
            | inr not_mine ↦ rw (not_mine, same, first) refl
          ]
      | inr other ↦
          ground (
            arith,
            other,
            lease_of-kept resource own worker rs r (ground (arith, other, h)) foreign,
          )
    ]

lease_of-released :
    (own : Text) (worker : WorkerId) (rs : List LeaseRow) (q : LeaseRow)
    → lease_of own (delete_where (is_own own worker) rs) ≡ some q
    → q.worker_id ≢ worker
unfolding lease_of
lease_of-released own worker [] q h = ground (arith, h)
lease_of-released own worker (r ∷ rs) q h = λ e. elim (Bool-cases (text_eq r.resource_id own)) [
  | inl same ↦ elim (Bool-cases (r.worker_id == worker)) [
    | inl mine ↦ lease_of-released own worker rs q (ground (arith, same, mine, h)) e
    | inr other ↦ ground (arith, same, other, h, e)
  ]
  | inr other ↦ lease_of-released own worker rs q (ground (arith, other, h)) e
]

module _ (os : Os) (attempt : AttemptId) (job : JobId) (state : Text) (p : WorkerPool)
    (w : World os.State) where
  -- The end of an attempt, also one that fails, keeps each lease that is not this worker's lease
  -- of the job.
  finish_attempt-keeps :
      (resource : Text) (r : LeaseRow)
      → lease_of resource w.db.leases ≡ some r
      → ¬ ((resource ≡ for_job job) × (r.worker_id ≡ p.worker_id))
      → lease_of resource (finish_attempt os attempt job state p w).1.db.leases ≡ some r
  unfolding finish_attempt release_lease sql
  finish_attempt-keeps resource r h foreign =
      let same = update_attempt_state-leases os attempt state w in
      let kept = lease_of-kept resource (for_job job) p.worker_id w.db.leases r h foreign in
      ground (arith, same, kept, h)

  -- Where SQLite does not fail, the worker has no lease of the job after the end of its attempt.
  pub finish_attempt-releases :
      ((s : os.State) → (os.sql_fault s).0 ≡ none)
      → (q : LeaseRow)
      → lease_of (for_job job) (finish_attempt os attempt job state p w).1.db.leases ≡ some q
      → q.worker_id ≢ p.worker_id
  unfolding finish_attempt release_lease update_attempt_state sql
  finish_attempt-releases fine q h =
      let w₀ = (call os.unix_now w).1 in
      let w₁ = (call os.sql_fault w₀).1 in
      lease_of-released (for_job job) p.worker_id w.db.leases q
        (ground (arith, fine w₀.os, fine w₁.os, h))
