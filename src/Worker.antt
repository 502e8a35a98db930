-- ===== src/Worker.antt =====
-- src/worker/mod.rs: the attempts of a worker, each under the lease of its job.
pub mod Claims
pub mod Finishing
use cache_cleaner.Base.{ℕ, Bool, true, false, ◌++◌, Result, ok, err}
use cache_cleaner.Base.Text.{Text, codes}
use cache_cleaner.Base.Decimal.{decimal}
use cache_cleaner.Base.Word.{wrapping_add}
use cache_cleaner.Domain.Types.{JobId, AttemptId, WorkerId}
use cache_cleaner.Domain.Error.{CleanerError, safety_violation, lease_claimed}
use cache_cleaner.System.Os.{Os}
use cache_cleaner.System.World.{Act}
use cache_cleaner.Store.{create_attempt, update_attempt_state}
use cache_cleaner.Store.Counters.{get_max_attempt_id}
use cache_cleaner.Store.Leases.{acquire_lease, release_lease}

-- `ResourceId::for_job`
unfoldable pub for_job : JobId → Text
for_job job = codes "job:" ++ decimal job

pub record WorkerPool : Type 0 where
  pub worker_id : WorkerId
  pub attempt_counter : ℕ
  pub is_running : Bool

module _ (os : Os) where
  open os use {State}

  -- `new`
  unfoldable pub new : WorkerId → Act State WorkerPool
  new worker w =
      let (max_id, w') = get_max_attempt_id os w in
      (
        record { worker_id = worker; attempt_counter = wrapping_add max_id 1; is_running = false },
        w',
      )

  -- `claim_attempt`
  unfoldable pub claim_attempt :
      JobId → ℕ → WorkerPool → Act State (Result CleanerError AttemptId × WorkerPool)
  claim_attempt job lease_secs p w =
      let attempt = p.attempt_counter in
      let p' = record p { attempt_counter = wrapping_add attempt 1 } in
      let (acquired, w₁) = acquire_lease os (for_job job) p.worker_id lease_secs w in
      elim acquired [
        | err e ↦ ((err e, p'), w₁)
        | ok false ↦ ((err (safety_violation (lease_claimed job)), p'), w₁)
        | ok true ↦
            let (created, w₂) = create_attempt os attempt job p.worker_id lease_secs w₁ in
            elim created [
              | err e ↦ ((err e, p'), w₂)
              | ok _ ↦ ((ok attempt, record p' { is_running = true }), w₂)
            ]
      ]

  -- `finish_attempt`; a lease that cannot be released is left.
  unfoldable pub finish_attempt :
      AttemptId
      → JobId
      → Text
      → WorkerPool
      → Act State (Result CleanerError (Unit {0}) × WorkerPool)
  finish_attempt attempt job state p w =
      let (updated, w₁) = update_attempt_state os attempt state w in
      elim updated [
        | err e ↦ ((err e, p), w₁)
        | ok _ ↦
            let w₂ = (release_lease os (for_job job) p.worker_id w₁).1 in
            ((ok tt, record p { is_running = false }), w₂)
      ]
