-- ===== src/Worker/Claims.antt =====
-- The claims of src/worker/mod.rs exclude each other.
use cache_cleaner.Base.{ℕ, ◌≡◌, ◌≢◌, ◌<◌, true, false, none, some, any, ◌==◌, is_ok, ok, arith}
use cache_cleaner.Base.Text.{Text}
use cache_cleaner.Domain.Types.{JobId, AttemptId, WorkerId}
use cache_cleaner.System.Os.{Os}
use cache_cleaner.System.World.{World, AttemptRow, LeaseRow, call}
use cache_cleaner.Store.{has_job, sql, create_attempt, update_attempt_state}
use cache_cleaner.Store.Leases.{lease_of, lease_row, acquire_lease}
use cache_cleaner.Store.Exclusion.{acquire_lease-excludes, acquire_lease-holds, acquire_lease-free}
use cache_cleaner.Worker.{WorkerPool, for_job, claim_attempt}

create_attempt-leases :
    (os : Os) (attempt : AttemptId) (job : JobId) (worker : WorkerId) (secs : ℕ)
    (w : World os.State)
    → (create_attempt os attempt job worker secs w).1.db.leases ≡ w.db.leases
unfolding create_attempt sql
create_attempt-leases os attempt job worker secs w = ground arith

pub update_attempt_state-leases :
    (os : Os) (attempt : AttemptId) (state : Text) (w : World os.State)
    → (update_attempt_state os attempt state w).1.db.leases ≡ w.db.leases
unfolding update_attempt_state sql
update_attempt_state-leases os attempt state w = ground arith

module _ (os : Os) (job : JobId) (secs : ℕ) (p : WorkerPool) (w : World os.State) where
  -- A worker that claimed a job has the job's lease for the given time, and runs.
  pub claim_attempt-holds :
      (attempt : AttemptId)
      → (claim_attempt os job secs p w).0.0 ≡ ok attempt
      → (lease_of (for_job job) (claim_attempt os job secs p w).1.db.leases
          ≡ some (lease_row (for_job job) p.worker_id (os.unix_now w.os).0 secs))
        × ((claim_attempt os job secs p w).0.1.is_running ≡ true)
  unfolding claim_attempt
  claim_attempt-holds attempt h =
      let got = acquire_lease-holds os (for_job job) p.worker_id secs w in
      let w₁ = (acquire_lease os (for_job job) p.worker_id secs w).1 in
      let same = create_attempt-leases os p.attempt_counter job p.worker_id secs w₁ in
      (ground (arith, got, same, h), ground (arith, h))

  -- While another worker has the unexpired lease of a job, a claim fails and changes no table.
  pub claim_attempt-excludes :
      (r : LeaseRow)
      → lease_of (for_job job) w.db.leases ≡ some r
      → r.worker_id ≢ p.worker_id
      → (os.unix_now w.os).0 < r.expires_at
      → (is_ok (claim_attempt os job secs p w).0.0 ≡ false)
        × ((claim_attempt os job secs p w).1.db ≡ w.db)
  unfolding claim_attempt
  claim_attempt-excludes r h other lt =
      let (refused, kept) =
        acquire_lease-excludes os (for_job job) p.worker_id secs w r h other lt in
      (ground (arith, refused), ground (arith, refused, kept))

-- Where SQLite does not fail, nobody has the lease of the job, and the number of the attempt is
-- unused, a claim of a job that the store does not know fails, and it leaves the worker with the
-- lease of the job for the whole time.
pub claim_attempt-leaks :
    (os : Os) (job : JobId) (secs : ℕ) (p : WorkerPool) (w : World os.State)
    → ((s : os.State) → (os.sql_fault s).0 ≡ none)
    → has_job w.db job ≡ false
    → any (λ (r : AttemptRow). r.attempt_id == p.attempt_counter) w.db.attempts ≡ false
    → lease_of (for_job job) w.db.leases ≡ none
    → (is_ok (claim_attempt os job secs p w).0.0 ≡ false)
      × (lease_of (for_job job) (claim_attempt os job secs p w).1.db.leases
          ≡ some (lease_row (for_job job) p.worker_id (os.unix_now w.os).0 secs))
unfolding claim_attempt create_attempt sql
claim_attempt-leaks os job secs p w fine unknown unused free =
    let acquired = acquire_lease-free os (for_job job) p.worker_id secs w fine free in
    let got = acquire_lease-holds os (for_job job) p.worker_id secs w acquired.0 in
    let w₁ = (acquire_lease os (for_job job) p.worker_id secs w).1 in
    let w₂ = (call os.unix_now w₁).1 in
    let w₃ = (call os.sql_fault w₂).1 in
    let missing : has_job w₃.db job ≡ false = rw (acquired.1) unknown in
    let new_row : any (λ (r : AttemptRow). r.attempt_id == p.attempt_counter) w₃.db.attempts
        ≡ false =
      rw (acquired.2) unused in
    (
      ground (arith, acquired.0, fine w₂.os, missing, new_row),
      ground (arith, acquired.0, fine w₂.os, missing, new_row, got),
    )
