-- ===== src/Pipeline/Bookkeeping.antt =====
-- Which statements on the tables of src/store/mod.rs only keep the books of jobs, attempts and leases.
use cache_cleaner.Base.{ℕ, ◌≡◌, refl, ap, ◌∙◌, by_bool, by_result, arith}
use cache_cleaner.Base.Text.{Text}
use cache_cleaner.Domain.Types.{JobId, AttemptId, WorkerId, Generation, ByteCount}
use cache_cleaner.System.Os.{Os}
use cache_cleaner.System.World.{World, Database}
use cache_cleaner.System.ReadOnly.{ReadsOnly}
use cache_cleaner.Store.{sql, register_job, update_job_state, create_attempt, update_attempt_state}
use cache_cleaner.Store.Leases.{acquire_lease, release_lease}
use cache_cleaner.Worker.{WorkerPool, for_job, claim_attempt, finish_attempt}

-- The log of effects, the locks of the targets, and the tables of the intents and of the results of
-- operations are as before.
unfoldable pub KeepsBooks {ℓ} : {A : Type ℓ} {S : Type 0} → World S → A × World S → Type 0
KeepsBooks w x =
    (x.1.log ≡ w.log)
    × (x.1.locked_targets ≡ w.locked_targets)
    × (x.1.db.intents ≡ w.db.intents)
    × (x.1.db.operations ≡ w.db.operations)

pub KeepsBooks-refl {ℓ} : {A : Type ℓ} {S : Type 0} (a : A) (w : World S) → KeepsBooks w (a, w)
unfolding KeepsBooks
KeepsBooks-refl a w = (refl, refl, refl, refl)

pub KeepsBooks-then {ℓ κ} :
    {A : Type ℓ} {B : Type κ} {S : Type 0} (w : World S) (x : A × World S) (y : B × World S)
    → KeepsBooks w x
    → KeepsBooks x.1 y
    → KeepsBooks w y
unfolding KeepsBooks
KeepsBooks-then w x y h k = (k.0 ∙ h.0, k.1 ∙ h.1, k.2 ∙ h.2, k.3 ∙ h.3)

pub KeepsBooks-value {ℓ κ} :
    {A : Type ℓ} {B : Type κ} {S : Type 0} (w : World S) (x : A × World S) (b : B)
    → KeepsBooks w x
    → KeepsBooks w (b, x.1)
unfolding KeepsBooks
KeepsBooks-value w x b h = h

pub ReadsOnly-KeepsBooks {ℓ} :
    {A : Type ℓ} {S : Type 0} (w : World S) (x : A × World S) → ReadsOnly w x → KeepsBooks w x
unfolding KeepsBooks ReadsOnly
ReadsOnly-KeepsBooks w x h =
    (h.0, h.2, ap (λ (d : Database). d.intents) h.1, ap (λ (d : Database). d.operations) h.1)

module _ (os : Os) where
  open os use {State}

  pub register_job-KeepsBooks :
      (job : JobId) (job_type : Text) (catalog config : Generation) (w : World State)
      → KeepsBooks w (register_job os job job_type catalog config w)
  unfolding register_job sql KeepsBooks
  register_job-KeepsBooks job job_type catalog config w =
      (ground arith, ground arith, ground arith, ground arith)

  pub update_job_state-KeepsBooks :
      (job : JobId) (state : Text) (total : ByteCount) (w : World State)
      → KeepsBooks w (update_job_state os job state total w)
  unfolding update_job_state sql KeepsBooks
  update_job_state-KeepsBooks job state total w =
      (ground arith, ground arith, ground arith, ground arith)

  create_attempt-KeepsBooks :
      (attempt : AttemptId) (job : JobId) (worker : WorkerId) (secs : ℕ) (w : World State)
      → KeepsBooks w (create_attempt os attempt job worker secs w)
  unfolding create_attempt sql KeepsBooks
  create_attempt-KeepsBooks attempt job worker secs w =
      (ground arith, ground arith, ground arith, ground arith)

  update_attempt_state-KeepsBooks :
      (attempt : AttemptId) (state : Text) (w : World State)
      → KeepsBooks w (update_attempt_state os attempt state w)
  unfolding update_attempt_state sql KeepsBooks
  update_attempt_state-KeepsBooks attempt state w =
      (ground arith, ground arith, ground arith, ground arith)

  release_lease-KeepsBooks :
      (resource : Text) (worker : WorkerId) (w : World State)
      → KeepsBooks w (release_lease os resource worker w)
  unfolding release_lease sql KeepsBooks
  release_lease-KeepsBooks resource worker w =
      (ground arith, ground arith, ground arith, ground arith)

  acquire_lease-KeepsBooks :
      (resource : Text) (worker : WorkerId) (secs : ℕ) (w : World State)
      → KeepsBooks w (acquire_lease os resource worker secs w)
  unfolding acquire_lease KeepsBooks
  acquire_lease-KeepsBooks resource worker secs w =
      (ground arith, ground arith, ground arith, ground arith)

  pub claim_attempt-KeepsBooks :
      (job : JobId) (secs : ℕ) (p : WorkerPool) (w : World State)
      → KeepsBooks w (claim_attempt os job secs p w)
  unfolding claim_attempt
  claim_attempt-KeepsBooks job secs p w =
      let x = acquire_lease os (for_job job) p.worker_id secs w in
      let hx = acquire_lease-KeepsBooks (for_job job) p.worker_id secs w in
      by_result (KeepsBooks w) x.0
        (λ b.
          let y = create_attempt os p.attempt_counter job p.worker_id secs x.1 in
          let hy =
            KeepsBooks-then w x y hx
              (create_attempt-KeepsBooks p.attempt_counter job p.worker_id secs x.1) in
          by_bool (KeepsBooks w) b
            (by_result (KeepsBooks w) y.0 (λ _. KeepsBooks-value w y _ hy)
              (λ _. KeepsBooks-value w y _ hy))
            (KeepsBooks-value w x _ hx))
        (λ _. KeepsBooks-value w x _ hx)

  pub finish_attempt-KeepsBooks :
      (attempt : AttemptId) (job : JobId) (state : Text) (p : WorkerPool) (w : World State)
      → KeepsBooks w (finish_attempt os attempt job state p w)
  unfolding finish_attempt
  finish_attempt-KeepsBooks attempt job state p w =
      let x = update_attempt_state os attempt state w in
      let hx = update_attempt_state-KeepsBooks attempt state w in
      let y = release_lease os (for_job job) p.worker_id x.1 in
      by_result (KeepsBooks w) x.0
        (λ _.
          KeepsBooks-value w y _
            (KeepsBooks-then w x y hx (release_lease-KeepsBooks (for_job job) p.worker_id x.1)))
        (λ _. KeepsBooks-value w x _ hx)
