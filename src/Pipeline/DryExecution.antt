-- ===== src/Pipeline/DryExecution.antt =====
-- An execution of a dry run by src/pipeline/mod.rs only keeps books.
use cache_cleaner.Base.{
  ◌≡◌, refl, subst, true, List, [], ◌∷◌, ◌++◌, All, List-cases, inl, inr, Result, ok, err,
  by_result, arith,
}
use cache_cleaner.Base.Text.{codes}
use cache_cleaner.Domain.Types.{AttemptId, Outcome, returns, panics}
use cache_cleaner.Domain.ByteCount
use cache_cleaner.Domain.Error.{CleanerError}
use cache_cleaner.System.Os.{Os}
use cache_cleaner.System.World.{World, call}
use cache_cleaner.System.ReadOnly.{call-ReadsOnly}
use cache_cleaner.Executor.Run.{CatalogSnapshot}
use cache_cleaner.Store.{register_job, update_job_state}
use cache_cleaner.Scanner.Found.{by_outcome}
use cache_cleaner.Scheduler.{
  Trigger, JobAdmissionRequest, SchedulerService, source_text, coalesce, request_of, admit_job,
}
use cache_cleaner.Worker.{claim_attempt, finish_attempt}
use cache_cleaner.Pipeline.{CleanParams, CleanReport, Pipeline, Host, trigger_of}
use cache_cleaner.Pipeline.Job.{
  run_pipeline_job, complete_job, fail_job, run_claimed, run_admitted, execute,
}
use cache_cleaner.Pipeline.DryRun.{run_pipeline_job-ReadsOnly}
use cache_cleaner.Pipeline.Bookkeeping.{
  KeepsBooks, KeepsBooks-refl, KeepsBooks-then, KeepsBooks-value, ReadsOnly-KeepsBooks,
  register_job-KeepsBooks, update_job_state-KeepsBooks, claim_attempt-KeepsBooks,
  finish_attempt-KeepsBooks,
}

abbrev pub IsDry : JobAdmissionRequest → Type 0
IsDry r = r.dry_run ≡ true

by_list :
    {A B : Type 0} (P : B → Type 0) {y : B} {f : A → List A → B} (xs : List A)
    → P y
    → ((x : A) (rest : List A) → P (f x rest))
    → P (elim xs [ [] ↦ y | x ∷ rest ↦ f x rest ])
by_list P [] hy hf = hy
by_list P (x ∷ rest) hy hf = hf x rest

by_ended :
    {A B C : Type 0} (P : B → Type 0) {f : A → C → B} {g : CleanerError → C → B} {y : B}
    (o : Outcome (Result CleanerError A × C))
    → P y
    → ((a : A) (c : C) → P (f a c))
    → ((e : CleanerError) (c : C) → P (g e c))
    → P (elim o [ panics ↦ y | returns (ok a, c) ↦ f a c | returns (err e, c) ↦ g e c ])
by_ended P panics hy hf hg = hy
by_ended P (returns (ok a, c)) hy hf hg = hf a c
by_ended P (returns (err e, c)) hy hf hg = hg e c

module _ (os : Os) (t : Trigger) (dry : t.dry_run ≡ true) (s : SchedulerService)
    (queue_dry : All IsDry s.queue) (w : World os.State) where
  admit_job-KeepsBooks : KeepsBooks w (admit_job os t s w)
  unfolding admit_job
  admit_job-KeepsBooks =
      by_list (KeepsBooks w) s.queue
        (let x =
            register_job os s.job_counter (source_text t.source) t.catalog_gen t.config_gen w in
          let hx =
            register_job-KeepsBooks os s.job_counter (source_text t.source) t.catalog_gen
              t.config_gen w in
          let y = call os.unix_now x.1 in
          by_result (KeepsBooks w) x.0
            (λ _. KeepsBooks-value w y _ (
              KeepsBooks-then w x y hx
                (ReadsOnly-KeepsBooks x.1 y (call-ReadsOnly os.unix_now x.1))))
            (λ _. KeepsBooks-value w x _ hx))
        (λ _ _. KeepsBooks-refl _ w)

  admit_job-IsDry : (r : JobAdmissionRequest) → (admit_job os t s w).0.0 ≡ ok r → IsDry r
  unfolding admit_job coalesce request_of
  admit_job-IsDry r h = elim (List-cases s.queue) [
    | inl empty ↦ ground (arith, empty, dry, h)
    | inr (existing, rest, queued) ↦
        let front = (subst (All IsDry) queued queue_dry).0 in ground (arith, queued, dry, h, front)
  ]

module _ (os : Os) (host : Host os.State) (snapshot : CatalogSnapshot) where
  open os use {State}

  complete_job-KeepsBooks :
      (admission : JobAdmissionRequest) (attempt : AttemptId) (report : CleanReport) (p : Pipeline)
      (w : World State)
      → KeepsBooks w (complete_job os host admission attempt report p w)
  unfolding complete_job
  complete_job-KeepsBooks admission attempt report p w =
      by_outcome (KeepsBooks w) (ByteCount.new report.total_freed_bytes) (KeepsBooks-refl _ w)
        (λ total _.
          let x = update_job_state os admission.job_id (codes "COMPLETED") total w in
          let hx = update_job_state-KeepsBooks os admission.job_id (codes "COMPLETED") total w in
          let y = finish_attempt os attempt admission.job_id (codes "SUCCESS") p.worker_pool x.1 in
          let hy = KeepsBooks-then w x y hx (
            finish_attempt-KeepsBooks os attempt admission.job_id (codes "SUCCESS") p.worker_pool
              x.1) in
          by_result (KeepsBooks w) x.0
            (λ _.
              by_result (KeepsBooks w) y.0.0 (λ _. KeepsBooks-value w y _ hy)
                (λ _. KeepsBooks-value w y _ hy))
            (λ _. KeepsBooks-value w x _ hx))

  fail_job-KeepsBooks :
      (admission : JobAdmissionRequest) (attempt : AttemptId) (e : CleanerError) (p : Pipeline)
      (w : World State)
      → KeepsBooks w (fail_job os host admission attempt e p w)
  unfolding fail_job
  fail_job-KeepsBooks admission attempt e p w =
      let x = update_job_state os admission.job_id (codes "FAILED") 0 w in
      let hx = update_job_state-KeepsBooks os admission.job_id (codes "FAILED") 0 w in
      let text = codes "FAILED: " ++ host.message e in
      let y = finish_attempt os attempt admission.job_id text p.worker_pool x.1 in
      KeepsBooks-value w y _ (
        KeepsBooks-then w x y hx
          (finish_attempt-KeepsBooks os attempt admission.job_id text p.worker_pool x.1))

  run_claimed-KeepsBooks :
      (admission : JobAdmissionRequest) (attempt : AttemptId) (p : Pipeline) (w : World State)
      → IsDry admission
      → KeepsBooks w (run_claimed os host admission attempt snapshot p w)
  unfolding run_claimed
  run_claimed-KeepsBooks admission attempt p w dry =
      let x = run_pipeline_job os host admission attempt snapshot p w in
      let hx =
        ReadsOnly-KeepsBooks w x
          (run_pipeline_job-ReadsOnly os host admission dry attempt snapshot p w) in
      by_ended (KeepsBooks w) x.0 (KeepsBooks-value w x _ hx)
        (λ report p'.
          KeepsBooks-then w x _ hx (complete_job-KeepsBooks admission attempt report p' x.1))
        (λ e p'. KeepsBooks-then w x _ hx (fail_job-KeepsBooks admission attempt e p' x.1))

  run_admitted-KeepsBooks :
      (p : Pipeline) (admitted : Result CleanerError JobAdmissionRequest) (s : SchedulerService)
      (w : World State)
      → ((r : JobAdmissionRequest) → admitted ≡ ok r → IsDry r)
      → KeepsBooks w (run_admitted os host snapshot p ((admitted, s), w))
  unfolding run_admitted
  run_admitted-KeepsBooks p (err e) s w dry = KeepsBooks-refl _ w
  run_admitted-KeepsBooks p (ok r) s w dry =
      let x = claim_attempt os r.job_id 300 p.worker_pool w in
      let hx = claim_attempt-KeepsBooks os r.job_id 300 p.worker_pool w in
      by_result (KeepsBooks w) x.0.0
        (λ attempt. KeepsBooks-then w x _ hx (
          run_claimed-KeepsBooks r attempt (record p { scheduler = s; worker_pool = x.0.1 }) x.1
            (dry r refl)))
        (λ _. KeepsBooks-value w x _ hx)

-- While no job but dry runs is queued, the execution of a dry run deletes nothing and writes no intent
-- and no result of an operation: the log of effects, the locks of the targets and these two
-- tables stay as they are, however the execution ends.
pub dry_execute-KeepsBooks :
    (os : Os) (host : Host os.State) (params : CleanParams) (snapshot : CatalogSnapshot)
    (p : Pipeline) (w : World os.State)
    → params.dry_run ≡ true
    → All IsDry p.scheduler.queue
    → let w' = (execute os host params snapshot p w).1 in
      (w'.log ≡ w.log)
      × (w'.locked_targets ≡ w.locked_targets)
      × (w'.db.intents ≡ w.db.intents)
      × (w'.db.operations ≡ w.db.operations)
unfolding execute KeepsBooks
dry_execute-KeepsBooks os host params snapshot p w dry queue_dry =
    let t = trigger_of params snapshot p.config_generation in
    let x = admit_job os t p.scheduler w in
    KeepsBooks-then w x (execute os host params snapshot p w)
      (admit_job-KeepsBooks os t dry p.scheduler queue_dry w)
      (run_admitted-KeepsBooks os host snapshot p x.0.0 x.0.1 x.1
        (admit_job-IsDry os t dry p.scheduler queue_dry w))
