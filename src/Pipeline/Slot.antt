-- ===== src/Pipeline/Slot.antt =====
-- Over the runs of src/pipeline/mod.rs the slot of the scheduler is never emptied, so that each later
-- request joins the first one.
use cache_cleaner.Base.{
  ◌≡◌, refl, sym, ap, ◌∙◌, true, false, ◌&&◌, List, ◌∷◌, Result, ok, is_ok, by_result, arith,
}
use cache_cleaner.Domain.Types.{returns}
use cache_cleaner.Domain.Error.{CleanerError}
use cache_cleaner.System.Os.{Os}
use cache_cleaner.System.World.{World}
use cache_cleaner.Executor.Run.{CatalogSnapshot}
use cache_cleaner.Scanner.Limits.{Delivers, delivered}
use cache_cleaner.Scheduler.{JobAdmissionRequest, SchedulerService, coalesce}
use cache_cleaner.Scheduler.Coalescing.{admit_job-queued}
use cache_cleaner.Worker.{claim_attempt}
use cache_cleaner.Pipeline.{CleanParams, CleanReport, Pipeline, Host, trigger_of}
use cache_cleaner.Pipeline.Staleness.{Leaves, run_claimed-Leaves}
use cache_cleaner.Pipeline.Job.{run_admitted, execute}

module _ (os : Os) (host : Host os.State) (snapshot : CatalogSnapshot) where
  open os use {State}

  run_admitted-Leaves :
      (admission : JobAdmissionRequest) (p : Pipeline) (scheduler : SchedulerService)
      (w : World State)
      → Delivers
          (Leaves admission p.config_generation scheduler)
          (run_admitted os host snapshot p ((ok admission, scheduler), w))
  unfolding run_admitted Delivers
  run_admitted-Leaves admission p scheduler w =
      let P = Delivers (Leaves admission p.config_generation scheduler) in
      let p₁ = record p { scheduler = scheduler } in
      let x = claim_attempt os admission.job_id 300 p.worker_pool w in
      by_result P x.0.0 (λ attempt. run_claimed-Leaves os host admission attempt snapshot _ x.1)
        (λ _. (refl, λ h _. absurd (ground (arith, h))))

  module _ (params : CleanParams) (p : Pipeline) (w : World State) (r : JobAdmissionRequest)
      (rest : List JobAdmissionRequest) (queued : p.scheduler.queue ≡ r ∷ rest) where
    -- An execution that comes back, with a report or an error, leaves the job that was queued at
    -- the front of the queue, with its number and generations; and it comes back with a report
    -- only if that job is still a dry run or its configuration is the current one.
    pub execute-stays_queued :
        (result : Result CleanerError CleanReport) (p' : Pipeline)
        → (execute os host params snapshot p w).0 ≡ returns (result, p')
        → (p'.scheduler.queue ≡ coalesce (trigger_of params snapshot p.config_generation) r ∷ rest)
          × (is_ok result ≡ true
              → (r.dry_run && params.dry_run) ≡ false
              → r.config_generation ≡ p.config_generation)
    unfolding execute coalesce
    execute-stays_queued result p' h =
        let t = trigger_of params snapshot p.config_generation in
        let one = admit_job-queued os t p.scheduler w r rest queued in
        let q = coalesce t r in
        let s = record p.scheduler { queue = q ∷ rest } in
        let ran = ap (λ a. (run_admitted os host snapshot p a).0) one in
        let left =
          delivered (Leaves q p.config_generation s)
            (run_admitted os host snapshot p ((ok q, s), w)) (result, p')
            (run_admitted-Leaves q p s w) (sym ran ∙ h) in
        (ap (λ (x : SchedulerService). x.queue) left.0, left.1)
