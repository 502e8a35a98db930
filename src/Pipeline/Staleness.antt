-- ===== src/Pipeline/Staleness.antt =====
-- The jobs of src/pipeline/mod.rs keep the slot of the scheduler, and with it the generation that
-- the first of them was admitted under.
use cache_cleaner.Base.{
  ℕ, ◌≡◌, ◌≢◌, refl, sym, ap, ◌∙◌, subst, inl, inr, true, false, List, Result, ok, err, is_ok, ◌==◌,
  ==_iff, Bool-cases, by_result, by_result_eq, arith,
}
use cache_cleaner.Base.Text.{codes}
use cache_cleaner.Domain.Types.{
  AttemptId, Generation, GrantId, UnixTimestamp, Outcome, returns, panics,
}
use cache_cleaner.Domain.ByteCount
use cache_cleaner.Domain.Decision.{PolicyPermit}
use cache_cleaner.Domain.Plan.{PlannedPlan}
use cache_cleaner.Domain.Grant.{AuthorizedPlan, is_valid_at, is_authorized_for_execution}
use cache_cleaner.Domain.Error.{CleanerError}
use cache_cleaner.System.Os.{Os}
use cache_cleaner.System.World.{World, call}
use cache_cleaner.Config.{from_raw}
use cache_cleaner.Settings.{raw_config}
use cache_cleaner.Store.{update_job_state}
use cache_cleaner.Planner.{build_plan}
use cache_cleaner.Auth.{authorize_plan}
use cache_cleaner.Executor.Run.{CatalogSnapshot, execute_plan}
use cache_cleaner.Scanner.Found.{by_outcome}
use cache_cleaner.Scanner.Limits.{Delivers, delivered}
use cache_cleaner.Scheduler.{JobAdmissionRequest, SchedulerService}
use cache_cleaner.Worker.{finish_attempt}
use cache_cleaner.Pipeline.{CleanReport, Pipeline, Host, effective, none_yet}
use cache_cleaner.Pipeline.Collect.{collect_permits}
use cache_cleaner.Pipeline.DryRun.{by_attempt}
use cache_cleaner.Pipeline.Job.{
  perform_job, finish_job, run_pipeline_job, complete_job, fail_job, run_claimed,
}

-- A grant has the generation that its plan was authorized under.
authorize_plan-config :
    (counter : GrantId) (now : UnixTimestamp) (plan : PlannedPlan) (catalog : Generation) (ttl : ℕ)
    (config : Generation) (a : AuthorizedPlan)
    → (authorize_plan counter now plan catalog ttl config).1 ≡ ok a
    → a.grant.config_generation ≡ config
unfolding authorize_plan
authorize_plan-config counter now plan catalog ttl config a h = ground (arith, h)

-- A plan is not executed under another generation than its grant's.
execute_plan-stale :
    (os : Os) (a : AuthorizedPlan) (snapshot : CatalogSnapshot) (config : Generation)
    (attempt : AttemptId) (w : World os.State)
    → a.grant.config_generation ≢ config
    → is_ok (execute_plan os a snapshot config attempt w).0 ≡ false
unfolding execute_plan is_authorized_for_execution is_valid_at
execute_plan-stale os a snapshot config attempt w other = ground (arith, other)

execute_plan-current :
    (os : Os) (a : AuthorizedPlan) (snapshot : CatalogSnapshot) (config : Generation)
    (attempt : AttemptId) (w : World os.State)
    → is_ok (execute_plan os a snapshot config attempt w).0 ≡ true
    → a.grant.config_generation ≡ config
execute_plan-current os a snapshot config attempt w done =
    elim (Bool-cases (a.grant.config_generation == config)) [
      | inl same ↦ (==_iff a.grant.config_generation config).0 same
      | inr other ↦
          let stale =
            execute_plan-stale os a snapshot config attempt w (λ e. ground (arith, e, other)) in
          absurd (ground (arith, done, stale))
    ]

-- What a job leaves: the scheduler as it was, and a report only if it is a dry run or was admitted
-- under the generation `config`.
abbrev pub Leaves :
    JobAdmissionRequest
    → Generation
    → SchedulerService
    → Result CleanerError CleanReport × Pipeline
    → Type 0
Leaves admission config scheduler x =
    (x.1.scheduler ≡ scheduler)
    × (is_ok x.0 ≡ true → admission.dry_run ≡ false → admission.config_generation ≡ config)

-- A property of the match on what a job returned.
by_ran :
    {B : Type 0} (P : B → Type 0) {f : CleanReport → Pipeline → B} {g : CleanerError → Pipeline → B}
    {y : B} (o : Outcome (Result CleanerError CleanReport × Pipeline))
    → P y
    → ((r : CleanReport) (p : Pipeline) → o ≡ returns (ok r, p) → P (f r p))
    → ((e : CleanerError) (p : Pipeline) → o ≡ returns (err e, p) → P (g e p))
    → P (elim o [ panics ↦ y | returns (ok r, p) ↦ f r p | returns (err e, p) ↦ g e p ])
by_ran P panics hy hf hg = hy
by_ran P (returns (ok r, p)) hy hf hg = hf r p refl
by_ran P (returns (err e, p)) hy hf hg = hg e p refl

module _ (os : Os) (host : Host os.State) (admission : JobAdmissionRequest) (attempt : AttemptId)
    (snapshot : CatalogSnapshot) where
  open os use {State}

  abbrev pub Q :
      Generation
      → SchedulerService
      → Outcome (Result CleanerError CleanReport × Pipeline) × World State
      → Type 0
  Q config scheduler = Delivers (Leaves admission config scheduler)

  perform_job-current :
      (a : AuthorizedPlan) (config : Generation) (w : World State)
      → is_ok (perform_job os host admission a snapshot config attempt w).0 ≡ true
      → admission.dry_run ≡ false
      → a.grant.config_generation ≡ config
  unfolding perform_job
  perform_job-current a config w done real =
      execute_plan-current os a snapshot config attempt w (ground (arith, done, real))

  finish_job-Leaves :
      (permits : List PolicyPermit) (p : Pipeline) (w : World State)
      → Q p.config_generation p.scheduler
          (finish_job os host admission attempt snapshot permits p w)
  unfolding finish_job Delivers
  finish_job-Leaves permits p w =
      let P = Q p.config_generation p.scheduler in
      let x = call os.unix_now w in
      by_result P
        (build_plan x.0 admission.job_id snapshot.generation admission.config_generation permits)
        (λ plan.
          let y = call os.unix_now x.1 in
          let granted =
            authorize_plan p.grant_counter y.0 plan snapshot.generation 300
              admission.config_generation in
          by_result_eq P granted.1
            (λ a authorized.
              let config =
                authorize_plan-config p.grant_counter y.0 plan snapshot.generation 300
                  admission.config_generation a authorized in
              let z = perform_job os host admission a snapshot p.config_generation attempt y.1 in
              by_result_eq P z.0
                (λ result done. (
                  refl,
                  λ _ real.
                      sym config
                      ∙ perform_job-current a p.config_generation y.1 (ap is_ok done) real,
                ))
                (λ _ _. (refl, λ h _. absurd (ground (arith, h)))))
            (λ _ _. (refl, λ h _. absurd (ground (arith, h)))))
        (λ _. (refl, λ h _. absurd (ground (arith, h))))

  run_pipeline_job-Leaves :
      (p : Pipeline) (w : World State)
      → Q p.config_generation p.scheduler (run_pipeline_job os host admission attempt snapshot p w)
  unfolding run_pipeline_job Delivers
  run_pipeline_job-Leaves p w =
      let P = Q p.config_generation p.scheduler in
      by_attempt P (from_raw (raw_config p.config admission.dry_run)) tt
        (λ _. (refl, λ h _. absurd (ground (arith, h))))
        (λ validated.
          let x = call host.enumerate_frozen_uids w in
          let y = call os.unix_now x.1 in
          let z =
            collect_permits os (effective p validated) x.0 y.0 snapshot.targets (none_yet p) y.1 in
          by_outcome P z.0 tt (λ c _. finish_job-Leaves c.permits _ z.1))

  complete_job-Leaves :
      (report : CleanReport) (p : Pipeline) (w : World State) (config : Generation)
      → (admission.dry_run ≡ false → admission.config_generation ≡ config)
      → Q config p.scheduler (complete_job os host admission attempt report p w)
  unfolding complete_job Delivers
  complete_job-Leaves report p w config current =
      let P = Q config p.scheduler in
      by_outcome P (ByteCount.new report.total_freed_bytes) tt (λ total _.
        let x = update_job_state os admission.job_id (codes "COMPLETED") total w in
        by_result P x.0
          (λ _.
            let y =
              finish_attempt os attempt admission.job_id (codes "SUCCESS") p.worker_pool x.1 in
            by_result P y.0.0 (λ _. (refl, λ _ real. current real))
              (λ _. (refl, λ h _. absurd (ground (arith, h)))))
          (λ _. (refl, λ h _. absurd (ground (arith, h)))))

  pub run_claimed-Leaves :
      (p : Pipeline) (w : World State)
      → Q p.config_generation p.scheduler (run_claimed os host admission attempt snapshot p w)
  unfolding run_claimed fail_job Delivers
  run_claimed-Leaves p w =
      let P = Q p.config_generation p.scheduler in
      let x = run_pipeline_job os host admission attempt snapshot p w in
      let left = run_pipeline_job-Leaves p w in
      by_ran P x.0 tt
        (λ report p' done.
          let (same, current) =
            delivered (Leaves admission p.config_generation p.scheduler) x (ok report, p') left
              done in
          subst
            (λ s. Q p.config_generation s (complete_job os host admission attempt report p' x.1))
            same (complete_job-Leaves report p' x.1 p.config_generation (current refl)))
        (λ e p' done.
          let (same, _) =
            delivered (Leaves admission p.config_generation p.scheduler) x (err e, p') left done in
          (same, λ h _. absurd (ground (arith, h))))
