-- ===== src/Pipeline/DryRun.antt =====
-- The work of src/pipeline/mod.rs on a dry run only reads.
use cache_cleaner.Base.{
  ℕ, ◌≡◌, Bool, true, not, ◌&&◌, List, [], ◌∷◌, Result, ok, err, by_bool, by_bool_eq, by_result,
  arith,
}
use cache_cleaner.Base.Text.{Text}
use cache_cleaner.Domain.Types.{AttemptId, Generation, UnixTimestamp, Outcome, returns, panics}
use cache_cleaner.Domain.Target.{Candidate, TargetDescriptor}
use cache_cleaner.Domain.Decision.{PolicyPermit}
use cache_cleaner.Domain.Grant.{AuthorizedPlan}
use cache_cleaner.Domain.Error.{CleanerError}
use cache_cleaner.System.Os.{Os}
use cache_cleaner.System.World.{World, call}
use cache_cleaner.System.ReadOnly.{
  ReadsOnly, ReadsOnly-refl, ReadsOnly-then, ReadsOnly-value, call-ReadsOnly,
}
use cache_cleaner.Config.{EffectiveConfig, from_raw}
use cache_cleaner.Settings.{raw_config}
use cache_cleaner.Safety.{validate_candidate}
use cache_cleaner.Planner.{build_plan}
use cache_cleaner.Auth.{authorize_plan}
use cache_cleaner.Executor.Run.{CatalogSnapshot}
use cache_cleaner.Scanner.{scan_target_with_resource}
use cache_cleaner.Scanner.Found.{by_outcome}
use cache_cleaner.Scanner.Reading.{scan_target-ReadsOnly}
use cache_cleaner.Scheduler.{JobAdmissionRequest}
use cache_cleaner.Pipeline.{Pipeline, Host, Collected, effective, none_yet}
use cache_cleaner.Pipeline.Collect.{judge_candidates, collect_permits}
use cache_cleaner.Pipeline.Job.{perform_job, trim_if_wanted, finish_job, run_pipeline_job}

-- The same for what may panic or fail.
pub by_attempt :
    {A B : Type 0} (P : B → Type 0) {f : A → B} {g : CleanerError → B} {y : B}
    (o : Outcome (Result CleanerError A))
    → P y
    → ((e : CleanerError) → P (g e))
    → ((a : A) → P (f a))
    → P (elim o [ panics ↦ y | returns (err e) ↦ g e | returns (ok a) ↦ f a ])
by_attempt P panics hy hg hf = hy
by_attempt P (returns (err e)) hy hg hf = hg e
by_attempt P (returns (ok a)) hy hg hf = hf a

module _ (os : Os) where
  open os use {State}

  judge_candidates-ReadsOnly :
      (target : TargetDescriptor) (config : EffectiveConfig) (now : UnixTimestamp) (frozen : Bool)
      (cs : List Candidate) (permits : List PolicyPermit) (w : World State)
      → ReadsOnly w (judge_candidates os target config now frozen cs permits w)
  unfolding judge_candidates
  judge_candidates-ReadsOnly target config now frozen [] permits w = ReadsOnly-refl _ w
  judge_candidates-ReadsOnly target config now frozen (c ∷ cs) permits w =
      let x = call os.unix_now w in
      let hx = call-ReadsOnly os.unix_now w in
      by_result (ReadsOnly w) (validate_candidate x.0 c target)
        (λ v.
          let y = call os.unix_now x.1 in
          let hy = ReadsOnly-then w x y hx (call-ReadsOnly os.unix_now x.1) in
          ReadsOnly-then w y _ hy (judge_candidates-ReadsOnly target config now frozen cs _ y.1))
        (λ _.
          ReadsOnly-then w x _ hx
            (judge_candidates-ReadsOnly target config now frozen cs permits x.1))

  collect_permits-ReadsOnly :
      (config : EffectiveConfig) (frozen_uids : List ℕ) (now : UnixTimestamp)
      (targets : List (Text × TargetDescriptor)) (c : Collected) (w : World State)
      → ReadsOnly w (collect_permits os config frozen_uids now targets c w)
  unfolding collect_permits
  collect_permits-ReadsOnly config frozen_uids now [] c w = ReadsOnly-refl _ w
  collect_permits-ReadsOnly config frozen_uids now ((name, target) ∷ rest) c w =
      let x = call os.is_cancelled w in
      let hx = call-ReadsOnly os.is_cancelled w in
      let y = scan_target_with_resource os target c.candidate_id_counter c.fd_pool x.1 in
      let hy =
        ReadsOnly-then w x y hx
          (scan_target-ReadsOnly os target c.candidate_id_counter c.fd_pool x.1) in
      by_bool (ReadsOnly w) x.0 (ReadsOnly-value w x _ hx) (
        by_outcome (ReadsOnly w) y.0 (ReadsOnly-value w y _ hy) (λ r _.
          ReadsOnly-then w _ _
            (ReadsOnly-then w y _ hy
              (judge_candidates-ReadsOnly target config now _ r.0.candidates c.permits y.1))
            (collect_permits-ReadsOnly config frozen_uids now rest _ _)))

module _ (os : Os) (host : Host os.State) (admission : JobAdmissionRequest)
    (dry : admission.dry_run ≡ true) (attempt : AttemptId) (snapshot : CatalogSnapshot) where
  open os use {State}

  perform_job-ReadsOnly :
      (a : AuthorizedPlan) (config : Generation) (w : World State)
      → ReadsOnly w (perform_job os host admission a snapshot config attempt w)
  unfolding perform_job
  perform_job-ReadsOnly a config w =
      by_bool_eq (ReadsOnly w) admission.dry_run (λ _. ReadsOnly-refl _ w)
        (λ real. absurd (ground (arith, dry, real)))

  trim_if_wanted-ReadsOnly : (w : World State) → ReadsOnly w (trim_if_wanted os host admission w)
  unfolding trim_if_wanted
  trim_if_wanted-ReadsOnly w =
      by_bool (ReadsOnly w) (admission.trim && not admission.dry_run)
        (call-ReadsOnly host.trim_mounts w) (ReadsOnly-refl _ w)

  finish_job-ReadsOnly :
      (permits : List PolicyPermit) (p : Pipeline) (w : World State)
      → ReadsOnly w (finish_job os host admission attempt snapshot permits p w)
  unfolding finish_job
  finish_job-ReadsOnly permits p w =
      let x = call os.unix_now w in
      let hx = call-ReadsOnly os.unix_now w in
      by_result (ReadsOnly w)
        (build_plan x.0 admission.job_id snapshot.generation admission.config_generation permits)
        (λ plan.
          let y = call os.unix_now x.1 in
          let hy = ReadsOnly-then w x y hx (call-ReadsOnly os.unix_now x.1) in
          by_result (ReadsOnly w)
            (authorize_plan p.grant_counter y.0 plan snapshot.generation 300
              admission.config_generation).1
            (λ a.
              let z = perform_job os host admission a snapshot p.config_generation attempt y.1 in
              let hz = ReadsOnly-then w y z hy (perform_job-ReadsOnly a p.config_generation y.1) in
              by_result (ReadsOnly w) z.0
                (λ _.
                  let t = trim_if_wanted os host admission z.1 in
                  ReadsOnly-value w t _ (ReadsOnly-then w z t hz (trim_if_wanted-ReadsOnly z.1)))
                (λ _. ReadsOnly-value w z _ hz))
            (λ _. ReadsOnly-value w y _ hy))
        (λ _. ReadsOnly-value w x _ hx)

  pub run_pipeline_job-ReadsOnly :
      (p : Pipeline) (w : World State)
      → ReadsOnly w (run_pipeline_job os host admission attempt snapshot p w)
  unfolding run_pipeline_job
  run_pipeline_job-ReadsOnly p w =
      by_attempt (ReadsOnly w) (from_raw (raw_config p.config admission.dry_run))
        (ReadsOnly-refl _ w) (λ _. ReadsOnly-refl _ w)
        (λ validated.
          let x = call host.enumerate_frozen_uids w in
          let y = call os.unix_now x.1 in
          let hy =
            ReadsOnly-then w x y (call-ReadsOnly host.enumerate_frozen_uids w)
              (call-ReadsOnly os.unix_now x.1) in
          let z =
            collect_permits os (effective p validated) x.0 y.0 snapshot.targets (none_yet p) y.1 in
          let hz = ReadsOnly-then w y z hy (
            collect_permits-ReadsOnly os (effective p validated) x.0 y.0 snapshot.targets
              (none_yet p) y.1) in
          by_outcome (ReadsOnly w) z.0 (ReadsOnly-value w z _ hz)
            (λ c _. ReadsOnly-then w z _ hz (finish_job-ReadsOnly c.permits _ z.1)))

  -- The work of `run_pipeline_job` on a dry run writes nothing to the log of effects and leaves the
  -- tables and the locks of the targets as they are, however it ends.
  dry_run-changes_nothing :
      (p : Pipeline) (w : World State)
      → let w' = (run_pipeline_job os host admission attempt snapshot p w).1 in
        (w'.log ≡ w.log) × (w'.db ≡ w.db) × (w'.locked_targets ≡ w.locked_targets)
  unfolding ReadsOnly
  dry_run-changes_nothing p w = run_pipeline_job-ReadsOnly p w
