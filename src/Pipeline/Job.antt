-- ===== src/Pipeline/Job.antt =====
-- `run_pipeline_job` and `execute` of src/pipeline/mod.rs. The line of the audit log is left out.
use cache_cleaner.Base.{Bool, true, false, not, ◌&&◌, List, ◌++◌, Result, ok, err}
use cache_cleaner.Base.Text.{codes}
use cache_cleaner.Domain.Types.{AttemptId, Generation, Outcome, returns, panics}
use cache_cleaner.Domain.ByteCount
use cache_cleaner.Domain.Decision.{PolicyPermit}
use cache_cleaner.Domain.Grant.{AuthorizedPlan}
use cache_cleaner.Domain.Error.{CleanerError}
use cache_cleaner.System.Os.{Os}
use cache_cleaner.System.World.{World, Act, call}
use cache_cleaner.Config.{from_raw}
use cache_cleaner.Settings.{raw_config}
use cache_cleaner.Store.{update_job_state}
use cache_cleaner.Store.Codec.{JobResult}
use cache_cleaner.Planner.{build_plan}
use cache_cleaner.Auth.{authorize_plan}
use cache_cleaner.Executor.Run.{CatalogSnapshot, execute_plan}
use cache_cleaner.Scheduler.{JobAdmissionRequest, SchedulerService, admit_job}
use cache_cleaner.Worker.{claim_attempt, finish_attempt}
use cache_cleaner.Pipeline.{
  CleanParams, CleanReport, Pipeline, Host, effective, none_yet, dry_result, report_of, trigger_of,
}
use cache_cleaner.Pipeline.Collect.{collect_permits}

module _ (os : Os) (host : Host os.State) where
  open os use {State}

  -- An operation of the pipeline, which may panic.
  abbrev pub Operation : Type 0
  Operation = Pipeline → Act State (Outcome (Result CleanerError CleanReport × Pipeline))

  -- Steps 9 and 10
  unfoldable pub perform_job :
      JobAdmissionRequest
      → AuthorizedPlan
      → CatalogSnapshot
      → Generation
      → AttemptId
      → Act State (Result CleanerError JobResult)
  perform_job admission authorized snapshot config attempt w = elim admission.dry_run [
    | true ↦ (ok (dry_result authorized attempt), w)
    | false ↦ execute_plan os authorized snapshot config attempt w
  ]

  -- Step 11
  unfoldable pub trim_if_wanted : JobAdmissionRequest → Act State Bool
  trim_if_wanted admission w = elim (admission.trim && not admission.dry_run) [
    | true ↦ call host.trim_mounts w
    | false ↦ (false, w)
  ]

  -- Steps 7 to 12
  unfoldable pub finish_job :
      JobAdmissionRequest → AttemptId → CatalogSnapshot → List PolicyPermit → Operation
  finish_job admission attempt snapshot permits p w =
      let (planned_at, w₁) = call os.unix_now w in
      elim (build_plan planned_at admission.job_id snapshot.generation admission.config_generation
        permits) [
          | err e ↦ (returns (err e, p), w₁)
          | ok plan ↦
              let (granted_at, w₂) = call os.unix_now w₁ in
              let (counter, authorized) =
                authorize_plan p.grant_counter granted_at plan snapshot.generation 300
                  admission.config_generation in
              let p' = record p { grant_counter = counter } in
              elim authorized [
                | err e ↦ (returns (err e, p'), w₂)
                | ok a ↦
                    let (done, w₃) =
                      perform_job admission a snapshot p.config_generation attempt w₂ in
                    elim done [
                      | err e ↦ (returns (err e, p'), w₃)
                      | ok result ↦
                          let (trimmed, w₄) = trim_if_wanted admission w₃ in
                          (returns (ok (report_of result trimmed), p'), w₄)
                    ]
              ]
        ]

  -- `run_pipeline_job`
  unfoldable pub run_pipeline_job : JobAdmissionRequest → AttemptId → CatalogSnapshot → Operation
  run_pipeline_job admission attempt snapshot p w =
      elim (from_raw (raw_config p.config admission.dry_run)) [
        | panics ↦ (panics, w)
        | returns (err e) ↦ (returns (err e, p), w)
        | returns (ok validated) ↦
            let (frozen_uids, w₁) = call host.enumerate_frozen_uids w in
            let (now, w₂) = call os.unix_now w₁ in
            let (collected, w₃) =
              collect_permits os (effective p validated) frozen_uids now snapshot.targets
                (none_yet p) w₂ in
            elim collected [
              | panics ↦ (panics, w₃)
              | returns c ↦
                  let p' = record p {
                    candidate_id_counter = c.candidate_id_counter;
                    fd_pool = c.fd_pool;
                  } in
                  finish_job admission attempt snapshot c.permits p' w₃
            ]
      ]

  -- The end of a job that returned a report
  unfoldable pub complete_job : JobAdmissionRequest → AttemptId → CleanReport → Operation
  complete_job admission attempt report p w = elim (ByteCount.new report.total_freed_bytes) [
    | panics ↦ (panics, w)
    | returns total ↦
        let (updated, w₁) = update_job_state os admission.job_id (codes "COMPLETED") total w in
        elim updated [
          | err e ↦ (returns (err e, p), w₁)
          | ok _ ↦
              let ((finished, pool), w₂) =
                finish_attempt os attempt admission.job_id (codes "SUCCESS") p.worker_pool w₁ in
              let p' = record p { worker_pool = pool } in
              elim finished [
                | err e ↦ (returns (err e, p'), w₂)
                | ok _ ↦ (returns (ok report, p'), w₂)
              ]
        ]
  ]

  -- The end of a job that failed, whose own errors are ignored
  unfoldable pub fail_job : JobAdmissionRequest → AttemptId → CleanerError → Operation
  fail_job admission attempt e p w =
      let w₁ = (update_job_state os admission.job_id (codes "FAILED") 0 w).1 in
      let ((_, pool), w₂) =
        finish_attempt os attempt admission.job_id (codes "FAILED: " ++ host.message e)
          p.worker_pool w₁ in
      (returns (err e, record p { worker_pool = pool }), w₂)

  -- What follows the claim
  unfoldable pub run_claimed : JobAdmissionRequest → AttemptId → CatalogSnapshot → Operation
  run_claimed admission attempt snapshot p w =
      let (ran, w₁) = run_pipeline_job admission attempt snapshot p w in
      elim ran [
        | panics ↦ (panics, w₁)
        | returns (ok report, p') ↦ complete_job admission attempt report p' w₁
        | returns (err e, p') ↦ fail_job admission attempt e p' w₁
      ]

  -- `execute` behind the admission
  unfoldable pub run_admitted :
      CatalogSnapshot
      → Pipeline
      → (Result CleanerError JobAdmissionRequest × SchedulerService) × World State
      → Outcome (Result CleanerError CleanReport × Pipeline) × World State
  run_admitted snapshot p ((admitted, scheduler), w₁) =
      let p₁ = record p { scheduler = scheduler } in
      elim admitted [
        | err e ↦ (returns (err e, p₁), w₁)
        | ok admission ↦
            let ((claimed, pool), w₂) = claim_attempt os admission.job_id 300 p₁.worker_pool w₁ in
            let p₂ = record p₁ { worker_pool = pool } in
            elim claimed [
              | err e ↦ (returns (err e, p₂), w₂)
              | ok attempt ↦ run_claimed admission attempt snapshot p₂ w₂
            ]
      ]

  -- `execute`, with the snapshot of the catalog after the discovery
  unfoldable pub execute : CleanParams → CatalogSnapshot → Operation
  execute params snapshot p w =
      run_admitted snapshot p
        (admit_job os (trigger_of params snapshot p.config_generation) p.scheduler w)
