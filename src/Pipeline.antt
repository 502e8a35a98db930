-- ===== src/Pipeline.antt =====
-- src/pipeline/mod.rs: the one path from a request to the deletions and the report.
pub mod Collect
pub mod Job
pub mod DryRun
pub mod Bookkeeping
pub mod DryExecution
pub mod Admission
pub mod Staleness
pub mod Slot
pub mod Permits
use cache_cleaner.Base.{
  ℕ, Bool, true, false, ◌&&◌, List, [], ◌∷◌, ◌++◌, contains, length, ltb, if◌then◌else◌, Result, ok,
  err,
}
use cache_cleaner.Base.Text.{Text, codes}
use cache_cleaner.Domain.Types.{
  AttemptId, Generation, GrantId, UnixTimestamp, Outcome, returns, panics,
}
use cache_cleaner.Domain.ByteCount
use cache_cleaner.Domain.Generation.{next_saturating}
use cache_cleaner.Domain.Target.{Candidate, TargetDescriptor}
use cache_cleaner.Domain.Decision.{PolicyPermit, PolicyDecision, allow, deny, skip}
use cache_cleaner.Domain.Grant.{AuthorizedPlan}
use cache_cleaner.Domain.Error.{CleanerError}
use cache_cleaner.System.Os.{Os}
use cache_cleaner.System.World.{World, Act, call}
use cache_cleaner.Config.{ValidatedConfig, EffectiveConfig}
use cache_cleaner.Settings.{DaemonConfig, raw_config}
use cache_cleaner.Store.{update_job_state}
use cache_cleaner.Store.Codec.{JobResult}
use cache_cleaner.Safety.{validate_candidate}
use cache_cleaner.Policy.{evaluate_candidate_with_freezer}
use cache_cleaner.Planner.{build_plan}
use cache_cleaner.Auth.{authorize_plan}
use cache_cleaner.Executor.Run.{CatalogSnapshot, execute_plan}
use cache_cleaner.Resource.Pool.{FdPoolState}
use cache_cleaner.Scanner.{scan_target_with_resource}
use cache_cleaner.Scheduler.{
  TriggerSource, manual_ipc, periodic_maintenance, JobAdmissionRequest, SchedulerService, Trigger,
  admit_job,
}
use cache_cleaner.Worker.{WorkerPool, claim_attempt, finish_attempt}

-- `CleanParams` of src/ipc/protocol.rs
pub record CleanParams : Type 0 where
  pub deep : Bool
  pub trim : Bool
  pub zram_compact : Bool
  pub dry_run : Bool

-- The parts of `CleanReport` that depend on the job; the others are empty.
pub record CleanReport : Type 0 where
  pub total_freed_bytes : ℕ
  pub deleted_files_count : ℕ
  pub skipped_files_count : ℕ
  pub errors_count : ℕ
  pub fstrim_completed : Bool
  pub duration_ms : ℕ

-- The fields of the pipeline that change, with the counters of its parts.
pub record Pipeline : Type 0 where
  pub config : DaemonConfig
  pub config_generation : Generation
  pub scheduler : SchedulerService
  pub worker_pool : WorkerPool
  pub grant_counter : GrantId
  pub candidate_id_counter : ℕ
  pub fd_pool : FdPoolState

-- What the pipeline asks of src/system/freezer.rs and of src/engine/storage.rs.
pub record Host (State : Type 0) : Type 0 where
  pub enumerate_frozen_uids : State → List ℕ × State
  pub trim_mounts : State → Bool × State
  -- `{}` of an error
  pub message : CleanerError → Text

-- `update_config`
unfoldable pub update_config : DaemonConfig → Pipeline → Pipeline
update_config config p = record p {
  config = config;
  config_generation = next_saturating p.config_generation;
}

-- The permits, and the counter and the pool that the scanner leaves.
pub record Collected : Type 0 where
  pub permits : List PolicyPermit
  pub candidate_id_counter : ℕ
  pub fd_pool : FdPoolState

-- The configuration of a job, and the state of its scan before the first target.
abbrev pub effective : Pipeline → ValidatedConfig → EffectiveConfig
effective p validated = record { generation = p.config_generation; validated = validated }

abbrev pub none_yet : Pipeline → Collected
none_yet p = record {
  permits = [];
  candidate_id_counter = p.candidate_id_counter;
  fd_pool = p.fd_pool;
}

abbrev pub add_permit : PolicyDecision → List PolicyPermit → List PolicyPermit
add_permit (allow permit) permits = permits ++ permit ∷ []
add_permit (deny _) permits = permits
add_permit (skip _) permits = permits

-- The result of a dry run
abbrev pub dry_result : AuthorizedPlan → AttemptId → JobResult
dry_result authorized attempt = record {
  job_id = authorized.plan.job_id;
  attempt_id = attempt;
  total_reclaimed = authorized.plan.total_estimated_reclaim;
  total_operations = length authorized.plan.operations;
  successful_operations = 0;
  failed_operations = 0;
  skipped_operations = length authorized.plan.operations;
  duration_ms = 0;
}

abbrev pub report_of : JobResult → Bool → CleanReport
report_of result fstrim_completed = record {
  total_freed_bytes = result.total_reclaimed;
  deleted_files_count = result.successful_operations;
  skipped_files_count = result.skipped_operations;
  errors_count = result.failed_operations;
  fstrim_completed = fstrim_completed;
  duration_ms = result.duration_ms;
}

abbrev pub trigger_of : CleanParams → CatalogSnapshot → Generation → Trigger
trigger_of params snapshot config = record {
  source = if params.deep then manual_ipc else periodic_maintenance;
  deep = params.deep;
  trim = params.trim;
  dry_run = params.dry_run;
  catalog_gen = snapshot.generation;
  config_gen = config;
}
