-- ===== src/Tests/Cleaning.antt =====
-- The scanner and the pipeline at concrete inputs.
use cache_cleaner.Base.{
  ◌≡◌, ◌≤◌, refl, true, false, ◌&&◌, List, [], ◌∷◌, All, length, Result, err, is_ok, arith,
}
use cache_cleaner.Base.Text.{Text, codes}
use cache_cleaner.Domain.Types.{Outcome, returns, panics}
use cache_cleaner.Domain.Error.{CleanerError, json}
use cache_cleaner.Domain.ByteCount
use cache_cleaner.Domain.Path.{join, parse, count_normal, components}
use cache_cleaner.System.Handle.{open_root, finish_open}
use cache_cleaner.System.Entries.{read_entries_fd, collect_entries, kept_name, dir_entry}
use cache_cleaner.Config.{
  ValidatedConfig, EffectiveConfig, validated, from_raw, add_protected, unless,
}
use cache_cleaner.Config
use cache_cleaner.Settings.{DaemonConfig, default_config, raw_config}
use cache_cleaner.Resource.Pool.{FdPoolState}
use cache_cleaner.Planner.{build_plan}
use cache_cleaner.Scanner.{
  Scan, ScanResult, complete, start, scan_target_with_resource, scan_safe_recursive, acquire_permit,
  scan_entries, scan_entry, push_candidate,
}
use cache_cleaner.Scanner.Found.{IsFound}
use cache_cleaner.Scanner.Limits.{NumberedFrom, scan_target-bounded}
use cache_cleaner.Scanner.Permits.{scan_target-restores}
use cache_cleaner.Scheduler.{JobAdmissionRequest, manual_ipc, coalesce}
use cache_cleaner.Worker.{claim_attempt, finish_attempt, for_job}
use cache_cleaner.Pipeline.{CleanParams, CleanReport, Pipeline, Host, trigger_of}
use cache_cleaner.Pipeline.Collect.{collect_permits}
use cache_cleaner.Pipeline.Job.{
  run_pipeline_job, execute, run_admitted, run_claimed, finish_job, perform_job, trim_if_wanted,
  complete_job,
}
use cache_cleaner.Base.Decimal.{digits}
use cache_cleaner.Base.Sort.{sort_by}
use cache_cleaner.Scheduler.{admit_job}
use cache_cleaner.Executor.Run.{CatalogSnapshot, execute_plan, execute_operations}
use cache_cleaner.Domain.Grant.{is_authorized_for_execution, is_valid_at}
use cache_cleaner.Store.{create_attempt, sql, update_job_state, update_attempt_state}
use cache_cleaner.Store.Leases.{acquire_lease, release_lease, lease_of, put_lease}
use cache_cleaner.Auth.{authorize_plan, capabilities_of}
use cache_cleaner.Planner.{
  validate_plan, draft_of, plan_files, plan_dirs, check_operations, files_of, dirs_of,
}
use cache_cleaner.Pipeline.DryExecution.{dry_execute-KeepsBooks}
use cache_cleaner.Pipeline.Admission.{execute-ignores_dry_run}
use cache_cleaner.Pipeline.Slot.{execute-stays_queued}
use cache_cleaner.Tests.Kernel.{kernel, catalog, cache_target, world}

abbrev pub pool : FdPoolState
pool = record { active_fds = 0; max_fds = 64 }

abbrev nothing_scanned : ScanResult × Scan
nothing_scanned = (record { candidates = []; status = complete; errors = [] }, start 0 pool)

abbrev scan_of : Outcome (ScanResult × Scan) → ScanResult × Scan
scan_of (returns r) = r
scan_of panics = nothing_scanned

abbrev scanned : ScanResult × Scan
scanned = scan_of (scan_target_with_resource kernel cache_target 1 pool world).0

scan_returns :
    (scan_target_with_resource kernel cache_target 1 pool world).0 ≡ returns (scanned.0, scanned.1)
unfolding scan_target_with_resource open_root finish_open scan_safe_recursive acquire_permit
    read_entries_fd collect_entries kept_name scan_entries join parse dir_entry count_normal
    components scan_entry ByteCount.new push_candidate
scan_returns = refl

scan_target-bounded_example :
    (length scanned.0.candidates ≤ 50000)
    × All (IsFound cache_target) scanned.0.candidates
    × NumberedFrom 1 scanned.0.candidates
scan_target-bounded_example =
    scan_target-bounded kernel cache_target 1 pool world scanned.0 scanned.1 (omega arith)
      scan_returns

scan_target-restores_example : scanned.1.fd_pool ≡ pool
scan_target-restores_example =
    scan_target-restores kernel (λ _. refl) cache_target 1 pool world scanned.0 scanned.1
      scan_returns

abbrev host : Host (List Text)
host = record {
  enumerate_frozen_uids = λ s. ([], s);
  trim_mounts = λ s. (true, s);
  message = λ _. codes "error";
}

-- Files of any age may go.
abbrev pub settings : DaemonConfig
settings = record default_config {
  safety = record default_config.safety {
    whitelist_packages = [];
    protected_directory_names = codes "lib" ∷ [];
  };
  cleaning = record default_config.cleaning { min_file_age_hours = 0 };
}

abbrev job : JobAdmissionRequest
job = record {
  job_id = 5;
  source = manual_ipc;
  deep = true;
  trim = true;
  dry_run = false;
  catalog_generation = 4;
  config_generation = 6;
  admitted_at = 900;
}

abbrev pipeline : Pipeline
pipeline = record {
  config = settings;
  config_generation = 6;
  scheduler = record { queue = job ∷ []; job_counter = 6 };
  worker_pool = record { worker_id = 1; attempt_counter = 1; is_running = false };
  grant_counter = 1;
  candidate_id_counter = 1;
  fd_pool = pool;
}

abbrev dry_job : JobAdmissionRequest
dry_job = record job { dry_run = true }

abbrev params : CleanParams
params = record { deep = true; trim = false; zram_compact = false; dry_run = false }

dry_execute-KeepsBooks_example :
    let w' =
      (execute kernel host
        (record params { dry_run = true })
        catalog
        (record pipeline { scheduler = record { queue = dry_job ∷ []; job_counter = 6 } })
        world).1 in
    (w'.log ≡ []) × (w'.locked_targets ≡ []) × (w'.db.intents ≡ []) × (w'.db.operations ≡ [])
dry_execute-KeepsBooks_example =
    dry_execute-KeepsBooks kernel host (record params { dry_run = true }) catalog
      (record pipeline { scheduler = record { queue = dry_job ∷ []; job_counter = 6 } }) world refl
      (refl, tt)

execute-ignores_dry_run_example :
    execute kernel host (record params { dry_run = true }) catalog pipeline world
    ≡ execute kernel host params catalog pipeline world
execute-ignores_dry_run_example =
    execute-ignores_dry_run kernel host params catalog pipeline world job [] refl true refl

abbrev ended_of :
    Outcome (Result CleanerError CleanReport × Pipeline)
    → Result CleanerError CleanReport × Pipeline
ended_of (returns r) = r
ended_of panics = (err json, pipeline)

-- A catalog without targets, so that the job has nothing to delete.
abbrev no_targets : CatalogSnapshot
no_targets = record catalog { targets = [] }

abbrev ended : Result CleanerError CleanReport × Pipeline
ended = ended_of (execute kernel host params no_targets pipeline world).0

comes_back : (execute kernel host params no_targets pipeline world).0 ≡ returns (ended.0, ended.1)
unfolding execute run_admitted admit_job claim_attempt acquire_lease lease_of create_attempt sql
    coalesce run_claimed run_pipeline_job from_raw Config.◌>>=◌ unless raw_config collect_permits
    finish_job build_plan validate_plan draft_of plan_files plan_dirs check_operations
    authorize_plan perform_job execute_plan is_authorized_for_execution is_valid_at
    execute_operations trim_if_wanted complete_job update_job_state finish_attempt
    update_attempt_state release_lease for_job add_protected ByteCount.new components sort_by
    files_of dirs_of put_lease digits capabilities_of
comes_back = refl

execute-stays_queued_example :
    (ended.1.scheduler.queue ≡ coalesce (trigger_of params no_targets 6) job ∷ [])
    × (is_ok ended.0 ≡ true
        → (job.dry_run && params.dry_run) ≡ false
        → job.config_generation ≡ pipeline.config_generation)
execute-stays_queued_example =
    execute-stays_queued kernel host no_targets params pipeline world job [] refl ended.0 ended.1
      comes_back
