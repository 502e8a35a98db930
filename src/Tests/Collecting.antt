-- ===== src/Tests/Collecting.antt =====
-- The permits and the plan of a job at a concrete input.
use cache_cleaner.Base.{◌≡◌, refl, false, [], All, Exists, Result, ok, err}
use cache_cleaner.Base.Text.{Text}
use cache_cleaner.Domain.Types.{age_secs, Outcome, returns, panics}
use cache_cleaner.Domain.Plan.{PlannedPlan}
use cache_cleaner.Domain.Target.{is_mutation_allowed, TargetDescriptor}
use cache_cleaner.Domain.Error.{CleanerError}
use cache_cleaner.Domain.ByteCount
use cache_cleaner.Domain.Path.{join, parse, count_normal, components}
use cache_cleaner.System.Handle.{open_root, finish_open}
use cache_cleaner.System.Entries.{read_entries_fd, collect_entries, kept_name, dir_entry}
use cache_cleaner.Config.{EffectiveConfig, validated}
use cache_cleaner.Settings.{raw_config}
use cache_cleaner.Resource.Pool.{acquire_fd_permit_timeout, take_permit}
use cache_cleaner.Planner.{build_plan}
use cache_cleaner.Planner.Origin.{ComesFrom}
use cache_cleaner.Scanner.{
  scan_target_with_resource, scan_safe_recursive, acquire_permit, scan_entries, scan_entry,
  push_candidate,
}
use cache_cleaner.Pipeline.{Collected}
use cache_cleaner.Pipeline.Collect.{collect_permits, judge_candidates}
use cache_cleaner.Base.Sort.{sort_by}
use cache_cleaner.Safety.{validate_candidate, verify_target_root_safety, check_protected}
use cache_cleaner.Policy.{
  is_category_disabled, is_whitelisted, is_bytecode, evaluate_candidate_with_freezer,
}
use cache_cleaner.Planner.{
  plan_file, check_dependencies, validate_plan, draft_of, plan_files, plan_dirs, check_operations,
  files_of, dirs_of,
}
use cache_cleaner.Pipeline.Permits.{IsPermitted, planned-IsPermitted}
use cache_cleaner.Tests.Kernel.{kernel, catalog, world}
use cache_cleaner.Tests.Cleaning.{settings, pool}

abbrev config : EffectiveConfig
config = record { generation = 6; validated = validated (raw_config settings false) 0 [] }

abbrev none_collected : Collected
none_collected = record { permits = []; candidate_id_counter = 1; fd_pool = pool }

abbrev collected_of : Outcome Collected → Collected
collected_of (returns c) = c
collected_of panics = none_collected

abbrev collected : Collected
collected =
    collected_of (collect_permits kernel config [] 1000 catalog.targets none_collected world).0

collects :
    (collect_permits kernel config [] 1000 catalog.targets none_collected world).0
    ≡ returns collected
unfolding collect_permits scan_target_with_resource open_root finish_open scan_safe_recursive
    acquire_permit read_entries_fd collect_entries kept_name scan_entries join parse dir_entry
    count_normal components scan_entry ByteCount.new push_candidate judge_candidates
    validate_candidate evaluate_candidate_with_freezer
collects = refl

abbrev empty_plan : PlannedPlan
empty_plan = record {
  plan_id = 0;
  job_id = 5;
  catalog_generation = 4;
  config_generation = 6;
  operations = [];
  total_estimated_reclaim = 0;
  created_at = 1000;
}

abbrev plan_of : Result CleanerError PlannedPlan → PlannedPlan
plan_of (ok plan) = plan
plan_of (err _) = empty_plan

abbrev plan : PlannedPlan
plan = plan_of (build_plan 1000 5 4 6 collected.permits)

builds : build_plan 1000 5 4 6 collected.permits ≡ ok plan
unfolding collect_permits scan_target_with_resource open_root finish_open scan_safe_recursive
    acquire_permit read_entries_fd collect_entries kept_name scan_entries join parse dir_entry
    count_normal components scan_entry ByteCount.new push_candidate judge_candidates
    validate_candidate evaluate_candidate_with_freezer build_plan validate_plan draft_of files_of
    dirs_of plan_files plan_dirs check_operations sort_by acquire_fd_permit_timeout take_permit
    is_mutation_allowed verify_target_root_safety check_protected is_category_disabled
    is_whitelisted is_bytecode age_secs raw_config plan_file check_dependencies
builds = refl

planned-IsPermitted_example :
    All
      (ComesFrom (λ permit.
        Exists
          (λ (t : Text × TargetDescriptor). IsPermitted config 1000 t.1 permit)
          catalog.targets))
      plan.operations
planned-IsPermitted_example =
    planned-IsPermitted kernel config 1000 [] catalog.targets none_collected world collected 1000 5
      4 6 plan refl collects builds
