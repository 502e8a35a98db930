-- ===== src/Tests/Planning.antt =====
-- Policy, configuration and planning at concrete inputs.
use cache_cleaner.Base.{◌≡◌, refl, true, false, none, some, List, [], ◌∷◌, length, ok}
use cache_cleaner.Base.Text.{codes}
use cache_cleaner.Base.Sort.{sort_by}
use cache_cleaner.Domain.Types.{returns}
use cache_cleaner.Domain.ByteCount
use cache_cleaner.Domain.Target.{Candidate, Validated}
use cache_cleaner.Domain.Decision.{PolicyPermit, exceeds_retention_age}
use cache_cleaner.Domain.Plan.{PlannedPlan, delete_dir_empty}
use cache_cleaner.Domain.Plan
use cache_cleaner.Config.{
  RawConfig, ValidatedConfig, validated, add_protected, unless, ◌>>=◌, from_raw,
  platform_invariant_protected_paths,
}
use cache_cleaner.Config.Bounds.{IsWithinBounds, from_raw-IsWithinBounds}
use cache_cleaner.Planner.{
  files_of, dirs_of, put_path, plan_file, collect_dependencies, retain_defined, dependencies_of,
  plan_dir, plan_files, plan_dirs, draft_of, check_dependencies, check_operations, validate_plan,
  build_plan,
}
use cache_cleaner.Planner.Numbering.{IsNumbered}
use cache_cleaner.Planner.Total.{build_plan-IsNumbered}
use cache_cleaner.Planner.Children.{ChildrenFirst, build_plan-ChildrenFirst}
use cache_cleaner.Tests.Kernel.{file_identity}

abbrev raw : RawConfig
raw = record {
  maintenance_interval_secs = some 600;
  min_screen_off_secs = none;
  max_soc_temp_c = none;
  max_battery_temp_c = none;
  min_app_cache_age_days = some 1;
  min_file_age_hours = none;
  app_cache_threshold_mb = none;
  dry_run = none;
  clean_app_cache = none;
  clean_code_cache = none;
  clean_tombstones = none;
  clean_oem_logs = none;
  clean_temp_apks = none;
  whitelist_packages = some (codes "com.b" ∷ []);
  protected_paths = some [];
  fstrim_interval_hours = none;
  vacuum_db_interval_hours = none;
}

abbrev config : ValidatedConfig
config = validated raw 52428800 platform_invariant_protected_paths

accepted : from_raw raw ≡ returns (ok config)
unfolding from_raw ByteCount.new add_protected unless ◌>>=◌
accepted = refl

abbrev candidate_in : Candidate
candidate_in = record {
  candidate_id = 1;
  target_id = codes "app";
  rel_path = codes "d/a";
  identity = file_identity;
  size_bytes = 100;
  mtime = 500;
  atime = none;
  is_dir = false;
  is_symlink = false;
}

abbrev candidate_dir : Candidate
candidate_dir = record candidate_in { candidate_id = 2; rel_path = codes "d"; is_dir = true }

abbrev validated_of : Candidate → Validated
validated_of c = record {
  candidate = c;
  trusted_root_dev = 1;
  trusted_root_ino = 2;
  validated_at = 1000;
}

abbrev permit_of : Candidate → PolicyPermit
permit_of c = record {
  candidate = validated_of c;
  priority = 100;
  reason = exceeds_retention_age;
  decided_at = 1000;
}

-- The directory first: the planner turns them around.
abbrev permits : List PolicyPermit
permits = permit_of candidate_dir ∷ permit_of candidate_in ∷ []

abbrev plan_d : PlannedPlan
plan_d = record {
  plan_id = 328705;
  job_id = 5;
  catalog_generation = 4;
  config_generation = 6;
  operations =
      record {
        op_id = 1;
        op_type = Plan.delete_file (codes "app") (codes "d/a") file_identity 100;
        dependencies = [];
        estimated_reclaim = 100;
      }
      ∷ record {
        op_id = 2;
        op_type = delete_dir_empty (codes "app") (codes "d") file_identity;
        dependencies = 1 ∷ [];
        estimated_reclaim = 0;
      }
      ∷ [];
  total_estimated_reclaim = 100;
  created_at = 990;
}

planned : build_plan 990 5 4 6 permits ≡ ok plan_d
unfolding build_plan draft_of plan_files plan_dirs plan_file plan_dir put_path files_of dirs_of
    dependencies_of collect_dependencies retain_defined validate_plan check_operations
    check_dependencies sort_by
planned = refl

from_raw-IsWithinBounds_example : IsWithinBounds config
from_raw-IsWithinBounds_example = from_raw-IsWithinBounds raw config accepted

build_plan-IsNumbered_example :
    IsNumbered 1 plan_d.operations × (length plan_d.operations ≡ length permits)
build_plan-IsNumbered_example = build_plan-IsNumbered 990 5 4 6 permits plan_d planned

build_plan-ChildrenFirst_example : ChildrenFirst plan_d.operations
build_plan-ChildrenFirst_example = build_plan-ChildrenFirst 990 5 4 6 permits plan_d planned
