-- ===== src/Settings.antt =====
-- src/config.rs: the daemon's settings, their defaults, and their checks. The texts of the other
-- fixed paths are not used by what is modelled.
pub mod Files
pub mod Loading
pub mod Gap
use cache_cleaner.Base.{
  ℕ, ◌*◌, Bool, true, false, not, ◌||◌, none, some, List, [], ◌∷◌, ltb, Result, ok, err, ◌>>=◌,
  ◌>>◌, reject,
}
use cache_cleaner.Base.Text.{Text, codes}
use cache_cleaner.Base.Float.{Float, millionths, whole, float_lt, float_gt}
use cache_cleaner.Domain.Error.{CleanerError, config_error}
use cache_cleaner.Config.{RawConfig}

abbrev pub config_path : Text
config_path = codes "/data/adb/cleaner/config.toml"

abbrev pub socket_path : Text
socket_path = codes "/data/adb/cleaner/run/daemon"

pub record CleaningRulesConfig : Type 0 where
  pub clean_app_cache : Bool
  pub clean_webview_cache : Bool
  pub clean_image_caches : Bool
  pub clean_thumbnails : Bool
  pub clean_code_cache : Bool
  pub clean_oem_logs : Bool
  pub clean_crash_dumps : Bool
  pub keep_recent_crash_files : ℕ
  pub clean_temp_apks : Bool
  pub min_file_age_hours : ℕ

pub record OptimizationConfig : Type 0 where
  pub zram_compaction : Bool
  pub compact_memory : Bool
  pub cgroup_memory_reclaim : Bool
  pub cgroup_reclaim_amount_mb : ℕ
  pub freezer_aware_cleaning : Bool
  pub psi_adaptive_monitoring : Bool
  pub psi_moderate_stall_ms : ℕ
  pub psi_critical_stall_ms : ℕ
  pub psi_cooldown_secs : ℕ
  pub f2fs_gc_urgent : Bool
  pub fstrim_partitions : Bool
  pub trim_mount_points : List Text

pub data SafetyMode : Type 0 where
  safe balanced aggressive : SafetyMode

pub record SafetyConfig : Type 0 where
  pub mode : SafetyMode
  pub whitelist_packages : List Text
  pub protected_directory_names : List Text

pub record DaemonConfig : Type 0 where
  pub maintenance_interval_secs : ℕ
  pub socket_path : Text
  pub abstract_socket_name : Text
  pub require_screen_off : Bool
  pub require_charging_for_deep_clean : Bool
  pub min_screen_off_secs : ℕ
  pub max_soc_temp_c : Float
  pub max_battery_temp_c : Float
  pub cleaning : CleaningRulesConfig
  pub optimization : OptimizationConfig
  pub safety : SafetyConfig

abbrev pub default_whitelist_packages : List Text
default_whitelist_packages =
    codes "com.android.systemui"
    ∷ codes "com.android.settings"
    ∷ codes "com.android.providers.settings"
    ∷ codes "com.android.providers.media"
    ∷ codes "com.google.android.gms"
    ∷ codes "com.google.android.googlequicksearchbox"
    ∷ []

abbrev pub default_protected_directory_names : List Text
default_protected_directory_names =
    codes ".nomedia"
    ∷ codes "shared_prefs"
    ∷ codes "databases"
    ∷ codes "lib"
    ∷ codes "files"
    ∷ codes "keystore"
    ∷ codes "fpdata"
    ∷ []

abbrev pub default_trim_mounts : List Text
default_trim_mounts = codes "/data" ∷ codes "/cache" ∷ codes "/metadata" ∷ []

abbrev pub default_cleaning : CleaningRulesConfig
default_cleaning = record {
  clean_app_cache = true;
  clean_webview_cache = true;
  clean_image_caches = true;
  clean_thumbnails = false;
  clean_code_cache = false;
  clean_oem_logs = false;
  clean_crash_dumps = false;
  keep_recent_crash_files = 3;
  clean_temp_apks = false;
  min_file_age_hours = 24;
}

abbrev pub default_optimization : OptimizationConfig
default_optimization = record {
  zram_compaction = false;
  compact_memory = false;
  cgroup_memory_reclaim = false;
  cgroup_reclaim_amount_mb = 128;
  freezer_aware_cleaning = true;
  psi_adaptive_monitoring = true;
  psi_moderate_stall_ms = 150;
  psi_critical_stall_ms = 250;
  psi_cooldown_secs = 45;
  f2fs_gc_urgent = true;
  fstrim_partitions = false;
  trim_mount_points = default_trim_mounts;
}

abbrev pub default_safety : SafetyConfig
default_safety = record {
  mode = safe;
  whitelist_packages = default_whitelist_packages;
  protected_directory_names = default_protected_directory_names;
}

abbrev pub default_config : DaemonConfig
default_config = record {
  maintenance_interval_secs = 3600 * 6;
  socket_path = socket_path;
  abstract_socket_name = codes "cleaner_daemon";
  require_screen_off = true;
  require_charging_for_deep_clean = true;
  min_screen_off_secs = 180;
  max_soc_temp_c = whole 44;
  max_battery_temp_c = millionths 39500000;
  cleaning = default_cleaning;
  optimization = default_optimization;
  safety = default_safety;
}

abbrev pub is_empty : List Text → Bool
is_empty [] = true
is_empty (_ ∷ _) = false

-- `validate`
unfoldable pub validate : DaemonConfig → Result CleanerError (Unit {0})
validate c = do
  reject (ltb c.maintenance_interval_secs 30)
      (config_error (codes "maintenance_interval_secs must be at least 30 seconds"))
  reject (float_lt c.max_soc_temp_c 20 || float_gt c.max_soc_temp_c 95)
      (config_error (codes "max_soc_temp_c must be between 20.0°C and 95.0°C"))
  reject (float_lt c.max_battery_temp_c 20 || float_gt c.max_battery_temp_c 65)
      (config_error (codes "max_battery_temp_c must be between 20.0°C and 65.0°C"))
  reject (is_empty c.safety.protected_directory_names)
      (config_error (codes "safety.protected_directory_names cannot be empty"))
  ok tt

-- The raw configuration of a job, in `run_pipeline_job` of src/pipeline/mod.rs.
unfoldable pub raw_config : DaemonConfig → Bool → RawConfig
raw_config c dry_run = record {
  maintenance_interval_secs = some c.maintenance_interval_secs;
  min_screen_off_secs = some c.min_screen_off_secs;
  max_soc_temp_c = some c.max_soc_temp_c;
  max_battery_temp_c = some c.max_battery_temp_c;
  min_app_cache_age_days = none;
  min_file_age_hours = some c.cleaning.min_file_age_hours;
  app_cache_threshold_mb = none;
  dry_run = some dry_run;
  clean_app_cache = some c.cleaning.clean_app_cache;
  clean_code_cache = some c.cleaning.clean_code_cache;
  clean_tombstones = some c.cleaning.clean_crash_dumps;
  clean_oem_logs = some c.cleaning.clean_oem_logs;
  clean_temp_apks = some c.cleaning.clean_temp_apks;
  whitelist_packages = some c.safety.whitelist_packages;
  protected_paths = some c.safety.protected_directory_names;
  fstrim_interval_hours = none;
  vacuum_db_interval_hours = none;
}
