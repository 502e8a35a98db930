-- ===== src/Config.antt =====
-- src/config_pipeline/mod.rs: the validation of a raw configuration, and what it answers.
pub mod Bounds
use cache_cleaner.Base.{
  ℕ, ◌+◌, ◌*◌, Bool, true, false, not, ◌&&◌, ◌||◌, Option, none, some, List, [], ◌∷◌, ◌++◌, map,
  ltb, leb, if◌then◌else◌, any, all, length, Result, ok, err,
}
use cache_cleaner.Base.Text.{
  Text, codes, text_eq, text_compare, byte_len, has_char, is_blank, eq_ignore_ascii_case,
}
use cache_cleaner.Base.Word.{saturating_mul}
use cache_cleaner.Base.Float.{Float, float_ge, float_le, whole}
use cache_cleaner.Base.Sort.{sort_by, dedup}
use cache_cleaner.Domain.Types.{Generation, ByteCount, Outcome, returns, panics}
use cache_cleaner.Domain.ByteCount
use cache_cleaner.Domain.Path.{
  PathText, Component, root_dir, cur_dir, parent_dir, normal, components,
}
use cache_cleaner.Domain.Error.{CleanerError, config_error}
use Prim.Native.Nat.{Ordering}

abbrev pub platform_invariant_protected_paths : List PathText
platform_invariant_protected_paths =
    codes "/system"
    ∷ codes "/vendor"
    ∷ codes "/product"
    ∷ codes "/system_ext"
    ∷ codes "/apex"
    ∷ codes "/data/system"
    ∷ codes "/data/misc"
    ∷ codes "/data/bootchart"
    ∷ codes "/metadata"
    ∷ codes "/boot"
    ∷ codes "/etc"
    ∷ []

pub record RawConfig : Type 0 where
  pub maintenance_interval_secs : Option ℕ
  pub min_screen_off_secs : Option ℕ
  pub max_soc_temp_c : Option Float
  pub max_battery_temp_c : Option Float
  pub min_app_cache_age_days : Option ℕ
  pub min_file_age_hours : Option ℕ
  pub app_cache_threshold_mb : Option ℕ
  pub dry_run : Option Bool
  pub clean_app_cache : Option Bool
  pub clean_code_cache : Option Bool
  pub clean_tombstones : Option Bool
  pub clean_oem_logs : Option Bool
  pub clean_temp_apks : Option Bool
  pub whitelist_packages : Option (List Text)
  pub protected_paths : Option (List Text)
  pub fstrim_interval_hours : Option ℕ
  pub vacuum_db_interval_hours : Option ℕ

pub record ValidatedConfig : Type 0 where
  pub maintenance_interval_secs : ℕ
  pub min_screen_off_secs : ℕ
  pub max_soc_temp_c : Float
  pub max_battery_temp_c : Float
  pub min_app_cache_age_secs : ℕ
  pub app_cache_threshold_bytes : ByteCount
  pub dry_run : Bool
  pub clean_app_cache : Bool
  pub clean_code_cache : Bool
  pub clean_tombstones : Bool
  pub clean_oem_logs : Bool
  pub clean_temp_apks : Bool
  pub whitelist_packages : List Text
  pub protected_paths : List PathText
  pub fstrim_interval_secs : ℕ
  pub vacuum_db_interval_secs : ℕ

-- What may panic and may return an error.
abbrev pub Attempt : Type 0 → Type 0
Attempt A = Outcome (Result CleanerError A)

infixl 5 ◌>>=◌ ◌>>◌
unfoldable pub ◌>>=◌ : {A B : Type 0} → Attempt A → (A → Attempt B) → Attempt B
returns (ok a) >>= f = f a
returns (err e) >>= f = returns (err e)
panics >>= f = panics

abbrev pub ◌>>◌ : {B : Type 0} → Attempt (Unit {0}) → Attempt B → Attempt B
m >> k = m >>= λ _. k

unfoldable pub unless : Bool → Text → Attempt (Unit {0})
unless true message = returns (ok tt)
unless false message = returns (err (config_error message))

abbrev pub lift : {A : Type 0} → Outcome A → Attempt A
lift (returns a) = returns (ok a)
lift panics = panics

abbrev pub unwrap_or : {A : Type 0} → Option A → A → A
unwrap_or none d = d
unwrap_or (some a) d = a

abbrev pub in_range : ℕ → ℕ → ℕ → Bool
in_range lo hi n = leb lo n && leb n hi

-- The test of one whitelisted package, negated.
abbrev pub is_package : Text → Bool
is_package pkg = not (ltb 255 (byte_len pkg) || has_char pkg 0 || has_char pkg b'/' || is_blank pkg)

abbrev pub text_le : Text → Text → Bool
text_le a b = elim (text_compare a b) [ Ordering.gt ↦ false | _ ↦ true ]

abbrev pub component_eq : Component → Component → Bool
component_eq root_dir root_dir = true
component_eq cur_dir cur_dir = true
component_eq parent_dir parent_dir = true
component_eq (normal a) (normal b) = text_eq a b
component_eq _ _ = false

abbrev pub components_eq : List Component → List Component → Bool
components_eq [] [] = true
components_eq (p ∷ ps) (q ∷ qs) = component_eq p q && components_eq ps qs
components_eq _ _ = false

-- `path_comps[..prot_comps.len()] == prot_comps[..]`, false where the path is shorter.
abbrev pub has_prefix : List Component → List Component → Bool
has_prefix path [] = true
has_prefix [] (q ∷ qs) = false
has_prefix (p ∷ ps) (q ∷ qs) = component_eq p q && has_prefix ps qs

-- `==` of two paths compares their components.
abbrev pub path_eq : PathText → PathText → Bool
path_eq p q = components_eq (components p) (components q)

-- The loop over the user's protected paths.
unfoldable pub add_protected : List PathText → List Text → Attempt (List PathText)
unfolding components
add_protected acc [] = returns (ok acc)
add_protected acc (p ∷ ps) = do
  unless (not (text_eq p [] || ltb 4096 (byte_len p) || has_char p 0))
      (codes "invalid protected path")
  add_protected (if any (path_eq p) acc then acc else acc ++ p ∷ []) ps

abbrev pub min_age_secs : RawConfig → ℕ
min_age_secs raw = elim raw.min_file_age_hours [
  | some hours ↦ saturating_mul hours 3600
  | none ↦ saturating_mul (unwrap_or raw.min_app_cache_age_days 3) 86400
]

-- The configuration that `from_raw` returns
abbrev pub validated : RawConfig → ByteCount → List PathText → ValidatedConfig
validated raw threshold protected = record {
  maintenance_interval_secs = unwrap_or raw.maintenance_interval_secs 3600;
  min_screen_off_secs = unwrap_or raw.min_screen_off_secs 180;
  max_soc_temp_c = unwrap_or raw.max_soc_temp_c (whole 45);
  max_battery_temp_c = unwrap_or raw.max_battery_temp_c (whole 45);
  min_app_cache_age_secs = min_age_secs raw;
  app_cache_threshold_bytes = threshold;
  dry_run = unwrap_or raw.dry_run false;
  clean_app_cache = unwrap_or raw.clean_app_cache true;
  clean_code_cache = unwrap_or raw.clean_code_cache false;
  clean_tombstones = unwrap_or raw.clean_tombstones false;
  clean_oem_logs = unwrap_or raw.clean_oem_logs false;
  clean_temp_apks = unwrap_or raw.clean_temp_apks false;
  whitelist_packages = dedup text_eq (sort_by text_le (unwrap_or raw.whitelist_packages []));
  protected_paths = protected;
  fstrim_interval_secs = saturating_mul (unwrap_or raw.fstrim_interval_hours 24) 3600;
  vacuum_db_interval_secs = saturating_mul (unwrap_or raw.vacuum_db_interval_hours 72) 3600;
}

-- `ValidatedConfig::from_raw`
unfoldable pub from_raw : RawConfig → Attempt ValidatedConfig
unfolding ByteCount.new add_protected
from_raw raw = do
  let interval = unwrap_or raw.maintenance_interval_secs 3600
  unless (in_range 60 604800 interval) (codes "maintenance_interval_secs must be 60..604800")
  let screen_off = unwrap_or raw.min_screen_off_secs 180
  unless (not (ltb 3600 screen_off)) (codes "min_screen_off_secs must be 0..3600")
  let max_soc = unwrap_or raw.max_soc_temp_c (whole 45)
  unless (float_ge max_soc 20 && float_le max_soc 90) (codes "max_soc_temp_c out of safe range")
  let max_battery = unwrap_or raw.max_battery_temp_c (whole 45)
  unless (float_ge max_battery 20 && float_le max_battery 65)
      (codes "max_battery_temp_c out of safe range")
  let threshold_mb = unwrap_or raw.app_cache_threshold_mb 50
  threshold ← lift (ByteCount.new (saturating_mul threshold_mb (1024 * 1024)))
  let whitelist = unwrap_or raw.whitelist_packages []
  unless (not (ltb 512 (length whitelist))) (codes "whitelist_packages exceeds 512 entries")
  unless (all is_package whitelist) (codes "invalid whitelist package")
  protected ← add_protected platform_invariant_protected_paths (unwrap_or raw.protected_paths [])
  let fstrim_hours = unwrap_or raw.fstrim_interval_hours 24
  unless (in_range 1 720 fstrim_hours) (codes "fstrim_interval_hours must be 1..720")
  let vacuum_hours = unwrap_or raw.vacuum_db_interval_hours 72
  unless (in_range 1 720 vacuum_hours) (codes "vacuum_db_interval_hours must be 1..720")
  returns (ok (validated raw threshold protected))

pub record EffectiveConfig : Type 0 where
  pub generation : Generation
  pub validated : ValidatedConfig

unfoldable pub is_package_whitelisted : EffectiveConfig → Text → Bool
is_package_whitelisted config pkg =
    any (λ w. eq_ignore_ascii_case w pkg) config.validated.whitelist_packages

-- `Path::starts_with` compares components too, so both tests of the code are this one but for an
-- empty protected path, a prefix of every path.
unfoldable pub is_path_protected : EffectiveConfig → PathText → Bool
unfolding components
is_path_protected config path =
    any (λ prot. has_prefix (components path) (components prot)) config.validated.protected_paths
