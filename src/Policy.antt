-- ===== src/Policy.antt =====
-- src/policy/mod.rs: the policy engine.
pub mod Rules
use cache_cleaner.Base.{
  ℕ, ◌≡◌, Bool, true, false, not, ◌&&◌, ◌||◌, Option, none, some, ltb, if◌then◌else◌,
}
use cache_cleaner.Base.Text.{Text, codes, ends_with, has_substring}
use cache_cleaner.Domain.Types.{UnixTimestamp, age_secs}
use cache_cleaner.Domain.Path.{PathText}
use cache_cleaner.Domain.Target.{
  TargetClass, tombstones, log_archive, temp_dir, code_cache, TargetDescriptor, Validated,
}
use cache_cleaner.Domain.Decision.{
  DecisionReason, exceeds_retention_age, within_retention_grace_period, package_whitelisted,
  protected_bytecode, category_disabled, PolicyDecision, allow, deny,
}
use cache_cleaner.Config.{ValidatedConfig, EffectiveConfig, is_package_whitelisted}

-- Rule 0
unfoldable pub is_category_disabled : TargetClass → ValidatedConfig → Bool
is_category_disabled tombstones config = not config.clean_tombstones
is_category_disabled log_archive config = not config.clean_oem_logs
is_category_disabled temp_dir config = not config.clean_temp_apks
is_category_disabled code_cache config = not config.clean_code_cache
is_category_disabled _ config = false

-- Rule 1
unfoldable pub is_whitelisted : Option Text → EffectiveConfig → Bool
is_whitelisted none config = false
is_whitelisted (some pkg) config = is_package_whitelisted config pkg

-- Rule 2
unfoldable pub is_bytecode : PathText → Bool
is_bytecode path =
    ends_with path (codes ".dex")
    || ends_with path (codes ".oat")
    || ends_with path (codes ".art")
    || ends_with path (codes ".vdex")
    || has_substring path (codes "code_cache")

-- `evaluate_candidate_with_freezer`; `decided` is the time of the decision
unfoldable pub evaluate_candidate_with_freezer :
    UnixTimestamp
    → Validated
    → TargetDescriptor
    → EffectiveConfig
    → UnixTimestamp
    → Bool
    → PolicyDecision
evaluate_candidate_with_freezer decided v target config now is_frozen =
    let because = λ (reason : DecisionReason).
      deny (record { candidate = v; reason = reason; decided_at = decided }) in
    if is_category_disabled target.target_class config.validated
    then because category_disabled
    else if is_whitelisted target.package_name config
    then because package_whitelisted
    else if is_bytecode v.candidate.rel_path
    then because protected_bytecode
    else if not v.candidate.is_dir
        && ltb (age_secs v.candidate.mtime now) config.validated.min_app_cache_age_secs
    then because within_retention_grace_period
    else allow (record {
      candidate = v;
      priority = if is_frozen then 200 else 100;
      reason = exceeds_retention_age;
      decided_at = decided;
    })

-- `evaluate_candidate`
unfoldable pub evaluate_candidate :
    UnixTimestamp → Validated → TargetDescriptor → EffectiveConfig → UnixTimestamp → PolicyDecision
unfolding evaluate_candidate_with_freezer
evaluate_candidate decided v target config now =
    evaluate_candidate_with_freezer decided v target config now false
