-- ===== src/Policy/Rules.antt =====
-- When the policy engine allows a candidate.
use cache_cleaner.Base.{
  ◌≡◌, ◌↔◌, ◌≤◌, ◌-◌, refl, subst, Bool, true, false, Option, none, some, List, [], ◌∷◌, any, All,
  ◌⊎◌, arith, if◌then◌else◌,
}
use cache_cleaner.Base.Text.{Text, codes, ends_with, has_substring, eq_ignore_ascii_case}
use cache_cleaner.Domain.Path.{PathText}
use cache_cleaner.Domain.Types.{UnixTimestamp, age_secs}
use cache_cleaner.Domain.Target.{
  TargetClass, tombstones, log_archive, temp_dir, code_cache, app_cache, media_cache, shader_cache,
  external_cache, TargetDescriptor, Validated,
}
use cache_cleaner.Domain.Decision.{PolicyPermit, exceeds_retention_age, allow}
use cache_cleaner.Config.{ValidatedConfig, EffectiveConfig, is_package_whitelisted}
use cache_cleaner.Policy.{
  is_category_disabled, is_whitelisted, is_bytecode, evaluate_candidate_with_freezer,
}

-- The switch of the target's category, where it has one, is on.
abbrev pub IsEnabled : TargetClass → ValidatedConfig → Type 0
IsEnabled c config =
    (c ≡ tombstones → config.clean_tombstones ≡ true)
    × (c ≡ log_archive → config.clean_oem_logs ≡ true)
    × (c ≡ temp_dir → config.clean_temp_apks ≡ true)
    × (c ≡ code_cache → config.clean_code_cache ≡ true)

-- No entry of the whitelist is the package's name, in whatever case.
abbrev pub IsUnlisted : List Text → Text → Type 0
IsUnlisted listed pkg = All (λ w. eq_ignore_ascii_case w pkg ≡ false) listed

-- The path has none of the endings of compiled code, and is in no code cache.
abbrev pub IsNoBytecode : PathText → Type 0
IsNoBytecode path =
    (ends_with path (codes ".dex") ≡ false)
    × (ends_with path (codes ".oat") ≡ false)
    × (ends_with path (codes ".art") ≡ false)
    × (ends_with path (codes ".vdex") ≡ false)
    × (has_substring path (codes "code_cache") ≡ false)

is_category_disabled_iff :
    (c : TargetClass) (config : ValidatedConfig)
    → (is_category_disabled c config ≡ false) ↔ IsEnabled c config
unfolding is_category_disabled
is_category_disabled_iff tombstones config = (
  λ h. (
    λ e. ground (arith, h),
    λ e. absurd (ground (arith, e)),
    λ e. absurd (ground (arith, e)),
    λ e. absurd (ground (arith, e)),
  ),
  λ h. ground (arith, h.0 refl),
)
is_category_disabled_iff log_archive config = (
  λ h. (
    λ e. absurd (ground (arith, e)),
    λ e. ground (arith, h),
    λ e. absurd (ground (arith, e)),
    λ e. absurd (ground (arith, e)),
  ),
  λ h. ground (arith, h.1 refl),
)
is_category_disabled_iff temp_dir config = (
  λ h. (
    λ e. absurd (ground (arith, e)),
    λ e. absurd (ground (arith, e)),
    λ e. ground (arith, h),
    λ e. absurd (ground (arith, e)),
  ),
  λ h. ground (arith, h.2 refl),
)
is_category_disabled_iff code_cache config = (
  λ h. (
    λ e. absurd (ground (arith, e)),
    λ e. absurd (ground (arith, e)),
    λ e. absurd (ground (arith, e)),
    λ e. ground (arith, h),
  ),
  λ h. ground (arith, h.3 refl),
)
is_category_disabled_iff app_cache config = (
  λ h. (
    λ e. absurd (ground (arith, e)),
    λ e. absurd (ground (arith, e)),
    λ e. absurd (ground (arith, e)),
    λ e. absurd (ground (arith, e)),
  ),
  λ h. refl,
)
is_category_disabled_iff media_cache config = (
  λ h. (
    λ e. absurd (ground (arith, e)),
    λ e. absurd (ground (arith, e)),
    λ e. absurd (ground (arith, e)),
    λ e. absurd (ground (arith, e)),
  ),
  λ h. refl,
)
is_category_disabled_iff shader_cache config = (
  λ h. (
    λ e. absurd (ground (arith, e)),
    λ e. absurd (ground (arith, e)),
    λ e. absurd (ground (arith, e)),
    λ e. absurd (ground (arith, e)),
  ),
  λ h. refl,
)
is_category_disabled_iff external_cache config = (
  λ h. (
    λ e. absurd (ground (arith, e)),
    λ e. absurd (ground (arith, e)),
    λ e. absurd (ground (arith, e)),
    λ e. absurd (ground (arith, e)),
  ),
  λ h. refl,
)

is_bytecode_iff : (path : PathText) → (is_bytecode path ≡ false) ↔ IsNoBytecode path
unfolding is_bytecode
is_bytecode_iff path = (
  λ h. (ground arith, ground arith, ground arith, ground arith, ground arith),
  λ h. ground (arith, h.0, h.1, h.2, h.3, h.4),
)

any-All : (p : Text → Bool) (l : List Text) → (any p l ≡ false) ↔ All (λ w. p w ≡ false) l
any-All p [] = (λ _. tt, λ _. refl)
any-All p (w ∷ l) =
    let rest = any-All p l in
    (λ h. (ground arith, rest.0 (ground arith)), λ h. ground (arith, h.0, rest.1 h.1))

is_whitelisted_iff :
    (name : Option Text) (config : EffectiveConfig)
    → (is_whitelisted name config ≡ false)
      ↔ ((pkg : Text) → name ≡ some pkg → IsUnlisted config.validated.whitelist_packages pkg)
unfolding is_whitelisted is_package_whitelisted
is_whitelisted_iff none config = (λ _ pkg e. absurd (ground (arith, e)), λ _. refl)
is_whitelisted_iff (some pkg) config =
    let unlisted = any-All (λ w. eq_ignore_ascii_case w pkg) config.validated.whitelist_packages in
    (
      λ h pkg' e.
          let same : pkg ≡ pkg' = ground (arith, e) in
          subst (IsUnlisted config.validated.whitelist_packages) same (unlisted.0 h),
      λ h. unlisted.1 (h pkg refl),
    )

-- No rule is against the candidate: the switch of its category is on, its package is not on the
-- whitelist, its path is no bytecode, and it is a directory or old enough.
pub record IsDeletable (v : Validated) (t : TargetDescriptor) (config : EffectiveConfig)
    (now : UnixTimestamp) : Type 0 where
  pub enabled : IsEnabled t.target_class config.validated
  pub not_whitelisted :
      (pkg : Text) → t.package_name ≡ some pkg → IsUnlisted config.validated.whitelist_packages pkg
  pub not_bytecode : IsNoBytecode v.candidate.rel_path
  pub old_enough :
      (v.candidate.is_dir ≡ true)
      ⊎ (config.validated.min_app_cache_age_secs ≤ now - v.candidate.mtime)

module _ (decided : UnixTimestamp) (v : Validated) (t : TargetDescriptor) (config : EffectiveConfig)
    (now : UnixTimestamp) (is_frozen : Bool) where
  pub evaluate_candidate_with_freezer_iff :
      (p : PolicyPermit)
      → (evaluate_candidate_with_freezer decided v t config now is_frozen ≡ allow p) ↔ (
          IsDeletable v t config now
          × (p ≡ record {
            candidate = v;
            priority = if is_frozen then 200 else 100;
            reason = exceeds_retention_age;
            decided_at = decided;
          }))
  unfolding evaluate_candidate_with_freezer age_secs
  evaluate_candidate_with_freezer_iff p = (
    λ h. (
      record {
        enabled = (is_category_disabled_iff t.target_class config.validated).0 (ground arith);
        not_whitelisted = (is_whitelisted_iff t.package_name config).0 (ground arith);
        not_bytecode = (is_bytecode_iff v.candidate.rel_path).0 (ground arith);
        old_enough = ground arith;
      },
      ground arith,
    ),
    λ h. ground (
      arith,
      (is_category_disabled_iff t.target_class config.validated).1 h.0.enabled,
      (is_whitelisted_iff t.package_name config).1 h.0.not_whitelisted,
      (is_bytecode_iff v.candidate.rel_path).1 h.0.not_bytecode,
      h.0.old_enough,
    ),
  )
