-- ===== src/Auth/Scope.antt =====
-- What a grant covers, and how long.
use cache_cleaner.Base.{ℕ, ◌≡◌, ◌↔◌, Bool, true, false, ◌&&◌, ◌==◌, leb, ok, is_ok, arith}
use cache_cleaner.Base.Text.{text_eq}
use cache_cleaner.Base.Word.{saturating_add}
use cache_cleaner.Domain.Types.{GrantId, Generation, UnixTimestamp}
use cache_cleaner.Domain.Plan.{
  OperationType, delete_file, delete_dir_empty, prune_dir_recursive, trim_filesystem,
  vacuum_database, PlannedPlan,
}
use cache_cleaner.Domain.Grant.{AuthorizedPlan, is_authorized_for_execution}
use cache_cleaner.Auth.{authorize_plan}

-- The first operation does to the object of the second what the second does to it: both delete the
-- file, both remove the directory, empty or with its content, or both trim or vacuum.
abbrev pub covers : OperationType → OperationType → Bool
covers (delete_file a p _ _) (delete_file b q _ _) = text_eq b a && text_eq q p
covers (delete_dir_empty a p _) (delete_dir_empty b q _) = text_eq b a && text_eq q p
covers (delete_dir_empty a p _) (prune_dir_recursive b q _) = text_eq b a && text_eq q p
covers (prune_dir_recursive a p _) (delete_dir_empty b q _) = text_eq b a && text_eq q p
covers (prune_dir_recursive a p _) (prune_dir_recursive b q _) = text_eq b a && text_eq q p
covers (trim_filesystem p) (trim_filesystem q) = text_eq q p
covers (vacuum_database p) (vacuum_database q) = text_eq q p
covers _ _ = false

module _ (counter : GrantId) (now : UnixTimestamp) (plan : PlannedPlan) (catalog : Generation)
    (ttl : ℕ) (config : Generation) where
  -- Authorization succeeds exactly for a plan of the current catalog and config generations.
  pub authorize_plan_iff :
      (is_ok (authorize_plan counter now plan catalog ttl config).1 ≡ true)
      ↔ ((plan.catalog_generation ≡ catalog) × (plan.config_generation ≡ config))
  unfolding authorize_plan
  authorize_plan_iff = (λ h. (ground arith, ground arith), λ h. ground arith)

  module _ (a : AuthorizedPlan)
      (issued : (authorize_plan counter now plan catalog ttl config).1 ≡ ok a) where
    -- The plan may be executed at a time and under generations exactly when the generations are
    -- those of its authorization and at most `ttl` seconds passed since.
    pub is_authorized_for_execution_window :
        (later : UnixTimestamp) (catalog' config' : Generation)
        → is_authorized_for_execution a later catalog' config'
          ≡ (catalog == catalog' && (config == config' && leb later (saturating_add now ttl)))
    unfolding authorize_plan is_authorized_for_execution
    is_authorized_for_execution_window later catalog' config' = ground arith
