-- ===== src/Auth.antt =====
-- src/auth/mod.rs: the authorization engine, whose state is the counter of grants.
pub mod Scope
use cache_cleaner.Base.{
  ℕ, ◌+◌, ◌≡◌, Bool, not, List, [], ◌∷◌, map, ◌==◌, if◌then◌else◌, Result, ok, err,
}
use cache_cleaner.Base.Word.{saturating_add, wrapping_add}
use cache_cleaner.Domain.Types.{GrantId, Generation, UnixTimestamp}
use cache_cleaner.Domain.Plan.{
  OperationType, delete_file, delete_dir_empty, prune_dir_recursive, trim_filesystem,
  vacuum_database, PlannedOperation, PlannedPlan,
}
use cache_cleaner.Domain.Grant.{Capability, AuthorizedPlan}
use cache_cleaner.Domain.Error.{CleanerError, safety_violation, stale_catalog, stale_config}

-- The capability that an operation needs.
unfoldable pub capability_of : OperationType → Capability
capability_of (delete_file target path _ _) = Capability.delete_file target path
capability_of (delete_dir_empty target path _) = Capability.delete_directory target path
capability_of (prune_dir_recursive target path _) = Capability.delete_directory target path
capability_of (trim_filesystem mount) = Capability.trim_mount mount
capability_of (vacuum_database db) = Capability.vacuum_database db

-- The loop over the operations.
unfoldable pub capabilities_of : List PlannedOperation → List Capability
unfolding capability_of
capabilities_of [] = []
capabilities_of (op ∷ ops) = capability_of op.op_type ∷ capabilities_of ops

-- `authorize_plan`, at the time `now`; the first part of the result is the counter after it
unfoldable pub authorize_plan :
    GrantId
    → UnixTimestamp
    → PlannedPlan
    → Generation
    → ℕ
    → Generation
    → GrantId × Result CleanerError AuthorizedPlan
unfolding capabilities_of
authorize_plan counter now plan catalog ttl config =
    if not (plan.catalog_generation == catalog)
    then (counter, err (safety_violation (stale_catalog plan.catalog_generation catalog)))
    else if not (plan.config_generation == config)
    then (counter, err (safety_violation (stale_config plan.config_generation config)))
    else (
      wrapping_add counter 1,
      ok (record {
        plan = plan;
        grant = record {
          grant_id = counter;
          capabilities = capabilities_of plan.operations;
          catalog_generation = catalog;
          config_generation = config;
          granted_at = now;
          expires_at = saturating_add now ttl;
        };
      }),
    )
