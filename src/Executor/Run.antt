-- ===== src/Executor/Run.antt =====
-- `execute_plan` of src/executor/mod.rs
use cache_cleaner.Base.{
  ◌-◌, Bool, true, false, not, none, List, [], ◌∷◌, any, contains, length, Result, ok, err,
}
use cache_cleaner.Base.Text.{Text}
use cache_cleaner.Domain.Types.{AttemptId, OperationId, Generation}
use cache_cleaner.Domain.Target.{TargetDescriptor}
use cache_cleaner.Domain.Plan.{
  OperationType, delete_file, delete_dir_empty, prune_dir_recursive, trim_filesystem,
  vacuum_database, PlannedOperation,
}
use cache_cleaner.Domain.Grant.{
  Capability, capability_eq, AuthorizedPlan, is_authorized_for_execution,
}
use cache_cleaner.Domain.Error.{CleanerError, safety_violation, authorization_invalid}
use cache_cleaner.System.Os.{Os}
use cache_cleaner.System.World.{Act, call}
use cache_cleaner.Store.Codec.{
  dependency_unfulfilled, capability_denied, prune_deprecated, delegated, preempted, failed,
  skipped, JobResult,
}
use cache_cleaner.Executor.Progress.{Progress, end_skipped, end_failed}
use cache_cleaner.Executor.Deletion.{Run, Step, delete}

-- `CatalogSnapshot`
pub record CatalogSnapshot : Type 0 where
  pub generation : Generation
  pub targets : List (Text × TargetDescriptor)

-- Step 3: the grant has the operation's capability.
unfoldable pub has_capability : List Capability → OperationType → Bool
has_capability caps (delete_file target path _ _) =
    any (capability_eq (Capability.delete_file target path)) caps
has_capability caps (delete_dir_empty target path _) =
    any (capability_eq (Capability.delete_directory target path)) caps
has_capability caps (prune_dir_recursive target path _) =
    any (capability_eq (Capability.delete_directory target path)) caps
has_capability caps (trim_filesystem mount) = any (capability_eq (Capability.trim_mount mount)) caps
has_capability caps (vacuum_database db) = any (capability_eq (Capability.vacuum_database db)) caps

abbrev pub run_of : AuthorizedPlan → CatalogSnapshot → AttemptId → Run
run_of authorized catalog attempt = record {
  job_id = authorized.plan.job_id;
  plan_id = authorized.plan.plan_id;
  attempt_id = attempt;
  catalog_generation = catalog.generation;
  grant_config_generation = authorized.grant.config_generation;
  targets = catalog.targets;
}

module _ (os : Os) where
  open os use {State, Fd}

  -- The match on the operation's type
  unfoldable pub perform : Run → OperationId → OperationType → Progress Fd → Step os
  perform run op (delete_file target path identity size) p w =
      delete os run
        (record {
          op_id = op;
          target_id = target;
          rel_path = path;
          expected_identity = identity;
          estimated_size = size;
          is_dir = false;
        })
        p w
  perform run op (delete_dir_empty target path identity) p w =
      delete os run
        (record {
          op_id = op;
          target_id = target;
          rel_path = path;
          expected_identity = identity;
          estimated_size = 0;
          is_dir = true;
        })
        p w
  perform run op (prune_dir_recursive _ _ _) p w =
      let (p', w') = end_skipped os op (skipped prune_deprecated) p w in (ok p', w')
  perform run op (trim_filesystem _) p w =
      let (p', w') = end_skipped os op (skipped delegated) p w in (ok p', w')
  perform run op (vacuum_database _) p w =
      let (p', w') = end_skipped os op (skipped delegated) p w in (ok p', w')

  -- The body of the loop: steps 1 to 4, then the operation
  unfoldable pub execute_operation :
      Run → List Capability → PlannedOperation → Progress Fd → Step os
  execute_operation run caps op p w =
      let (cancelled, w₁) = call os.is_cancelled w in
      elim cancelled [
        | true ↦ let (p', w') = end_skipped os op.op_id preempted p w₁ in (ok p', w')
        | false ↦ elim (any (λ dep. not (contains p.successful_op_ids dep)) op.dependencies) [
          | true ↦
              let (p', w') = end_skipped os op.op_id (skipped dependency_unfulfilled) p w₁ in
              (ok p', w')
          | false ↦ elim (has_capability caps op.op_type) [
            | false ↦
                let (p', w') = end_failed os op.op_id (failed capability_denied) p w₁ in (ok p', w')
            | true ↦ perform run op.op_id op.op_type p (record w₁ { os = os.throttle w₁.os })
          ]
        ]
      ]

  -- The loop over the operations
  unfoldable pub execute_operations :
      Run → List Capability → List PlannedOperation → Progress Fd → Step os
  execute_operations run caps [] p w = (ok p, w)
  execute_operations run caps (op ∷ ops) p w =
      let (r, w') = execute_operation run caps op p w in
      elim r [ err e ↦ (err e, w') | ok p' ↦ execute_operations run caps ops p' w' ]

  abbrev pub no_progress : Progress Fd
  no_progress = record {
    results = [];
    total_reclaimed = 0;
    success_count = 0;
    failed_count = 0;
    skipped_count = 0;
    successful_op_ids = [];
    active_dir_cache = none;
  }

  -- `execute_plan`
  unfoldable pub execute_plan :
      AuthorizedPlan
      → CatalogSnapshot
      → Generation
      → AttemptId
      → Act State (Result CleanerError JobResult)
  execute_plan authorized catalog config attempt w =
      let (start, w₁) = call os.clock_ms w in
      let (now, w₂) = call os.unix_now w₁ in
      elim (is_authorized_for_execution authorized now catalog.generation config) [
        | false ↦ (err (safety_violation authorization_invalid), w₂)
        | true ↦
            let (r, w₃) =
              execute_operations (run_of authorized catalog attempt) authorized.grant.capabilities
                authorized.plan.operations no_progress w₂ in
            elim r [
              | err e ↦ (err e, w₃)
              | ok p ↦
                  let (end, w₄) = call os.clock_ms w₃ in
                  (
                    ok (record {
                      job_id = authorized.plan.job_id;
                      attempt_id = attempt;
                      total_reclaimed = p.total_reclaimed;
                      total_operations = length authorized.plan.operations;
                      successful_operations = p.success_count;
                      failed_operations = p.failed_count;
                      skipped_operations = p.skipped_count;
                      duration_ms = end - start;
                    }),
                    w₄,
                  )
            ]
      ]
