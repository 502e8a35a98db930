-- ===== src/Tests/Running.antt =====
-- A run that deletes one file.
use cache_cleaner.Base.{◌≡◌, ◌≢◌, ◌+◌, refl, false, List, [], ◌∷◌, ◌++◌, length, ok, arith}
use cache_cleaner.Base.Text.{codes}
use cache_cleaner.Base.Assoc.{lookup, insert, remove}
use cache_cleaner.Domain.Types.{OperationId}
use cache_cleaner.Domain.Path.{components}
use cache_cleaner.Domain.Intent
use cache_cleaner.Domain.Intent.{mutating, verified_success}
use cache_cleaner.System.World.{Effect, intent_updated, unlinked, result_recorded}
use cache_cleaner.Store.Codec.{intent_state_text}
use cache_cleaner.Executor.Run.{execute_plan, execute_operation, run_of, no_progress}
use cache_cleaner.Executor.Protocol.{announced}
use cache_cleaner.Executor.Trace.{execute_plan-announced}
use cache_cleaner.Tests.Kernel.{kernel, catalog, plan_a, grant_a, delete_a, authorized_a, world}
use cache_cleaner.Domain.Grant.{is_authorized_for_execution, is_valid_at}
use cache_cleaner.Executor.Run.{execute_operations, has_capability, perform}
use cache_cleaner.Executor.Deletion.{
  delete, check_boundary, commit_and_mutate, conclude, mutate, open_and_mutate, settle,
}
use cache_cleaner.Resource.Locks.{acquire_target_lock, release_target_lock}
use cache_cleaner.Safety.{validate_mutation_boundary, verify_target_root_safety, check_protected}
use cache_cleaner.Domain.Target.{is_mutation_allowed}
use cache_cleaner.Store.{
  commit_operation_intent, sql, insert_intent, put_operation, record_operation_result,
  set_intent_state, update_intent_state,
}
use cache_cleaner.Executor.Parent.{get_or_open_parent_dir, open_path}
use cache_cleaner.Executor.Progress.{end_failed, end_skipped, final_result}
use cache_cleaner.Store.Codec.{mutation_text, status_text}
use cache_cleaner.System.Handle.{
  delete_child, finish_open, open_child_dir, open_root, stat_child, try_openat2_child, unlink,
}
use cache_cleaner.Verifier.Check.{outcome_of_stat, verify_with_parent_handle}
use cache_cleaner.Executor.Accounting.{execute_plan-counts}
use cache_cleaner.Executor.Guards.{IsDue, execute_operation-guarded}
use cache_cleaner.Store.Codec.{JobResult}

ran :
    (execute_plan kernel authorized_a catalog 6 9 world).1.log
    ≡ announced 9 1
      ++ unlinked (codes "a.tmp") false
        ∷ intent_updated 9 1 (intent_state_text verified_success)
        ∷ result_recorded 5 1
        ∷ []
unfolding execute_plan is_authorized_for_execution execute_operations execute_operation
    has_capability perform delete lookup acquire_target_lock check_boundary
    validate_mutation_boundary is_mutation_allowed verify_target_root_safety components
    check_protected commit_and_mutate commit_operation_intent sql insert remove is_valid_at
    Intent.new conclude mutate open_and_mutate settle get_or_open_parent_dir open_path end_failed
    end_skipped final_result release_target_lock intent_state_text mutation_text status_text
    insert_intent put_operation record_operation_result set_intent_state update_intent_state
    delete_child finish_open open_child_dir open_root stat_child try_openat2_child unlink
    outcome_of_stat verify_with_parent_handle
ran = refl

abbrev job_result : JobResult
job_result = record {
  job_id = 5;
  attempt_id = 9;
  total_reclaimed = 100;
  total_operations = 1;
  successful_operations = 1;
  failed_operations = 0;
  skipped_operations = 0;
  duration_ms = 0;
}

returned : (execute_plan kernel authorized_a catalog 6 9 world).0 ≡ ok job_result
unfolding execute_plan is_authorized_for_execution execute_operations execute_operation
    has_capability perform delete lookup acquire_target_lock check_boundary
    validate_mutation_boundary is_mutation_allowed verify_target_root_safety components
    check_protected commit_and_mutate commit_operation_intent sql insert remove is_valid_at
    Intent.new conclude mutate open_and_mutate settle get_or_open_parent_dir open_path end_failed
    end_skipped final_result release_target_lock intent_state_text mutation_text status_text
    insert_intent put_operation record_operation_result set_intent_state update_intent_state
    delete_child finish_open open_child_dir open_root stat_child try_openat2_child unlink
    outcome_of_stat verify_with_parent_handle
returned = refl

operated :
    (execute_operation kernel
      (run_of authorized_a catalog 9)
      grant_a.capabilities
      delete_a
      (no_progress kernel)
      world).1.log
    ≢ world.log
unfolding execute_plan is_authorized_for_execution execute_operations execute_operation
    has_capability perform delete lookup acquire_target_lock check_boundary
    validate_mutation_boundary is_mutation_allowed verify_target_root_safety components
    check_protected commit_and_mutate commit_operation_intent sql insert remove is_valid_at
    Intent.new conclude mutate open_and_mutate settle get_or_open_parent_dir open_path end_failed
    end_skipped final_result release_target_lock intent_state_text mutation_text status_text
    insert_intent put_operation record_operation_result set_intent_state update_intent_state
    delete_child finish_open open_child_dir open_root stat_child try_openat2_child unlink
    outcome_of_stat verify_with_parent_handle
operated h = ground (arith, h)

execute_plan-announced_example :
    (op : OperationId) × ((k₀ : List Effect) × (announced 9 1 ≡ k₀ ++ announced 9 op))
execute_plan-announced_example =
    execute_plan-announced kernel authorized_a catalog 6 9 world (announced 9 1)
      (intent_updated 9 1 (intent_state_text verified_success) ∷ result_recorded 5 1 ∷ [])
      (codes "a.tmp") false refl ran

execute_plan-counts_example : (1 + 0 + 0 ≡ 1) × (1 ≡ length plan_a.operations)
execute_plan-counts_example =
    execute_plan-counts kernel authorized_a catalog 6 9 world job_result returned

execute_operation-guarded_example :
    IsDue kernel
      (run_of authorized_a catalog 9)
      grant_a.capabilities
      delete_a
      (no_progress kernel)
      world
execute_operation-guarded_example =
    execute_operation-guarded kernel (run_of authorized_a catalog 9) grant_a.capabilities delete_a
      (no_progress kernel) world operated
