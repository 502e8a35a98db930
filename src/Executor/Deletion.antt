-- ===== src/Executor/Deletion.antt =====
-- The arms `DeleteFile` and `DeleteDirEmpty` of `execute_plan` in src/executor/mod.rs. An error of
-- an action is that of the `?` operator: it ends the whole run.
use cache_cleaner.Base.{◌+◌, Bool, Option, none, some, List, if◌then◌else◌, Result, ok, err}
use cache_cleaner.Base.Text.{Text}
use cache_cleaner.Base.Assoc.{lookup}
use cache_cleaner.Domain.Types.{
  JobId, AttemptId, OperationId, PlanId, TargetId, FileIdentity, Generation, ByteCount,
  UnixTimestamp,
}
use cache_cleaner.Domain.Path.{PathText}
use cache_cleaner.Domain.Target.{TargetDescriptor}
use cache_cleaner.Domain.Intent
use cache_cleaner.Domain.Intent.{
  OperationIntent, MutationType, IntentState, mutating, verified_success, verified_failed,
  resolved_unknown,
}
use cache_cleaner.Domain.Error.{CleanerError}
use cache_cleaner.Safety.{validate_mutation_boundary}
use cache_cleaner.System.Os.{Os}
use cache_cleaner.System.World.{Act, call}
use cache_cleaner.System.Handle.{SafeDirHandle, delete_child}
use cache_cleaner.Resource.Locks.{acquire_target_lock, release_target_lock}
use cache_cleaner.Verifier.Outcome.{
  VerificationOutcome, confirmed_deleted, already_gone, still_present, identity_mismatch,
  parent_unavailable, target_unavailable, unknown,
}
use cache_cleaner.Verifier.Check.{verify_with_parent_handle}
use cache_cleaner.Store.{commit_operation_intent, update_intent_state, record_operation_result}
use cache_cleaner.Store.Codec.{
  target_not_found, lock_collision, boundary_rejected, intent_commit_failed, parent_unresolved,
  mutation_error, mutation_error_unknown_outcome, postcondition_failed, postcondition_unresolved,
  OperationStatus, success, failed, verification_failed, intent_state_text, mutation_text,
}
use cache_cleaner.Executor.Progress.{
  Progress, ActiveDirCache, final_result, push_result, end_failed, succeed,
}
use cache_cleaner.Executor.Parent.{get_or_open_parent_dir}

-- What stays fixed during a run.
pub record Run : Type 0 where
  pub job_id : JobId
  pub plan_id : PlanId
  pub attempt_id : AttemptId
  pub catalog_generation : Generation
  pub grant_config_generation : Generation
  pub targets : List (Text × TargetDescriptor)

-- One of the two deletions: a file has its estimated size, a directory counts no bytes.
pub record Deletion : Type 0 where
  pub op_id : OperationId
  pub target_id : TargetId
  pub rel_path : PathText
  pub expected_identity : FileIdentity
  pub estimated_size : ByteCount
  pub is_dir : Bool

abbrev pub mutation_type : Deletion → MutationType
mutation_type d = if d.is_dir then MutationType.delete_dir_empty else MutationType.delete_file

-- The match on the deletion and on what the verifier found: the state that the intent gets, the
-- status of the operation, and the bytes that count as reclaimed where it succeeded.
pub record Settlement : Type 0 where
  pub intent_state : IntentState
  pub status : OperationStatus
  pub reclaimed : Option ByteCount

unfoldable pub settle :
    ByteCount → Result CleanerError (Unit {0}) → VerificationOutcome → Settlement
settle size (ok _) confirmed_deleted = record {
  intent_state = verified_success;
  status = success;
  reclaimed = some size;
}
settle size (ok _) already_gone = record {
  intent_state = verified_success;
  status = success;
  reclaimed = some size;
}
settle size (err _) confirmed_deleted = record {
  intent_state = verified_success;
  status = success;
  reclaimed = some 0;
}
settle size (err _) already_gone = record {
  intent_state = verified_success;
  status = success;
  reclaimed = some 0;
}
settle size (ok _) still_present = record {
  intent_state = verified_failed;
  status = verification_failed (postcondition_failed still_present);
  reclaimed = none;
}
settle size (ok _) identity_mismatch = record {
  intent_state = verified_failed;
  status = verification_failed (postcondition_failed identity_mismatch);
  reclaimed = none;
}
settle size (ok _) outcome = record {
  intent_state = resolved_unknown;
  status = verification_failed (postcondition_unresolved outcome);
  reclaimed = none;
}
settle size (err e) unknown = record {
  intent_state = resolved_unknown;
  status = failed (mutation_error_unknown_outcome e);
  reclaimed = none;
}
settle size (err e) parent_unavailable = record {
  intent_state = resolved_unknown;
  status = failed (mutation_error_unknown_outcome e);
  reclaimed = none;
}
settle size (err e) target_unavailable = record {
  intent_state = resolved_unknown;
  status = failed (mutation_error_unknown_outcome e);
  reclaimed = none;
}
settle size (err e) _ = record {
  intent_state = verified_failed;
  status = failed (mutation_error e);
  reclaimed = none;
}

module _ (os : Os) where
  open os use {State, Fd}

  -- The action's type: what is left of a run after an operation, or the error of `?`.
  abbrev pub Step : Type 0
  Step = Act State (Result CleanerError (Progress Fd))

  abbrev pub count_settled : Deletion → Settlement → Progress Fd → Progress Fd
  count_settled d s p = elim s.reclaimed [
    | some bytes ↦ succeed os d.op_id bytes p
    | none ↦ record p { failed_count = p.failed_count + 1 }
  ]

  abbrev pub reclaimed_bytes : Settlement → ByteCount
  reclaimed_bytes s = elim s.reclaimed [ some bytes ↦ bytes | none ↦ 0 ]

  -- After the deletion and its verification: the intent's final state, the counters, the result,
  -- and its row, whose failure is only logged
  unfoldable pub conclude : Run → Deletion → Settlement → Progress Fd → Step
  conclude run d s p w =
      let (r, w₁) =
        update_intent_state os run.attempt_id d.op_id (intent_state_text s.intent_state) w in
      elim r [
        | err e ↦ (err e, w₁)
        | ok _ ↦
            let (result, w₂) = final_result os d.op_id s.status (reclaimed_bytes s) w₁ in
            let (_recorded, w₃) =
              record_operation_result os run.job_id run.plan_id d.target_id
                (mutation_text (mutation_type d)) d.rel_path d.expected_identity d.estimated_size
                result w₂ in
            (ok (push_result os result (count_settled d s p)), w₃)
      ]

  -- Steps 8 and 9: the deletion in the parent directory and its verification. A removed directory
  -- drops the cached handle.
  unfoldable pub mutate :
      Run → Deletion → SafeDirHandle Fd → Text → Option (ActiveDirCache Fd) → Progress Fd → Step
  mutate run d parent leaf cache p w =
      let (deleted, w₁) = delete_child os d.is_dir parent leaf d.expected_identity w in
      let (outcome, w₂) = verify_with_parent_handle os parent leaf d.expected_identity w₁ in
      conclude run d (settle d.estimated_size deleted outcome)
        (record p { active_dir_cache = if d.is_dir then none else cache }) w₂

  -- The parent directory, then the deletion in it
  unfoldable pub open_and_mutate : Run → TargetDescriptor → Deletion → Progress Fd → Step
  open_and_mutate run target d p w =
      let (parent, w₁) = get_or_open_parent_dir os p.active_dir_cache target d.rel_path w in
      elim parent [
        | ok found ↦ mutate run d found.0 found.1 found.2 p w₁
        | err e ↦
            let (p', w') = end_failed os d.op_id (failed (parent_unresolved e)) p w₁ in (ok p', w')
      ]

  abbrev pub intent_of : Run → Deletion → UnixTimestamp → OperationIntent
  intent_of run d now =
      Intent.new now run.job_id run.attempt_id d.op_id d.target_id d.rel_path d.expected_identity
        d.estimated_size (mutation_type d) run.catalog_generation run.grant_config_generation

  -- Step 7: the intent is committed and marked before the deletion.
  unfoldable pub commit_and_mutate : Run → TargetDescriptor → Deletion → Progress Fd → Step
  commit_and_mutate run target d p w =
      let (now, w₀) = call os.unix_now w in
      let (committed, w₁) = commit_operation_intent os (intent_of run d now) w₀ in
      elim committed [
        | ok _ ↦
            let (marked, w₂) =
              update_intent_state os run.attempt_id d.op_id (intent_state_text mutating) w₁ in
            elim marked [ ok _ ↦ open_and_mutate run target d p w₂ | err e ↦ (err e, w₂) ]
        | err e ↦
            let (p', w') = end_failed os d.op_id (failed (intent_commit_failed e)) p w₁ in
            (ok p', w')
      ]

  -- Step 6: the safety check at the mutation boundary.
  unfoldable pub check_boundary : Run → TargetDescriptor → Deletion → Progress Fd → Step
  check_boundary run target d p w =
      let (now, w₁) = call os.unix_now w in
      elim (validate_mutation_boundary now target d.rel_path d.expected_identity d.op_id
        run.catalog_generation run.grant_config_generation) [
          | err e ↦
              let (p', w') = end_failed os d.op_id (failed (boundary_rejected e)) p w₁ in
              (ok p', w')
          | ok _ ↦ commit_and_mutate run target d p w₁
        ]

  -- The target and step 5, its lock, which is given back on every way out.
  unfoldable pub delete : Run → Deletion → Progress Fd → Step
  delete run d p w = elim (lookup d.target_id run.targets) [
    | none ↦
        let (p', w') = end_failed os d.op_id (failed (target_not_found d.target_id)) p w in
        (ok p', w')
    | some target ↦
        let (lock, w₁) = acquire_target_lock d.target_id run.attempt_id w in
        elim lock [
          | err e ↦
              let (p', w') = end_failed os d.op_id (failed (lock_collision e)) p w₁ in (ok p', w')
          | ok permit ↦
              let (r, w₂) = check_boundary run target d p w₁ in (r, release_target_lock permit w₂)
        ]
  ]
