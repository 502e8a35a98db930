-- ===== src/Store/Codec.antt =====
-- src/domain/result.rs, and the texts that src/store/mod.rs keeps in its columns.
use cache_cleaner.Base.{ℕ, Bool, true, false, if◌then◌else◌, ◌≡◌, refl}
use cache_cleaner.Base.Text.{Text, codes, text_eq}
use cache_cleaner.Domain.Types.{OperationId, UnixTimestamp, ByteCount, TargetId, JobId, AttemptId}
use cache_cleaner.Domain.Intent.{
  MutationType, delete_file, delete_dir_empty, prune_dir_recursive, IntentState, committed,
  mutating, verified_success, verified_failed, resolved_unknown,
}
use cache_cleaner.Domain.Error.{CleanerError}
use cache_cleaner.Verifier.Outcome.{VerificationOutcome}

-- The messages of a failed or skipped operation.
pub data FailureReason : Type 0 where
  dependency_unfulfilled capability_denied prune_deprecated delegated : FailureReason
  target_not_found : TargetId → FailureReason
  lock_collision boundary_rejected intent_commit_failed parent_unresolved :
      CleanerError → FailureReason
  mutation_error mutation_error_unknown_outcome : CleanerError → FailureReason
  postcondition_failed postcondition_unresolved : VerificationOutcome → FailureReason
  unfinished_mutation post_crash_outcome : VerificationOutcome → FailureReason

pub data OperationStatus : Type 0 where
  success preempted : OperationStatus
  failed verification_failed skipped : FailureReason → OperationStatus

abbrev pub is_success : OperationStatus → Bool
is_success success = true
is_success _ = false

pub record OperationFinalResult : Type 0 where
  pub op_id : OperationId
  pub status : OperationStatus
  pub reclaimed_bytes : ByteCount
  pub executed_at : UnixTimestamp

pub record JobResult : Type 0 where
  pub job_id : JobId
  pub attempt_id : AttemptId
  pub total_reclaimed : ByteCount
  pub total_operations : ℕ
  pub successful_operations : ℕ
  pub failed_operations : ℕ
  pub skipped_operations : ℕ
  pub duration_ms : ℕ

-- `status_str` of `record_operation_result`
unfoldable pub status_text : OperationStatus → Text
status_text success = codes "SUCCESS"
status_text preempted = codes "PREEMPTED"
status_text (failed _) = codes "FAILED"
status_text (verification_failed _) = codes "VERIFICATION_FAILED"
status_text (skipped _) = codes "SKIPPED"

-- `Display` of MutationType and IntentState
unfoldable pub mutation_text : MutationType → Text
mutation_text delete_file = codes "DELETE_FILE"
mutation_text delete_dir_empty = codes "DELETE_DIR_EMPTY"
mutation_text prune_dir_recursive = codes "PRUNE_DIR_RECURSIVE"

unfoldable pub intent_state_text : IntentState → Text
intent_state_text committed = codes "COMMITTED"
intent_state_text mutating = codes "MUTATING"
intent_state_text verified_success = codes "VERIFIED_SUCCESS"
intent_state_text verified_failed = codes "VERIFIED_FAILED"
intent_state_text resolved_unknown = codes "RESOLVED_UNKNOWN"

-- The readings of `get_operation_intents_for_attempt`
unfoldable pub parse_mutation : Text → MutationType
parse_mutation s =
    if text_eq s (codes "DELETE_DIR_EMPTY")
    then delete_dir_empty
    else if text_eq s (codes "PRUNE_DIR_RECURSIVE")
    then prune_dir_recursive
    else delete_file

unfoldable pub parse_intent_state : Text → IntentState
parse_intent_state s =
    if text_eq s (codes "MUTATING")
    then mutating
    else if text_eq s (codes "VERIFIED_SUCCESS")
    then verified_success
    else if text_eq s (codes "VERIFIED_FAILED")
    then verified_failed
    else if text_eq s (codes "RESOLVED_UNKNOWN")
    then resolved_unknown
    else committed

-- Both columns are read back as they were written.
pub codec_roundtrip :
    (m : MutationType) (s : IntentState)
    → (parse_mutation (mutation_text m) ≡ m) × (parse_intent_state (intent_state_text s) ≡ s)
unfolding mutation_text parse_mutation intent_state_text parse_intent_state
codec_roundtrip m s = (mutation m, intent s)
  where
    mutation : (m : MutationType) → parse_mutation (mutation_text m) ≡ m
    mutation delete_file = refl
    mutation delete_dir_empty = refl
    mutation prune_dir_recursive = refl

    intent : (s : IntentState) → parse_intent_state (intent_state_text s) ≡ s
    intent committed = refl
    intent mutating = refl
    intent verified_success = refl
    intent verified_failed = refl
    intent resolved_unknown = refl
