-- ===== src/Executor/Progress.antt =====
-- The local variables of `execute_plan`, and how an operation ends.
use cache_cleaner.Base.{ℕ, ◌+◌, Option, List, [], ◌∷◌, ◌++◌}
use cache_cleaner.Base.Word.{saturating_add}
use cache_cleaner.Domain.Types.{OperationId, TargetId, ByteCount}
use cache_cleaner.Domain.Path.{Component}
use cache_cleaner.System.Os.{Os}
use cache_cleaner.System.World.{Act, call}
use cache_cleaner.System.Handle.{SafeDirHandle}
use cache_cleaner.Store.Codec.{OperationStatus, OperationFinalResult}

-- `ActiveDirCache`; a path is compared by its components
pub record ActiveDirCache (Fd : Type 0) : Type 0 where
  pub target_id : TargetId
  pub parent_path : List Component
  pub handle : SafeDirHandle Fd

pub record Progress (Fd : Type 0) : Type 0 where
  pub results : List OperationFinalResult
  pub total_reclaimed : ByteCount
  pub success_count : ℕ
  pub failed_count : ℕ
  pub skipped_count : ℕ
  pub successful_op_ids : List OperationId
  pub active_dir_cache : Option (ActiveDirCache Fd)

module _ (os : Os) where
  open os use {State, Fd}

  -- The result of an operation at the time of writing it.
  unfoldable pub final_result :
      OperationId → OperationStatus → ByteCount → Act State OperationFinalResult
  final_result op status bytes w =
      let (now, w') = call os.unix_now w in
      (record { op_id = op; status = status; reclaimed_bytes = bytes; executed_at = now }, w')

  abbrev pub push_result : OperationFinalResult → Progress Fd → Progress Fd
  push_result r p = record p { results = p.results ++ r ∷ [] }

  -- An operation that is skipped or preempted, and one that failed: `continue` after the result
  unfoldable pub end_skipped : OperationId → OperationStatus → Progress Fd → Act State (Progress Fd)
  unfolding final_result
  end_skipped op status p w =
      let (r, w') = final_result op status 0 w in
      (push_result r (record p { skipped_count = p.skipped_count + 1 }), w')

  unfoldable pub end_failed : OperationId → OperationStatus → Progress Fd → Act State (Progress Fd)
  unfolding final_result
  end_failed op status p w =
      let (r, w') = final_result op status 0 w in
      (push_result r (record p { failed_count = p.failed_count + 1 }), w')

  -- The counting of a success.
  abbrev pub succeed : OperationId → ByteCount → Progress Fd → Progress Fd
  succeed op bytes p = record p {
    total_reclaimed = saturating_add p.total_reclaimed bytes;
    success_count = p.success_count + 1;
    successful_op_ids = op ∷ p.successful_op_ids;
  }
