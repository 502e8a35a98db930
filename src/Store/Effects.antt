-- ===== src/Store/Effects.antt =====
-- What the writes of src/store/mod.rs add to the log of effects.
use cache_cleaner.Base.{◌≡◌, List, [], ◌∷◌, ◌++◌, Result, ok, err, arith}
use cache_cleaner.Base.Text.{Text}
use cache_cleaner.Domain.Types.{
  JobId, AttemptId, OperationId, PlanId, TargetId, FileIdentity, ByteCount,
}
use cache_cleaner.Domain.Path.{PathText}
use cache_cleaner.Domain.Intent.{OperationIntent}
use cache_cleaner.Domain.Error.{CleanerError}
use cache_cleaner.System.Os.{Os}
use cache_cleaner.System.World.{
  World, Database, Effect, intent_committed, intent_updated, result_recorded, call,
}
use cache_cleaner.Store.{
  sql, put_operation, operation_row, insert_intent, set_intent_state, commit_operation_intent,
  update_intent_state, record_operation_result,
}
use cache_cleaner.Store.Codec.{OperationFinalResult}

-- A write that succeeded added `e` to the log `l`, and one that failed nothing.
unfoldable pub Appends :
    {S : Type 0} → List Effect → Effect → Result CleanerError (Unit {0}) × World S → Type 0
Appends l e x = elim x.0 [ ok _ ↦ x.1.log ≡ l ++ e ∷ [] | err _ ↦ x.1.log ≡ l ]

unfoldable SameLog : {S : Type 0} → List Effect → Result CleanerError (Unit {0}) × World S → Type 0
SameLog l x = x.1.log ≡ l

module _ (os : Os) where
  open os use {State}

  sql-SameLog :
      (st : Database → Result Text Database) (w : World State) → SameLog w.log (sql os st w)
  unfolding sql SameLog
  sql-SameLog st w = ground arith

  pub sql-log :
      (st : Database → Result Text Database) (w : World State) → (sql os st w).1.log ≡ w.log
  unfolding SameLog
  sql-log st w = sql-SameLog st w

  pub commit_operation_intent-Appends :
      (i : OperationIntent) (w : World State)
      → Appends w.log (intent_committed i.attempt_id i.op_id) (commit_operation_intent os i w)
  unfolding commit_operation_intent Appends
  commit_operation_intent-Appends i w = ground (arith, sql-log (insert_intent i) w)

  pub update_intent_state-Appends :
      (attempt : AttemptId) (op : OperationId) (state : Text) (w : World State)
      → Appends w.log (intent_updated attempt op state) (update_intent_state os attempt op state w)
  unfolding update_intent_state Appends
  update_intent_state-Appends attempt op state w = ground (
    arith,
    sql-log (λ db. ok (set_intent_state attempt op state (call os.unix_now w).0 db))
        (call os.unix_now w).1,
  )

  pub record_operation_result-Appends :
      (job : JobId) (plan : PlanId) (target : TargetId) (op_type : Text) (path : PathText)
      (identity : FileIdentity) (bytes : ByteCount) (result : OperationFinalResult)
      (w : World State)
      → Appends w.log
          (result_recorded job result.op_id)
          (record_operation_result os job plan target op_type path identity bytes result w)
  unfolding record_operation_result Appends
  record_operation_result-Appends job plan target op_type path identity bytes result w = ground (
    arith,
    sql-log (put_operation (operation_row job plan target op_type path identity bytes result)) w,
  )
