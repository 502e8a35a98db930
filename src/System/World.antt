-- ===== src/System/World.antt =====
-- The state that the operations of the program share. The parameter is the kernel's state.
use cache_cleaner.Base.{ℕ, Bool, Option, List}
use cache_cleaner.Base.Text.{Text}
use cache_cleaner.Domain.Types.{
  JobId, AttemptId, OperationId, PlanId, WorkerId, TargetId, FileIdentity, Generation,
  UnixTimestamp, ByteCount,
}
use cache_cleaner.Domain.Path.{PathText}

-- Rows of src/store/schema.rs.
pub record JobRow : Type 0 where
  pub job_id : JobId
  pub job_type : Text
  pub state : Text
  pub catalog_generation : Generation
  pub config_generation : Generation
  pub total_estimated_bytes : ByteCount
  pub total_reclaimed_bytes : ByteCount
  pub created_at : UnixTimestamp
  pub updated_at : UnixTimestamp

pub record AttemptRow : Type 0 where
  pub attempt_id : AttemptId
  pub job_id : JobId
  pub worker_id : WorkerId
  pub state : Text
  pub lease_expires_at : UnixTimestamp
  pub started_at : UnixTimestamp
  pub finished_at : Option UnixTimestamp

pub record IntentRow : Type 0 where
  pub intent_id : ℕ
  pub job_id : JobId
  pub attempt_id : AttemptId
  pub op_id : OperationId
  pub target_id : TargetId
  pub rel_path : PathText
  pub expected_identity : FileIdentity
  pub estimated_bytes : ByteCount
  pub mutation_type : Text
  pub state : Text
  pub catalog_generation : Generation
  pub config_generation : Generation
  pub committed_at : UnixTimestamp
  pub resolved_at : Option UnixTimestamp

pub record OperationRow : Type 0 where
  pub job_id : JobId
  pub op_id : OperationId
  pub plan_id : PlanId
  pub target_id : TargetId
  pub op_type : Text
  pub rel_path : PathText
  pub expected_identity : FileIdentity
  pub estimated_bytes : ByteCount
  pub status : Text
  pub reclaimed_bytes : ByteCount
  pub executed_at : UnixTimestamp

pub record LeaseRow : Type 0 where
  pub resource_id : Text
  pub worker_id : WorkerId
  pub acquired_at : UnixTimestamp
  pub expires_at : UnixTimestamp

pub record Database : Type 0 where
  pub jobs : List JobRow
  pub attempts : List AttemptRow
  pub intents : List IntentRow
  pub next_intent_id : ℕ
  pub operations : List OperationRow
  pub leases : List LeaseRow

-- What the program did to durable state, in order. The code keeps no such list: it is there for
-- statements about the order of the effects.
pub data Effect : Type 0 where
  -- A row of operation_intents was inserted.
  intent_committed : AttemptId → OperationId → Effect
  -- The state of an intent was set.
  intent_updated : AttemptId → OperationId → Text → Effect
  -- `unlinkat` was called on a name, with AT_REMOVEDIR or not.
  unlinked : Text → Bool → Effect
  -- A row of operations was written.
  result_recorded : JobId → OperationId → Effect

pub record World (S : Type 0) : Type 0 where
  pub os : S
  pub openat2_supported : Bool
  -- `locked_targets` and `reservation_counter` of the resource manager
  pub locked_targets : List (Text × (AttemptId × ℕ))
  pub reservation_counter : ℕ
  pub db : Database
  pub log : List Effect

-- An action of the program, and one that may fail.
abbrev pub Act : Type 0 → Type 0 → Type 0
Act S A = World S → A × World S

-- A kernel call as an action.
abbrev pub call : {S A : Type 0} → (S → A × S) → Act S A
call f w = let (a, s) = f w.os in (a, record w { os = s })
