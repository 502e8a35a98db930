-- ===== src/Domain/Intent.antt =====
-- src/domain/intent.rs and src/domain/result.rs
use cache_cleaner.Base.{ℕ, Option, none}
use cache_cleaner.Domain.Types.{
  JobId, AttemptId, OperationId, TargetId, FileIdentity, Generation, UnixTimestamp, ByteCount,
}
use cache_cleaner.Domain.Path.{PathText}

pub data MutationType : Type 0 where
  delete_file delete_dir_empty prune_dir_recursive : MutationType

pub data IntentState : Type 0 where
  committed mutating verified_success verified_failed resolved_unknown : IntentState

pub record OperationIntent : Type 0 where
  pub intent_id : Option ℕ
  pub job_id : JobId
  pub attempt_id : AttemptId
  pub op_id : OperationId
  pub target_id : TargetId
  pub rel_path : PathText
  pub expected_identity : FileIdentity
  pub estimated_bytes : ByteCount
  pub mutation_type : MutationType
  pub state : IntentState
  pub catalog_generation : Generation
  pub config_generation : Generation
  pub committed_at : UnixTimestamp
  pub resolved_at : Option UnixTimestamp

-- `OperationIntent::new`, at the time `now`
unfoldable pub new :
    UnixTimestamp
    → JobId
    → AttemptId
    → OperationId
    → TargetId
    → PathText
    → FileIdentity
    → ByteCount
    → MutationType
    → Generation
    → Generation
    → OperationIntent
new now job attempt op target path identity bytes mutation catalog config = record {
  intent_id = none;
  job_id = job;
  attempt_id = attempt;
  op_id = op;
  target_id = target;
  rel_path = path;
  expected_identity = identity;
  estimated_bytes = bytes;
  mutation_type = mutation;
  state = committed;
  catalog_generation = catalog;
  config_generation = config;
  committed_at = now;
  resolved_at = none;
}
