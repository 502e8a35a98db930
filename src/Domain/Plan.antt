-- ===== src/Domain/Plan.antt =====
-- src/domain/plan.rs
use cache_cleaner.Base.{List}
use cache_cleaner.Domain.Types.{
  JobId, OperationId, PlanId, TargetId, FileIdentity, Generation, UnixTimestamp, ByteCount,
}
use cache_cleaner.Domain.Path.{PathText}

pub data OperationType : Type 0 where
  delete_file : TargetId → PathText → FileIdentity → ByteCount → OperationType
  delete_dir_empty : TargetId → PathText → FileIdentity → OperationType
  prune_dir_recursive : TargetId → PathText → FileIdentity → OperationType
  trim_filesystem : PathText → OperationType
  vacuum_database : PathText → OperationType

pub record PlannedOperation : Type 0 where
  pub op_id : OperationId
  pub op_type : OperationType
  pub dependencies : List OperationId
  pub estimated_reclaim : ByteCount

pub record PlannedPlan : Type 0 where
  pub plan_id : PlanId
  pub job_id : JobId
  pub catalog_generation : Generation
  pub config_generation : Generation
  pub operations : List PlannedOperation
  pub total_estimated_reclaim : ByteCount
  pub created_at : UnixTimestamp
