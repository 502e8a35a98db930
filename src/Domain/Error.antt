-- ===== src/Domain/Error.antt =====
-- src/error.rs. A message that the code formats is the value that it is formatted from.
use cache_cleaner.Base.{ℕ}
use cache_cleaner.Base.Text.{Text}
use cache_cleaner.Domain.Types.{TargetId, AttemptId, OperationId, JobId, Generation}
use cache_cleaner.Domain.Path.{PathText}

-- The errno values that the code tells apart.
pub data Errno : Type 0 where
  noent acces perm io stale busy rofs notdir inval xdev loop nosys : Errno
  other : ℕ → Errno

pub data SafetyReason : Type 0 where
  tier_forbids_mutation : TargetId → SafetyReason
  candidate_target_mismatch : TargetId → TargetId → SafetyReason
  mount_boundary : ℕ → ℕ → SafetyReason
  root_as_candidate : SafetyReason
  boundary_read_only : TargetId → SafetyReason
  boundary_root : SafetyReason
  boundary_device : ℕ → ℕ → SafetyReason
  catalog_generation_mismatch : Generation → Generation → SafetyReason
  filesystem_root : SafetyReason
  protected_root : PathText → PathText → SafetyReason
  stale_catalog stale_config : Generation → Generation → SafetyReason
  target_locked : TargetId → AttemptId → SafetyReason
  resource_locked : Text → SafetyReason
  storage_locked mount_locked : Text → SafetyReason
  toctou_file toctou_dir : Text → SafetyReason
  authorization_invalid : SafetyReason
  invalid_leaf_name : SafetyReason
  lease_claimed : JobId → SafetyReason

pub data PlanReason : Type 0 where
  duplicate_operation : OperationId → PlanReason
  invalid_dependency : OperationId → OperationId → PlanReason

pub data CleanerError : Type 0 where
  io : Errno → CleanerError
  ipc : ℕ → CleanerError
  json : CleanerError
  config_error : Text → CleanerError
  safety_violation : SafetyReason → CleanerError
  storage : Text → CleanerError
  resource_exhausted : CleanerError
  plan_budget_exceeded : ℕ → ℕ → CleanerError
  plan_validation_failed : PlanReason → CleanerError
  internal : Text → CleanerError
