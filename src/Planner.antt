-- ===== src/Planner.antt =====
-- src/planner/mod.rs: the deterministic plan with child-to-parent dependencies.
pub mod Numbering
pub mod Total
pub mod Order
pub mod Children
pub mod Origin
use Prim.Native.Nat.{compare, Ordering, bit_xor}
use cache_cleaner.Base.{
  ℕ, ◌+◌, ◌*◌, ◌%◌, ◌^◌, Bool, true, false, not, ◌&&◌, List, [], ◌∷◌, ◌++◌, ltb, leb, ◌==◌,
  if◌then◌else◌, length, contains, Result, ok, err, ◌>>=◌, ◌>>◌, reject,
}
use cache_cleaner.Base.Text.{Text, text_eq, text_compare, starts_with, split}
use cache_cleaner.Base.Word.{saturating_add, u64_max}
use cache_cleaner.Base.Sort.{sort_by, dedup}
use cache_cleaner.Domain.Types.{
  JobId, OperationId, PlanId, TargetId, Generation, UnixTimestamp, ByteCount,
}
use cache_cleaner.Domain.Path.{PathText}
use cache_cleaner.Domain.Target.{Candidate}
use cache_cleaner.Domain.Decision.{PolicyPermit}
use cache_cleaner.Domain.Plan.{
  OperationType, delete_file, delete_dir_empty, PlannedOperation, PlannedPlan,
}
use cache_cleaner.Domain.Error.{
  CleanerError, plan_budget_exceeded, plan_validation_failed, duplicate_operation,
  invalid_dependency,
}

abbrev pub default_max_operations_per_plan : ℕ
default_max_operations_per_plan = 10000

abbrev pub candidate_of : PolicyPermit → Candidate
candidate_of permit = permit.candidate.candidate

abbrev pub depth : PathText → ℕ
depth path = length (split b'/' path)

abbrev pub then_with : Ordering → Ordering → Ordering
then_with Ordering.eq o = o
then_with Ordering.lt o = Ordering.lt
then_with Ordering.gt o = Ordering.gt

abbrev pub is_gt : Ordering → Bool
is_gt Ordering.gt = true
is_gt _ = false

-- The canonical order of both sorts: target, then the deepest first, then the path.
abbrev pub candidate_compare : Candidate → Candidate → Ordering
candidate_compare a b =
    then_with (text_compare a.target_id b.target_id) (
      then_with (compare (depth b.rel_path) (depth a.rel_path))
        (text_compare a.rel_path b.rel_path))

abbrev pub permit_le : PolicyPermit → PolicyPermit → Bool
permit_le a b = not (is_gt (candidate_compare (candidate_of a) (candidate_of b)))

-- The split of the permits into files and directories, each in the given order.
unfoldable pub files_of : List PolicyPermit → List PolicyPermit
files_of [] = []
files_of (p ∷ ps) = if (candidate_of p).is_dir then files_of ps else p ∷ files_of ps

unfoldable pub dirs_of : List PolicyPermit → List PolicyPermit
dirs_of [] = []
dirs_of (p ∷ ps) = if (candidate_of p).is_dir then p ∷ dirs_of ps else dirs_of ps

-- `path_to_op_id`: an insertion replaces the value of its key.
pub record PathEntry : Type 0 where
  pub target : TargetId
  pub path : PathText
  pub op : OperationId

unfoldable pub put_path : PathEntry → List PathEntry → List PathEntry
put_path e [] = e ∷ []
put_path e (f ∷ fs) =
    if text_eq f.target e.target && text_eq f.path e.path then e ∷ fs else f ∷ put_path e fs

-- The variables of the two planning loops. The counter stays far below the bound of u64: a plan
-- has at most 10 000 operations.
pub record Draft : Type 0 where
  pub op_id_counter : OperationId
  pub total_reclaim : ByteCount
  pub path_to_op_id : List PathEntry
  pub defined_ops : List OperationId
  pub operations : List PlannedOperation

abbrev pub entry : Draft → Candidate → PathEntry
entry d cand = record { target = cand.target_id; path = cand.rel_path; op = d.op_id_counter }

-- 1. A file has no dependencies.
unfoldable pub plan_file : Draft → PolicyPermit → Draft
plan_file d permit =
    let cand = candidate_of permit in
    record {
      op_id_counter = d.op_id_counter + 1;
      total_reclaim = saturating_add d.total_reclaim cand.size_bytes;
      path_to_op_id = put_path (entry d cand) d.path_to_op_id;
      defined_ops = d.op_id_counter ∷ d.defined_ops;
      operations =
          d.operations
          ++ record {
            op_id = d.op_id_counter;
            op_type = delete_file cand.target_id cand.rel_path cand.identity cand.size_bytes;
            dependencies = [];
            estimated_reclaim = cand.size_bytes;
          }
            ∷ [];
    }

-- What lies in the directory: same target, and the path begins with the directory's and a `/`.
abbrev pub is_inside : Candidate → PathEntry → Bool
is_inside cand e =
    text_eq e.target cand.target_id && starts_with e.path (cand.rel_path ++ b'/' ∷ [])

unfoldable pub collect_dependencies : Candidate → List PathEntry → List OperationId
collect_dependencies cand [] = []
collect_dependencies cand (e ∷ es) =
    if is_inside cand e then e.op ∷ collect_dependencies cand es else collect_dependencies cand es

-- `dependencies.retain(|dep| defined_ops.contains(dep))`
unfoldable pub retain_defined : List OperationId → List OperationId → List OperationId
retain_defined defined [] = []
retain_defined defined (dep ∷ deps) =
    if contains defined dep then dep ∷ retain_defined defined deps else retain_defined defined deps

unfoldable pub dependencies_of : Draft → Candidate → List OperationId
dependencies_of d cand =
    retain_defined d.defined_ops
      (dedup ◌==◌ (sort_by leb (collect_dependencies cand d.path_to_op_id)))

-- 2. A directory depends on everything planned inside it.
unfoldable pub plan_dir : Draft → PolicyPermit → Draft
plan_dir d permit =
    let cand = candidate_of permit in
    record {
      op_id_counter = d.op_id_counter + 1;
      total_reclaim = d.total_reclaim;
      path_to_op_id = put_path (entry d cand) d.path_to_op_id;
      defined_ops = d.op_id_counter ∷ d.defined_ops;
      operations =
          d.operations
          ++ record {
            op_id = d.op_id_counter;
            op_type = delete_dir_empty cand.target_id cand.rel_path cand.identity;
            dependencies = dependencies_of d cand;
            estimated_reclaim = 0;
          }
            ∷ [];
    }

unfoldable pub plan_files : Draft → List PolicyPermit → Draft
plan_files d [] = d
plan_files d (p ∷ ps) = plan_files (plan_file d p) ps

unfoldable pub plan_dirs : Draft → List PolicyPermit → Draft
plan_dirs d [] = d
plan_dirs d (p ∷ ps) = plan_dirs (plan_dir d p) ps

abbrev pub empty_draft : Draft
empty_draft = record {
  op_id_counter = 1;
  total_reclaim = 0;
  path_to_op_id = [];
  defined_ops = [];
  operations = [];
}

unfoldable pub draft_of : List PolicyPermit → Draft
draft_of permits =
    plan_dirs (plan_files empty_draft (sort_by permit_le (files_of permits)))
      (sort_by permit_le (dirs_of permits))

-- The loops of `validate_plan` over the dependencies and over the operations.
unfoldable pub check_dependencies :
    List OperationId → OperationId → List OperationId → Result CleanerError (Unit {0})
check_dependencies seen op [] = ok tt
check_dependencies seen op (dep ∷ deps) = do
  reject (not (contains seen dep)) (plan_validation_failed (invalid_dependency op dep))
  check_dependencies seen op deps

unfoldable pub check_operations :
    List OperationId → List PlannedOperation → Result CleanerError (Unit {0})
check_operations seen [] = ok tt
check_operations seen (op ∷ ops) = do
  reject (contains seen op.op_id) (plan_validation_failed (duplicate_operation op.op_id))
  check_dependencies (op.op_id ∷ seen) op.op_id op.dependencies
  check_operations (op.op_id ∷ seen) ops

unfoldable pub validate_plan : PlannedPlan → Result CleanerError (Unit {0})
validate_plan plan = do
  reject (ltb default_max_operations_per_plan (length plan.operations))
      (plan_budget_exceeded (length plan.operations) default_max_operations_per_plan)
  check_operations [] plan.operations

-- `(job_id << 16) ^ (catalog_gen << 8) ^ 1` over u64
abbrev pub plan_id_of : JobId → Generation → PlanId
plan_id_of job catalog =
    bit_xor (bit_xor (job * 2 ^ 16 % (u64_max + 1)) (catalog * 2 ^ 8 % (u64_max + 1))) 1

-- `build_plan`, at the time `now`
unfoldable pub build_plan :
    UnixTimestamp
    → JobId
    → Generation
    → Generation
    → List PolicyPermit
    → Result CleanerError PlannedPlan
build_plan now job catalog config permits = do
  reject (ltb default_max_operations_per_plan (length permits))
      (plan_budget_exceeded (length permits) default_max_operations_per_plan)
  let d = draft_of permits
  let plan : PlannedPlan = record {
    plan_id = plan_id_of job catalog;
    job_id = job;
    catalog_generation = catalog;
    config_generation = config;
    operations = d.operations;
    total_estimated_reclaim = d.total_reclaim;
    created_at = now;
  }
  validate_plan plan
  ok plan
