-- ===== src/Verifier/Plans.antt =====
-- `verify_plan_postcondition` of src/verifier/mod.rs. The map of the outcomes is in the order of its
-- first insertions.
use cache_cleaner.Base.{
  ◌≡◌, ◌≢◌, refl, false, Option, none, some, List, [], ◌∷◌, All, ◌==◌, if◌then◌else◌, by_if,
  by_if_eq, arith,
}
use cache_cleaner.Base.Assoc.{lookup}
use cache_cleaner.Domain.Types.{OperationId, TargetId, FileIdentity}
use cache_cleaner.Domain.Path.{PathText}
use cache_cleaner.Domain.Plan.{
  OperationType, delete_file, delete_dir_empty, prune_dir_recursive, trim_filesystem,
  vacuum_database, PlannedOperation, PlannedPlan,
}
use cache_cleaner.System.Os.{Os}
use cache_cleaner.System.World.{World, Act}
use cache_cleaner.Executor.Run.{CatalogSnapshot}
use cache_cleaner.Verifier.Check.{verify_operation_postcondition}
use cache_cleaner.Verifier.Outcome.{
  VerificationOutcome, target_unavailable, stale, is_successful_deletion,
}

abbrev pub Outcomes : Type 0
Outcomes = List (OperationId × VerificationOutcome)

unfoldable put : OperationId → VerificationOutcome → Outcomes → Outcomes
put k v [] = (k, v) ∷ []
put k v ((j, u) ∷ m) = if j == k then (k, v) ∷ m else (j, u) ∷ put k v m

-- What the check of an operation needs, for a deletion
unfoldable deletion_of : OperationType → Option (TargetId × (PathText × FileIdentity))
deletion_of (delete_file id path identity _) = some (id, (path, identity))
deletion_of (delete_dir_empty id path identity) = some (id, (path, identity))
deletion_of (prune_dir_recursive _ _ _) = none
deletion_of (trim_filesystem _) = none
deletion_of (vacuum_database _) = none

unfoldable all_stale : List PlannedOperation → Outcomes → Outcomes
all_stale [] out = out
all_stale (op ∷ ops) out = all_stale ops (put op.op_id stale out)

module _ (os : Os) (catalog : CatalogSnapshot) where
  open os use {State}

  -- The outcome of one deletion
  unfoldable verify_deletion : TargetId → PathText → FileIdentity → Act State VerificationOutcome
  verify_deletion id path identity w = elim (lookup id catalog.targets) [
    | none ↦ (target_unavailable, w)
    | some target ↦ verify_operation_postcondition os target.base_path path identity w
  ]

  -- The loop over the operations
  unfoldable verify_operations : List PlannedOperation → Outcomes → Act State Outcomes
  verify_operations [] out w = (out, w)
  verify_operations (op ∷ ops) out w = elim (deletion_of op.op_type) [
    | none ↦ verify_operations ops out w
    | some d ↦
        let (outcome, w') = verify_deletion d.0 d.1.0 d.1.1 w in
        verify_operations ops (put op.op_id outcome out) w'
  ]

  -- `verify_plan_postcondition`
  unfoldable verify_plan_postcondition : PlannedPlan → Act State Outcomes
  verify_plan_postcondition plan w =
      if plan.catalog_generation == catalog.generation
      then verify_operations plan.operations [] w
      else (all_stale plan.operations [], w)

put-All :
    (P : OperationId × VerificationOutcome → Type 0) (k : OperationId) (v : VerificationOutcome)
    (m : Outcomes)
    → P (k, v)
    → All P m
    → All P (put k v m)
unfolding put
put-All P k v [] p h = (p, tt)
put-All P k v ((j, u) ∷ m) p h = by_if (All P) (j == k) (p, h.1) (h.0, put-All P k v m p h.1)

all_stale-All :
    (ops : List PlannedOperation) (out : Outcomes)
    → All (λ e. is_successful_deletion e.1 ≡ false) out
    → All (λ e. is_successful_deletion e.1 ≡ false) (all_stale ops out)
unfolding all_stale is_successful_deletion
all_stale-All [] out h = h
all_stale-All (op ∷ ops) out h = all_stale-All ops _ (put-All _ op.op_id stale out refl h)

-- For a plan of another generation than the catalog's, no outcome counts as a deletion.
verify_plan_postcondition-stale :
    (os : Os) (catalog : CatalogSnapshot) (plan : PlannedPlan) (w : World os.State)
    → plan.catalog_generation ≢ catalog.generation
    → All (λ e. is_successful_deletion e.1 ≡ false) (verify_plan_postcondition os catalog plan w).0
unfolding verify_plan_postcondition
verify_plan_postcondition-stale os catalog plan w other =
    by_if_eq (λ (q : Outcomes × World os.State). All (λ e. is_successful_deletion e.1 ≡ false) q.0)
      (plan.catalog_generation == catalog.generation) (λ same. absurd (ground (arith, other, same)))
      (λ _. all_stale-All plan.operations [] tt)
