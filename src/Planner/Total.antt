-- ===== src/Planner/Total.antt =====
-- The planner succeeds on every list of permits within its budget.
use cache_cleaner.Base.{
  ℕ, suc, ◌≡◌, ◌≤◌, ◌<◌, refl, true, false, ◌&&◌, List, [], ◌∷◌, All, All-map, ltb, length,
  contains, is_ok, ok, arith, ◌↔◌,
}
use cache_cleaner.Domain.Types.{OperationId, UnixTimestamp, JobId, Generation}
use cache_cleaner.Domain.Decision.{PolicyPermit}
use cache_cleaner.Domain.Plan.{PlannedOperation, PlannedPlan}
use cache_cleaner.Planner.{
  default_max_operations_per_plan, draft_of, check_dependencies, check_operations, validate_plan,
  build_plan,
}
use cache_cleaner.Planner.Numbering.{IsNumbered, draft_of-IsNumbered, length-draft_of}

check_dependencies-ok :
    (seen : List OperationId) (op : OperationId) (deps : List OperationId)
    → All (λ d. contains seen d ≡ true) deps
    → check_dependencies seen op deps ≡ ok tt
unfolding check_dependencies
check_dependencies-ok seen op [] h = refl
check_dependencies-ok seen op (d ∷ deps) h = rw (h.0) (check_dependencies-ok seen op deps h.1)

-- What was seen before the operation `k`: the ids from 1 on.
abbrev HasSeen : ℕ → List OperationId → Type 0
HasSeen k seen = (n : OperationId) → contains seen n ≡ (ltb 0 n && ltb n k)

HasSeen-cons :
    (k : ℕ) (seen : List OperationId) → 0 < k → HasSeen k seen → HasSeen (suc k) (k ∷ seen)
HasSeen-cons k seen pos h n = ground (arith, h n)

check_operations-ok :
    (k : ℕ) (seen : List OperationId) (ops : List PlannedOperation)
    → 0 < k
    → HasSeen k seen
    → IsNumbered k ops
    → check_operations seen ops ≡ ok tt
unfolding check_operations
check_operations-ok k seen [] pos h num = refl
check_operations-ok k seen (op ∷ ops) pos h num =
    let fresh : contains seen op.op_id ≡ false = ground (arith, h op.op_id, num.0) in
    let seen' : HasSeen (suc k) (op.op_id ∷ seen) = rw (num.0) (HasSeen-cons k seen pos h) in
    let deps =
      check_dependencies-ok (op.op_id ∷ seen) op.op_id op.dependencies
        (All-map _ _ op.dependencies (λ d e. ground (arith, seen' d, e.0, e.1)) num.1) in
    rw (fresh, deps) (check_operations-ok (suc k) (op.op_id ∷ seen) ops (omega arith) seen' num.2)

module _ (now : UnixTimestamp) (job : JobId) (catalog config : Generation)
    (permits : List PolicyPermit) where
  -- A plan is built exactly if there are at most 10 000 permits: the final validation of ids and
  -- dependencies never refuses what the loops made.
  pub build_plan_iff :
      (is_ok (build_plan now job catalog config permits) ≡ true)
      ↔ (length permits ≤ default_max_operations_per_plan)
  unfolding build_plan validate_plan
  build_plan_iff =
      let len = length-draft_of permits in
      let ops =
        check_operations-ok 1 [] (draft_of permits).operations (omega arith) (λ n. ground arith)
          (draft_of-IsNumbered permits) in
      (λ h. ground arith, λ h. ground (arith, len, ops))

  -- A built plan has one operation for each permit, numbered from 1 in order, and each operation
  -- depends on earlier operations only: the graph has no cycle and its list is an execution order.
  pub build_plan-IsNumbered :
      (plan : PlannedPlan)
      → build_plan now job catalog config permits ≡ ok plan
      → IsNumbered 1 plan.operations × (length plan.operations ≡ length permits)
  unfolding build_plan
  build_plan-IsNumbered plan h =
      let same : plan.operations ≡ (draft_of permits).operations = ground arith in
      rw (same) (draft_of-IsNumbered permits, length-draft_of permits)
