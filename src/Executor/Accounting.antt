-- ===== src/Executor/Accounting.antt =====
-- How the counters of `execute_plan` in src/executor/mod.rs add up.
use cache_cleaner.Base.{
  ℕ, suc, ◌+◌, ◌≡◌, Option, none, List, [], ◌∷◌, length, length-append, Result, ok, err,
  Result-cases, by_option, any, not, contains, by_bool, by_result, Option-cases, inl, inr, refl,
  subst, if◌then◌else◌, arith,
}
use cache_cleaner.Store.{update_intent_state, commit_operation_intent}
use cache_cleaner.Domain.Intent.{mutating}
use cache_cleaner.Executor.Parent.{get_or_open_parent_dir}
use cache_cleaner.Store.Codec.{intent_state_text}
use cache_cleaner.Domain.Types.{AttemptId, OperationId, Generation}
use cache_cleaner.Domain.Target.{TargetDescriptor}
use cache_cleaner.Domain.Plan.{
  OperationType, delete_file, delete_dir_empty, prune_dir_recursive, trim_filesystem,
  vacuum_database, PlannedOperation,
}
use cache_cleaner.Domain.Grant.{Capability, AuthorizedPlan}
use cache_cleaner.Domain.Error.{CleanerError}
use cache_cleaner.Base.Text.{Text}
use cache_cleaner.System.Os.{Os}
use cache_cleaner.System.World.{World, call}
use cache_cleaner.System.Handle.{SafeDirHandle}
use cache_cleaner.Store.Codec.{OperationStatus, JobResult}
use cache_cleaner.Executor.Progress.{
  Progress, ActiveDirCache, final_result, end_skipped, end_failed,
}
use cache_cleaner.Executor.Deletion.{
  Run, Deletion, Settlement, conclude, mutate, intent_of, open_and_mutate, commit_and_mutate,
  check_boundary, delete,
}
use cache_cleaner.Base.Assoc.{lookup}
use cache_cleaner.Resource.Locks.{acquire_target_lock}
use cache_cleaner.Executor.Run.{
  no_progress, run_of, has_capability, CatalogSnapshot, perform, execute_operation,
  execute_operations, execute_plan,
}

-- The operations that ended.
abbrev pub ended : {Fd : Type 0} → Progress Fd → ℕ
ended p = p.success_count + p.failed_count + p.skipped_count

-- `n` operations ended between `p` and the result, and each has its result and its count.
abbrev pub Ends : {Fd : Type 0} → ℕ → Progress Fd → Result CleanerError (Progress Fd) → Type 0
Ends n p (err e) = Unit
Ends n p (ok p') =
    (ended p' ≡ ended p + n)
    × ((length p'.results ≡ length p.results + n)
        × (p'.success_count + length p.successful_op_ids
            ≡ p.success_count + length p'.successful_op_ids))

Ends-compose :
    {Fd : Type 0} (p q : Progress Fd) (n : ℕ) (r : Result CleanerError (Progress Fd))
    → Ends 1 p (ok q)
    → Ends n q r
    → Ends (suc n) p r
Ends-compose p q n (err e) one rest = tt
Ends-compose p q n (ok p') one rest = (
  ground (arith, one.0, rest.0),
  (ground (arith, one.1.0, rest.1.0), ground (arith, one.1.1, rest.1.1)),
)

module _ (os : Os) where
  open os use {State, Fd}

  -- One operation ended between `p` and what a step leaves.
  unfoldable EndsOne : Progress Fd → Result CleanerError (Progress Fd) × World State → Type 0
  EndsOne p x = Ends 1 p x.0

  EndsOne-world :
      (p : Progress Fd) (x : Result CleanerError (Progress Fd) × World State) (w : World State)
      → EndsOne p x
      → EndsOne p (x.0, w)
  unfolding EndsOne
  EndsOne-world p x w h = h

  EndsOne-err : (p : Progress Fd) (e : CleanerError) (w : World State) → EndsOne p (err e, w)
  unfolding EndsOne
  EndsOne-err p e w = tt

  end_skipped-Ends :
      (op : OperationId) (s : OperationStatus) (p : Progress Fd) (w : World State)
      → EndsOne p (ok (end_skipped os op s p w).0, (end_skipped os op s p w).1)
  unfolding EndsOne end_skipped final_result
  end_skipped-Ends op s p w = (omega arith, (length-append p.results _, refl))

  end_failed-Ends :
      (op : OperationId) (s : OperationStatus) (p : Progress Fd) (w : World State)
      → EndsOne p (ok (end_failed os op s p w).0, (end_failed os op s p w).1)
  unfolding EndsOne end_failed final_result
  end_failed-Ends op s p w = (omega arith, (length-append p.results _, refl))

  conclude-Ends :
      (run : Run) (d : Deletion) (s : Settlement) (p : Progress Fd) (w : World State)
      → EndsOne p (conclude os run d s p w)
  unfolding conclude EndsOne
  conclude-Ends run d s p w =
      elim (Result-cases
        (update_intent_state os run.attempt_id d.op_id (intent_state_text s.intent_state) w).0) [
          | inl (_, e) ↦ elim (Option-cases s.reclaimed) [
            | inl e' ↦ rw (e, e', Ends) (omega arith, (length-append p.results _, omega arith))
            | inr (_, e') ↦ rw (e, e', Ends) (omega arith, (length-append p.results _, omega arith))
          ]
          | inr (_, e) ↦ rw (e, Ends) tt
        ]

  mutate-Ends :
      (run : Run) (d : Deletion) (h : SafeDirHandle Fd) (leaf : Text)
      (cache : Option (ActiveDirCache Fd)) (p : Progress Fd) (w : World State)
      → EndsOne p (mutate os run d h leaf cache p w)
  unfolding mutate EndsOne
  mutate-Ends run d h leaf cache p w =
      conclude-Ends run d _ (record p { active_dir_cache = if d.is_dir then none else cache }) _

  open_and_mutate-Ends :
      (run : Run) (t : TargetDescriptor) (d : Deletion) (p : Progress Fd) (w : World State)
      → EndsOne p (open_and_mutate os run t d p w)
  unfolding open_and_mutate
  open_and_mutate-Ends run t d p w =
      by_result (EndsOne p) (get_or_open_parent_dir os p.active_dir_cache t d.rel_path w).0
        (λ q. mutate-Ends run d q.0 q.1 q.2 p _) (λ e. end_failed-Ends d.op_id _ p _)

  commit_and_mutate-Ends :
      (run : Run) (t : TargetDescriptor) (d : Deletion) (p : Progress Fd) (w : World State)
      → EndsOne p (commit_and_mutate os run t d p w)
  unfolding commit_and_mutate
  commit_and_mutate-Ends run t d p w =
      let (now, w₀) = call os.unix_now w in
      let (committed, w₁) = commit_operation_intent os (intent_of os run d now) w₀ in
      let (marked, w₂) =
        update_intent_state os run.attempt_id d.op_id (intent_state_text mutating) w₁ in
      by_result (EndsOne p) committed
        (λ _.
          by_result (EndsOne p) marked (λ _. open_and_mutate-Ends run t d p w₂)
            (λ e. EndsOne-err p e w₂))
        (λ e. end_failed-Ends d.op_id _ p w₁)

  check_boundary-Ends :
      (run : Run) (t : TargetDescriptor) (d : Deletion) (p : Progress Fd) (w : World State)
      → EndsOne p (check_boundary os run t d p w)
  unfolding check_boundary
  check_boundary-Ends run t d p w =
      by_result (EndsOne p) _ (λ _. commit_and_mutate-Ends run t d p _)
        (λ e. end_failed-Ends d.op_id _ p _)

  delete-Ends :
      (run : Run) (d : Deletion) (p : Progress Fd) (w : World State)
      → EndsOne p (delete os run d p w)
  unfolding delete
  delete-Ends run d p w =
      by_option (EndsOne p) (lookup d.target_id run.targets)
        (λ t.
          by_result (EndsOne p) (acquire_target_lock d.target_id run.attempt_id w).0
            (λ _. EndsOne-world p _ _ (check_boundary-Ends run t d p _))
            (λ _. end_failed-Ends d.op_id _ p _))
        (end_failed-Ends d.op_id _ p _)

  perform-Ends :
      (run : Run) (op : OperationId) (t : OperationType) (p : Progress Fd) (w : World State)
      → EndsOne p (perform os run op t p w)
  unfolding perform
  perform-Ends run op (delete_file _ _ _ _) p w = delete-Ends run _ p w
  perform-Ends run op (delete_dir_empty _ _ _) p w = delete-Ends run _ p w
  perform-Ends run op (prune_dir_recursive _ _ _) p w = end_skipped-Ends op _ p _
  perform-Ends run op (trim_filesystem _) p w = end_skipped-Ends op _ p _
  perform-Ends run op (vacuum_database _) p w = end_skipped-Ends op _ p _

  execute_operation-Ends :
      (run : Run) (caps : List Capability) (op : PlannedOperation) (p : Progress Fd)
      (w : World State)
      → EndsOne p (execute_operation os run caps op p w)
  unfolding execute_operation
  execute_operation-Ends run caps op p w =
      by_bool (EndsOne p) (call os.is_cancelled w).0 (end_skipped-Ends op.op_id _ p _) (
        by_bool (EndsOne p) (any (λ dep. not (contains p.successful_op_ids dep)) op.dependencies)
          (end_skipped-Ends op.op_id _ p _)
          (by_bool (EndsOne p) (has_capability caps op.op_type)
            (perform-Ends run op.op_id op.op_type p _) (end_failed-Ends op.op_id _ p _)))

  execute_operations-Ends :
      (run : Run) (caps : List Capability) (ops : List PlannedOperation) (p : Progress Fd)
      (w : World State)
      → Ends (length ops) p (execute_operations os run caps ops p w).0
  unfolding execute_operations EndsOne
  execute_operations-Ends run caps [] p w = (omega arith, (omega arith, refl))
  execute_operations-Ends run caps (op ∷ ops) p w =
      let one = execute_operation-Ends run caps op p w in
      elim (Result-cases (execute_operation os run caps op p w).0) [
        | inl (q, e) ↦
            let rest =
              execute_operations-Ends run caps ops q (execute_operation os run caps op p w).1 in
            rw (e, Ends) (Ends-compose p q (length ops) _ (subst (Ends 1 p) e one) rest)
        | inr (_, e) ↦ rw (e, Ends) tt
      ]

  module _ (a : AuthorizedPlan) (catalog : CatalogSnapshot) (config : Generation)
      (attempt : AttemptId) (w : World State) where
    -- A run that returns a job result counted each operation of the plan exactly once, as
    -- successful, failed or skipped.
    pub execute_plan-counts :
        (r : JobResult)
        → (execute_plan os a catalog config attempt w).0 ≡ ok r
        → (r.successful_operations + r.failed_operations + r.skipped_operations
            ≡ r.total_operations)
          × (r.total_operations ≡ length a.plan.operations)
    unfolding execute_plan
    execute_plan-counts r h =
        let all =
          execute_operations-Ends (run_of a catalog attempt) a.grant.capabilities a.plan.operations
            (no_progress os) (call os.unix_now (call os.clock_ms w).1).1 in
        let both : (r.total_operations ≡ length a.plan.operations)
            × (r.successful_operations + r.failed_operations + r.skipped_operations
                ≡ length a.plan.operations) =
          ground (arith, all) in
        (omega (arith, both.0, both.1), both.0)
