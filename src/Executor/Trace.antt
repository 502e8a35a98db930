-- ===== src/Executor/Trace.antt =====
-- A run of src/executor/mod.rs keeps the order of effects: commit, mark, delete, settle, record.
use cache_cleaner.Base.{
  ℕ, ◌≡◌, ap, sym, ◌∙◌, ◌⊎◌, subst, Bool, true, false, not, any, contains, Option, none, List, [],
  ◌∷◌, ◌++◌, if◌then◌else◌, by_result, by_result_eq, by_option, by_bool, arith,
}
use cache_cleaner.Base.Text.{Text}
use cache_cleaner.Base.Assoc.{lookup}
use cache_cleaner.Domain.Types.{AttemptId, OperationId, Generation}
use cache_cleaner.Domain.Target.{TargetDescriptor}
use cache_cleaner.Domain.Plan.{
  OperationType, delete_file, delete_dir_empty, prune_dir_recursive, trim_filesystem,
  vacuum_database, PlannedOperation,
}
use cache_cleaner.Domain.Intent
use cache_cleaner.Domain.Intent.{mutating}
use cache_cleaner.Domain.Grant.{Capability, AuthorizedPlan}
use cache_cleaner.Safety.{validate_mutation_boundary}
use cache_cleaner.System.Os.{Os}
use cache_cleaner.System.World.{World, Effect, intent_committed, unlinked, call}
use cache_cleaner.System.Handle.{SafeDirHandle, delete_child}
use cache_cleaner.System.Quiet.{delete_child-Unlinks}
use cache_cleaner.Resource.Locks.{TargetLockPermit, acquire_target_lock, release_target_lock}
use cache_cleaner.Verifier.Check.{verify_with_parent_handle}
use cache_cleaner.Store.{update_intent_state, commit_operation_intent, record_operation_result}
use cache_cleaner.Store.Effects.{
  Appends, commit_operation_intent-Appends, update_intent_state-Appends,
  record_operation_result-Appends,
}
use cache_cleaner.Store.Codec.{intent_state_text, mutation_text}
use cache_cleaner.Executor.Progress.{Progress, ActiveDirCache, final_result}
use cache_cleaner.Executor.Parent.{get_or_open_parent_dir}
use cache_cleaner.Executor.Deletion.{
  Run, Deletion, Settlement, mutation_type, settle, conclude, mutate, open_and_mutate, intent_of,
  commit_and_mutate, check_boundary, delete, reclaimed_bytes,
}
use cache_cleaner.Executor.Run.{
  CatalogSnapshot, has_capability, run_of, no_progress, perform, execute_operation,
  execute_operations, execute_plan,
}
use cache_cleaner.Executor.Protocol.{
  resting, marked, removed, phase_of, rests, is_broken, announced, unlinked-announced,
}
use cache_cleaner.Executor.Quiet.{get_or_open_parent_dir-log, verify_with_parent_handle-log}
use cache_cleaner.Executor.Phases.{
  Lawful-rests, Lawful, rests-alive, Lawful-alive, Lawful-log, InFlight, Lawful-ok, Lawful-err,
  end_failed-Lawful, end_skipped-Lawful, record-rests, update-phase, mark-phase, commit-phase,
  delete-phase,
}

module _ (os : Os) (run : Run) where
  open os use {State, Fd}

  final-phase :
      (d : Deletion) (s : Settlement) (w : World State)
      → phase_of run.attempt_id w.log ≡ resting
      → phase_of run.attempt_id (final_result os d.op_id s.status (reclaimed_bytes os s) w).1.log
        ≡ resting
  unfolding final_result
  final-phase d s w h = h

  conclude-Lawful :
      (d : Deletion) (s : Settlement) (p : Progress Fd) (w : World State)
      → InFlight os run.attempt_id d.op_id w
      → Lawful run.attempt_id (conclude os run d s p w)
  unfolding conclude final_result
  conclude-Lawful d s p w h =
      let x = update_intent_state os run.attempt_id d.op_id (intent_state_text s.intent_state) w in
      let phase =
        update-phase os run.attempt_id w.log x d.op_id (intent_state_text s.intent_state) h (
          update_intent_state-Appends os run.attempt_id d.op_id (intent_state_text s.intent_state)
            w) in
      let (result, w₂) = final_result os d.op_id s.status (reclaimed_bytes os s) x.1 in
      by_result_eq (Lawful run.attempt_id) x.0
        (λ u e. Lawful-ok os run.attempt_id _ _ (
          record-rests os run.attempt_id w₂.log
            (record_operation_result os run.job_id run.plan_id d.target_id
              (mutation_text (mutation_type d)) d.rel_path d.expected_identity d.estimated_size
              result w₂)
            run.job_id d.op_id (final-phase d s x.1 (phase.1 u e))
            (record_operation_result-Appends os run.job_id run.plan_id d.target_id
              (mutation_text (mutation_type d)) d.rel_path d.expected_identity d.estimated_size
              result w₂)))
        (λ e _. Lawful-err os run.attempt_id e x.1 phase.0)

  intent-Appends :
      (d : Deletion) (now : ℕ) (w : World State)
      → Appends w.log
          (intent_committed run.attempt_id d.op_id)
          (commit_operation_intent os (intent_of os run d now) w)
  unfolding Intent.new
  intent-Appends d now w = commit_operation_intent-Appends os (intent_of os run d now) w

  mutate-Lawful :
      (d : Deletion) (h : SafeDirHandle Fd) (leaf : Text) (cache : Option (ActiveDirCache Fd))
      (p : Progress Fd) (w : World State)
      → phase_of run.attempt_id w.log ≡ marked d.op_id
      → Lawful run.attempt_id (mutate os run d h leaf cache p w)
  unfolding mutate
  mutate-Lawful d h leaf cache p w m =
      let x = delete_child os d.is_dir h leaf d.expected_identity w in
      let y = verify_with_parent_handle os h leaf d.expected_identity x.1 in
      let same : y.1.log ≡ x.1.log =
        verify_with_parent_handle-log os h leaf d.expected_identity x.1 in
      conclude-Lawful d (settle d.estimated_size x.0 y.0)
        (record p { active_dir_cache = if d.is_dir then none else cache }) y.1
        (subst
          (λ l.
            (phase_of run.attempt_id l ≡ marked d.op_id)
            ⊎ (phase_of run.attempt_id l ≡ removed d.op_id))
          (sym same)
          (delete-phase os run.attempt_id w.log x d.op_id m
            (delete_child-Unlinks os d.is_dir h leaf d.expected_identity w)))

  open_and_mutate-Lawful :
      (t : TargetDescriptor) (d : Deletion) (p : Progress Fd) (w : World State)
      → phase_of run.attempt_id w.log ≡ marked d.op_id
      → Lawful run.attempt_id (open_and_mutate os run t d p w)
  unfolding open_and_mutate
  open_and_mutate-Lawful t d p w m =
      let x = get_or_open_parent_dir os p.active_dir_cache t d.rel_path w in
      let now =
        ap (phase_of run.attempt_id)
          (get_or_open_parent_dir-log os p.active_dir_cache t d.rel_path w)
        ∙ m in
      by_result (Lawful run.attempt_id) x.0 (λ q. mutate-Lawful d q.0 q.1 q.2 p x.1 now)
        (λ e. end_failed-Lawful os run.attempt_id d.op_id _ p x.1 (ap rests now))

  commit_and_mutate-Lawful :
      (t : TargetDescriptor) (d : Deletion) (p : Progress Fd) (w : World State)
      → rests (phase_of run.attempt_id w.log) ≡ true
      → Lawful run.attempt_id (commit_and_mutate os run t d p w)
  unfolding commit_and_mutate
  commit_and_mutate-Lawful t d p w h =
      let (now, w₀) = call os.unix_now w in
      let x = commit_operation_intent os (intent_of os run d now) w₀ in
      let y = update_intent_state os run.attempt_id d.op_id (intent_state_text mutating) x.1 in
      let after = commit-phase os run.attempt_id w.log x d.op_id h (intent-Appends d now w₀) in
      by_result_eq (Lawful run.attempt_id) x.0
        (λ u e.
          let marked_now = mark-phase os run.attempt_id x.1.log y d.op_id (after.0 u e) (
            update_intent_state-Appends os run.attempt_id d.op_id (intent_state_text mutating)
              x.1) in
          by_result_eq (Lawful run.attempt_id) y.0
            (λ v e'. open_and_mutate-Lawful t d p y.1 (marked_now.1 v e'))
            (λ f _. Lawful-err os run.attempt_id f y.1 marked_now.0))
        (λ f e. end_failed-Lawful os run.attempt_id d.op_id _ p x.1 (after.1 f e))

  check_boundary-Lawful :
      (t : TargetDescriptor) (d : Deletion) (p : Progress Fd) (w : World State)
      → rests (phase_of run.attempt_id w.log) ≡ true
      → Lawful run.attempt_id (check_boundary os run t d p w)
  unfolding check_boundary
  check_boundary-Lawful t d p w h =
      let (now, w₁) = call os.unix_now w in
      by_result (Lawful run.attempt_id)
        (validate_mutation_boundary now t d.rel_path d.expected_identity d.op_id
          run.catalog_generation run.grant_config_generation)
        (λ _. commit_and_mutate-Lawful t d p w₁ h)
        (λ e. end_failed-Lawful os run.attempt_id d.op_id _ p w₁ h)

  acquire-log :
      (d : Deletion) (w : World State)
      → (acquire_target_lock d.target_id run.attempt_id w).1.log ≡ w.log
  unfolding acquire_target_lock
  acquire-log d w = ground arith

  release-log :
      (permit : TargetLockPermit) (w : World State) → (release_target_lock permit w).log ≡ w.log
  unfolding release_target_lock
  release-log permit w = ground arith

  delete-Lawful :
      (d : Deletion) (p : Progress Fd) (w : World State)
      → rests (phase_of run.attempt_id w.log) ≡ true
      → Lawful run.attempt_id (delete os run d p w)
  unfolding delete
  delete-Lawful d p w h =
      let (lock, w₁) = acquire_target_lock d.target_id run.attempt_id w in
      let now = ap (λ l. rests (phase_of run.attempt_id l)) (acquire-log d w) ∙ h in
      by_option (Lawful run.attempt_id) (lookup d.target_id run.targets)
        (λ t.
          by_result (Lawful run.attempt_id) lock
            (λ permit.
              Lawful-log run.attempt_id (check_boundary os run t d p w₁)
                (release_target_lock permit (check_boundary os run t d p w₁).1)
                (release-log permit (check_boundary os run t d p w₁).1)
                (check_boundary-Lawful t d p w₁ now))
            (λ _. end_failed-Lawful os run.attempt_id d.op_id _ p w₁ now))
        (end_failed-Lawful os run.attempt_id d.op_id _ p w h)

  perform-Lawful :
      (op : OperationId) (t : OperationType) (p : Progress Fd) (w : World State)
      → rests (phase_of run.attempt_id w.log) ≡ true
      → Lawful run.attempt_id (perform os run op t p w)
  unfolding perform
  perform-Lawful op (delete_file _ _ _ _) p w h = delete-Lawful _ p w h
  perform-Lawful op (delete_dir_empty _ _ _) p w h = delete-Lawful _ p w h
  perform-Lawful op (prune_dir_recursive _ _ _) p w h =
      end_skipped-Lawful os run.attempt_id op _ p w h
  perform-Lawful op (trim_filesystem _) p w h = end_skipped-Lawful os run.attempt_id op _ p w h
  perform-Lawful op (vacuum_database _) p w h = end_skipped-Lawful os run.attempt_id op _ p w h

  execute_operation-Lawful :
      (caps : List Capability) (op : PlannedOperation) (p : Progress Fd) (w : World State)
      → rests (phase_of run.attempt_id w.log) ≡ true
      → Lawful run.attempt_id (execute_operation os run caps op p w)
  unfolding execute_operation
  execute_operation-Lawful caps op p w h =
      let (cancelled, w₁) = call os.is_cancelled w in
      by_bool (Lawful run.attempt_id) cancelled
        (end_skipped-Lawful os run.attempt_id op.op_id _ p w₁ h)
        (by_bool (Lawful run.attempt_id)
          (any (λ dep. not (contains p.successful_op_ids dep)) op.dependencies)
          (end_skipped-Lawful os run.attempt_id op.op_id _ p w₁ h)
          (by_bool (Lawful run.attempt_id) (has_capability caps op.op_type)
            (perform-Lawful op.op_id op.op_type p (record w₁ { os = os.throttle w₁.os }) h)
            (end_failed-Lawful os run.attempt_id op.op_id _ p w₁ h)))

  execute_operations-Lawful :
      (caps : List Capability) (ops : List PlannedOperation) (p : Progress Fd) (w : World State)
      → rests (phase_of run.attempt_id w.log) ≡ true
      → Lawful run.attempt_id (execute_operations os run caps ops p w)
  unfolding execute_operations
  execute_operations-Lawful caps [] p w h = Lawful-ok os run.attempt_id p w h
  execute_operations-Lawful caps (op ∷ ops) p w h =
      let x = execute_operation os run caps op p w in
      let one = execute_operation-Lawful caps op p w h in
      by_result_eq (Lawful run.attempt_id) x.0
        (λ q e. execute_operations-Lawful caps ops q x.1 (Lawful-rests run.attempt_id x q e one))
        (λ f e. Lawful-err os run.attempt_id f x.1 (Lawful-alive run.attempt_id x one))

module _ (os : Os) (a : AuthorizedPlan) (catalog : CatalogSnapshot) (config : Generation)
    (attempt : AttemptId) (w : World os.State) where
  -- A run, also one that ends in an error, keeps the order of effects of its attempt.
  pub execute_plan-keeps_order :
      rests (phase_of attempt w.log) ≡ true
      → is_broken (phase_of attempt (execute_plan os a catalog config attempt w).1.log) ≡ false
  unfolding execute_plan
  execute_plan-keeps_order h =
      let w₂ = (call os.unix_now (call os.clock_ms w).1).1 in
      let alive =
        Lawful-alive attempt
          (execute_operations os (run_of a catalog attempt) a.grant.capabilities a.plan.operations
            (no_progress os) w₂)
          (execute_operations-Lawful os (run_of a catalog attempt) a.grant.capabilities
            a.plan.operations (no_progress os) w₂ h) in
      ground (arith, alive, rests-alive (phase_of attempt w.log) h)

  -- Where the log was empty before a run, each deletion in it stands directly after the two
  -- effects that announce it: its intent was inserted and then marked MUTATING.
  pub execute_plan-announced :
      (k l : List Effect) (name : Text) (is_dir : Bool)
      → w.log ≡ []
      → (execute_plan os a catalog config attempt w).1.log ≡ k ++ unlinked name is_dir ∷ l
      → (op : OperationId) × ((k₀ : List Effect) × (k ≡ k₀ ++ announced attempt op))
  execute_plan-announced k l name is_dir empty split = unlinked-announced attempt k l name is_dir (
      ap (λ m. is_broken (phase_of attempt m)) (sym split)
      ∙ execute_plan-keeps_order (ap (λ m. rests (phase_of attempt m)) empty))
