-- ===== src/Executor/Guards.antt =====
-- What an operation of `execute_plan` in src/executor/mod.rs must have before it has any effect.
use cache_cleaner.Base.{
  ◌≡◌, ◌≢◌, refl, ap, sym, ◌∙◌, true, false, not, any, contains, none, some, List, ok, is_ok,
  by_result_eq, by_option_eq, by_bool_eq, arith,
}
use cache_cleaner.Base.Assoc.{lookup}
use cache_cleaner.Domain.Types.{OperationId, TargetId, FileIdentity}
use cache_cleaner.Domain.Path.{PathText}
use cache_cleaner.Domain.Target.{TargetDescriptor}
use cache_cleaner.Domain.Plan.{
  OperationType, delete_file, delete_dir_empty, prune_dir_recursive, trim_filesystem,
  vacuum_database, PlannedOperation,
}
use cache_cleaner.Domain.Grant.{Capability}
use cache_cleaner.Safety.{validate_mutation_boundary}
use cache_cleaner.Safety.Gate.{IsMutationAdmissible, validate_mutation_boundary_iff}
use cache_cleaner.System.Os.{Os}
use cache_cleaner.System.World.{World, Effect, call}
use cache_cleaner.Resource.Locks.{TargetLockPermit, acquire_target_lock, release_target_lock}
use cache_cleaner.Store.Codec.{OperationStatus}
use cache_cleaner.Executor.Progress.{Progress, final_result, end_skipped, end_failed}
use cache_cleaner.Executor.Deletion.{Run, Deletion, check_boundary, delete}
use cache_cleaner.Executor.Run.{has_capability, perform, execute_operation}

-- The step has an effect only where `G` holds.
unfoldable Guarded : {A S : Type 0} → List Effect → Type 0 → A × World S → Type 0
Guarded l G x = ¬ (x.1.log ≡ l) → G

Guarded-quiet :
    {A S : Type 0} (l : List Effect) (G : Type 0) (x : A × World S) → x.1.log ≡ l → Guarded l G x
unfolding Guarded
Guarded-quiet l G x e h = absurd (h e)

Guarded-known : {A S : Type 0} (l : List Effect) (G : Type 0) (x : A × World S) → G → Guarded l G x
unfolding Guarded
Guarded-known l G x g h = g

Guarded-map :
    {A S : Type 0} (l : List Effect) (G H : Type 0) (x : A × World S)
    → (G → H)
    → Guarded l G x
    → Guarded l H x
unfolding Guarded
Guarded-map l G H x f g h = f (g h)

-- A step that starts where the log is `k` and whose lock is then given back.
Guarded-released :
    {A S : Type 0} (k l : List Effect) (G H : Type 0) (x : A × World S) (w : World S)
    → k ≡ l
    → w.log ≡ x.1.log
    → (G → H)
    → Guarded k G x
    → Guarded l H (x.0, w)
unfolding Guarded
Guarded-released k l G H x w e e' f g h = f (g (λ same. h (e' ∙ (same ∙ e))))

-- The target of a deletion is in the catalog, nobody holds its lock, and the gate admits the
-- deletion.
pub record MayDelete {S : Type 0} (run : Run) (w : World S) (id : TargetId) (path : PathText)
    (expected : FileIdentity) : Type 0 where
  pub target : TargetDescriptor
  pub in_catalog : lookup id run.targets ≡ some target
  pub unlocked : lookup id w.locked_targets ≡ none
  pub admissible : IsMutationAdmissible target path expected run.catalog_generation

-- What an operation of each type must have before it has an effect: those that delete nothing
-- have none at all.
abbrev pub MayPerform : {S : Type 0} → Run → World S → OperationType → Type 0
MayPerform run w (delete_file id path expected _) = MayDelete run w id path expected
MayPerform run w (delete_dir_empty id path expected) = MayDelete run w id path expected
MayPerform run w (prune_dir_recursive _ _ _) = ⊥
MayPerform run w (trim_filesystem _) = ⊥
MayPerform run w (vacuum_database _) = ⊥

module _ (os : Os) (run : Run) where
  open os use {State, Fd}

  MayDelete-os :
      (id : TargetId) (path : PathText) (expected : FileIdentity) (w v : World State)
      → v.locked_targets ≡ w.locked_targets
      → MayDelete run v id path expected
      → MayDelete run w id path expected
  MayDelete-os id path expected w v e m = record {
    target = m.target;
    in_catalog = m.in_catalog;
    unlocked = ap (λ l. lookup id l) (sym e) ∙ m.unlocked;
    admissible = m.admissible;
  }

  MayPerform-os :
      (t : OperationType) (w v : World State)
      → v.locked_targets ≡ w.locked_targets
      → MayPerform run v t
      → MayPerform run w t
  MayPerform-os (delete_file id _ _ _) w v e m = MayDelete-os id _ _ w v e m
  MayPerform-os (delete_dir_empty id _ _) w v e m = MayDelete-os id _ _ w v e m
  MayPerform-os (prune_dir_recursive _ _ _) w v e m = m
  MayPerform-os (trim_filesystem _) w v e m = m
  MayPerform-os (vacuum_database _) w v e m = m

  end_failed-log :
      (op : OperationId) (s : OperationStatus) (p : Progress Fd) (w : World State)
      → (end_failed os op s p w).1.log ≡ w.log
  unfolding end_failed final_result
  end_failed-log op s p w = refl

  end_skipped-log :
      (op : OperationId) (s : OperationStatus) (p : Progress Fd) (w : World State)
      → (end_skipped os op s p w).1.log ≡ w.log
  unfolding end_skipped final_result
  end_skipped-log op s p w = refl

  acquired-unlocked :
      (id : TargetId) (w : World State) (permit : TargetLockPermit)
      → (acquire_target_lock id run.attempt_id w).0 ≡ ok permit
      → lookup id w.locked_targets ≡ none
  unfolding acquire_target_lock
  acquired-unlocked id w permit h = ground arith

  release-log :
      (permit : TargetLockPermit) (w : World State) → (release_target_lock permit w).log ≡ w.log
  unfolding release_target_lock
  release-log permit w = ground arith

  acquire-log :
      (d : Deletion) (w : World State)
      → (acquire_target_lock d.target_id run.attempt_id w).1.log ≡ w.log
  unfolding acquire_target_lock
  acquire-log d w = ground arith

  check_boundary-Guarded :
      (t : TargetDescriptor) (d : Deletion) (p : Progress Fd) (w : World State)
      → Guarded w.log
          (IsMutationAdmissible t d.rel_path d.expected_identity run.catalog_generation)
          (check_boundary os run t d p w)
  unfolding check_boundary
  check_boundary-Guarded t d p w =
      let (now, w₁) = call os.unix_now w in
      let gate =
        validate_mutation_boundary now t d.rel_path d.expected_identity d.op_id
          run.catalog_generation run.grant_config_generation in
      let G = IsMutationAdmissible t d.rel_path d.expected_identity run.catalog_generation in
      by_result_eq (Guarded w.log G) gate
        (λ proof e. Guarded-known w.log G _ (
          (validate_mutation_boundary_iff now t d.rel_path d.expected_identity d.op_id
              run.catalog_generation run.grant_config_generation).0
            (ap is_ok e)))
        (λ e _. Guarded-quiet w.log G _ (end_failed-log d.op_id _ p w₁))

  delete-Guarded :
      (d : Deletion) (p : Progress Fd) (w : World State)
      → Guarded w.log
          (MayDelete run w d.target_id d.rel_path d.expected_identity)
          (delete os run d p w)
  unfolding delete
  delete-Guarded d p w =
      let G = MayDelete run w d.target_id d.rel_path d.expected_identity in
      let (lock, w₁) = acquire_target_lock d.target_id run.attempt_id w in
      by_option_eq (Guarded w.log G) (lookup d.target_id run.targets)
        (λ t found.
          by_result_eq (Guarded w.log G) lock
            (λ permit free.
              Guarded-released w₁.log w.log
                (IsMutationAdmissible t d.rel_path d.expected_identity run.catalog_generation) G
                (check_boundary os run t d p w₁)
                (release_target_lock permit (check_boundary os run t d p w₁).1) (acquire-log d w)
                (release-log permit (check_boundary os run t d p w₁).1)
                (λ safe. record {
                  target = t;
                  in_catalog = found;
                  unlocked = acquired-unlocked d.target_id w permit free;
                  admissible = safe;
                })
                (check_boundary-Guarded t d p w₁))
            (λ _ _. Guarded-quiet w.log G _ (end_failed-log d.op_id _ p w₁ ∙ acquire-log d w)))
        (λ _. Guarded-quiet w.log G _ (end_failed-log d.op_id _ p w))

  perform-Guarded :
      (op : OperationId) (t : OperationType) (p : Progress Fd) (w : World State)
      → Guarded w.log (MayPerform run w t) (perform os run op t p w)
  unfolding perform
  perform-Guarded op (delete_file _ _ _ _) p w = delete-Guarded _ p w
  perform-Guarded op (delete_dir_empty _ _ _) p w = delete-Guarded _ p w
  perform-Guarded op (prune_dir_recursive _ _ _) p w =
      Guarded-quiet w.log ⊥ _ (end_skipped-log op _ p w)
  perform-Guarded op (trim_filesystem _) p w = Guarded-quiet w.log ⊥ _ (end_skipped-log op _ p w)
  perform-Guarded op (vacuum_database _) p w = Guarded-quiet w.log ⊥ _ (end_skipped-log op _ p w)

  -- What any operation must have: its dependencies, its capability, and what its type needs.
  abbrev pub IsDue : List Capability → PlannedOperation → Progress Fd → World State → Type 0
  IsDue caps op p w =
      (any (λ dep. not (contains p.successful_op_ids dep)) op.dependencies ≡ false)
      × ((has_capability caps op.op_type ≡ true) × MayPerform run w op.op_type)

  execute_operation-Guarded :
      (caps : List Capability) (op : PlannedOperation) (p : Progress Fd) (w : World State)
      → Guarded w.log (IsDue caps op p w) (execute_operation os run caps op p w)
  unfolding execute_operation
  execute_operation-Guarded caps op p w =
      let G = IsDue caps op p w in
      let (cancelled, w₁) = call os.is_cancelled w in
      let w₂ : World State = record w₁ { os = os.throttle w₁.os } in
      by_bool_eq (Guarded w.log G) cancelled
        (λ _. Guarded-quiet w.log G _ (end_skipped-log op.op_id _ p w₁))
        (λ _.
          by_bool_eq (Guarded w.log G)
            (any (λ dep. not (contains p.successful_op_ids dep)) op.dependencies)
            (λ _. Guarded-quiet w.log G _ (end_skipped-log op.op_id _ p w₁))
            (λ ready.
              by_bool_eq (Guarded w.log G) (has_capability caps op.op_type)
                (λ granted.
                  Guarded-map w.log (MayPerform run w₂ op.op_type) G _
                    (λ may. (ready, (granted, MayPerform-os op.op_type w w₂ refl may)))
                    (perform-Guarded op.op_id op.op_type p w₂))
                (λ _. Guarded-quiet w.log G _ (end_failed-log op.op_id _ p w₁))))

  -- An operation that changes the log of effects - that commits an intent, deletes, or records a
  -- result - has its dependencies among the successful operations and its capability in the
  -- grant; it deletes a file or an empty directory, its target is in the catalog and unlocked,
  -- and the mutation boundary admits it.
  pub execute_operation-guarded :
      (caps : List Capability) (op : PlannedOperation) (p : Progress Fd) (w : World State)
      → (execute_operation os run caps op p w).1.log ≢ w.log
      → IsDue caps op p w
  unfolding Guarded
  execute_operation-guarded caps op p w h = execute_operation-Guarded caps op p w h
