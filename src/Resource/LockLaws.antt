-- ===== src/Resource/LockLaws.antt =====
-- The target locks of src/resource/mod.rs exclude each other.
use cache_cleaner.Base.{
  ℕ, ◌≡◌, ◌≢◌, ◌↔◌, true, false, none, some, List, [], ◌∷◌, All, ==_refl, ok, is_ok, arith,
}
use cache_cleaner.Base.Text.{text_eq_refl, text_eq_iff}
use cache_cleaner.Base.Assoc.{lookup, lookup-insert, lookup-remove}
use cache_cleaner.Domain.Types.{TargetId, AttemptId}
use cache_cleaner.System.World.{World}
use cache_cleaner.Resource.Locks.{
  TargetLockPermit, acquire_target_lock, release_target_lock, is_target_locked,
}

module _ {S : Type 0} (target : TargetId) (attempt : AttemptId) (w : World S) where
  -- A target's lock is given out exactly when nobody holds it, and from then on it is held.
  pub acquire_target_lock_iff :
      ((is_ok (acquire_target_lock target attempt w).0 ≡ true)
        ↔ (is_target_locked target w ≡ false))
      × (is_target_locked target (acquire_target_lock target attempt w).1 ≡ true)
  unfolding acquire_target_lock is_target_locked
  acquire_target_lock_iff =
      let after = lookup-insert target target (attempt, w.reservation_counter) w.locked_targets in
      ((λ h. ground arith, λ h. ground arith), ground (arith, after, text_eq_refl target))

  free-acquired :
      (permit : TargetLockPermit)
      → (acquire_target_lock target attempt w).0 ≡ ok permit
      → (lookup target w.locked_targets ≡ none)
        × ((permit.target_id ≡ target) × (permit.reservation_id ≡ w.reservation_counter))
  unfolding acquire_target_lock
  free-acquired permit h = (ground arith, (ground arith, ground arith))

-- A step of other code on the locks: an attempt to acquire, or the drop of a permit.
pub data LockStep : Type 0 where
  acquires : TargetId → AttemptId → LockStep
  drops : TargetLockPermit → LockStep

unfoldable pub lock_step : {S : Type 0} → LockStep → World S → World S
lock_step (acquires target attempt) w = (acquire_target_lock target attempt w).1
lock_step (drops permit) w = release_target_lock permit w

unfoldable pub lock_steps : {S : Type 0} → List LockStep → World S → World S
lock_steps [] w = w
lock_steps (s ∷ steps) w = lock_steps steps (lock_step s w)

-- The step does not drop the permit of the reservation.
abbrev pub IsForeign : ℕ → LockStep → Type 0
IsForeign id (acquires _ _) = Unit {0}
IsForeign id (drops permit) = permit.reservation_id ≢ id

lock_step-keeps :
    {S : Type 0} (target : TargetId) (attempt : AttemptId) (id : ℕ) (s : LockStep) (w : World S)
    → IsForeign id s
    → lookup target w.locked_targets ≡ some (attempt, id)
    → lookup target (lock_step s w).locked_targets ≡ some (attempt, id)
unfolding lock_step acquire_target_lock release_target_lock
lock_step-keeps target attempt id (acquires t a) w other h = ground (
  arith,
  h,
  text_eq_iff t target,
  lookup-insert t target (a, w.reservation_counter) w.locked_targets,
)
lock_step-keeps target attempt id (drops permit) w other h = ground (
  arith,
  h,
  other,
  text_eq_iff permit.target_id target,
  lookup-remove permit.target_id target w.locked_targets,
)

lock_steps-keeps :
    {S : Type 0} (target : TargetId) (attempt : AttemptId) (id : ℕ) (steps : List LockStep)
    (w : World S)
    → All (IsForeign id) steps
    → lookup target w.locked_targets ≡ some (attempt, id)
    → lookup target (lock_steps steps w).locked_targets ≡ some (attempt, id)
unfolding lock_steps
lock_steps-keeps target attempt id [] w others h = h
lock_steps-keeps target attempt id (s ∷ steps) w others h =
    lock_steps-keeps target attempt id steps (lock_step s w) others.1
      (lock_step-keeps target attempt id s w others.0 h)

module _ {S : Type 0} (target : TargetId) (attempt : AttemptId) (w : World S)
    (permit : TargetLockPermit) (got : (acquire_target_lock target attempt w).0 ≡ ok permit)
    (steps : List LockStep) (others : All (IsForeign permit.reservation_id) steps) where
  held :
      lookup target (lock_steps steps (acquire_target_lock target attempt w).1).locked_targets
      ≡ some (attempt, permit.reservation_id)
  unfolding acquire_target_lock
  held =
      let was = free-acquired target attempt w permit got in
      let now = lookup-insert target target (attempt, w.reservation_counter) w.locked_targets in
      lock_steps-keeps target attempt permit.reservation_id steps _ others
        (ground (arith, was.0, was.1.1, now, text_eq_refl target))

  -- After an acquisition, and whatever locks are acquired and whatever other permits are dropped
  -- since, nobody else acquires the target; the drop of the permit then frees the target and leaves
  -- every other target as locked as it was.
  pub acquire_target_lock-excludes :
      (other : AttemptId) (t : TargetId)
      → t ≢ target
      → let w' = lock_steps steps (acquire_target_lock target attempt w).1 in
        (is_ok (acquire_target_lock target other w').0 ≡ false)
        × (is_target_locked target (release_target_lock permit w') ≡ false)
        × (is_target_locked t (release_target_lock permit w') ≡ is_target_locked t w')
  unfolding acquire_target_lock is_target_locked release_target_lock
  acquire_target_lock-excludes other t apart =
      let w' = lock_steps steps (acquire_target_lock target attempt w).1 in
      let was = free-acquired target attempt w permit got in
      let freed = lookup-remove target target w'.locked_targets in
      let kept = lookup-remove target t w'.locked_targets in
      (
        ground (arith, held),
        ground (arith, held, was.1.0, freed, text_eq_refl target, ==_refl permit.reservation_id),
        ground (
          arith,
          held,
          was.1.0,
          kept,
          text_eq_iff target t,
          apart,
          ==_refl permit.reservation_id,
        ),
      )
