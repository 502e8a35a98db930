-- ===== src/Resource/Locks.antt =====
-- The target locks of src/resource/mod.rs, over the map and the counter of the shared world.
-- A permit is given back when it goes out of scope.
use cache_cleaner.Base.{ℕ, Bool, true, false, none, some, ◌==◌, if◌then◌else◌, Result, ok, err}
use cache_cleaner.Base.Assoc.{lookup, insert, remove}
use cache_cleaner.Base.Word.{wrapping_add}
use cache_cleaner.Domain.Types.{TargetId, AttemptId}
use cache_cleaner.Domain.Error.{CleanerError, safety_violation, target_locked}
use cache_cleaner.System.World.{World, Act}

pub record TargetLockPermit : Type 0 where
  pub target_id : TargetId
  pub attempt_id : AttemptId
  pub reservation_id : ℕ

-- `acquire_target_lock_for_attempt`
unfoldable pub acquire_target_lock :
    {S : Type 0} → TargetId → AttemptId → Act S (Result CleanerError TargetLockPermit)
acquire_target_lock target attempt w = elim (lookup target w.locked_targets) [
  | some (holder, _) ↦ (err (safety_violation (target_locked target holder)), w)
  | none ↦
      let id = w.reservation_counter in
      (
        ok (record { target_id = target; attempt_id = attempt; reservation_id = id }),
        record w {
          reservation_counter = wrapping_add id 1;
          locked_targets = insert target (attempt, id) w.locked_targets;
        },
      )
]

-- `drop` of a permit: the lock goes if it is still this reservation's
unfoldable pub release_target_lock : {S : Type 0} → TargetLockPermit → World S → World S
release_target_lock permit w = elim (lookup permit.target_id w.locked_targets) [
  | none ↦ w
  | some (_, id) ↦
      if id == permit.reservation_id
      then record w { locked_targets = remove permit.target_id w.locked_targets }
      else w
]

-- `is_target_locked`
unfoldable pub is_target_locked : {S : Type 0} → TargetId → World S → Bool
is_target_locked target w = elim (lookup target w.locked_targets) [ none ↦ false | some _ ↦ true ]
