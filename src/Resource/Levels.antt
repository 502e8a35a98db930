-- ===== src/Resource/Levels.antt =====
-- The locks of storages and of mounts of src/resource/mod.rs. Each operation holds the mutex of its
-- map; the counter of the reservations is shared with the target locks.
use cache_cleaner.Base.{
  ℕ, ◌≡◌, ◌↔◌, Bool, true, false, none, some, List, ◌==◌, ==_refl, if◌then◌else◌, Result, ok, err,
  is_ok, arith,
}
use cache_cleaner.Base.Assoc.{lookup, insert, remove, lookup-insert, lookup-remove}
use cache_cleaner.Base.Text.{Text, text_eq_refl}
use cache_cleaner.Base.Word.{wrapping_add}
use cache_cleaner.Domain.Error.{CleanerError, safety_violation, storage_locked, mount_locked}

abbrev pub Reservations : Type 0
Reservations = List (Text × ℕ)

pub record LevelLocks : Type 0 where
  pub locked_storages : Reservations
  pub locked_mounts : Reservations
  pub reservation_counter : ℕ

pub record StorageLockPermit : Type 0 where
  pub storage_id : Text
  pub reservation_id : ℕ

pub record MountLockPermit : Type 0 where
  pub mount_id : Text
  pub reservation_id : ℕ

-- `contains_key`
unfoldable is_locked : Text → Reservations → Bool
is_locked key held = elim (lookup key held) [ none ↦ false | some _ ↦ true ]

-- `drop`: the lock goes if it is still this reservation's.
unfoldable release : Text → ℕ → Reservations → Reservations
release key id held = elim (lookup key held) [
  | none ↦ held
  | some holder ↦ if holder == id then remove key held else held
]

-- `acquire_storage_lock`
unfoldable acquire_storage_lock :
    Text → LevelLocks → Result CleanerError StorageLockPermit × LevelLocks
acquire_storage_lock storage s = elim (is_locked storage s.locked_storages) [
  | true ↦ (err (safety_violation (storage_locked storage)), s)
  | false ↦
      let id = s.reservation_counter in
      (
        ok (record { storage_id = storage; reservation_id = id }),
        record s {
          locked_storages = insert storage id s.locked_storages;
          reservation_counter = wrapping_add id 1;
        },
      )
]

-- `acquire_mount_lock`
unfoldable acquire_mount_lock : Text → LevelLocks → Result CleanerError MountLockPermit × LevelLocks
acquire_mount_lock mount s = elim (is_locked mount s.locked_mounts) [
  | true ↦ (err (safety_violation (mount_locked mount)), s)
  | false ↦
      let id = s.reservation_counter in
      (
        ok (record { mount_id = mount; reservation_id = id }),
        record s {
          locked_mounts = insert mount id s.locked_mounts;
          reservation_counter = wrapping_add id 1;
        },
      )
]

-- `drop` of a `StorageLockPermit`
unfoldable release_storage_lock : StorageLockPermit → LevelLocks → LevelLocks
release_storage_lock permit s = record s {
  locked_storages = release permit.storage_id permit.reservation_id s.locked_storages;
}

-- `drop` of a `MountLockPermit`
unfoldable release_mount_lock : MountLockPermit → LevelLocks → LevelLocks
release_mount_lock permit s = record s {
  locked_mounts = release permit.mount_id permit.reservation_id s.locked_mounts;
}

unfoldable is_storage_locked : Text → LevelLocks → Bool
is_storage_locked storage s = is_locked storage s.locked_storages

unfoldable is_mount_locked : Text → LevelLocks → Bool
is_mount_locked mount s = is_locked mount s.locked_mounts

-- The lock of a storage is given out exactly when nobody holds it, and from then on it is held.
acquire_storage_lock_iff :
    (storage : Text) (s : LevelLocks)
    → ((is_ok (acquire_storage_lock storage s).0 ≡ true) ↔ (is_storage_locked storage s ≡ false))
      × (is_storage_locked storage (acquire_storage_lock storage s).1 ≡ true)
unfolding acquire_storage_lock is_storage_locked is_locked
acquire_storage_lock_iff storage s =
    let after = lookup-insert storage storage s.reservation_counter s.locked_storages in
    ((λ h. ground arith, λ h. ground arith), ground (arith, after, text_eq_refl storage))

-- The lock of a mount is given out exactly when nobody holds it, and from then on it is held.
acquire_mount_lock_iff :
    (mount : Text) (s : LevelLocks)
    → ((is_ok (acquire_mount_lock mount s).0 ≡ true) ↔ (is_mount_locked mount s ≡ false))
      × (is_mount_locked mount (acquire_mount_lock mount s).1 ≡ true)
unfolding acquire_mount_lock is_mount_locked is_locked
acquire_mount_lock_iff mount s =
    let after = lookup-insert mount mount s.reservation_counter s.locked_mounts in
    ((λ h. ground arith, λ h. ground arith), ground (arith, after, text_eq_refl mount))

-- After the drop of the lock that a reservation has, the key is free.
release-is_locked :
    (key : Text) (id : ℕ) (held : Reservations)
    → lookup key held ≡ some id
    → is_locked key (release key id held) ≡ false
unfolding release is_locked
release-is_locked key id held h =
    ground (arith, h, ==_refl id, lookup-remove key key held, text_eq_refl key)
