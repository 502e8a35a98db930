-- ===== src/Catalog/Publishing.antt =====
-- `discover_all_targets` of src/catalog/mod.rs publishes a catalog of one generation or keeps the last.
use cache_cleaner.Base.{◌≡◌, refl, Bool, true, false, List, [], ◌∷◌, All, by_if, by_result}
use cache_cleaner.Domain.Types.{Generation}
use cache_cleaner.Domain.Path.{PathText}
use cache_cleaner.Base.Text.{codes}
use cache_cleaner.Domain.Target.{TargetClass, TargetSafetyTier, standard_cache}
use cache_cleaner.System.Os.{Os}
use cache_cleaner.System.World.{World, call}
use cache_cleaner.System.Handle.{open_root}
use cache_cleaner.Executor.Run.{CatalogSnapshot}
use cache_cleaner.Catalog.{
  Targets, is_empty, system_junk_locations, next_generation, publish, system_id,
}
use cache_cleaner.Catalog.Discovery.{
  EncryptionState, unencrypted, device_encrypted_only, fully_unlocked, unknown, AndroidUser,
  Platform, collect_system_targets,
}
use cache_cleaner.Catalog.Users.{
  collect_user, collect_users, collect_fallback, collect_all, discover_all_targets,
}
use cache_cleaner.Catalog.Generations.{
  IsTarget, Has, insert-All, collect_android_user_targets-Has, collect_android_external_targets-Has,
}

-- Every target is one of the snapshot's generation.
abbrev pub IsCatalog : CatalogSnapshot → Type 0
IsCatalog s = All (IsTarget s.generation) s.targets

publish-IsCatalog :
    (g : Generation) (staging : Targets) (current : CatalogSnapshot)
    → All (IsTarget g) staging
    → IsCatalog current
    → IsCatalog (publish g staging current)
unfolding publish
publish-IsCatalog g [] current h k = by_if IsCatalog (is_empty current.targets) h k
publish-IsCatalog g (t ∷ ts) current h k = h

publish-is_empty :
    (g : Generation) (staging : Targets) (current : CatalogSnapshot)
    → is_empty current.targets ≡ false
    → is_empty (publish g staging current).targets ≡ false
unfolding publish
publish-is_empty g [] current e = rw (e) e
publish-is_empty g (t ∷ ts) current e = refl

module _ (os : Os) (platform : Platform os.State) (g : Generation) where
  open os use {State}

  pub collect_system_targets-Has :
      (locations : List (PathText × (TargetClass × TargetSafetyTier)))
      → All (λ l. l.1.1 ≡ standard_cache) locations
      → (out : Targets) (w : World State) → All (IsTarget g) out
      → Has g (collect_system_targets os platform g locations out w)
  unfolding collect_system_targets Has
  collect_system_targets-Has [] s out w h = h
  collect_system_targets-Has ((path, (class, tier)) ∷ rest) s out w h =
      by_result (Has g) (open_root os path w).0
        (λ handle.
          collect_system_targets-Has rest s.1 _ _
            (insert-All (IsTarget g) (system_id path) _ out (refl, refl, s.0) h))
        (λ _. collect_system_targets-Has rest s.1 out _ h)

  collect_user-Has :
      (state : EncryptionState) (user : AndroidUser) (out : Targets) (w : World State)
      → All (IsTarget g) out
      → Has g (collect_user os platform state user g out w)
  unfolding collect_user Has
  collect_user-Has fully_unlocked user out w h =
      collect_android_external_targets-Has os platform g user.media_path user.user_id _ _ (
        collect_android_user_targets-Has os platform g user.de_path user.user_id _ _
          (collect_android_user_targets-Has os platform g user.ce_path user.user_id out w h))
  collect_user-Has unencrypted user out w h =
      collect_android_external_targets-Has os platform g user.media_path user.user_id _ _ (
        collect_android_user_targets-Has os platform g user.de_path user.user_id _ _
          (collect_android_user_targets-Has os platform g user.ce_path user.user_id out w h))
  collect_user-Has device_encrypted_only user out w h =
      collect_android_user_targets-Has os platform g user.de_path user.user_id out w h
  collect_user-Has unknown user out w h = h

  collect_users-Has :
      (users : List AndroidUser) (found : Bool) (out : Targets) (w : World State)
      → All (IsTarget g) out
      → All (IsTarget g) (collect_users os platform users g found out w).0.1
  unfolding collect_users Has
  collect_users-Has [] found out w h = h
  collect_users-Has (user ∷ users) found out w h =
      collect_users-Has users _ _ _
        (collect_user-Has (call (platform.check_encryption_state user.user_id) w).0 user out _ h)

  collect_fallback-Has :
      (found : Bool) (out : Targets) (w : World State)
      → All (IsTarget g) out
      → Has g (collect_fallback os platform found g out w)
  unfolding collect_fallback Has
  collect_fallback-Has true out w h = h
  collect_fallback-Has false out w h =
      collect_android_user_targets-Has os platform g (codes "/data/data") 0 _ _ (
        collect_android_user_targets-Has os platform g (codes "/data/user_de/0") 0 _ _
          (collect_android_user_targets-Has os platform g (codes "/data/user/0") 0 out w h))

  collect_all-Has : (w : World State) → Has g (collect_all os platform g w)
  unfolding collect_all Has collect_fallback
  collect_all-Has w =
      collect_system_targets-Has system_junk_locations (refl, (refl, (refl, (refl, tt)))) _ _
        (collect_fallback-Has _ _ _
          (collect_users-Has (call platform.enumerate_users w).0 false [] _ tt))

-- When each target of the current snapshot stands under its own id, carries the snapshot's
-- generation and has the standard tier, the same holds of the snapshot after a discovery, and
-- a snapshot with targets is not followed by one without any.
pub discover_all_targets-IsCatalog :
    (os : Os) (platform : Platform os.State) (current : CatalogSnapshot) (w : World os.State)
    → IsCatalog current
    → IsCatalog (discover_all_targets os platform current w).0
      × (is_empty current.targets ≡ false
          → is_empty (discover_all_targets os platform current w).0.targets ≡ false)
unfolding discover_all_targets Has
discover_all_targets-IsCatalog os platform current w h =
    let g = next_generation current.generation in
    let staging = (collect_all os platform g w).0 in
    (
      publish-IsCatalog g staging current (collect_all-Has os platform g w) h,
      publish-is_empty g staging current,
    )
