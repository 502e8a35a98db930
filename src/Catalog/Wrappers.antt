-- ===== src/Catalog/Wrappers.antt =====
-- The discoveries of src/catalog/mod.rs that add to the current snapshot. Their counts are left out.
use cache_cleaner.Base.{ℕ, refl, [], ◌∷◌, All}
use cache_cleaner.Domain.Path.{PathText}
use cache_cleaner.System.Os.{Os}
use cache_cleaner.System.World.{World, Act}
use cache_cleaner.Executor.Run.{CatalogSnapshot}
use cache_cleaner.Catalog.{Targets, register_target, system_junk_locations}
use cache_cleaner.Catalog.Discovery.{
  Platform, collect_android_user_targets, collect_android_external_targets, collect_system_targets,
}
use cache_cleaner.Catalog.Generations.{
  IsTarget, Has, insert-All, collect_android_user_targets-Has, collect_android_external_targets-Has,
}
use cache_cleaner.Catalog.Publishing.{IsCatalog, collect_system_targets-Has}

-- The loop over the staging map
unfoldable register_all : Targets → CatalogSnapshot → CatalogSnapshot
register_all [] current = current
register_all ((_, d) ∷ ts) current = register_all ts (register_target d current)

register_all-IsCatalog :
    (staging : Targets) (current : CatalogSnapshot)
    → All (IsTarget current.generation) staging
    → IsCatalog current
    → IsCatalog (register_all staging current)
unfolding register_all register_target
register_all-IsCatalog [] current h k = k
register_all-IsCatalog ((id, d) ∷ ts) current h k =
    register_all-IsCatalog ts (register_target d current) h.1 (
      insert-All (IsTarget current.generation) d.target_id d current.targets (refl, h.0.1, h.0.2) k)

module _ (os : Os) (platform : Platform os.State) where
  open os use {State}

  -- `discover_android_user_targets_for_user`; `discover_android_user_targets` is for user 0.
  unfoldable discover_android_user_targets_for_user :
      PathText → ℕ → CatalogSnapshot → Act State CatalogSnapshot
  discover_android_user_targets_for_user base user current w =
      let (staging, w') =
        collect_android_user_targets os platform base user current.generation [] w in
      (register_all staging current, w')

  unfoldable discover_android_user_targets : PathText → CatalogSnapshot → Act State CatalogSnapshot
  discover_android_user_targets base current w =
      discover_android_user_targets_for_user base 0 current w

  unfoldable discover_android_external_targets :
      PathText → ℕ → CatalogSnapshot → Act State CatalogSnapshot
  discover_android_external_targets media user current w =
      let (staging, w') =
        collect_android_external_targets os platform media user current.generation [] w in
      (register_all staging current, w')

  unfoldable discover_system_targets : CatalogSnapshot → Act State CatalogSnapshot
  discover_system_targets current w =
      let (staging, w') =
        collect_system_targets os platform current.generation system_junk_locations [] w in
      (register_all staging current, w')

  discover_android_user_targets_for_user-IsCatalog :
      (base : PathText) (user : ℕ) (current : CatalogSnapshot) (w : World State)
      → IsCatalog current
      → IsCatalog (discover_android_user_targets_for_user base user current w).0
  unfolding discover_android_user_targets_for_user Has
  discover_android_user_targets_for_user-IsCatalog base user current w k =
      register_all-IsCatalog _ current
        (collect_android_user_targets-Has os platform current.generation base user [] w tt) k

  discover_android_external_targets-IsCatalog :
      (media : PathText) (user : ℕ) (current : CatalogSnapshot) (w : World State)
      → IsCatalog current
      → IsCatalog (discover_android_external_targets media user current w).0
  unfolding discover_android_external_targets Has
  discover_android_external_targets-IsCatalog media user current w k =
      register_all-IsCatalog _ current
        (collect_android_external_targets-Has os platform current.generation media user [] w tt) k

  discover_system_targets-IsCatalog :
      (current : CatalogSnapshot) (w : World State)
      → IsCatalog current
      → IsCatalog (discover_system_targets current w).0
  unfolding discover_system_targets Has
  discover_system_targets-IsCatalog current w k =
      register_all-IsCatalog _ current
        (collect_system_targets-Has os platform current.generation system_junk_locations
          (refl, (refl, (refl, (refl, tt)))) [] w tt)
        k
