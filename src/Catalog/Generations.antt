-- ===== src/Catalog/Generations.antt =====
-- The targets that src/catalog/mod.rs publishes are of the generation of their snapshot.
use cache_cleaner.Base.{
  ℕ, ◌≡◌, refl, List, [], ◌∷◌, All, ltb, length, by_bool, by_if, by_option, by_result,
}
use cache_cleaner.Base.Assoc.{insert}
use cache_cleaner.Base.Text.{Text, text_eq, codes}
use cache_cleaner.Domain.Types.{Generation}
use cache_cleaner.Domain.TargetId
use cache_cleaner.Domain.Path.{PathText, push}
use cache_cleaner.Domain.Target.{standard_cache, TargetDescriptor}
use cache_cleaner.System.Os.{Os}
use cache_cleaner.System.World.{World, call}
use cache_cleaner.System.Handle.{open_root}
use cache_cleaner.Catalog.{Targets, known_cache_subdirs, cache_id, external_id, is_taken}
use cache_cleaner.Catalog.Discovery.{
  Listed, Platform, is_bad_name, add_cache, add_caches, add_packages, collect_android_user_targets,
  add_external, add_externals, collect_android_external_targets,
}

-- A target under its own id, of the given generation, whose tier may be mutated.
abbrev pub IsTarget : Generation → Text × TargetDescriptor → Type 0
IsTarget g t =
    (t.1.target_id ≡ t.0) × (t.1.catalog_generation ≡ g) × (t.1.safety_tier ≡ standard_cache)

pub insert-All :
    (P : Text × TargetDescriptor → Type 0) (k : Text) (d : TargetDescriptor) (m : Targets)
    → P (k, d)
    → All P m
    → All P (insert k d m)
unfolding insert
insert-All P k d [] p h = (p, tt)
insert-All P k d ((j, e) ∷ m) p h =
    by_if (All P) (text_eq j k) (p, h.1) (h.0, insert-All P k d m p h.1)

unfoldable pub Has {ℓ} : {S : Type ℓ} → Generation → Targets × S → Type 0
Has g q = All (IsTarget g) q.0

module _ (os : Os) (platform : Platform os.State) (g : Generation) where
  open os use {State}

  add_cache-Has :
      (pkg_path : PathText) (user : ℕ) (pkg sub : Text) (out : Targets) (w : World State)
      → All (IsTarget g) out
      → Has g (add_cache os platform pkg_path user pkg g sub out w)
  unfolding add_cache Has
  add_cache-Has pkg_path user pkg sub out w h =
      by_result (Has g) (open_root os (push pkg_path sub) w).0
        (λ handle.
          by_result (Has g) (TargetId.try_new (cache_id user pkg sub))
            (λ id.
              by_bool (Has g) (is_taken out id) h
                (insert-All (IsTarget g) id _ out (refl, refl, refl) h))
            (λ _. h))
        (λ _. h)

  add_caches-Has :
      (pkg_path : PathText) (user : ℕ) (pkg : Text) (subs : List Text) (out : Targets)
      (w : World State)
      → All (IsTarget g) out
      → Has g (add_caches os platform pkg_path user pkg g subs out w)
  unfolding add_caches Has
  add_caches-Has pkg_path user pkg [] out w h = h
  add_caches-Has pkg_path user pkg (sub ∷ subs) out w h =
      add_caches-Has pkg_path user pkg subs _ _ (add_cache-Has pkg_path user pkg sub out w h)

  add_packages-Has :
      (base : PathText) (user : ℕ) (es : List Listed) (out : Targets) (w : World State)
      → All (IsTarget g) out
      → Has g (add_packages os platform base user g es out w)
  unfolding add_packages Has
  add_packages-Has base user [] out w h = h
  add_packages-Has base user (e ∷ es) out w h =
      by_bool (Has g) e.is_directory
        (by_option (Has g) e.entry_name
          (λ name. by_bool (Has g) (is_bad_name name) (add_packages-Has base user es out w h) (
            by_bool (Has g) (ltb 5000 (length out)) h (
              add_packages-Has base user es _ _
                (add_caches-Has (push base name) user name known_cache_subdirs out w h))))
          (add_packages-Has base user es out w h))
        (add_packages-Has base user es out w h)

  pub collect_android_user_targets-Has :
      (base : PathText) (user : ℕ) (out : Targets) (w : World State)
      → All (IsTarget g) out
      → Has g (collect_android_user_targets os platform base user g out w)
  unfolding collect_android_user_targets Has
  collect_android_user_targets-Has base user out w h =
      by_option (Has g) (call (platform.list_dir base) w).0
        (λ es. add_packages-Has base user es out _ h) h

  add_external-Has :
      (pkg_path : PathText) (user : ℕ) (pkg : Text) (out : Targets) (w : World State)
      → All (IsTarget g) out
      → Has g (add_external os platform pkg_path user pkg g out w)
  unfolding add_external Has
  add_external-Has pkg_path user pkg out w h =
      by_result (Has g) (open_root os (push pkg_path (codes "cache")) w).0
        (λ handle.
          by_result (Has g) (TargetId.try_new (external_id user pkg))
            (λ id. insert-All (IsTarget g) id _ out (refl, refl, refl) h) (λ _. h))
        (λ _. h)

  add_externals-Has :
      (base : PathText) (user : ℕ) (es : List Listed) (out : Targets) (w : World State)
      → All (IsTarget g) out
      → Has g (add_externals os platform base user g es out w)
  unfolding add_externals Has
  add_externals-Has base user [] out w h = h
  add_externals-Has base user (e ∷ es) out w h =
      by_bool (Has g) e.is_directory
        (by_option (Has g) e.entry_name
          (λ name.
            add_externals-Has base user es _ _
              (add_external-Has (push base name) user name out w h))
          (add_externals-Has base user es out w h))
        (add_externals-Has base user es out w h)

  pub collect_android_external_targets-Has :
      (media : PathText) (user : ℕ) (out : Targets) (w : World State)
      → All (IsTarget g) out
      → Has g (collect_android_external_targets os platform media user g out w)
  unfolding collect_android_external_targets Has
  collect_android_external_targets-Has media user out w h =
      by_option (Has g) (call (platform.list_dir (push media (codes "Android/data"))) w).0
        (λ es. add_externals-Has (push media (codes "Android/data")) user es out _ h) h
