-- ===== src/Catalog.antt =====
-- src/catalog/mod.rs: the targets and their snapshots. The locks of the snapshot are held over each
-- operation. A map is in the order of its first insertions.
pub mod Discovery
pub mod Users
pub mod Generations
pub mod Publishing
pub mod Wrappers
use cache_cleaner.Base.{
  ℕ, Bool, true, false, not, Option, none, some, List, [], ◌∷◌, ◌++◌, map, ◌==◌, if◌then◌else◌, ok,
  err,
}
use cache_cleaner.Base.Assoc.{lookup, insert}
use cache_cleaner.Base.Decimal.{decimal}
use cache_cleaner.Base.Text.{Text, codes, text_eq}
use cache_cleaner.Domain.Types.{TargetId, Generation}
use cache_cleaner.Domain.Generation
use cache_cleaner.Domain.Path.{PathText}
use cache_cleaner.Domain.Target.{
  TargetClass, tombstones, log_archive, temp_dir, TargetSafetyTier, standard_cache,
  TargetDescriptor,
}
use cache_cleaner.Executor.Run.{CatalogSnapshot}

abbrev pub Targets : Type 0
Targets = List (Text × TargetDescriptor)

abbrev pub known_cache_subdirs : List Text
known_cache_subdirs =
    codes "cache"
    ∷ codes ".cache"
    ∷ codes "app_webview/Default/Cache"
    ∷ codes "app_webview/Default/Code Cache"
    ∷ codes "app_webview/Default/GPUCache"
    ∷ codes "app_textures"
    ∷ codes "splash_cache"
    ∷ codes "image_cache"
    ∷ codes "fresco_cache"
    ∷ codes "glide_cache"
    ∷ codes "coil_cache"
    ∷ codes "http-engine-cache"
    ∷ codes "picasso-cache"
    ∷ codes "volley"
    ∷ codes "disk_cache"
    ∷ codes "network_cache"
    ∷ []

abbrev pub system_junk_locations : List (PathText × (TargetClass × TargetSafetyTier))
system_junk_locations =
    (codes "/data/anr", (tombstones, standard_cache))
    ∷ (codes "/data/tombstones", (tombstones, standard_cache))
    ∷ (codes "/data/system/dropbox", (log_archive, standard_cache))
    ∷ (codes "/data/local/tmp", (temp_dir, standard_cache))
    ∷ []

-- `CatalogSnapshot::get`
abbrev pub get : CatalogSnapshot → TargetId → Option TargetDescriptor
get snapshot id = lookup id snapshot.targets

-- `TargetCatalog::new`
abbrev pub initial_snapshot : CatalogSnapshot
initial_snapshot = record { generation = Generation.initial; targets = [] }

-- `register_target`
unfoldable pub register_target : TargetDescriptor → CatalogSnapshot → CatalogSnapshot
register_target d snapshot = record snapshot { targets = insert d.target_id d snapshot.targets }

-- The next generation, or the same at its end.
unfoldable pub next_generation : Generation → Generation
next_generation g = elim (Generation.next g) [ ok g' ↦ g' | err _ ↦ g ]

-- `refresh_generation`
unfoldable pub refresh_generation : CatalogSnapshot → CatalogSnapshot
refresh_generation snapshot = record snapshot { generation = next_generation snapshot.generation }

abbrev pub is_empty : Targets → Bool
is_empty [] = true
is_empty (_ ∷ _) = false

-- The end of `discover_all_targets`: an empty discovery does not replace targets.
unfoldable pub publish : Generation → Targets → CatalogSnapshot → CatalogSnapshot
publish g staging current =
    if is_empty staging
    then if is_empty current.targets then record { generation = g; targets = staging } else current
    else record { generation = g; targets = staging }

-- `str::replace('/', "_")`
abbrev pub replace_slashes : Text → Text
replace_slashes s = map (λ c. if c == b'/' then b'_' else c) s

-- The id of a cache directory of a package.
unfoldable pub cache_id : ℕ → Text → Text → Text
cache_id user pkg sub =
    if user == 0
    then (if text_eq sub (codes "cache")
        then codes "android:" ++ (pkg ++ codes ":cache")
        else codes "android:" ++ (pkg ++ (codes ":" ++ (replace_slashes sub ++ codes ":cache"))))
    else if text_eq sub (codes "cache")
    then codes "android:u" ++ (decimal user ++ (codes ":" ++ (pkg ++ codes ":cache")))
    else codes "android:u"
      ++ (decimal user
          ++ (codes ":" ++ (pkg ++ (codes ":" ++ (replace_slashes sub ++ codes ":cache")))))

abbrev pub external_id : ℕ → Text → Text
external_id user pkg =
    codes "android:u" ++ (decimal user ++ (codes ":" ++ (pkg ++ codes ":ext_cache")))

abbrev pub system_id : PathText → Text
system_id path = codes "system:" ++ replace_slashes path

-- `existing.safety_tier as u8 <= TargetSafetyTier::StandardCache as u8`
abbrev pub is_standard : TargetSafetyTier → Bool
is_standard standard_cache = true
is_standard _ = false

-- The id is taken by a target that is kept.
unfoldable pub is_taken : Targets → TargetId → Bool
is_taken out id = elim (lookup id out) [ none ↦ false | some d ↦ is_standard d.safety_tier ]
