-- ===== src/Catalog/Discovery.antt =====
-- The discovery of src/catalog/mod.rs. What the platform modules answer and the listing of a
-- directory are parameters; the counts, which the discovery ignores, are left out.
use cache_cleaner.Base.{
  ℕ, Bool, true, false, ◌||◌, Option, none, some, List, [], ◌∷◌, length, ltb, ok, err,
}
use cache_cleaner.Base.Assoc.{insert}
use cache_cleaner.Base.Text.{Text, codes, byte_len, has_char, text_eq}
use cache_cleaner.Domain.Types.{TargetId, Generation}
use cache_cleaner.Domain.TargetId
use cache_cleaner.Domain.Path.{PathText, push}
use cache_cleaner.Domain.Target.{
  TargetClass, app_cache, external_cache, TargetSafetyTier, standard_cache, TargetDescriptor,
}
use cache_cleaner.System.Os.{Os}
use cache_cleaner.System.World.{Act, call}
use cache_cleaner.System.Handle.{SafeDirHandle, open_root}
use cache_cleaner.Catalog.{Targets, known_cache_subdirs, cache_id, external_id, system_id, is_taken}

pub data EncryptionState : Type 0 where
  unencrypted device_encrypted_only fully_unlocked unknown : EncryptionState

pub record AndroidUser : Type 0 where
  pub user_id : ℕ
  pub ce_path : PathText
  pub de_path : PathText
  pub media_path : PathText

-- An entry of a listing: its name, if it is UTF-8, and whether it is a directory.
pub record Listed : Type 0 where
  pub entry_name : Option Text
  pub is_directory : Bool

-- What src/platform answers, with `fs::read_dir` and `fs::metadata`.
pub record Platform (State : Type 0) : Type 0 where
  pub enumerate_users : State → List AndroidUser × State
  pub check_encryption_state : ℕ → State → EncryptionState × State
  pub list_dir : PathText → State → Option (List Listed) × State
  pub owner : PathText → State → (ℕ × ℕ) × State

-- The tests of a package's name
abbrev pub is_bad_name : Text → Bool
is_bad_name name = text_eq name [] || (ltb 255 (byte_len name) || has_char name 0)

module _ (os : Os) (platform : Platform os.State) where
  open os use {State, Fd}

  abbrev pub descriptor :
      TargetId
      → TargetClass
      → TargetSafetyTier
      → PathText
      → SafeDirHandle Fd
      → ℕ × ℕ
      → Option Text
      → Generation
      → TargetDescriptor
  descriptor id class tier path h owner pkg g = record {
    target_id = id;
    target_class = class;
    base_path = path;
    dev = h.dev;
    ino = h.ino;
    owner_uid = owner.0;
    owner_gid = owner.1;
    package_name = pkg;
    safety_tier = tier;
    catalog_generation = g;
  }

  -- One cache directory of a package
  unfoldable pub add_cache : PathText → ℕ → Text → Generation → Text → Targets → Act State Targets
  add_cache pkg_path user pkg g sub out w =
      let dir = push pkg_path sub in
      let (opened, w₁) = open_root os dir w in
      elim opened [
        | err _ ↦ (out, w₁)
        | ok h ↦
            let (owner, w₂) = call (platform.owner dir) w₁ in
            elim (TargetId.try_new (cache_id user pkg sub)) [
              | err _ ↦ (out, w₂)
              | ok id ↦ elim (is_taken out id) [
                | true ↦ (out, w₂)
                | false ↦ (
                  insert id (descriptor id app_cache standard_cache dir h owner (some pkg) g) out,
                  w₂,
                )
              ]
            ]
      ]

  -- The loop over the known subdirectories
  unfoldable pub add_caches :
      PathText → ℕ → Text → Generation → List Text → Targets → Act State Targets
  add_caches pkg_path user pkg g [] out w = (out, w)
  add_caches pkg_path user pkg g (sub ∷ subs) out w =
      let (out', w') = add_cache pkg_path user pkg g sub out w in
      add_caches pkg_path user pkg g subs out' w'

  -- The loop over the packages, which stops above 5000 targets
  unfoldable pub add_packages :
      PathText → ℕ → Generation → List Listed → Targets → Act State Targets
  add_packages base user g [] out w = (out, w)
  add_packages base user g (e ∷ es) out w = elim e.is_directory [
    | false ↦ add_packages base user g es out w
    | true ↦ elim e.entry_name [
      | none ↦ add_packages base user g es out w
      | some name ↦ elim (is_bad_name name) [
        | true ↦ add_packages base user g es out w
        | false ↦ elim (ltb 5000 (length out)) [
          | true ↦ (out, w)
          | false ↦
              let (out', w') = add_caches (push base name) user name g known_cache_subdirs out w in
              add_packages base user g es out' w'
        ]
      ]
    ]
  ]

  -- `collect_android_user_targets`
  unfoldable pub collect_android_user_targets :
      PathText → ℕ → Generation → Targets → Act State Targets
  collect_android_user_targets base user g out w =
      let (listed, w') = call (platform.list_dir base) w in
      elim listed [ none ↦ (out, w') | some es ↦ add_packages base user g es out w' ]

  -- The external cache of one package
  unfoldable pub add_external : PathText → ℕ → Text → Generation → Targets → Act State Targets
  add_external pkg_path user pkg g out w =
      let dir = push pkg_path (codes "cache") in
      let (opened, w₁) = open_root os dir w in
      elim opened [
        | err _ ↦ (out, w₁)
        | ok h ↦ elim (TargetId.try_new (external_id user pkg)) [
          | err _ ↦ (out, w₁)
          | ok id ↦
              let (owner, w₂) = call (platform.owner dir) w₁ in
              (
                insert id (descriptor id external_cache standard_cache dir h owner (some pkg) g)
                    out,
                w₂,
              )
        ]
      ]

  unfoldable pub add_externals :
      PathText → ℕ → Generation → List Listed → Targets → Act State Targets
  add_externals base user g [] out w = (out, w)
  add_externals base user g (e ∷ es) out w = elim e.is_directory [
    | false ↦ add_externals base user g es out w
    | true ↦ elim e.entry_name [
      | none ↦ add_externals base user g es out w
      | some name ↦
          let (out', w') = add_external (push base name) user name g out w in
          add_externals base user g es out' w'
    ]
  ]

  -- `collect_android_external_targets`
  unfoldable pub collect_android_external_targets :
      PathText → ℕ → Generation → Targets → Act State Targets
  collect_android_external_targets media user g out w =
      let base = push media (codes "Android/data") in
      let (listed, w') = call (platform.list_dir base) w in
      elim listed [ none ↦ (out, w') | some es ↦ add_externals base user g es out w' ]

  -- `collect_system_targets`; its ids are fixed texts, which `TargetId::new` accepts.
  unfoldable pub collect_system_targets :
      Generation → List (PathText × (TargetClass × TargetSafetyTier)) → Targets → Act State Targets
  collect_system_targets g [] out w = (out, w)
  collect_system_targets g ((path, (class, tier)) ∷ rest) out w =
      let (opened, w₁) = open_root os path w in
      elim opened [
        | err _ ↦ collect_system_targets g rest out w₁
        | ok h ↦
            let (owner, w₂) = call (platform.owner path) w₁ in
            let id = system_id path in
            collect_system_targets g rest
              (insert id (descriptor id class tier path h owner none g) out) w₂
      ]
