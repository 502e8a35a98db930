-- ===== src/Executor/Parent.antt =====
-- `get_or_open_parent_dir` of src/executor/mod.rs, over `Path::parent` and `Path::file_name`.
use cache_cleaner.Base.{◌&&◌, Option, none, some, List, [], ◌∷◌, if◌then◌else◌, Result, ok, err}
use cache_cleaner.Base.Text.{Text, text_eq}
use cache_cleaner.Domain.Types.{TargetId}
use cache_cleaner.Domain.Path.{PathText, Component, normal, components}
use cache_cleaner.Domain.Target.{TargetDescriptor}
use cache_cleaner.Domain.Error.{CleanerError, safety_violation, invalid_leaf_name}
use cache_cleaner.Config.{components_eq}
use cache_cleaner.System.Os.{Os}
use cache_cleaner.System.World.{Act}
use cache_cleaner.System.Handle.{SafeDirHandle, open_root, open_child_dir}
use cache_cleaner.Verifier.Check.{component_text}
use cache_cleaner.Executor.Progress.{ActiveDirCache}

-- `Path::parent` as its components: all but the last
abbrev pub parent_components : List Component → List Component
parent_components [] = []
parent_components (c ∷ []) = []
parent_components (c ∷ d ∷ cs) = c ∷ parent_components (d ∷ cs)

-- `Path::file_name`: the last component if it is a normal one
abbrev pub file_name : List Component → Option Text
file_name [] = none
file_name (normal s ∷ []) = some s
file_name (c ∷ []) = none
file_name (c ∷ d ∷ cs) = file_name (d ∷ cs)

module _ (os : Os) where
  open os use {State, Fd}

  -- The loop over the components of the parent path
  unfoldable pub open_path :
      SafeDirHandle Fd → List Component → Act State (Result CleanerError (SafeDirHandle Fd))
  open_path h [] w = (ok h, w)
  open_path h (c ∷ cs) w =
      let (opened, w') = open_child_dir os h (component_text c) w in
      elim opened [ err e ↦ (err (CleanerError.io e), w') | ok child ↦ open_path child cs w' ]

  -- The handle of the cache, if it is of this target and this parent directory
  abbrev pub cached_handle :
      Option (ActiveDirCache Fd) → TargetId → List Component → Option (SafeDirHandle Fd)
  cached_handle none target parent = none
  cached_handle (some c) target parent =
      if text_eq c.target_id target && components_eq c.parent_path parent
      then some c.handle
      else none

  -- `get_or_open_parent_dir`: the handle of the parent directory, the name in it, and the cache
  unfoldable pub get_or_open_parent_dir :
      Option (ActiveDirCache Fd)
      → TargetDescriptor
      → PathText
      → Act State (Result CleanerError (SafeDirHandle Fd × Text × Option (ActiveDirCache Fd)))
  get_or_open_parent_dir cache target path w = elim (file_name (components path)) [
    | none ↦ (err (safety_violation invalid_leaf_name), w)
    | some leaf ↦
        let parent = parent_components (components path) in
        elim (cached_handle cache target.target_id parent) [
          | some h ↦ (ok (h, leaf, cache), w)
          | none ↦
              let (opened, w₁) = open_root os target.base_path w in
              elim opened [
                | err e ↦ (err (CleanerError.io e), w₁)
                | ok root ↦
                    let (walked, w₂) = open_path root parent w₁ in
                    elim walked [
                      | err e ↦ (err e, w₂)
                      | ok h ↦
                          let fresh : ActiveDirCache Fd = record {
                            target_id = target.target_id;
                            parent_path = parent;
                            handle = h;
                          } in
                          (ok (h, leaf, some fresh), w₂)
                    ]
              ]
        ]
  ]
