-- ===== src/Executor/Quiet.antt =====
-- The parent directory and the verification leave the log of effects alone.
use cache_cleaner.Base.{◌≡◌, ◌∙◌, Option, List, [], ◌∷◌, err, by_result, by_option}
use cache_cleaner.Base.Text.{Text}
use cache_cleaner.Domain.Types.{FileIdentity}
use cache_cleaner.Domain.Path.{PathText, Component, components}
use cache_cleaner.Domain.Target.{TargetDescriptor}
use cache_cleaner.Domain.Error.{CleanerError}
use cache_cleaner.System.Os.{Os}
use cache_cleaner.System.World.{World}
use cache_cleaner.System.Handle.{SafeDirHandle, open_root, open_child_dir}
use cache_cleaner.System.Quiet.{
  Quiet, Quiet-refl, Quiet-after, Quiet-intro, Quiet-log, open_root-Quiet, open_child_dir-Quiet,
  stat_child-Quiet,
}
use cache_cleaner.Verifier.Check.{component_text, verify_with_parent_handle}
use cache_cleaner.Executor.Progress.{ActiveDirCache}
use cache_cleaner.Executor.Parent.{
  open_path, file_name, parent_components, cached_handle, get_or_open_parent_dir,
}

module _ (os : Os) where
  open os use {State, Fd}

  open_child_dir-log :
      (h : SafeDirHandle Fd) (name : Text) (w : World State)
      → (open_child_dir os h name w).1.log ≡ w.log
  unfolding Quiet
  open_child_dir-log h name w = open_child_dir-Quiet os h name w

  open_root-log : (path : PathText) (w : World State) → (open_root os path w).1.log ≡ w.log
  unfolding Quiet
  open_root-log path w = open_root-Quiet os path w

  open_path-Quiet :
      (h : SafeDirHandle Fd) (cs : List Component) (w : World State)
      → Quiet w.log (open_path os h cs w)
  unfolding open_path
  open_path-Quiet h [] w = Quiet-refl _ w
  open_path-Quiet h (c ∷ cs) w =
      let (opened, w') = open_child_dir os h (component_text c) w in
      let same = open_child_dir-log h (component_text c) w in
      by_result (Quiet w.log) opened
        (λ child. Quiet-after w'.log w.log _ same (open_path-Quiet child cs w'))
        (λ e. Quiet-intro w.log (err (CleanerError.io e)) w' same)

  get_or_open_parent_dir-Quiet :
      (cache : Option (ActiveDirCache Fd)) (t : TargetDescriptor) (path : PathText)
      (w : World State)
      → Quiet w.log (get_or_open_parent_dir os cache t path w)
  unfolding get_or_open_parent_dir
  get_or_open_parent_dir-Quiet cache t path w =
      let parent = parent_components (components path) in
      let (opened, w₁) = open_root os t.base_path w in
      let same = open_root-log t.base_path w in
      by_option (Quiet w.log) (file_name (components path))
        (λ leaf.
          by_option (Quiet w.log) (cached_handle os cache t.target_id parent) (λ h. Quiet-refl _ w)
            (by_result (Quiet w.log) opened
              (λ root.
                by_result (Quiet w.log) (open_path os root parent w₁).0
                  (λ h. Quiet-intro w.log _ (open_path os root parent w₁).1 (
                    Quiet-log w₁.log (open_path os root parent w₁) (open_path-Quiet root parent w₁)
                    ∙ same))
                  (λ e. Quiet-intro w.log (err e) (open_path os root parent w₁).1 (
                    Quiet-log w₁.log (open_path os root parent w₁) (open_path-Quiet root parent w₁)
                    ∙ same)))
              (λ e. Quiet-intro w.log (err (CleanerError.io e)) w₁ same)))
        (Quiet-refl _ w)

  pub get_or_open_parent_dir-log :
      (cache : Option (ActiveDirCache Fd)) (t : TargetDescriptor) (path : PathText)
      (w : World State)
      → (get_or_open_parent_dir os cache t path w).1.log ≡ w.log
  get_or_open_parent_dir-log cache t path w =
      Quiet-log w.log (get_or_open_parent_dir os cache t path w)
        (get_or_open_parent_dir-Quiet cache t path w)

  pub verify_with_parent_handle-log :
      (h : SafeDirHandle Fd) (leaf : Text) (expected : FileIdentity) (w : World State)
      → (verify_with_parent_handle os h leaf expected w).1.log ≡ w.log
  unfolding verify_with_parent_handle Quiet
  verify_with_parent_handle-log h leaf expected w = stat_child-Quiet os h leaf w
