-- ===== src/System/Quiet.antt =====
-- Which operations of src/fs/mod.rs leave the log of effects alone.
use cache_cleaner.Base.{
  ℕ, ◌≡◌, refl, ap, ◌∙◌, Bool, not, Option, none, List, [], ◌∷◌, ◌++◌, err, by_result, by_if,
  if◌then◌else◌, inl, inr, ◌⊎◌, arith,
}
use cache_cleaner.Base.Text.{Text}
use cache_cleaner.Domain.Types.{FileIdentity, identity_eq}
use cache_cleaner.Domain.Path.{PathText}
use cache_cleaner.Domain.Error.{CleanerError, inval, safety_violation, toctou_dir, toctou_file}
use cache_cleaner.System.Os.{Os}
use cache_cleaner.System.World.{World, Effect, unlinked, call}
use cache_cleaner.System.Handle.{
  SafeDirHandle, is_single_component, finish_open, open_root, try_openat2_child, open_child_dir,
  stat_child, unlink, delete_child,
}

-- The log is still `l`.
unfoldable pub Quiet {ℓ} : {A : Type ℓ} {S : Type 0} → List Effect → A × World S → Type 0
Quiet l x = x.1.log ≡ l

pub Quiet-refl {ℓ} : {A : Type ℓ} {S : Type 0} (a : A) (w : World S) → Quiet w.log (a, w)
unfolding Quiet
Quiet-refl a w = refl

pub Quiet-after {ℓ} :
    {A : Type ℓ} {S : Type 0} (k l : List Effect) (x : A × World S) → k ≡ l → Quiet k x → Quiet l x
unfolding Quiet
Quiet-after k l x e h = h ∙ e

pub Quiet-intro {ℓ} :
    {A : Type ℓ} {S : Type 0} (l : List Effect) (a : A) (w : World S) → w.log ≡ l → Quiet l (a, w)
unfolding Quiet
Quiet-intro l a w e = e

pub Quiet-log {ℓ} :
    {A : Type ℓ} {S : Type 0} (l : List Effect) (x : A × World S) → Quiet l x → x.1.log ≡ l
unfolding Quiet
Quiet-log l x h = h

-- The log is that of before, or it has one `unlinked` more.
unfoldable pub Unlinks {ℓ} : {A : Type ℓ} {S : Type 0} → List Effect → A × World S → Type 0
Unlinks l x = (x.1.log ≡ l) ⊎ ((name : Text) × ((b : Bool) × (x.1.log ≡ l ++ unlinked name b ∷ [])))

Unlinks-quiet {ℓ} :
    {A : Type ℓ} {S : Type 0} (l : List Effect) (a : A) (w : World S) → w.log ≡ l → Unlinks l (a, w)
unfolding Unlinks
Unlinks-quiet l a w h = inl h

module _ (os : Os) where
  open os use {State, Fd}

  finish_open-Quiet :
      (parent : Option ℕ) (fd : Fd) (w : World State) → Quiet w.log (finish_open os parent fd w)
  unfolding finish_open Quiet
  finish_open-Quiet parent fd w = refl

  pub open_root-Quiet : (path : PathText) (w : World State) → Quiet w.log (open_root os path w)
  unfolding open_root
  open_root-Quiet path w =
      by_result (Quiet w.log) (call (os.open_dir path) w).0 (λ fd. finish_open-Quiet none fd _)
        (λ e. Quiet-refl (err e) (call (os.open_dir path) w).1)

  try_openat2_child-Quiet :
      (h : SafeDirHandle Fd) (name : Text) (w : World State)
      → Quiet w.log (try_openat2_child os h name w)
  unfolding try_openat2_child Quiet
  try_openat2_child-Quiet h name w = ground arith

  pub stat_child-Quiet :
      (h : SafeDirHandle Fd) (name : Text) (w : World State) → Quiet w.log (stat_child os h name w)
  unfolding stat_child Quiet
  stat_child-Quiet h name w = ground arith

  pub stat_child-log :
      (h : SafeDirHandle Fd) (name : Text) (w : World State)
      → (stat_child os h name w).1.log ≡ w.log
  unfolding Quiet
  stat_child-log h name w = stat_child-Quiet h name w

  pub open_child_dir-Quiet :
      (h : SafeDirHandle Fd) (name : Text) (w : World State)
      → Quiet w.log (open_child_dir os h name w)
  unfolding open_child_dir Quiet finish_open
  open_child_dir-Quiet h name w = ground (arith, try_openat2_child-Quiet h name w)

  unlink-Unlinks :
      (h : SafeDirHandle Fd) (name : Text) (is_dir : Bool) (w : World State) (l : List Effect)
      → w.log ≡ l
      → Unlinks l (unlink os h name is_dir w)
  unfolding unlink Unlinks
  unlink-Unlinks h name is_dir w l e =
      inr (name, (is_dir, ap (λ k. k ++ unlinked name is_dir ∷ []) e))

  pub delete_child-Unlinks :
      (is_dir : Bool) (h : SafeDirHandle Fd) (name : Text) (expected : FileIdentity)
      (w : World State)
      → Unlinks w.log (delete_child os is_dir h name expected w)
  unfolding delete_child
  delete_child-Unlinks is_dir h name expected w =
      let (st, w') = stat_child os h name w in
      let quiet = stat_child-log h name w in
      by_if (Unlinks w.log) (not (is_single_component name))
        (Unlinks-quiet w.log (err (CleanerError.io inval)) w refl)
        (by_result (Unlinks w.log) st
          (λ current.
            by_if (Unlinks w.log) (not (identity_eq current expected))
              (Unlinks-quiet w.log
                (err (safety_violation (if is_dir then toctou_dir name else toctou_file name))) w'
                quiet)
              (unlink-Unlinks h name is_dir w' w.log quiet))
          (λ e. Unlinks-quiet w.log (err (CleanerError.io e)) w' quiet))
