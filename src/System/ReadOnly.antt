-- ===== src/System/ReadOnly.antt =====
-- Which operations only read: the log, the tables and the locks are as before.
use cache_cleaner.Base.{◌≡◌, refl, ◌∙◌, List, [], ◌∷◌, Result, ok, err, by_option, arith}
use cache_cleaner.Base.Text.{Text}
use cache_cleaner.Domain.Path.{PathText}
use cache_cleaner.Domain.Error.{Errno}
use cache_cleaner.System.Os.{Os, RawEntry}
use cache_cleaner.System.World.{World, call}
use cache_cleaner.System.Handle.{
  SafeDirHandle, finish_open, open_root, try_openat2_child, open_child_dir,
}
use cache_cleaner.System.Entries.{SafeDirEntry, kept_name, collect_entries, read_entries_fd}

unfoldable pub ReadsOnly {ℓ} : {A : Type ℓ} {S : Type 0} → World S → A × World S → Type 0
ReadsOnly w x = (x.1.log ≡ w.log) × (x.1.db ≡ w.db) × (x.1.locked_targets ≡ w.locked_targets)

pub ReadsOnly-refl {ℓ} : {A : Type ℓ} {S : Type 0} (a : A) (w : World S) → ReadsOnly w (a, w)
unfolding ReadsOnly
ReadsOnly-refl a w = (refl, refl, refl)

-- Two steps that only read, one after the other.
pub ReadsOnly-then {ℓ κ} :
    {A : Type ℓ} {B : Type κ} {S : Type 0} (w : World S) (x : A × World S) (y : B × World S)
    → ReadsOnly w x
    → ReadsOnly x.1 y
    → ReadsOnly w y
unfolding ReadsOnly
ReadsOnly-then w x y h k = (k.0 ∙ h.0, k.1 ∙ h.1, k.2 ∙ h.2)

-- Only the value that comes with the world differs.
pub ReadsOnly-value {ℓ κ} :
    {A : Type ℓ} {B : Type κ} {S : Type 0} (w : World S) (x : A × World S) (b : B)
    → ReadsOnly w x
    → ReadsOnly w (b, x.1)
unfolding ReadsOnly
ReadsOnly-value w x b h = h

pub call-ReadsOnly : {S A : Type 0} (f : S → A × S) (w : World S) → ReadsOnly w (call f w)
unfolding ReadsOnly
call-ReadsOnly f w = (refl, refl, refl)

module _ (os : Os) where
  open os use {State, Fd}

  pub open_root-ReadsOnly : (path : PathText) (w : World State) → ReadsOnly w (open_root os path w)
  unfolding open_root ReadsOnly finish_open
  open_root-ReadsOnly path w = (ground arith, ground arith, ground arith)

  try_openat2_child-ReadsOnly :
      (h : SafeDirHandle Fd) (name : Text) (w : World State)
      → ReadsOnly w (try_openat2_child os h name w)
  unfolding try_openat2_child ReadsOnly
  try_openat2_child-ReadsOnly h name w = (ground arith, ground arith, ground arith)

  pub open_child_dir-ReadsOnly :
      (h : SafeDirHandle Fd) (name : Text) (w : World State)
      → ReadsOnly w (open_child_dir os h name w)
  unfolding open_child_dir ReadsOnly finish_open
  open_child_dir-ReadsOnly h name w =
      let tried = try_openat2_child-ReadsOnly h name w in
      (ground (arith, tried.0), ground (arith, tried.1), ground (arith, tried.2))

  collect_entries-ReadsOnly :
      (fd : Fd) (items : List (Result Errno RawEntry)) (entries : List SafeDirEntry)
      (w : World State)
      → ReadsOnly w (collect_entries os fd entries items w)
  unfolding collect_entries
  collect_entries-ReadsOnly fd [] entries w = ReadsOnly-refl _ w
  collect_entries-ReadsOnly fd (err e ∷ rest) entries w = ReadsOnly-refl _ w
  collect_entries-ReadsOnly fd (ok raw ∷ rest) entries w =
      by_option (ReadsOnly w) (kept_name raw)
        (λ name.
          ReadsOnly-then w (call (os.stat_entry fd name) w) _
            (call-ReadsOnly (os.stat_entry fd name) w) (collect_entries-ReadsOnly fd rest _ _))
        (collect_entries-ReadsOnly fd rest entries w)

  pub read_entries_fd-ReadsOnly :
      (fd : Fd) (w : World State) → ReadsOnly w (read_entries_fd os fd w)
  unfolding read_entries_fd
  read_entries_fd-ReadsOnly fd w =
      ReadsOnly-then w (call (os.read_dir fd) w) _ (call-ReadsOnly (os.read_dir fd) w)
        (collect_entries-ReadsOnly fd _ [] _)
