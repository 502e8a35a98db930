-- ===== src/System/Handle.antt =====
-- src/fs/mod.rs: directory handles, and the deletions relative to them.
use cache_cleaner.Base.{
  ℕ, Bool, true, false, not, ◌||◌, Option, none, some, [], ◌∷◌, ◌++◌, ◌==◌, if◌then◌else◌, Result,
  ok, err,
}
use cache_cleaner.Base.Text.{Text, codes, text_eq, has_char}
use cache_cleaner.Domain.Types.{FileIdentity, identity_eq}
use cache_cleaner.Domain.Path.{PathText}
use cache_cleaner.Domain.Error.{
  Errno, acces, perm, inval, xdev, nosys, CleanerError, safety_violation, toctou_file, toctou_dir,
}
use cache_cleaner.System.Os.{Os}
use cache_cleaner.System.World.{Act, call, unlinked}

-- `validate_single_component`, negated
abbrev pub is_single_component : Text → Bool
is_single_component name = not (
    text_eq name []
    || (text_eq name (codes ".")
        || (text_eq name (codes "..") || (has_char name b'/' || has_char name 0))))

abbrev pub is_permission : Errno → Bool
is_permission perm = true
is_permission acces = true
is_permission _ = false

abbrev pub is_nosys : Errno → Bool
is_nosys nosys = true
is_nosys _ = false

-- `SafeDirHandle`. Its permit only counts descriptors and is never asked for anything.
pub record SafeDirHandle (Fd : Type 0) : Type 0 where
  pub fd : Fd
  pub dev : ℕ
  pub ino : ℕ

-- `impl From<Errno>`
abbrev pub io_error : {A : Type 0} → Result Errno A → Result CleanerError A
io_error (ok a) = ok a
io_error (err e) = err (CleanerError.io e)

module _ (os : Os) where
  open os use {State, Fd}

  abbrev pub Handle : Type 0
  Handle = SafeDirHandle Fd

  -- The `fstat` that completes an open, with the device check for a child.
  unfoldable pub finish_open : Option ℕ → Fd → Act State (Result Errno Handle)
  finish_open parent fd w =
      let (st, w') = call (os.fstat fd) w in
      (
        elim st [
          | err e ↦ err e
          | ok id ↦
              let handle : Handle = record { fd = fd; dev = id.dev; ino = id.ino } in
              elim parent [
                | none ↦ ok handle
                | some dev ↦ if not (id.dev == dev) then err xdev else ok handle
              ]
        ],
        w',
      )

  -- `open_root_with_permit`
  unfoldable pub open_root : PathText → Act State (Result Errno Handle)
  open_root path w =
      let (opened, w') = call (os.open_dir path) w in
      elim opened [ err e ↦ (err e, w') | ok fd ↦ finish_open none fd w' ]

  -- `try_openat2_child`: `none` asks for the fallback
  unfoldable pub try_openat2_child : Handle → Text → Act State (Result Errno (Option Fd))
  try_openat2_child h name w =
      if not w.openat2_supported
      then (ok none, w)
      else let (opened, w') = call (os.openat2 h.fd name) w in
        elim opened [
          | ok fd ↦ (ok (some fd), w')
          | err e ↦
              if is_nosys e
              then (ok none, record w' { openat2_supported = false })
              else if is_permission e
              then (err acces, w')
              else (err e, w')
        ]

  -- `open_child_dir_errno`
  unfoldable pub open_child_dir : Handle → Text → Act State (Result Errno Handle)
  open_child_dir h name w =
      if not (is_single_component name)
      then (err inval, w)
      else let (tried, w') = try_openat2_child h name w in
        elim tried [
          | err e ↦ (err e, w')
          | ok (some fd) ↦ finish_open (some h.dev) fd w'
          | ok none ↦
              let (opened, w'') = call (os.openat h.fd name) w' in
              elim opened [ err e ↦ (err e, w'') | ok fd ↦ finish_open (some h.dev) fd w'' ]
        ]

  -- `stat_child_errno`
  unfoldable pub stat_child : Handle → Text → Act State (Result Errno FileIdentity)
  stat_child h name w =
      if not (is_single_component name) then (err inval, w) else call (os.statat h.fd name) w

  -- The `unlinkat` of both deletions, noted in the log.
  unfoldable pub unlink : Handle → Text → Bool → Act State (Result CleanerError (Unit {0}))
  unlink h name is_dir w =
      let (r, w') = call (os.unlinkat h.fd name is_dir) w in
      (io_error r, record w' { log = w'.log ++ unlinked name is_dir ∷ [] })

  -- `unlink_child_file` and `rmdir_child_dir`, which differ in the flag and the message
  unfoldable pub delete_child :
      Bool → Handle → Text → FileIdentity → Act State (Result CleanerError (Unit {0}))
  delete_child is_dir h name expected w =
      if not (is_single_component name)
      then (err (CleanerError.io inval), w)
      else let (st, w') = stat_child h name w in
        elim st [
          | err e ↦ (err (CleanerError.io e), w')
          | ok current ↦
              if not (identity_eq current expected)
              then (
                err (safety_violation (if is_dir then toctou_dir name else toctou_file name)),
                w',
              )
              else unlink h name is_dir w'
        ]
