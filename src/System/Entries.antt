-- ===== src/System/Entries.antt =====
-- `read_entries_fd` of src/fs/mod.rs. The kernel's answers are taken as one sequence, whose items
-- are then looked at in order.
use cache_cleaner.Base.{
  ℕ, Bool, true, false, ◌||◌, Option, none, some, List, [], ◌∷◌, ◌++◌, if◌then◌else◌, Result, ok,
  err,
}
use cache_cleaner.Base.Text.{Text, codes, text_eq}
use cache_cleaner.Domain.Types.{FileIdentity}
use cache_cleaner.Domain.Error.{Errno, CleanerError, io}
use cache_cleaner.System.Os.{Os, FileType, directory, symlink, other, RawEntry, EntryStat}
use cache_cleaner.System.World.{Act, call}

pub record SafeDirEntry : Type 0 where
  pub name : Text
  pub is_dir : Bool
  pub is_symlink : Bool
  pub identity : FileIdentity
  pub size_bytes : ℕ
  pub mtime_secs : ℕ

abbrev pub is_special : FileType → Bool
is_special other = true
is_special _ = false

abbrev pub is_directory : FileType → Bool
is_directory directory = true
is_directory _ = false

abbrev pub is_link : FileType → Bool
is_link symlink = true
is_link _ = false

-- The tests of the loop before the `statat`: the name of an entry that is kept.
unfoldable pub kept_name : RawEntry → Option Text
kept_name raw = elim raw.entry_name [
  | none ↦ none
  | some name ↦
      if text_eq name (codes ".") || text_eq name (codes "..") || is_special raw.file_type
      then none
      else some name
]

unfoldable pub dir_entry : Text → FileType → EntryStat → SafeDirEntry
dir_entry name ft st = record {
  name = name;
  is_dir = is_directory ft;
  is_symlink = is_link ft;
  identity = st.identity;
  size_bytes = st.size;
  mtime_secs = st.mtime;
}

-- An entry whose `statat` failed is passed over.
abbrev pub keep_entry :
    List SafeDirEntry → Text → FileType → Result Errno EntryStat → List SafeDirEntry
keep_entry entries name ft (ok st) = entries ++ dir_entry name ft st ∷ []
keep_entry entries name ft (err _) = entries

module _ (os : Os) where
  open os use {State, Fd}

  -- The loop over the entries
  unfoldable pub collect_entries :
      Fd
      → List SafeDirEntry
      → List (Result Errno RawEntry)
      → Act State (Result CleanerError (List SafeDirEntry))
  collect_entries fd entries [] w = (ok entries, w)
  collect_entries fd entries (err e ∷ rest) w = (err (io e), w)
  collect_entries fd entries (ok raw ∷ rest) w = elim (kept_name raw) [
    | none ↦ collect_entries fd entries rest w
    | some name ↦
        let (st, w') = call (os.stat_entry fd name) w in
        collect_entries fd (keep_entry entries name raw.file_type st) rest w'
  ]

  -- `read_entries_fd`
  unfoldable pub read_entries_fd : Fd → Act State (Result CleanerError (List SafeDirEntry))
  read_entries_fd fd w = let (items, w') = call (os.read_dir fd) w in collect_entries fd [] items w'
