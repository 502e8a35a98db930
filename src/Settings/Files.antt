-- ===== src/Settings/Files.antt =====
-- The loading and the saving of src/config.rs. The parser and the printer of the toml crate are
-- parameters; a file is its text, or `none` where it cannot be read as text.
use cache_cleaner.Base.{
  Bool, true, false, Option, none, some, List, Result, ok, err, ◌>>=◌, if◌then◌else◌,
}
use cache_cleaner.Base.Assoc.{lookup, insert, remove}
use cache_cleaner.Base.Extension.{with_extension}
use cache_cleaner.Base.Text.{Text, codes}
use cache_cleaner.Domain.Error.{CleanerError, io, noent, inval, config_error}
use cache_cleaner.Settings.{DaemonConfig, config_path, default_config, validate}

abbrev pub Files : Type 0
Files = List (Text × Option Text)

-- `Path::exists`
abbrev pub exists : Files → Text → Bool
exists files path = elim (lookup path files) [ none ↦ false | some _ ↦ true ]

-- `fs::read_to_string`
abbrev pub read_to_string : Files → Text → Result CleanerError Text
read_to_string files path = elim (lookup path files) [
  | none ↦ err (io noent)
  | some none ↦ err (io inval)
  | some (some content) ↦ ok content
]

abbrev pub parsed : Option DaemonConfig → Result CleanerError DaemonConfig
parsed none = err (config_error (codes "toml"))
parsed (some c) = ok c

-- Where a save fails, if it does.
pub data SaveFault : Type 0 where
  no_fault at_create_dir at_create at_rename : SaveFault
  -- After a part of the text, which is left in the temporary file.
  at_write : Text → SaveFault
  at_sync : SaveFault

module _ (parse_toml : Text → Option DaemonConfig) (print_toml : DaemonConfig → Option Text) where
  -- `load_from_file_strict`
  unfoldable pub load_from_file_strict : Files → Text → Result CleanerError DaemonConfig
  load_from_file_strict files path = do
    content ← read_to_string files path
    config ← parsed (parse_toml content)
    _ ← validate config
    ok config

  -- A fallback path: used if it exists and loads.
  unfoldable pub try_path : Files → Text → DaemonConfig × Option Text → DaemonConfig × Option Text
  try_path files path otherwise =
      if exists files path
      then elim (load_from_file_strict files path) [ ok c ↦ (c, some path) | err _ ↦ otherwise ]
      else otherwise

  abbrev pub load_fallbacks : Files → DaemonConfig × Option Text
  load_fallbacks files =
      try_path files config_path (try_path files (codes "config.toml") (default_config, none))

  -- `load_or_default_with_path`
  unfoldable pub load_or_default_with_path : Files → Option Text → DaemonConfig × Option Text
  load_or_default_with_path files none = load_fallbacks files
  load_or_default_with_path files (some path) = elim (load_from_file_strict files path) [
    | ok c ↦ (c, some path)
    | err _ ↦ load_fallbacks files
  ]

  -- `load_or_default`
  abbrev pub load_or_default : Files → Option Text → DaemonConfig
  load_or_default files path = (load_or_default_with_path files path).0

  -- `reload_from_path`
  unfoldable pub reload_from_path : Files → Option Text → Result CleanerError DaemonConfig
  reload_from_path files (some path) = load_from_file_strict files path
  reload_from_path files none =
      if exists files config_path
      then load_from_file_strict files config_path
      else ok (load_or_default_with_path files none).0

  -- The file operations of `save_to_file`
  unfoldable pub write_and_rename :
      SaveFault → Text → Text → Text → Files → Result CleanerError (Unit {0}) × Files
  write_and_rename at_create_dir tmp target content files = (err (io inval), files)
  write_and_rename at_create tmp target content files = (err (io inval), files)
  write_and_rename (at_write part) tmp target content files =
      (err (io inval), insert tmp (some part) files)
  write_and_rename at_sync tmp target content files =
      (err (io inval), insert tmp (some content) files)
  write_and_rename at_rename tmp target content files =
      (err (io inval), insert tmp (some content) files)
  write_and_rename no_fault tmp target content files =
      (ok tt, insert target (some content) (remove tmp (insert tmp (some content) files)))

  -- `save_to_file`
  unfoldable pub save_to_file :
      SaveFault → DaemonConfig → Text → Files → Result CleanerError (Unit {0}) × Files
  save_to_file fault c target files = elim (validate c) [
    | err e ↦ (err e, files)
    | ok _ ↦ elim (print_toml c) [
      | none ↦ (err (config_error (codes "toml")), files)
      | some content ↦
          write_and_rename fault (with_extension (codes "tmp") target) target content files
    ]
  ]
