-- ===== src/Settings/Loading.antt =====
-- What src/config.rs loads is valid, and what it saves is loaded again.
use cache_cleaner.Base.{
  ◌≡◌, ◌≢◌, inl, inr, refl, true, false, Option, none, some, is_ok, ok, by_result_eq, by_if,
  Option-cases, Result-cases, Bool-cases, arith,
}
use cache_cleaner.Base.Assoc.{lookup, insert, remove, lookup-insert}
use cache_cleaner.Base.Extension.{has_file_name, with_extension, with_extension-other}
use cache_cleaner.Base.Text.{Text, codes, ends_with, text_eq, text_eq_refl, text_eq_iff}
use cache_cleaner.Settings.{DaemonConfig, config_path, default_config, validate}
use cache_cleaner.Settings.Files.{
  Files, exists, SaveFault, no_fault, at_create_dir, at_create, at_rename, at_write, at_sync,
  load_from_file_strict, try_path, load_fallbacks, load_or_default_with_path, write_and_rename,
  save_to_file,
}

unfoldable pub IsValid : DaemonConfig × Option Text → Type 0
IsValid r = validate r.0 ≡ ok tt

module _ (parse_toml : Text → Option DaemonConfig) (print_toml : DaemonConfig → Option Text) where
  load_from_file_strict-IsValid :
      (files : Files) (path : Text) (c : DaemonConfig)
      → load_from_file_strict parse_toml print_toml files path ≡ ok c
      → validate c ≡ ok tt
  unfolding load_from_file_strict
  load_from_file_strict-IsValid files path c h = ground (arith, h)

  try_path-IsValid :
      (files : Files) (path : Text) (otherwise : DaemonConfig × Option Text)
      → IsValid otherwise
      → IsValid (try_path parse_toml print_toml files path otherwise)
  unfolding try_path IsValid
  try_path-IsValid files path otherwise h =
      by_if IsValid (exists files path)
        (by_result_eq IsValid (load_from_file_strict parse_toml print_toml files path)
          (λ c done. load_from_file_strict-IsValid files path c done) (λ _ _. h))
        h

  load_fallbacks-IsValid : (files : Files) → IsValid (load_fallbacks parse_toml print_toml files)
  unfolding IsValid validate
  load_fallbacks-IsValid files =
      try_path-IsValid files config_path _ (try_path-IsValid files _ (default_config, none) refl)

  -- Whatever the files hold, the configuration that the daemon starts with passes the checks.
  pub load_or_default-IsValid :
      (files : Files) (path : Option Text)
      → validate (load_or_default_with_path parse_toml print_toml files path).0 ≡ ok tt
  unfolding load_or_default_with_path IsValid
  load_or_default-IsValid files none = load_fallbacks-IsValid files
  load_or_default-IsValid files (some path) =
      by_result_eq IsValid (load_from_file_strict parse_toml print_toml files path)
        (λ c done. load_from_file_strict-IsValid files path c done)
        (λ _ _. load_fallbacks-IsValid files)

  module _ (c : DaemonConfig) (tmp target : Text) (files : Files) (apart : tmp ≢ target) where
    differ : text_eq tmp target ≡ false
    differ = elim (Bool-cases (text_eq tmp target)) [
      | inl same ↦ absurd (apart ((text_eq_iff tmp target).0 same))
      | inr other ↦ other
    ]

    insert-tmp :
        (content : Text) → lookup target (insert tmp (some content) files) ≡ lookup target files
    insert-tmp content = ground (arith, lookup-insert tmp target (some content) files, differ)

    write_and_rename-target :
        (fault : SaveFault) (content : Text)
        → let q = write_and_rename parse_toml print_toml fault tmp target content files in
          (is_ok q.0 ≡ false → lookup target q.1 ≡ lookup target files)
          × (is_ok q.0 ≡ true → lookup target q.1 ≡ some (some content))
    unfolding write_and_rename
    write_and_rename-target at_create_dir content = (λ _. refl, λ h. absurd (ground (arith, h)))
    write_and_rename-target at_create content = (λ _. refl, λ h. absurd (ground (arith, h)))
    write_and_rename-target (at_write part) content =
        (λ _. insert-tmp part, λ h. absurd (ground (arith, h)))
    write_and_rename-target at_sync content =
        (λ _. insert-tmp content, λ h. absurd (ground (arith, h)))
    write_and_rename-target at_rename content =
        (λ _. insert-tmp content, λ h. absurd (ground (arith, h)))
    write_and_rename-target no_fault content =
        let written = insert tmp (some content) files in
        (
          λ h. absurd (ground (arith, h)),
          λ _. ground (
            arith,
            lookup-insert target target (some content) (remove tmp written),
            text_eq_refl target,
          ),
        )

  -- A path that names a file and does not end in `.tmp` keeps its old text wherever a save to it
  -- fails, and a save that succeeds is read back as the configuration that was saved, if the parser
  -- reads what the printer writes of it.
  pub save_to_file-atomic :
      (c : DaemonConfig) (target : Text) (files : Files) (fault : SaveFault)
      → has_file_name target ≡ true
      → ends_with target (codes ".tmp") ≡ false
      → ((content : Text) → print_toml c ≡ some content → parse_toml content ≡ some c)
      → let q = save_to_file parse_toml print_toml fault c target files in
        (is_ok q.0 ≡ false → lookup target q.1 ≡ lookup target files)
        × (is_ok q.0 ≡ true → load_from_file_strict parse_toml print_toml q.1 target ≡ ok c)
  unfolding save_to_file load_from_file_strict
  save_to_file-atomic c target files fault named other reads = elim (Result-cases (validate c)) [
    | inr (e, bad) ↦ (λ h. ground (arith, bad), λ h. absurd (ground (arith, bad, h)))
    | inl (_, valid) ↦ elim (Option-cases (print_toml c)) [
      | inl none_printed ↦ (
        λ h. ground (arith, valid, none_printed),
        λ h. absurd (ground (arith, valid, none_printed, h)),
      )
      | inr (content, printed) ↦
          let apart = with_extension-other (codes "tmp") target named other in
          let after =
            write_and_rename-target c (with_extension (codes "tmp") target) target files apart fault
              content in
          let read = reads content printed in
          (
            λ h. ground (arith, valid, printed, after.0, h),
            λ h. ground (arith, valid, printed, after.1, read, h),
          )
    ]
  ]
