-- ===== src/Verifier/Check.antt =====
-- The checks of src/verifier/mod.rs against the disk. A component of a path is its text; names
-- that are not UTF-8 do not occur in paths made from text.
use cache_cleaner.Base.{List, [], ◌∷◌, if◌then◌else◌, Result, ok, err}
use cache_cleaner.Base.Text.{Text, codes}
use cache_cleaner.Domain.Types.{FileIdentity, identity_eq}
use cache_cleaner.Domain.Path.{
  PathText, Component, root_dir, cur_dir, parent_dir, normal, components,
}
use cache_cleaner.Domain.Error.{Errno, noent, acces, perm, io, stale, busy, rofs, notdir}
use cache_cleaner.System.Os.{Os}
use cache_cleaner.System.World.{Act}
use cache_cleaner.System.Handle.{SafeDirHandle, open_root, open_child_dir, stat_child}
use cache_cleaner.Verifier.Outcome.{
  VerificationOutcome, confirmed_deleted, already_gone, still_present, identity_mismatch,
  parent_unavailable, target_unavailable, unknown,
}

-- `Component::as_os_str`
abbrev pub component_text : Component → Text
component_text root_dir = codes "/"
component_text cur_dir = codes "."
component_text parent_dir = codes ".."
component_text (normal s) = s

-- The arms of `verify_with_parent_handle` on the stat of the name
unfoldable pub outcome_of_stat : FileIdentity → Result Errno FileIdentity → VerificationOutcome
outcome_of_stat expected (ok current) =
    if identity_eq current expected then still_present else identity_mismatch
outcome_of_stat expected (err noent) = confirmed_deleted
outcome_of_stat expected (err rofs) = target_unavailable
outcome_of_stat expected (err busy) = target_unavailable
outcome_of_stat expected (err notdir) = parent_unavailable
outcome_of_stat expected (err stale) = parent_unavailable
outcome_of_stat expected (err _) = unknown

-- The arms on the error of opening a parent directory
unfoldable pub outcome_of_open_error : Errno → VerificationOutcome
outcome_of_open_error noent = already_gone
outcome_of_open_error acces = parent_unavailable
outcome_of_open_error perm = parent_unavailable
outcome_of_open_error io = unknown
outcome_of_open_error stale = unknown
outcome_of_open_error busy = target_unavailable
outcome_of_open_error rofs = target_unavailable
outcome_of_open_error _ = parent_unavailable

module _ (os : Os) where
  open os use {State, Fd}

  -- `verify_with_parent_handle`
  unfoldable pub verify_with_parent_handle :
      SafeDirHandle Fd → Text → FileIdentity → Act State VerificationOutcome
  unfolding outcome_of_stat
  verify_with_parent_handle h leaf expected w =
      let (st, w') = stat_child os h leaf w in (outcome_of_stat expected st, w')

  -- The walk down the components, the last of which is the leaf
  unfoldable pub verify_below :
      SafeDirHandle Fd → Component → List Component → FileIdentity → Act State VerificationOutcome
  verify_below h leaf [] expected w = verify_with_parent_handle h (component_text leaf) expected w
  verify_below h comp (next ∷ rest) expected w =
      let (opened, w') = open_child_dir os h (component_text comp) w in
      elim opened [
        | err e ↦ (outcome_of_open_error e, w')
        | ok child ↦ verify_below child next rest expected w'
      ]

  -- `verify_operation_postcondition`
  unfoldable pub verify_operation_postcondition :
      PathText → PathText → FileIdentity → Act State VerificationOutcome
  verify_operation_postcondition base path expected w =
      let (opened, w') = open_root os base w in
      elim opened [
        | err _ ↦ (target_unavailable, w')
        | ok root ↦ elim (components path) [
          | [] ↦ (unknown, w')
          | comp ∷ rest ↦ verify_below root comp rest expected w'
        ]
      ]
