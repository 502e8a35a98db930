-- ===== src/Base/Extension.antt =====
-- `Path::with_extension` of Rust's std, on the text of a path.
use mathlib.Core.Path.{◌≡◌, ◌∙◌, refl, ap, sym}
use mathlib.Core.Logic.{◌≢◌}
use mathlib.Core.Bool.{Bool, true, false, not, ◌&&◌, ◌||◌}
use mathlib.Core.Option.{Option, none, some}
use mathlib.Core.List.{[], ◌∷◌, ◌++◌}
use native.Mathlib.Omega.{arith}
use cache_cleaner.Base.Tests.{◌==◌, if◌then◌else◌}
use cache_cleaner.Base.Text.{Text, codes, text_eq, text_eq_refl, ends_with}

-- The path without slashes at its end, and without `.` components there.
abbrev trimmed : Text → Text
trimmed [] = []
trimmed (c ∷ s) =
    let t = trimmed s in if c == b'/' && (text_eq t [] || text_eq t (codes ".")) then [] else c ∷ t

-- What ends with the last slash, and what follows it.
abbrev split_name : Text → Text × Text
split_name [] = ([], [])
split_name (c ∷ s) =
    let (dir, name) = split_name s in
    if not (text_eq dir [])
    then (c ∷ dir, name)
    else if c == b'/'
    then (c ∷ [], name)
    else ([], c ∷ name)

-- What stands before the last dot
abbrev before_dot : Text → Option Text
before_dot [] = none
before_dot (c ∷ s) = elim (before_dot s) [
  | some p ↦ some (c ∷ p)
  | none ↦ if c == b'.' then some [] else none
]

-- `Path::file_stem`: a name that only begins with a dot has no extension.
abbrev file_stem : Text → Text
file_stem name = elim (before_dot name) [ none ↦ name | some p ↦ if text_eq p [] then name else p ]

-- `Path::file_name` is there.
abbrev pub has_file_name : Text → Bool
has_file_name path =
    let (_, name) = split_name (trimmed path) in
    not (text_eq name [] || (text_eq name (codes ".") || text_eq name (codes "..")))

unfoldable pub with_extension : Text → Text → Text
with_extension ext path =
    let (dir, name) = split_name (trimmed path) in
    if has_file_name path then dir ++ (file_stem name ++ (codes "." ++ ext)) else path

ends_with_refl : (s : Text) → ends_with s s ≡ true
ends_with_refl [] = refl
ends_with_refl (c ∷ s) = ground (arith, text_eq_refl s)

ends_with-append : (xs s p : Text) → ends_with s p ≡ true → ends_with (xs ++ s) p ≡ true
ends_with-append [] s p h = h
ends_with-append (x ∷ xs) s p h = ground (arith, ends_with-append xs s p h)

-- A path that does not have the extension changes when it gets it.
pub with_extension-other :
    (ext path : Text)
    → has_file_name path ≡ true
    → ends_with path (codes "." ++ ext) ≡ false
    → with_extension ext path ≢ path
unfolding with_extension
with_extension-other ext path named other same =
    let (dir, name) = split_name (trimmed path) in
    let made = ends_with-append dir _ (codes "." ++ ext) (
      ends_with-append (file_stem name) _ (codes "." ++ ext) (ends_with_refl (codes "." ++ ext))) in
    let is : with_extension ext path ≡ dir ++ (file_stem name ++ (codes "." ++ ext)) =
      rw (named) refl in
    let whole = ap (λ p. ends_with p (codes "." ++ ext)) (sym same ∙ is) ∙ made in
    ground (arith, whole, other)
