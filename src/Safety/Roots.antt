-- ===== src/Safety/Roots.antt =====
-- `verify_target_root_safety` against a description of the roots that it lets pass.
use cache_cleaner.Base.{
  ◌≡◌, ◌≢◌, ◌↔◌, refl, Bool, true, not, List, [], ◌∷◌, ◌++◌, inl, inr, Bool-cases, and-true, ◌&&◌,
  is_ok, All, arith,
}
use cache_cleaner.Base.Text.{text_eq_iff}
use cache_cleaner.Domain.Path.{
  PathText, Component, root_dir, cur_dir, parent_dir, normal, components,
}
use cache_cleaner.Config.{
  platform_invariant_protected_paths, component_eq, components_eq, has_prefix,
}
use cache_cleaner.Safety.{check_protected, verify_target_root_safety}

component_eq_iff : (a b : Component) → (component_eq a b ≡ true) ↔ (a ≡ b)
component_eq_iff (normal a) (normal b) = ground (arith, text_eq_iff a b)
component_eq_iff root_dir b = ground arith
component_eq_iff cur_dir b = ground arith
component_eq_iff parent_dir b = ground arith
component_eq_iff (normal a) b = ground arith

components_eq_iff : (ps qs : List Component) → (components_eq ps qs ≡ true) ↔ (ps ≡ qs)
components_eq_iff [] [] = ground arith
components_eq_iff [] (q ∷ qs) = ground arith
components_eq_iff (p ∷ ps) [] = ground arith
components_eq_iff (p ∷ ps) (q ∷ qs) = ground (arith, component_eq_iff p q, components_eq_iff ps qs)

-- The path lies at or below the protected root, component by component.
abbrev pub IsUnder : PathText → PathText → Type 0
IsUnder path prot =
    (components prot ≢ []) × ((rest : List Component) × (components path ≡ components prot ++ rest))

prefix_of :
    (ps qs : List Component) → has_prefix ps qs ≡ true → (rest : List Component) × (ps ≡ qs ++ rest)
prefix_of ps [] h = (ps, refl)
prefix_of [] (q ∷ qs) h = cc
prefix_of (p ∷ ps) (q ∷ qs) h =
    let both : (p ≡ q) × (has_prefix ps qs ≡ true) = ground (arith, component_eq_iff p q) in
    let (rest, e) = prefix_of ps qs both.1 in (rest, cc (both.0, e))

has_prefix-append : (qs rest : List Component) → has_prefix (qs ++ rest) qs ≡ true
has_prefix-append [] rest = refl
has_prefix-append (q ∷ qs) rest = ground (arith, component_eq_iff q q, has_prefix-append qs rest)

-- The test of the loop, for one protected root.
abbrev is_under : PathText → PathText → Bool
is_under path prot =
    not (components_eq (components prot) []) && has_prefix (components path) (components prot)

is_under_iff : (path prot : PathText) → (is_under path prot ≡ true) ↔ IsUnder path prot
is_under_iff path prot = (
  λ h.
      let (some_component, prefix) = and-true (not (components_eq (components prot) [])) _ h in
      (
        λ e. cc (some_component, (components_eq_iff (components prot) []).1 e),
        prefix_of (components path) (components prot) prefix,
      ),
  λ u. back u.0 u.1.0 u.1.1,
)
  where
    back :
        components prot ≢ []
        → (rest : List Component) → components path ≡ components prot ++ rest
        → is_under path prot ≡ true
    back u rest e =
        rw (e, has_prefix-append (components prot) rest)
          (elim (Bool-cases (components_eq (components prot) [])) [
            | inl y ↦ absurd (u ((components_eq_iff (components prot) []).0 y))
            | inr n ↦ rw n
          ])

is_ok-check_protected :
    (path prot : PathText) (rest : List PathText)
    → is_ok (check_protected path (prot ∷ rest))
      ≡ (not (is_under path prot) && is_ok (check_protected path rest))
unfolding check_protected
is_ok-check_protected path prot rest = ground arith

-- The loop accepts a path exactly when it is under none of the listed roots.
check_protected_iff :
    (path : PathText) (prots : List PathText)
    → (is_ok (check_protected path prots) ≡ true) ↔ All (λ prot. ¬ IsUnder path prot) prots
unfolding check_protected
check_protected_iff path [] = (λ h. tt, λ h. refl)
check_protected_iff path (prot ∷ rest) =
    let step = is_ok-check_protected path prot rest in
    let under = is_under_iff path prot in
    let ih = check_protected_iff path rest in
    elim (Bool-cases (is_under path prot)) [
      | inl e ↦ (λ h. absurd (cc (step, e)), λ h. absurd (h.0 (under.0 e)))
      | inr e ↦ (
        λ h. (λ u. cc (e, under.1 u), ih.0 (ground (arith, step))),
        λ h. ground (arith, step, ih.1 h.1),
      )
    ]

-- The roots that may be cleaned: not empty, not `/`, and under no protected root.
pub record IsSafeRoot (path : PathText) : Type 0 where
  pub nonempty : components path ≢ []
  pub not_slash : components path ≢ root_dir ∷ []
  pub unprotected : All (λ prot. ¬ IsUnder path prot) platform_invariant_protected_paths

-- The check accepts exactly the safe roots.
pub verify_target_root_safety_iff :
    (path : PathText) → (is_ok (verify_target_root_safety path) ≡ true) ↔ IsSafeRoot path
unfolding verify_target_root_safety
verify_target_root_safety_iff path =
    let loop = check_protected_iff path platform_invariant_protected_paths in
    let empty = components_eq_iff (components path) [] in
    let slash = components_eq_iff (components path) (root_dir ∷ []) in
    (
      λ h. record {
        nonempty = ground (arith, empty, h);
        not_slash = ground (arith, slash, h);
        unprotected = loop.0 (ground (arith, h));
      },
      λ h. ground (arith, loop.1 h.unprotected, empty, slash, h.nonempty, h.not_slash),
    )
