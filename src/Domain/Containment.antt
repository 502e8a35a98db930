-- ===== src/Domain/Containment.antt =====
-- What `RelativePath::parse` of src/domain/types.rs accepts.
use cache_cleaner.Base.{
  ℕ, ◌+◌, ◌≡◌, ◌≤◌, refl, false, some, inl, inr, Option-cases, List, [], ◌∷◌, All, length, arith,
}
use cache_cleaner.Base.Text.{Text, byte_len}
use cache_cleaner.Domain.Path.{
  PathText, Component, root_dir, cur_dir, parent_dir, normal, is_absolute, components, count_normal,
  parse,
}

-- A name of at most 255 bytes: no root, no `.` and no `..`.
abbrev pub IsName : Component → Type 0
IsName c = (s : Text) × ((c ≡ normal s) × (byte_len s ≤ 255))

count_normal-IsName :
    (n m : ℕ) (cs : List Component)
    → count_normal n cs ≡ some m
    → All IsName cs × (m ≡ n + length cs)
unfolding count_normal
count_normal-IsName n m [] h = (tt, ground arith)
count_normal-IsName n m (normal s ∷ cs) h =
    let rest = count_normal-IsName (n + 1) m cs (ground arith) in
    (((s, (refl, ground arith)), rest.0), omega (arith, rest.1))
count_normal-IsName n m (root_dir ∷ cs) h = absurd (ground (arith, h))
count_normal-IsName n m (cur_dir ∷ cs) h = absurd (ground (arith, h))
count_normal-IsName n m (parent_dir ∷ cs) h = absurd (ground (arith, h))

no_components : All IsName (components [])
unfolding components
no_components = tt

-- An accepted path is the text that was parsed, has at most 4096 bytes, does not begin at the root,
-- and each of its components is a name: it leads nowhere but down.
pub parse-descends :
    (s p : PathText)
    → parse s ≡ some p
    → (p ≡ s) × ((byte_len s ≤ 4096) × ((is_absolute s ≡ false) × All IsName (components s)))
unfolding parse
parse-descends [] p h = (ground arith, (omega arith, (refl, no_components)))
parse-descends (c ∷ s) p h = elim (Option-cases (count_normal 0 (components (c ∷ s)))) [
  | inl e ↦ absurd (ground (arith, e, h))
  | inr (m, e) ↦ (
    ground (arith, e, h),
    (
      ground (arith, e, h),
      (ground (arith, e, h), (count_normal-IsName 0 m (components (c ∷ s)) e).0),
    ),
  )
]
