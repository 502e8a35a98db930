-- ===== src/Planner/Order.antt =====
-- The canonical order puts what lies in a directory before the directory.
use Prim.Native.Nat.{Ordering}
use cache_cleaner.Base.{
  ℕ, ◌≡◌, ◌<◌, refl, Bool, true, false, ◌&&◌, List, [], ◌∷◌, ◌++◌, length, ◌==◌, Bool-cases,
  and-true, inl, inr, arith,
}
use cache_cleaner.Base.Text.{
  Text, text_eq, text_eq_iff, text_compare, starts_with, split, cons_head,
}
use cache_cleaner.Base.Sort.{IsTotalOrder}
use cache_cleaner.Domain.Target.{Candidate}
use cache_cleaner.Domain.Decision.{PolicyPermit}
use cache_cleaner.Planner.{candidate_of, candidate_compare, permit_le, is_gt}

text_compare_refl : (s : Text) → text_compare s s ≡ Ordering.eq
text_compare_refl [] = refl
text_compare_refl (c ∷ s) = ground (arith, text_compare_refl s)

text_compare_eq : (s t : Text) → text_compare s t ≡ Ordering.eq → s ≡ t
text_compare_eq [] [] h = refl
text_compare_eq [] (d ∷ t) h = cc
text_compare_eq (c ∷ s) [] h = cc
text_compare_eq (c ∷ s) (d ∷ t) h = ground (arith, text_compare_eq s t)

text_compare_swap : (s t : Text) → text_compare s t ≡ Ordering.gt → text_compare t s ≡ Ordering.lt
text_compare_swap [] [] h = cc
text_compare_swap [] (d ∷ t) h = cc
text_compare_swap (c ∷ s) [] h = refl
text_compare_swap (c ∷ s) (d ∷ t) h = ground (arith, text_compare_swap s t)

text_compare_trans :
    (s t u : Text)
    → text_compare s t ≡ Ordering.lt
    → text_compare t u ≡ Ordering.lt
    → text_compare s u ≡ Ordering.lt
text_compare_trans [] [] u h k = cc
text_compare_trans [] (d ∷ t) [] h k = cc
text_compare_trans [] (d ∷ t) (e ∷ u) h k = refl
text_compare_trans (c ∷ s) [] u h k = cc
text_compare_trans (c ∷ s) (d ∷ t) [] h k = cc
text_compare_trans (c ∷ s) (d ∷ t) (e ∷ u) h k =
    ground (arith, text_compare_trans s t u, text_compare_eq s t, text_compare_eq t u)

-- The three ways in which `a` is not after `b`.
candidate_total :
    (a b : Candidate) → is_gt (candidate_compare a b) ≡ true → is_gt (candidate_compare b a) ≡ false
candidate_total a b h = ground (
  arith,
  text_compare_swap a.target_id b.target_id,
  text_compare_eq a.target_id b.target_id,
  text_compare_refl a.target_id,
  text_compare_swap a.rel_path b.rel_path,
)

candidate_trans :
    (a b c : Candidate)
    → is_gt (candidate_compare a b) ≡ false
    → is_gt (candidate_compare b c) ≡ false
    → is_gt (candidate_compare a c) ≡ false
candidate_trans a b c h k = ground (
  arith,
  text_compare_trans a.target_id b.target_id c.target_id,
  text_compare_eq a.target_id b.target_id,
  text_compare_eq b.target_id c.target_id,
  text_compare_refl a.target_id,
  text_compare_trans a.rel_path b.rel_path c.rel_path,
  text_compare_eq a.rel_path b.rel_path,
  text_compare_eq b.rel_path c.rel_path,
  text_compare_refl a.rel_path,
)

pub permit_le-IsTotalOrder : IsTotalOrder permit_le
permit_le-IsTotalOrder = record {
  total = λ x y h. ground (arith, candidate_total (candidate_of x) (candidate_of y));
  transitive = λ x y z h k.
      ground (arith, candidate_trans (candidate_of x) (candidate_of y) (candidate_of z));
}

split-pos : (sep : ℕ) (s : Text) → 0 < length (split sep s)
split-pos sep [] = omega arith
split-pos sep (c ∷ s) = elim (Bool-cases (c == sep)) [
  | inl e ↦ rw e (omega arith)
  | inr e ↦ rw e (length-cons_head (split sep s))
]
  where
    length-cons_head : (ps : List Text) → 0 < length (cons_head c ps)
    length-cons_head [] = omega arith
    length-cons_head (p ∷ ps) = omega arith

length-cons_head : (c : ℕ) (ps : List Text) → 0 < length ps → length (cons_head c ps) ≡ length ps
length-cons_head c [] h = absurd (omega arith)
length-cons_head c (p ∷ ps) h = refl

-- What begins with a path and a separator has more pieces than the path.
split-lt :
    (sep : ℕ) (p s : Text)
    → starts_with s (p ++ sep ∷ []) ≡ true
    → length (split sep p) < length (split sep s)
split-lt sep [] [] h = cc
split-lt sep [] (d ∷ s) h = ground (arith, split-pos sep s)
split-lt sep (c ∷ p) [] h = cc
split-lt sep (c ∷ p) (d ∷ s) h = ground (
  arith,
  split-lt sep p s,
  length-cons_head c (split sep p) (split-pos sep p),
  length-cons_head d (split sep s) (split-pos sep s),
)

-- Inside a directory of the same target: the path begins with the directory's and a `/`.
abbrev pub is_below : Candidate → Candidate → Bool
is_below dir cand =
    text_eq cand.target_id dir.target_id && starts_with cand.rel_path (dir.rel_path ++ b'/' ∷ [])

-- What is in canonical order after a directory does not lie in it.
pub permit_le-not_below :
    (p q : PolicyPermit) → permit_le p q ≡ true → is_below (candidate_of p) (candidate_of q) ≡ false
permit_le-not_below p q h = elim (Bool-cases (is_below (candidate_of p) (candidate_of q))) [
  | inr e ↦ e
  | inl e ↦
      let both = and-true (text_eq (candidate_of q).target_id (candidate_of p).target_id) _ e in
      let same = (text_eq_iff (candidate_of q).target_id (candidate_of p).target_id).0 both.0 in
      let deeper = split-lt b'/' (candidate_of p).rel_path (candidate_of q).rel_path both.1 in
      absurd (ground (arith, text_compare_refl (candidate_of p).target_id))
]
