-- ===== src/Base/Sort.antt =====
-- The stable `sort` and `sort_by` of Rust's Vec, as insertion, and `dedup`.
use mathlib.Core.Path.{◌≡◌, refl}
use mathlib.Core.Bool.{Bool, true, false}
use mathlib.Core.List.{List, [], ◌∷◌}
use mathlib.Core.Logic.{inl, inr}
use native.Mathlib.Omega.{arith}
use Prim.Native.Nat.{suc}
use cache_cleaner.Base.Tests.{if◌then◌else◌, Bool-cases}
use cache_cleaner.Base.Lists.{length, All, All-map}

module _ {ℓ} {A : Type ℓ} (le : A → A → Bool) where
  -- Before the first item that is not below `x`.
  pub insert_sorted : A → List A → List A
  insert_sorted x [] = x ∷ []
  insert_sorted x (y ∷ ys) = if le x y then x ∷ y ∷ ys else y ∷ insert_sorted x ys

  unfoldable pub sort_by : List A → List A
  unfolding insert_sorted
  sort_by [] = []
  sort_by (x ∷ xs) = insert_sorted x (sort_by xs)

  pub length-insert_sorted : (x : A) (ys : List A) → length (insert_sorted x ys) ≡ suc (length ys)
  unfolding insert_sorted
  length-insert_sorted x [] = refl
  length-insert_sorted x (y ∷ ys) = ground (arith, length-insert_sorted x ys)

  pub length-sort_by : (xs : List A) → length (sort_by xs) ≡ length xs
  unfolding sort_by
  length-sort_by [] = refl
  length-sort_by (x ∷ xs) = omega (arith, length-insert_sorted x (sort_by xs), length-sort_by xs)

module _ {ℓ κ} {A : Type ℓ} (le : A → A → Bool) (P : A → Type κ) where
  pub insert_sorted-All : (x : A) (ys : List A) → P x → All P ys → All P (insert_sorted le x ys)
  unfolding insert_sorted
  insert_sorted-All x [] p h = (p, tt)
  insert_sorted-All x (y ∷ ys) p h = elim (Bool-cases (le x y)) [
    | inl e ↦ unfold insert_sorted in rw e (p, h)
    | inr e ↦ unfold insert_sorted in rw e (h.0, insert_sorted-All x ys p h.1)
  ]

  pub sort_by-All : (xs : List A) → All P xs → All P (sort_by le xs)
  unfolding sort_by
  sort_by-All [] h = tt
  sort_by-All (x ∷ xs) h = insert_sorted-All x (sort_by le xs) h.0 (sort_by-All xs h.1)

-- `Vec::dedup`: an item goes if it equals the one before it.
module _ {ℓ} {A : Type ℓ} (eq : A → A → Bool) where
  abbrev pub dedup_after : A → List A → List A
  dedup_after p [] = []
  dedup_after p (x ∷ xs) = if eq p x then dedup_after p xs else x ∷ dedup_after x xs

  abbrev pub dedup : List A → List A
  dedup [] = []
  dedup (x ∷ xs) = x ∷ dedup_after x xs

-- Each item is in order with all later ones.
abbrev pub SortedBy {ℓ} : {A : Type ℓ} → (A → A → Bool) → List A → Type 0
SortedBy le [] = Unit
SortedBy le (x ∷ xs) = All (λ y. le x y ≡ true) xs × SortedBy le xs

-- A total preorder given by a test.
pub record IsTotalOrder {ℓ} {A : Type ℓ} (le : A → A → Bool) : Type ℓ where
  pub total : (x y : A) → le x y ≡ false → le y x ≡ true
  pub transitive : (x y z : A) → le x y ≡ true → le y z ≡ true → le x z ≡ true

module _ {ℓ} {A : Type ℓ} (le : A → A → Bool) (order : IsTotalOrder le) where
  pub insert_sorted-SortedBy :
      (x : A) (ys : List A) → SortedBy le ys → SortedBy le (insert_sorted le x ys)
  unfolding insert_sorted
  insert_sorted-SortedBy x [] h = (tt, tt)
  insert_sorted-SortedBy x (y ∷ ys) h = elim (Bool-cases (le x y)) [
    | inl e ↦
        unfold insert_sorted in
        rw e ((e, All-map _ _ ys (λ z yz. order.transitive x y z e yz) h.0), h)
    | inr e ↦
        unfold insert_sorted in
        rw e (
          insert_sorted-All le (λ z. le y z ≡ true) x ys (order.total x y e) h.0,
          insert_sorted-SortedBy x ys h.1,
        )
  ]

  pub sort_by-SortedBy : (xs : List A) → SortedBy le (sort_by le xs)
  unfolding sort_by
  sort_by-SortedBy [] = tt
  sort_by-SortedBy (x ∷ xs) = insert_sorted-SortedBy x (sort_by le xs) (sort_by-SortedBy xs)
