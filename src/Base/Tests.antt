-- ===== src/Base/Tests.antt =====
-- Boolean tests on the native numbers, the conditional, and the splits on computed values.
use Prim.Native.Nat.{ℕ, compare, Ordering}
use mathlib.Core.Path.{◌≡◌, refl}
use mathlib.Core.Logic.{◌↔◌, ◌⊎◌, inl, inr}
use mathlib.Core.Bool.{Bool, true, false, ◌&&◌}
use mathlib.Core.Option.{Option, none, some}
use native.Mathlib.Omega.{arith}

abbrev pub ltb : ℕ → ℕ → Bool
ltb a b = elim (compare a b) [ Ordering.lt ↦ true | _ ↦ false ]

abbrev pub leb : ℕ → ℕ → Bool
leb a b = elim (compare a b) [ Ordering.gt ↦ false | _ ↦ true ]

infix 50 ◌==◌
abbrev pub ◌==◌ : ℕ → ℕ → Bool
a == b = elim (compare a b) [ Ordering.eq ↦ true | _ ↦ false ]

infix 1 if◌then◌else◌
abbrev pub if◌then◌else◌ {ℓ} : {A : Type ℓ} → Bool → A → A → A
if true then x else y = x
if false then x else y = y

pub ==_iff : (a b : ℕ) → ((a == b) ≡ true) ↔ (a ≡ b)
==_iff a b = ground arith

pub ==_refl : (a : ℕ) → (a == a) ≡ true
==_refl a = ground arith

pub Bool-cases : (b : Bool) → (b ≡ true) ⊎ (b ≡ false)
Bool-cases true = inl refl
Bool-cases false = inr refl

pub Option-cases {ℓ} : {A : Type ℓ} (o : Option A) → (o ≡ none) ⊎ ((a : A) × (o ≡ some a))
Option-cases none = inl refl
Option-cases (some a) = inr (a, refl)

pub and-true : (a b : Bool) → (a && b) ≡ true → (a ≡ true) × (b ≡ true)
and-true true b h = (refl, h)
and-true false b h = ground arith

-- A property of a match, by the property of its two arms.
module _ {ℓ κ} {B : Type ℓ} (P : B → Type κ) where
  pub by_bool : {x y : B} (b : Bool) → P x → P y → P (elim b [ true ↦ x | false ↦ y ])
  by_bool true hx hy = hx
  by_bool false hx hy = hy

  pub by_if : {x y : B} (b : Bool) → P x → P y → P (if b then x else y)
  by_if true hx hy = hx
  by_if false hx hy = hy

  pub by_option {μ} :
      {A : Type μ} {f : A → B} {y : B} (o : Option A)
      → ((a : A) → P (f a))
      → P y
      → P (elim o [ some a ↦ f a | none ↦ y ])
  by_option none hf hy = hy
  by_option (some a) hf hy = hf a

  -- The same, with the equation of the arm that is taken.
  pub by_bool_eq :
      {x y : B} (b : Bool)
      → (b ≡ true → P x)
      → (b ≡ false → P y)
      → P (elim b [ true ↦ x | false ↦ y ])
  by_bool_eq true hx hy = hx refl
  by_bool_eq false hx hy = hy refl

  pub by_if_eq :
      {x y : B} (b : Bool) → (b ≡ true → P x) → (b ≡ false → P y) → P (if b then x else y)
  by_if_eq true hx hy = hx refl
  by_if_eq false hx hy = hy refl

  pub by_option_eq {μ} :
      {A : Type μ} {f : A → B} {y : B} (o : Option A)
      → ((a : A) → o ≡ some a → P (f a))
      → (o ≡ none → P y)
      → P (elim o [ some a ↦ f a | none ↦ y ])
  by_option_eq none hf hy = hy refl
  by_option_eq (some a) hf hy = hf a refl
