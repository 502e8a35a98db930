-- ===== src/Base/Decimal.antt =====
-- `{}` of an unsigned number: its decimal digits, of which a u64 has at most 20.
use Prim.Native.Nat.{ℕ, zero, suc, ◌+◌, ◌-◌, ◌*◌, ◌/◌, ◌%◌, ◌<◌}
use mathlib.Core.Path.{◌≡◌, refl, sym, ap, ◌∙◌}
use mathlib.Core.Logic.{inl, inr}
use mathlib.Core.List.{[], ◌∷◌, ◌++◌}
use native.Mathlib.Omega.{arith}
use cache_cleaner.Base.Tests.{ltb, if◌then◌else◌, Bool-cases}
use cache_cleaner.Base.Text.{Text}

-- The digits of a number below 10 to the first argument.
unfoldable pub digits : ℕ → ℕ → Text
digits zero n = []
digits (suc k) n =
    let front = digits k (n / 10) in if ltb n 10 then (48 + n) ∷ [] else front ++ (48 + n % 10) ∷ []

abbrev pub decimal : ℕ → Text
decimal n = digits 20 n

-- The number that digits denote, behind those that were read.
read : ℕ → Text → ℕ
read acc [] = acc
read acc (c ∷ s) = read (acc * 10 + (c - 48)) s

read-append : (acc : ℕ) (s : Text) (c : ℕ) → read acc (s ++ c ∷ []) ≡ read acc s * 10 + (c - 48)
unfolding read
read-append acc [] c = refl
read-append acc (d ∷ s) c = read-append (acc * 10 + (d - 48)) s c

power : ℕ → ℕ
power zero = 1
power (suc k) = 10 * power k

read-digits : (k n : ℕ) → n < power k → read 0 (digits k n) ≡ n
unfolding digits read power
read-digits zero n lt = omega (arith, lt)
read-digits (suc k) n lt = elim (Bool-cases (ltb n 10)) [
  | inl small ↦ rw small (omega arith)
  | inr big ↦ rw big (
      rw
        (
          read-append 0 (digits k (n / 10)) (48 + n % 10),
          read-digits k (n / 10) (omega (arith, lt)),
        )
        (omega arith))
]

-- Numbers with the same digits are the same.
pub decimal-injective :
    (m n : ℕ)
    → m < 100000000000000000000
    → n < 100000000000000000000
    → decimal m ≡ decimal n
    → m ≡ n
unfolding power
decimal-injective m n hm hn e = sym (read-digits 20 m hm) ∙ (ap (read 0) e ∙ read-digits 20 n hn)
