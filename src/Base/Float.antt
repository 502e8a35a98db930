-- ===== src/Base/Float.antt =====
-- f32 values, of which the code only compares sensor readings and limits with constants: a NaN,
-- a value below zero, or the number of whole millionths. Every constant is a whole number and an
-- f32 of that size has steps above a millionth, so that each comparison is that of the code.
use cache_cleaner.Base.Tests.{ltb, leb}
use Prim.Native.Nat.{ℕ, ◌*◌}
use mathlib.Core.Bool.{Bool, true, false}

pub data Float : Type 0 where
  nan : Float
  below_zero : ℕ → Float
  millionths : ℕ → Float

-- A whole positive number.
abbrev pub whole : ℕ → Float
whole n = millionths (n * 1000000)

-- The comparisons with a positive whole number; all are false at a NaN.
abbrev pub float_lt : Float → ℕ → Bool
float_lt nan k = false
float_lt (below_zero _) k = true
float_lt (millionths m) k = ltb m (k * 1000000)

abbrev pub float_le : Float → ℕ → Bool
float_le nan k = false
float_le (below_zero _) k = true
float_le (millionths m) k = leb m (k * 1000000)

abbrev pub float_ge : Float → ℕ → Bool
float_ge nan k = false
float_ge (below_zero _) k = false
float_ge (millionths m) k = leb (k * 1000000) m

abbrev pub float_gt : Float → ℕ → Bool
float_gt nan k = false
float_gt (below_zero _) k = false
float_gt (millionths m) k = ltb (k * 1000000) m
