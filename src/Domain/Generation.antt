-- ===== src/Domain/Generation.antt =====
-- `impl_generation!` of src/domain/types.rs
use cache_cleaner.Base.{ℕ, some, none, Result, ok, err}
use cache_cleaner.Base.Text.{Text, codes}
use cache_cleaner.Base.Word.{saturating_add, checked_add}

abbrev pub initial : ℕ
initial = 1

-- `next` of `impl_generation!`
unfoldable pub next : ℕ → Result Text ℕ
next g = elim (checked_add g 1) [
  | some g' ↦ ok g'
  | none ↦ err (codes "generation overflow — must fail closed, not saturate")
]

-- `next_saturating`
unfoldable pub next_saturating : ℕ → ℕ
next_saturating g = saturating_add g 1
