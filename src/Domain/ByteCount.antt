-- ===== src/Domain/ByteCount.antt =====
-- `ByteCount` of src/domain/types.rs: the constructors and their bound.
use cache_cleaner.Base.{ℕ, ◌*◌, ltb, if◌then◌else◌, Result, ok, err}
use cache_cleaner.Base.Text.{Text, codes}
use cache_cleaner.Domain.Types.{Outcome, returns, panics}

abbrev pub zero : ℕ
zero = 0

-- 10 GiB
abbrev pub max_safe : ℕ
max_safe = 10 * 1024 * 1024 * 1024

-- `ByteCount::new`, with its assertion
unfoldable pub new : ℕ → Outcome ℕ
new bytes = if ltb max_safe bytes then panics else returns bytes

unfoldable pub try_new : ℕ → Result Text ℕ
try_new bytes =
    if ltb max_safe bytes then err (codes "ByteCount exceeds 10GiB hard bound") else ok bytes
