-- ===== src/Domain/Types.antt =====
-- src/domain/types.rs: identifiers, generations, byte counts, timestamps, file identities.
-- The one-field structs over u64 and u32 are the numbers themselves.
use cache_cleaner.Base.{ℕ, ◌≡◌, Bool, true, ◌&&◌, ◌==◌, arith}
use cache_cleaner.Base.Text.{Text}
use cache_cleaner.Base.Word.{saturating_sub}

abbrev pub JobId : Type 0
JobId = ℕ

abbrev pub AttemptId : Type 0
AttemptId = ℕ

abbrev pub OperationId : Type 0
OperationId = ℕ

abbrev pub PlanId : Type 0
PlanId = ℕ

abbrev pub WorkerId : Type 0
WorkerId = ℕ

abbrev pub GrantId : Type 0
GrantId = ℕ

abbrev pub Generation : Type 0
Generation = ℕ

abbrev pub UnixTimestamp : Type 0
UnixTimestamp = ℕ

abbrev pub ByteCount : Type 0
ByteCount = ℕ

-- A validated text.
abbrev pub TargetId : Type 0
TargetId = Text

-- What a function that may panic does: `fault` stands for the panic.
pub data Outcome {ℓ} (A : Type ℓ) : Type ℓ where
  returns : A → Outcome A
  panics : Outcome A

-- `age_secs`
unfoldable pub age_secs : UnixTimestamp → UnixTimestamp → ℕ
age_secs self now = saturating_sub now self

pub record FileIdentity : Type 0 where
  pub dev : ℕ
  pub ino : ℕ

abbrev pub identity_eq : FileIdentity → FileIdentity → Bool
identity_eq a b = a.dev == b.dev && a.ino == b.ino

pub identity_eq-eq : (a b : FileIdentity) → identity_eq a b ≡ true → a ≡ b
identity_eq-eq a b h = ground arith
