-- ===== src/Verifier/Outcome.antt =====
-- `VerificationOutcome` of src/verifier/mod.rs
use cache_cleaner.Base.{Bool, true, false}

pub data VerificationOutcome : Type 0 where
  confirmed_deleted already_gone still_present identity_mismatch : VerificationOutcome
  parent_unavailable target_unavailable stale unknown : VerificationOutcome

unfoldable pub is_successful_deletion : VerificationOutcome → Bool
is_successful_deletion confirmed_deleted = true
is_successful_deletion already_gone = true
is_successful_deletion _ = false
