-- ===== src/Domain/Decision.antt =====
-- src/domain/decision.rs
use cache_cleaner.Base.{ℕ, Bool, true, false}
use cache_cleaner.Base.Text.{Text}
use cache_cleaner.Domain.Types.{UnixTimestamp}
use cache_cleaner.Domain.Target.{Validated}

pub data DecisionReason : Type 0 where
  exceeds_retention_age storage_pressure_threshold within_retention_grace_period : DecisionReason
  package_whitelisted protected_bytecode target_is_read_only budget_exceeded : DecisionReason
  category_disabled : DecisionReason
  rule_match : Text → DecisionReason

pub record PolicyPermit : Type 0 where
  pub candidate : Validated
  pub priority : ℕ
  pub reason : DecisionReason
  pub decided_at : UnixTimestamp

-- `PolicyDeny` and `PolicySkip` have the same fields.
pub record PolicyDeny : Type 0 where
  pub candidate : Validated
  pub reason : DecisionReason
  pub decided_at : UnixTimestamp

pub data PolicyDecision : Type 0 where
  allow : PolicyPermit → PolicyDecision
  deny skip : PolicyDeny → PolicyDecision

unfoldable pub is_allowed : PolicyDecision → Bool
is_allowed (allow _) = true
is_allowed _ = false

unfoldable pub is_denied : PolicyDecision → Bool
is_denied (deny _) = true
is_denied _ = false
