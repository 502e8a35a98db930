-- ===== src/Cancellation.antt =====
-- src/engine/cancellation.rs: the cancellation token. Its two fields are atomics of their own, so
-- that an operation on it is a sequence of atomic steps, between which other threads may step.
pub mod Orders
pub mod FirstReason
use cache_cleaner.Base.{
  ℕ, Bool, true, false, Option, none, some, List, [], ◌∷◌, ◌==◌, if◌then◌else◌,
}

pub data CancelReason : Type 0 where
  screen_on user_activity thermal_critical battery_low unplugged : CancelReason
  shutdown timeout manual_cancel : CancelReason

unfoldable pub to_code : CancelReason → ℕ
to_code screen_on = 1
to_code user_activity = 2
to_code thermal_critical = 3
to_code battery_low = 4
to_code unplugged = 5
to_code shutdown = 6
to_code timeout = 7
to_code manual_cancel = 8

unfoldable pub from_code : ℕ → Option CancelReason
from_code code =
    if code == 1
    then some screen_on
    else if code == 2
    then some user_activity
    else if code == 3
    then some thermal_critical
    else if code == 4
    then some battery_low
    else if code == 5
    then some unplugged
    else if code == 6
    then some shutdown
    else if code == 7
    then some timeout
    else if code == 8
    then some manual_cancel
    else none

pub record CancellationToken : Type 0 where
  pub cancelled : Bool
  pub reason_code : ℕ

-- `CancellationToken::new`
abbrev pub new : CancellationToken
new = record { cancelled = false; reason_code = 0 }

-- One atomic access of a field
pub data Access : Type 0 where
  store_cancelled : Bool → Access
  -- compare_exchange from 0
  claim_code : ℕ → Access
  store_code : ℕ → Access

unfoldable pub access : CancellationToken → Access → CancellationToken
access t (store_cancelled b) = record t { cancelled = b }
access t (claim_code code) = if t.reason_code == 0 then record t { reason_code = code } else t
access t (store_code code) = record t { reason_code = code }

unfoldable pub accesses : CancellationToken → List Access → CancellationToken
accesses t [] = t
accesses t (a ∷ as_rest) = accesses (access t a) as_rest

-- `cancel_with_reason`, `cancel` and `reset` as the accesses that they make
unfoldable pub cancel_with_reason : CancelReason → List Access
cancel_with_reason reason = store_cancelled true ∷ claim_code (to_code reason) ∷ []

unfoldable pub cancel : List Access
unfolding cancel_with_reason
cancel = cancel_with_reason manual_cancel

unfoldable pub reset : List Access
reset = store_cancelled false ∷ store_code 0 ∷ []

-- `is_cancelled`
unfoldable pub is_cancelled : CancellationToken → Bool
is_cancelled t = t.cancelled

-- `get_cancel_reason`
unfoldable pub get_cancel_reason : CancellationToken → Option CancelReason
get_cancel_reason t = from_code t.reason_code
