-- ===== src/Executor/Settling.antt =====
-- When a deletion of `execute_plan` counts as a success, and with how many bytes.
use cache_cleaner.Base.{◌≡◌, ◌↔◌, true, some, none, if◌then◌else◌, Result, is_ok, arith}
use cache_cleaner.Domain.Types.{ByteCount}
use cache_cleaner.Domain.Intent.{verified_success}
use cache_cleaner.Domain.Error.{CleanerError}
use cache_cleaner.Verifier.Outcome.{VerificationOutcome, is_successful_deletion}
use cache_cleaner.Store.Codec.{success}
use cache_cleaner.Executor.Deletion.{settle}

module _ (size : ByteCount) (deleted : Result CleanerError (Unit {0}))
    (outcome : VerificationOutcome) where
  -- The status of a deletion and its intent say success exactly if the verifier found the name
  -- gone, whatever the deletion itself returned; the bytes then count if the deletion returned
  -- no error, and nothing is counted as reclaimed in any other case.
  pub settle_iff :
      (((settle size deleted outcome).status ≡ success) ↔ (is_successful_deletion outcome ≡ true))
      × ((((settle size deleted outcome).intent_state ≡ verified_success)
            ↔ (is_successful_deletion outcome ≡ true))
          × ((settle size deleted outcome).reclaimed ≡ (
              if is_successful_deletion outcome
              then some (if is_ok deleted then size else 0)
              else none)))
  unfolding settle is_successful_deletion
  settle_iff = ground arith
