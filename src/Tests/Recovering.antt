-- ===== src/Tests/Recovering.antt =====
-- Settling, leases, recovery, paths and cancellation at concrete inputs.
use cache_cleaner.Base.{
  ◌≡◌, ◌↔◌, ◌≤◌, ◌⊎◌, Exists, refl, true, false, none, some, List, [], ◌∷◌, ◌++◌, All,
  if◌then◌else◌, Result, ok, err, is_ok,
}
use cache_cleaner.Base.Sort.{sort_by}
use cache_cleaner.Base.Text.{Text, codes, byte_len}
use cache_cleaner.Base.Assoc.{lookup}
use cache_cleaner.Domain.Path.{is_absolute, components, count_normal, parse}
use cache_cleaner.Domain.Containment.{IsName, parse-descends}
use cache_cleaner.Domain.Intent.{verified_success}
use cache_cleaner.Domain.Error.{CleanerError, json}
use cache_cleaner.System.World.{World, AttemptRow, IntentRow}
use cache_cleaner.System.Handle.{open_root, finish_open, stat_child}
use cache_cleaner.Verifier.Outcome.{already_gone, is_successful_deletion}
use cache_cleaner.Verifier.Check.{
  outcome_of_stat, verify_with_parent_handle, verify_below, verify_operation_postcondition,
}
use cache_cleaner.Store.{
  sql, set_intent_state, put_operation, update_intent_state, record_operation_result,
  update_attempt_state, update_job_state,
}
use cache_cleaner.Store.Codec.{success, status_text, mutation_text, parse_mutation}
use cache_cleaner.Executor.Deletion.{settle}
use cache_cleaner.Executor.Settling.{settle_iff}
use cache_cleaner.Recovery.{
  judge, query, get_operation_intents_for_attempt, reconcile_intent, reconcile_intents,
  reconcile_attempt,
}
use cache_cleaner.Recovery.Verified.{IsVerified, reconcile_attempt-IsVerified}
use cache_cleaner.Cancellation.{
  CancelReason, cancel_with_reason, screen_on, shutdown, to_code, new, claim_code, store_cancelled,
  accesses, is_cancelled, get_cancel_reason,
}
use cache_cleaner.Cancellation.Orders.{Cancels, nobody, thread, none_left, left, right}
use cache_cleaner.Cancellation.FirstReason.{first_reason_wins}
use cache_cleaner.Tests.Kernel.{kernel, catalog, database, world, file_identity}

abbrev deletion_error : Result CleanerError (Unit {0})
deletion_error = err json

settle_iff_example :
    (((settle 100 deletion_error already_gone).status ≡ success)
      ↔ (is_successful_deletion already_gone ≡ true))
    × ((((settle 100 deletion_error already_gone).intent_state ≡ verified_success)
          ↔ (is_successful_deletion already_gone ≡ true))
        × ((settle 100 deletion_error already_gone).reclaimed ≡ (
            if is_successful_deletion already_gone
            then some (if is_ok deletion_error then 100 else 0)
            else none)))
settle_iff_example = settle_iff 100 deletion_error already_gone

abbrev interrupted : AttemptRow
interrupted = record {
  attempt_id = 9;
  job_id = 5;
  worker_id = 1;
  state = codes "RUNNING";
  lease_expires_at = 1300;
  started_at = 990;
  finished_at = none;
}

-- The intent of a file that is gone.
abbrev intent : IntentRow
intent = record {
  intent_id = 1;
  job_id = 5;
  attempt_id = 9;
  op_id = 1;
  target_id = codes "app";
  rel_path = codes "gone.tmp";
  expected_identity = file_identity;
  estimated_bytes = 100;
  mutation_type = codes "DELETE_FILE";
  state = codes "MUTATING";
  catalog_generation = 4;
  config_generation = 6;
  committed_at = 990;
  resolved_at = none;
}

abbrev crashed_world : World (List Text)
crashed_world = record world {
  db = record database { attempts = interrupted ∷ []; intents = intent ∷ [] };
}

recovered : (reconcile_attempt kernel catalog.targets interrupted crashed_world).0 ≡ ok true
unfolding reconcile_attempt get_operation_intents_for_attempt query update_attempt_state sql
    update_job_state reconcile_intents sort_by reconcile_intent lookup judge
    verify_operation_postcondition open_root finish_open components parse count_normal verify_below
    mutation_text parse_mutation status_text put_operation record_operation_result set_intent_state
    update_intent_state stat_child outcome_of_stat verify_with_parent_handle
recovered = refl

reconcile_attempt-IsVerified_example :
    (intents : List IntentRow) × (((get_operation_intents_for_attempt kernel 9 crashed_world).0
        ≡ ok intents)
      × All (IsVerified kernel catalog.targets) intents)
reconcile_attempt-IsVerified_example =
    reconcile_attempt-IsVerified kernel catalog.targets interrupted crashed_world recovered

parsed : parse (codes "cache/a.tmp") ≡ some (codes "cache/a.tmp")
unfolding parse components count_normal
parsed = refl

parse-descends_example :
    (codes "cache/a.tmp" ≡ codes "cache/a.tmp")
    × ((byte_len (codes "cache/a.tmp") ≤ 4096)
        × ((is_absolute (codes "cache/a.tmp") ≡ false)
            × All IsName (components (codes "cache/a.tmp"))))
parse-descends_example = parse-descends (codes "cache/a.tmp") (codes "cache/a.tmp") parsed

-- Both threads set the flag before one of them claims its reason.
two_cancel : Cancels (screen_on ∷ shutdown ∷ []) (
    (store_cancelled true ∷ store_cancelled true ∷ [])
    ++ claim_code (to_code screen_on) ∷ claim_code (to_code shutdown) ∷ [])
unfolding cancel_with_reason
two_cancel =
    thread screen_on (shutdown ∷ []) (cancel_with_reason shutdown) _
      (thread shutdown [] [] _ nobody (left _ _ _ _ (left _ _ _ _ none_left)))
      (left _ _ _ _ (right _ _ _ _ (left _ _ _ _ (right _ _ _ _ none_left))))

first_reason_wins_example :
    let before = store_cancelled true ∷ store_cancelled true ∷ [] in
    let all = before ++ claim_code (to_code screen_on) ∷ claim_code (to_code shutdown) ∷ [] in
    (reason : CancelReason) × (Exists (λ q. reason ≡ q) (screen_on ∷ shutdown ∷ [])
      × (get_cancel_reason (accesses new all) ≡ some reason)
      × (is_cancelled (accesses new all) ≡ true)
      × ((get_cancel_reason (accesses new before) ≡ none)
          ⊎ ((get_cancel_reason (accesses new before) ≡ some reason)
              × (is_cancelled (accesses new before) ≡ true))))
first_reason_wins_example =
    first_reason_wins screen_on (shutdown ∷ []) (store_cancelled true ∷ store_cancelled true ∷ [])
      (claim_code (to_code screen_on) ∷ claim_code (to_code shutdown) ∷ []) two_cancel
