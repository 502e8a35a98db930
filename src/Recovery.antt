-- ===== src/Recovery.antt =====
-- src/recovery/mod.rs: the reconciliation of interrupted attempts at startup.
pub mod Verified
use cache_cleaner.Base.{
  ℕ, ◌+◌, Bool, true, false, not, ◌&&◌, Option, none, some, List, [], ◌∷◌, map, leb, ◌==◌,
  if◌then◌else◌, Result, ok, err,
}
use cache_cleaner.Base.Text.{Text, codes, text_eq}
use cache_cleaner.Base.Sort.{sort_by}
use cache_cleaner.Base.Word.{saturating_add}
use cache_cleaner.Base.Assoc.{lookup}
use cache_cleaner.Domain.Types.{JobId, AttemptId, ByteCount}
use cache_cleaner.Domain.Path.{PathText, parse}
use cache_cleaner.Domain.Target.{TargetDescriptor}
use cache_cleaner.Domain.Error.{CleanerError, storage}
use cache_cleaner.System.Os.{Os}
use cache_cleaner.System.World.{World, Act, call, Database, AttemptRow, IntentRow}
use cache_cleaner.Verifier.Outcome.{
  VerificationOutcome, confirmed_deleted, already_gone, still_present, identity_mismatch,
}
use cache_cleaner.Verifier.Check.{verify_operation_postcondition}
use cache_cleaner.Store.{
  select_where, update_intent_state, record_operation_result, update_attempt_state,
  update_job_state,
}
use cache_cleaner.Store.Codec.{
  OperationStatus, OperationFinalResult, success, failed, skipped, unfinished_mutation,
  post_crash_outcome, mutation_text, parse_mutation,
}

-- What an outcome means for an intent: the state it gets, the status that is recorded, whether it
-- is deleted, and whether it is unknown.
pub record Judgement : Type 0 where
  pub state : Text
  pub status : OperationStatus
  pub is_deleted : Bool
  pub is_unknown : Bool

-- The match on the outcome
unfoldable pub judge : VerificationOutcome → Judgement
judge confirmed_deleted = record {
  state = codes "VERIFIED_SUCCESS";
  status = success;
  is_deleted = true;
  is_unknown = false;
}
judge already_gone = record {
  state = codes "VERIFIED_SUCCESS";
  status = success;
  is_deleted = true;
  is_unknown = false;
}
judge still_present = record {
  state = codes "VERIFIED_FAILED";
  status = failed (unfinished_mutation still_present);
  is_deleted = false;
  is_unknown = false;
}
judge identity_mismatch = record {
  state = codes "VERIFIED_FAILED";
  status = failed (unfinished_mutation identity_mismatch);
  is_deleted = false;
  is_unknown = false;
}
judge outcome = record {
  state = codes "RESOLVED_UNKNOWN";
  status = skipped (post_crash_outcome outcome);
  is_deleted = false;
  is_unknown = true;
}

-- The variables of the loop over the intents.
pub record Tally : Type 0 where
  pub total_reclaimed : ByteCount
  pub all_succeeded : Bool
  pub has_unknown : Bool

abbrev pub empty_tally : Tally
empty_tally = record { total_reclaimed = 0; all_succeeded = true; has_unknown = false }

abbrev pub count_judgement : Judgement → ByteCount → Tally → Tally
count_judgement j bytes t = record {
  total_reclaimed =
      if j.is_deleted then saturating_add t.total_reclaimed bytes else t.total_reclaimed;
  all_succeeded = if j.is_deleted then t.all_succeeded else false;
  has_unknown = if j.is_unknown then true else t.has_unknown;
}

-- The path of an intent as it is read back
abbrev pub stored_path : IntentRow → PathText
stored_path i = elim (parse i.rel_path) [ some p ↦ p | none ↦ [] ]

module _ (os : Os) where
  open os use {State}

  -- A read of the tables
  unfoldable pub query : {A : Type 0} → (Database → A) → Act State (Result CleanerError A)
  query read w =
      let (fault, w') = call os.sql_fault w in
      elim fault [ some e ↦ (err (storage e), w') | none ↦ (ok (read w'.db), w') ]

  -- `get_uncompleted_attempts`
  unfoldable pub get_uncompleted_attempts : Act State (Result CleanerError (List AttemptRow))
  get_uncompleted_attempts =
      query (λ db. select_where (λ (r : AttemptRow). text_eq r.state (codes "RUNNING")) db.attempts)

  -- `get_operation_intents_for_attempt`: the rows in the order of their ids
  unfoldable pub get_operation_intents_for_attempt :
      AttemptId → Act State (Result CleanerError (List IntentRow))
  get_operation_intents_for_attempt attempt = query (λ db.
      sort_by (λ (a b : IntentRow). leb a.intent_id b.intent_id)
        (select_where (λ (r : IntentRow). r.attempt_id == attempt) db.intents))

  -- The body of the loop over the intents. Errors of the store are ignored here.
  unfoldable pub reconcile_intent :
      List (Text × TargetDescriptor) → AttemptId → JobId → IntentRow → Tally → Act State Tally
  reconcile_intent targets attempt job i t w = elim (lookup i.target_id targets) [
    | none ↦
        let (_r, w₁) = update_intent_state os attempt i.op_id (codes "RESOLVED_UNKNOWN") w in
        (record t { all_succeeded = false; has_unknown = true }, w₁)
    | some target ↦
        let (outcome, w₁) =
          verify_operation_postcondition os target.base_path (stored_path i) i.expected_identity
            w in
        let j = judge outcome in
        let (_r, w₂) = update_intent_state os attempt i.op_id j.state w₁ in
        let (now, w₃) = call os.unix_now w₂ in
        let result : OperationFinalResult = record {
          op_id = i.op_id;
          status = j.status;
          reclaimed_bytes = if j.is_deleted then i.estimated_bytes else 0;
          executed_at = now;
        } in
        let (_s, w₄) =
          record_operation_result os job 1 i.target_id
            (mutation_text (parse_mutation i.mutation_type)) (stored_path i) i.expected_identity
            i.estimated_bytes result w₃ in
        (count_judgement j i.estimated_bytes t, w₄)
  ]

  unfoldable pub reconcile_intents :
      List (Text × TargetDescriptor) → AttemptId → JobId → List IntentRow → Tally → Act State Tally
  reconcile_intents targets attempt job [] t w = (t, w)
  reconcile_intents targets attempt job (i ∷ is) t w =
      let (t', w') = reconcile_intent targets attempt job i t w in
      reconcile_intents targets attempt job is t' w'

  -- The states after the loop
  abbrev pub attempt_verdict : Tally → Text
  attempt_verdict t =
      if t.all_succeeded
      then codes "RECONCILED"
      else if t.has_unknown
      then codes "UNRESOLVED"
      else codes "FAILED"

  abbrev pub job_verdict : Tally → Text
  job_verdict t =
      if t.all_succeeded
      then codes "RECOVERED"
      else if t.has_unknown
      then codes "PARTIALLY_RECONCILED"
      else codes "FAILED"

  -- The body of the loop over the attempts: whether the attempt counts as fully recovered
  unfoldable pub reconcile_attempt :
      List (Text × TargetDescriptor) → AttemptRow → Act State (Result CleanerError Bool)
  reconcile_attempt targets a w =
      let (read, w₁) = get_operation_intents_for_attempt a.attempt_id w in
      elim read [
        | err e ↦ (err e, w₁)
        | ok intents ↦
            let (t, w₂) = reconcile_intents targets a.attempt_id a.job_id intents empty_tally w₁ in
            let (r, w₃) = update_attempt_state os a.attempt_id (attempt_verdict t) w₂ in
            elim r [
              | err e ↦ (err e, w₃)
              | ok _ ↦
                  let (s, w₄) = update_job_state os a.job_id (job_verdict t) t.total_reclaimed w₃ in
                  elim s [ err e ↦ (err e, w₄) | ok _ ↦ (ok t.all_succeeded, w₄) ]
            ]
      ]

  unfoldable pub reconcile_attempts :
      List (Text × TargetDescriptor) → List AttemptRow → ℕ → Act State (Result CleanerError ℕ)
  reconcile_attempts targets [] count w = (ok count, w)
  reconcile_attempts targets (a ∷ as_rest) count w =
      let (r, w') = reconcile_attempt targets a w in
      elim r [
        | err e ↦ (err e, w')
        | ok counted ↦ reconcile_attempts targets as_rest (if counted then count + 1 else count) w'
      ]

  -- `reconcile_startup_crashes`, with the targets of the catalog's snapshot
  unfoldable pub reconcile_startup_crashes :
      List (Text × TargetDescriptor) → Act State (Result CleanerError ℕ)
  reconcile_startup_crashes targets w =
      let (r, w') = get_uncompleted_attempts w in
      elim r [ err e ↦ (err e, w') | ok attempts ↦ reconcile_attempts targets attempts 0 w' ]
