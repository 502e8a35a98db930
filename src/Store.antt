-- ===== src/Store.antt =====
-- src/store/mod.rs: the SQLite store. The tables are lists of rows and each SQL statement is the
-- change that its text describes, with the constraints of src/store/schema.rs; a statement may
-- also fail for a reason outside the tables, and then changes nothing.
pub mod Codec
pub mod Counters
pub mod Registration
pub mod Leases
pub mod Exclusion
pub mod Effects
use cache_cleaner.Base.{
  ℕ, suc, ◌+◌, Bool, true, false, not, ◌&&◌, ◌||◌, Option, none, some, List, [], ◌∷◌, ◌++◌, map,
  any, ◌==◌, if◌then◌else◌, Result, ok, err,
}
use cache_cleaner.Base.Text.{Text, codes, text_eq}
use cache_cleaner.Base.Word.{wrapping_add}
use cache_cleaner.Domain.Types.{
  JobId, AttemptId, OperationId, PlanId, WorkerId, TargetId, FileIdentity, Generation,
  UnixTimestamp, ByteCount,
}
use cache_cleaner.Domain.Path.{PathText}
use cache_cleaner.Domain.Intent.{OperationIntent}
use cache_cleaner.Domain.Error.{CleanerError, storage}
use cache_cleaner.System.Os.{Os}
use cache_cleaner.System.World.{
  World, Act, call, Database, JobRow, AttemptRow, IntentRow, OperationRow, intent_committed,
  intent_updated, result_recorded,
}
use Codec.{mutation_text, intent_state_text, status_text, OperationStatus, OperationFinalResult}

-- Rows that a test picks are replaced.
abbrev pub update_where : {A : Type 0} → (A → Bool) → (A → A) → List A → List A
update_where p f [] = []
update_where p f (x ∷ xs) = (if p x then f x else x) ∷ update_where p f xs

-- Rows that a test picks are deleted.
abbrev pub delete_where : {A : Type 0} → (A → Bool) → List A → List A
delete_where p [] = []
delete_where p (x ∷ xs) = let rest = delete_where p xs in if p x then rest else x ∷ rest

abbrev pub select_where : {A : Type 0} → (A → Bool) → List A → List A
select_where p [] = []
select_where p (x ∷ xs) = let rest = select_where p xs in if p x then x ∷ rest else rest

abbrev pub has_job : Database → JobId → Bool
has_job db job = any (λ (r : JobRow). r.job_id == job) db.jobs

abbrev pub is_intent_of : AttemptId → OperationId → IntentRow → Bool
is_intent_of attempt op r = r.attempt_id == attempt && r.op_id == op

abbrev pub is_operation_of : JobId → OperationId → OperationRow → Bool
is_operation_of job op r = r.job_id == job && r.op_id == op

-- The INSERT of `commit_operation_intent`
unfoldable pub insert_intent : OperationIntent → Database → Result Text Database
insert_intent i db =
    if any (is_intent_of i.attempt_id i.op_id) db.intents
    then err (codes "UNIQUE constraint failed")
    else if not (has_job db i.job_id)
    then err (codes "FOREIGN KEY constraint failed")
    else ok (record db {
      intents =
          db.intents
          ++ record {
            intent_id = db.next_intent_id;
            job_id = i.job_id;
            attempt_id = i.attempt_id;
            op_id = i.op_id;
            target_id = i.target_id;
            rel_path = i.rel_path;
            expected_identity = i.expected_identity;
            estimated_bytes = i.estimated_bytes;
            mutation_type = mutation_text i.mutation_type;
            state = intent_state_text i.state;
            catalog_generation = i.catalog_generation;
            config_generation = i.config_generation;
            committed_at = i.committed_at;
            resolved_at = none;
          }
            ∷ [];
      next_intent_id = db.next_intent_id + 1;
    })

-- The UPDATE of `update_intent_state`
unfoldable pub set_intent_state :
    AttemptId → OperationId → Text → UnixTimestamp → Database → Database
set_intent_state attempt op state now db = record db {
  intents =
      update_where (is_intent_of attempt op)
        (λ r. record r { state = state; resolved_at = some now }) db.intents;
}

-- The INSERT OR REPLACE of `record_operation_result`
unfoldable pub put_operation : OperationRow → Database → Result Text Database
put_operation r db =
    if not (has_job db r.job_id)
    then err (codes "FOREIGN KEY constraint failed")
    else ok (record db {
      operations = delete_where (is_operation_of r.job_id r.op_id) db.operations ++ r ∷ [];
    })

abbrev pub operation_row :
    JobId
    → PlanId
    → TargetId
    → Text
    → PathText
    → FileIdentity
    → ByteCount
    → OperationFinalResult
    → OperationRow
operation_row job plan target op_type path identity bytes result = record {
  job_id = job;
  op_id = result.op_id;
  plan_id = plan;
  target_id = target;
  op_type = op_type;
  rel_path = path;
  expected_identity = identity;
  estimated_bytes = bytes;
  status = status_text result.status;
  reclaimed_bytes = result.reclaimed_bytes;
  executed_at = result.executed_at;
}

module _ (os : Os) where
  open os use {State}

  -- One statement: it fails, or changes the tables.
  unfoldable pub sql :
      (Database → Result Text Database) → Act State (Result CleanerError (Unit {0}))
  sql statement w =
      let (fault, w') = call os.sql_fault w in
      elim fault [
        | some e ↦ (err (storage e), w')
        | none ↦ elim (statement w'.db) [
          | err e ↦ (err (storage e), w')
          | ok db ↦ (ok tt, record w' { db = db })
        ]
      ]

  -- `commit_operation_intent`, without the row's id that its callers ignore
  unfoldable pub commit_operation_intent :
      OperationIntent → Act State (Result CleanerError (Unit {0}))
  commit_operation_intent i w =
      let (r, w') = sql (insert_intent i) w in
      elim r [
        | err e ↦ (err e, w')
        | ok _ ↦ (ok tt, record w' { log = w'.log ++ intent_committed i.attempt_id i.op_id ∷ [] })
      ]

  -- `update_intent_state`
  unfoldable pub update_intent_state :
      AttemptId → OperationId → Text → Act State (Result CleanerError (Unit {0}))
  update_intent_state attempt op state w =
      let (now, w₁) = call os.unix_now w in
      let (r, w₂) = sql (λ db. ok (set_intent_state attempt op state now db)) w₁ in
      elim r [
        | err e ↦ (err e, w₂)
        | ok _ ↦ (ok tt, record w₂ { log = w₂.log ++ intent_updated attempt op state ∷ [] })
      ]

  -- `record_operation_result`; the error text of the row is left out
  unfoldable pub record_operation_result :
      JobId
      → PlanId
      → TargetId
      → Text
      → PathText
      → FileIdentity
      → ByteCount
      → OperationFinalResult
      → Act State (Result CleanerError (Unit {0}))
  record_operation_result job plan target op_type path identity bytes result w =
      let row = operation_row job plan target op_type path identity bytes result in
      let (r, w') = sql (put_operation row) w in
      elim r [
        | err e ↦ (err e, w')
        | ok _ ↦ (ok tt, record w' { log = w'.log ++ result_recorded job result.op_id ∷ [] })
      ]

  -- `update_attempt_state`
  unfoldable pub update_attempt_state :
      AttemptId → Text → Act State (Result CleanerError (Unit {0}))
  update_attempt_state attempt state w =
      let (now, w') = call os.unix_now w in
      sql
        (λ db. ok (record db {
          attempts =
              update_where (λ (r : AttemptRow). r.attempt_id == attempt)
                (λ r. record r { state = state; finished_at = some now }) db.attempts;
        }))
        w'

  -- `update_job_state`
  unfoldable pub update_job_state :
      JobId → Text → ByteCount → Act State (Result CleanerError (Unit {0}))
  update_job_state job state total w =
      let (now, w') = call os.unix_now w in
      sql
        (λ db. ok (record db {
          jobs =
              update_where (λ (r : JobRow). r.job_id == job)
                (λ r. record r { state = state; total_reclaimed_bytes = total; updated_at = now })
                db.jobs;
        }))
        w'

  -- `register_job`: INSERT, or on a conflict the new time only
  unfoldable pub register_job :
      JobId → Text → Generation → Generation → Act State (Result CleanerError (Unit {0}))
  register_job job job_type catalog config w =
      let (now, w') = call os.unix_now w in
      sql
        (λ db. ok (
          if has_job db job
          then record db {
            jobs =
                update_where (λ (r : JobRow). r.job_id == job) (λ r. record r { updated_at = now })
                  db.jobs;
          }
          else record db {
            jobs =
                db.jobs
                ++ record {
                  job_id = job;
                  job_type = job_type;
                  state = codes "ADMITTED";
                  catalog_generation = catalog;
                  config_generation = config;
                  total_estimated_bytes = 0;
                  total_reclaimed_bytes = 0;
                  created_at = now;
                  updated_at = now;
                }
                  ∷ [];
          }))
        w'

  -- `create_attempt`
  unfoldable pub create_attempt :
      AttemptId → JobId → WorkerId → ℕ → Act State (Result CleanerError (Unit {0}))
  create_attempt attempt job worker lease_secs w =
      let (now, w') = call os.unix_now w in
      sql
        (λ db.
          if any (λ (r : AttemptRow). r.attempt_id == attempt) db.attempts
          then ok (record db {
            attempts =
                update_where (λ (r : AttemptRow). r.attempt_id == attempt)
                  (λ r. record r {
                    state = codes "RUNNING";
                    lease_expires_at = wrapping_add now lease_secs;
                  })
                  db.attempts;
          })
          else if not (has_job db job)
          then err (codes "FOREIGN KEY constraint failed")
          else ok (record db {
            attempts =
                db.attempts
                ++ record {
                  attempt_id = attempt;
                  job_id = job;
                  worker_id = worker;
                  state = codes "RUNNING";
                  lease_expires_at = wrapping_add now lease_secs;
                  started_at = now;
                  finished_at = none;
                }
                  ∷ [];
          }))
        w'
