-- ===== src/Domain/Job.antt =====
-- src/domain/job.rs: the job's state machine and the attempt record with compare-and-swap.
use cache_cleaner.Base.{
  ℕ, Bool, true, false, not, Option, none, some, ◌==◌, if◌then◌else◌, Result, ok, err,
}
use cache_cleaner.Base.Text.{Text}
use cache_cleaner.Base.Word.{wrapping_add}
use cache_cleaner.Domain.Types.{JobId, AttemptId, PlanId, Generation, UnixTimestamp}

pub data JobState : Type 0 where
  pending queued admitted preparing scanning planning awaiting_authorization authorized : JobState
  waiting_resources executing verifying reconciling completed : JobState
  failed aborted cancelled timed_out recovery_required stale : Text → JobState

unfoldable pub is_terminal : JobState → Bool
is_terminal completed = true
is_terminal (failed _) = true
is_terminal (aborted _) = true
is_terminal (cancelled _) = true
is_terminal (timed_out _) = true
is_terminal (recovery_required _) = true
is_terminal (stale _) = true
is_terminal _ = false

-- The last arms of the match, `(_, next) if !self.is_terminal()`.
unfoldable pub escapes_to : JobState → JobState → Bool
unfolding is_terminal
escapes_to self (cancelled _) = not (is_terminal self)
escapes_to self (timed_out _) = not (is_terminal self)
escapes_to self (stale _) = not (is_terminal self)
escapes_to self (recovery_required _) = not (is_terminal self)
escapes_to self _ = false

unfoldable pub can_transition_to : JobState → JobState → Bool
unfolding escapes_to
can_transition_to pending queued = true
can_transition_to pending admitted = true
can_transition_to pending (failed _) = true
can_transition_to pending (aborted _) = true
can_transition_to pending (cancelled _) = true
can_transition_to queued admitted = true
can_transition_to queued (failed _) = true
can_transition_to queued (aborted _) = true
can_transition_to admitted preparing = true
can_transition_to admitted scanning = true
can_transition_to admitted (failed _) = true
can_transition_to admitted (aborted _) = true
can_transition_to preparing scanning = true
can_transition_to preparing (failed _) = true
can_transition_to scanning planning = true
can_transition_to scanning (failed _) = true
can_transition_to scanning (aborted _) = true
can_transition_to planning awaiting_authorization = true
can_transition_to planning authorized = true
can_transition_to planning completed = true
can_transition_to planning (failed _) = true
can_transition_to planning (aborted _) = true
can_transition_to awaiting_authorization authorized = true
can_transition_to awaiting_authorization (failed _) = true
can_transition_to authorized waiting_resources = true
can_transition_to authorized executing = true
can_transition_to authorized (failed _) = true
can_transition_to authorized (aborted _) = true
can_transition_to waiting_resources executing = true
can_transition_to waiting_resources (failed _) = true
can_transition_to executing verifying = true
can_transition_to executing reconciling = true
can_transition_to executing (failed _) = true
can_transition_to executing (aborted _) = true
can_transition_to verifying completed = true
can_transition_to verifying reconciling = true
can_transition_to verifying (failed _) = true
can_transition_to verifying (aborted _) = true
can_transition_to verifying (recovery_required _) = true
can_transition_to reconciling completed = true
can_transition_to reconciling (failed _) = true
can_transition_to reconciling (recovery_required _) = true
can_transition_to self next = escapes_to self next

pub record JobAttempt : Type 0 where
  pub attempt_id : AttemptId
  pub job_id : JobId
  pub attempt_number : ℕ
  pub started_at : UnixTimestamp
  pub finished_at : Option UnixTimestamp
  pub state : JobState
  pub state_version : ℕ
  pub catalog_generation : Generation
  pub config_generation : Generation
  pub plan_id : Option PlanId

-- `new_with_generations`, at the time `now`
unfoldable pub new_with_generations :
    UnixTimestamp → AttemptId → JobId → ℕ → Generation → Generation → JobAttempt
new_with_generations now attempt job number catalog config = record {
  attempt_id = attempt;
  job_id = job;
  attempt_number = number;
  started_at = now;
  finished_at = none;
  state = pending;
  state_version = 1;
  catalog_generation = catalog;
  config_generation = config;
  plan_id = none;
}

-- The two messages of `transition_with_cas`.
pub data TransitionError : Type 0 where
  cas_failed : AttemptId → ℕ → ℕ → TransitionError
  illegal : JobState → JobState → AttemptId → TransitionError

-- `transition_with_cas`, at the time `now`
unfoldable pub transition_with_cas :
    UnixTimestamp → JobAttempt → JobState → ℕ → JobAttempt × Result TransitionError (Unit {0})
unfolding can_transition_to
transition_with_cas now a next expected =
    if not (a.state_version == expected)
    then (a, err (cas_failed a.attempt_id expected a.state_version))
    else if can_transition_to a.state next
    then (
      record a {
        finished_at = if is_terminal next then some now else a.finished_at;
        state = next;
        state_version = wrapping_add a.state_version 1;
      },
      ok tt,
    )
    else (a, err (illegal a.state next a.attempt_id))

-- `transition_to`
unfoldable pub transition_to :
    UnixTimestamp → JobAttempt → JobState → JobAttempt × Result TransitionError (Unit {0})
unfolding transition_with_cas
transition_to now a next = transition_with_cas now a next a.state_version
