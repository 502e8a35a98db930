-- ===== src/Scheduler.antt =====
-- src/scheduler/mod.rs: the admission of jobs into a queue of one slot. The queue's mutex is held
-- over the whole of each operation, so that an operation is one step on the state.
pub mod Queue
pub mod Fresh
pub mod Coalescing
use cache_cleaner.Base.{
  ℕ, Bool, ◌&&◌, ◌||◌, Option, none, some, List, [], ◌∷◌, ◌++◌, length, Result, ok, err,
}
use cache_cleaner.Base.Text.{Text, codes}
use cache_cleaner.Base.Word.{wrapping_add}
use cache_cleaner.Domain.Types.{JobId, Generation, UnixTimestamp}
use cache_cleaner.Domain.Error.{CleanerError}
use cache_cleaner.System.Os.{Os}
use cache_cleaner.System.World.{World, Act, call}
use cache_cleaner.Store.{register_job}
use cache_cleaner.Store.Counters.{get_max_job_id}

abbrev pub max_queued_jobs : ℕ
max_queued_jobs = 1

pub data TriggerSource : Type 0 where
  manual_ipc screen_off deep_idle memory_pressure_psi periodic_maintenance : TriggerSource

-- `{:?}` of the source
abbrev pub source_text : TriggerSource → Text
source_text manual_ipc = codes "ManualIpc"
source_text screen_off = codes "ScreenOff"
source_text deep_idle = codes "DeepIdle"
source_text memory_pressure_psi = codes "MemoryPressurePsi"
source_text periodic_maintenance = codes "PeriodicMaintenance"

pub record JobAdmissionRequest : Type 0 where
  pub job_id : JobId
  pub source : TriggerSource
  pub deep : Bool
  pub trim : Bool
  pub dry_run : Bool
  pub catalog_generation : Generation
  pub config_generation : Generation
  pub admitted_at : UnixTimestamp

pub record SchedulerService : Type 0 where
  pub queue : List JobAdmissionRequest
  pub job_counter : ℕ

-- The arguments of `admit_job`.
pub record Trigger : Type 0 where
  pub source : TriggerSource
  pub deep : Bool
  pub trim : Bool
  pub dry_run : Bool
  pub catalog_gen : Generation
  pub config_gen : Generation

-- A trigger joins the request at the front.
unfoldable pub coalesce : Trigger → JobAdmissionRequest → JobAdmissionRequest
coalesce t existing = record existing {
  deep = existing.deep || t.deep;
  trim = existing.trim || t.trim;
  dry_run = existing.dry_run && t.dry_run;
}

unfoldable pub request_of : Trigger → JobId → UnixTimestamp → JobAdmissionRequest
request_of t id now = record {
  job_id = id;
  source = t.source;
  deep = t.deep;
  trim = t.trim;
  dry_run = t.dry_run;
  catalog_generation = t.catalog_gen;
  config_generation = t.config_gen;
  admitted_at = now;
}

-- `pop_next_job`
unfoldable pub pop_next_job : SchedulerService → Option JobAdmissionRequest × SchedulerService
pop_next_job s = elim s.queue [ [] ↦ (none, s) | r ∷ rest ↦ (some r, record s { queue = rest }) ]

-- `queued_count`
unfoldable pub queued_count : SchedulerService → ℕ
queued_count s = length s.queue

module _ (os : Os) where
  open os use {State}

  -- `new`
  unfoldable pub new : Act State SchedulerService
  new w =
      let (max_id, w') = get_max_job_id os w in
      (record { queue = []; job_counter = wrapping_add max_id 1 }, w')

  -- `admit_job`; the job's number is used up even if the store refuses the job.
  unfoldable pub admit_job :
      Trigger
      → SchedulerService
      → Act State (Result CleanerError JobAdmissionRequest × SchedulerService)
  admit_job t s w = elim s.queue [
    | existing ∷ rest ↦
        let joined = coalesce t existing in ((ok joined, record s { queue = joined ∷ rest }), w)
    | [] ↦
        let id = s.job_counter in
        let s' = record s { job_counter = wrapping_add id 1 } in
        let (r, w₁) = register_job os id (source_text t.source) t.catalog_gen t.config_gen w in
        elim r [
          | err e ↦ ((err e, s'), w₁)
          | ok _ ↦
              let (now, w₂) = call os.unix_now w₁ in
              let request = request_of t id now in
              ((ok request, record s' { queue = s.queue ++ request ∷ [] }), w₂)
        ]
  ]
