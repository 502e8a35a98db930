-- ===== src/Scheduler/Queue.antt =====
-- The queue of src/scheduler/mod.rs over any sequence of operations.
use cache_cleaner.Base.{◌≡◌, ◌≤◌, ◌<◌, arith}
use cache_cleaner.Base.Word.{u64_max}
use cache_cleaner.System.Os.{Os}
use cache_cleaner.System.World.{World}
use cache_cleaner.Store.Registration.{job_ids}
use cache_cleaner.Scheduler.{
  SchedulerService, Trigger, max_queued_jobs, pop_next_job, queued_count, admit_job,
}

module _ (os : Os) (s₀ : SchedulerService) (w₀ : World os.State) where
  -- The states that the operations lead to, where other code may change anything but the ids of
  -- the jobs, and the counter has numbers left.
  pub data Reaches : SchedulerService → World os.State → Type 0 where
    started : Reaches s₀ w₀
    admitted :
        {s : SchedulerService} {w : World os.State} (t : Trigger)
        → Reaches s w
        → s.job_counter < u64_max
        → Reaches (admit_job os t s w).0.1 (admit_job os t s w).1
    popped :
        {s : SchedulerService} {w : World os.State} → Reaches s w → Reaches (pop_next_job s).1 w
    elsewhere :
        {s : SchedulerService} {w : World os.State} (w' : World os.State)
        → Reaches s w
        → job_ids w'.db.jobs ≡ job_ids w.db.jobs
        → Reaches s w'

admit_job-bounded :
    (os : Os) (t : Trigger) (s : SchedulerService) (w : World os.State)
    → queued_count s ≤ max_queued_jobs
    → queued_count (admit_job os t s w).0.1 ≤ max_queued_jobs
unfolding admit_job queued_count
admit_job-bounded os t s w h = ground (arith, h)

-- However triggers are admitted and jobs taken, the queue holds at most one job.
pub queue-bounded :
    (os : Os) (s₀ : SchedulerService) (w₀ : World os.State) (s : SchedulerService)
    (w : World os.State)
    → queued_count s₀ ≤ max_queued_jobs
    → Reaches os s₀ w₀ s w
    → queued_count s ≤ max_queued_jobs
unfolding queued_count pop_next_job
queue-bounded os s₀ w₀ s w h started = h
queue-bounded os s₀ w₀ _ _ h (admitted {s} {w} t run lt) =
    admit_job-bounded os t s w (queue-bounded os s₀ w₀ s w h run)
queue-bounded os s₀ w₀ _ w h (popped {s} run) = ground (arith, queue-bounded os s₀ w₀ s w h run)
queue-bounded os s₀ w₀ s _ h (elsewhere {s = _} {w = w} w' run e) = queue-bounded os s₀ w₀ s w h run
