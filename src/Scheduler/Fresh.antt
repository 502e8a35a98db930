-- ===== src/Scheduler/Fresh.antt =====
-- The numbers that src/scheduler/mod.rs gives to jobs.
use cache_cleaner.Base.{
  ℕ, ◌+◌, ◌≡◌, ◌<◌, refl, inl, inr, ◌⊎◌, ap, false, none, List, [], ◌∷◌, ◌++◌, List-cases, All,
  All-append, All-map, ok, arith,
}
use cache_cleaner.Base.Word.{u64_max, wrapping_add}
use cache_cleaner.Domain.Types.{JobId}
use cache_cleaner.System.Os.{Os}
use cache_cleaner.System.World.{World, JobRow}
use cache_cleaner.Store.{has_job}
use cache_cleaner.Store.Counters.{get_max_job_id, max_of, queried, max_of-bounds}
use cache_cleaner.Store.Registration.{job_ids, admitted_row, fresh_id-unused, register_job-unused}
use cache_cleaner.Scheduler.{
  JobAdmissionRequest, SchedulerService, Trigger, source_text, request_of, pop_next_job, new,
  admit_job,
}
use cache_cleaner.Scheduler.Queue.{Reaches, started, admitted, popped, elsewhere}

-- The next number is above the id of each job in the table.
abbrev pub IsFresh : {S : Type 0} → SchedulerService → World S → Type 0
IsFresh s w = All (λ i. i < s.job_counter) (job_ids w.db.jobs)

job_ids-append :
    (rows : List JobRow) (row : JobRow)
    → job_ids (rows ++ row ∷ []) ≡ job_ids rows ++ row.job_id ∷ []
job_ids-append [] row = refl
job_ids-append (r ∷ rows) row = ap (λ ids. r.job_id ∷ ids) (job_ids-append rows row)

below_next :
    (n : ℕ) (ids : List JobId)
    → n < u64_max
    → All (λ i. i < n) ids
    → All (λ i. i < wrapping_add n 1) ids
below_next n ids lt h = All-map _ _ ids (λ i le. omega (arith, le, lt)) h

module _ (os : Os) (t : Trigger) (s : SchedulerService) (w : World os.State) where
  -- An admission takes no number, or the next one, whether or not its row is written.
  admit_job-counts :
      IsFresh s w
      → let q = admit_job os t s w in
        ((q.0.1.job_counter ≡ s.job_counter) × (job_ids q.1.db.jobs ≡ job_ids w.db.jobs))
        ⊎ ((q.0.1.job_counter ≡ wrapping_add s.job_counter 1)
            × ((job_ids q.1.db.jobs ≡ job_ids w.db.jobs)
                ⊎ (job_ids q.1.db.jobs ≡ job_ids w.db.jobs ++ s.job_counter ∷ [])))
  unfolding admit_job
  admit_job-counts h =
      let id = s.job_counter in
      let type = source_text t.source in
      let row = admitted_row id type t.catalog_gen t.config_gen (os.unix_now w.os).0 in
      let unused = fresh_id-unused id w.db.jobs h in
      elim (List-cases s.queue) [
        | inr (r, rest, e) ↦ inl (ground (arith, e), ground (arith, e))
        | inl e ↦ elim (register_job-unused os id type t.catalog_gen t.config_gen w unused) [
          | inl (fine, rows) ↦ inr (
            ground (arith, e, fine),
            inr (ground (arith, e, fine, ap job_ids rows, job_ids-append w.db.jobs row)),
          )
          | inr (bad, rows) ↦
              inr (ground (arith, e, bad), inl (ground (arith, e, bad, ap job_ids rows)))
        ]
      ]

  admit_job-IsFresh :
      IsFresh s w
      → s.job_counter < u64_max
      → IsFresh (admit_job os t s w).0.1 (admit_job os t s w).1
  admit_job-IsFresh h lt = elim (admit_job-counts h) [
    | inl (same, ids) ↦ rw (same, ids) h
    | inr (next, inl ids) ↦ rw (next, ids) (below_next s.job_counter (job_ids w.db.jobs) lt h)
    | inr (next, inr ids) ↦
        rw (next, ids)
          (All-append _ (job_ids w.db.jobs) _ (below_next s.job_counter (job_ids w.db.jobs) lt h)
            (omega (arith, lt), tt))
  ]

  -- An admission to an empty queue that succeeds has a number that no job in the table has, and
  -- adds one row for it behind the others, none of which changes.
  pub admit_job-registers :
      (r : JobAdmissionRequest)
      → IsFresh s w
      → s.queue ≡ []
      → (admit_job os t s w).0.0 ≡ ok r
      → (has_job w.db r.job_id ≡ false)
        × ((admit_job os t s w).1.db.jobs
            ≡ w.db.jobs
              ++ admitted_row r.job_id
                  (source_text t.source)
                  t.catalog_gen
                  t.config_gen
                  (os.unix_now w.os).0
                ∷ [])
  unfolding admit_job request_of
  admit_job-registers r h empty done =
      let unused = fresh_id-unused s.job_counter w.db.jobs h in
      elim (register_job-unused os s.job_counter (source_text t.source) t.catalog_gen t.config_gen w
        unused) [
          | inl (e, rows) ↦
              (ground (arith, empty, done, e, unused), ground (arith, empty, done, e, rows))
          | inr (e, rows) ↦ absurd (ground (arith, empty, done, e))
        ]

new-IsFresh :
    (os : Os) (w : World os.State)
    → (os.sql_fault w.os).0 ≡ none
    → (get_max_job_id os w).0 < u64_max
    → IsFresh (new os w).0 (new os w).1
unfolding new get_max_job_id queried
new-IsFresh os w fine lt =
    let ids = job_ids w.db.jobs in
    let next : wrapping_add (get_max_job_id os w).0 1 ≡ max_of ids + 1 = ground (arith, fine, lt) in
    rw next (All-map _ _ ids (λ i le. omega (arith, le)) (max_of-bounds ids))

pop_next_job-counter : (s : SchedulerService) → (pop_next_job s).1.job_counter ≡ s.job_counter
unfolding pop_next_job
pop_next_job-counter s = ground arith

-- Over any sequence of operations of a scheduler that could read the largest id when it started,
-- the next number is above the id of each job in the table.
pub job_counter-IsFresh :
    (os : Os) (w₀ : World os.State) (s : SchedulerService) (w : World os.State)
    → (os.sql_fault w₀.os).0 ≡ none
    → (get_max_job_id os w₀).0 < u64_max
    → Reaches os (new os w₀).0 (new os w₀).1 s w
    → IsFresh s w
job_counter-IsFresh os w₀ _ _ fine lt started = new-IsFresh os w₀ fine lt
job_counter-IsFresh os w₀ _ _ fine lt (admitted {s} {w} t run below) =
    admit_job-IsFresh os t s w (job_counter-IsFresh os w₀ s w fine lt run) below
job_counter-IsFresh os w₀ _ w fine lt (popped {s} run) =
    rw (pop_next_job-counter s) (job_counter-IsFresh os w₀ s w fine lt run)
job_counter-IsFresh os w₀ s _ fine lt (elsewhere {s = _} {w = w} w' run e) =
    rw e (job_counter-IsFresh os w₀ s w fine lt run)
