-- ===== src/Store/Registration.antt =====
-- What `register_job` of src/store/mod.rs does to the table of jobs.
use cache_cleaner.Base.{
  ℕ, ◌≡◌, ◌≢◌, ◌⊎◌, ◌<◌, inl, inr, refl, false, List, [], ◌∷◌, ◌++◌, map, any, ◌==◌, All, ok,
  Option-cases, arith,
}
use cache_cleaner.Base.Text.{Text, codes}
use cache_cleaner.Domain.Types.{JobId, Generation, UnixTimestamp}
use cache_cleaner.System.Os.{Os}
use cache_cleaner.System.World.{World, call, JobRow}
use cache_cleaner.Store.{has_job, sql, register_job}

abbrev pub job_ids : List JobRow → List JobId
job_ids rows = map (λ (r : JobRow). r.job_id) rows

abbrev pub admitted_row : JobId → Text → Generation → Generation → UnixTimestamp → JobRow
admitted_row job job_type catalog config now = record {
  job_id = job;
  job_type = job_type;
  state = codes "ADMITTED";
  catalog_generation = catalog;
  config_generation = config;
  total_estimated_bytes = 0;
  total_reclaimed_bytes = 0;
  created_at = now;
  updated_at = now;
}

-- A number above all ids of the rows is not among them.
pub fresh_id-unused :
    (n : ℕ) (rows : List JobRow)
    → All (λ i. i < n) (job_ids rows)
    → any (λ (r : JobRow). r.job_id == n) rows ≡ false
fresh_id-unused n [] h = refl
fresh_id-unused n (r ∷ rows) h = ground (arith, h.0, fresh_id-unused n rows h.1)

module _ (os : Os) (job : JobId) (job_type : Text) (catalog config : Generation)
    (w : World os.State) where
  -- An unused id gets a row behind the others, and only a statement that fails leaves the rows as
  -- they are.
  pub register_job-unused :
      has_job w.db job ≡ false
      → let q = register_job os job job_type catalog config w in
        ((q.0 ≡ ok tt)
          × (q.1.db.jobs
              ≡ w.db.jobs ++ admitted_row job job_type catalog config (os.unix_now w.os).0 ∷ []))
        ⊎ ((q.0 ≢ ok tt) × (q.1.db.jobs ≡ w.db.jobs))
  unfolding register_job sql
  register_job-unused unused =
      let w' = (call os.unix_now w).1 in
      elim (Option-cases (os.sql_fault w'.os).0) [
        | inl fine ↦ inl (ground (arith, fine, unused), ground (arith, fine, unused))
        | inr (e, bad) ↦ inr (λ h. ground (arith, bad, h), ground (arith, bad))
      ]
