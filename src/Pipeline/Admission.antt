-- ===== src/Pipeline/Admission.antt =====
-- What the slot of src/scheduler/mod.rs, which src/pipeline/mod.rs never empties, does to later
-- requests.
use cache_cleaner.Base.{◌≡◌, refl, sym, ap, ◌∙◌, Bool, false, List, ◌∷◌, ok}
use cache_cleaner.Domain.Types.{Generation}
use cache_cleaner.System.Os.{Os}
use cache_cleaner.System.World.{World}
use cache_cleaner.Executor.Run.{CatalogSnapshot}
use cache_cleaner.Scheduler.{JobAdmissionRequest, coalesce}
use cache_cleaner.Scheduler.Coalescing.{admit_job-queued}
use cache_cleaner.Pipeline.{CleanParams, Pipeline, Host, trigger_of}
use cache_cleaner.Pipeline.Job.{execute, run_admitted}

-- A job that is queued for real is for real after any trigger.
coalesce-real :
    (params : CleanParams) (snapshot : CatalogSnapshot) (g : Generation) (dry_run : Bool)
    (r : JobAdmissionRequest)
    → r.dry_run ≡ false
    → coalesce (trigger_of params snapshot g) r
      ≡ coalesce (trigger_of (record params { dry_run = dry_run }) snapshot g) r
unfolding coalesce
coalesce-real params snapshot g dry_run r real = rw real refl

module _ (os : Os) (host : Host os.State) (params : CleanParams) (snapshot : CatalogSnapshot)
    (p : Pipeline) (w : World os.State) (r : JobAdmissionRequest) (rest : List JobAdmissionRequest)
    (queued : p.scheduler.queue ≡ r ∷ rest) where
  -- While a job that is not a dry run is queued, a request for a dry run is executed as if it had
  -- not been one.
  pub execute-ignores_dry_run :
      (dry_run : Bool)
      → r.dry_run ≡ false
      → execute os host (record params { dry_run = dry_run }) snapshot p w
        ≡ execute os host params snapshot p w
  unfolding execute
  execute-ignores_dry_run dry_run real =
      let one =
        admit_job-queued os (trigger_of params snapshot p.config_generation) p.scheduler w r rest
          queued in
      let two =
        admit_job-queued os
          (trigger_of (record params { dry_run = dry_run }) snapshot p.config_generation)
          p.scheduler w r rest queued in
      let joined = coalesce-real params snapshot p.config_generation dry_run r real in
      ap (run_admitted os host snapshot p) (
        two
        ∙ (sym (ap (λ q. ((ok q, record p.scheduler { queue = q ∷ rest }), w)) joined) ∙ sym one))
