-- ===== src/Scheduler/Coalescing.antt =====
-- src/scheduler/mod.rs as a slot that triggers are merged into.
use cache_cleaner.Base.{
  ◌≡◌, refl, sym, inl, inr, Bool, true, false, ◌&&◌, ◌||◌, Option, none, some, List, [], ◌∷◌, any,
  all, ok, is_ok, List-cases, arith,
}
use cache_cleaner.System.Os.{Os}
use cache_cleaner.System.World.{World}
use cache_cleaner.Scheduler.{
  JobAdmissionRequest, SchedulerService, Trigger, coalesce, request_of, admit_job,
}

-- What the slot promises: the flags that the triggers since the last job asked for.
pub record Wanted : Type 0 where
  pub deep : Bool
  pub trim : Bool
  pub dry_run : Bool

-- A trigger adds its flags, and the job is a dry run only if each trigger asked for one.
abbrev pub absorb : Trigger → Option Wanted → Option Wanted
absorb t none = some (record { deep = t.deep; trim = t.trim; dry_run = t.dry_run })
absorb t (some a) =
    some (record {
      deep = a.deep || t.deep;
      trim = a.trim || t.trim;
      dry_run = a.dry_run && t.dry_run;
    })

abbrev pub wanted : JobAdmissionRequest → Wanted
wanted r = record { deep = r.deep; trim = r.trim; dry_run = r.dry_run }

-- The slot that a service is.
abbrev pub first_wanted : List JobAdmissionRequest → Option Wanted
first_wanted [] = none
first_wanted (r ∷ rest) = some (wanted r)

unfoldable pub pending : SchedulerService → Option Wanted
pending s = first_wanted s.queue

module _ (os : Os) (t : Trigger) (s : SchedulerService) (w : World os.State) where
  -- An admission that succeeds merges its trigger into the slot, and one that fails leaves the
  -- slot, which then was empty.
  pub admit_job-refines :
      let q = admit_job os t s w in
      (is_ok q.0.0 ≡ true → pending q.0.1 ≡ absorb t (pending s))
      × (is_ok q.0.0 ≡ false → (pending q.0.1 ≡ none) × (pending s ≡ none))
  unfolding admit_job pending coalesce request_of
  admit_job-refines = elim (List-cases s.queue) [
    | inl e ↦ (λ h. ground (arith, e, h), λ h. (ground (arith, e, h), ground (arith, e, h)))
    | inr (r, rest, e) ↦ (λ h. ground (arith, e, h), λ h. absurd (ground (arith, e, h)))
  ]

-- Triggers that are admitted one after the other.
abbrev pub admit_all :
    (os : Os) → List Trigger → SchedulerService → World os.State → SchedulerService × World os.State
admit_all os [] s w = (s, w)
admit_all os (t ∷ ts) s w = let q = admit_job os t s w in admit_all os ts q.0.1 q.1

abbrev pub joined : List Trigger → JobAdmissionRequest → JobAdmissionRequest
joined ts r = record r {
  deep = r.deep || any (λ (t : Trigger). t.deep) ts;
  trim = r.trim || any (λ (t : Trigger). t.trim) ts;
  dry_run = r.dry_run && all (λ (t : Trigger). t.dry_run) ts;
}

joined-coalesce :
    (t : Trigger) (ts : List Trigger) (r : JobAdmissionRequest)
    → joined ts (coalesce t r) ≡ joined (t ∷ ts) r
unfolding coalesce
joined-coalesce t ts r = ground arith

pub admit_job-queued :
    (os : Os) (t : Trigger) (s : SchedulerService) (w : World os.State) (r : JobAdmissionRequest)
    (rest : List JobAdmissionRequest)
    → s.queue ≡ r ∷ rest
    → admit_job os t s w ≡ ((ok (coalesce t r), record s { queue = coalesce t r ∷ rest }), w)
unfolding admit_job
admit_job-queued os t s w r rest e = rw e refl

-- While a job is queued, every trigger ends in that job: it keeps its number, its source and its
-- generations, gathers the flags, and the store is not touched.
pub admit_all-coalesces :
    (os : Os) (ts : List Trigger) (s : SchedulerService) (w : World os.State)
    (r : JobAdmissionRequest) (rest : List JobAdmissionRequest)
    → s.queue ≡ r ∷ rest
    → admit_all os ts s w ≡ (record s { queue = joined ts r ∷ rest }, w)
admit_all-coalesces os [] s w r rest e = ground (arith, e)
admit_all-coalesces os (t ∷ ts) s w r rest e =
    rw (admit_job-queued os t s w r rest e, sym (joined-coalesce t ts r))
      (admit_all-coalesces os ts (record s { queue = coalesce t r ∷ rest }) w (coalesce t r) rest
        refl)
