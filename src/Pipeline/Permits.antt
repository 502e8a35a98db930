-- ===== src/Pipeline/Permits.antt =====
-- The permits that src/pipeline/mod.rs collects, and the plan that is made of them.
use cache_cleaner.Base.{
  ℕ, ◌≡◌, refl, sym, subst, ◌∙◌, ap, Bool, List, [], ◌∷◌, All, All-append, Exists, All-Exists, ok,
  is_ok, by_bool, by_result_eq, arith,
}
use cache_cleaner.Base.Text.{Text}
use cache_cleaner.Domain.Types.{JobId, Generation, UnixTimestamp, Outcome, returns}
use cache_cleaner.Domain.Target.{Candidate, Validated, TargetDescriptor}
use cache_cleaner.Domain.Decision.{PolicyPermit, PolicyDecision, allow, deny, skip}
use cache_cleaner.Domain.Plan.{PlannedPlan}
use cache_cleaner.System.Os.{Os}
use cache_cleaner.System.World.{World, call}
use cache_cleaner.Config.{EffectiveConfig}
use cache_cleaner.Safety.{validate_candidate}
use cache_cleaner.Safety.Gate.{IsAdmissible, validate_candidate_iff}
use cache_cleaner.Policy.{evaluate_candidate_with_freezer}
use cache_cleaner.Policy.Rules.{IsDeletable, evaluate_candidate_with_freezer_iff}
use cache_cleaner.Planner.{candidate_of, build_plan}
use cache_cleaner.Planner.Origin.{ComesFrom, build_plan-ComesFrom}
use cache_cleaner.Scanner.{scan_target_with_resource}
use cache_cleaner.Scanner.Found.{IsFound, by_outcome}
use cache_cleaner.Scanner.Limits.{Delivers, delivered, AllFound, scan_target-Found}
use cache_cleaner.Pipeline.{Collected, add_permit}
use cache_cleaner.Pipeline.Collect.{judge_candidates, collect_permits}

module _ (config : EffectiveConfig) (now : UnixTimestamp) where
  -- A permit for a candidate that was found in the target, that the gate lets pass, and that no
  -- rule of the policy protects.
  pub record IsPermitted (t : TargetDescriptor) (permit : PolicyPermit) : Type 0 where
    pub found : IsFound t (candidate_of permit)
    pub admissible : IsAdmissible (candidate_of permit) t
    pub deletable : IsDeletable permit.candidate t config now

  validated-same :
      (at : UnixTimestamp) (c : Candidate) (t : TargetDescriptor) (v : Validated)
      → validate_candidate at c t ≡ ok v
      → v.candidate ≡ c
  unfolding validate_candidate
  validated-same at c t v h = ground (arith, h)

  add_permit-All :
      (P : PolicyPermit → Type 0) (d : PolicyDecision) (permits : List PolicyPermit)
      → ((permit : PolicyPermit) → d ≡ allow permit → P permit)
      → All P permits
      → All P (add_permit d permits)
  add_permit-All P (allow permit) permits new h = All-append P permits _ h (new permit refl, tt)
  add_permit-All P (deny _) permits new h = h
  add_permit-All P (skip _) permits new h = h

  allowed-IsPermitted :
      (at decided : UnixTimestamp) (c : Candidate) (t : TargetDescriptor) (v : Validated)
      (is_frozen : Bool) (permit : PolicyPermit)
      → IsFound t c
      → validate_candidate at c t ≡ ok v
      → evaluate_candidate_with_freezer decided v t config now is_frozen ≡ allow permit
      → IsPermitted t permit
  allowed-IsPermitted at decided c t v is_frozen permit found valid allowed =
      let (deletable, is) =
        (evaluate_candidate_with_freezer_iff decided v t config now is_frozen permit).0 allowed in
      let of_v : permit.candidate ≡ v = ap (λ (p : PolicyPermit). p.candidate) is in
      let of_c : c ≡ candidate_of permit =
        sym (ap (λ (x : Validated). x.candidate) of_v ∙ validated-same at c t v valid) in
      record {
        found = subst (IsFound t) of_c found;
        admissible =
            subst (λ x. IsAdmissible x t) of_c ((validate_candidate_iff at c t).0 (ap is_ok valid));
        deletable = subst (λ x. IsDeletable x t config now) (sym of_v) deletable;
      }

  module _ (os : Os) (P : PolicyPermit → Type 0) where
    open os use {State}

    unfoldable HasAll : List PolicyPermit × World State → Type 0
    HasAll q = All P q.0

    judge_candidates-All :
        (t : TargetDescriptor) (is_frozen : Bool) (cs : List Candidate)
        (permits : List PolicyPermit) (w : World State)
        → ((permit : PolicyPermit) → IsPermitted t permit → P permit)
        → All (IsFound t) cs
        → All P permits
        → HasAll (judge_candidates os t config now is_frozen cs permits w)
    unfolding judge_candidates HasAll
    judge_candidates-All t is_frozen [] permits w permitted f h = h
    judge_candidates-All t is_frozen (c ∷ cs) permits w permitted f h =
        let x = call os.unix_now w in
        by_result_eq HasAll (validate_candidate x.0 c t)
          (λ v valid.
            let y = call os.unix_now x.1 in
            judge_candidates-All t is_frozen cs _ y.1 permitted f.1 (
              add_permit-All P (evaluate_candidate_with_freezer y.0 v t config now is_frozen)
                permits
                (λ permit allowed.
                  permitted permit
                    (allowed-IsPermitted x.0 y.0 c t v is_frozen permit f.0 valid allowed))
                h))
          (λ _ _. judge_candidates-All t is_frozen cs permits x.1 permitted f.1 h)

    abbrev Collects : Outcome Collected × World State → Type 0
    Collects = Delivers (λ (c : Collected). All P c.permits)

    collect_permits-All :
        (frozen_uids : List ℕ) (targets : List (Text × TargetDescriptor)) (c : Collected)
        (w : World State)
        → All
            (λ (t : Text × TargetDescriptor).
              (permit : PolicyPermit) → IsPermitted t.1 permit → P permit)
            targets
        → All P c.permits
        → Collects (collect_permits os config frozen_uids now targets c w)
    unfolding collect_permits HasAll Delivers
    collect_permits-All frozen_uids [] c w permitted h = h
    collect_permits-All frozen_uids ((name, t) ∷ rest) c w permitted h =
        let x = call os.is_cancelled w in
        let y = scan_target_with_resource os t c.candidate_id_counter c.fd_pool x.1 in
        let found = scan_target-Found os t c.candidate_id_counter c.fd_pool x.1 in
        by_bool Collects x.0 h (
          by_outcome Collects y.0 tt (λ r done.
            collect_permits-All frozen_uids rest _ _ permitted.1 (
              judge_candidates-All t _ r.0.candidates c.permits y.1 permitted.0
                (delivered (AllFound os t c.candidate_id_counter c.fd_pool x.1) y r found done) h)))

-- In a plan that is built from the permits that a job collects, each operation deletes a candidate
-- that the scan found at most sixteen names below a target of the catalog, that passes the gate
-- for that target, and that no rule of the policy protects.
pub planned-IsPermitted :
    (os : Os) (config : EffectiveConfig) (now : UnixTimestamp) (frozen_uids : List ℕ)
    (targets : List (Text × TargetDescriptor)) (counter : Collected) (w : World os.State)
    (collected : Collected) (built_at : UnixTimestamp) (job : JobId) (catalog g : Generation)
    (plan : PlannedPlan)
    → counter.permits ≡ []
    → (collect_permits os config frozen_uids now targets counter w).0 ≡ returns collected
    → build_plan built_at job catalog g collected.permits ≡ ok plan
    → All
        (ComesFrom (λ permit.
          Exists (λ (t : Text × TargetDescriptor). IsPermitted config now t.1 permit) targets))
        plan.operations
planned-IsPermitted os config now frozen_uids targets counter w collected built_at job catalog g
      plan none_yet done built =
    let P = λ (permit : PolicyPermit).
      Exists (λ (t : Text × TargetDescriptor). IsPermitted config now t.1 permit) targets in
    let q = collect_permits os config frozen_uids now targets counter w in
    let collects =
      collect_permits-All config now os P frozen_uids targets counter w
        (All-Exists (λ (t : Text × TargetDescriptor). IsPermitted config now t.1) targets)
        (subst (All P) (sym none_yet) tt) in
    let permits = delivered (λ (c : Collected). All P c.permits) q collected collects done in
    build_plan-ComesFrom P built_at job catalog g collected.permits plan permits built
