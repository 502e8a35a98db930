-- ===== src/Safety/Gate.antt =====
-- What the two entries of the safety gate accept, and what their results are bound to.
use cache_cleaner.Base.{
  ◌≡◌, ◌≢◌, ◌↔◌, ◌⊎◌, inl, inr, refl, true, false, [], ◌&&◌, ◌==◌, leb, ok, is_ok, arith,
  Bool-cases, subst, sym,
}
use cache_cleaner.Base.Text.{codes, text_eq_iff}
use cache_cleaner.Base.Word.{saturating_add}
use cache_cleaner.Domain.Types.{UnixTimestamp, Generation, OperationId, FileIdentity}
use cache_cleaner.Domain.Path.{PathText, components}
use cache_cleaner.Domain.Target.{
  Candidate, TargetDescriptor, standard_cache, requires_cold_app, is_mutation_allowed,
}
use cache_cleaner.Safety.{SafetyProof, is_valid_for, validate_candidate, validate_mutation_boundary}
use cache_cleaner.Safety.Roots.{IsUnder, IsSafeRoot, verify_target_root_safety_iff}

-- The tiers that may be mutated.
abbrev pub IsMutable : TargetDescriptor → Type 0
IsMutable t = (t.safety_tier ≡ standard_cache) ⊎ (t.safety_tier ≡ requires_cold_app)

is_mutation_allowed_iff : (t : TargetDescriptor) → (is_mutation_allowed t ≡ true) ↔ IsMutable t
unfolding is_mutation_allowed
is_mutation_allowed_iff t = ground arith

-- A candidate that may be deleted below a target.
pub record IsAdmissible (c : Candidate) (t : TargetDescriptor) : Type 0 where
  pub may_mutate : IsMutable t
  pub same_target : c.target_id ≡ t.target_id
  pub same_device : c.identity.dev ≡ t.dev
  pub below_root : c.rel_path ≢ []
  pub safe_root : IsSafeRoot t.base_path

-- The gate validates a candidate exactly when its target's tier may be mutated, the candidate
-- names that target, lies on its device and is not its root, and the target's base path is not
-- empty, not `/` and at or below no protected path.
pub validate_candidate_iff :
    (now : UnixTimestamp) (c : Candidate) (t : TargetDescriptor)
    → (is_ok (validate_candidate now c t) ≡ true) ↔ IsAdmissible c t
unfolding validate_candidate
validate_candidate_iff now c t =
    let tier = is_mutation_allowed_iff t in
    let same = text_eq_iff c.target_id t.target_id in
    let empty = text_eq_iff c.rel_path [] in
    let root = verify_target_root_safety_iff t.base_path in
    (
      λ h. record {
        may_mutate = tier.0 (ground arith);
        same_target = ground (arith, same);
        same_device = ground arith;
        below_root = ground (arith, empty);
        safe_root = root.0 (ground arith);
      },
      λ a. ground (
        arith,
        tier.1 a.may_mutate,
        same.1 a.same_target,
        empty,
        a.below_root,
        a.same_device,
        root.1 a.safe_root,
      ),
    )

-- A mutation that may be performed below a target.
pub record IsMutationAdmissible (t : TargetDescriptor) (path : PathText) (expected : FileIdentity)
    (catalog : Generation) : Type 0 where
  pub may_mutate : IsMutable t
  pub safe_root : IsSafeRoot t.base_path
  pub below_root : path ≢ []
  pub same_device : expected.dev ≡ t.dev
  pub same_generation : t.catalog_generation ≡ catalog

module _ (now : UnixTimestamp) (t : TargetDescriptor) (path : PathText) (expected : FileIdentity)
    (op : OperationId) (catalog config : Generation) where
  -- At the mutation boundary a proof is issued exactly for a mutable target with a safe root, a
  -- path below it, an expected identity on the target's device, and the target's own generation.
  pub validate_mutation_boundary_iff :
      (is_ok (validate_mutation_boundary now t path expected op catalog config) ≡ true)
      ↔ IsMutationAdmissible t path expected catalog
  unfolding validate_mutation_boundary
  validate_mutation_boundary_iff =
      let tier = is_mutation_allowed_iff t in
      let empty = text_eq_iff path [] in
      let root = verify_target_root_safety_iff t.base_path in
      (
        λ h. record {
          may_mutate = tier.0 (ground arith);
          safe_root = root.0 (ground arith);
          below_root = ground (arith, empty);
          same_device = ground arith;
          same_generation = ground arith;
        },
        λ a. ground (
          arith,
          tier.1 a.may_mutate,
          empty,
          a.below_root,
          a.same_device,
          a.same_generation,
          root.1 a.safe_root,
        ),
      )

  -- An issued proof is valid for an operation, at a time and under generations, exactly when they
  -- are the operation and the generations that it was issued for and at most 30 seconds passed.
  pub is_valid_for_issued :
      (p : SafetyProof) (op' : OperationId) (later : UnixTimestamp) (catalog' config' : Generation)
      → validate_mutation_boundary now t path expected op catalog config ≡ ok p
      → is_valid_for p op' later catalog' config' ≡ (
          op == op'
          && (catalog == catalog' && (config == config' && leb later (saturating_add now 30))))
  unfolding validate_mutation_boundary is_valid_for
  is_valid_for_issued p op' later catalog' config' h = ground arith

-- `/data/system/dropbox`, which the catalog lists as junk, is below the protected `/data/system`.
dropbox-IsUnder : IsUnder (codes "/data/system/dropbox") (codes "/data/system")
unfolding components
dropbox-IsUnder = (λ e. cc, (_, refl))

-- No candidate of the catalogued junk directory `/data/system/dropbox` passes the gate.
pub dropbox_rejected :
    (now : UnixTimestamp) (c : Candidate) (t : TargetDescriptor)
    → t.base_path ≡ codes "/data/system/dropbox"
    → is_ok (validate_candidate now c t) ≡ false
dropbox_rejected now c t e = elim (Bool-cases (is_ok (validate_candidate now c t))) [
  | inl accepted ↦
      let safe = ((validate_candidate_iff now c t).0 accepted).safe_root in
      absurd (
        safe.unprotected.1.1.1.1.1.0
          (subst (λ p. IsUnder p (codes "/data/system")) (sym e) dropbox-IsUnder))
  | inr rejected ↦ rejected
]
