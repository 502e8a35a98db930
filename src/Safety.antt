-- ===== src/Safety.antt =====
-- src/safety/mod.rs: the safety gate, before policy and again at the mutation boundary.
pub mod Roots
pub mod Gate
use cache_cleaner.Base.{
  ℕ, ◌≡◌, Bool, true, false, not, ◌&&◌, ◌||◌, Option, none, some, List, [], ◌∷◌, ltb, ◌==◌,
  if◌then◌else◌, Result, ok, err, ◌>>=◌, ◌>>◌, reject,
}
use cache_cleaner.Base.Text.{Text, codes, text_eq}
use cache_cleaner.Base.Word.{saturating_add}
use cache_cleaner.Domain.Types.{TargetId, OperationId, FileIdentity, Generation, UnixTimestamp}
use cache_cleaner.Domain.Path.{PathText, Component, root_dir, components}
use cache_cleaner.Domain.Target.{Candidate, Validated, TargetDescriptor, is_mutation_allowed}
use cache_cleaner.Domain.Error.{
  CleanerError, safety_violation, SafetyReason, tier_forbids_mutation, candidate_target_mismatch,
  mount_boundary, root_as_candidate, boundary_read_only, boundary_root, boundary_device,
  catalog_generation_mismatch, filesystem_root, protected_root,
}
use cache_cleaner.Config.{platform_invariant_protected_paths, components_eq, has_prefix}

pub record SafetyProof : Type 0 where
  pub target_id : TargetId
  pub expected_identity : FileIdentity
  pub operation_id : OperationId
  pub catalog_generation : Generation
  pub config_generation : Generation
  pub validated_at : UnixTimestamp
  pub expires_at : UnixTimestamp

unfoldable pub is_expired : SafetyProof → UnixTimestamp → Bool
is_expired proof now = ltb proof.expires_at now

unfoldable pub is_valid_for :
    SafetyProof → OperationId → UnixTimestamp → Generation → Generation → Bool
unfolding is_expired
is_valid_for proof op now catalog config =
    proof.operation_id == op
    && (proof.catalog_generation == catalog
        && (proof.config_generation == config && not (is_expired proof now)))

-- The loop over the protected paths.
unfoldable pub check_protected : PathText → List PathText → Result CleanerError (Unit {0})
check_protected path [] = ok tt
check_protected path (prot ∷ rest) = do
  reject
      (not (components_eq (components prot) []) && has_prefix (components path) (components prot))
      (safety_violation (protected_root prot path))
  check_protected path rest

unfoldable pub verify_target_root_safety : PathText → Result CleanerError (Unit {0})
verify_target_root_safety path = do
  reject (components_eq (components path) [] || components_eq (components path) (root_dir ∷ []))
      (safety_violation filesystem_root)
  check_protected path platform_invariant_protected_paths

-- `validate_candidate`, at the time `now`
unfoldable pub validate_candidate :
    UnixTimestamp → Candidate → TargetDescriptor → Result CleanerError Validated
validate_candidate now candidate target = do
  reject (not (is_mutation_allowed target))
      (safety_violation (tier_forbids_mutation target.target_id))
  reject (not (text_eq candidate.target_id target.target_id))
      (safety_violation (candidate_target_mismatch candidate.target_id target.target_id))
  reject (not (candidate.identity.dev == target.dev))
      (safety_violation (mount_boundary candidate.identity.dev target.dev))
  reject (text_eq candidate.rel_path []) (safety_violation root_as_candidate)
  verify_target_root_safety target.base_path
  ok (record {
    candidate = candidate;
    trusted_root_dev = target.dev;
    trusted_root_ino = target.ino;
    validated_at = now;
  })

-- `validate_mutation_boundary`, at the time `now`
unfoldable pub validate_mutation_boundary :
    UnixTimestamp
    → TargetDescriptor
    → PathText
    → FileIdentity
    → OperationId
    → Generation
    → Generation
    → Result CleanerError SafetyProof
validate_mutation_boundary now target path expected op catalog config = do
  reject (not (is_mutation_allowed target)) (safety_violation (boundary_read_only target.target_id))
  verify_target_root_safety target.base_path
  reject (text_eq path []) (safety_violation boundary_root)
  reject (not (expected.dev == target.dev))
      (safety_violation (boundary_device expected.dev target.dev))
  reject (not (target.catalog_generation == catalog))
      (safety_violation (catalog_generation_mismatch target.catalog_generation catalog))
  ok (record {
    target_id = target.target_id;
    expected_identity = expected;
    operation_id = op;
    catalog_generation = catalog;
    config_generation = config;
    validated_at = now;
    expires_at = saturating_add now 30;
  })
