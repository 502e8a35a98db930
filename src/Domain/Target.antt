-- ===== src/Domain/Target.antt =====
-- src/domain/target.rs and src/domain/candidate.rs
use cache_cleaner.Base.{ℕ, Bool, true, false, Option}
use cache_cleaner.Base.Text.{Text}
use cache_cleaner.Domain.Types.{TargetId, FileIdentity, Generation, UnixTimestamp, ByteCount}
use cache_cleaner.Domain.Path.{PathText}

pub data TargetClass : Type 0 where
  app_cache code_cache tombstones media_cache shader_cache log_archive temp_dir : TargetClass
  external_cache : TargetClass

pub data TargetSafetyTier : Type 0 where
  standard_cache requires_cold_app read_only_inspection protected_system : TargetSafetyTier

pub record TargetDescriptor : Type 0 where
  pub target_id : TargetId
  pub target_class : TargetClass
  pub base_path : PathText
  pub dev : ℕ
  pub ino : ℕ
  pub owner_uid : ℕ
  pub owner_gid : ℕ
  pub package_name : Option Text
  pub safety_tier : TargetSafetyTier
  pub catalog_generation : Generation

abbrev pub tier_allows : TargetSafetyTier → Bool
tier_allows standard_cache = true
tier_allows requires_cold_app = true
tier_allows read_only_inspection = false
tier_allows protected_system = false

unfoldable pub is_mutation_allowed : TargetDescriptor → Bool
is_mutation_allowed t = tier_allows t.safety_tier

pub record Candidate : Type 0 where
  pub candidate_id : ℕ
  pub target_id : TargetId
  pub rel_path : PathText
  pub identity : FileIdentity
  pub size_bytes : ByteCount
  pub mtime : UnixTimestamp
  pub atime : Option UnixTimestamp
  pub is_dir : Bool
  pub is_symlink : Bool

-- `SafetyValidatedCandidate`
pub record Validated : Type 0 where
  pub candidate : Candidate
  pub trusted_root_dev : ℕ
  pub trusted_root_ino : ℕ
  pub validated_at : UnixTimestamp
