-- ===== src/Domain/Grant.antt =====
-- src/domain/grant.rs
use cache_cleaner.Base.{Bool, false, not, ◌&&◌, List, leb, ◌==◌, if◌then◌else◌}
use cache_cleaner.Base.Text.{text_eq}
use cache_cleaner.Domain.Types.{TargetId, GrantId, Generation, UnixTimestamp}
use cache_cleaner.Domain.Path.{PathText}
use cache_cleaner.Domain.Plan.{PlannedPlan}

pub data Capability : Type 0 where
  read_target enumerate_target : TargetId → Capability
  delete_file delete_directory : TargetId → PathText → Capability
  trim_mount vacuum_database : PathText → Capability

-- The derived `==`. The std compares paths by their components; the plan and the grant hold the
-- same text, and equal texts have equal components.
abbrev pub capability_eq : Capability → Capability → Bool
capability_eq (read_target a) (read_target b) = text_eq a b
capability_eq (enumerate_target a) (enumerate_target b) = text_eq a b
capability_eq (delete_file a p) (delete_file b q) = text_eq a b && text_eq p q
capability_eq (delete_directory a p) (delete_directory b q) = text_eq a b && text_eq p q
capability_eq (trim_mount p) (trim_mount q) = text_eq p q
capability_eq (vacuum_database p) (vacuum_database q) = text_eq p q
capability_eq _ _ = false

pub record CapabilityGrant : Type 0 where
  pub grant_id : GrantId
  pub capabilities : List Capability
  pub catalog_generation : Generation
  pub config_generation : Generation
  pub granted_at : UnixTimestamp
  pub expires_at : UnixTimestamp

unfoldable pub is_valid_at : CapabilityGrant → UnixTimestamp → Generation → Generation → Bool
is_valid_at g now catalog config =
    g.catalog_generation == catalog && (g.config_generation == config && leb now g.expires_at)

pub record AuthorizedPlan : Type 0 where
  pub plan : PlannedPlan
  pub grant : CapabilityGrant

unfoldable pub is_authorized_for_execution :
    AuthorizedPlan → UnixTimestamp → Generation → Generation → Bool
unfolding is_valid_at
is_authorized_for_execution a now catalog config =
    if not (a.plan.config_generation == config)
    then false
    else is_valid_at a.grant now catalog config && a.plan.catalog_generation == catalog
