-- ===== src/Domain/Plans.antt =====
-- SwitchoverPlan and SchemaMigration of backend/src/postbase/domain/models.py. The JSON column
-- `execution_state_json` of a plan is a record with the entries that
-- backend/src/postbase/control_plane/service.py writes to it. An error rate is a number of
-- millionths: the program only compares rates.
use post_base.Base.{Bool, List, Option, Row, String, ℕ}
use post_base.Domain.Enums.{MigrationStatus, PolicyMode, SwitchoverStatus}
use post_base.Domain.PlanEnums.{Phase}

pub record HealthReport : Type 0 where
  pub ok : Bool
  pub current_provider_ready : Bool
  pub target_provider_ready : Bool
  pub detail : String

pub record SecretsReport : Type 0 where
  pub ok : Bool
  pub missing_secret_kinds : List String

-- The sentences that _is_region_compatible returns, by what they spell.
pub data RegionDetail : Type 0 where
  no_region_preference : RegionDetail
  region_supported : String → RegionDetail
  region_not_supported : String → List String → RegionDetail

pub record RegionReport : Type 0 where
  pub ok : Bool
  pub detail : RegionDetail
  pub target_supported_regions : List String

pub record MigrationReport : Type 0 where
  pub ok : Bool
  pub blocking_migrations : List String

pub record PreflightReport : Type 0 where
  pub health : HealthReport
  pub secrets : SecretsReport
  pub region_compatibility : RegionReport
  pub migration_readiness : MigrationReport

-- The string f"health://switchover/{switchover.id}/checkpoint/{number}".
pub record HealthRef : Type 0 where
  pub switchover_id : ℕ
  pub number : ℕ

pub record Checkpoint : Type 0 where
  pub number : ℕ
  pub traffic_percent : ℕ
  pub error_rate : ℕ
  pub healthy : Bool
  pub health_evidence_ref : HealthRef

pub record Canary : Type 0 where
  pub traffic_percent : ℕ
  pub health_checkpoint_count : ℕ
  pub auto_abort_error_rate : ℕ
  pub simulated_error_rate : Option ℕ
  pub checkpoints : List Checkpoint
  pub aborted : Bool
  pub health_evidence_refs : List HealthRef

-- An empty object is `required = false` and `previous_provider_catalog_entry_id = none`.
pub record RollbackCheckpoint : Type 0 where
  pub required : Bool
  pub previous_provider_catalog_entry_id : Option ℕ

pub record Retirement : Type 0 where
  pub strategy : String
  pub status : String

-- The string `job_id` spells the plan's key and the time.
pub record DataCopyJob : Type 0 where
  pub job_id : ℕ × ℕ
  pub status : String
  pub copied_objects : ℕ
  pub failed_objects : ℕ

pub record RollbackSafetyPath : Type 0 where
  pub restored_provider_catalog_entry_id : ℕ
  pub restored_at : ℕ

pub record ManualRollback : Type 0 where
  pub executed_at : ℕ
  pub actor_user_id : ℕ

pub record ExecutionState : Type 0 where
  pub phase : Phase
  pub completed_phases : List Phase
  pub preflight_report : PreflightReport
  pub canary : Canary
  pub rollback_checkpoint : RollbackCheckpoint
  pub retirement : Retirement
  pub data_copy_job : Option DataCopyJob
  pub cutover_checkpoints : List (String × String)
  pub last_error : Option String
  pub rollback_safety_path : Option RollbackSafetyPath
  pub manual_rollback : Option ManualRollback

pub record SwitchoverPlan : Type 0 where
  pub id : ℕ
  pub capability_binding_id : ℕ
  pub target_provider_catalog_entry_id : ℕ
  pub strategy : String
  pub retirement_strategy : String
  pub status : SwitchoverStatus
  pub execution_detail : String
  pub execution_state : ExecutionState
  pub canary_traffic_percent : ℕ
  pub canary_health_checkpoint_count : ℕ
  pub auto_abort_error_rate : ℕ
  pub requested_by_user_id : Option ℕ
  pub completed_at : Option ℕ

-- The strings that detect_migration_drift writes, by what they spell.
pub data DriftEntity : Type 0 where
  migration_entity : ℕ → DriftEntity
  namespace_entity : ℕ → DriftEntity
  table_definition_entity : ℕ → DriftEntity
  table_entity : String → String → DriftEntity
  column_entity : String → String → String → DriftEntity

pub record DataNamespace : Type 0 where
  pub id : ℕ
  pub environment_id : ℕ
  pub name : String
  pub physical_schema : String
  pub status : String

-- `columns_json` holds the entry `name` of each column, None where it is missing.
pub record TableDefinition : Type 0 where
  pub id : ℕ
  pub namespace_id : ℕ
  pub table_name : String
  pub columns_json : List (Option String)
  pub policy_mode : PolicyMode
  pub owner_column : Option String
  pub status : String
  pub updated_at : ℕ

pub record SchemaMigration : Type 0 where
  pub id : ℕ
  pub environment_id : ℕ
  pub namespace_id : ℕ
  pub table_definition_id : Option ℕ
  pub version : String
  pub status : MigrationStatus
  pub reconciliation_status : String
  pub drift_severity : String
  pub drift_entities : List DriftEntity
  pub reconcile_attempt_count : ℕ
  pub reconcile_error_text : String
  pub last_reconciled_at : Option ℕ
  pub applied_sql : String

instance abbrev pub switchover_row : Row SwitchoverPlan
switchover_row = record { key = λ r. r.id }

instance abbrev pub schema_migration_row : Row SchemaMigration
schema_migration_row = record { key = λ r. r.id }

instance abbrev pub namespace_row : Row DataNamespace
namespace_row = record { key = λ r. r.id }

instance abbrev pub table_definition_row : Row TableDefinition
table_definition_row = record { key = λ r. r.id }
