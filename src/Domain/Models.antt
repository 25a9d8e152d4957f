-- ===== src/Domain/Models.antt =====
-- The tables of backend/src/postbase/domain/models.py that the control plane reads and writes, and
-- TenantMember of backend/src/apps/multitenancy/models/tenant.py. A datetime is a number of seconds.
use post_base.Base.{Bool, List, Option, Row, String, ℕ}
use post_base.Domain.Enums.{
  BindingStatus, EnvironmentStage, EnvironmentStatus, ReadinessState, SecretStatus, TenantRole,
}
use post_base.Domain.Plans.{Checkpoint, HealthRef, PreflightReport}

-- A value of a JSON column.
pub data Json : Type 0 where
  null : Json
  flag : Bool → Json
  number : ℕ → Json
  text : String → Json
  texts : List String → Json
  numbers : List ℕ → Json
  preflight_json : PreflightReport → Json
  checkpoint_json : Checkpoint → Json
  health_refs_json : List HealthRef → Json

abbrev pub JsonObject : Type 0
JsonObject = List (String × Json)

pub record TenantMember : Type 0 where
  pub id : ℕ
  pub tenant_id : ℕ
  pub user_id : ℕ
  pub role : TenantRole
  pub is_active : Bool

pub record Project : Type 0 where
  pub id : ℕ
  pub tenant_id : ℕ
  pub name : String
  pub slug : String
  pub description : String
  pub is_active : Bool
  pub updated_at : ℕ

pub record Environment : Type 0 where
  pub id : ℕ
  pub project_id : ℕ
  pub name : String
  pub slug : String
  pub stage : EnvironmentStage
  pub region_preference : Option String
  pub status : EnvironmentStatus
  pub readiness_state : ReadinessState
  pub readiness_detail : String
  pub env_policy_json : JsonObject
  pub last_validated_at : Option ℕ
  pub is_active : Bool
  pub updated_at : ℕ

-- `key` is the string of a CapabilityKey.
pub record CapabilityType : Type 0 where
  pub id : ℕ
  pub key : String

-- The two entries of `metadata_json` that the control plane reads are fields; None is a missing key.
pub record ProviderCatalogEntry : Type 0 where
  pub id : ℕ
  pub capability_type_id : ℕ
  pub provider_key : String
  pub adapter_version : String
  pub required_secret_kinds : Option (List String)
  pub supported_regions : Option (List String)

pub record CapabilityBinding : Type 0 where
  pub id : ℕ
  pub environment_id : ℕ
  pub capability_type_id : ℕ
  pub provider_catalog_entry_id : ℕ
  pub status : BindingStatus
  pub readiness_detail : String
  pub region : Option String
  pub supersedes_binding_id : Option ℕ
  pub config_json : JsonObject
  pub last_transition_actor_user_id : Option ℕ
  pub last_transition_reason : String
  pub last_transition_at : Option ℕ
  pub updated_at : ℕ

pub record SecretRef : Type 0 where
  pub id : ℕ
  pub environment_id : ℕ
  pub name : String
  pub provider_key : String
  pub secret_kind : String
  pub version : ℕ
  pub is_active_version : Bool
  pub status : SecretStatus
  pub rotated_at : Option ℕ
  pub expires_at : Option ℕ
  pub last_four : String
  pub encrypted_value : String
  pub value_hash : String
  pub updated_at : ℕ

pub record BindingSecretRef : Type 0 where
  pub id : ℕ
  pub binding_id : ℕ
  pub secret_ref_id : ℕ

-- The transition keys that `record_transition_audit_event_once` is given, by what the string spells.
pub data TransitionKey : Type 0 where
  migration_applied : ℕ → ℕ → TransitionKey
  switchover_failed : ℕ → ℕ → TransitionKey
  switchover_completed : ℕ → ℕ → TransitionKey
  binding_status : ℕ → BindingStatus → ℕ → TransitionKey

-- `entity_id` is the number that the column spells; the `transition_key` entry of `payload_json` is a
-- field of its own.
pub record AuditLog : Type 0 where
  pub id : ℕ
  pub tenant_id : Option ℕ
  pub project_id : Option ℕ
  pub environment_id : Option ℕ
  pub actor_user_id : Option ℕ
  pub action : String
  pub entity_type : String
  pub entity_id : ℕ
  pub payload_json : JsonObject
  pub transition_key : Option TransitionKey
  pub created_at : ℕ

instance abbrev pub tenant_member_row : Row TenantMember
tenant_member_row = record { key = λ r. r.id }

instance abbrev pub project_row : Row Project
project_row = record { key = λ r. r.id }

instance abbrev pub environment_row : Row Environment
environment_row = record { key = λ r. r.id }

instance abbrev pub capability_type_row : Row CapabilityType
capability_type_row = record { key = λ r. r.id }

instance abbrev pub catalog_row : Row ProviderCatalogEntry
catalog_row = record { key = λ r. r.id }

instance abbrev pub binding_row : Row CapabilityBinding
binding_row = record { key = λ r. r.id }

instance abbrev pub secret_ref_row : Row SecretRef
secret_ref_row = record { key = λ r. r.id }

instance abbrev pub binding_secret_row : Row BindingSecretRef
binding_secret_row = record { key = λ r. r.id }

instance abbrev pub audit_log_row : Row AuditLog
audit_log_row = record { key = λ r. r.id }
