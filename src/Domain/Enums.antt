-- ===== src/Domain/Enums.antt =====
-- The enumerations of backend/src/postbase/domain/enums.py, and the tenant roles of
-- backend/src/apps/multitenancy/models/tenant.py: a member is a constructor, its string is
-- given by a `value` function, and `==` is the instance of `Eq`.
use post_base.Base.{Bool, Eq, String, arith, nat_beq, true, ℕ, ◌↔◌, ◌≡◌}

pub data CapabilityKey : Type 0 where
  auth data_ storage functions events : CapabilityKey

abbrev pub capability_key_value : CapabilityKey → String
capability_key_value CapabilityKey.auth = "auth"
capability_key_value CapabilityKey.data_ = "data"
capability_key_value CapabilityKey.storage = "storage"
capability_key_value CapabilityKey.functions = "functions"
capability_key_value CapabilityKey.events = "events"

abbrev capability_key_rank : CapabilityKey → ℕ
capability_key_rank CapabilityKey.auth = 0
capability_key_rank CapabilityKey.data_ = 1
capability_key_rank CapabilityKey.storage = 2
capability_key_rank CapabilityKey.functions = 3
capability_key_rank CapabilityKey.events = 4

abbrev capability_key_beq : CapabilityKey → CapabilityKey → Bool
capability_key_beq a b = nat_beq (capability_key_rank a) (capability_key_rank b)

pub capability_key_beq_iff : (a b : CapabilityKey) → (capability_key_beq a b ≡ true) ↔ (a ≡ b)
capability_key_beq_iff a b = ground arith

instance abbrev pub capability_key_eq : Eq CapabilityKey
capability_key_eq = record { beq = capability_key_beq; beq_iff = capability_key_beq_iff }

pub data EnvironmentStage : Type 0 where
  development staging production : EnvironmentStage

abbrev pub environment_stage_value : EnvironmentStage → String
environment_stage_value EnvironmentStage.development = "development"
environment_stage_value EnvironmentStage.staging = "staging"
environment_stage_value EnvironmentStage.production = "production"

abbrev environment_stage_rank : EnvironmentStage → ℕ
environment_stage_rank EnvironmentStage.development = 0
environment_stage_rank EnvironmentStage.staging = 1
environment_stage_rank EnvironmentStage.production = 2

abbrev environment_stage_beq : EnvironmentStage → EnvironmentStage → Bool
environment_stage_beq a b = nat_beq (environment_stage_rank a) (environment_stage_rank b)

pub environment_stage_beq_iff :
    (a b : EnvironmentStage) → (environment_stage_beq a b ≡ true) ↔ (a ≡ b)
environment_stage_beq_iff a b = ground arith

instance abbrev pub environment_stage_eq : Eq EnvironmentStage
environment_stage_eq = record { beq = environment_stage_beq; beq_iff = environment_stage_beq_iff }

pub data EnvironmentStatus : Type 0 where
  active degraded inactive : EnvironmentStatus

abbrev pub environment_status_value : EnvironmentStatus → String
environment_status_value EnvironmentStatus.active = "active"
environment_status_value EnvironmentStatus.degraded = "degraded"
environment_status_value EnvironmentStatus.inactive = "inactive"

abbrev environment_status_rank : EnvironmentStatus → ℕ
environment_status_rank EnvironmentStatus.active = 0
environment_status_rank EnvironmentStatus.degraded = 1
environment_status_rank EnvironmentStatus.inactive = 2

abbrev environment_status_beq : EnvironmentStatus → EnvironmentStatus → Bool
environment_status_beq a b = nat_beq (environment_status_rank a) (environment_status_rank b)

pub environment_status_beq_iff :
    (a b : EnvironmentStatus) → (environment_status_beq a b ≡ true) ↔ (a ≡ b)
environment_status_beq_iff a b = ground arith

instance abbrev pub environment_status_eq : Eq EnvironmentStatus
environment_status_eq = record {
  beq = environment_status_beq;
  beq_iff = environment_status_beq_iff;
}

pub data ReadinessState : Type 0 where
  ready degraded not_ready validating : ReadinessState

abbrev readiness_state_rank : ReadinessState → ℕ
readiness_state_rank ReadinessState.ready = 0
readiness_state_rank ReadinessState.degraded = 1
readiness_state_rank ReadinessState.not_ready = 2
readiness_state_rank ReadinessState.validating = 3

abbrev readiness_state_beq : ReadinessState → ReadinessState → Bool
readiness_state_beq a b = nat_beq (readiness_state_rank a) (readiness_state_rank b)

pub readiness_state_beq_iff : (a b : ReadinessState) → (readiness_state_beq a b ≡ true) ↔ (a ≡ b)
readiness_state_beq_iff a b = ground arith

instance abbrev pub readiness_state_eq : Eq ReadinessState
readiness_state_eq = record { beq = readiness_state_beq; beq_iff = readiness_state_beq_iff }

pub data BindingStatus : Type 0 where
  pending_validation active deprecated retired failed pending disabled : BindingStatus

abbrev pub binding_status_value : BindingStatus → String
binding_status_value BindingStatus.pending_validation = "pending_validation"
binding_status_value BindingStatus.active = "active"
binding_status_value BindingStatus.deprecated = "deprecated"
binding_status_value BindingStatus.retired = "retired"
binding_status_value BindingStatus.failed = "failed"
binding_status_value BindingStatus.pending = "pending"
binding_status_value BindingStatus.disabled = "disabled"

abbrev binding_status_rank : BindingStatus → ℕ
binding_status_rank BindingStatus.pending_validation = 0
binding_status_rank BindingStatus.active = 1
binding_status_rank BindingStatus.deprecated = 2
binding_status_rank BindingStatus.retired = 3
binding_status_rank BindingStatus.failed = 4
binding_status_rank BindingStatus.pending = 5
binding_status_rank BindingStatus.disabled = 6

abbrev binding_status_beq : BindingStatus → BindingStatus → Bool
binding_status_beq a b = nat_beq (binding_status_rank a) (binding_status_rank b)

pub binding_status_beq_iff : (a b : BindingStatus) → (binding_status_beq a b ≡ true) ↔ (a ≡ b)
binding_status_beq_iff a b = ground arith

instance abbrev pub binding_status_eq : Eq BindingStatus
binding_status_eq = record { beq = binding_status_beq; beq_iff = binding_status_beq_iff }

pub data SecretStatus : Type 0 where
  active revoked : SecretStatus

abbrev pub secret_status_value : SecretStatus → String
secret_status_value SecretStatus.active = "active"
secret_status_value SecretStatus.revoked = "revoked"

abbrev secret_status_rank : SecretStatus → ℕ
secret_status_rank SecretStatus.active = 0
secret_status_rank SecretStatus.revoked = 1

abbrev secret_status_beq : SecretStatus → SecretStatus → Bool
secret_status_beq a b = nat_beq (secret_status_rank a) (secret_status_rank b)

pub secret_status_beq_iff : (a b : SecretStatus) → (secret_status_beq a b ≡ true) ↔ (a ≡ b)
secret_status_beq_iff a b = ground arith

instance abbrev pub secret_status_eq : Eq SecretStatus
secret_status_eq = record { beq = secret_status_beq; beq_iff = secret_status_beq_iff }

pub data PolicyMode : Type 0 where
  public authenticated owner service : PolicyMode

abbrev pub policy_mode_value : PolicyMode → String
policy_mode_value PolicyMode.public = "public"
policy_mode_value PolicyMode.authenticated = "authenticated"
policy_mode_value PolicyMode.owner = "owner"
policy_mode_value PolicyMode.service = "service"

abbrev policy_mode_rank : PolicyMode → ℕ
policy_mode_rank PolicyMode.public = 0
policy_mode_rank PolicyMode.authenticated = 1
policy_mode_rank PolicyMode.owner = 2
policy_mode_rank PolicyMode.service = 3

abbrev policy_mode_beq : PolicyMode → PolicyMode → Bool
policy_mode_beq a b = nat_beq (policy_mode_rank a) (policy_mode_rank b)

pub policy_mode_beq_iff : (a b : PolicyMode) → (policy_mode_beq a b ≡ true) ↔ (a ≡ b)
policy_mode_beq_iff a b = ground arith

instance abbrev pub policy_mode_eq : Eq PolicyMode
policy_mode_eq = record { beq = policy_mode_beq; beq_iff = policy_mode_beq_iff }

pub data MigrationStatus : Type 0 where
  queued pending applied failed canceled : MigrationStatus

abbrev pub migration_status_value : MigrationStatus → String
migration_status_value MigrationStatus.queued = "queued"
migration_status_value MigrationStatus.pending = "pending"
migration_status_value MigrationStatus.applied = "applied"
migration_status_value MigrationStatus.failed = "failed"
migration_status_value MigrationStatus.canceled = "canceled"

abbrev migration_status_rank : MigrationStatus → ℕ
migration_status_rank MigrationStatus.queued = 0
migration_status_rank MigrationStatus.pending = 1
migration_status_rank MigrationStatus.applied = 2
migration_status_rank MigrationStatus.failed = 3
migration_status_rank MigrationStatus.canceled = 4

abbrev migration_status_beq : MigrationStatus → MigrationStatus → Bool
migration_status_beq a b = nat_beq (migration_status_rank a) (migration_status_rank b)

pub migration_status_beq_iff : (a b : MigrationStatus) → (migration_status_beq a b ≡ true) ↔ (a ≡ b)
migration_status_beq_iff a b = ground arith

instance abbrev pub migration_status_eq : Eq MigrationStatus
migration_status_eq = record { beq = migration_status_beq; beq_iff = migration_status_beq_iff }

pub data SwitchoverStatus : Type 0 where
  pending running completed failed rolled_back : SwitchoverStatus

abbrev switchover_status_rank : SwitchoverStatus → ℕ
switchover_status_rank SwitchoverStatus.pending = 0
switchover_status_rank SwitchoverStatus.running = 1
switchover_status_rank SwitchoverStatus.completed = 2
switchover_status_rank SwitchoverStatus.failed = 3
switchover_status_rank SwitchoverStatus.rolled_back = 4

abbrev switchover_status_beq : SwitchoverStatus → SwitchoverStatus → Bool
switchover_status_beq a b = nat_beq (switchover_status_rank a) (switchover_status_rank b)

pub switchover_status_beq_iff :
    (a b : SwitchoverStatus) → (switchover_status_beq a b ≡ true) ↔ (a ≡ b)
switchover_status_beq_iff a b = ground arith

instance abbrev pub switchover_status_eq : Eq SwitchoverStatus
switchover_status_eq = record { beq = switchover_status_beq; beq_iff = switchover_status_beq_iff }

pub data CertificationTestStatus : Type 0 where
  pending running passed failed : CertificationTestStatus

abbrev certification_test_status_rank : CertificationTestStatus → ℕ
certification_test_status_rank CertificationTestStatus.pending = 0
certification_test_status_rank CertificationTestStatus.running = 1
certification_test_status_rank CertificationTestStatus.passed = 2
certification_test_status_rank CertificationTestStatus.failed = 3

abbrev certification_test_status_beq : CertificationTestStatus → CertificationTestStatus → Bool
certification_test_status_beq a b =
    nat_beq (certification_test_status_rank a) (certification_test_status_rank b)

pub certification_test_status_beq_iff :
    (a b : CertificationTestStatus) → (certification_test_status_beq a b ≡ true) ↔ (a ≡ b)
certification_test_status_beq_iff a b = ground arith

instance abbrev pub certification_test_status_eq : Eq CertificationTestStatus
certification_test_status_eq = record {
  beq = certification_test_status_beq;
  beq_iff = certification_test_status_beq_iff;
}

pub data CertificationApprovalState : Type 0 where
  draft approved rejected published : CertificationApprovalState

abbrev certification_approval_state_rank : CertificationApprovalState → ℕ
certification_approval_state_rank CertificationApprovalState.draft = 0
certification_approval_state_rank CertificationApprovalState.approved = 1
certification_approval_state_rank CertificationApprovalState.rejected = 2
certification_approval_state_rank CertificationApprovalState.published = 3

abbrev certification_approval_state_beq :
    CertificationApprovalState → CertificationApprovalState → Bool
certification_approval_state_beq a b =
    nat_beq (certification_approval_state_rank a) (certification_approval_state_rank b)

pub certification_approval_state_beq_iff :
    (a b : CertificationApprovalState) → (certification_approval_state_beq a b ≡ true) ↔ (a ≡ b)
certification_approval_state_beq_iff a b = ground arith

instance abbrev pub certification_approval_state_eq : Eq CertificationApprovalState
certification_approval_state_eq = record {
  beq = certification_approval_state_beq;
  beq_iff = certification_approval_state_beq_iff;
}

pub data TenantRole : Type 0 where
  owner admin member : TenantRole

abbrev pub tenant_role_value : TenantRole → String
tenant_role_value TenantRole.owner = "owner"
tenant_role_value TenantRole.admin = "admin"
tenant_role_value TenantRole.member = "member"

abbrev tenant_role_rank : TenantRole → ℕ
tenant_role_rank TenantRole.owner = 0
tenant_role_rank TenantRole.admin = 1
tenant_role_rank TenantRole.member = 2

abbrev tenant_role_beq : TenantRole → TenantRole → Bool
tenant_role_beq a b = nat_beq (tenant_role_rank a) (tenant_role_rank b)

pub tenant_role_beq_iff : (a b : TenantRole) → (tenant_role_beq a b ≡ true) ↔ (a ≡ b)
tenant_role_beq_iff a b = ground arith

instance abbrev pub tenant_role_eq : Eq TenantRole
tenant_role_eq = record { beq = tenant_role_beq; beq_iff = tenant_role_beq_iff }
