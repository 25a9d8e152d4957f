-- ===== src/Platform/Errors.antt =====
-- The exceptions that the control plane raises: HTTPException with its status code and detail, the
-- IntegrityError of a flush, and what its callees raise.
use post_base.Base.{List, String, ℕ}
use post_base.Domain.Enums.{BindingStatus, EnvironmentStatus, TenantRole}
use post_base.Domain.Plans.{PreflightReport}

-- The index that an IntegrityError names.
pub data Constraint : Type 0 where
  active_binding active_secret_version secret_version binding_secret_link : Constraint
  idempotency_key_actor_endpoint : Constraint

-- The `detail` of an HTTPException.
pub data Detail : Type 0 where
  message : String → Detail
  control_plane_forbidden : TenantRole → Detail
  binding_invalid_status_transition : ℕ → BindingStatus → BindingStatus → Detail
  binding_active_uniqueness_conflict : ℕ → ℕ → Detail
  environment_invalid_status_transition : ℕ → EnvironmentStatus → EnvironmentStatus → Detail
  binding_missing_required_secrets : List String → List String → Detail
  binding_provider_operation_gap : List String → Detail
  binding_storage_ttl_unconfigured : Detail
  missing_operations : String → List String → Detail
  idempotency_key_payload_conflict idempotency_request_in_progress : Detail
  cannot_replace : String → String → List String → Detail
  switchover_preflight_failed : PreflightReport → Detail
  unknown_policy_template : String → Detail

pub data Error : Type 0 where
  http_exception : ℕ → Detail → Error
  integrity_error : Constraint → Error
  runtime_error : String → Error
  resolution_error : String → Error
  value_error : String → Error
  attribute_error : String → Error
  missing_greenlet : Error

-- The outcome of a call.
pub data Result {ℓ} (A : Type ℓ) : Type ℓ where
  ok : A → Result A
  err : Error → Result A
