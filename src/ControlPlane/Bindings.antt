-- ===== src/ControlPlane/Bindings.antt =====
-- The life of a capability binding: LEGAL_BINDING_STATUS_TRANSITIONS and set_binding_status of
-- backend/src/postbase/control_plane/service.py, with what they call.
-- A handler takes the row objects that its caller has loaded, and the time of the request; it writes
-- to the row through its primary key.
pub mod Unique
pub mod Status
pub mod Success
pub mod Refusal
pub mod Create
pub mod Version
mod Examples
use Prim.Native.String.{◌++◌ as concat}
use post_base.Base.{
  List, Option, String, [], contains, first_where, get_row, if◌then◌else◌, is_empty, is_some, ltb,
  nat_eq, none, not, option_eq, or_default, some, string_eq, text_or, ℕ, ◌&&◌, ◌==◌, ◌∷◌,
}
use post_base.Domain.Enums.{
  BindingStatus, CapabilityKey, binding_status_eq, binding_status_value, capability_key_eq,
  certification_approval_state_eq, certification_test_status_eq, environment_stage_eq,
  environment_status_eq, migration_status_eq, policy_mode_eq, readiness_state_eq, secret_status_eq,
  switchover_status_eq, tenant_role_eq,
}
use post_base.Domain.Models.{
  CapabilityBinding, ProviderCatalogEntry, TransitionKey, audit_log_row, binding_row,
  binding_secret_row, capability_type_row, catalog_row, environment_row, project_row,
  secret_ref_row, tenant_member_row, text,
}
use post_base.Platform.Errors.{
  Constraint, active_binding, active_secret_version, binding_active_uniqueness_conflict,
  binding_invalid_status_transition, binding_missing_required_secrets,
  binding_provider_operation_gap, binding_secret_link, binding_storage_ttl_unconfigured,
  http_exception, idempotency_key_actor_endpoint, integrity_error, message, runtime_error,
  secret_version, value_error,
}
use post_base.Platform.Exec.{Exec, branch, on_option, pure, raise, require, unless, ◌>>=◌, ◌>>◌}
use post_base.Platform.Session.{
  Session, commit, gets, is_active_in, modify_binding, read_row_object, rollback, try_flush,
}
use post_base.Platform.Audit.{
  Request, add_audit_row, audit_event, audit_row, record_transition_audit_event_once,
  transition_key_eq,
}
use post_base.Platform.Registry.{ProviderRegistry, resolve}
use post_base.ControlPlane.Required.{required_secret_validation_detail, sorted_difference}
use post_base.Events.Store.{channel_row, dead_letter_row, job_row}
use post_base.Domain.PlanEnums.{phase_eq, phases_eq}
use post_base.Domain.Plans.{
  namespace_row, schema_migration_row, switchover_row, table_definition_row,
}

abbrev pub required_operations : CapabilityKey → List String
required_operations CapabilityKey.auth =
    "signup" ∷ "login" ∷ "refresh" ∷ "me" ∷ "logout" ∷ "password_reset_request"
    ∷ "password_reset_confirm" ∷ "2fa_enable" ∷ "2fa_verify" ∷ "2fa_disable" ∷ "session_list"
    ∷ "session_revoke" ∷ []
required_operations CapabilityKey.data_ = "namespaces" ∷ "tables" ∷ "crud" ∷ []
required_operations CapabilityKey.storage =
    "upload" ∷ "upload_init" ∷ "list" ∷ "signed_url" ∷ "signed_url_issue" ∷ "signed_url_refresh"
    ∷ "signed_url_revoke" ∷ "metadata_read" ∷ "metadata_write" ∷ "lifecycle" ∷ "policy"
    ∷ "retention_rules" ∷ "retention_execute" ∷ "delete" ∷ []
required_operations CapabilityKey.functions = "create" ∷ "list" ∷ "invoke" ∷ "executions" ∷ []
required_operations CapabilityKey.events = "channels" ∷ "subscriptions" ∷ "publish" ∷ []

unfoldable pub legal_binding_status_transitions : BindingStatus → List BindingStatus
legal_binding_status_transitions BindingStatus.pending_validation =
    BindingStatus.active ∷ BindingStatus.failed ∷ BindingStatus.disabled ∷ []
legal_binding_status_transitions BindingStatus.active =
    BindingStatus.deprecated ∷ BindingStatus.failed ∷ BindingStatus.disabled ∷ BindingStatus.retired
    ∷ []
legal_binding_status_transitions BindingStatus.deprecated =
    BindingStatus.active ∷ BindingStatus.disabled ∷ BindingStatus.retired ∷ []
legal_binding_status_transitions BindingStatus.failed =
    BindingStatus.pending_validation ∷ BindingStatus.active ∷ BindingStatus.disabled
    ∷ BindingStatus.retired ∷ []
legal_binding_status_transitions BindingStatus.disabled =
    BindingStatus.pending_validation ∷ BindingStatus.active ∷ BindingStatus.retired ∷ []
legal_binding_status_transitions BindingStatus.retired = []
legal_binding_status_transitions BindingStatus.pending =
    BindingStatus.pending_validation ∷ BindingStatus.active ∷ BindingStatus.failed
    ∷ BindingStatus.disabled ∷ []

unfoldable pub assert_binding_state_invariants : CapabilityBinding → Exec Session Unit
assert_binding_state_invariants b =
    unless (not (b.status == BindingStatus.active && not (is_some b.last_transition_at)))
      (runtime_error "binding invariant violated: active binding must record transition timestamp")

unfoldable pub assert_binding_transition_is_legal :
    ℕ → BindingStatus → BindingStatus → Exec Session Unit
assert_binding_transition_is_legal binding_id current_status target_status =
    branch (current_status == target_status) (pure tt) (
      unless (contains target_status (legal_binding_status_transitions current_status)) (
        http_exception 409
          (binding_invalid_status_transition binding_id current_status target_status)))

-- `CapabilityKey(capability_type.key)`, which raises ValueError on a string that is no key.
abbrev pub capability_key_of : String → Option CapabilityKey
capability_key_of s =
    if s == "auth"
    then some CapabilityKey.auth
    else if s == "data"
    then some CapabilityKey.data_
    else if s == "storage"
    then some CapabilityKey.storage
    else if s == "functions"
    then some CapabilityKey.functions
    else if s == "events"
    then some CapabilityKey.events
    else none

abbrev pub to_capability_key : String → Exec Session CapabilityKey
to_capability_key s = require (capability_key_of s) (value_error s)

-- The part of _validate_binding_activation_prerequisites that concerns storage providers.
unfoldable pub validate_storage_provider : ProviderRegistry → String → Exec Session Unit
validate_storage_provider registry provider_key = do
  adapter ← resolve registry CapabilityKey.storage provider_key
  let missing_ops =
      sorted_difference (required_operations CapabilityKey.storage)
        adapter.profile.supported_operations
  unless (is_empty missing_ops) (http_exception 409 (binding_provider_operation_gap missing_ops))
  unless (ltb 0 (or_default adapter.profile.max_signed_url_ttl_seconds 0))
      (http_exception 409 binding_storage_ttl_unconfigured)

unfoldable pub validate_binding_activation_prerequisites :
    ProviderRegistry → CapabilityBinding → ProviderCatalogEntry → ℕ → Exec Session Unit
validate_binding_activation_prerequisites registry binding provider now = do
  missing ← gets (required_secret_validation_detail binding.id provider now)
  unless (is_empty missing.0) (
      http_exception 409
        (binding_missing_required_secrets (or_default provider.required_secret_kinds []) missing.0))
  capability_type ← gets λ d. get_row binding.capability_type_id d.capability_types
  on_option capability_type (pure tt) λ t. do
    capability ← to_capability_key t.key
    branch (capability == CapabilityKey.storage)
        (validate_storage_provider registry provider.provider_key) (pure tt)

-- The query for another active binding of the same environment and capability.
unfoldable pub conflicting_active :
    CapabilityBinding → List CapabilityBinding → Option CapabilityBinding
conflicting_active binding = first_where λ b.
    is_active_in binding.environment_id binding.capability_type_id b && not (b.id == binding.id)

-- The block under `if status_value == BindingStatus.ACTIVE`.
unfoldable pub check_activation : ProviderRegistry → CapabilityBinding → ℕ → Exec Session Unit
check_activation registry binding now = do
  found ← gets λ d. get_row binding.provider_catalog_entry_id d.catalog
  provider ← require found (http_exception 404 (message "Provider not found"))
  validate_binding_activation_prerequisites registry binding provider now
  active_conflict ← gets λ d. conflicting_active binding d.bindings
  on_option active_conflict (pure tt)
      λ c. raise (http_exception 409 (binding_active_uniqueness_conflict binding.id c.id))

abbrev pub conflict_id : CapabilityBinding → Option CapabilityBinding → ℕ
conflict_id binding none = binding.id
conflict_id binding (some c) = c.id

-- The handler of IntegrityError around the flush; its query reads `binding.environment_id`.
unfoldable pub on_integrity_error : CapabilityBinding → Constraint → Exec Session Unit
on_integrity_error binding active_binding = do
  rollback
  read_row_object
  conflict ← gets λ d. conflicting_active binding d.bindings
  raise (
      http_exception 409
        (binding_active_uniqueness_conflict binding.id (conflict_id binding conflict)))
on_integrity_error binding active_secret_version = do
  rollback
  raise (integrity_error active_secret_version)
on_integrity_error binding secret_version = do rollback; raise (integrity_error secret_version)
on_integrity_error binding binding_secret_link = do
  rollback
  raise (integrity_error binding_secret_link)
on_integrity_error binding idempotency_key_actor_endpoint = do
  rollback
  raise (integrity_error idempotency_key_actor_endpoint)

abbrev pub with_status : BindingStatus → String → ℕ → ℕ → CapabilityBinding → CapabilityBinding
with_status status reason actor now b = record b {
  status = status;
  last_transition_actor_user_id = some actor;
  last_transition_reason = reason;
  last_transition_at = some now;
  updated_at = now;
}

unfoldable pub set_binding_status :
    ProviderRegistry
    → CapabilityBinding
    → BindingStatus
    → Option String
    → Request
    → Exec Session CapabilityBinding
set_binding_status registry binding status_value reason r = do
  assert_binding_transition_is_legal binding.id binding.status status_value
  branch (status_value == BindingStatus.active) (check_activation registry binding r.now) (pure tt)
  let reason_text = text_or reason "manual_status_update"
  modify_binding binding.id (with_status status_value reason_text r.actor r.now)
  try_flush (on_integrity_error binding)
  record_transition_audit_event_once (TransitionKey.binding_status binding.id status_value r.now)
      (audit_event r "binding.status_updated" "capability_binding" binding.id
        (("status", text (binding_status_value status_value)) ∷ ("reason", text reason_text) ∷ []))
      r.now
  commit
  assert_binding_state_invariants (with_status status_value reason_text r.actor r.now binding)
  pure (with_status status_value reason_text r.actor r.now binding)
