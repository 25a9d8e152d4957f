-- ===== src/ControlPlane/Bindings/Create.antt =====
-- create_binding_version of backend/src/postbase/control_plane/service.py, with its two branches.
use Prim.Native.String.{◌++◌ as concat}
use post_base.Base.{
  Bool, List, Option, String, [], contains, first_where, get_row, if◌then◌else◌, is_empty, keep_if,
  nat_eq, next_key, none, not, option_eq, option_map, or_default, some, string_eq, true, ℕ, ◌&&◌,
  ◌++◌, ◌==◌, ◌||◌, ◌∷◌,
}
use post_base.ControlPlane.Bindings.{with_status}
use post_base.ControlPlane.Required.{required_secret_validation_detail}
use post_base.Domain.Enums.{
  BindingStatus, EnvironmentStatus, ReadinessState, binding_status_eq, binding_status_value,
  capability_key_eq, certification_approval_state_eq, certification_test_status_eq,
  environment_stage_eq, environment_status_eq, migration_status_eq, policy_mode_eq,
  readiness_state_eq, secret_status_eq, switchover_status_eq, tenant_role_eq,
}
use post_base.Domain.Models.{
  CapabilityBinding, CapabilityType, Environment, JsonObject, ProviderCatalogEntry, SecretRef,
  audit_log_row, binding_row, binding_secret_row, capability_type_row, catalog_row, environment_row,
  project_row, secret_ref_row, tenant_member_row, text,
}
use post_base.Events.Store.{channel_row, dead_letter_row, job_row}
use post_base.Platform.Audit.{Request, audit_event, record_audit_event, transition_key_eq}
use post_base.Platform.Errors.{http_exception, message}
use post_base.Platform.Exec.{Exec, branch, on_option, pure, unless, ◌>>=◌, ◌>>◌}
use post_base.Platform.Session.{
  Db, Session, commit, flush, gets, is_active_in, modify_binding, modify_environment, update,
}

-- `secret_id not in secret_scope_by_id or ...environment_id != environment.id`
unfoldable pub is_out_of_boundary : ℕ → List SecretRef → ℕ → Bool
unfolding get_row
is_out_of_boundary environment_id secrets secret_id = outside (get_row secret_id secrets)
  where
    outside : Option SecretRef → Bool
    outside none = true
    outside (some x) = not (x.environment_id == environment_id)

unfoldable pub check_secret_boundary : ℕ → List ℕ → Exec Session Unit
check_secret_boundary environment_id secret_ref_ids = do
  out_of_boundary ← gets λ d. keep_if (is_out_of_boundary environment_id d.secrets) secret_ref_ids
  unless (is_empty out_of_boundary) (
      http_exception 400 (
        message
          "Tenant boundary violation: one or more secrets are outside the target environment"))

abbrev add_link : ℕ → Db → ℕ → Db
add_link binding_id d secret_ref_id = record d {
  binding_secrets =
      d.binding_secrets
      ++ record {
        id = next_key d.binding_secrets;
        binding_id = binding_id;
        secret_ref_id = secret_ref_id;
      }
        ∷ [];
}

-- `for secret_ref_id in secret_ref_ids: db.add(BindingSecretRef(...))`
unfoldable pub add_links : ℕ → List ℕ → Db → Db
unfolding next_key
add_links binding_id [] d = d
add_links binding_id (x ∷ xs) d = add_links binding_id xs (add_link binding_id d x)

unfoldable pub is_region_valid : Option String → Option (List String) → Bool
is_region_valid none supported = true
is_region_valid (some region) supported =
    let regions = or_default supported ("global" ∷ []) in
    contains "global" regions || contains region regions

abbrev region_detail : Option String → String
region_detail region = concat "unsupported region '" (concat (or_default region "None") "'")

abbrev failure_detail : List String → String → Bool → Option String → String
failure_detail [] detail region_valid region = if region_valid then "" else region_detail region
failure_detail (_ ∷ _) detail region_valid region =
    let secrets = concat "missing or expired secrets: " detail in
    if region_valid then secrets else concat secrets (concat "; " (region_detail region))

unfoldable pub current_active : ℕ → ℕ → List CapabilityBinding → Option CapabilityBinding
current_active environment_id capability_id =
    first_where (is_active_in environment_id capability_id)

-- `CapabilityBinding(...)`, before the key is given by the flush.
abbrev new_binding :
    ℕ → Request → ℕ → ℕ → JsonObject → Option String → Option CapabilityBinding → CapabilityBinding
new_binding id r capability_id provider_id config_json region former = record {
  id = id;
  environment_id = r.environment.id;
  capability_type_id = capability_id;
  provider_catalog_entry_id = provider_id;
  status = BindingStatus.pending_validation;
  readiness_detail = "";
  region = region;
  supersedes_binding_id = option_map (λ b. b.id) former;
  config_json = config_json;
  last_transition_actor_user_id = some r.actor;
  last_transition_reason = "binding_version_created";
  last_transition_at = some r.now;
  updated_at = r.now;
}

abbrev with_outcome : BindingStatus → String → ℕ → CapabilityBinding → CapabilityBinding
with_outcome status detail now b = record b {
  status = status;
  readiness_detail = detail;
  updated_at = now;
}

abbrev with_readiness : ReadinessState → EnvironmentStatus → String → ℕ → Environment → Environment
with_readiness state status detail now e = record e {
  readiness_state = state;
  status = status;
  readiness_detail = detail;
  last_validated_at = some now;
}

-- The branch for a version that lacks secrets or whose region is not supported.
unfoldable pub fail_version : ℕ → String → Request → Exec Session Unit
fail_version binding_id detail r = do
  modify_binding binding_id (with_outcome BindingStatus.failed detail r.now)
  modify_environment r.environment.id
      (with_readiness ReadinessState.degraded EnvironmentStatus.degraded detail r.now)

-- The branch for a version that passes: it becomes active and the former active one deprecated.
unfoldable pub activate_version : ℕ → Option CapabilityBinding → Request → Exec Session Unit
activate_version binding_id former r = do
  modify_binding binding_id (with_outcome BindingStatus.active "validated" r.now)
  on_option former (pure tt) λ b.
      modify_binding b.id
        (with_status BindingStatus.deprecated "superseded_by_new_active_binding" r.actor r.now)
  modify_environment r.environment.id
      (with_readiness ReadinessState.ready EnvironmentStatus.active "bindings validated" r.now)

unfoldable pub create_binding_version :
    CapabilityType
    → ProviderCatalogEntry
    → JsonObject
    → Option String
    → List ℕ
    → Request
    → Exec Session CapabilityBinding
create_binding_version capability provider config_json region secret_ref_ids r = do
  branch (is_empty secret_ref_ids) (pure tt) (check_secret_boundary r.environment.id secret_ref_ids)
  former ← gets λ d. current_active r.environment.id capability.id d.bindings
  id ← gets λ d. next_key d.bindings
  let binding = new_binding id r capability.id provider.id config_json region former
  update λ d. record d { bindings = d.bindings ++ binding ∷ [] }
  flush
  update (add_links id secret_ref_ids)
  missing ← gets (required_secret_validation_detail id provider r.now)
  let region_valid = is_region_valid region provider.supported_regions
  let passes = is_empty missing.0 && region_valid
  let detail = failure_detail missing.0 missing.1 region_valid region
  branch passes (activate_version id former r) (fail_version id detail r)
  flush
  let status = if passes then BindingStatus.active else BindingStatus.failed
  record_audit_event
      (audit_event r "binding.version_created" "capability_binding" id (
        ("capability_key", text capability.key)
        ∷ ("provider_key", text provider.provider_key)
        ∷ ("status", text (binding_status_value status))
        ∷ []))
      r.now
  commit
  pure (with_outcome status (if passes then "validated" else detail) r.now binding)
