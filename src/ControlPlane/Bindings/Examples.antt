-- ===== src/ControlPlane/Bindings/Examples.antt =====
-- The theorems on bindings at one small database.
use post_base.Base.{
  List, [], any_of, ap, arith, false, first_where, get_row, inl, inr, keep_if, modify, none, refl,
  true, ℕ, ◌∷◌, ◌≡◌,
}
use post_base.ControlPlane.Bindings.Success.{IsSaved, checks, moved, set_binding_status-ok}
use post_base.Domain.Enums.{BindingStatus, EnvironmentStage, EnvironmentStatus, ReadinessState}
use post_base.Domain.Models.{
  CapabilityBinding, CapabilityType, Environment, Project, ProviderCatalogEntry, audit_log_row,
  binding_row, binding_secret_row, capability_type_row, catalog_row, environment_row, project_row,
  secret_ref_row, tenant_member_row,
}
use post_base.Platform.Audit.{Request}
use post_base.Platform.Errors.{
  Error, binding_active_uniqueness_conflict, binding_invalid_status_transition, err, http_exception,
  message, missing_greenlet, ok,
}
use post_base.Platform.Session.{
  Db, Session, active_bindings_unique, active_versions_unique, binding_secrets_unique, gets,
  is_active_in, is_link_of, is_version_of, secret_versions_unique,
}
use post_base.Platform.Session.Consistent.{Consistent}
use post_base.ControlPlane.Bindings.{
  assert_binding_transition_is_legal, check_activation, conflicting_active,
  legal_binding_status_transitions, set_binding_status, validate_binding_activation_prerequisites,
  with_status,
}
use post_base.ControlPlane.Bindings.Refusal.{
  retired-final, set_binding_status-raced, set_binding_status-refused, set_binding_status-rival,
}
use post_base.ControlPlane.Bindings.Status.{set_binding_status-err}
use post_base.ControlPlane.Bindings.Version.{
  create_binding_version-boundary, create_binding_version-err,
}
use post_base.ControlPlane.Required.{
  anchor_secrets, required_secret_validation_detail, resolved_kinds, sorted_difference, sorted_set,
}
use post_base.Events.Store.{channel_row, dead_letter_row, job_row}
use post_base.Platform.Exec.{branch, on_option, pure, raise, require, unless, ◌>>=◌}
use post_base.ControlPlane.Bindings.Create.{create_binding_version}
use post_base.Domain.Plans.{
  namespace_row, schema_migration_row, switchover_row, table_definition_row,
}

abbrev project : Project
project = record {
  id = 1;
  tenant_id = 1;
  name = "shop";
  slug = "shop";
  description = "";
  is_active = true;
  updated_at = 0;
}

abbrev environment : Environment
environment = record {
  id = 1;
  project_id = 1;
  name = "dev";
  slug = "dev";
  stage = EnvironmentStage.development;
  region_preference = none;
  status = EnvironmentStatus.active;
  readiness_state = ReadinessState.ready;
  readiness_detail = "";
  env_policy_json = [];
  last_validated_at = none;
  is_active = true;
  updated_at = 0;
}

abbrev request : Request
request = record { actor = 7; project = project; environment = environment; now = 100 }

abbrev capability : CapabilityType
capability = record { id = 1; key = "auth" }

abbrev provider : ProviderCatalogEntry
provider = record {
  id = 1;
  capability_type_id = 1;
  provider_key = "local";
  adapter_version = "1";
  required_secret_kinds = none;
  supported_regions = none;
}

abbrev binding : ℕ → BindingStatus → CapabilityBinding
binding id status = record {
  id = id;
  environment_id = 1;
  capability_type_id = 1;
  provider_catalog_entry_id = 1;
  status = status;
  readiness_detail = "";
  region = none;
  supersedes_binding_id = none;
  config_json = [];
  last_transition_actor_user_id = none;
  last_transition_reason = "";
  last_transition_at = none;
  updated_at = 0;
}

abbrev tables : List CapabilityBinding → Db
tables bindings = record {
  tenant_members = [];
  projects = project ∷ [];
  environments = environment ∷ [];
  capability_types = capability ∷ [];
  catalog = provider ∷ [];
  bindings = bindings;
  secrets = [];
  binding_secrets = [];
  audit_logs = [];
  switchovers = [];
  migrations = [];
  namespaces = [];
  table_definitions = [];
}

abbrev session : List CapabilityBinding → List CapabilityBinding → Session
session bindings raced = record {
  db = tables bindings;
  committed = tables bindings;
  raced = raced;
  expired = false;
}

abbrev fresh : CapabilityBinding
fresh = binding 1 BindingStatus.pending_validation

abbrev rival : CapabilityBinding
rival = binding 2 BindingStatus.active

abbrev alone : Session
alone = session (fresh ∷ []) []

abbrev contested : Session
contested = session (fresh ∷ rival ∷ []) []

abbrev retired : CapabilityBinding
retired = binding 1 BindingStatus.retired

alone-Consistent : Consistent alone
unfolding active_bindings_unique active_versions_unique secret_versions_unique
    binding_secrets_unique is_version_of is_link_of any_of
alone-Consistent = record { bindings = refl; secrets = refl; versions = refl; links = refl }

alone-checks : (checks [] fresh BindingStatus.active 100 alone).0 ≡ ok tt
unfolding assert_binding_transition_is_legal branch unless legal_binding_status_transitions
    check_activation gets require on_option pure raise validate_binding_activation_prerequisites
    required_secret_validation_detail conflicting_active ◌>>=◌ get_row first_where is_active_in
    sorted_difference sorted_set anchor_secrets resolved_kinds keep_if
alone-checks = refl

contested-checks :
    (checks [] fresh BindingStatus.active 100 contested).0
    ≡ err (http_exception 409 (binding_active_uniqueness_conflict 1 2))
unfolding assert_binding_transition_is_legal branch unless legal_binding_status_transitions
    check_activation gets require on_option pure raise validate_binding_activation_prerequisites
    required_secret_validation_detail conflicting_active ◌>>=◌ get_row first_where is_active_in
    sorted_difference sorted_set anchor_secrets resolved_kinds keep_if
contested-checks = refl

raced-checks :
    (checks [] fresh BindingStatus.active 100 (session (fresh ∷ []) (rival ∷ []))).0 ≡ ok tt
unfolding assert_binding_transition_is_legal branch unless legal_binding_status_transitions
    check_activation gets require on_option pure raise validate_binding_activation_prerequisites
    required_secret_validation_detail conflicting_active ◌>>=◌ get_row first_where is_active_in
    sorted_difference sorted_set anchor_secrets resolved_kinds keep_if
raced-checks = refl

raced-taken :
    active_bindings_unique (
      rival
      ∷ (moved fresh BindingStatus.active "manual_status_update" request
          (session (fresh ∷ []) (rival ∷ []))).db.bindings)
    ≡ false
unfolding active_bindings_unique any_of modify is_active_in
raced-taken = refl

set_binding_status-ok_example :
    let (result, s') = set_binding_status [] fresh BindingStatus.active none request alone in
    (result ≡ ok (with_status BindingStatus.active "manual_status_update" 7 100 fresh))
    × (s'.committed.bindings
        ≡ modify 1 (with_status BindingStatus.active "manual_status_update" 7 100) (fresh ∷ []))
    × IsSaved s'
set_binding_status-ok_example =
    set_binding_status-ok [] fresh BindingStatus.active none request alone refl alone-Consistent
      (record { keys = (tt, tt); slot = ((λ _. (refl, refl)), tt) }) alone-checks

set_binding_status-rival_example :
    (e : Error) × (set_binding_status [] fresh BindingStatus.active none request contested
      ≡ (err e, contested))
set_binding_status-rival_example =
    set_binding_status-rival [] fresh none request contested
      (inr (inl ((λ e. omega (arith, e)), refl, refl, refl)))

contested-raises :
    (set_binding_status [] fresh BindingStatus.active none request contested).0
    ≡ err (http_exception 409 (binding_active_uniqueness_conflict 1 2))
contested-raises =
    ap (λ p. p.0)
      (set_binding_status-refused [] fresh BindingStatus.active none request contested
        (http_exception 409 (binding_active_uniqueness_conflict 1 2)) contested-checks)

set_binding_status-err_example :
    (set_binding_status [] fresh BindingStatus.active none request contested).1.committed
    ≡ tables (fresh ∷ rival ∷ [])
set_binding_status-err_example =
    set_binding_status-err [] fresh BindingStatus.active none request contested
      (http_exception 409 (binding_active_uniqueness_conflict 1 2)) contested-raises

retired-final_example : set_binding_status [] retired BindingStatus.active none request alone ≡ (
  err (
      http_exception 409
        (binding_invalid_status_transition 1 BindingStatus.retired BindingStatus.active)),
  alone,
)
retired-final_example =
    retired-final [] retired BindingStatus.active none request alone refl (λ e. cc)

set_binding_status-raced_example :
    let s = session (fresh ∷ []) (rival ∷ []) in
    let (result, s') = set_binding_status [] fresh BindingStatus.active none request s in
    (result ≡ err missing_greenlet)
    × (s'.committed ≡ tables (fresh ∷ []))
    × (s'.db ≡ tables (fresh ∷ rival ∷ []))
set_binding_status-raced_example =
    set_binding_status-raced [] fresh BindingStatus.active none request
      (session (fresh ∷ []) (rival ∷ [])) raced-checks raced-taken

abbrev boundary_error : Error
boundary_error =
    http_exception 400
      (message "Tenant boundary violation: one or more secrets are outside the target environment")

create_binding_version-boundary_example :
    create_binding_version capability provider [] none (9 ∷ []) request alone
    ≡ (err boundary_error, alone)
create_binding_version-boundary_example =
    create_binding_version-boundary capability provider [] none (9 ∷ []) request alone (inl tt)

create_binding_version-raises :
    (create_binding_version capability provider [] none (9 ∷ []) request alone).0
    ≡ err boundary_error
create_binding_version-raises =
    ap (λ p. p.0)
      (create_binding_version-boundary capability provider [] none (9 ∷ []) request alone (inl tt))

create_binding_version-err_example :
    (create_binding_version capability provider [] none (9 ∷ []) request alone).1.committed
    ≡ tables (fresh ∷ [])
create_binding_version-err_example =
    create_binding_version-err capability provider [] none (9 ∷ []) request alone boundary_error
      create_binding_version-raises
