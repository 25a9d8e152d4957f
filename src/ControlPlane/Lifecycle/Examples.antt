-- ===== src/ControlPlane/Lifecycle/Examples.antt =====
-- The life cycle at one small database.
use post_base.Base.{[], ap, false, inl, modify, none, refl, some, true, ◌++◌, ◌∷◌, ◌≡◌}
use post_base.ControlPlane.Lifecycle.{set_environment_lifecycle_state, set_project_lifecycle_state}
use post_base.ControlPlane.Lifecycle.Changes.{
  environment_after, set_environment_lifecycle_state-forbidden,
  set_environment_lifecycle_state-illegal, set_environment_lifecycle_state-ok,
  set_project_lifecycle_state-forbidden,
}
use post_base.ControlPlane.Lifecycle.Keeps.{
  set_environment_lifecycle_state-err, set_project_lifecycle_state-err,
}
use post_base.Domain.Enums.{EnvironmentStage, EnvironmentStatus, ReadinessState, TenantRole}
use post_base.Domain.Models.{
  AuditLog, Environment, Project, audit_log_row, binding_row, binding_secret_row,
  capability_type_row, catalog_row, environment_row, project_row, secret_ref_row, tenant_member_row,
}
use post_base.Events.Store.{channel_row, dead_letter_row, job_row}
use post_base.Platform.Audit.{Request}
use post_base.Platform.Errors.{
  control_plane_forbidden, environment_invalid_status_transition, err, http_exception, ok,
}
use post_base.Platform.Session.{
  Db, Session, active_bindings_unique, active_versions_unique, binding_secrets_unique, is_link_of,
  is_version_of, secret_versions_unique,
}
use post_base.Platform.Session.Consistent.{Consistent}
use post_base.Domain.Plans.{
  namespace_row, schema_migration_row, switchover_row, table_definition_row,
}
use post_base.ControlPlane.Lifecycle.Roles.{IsAdmin, IsNoAdmin}

abbrev project : Project
project = record {
  id = 1;
  tenant_id = 1;
  name = "shop";
  slug = "shop";
  description = "";
  is_active = true;
  updated_at = 0;
}

abbrev environment : Environment
environment = record {
  id = 1;
  project_id = 1;
  name = "dev";
  slug = "dev";
  stage = EnvironmentStage.development;
  region_preference = none;
  status = EnvironmentStatus.inactive;
  readiness_state = ReadinessState.ready;
  readiness_detail = "";
  env_policy_json = [];
  last_validated_at = none;
  is_active = true;
  updated_at = 0;
}

abbrev request : Request
request = record { actor = 7; project = project; environment = environment; now = 100 }

abbrev session : TenantRole → Session
session role = record { db = tables; committed = tables; raced = []; expired = false }
  where
    tables : Db
    tables = record {
      tenant_members =
          record { id = 1; tenant_id = 1; user_id = 7; role = role; is_active = true } ∷ [];
      projects = project ∷ [];
      environments = environment ∷ [];
      capability_types = [];
      catalog = [];
      bindings = [];
      secrets = [];
      binding_secrets = [];
      audit_logs = [];
      switchovers = [];
      migrations = [];
      namespaces = [];
      table_definitions = [];
    }

session-Consistent : Consistent (session TenantRole.admin)
unfolding active_bindings_unique active_versions_unique secret_versions_unique
    binding_secrets_unique is_version_of is_link_of
session-Consistent = record { bindings = refl; secrets = refl; versions = refl; links = refl }

is_admin : IsAdmin 1 7 (session TenantRole.admin).db.tenant_members
is_admin = (inl (refl, refl, refl), ((λ _ e. cc), tt))

is_no_admin : IsNoAdmin 1 7 (session TenantRole.member).db.tenant_members
is_no_admin = ((λ _. refl), tt)

set_environment_lifecycle_state-forbidden_example :
    set_environment_lifecycle_state none (some false) none request (session TenantRole.member) ≡ (
      err (http_exception 403 (control_plane_forbidden TenantRole.admin)),
      session TenantRole.member,
    )
set_environment_lifecycle_state-forbidden_example =
    set_environment_lifecycle_state-forbidden none (some false) none request
      (session TenantRole.member) is_no_admin

set_environment_lifecycle_state-illegal_example :
    set_environment_lifecycle_state
      (some EnvironmentStatus.degraded)
      none
      none
      request
      (session TenantRole.admin)
    ≡ (
      err (
          http_exception 409 (
            environment_invalid_status_transition 1 EnvironmentStatus.inactive
              EnvironmentStatus.degraded)),
      session TenantRole.admin,
    )
set_environment_lifecycle_state-illegal_example =
    set_environment_lifecycle_state-illegal none none request (session TenantRole.admin) is_admin
      refl

set_environment_lifecycle_state-ok_example :
    let s = session TenantRole.admin in
    let after = environment_after EnvironmentStatus.active (some false) none 100 in
    let (result, s') =
      set_environment_lifecycle_state (some EnvironmentStatus.active) (some false) none request s in
    (result ≡ ok (after environment))
    × ((log : AuditLog) × (s'.committed ≡ record s.db {
      environments = modify 1 after s.db.environments;
      audit_logs = s.db.audit_logs ++ log ∷ [];
    }))
set_environment_lifecycle_state-ok_example =
    set_environment_lifecycle_state-ok (some EnvironmentStatus.active) (some false) none request
      (session TenantRole.admin) session-Consistent is_admin (λ _ e. cc)

member-refused :
    (set_environment_lifecycle_state none (some false) none request (session TenantRole.member)).0
    ≡ err (http_exception 403 (control_plane_forbidden TenantRole.admin))
member-refused =
    ap (λ p. p.0)
      (set_environment_lifecycle_state-forbidden none (some false) none request
        (session TenantRole.member) is_no_admin)

set_environment_lifecycle_state-err_example :
    (set_environment_lifecycle_state none
      (some false)
      none
      request
      (session TenantRole.member)).1.committed
    ≡ (session TenantRole.member).committed
set_environment_lifecycle_state-err_example =
    set_environment_lifecycle_state-err none (some false) none request (session TenantRole.member)
      (http_exception 403 (control_plane_forbidden TenantRole.admin)) member-refused

set_project_lifecycle_state-forbidden_example :
    set_project_lifecycle_state project 7 false 100 (session TenantRole.member) ≡ (
      err (http_exception 403 (control_plane_forbidden TenantRole.admin)),
      session TenantRole.member,
    )
set_project_lifecycle_state-forbidden_example =
    set_project_lifecycle_state-forbidden project 7 false 100 (session TenantRole.member)
      is_no_admin

member-cannot_close :
    (set_project_lifecycle_state project 7 false 100 (session TenantRole.member)).0
    ≡ err (http_exception 403 (control_plane_forbidden TenantRole.admin))
member-cannot_close =
    ap (λ p. p.0)
      (set_project_lifecycle_state-forbidden project 7 false 100 (session TenantRole.member)
        is_no_admin)

set_project_lifecycle_state-err_example :
    (set_project_lifecycle_state project 7 false 100 (session TenantRole.member)).1.committed
    ≡ (session TenantRole.member).committed
set_project_lifecycle_state-err_example =
    set_project_lifecycle_state-err project 7 false 100 (session TenantRole.member)
      (http_exception 403 (control_plane_forbidden TenantRole.admin)) member-cannot_close
