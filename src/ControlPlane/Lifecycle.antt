-- ===== src/ControlPlane/Lifecycle.antt =====
-- Roles, and the life cycle of projects and environments: require_tenant_role,
-- require_project_access, LEGAL_ENVIRONMENT_STATUS_TRANSITIONS, set_project_lifecycle_state and
-- set_environment_lifecycle_state of backend/src/postbase/control_plane/service.py.
pub mod Keeps
pub mod Roles
pub mod Changes
mod Examples
use post_base.Base.{
  Bool, List, Option, String, [], contains, false, first_where, get_row, leb, modify, nat_eq, none,
  option_eq, or_default, some, string_eq, text_or, ℕ, ◌&&◌, ◌==◌, ◌||◌, ◌∷◌,
}
use post_base.Domain.Enums.{
  EnvironmentStatus, TenantRole, binding_status_eq, capability_key_eq,
  certification_approval_state_eq, certification_test_status_eq, environment_stage_eq,
  environment_status_eq, environment_status_value, migration_status_eq, policy_mode_eq,
  readiness_state_eq, secret_status_eq, switchover_status_eq, tenant_role_eq,
}
use post_base.Domain.Models.{
  Environment, Project, TenantMember, audit_log_row, binding_row, binding_secret_row,
  capability_type_row, catalog_row, environment_row, flag, project_row, secret_ref_row,
  tenant_member_row, text,
}
use post_base.Events.Store.{channel_row, dead_letter_row, job_row}
use post_base.Platform.Audit.{
  Request, add_audit_row, audit_event, record_audit_event, transition_key_eq,
}
use post_base.Platform.Errors.{
  control_plane_forbidden, environment_invalid_status_transition, http_exception,
}
use post_base.Platform.Exec.{Exec, pure, require, unless, ◌>>=◌, ◌>>◌}
use post_base.Platform.Session.{Session, commit, flush, gets, modify_environment, update}

-- ROLE_ORDER
unfoldable pub role_order : TenantRole → ℕ
role_order TenantRole.member = 0
role_order TenantRole.admin = 1
role_order TenantRole.owner = 2

-- The query for the active membership of a user in a tenant.
unfoldable pub membership : ℕ → ℕ → List TenantMember → Option TenantMember
unfolding first_where
membership tenant_id user_id =
    first_where λ m. m.tenant_id == tenant_id && (m.user_id == user_id && m.is_active)

unfoldable pub require_tenant_role : ℕ → ℕ → TenantRole → Exec Session TenantMember
require_tenant_role tenant_id user_id min_role = do
  found ← gets λ d. membership tenant_id user_id d.tenant_members
  m ← require found (http_exception 403 (control_plane_forbidden min_role))
  unless (leb (role_order min_role) (role_order m.role))
      (http_exception 403 (control_plane_forbidden min_role))
  pure m

unfoldable pub require_project_access : Project → ℕ → TenantRole → Exec Session TenantMember
require_project_access project user_id min_role =
    require_tenant_role project.tenant_id user_id min_role

unfoldable pub legal_environment_status_transitions : EnvironmentStatus → List EnvironmentStatus
legal_environment_status_transitions EnvironmentStatus.active =
    EnvironmentStatus.degraded ∷ EnvironmentStatus.inactive ∷ []
legal_environment_status_transitions EnvironmentStatus.degraded =
    EnvironmentStatus.active ∷ EnvironmentStatus.inactive ∷ []
legal_environment_status_transitions EnvironmentStatus.inactive = EnvironmentStatus.active ∷ []

abbrev pub with_activity : Bool → ℕ → Project → Project
with_activity is_active now p = record p { is_active = is_active; updated_at = now }

-- The audit event names no environment.
unfoldable pub set_project_lifecycle_state : Project → ℕ → Bool → ℕ → Exec Session Project
set_project_lifecycle_state project actor is_active now = do
  require_project_access project actor TenantRole.admin
  update λ d. record d { projects = modify project.id (with_activity is_active now) d.projects }
  flush
  record_audit_event
      (record {
        action = "project.lifecycle_updated";
        entity_type = "project";
        entity_id = project.id;
        actor_user_id = some actor;
        tenant_id = some project.tenant_id;
        project_id = some project.id;
        environment_id = none;
        payload = ("is_active", flag is_active) ∷ ("outcome", text "allowed") ∷ [];
      })
      now
  commit
  pure (with_activity is_active now project)

-- `target_status` after the two lines on `is_active`.
abbrev pub settled_status : Option Bool → EnvironmentStatus → EnvironmentStatus
settled_status (some false) target = EnvironmentStatus.inactive
settled_status _ target = target

unfoldable pub is_legal_change : EnvironmentStatus → EnvironmentStatus → Bool
is_legal_change current target =
    current == target || contains target (legal_environment_status_transitions current)

abbrev pub with_lifecycle :
    EnvironmentStatus → Option Bool → Option String → ℕ → Environment → Environment
with_lifecycle target is_active reason now e = record e {
  is_active = or_default is_active e.is_active;
  status = settled_status is_active target;
  readiness_detail = text_or reason e.readiness_detail;
  updated_at = now;
}

unfoldable pub set_environment_lifecycle_state :
    Option EnvironmentStatus → Option Bool → Option String → Request → Exec Session Environment
set_environment_lifecycle_state status_value is_active reason r = do
  require_project_access r.project r.actor TenantRole.admin
  let environment = r.environment
  let target = or_default status_value environment.status
  unless (is_legal_change environment.status target) (
      http_exception 409
        (environment_invalid_status_transition environment.id environment.status target))
  modify_environment environment.id (with_lifecycle target is_active reason r.now)
  flush
  record_audit_event
      (audit_event r "environment.lifecycle_updated" "environment" environment.id (
        ("status", text (environment_status_value (settled_status is_active target)))
        ∷ ("is_active", flag (or_default is_active environment.is_active))
        ∷ ("reason", text (or_default reason ""))
        ∷ ("outcome", text "allowed")
        ∷ []))
      r.now
  commit
  pure (with_lifecycle target is_active reason r.now environment)
