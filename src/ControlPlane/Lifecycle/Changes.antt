-- ===== src/ControlPlane/Lifecycle/Changes.antt =====
-- What set_environment_lifecycle_state refuses and what it writes.
use post_base.Base.{
  Bool, Option, String, [], ap, false, if◌then◌else◌, modify, none, or_default, refl, some, text_or,
  true, ℕ, ◌++◌, ◌∙◌, ◌∷◌, ◌≡◌, ◌≢◌,
}
use post_base.ControlPlane.Lifecycle.{
  is_legal_change, legal_environment_status_transitions, require_project_access,
  set_environment_lifecycle_state, set_project_lifecycle_state, with_lifecycle,
}
use post_base.Domain.Enums.{EnvironmentStatus, TenantRole}
use post_base.Domain.Models.{
  AuditLog, Environment, Project, audit_log_row, binding_row, binding_secret_row,
  capability_type_row, catalog_row, environment_row, project_row, secret_ref_row, tenant_member_row,
}
use post_base.Events.Store.{channel_row, dead_letter_row, job_row}
use post_base.Platform.Audit.{Request, add_audit_row, record_audit_event}
use post_base.Platform.Audit.Rules.{add_audit_row-Consistent}
use post_base.Platform.Errors.{
  control_plane_forbidden, environment_invalid_status_transition, err, http_exception, ok,
}
use post_base.Platform.Exec.{pure, unless}
use post_base.Platform.Exec.Rules.{bind-eq, bind-err}
use post_base.Platform.Session.{Session, commit, flush, modify_environment}
use post_base.Platform.Session.Consistent.{
  Consistent, commit-Consistent, flush-Consistent, with_logs, with_logs-Consistent,
}
use post_base.Platform.Session.Rules.{bind-update}
use post_base.Domain.Plans.{
  namespace_row, schema_migration_row, switchover_row, table_definition_row,
}
use post_base.ControlPlane.Lifecycle.Roles.{
  IsAdmin, IsNoAdmin, access-granted, access-refused, admin-has_role, has_role, no_admin-has_role,
}

-- An INACTIVE environment cannot be degraded; that is the one change that is not legal.
change-legal :
    (current target : EnvironmentStatus)
    → (current ≡ EnvironmentStatus.inactive → target ≢ EnvironmentStatus.degraded)
    → is_legal_change current target ≡ true
unfolding is_legal_change legal_environment_status_transitions
change-legal EnvironmentStatus.inactive EnvironmentStatus.degraded h = absurd (h refl refl)
change-legal EnvironmentStatus.inactive EnvironmentStatus.active h = refl
change-legal EnvironmentStatus.inactive EnvironmentStatus.inactive h = refl
change-legal EnvironmentStatus.active EnvironmentStatus.degraded h = refl
change-legal EnvironmentStatus.active EnvironmentStatus.active h = refl
change-legal EnvironmentStatus.active EnvironmentStatus.inactive h = refl
change-legal EnvironmentStatus.degraded EnvironmentStatus.degraded h = refl
change-legal EnvironmentStatus.degraded EnvironmentStatus.active h = refl
change-legal EnvironmentStatus.degraded EnvironmentStatus.inactive h = refl

degrade-illegal : is_legal_change EnvironmentStatus.inactive EnvironmentStatus.degraded ≡ false
unfolding is_legal_change legal_environment_status_transitions
degrade-illegal = refl

-- An actor who has no active membership in the environment's tenant but with the role `member` gets
-- 403, and nothing changes.
pub set_environment_lifecycle_state-forbidden :
    (status_value : Option EnvironmentStatus) (is_active : Option Bool) (reason : Option String)
    (r : Request) (s : Session)
    → IsNoAdmin r.project.tenant_id r.actor s.db.tenant_members
    → set_environment_lifecycle_state status_value is_active reason r s
      ≡ (err (http_exception 403 (control_plane_forbidden TenantRole.admin)), s)
unfolding set_environment_lifecycle_state
set_environment_lifecycle_state-forbidden status_value is_active reason r s h =
    bind-err (require_project_access r.project r.actor TenantRole.admin) _ (
      access-refused r.project r.actor TenantRole.admin s
        (no_admin-has_role r.project.tenant_id r.actor s.db.tenant_members h))

-- An admin or owner who degrades an INACTIVE environment gets 409, and nothing changes.
pub set_environment_lifecycle_state-illegal :
    (is_active : Option Bool) (reason : Option String) (r : Request) (s : Session)
    → IsAdmin r.project.tenant_id r.actor s.db.tenant_members
    → r.environment.status ≡ EnvironmentStatus.inactive
    → set_environment_lifecycle_state (some EnvironmentStatus.degraded) is_active reason r s ≡ (
      err (
          http_exception 409 (
            environment_invalid_status_transition r.environment.id EnvironmentStatus.inactive
              EnvironmentStatus.degraded)),
      s,
    )
unfolding set_environment_lifecycle_state unless
set_environment_lifecycle_state-illegal is_active reason r s h off =
    bind-eq (require_project_access r.project r.actor TenantRole.admin) _
      (access-granted r.project r.actor TenantRole.admin s
        (admin-has_role r.project.tenant_id r.actor s.db.tenant_members h)).1
    ∙ bind-err (unless (is_legal_change r.environment.status EnvironmentStatus.degraded) _) _
        (rw (off, degrade-illegal) refl)

-- The session after the write of the new life cycle state.
abbrev changed : EnvironmentStatus → Option Bool → Option String → Request → Session → Session
changed target is_active reason r s = record s {
  db = record s.db {
    environments =
        modify r.environment.id (with_lifecycle target is_active reason r.now) s.db.environments;
  };
}

-- The whole run, step by step.
set_environment-run :
    (status_value : Option EnvironmentStatus) (is_active : Option Bool) (reason : Option String)
    (r : Request) (s : Session)
    → Consistent s
    → has_role r.project.tenant_id r.actor TenantRole.admin s.db.tenant_members ≡ true
    → is_legal_change r.environment.status (or_default status_value r.environment.status) ≡ true
    → let target = or_default status_value r.environment.status in
      let t = changed target is_active reason r s in
      (log : AuditLog) × (set_environment_lifecycle_state status_value is_active reason r s ≡ (
        ok (with_lifecycle target is_active reason r.now r.environment),
        record (with_logs t (s.db.audit_logs ++ log ∷ [])) {
          committed = (with_logs t (s.db.audit_logs ++ log ∷ [])).db;
        },
      ))
unfolding set_environment_lifecycle_state unless modify_environment record_audit_event pure
set_environment-run status_value is_active reason r s c h legal =
    let target = or_default status_value r.environment.status in
    let t = changed target is_active reason r s in
    let ct : Consistent t = record {
      bindings = c.bindings;
      secrets = c.secrets;
      versions = c.versions;
      links = c.links;
    } in
    let audited = add_audit_row-Consistent _ none r.now t ct in
    (
      _,
      bind-eq (require_project_access r.project r.actor TenantRole.admin) _
            (access-granted r.project r.actor TenantRole.admin s h).1
          ∙ bind-eq (unless (is_legal_change r.environment.status target) _) _ (rw legal refl)
          ∙ bind-update _ _ s
          ∙ bind-eq flush _ (flush-Consistent t ct)
          ∙ bind-eq (add_audit_row _ none r.now) _ audited
          ∙ bind-eq commit _ (commit-Consistent (with_logs t _) (with_logs-Consistent t _ ct)),
    )

-- The status after the call: one that is switched off is INACTIVE.
abbrev pub status_after : EnvironmentStatus → Option Bool → EnvironmentStatus
status_after target is_active = elim is_active [
  | none ↦ target
  | some on ↦ if on then target else EnvironmentStatus.inactive
]

abbrev pub environment_after :
    EnvironmentStatus → Option Bool → Option String → ℕ → Environment → Environment
environment_after target is_active reason now e = record e {
  is_active = elim is_active [ none ↦ e.is_active | some on ↦ on ];
  status = status_after target is_active;
  readiness_detail = elim reason [
    | none ↦ e.readiness_detail
    | some t ↦ text_or (some t) e.readiness_detail
  ];
  updated_at = now;
}

with_lifecycle-eq :
    (target : EnvironmentStatus) (is_active : Option Bool) (reason : Option String) (now : ℕ)
    → with_lifecycle target is_active reason now ≡ environment_after target is_active reason now
with_lifecycle-eq target none none now = refl
with_lifecycle-eq target none (some t) now = refl
with_lifecycle-eq target (some true) none now = refl
with_lifecycle-eq target (some true) (some t) now = refl
with_lifecycle-eq target (some false) none now = refl
with_lifecycle-eq target (some false) (some t) now = refl

-- In a consistent session, a change by an admin or owner that does not degrade an INACTIVE
-- environment returns and commits. The environment's row has the activity that is given, the status
-- that is given or INACTIVE when it is switched off, the reason as its detail if there is one, and the
-- time of the call; one audit row is added, and nothing else in the tables changes.
pub set_environment_lifecycle_state-ok :
    (status_value : Option EnvironmentStatus) (is_active : Option Bool) (reason : Option String)
    (r : Request) (s : Session)
    → Consistent s
    → IsAdmin r.project.tenant_id r.actor s.db.tenant_members
    → (r.environment.status ≡ EnvironmentStatus.inactive
        → or_default status_value r.environment.status ≢ EnvironmentStatus.degraded)
    → let after =
        environment_after (or_default status_value r.environment.status) is_active reason r.now in
      let (result, s') = set_environment_lifecycle_state status_value is_active reason r s in
      (result ≡ ok (after r.environment))
      × ((log : AuditLog) × (s'.committed ≡ record s.db {
        environments = modify r.environment.id after s.db.environments;
        audit_logs = s.db.audit_logs ++ log ∷ [];
      }))
set_environment_lifecycle_state-ok status_value is_active reason r s c h legal =
    let target = or_default status_value r.environment.status in
    let (log, run) =
      set_environment-run status_value is_active reason r s c
        (admin-has_role r.project.tenant_id r.actor s.db.tenant_members h)
        (change-legal r.environment.status target legal) in
    let eq = with_lifecycle-eq target is_active reason r.now in
    rw run (
      ap (λ f. ok (f r.environment)) eq,
      (
        log,
        ap
            (λ f. record s.db {
              environments = modify r.environment.id f s.db.environments;
              audit_logs = s.db.audit_logs ++ log ∷ [];
            })
            eq,
      ),
    )

-- An actor who has no active membership in the project's tenant but with the role `member` cannot
-- change the project's activity: 403, and nothing changes.
pub set_project_lifecycle_state-forbidden :
    (project : Project) (actor : ℕ) (is_active : Bool) (now : ℕ) (s : Session)
    → IsNoAdmin project.tenant_id actor s.db.tenant_members
    → set_project_lifecycle_state project actor is_active now s
      ≡ (err (http_exception 403 (control_plane_forbidden TenantRole.admin)), s)
unfolding set_project_lifecycle_state
set_project_lifecycle_state-forbidden project actor is_active now s h =
    bind-err (require_project_access project actor TenantRole.admin) _ (
      access-refused project actor TenantRole.admin s
        (no_admin-has_role project.tenant_id actor s.db.tenant_members h))
