-- ===== src/Platform/Session.antt =====
-- The database session of one request (backend/src/db/session.py): the tables as the session sees
-- them, the tables as last committed, and the actions that the handlers are made of. SQLAlchemy and
-- PostgreSQL are not part of the repository; what is modelled of them is that a flush checks the
-- two partial unique indexes and the two unique constraints that domain/models.py declares for these
-- tables, that a commit flushes and makes the
-- session's tables the committed ones, and that a rollback goes back to those.
pub mod Rules
pub mod Consistent
use post_base.Base.{
  Bool, List, String, [], any_of, get_row, if◌then◌else◌, modify, nat_eq, not, option_eq, string_eq,
  true, ℕ, ◌&&◌, ◌++◌, ◌==◌, ◌∷◌,
}
use post_base.Domain.Enums.{
  BindingStatus, binding_status_eq, capability_key_eq, certification_approval_state_eq,
  certification_test_status_eq, environment_stage_eq, environment_status_eq, migration_status_eq,
  policy_mode_eq, readiness_state_eq, secret_status_eq, switchover_status_eq, tenant_role_eq,
}
use post_base.Domain.Models.{
  AuditLog, BindingSecretRef, CapabilityBinding, CapabilityType, Environment, Project,
  ProviderCatalogEntry, SecretRef, TenantMember, audit_log_row, binding_row, binding_secret_row,
  capability_type_row, catalog_row, environment_row, project_row, secret_ref_row, tenant_member_row,
}
use post_base.Platform.Errors.{
  Constraint, Result, active_binding, active_secret_version, binding_secret_link, err,
  integrity_error, missing_greenlet, ok, secret_version,
}
use post_base.Platform.Exec.{Exec, ◌>>=◌, ◌>>◌}
use post_base.Domain.Plans.{
  DataNamespace, SchemaMigration, SwitchoverPlan, TableDefinition, namespace_row,
  schema_migration_row, switchover_row, table_definition_row,
}
use post_base.Domain.PlanEnums.{phase_eq, phases_eq}

pub record Db : Type 0 where
  pub tenant_members : List TenantMember
  pub projects : List Project
  pub environments : List Environment
  pub capability_types : List CapabilityType
  pub catalog : List ProviderCatalogEntry
  pub bindings : List CapabilityBinding
  pub secrets : List SecretRef
  pub binding_secrets : List BindingSecretRef
  pub audit_logs : List AuditLog
  pub switchovers : List SwitchoverPlan
  pub migrations : List SchemaMigration
  pub namespaces : List DataNamespace
  pub table_definitions : List TableDefinition

-- `raced` holds the bindings that other transactions commit after this session has read the table:
-- a flush meets them in the index, and a read sees them only after a rollback. `expired` says that
-- the row objects that the handler holds have been expired, which a rollback does.
pub record Session : Type 0 where
  pub db : Db
  pub committed : Db
  pub raced : List CapabilityBinding
  pub expired : Bool

-- The index uq_postbase_capability_binding_active_per_capability_env.
unfoldable pub is_active_in : ℕ → ℕ → CapabilityBinding → Bool
is_active_in environment_id capability_type_id b =
    b.environment_id == environment_id
    && (b.capability_type_id == capability_type_id && b.status == BindingStatus.active)

unfoldable pub active_bindings_unique : List CapabilityBinding → Bool
active_bindings_unique [] = true
active_bindings_unique (b ∷ bs) =
    not (
      b.status == BindingStatus.active
      && any_of (is_active_in b.environment_id b.capability_type_id) bs)
    && active_bindings_unique bs

-- The index uq_postbase_secret_ref_active_version_per_name.
unfoldable pub is_active_version_of : ℕ → String → SecretRef → Bool
is_active_version_of environment_id name x =
    x.environment_id == environment_id && (x.name == name && x.is_active_version)

unfoldable pub active_versions_unique : List SecretRef → Bool
active_versions_unique [] = true
active_versions_unique (x ∷ xs) =
    not (x.is_active_version && any_of (is_active_version_of x.environment_id x.name) xs)
    && active_versions_unique xs

-- The constraint uq_postbase_secret_ref_env_name_version.
unfoldable pub is_version_of : ℕ → String → ℕ → SecretRef → Bool
is_version_of environment_id name version x =
    x.environment_id == environment_id && (x.name == name && x.version == version)

unfoldable pub secret_versions_unique : List SecretRef → Bool
secret_versions_unique [] = true
secret_versions_unique (x ∷ xs) =
    not (any_of (is_version_of x.environment_id x.name x.version) xs) && secret_versions_unique xs

-- The constraint uq_postbase_binding_secret_ref.
unfoldable pub is_link_of : ℕ → ℕ → BindingSecretRef → Bool
is_link_of binding_id secret_ref_id l =
    l.binding_id == binding_id && l.secret_ref_id == secret_ref_id

unfoldable pub binding_secrets_unique : List BindingSecretRef → Bool
binding_secrets_unique [] = true
binding_secrets_unique (l ∷ ls) =
    not (any_of (is_link_of l.binding_id l.secret_ref_id) ls) && binding_secrets_unique ls

-- `select(...)` and `db.get(...)`: what the session sees.
unfoldable pub gets : {A : Type 0} → (Db → A) → Exec Session A
gets f s = (ok (f s.db), s)

-- Assignments to attributes of row objects, and `db.add(...)`.
unfoldable pub update : (Db → Db) → Exec Session Unit
update f s = (ok tt, record s { db = f s.db })

-- `await db.flush()`
unfoldable pub flush : Exec Session Unit
unfolding active_bindings_unique active_versions_unique secret_versions_unique
    binding_secrets_unique is_active_in is_active_version_of is_version_of is_link_of any_of
flush s =
    if active_bindings_unique (s.raced ++ s.db.bindings)
    then if active_versions_unique s.db.secrets
      then if secret_versions_unique s.db.secrets
        then if binding_secrets_unique s.db.binding_secrets
          then (ok tt, s)
          else (err (integrity_error binding_secret_link), s)
        else (err (integrity_error secret_version), s)
      else (err (integrity_error active_secret_version), s)
    else (err (integrity_error active_binding), s)

unfoldable pub save : Exec Session Unit
save s = (ok tt, record s { committed = s.db })

-- `await db.commit()`
unfoldable pub commit : Exec Session Unit
unfolding flush save
commit = do flush; save

-- `await db.rollback()`
unfoldable pub rollback : Exec Session Unit
rollback s = (
  ok tt,
  record s {
    db = record s.committed { bindings = s.committed.bindings ++ s.raced };
    expired = true;
  },
)

-- The first read of an attribute of a row object after statements that may have expired it: an
-- AsyncSession cannot load the attribute there, and SQLAlchemy raises MissingGreenlet.
unfoldable pub read_row_object : Exec Session Unit
read_row_object s = if s.expired then (err missing_greenlet, s) else (ok tt, s)

abbrev pub after_flush : (Constraint → Exec Session Unit) → Result (Unit {0}) → Exec Session Unit
after_flush handler (err (integrity_error c)) s = handler c s
after_flush handler r s = (r, s)

-- `try: await db.flush()`, `except IntegrityError: handler`
unfoldable pub try_flush : (Constraint → Exec Session Unit) → Exec Session Unit
unfolding flush
try_flush handler s = after_flush handler (flush s).0 (flush s).1

unfoldable pub modify_binding : ℕ → (CapabilityBinding → CapabilityBinding) → Exec Session Unit
unfolding update modify
modify_binding id f = update λ d. record d { bindings = modify id f d.bindings }

unfoldable pub modify_environment : ℕ → (Environment → Environment) → Exec Session Unit
unfolding update modify
modify_environment id f = update λ d. record d { environments = modify id f d.environments }
