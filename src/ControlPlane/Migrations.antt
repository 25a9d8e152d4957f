-- ===== src/ControlPlane/Migrations.antt =====
-- Drift and reconciliation of schema migrations: _derive_drift_severity, detect_migration_drift,
-- refresh_migration_reconciliation_state and execute_migration_reconciliation of
-- backend/src/postbase/control_plane/service.py. The data provider sends statements to PostgreSQL: its
-- four calls are an argument, and each may raise, read and write. SchemaMigration has no updated_at, so
-- touch_updated_at leaves a migration as it is. `describe` is the text of an exception.
pub mod Budget
mod Examples
use post_base.Base.{
  Bool, List, Option, String, [], any_of, false, get_row, if◌then◌else◌, is_empty, leb, map, modify,
  nat_eq, none, not, option_eq, some, string_eq, true, ℕ, ◌+◌, ◌==◌, ◌||◌, ◌∷◌,
}
use post_base.ControlPlane.Required.{sorted_difference}
use post_base.Domain.Enums.{
  MigrationStatus, binding_status_eq, capability_key_eq, certification_approval_state_eq,
  certification_test_status_eq, environment_stage_eq, environment_status_eq, migration_status_eq,
  policy_mode_eq, readiness_state_eq, secret_status_eq, switchover_status_eq, tenant_role_eq,
}
use post_base.Domain.Models.{
  audit_log_row, binding_row, binding_secret_row, capability_type_row, catalog_row, environment_row,
  project_row, secret_ref_row, tenant_member_row,
}
use post_base.Domain.PlanEnums.{phase_eq, phases_eq}
use post_base.Domain.Plans.{
  DataNamespace, DriftEntity, SchemaMigration, TableDefinition, column_entity, migration_entity,
  namespace_entity, namespace_row, schema_migration_row, switchover_row, table_definition_entity,
  table_definition_row, table_entity,
}
use post_base.Events.Store.{channel_row, dead_letter_row, job_row}
use post_base.Platform.Audit.{add_audit_row, audit_row, transition_key_eq}
use post_base.Platform.Errors.{Error}
use post_base.Platform.Exec.{Exec, after_try, branch, on_option, pure, try_block, ◌>>=◌, ◌>>◌}
use post_base.Platform.Session.{Db, Session, flush, gets, update}

pub record DataProvider : Type 0 where
  pub create_namespace : DataNamespace → Exec Session Unit
  pub create_table : DataNamespace → TableDefinition → Exec Session Unit
  pub table_exists : DataNamespace → String → Exec Session Bool
  pub list_table_columns : DataNamespace → String → Exec Session (List String)

abbrev pub is_table : DriftEntity → Bool
is_table (table_entity schema name) = true
is_table _ = false

abbrev pub is_namespace : DriftEntity → Bool
is_namespace (namespace_entity id) = true
is_namespace _ = false

unfoldable pub derive_drift_severity : List DriftEntity → String
unfolding any_of
derive_drift_severity affected_entities =
    if is_empty affected_entities
    then "none"
    else if any_of is_table affected_entities
    then "critical"
    else if any_of is_namespace affected_entities
    then "high"
    else "medium"

-- The names of the columns that have one.
unfoldable pub column_names : List (Option String) → List String
column_names [] = []
column_names (none ∷ cs) = column_names cs
column_names (some c ∷ cs) = c ∷ column_names cs

unfoldable pub missing_columns :
    DataProvider → DataNamespace → TableDefinition → Exec Session (List DriftEntity)
missing_columns provider namespace definition = do
  actual_columns ← provider.list_table_columns namespace definition.table_name
  pure (
      map (column_entity namespace.physical_schema definition.table_name)
        (sorted_difference ("id" ∷ column_names definition.columns_json) actual_columns))

-- What is missing in the database when both rows are there.
unfoldable pub physical_drift :
    DataProvider → DataNamespace → TableDefinition → Exec Session (List DriftEntity)
physical_drift provider namespace definition = do
  table_exists ← provider.table_exists namespace definition.table_name
  branch table_exists (missing_columns provider namespace definition)
      (pure (table_entity namespace.physical_schema definition.table_name ∷ []))

-- `await db.get(TableDefinition, id) if id else None`
unfoldable pub load_definition : Option ℕ → Db → Option TableDefinition
unfolding get_row
load_definition none d = none
load_definition (some id) d = get_row id d.table_definitions

-- The entity of a definition that the migration names and that is not there.
abbrev missing_definition : SchemaMigration → List DriftEntity
missing_definition migration = elim migration.table_definition_id [
  | none ↦ []
  | some id ↦ table_definition_entity id ∷ []
]

unfoldable pub entities_of :
    DataProvider
    → SchemaMigration
    → Option DataNamespace
    → Option TableDefinition
    → Exec Session (List DriftEntity)
entities_of provider migration none none =
    pure (namespace_entity migration.namespace_id ∷ missing_definition migration)
entities_of provider migration none (some definition) =
    pure (namespace_entity migration.namespace_id ∷ [])
entities_of provider migration (some namespace) none = pure (missing_definition migration)
entities_of provider migration (some namespace) (some definition) =
    physical_drift provider namespace definition

unfoldable pub affected_entities : DataProvider → SchemaMigration → Exec Session (List DriftEntity)
affected_entities provider migration = do
  namespace ← gets λ d. get_row migration.namespace_id d.namespaces
  definition ← gets (load_definition migration.table_definition_id)
  entities_of provider migration namespace definition

-- The status, the severity and the entities.
unfoldable pub drift_of : List DriftEntity → String × String × List DriftEntity
unfolding derive_drift_severity
drift_of entities =
    if is_empty entities
    then ("in_sync", derive_drift_severity entities, [])
    else ("drifted", derive_drift_severity entities, entities)

unfoldable pub detect_migration_drift :
    DataProvider → SchemaMigration → Exec Session (String × String × List DriftEntity)
detect_migration_drift provider migration = elim migration.status [
  | MigrationStatus.queued ↦ pure ("pending_apply", "none", [])
  | MigrationStatus.pending ↦ pure ("pending_apply", "none", [])
  | MigrationStatus.canceled ↦ pure ("canceled", "none", [])
  | MigrationStatus.failed ↦ pure ("drifted", "critical", migration_entity migration.id ∷ [])
  | MigrationStatus.applied ↦ do
    affected ← affected_entities provider migration
    pure (drift_of affected)
]

-- Assignments to attributes of the row object `m`, which is then `f m`.
unfoldable pub write_migration :
    (SchemaMigration → SchemaMigration) → SchemaMigration → Exec Session SchemaMigration
unfolding modify update
write_migration f m = do
  update λ d. record d { migrations = modify m.id (λ _. f m) d.migrations }
  flush
  pure (f m)

abbrev pub with_drift : (String × String × List DriftEntity) → ℕ → SchemaMigration → SchemaMigration
with_drift drift now m = record m {
  reconciliation_status = drift.0;
  drift_severity = drift.1;
  drift_entities = drift.2;
  reconcile_error_text = if drift.0 == "in_sync" then "" else m.reconcile_error_text;
  last_reconciled_at = some now;
}

unfoldable pub refresh_migration_reconciliation_state :
    DataProvider → SchemaMigration → ℕ → Exec Session SchemaMigration
refresh_migration_reconciliation_state provider migration now = do
  drift ← detect_migration_drift provider migration
  write_migration (with_drift drift now) migration

abbrev pub still_drifted : String → ℕ → SchemaMigration → SchemaMigration
still_drifted error now m = record m {
  reconcile_error_text = error;
  reconciliation_status = "drifted";
  last_reconciled_at = some now;
}

-- `namespace` and `definition`, where both rows are there.
unfoldable pub load_metadata : SchemaMigration → Db → Option (DataNamespace × TableDefinition)
unfolding load_definition get_row
load_metadata m d = elim (get_row m.namespace_id d.namespaces) [
  | none ↦ none
  | some namespace ↦ elim (load_definition m.table_definition_id d) [
    | none ↦ none
    | some definition ↦ some (namespace, definition)
  ]
]

-- The block under `try`, its handler, and the second refresh.
unfoldable pub recreate :
    DataProvider
    → (Error → String)
    → SchemaMigration
    → ℕ
    → DataNamespace × TableDefinition
    → Exec Session SchemaMigration
recreate provider describe m now (namespace, definition) = do
  outcome ←
      try_block do provider.create_namespace namespace; provider.create_table namespace definition
  after_try outcome (λ exc. write_migration (still_drifted (describe exc) now) m)
      λ _.
        refresh_migration_reconciliation_state provider (record m { reconcile_error_text = "" }) now

-- One attempt, which is counted before it starts.
unfoldable pub attempt_reconciliation :
    DataProvider → (Error → String) → SchemaMigration → ℕ → Exec Session SchemaMigration
attempt_reconciliation provider describe migration now = do
  m ←
      write_migration (λ x. record x { reconcile_attempt_count = x.reconcile_attempt_count + 1 })
        migration
  metadata ← gets (load_metadata m)
  on_option metadata
      (write_migration
        (still_drifted "metadata entities required for reconciliation are missing" now) m)
      (recreate provider describe m now)

unfoldable pub execute_migration_reconciliation :
    DataProvider → (Error → String) → ℕ → SchemaMigration → ℕ → Exec Session SchemaMigration
execute_migration_reconciliation provider describe max_retries migration now = do
  m ← refresh_migration_reconciliation_state provider migration now
  branch (m.reconciliation_status == "in_sync" || not (m.status == MigrationStatus.applied))
      (pure m)
      (branch (leb max_retries m.reconcile_attempt_count)
        (write_migration
          (λ x. record x { reconcile_error_text = "reconciliation retry budget exhausted" }) m)
        (attempt_reconciliation provider describe m now))
