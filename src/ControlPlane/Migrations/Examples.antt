-- ===== src/ControlPlane/Migrations/Examples.antt =====
-- The reconciliation of a migration whose table keeps missing.
use post_base.Base.{
  Option, String, [], any_of, arith, false, get_row, modify, none, refl, some, ℕ, ◌∷◌, ◌≡◌, ◌≤◌,
}
use post_base.ControlPlane.Migrations.{
  DataProvider, affected_entities, attempt_reconciliation, derive_drift_severity,
  detect_migration_drift, drift_of, entities_of, execute_migration_reconciliation, load_definition,
  load_metadata, physical_drift, recreate, refresh_migration_reconciliation_state, write_migration,
}
use post_base.ControlPlane.Migrations.Budget.{
  creating, execute_migration_reconciliation-budget, execute_migration_reconciliation-exhausted,
  none_yet, one_more,
}
use post_base.Domain.Enums.{MigrationStatus, PolicyMode}
use post_base.Domain.Plans.{
  SchemaMigration, namespace_row, schema_migration_row, switchover_row, table_definition_row,
}
use post_base.Platform.Errors.{Error, Result, err, ok, runtime_error}
use post_base.Platform.Exec.{after_try, branch, on_option, pure, raise, try_block, ◌>>=◌}
use post_base.Platform.Session.{
  Db, Session, active_bindings_unique, active_versions_unique, binding_secrets_unique, flush, gets,
  is_active_in, is_active_version_of, is_link_of, is_version_of, secret_versions_unique, update,
}
use post_base.Domain.Models.{
  audit_log_row, binding_row, binding_secret_row, capability_type_row, catalog_row, environment_row,
  project_row, secret_ref_row, tenant_member_row,
}
use post_base.Events.Store.{channel_row, dead_letter_row, job_row}

abbrev provider : DataProvider
provider = record {
  create_namespace = λ namespace. pure tt;
  create_table = λ namespace definition. pure tt;
  table_exists = λ namespace name. pure false;
  list_table_columns = λ namespace name. pure [];
}

abbrev describe : Error → String
describe e = "error"

abbrev migration : ℕ → SchemaMigration
migration attempts = record {
  id = 1;
  environment_id = 1;
  namespace_id = 1;
  table_definition_id = some 1;
  version = "1";
  status = MigrationStatus.applied;
  reconciliation_status = "in_sync";
  drift_severity = "none";
  drift_entities = [];
  reconcile_attempt_count = attempts;
  reconcile_error_text = "";
  last_reconciled_at = none;
  applied_sql = "";
}

abbrev session : ℕ → Session
session attempts = record { db = tables; committed = tables; raced = []; expired = false }
  where
    tables : Db
    tables = record {
      tenant_members = [];
      projects = [];
      environments = [];
      capability_types = [];
      catalog = [];
      bindings = [];
      secrets = [];
      binding_secrets = [];
      audit_logs = [];
      switchovers = [];
      migrations = migration attempts ∷ [];
      namespaces =
          record {
            id = 1;
            environment_id = 1;
            name = "main";
            physical_schema = "env1_main";
            status = "active";
          }
          ∷ [];
      table_definitions =
          record {
            id = 1;
            namespace_id = 1;
            table_name = "orders";
            columns_json = some "total" ∷ [];
            policy_mode = PolicyMode.public;
            owner_column = none;
            status = "active";
            updated_at = 0;
          }
          ∷ [];
    }

abbrev once : Result SchemaMigration
once = (execute_migration_reconciliation provider describe 3 (migration 2) 100 (session 2)).0

abbrev value_of : Result SchemaMigration → SchemaMigration
value_of (ok m) = m
value_of (err e) = migration 0

count_of : Result SchemaMigration → Option ℕ
count_of (ok m) = some m.reconcile_attempt_count
count_of (err e) = none

returned : (x : Result SchemaMigration) → count_of x ≡ some 3 → x ≡ ok (value_of x)
unfolding count_of
returned (ok m) h = refl
returned (err e) h = absurd (cc)

third_attempt : count_of once ≡ some 3
unfolding count_of execute_migration_reconciliation refresh_migration_reconciliation_state
    detect_migration_drift affected_entities entities_of load_definition physical_drift drift_of
    derive_drift_severity any_of get_row write_migration modify update flush gets ◌>>=◌ pure branch
    attempt_reconciliation load_metadata on_option recreate try_block after_try
    active_bindings_unique active_versions_unique secret_versions_unique binding_secrets_unique
    is_version_of is_link_of is_active_in is_active_version_of
third_attempt = refl

execute_migration_reconciliation-budget_example :
    let y = value_of once in (y.reconcile_attempt_count ≤ 3) × (2 ≤ y.reconcile_attempt_count)
execute_migration_reconciliation-budget_example =
    execute_migration_reconciliation-budget provider describe 3 (migration 2) (value_of once)
      (one_more none_yet 100 (session 2) (value_of once) (returned once third_attempt))

execute_migration_reconciliation-exhausted_example :
    execute_migration_reconciliation
      (creating
        (λ namespace. raise (runtime_error "no"))
        (λ namespace definition. pure tt)
        provider)
      describe
      3
      (migration 3)
      100
      (session 3)
    ≡ execute_migration_reconciliation provider describe 3 (migration 3) 100 (session 3)
execute_migration_reconciliation-exhausted_example =
    execute_migration_reconciliation-exhausted (λ namespace. raise (runtime_error "no"))
      (λ namespace definition. pure tt) provider describe 3 (migration 3) 100 (session 3)
      (omega arith)
