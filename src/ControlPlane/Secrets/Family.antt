-- ===== src/ControlPlane/Secrets/Family.antt =====
-- Which bindings a rotation impacts.
-- The link leads from the binding to a version of the secret: its row has the same environment, name,
-- provider and kind.
use post_base.Base.{Any, List, get_row, nat_eq, option_eq, some, ℕ, ◌≡◌}
use post_base.ControlPlane.Secrets.{list_bindings_using_secret_family}
use post_base.ControlPlane.Switchovers.Restores.{binding_id}
use post_base.Domain.Enums.{
  binding_status_eq, capability_key_eq, certification_approval_state_eq,
  certification_test_status_eq, environment_stage_eq, environment_status_eq, migration_status_eq,
  policy_mode_eq, readiness_state_eq, secret_status_eq, switchover_status_eq, tenant_role_eq,
}
use post_base.Domain.Models.{
  BindingSecretRef, SecretRef, audit_log_row, binding_row, binding_secret_row, capability_type_row,
  catalog_row, environment_row, project_row, secret_ref_row, tenant_member_row,
}
use post_base.Domain.PlanEnums.{phase_eq, phases_eq}
use post_base.Domain.Plans.{
  namespace_row, schema_migration_row, switchover_row, table_definition_row,
}
use post_base.Events.Store.{channel_row, dead_letter_row, job_row}
use post_base.Platform.Audit.{transition_key_eq}

abbrev LinksTo : SecretRef → List SecretRef → ℕ → BindingSecretRef → Type 0
LinksTo secret_ref secrets binding_id l =
    (l.binding_id ≡ binding_id)
    × ((x : SecretRef) × (get_row l.secret_ref_id secrets ≡ some x)
        × (x.environment_id ≡ secret_ref.environment_id)
        × (x.name ≡ secret_ref.name)
        × (x.provider_key ≡ secret_ref.provider_key)
        × (x.secret_kind ≡ secret_ref.secret_kind))

abbrev pub IsLinked : SecretRef → List SecretRef → ℕ → List BindingSecretRef → Type 0
IsLinked secret_ref secrets binding_id = Any (LinksTo secret_ref secrets binding_id)

module _ (s : SecretRef) (secrets : List SecretRef) (id : ℕ) where
  abbrev listed : List BindingSecretRef → List ℕ
  listed = list_bindings_using_secret_family s secrets
