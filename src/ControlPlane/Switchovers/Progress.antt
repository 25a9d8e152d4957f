-- ===== src/ControlPlane/Switchovers/Progress.antt =====
-- The assignments that the phases of execute_switchover_plan in
-- backend/src/postbase/control_plane/service.py share.
use post_base.Base.{
  Bool, String, [], contains, nat_eq, option_eq, or_default, some, string_eq, ℕ, ◌++◌, ◌∷◌,
}
use post_base.ControlPlane.Switchovers.Cutover.{Cutover, reads}
use post_base.Domain.Enums.{
  BindingStatus, binding_status_eq, capability_key_eq, certification_approval_state_eq,
  certification_test_status_eq, environment_stage_eq, environment_status_eq, migration_status_eq,
  policy_mode_eq, readiness_state_eq, secret_status_eq, switchover_status_eq, tenant_role_eq,
}
use post_base.Domain.Models.{CapabilityBinding}
use post_base.Domain.PlanEnums.{Phase, phase_eq, phases_eq}
use post_base.Domain.Plans.{ExecutionState, SwitchoverPlan}
use post_base.Platform.Audit.{Request, transition_key_eq}
use post_base.Platform.Exec.{Exec, branch, pure, ◌>>=◌}

-- The lines that every change of the binding's status shares.
abbrev pub binding_moved :
    ℕ → BindingStatus → String → String → Request → CapabilityBinding → CapabilityBinding
binding_moved provider_id status detail reason r b = record b {
  provider_catalog_entry_id = provider_id;
  status = status;
  readiness_detail = detail;
  last_transition_actor_user_id = some r.actor;
  last_transition_reason = reason;
  last_transition_at = some r.now;
  updated_at = r.now;
}

-- `execution_state["phase"] = phase` and `completed_phases = [*completed_phases, phase]`
abbrev pub phase_done : Phase → ExecutionState → ExecutionState
phase_done phase e = record e { phase = phase; completed_phases = e.completed_phases ++ phase ∷ [] }

abbrev pub with_state : String → (ExecutionState → ExecutionState) → SwitchoverPlan → SwitchoverPlan
with_state detail f p = record p {
  execution_state = f p.execution_state;
  execution_detail = detail;
}

abbrev pub has_done : Phase → Cutover → Bool
has_done phase c = contains phase c.plan.execution_state.completed_phases

-- `if phase not in completed_phases: body`
unfoldable pub unless_done : Phase → Exec Cutover Unit → Exec Cutover Unit
unless_done phase body = do is_done ← reads (has_done phase); branch is_done (pure tt) body

abbrev pub previous_or_current : Cutover → ℕ
previous_or_current c =
    or_default c.plan.execution_state.rollback_checkpoint.previous_provider_catalog_entry_id
      c.binding.provider_catalog_entry_id
