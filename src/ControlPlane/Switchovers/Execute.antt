-- ===== src/ControlPlane/Switchovers/Execute.antt =====
-- execute_switchover_plan of backend/src/postbase/control_plane/service.py around its phases.
-- `describe` is the text of an exception.
use Prim.Native.String.{◌++◌ as concat}
use post_base.Base.{
  Option, String, [], contains, false, get_row, is_some, nat_eq, none, not, option_eq, some,
  string_eq, ℕ, ◌&&◌, ◌==◌, ◌∷◌,
}
use post_base.ControlPlane.Bindings.{to_capability_key}
use post_base.ControlPlane.Switchovers.Cutover.{
  Cutover, in_session, reads, run_cutover, write_binding, write_plan,
}
use post_base.Domain.Enums.{
  BindingStatus, CapabilityKey, SwitchoverStatus, binding_status_eq, capability_key_eq,
  certification_approval_state_eq, certification_test_status_eq, environment_stage_eq,
  environment_status_eq, migration_status_eq, policy_mode_eq, readiness_state_eq, secret_status_eq,
  switchover_status_eq, tenant_role_eq,
}
use post_base.Domain.Models.{
  CapabilityType, audit_log_row, binding_row, binding_secret_row, capability_type_row, catalog_row,
  environment_row, health_refs_json, number, project_row, secret_ref_row, switchover_completed,
  switchover_failed, tenant_member_row, text,
}
use post_base.Domain.PlanEnums.{Phase, executed_phases, phase_eq, phase_value, phases_eq}
use post_base.Domain.Plans.{
  SwitchoverPlan, namespace_row, schema_migration_row, switchover_row, table_definition_row,
}
use post_base.Events.Store.{channel_row, dead_letter_row, job_row}
use post_base.Platform.Audit.{
  Request, audit_event, record_transition_audit_event_once, transition_key_eq,
}
use post_base.Platform.Errors.{Error, http_exception, message, runtime_error}
use post_base.Platform.Exec.{Exec, after_try, branch, pure, require, try_block, unless, ◌>>=◌, ◌>>◌}
use post_base.Platform.Registry.{ProviderRegistry}
use post_base.Platform.Session.{Session, commit, flush, gets}
use post_base.ControlPlane.Switchovers.Phases.{restore_checkpoint, run_phases}
use post_base.ControlPlane.Switchovers.Progress.{binding_moved, previous_or_current}

abbrev pub failed_plan : ℕ → String → ℕ → SwitchoverPlan → SwitchoverPlan
failed_plan previous error now p = record p {
  execution_state = record p.execution_state {
    rollback_checkpoint = record {
      required = false;
      previous_provider_catalog_entry_id = some previous;
    };
    phase = Phase.rollback_complete;
    last_error = some error;
    rollback_safety_path =
        some (record { restored_provider_catalog_entry_id = previous; restored_at = now });
  };
  status = SwitchoverStatus.failed;
  execution_detail = concat "rollback_complete:" error;
  completed_at = some now;
}

-- The block under `except Exception as exc`.
unfoldable pub fail_switchover : (Error → String) → Request → Error → Exec Cutover SwitchoverPlan
fail_switchover describe r exc = do
  c ← reads λ c. c
  let previous = previous_or_current c
  write_binding (
      binding_moved previous BindingStatus.active "switchover rollback to previous provider"
        "switchover_rollback" r)
  write_plan (failed_plan previous (describe exc) r.now)
  in_session flush
  in_session (
      record_transition_audit_event_once (switchover_failed c.plan.id r.now)
        (audit_event r "binding.switchover_failed" "switchover_plan" c.plan.id (
          ("binding_id", number c.binding.id)
          ∷ ("rollback_provider_catalog_entry_id", number previous)
          ∷ []))
        r.now)
  in_session commit
  reads λ d. d.plan

-- _assert_switchover_state_invariants
unfoldable pub assert_switchover_state_invariants : SwitchoverPlan → Exec Cutover Unit
assert_switchover_state_invariants p =
    branch (p.status == SwitchoverStatus.completed)
      (do
        unless
            (p.execution_state.phase == Phase.completed
              && p.execution_state.completed_phases == executed_phases)
            (runtime_error
              "switchover invariant violated: completed switchover must have completed phase state")
        unless (is_some p.completed_at) (
            runtime_error
              "switchover invariant violated: completed switchover must have completed_at"))
      (pure tt)

-- What follows the `try` block.
unfoldable pub finish_switchover : Request → Exec Cutover SwitchoverPlan
finish_switchover r = do
  c ← reads λ c. c
  let p = c.plan
  in_session (
      record_transition_audit_event_once (switchover_completed p.id r.now)
        (audit_event r "binding.switchover_executed" "switchover_plan" p.id (
          ("binding_id", number c.binding.id)
          ∷ ("strategy", text p.strategy)
          ∷ ("retirement_strategy", text p.retirement_strategy)
          ∷ ("execution_phase", text (phase_value p.execution_state.phase))
          ∷ ("health_evidence_refs", health_refs_json p.execution_state.canary.health_evidence_refs)
          ∷ []))
        r.now)
  in_session commit
  assert_switchover_state_invariants p
  pure p

-- From the restore branch on.
unfoldable pub cut_over :
    ProviderRegistry
    → (Error → String)
    → Option CapabilityKey
    → Request
    → Exec Cutover SwitchoverPlan
cut_over registry describe key r = do
  restore_checkpoint r
  write_plan λ p. record p { status = SwitchoverStatus.running }
  in_session flush
  outcome ← try_block (run_phases registry key r)
  after_try outcome (fail_switchover describe r) λ _. finish_switchover r

-- The key of the binding's capability type, None without one.
unfoldable pub key_of_type : Option CapabilityType → Exec Session (Option CapabilityKey)
key_of_type none = pure none
key_of_type (some t) = to_capability_key t.key >>= λ key. pure (some key)

unfoldable pub execute_switchover_plan :
    ProviderRegistry → (Error → String) → SwitchoverPlan → Request → Exec Session SwitchoverPlan
execute_switchover_plan registry describe switchover r = do
  row ← gets λ d. get_row switchover.capability_binding_id d.bindings
  binding ← require row (http_exception 404 (message "Binding not found"))
  unless (not (switchover.status == SwitchoverStatus.completed))
      (http_exception 400 (message "Switchover is already completed"))
  unless
      (contains switchover.status
        (SwitchoverStatus.pending ∷ SwitchoverStatus.running ∷ SwitchoverStatus.failed ∷ []))
      (http_exception 400 (message "Switchover cannot be resumed"))
  capability_type ← gets λ d. get_row binding.capability_type_id d.capability_types
  key ← key_of_type capability_type
  run_cutover switchover binding (cut_over registry describe key r)
