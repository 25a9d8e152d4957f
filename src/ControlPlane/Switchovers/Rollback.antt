-- ===== src/ControlPlane/Switchovers/Rollback.antt =====
-- rollback_switchover_plan of backend/src/postbase/control_plane/service.py.
use post_base.Base.{[], false, get_row, some, ℕ, ◌∷◌}
use post_base.ControlPlane.Switchovers.Cutover.{
  Cutover, in_session, reads, run_cutover, write_binding, write_plan,
}
use post_base.Domain.Enums.{BindingStatus, SwitchoverStatus}
use post_base.Domain.Models.{
  CapabilityBinding, audit_log_row, binding_row, binding_secret_row, capability_type_row,
  catalog_row, environment_row, number, project_row, secret_ref_row, tenant_member_row,
}
use post_base.Domain.PlanEnums.{Phase}
use post_base.Domain.Plans.{
  SwitchoverPlan, namespace_row, schema_migration_row, switchover_row, table_definition_row,
}
use post_base.Events.Store.{channel_row, dead_letter_row, job_row}
use post_base.Platform.Audit.{Request, audit_event, record_audit_event}
use post_base.Platform.Errors.{http_exception, message}
use post_base.Platform.Exec.{Exec, require, ◌>>=◌, ◌>>◌}
use post_base.Platform.Session.{Session, commit, gets}
use post_base.ControlPlane.Switchovers.Progress.{binding_moved}

abbrev pub manually_restored : ℕ → Request → CapabilityBinding → CapabilityBinding
manually_restored previous =
    binding_moved previous BindingStatus.active "manual rollback restored prior provider version"
      "manual_switchover_rollback"

abbrev pub rolled_back_plan : ℕ → Request → SwitchoverPlan → SwitchoverPlan
rolled_back_plan previous r p = record p {
  execution_state = record p.execution_state {
    phase = Phase.manual_rollback_complete;
    rollback_checkpoint = record {
      required = false;
      previous_provider_catalog_entry_id = some previous;
    };
    manual_rollback = some (record { executed_at = r.now; actor_user_id = r.actor });
  };
  status = SwitchoverStatus.rolled_back;
  execution_detail = "manual rollback executed from stored checkpoint";
  completed_at = some r.now;
}

unfoldable pub restore_previous : Request → Exec Cutover SwitchoverPlan
restore_previous r = do
  c ← reads λ c. c
  previous ← in_session (
      require c.plan.execution_state.rollback_checkpoint.previous_provider_catalog_entry_id
        (http_exception 409 (message "No rollback checkpoint available")))
  write_binding (manually_restored previous r)
  write_plan (rolled_back_plan previous r)
  in_session (
      record_audit_event
        (audit_event r "binding.switchover_manually_rolled_back" "switchover_plan" c.plan.id (
          ("binding_id", number c.binding.id)
          ∷ ("rollback_provider_catalog_entry_id", number previous)
          ∷ []))
        r.now)
  in_session commit
  reads λ d. d.plan

unfoldable pub rollback_switchover_plan : SwitchoverPlan → Request → Exec Session SwitchoverPlan
rollback_switchover_plan switchover r = do
  row ← gets λ d. get_row switchover.capability_binding_id d.bindings
  binding ← require row (http_exception 404 (message "Binding not found"))
  run_cutover switchover binding (restore_previous r)
