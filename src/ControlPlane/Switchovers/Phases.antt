-- ===== src/ControlPlane/Switchovers/Phases.antt =====
-- The phases of execute_switchover_plan in backend/src/postbase/control_plane/service.py.
use Prim.Native.String.{◌++◌ as concat}
use post_base.Base.{
  Bool, List, Option, String, [], false, get_row, if◌then◌else◌, keep_if, nat_eq, not, option_eq,
  some, string_eq, true, ℕ, ◌==◌, ◌∷◌,
}
use post_base.ControlPlane.Bindings.{validate_binding_activation_prerequisites}
use post_base.ControlPlane.Switchovers.{build_switchover_preflight_report, require_ready}
use post_base.ControlPlane.Switchovers.Cutover.{
  Cutover, in_session, reads, write_binding, write_plan,
}
use post_base.Domain.Enums.{
  BindingStatus, CapabilityKey, SwitchoverStatus, binding_status_eq, capability_key_eq,
  certification_approval_state_eq, certification_test_status_eq, environment_stage_eq,
  environment_status_eq, migration_status_eq, policy_mode_eq, readiness_state_eq, secret_status_eq,
  switchover_status_eq, tenant_role_eq,
}
use post_base.Domain.Models.{
  CapabilityBinding, audit_log_row, binding_row, binding_secret_row, capability_type_row,
  catalog_row, environment_row, project_row, secret_ref_row, tenant_member_row,
}
use post_base.Domain.PlanEnums.{Phase, executed_phases, phase_eq, phases_eq}
use post_base.Domain.Plans.{
  DataCopyJob, ExecutionState, PreflightReport, SwitchoverPlan, namespace_row, schema_migration_row,
  switchover_row, table_definition_row,
}
use post_base.Events.Store.{channel_row, dead_letter_row, job_row}
use post_base.Platform.Audit.{Request, transition_key_eq}
use post_base.Platform.Errors.{Error, http_exception, message, runtime_error}
use post_base.Platform.Exec.{Exec, branch, on_option, pure, require, unless, ◌>>=◌, ◌>>◌}
use post_base.Platform.Registry.{ProviderRegistry, resolve}
use post_base.Platform.Session.{flush, gets}
use post_base.ControlPlane.Switchovers.Canary.{run_canary}
use post_base.ControlPlane.Switchovers.Progress.{binding_moved, phase_done, unless_done, with_state}

abbrev restored_plan : SwitchoverPlan → SwitchoverPlan
restored_plan p = record p {
  execution_state = record p.execution_state {
    rollback_checkpoint = record p.execution_state.rollback_checkpoint { required = false };
    phase = Phase.preflight;
    completed_phases =
        keep_if (λ q. not (q == Phase.stage_target)) p.execution_state.completed_phases;
  };
  execution_detail = "checkpoint rollback restored; ready to resume";
  status = SwitchoverStatus.running;
}

-- The branch on `rollback_checkpoint.get("required")`.
unfoldable pub restore_checkpoint : Request → Exec Cutover Unit
unfolding keep_if
restore_checkpoint r = do
  checkpoint ← reads λ c. c.plan.execution_state.rollback_checkpoint
  branch checkpoint.required
      (on_option checkpoint.previous_provider_catalog_entry_id (pure tt) λ previous. do
        write_binding (
            binding_moved previous BindingStatus.active
              "rollback checkpoint restored previous provider" "switchover_checkpoint_rollback" r)
        write_plan restored_plan
        in_session flush)
      (pure tt)

abbrev pub with_report : PreflightReport → ExecutionState → ExecutionState
with_report report e = phase_done Phase.preflight (record e { preflight_report = report })

unfoldable pub run_preflight : ProviderRegistry → Request → Exec Cutover Unit
run_preflight registry r = do
  c ← reads λ c. c
  row ← in_session (gets λ d. get_row c.plan.target_provider_catalog_entry_id d.catalog)
  target_provider ←
      in_session (require row (http_exception 404 (message "Target provider not found")))
  report ←
      in_session
        (build_switchover_preflight_report registry c.binding target_provider r.environment r.now)
  in_session (require_ready report)
  write_plan (with_state "phase:preflight; checkpoint:validated" (with_report report))
  in_session flush

abbrev new_copy_job : ℕ → ℕ → DataCopyJob
new_copy_job switchover_id now = record {
  job_id = (switchover_id, now);
  status = "completed";
  copied_objects = 0;
  failed_objects = 0;
}

abbrev pub is_storage : Option CapabilityKey → Bool
is_storage key = key == some CapabilityKey.storage

abbrev pub with_copy_job : Option CapabilityKey → ℕ → ℕ → ExecutionState → ExecutionState
with_copy_job key id now e = record e {
  data_copy_job = if is_storage key then some (new_copy_job id now) else e.data_copy_job;
}

abbrev pub staged : Option CapabilityKey → ℕ → ℕ → ℕ → ExecutionState → ExecutionState
staged key id previous now e = phase_done Phase.stage_target (record (with_copy_job key id now e) {
  rollback_checkpoint = record {
    required = true;
    previous_provider_catalog_entry_id = some previous;
  };
})

unfoldable pub stage_target : Option CapabilityKey → Request → Exec Cutover Unit
stage_target key r = do
  c ← reads λ c. c
  write_binding (
      binding_moved c.plan.target_provider_catalog_entry_id BindingStatus.pending_validation
        "cutover staged on target provider" "switchover_stage_target" r)
  write_plan (
      with_state "phase:stage_target; checkpoint:rollback_ready"
        (staged key c.plan.id c.binding.provider_catalog_entry_id r.now))
  in_session flush

-- `checkpoint[key] = "verified"`
unfoldable pub verify : String → List (String × String) → List (String × String)
verify key [] = (key, "verified") ∷ []
verify key ((k, v) ∷ rest) = if k == key then (k, "verified") ∷ rest else (k, v) ∷ verify key rest

abbrev storage_checks : List (String × String) → List (String × String)
storage_checks xs =
    verify "retention_scheduler" (verify "metadata_roundtrip" (verify "signed_url_issuance" xs))

abbrev pub with_storage_checks : Option CapabilityKey → ExecutionState → ExecutionState
with_storage_checks key e = record e {
  cutover_checkpoints =
      if is_storage key then storage_checks e.cutover_checkpoints else e.cutover_checkpoints;
}

abbrev pub validated : Option CapabilityKey → ExecutionState → ExecutionState
validated key e = phase_done Phase.validate_cutover (with_storage_checks key e)

abbrev pub activated : Request → CapabilityBinding → CapabilityBinding
activated r b =
    binding_moved b.provider_catalog_entry_id BindingStatus.active "switchover target validated"
      "switchover_validate_cutover" r b

abbrev references_missing : Error
references_missing = http_exception 404 (message "Target switchover references are missing")

-- The assignments at the end of the phase.
unfoldable pub mark_validated : Option CapabilityKey → Request → Exec Cutover Unit
unfolding verify
mark_validated key r = do
  write_binding (activated r)
  write_plan (with_state "phase:validate_cutover; checkpoint:active_on_target" (validated key))
  in_session flush

unfoldable pub validate_cutover :
    ProviderRegistry → Option CapabilityKey → Request → Exec Cutover Unit
unfolding verify
validate_cutover registry key r = do
  c ← reads λ c. c
  row ← in_session (gets λ d. get_row c.plan.target_provider_catalog_entry_id d.catalog)
  target_provider ← in_session (require row references_missing)
  capability_key ← in_session (require key references_missing)
  target_adapter ← in_session (resolve registry capability_key target_provider.provider_key)
  in_session (
      unless target_adapter.health.ready (
        runtime_error
          (concat "target provider health validation failed: " target_adapter.health.detail)))
  in_session (validate_binding_activation_prerequisites registry c.binding target_provider r.now)
  mark_validated key r

abbrev pub retirement_status : String → String
retirement_status strategy =
    if strategy == "immediate"
    then "retired"
    else if strategy == "deferred"
    then "deferred"
    else "manual_action_required"

abbrev pub with_retirement : ExecutionState → ExecutionState
with_retirement e = record e {
  retirement = record e.retirement { status = retirement_status e.retirement.strategy };
}

abbrev pub retired : ExecutionState → ExecutionState
retired e = phase_done Phase.retire_old_binding (with_retirement e)

abbrev retirement_detail : String → String
retirement_detail strategy =
    concat "phase:retire_old_binding; strategy:"
      (concat strategy (concat "; status:" (retirement_status strategy)))

unfoldable pub retire_old_binding : Exec Cutover Unit
retire_old_binding = do
  p ← reads λ c. c.plan
  write_plan (with_state (retirement_detail p.execution_state.retirement.strategy) retired)
  in_session flush

abbrev pub completed_plan : ℕ → SwitchoverPlan → SwitchoverPlan
completed_plan now p = record p {
  execution_state = record p.execution_state {
    phase = Phase.completed;
    completed_phases = executed_phases;
    rollback_checkpoint = record p.execution_state.rollback_checkpoint { required = false };
  };
  status = SwitchoverStatus.completed;
  execution_detail = "switchover executed successfully with staged checkpoints";
  completed_at = some now;
}

-- The five phases under `try`.
unfoldable pub run_stages : ProviderRegistry → Option CapabilityKey → Request → Exec Cutover Unit
run_stages registry key r = do
  unless_done Phase.preflight (run_preflight registry r)
  unless_done Phase.stage_target (stage_target key r)
  unless_done Phase.canary (run_canary r)
  unless_done Phase.validate_cutover (validate_cutover registry key r)
  unless_done Phase.retire_old_binding retire_old_binding

-- The block under `try`.
unfoldable pub run_phases : ProviderRegistry → Option CapabilityKey → Request → Exec Cutover Unit
run_phases registry key r = do
  run_stages registry key r
  write_plan (completed_plan r.now)
  in_session flush
