-- ===== src/ControlPlane/Switchovers/Examples.antt =====
-- Switchovers at one small database.
use post_base.Base.{
  All, Bool, List, Option, String, [], any_of, false, first_where, get_row, if◌then◌else◌, keep_if,
  length, ltb, min, modify, next_key, none, not, refl, some, true, ℕ, ◌&&◌, ◌∷◌, ◌≡◌, ◌⊎◌,
}
use post_base.ControlPlane.Switchovers.{
  build_switchover_preflight_report, is_blocking, is_region_compatible, load_provider_profiles,
  new_plan, require_ready,
}
use post_base.Domain.Enums.{
  BindingStatus, CapabilityKey, EnvironmentStage, EnvironmentStatus, ReadinessState,
  SwitchoverStatus,
}
use post_base.Domain.Models.{
  CapabilityBinding, Environment, Project, ProviderCatalogEntry, audit_log_row, binding_row,
  binding_secret_row, capability_type_row, catalog_row, environment_row, project_row,
  secret_ref_row, tenant_member_row,
}
use post_base.Domain.Plans.{
  Checkpoint, PreflightReport, SwitchoverPlan, namespace_row, no_region_preference,
  schema_migration_row, switchover_row, table_definition_row,
}
use post_base.Events.Store.{channel_row, dead_letter_row, job_row}
use post_base.Platform.Audit.{
  Request, add_audit_row, record_audit_event, record_transition_audit_event_once,
}
use post_base.Platform.Errors.{Error, Result, err, ok}
use post_base.Platform.Registry.{ProviderAdapter, ProviderRegistry, find_factory, resolve}
use post_base.Platform.Session.{
  Db, Session, active_bindings_unique, active_versions_unique, binding_secrets_unique, commit,
  flush, gets, is_active_in, is_active_version_of, is_link_of, is_version_of, save,
  secret_versions_unique, update,
}
use post_base.ControlPlane.Bindings.{validate_binding_activation_prerequisites}
use post_base.ControlPlane.Required.{
  anchor_secrets, join, required_secret_validation_detail, resolved_kinds, sorted_difference,
  sorted_set,
}
use post_base.ControlPlane.Switchovers.Cutover.{
  Cutover, in_session, reads, run_cutover, write_binding, write_plan,
}
use post_base.Platform.Exec.{after_try, branch, on_option, pure, require, try_block, unless, ◌>>=◌}
use post_base.ControlPlane.Switchovers.Failure.{CommittedOn}
use post_base.ControlPlane.Switchovers.Fresh.{execute_switchover_plan-first}
use post_base.ControlPlane.Switchovers.Manual.{rollback_switchover_plan-restores}
use post_base.ControlPlane.Switchovers.Retry.{execute_switchover_plan-again}
use post_base.ControlPlane.Switchovers.Rollback.{restore_previous, rollback_switchover_plan}
use post_base.Domain.PlanEnums.{Phase}
use post_base.ControlPlane.Switchovers.Checkpoints.{evaluate_checkpoints-outcome}
use post_base.ControlPlane.Switchovers.Canary.{evaluate_checkpoints, new_checkpoint, run_canary}
use post_base.ControlPlane.Switchovers.Execute.{
  assert_switchover_state_invariants, cut_over, execute_switchover_plan, fail_switchover,
  finish_switchover, key_of_type,
}
use post_base.ControlPlane.Switchovers.Phases.{
  mark_validated, restore_checkpoint, retire_old_binding, run_phases, run_preflight, run_stages,
  stage_target, validate_cutover, verify,
}
use post_base.ControlPlane.Switchovers.Progress.{unless_done}

abbrev project : Project
project = record {
  id = 1;
  tenant_id = 1;
  name = "shop";
  slug = "shop";
  description = "";
  is_active = true;
  updated_at = 0;
}

abbrev environment : Environment
environment = record {
  id = 1;
  project_id = 1;
  name = "dev";
  slug = "dev";
  stage = EnvironmentStage.development;
  region_preference = none;
  status = EnvironmentStatus.active;
  readiness_state = ReadinessState.ready;
  readiness_detail = "";
  env_policy_json = [];
  last_validated_at = none;
  is_active = true;
  updated_at = 0;
}

abbrev request : Request
request = record { actor = 7; project = project; environment = environment; now = 100 }

abbrev provider : ℕ → String → ProviderCatalogEntry
provider id provider_key = record {
  id = id;
  capability_type_id = 1;
  provider_key = provider_key;
  adapter_version = "1";
  required_secret_kinds = none;
  supported_regions = none;
}

abbrev adapter : String → ProviderAdapter
adapter provider_key = record {
  profile = record {
    provider_key = provider_key;
    supported_operations = "create" ∷ "list" ∷ "invoke" ∷ "executions" ∷ [];
    supported_regions = "global" ∷ [];
    max_signed_url_ttl_seconds = none;
  };
  health = record { ready = true; detail = "ok" };
}

abbrev registry : ProviderRegistry
registry =
    (CapabilityKey.functions, "inline", adapter "inline")
    ∷ (CapabilityKey.functions, "celery", adapter "celery")
    ∷ []

abbrev binding : CapabilityBinding
binding = record {
  id = 1;
  environment_id = 1;
  capability_type_id = 1;
  provider_catalog_entry_id = 1;
  status = BindingStatus.active;
  readiness_detail = "";
  region = none;
  supersedes_binding_id = none;
  config_json = [];
  last_transition_actor_user_id = none;
  last_transition_reason = "";
  last_transition_at = some 0;
  updated_at = 0;
}

abbrev report : PreflightReport
report = record {
  health = record {
    ok = true;
    current_provider_ready = true;
    target_provider_ready = true;
    detail = "";
  };
  secrets = record { ok = true; missing_secret_kinds = [] };
  region_compatibility = record {
    ok = true;
    detail = no_region_preference;
    target_supported_regions = [];
  };
  migration_readiness = record { ok = true; blocking_migrations = [] };
}

abbrev plan_with : Option ℕ → SwitchoverPlan
plan_with rate =
    new_plan 1 1 2
      (record {
        target_provider_key = "celery";
        strategy = "cutover";
        retirement_strategy = "manual";
        canary_traffic_percent = 10;
        canary_health_checkpoint_count = 2;
        auto_abort_error_rate = 100000;
        simulated_canary_error_rate = rate;
      })
      report 7

abbrev session : SwitchoverPlan → Session
session plan = record { db = tables; committed = tables; raced = []; expired = false }
  where
    tables : Db
    tables = record {
      tenant_members = [];
      projects = project ∷ [];
      environments = environment ∷ [];
      capability_types = record { id = 1; key = "functions" } ∷ [];
      catalog = provider 1 "inline" ∷ provider 2 "celery" ∷ [];
      bindings = binding ∷ [];
      secrets = [];
      binding_secrets = [];
      audit_logs = [];
      switchovers = plan ∷ [];
      migrations = [];
      namespaces = [];
      table_definitions = [];
    }

abbrev describe : Error → String
describe e = "error"

found : (plan : SwitchoverPlan) → get_row 1 (session plan).db.bindings ≡ some binding
unfolding get_row
found plan = refl

abbrev run : Option ℕ → Result SwitchoverPlan × Session
run rate =
    execute_switchover_plan registry describe (plan_with rate) request (session (plan_with rate))

abbrev plan_of : Result SwitchoverPlan → SwitchoverPlan
plan_of (ok p) = p
plan_of (err e) = plan_with none

status_of : Result SwitchoverPlan → Option SwitchoverStatus
status_of (ok p) = some p.status
status_of (err e) = none

returned :
    (x : Result SwitchoverPlan) (status : SwitchoverStatus)
    → status_of x ≡ some status
    → x ≡ ok (plan_of x)
unfolding status_of
returned (ok p) status h = refl
returned (err e) status h = absurd (cc)

-- A plan as a canary over the threshold leaves it.
abbrev aborted_plan : SwitchoverPlan
aborted_plan = record (plan_with none) {
  status = SwitchoverStatus.failed;
  execution_state = record (plan_with none).execution_state {
    phase = Phase.rollback_complete;
    completed_phases = Phase.preflight ∷ Phase.stage_target ∷ Phase.canary ∷ [];
    rollback_checkpoint = record { required = false; previous_provider_catalog_entry_id = some 1 };
  };
}

abbrev again : Result SwitchoverPlan × Session
again = execute_switchover_plan registry describe aborted_plan request (session aborted_plan)

healthy_canary : status_of (run none).0 ≡ some SwitchoverStatus.completed
unfolding status_of execute_switchover_plan ◌>>=◌ gets require get_row unless key_of_type pure
    run_cutover cut_over restore_checkpoint reads branch write_plan in_session flush try_block
    any_of keep_if first_where modify next_key validate_binding_activation_prerequisites
    anchor_secrets join required_secret_validation_detail resolved_kinds sorted_difference
    sorted_set after_try write_binding assert_switchover_state_invariants fail_switchover
    finish_switchover evaluate_checkpoints mark_validated retire_old_binding run_canary run_phases
    run_preflight run_stages stage_target unless_done validate_cutover verify
    build_switchover_preflight_report is_blocking is_region_compatible load_provider_profiles
    require_ready add_audit_row record_audit_event record_transition_audit_event_once on_option
    find_factory resolve active_bindings_unique active_versions_unique secret_versions_unique
    binding_secrets_unique is_version_of is_link_of commit is_active_in is_active_version_of save
    update
healthy_canary = refl

aborting_canary :
    (plan_of (run (some 500000)).0).execution_state.completed_phases
    ≡ Phase.preflight ∷ Phase.stage_target ∷ Phase.canary ∷ []
unfolding status_of execute_switchover_plan ◌>>=◌ gets require get_row unless key_of_type pure
    run_cutover cut_over restore_checkpoint reads branch write_plan in_session flush try_block
    any_of keep_if first_where modify next_key validate_binding_activation_prerequisites
    anchor_secrets join required_secret_validation_detail resolved_kinds sorted_difference
    sorted_set after_try write_binding assert_switchover_state_invariants fail_switchover
    finish_switchover evaluate_checkpoints mark_validated retire_old_binding run_canary run_phases
    run_preflight run_stages stage_target unless_done validate_cutover verify
    build_switchover_preflight_report is_blocking is_region_compatible load_provider_profiles
    require_ready add_audit_row record_audit_event record_transition_audit_event_once on_option
    find_factory resolve active_bindings_unique active_versions_unique secret_versions_unique
    binding_secrets_unique is_version_of is_link_of commit is_active_in is_active_version_of save
    update
aborting_canary = refl

second_run : status_of again.0 ≡ some SwitchoverStatus.completed
unfolding status_of execute_switchover_plan ◌>>=◌ gets require get_row unless key_of_type pure
    run_cutover cut_over restore_checkpoint reads branch write_plan in_session flush try_block
    any_of keep_if first_where modify next_key validate_binding_activation_prerequisites
    anchor_secrets join required_secret_validation_detail resolved_kinds sorted_difference
    sorted_set after_try write_binding assert_switchover_state_invariants fail_switchover
    finish_switchover evaluate_checkpoints mark_validated retire_old_binding run_canary run_phases
    run_preflight run_stages stage_target unless_done validate_cutover verify
    build_switchover_preflight_report is_blocking is_region_compatible load_provider_profiles
    require_ready add_audit_row record_audit_event record_transition_audit_event_once on_option
    find_factory resolve active_bindings_unique active_versions_unique secret_versions_unique
    binding_secrets_unique is_version_of is_link_of commit is_active_in is_active_version_of save
    update
second_run = refl

execute_switchover_plan-first_example :
    let s' = (run none).1 in
    let p = plan_of (run none).0 in
    ((p.status ≡ SwitchoverStatus.failed) × CommittedOn 1 1 s')
    ⊎ ((p.status ≡ SwitchoverStatus.completed) × CommittedOn 1 2 s')
execute_switchover_plan-first_example =
    execute_switchover_plan-first registry describe (plan_with none) binding request
      (session (plan_with none)) (record { phases = refl; checkpoint = refl })
      (found (plan_with none)) (plan_of (run none).0)
      (returned (run none).0 SwitchoverStatus.completed healthy_canary)

execute_switchover_plan-again_example :
    let p = plan_of again.0 in
    ((p.status ≡ SwitchoverStatus.failed) ⊎ (p.status ≡ SwitchoverStatus.completed))
    × CommittedOn 1 1 again.1
execute_switchover_plan-again_example =
    execute_switchover_plan-again registry describe aborted_plan binding request
      (session aborted_plan) (record { is_staged = refl; required = refl; previous = refl }) refl
      (found aborted_plan) (plan_of again.0)
      (returned again.0 SwitchoverStatus.completed second_run)

abbrev cutover : Cutover
cutover = record { session = session (plan_with none); plan = plan_with none; binding = binding }

abbrev loop : Result (List Checkpoint × Bool)
loop = (evaluate_checkpoints request (plan_with none) 500000 2 1 cutover).0

abbrev stopped : List Checkpoint × Bool
stopped = (new_checkpoint (plan_with none) 500000 1 ∷ [], true)

loop_stops : loop ≡ ok stopped
unfolding evaluate_checkpoints in_session record_audit_event add_audit_row gets update flush branch
    pure ◌>>=◌ next_key active_bindings_unique active_versions_unique secret_versions_unique
    binding_secrets_unique is_version_of is_link_of any_of is_active_in is_active_version_of
loop_stops = refl

evaluate_checkpoints-outcome_example :
    (stopped.1 ≡ (ltb 100000 500000 && ltb 0 2))
    × (length stopped.0 ≡ (if ltb 100000 500000 then min 1 2 else 2))
    × All (λ x. x.healthy ≡ not (ltb 100000 500000)) stopped.0
evaluate_checkpoints-outcome_example =
    evaluate_checkpoints-outcome request (plan_with none) 500000 2 cutover stopped loop_stops

abbrev rolled_back : Result SwitchoverPlan × Session
rolled_back = rollback_switchover_plan aborted_plan request (session aborted_plan)

manual_run : status_of rolled_back.0 ≡ some SwitchoverStatus.rolled_back
unfolding status_of rollback_switchover_plan ◌>>=◌ gets require get_row pure run_cutover reads
    write_plan in_session flush any_of modify next_key write_binding restore_previous add_audit_row
    record_audit_event active_bindings_unique active_versions_unique secret_versions_unique
    binding_secrets_unique is_version_of is_link_of commit is_active_in is_active_version_of save
    update
manual_run = refl

rollback_switchover_plan-restores_example :
    ((plan_of rolled_back.0).status ≡ SwitchoverStatus.rolled_back) × CommittedOn 1 1 rolled_back.1
rollback_switchover_plan-restores_example =
    rollback_switchover_plan-restores aborted_plan binding request (session aborted_plan) 1
      (found aborted_plan) refl (plan_of rolled_back.0)
      (returned rolled_back.0 SwitchoverStatus.rolled_back manual_run)
