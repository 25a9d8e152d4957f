-- ===== src/ControlPlane/Switchovers.antt =====
-- Switchover plans: create_switchover_plan of backend/src/postbase/control_plane/service.py, with
-- _load_provider_profiles, _validate_switchover_profiles, _is_region_compatible,
-- _build_switchover_preflight_report and _preflight_is_ready. The registry is one that bootstrap has
-- filled. A percentage and a rate are natural numbers, so the tests for negative ones are not there.
pub mod Cutover
pub mod Progress
pub mod Canary
pub mod Phases
pub mod Execute
pub mod Rollback
pub mod Reading
pub mod Frame
pub mod Stages
pub mod Restores
pub mod Failure
pub mod Outcome
pub mod Target
pub mod Fresh
pub mod Retry
pub mod Checkpoints
pub mod Manual
mod Examples
use Prim.Native.String.{◌++◌ as concat}
use post_base.Base.{
  Bool, List, Option, String, [], contains, false, first_where, get_row, if◌then◌else◌, is_empty,
  keep_if, leb, map, nat_eq, next_key, none, not, option_eq, or_default, some, string_eq, text_or,
  true, ℕ, ◌&&◌, ◌++◌, ◌==◌, ◌||◌, ◌∷◌,
}
use post_base.ControlPlane.Bindings.{required_operations, to_capability_key}
use post_base.ControlPlane.Required.{
  required_secret_validation_detail, sorted_difference, sorted_set,
}
use post_base.Domain.Enums.{
  CapabilityKey, MigrationStatus, SwitchoverStatus, binding_status_eq, capability_key_eq,
  certification_approval_state_eq, certification_test_status_eq, environment_stage_eq,
  environment_status_eq, migration_status_eq, policy_mode_eq, readiness_state_eq, secret_status_eq,
  switchover_status_eq, tenant_role_eq,
}
use post_base.Domain.Models.{
  CapabilityBinding, Environment, ProviderCatalogEntry, audit_log_row, binding_row,
  binding_secret_row, capability_type_row, catalog_row, environment_row, number, preflight_json,
  project_row, secret_ref_row, tenant_member_row, text,
}
use post_base.Domain.PlanEnums.{Phase, phase_eq, phases_eq}
use post_base.Domain.Plans.{
  ExecutionState, PreflightReport, RegionDetail, SchemaMigration, SwitchoverPlan,
  no_region_preference, region_not_supported, region_supported, schema_migration_row,
  switchover_row,
}
use post_base.Events.Store.{channel_row, dead_letter_row, job_row}
use post_base.Platform.Audit.{
  Request, add_audit_row, audit_event, audit_row, record_audit_event, transition_key_eq,
}
use post_base.Platform.Errors.{
  Error, attribute_error, cannot_replace, http_exception, message, missing_operations, ok,
  switchover_preflight_failed,
}
use post_base.Platform.Exec.{Exec, pure, require, unless, ◌>>=◌, ◌>>◌}
use post_base.Platform.Registry.{CapabilityProfile, ProviderRegistry, resolve}
use post_base.Platform.Session.{Session, commit, flush, gets, update}

unfoldable pub load_provider_profiles :
    ProviderRegistry
    → CapabilityKey
    → String
    → String
    → Exec Session (CapabilityProfile × CapabilityProfile)
load_provider_profiles registry capability_key current_provider_key target_provider_key = do
  current ← resolve registry capability_key current_provider_key
  target ← resolve registry capability_key target_provider_key
  pure (current.profile, target.profile)

unfoldable pub validate_switchover_profiles :
    CapabilityKey → CapabilityProfile → CapabilityProfile → Exec Session Unit
validate_switchover_profiles capability_key current_profile target_profile = do
  let missing =
      sorted_difference (required_operations capability_key) target_profile.supported_operations
  unless (is_empty missing)
      (http_exception 400 (missing_operations target_profile.provider_key missing))
  let lost =
      sorted_difference current_profile.supported_operations target_profile.supported_operations
  unless (is_empty lost) (
      http_exception 400
        (cannot_replace target_profile.provider_key current_profile.provider_key lost))

unfoldable pub is_region_compatible :
    List String → Option String → Option String → Bool × RegionDetail
is_region_compatible supported_regions requested_region environment_region_preference =
    let region = text_or requested_region (or_default environment_region_preference "") in
    if region == ""
    then (true, no_region_preference)
    else if contains "global" supported_regions || contains region supported_regions
    then (true, region_supported region)
    else (false, region_not_supported region (sorted_set supported_regions))

-- `blocking_statuses`
unfoldable pub is_blocking : ℕ → SchemaMigration → Bool
is_blocking environment_id m =
    m.environment_id == environment_id
    && contains m.status
        (MigrationStatus.pending ∷ MigrationStatus.queued ∷ MigrationStatus.failed ∷ [])

unfoldable pub build_switchover_preflight_report :
    ProviderRegistry
    → CapabilityBinding
    → ProviderCatalogEntry
    → Environment
    → ℕ
    → Exec Session PreflightReport
build_switchover_preflight_report registry binding target_provider environment now = do
  current_row ← gets λ d. get_row binding.provider_catalog_entry_id d.catalog
  current_provider ← require current_row (http_exception 404 (message "Current provider not found"))
  type_row ← gets λ d. get_row binding.capability_type_id d.capability_types
  capability_type ← require type_row (http_exception 404 (message "Capability not found"))
  capability_key ← to_capability_key capability_type.key
  profiles ←
      load_provider_profiles registry capability_key current_provider.provider_key
        target_provider.provider_key
  current ← resolve registry capability_key profiles.0.provider_key
  target ← resolve registry capability_key profiles.1.provider_key
  missing ← gets (required_secret_validation_detail binding.id target_provider now)
  let region =
      is_region_compatible profiles.1.supported_regions binding.region environment.region_preference
  unresolved_migrations ← gets λ d. keep_if (is_blocking environment.id) d.migrations
  pure record {
    health = record {
      ok = current.health.ready && target.health.ready;
      current_provider_ready = current.health.ready;
      target_provider_ready = target.health.ready;
      detail =
          concat "current="
            (concat current.health.detail (concat "; target=" target.health.detail));
    };
    secrets = record { ok = is_empty missing.0; missing_secret_kinds = missing.0 };
    region_compatibility = record {
      ok = region.0;
      detail = region.1;
      target_supported_regions = profiles.1.supported_regions;
    };
    migration_readiness = record {
      ok = is_empty unresolved_migrations;
      blocking_migrations = map (λ m. m.version) unresolved_migrations;
    };
  }

abbrev pub preflight_is_ready : PreflightReport → Bool
preflight_is_ready report =
    report.health.ok
    && (report.secrets.ok && (report.region_compatibility.ok && report.migration_readiness.ok))

unfoldable pub require_ready : PreflightReport → Exec Session Unit
require_ready report =
    unless (preflight_is_ready report) (http_exception 409 (switchover_preflight_failed report))

-- The arguments of create_switchover_plan that the client chooses.
pub record PlanRequest : Type 0 where
  pub target_provider_key : String
  pub strategy : String
  pub retirement_strategy : String
  pub canary_traffic_percent : ℕ
  pub canary_health_checkpoint_count : ℕ
  pub auto_abort_error_rate : ℕ
  pub simulated_canary_error_rate : Option ℕ

-- The four tests on the arguments.
unfoldable pub check_plan_request : PlanRequest → Exec Session Unit
check_plan_request p = do
  unless (contains p.retirement_strategy ("immediate" ∷ "deferred" ∷ "manual" ∷ []))
      (refuse "retirement_strategy must be one of ['deferred', 'immediate', 'manual']")
  unless (leb p.canary_traffic_percent 100)
      (refuse "canary_traffic_percent must be between 0 and 100")
  unless (leb 1 p.canary_health_checkpoint_count)
      (refuse "canary_health_checkpoint_count must be >= 1")
  unless (leb p.auto_abort_error_rate 1000000)
      (refuse "auto_abort_error_rate must be between 0 and 1")
  where
    refuse : String → Error
    refuse s = http_exception 400 (message s)

abbrev pub new_execution_state : PlanRequest → PreflightReport → ExecutionState
new_execution_state p report = record {
  phase = Phase.preflight;
  completed_phases = [];
  preflight_report = report;
  canary = record {
    traffic_percent = p.canary_traffic_percent;
    health_checkpoint_count = p.canary_health_checkpoint_count;
    auto_abort_error_rate = p.auto_abort_error_rate;
    simulated_error_rate = p.simulated_canary_error_rate;
    checkpoints = [];
    aborted = false;
    health_evidence_refs = [];
  };
  rollback_checkpoint = record { required = false; previous_provider_catalog_entry_id = none };
  retirement = record { strategy = p.retirement_strategy; status = "pending" };
  data_copy_job = none;
  cutover_checkpoints = [];
  last_error = none;
  rollback_safety_path = none;
  manual_rollback = none;
}

abbrev pub new_plan : ℕ → ℕ → ℕ → PlanRequest → PreflightReport → ℕ → SwitchoverPlan
new_plan id binding_id target_id p report actor = record {
  id = id;
  capability_binding_id = binding_id;
  target_provider_catalog_entry_id = target_id;
  strategy = p.strategy;
  retirement_strategy = p.retirement_strategy;
  status = SwitchoverStatus.pending;
  execution_detail = "phase:preflight; checkpoint:validated";
  execution_state = new_execution_state p report;
  canary_traffic_percent = p.canary_traffic_percent;
  canary_health_checkpoint_count = p.canary_health_checkpoint_count;
  auto_abort_error_rate = p.auto_abort_error_rate;
  requested_by_user_id = some actor;
  completed_at = none;
}

-- The query for the target provider.
unfoldable pub find_target : ℕ → String → List ProviderCatalogEntry → Option ProviderCatalogEntry
find_target capability_type_id provider_key =
    first_where λ p. p.capability_type_id == capability_type_id && p.provider_key == provider_key

unfoldable pub create_switchover_plan :
    ProviderRegistry → CapabilityBinding → PlanRequest → Request → Exec Session SwitchoverPlan
create_switchover_plan registry binding p r = do
  check_plan_request p
  target_row ← gets λ d. find_target binding.capability_type_id p.target_provider_key d.catalog
  target_provider ← require target_row (http_exception 404 (message "Target provider not found"))
  type_row ← gets λ d. get_row binding.capability_type_id d.capability_types
  capability_type ← require type_row (http_exception 404 (message "Capability not found"))
  capability_key ← to_capability_key capability_type.key
  current_row ← gets λ d. get_row binding.provider_catalog_entry_id d.catalog
  current_provider ← require current_row (attribute_error "provider_key")
  profiles ←
      load_provider_profiles registry capability_key current_provider.provider_key
        p.target_provider_key
  validate_switchover_profiles capability_key profiles.0 profiles.1
  report ← build_switchover_preflight_report registry binding target_provider r.environment r.now
  require_ready report
  id ← gets λ d. next_key d.switchovers
  let switchover = new_plan id binding.id target_provider.id p report r.actor
  update λ d. record d { switchovers = d.switchovers ++ switchover ∷ [] }
  flush
  record_audit_event
      (audit_event r "binding.switchover_planned" "switchover_plan" id (
        ("binding_id", number binding.id)
        ∷ ("target_provider_key", text p.target_provider_key)
        ∷ ("strategy", text p.strategy)
        ∷ ("retirement_strategy", text p.retirement_strategy)
        ∷ ("canary_traffic_percent", number p.canary_traffic_percent)
        ∷ ("canary_health_checkpoint_count", number p.canary_health_checkpoint_count)
        ∷ ("auto_abort_error_rate", number p.auto_abort_error_rate)
        ∷ ("preflight_report", preflight_json report)
        ∷ []))
      r.now
  commit
  pure switchover
