-- ===== src/ControlPlane/Quota.antt =====
-- evaluate_quota_state and enforce_quota_lifecycle of
-- backend/src/postbase/control_plane/service.py. The amounts are floats there; they are compared
-- only, so any type with a test `at_least` serves. `quota_utilization`, the one entry that is
-- computed by a division, decides nothing and is left out.
pub mod Limits
use post_base.Base.{
  Bool, Option, String, [], contains, if◌then◌else◌, nat_eq, none, not, option_eq, some, string_eq,
  ◌&&◌, ◌∷◌,
}
use post_base.Domain.Enums.{
  binding_status_eq, capability_key_eq, certification_approval_state_eq,
  certification_test_status_eq, environment_stage_eq, environment_status_eq, migration_status_eq,
  policy_mode_eq, readiness_state_eq, secret_status_eq, switchover_status_eq, tenant_role_eq,
}
use post_base.Platform.Audit.{transition_key_eq}

pub data QuotaState : Type 0 where
  healthy warning soft_limited hard_limited : QuotaState

pub data DegradationMode : Type 0 where
  no_degradation controlled blocked : DegradationMode

pub record QuotaEvaluation : Type 0 where
  pub quota_state : QuotaState
  pub quota_warning_triggered : Bool
  pub quota_soft_limited : Bool
  pub quota_hard_limited : Bool
  pub degradation_mode : DegradationMode

-- The detail of the 429 answers, or None where the call returns.
pub data QuotaError : Type 0 where
  quota_hard_limit_enforced quota_soft_limit_controlled_degradation : String → QuotaError

module _ {A : Type 0} (at_least : A → A → Bool) where
  unfoldable pub evaluate_quota_state : A → A → A → A → QuotaEvaluation
  evaluate_quota_state usage_total warning_threshold soft_limit hard_limit =
      let warning_triggered = at_least usage_total warning_threshold in
      let is_soft_limited = at_least usage_total soft_limit in
      let is_hard_limited = at_least usage_total hard_limit in
      record {
        quota_state =
            if is_hard_limited
            then hard_limited
            else if is_soft_limited
            then soft_limited
            else if warning_triggered
            then warning
            else healthy;
        quota_warning_triggered = warning_triggered;
        quota_soft_limited = is_soft_limited;
        quota_hard_limited = is_hard_limited;
        degradation_mode =
            if is_hard_limited
            then blocked
            else if is_soft_limited
            then controlled
            else no_degradation;
      }

  unfoldable pub enforce_quota_lifecycle : A → A → A → A → String → Option QuotaError
  unfolding evaluate_quota_state
  enforce_quota_lifecycle usage_total warning_threshold soft_limit hard_limit action =
      let state = evaluate_quota_state usage_total warning_threshold soft_limit hard_limit in
      let controlled_actions = "webhook_drain" ∷ "webhook_recover" ∷ "migrations" ∷ [] in
      if state.quota_hard_limited
      then some (quota_hard_limit_enforced action)
      else if state.quota_soft_limited && not (contains action controlled_actions)
      then some (quota_soft_limit_controlled_degradation action)
      else none
