-- ===== src/ControlPlane/Quota/Limits.antt =====
-- What the quota refuses.
mod Examples
use post_base.Base.{
  Bool, String, [], arith, contains, if◌then◌else◌, nat_eq, none, option_eq, some, string_eq, ◌∷◌,
  ◌≡◌,
}
use post_base.ControlPlane.Quota.{
  blocked, controlled, enforce_quota_lifecycle, evaluate_quota_state, no_degradation,
  quota_hard_limit_enforced, quota_soft_limit_controlled_degradation,
}
use post_base.Domain.Enums.{
  binding_status_eq, capability_key_eq, certification_approval_state_eq,
  certification_test_status_eq, environment_stage_eq, environment_status_eq, migration_status_eq,
  policy_mode_eq, readiness_state_eq, secret_status_eq, switchover_status_eq, tenant_role_eq,
}
use post_base.Platform.Audit.{transition_key_eq}
use post_base.Domain.PlanEnums.{phase_eq, phases_eq}

-- The mode of degradation says which actions are refused: all of them when `blocked`, those that are
-- not controlled when `controlled`, none otherwise.
pub enforce_quota_lifecycle-mode :
    {A : Type 0} (at_least : A → A → Bool) (usage_total warning_threshold soft_limit hard_limit : A)
    (action : String)
    → enforce_quota_lifecycle at_least usage_total warning_threshold soft_limit hard_limit action
      ≡ (elim (evaluate_quota_state at_least usage_total warning_threshold soft_limit
          hard_limit).degradation_mode [
            | blocked ↦ some (quota_hard_limit_enforced action)
            | controlled ↦
                if contains action ("webhook_drain" ∷ "webhook_recover" ∷ "migrations" ∷ [])
                then none
                else some (quota_soft_limit_controlled_degradation action)
            | no_degradation ↦ none
          ])
unfolding enforce_quota_lifecycle evaluate_quota_state
enforce_quota_lifecycle-mode at_least u w s h action = ground arith
