-- ===== src/ControlPlane/Quota/Limits/Examples.antt =====
-- The quota on numbers.
use post_base.Base.{
  Bool, String, [], contains, if◌then◌else◌, leb, nat_eq, none, option_eq, some, string_eq, ℕ, ◌∷◌,
  ◌≡◌,
}
use post_base.ControlPlane.Quota.{
  blocked, controlled, enforce_quota_lifecycle, evaluate_quota_state, no_degradation,
  quota_hard_limit_enforced, quota_soft_limit_controlled_degradation,
}
use post_base.ControlPlane.Quota.Limits.{enforce_quota_lifecycle-mode}
use post_base.Domain.Enums.{
  binding_status_eq, capability_key_eq, certification_approval_state_eq,
  certification_test_status_eq, environment_stage_eq, environment_status_eq, migration_status_eq,
  policy_mode_eq, readiness_state_eq, secret_status_eq, switchover_status_eq, tenant_role_eq,
}
use post_base.Platform.Audit.{transition_key_eq}
use post_base.Domain.PlanEnums.{phase_eq, phases_eq}

abbrev ge : ℕ → ℕ → Bool
ge a b = leb b a

enforce_quota_lifecycle-mode_example :
    enforce_quota_lifecycle ge 1100 750 1000 1200 "publish"
    ≡ (elim (evaluate_quota_state ge 1100 750 1000 1200).degradation_mode [
      | blocked ↦ some (quota_hard_limit_enforced "publish")
      | controlled ↦
          if contains {A = String} "publish"
            ("webhook_drain" ∷ "webhook_recover" ∷ "migrations" ∷ [])
          then none
          else some (quota_soft_limit_controlled_degradation "publish")
      | no_degradation ↦ none
    ])
enforce_quota_lifecycle-mode_example = enforce_quota_lifecycle-mode ge 1100 750 1000 1200 "publish"
