-- ===== src/ControlPlane/Switchovers/Retry.antt =====
-- Where the second execution of a switchover leaves its binding, when the first one had staged the
-- target and then failed.
use post_base.Base.{
  String, ap, contains, false, get_row, inl, inr, nat_eq, option_eq, or_default, refl, some,
  string_eq, true, ℕ, ◌≡◌, ◌⊎◌,
}
use post_base.ControlPlane.Switchovers.Cutover.{Cutover, reads, write_plan}
use post_base.ControlPlane.Switchovers.Failure.{CommittedOn}
use post_base.ControlPlane.Switchovers.Outcome.{cut_over-Outcome, execute-Outcome}
use post_base.ControlPlane.Switchovers.Restores.{Restores}
use post_base.ControlPlane.Switchovers.Target.{Staged, Staged-Stable, run_phases-Staged}
use post_base.Domain.Enums.{
  BindingStatus, SwitchoverStatus, binding_status_eq, capability_key_eq,
  certification_approval_state_eq, certification_test_status_eq, environment_stage_eq,
  environment_status_eq, migration_status_eq, policy_mode_eq, readiness_state_eq, secret_status_eq,
  switchover_status_eq, tenant_role_eq,
}
use post_base.Domain.Models.{
  CapabilityBinding, audit_log_row, binding_row, binding_secret_row, capability_type_row,
  catalog_row, environment_row, project_row, secret_ref_row, tenant_member_row,
}
use post_base.Domain.PlanEnums.{Phase, phase_eq, phases_eq}
use post_base.Domain.Plans.{
  SwitchoverPlan, namespace_row, schema_migration_row, switchover_row, table_definition_row,
}
use post_base.Events.Store.{channel_row, dead_letter_row, job_row}
use post_base.Platform.Audit.{Request, transition_key_eq}
use post_base.Platform.Errors.{Error, ok}
use post_base.Platform.Exec.{branch, pure, ◌>>=◌}
use post_base.Platform.Exec.Ensures.{Ensures-map}
use post_base.Platform.Exec.Rules.{Keeps}
use post_base.Platform.Registry.{ProviderRegistry}
use post_base.Platform.Session.{Session}
use post_base.ControlPlane.Switchovers.Execute.{execute_switchover_plan}
use post_base.ControlPlane.Switchovers.Frame.{Stable}
use post_base.ControlPlane.Switchovers.Phases.{restore_checkpoint}

-- The target counts as staged, and the checkpoint holds the provider that the binding is on.
record Stale (id provider_id : ℕ) (c : Cutover) : Type 0 where
  staged : Staged id provider_id c
  required : c.plan.execution_state.rollback_checkpoint.required ≡ false
  previous :
      c.plan.execution_state.rollback_checkpoint.previous_provider_catalog_entry_id
      ≡ some provider_id

module _ (id provider_id : ℕ) (r : Request) where
  Stale-Stable : Stable (Stale id provider_id)
  Stale-Stable = record {
    session = λ c s e h. record {
      staged = (Staged-Stable id provider_id).session c s e h.staged;
      required = h.required;
      previous = h.previous;
    };
  }

  restore-Stale : Keeps (Stale id provider_id) (restore_checkpoint r)
  unfolding restore_checkpoint reads ◌>>=◌ branch pure
  restore-Stale = record { holds = λ c h. simp h.required h }

  running-Stale :
      Keeps (Stale id provider_id) (write_plan λ p. record p { status = SwitchoverStatus.running })
  unfolding write_plan
  running-Stale = record {
    holds = λ c h. record {
      staged = record {
        linked = record { row = h.staged.linked.row };
        provider = h.staged.provider;
        is_staged = h.staged.is_staged;
        active_if = h.staged.active_if;
      };
      required = h.required;
      previous = h.previous;
    };
  }

Stale-Restores :
    (id provider_id : ℕ) (c : Cutover) → Stale id provider_id c → Restores id provider_id c
Stale-Restores id provider_id c h = record {
  linked = h.staged.linked;
  provider = ap (λ o. or_default o c.binding.provider_catalog_entry_id) h.previous;
  unstaged = λ _. h.staged.provider;
}

-- The plan is one that staged its target and then failed: its state lists the phase as completed,
-- and its checkpoint is the one that the handler of the exception wrote.
pub record HasFailed (p : SwitchoverPlan) (provider_id : ℕ) : Type 0 where
  pub is_staged : contains Phase.stage_target p.execution_state.completed_phases ≡ true
  pub required : p.execution_state.rollback_checkpoint.required ≡ false
  pub previous :
      p.execution_state.rollback_checkpoint.previous_provider_catalog_entry_id ≡ some provider_id

-- Executing again a plan that staged its target and then failed, with the binding active on the
-- provider that the failure restored, leaves the committed binding active on that provider whenever
-- it returns, also where it marks the plan as completed.
pub execute_switchover_plan-again :
    (registry : ProviderRegistry) (describe : Error → String) (plan : SwitchoverPlan)
    (b : CapabilityBinding) (r : Request) (s : Session)
    → HasFailed plan b.provider_catalog_entry_id
    → b.status ≡ BindingStatus.active
    → get_row plan.capability_binding_id s.db.bindings ≡ some b
    → (p : SwitchoverPlan) → (execute_switchover_plan registry describe plan r s).0 ≡ ok p
    → let s' = (execute_switchover_plan registry describe plan r s).1 in
      ((p.status ≡ SwitchoverStatus.failed) ⊎ (p.status ≡ SwitchoverStatus.completed))
      × CommittedOn plan.capability_binding_id b.provider_catalog_entry_id s'
execute_switchover_plan-again registry describe plan b r s failed active found p e =
    let id = plan.capability_binding_id in
    let provider = b.provider_catalog_entry_id in
    let o =
      (execute-Outcome registry describe plan b r s found provider provider (Stale id provider)
        (λ key.
          cut_over-Outcome (Stale id provider) id provider provider registry describe key r
            (Stale-Stable id provider r) (restore-Stale id provider r) (running-Stale id provider r)
            (Stale-Restores id provider)
            (Ensures-map _ (λ c h. h.staged) (λ a c h. h)
              (run_phases-Staged id provider registry key r)))
        (record {
          staged = record {
            linked = record { row = found };
            provider = refl;
            is_staged = failed.is_staged;
            active_if = λ _. active;
          };
          required = failed.required;
          previous = failed.previous;
        })
        p e).outcome in
    elim o [ inl (x, k) ↦ (inl x, k) | inr (x, k) ↦ (inr x, k) ]
