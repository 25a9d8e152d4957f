-- ===== src/ControlPlane/Switchovers/Fresh.antt =====
-- Where the first execution of a switchover leaves its binding.
use post_base.Base.{
  Option, String, [], ap, contains, contains-append_last, false, get_row, nat_eq, none, option_eq,
  or_default, refl, some, string_eq, ℕ, ◌∙◌, ◌≡◌, ◌⊎◌,
}
use post_base.ControlPlane.Switchovers.Cutover.{Cutover, reads, write_plan}
use post_base.ControlPlane.Switchovers.Failure.{CommittedOn, On}
use post_base.ControlPlane.Switchovers.Restores.{Linked, Linked-session, Linked-written, Restores}
use post_base.ControlPlane.Switchovers.Target.{
  Staged, Staged-Stable, complete-On, done_other, finish_stages, neutral_other,
}
use post_base.Domain.Enums.{
  CapabilityKey, SwitchoverStatus, binding_status_eq, capability_key_eq,
  certification_approval_state_eq, certification_test_status_eq, environment_stage_eq,
  environment_status_eq, migration_status_eq, policy_mode_eq, readiness_state_eq, secret_status_eq,
  switchover_status_eq, tenant_role_eq,
}
use post_base.Domain.Models.{
  CapabilityBinding, audit_log_row, binding_row, binding_secret_row, capability_type_row,
  catalog_row, environment_row, project_row, secret_ref_row, tenant_member_row,
}
use post_base.Domain.PlanEnums.{Phase, phase_eq, phases_eq}
use post_base.Domain.Plans.{
  RollbackCheckpoint, SwitchoverPlan, namespace_row, schema_migration_row, switchover_row,
  table_definition_row,
}
use post_base.Events.Store.{channel_row, dead_letter_row, job_row}
use post_base.Platform.Audit.{Request, transition_key_eq}
use post_base.Platform.Exec.{branch, pure, ◌>>=◌}
use post_base.Platform.Exec.Ensures.{Ensures, Ensures-bind, Ensures-last}
use post_base.Platform.Exec.Rules.{Keeps}
use post_base.Platform.Registry.{ProviderRegistry}
use post_base.Platform.Session.{Session}
use post_base.ControlPlane.Switchovers.Outcome.{cut_over-Outcome, execute-Outcome}
use post_base.Platform.Errors.{Error, ok}
use post_base.ControlPlane.Switchovers.Execute.{execute_switchover_plan}
use post_base.ControlPlane.Switchovers.Frame.{Neutral, preflight-Keeps, to_target}
use post_base.ControlPlane.Switchovers.Phases.{
  restore_checkpoint, run_phases, run_stages, stage_target,
}
use post_base.ControlPlane.Switchovers.Progress.{has_done}
use post_base.ControlPlane.Switchovers.Stages.{
  Staging, stage_target-reaches, unless_done-Ensures, unless_done-Keeps,
}

-- No phase has touched the binding.
pub record Untouched (id before after : ℕ) (c : Cutover) : Type 0 where
  pub linked : Linked id c
  pub provider : c.binding.provider_catalog_entry_id ≡ before
  pub target : c.plan.target_provider_catalog_entry_id ≡ after
  pub unstaged : has_done Phase.stage_target c ≡ false
  pub unvalidated : has_done Phase.validate_cutover c ≡ false
  pub required : c.plan.execution_state.rollback_checkpoint.required ≡ false
  pub previous :
      or_default c.plan.execution_state.rollback_checkpoint.previous_provider_catalog_entry_id
        before
      ≡ before

module _ (id before after : ℕ) where
  Untouched-Neutral : Neutral (Untouched id before after)
  Untouched-Neutral = record {
    stable = record {
      session = λ c s e h. record {
        linked = Linked-session id c s e h.linked;
        provider = h.provider;
        target = h.target;
        unstaged = h.unstaged;
        unvalidated = h.unvalidated;
        required = h.required;
        previous = h.previous;
      };
    };
    neutral = λ c detail phase f n same h. record {
      linked = record { row = h.linked.row };
      provider = h.provider;
      target = h.target;
      unstaged =
          done_other phase Phase.stage_target _ _ same (neutral_other phase n).0 ∙ h.unstaged;
      unvalidated =
          done_other phase Phase.validate_cutover _ _ same (neutral_other phase n).1
          ∙ h.unvalidated;
      required = ap (λ (k : RollbackCheckpoint). k.required) same.checkpoint ∙ h.required;
      previous =
          ap (λ (k : RollbackCheckpoint). or_default k.previous_provider_catalog_entry_id before)
            same.checkpoint
          ∙ h.previous;
    };
  }

  staging_reaches : Staging (Untouched id before after) (Staged id after)
  staging_reaches c detail r f same fresh h = record {
    linked = record { row = (Linked-written id c (to_target r c) refl h.linked).row };
    provider = h.target;
    is_staged = contains-append_last Phase.stage_target (f c.plan.execution_state).completed_phases;
    active_if = λ v.
        let k =
          done_other Phase.stage_target Phase.validate_cutover _ _ same refl ∙ h.unvalidated in
        absurd (cc);
  }

  -- A plan that no phase has touched, if its phases return.
  pub run_phases-Untouched :
      (registry : ProviderRegistry) (key : Option CapabilityKey) (r : Request)
      → Ensures
          (Untouched id before after)
          (run_phases registry key r)
          (λ _. On id after SwitchoverStatus.completed)
  unfolding run_phases run_stages
  run_phases-Untouched registry key r =
      Ensures-bind _ _
        (Ensures-last _ _
          (unless_done-Keeps Phase.preflight _ (preflight-Keeps Untouched-Neutral registry r))
          (λ c h. h)
          λ _.
            Ensures-bind _ _
              (unless_done-Ensures Phase.stage_target (stage_target key r)
                (λ c done h. absurd (let k = h.unstaged in cc))
                λ c fresh h e.
                  stage_target-reaches (Staged-Stable id after) staging_reaches key r c fresh h)
              λ _. finish_stages id after registry key r)
        λ _. complete-On id after r.now

  pub Untouched-Restores : (c : Cutover) → Untouched id before after c → Restores id before c
  Untouched-Restores c h = record {
    linked = h.linked;
    provider =
        ap
          (or_default c.plan.execution_state.rollback_checkpoint.previous_provider_catalog_entry_id)
          h.provider
        ∙ h.previous;
    unstaged = λ _. h.provider;
  }

module _ (id before after : ℕ) (r : Request) where
  restore-Untouched : Keeps (Untouched id before after) (restore_checkpoint r)
  unfolding restore_checkpoint reads ◌>>=◌ branch pure
  restore-Untouched = record { holds = λ c h. simp h.required h }

  running-Untouched :
      Keeps
        (Untouched id before after)
        (write_plan λ p. record p { status = SwitchoverStatus.running })
  unfolding write_plan
  running-Untouched = record {
    holds = λ c h. record {
      linked = record { row = h.linked.row };
      provider = h.provider;
      target = h.target;
      unstaged = h.unstaged;
      unvalidated = h.unvalidated;
      required = h.required;
      previous = h.previous;
    };
  }

-- What create_switchover_plan writes to a plan's state.
pub record IsNew (p : SwitchoverPlan) : Type 0 where
  pub phases : p.execution_state.completed_phases ≡ []
  pub checkpoint :
      p.execution_state.rollback_checkpoint
      ≡ record { required = false; previous_provider_catalog_entry_id = none }

new-Untouched :
    (p : SwitchoverPlan) (b : CapabilityBinding) (s : Session)
    → IsNew p
    → get_row p.capability_binding_id s.db.bindings ≡ some b
    → Untouched p.capability_binding_id b.provider_catalog_entry_id
        p.target_provider_catalog_entry_id
        (record { session = s; plan = p; binding = b })
new-Untouched p b s n found = record {
  linked = record { row = found };
  provider = refl;
  target = refl;
  unstaged = ap (contains Phase.stage_target) n.phases;
  unvalidated = ap (contains Phase.validate_cutover) n.phases;
  required = ap (λ (k : RollbackCheckpoint). k.required) n.checkpoint;
  previous =
      ap
        (λ (k : RollbackCheckpoint).
          or_default k.previous_provider_catalog_entry_id b.provider_catalog_entry_id)
        n.checkpoint;
}

-- The first execution of a new plan, where it returns, either marks the plan as failed and commits
-- the binding active on the provider that it had, or marks it as completed and commits the binding
-- active on the plan's target.
pub execute_switchover_plan-first :
    (registry : ProviderRegistry) (describe : Error → String) (plan : SwitchoverPlan)
    (b : CapabilityBinding) (r : Request) (s : Session)
    → IsNew plan
    → get_row plan.capability_binding_id s.db.bindings ≡ some b
    → (p : SwitchoverPlan) → (execute_switchover_plan registry describe plan r s).0 ≡ ok p
    → let id = plan.capability_binding_id in
      let s' = (execute_switchover_plan registry describe plan r s).1 in
      ((p.status ≡ SwitchoverStatus.failed) × CommittedOn id b.provider_catalog_entry_id s')
      ⊎ ((p.status ≡ SwitchoverStatus.completed)
          × CommittedOn id plan.target_provider_catalog_entry_id s')
execute_switchover_plan-first registry describe plan b r s new found p e =
    let id = plan.capability_binding_id in
    let before = b.provider_catalog_entry_id in
    let after = plan.target_provider_catalog_entry_id in
    (execute-Outcome registry describe plan b r s found before after (Untouched id before after)
      (λ key.
        cut_over-Outcome (Untouched id before after) id before after registry describe key r
          (Untouched-Neutral id before after).stable (restore-Untouched id before after r)
          (running-Untouched id before after r) (Untouched-Restores id before after)
          (run_phases-Untouched id before after registry key r))
      (new-Untouched plan b s new found) p e).outcome
