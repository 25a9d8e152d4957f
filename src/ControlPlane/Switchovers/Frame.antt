-- ===== src/ControlPlane/Switchovers/Frame.antt =====
-- What the phases of a switchover keep: a property of the bindings' rows and of the plan's state that
-- survives the writes of each kind survives the phases.
use post_base.Base.{
  Bool, List, String, false, nat_eq, not, option_eq, refl, some, string_eq, suc, true, zero, ℕ,
  ◌&&◌, ◌==◌, ◌≡◌,
}
use post_base.ControlPlane.Switchovers.Cutover.{
  Cutover, in_session, reads, row_of_binding, write_plan,
}
use post_base.ControlPlane.Switchovers.Reading.{
  BindingsAre, flush-BindingsAre, record_audit_event-BindingsAre, session_rules,
}
use post_base.Domain.Enums.{
  BindingStatus, binding_status_eq, capability_key_eq, certification_approval_state_eq,
  certification_test_status_eq, environment_stage_eq, environment_status_eq, migration_status_eq,
  policy_mode_eq, readiness_state_eq, secret_status_eq, switchover_status_eq, tenant_role_eq,
}
use post_base.Domain.Models.{CapabilityBinding}
use post_base.Domain.PlanEnums.{Phase, phase_eq, phases_eq}
use post_base.Domain.Plans.{Checkpoint, ExecutionState, PreflightReport, SwitchoverPlan}
use post_base.Platform.Audit.{Request, transition_key_eq}
use post_base.Platform.Exec.{Exec}
use post_base.Platform.Exec.Rules.{Keeps, Keeps-bind, Keeps-branch, Keeps-pure, Keeps-unless}
use post_base.Platform.Registry.{ProviderRegistry}
use post_base.Platform.Session.{Session, flush}
use post_base.ControlPlane.Switchovers.Canary.{
  evaluate_checkpoints, evaluated, run_canary, with_checkpoints,
}
use post_base.ControlPlane.Switchovers.Phases.{
  activated, retire_old_binding, retired, run_preflight, with_report, with_retirement,
}
use post_base.ControlPlane.Switchovers.Progress.{binding_moved, has_done, phase_done, with_state}

-- A phase whose writes leave the binding alone.
abbrev pub is_neutral : Phase → Bool
is_neutral phase = not (phase == Phase.stage_target) && not (phase == Phase.validate_cutover)

-- The state `e` differs from the row's in neither the phases nor the checkpoint.
pub record Same (e e' : ExecutionState) : Type 0 where
  pub phases : e'.completed_phases ≡ e.completed_phases
  pub checkpoint : e'.rollback_checkpoint ≡ e.rollback_checkpoint

abbrev pub phase_written : String → Phase → (ExecutionState → ExecutionState) → Cutover → Cutover
phase_written detail phase f c = record c {
  plan = with_state detail (λ e. phase_done phase (f e)) c.plan;
}

abbrev pub binding_written : (CapabilityBinding → CapabilityBinding) → Cutover → Cutover
binding_written f c = record c {
  binding = f c.binding;
  session = row_of_binding (f c.binding) c.session;
}

abbrev pub checkpointed :
    (ExecutionState → ExecutionState) → Cutover → ExecutionState → ExecutionState
checkpointed f c e = record (f e) {
  rollback_checkpoint = record {
    required = true;
    previous_provider_catalog_entry_id = some c.binding.provider_catalog_entry_id;
  };
}

abbrev pub to_target : Request → Cutover → CapabilityBinding → CapabilityBinding
to_target r c =
    binding_moved c.plan.target_provider_catalog_entry_id BindingStatus.pending_validation
      "cutover staged on target provider" "switchover_stage_target" r

-- A property of the row objects and of the bindings' rows: the other tables do not matter.
pub record Stable (I : Cutover → Type 0) : Type 0 where
  pub session :
      (c : Cutover) (s : Session)
      → s.db.bindings ≡ c.session.db.bindings
      → I c
      → I (record c { session = s })

-- A property that survives the phases which leave the binding alone.
pub record Neutral (I : Cutover → Type 0) : Type 0 where
  pub stable : Stable I
  pub neutral :
      (c : Cutover) (detail : String) (phase : Phase) (f : ExecutionState → ExecutionState)
      → is_neutral phase ≡ true
      → Same c.plan.execution_state (f c.plan.execution_state)
      → I c
      → I (phase_written detail phase f c)

pub record Frame (I : Cutover → Type 0) : Type 0 where
  pub base : Neutral I
  pub validating :
      (c : Cutover) (detail : String) (r : Request) (f : ExecutionState → ExecutionState)
      → Same c.plan.execution_state (f c.plan.execution_state)
      → I c
      → I (phase_written detail Phase.validate_cutover f (binding_written (activated r) c))
  pub staging :
      (c : Cutover) (detail : String) (r : Request) (f : ExecutionState → ExecutionState)
      → Same c.plan.execution_state (f c.plan.execution_state)
      → has_done Phase.stage_target c ≡ false
      → I c
      → I (
          phase_written detail Phase.stage_target
            (checkpointed f c)
            (binding_written (to_target r c) c))

pub reads-Keeps : {A : Type 0} (I : Cutover → Type 0) (f : Cutover → A) → Keeps I (reads f)
unfolding reads
reads-Keeps I f = record { holds = λ c h. h }

module _ {I : Cutover → Type 0} (stable : Stable I) where
  pub in_session-Keeps :
      {A : Type 0} (m : Exec Session A)
      → ((bs : List CapabilityBinding) → Keeps (BindingsAre bs) m)
      → Keeps I (in_session m)
  unfolding in_session
  in_session-Keeps m k = record {
    holds = λ c h.
        stable.session c (m c.session).1
          ((k c.session.db.bindings).holds c.session (record { eq = refl })).eq h;
  }

  pub flush_rows-Keeps : Keeps I (in_session flush)
  flush_rows-Keeps = in_session-Keeps flush flush-BindingsAre

module _ {I : Cutover → Type 0} (base : Neutral I) where
  write_phase-Keeps :
      (detail : String) (phase : Phase) (f : ExecutionState → ExecutionState)
      → is_neutral phase ≡ true
      → ((e : ExecutionState) → Same e (f e))
      → Keeps I (write_plan (with_state detail λ e. phase_done phase (f e)))
  unfolding write_plan
  write_phase-Keeps detail phase f n same = record {
    holds = λ c h.
        base.stable.session (phase_written detail phase f c) _ refl
          (base.neutral c detail phase f n (same _) h);
  }

pub ruleset cutover_rules = (session_rules, reads-Keeps, in_session-Keeps, flush_rows-Keeps)

module _ {I : Cutover → Type 0} (base : Neutral I) where
  write_preflight-Keeps :
      (report : PreflightReport)
      → Keeps I
          (write_plan (with_state "phase:preflight; checkpoint:validated" (with_report report)))
  write_preflight-Keeps report =
      write_phase-Keeps base "phase:preflight; checkpoint:validated" Phase.preflight
        (λ e. record e { preflight_report = report }) refl
        λ e. record { phases = refl; checkpoint = refl }

  pub preflight-Keeps :
      (registry : ProviderRegistry) (r : Request) → Keeps I (run_preflight registry r)
  unfolding run_preflight
  preflight-Keeps registry r = search (cutover_rules, base.stable, write_preflight-Keeps) depth 14

  evaluate-Keeps :
      (r : Request) (p : SwitchoverPlan) (rate remaining n : ℕ)
      → Keeps I (evaluate_checkpoints r p rate remaining n)
  unfolding evaluate_checkpoints
  evaluate-Keeps r p rate zero n = Keeps-pure _
  evaluate-Keeps r p rate (suc remaining) n =
      Keeps-bind _ _
        (in_session-Keeps base.stable _ λ bs. record_audit_event-BindingsAre bs _ r.now)
        λ _.
          Keeps-branch _ _ _ (Keeps-pure _)
            (Keeps-bind _ _ (evaluate-Keeps r p rate remaining (suc n)) λ rest. Keeps-pure _)

  write_canary-Keeps :
      (outcome : List Checkpoint × Bool)
      → Keeps I
          (write_plan (with_state "phase:canary; checkpoint:health_evaluated" (evaluated outcome)))
  write_canary-Keeps outcome =
      write_phase-Keeps base "phase:canary; checkpoint:health_evaluated" Phase.canary
        (with_checkpoints outcome) refl λ e. record { phases = refl; checkpoint = refl }

  pub canary-Keeps : (r : Request) → Keeps I (run_canary r)
  unfolding run_canary
  canary-Keeps r =
      search (cutover_rules, base.stable, evaluate-Keeps, write_canary-Keeps, Keeps-unless) depth 14

  write_retired-Keeps : (detail : String) → Keeps I (write_plan (with_state detail retired))
  write_retired-Keeps detail =
      write_phase-Keeps base detail Phase.retire_old_binding with_retirement refl
        λ e. record { phases = refl; checkpoint = refl }

  pub retire-Keeps : Keeps I retire_old_binding
  unfolding retire_old_binding
  retire-Keeps = search (cutover_rules, base.stable, write_retired-Keeps) depth 9
