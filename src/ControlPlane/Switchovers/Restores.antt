-- ===== src/ControlPlane/Switchovers/Restores.antt =====
-- A switchover that fails leaves its binding on the provider from before.
use post_base.Base.{
  Option, ap, contains, contains-append_last, contains-append_left, false, get_row, get_row-key,
  get_row-modified, modify, nat_eq, option_eq, or_default, refl, some, string_eq, subst, sym, ℕ,
  ◌∙◌, ◌≡◌,
}
use post_base.ControlPlane.Switchovers.Cutover.{Cutover, write_plan}
use post_base.Domain.Models.{
  CapabilityBinding, audit_log_row, binding_row, binding_secret_row, capability_type_row,
  catalog_row, environment_row, project_row, secret_ref_row, tenant_member_row,
}
use post_base.Domain.Plans.{
  ExecutionState, RollbackCheckpoint, SwitchoverPlan, namespace_row, schema_migration_row,
  switchover_row, table_definition_row,
}
use post_base.Events.Store.{channel_row, dead_letter_row, job_row}
use post_base.Platform.Audit.{Request, transition_key_eq}
use post_base.Platform.Session.{Session}
use post_base.Domain.Enums.{
  CapabilityKey, binding_status_eq, capability_key_eq, certification_approval_state_eq,
  certification_test_status_eq, environment_stage_eq, environment_status_eq, migration_status_eq,
  policy_mode_eq, readiness_state_eq, secret_status_eq, switchover_status_eq, tenant_role_eq,
}
use post_base.Domain.PlanEnums.{Phase, phase_eq, phases_eq}
use post_base.Platform.Exec.Rules.{Keeps, Keeps-bind}
use post_base.Platform.Registry.{ProviderRegistry}
use post_base.ControlPlane.Switchovers.Frame.{
  Frame, Same, Stable, binding_written, flush_rows-Keeps, to_target,
}
use post_base.ControlPlane.Switchovers.Phases.{activated, completed_plan, run_phases}
use post_base.ControlPlane.Switchovers.Progress.{has_done, phase_done, previous_or_current}
use post_base.ControlPlane.Switchovers.Stages.{run_stages-Keeps}

-- The row of the binding is the row object.
pub record Linked (id : ℕ) (c : Cutover) : Type 0 where
  pub row : get_row id c.session.db.bindings ≡ some c.binding

pub binding_id : {id : ℕ} {c : Cutover} → Linked id c → c.binding.id ≡ id
binding_id {id} {c} h = get_row-key id c.session.db.bindings c.binding h.row

pub Linked-session :
    (id : ℕ) (c : Cutover) (s : Session)
    → s.db.bindings ≡ c.session.db.bindings
    → Linked id c
    → Linked id (record c { session = s })
Linked-session id c s e h = record { row = ap (get_row id) e ∙ h.row }

pub Linked-written :
    (id : ℕ) (c : Cutover) (f : CapabilityBinding → CapabilityBinding)
    → (f c.binding).id ≡ c.binding.id
    → Linked id c
    → Linked id (binding_written f c)
unfolding modify
Linked-written id c f e h = record {
  row =
      subst
        (λ k. get_row id (modify k (λ _. f c.binding) c.session.db.bindings) ≡ some (f c.binding))
        (sym (e ∙ binding_id h))
        (get_row-modified id c.binding (f c.binding) c.session.db.bindings h.row
          (e ∙ binding_id h));
}

-- The provider that a failure goes back to is `provider_id`, and so is the current one until the target
-- is staged.
pub record Restores (id provider_id : ℕ) (c : Cutover) : Type 0 where
  pub linked : Linked id c
  pub provider : previous_or_current c ≡ provider_id
  pub unstaged :
      has_done Phase.stage_target c ≡ false → c.binding.provider_catalog_entry_id ≡ provider_id

previous_eq :
    (e e' : ExecutionState) (current : ℕ)
    → Same e e'
    → or_default e'.rollback_checkpoint.previous_provider_catalog_entry_id current
      ≡ or_default e.rollback_checkpoint.previous_provider_catalog_entry_id current
previous_eq e e' current same =
    ap (λ (k : RollbackCheckpoint). or_default k.previous_provider_catalog_entry_id current)
      same.checkpoint

not_yet :
    (e e' : ExecutionState) (phase : Phase)
    → Same e e'
    → contains Phase.stage_target (phase_done phase e').completed_phases ≡ false
    → contains Phase.stage_target e.completed_phases ≡ false
not_yet e e' phase same h =
    ap (contains Phase.stage_target) (sym same.phases)
    ∙ contains-append_left Phase.stage_target phase e'.completed_phases h

pub Restores-Stable : (id provider_id : ℕ) → Stable (Restores id provider_id)
Restores-Stable id provider_id = record {
  session = λ c s e h. record {
    linked = Linked-session id c s e h.linked;
    provider = h.provider;
    unstaged = h.unstaged;
  };
}

pub Restores-Frame : (id provider_id : ℕ) → Frame (Restores id provider_id)
Restores-Frame id provider_id = record {
  base = record {
    stable = Restores-Stable id provider_id;
    neutral = λ c detail phase f n same h. record {
      linked = record { row = h.linked.row };
      provider = previous_eq _ _ _ same ∙ h.provider;
      unstaged = λ u. h.unstaged (not_yet _ _ phase same u);
    };
  };
  validating = λ c detail r f same h. record {
    linked = record { row = (Linked-written id c (activated r) refl h.linked).row };
    provider = previous_eq _ _ _ same ∙ h.provider;
    unstaged = λ u. h.unstaged (not_yet _ _ Phase.validate_cutover same u);
  };
  staging = λ c detail r f same fresh h. record {
    linked = record { row = (Linked-written id c (to_target r c) refl h.linked).row };
    provider = h.unstaged fresh;
    unstaged = λ u.
        let k =
          contains-append_last Phase.stage_target (f c.plan.execution_state).completed_phases in
        absurd (cc);
  };
}

-- A write to the plan that touches neither its phases nor its former provider.
pub write_plan-Restores :
    (id provider_id : ℕ) (f : SwitchoverPlan → SwitchoverPlan)
    → ((p : SwitchoverPlan)
        → (f p).execution_state.rollback_checkpoint.previous_provider_catalog_entry_id
          ≡ p.execution_state.rollback_checkpoint.previous_provider_catalog_entry_id)
    → ((p : SwitchoverPlan)
        → contains Phase.stage_target (f p).execution_state.completed_phases ≡ false
        → contains Phase.stage_target p.execution_state.completed_phases ≡ false)
    → Keeps (Restores id provider_id) (write_plan f)
unfolding write_plan
write_plan-Restores id provider_id f same kept = record {
  holds = λ c h. record {
    linked = record { row = h.linked.row };
    provider =
        ap (λ o. or_default o c.binding.provider_catalog_entry_id) (same c.plan) ∙ h.provider;
    unstaged = λ u. h.unstaged (kept c.plan u);
  };
}

-- The block under `try` keeps the provider that a failure goes back to.
pub run_phases-Restores :
    (id provider_id : ℕ) (registry : ProviderRegistry) (key : Option CapabilityKey) (r : Request)
    → Keeps (Restores id provider_id) (run_phases registry key r)
unfolding run_phases
run_phases-Restores id provider_id registry key r =
    Keeps-bind _ _ (run_stages-Keeps (Restores-Frame id provider_id) registry key r) λ _.
      Keeps-bind _ _
        (write_plan-Restores id provider_id (completed_plan r.now) (λ p. refl) λ p u. absurd (cc))
        λ _. flush_rows-Keeps (Restores-Stable id provider_id)
