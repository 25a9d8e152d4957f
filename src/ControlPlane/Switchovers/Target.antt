-- ===== src/ControlPlane/Switchovers/Target.antt =====
-- Where a switchover that completes leaves its binding.
use post_base.Base.{
  Option, ap, arith, contains, contains-append, false, nat_eq, option_eq, refl, string_eq, sym,
  true, ℕ, ◌==◌, ◌||◌, ◌∙◌, ◌≡◌,
}
use post_base.ControlPlane.Switchovers.Cutover.{Cutover, in_session, write_plan}
use post_base.ControlPlane.Switchovers.Restores.{Linked, Linked-session, Linked-written}
use post_base.Domain.Enums.{
  BindingStatus, CapabilityKey, SwitchoverStatus, binding_status_eq, capability_key_eq,
  certification_approval_state_eq, certification_test_status_eq, environment_stage_eq,
  environment_status_eq, migration_status_eq, policy_mode_eq, readiness_state_eq, secret_status_eq,
  switchover_status_eq, tenant_role_eq,
}
use post_base.Domain.PlanEnums.{Phase, phase_eq, phases_eq}
use post_base.Domain.Plans.{ExecutionState}
use post_base.Platform.Audit.{Request, transition_key_eq}
use post_base.Platform.Exec.{◌>>=◌}
use post_base.Platform.Exec.Ensures.{Ensures, Ensures-Keeps, Ensures-bind, Ensures-last}
use post_base.Platform.Registry.{ProviderRegistry}
use post_base.ControlPlane.Switchovers.Failure.{On, On-Stable}
use post_base.Platform.Session.{flush}
use post_base.ControlPlane.Switchovers.Canary.{run_canary}
use post_base.ControlPlane.Switchovers.Frame.{
  Frame, Neutral, Same, Stable, canary-Keeps, flush_rows-Keeps, is_neutral, preflight-Keeps,
  retire-Keeps,
}
use post_base.ControlPlane.Switchovers.Phases.{
  activated, completed_plan, retire_old_binding, run_phases, run_stages, stage_target,
  validate_cutover,
}
use post_base.ControlPlane.Switchovers.Progress.{has_done, phase_done, unless_done}
use post_base.ControlPlane.Switchovers.Stages.{
  unless_done-Ensures, unless_done-Keeps, validate_cutover-Ensures,
}

module _ (p q : Phase) (e e' : ExecutionState) (same : Same e e') where
  done_append :
      contains q (phase_done p e').completed_phases ≡ (contains q e.completed_phases || q == p)
  done_append =
      contains-append q p e'.completed_phases ∙ ap (λ xs. contains q xs || q == p) same.phases

  pub done_kept :
      contains q e.completed_phases ≡ true → contains q (phase_done p e').completed_phases ≡ true
  done_kept h = ground (arith, done_append, h)

  pub done_other :
      q == p ≡ false → contains q (phase_done p e').completed_phases ≡ contains q e.completed_phases
  done_other other = ground (arith, done_append, other)

pub neutral_other :
    (phase : Phase)
    → is_neutral phase ≡ true
    → (Phase.stage_target == phase ≡ false) × (Phase.validate_cutover == phase ≡ false)
neutral_other phase n = ground arith

-- The target is staged: the binding is on `provider_id`, and active once it is validated.
pub record Staged (id provider_id : ℕ) (c : Cutover) : Type 0 where
  pub linked : Linked id c
  pub provider : c.binding.provider_catalog_entry_id ≡ provider_id
  pub is_staged : has_done Phase.stage_target c ≡ true
  pub active_if : has_done Phase.validate_cutover c ≡ true → c.binding.status ≡ BindingStatus.active

-- The binding is on `provider_id`, validated and active.
pub record Validated (id provider_id : ℕ) (c : Cutover) : Type 0 where
  pub linked : Linked id c
  pub provider : c.binding.provider_catalog_entry_id ≡ provider_id
  pub active : c.binding.status ≡ BindingStatus.active

module _ (id provider_id : ℕ) where
  pub Staged-Stable : Stable (Staged id provider_id)
  Staged-Stable = record {
    session = λ c s e h. record {
      linked = Linked-session id c s e h.linked;
      provider = h.provider;
      is_staged = h.is_staged;
      active_if = h.active_if;
    };
  }

  Staged-Neutral : Neutral (Staged id provider_id)
  Staged-Neutral = record {
    stable = Staged-Stable;
    neutral = λ c detail phase f n same h. record {
      linked = record { row = h.linked.row };
      provider = h.provider;
      is_staged = done_kept phase Phase.stage_target _ _ same h.is_staged;
      active_if = λ v.
          h.active_if
            (sym (done_other phase Phase.validate_cutover _ _ same (neutral_other phase n).1) ∙ v);
    };
  }

  pub Staged-Frame : Frame (Staged id provider_id)
  Staged-Frame = record {
    base = Staged-Neutral;
    validating = λ c detail r f same h. record {
      linked = record { row = (Linked-written id c (activated r) refl h.linked).row };
      provider = h.provider;
      is_staged = done_kept Phase.validate_cutover Phase.stage_target _ _ same h.is_staged;
      active_if = λ v. refl;
    };
    staging = λ c detail r f same fresh h. absurd (let k = h.is_staged in cc);
  }

  Validated-Stable : Stable (Validated id provider_id)
  Validated-Stable = record {
    session = λ c s e h. record {
      linked = Linked-session id c s e h.linked;
      provider = h.provider;
      active = h.active;
    };
  }

  Validated-Neutral : Neutral (Validated id provider_id)
  Validated-Neutral = record {
    stable = Validated-Stable;
    neutral = λ c detail phase f n same h. record {
      linked = record { row = h.linked.row };
      provider = h.provider;
      active = h.active;
    };
  }

  -- The phases after staging, if they return, end on the same provider.
  pub finish_stages :
      (registry : ProviderRegistry) (key : Option CapabilityKey) (r : Request)
      → Ensures
          (Staged id provider_id)
          (unless_done Phase.canary (run_canary r) >>= λ _.
            unless_done Phase.validate_cutover (validate_cutover registry key r) >>= λ _.
            unless_done Phase.retire_old_binding retire_old_binding)
          (λ _. Validated id provider_id)
  finish_stages registry key r =
      Ensures-last _ _ (unless_done-Keeps Phase.canary _ (canary-Keeps Staged-Neutral r)) (λ c h. h)
        λ _.
          Ensures-bind _ _
            (unless_done-Ensures Phase.validate_cutover (validate_cutover registry key r)
              (λ c done h. record {
                linked = record { row = h.linked.row };
                provider = h.provider;
                active = h.active_if done;
              })
              λ c fresh h e.
                (validate_cutover-Ensures Staged-Stable Validated-Stable
                    (λ c detail r f same h. record {
                      linked = record {
                        row = (Linked-written id c (activated r) refl h.linked).row;
                      };
                      provider = h.provider;
                      active = refl;
                    })
                    registry key r).returns
                  c tt h e)
            λ _.
              Ensures-Keeps _
                (unless_done-Keeps Phase.retire_old_binding _ (retire-Keeps Validated-Neutral))

  complete_written :
      (now : ℕ)
      → Ensures
          (Validated id provider_id)
          (write_plan (completed_plan now))
          (λ _. On id provider_id SwitchoverStatus.completed)
  unfolding write_plan
  complete_written now = record {
    returns = λ c a h e. record {
      linked = record { row = h.linked.row };
      provider = h.provider;
      active = h.active;
      plan_status = refl;
    };
  }

  pub complete-On :
      (now : ℕ)
      → Ensures
          (Validated id provider_id)
          (write_plan (completed_plan now) >>= λ _. in_session flush)
          (λ _. On id provider_id SwitchoverStatus.completed)
  complete-On now =
      Ensures-bind (write_plan (completed_plan now)) _ (complete_written now) λ _.
        Ensures-Keeps _ (flush_rows-Keeps (On-Stable id provider_id SwitchoverStatus.completed))

  -- A plan whose target is staged, if its phases return.
  pub run_phases-Staged :
      (registry : ProviderRegistry) (key : Option CapabilityKey) (r : Request)
      → Ensures
          (Staged id provider_id)
          (run_phases registry key r)
          (λ _. On id provider_id SwitchoverStatus.completed)
  unfolding run_phases run_stages
  run_phases-Staged registry key r =
      Ensures-bind _ _
        (Ensures-last _ _
          (unless_done-Keeps Phase.preflight _ (preflight-Keeps Staged-Neutral registry r))
          (λ c h. h)
          λ _.
            Ensures-bind _ _
              (unless_done-Ensures Phase.stage_target (stage_target key r) (λ c done h. h)
                λ c fresh h e. absurd (let k = h.is_staged in cc))
              λ _. finish_stages registry key r)
        λ _. complete-On r.now
