-- ===== src/ControlPlane/Switchovers/Stages.antt =====
-- The phases that write to the binding, and the five phases together: what they keep, and what holds
-- after them.
use post_base.Base.{Bool-cases, Option, String, false, inl, inr, refl, true, ◌≡◌}
use post_base.ControlPlane.Bindings.Status.{validate-Keeps}
use post_base.ControlPlane.Switchovers.Cutover.{Cutover, reads, write_binding, write_plan}
use post_base.ControlPlane.Switchovers.Frame.{
  Frame, Same, Stable, binding_written, canary-Keeps, checkpointed, cutover_rules, flush_rows-Keeps,
  in_session-Keeps, phase_written, preflight-Keeps, reads-Keeps, retire-Keeps, to_target,
}
use post_base.ControlPlane.Switchovers.Phases.{
  activated, mark_validated, run_stages, stage_target, validate_cutover, with_copy_job,
  with_storage_checks,
}
use post_base.ControlPlane.Switchovers.Progress.{has_done, unless_done}
use post_base.ControlPlane.Switchovers.Reading.{BindingsAre, resolve-Keeps, session_rules}
use post_base.Domain.Enums.{CapabilityKey}
use post_base.Domain.PlanEnums.{Phase}
use post_base.Domain.Plans.{ExecutionState}
use post_base.Platform.Audit.{Request}
use post_base.Platform.Errors.{ok}
use post_base.Platform.Exec.{Exec, branch, pure, ◌>>=◌}
use post_base.Platform.Exec.Ensures.{Ensures, Ensures-last}
use post_base.Platform.Exec.Rules.{Keeps, Keeps-bind, Keeps-unless}
use post_base.Platform.Registry.{ProviderRegistry}
use post_base.Platform.Session.Rules.{gets-Keeps}

-- `J` holds after the writes that mark the target as validated.
abbrev pub Validating : (Cutover → Type 0) → (Cutover → Type 0) → Type 0
Validating I J =
    (c : Cutover) (detail : String) (r : Request) (f : ExecutionState → ExecutionState)
    → Same c.plan.execution_state (f c.plan.execution_state)
    → I c
    → J (phase_written detail Phase.validate_cutover f (binding_written (activated r) c))

-- `J` holds after the writes that stage the target.
abbrev pub Staging : (Cutover → Type 0) → (Cutover → Type 0) → Type 0
Staging I J =
    (c : Cutover) (detail : String) (r : Request) (f : ExecutionState → ExecutionState)
    → Same c.plan.execution_state (f c.plan.execution_state)
    → has_done Phase.stage_target c ≡ false
    → I c
    → J (
        phase_written detail Phase.stage_target (checkpointed f c)
          (binding_written (to_target r c) c))

module _ {I J : Cutover → Type 0} (stable : Stable J) where
  mark_validated-reaches :
      Validating I J
      → (r : Request) (key : Option CapabilityKey) (c : Cutover) → I c
      → J (mark_validated key r c).1
  unfolding mark_validated ◌>>=◌ write_plan write_binding
  mark_validated-reaches v r key c h = (flush_rows-Keeps stable).holds _ (
      stable.session _ _ refl (
        v c "phase:validate_cutover; checkpoint:active_on_target" r (with_storage_checks key)
          (record { phases = refl; checkpoint = refl }) h))

  pub stage_target-reaches :
      Staging I J
      → (key : Option CapabilityKey) (r : Request) (c : Cutover)
      → has_done Phase.stage_target c ≡ false
      → I c
      → J (stage_target key r c).1
  unfolding stage_target ◌>>=◌ reads write_plan write_binding
  stage_target-reaches staging key r c fresh h = (flush_rows-Keeps stable).holds _ (
      stable.session _ _ refl (
        staging c "phase:stage_target; checkpoint:rollback_ready" r
          (with_copy_job key c.plan.id r.now) (record { phases = refl; checkpoint = refl }) fresh
          h))

module _ {I : Cutover → Type 0} (stable : Stable I) where
  mark_validated-Keeps :
      Validating I I → (r : Request) (key : Option CapabilityKey) → Keeps I (mark_validated key r)
  mark_validated-Keeps v r key = record { holds = λ c h. mark_validated-reaches stable v r key c h }

  pub validate_cutover-Keeps :
      Validating I I
      → (registry : ProviderRegistry) (key : Option CapabilityKey) (r : Request)
      → Keeps I (validate_cutover registry key r)
  unfolding validate_cutover
  validate_cutover-Keeps v registry key r =
      search (cutover_rules, stable, mark_validated-Keeps) depth 16

  -- The checks of the phase keep `I`, and then its writes lead to `J`.
  pub validate_cutover-Ensures :
      {J : Cutover → Type 0}
      → Stable J
      → Validating I J
      → (registry : ProviderRegistry) (key : Option CapabilityKey) (r : Request)
      → Ensures I (validate_cutover registry key r) (λ _. J)
  unfolding validate_cutover
  validate_cutover-Ensures {J} stable_j v registry key r =
      Ensures-last _ _ (reads-Keeps I _) (λ s h. h)
        λ c.
          Ensures-last _ _ (in_session-Keeps stable _ λ bs. gets-Keeps (BindingsAre bs) _)
            (λ s h. h)
            λ row.
              Ensures-last _ _ (in_session-Keeps stable _ λ bs. search session_rules) (λ s h. h)
                λ target.
                  Ensures-last _ _ (in_session-Keeps stable _ λ bs. search session_rules) (λ s h. h)
                    λ capability.
                      Ensures-last _ _
                        (in_session-Keeps stable _ λ bs.
                          resolve-Keeps (BindingsAre bs) registry capability target.provider_key)
                        (λ s h. h)
                        λ adapter.
                          Ensures-last _ _ (in_session-Keeps stable _ λ bs. Keeps-unless _ _)
                            (λ s h. h)
                            λ _.
                              Ensures-last _ _
                                (in_session-Keeps stable _ λ bs.
                                  validate-Keeps (BindingsAre bs) registry c.binding target r.now)
                                (λ s h. h)
                                λ _. record {
                                  returns = λ d a h e. mark_validated-reaches stable_j v r key d h;
                                }

unless_done-kept :
    {I : Cutover → Type 0} (phase : Phase) (body : Exec Cutover Unit)
    → ((c : Cutover) → has_done phase c ≡ false → I c → I (body c).1)
    → Keeps I (unless_done phase body)
unfolding unless_done ◌>>=◌ reads branch pure
unless_done-kept phase body k = record {
  holds = λ c h. elim (Bool-cases (has_done phase c)) [ inl e ↦ rw e h | inr e ↦ rw e (k c e h) ];
}

pub unless_done-Keeps :
    {I : Cutover → Type 0} (phase : Phase) (body : Exec Cutover Unit)
    → Keeps I body
    → Keeps I (unless_done phase body)
unless_done-Keeps phase body k = unless_done-kept phase body λ c _ h. k.holds c h

-- A phase that leads from `I` to `J`, unless it is done, and then `I` is `J`.
pub unless_done-Ensures :
    {I J : Cutover → Type 0} (phase : Phase) (body : Exec Cutover Unit)
    → ((c : Cutover) → has_done phase c ≡ true → I c → J c)
    → ((c : Cutover) → has_done phase c ≡ false → I c → (body c).0 ≡ ok tt → J (body c).1)
    → Ensures I (unless_done phase body) (λ _. J)
unfolding unless_done ◌>>=◌ reads branch pure
unless_done-Ensures {I} {J} phase body skip k = record {
  returns = λ c a h e. elim (Bool-cases (has_done phase c)) [
    | inl done ↦ rw done (skip c done h)
    | inr fresh ↦ rw fresh (k c fresh h (rw fresh at e))
  ];
}

module _ {I : Cutover → Type 0} (frame : Frame I) where
  pub run_stages-Keeps :
      (registry : ProviderRegistry) (key : Option CapabilityKey) (r : Request)
      → Keeps I (run_stages registry key r)
  unfolding run_stages
  run_stages-Keeps registry key r =
      Keeps-bind _ _ (unless_done-Keeps Phase.preflight _ (preflight-Keeps frame.base registry r))
        λ _.
          Keeps-bind _ _
            (unless_done-kept Phase.stage_target (stage_target key r)
              (stage_target-reaches frame.base.stable frame.staging key r))
            λ _. Keeps-bind _ _ (unless_done-Keeps Phase.canary _ (canary-Keeps frame.base r)) λ _.
              Keeps-bind _ _
                (unless_done-Keeps Phase.validate_cutover _
                  (validate_cutover-Keeps frame.base.stable frame.validating registry key r))
                λ _. unless_done-Keeps Phase.retire_old_binding _ (retire-Keeps frame.base)
