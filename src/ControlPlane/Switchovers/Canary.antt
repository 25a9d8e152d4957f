-- ===== src/ControlPlane/Switchovers/Canary.antt =====
-- The canary of execute_switchover_plan in backend/src/postbase/control_plane/service.py: a loop of
-- checkpoints that stops at the first one over the threshold.
use post_base.Base.{Bool, List, [], false, leb, ltb, map, not, or_default, suc, true, zero, ℕ, ◌∷◌}
use post_base.ControlPlane.Switchovers.Cutover.{Cutover, in_session, reads, write_plan}
use post_base.ControlPlane.Switchovers.Progress.{phase_done, with_state}
use post_base.Domain.Models.{Json, checkpoint_json}
use post_base.Domain.PlanEnums.{Phase}
use post_base.Domain.Plans.{Checkpoint, ExecutionState, SwitchoverPlan}
use post_base.Platform.Audit.{Request, audit_event, record_audit_event}
use post_base.Platform.Errors.{runtime_error}
use post_base.Platform.Exec.{Exec, branch, pure, unless, ◌>>=◌, ◌>>◌}
use post_base.Platform.Session.{flush}

abbrev pub new_checkpoint : SwitchoverPlan → ℕ → ℕ → Checkpoint
new_checkpoint p rate n = record {
  number = n;
  traffic_percent = p.execution_state.canary.traffic_percent;
  error_rate = rate;
  healthy = leb rate p.execution_state.canary.auto_abort_error_rate;
  health_evidence_ref = record { switchover_id = p.id; number = n };
}

-- The loop over `range(checkpoint_count)`, from the checkpoint `n` on, `remaining` to go: the
-- checkpoints, and whether it aborted.
unfoldable pub evaluate_checkpoints :
    Request → SwitchoverPlan → ℕ → ℕ → ℕ → Exec Cutover (List Checkpoint × Bool)
evaluate_checkpoints r p rate zero n = pure ([], false)
evaluate_checkpoints r p rate (suc remaining) n = do
  in_session (
      record_audit_event
        (audit_event r "binding.rollout_checkpoint_evaluated" "switchover_plan" p.id (
          ("binding_id", Json.number p.capability_binding_id)
          ∷ ("checkpoint", checkpoint_json (new_checkpoint p rate n))
          ∷ []))
        r.now)
  branch (ltb p.execution_state.canary.auto_abort_error_rate rate)
      (pure (new_checkpoint p rate n ∷ [], true))
      (evaluate_checkpoints r p rate remaining (suc n) >>= λ rest.
        pure (new_checkpoint p rate n ∷ rest.0, rest.1))

abbrev pub with_checkpoints : List Checkpoint × Bool → ExecutionState → ExecutionState
with_checkpoints outcome e = record e {
  canary = record e.canary {
    checkpoints = outcome.0;
    aborted = outcome.1;
    health_evidence_refs = map (λ x. x.health_evidence_ref) outcome.0;
  };
}

abbrev pub evaluated : List Checkpoint × Bool → ExecutionState → ExecutionState
evaluated outcome e = phase_done Phase.canary (with_checkpoints outcome e)

unfoldable pub run_canary : Request → Exec Cutover Unit
unfolding evaluate_checkpoints
run_canary r = do
  p ← reads λ c. c.plan
  let canary = p.execution_state.canary
  outcome ←
      evaluate_checkpoints r p (or_default canary.simulated_error_rate 0)
        canary.health_checkpoint_count 1
  write_plan (with_state "phase:canary; checkpoint:health_evaluated" (evaluated outcome))
  in_session flush
  unless (not outcome.1) (runtime_error "canary auto-abort: error threshold exceeded")
