-- ===== src/ControlPlane/Switchovers/Manual.antt =====
-- What the manual rollback commits.
use post_base.Base.{[], ap, get_row, refl, some, subst, sym, ℕ, ◌∙◌, ◌∷◌, ◌≡◌}
use post_base.ControlPlane.Switchovers.Cutover.{
  Cutover, in_session, reads, row_of_plan, run_cutover, write_binding, write_plan,
}
use post_base.ControlPlane.Switchovers.Failure.{
  CommittedOn, On, On-Stable, Settles, commit-Settled, reads-Settles,
}
use post_base.ControlPlane.Switchovers.Reading.{record_audit_event-BindingsAre}
use post_base.ControlPlane.Switchovers.Restores.{Linked-written}
use post_base.ControlPlane.Switchovers.Rollback.{
  manually_restored, restore_previous, rollback_switchover_plan, rolled_back_plan,
}
use post_base.Domain.Enums.{SwitchoverStatus}
use post_base.Domain.Models.{
  CapabilityBinding, audit_log_row, binding_row, binding_secret_row, capability_type_row,
  catalog_row, environment_row, number, project_row, secret_ref_row, tenant_member_row,
}
use post_base.Domain.Plans.{
  SwitchoverPlan, namespace_row, schema_migration_row, switchover_row, table_definition_row,
}
use post_base.Events.Store.{channel_row, dead_letter_row, job_row}
use post_base.Platform.Audit.{Request, audit_event, record_audit_event}
use post_base.Platform.Errors.{Result, ok}
use post_base.Platform.Exec.{Exec, require, ◌>>=◌}
use post_base.Platform.Exec.Ensures.{Ensures, Ensures-bind, Ensures-last}
use post_base.Platform.Session.{Session, commit, gets}
use post_base.ControlPlane.Switchovers.Frame.{binding_written, in_session-Keeps}

module _ (id previous : ℕ) (r : Request) (plan_id binding_id : ℕ) where
  record_rollback : Exec Cutover SwitchoverPlan
  record_rollback =
      in_session (
        record_audit_event
          (audit_event r "binding.switchover_manually_rolled_back" "switchover_plan" plan_id (
            ("binding_id", number binding_id)
            ∷ ("rollback_provider_catalog_entry_id", number previous)
            ∷ []))
          r.now)
      >>= λ _. in_session commit >>= λ _. reads λ d. d.plan

  record_rollback-Settles :
      Ensures
        (On id previous SwitchoverStatus.rolled_back)
        record_rollback
        (Settles id previous SwitchoverStatus.rolled_back)
  unfolding record_rollback
  record_rollback-Settles =
      Ensures-last _ _
        (in_session-Keeps (On-Stable id previous SwitchoverStatus.rolled_back) _
          λ bs. record_audit_event-BindingsAre bs _ r.now)
        (λ c h. h)
        λ _.
          Ensures-bind _ _ (commit-Settled id previous SwitchoverStatus.rolled_back)
            λ _. reads-Settles id previous SwitchoverStatus.rolled_back

module _ (plan : SwitchoverPlan) (b : CapabilityBinding) (r : Request) (s : Session) (previous : ℕ)
    (found : get_row plan.capability_binding_id s.db.bindings ≡ some b)
    (stored : plan.execution_state.rollback_checkpoint.previous_provider_catalog_entry_id
      ≡ some previous) where
  written : Cutover
  written =
      let p = rolled_back_plan previous r plan in
      let d =
        binding_written (manually_restored previous r)
          (record { session = s; plan = plan; binding = b }) in
      record d { plan = p; session = row_of_plan p d.session }

  rollback-eq : rollback_switchover_plan plan r s ≡ (
      let x = record_rollback plan.capability_binding_id previous r plan.id b.id written in
      (x.0, x.1.session))
  unfolding rollback_switchover_plan restore_previous run_cutover reads in_session require gets
      ◌>>=◌ record_rollback written write_plan write_binding
  rollback-eq = simp (found, stored)

  written-On : On plan.capability_binding_id previous SwitchoverStatus.rolled_back written
  unfolding written
  written-On = record {
    linked = record {
      row =
          (Linked-written plan.capability_binding_id
            (record { session = s; plan = plan; binding = b }) (manually_restored previous r) refl
            (record { row = found })).row;
    };
    provider = refl;
    active = refl;
    plan_status = refl;
  }

  -- A rollback that returns marks the plan as rolled back, and commits the binding active on the
  -- provider of the plan's checkpoint.
  pub rollback_switchover_plan-restores :
      (p : SwitchoverPlan)
      → (rollback_switchover_plan plan r s).0 ≡ ok p
      → (p.status ≡ SwitchoverStatus.rolled_back)
        × CommittedOn plan.capability_binding_id previous (rollback_switchover_plan plan r s).1
  rollback_switchover_plan-restores p e =
      let run = record_rollback-Settles plan.capability_binding_id previous r plan.id b.id in
      let k =
        run.returns written p written-On
          (sym (ap (λ (x : Result SwitchoverPlan × Session). x.0) rollback-eq) ∙ e) in
      (
        k.plan_status,
        subst
            (λ (x : Result SwitchoverPlan × Session).
              CommittedOn plan.capability_binding_id previous x.1)
            (sym rollback-eq) k.committed,
      )
