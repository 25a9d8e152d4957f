-- ===== src/ControlPlane/Switchovers/Failure.antt =====
-- The handler of an exception in execute_switchover_plan, and what a failed switchover leaves.
use post_base.Base.{String, [], ap, arith, get_row, refl, some, subst, sym, ℕ, ◌∙◌, ◌∷◌, ◌≡◌}
use post_base.ControlPlane.Switchovers.Cutover.{
  Cutover, in_session, reads, row_of_plan, write_binding, write_plan,
}
use post_base.ControlPlane.Switchovers.Restores.{Linked, Linked-session, Linked-written, Restores}
use post_base.Domain.Enums.{BindingStatus, SwitchoverStatus}
use post_base.Domain.Models.{
  CapabilityBinding, audit_log_row, binding_row, binding_secret_row, capability_type_row,
  catalog_row, environment_row, number, project_row, secret_ref_row, switchover_failed,
  tenant_member_row,
}
use post_base.Domain.Plans.{
  SwitchoverPlan, namespace_row, schema_migration_row, switchover_row, table_definition_row,
}
use post_base.Events.Store.{channel_row, dead_letter_row, job_row}
use post_base.Platform.Audit.{Request, audit_event, record_transition_audit_event_once}
use post_base.Platform.Errors.{Error, Result, ok}
use post_base.Platform.Exec.{Exec, ◌>>=◌}
use post_base.Platform.Exec.Ensures.{Ensures, Ensures-bind, Ensures-last}
use post_base.Platform.Session.{Session, commit, flush, save}
use post_base.ControlPlane.Switchovers.Reading.{record_transition-BindingsAre}
use post_base.ControlPlane.Switchovers.Execute.{fail_switchover, failed_plan}
use post_base.ControlPlane.Switchovers.Frame.{
  Stable, binding_written, flush_rows-Keeps, in_session-Keeps,
}
use post_base.ControlPlane.Switchovers.Progress.{binding_moved, previous_or_current}

-- The binding is on this provider and active, and the plan has this status.
pub record On (id provider_id : ℕ) (status : SwitchoverStatus) (c : Cutover) : Type 0 where
  pub linked : Linked id c
  pub provider : c.binding.provider_catalog_entry_id ≡ provider_id
  pub active : c.binding.status ≡ BindingStatus.active
  pub plan_status : c.plan.status ≡ status

-- The committed row of the binding is on this provider and active.
pub record CommittedOn (id provider_id : ℕ) (s : Session) : Type 0 where
  pub binding : CapabilityBinding
  pub row : get_row id s.committed.bindings ≡ some binding
  pub provider : binding.provider_catalog_entry_id ≡ provider_id
  pub active : binding.status ≡ BindingStatus.active

commit-eq : (s : Session) → (commit s).0 ≡ ok tt → (commit s).1 ≡ record s { committed = s.db }
unfolding commit ◌>>=◌ flush save
commit-eq s h = ground (arith, h)

module _ (id provider_id : ℕ) (status : SwitchoverStatus) where
  pub On-Stable : Stable (On id provider_id status)
  On-Stable = record {
    session = λ c s e h. record {
      linked = Linked-session id c s e h.linked;
      provider = h.provider;
      active = h.active;
      plan_status = h.plan_status;
    };
  }

  -- A plan with this status is returned, and the binding is committed on this provider.
  pub record Settles (p : SwitchoverPlan) (c : Cutover) : Type 0 where
    pub plan_status : p.status ≡ status
    pub committed : CommittedOn id provider_id c.session

  pub record Settled (c : Cutover) : Type 0 where
    pub plan_status : c.plan.status ≡ status
    pub committed : CommittedOn id provider_id c.session

  pub commit-Settled : Ensures (On id provider_id status) (in_session commit) λ _. Settled
  unfolding in_session
  commit-Settled = record {
    returns = λ c a h e. record {
      plan_status = h.plan_status;
      committed = subst (CommittedOn id provider_id) (sym (commit-eq c.session e)) (record {
        binding = c.binding;
        row = h.linked.row;
        provider = h.provider;
        active = h.active;
      });
    };
  }

  pub reads-Settles : Ensures Settled (reads λ d. d.plan) Settles
  unfolding reads
  reads-Settles = record {
    returns = λ c p h e.
        let eq : c.plan ≡ p = cc in
        record {
          plan_status = ap (λ (q : SwitchoverPlan). q.status) (sym eq) ∙ h.plan_status;
          committed = h.committed;
        };
  }

module _ (describe : Error → String) (r : Request) (exc : Error) where
  -- After the handler's writes.
  rest : Cutover → Exec Cutover SwitchoverPlan
  rest c = in_session flush >>= λ _.
      in_session (
        record_transition_audit_event_once (switchover_failed c.plan.id r.now)
          (audit_event r "binding.switchover_failed" "switchover_plan" c.plan.id (
            ("binding_id", number c.binding.id)
            ∷ ("rollback_provider_catalog_entry_id", number (previous_or_current c))
            ∷ []))
          r.now)
      >>= λ _. in_session commit >>= λ _. reads λ d. d.plan

  rest-Settles :
      (id provider_id : ℕ) (c : Cutover)
      → Ensures
          (On id provider_id SwitchoverStatus.failed)
          (rest c)
          (Settles id provider_id SwitchoverStatus.failed)
  unfolding rest ◌>>=◌
  rest-Settles id provider_id c =
      let stable = On-Stable id provider_id SwitchoverStatus.failed in
      Ensures-last _ _ (flush_rows-Keeps stable) (λ s h. h)
        λ _.
          Ensures-last _ _
            (in_session-Keeps stable _ λ bs. record_transition-BindingsAre bs _ _ r.now) (λ s h. h)
            λ _.
              Ensures-bind _ _ (commit-Settled id provider_id SwitchoverStatus.failed)
                λ _. reads-Settles id provider_id SwitchoverStatus.failed

  after_writes : Cutover → Cutover
  after_writes c =
      let d =
        binding_written
          (binding_moved (previous_or_current c) BindingStatus.active
            "switchover rollback to previous provider" "switchover_rollback" r)
          c in
      let p = failed_plan (previous_or_current c) (describe exc) r.now c.plan in
      record d { plan = p; session = row_of_plan p d.session }

  fail-eq : (c : Cutover) → fail_switchover describe r exc c ≡ rest c (after_writes c)
  unfolding fail_switchover rest after_writes reads write_plan write_binding ◌>>=◌
  fail-eq c = refl

  after_writes-On :
      (id provider_id : ℕ) (c : Cutover)
      → Restores id provider_id c
      → On id provider_id SwitchoverStatus.failed (after_writes c)
  unfolding after_writes
  after_writes-On id provider_id c h = record {
    linked = record {
      row =
          (Linked-written id c
            (binding_moved (previous_or_current c) BindingStatus.active
              "switchover rollback to previous provider" "switchover_rollback" r)
            refl h.linked).row;
    };
    provider = h.provider;
    active = refl;
    plan_status = refl;
  }

  -- The handler goes back to the provider from before.
  pub fail_switchover-Settles :
      (id provider_id : ℕ)
      → Ensures
          (Restores id provider_id)
          (fail_switchover describe r exc)
          (Settles id provider_id SwitchoverStatus.failed)
  fail_switchover-Settles id provider_id = record {
    returns = λ c p h e.
        subst
          (λ (x : Result SwitchoverPlan × Cutover).
            Settles id provider_id SwitchoverStatus.failed p x.1)
          (sym (fail-eq c))
          ((rest-Settles id provider_id c).returns (after_writes c) p
            (after_writes-On id provider_id c h)
            (sym (ap (λ (x : Result SwitchoverPlan × Cutover). x.0) (fail-eq c)) ∙ e));
  }
