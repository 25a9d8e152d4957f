-- ===== src/ControlPlane/Switchovers/Outcome.antt =====
-- execute_switchover_plan around its phases: it returns a plan that failed or one that completed.
use post_base.Base.{
  Option, String, [], ap, contains, get_row, inl, inr, nat_eq, none, not, option_eq, refl, some,
  string_eq, subst, sym, ℕ, ◌==◌, ◌∙◌, ◌∷◌, ◌≡◌, ◌⊎◌,
}
use post_base.ControlPlane.Switchovers.Cutover.{Cutover, reads, run_cutover, write_plan}
use post_base.ControlPlane.Switchovers.Failure.{
  CommittedOn, On, On-Stable, Settled, Settles, commit-Settled, fail_switchover-Settles,
}
use post_base.Domain.Enums.{
  CapabilityKey, SwitchoverStatus, binding_status_eq, capability_key_eq,
  certification_approval_state_eq, certification_test_status_eq, environment_stage_eq,
  environment_status_eq, migration_status_eq, policy_mode_eq, readiness_state_eq, secret_status_eq,
  switchover_status_eq, tenant_role_eq,
}
use post_base.Domain.Plans.{
  SwitchoverPlan, namespace_row, schema_migration_row, switchover_row, table_definition_row,
}
use post_base.Platform.Audit.{Request, transition_key_eq}
use post_base.Platform.Errors.{Error, Result, err, http_exception, message, ok}
use post_base.Platform.Exec.{Exec, after_try, pure, require, try_block, unless, ◌>>=◌}
use post_base.Platform.Exec.Ensures.{Ensures, Ensures-bind, Ensures-last, Ensures-map}
use post_base.Platform.Exec.Rules.{Keeps, Keeps-pure, Keeps-unless, keeps_rules}
use post_base.ControlPlane.Switchovers.Reading.{record_transition-BindingsAre}
use post_base.ControlPlane.Switchovers.Restores.{Restores, run_phases-Restores}
use post_base.Platform.Registry.{ProviderRegistry}
use post_base.Platform.Session.{Session, gets}
use post_base.Domain.Models.{
  CapabilityBinding, CapabilityType, audit_log_row, binding_row, binding_secret_row,
  capability_type_row, catalog_row, environment_row, project_row, secret_ref_row, tenant_member_row,
}
use post_base.Events.Store.{channel_row, dead_letter_row, job_row}
use post_base.Platform.Session.Rules.{gets-Keeps, reading_rules}
use post_base.Domain.PlanEnums.{phase_eq, phases_eq}
use post_base.ControlPlane.Switchovers.Execute.{
  assert_switchover_state_invariants, cut_over, execute_switchover_plan, fail_switchover,
  finish_switchover, key_of_type,
}
use post_base.ControlPlane.Switchovers.Frame.{Stable, flush_rows-Keeps, in_session-Keeps}
use post_base.ControlPlane.Switchovers.Phases.{restore_checkpoint, run_phases}

module _ {S A B : Type 0} where
  after_try-Ensures :
      (J I : S → Type 0) (Q : B → S → Type 0) (o : Result A) (c : S) (handler : Error → Exec S B)
      (next : A → Exec S B)
      → I c
      → ((a : A) → o ≡ ok a → J c)
      → ((e : Error) → Ensures I (handler e) Q)
      → ((a : A) → Ensures J (next a) Q)
      → (b : B) → (after_try o handler next c).0 ≡ ok b
      → Q b (after_try o handler next c).1
  unfolding after_try
  after_try-Ensures J I Q (ok a) c handler next i j kh kn b e = (kn a).returns c b (j a refl) e
  after_try-Ensures J I Q (err x) c handler next i j kh kn b e = (kh x).returns c b i e

  -- A block under `try`: the handler starts where `I` holds, the rest where `J` does.
  pub try_block-Ensures :
      (P J I : S → Type 0) (Q : B → S → Type 0) (m : Exec S A) (handler : Error → Exec S B)
      (next : A → Exec S B)
      → ((c : S) → P c → I c)
      → Keeps I m
      → Ensures P m (λ _. J)
      → ((e : Error) → Ensures I (handler e) Q)
      → ((a : A) → Ensures J (next a) Q)
      → Ensures P (try_block m >>= λ o. after_try o handler next) Q
  unfolding try_block ◌>>=◌
  try_block-Ensures P J I Q m handler next w ki kj kh kn = record {
    returns = λ c b h e.
        after_try-Ensures J I Q (m c).0 (m c).1 handler next (ki.holds c (w c h))
          (λ a x. kj.returns c a h x) kh kn b e;
  }

-- The row objects at one point, followed by the rest.
pub read-Ensures :
    {A : Type 0} {P : Cutover → Type 0} {Q : A → Cutover → Type 0} (k : Cutover → Exec Cutover A)
    → ((c : Cutover) → P c → Ensures P (k c) Q)
    → Ensures P ((reads λ d. d) >>= k) Q
unfolding reads ◌>>=◌
read-Ensures k e = record { returns = λ c b h x. (e c h).returns c b h x }

assert-Keeps :
    (I : Cutover → Type 0) (p : SwitchoverPlan) → Keeps I (assert_switchover_state_invariants p)
unfolding assert_switchover_state_invariants
assert-Keeps I p = search keeps_rules depth 6

module _ (id provider_id : ℕ) where
  completed_stable : Stable (On id provider_id SwitchoverStatus.completed)
  completed_stable = On-Stable id provider_id SwitchoverStatus.completed

  pure-Settles :
      (p : SwitchoverPlan)
      → p.status ≡ SwitchoverStatus.completed
      → Ensures
          (Settled id provider_id SwitchoverStatus.completed)
          (pure p)
          (Settles id provider_id SwitchoverStatus.completed)
  unfolding pure
  pure-Settles p e = record {
    returns = λ c q h x.
        let eq : p ≡ q = cc in
        record {
          plan_status = ap (λ (y : SwitchoverPlan). y.status) (sym eq) ∙ e;
          committed = h.committed;
        };
  }

  -- What follows the `try` block commits where the binding is.
  pub finish_switchover-Settles :
      (r : Request)
      → Ensures
          (On id provider_id SwitchoverStatus.completed)
          (finish_switchover r)
          (Settles id provider_id SwitchoverStatus.completed)
  unfolding finish_switchover
  finish_switchover-Settles r = read-Ensures _ λ c h.
      Ensures-last _ _
        (in_session-Keeps completed_stable _ λ bs. record_transition-BindingsAre bs _ _ r.now)
        (λ s k. k)
        λ _. Ensures-bind _ _ (commit-Settled id provider_id SwitchoverStatus.completed) λ _.
          Ensures-last _ _ (assert-Keeps (Settled id provider_id SwitchoverStatus.completed) c.plan)
            (λ s k. k) λ _. pure-Settles c.plan h.plan_status

-- A plan is returned that failed, with the binding on `before`, or one that completed, with the
-- binding on `after`.
pub record CutoverOutcome (id before after : ℕ) (p : SwitchoverPlan) (s : Session) : Type 0 where
  pub outcome :
      ((p.status ≡ SwitchoverStatus.failed) × CommittedOn id before s)
      ⊎ ((p.status ≡ SwitchoverStatus.completed) × CommittedOn id after s)

-- If the phases that return leave the binding on `after`, then so does the switchover that completes.
pub cut_over-Outcome :
    (P : Cutover → Type 0) (id before after : ℕ) (registry : ProviderRegistry)
    (describe : Error → String) (key : Option CapabilityKey) (r : Request)
    → Stable P
    → Keeps P (restore_checkpoint r)
    → Keeps P (write_plan λ p. record p { status = SwitchoverStatus.running })
    → ((c : Cutover) → P c → Restores id before c)
    → Ensures P (run_phases registry key r) (λ _. On id after SwitchoverStatus.completed)
    → Ensures P (cut_over registry describe key r) λ p c. CutoverOutcome id before after p c.session
unfolding cut_over
cut_over-Outcome P id before after registry describe key r stable restore running w phases =
    Ensures-last _ _ restore (λ s h. h)
      λ _.
        Ensures-last _ _ running (λ s h. h)
          λ _.
            Ensures-last _ _ (flush_rows-Keeps stable) (λ s h. h)
              λ _.
                try_block-Ensures P (On id after SwitchoverStatus.completed) (Restores id before) _
                  (run_phases registry key r) (fail_switchover describe r)
                  (λ _. finish_switchover r) w (run_phases-Restores id before registry key r) phases
                  (λ e.
                    Ensures-map _ (λ c h. h)
                      (λ p c h. record { outcome = inl (h.plan_status, h.committed) })
                      (fail_switchover-Settles describe r e id before))
                  λ _.
                    Ensures-map _ (λ c h. h)
                      (λ p c h. record { outcome = inr (h.plan_status, h.committed) })
                      (finish_switchover-Settles id after r)

-- The loads and tests before the first write.
key_of_type-Keeps : (P : Session → Type 0) (t : Option CapabilityType) → Keeps P (key_of_type t)
unfolding key_of_type
key_of_type-Keeps P none = Keeps-pure none
key_of_type-Keeps P (some t) = search reading_rules depth 5

-- What follows the load of the binding.
after_load :
    ProviderRegistry
    → (Error → String)
    → SwitchoverPlan
    → Request
    → CapabilityBinding
    → Exec Session SwitchoverPlan
after_load registry describe switchover r binding =
    unless (not (switchover.status == SwitchoverStatus.completed))
      (http_exception 400 (message "Switchover is already completed"))
    >>= λ _.
        unless
          (contains switchover.status
            (SwitchoverStatus.pending ∷ SwitchoverStatus.running ∷ SwitchoverStatus.failed ∷ []))
          (http_exception 400 (message "Switchover cannot be resumed"))
        >>= λ _.
            gets (λ d. get_row binding.capability_type_id d.capability_types) >>= λ capability_type.
            key_of_type capability_type >>= λ key.
            run_cutover switchover binding (cut_over registry describe key r)

module _ (registry : ProviderRegistry) (describe : Error → String) (plan : SwitchoverPlan)
    (b : CapabilityBinding) (r : Request) (s : Session)
    (found : get_row plan.capability_binding_id s.db.bindings ≡ some b) where
  load-eq :
      execute_switchover_plan registry describe plan r s ≡ after_load registry describe plan r b s
  unfolding execute_switchover_plan after_load require ◌>>=◌ gets
  load-eq = rw found

  module _ (before after : ℕ) (P : Cutover → Type 0)
      (run : (key : Option CapabilityKey)
        → Ensures P
            (cut_over registry describe key r)
            λ p c. CutoverOutcome plan.capability_binding_id before after p c.session)
      (h : P (record { session = s; plan = plan; binding = b })) where
    run_cutover-Outcome :
        (key : Option CapabilityKey)
        → Ensures
            (λ t. t ≡ s)
            (run_cutover plan b (cut_over registry describe key r))
            (CutoverOutcome plan.capability_binding_id before after)
    unfolding run_cutover
    run_cutover-Outcome key = record {
      returns = λ t p e x.
          (run key).returns (record { session = t; plan = plan; binding = b }) p
            (subst (λ u. P (record { session = u; plan = plan; binding = b })) (sym e) h) x;
    }

    after_load-Outcome :
        Ensures
          (λ t. t ≡ s)
          (after_load registry describe plan r b)
          (CutoverOutcome plan.capability_binding_id before after)
    unfolding after_load
    after_load-Outcome =
        Ensures-last _ _ (Keeps-unless _ _) (λ t e. e)
          λ _.
            Ensures-last _ _ (Keeps-unless _ _) (λ t e. e)
              λ _.
                Ensures-last _ _ (gets-Keeps (λ t. t ≡ s) _) (λ t e. e)
                  λ capability_type.
                    Ensures-last _ _ (key_of_type-Keeps (λ t. t ≡ s) capability_type) (λ t e. e)
                      λ key. run_cutover-Outcome key

    -- A call that returns leaves what the cutover leaves.
    pub execute-Outcome :
        (p : SwitchoverPlan)
        → (execute_switchover_plan registry describe plan r s).0 ≡ ok p
        → CutoverOutcome plan.capability_binding_id before after p
            (execute_switchover_plan registry describe plan r s).1
    execute-Outcome p e =
        subst
          (λ (x : Result SwitchoverPlan × Session).
            CutoverOutcome plan.capability_binding_id before after p x.1)
          (sym load-eq)
          (after_load-Outcome.returns s p refl
            (sym (ap (λ (x : Result SwitchoverPlan × Session). x.0) load-eq) ∙ e))
