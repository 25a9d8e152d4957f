-- ===== src/ControlPlane/Bindings/Success.antt =====
-- What a call of set_binding_status writes when its checks pass, and that only they make it fail.
use post_base.Base.{
  List, Option, String, [], modify, nat_eq, none, option_eq, refl, some, string_eq, text_or, true,
  ℕ, ◌==◌, ◌∙◌, ◌≡◌,
}
use post_base.ControlPlane.Bindings.{
  assert_binding_state_invariants, assert_binding_transition_is_legal, check_activation,
  conflicting_active, on_integrity_error, set_binding_status,
  validate_binding_activation_prerequisites, with_status,
}
use post_base.ControlPlane.Bindings.Unique.{
  InSlot, KeysDiffer, Moves, NoRival, unique-enter, unique-leave,
}
use post_base.Domain.Enums.{
  BindingStatus, binding_status_eq, capability_key_eq, certification_approval_state_eq,
  certification_test_status_eq, environment_stage_eq, environment_status_eq, migration_status_eq,
  policy_mode_eq, readiness_state_eq, secret_status_eq, switchover_status_eq, tenant_role_eq,
}
use post_base.Domain.Models.{
  AuditLog, CapabilityBinding, TransitionKey, audit_log_row, binding_row, binding_secret_row,
  capability_type_row, catalog_row, environment_row, project_row, secret_ref_row, tenant_member_row,
}
use post_base.Platform.Audit.{Request, record_transition_audit_event_once, transition_key_eq}
use post_base.Platform.Errors.{Error, ok}
use post_base.Platform.Exec.{Exec, branch, on_option, pure, raise, require, ◌>>◌}
use post_base.Platform.Registry.{ProviderRegistry}
use post_base.Platform.Session.{
  Db, Session, active_bindings_unique, commit, gets, modify_binding, try_flush,
}
use post_base.ControlPlane.Bindings.Status.{
  assert_invariants-eq, assert_legal-Keeps, check_activation-Keeps, validate-Keeps,
}
use post_base.Platform.Exec.Rules.{
  Keeps-branch, Keeps-pure, Keeps-require, Reads, Reads-Keeps, Reads-eq-ok, Reads-ok, bind-eq,
}
use post_base.Platform.Session.Rules.{bind-gets, bind-update, gets-Keeps}
use post_base.Platform.Session.Consistent.{
  Consistent, commit-Consistent, try_flush-Consistent, with_logs, with_logs-Consistent,
}
use post_base.Platform.Audit.Rules.{record_transition-Consistent}
use post_base.Events.Store.{channel_row, dead_letter_row, job_row}
use post_base.Domain.PlanEnums.{phase_eq, phases_eq}
use post_base.Domain.Plans.{
  namespace_row, schema_migration_row, switchover_row, table_definition_row,
}

-- The row object that the caller passes is the row of the session's table.
pub record IsLoaded (b : CapabilityBinding) (bs : List CapabilityBinding) : Type 0 where
  pub keys : KeysDiffer bs
  pub slot : InSlot b.id b.environment_id b.capability_type_id bs

-- No other transaction commits a binding while the call runs.
abbrev pub Alone : Session → Type 0
Alone s = s.raced ≡ []

module _ (status : BindingStatus) (reason : String) (actor now : ℕ) where
  with_status-Moves : Moves status (with_status status reason actor now)
  with_status-Moves b = (refl, refl, refl, refl)

-- The checks of a call: the legality of the transition, and those of an activation.
abbrev pub checks : ProviderRegistry → CapabilityBinding → BindingStatus → ℕ → Exec Session Unit
checks registry binding status_value now = do
  assert_binding_transition_is_legal binding.id binding.status status_value
  branch (status_value == BindingStatus.active) (check_activation registry binding now) (pure tt)

none_of_on_option :
    {A : Type 0} (o : Option A) (f : A → Error) (s : Session)
    → (on_option o (pure tt) (λ a. raise (f a)) s).0 ≡ ok tt
    → o ≡ none
unfolding on_option pure raise
none_of_on_option none f s h = refl
none_of_on_option (some a) f s h = cc

gets-Reads : {A : Type 0} (f : Db → A) → Reads (gets f)
gets-Reads f = Reads-Keeps (gets f) λ P. gets-Keeps P f

require-Reads : {A : Type 0} (o : Option A) (e : Error) → Reads (require {S = Session} o e)
require-Reads o e = Reads-Keeps (require o e) λ P. Keeps-require o e

-- An activation check that returns has seen no other active binding in the slot.
check_activation-NoRival :
    (registry : ProviderRegistry) (b : CapabilityBinding) (now : ℕ) (s : Session)
    → (check_activation registry b now s).0 ≡ ok tt
    → NoRival b.id b.environment_id b.capability_type_id s.db.bindings
unfolding check_activation conflicting_active
check_activation-NoRival registry b now s h =
    let (p, _, h₁) = Reads-eq-ok (require _ _) _ s (require-Reads _ _) (rw bind-gets at h) in
    let (_, _, h₂) =
      Reads-eq-ok (validate_binding_activation_prerequisites registry b p now) _ s
        (Reads-Keeps _ λ P. validate-Keeps P registry b p now) h₁ in
    none_of_on_option (conflicting_active b s.db.bindings) _ s (rw bind-gets at h₂)

-- So has an activation whose checks return.
pub checks-NoRival :
    (registry : ProviderRegistry) (b : CapabilityBinding) (now : ℕ) (s : Session)
    → (checks registry b BindingStatus.active now s).0 ≡ ok tt
    → NoRival b.id b.environment_id b.capability_type_id s.db.bindings
unfolding branch
checks-NoRival registry b now s passed =
    let (_, _, h) =
      Reads-eq-ok (assert_binding_transition_is_legal b.id b.status BindingStatus.active) _ s
        (Reads-Keeps _ λ P. assert_legal-Keeps P b.id b.status BindingStatus.active) passed in
    check_activation-NoRival registry b now s h

-- The session after the write of the new status.
abbrev pub moved : CapabilityBinding → BindingStatus → String → Request → Session → Session
moved b status reason r s = record s {
  db = record s.db {
    bindings = modify b.id (with_status status reason r.actor r.now) s.db.bindings;
  };
}

module _ (registry : ProviderRegistry) (b : CapabilityBinding) (reason : String) (r : Request)
    (s : Session) where
  -- A write that enters or leaves `active` keeps the index, if the checks passed.
  moved_unique :
      (status : BindingStatus)
      → active_bindings_unique s.db.bindings ≡ true
      → IsLoaded b s.db.bindings
      → (checks registry b status r.now s).0 ≡ ok tt
      → active_bindings_unique (moved b status reason r s).db.bindings ≡ true
  unfolding branch
  moved_unique BindingStatus.active unique loaded passed =
      unique-enter b.id b.environment_id b.capability_type_id _ BindingStatus.active
        (with_status-Moves BindingStatus.active reason r.actor r.now) s.db.bindings loaded.keys
        loaded.slot (checks-NoRival registry b r.now s passed) unique
  moved_unique status unique loaded passed =
      unique-leave b.id _ status (with_status-Moves status reason r.actor r.now) (λ e. cc)
        s.db.bindings unique

  moved-Consistent :
      (status : BindingStatus)
      → Alone s
      → Consistent s
      → IsLoaded b s.db.bindings
      → (checks registry b status r.now s).0 ≡ ok tt
      → Consistent (moved b status reason r s)
  moved-Consistent status alone c loaded passed = record {
    bindings = rw alone (moved_unique status (rw alone at c.bindings) loaded passed);
    secrets = c.secrets;
    versions = c.versions;
    links = c.links;
  }

-- What is committed is what the session sees, and it satisfies the index of active bindings.
pub record IsSaved (s : Session) : Type 0 where
  pub saved : s.committed ≡ s.db
  pub unique : active_bindings_unique s.committed.bindings ≡ true

-- The whole run, step by step.
set_binding_status-run :
    (registry : ProviderRegistry) (b : CapabilityBinding) (status : BindingStatus)
    (reason : Option String) (r : Request) (s : Session)
    → Consistent (moved b status (text_or reason "manual_status_update") r s)
    → (checks registry b status r.now s).0 ≡ ok tt
    → let t = moved b status (text_or reason "manual_status_update") r s in
      (logs : List AuditLog) × (set_binding_status registry b status reason r s ≡ (
        ok (with_status status (text_or reason "manual_status_update") r.actor r.now b),
        record (with_logs t logs) { committed = (with_logs t logs).db },
      ))
unfolding set_binding_status modify_binding pure
set_binding_status-run registry b status reason r s c passed =
    let t = moved b status (text_or reason "manual_status_update") r s in
    let (_, legal, h) =
      Reads-eq-ok (assert_binding_transition_is_legal b.id b.status status) _ s
        (Reads-Keeps _ λ P. assert_legal-Keeps P b.id b.status status) passed in
    let ready =
      Reads-ok
        (branch (status == BindingStatus.active) (check_activation registry b r.now) (pure tt)) s
        (Reads-Keeps _
          λ P. Keeps-branch _ _ _ (check_activation-Keeps P registry b r.now) (Keeps-pure tt))
        h in
    let (log, logs, audited) =
      record_transition-Consistent (TransitionKey.binding_status b.id status r.now) _ r.now t c in
    (
      logs,
      bind-eq (assert_binding_transition_is_legal b.id b.status status) _ legal
          ∙ bind-eq
              (branch (status == BindingStatus.active) (check_activation registry b r.now)
                (pure tt))
              _ ready
          ∙ bind-update _ _ s
          ∙ bind-eq (try_flush (on_integrity_error b)) _
              (try_flush-Consistent t c (on_integrity_error b))
          ∙ bind-eq (record_transition_audit_event_once _ _ r.now) _ audited
          ∙ bind-eq commit _ (commit-Consistent (with_logs t logs) (with_logs-Consistent t logs c))
          ∙ bind-eq (assert_binding_state_invariants _) _
              (assert_invariants-eq status _ r.actor r.now b _),
    )

-- For a loaded row of a consistent session that no other transaction races, a call of
-- set_binding_status whose checks pass returns: the row has the new status, actor, reason and times,
-- no other row of the table changes, the tables are committed, and at most one binding of each
-- environment and capability is active in them.
pub set_binding_status-ok :
    (registry : ProviderRegistry) (b : CapabilityBinding) (status : BindingStatus)
    (reason : Option String) (r : Request) (s : Session)
    → Alone s
    → Consistent s
    → IsLoaded b s.db.bindings
    → (checks registry b status r.now s).0 ≡ ok tt
    → let text_reason = text_or reason "manual_status_update" in
      let (result, s') = set_binding_status registry b status reason r s in
      (result ≡ ok (with_status status text_reason r.actor r.now b))
      × (s'.committed.bindings
          ≡ modify b.id (with_status status text_reason r.actor r.now) s.db.bindings)
      × IsSaved s'
unfolding set_binding_status
set_binding_status-ok registry b status reason r s alone c loaded passed =
    let text_reason = text_or reason "manual_status_update" in
    let (logs, e) =
      set_binding_status-run registry b status reason r s
        (moved-Consistent registry b text_reason r s status alone c loaded passed) passed in
    rw e (
      refl,
      refl,
      record {
        saved = refl;
        unique =
            moved_unique registry b text_reason r s status (rw alone at c.bindings) loaded passed;
      },
    )
