-- ===== src/ControlPlane/Bindings/Refusal.antt =====
-- How set_binding_status fails: by its checks, or by a transaction that races it.
use post_base.Base.{
  Any, List, Option, String, [], ap, arith, false, first_where, inl, inr, refl, sym, text_or, true,
  ℕ, ◌++◌, ◌∙◌, ◌∷◌, ◌≡◌, ◌≢◌, ◌⊎◌,
}
use post_base.ControlPlane.Bindings.{
  assert_binding_transition_is_legal, legal_binding_status_transitions, on_integrity_error,
  set_binding_status,
}
use post_base.ControlPlane.Bindings.Status.{assert_legal-Keeps, check_activation-Keeps}
use post_base.ControlPlane.Bindings.Success.{checks, checks-NoRival, moved}
use post_base.Domain.Enums.{BindingStatus}
use post_base.Domain.Models.{CapabilityBinding}
use post_base.Platform.Audit.{Request}
use post_base.Platform.Errors.{
  Error, Result, binding_invalid_status_transition, err, http_exception, missing_greenlet, ok,
}
use post_base.Platform.Exec.{branch, unless, ◌>>=◌}
use post_base.Platform.Exec.Rules.{Reads, Reads-Keeps, Reads-ok, bind-eq, bind-err, bind_assoc}
use post_base.Platform.Registry.{ProviderRegistry}
use post_base.Platform.Session.{
  Session, active_bindings_unique, flush, is_active_in, modify_binding, read_row_object, rollback,
  try_flush,
}
use post_base.Platform.Session.Rules.{bind-update, reading_rules}
use post_base.ControlPlane.Bindings.Unique.{NoRival}
use post_base.ControlPlane.Switchovers.Phases.{retired}

module _ (registry : ProviderRegistry) (b : CapabilityBinding) (status : BindingStatus)
    (reason : Option String) (r : Request) (s : Session) where
  checks-Reads : Reads (checks registry b status r.now)
  checks-Reads =
      Reads-Keeps _ λ P. search (reading_rules, assert_legal-Keeps, check_activation-Keeps)

  -- The checks stand first, so what they raise is what the call raises, and nothing is written.
  pub set_binding_status-refused :
      (e : Error)
      → (checks registry b status r.now s).0 ≡ err e
      → set_binding_status registry b status reason r s ≡ (err e, s)
  unfolding set_binding_status
  set_binding_status-refused e h =
      sym (bind_assoc (assert_binding_transition_is_legal b.id b.status status) _ _ s)
      ∙ bind-err (checks registry b status r.now) _ (λ i. (h i, checks-Reads.same s i))

assert_retired :
    (id : ℕ) (status : BindingStatus) (s : Session)
    → status ≢ BindingStatus.retired
    → assert_binding_transition_is_legal id BindingStatus.retired status s ≡ (
      err (http_exception 409 (binding_invalid_status_transition id BindingStatus.retired status)),
      s,
    )
unfolding assert_binding_transition_is_legal legal_binding_status_transitions branch unless
assert_retired id BindingStatus.retired s other = absurd (other refl)
assert_retired id status s other = refl

-- RETIRED is final: every other status is refused with 409, and the session stays as it was.
pub retired-final :
    (registry : ProviderRegistry) (b : CapabilityBinding) (status : BindingStatus)
    (reason : Option String) (r : Request) (s : Session)
    → b.status ≡ BindingStatus.retired
    → status ≢ BindingStatus.retired
    → set_binding_status registry b status reason r s ≡ (
      err (
          http_exception 409 (binding_invalid_status_transition b.id BindingStatus.retired status)),
      s,
    )
unfolding set_binding_status
retired-final registry b status reason r s retired other =
    bind-err (assert_binding_transition_is_legal b.id b.status status) _ (
      ap (λ x. assert_binding_transition_is_legal b.id x status s) retired
      ∙ assert_retired b.id status s other)

-- A flush that meets another active binding of the slot ends in the read of an expired attribute.
try_flush-taken :
    (b : CapabilityBinding) (t : Session)
    → active_bindings_unique (t.raced ++ t.db.bindings) ≡ false
    → try_flush (on_integrity_error b) t ≡ (
      err missing_greenlet,
      record t {
        db = record t.committed { bindings = t.committed.bindings ++ t.raced };
        expired = true;
      },
    )
unfolding try_flush flush on_integrity_error rollback read_row_object ◌>>=◌
try_flush-taken b t taken = rw taken

raced-run :
    (registry : ProviderRegistry) (b : CapabilityBinding) (status : BindingStatus)
    (reason : Option String) (r : Request) (s : Session)
    → (checks registry b status r.now s).0 ≡ ok tt
    → active_bindings_unique
        (s.raced ++ (moved b status (text_or reason "manual_status_update") r s).db.bindings)
      ≡ false
    → set_binding_status registry b status reason r s ≡ (
      err missing_greenlet,
      record s {
        db = record s.committed { bindings = s.committed.bindings ++ s.raced };
        expired = true;
      },
    )
unfolding set_binding_status modify_binding
raced-run registry b status reason r s passed taken =
    sym (bind_assoc (assert_binding_transition_is_legal b.id b.status status) _ _ s)
    ∙ bind-eq (checks registry b status r.now) _ (
        Reads-ok (checks registry b status r.now) s (checks-Reads registry b status reason r s)
          passed)
    ∙ bind-update _ _ s
    ∙ bind-err (try_flush (on_integrity_error b)) _
        (try_flush-taken b (moved b status (text_or reason "manual_status_update") r s) taken)

-- A binding that another transaction makes active between the check and the flush is met by the
-- index: nothing is committed, and the session is back at the committed tables, but the call raises
-- MissingGreenlet, as its handler reads the binding after the rollback.
pub set_binding_status-raced :
    (registry : ProviderRegistry) (b : CapabilityBinding) (status : BindingStatus)
    (reason : Option String) (r : Request) (s : Session)
    → (checks registry b status r.now s).0 ≡ ok tt
    → active_bindings_unique
        (s.raced ++ (moved b status (text_or reason "manual_status_update") r s).db.bindings)
      ≡ false
    → let (result, s') = set_binding_status registry b status reason r s in
      (result ≡ err missing_greenlet)
      × (s'.committed ≡ s.committed)
      × (s'.db ≡ record s.committed { bindings = s.committed.bindings ++ s.raced })
set_binding_status-raced registry b status reason r s passed taken =
    rw (raced-run registry b status reason r s passed taken) (refl, refl, refl)

-- An active binding of the same environment and capability, other than this one.
abbrev pub IsRival : CapabilityBinding → CapabilityBinding → Type 0
IsRival b c =
    (c.id ≢ b.id)
    × (c.environment_id ≡ b.environment_id)
    × (c.capability_type_id ≡ b.capability_type_id)
    × (c.status ≡ BindingStatus.active)

rival-seen :
    (b : CapabilityBinding) (bs : List CapabilityBinding)
    → Any (IsRival b) bs
    → NoRival b.id b.environment_id b.capability_type_id bs
    → ⊥
unfolding first_where is_active_in
rival-seen b [] rival free = rival
rival-seen b (c ∷ bs) (inl rival) free = ground (arith, rival, free)
rival-seen b (c ∷ bs) (inr later) free = rival-seen b bs later (ground (arith, free))

result-cases : (x : Result (Unit {0})) → (x ≡ ok tt) ⊎ ((e : Error) × (x ≡ err e))
result-cases (ok tt) = inl refl
result-cases (err e) = inr (e, refl)

-- A binding is never activated beside a rival, an active binding of the same environment and
-- capability: the call raises, and the session stays as it was.
pub set_binding_status-rival :
    (registry : ProviderRegistry) (b : CapabilityBinding) (reason : Option String) (r : Request)
    (s : Session)
    → Any (IsRival b) s.db.bindings
    → (e : Error) × (set_binding_status registry b BindingStatus.active reason r s ≡ (err e, s))
set_binding_status-rival registry b reason r s rival =
    elim (result-cases (checks registry b BindingStatus.active r.now s).0) [
      | inl passed ↦
          absurd (rival-seen b s.db.bindings rival (checks-NoRival registry b r.now s passed))
      | inr (e, raised) ↦
          (e, set_binding_status-refused registry b BindingStatus.active reason r s e raised)
    ]
