-- ===== src/ControlPlane/Bindings/Status.antt =====
-- What set_binding_status does on each branch.
use post_base.Base.{Option, String, refl, ℕ, ◌≡◌}
use post_base.Domain.Enums.{BindingStatus}
use post_base.Domain.Models.{CapabilityBinding, ProviderCatalogEntry}
use post_base.Platform.Errors.{Constraint, Error, err, ok}
use post_base.Platform.Exec.Rules.{
  Keeps, KeepsOnError, KeepsOnError-bind, KeepsOnError-last, Returns, Returns-bind, Returns-pure,
}
use post_base.Platform.Session.{Db, Session}
use post_base.Platform.Session.Rules.{
  Committed, commit-KeepsOnError, committed_rules, reading_rules,
}
use post_base.Platform.Audit.{Request}
use post_base.Platform.Audit.Rules.{audited_rules}
use post_base.Platform.Registry.{ProviderRegistry, resolve}
use post_base.ControlPlane.Bindings.{
  assert_binding_state_invariants, assert_binding_transition_is_legal, check_activation,
  on_integrity_error, set_binding_status, validate_binding_activation_prerequisites,
  validate_storage_provider, with_status,
}
use post_base.Platform.Exec.{unless}

-- The checks only read.
module _ (P : Session → Type 0) where
  pub assert_legal-Keeps :
      (id : ℕ) (x y : BindingStatus) → Keeps P (assert_binding_transition_is_legal id x y)
  unfolding assert_binding_transition_is_legal
  assert_legal-Keeps id x y = search reading_rules

  validate_storage_provider-Keeps :
      (registry : ProviderRegistry) (key : String)
      → Keeps P (validate_storage_provider registry key)
  unfolding validate_storage_provider resolve
  validate_storage_provider-Keeps registry key = search reading_rules depth 9

  pub validate-Keeps :
      (registry : ProviderRegistry) (b : CapabilityBinding) (p : ProviderCatalogEntry) (now : ℕ)
      → Keeps P (validate_binding_activation_prerequisites registry b p now)
  unfolding validate_binding_activation_prerequisites
  validate-Keeps registry b p now = search (reading_rules, validate_storage_provider-Keeps) depth 9

  pub check_activation-Keeps :
      (registry : ProviderRegistry) (b : CapabilityBinding) (now : ℕ)
      → Keeps P (check_activation registry b now)
  unfolding check_activation
  check_activation-Keeps registry b now = search (reading_rules, validate-Keeps) depth 9

module _ (d : Db) where
  on_integrity_error-Committed :
      (b : CapabilityBinding) (c : Constraint) → Keeps (Committed d) (on_integrity_error b c)
  unfolding on_integrity_error
  on_integrity_error-Committed b Constraint.active_binding = search committed_rules depth 9
  on_integrity_error-Committed b Constraint.active_secret_version = search committed_rules depth 9
  on_integrity_error-Committed b Constraint.secret_version = search committed_rules depth 9
  on_integrity_error-Committed b Constraint.binding_secret_link = search committed_rules depth 9
  on_integrity_error-Committed b Constraint.idempotency_key_actor_endpoint =
      search committed_rules depth 9

pub assert_invariants-Returns :
    (status : BindingStatus) (reason : String) (actor now : ℕ) (b : CapabilityBinding)
    → Returns (assert_binding_state_invariants (with_status status reason actor now b))
unfolding assert_binding_state_invariants unless
assert_invariants-Returns BindingStatus.active reason actor now b = record {
  value = λ s. (tt, refl);
}
assert_invariants-Returns status reason actor now b = record { value = λ s. (tt, refl) }

pub assert_invariants-eq :
    (status : BindingStatus) (reason : String) (actor now : ℕ) (b : CapabilityBinding) (s : Session)
    → assert_binding_state_invariants (with_status status reason actor now b) s ≡ (ok tt, s)
unfolding assert_binding_state_invariants unless
assert_invariants-eq BindingStatus.active reason actor now b s = refl
assert_invariants-eq status reason actor now b s = refl

set_binding_status-KeepsOnError :
    (d : Db) (registry : ProviderRegistry) (binding : CapabilityBinding)
    (status_value : BindingStatus) (reason : Option String) (r : Request)
    → KeepsOnError (Committed d) (set_binding_status registry binding status_value reason r)
unfolding set_binding_status
set_binding_status-KeepsOnError d registry binding status_value reason r =
    search
      (
        audited_rules, check_activation-Keeps, on_integrity_error-Committed, assert_legal-Keeps,
        KeepsOnError-bind, KeepsOnError-last, commit-KeepsOnError, Returns-bind, Returns-pure,
        assert_invariants-Returns,
      )
      depth 12

-- A call of set_binding_status that raises leaves the committed tables as they were.
pub set_binding_status-err :
    (registry : ProviderRegistry) (binding : CapabilityBinding) (status_value : BindingStatus)
    (reason : Option String) (r : Request) (s : Session) (e : Error)
    → (set_binding_status registry binding status_value reason r s).0 ≡ err e
    → (set_binding_status registry binding status_value reason r s).1.committed ≡ s.committed
set_binding_status-err registry binding status_value reason r s e raised =
    ((set_binding_status-KeepsOnError s.committed registry binding status_value reason r).on_error s
      e (record { eq = refl }) raised).eq
