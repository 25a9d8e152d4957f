-- ===== src/ControlPlane/Bindings/Version.antt =====
-- What create_binding_version refuses, and what it leaves when it raises.
use post_base.Base.{
  All, Any, Bool, List, Option, Option-cases, String, [], any_of, arith, false, get_row,
  get_row-All, get_row-key, inl, inr, is_empty, keep_if, refl, true, ℕ, ◌∙◌, ◌∷◌, ◌≡◌, ◌≢◌,
}
use post_base.Domain.Models.{
  CapabilityBinding, CapabilityType, JsonObject, ProviderCatalogEntry, SecretRef, audit_log_row,
  binding_row, binding_secret_row, capability_type_row, catalog_row, environment_row, project_row,
  secret_ref_row, tenant_member_row,
}
use post_base.Platform.Audit.{Request}
use post_base.Platform.Audit.Rules.{audited_rules}
use post_base.Platform.Errors.{Error, err, http_exception, message}
use post_base.Platform.Exec.{branch, pure, unless}
use post_base.Platform.Exec.Rules.{
  Keeps, KeepsOnError, KeepsOnError-bind, KeepsOnError-last, Returns-pure, bind-err,
}
use post_base.Platform.Session.{Db, Session}
use post_base.Platform.Session.Rules.{Committed, bind-gets, commit-KeepsOnError, committed_rules}
use post_base.ControlPlane.Bindings.Create.{
  activate_version, check_secret_boundary, create_binding_version, fail_version, is_out_of_boundary,
}
use post_base.Domain.Plans.{
  namespace_row, schema_migration_row, switchover_row, table_definition_row,
}
use post_base.Events.Store.{channel_row, dead_letter_row, job_row}

is_empty-keep_if :
    {A : Type 0} (p : A → Bool) (xs : List A) → any_of p xs ≡ true → is_empty (keep_if p xs) ≡ false
unfolding keep_if any_of
is_empty-keep_if p [] h = cc
is_empty-keep_if p (x ∷ xs) h = ground (arith, is_empty-keep_if p xs)

module _ (d : Db) where
  check_secret_boundary-Keeps :
      (e : ℕ) (ids : List ℕ) → Keeps (Committed d) (check_secret_boundary e ids)
  unfolding check_secret_boundary
  check_secret_boundary-Keeps e ids = search committed_rules depth 9

  fail_version-Keeps :
      (id : ℕ) (detail : String) (r : Request) → Keeps (Committed d) (fail_version id detail r)
  unfolding fail_version
  fail_version-Keeps id detail r = search committed_rules depth 9

  activate_version-Keeps :
      (id : ℕ) (former : Option CapabilityBinding) (r : Request)
      → Keeps (Committed d) (activate_version id former r)
  unfolding activate_version
  activate_version-Keeps id former r = search committed_rules depth 9

  create_binding_version-KeepsOnError :
      (capability : CapabilityType) (provider : ProviderCatalogEntry) (config : JsonObject)
      (region : Option String) (ids : List ℕ) (r : Request)
      → KeepsOnError (Committed d) (create_binding_version capability provider config region ids r)
  unfolding create_binding_version
  create_binding_version-KeepsOnError capability provider config region ids r =
      search
        (
          audited_rules, check_secret_boundary-Keeps, fail_version-Keeps, activate_version-Keeps,
          KeepsOnError-bind, KeepsOnError-last, commit-KeepsOnError, Returns-pure,
        )
        depth 16

-- A call of create_binding_version that raises leaves the committed tables as they were.
pub create_binding_version-err :
    (capability : CapabilityType) (provider : ProviderCatalogEntry) (config : JsonObject)
    (region : Option String) (ids : List ℕ) (r : Request) (s : Session) (e : Error)
    → (create_binding_version capability provider config region ids r s).0 ≡ err e
    → (create_binding_version capability provider config region ids r s).1.committed ≡ s.committed
create_binding_version-err capability provider config region ids r s e raised =
    ((create_binding_version-KeepsOnError s.committed capability provider config region ids
        r).on_error
      s e (record { eq = refl }) raised).eq

boundary-refused :
    (e : ℕ) (ids : List ℕ) (s : Session)
    → any_of (is_out_of_boundary e s.db.secrets) ids ≡ true
    → branch (is_empty ids) (pure tt) (check_secret_boundary e ids) s ≡ (
      err (
          http_exception 400 (
            message
              "Tenant boundary violation: one or more secrets are outside the target environment")),
      s,
    )
unfolding branch check_secret_boundary unless any_of
boundary-refused e [] s h = cc
boundary-refused e (x ∷ ids) s h =
    bind-gets _ _ s ∙ rw (is_empty-keep_if (is_out_of_boundary e s.db.secrets) (x ∷ ids) h)

-- No secret of the environment has this key.
abbrev pub IsForeign : ℕ → List SecretRef → ℕ → Type 0
IsForeign environment_id secrets secret_id =
    All (λ x. x.id ≡ secret_id → x.environment_id ≢ environment_id) secrets

foreign-outside :
    (e : ℕ) (secrets : List SecretRef) (id : ℕ)
    → IsForeign e secrets id
    → is_out_of_boundary e secrets id ≡ true
unfolding is_out_of_boundary
foreign-outside e secrets id foreign = elim (Option-cases (get_row id secrets)) [
  | inl f ↦ rw f refl
  | inr (x, f) ↦
      (let other : x.environment_id ≢ e =
          get_row-All (λ y. y.id ≡ id → y.environment_id ≢ e) id secrets x foreign f
            (get_row-key id secrets x f) in
        rw f (ground (arith, other)))
]

foreign-found :
    (e : ℕ) (secrets : List SecretRef) (ids : List ℕ)
    → Any (IsForeign e secrets) ids
    → any_of (is_out_of_boundary e secrets) ids ≡ true
unfolding any_of
foreign-found e secrets [] foreign = absurd foreign
foreign-found e secrets (id ∷ ids) (inl foreign) =
    let o = foreign-outside e secrets id foreign in ground (arith, o)
foreign-found e secrets (id ∷ ids) (inr later) =
    let o = foreign-found e secrets ids later in ground (arith, o)

-- If no secret of the environment has one of the given keys, be it the key of no secret or that of
-- another environment's, the call answers 400, and nothing is written.
pub create_binding_version-boundary :
    (capability : CapabilityType) (provider : ProviderCatalogEntry) (config : JsonObject)
    (region : Option String) (ids : List ℕ) (r : Request) (s : Session)
    → Any (IsForeign r.environment.id s.db.secrets) ids
    → create_binding_version capability provider config region ids r s ≡ (
      err (
          http_exception 400 (
            message
              "Tenant boundary violation: one or more secrets are outside the target environment")),
      s,
    )
unfolding create_binding_version
create_binding_version-boundary capability provider config region ids r s h =
    bind-err (branch (is_empty ids) (pure tt) (check_secret_boundary r.environment.id ids)) _
      (boundary-refused r.environment.id ids s (foreign-found r.environment.id s.db.secrets ids h))
