-- ===== src/ControlPlane/Secrets/Writes.antt =====
-- What creating and revoking a secret write, and that they commit nothing when they raise.
use post_base.Base.{
  All, Bool, List, String, [], any_of, arith, false, first_where, next_key, none, refl, string_eq,
  true, ℕ, ◌++◌, ◌∙◌, ◌∷◌, ◌≡◌, ◌≢◌,
}
use post_base.ControlPlane.Secrets.{
  SealedSecret, add_secret, create_secret_ref, modify_secret, new_secret,
}
use post_base.Domain.Models.{
  AuditLog, SecretRef, audit_log_row, binding_row, binding_secret_row, capability_type_row,
  catalog_row, environment_row, project_row, secret_ref_row, tenant_member_row,
}
use post_base.Platform.Audit.{Request, add_audit_row, record_audit_event}
use post_base.Platform.Audit.Rules.{add_audit_row-Consistent, audited_rules}
use post_base.Platform.Errors.{Error, err, ok}
use post_base.Platform.Exec.Rules.{
  Keeps, KeepsOnError, KeepsOnError-bind, KeepsOnError-last, Returns-pure, bind-eq,
}
use post_base.Platform.Session.{
  Db, Session, active_versions_unique, commit, flush, is_active_version_of, is_version_of,
  secret_versions_unique,
}
use post_base.Platform.Session.Rules.{
  Committed, bind-gets, bind-update, commit-KeepsOnError, update-Committed,
}
use post_base.Events.Store.{channel_row, dead_letter_row, job_row}
use post_base.Platform.Exec.{on_option, pure, unless}
use post_base.Platform.Session.Consistent.{
  Consistent, commit-Consistent, flush-Consistent, with_logs, with_logs-Consistent,
}
use post_base.Domain.Plans.{
  namespace_row, schema_migration_row, switchover_row, table_definition_row,
}

module _ (d : Db) where
  pub add_secret-Committed : (x : SecretRef) → Keeps (Committed d) (add_secret x)
  unfolding add_secret
  add_secret-Committed x = update-Committed d _

  pub modify_secret-Committed :
      (id : ℕ) (f : SecretRef → SecretRef) → Keeps (Committed d) (modify_secret id f)
  unfolding modify_secret
  modify_secret-Committed id f = update-Committed d _

pub ruleset secret_rules = (audited_rules, add_secret-Committed, modify_secret-Committed)

create_secret_ref-KeepsOnError :
    (d : Db) (is_identifier : String → Bool) (name provider_key secret_kind : String)
    (sealed : SealedSecret) (r : Request)
    → KeepsOnError
        (Committed d)
        (create_secret_ref is_identifier name provider_key secret_kind sealed r)
unfolding create_secret_ref
create_secret_ref-KeepsOnError d is_identifier name provider_key secret_kind sealed r =
    search (secret_rules, KeepsOnError-bind, KeepsOnError-last, commit-KeepsOnError, Returns-pure)
      depth 14

-- A call of create_secret_ref that raises leaves the committed tables as they were.
pub create_secret_ref-err :
    (is_identifier : String → Bool) (name provider_key secret_kind : String) (sealed : SealedSecret)
    (r : Request) (s : Session) (e : Error)
    → (create_secret_ref is_identifier name provider_key secret_kind sealed r s).0 ≡ err e
    → (create_secret_ref is_identifier name provider_key secret_kind sealed r s).1.committed
      ≡ s.committed
create_secret_ref-err is_identifier name provider_key secret_kind sealed r s e raised =
    ((create_secret_ref-KeepsOnError s.committed is_identifier name provider_key secret_kind sealed
        r).on_error
      s e (record { eq = refl }) raised).eq

any_of-append :
    {A : Type 0} (p : A → Bool) (xs : List A) (y : A)
    → any_of p xs ≡ false
    → p y ≡ false
    → any_of p (xs ++ y ∷ []) ≡ false
unfolding any_of
any_of-append p [] y h k = ground (arith, k)
any_of-append p (x ∷ xs) y h k = let ih = any_of-append p xs y in ground (arith, ih, h, k)

-- Two active versions of one name collide whichever stands first.
collide_sym :
    (x y : SecretRef)
    → x.is_active_version ≡ true
    → is_active_version_of y.environment_id y.name x ≡ false
    → is_active_version_of x.environment_id x.name y ≡ false
unfolding is_active_version_of
collide_sym x y h k =
    let a = string_eq.beq_iff x.name y.name in
    let b = string_eq.beq_iff y.name x.name in ground (arith, a, b, h, k)

pub versions_unique-append :
    (xs : List SecretRef) (y : SecretRef)
    → active_versions_unique xs ≡ true
    → first_where (is_active_version_of y.environment_id y.name) xs ≡ none
    → active_versions_unique (xs ++ y ∷ []) ≡ true
unfolding active_versions_unique first_where any_of
versions_unique-append [] y h k = ground arith
versions_unique-append (x ∷ xs) y h k =
    let ih = versions_unique-append xs y in
    let apart = collide_sym x y in
    let grown = any_of-append (is_active_version_of x.environment_id x.name) xs y in
    ground (arith, ih, apart, grown, h, k)

-- Two rows with one version number of one name collide whichever stands first.
numbers_sym :
    (x y : SecretRef)
    → is_version_of y.environment_id y.name y.version x ≡ false
    → is_version_of x.environment_id x.name x.version y ≡ false
unfolding is_version_of
numbers_sym x y h =
    let a = string_eq.beq_iff x.name y.name in
    let b = string_eq.beq_iff y.name x.name in ground (arith, a, b, h)

numbers_unique-append :
    (xs : List SecretRef) (y : SecretRef)
    → secret_versions_unique xs ≡ true
    → any_of (is_version_of y.environment_id y.name y.version) xs ≡ false
    → secret_versions_unique (xs ++ y ∷ []) ≡ true
unfolding secret_versions_unique any_of
numbers_unique-append [] y h k = ground arith
numbers_unique-append (x ∷ xs) y h k =
    let ih = numbers_unique-append xs y in
    let apart = numbers_sym x y in
    let grown = any_of-append (is_version_of x.environment_id x.name x.version) xs y in
    ground (arith, ih, apart, grown, h, k)

-- The name has no active version in the environment, and no version 1.
abbrev pub IsUnused : ℕ → String → List SecretRef → Type 0
IsUnused environment_id name = All λ x.
    x.environment_id ≡ environment_id
    → x.name ≡ name
    → (x.is_active_version ≡ false) × (x.version ≢ 1)

unused-inactive :
    (e : ℕ) (name : String) (xs : List SecretRef)
    → IsUnused e name xs
    → first_where (is_active_version_of e name) xs ≡ none
unfolding first_where is_active_version_of
unused-inactive e name [] h = refl
unused-inactive e name (x ∷ xs) h =
    let ih = unused-inactive e name xs h.1 in
    let s = string_eq.beq_iff x.name name in let u = h.0 in ground (arith, ih, s, u)

unused-no_first :
    (e : ℕ) (name : String) (xs : List SecretRef)
    → IsUnused e name xs
    → any_of (is_version_of e name 1) xs ≡ false
unfolding any_of is_version_of
unused-no_first e name [] h = refl
unused-no_first e name (x ∷ xs) h =
    let ih = unused-no_first e name xs h.1 in
    let s = string_eq.beq_iff x.name name in let u = h.0 in ground (arith, ih, s, u)

-- The session after the row is added.
abbrev with_secret : SecretRef → Session → Session
with_secret x s = record s { db = record s.db { secrets = s.db.secrets ++ x ∷ [] } }

-- The whole run, step by step.
create-run :
    (is_identifier : String → Bool) (name provider_key secret_kind : String) (sealed : SealedSecret)
    (r : Request) (s : Session)
    → Consistent s
    → is_identifier name ≡ true
    → IsUnused r.environment.id name s.db.secrets
    → let x =
        new_secret
          (next_key s.db.secrets)
          r.environment.id
          name
          provider_key
          secret_kind
          1
          sealed
          r.now in
      (logs : List AuditLog) × (create_secret_ref is_identifier name provider_key secret_kind sealed
          r s
        ≡ (
          ok x,
          record (with_logs (with_secret x s) logs) {
            committed = (with_logs (with_secret x s) logs).db;
          },
        ))
unfolding create_secret_ref unless on_option pure add_secret record_audit_event
create-run is_identifier name provider_key secret_kind sealed r s c valid unused =
    let free = unused-inactive r.environment.id name s.db.secrets unused in
    let x =
      new_secret (next_key s.db.secrets) r.environment.id name provider_key secret_kind 1 sealed
        r.now in
    let t = with_secret x s in
    let ct : Consistent t = record {
      bindings = c.bindings;
      secrets = versions_unique-append s.db.secrets x c.secrets free;
      versions =
          numbers_unique-append s.db.secrets x c.versions
            (unused-no_first r.environment.id name s.db.secrets unused);
      links = c.links;
    } in
    (
      _,
      bind-eq (unless (is_identifier name) _) _ (rw valid refl)
          ∙ bind-gets (λ d. first_where (is_active_version_of r.environment.id name) d.secrets) _ s
          ∙ bind-eq
              (on_option (first_where (is_active_version_of r.environment.id name) s.db.secrets)
                (pure tt) _)
              _ (rw free refl)
          ∙ bind-gets (λ d. next_key d.secrets) _ s
          ∙ bind-update _ _ s
          ∙ bind-eq flush _ (flush-Consistent t ct)
          ∙ bind-eq (add_audit_row _ none r.now) _ (add_audit_row-Consistent _ none r.now t ct)
          ∙ bind-eq commit _ (commit-Consistent (with_logs t _) (with_logs-Consistent t _ ct)),
    )

-- In a consistent session, creating a secret under a valid name that has no active version in the
-- environment and no version 1 returns and commits: the table gains exactly the new version 1, which is
-- active, no name of an environment has two active versions, and no version number is given twice.
pub create_secret_ref-ok :
    (is_identifier : String → Bool) (name provider_key secret_kind : String) (sealed : SealedSecret)
    (r : Request) (s : Session)
    → Consistent s
    → is_identifier name ≡ true
    → IsUnused r.environment.id name s.db.secrets
    → let x =
        new_secret
          (next_key s.db.secrets)
          r.environment.id
          name
          provider_key
          secret_kind
          1
          sealed
          r.now in
      let (result, s') = create_secret_ref is_identifier name provider_key secret_kind sealed r s in
      (result ≡ ok x)
      × (s'.committed.secrets ≡ s.db.secrets ++ x ∷ [])
      × (active_versions_unique s'.committed.secrets ≡ true)
      × (secret_versions_unique s'.committed.secrets ≡ true)
create_secret_ref-ok is_identifier name provider_key secret_kind sealed r s c valid unused =
    let (log, run) =
      create-run is_identifier name provider_key secret_kind sealed r s c valid unused in
    rw run (
      refl,
      refl,
      versions_unique-append s.db.secrets _ c.secrets
          (unused-inactive r.environment.id name s.db.secrets unused),
      numbers_unique-append s.db.secrets _ c.versions
          (unused-no_first r.environment.id name s.db.secrets unused),
    )
