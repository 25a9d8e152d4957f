-- ===== src/ControlPlane/Secrets/Rotation.antt =====
-- What rotate_secret_ref leaves when it raises.
use post_base.Base.{List, Option, String, [], ap, is_empty, not, refl, ℕ, ◌∙◌, ◌∷◌, ◌≡◌}
use post_base.ControlPlane.Secrets.{
  SealedSecret, awaiting_revalidation, handle, list_bindings_using_secret_family, mark_impacted,
  rotate_secret_ref, rotation_failed, try_except, write_rotation,
}
use post_base.ControlPlane.Secrets.Writes.{secret_rules}
use post_base.Domain.Models.{SecretRef}
use post_base.Platform.Audit.{Request}
use post_base.Platform.Exec.{Exec, unless, ◌>>=◌}
use post_base.Platform.Exec.Rules.{
  Keeps, Keeps-bind, Keeps-pure, KeepsOnError, KeepsOnError-bind, KeepsOnError-last, Returns-pure,
  bind-err,
}
use post_base.Platform.Session.{Db, Session, modify_binding, read_row_object, rollback}
use post_base.Platform.Session.Rules.{
  Committed, bind-gets, commit-KeepsOnError, modify_binding-Committed, reading_rules,
}
use post_base.Platform.Errors.{Error, Result, err, http_exception, message, ok}

-- The committed secrets are these.
record SecretsCommitted (xs : List SecretRef) (s : Session) : Type 0 where
  eq : s.committed.secrets ≡ xs

mark_impacted-Committed :
    (d : Db) (now : ℕ) (ids : List ℕ) → Keeps (Committed d) (mark_impacted now ids)
unfolding mark_impacted
mark_impacted-Committed d now [] = Keeps-pure tt
mark_impacted-Committed d now (id ∷ ids) =
    Keeps-bind (modify_binding id (awaiting_revalidation now)) _ (modify_binding-Committed d id _)
      λ _. mark_impacted-Committed d now ids

write_rotation-KeepsOnError :
    (d : Db) (secret_ref : SecretRef) (former : Option SecretRef) (rotated : SecretRef)
    (impacted : List ℕ) (r : Request)
    → KeepsOnError (Committed d) (write_rotation secret_ref former rotated impacted r)
unfolding write_rotation
write_rotation-KeepsOnError d secret_ref former rotated impacted r =
    search (secret_rules, mark_impacted-Committed, KeepsOnError-bind, commit-KeepsOnError) depth 14

module _ (xs : List SecretRef) where
  -- The rollback leaves what is committed, and the read of the secret's row object after it raises.
  rotation_failed-Settled :
      (secret_ref : SecretRef) (reason : String) (r : Request) (s : Session)
      → s.committed.secrets ≡ xs
      → (rotation_failed secret_ref reason r s).1.committed.secrets ≡ xs
  unfolding rotation_failed rollback read_row_object ◌>>=◌
  rotation_failed-Settled secret_ref reason r s h = h

  handle-Settled :
      (handler : Error → Exec Session Unit) (res : Result (Unit {0})) (s : Session) (e : Error)
      → ((x : Error) → res ≡ err x → (handler x s).1.committed.secrets ≡ xs)
      → (handle handler res s).0 ≡ err e
      → (handle handler res s).1.committed.secrets ≡ xs
  handle-Settled handler (ok x) s e k raised = cc
  handle-Settled handler (err x) s e k raised = k x refl

  try_except-KeepsOnError :
      (m : Exec Session Unit) (secret_ref : SecretRef) (describe : Error → String) (r : Request)
      → ((d : Db) → KeepsOnError (Committed d) m)
      → KeepsOnError
          (SecretsCommitted xs)
          (try_except m λ exc. rotation_failed secret_ref (describe exc) r)
  unfolding try_except
  try_except-KeepsOnError m secret_ref describe r km = record {
    on_error = λ s e h raised. record {
      eq =
          handle-Settled _ (m s).0 (m s).1 e
            (λ x failed. rotation_failed-Settled secret_ref (describe x) r (m s).1 (
              ap (λ d. d.secrets) ((km s.committed).on_error s x (record { eq = refl }) failed).eq
              ∙ h.eq))
            raised;
    };
  }

rotate-KeepsOnError :
    (xs : List SecretRef) (describe : Error → String) (secret_ref : SecretRef)
    (sealed : SealedSecret) (r : Request)
    → KeepsOnError (SecretsCommitted xs) (rotate_secret_ref describe secret_ref sealed r)
unfolding rotate_secret_ref
rotate-KeepsOnError xs describe secret_ref sealed r =
    search
      (
        reading_rules, KeepsOnError-bind, KeepsOnError-last, Returns-pure, try_except-KeepsOnError,
        write_rotation-KeepsOnError,
      )
      depth 14

-- A call of rotate_secret_ref that raises leaves the committed secrets as they were, whether it
-- refuses or fails half-way.
pub rotate_secret_ref-err :
    (describe : Error → String) (secret_ref : SecretRef) (sealed : SealedSecret) (r : Request)
    (s : Session) (e : Error)
    → (rotate_secret_ref describe secret_ref sealed r s).0 ≡ err e
    → (rotate_secret_ref describe secret_ref sealed r s).1.committed.secrets ≡ s.committed.secrets
rotate_secret_ref-err describe secret_ref sealed r s e raised =
    ((rotate-KeepsOnError s.committed.secrets describe secret_ref sealed r).on_error s e
      (record { eq = refl }) raised).eq

-- A secret that no binding uses is not rotated: the call answers 400, and nothing changes.
pub rotate_secret_ref-unlinked :
    (describe : Error → String) (secret_ref : SecretRef) (sealed : SealedSecret) (r : Request)
    (s : Session)
    → list_bindings_using_secret_family secret_ref s.db.secrets s.db.binding_secrets ≡ []
    → rotate_secret_ref describe secret_ref sealed r s ≡ (
      err (
          http_exception 400 (
            message
              "Secret is not linked to any binding; link before rotation to avoid blind rotation")),
      s,
    )
unfolding rotate_secret_ref unless
rotate_secret_ref-unlinked describe secret_ref sealed r s h =
    bind-gets _ _ s
    ∙ bind-err
        (unless
          (not (
            is_empty
              (list_bindings_using_secret_family secret_ref s.db.secrets s.db.binding_secrets)))
          _)
        _ (rw h refl)
