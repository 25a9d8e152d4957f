-- ===== src/ControlPlane/Secrets.antt =====
-- create_secret_ref, rotate_secret_ref and revoke_secret_ref of
-- backend/src/postbase/control_plane/service.py, with the queries that they make. What the secret
-- store, the hash and the slice make of a secret's plain text is the argument `sealed`; the check of
-- the name, validate_identifier of platform/access.py, is the argument `is_identifier`, and `describe`
-- is the text of an exception.
pub mod Writes
pub mod Rotation
pub mod Family
mod Examples
use post_base.Base.{
  Bool, List, Option, String, [], contains, false, first_where, get_row, if◌then◌else◌, is_empty,
  ltb, modify, nat_eq, next_key, none, not, option_eq, or_default, some, string_eq, true, ℕ, ◌&&◌,
  ◌++◌, ◌+◌, ◌==◌, ◌∷◌,
}
use post_base.Domain.Enums.{
  SecretStatus, binding_status_eq, capability_key_eq, certification_approval_state_eq,
  certification_test_status_eq, environment_stage_eq, environment_status_eq, migration_status_eq,
  policy_mode_eq, readiness_state_eq, secret_status_eq, switchover_status_eq, tenant_role_eq,
}
use post_base.Domain.Models.{
  BindingSecretRef, CapabilityBinding, SecretRef, audit_log_row, binding_row, binding_secret_row,
  capability_type_row, catalog_row, environment_row, numbers, project_row, secret_ref_row,
  tenant_member_row, text,
}
use post_base.Events.Store.{channel_row, dead_letter_row, job_row}
use post_base.Platform.Audit.{
  Request, add_audit_row, audit_event, audit_row, record_audit_event, transition_key_eq,
}
use post_base.Platform.Errors.{Error, Result, err, http_exception, message, ok, value_error}
use post_base.Platform.Exec.{Exec, on_option, pure, raise, unless, ◌>>=◌, ◌>>◌}
use post_base.Platform.Session.{
  Session, commit, flush, gets, is_active_version_of, modify_binding, read_row_object, rollback,
  update,
}
use post_base.Domain.PlanEnums.{phase_eq, phases_eq}
use post_base.Domain.Plans.{
  namespace_row, schema_migration_row, switchover_row, table_definition_row,
}

pub record SealedSecret : Type 0 where
  pub encrypted_value : String
  pub value_hash : String
  pub last_four : String

-- `SecretRef(...)`
abbrev pub new_secret : ℕ → ℕ → String → String → String → ℕ → SealedSecret → ℕ → SecretRef
new_secret id environment_id name provider_key secret_kind version sealed now = record {
  id = id;
  environment_id = environment_id;
  name = name;
  provider_key = provider_key;
  secret_kind = secret_kind;
  version = version;
  is_active_version = true;
  status = SecretStatus.active;
  rotated_at = some now;
  expires_at = none;
  last_four = sealed.last_four;
  encrypted_value = sealed.encrypted_value;
  value_hash = sealed.value_hash;
  updated_at = now;
}

unfoldable pub add_secret : SecretRef → Exec Session Unit
unfolding update
add_secret x = update λ d. record d { secrets = d.secrets ++ x ∷ [] }

unfoldable pub modify_secret : ℕ → (SecretRef → SecretRef) → Exec Session Unit
unfolding update modify
modify_secret id f = update λ d. record d { secrets = modify id f d.secrets }

abbrev message_error : ℕ → String → Error
message_error code s = http_exception code (message s)

unfoldable pub create_secret_ref :
    (String → Bool) → String → String → String → SealedSecret → Request → Exec Session SecretRef
create_secret_ref is_identifier name provider_key secret_kind sealed r = do
  unless (is_identifier name) (value_error "Secret name")
  existing ← gets λ d. first_where (is_active_version_of r.environment.id name) d.secrets
  on_option existing (pure tt) λ _. raise (message_error 400 "Secret already exists")
  id ← gets λ d. next_key d.secrets
  let secret_ref = new_secret id r.environment.id name provider_key secret_kind 1 sealed r.now
  add_secret secret_ref
  flush
  record_audit_event
      (audit_event r "secret.created" "secret_ref" id
        (("name", text name) ∷ ("provider_key", text provider_key) ∷ []))
      r.now
  commit
  pure secret_ref

-- The columns that make two secrets versions of one.
unfoldable pub is_same_family : SecretRef → SecretRef → Bool
is_same_family secret_ref x =
    x.environment_id == secret_ref.environment_id
    && (x.name == secret_ref.name
        && (x.provider_key == secret_ref.provider_key && x.secret_kind == secret_ref.secret_kind))

-- _list_bindings_using_secret_family: the bindings that link to a version, each once.
unfoldable pub list_bindings_using_secret_family :
    SecretRef → List SecretRef → List BindingSecretRef → List ℕ
unfolding is_same_family get_row
list_bindings_using_secret_family secret_ref secrets [] = []
list_bindings_using_secret_family secret_ref secrets (l ∷ ls) =
    let rest = list_bindings_using_secret_family secret_ref secrets ls in
    elim (get_row l.secret_ref_id secrets) [
      | none ↦ rest
      | some x ↦
          if is_same_family secret_ref x && not (contains l.binding_id rest)
          then l.binding_id ∷ rest
          else rest
    ]

-- `.order_by(SecretRef.version.desc()).first()` over the active versions of the family.
unfoldable pub latest_active : SecretRef → List SecretRef → Option SecretRef
unfolding is_same_family
latest_active secret_ref [] = none
latest_active secret_ref (x ∷ xs) =
    let rest = latest_active secret_ref xs in
    if is_same_family secret_ref x && x.is_active_version
    then elim rest [ none ↦ some x | some y ↦ if ltb x.version y.version then some y else some x ]
    else rest

abbrev pub retire_version : ℕ → SecretRef → SecretRef
retire_version now x = record x { is_active_version = false; updated_at = now }

abbrev pub awaiting_revalidation : ℕ → CapabilityBinding → CapabilityBinding
awaiting_revalidation now b = record b {
  readiness_detail = "secret rotated; revalidation pending";
  updated_at = now;
}

-- `for binding_id in impacted_bindings`; a binding that is missing is passed over.
unfoldable pub mark_impacted : ℕ → List ℕ → Exec Session Unit
mark_impacted now [] = pure tt
mark_impacted now (id ∷ ids) = do
  modify_binding id (awaiting_revalidation now)
  mark_impacted now ids

-- The block under `try`.
unfoldable pub write_rotation :
    SecretRef → Option SecretRef → SecretRef → List ℕ → Request → Exec Session Unit
write_rotation secret_ref former rotated impacted r = do
  on_option former (pure tt) λ x. modify_secret x.id (retire_version r.now)
  modify_secret secret_ref.id (retire_version r.now)
  add_secret rotated
  flush
  mark_impacted r.now impacted
  record_audit_event
      (audit_event r "secret.rotated" "secret_ref" secret_ref.id (
        ("name", text secret_ref.name)
        ∷ ("provider_key", text secret_ref.provider_key)
        ∷ ("impacted_bindings", numbers impacted)
        ∷ []))
      r.now
  commit

-- The block under `except Exception`; the audit event's arguments read `secret_ref.id`.
unfoldable pub rotation_failed : SecretRef → String → Request → Exec Session Unit
rotation_failed secret_ref reason r = do
  rollback
  read_row_object
  record_audit_event
      (audit_event r "secret.rotation_failed" "secret_ref" secret_ref.id
        (("name", text secret_ref.name) ∷ ("reason", text reason) ∷ []))
      r.now
  commit
  raise (message_error 500 "Secret rotation failed")

-- `try: m`, `except Exception as exc: handler(exc)`
abbrev pub handle : (Error → Exec Session Unit) → Result (Unit {0}) → Exec Session Unit
handle handler (ok x) s = (ok x, s)
handle handler (err e) s = handler e s

unfoldable pub try_except : Exec Session Unit → (Error → Exec Session Unit) → Exec Session Unit
try_except m handler s = handle handler (m s).0 (m s).1

unfoldable pub rotate_secret_ref :
    (Error → String) → SecretRef → SealedSecret → Request → Exec Session SecretRef
rotate_secret_ref describe secret_ref sealed r = do
  impacted ← gets λ d. list_bindings_using_secret_family secret_ref d.secrets d.binding_secrets
  unless (not (is_empty impacted)) (
      message_error 400
        "Secret is not linked to any binding; link before rotation to avoid blind rotation")
  former ← gets λ d. latest_active secret_ref d.secrets
  id ← gets λ d. next_key d.secrets
  let next_version = (or_default former secret_ref).version + 1
  let rotated =
      new_secret id secret_ref.environment_id secret_ref.name secret_ref.provider_key
        secret_ref.secret_kind next_version sealed r.now
  try_except (write_rotation secret_ref former rotated impacted r)
      λ exc. rotation_failed secret_ref (describe exc) r
  pure rotated

abbrev pub revoked : ℕ → SecretRef → SecretRef
revoked now x = record x { status = SecretStatus.revoked; updated_at = now }

unfoldable pub revoke_secret_ref : SecretRef → Request → Exec Session Unit
revoke_secret_ref secret_ref r = do
  modify_secret secret_ref.id (revoked r.now)
  record_audit_event
      (audit_event r "secret.revoked" "secret_ref" secret_ref.id
        (("name", text secret_ref.name) ∷ ("provider_key", text secret_ref.provider_key) ∷ []))
      r.now
  commit
