-- ===== src/Platform/Idempotency.antt =====
-- backend/src/postbase/platform/idempotency.py, and _execute_idempotent_mutation of
-- backend/src/postbase/control_plane/api.py, which composes its functions around a handler. The
-- handler `execute` and the rest of the database, of type `D`, are arguments; a request's hash is what
-- json.dumps and sha256 make of its payload.
pub mod Records
pub mod Replay
pub mod Once
mod Examples
use post_base.Base.{
  Bool, List, Option, Row, String, [], any_of, first_where, get_row, if◌then◌else◌, modify, nat_eq,
  next_key, none, not, option_eq, some, string_eq, true, ℕ, ◌&&◌, ◌++◌, ◌==◌, ◌∷◌,
}
use post_base.Domain.Enums.{
  binding_status_eq, capability_key_eq, certification_approval_state_eq,
  certification_test_status_eq, environment_stage_eq, environment_status_eq, migration_status_eq,
  policy_mode_eq, readiness_state_eq, secret_status_eq, switchover_status_eq, tenant_role_eq,
}
use post_base.Domain.Models.{
  JsonObject, audit_log_row, binding_row, binding_secret_row, capability_type_row, catalog_row,
  environment_row, project_row, secret_ref_row, tenant_member_row,
}
use post_base.Domain.PlanEnums.{phase_eq, phases_eq}
use post_base.Domain.Plans.{schema_migration_row, switchover_row}
use post_base.Events.Store.{channel_row, dead_letter_row, job_row}
use post_base.Platform.Audit.{add_audit_row, audit_row, transition_key_eq}
use post_base.Platform.Errors.{
  Error, Result, err, http_exception, idempotency_key_actor_endpoint,
  idempotency_key_payload_conflict, idempotency_request_in_progress, integrity_error, ok,
}
use post_base.Platform.Exec.{Exec, after_try, on_option, pure, raise, try_block, ◌>>=◌, ◌>>◌}

pub record IdempotencyRecord : Type 0 where
  pub id : ℕ
  pub idempotency_key : String
  pub actor_user_id : ℕ
  pub endpoint_fingerprint : String
  pub request_hash : String
  pub response_status_code : Option ℕ
  pub response_json : Option JsonObject
  pub created_at : ℕ
  pub updated_at : ℕ

instance abbrev pub idempotency_row : Row IdempotencyRecord
idempotency_row = record { key = λ r. r.id }

pub record IdempotencyReplay : Type 0 where
  pub status_code : ℕ
  pub response_json : JsonObject

-- The session: the records and the other tables as it sees them, both as last committed, and the
-- records that other transactions commit after this session has read the table.
pub record KeySession (D : Type 0) : Type 0 where
  pub records : List IdempotencyRecord
  pub tables : D
  pub committed_records : List IdempotencyRecord
  pub committed_tables : D
  pub raced : List IdempotencyRecord

-- The three columns of uq_postbase_idempotency_key_actor_endpoint.
pub record RequestKey : Type 0 where
  pub idempotency_key : String
  pub actor_user_id : ℕ
  pub endpoint_fingerprint : String

-- The `where` clause of the query.
abbrev pub has_key : RequestKey → IdempotencyRecord → Bool
has_key k x =
    x.idempotency_key == k.idempotency_key
    && (x.actor_user_id == k.actor_user_id && x.endpoint_fingerprint == k.endpoint_fingerprint)

abbrev pub key_of : IdempotencyRecord → RequestKey
key_of x = record {
  idempotency_key = x.idempotency_key;
  actor_user_id = x.actor_user_id;
  endpoint_fingerprint = x.endpoint_fingerprint;
}

-- The index uq_postbase_idempotency_key_actor_endpoint.
unfoldable pub keys_unique : List IdempotencyRecord → Bool
unfolding any_of
keys_unique [] = true
keys_unique (x ∷ xs) = not (any_of (has_key (key_of x)) xs) && keys_unique xs

abbrev pub stored_response : Option ℕ → Option JsonObject → Result (Option IdempotencyReplay)
stored_response (some status_code) (some response_json) =
    ok (some (record { status_code = status_code; response_json = response_json }))
stored_response _ _ = err (http_exception 409 idempotency_request_in_progress)

-- What check_replay_or_conflict makes of the row that it finds.
unfoldable pub replay_of : String → IdempotencyRecord → Result (Option IdempotencyReplay)
replay_of request_hash existing =
    if existing.request_hash == request_hash
    then stored_response existing.response_status_code existing.response_json
    else err (http_exception 409 idempotency_key_payload_conflict)

abbrev pub with_response : ℕ → JsonObject → ℕ → IdempotencyRecord → IdempotencyRecord
with_response status_code response_json now x = record x {
  response_status_code = some status_code;
  response_json = some response_json;
  updated_at = now;
}

abbrev pub new_record : ℕ → RequestKey → String → ℕ → IdempotencyRecord
new_record id k request_hash now = record {
  id = id;
  idempotency_key = k.idempotency_key;
  actor_user_id = k.actor_user_id;
  endpoint_fingerprint = k.endpoint_fingerprint;
  request_hash = request_hash;
  response_status_code = none;
  response_json = none;
  created_at = now;
  updated_at = now;
}

-- What _execute_idempotent_mutation returns: what the handler returned, or the stored response.
pub data MutationResult (A : Type 0) : Type 0 where
  executed : A → MutationResult A
  replayed : IdempotencyReplay → MutationResult A

-- The keyword arguments that the three functions share.
pub record KeyedRequest : Type 0 where
  pub request_key : RequestKey
  pub request_hash : String
  pub now : ℕ

module _ {D : Type 0} where
  unfoldable pub flush_keys : Exec (KeySession D) Unit
  unfolding keys_unique
  flush_keys s =
      if keys_unique (s.raced ++ s.records)
      then (ok tt, s)
      else (err (integrity_error idempotency_key_actor_endpoint), s)

  unfoldable pub commit_keys : Exec (KeySession D) Unit
  commit_keys = flush_keys >>= λ _ s.
      (ok tt, record s { committed_records = s.records; committed_tables = s.tables })

  unfoldable pub rollback_keys : Exec (KeySession D) Unit
  rollback_keys s =
      (ok tt, record s { records = s.committed_records ++ s.raced; tables = s.committed_tables })

  -- A read of the records.
  unfoldable pub get_records : {A : Type 0} → (List IdempotencyRecord → A) → Exec (KeySession D) A
  get_records f s = (ok (f s.records), s)

  unfoldable pub update_records :
      (List IdempotencyRecord → List IdempotencyRecord) → Exec (KeySession D) Unit
  update_records f s = (ok tt, record s { records = f s.records })

  unfoldable pub of_result : {A : Type 0} → Result A → Exec (KeySession D) A
  of_result r s = (r, s)

  unfoldable pub check_replay_or_conflict :
      KeyedRequest → Exec (KeySession D) (Option IdempotencyReplay)
  unfolding first_where replay_of
  check_replay_or_conflict q = do
    existing ← get_records (first_where (has_key q.request_key))
    on_option existing (pure none) λ x. of_result (replay_of q.request_hash x)

  unfoldable pub reserve_key : KeyedRequest → Exec (KeySession D) IdempotencyRecord
  unfolding next_key
  reserve_key q = do
    id ← get_records next_key
    let x = new_record id q.request_key q.request_hash q.now
    update_records λ xs. xs ++ x ∷ []
    flush_keys
    pure x

  unfoldable pub persist_success :
      KeyedRequest → IdempotencyRecord → ℕ → JsonObject → Exec (KeySession D) Unit
  unfolding modify
  persist_success q x status_code response_json = do
    update_records (modify x.id (with_response status_code response_json q.now))
    flush_keys

module _ {D A : Type 0} (success_status_code : ℕ) (execute : Exec (KeySession D) A)
    (serialize_response : A → JsonObject) where
  -- From the reservation on: the handler runs, and its response is stored.
  unfoldable pub execute_reserved :
      KeyedRequest → IdempotencyRecord → Exec (KeySession D) (MutationResult A)
  execute_reserved q x = do
    result ← execute
    persist_success q x success_status_code (serialize_response result)
    commit_keys
    pure (executed result)

  -- `except IntegrityError`
  unfoldable pub on_reserved_elsewhere :
      KeyedRequest → Error → Exec (KeySession D) (MutationResult A)
  on_reserved_elsewhere q (integrity_error c) = do
    rollback_keys
    replay ← check_replay_or_conflict q
    on_option replay (raise (integrity_error c)) λ y. pure (replayed y)
  on_reserved_elsewhere q e = raise e

  unfoldable pub execute_idempotent_mutation :
      Option KeyedRequest → Exec (KeySession D) (MutationResult A)
  execute_idempotent_mutation none = execute >>= λ result. pure (executed result)
  execute_idempotent_mutation (some q) = do
    replay ← check_replay_or_conflict q
    on_option replay
        (do
          reserved ← try_block (reserve_key q)
          after_try reserved (on_reserved_elsewhere q) (execute_reserved q))
        λ y. pure (replayed y)
