-- ===== src/Platform/Idempotency/Examples.antt =====
-- Keyed requests around a handler that counts its runs.
use post_base.Base.{List, [], first_where, none, refl, some, suc, ℕ, ◌∷◌, ◌≡◌}
use post_base.Domain.Models.{JsonObject, number}
use post_base.Platform.Errors.{Result, err, http_exception, idempotency_request_in_progress, ok}
use post_base.Platform.Exec.{Exec}
use post_base.Platform.Idempotency.{
  IdempotencyRecord, KeySession, KeyedRequest, MutationResult, RequestKey,
  execute_idempotent_mutation, executed, has_key, keys_unique, new_record, replayed,
}
use post_base.Platform.Idempotency.Once.{
  execute_idempotent_mutation-once, execute_idempotent_mutation-refused,
}
use post_base.Platform.Idempotency.Replay.{IsQuiet, reserved}

abbrev request_key : RequestKey
request_key = record {
  idempotency_key = "k1";
  actor_user_id = 7;
  endpoint_fingerprint = "POST:/bindings";
}

abbrev request : KeyedRequest
request = record { request_key = request_key; request_hash = "h1"; now = 100 }

abbrev count_run : Exec (KeySession ℕ) ℕ
count_run s = (ok (suc s.tables), record s { tables = suc s.tables })

abbrev serialize : ℕ → JsonObject
serialize n = ("runs", number n) ∷ []

abbrev session_with : List IdempotencyRecord → List IdempotencyRecord → KeySession ℕ
session_with records raced = record {
  records = records;
  tables = 0;
  committed_records = records;
  committed_tables = 0;
  raced = raced;
}

abbrev first_session : KeySession ℕ
first_session = session_with [] []

abbrev pending : IdempotencyRecord
pending = new_record 1 request_key "h1" 50

quiet : IsQuiet first_session
unfolding keys_unique
quiet = record { unique = refl; alone = refl }

absent :
    (raced : List IdempotencyRecord)
    → first_where (has_key request_key) (session_with [] raced).records ≡ none
unfolding first_where
absent raced = refl

present : first_where (has_key request_key) (session_with (pending ∷ []) []).records ≡ some pending
unfolding first_where
present = refl

abbrev first : Result (MutationResult ℕ) × KeySession ℕ
first = execute_idempotent_mutation 201 count_run serialize (some request) first_session

execute_idempotent_mutation-once_example :
    let u = session_with first.1.committed_records [] in
    (first.0 ≡ ok (executed 1))
    × (first.1.committed_tables ≡ 1)
    × (execute_idempotent_mutation 201 count_run serialize (some request) u
        ≡ (ok (replayed (record { status_code = 201; response_json = serialize 1 })), u))
execute_idempotent_mutation-once_example =
    execute_idempotent_mutation-once 201 count_run serialize request first_session
      (record (reserved request first_session) { tables = 1 }) 1 quiet (absent []) refl refl refl
      201 count_run serialize 100 (session_with first.1.committed_records []) refl

execute_idempotent_mutation-refused_example :
    let s = session_with (pending ∷ []) [] in
    execute_idempotent_mutation 201 count_run serialize (some request) s
    ≡ (err (http_exception 409 idempotency_request_in_progress), s)
execute_idempotent_mutation-refused_example =
    execute_idempotent_mutation-refused 201 count_run serialize request
      (session_with (pending ∷ []) []) pending present refl
