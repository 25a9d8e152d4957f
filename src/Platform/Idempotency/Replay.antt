-- ===== src/Platform/Idempotency/Replay.antt =====
-- What a keyed request does, and what the same request does afterwards.
use post_base.Base.{
  String, [], ap, first_where, modify, nat_eq, next_key, next_key-Fresh, none, option_eq, refl,
  some, string_eq, true, ℕ, ◌++◌, ◌==◌, ◌∙◌, ◌∷◌, ◌≡◌,
}
use post_base.Domain.Models.{
  JsonObject, audit_log_row, binding_row, binding_secret_row, capability_type_row, catalog_row,
  environment_row, project_row, secret_ref_row, tenant_member_row,
}
use post_base.Domain.Plans.{schema_migration_row, switchover_row}
use post_base.Events.Store.{channel_row, dead_letter_row, job_row}
use post_base.Platform.Errors.{Result, ok}
use post_base.Platform.Exec.{Exec, after_try, on_option, pure, try_block, ◌>>=◌}
use post_base.Platform.Exec.Rules.{bind-eq}
use post_base.Platform.Idempotency.{
  IdempotencyRecord, KeySession, KeyedRequest, check_replay_or_conflict, commit_keys,
  execute_idempotent_mutation, execute_reserved, executed, flush_keys, get_records, has_key,
  idempotency_row, keys_unique, new_record, of_result, persist_success, replay_of, replayed,
  reserve_key, update_records, with_response,
}
use post_base.Platform.Idempotency.Records.{
  first_where-written, has_key_refl, keys_unique-append, keys_unique-modify,
}
use post_base.Domain.Enums.{
  binding_status_eq, capability_key_eq, certification_approval_state_eq,
  certification_test_status_eq, environment_stage_eq, environment_status_eq, migration_status_eq,
  policy_mode_eq, readiness_state_eq, secret_status_eq, switchover_status_eq, tenant_role_eq,
}
use post_base.Domain.PlanEnums.{phase_eq, phases_eq}
use post_base.Platform.Audit.{transition_key_eq}

-- The rows that a flush meets satisfy the index, and no other transaction has added one.
pub record IsQuiet {D : Type 0} (s : KeySession D) : Type 0 where
  pub unique : keys_unique s.records ≡ true
  pub alone : s.raced ≡ []

abbrev pub reserved : {D : Type 0} → KeyedRequest → KeySession D → KeySession D
reserved q s = record s {
  records = s.records ++ new_record (next_key s.records) q.request_key q.request_hash q.now ∷ [];
}

abbrev pub answered :
    {D : Type 0} → KeyedRequest → ℕ → JsonObject → KeySession D → KeySession D → KeySession D
answered q status_code response s t = record t {
  records = modify (next_key s.records) (with_response status_code response q.now) t.records;
}

module _ {D : Type 0} where
  flush_keys_unique :
      (s : KeySession D) → keys_unique (s.raced ++ s.records) ≡ true → flush_keys s ≡ (ok tt, s)
  unfolding flush_keys
  flush_keys_unique s h = rw h

  commit_keys_unique :
      (s : KeySession D)
      → keys_unique (s.raced ++ s.records) ≡ true
      → commit_keys s
        ≡ (ok tt, record s { committed_records = s.records; committed_tables = s.tables })
  unfolding commit_keys
  commit_keys_unique s h = bind-eq flush_keys _ (flush_keys_unique s h)

  pub check-fresh :
      (q : KeyedRequest) (s : KeySession D)
      → first_where (has_key q.request_key) s.records ≡ none
      → check_replay_or_conflict q s ≡ (ok none, s)
  unfolding check_replay_or_conflict get_records on_option pure ◌>>=◌
  check-fresh q s h = rw h

  pub check-found :
      (q : KeyedRequest) (s : KeySession D) (x : IdempotencyRecord)
      → first_where (has_key q.request_key) s.records ≡ some x
      → check_replay_or_conflict q s ≡ (replay_of q.request_hash x, s)
  unfolding check_replay_or_conflict get_records on_option of_result ◌>>=◌
  check-found q s x h = rw h

  reserved_unique :
      (q : KeyedRequest) (s : KeySession D)
      → IsQuiet s
      → first_where (has_key q.request_key) s.records ≡ none
      → keys_unique (s.raced ++ (reserved q s).records) ≡ true
  reserved_unique q s quiet fresh =
      ap (λ xs. keys_unique (xs ++ (reserved q s).records)) quiet.alone
      ∙ keys_unique-append s.records _ quiet.unique fresh

  reserve_key-fresh :
      (q : KeyedRequest) (s : KeySession D)
      → IsQuiet s
      → first_where (has_key q.request_key) s.records ≡ none
      → reserve_key q s
        ≡ (ok (new_record (next_key s.records) q.request_key q.request_hash q.now), reserved q s)
  unfolding reserve_key get_records update_records ◌>>=◌ pure
  reserve_key-fresh q s quiet fresh =
      rw (flush_keys_unique (reserved q s) (reserved_unique q s quiet fresh))

replay_of-answered :
    (request_hash : String) (status_code : ℕ) (response : JsonObject) (now : ℕ)
    (x : IdempotencyRecord)
    → x.request_hash ≡ request_hash
    → replay_of request_hash (with_response status_code response now x)
      ≡ ok (some (record { status_code = status_code; response_json = response }))
unfolding replay_of
replay_of-answered request_hash status_code response now x h =
    let same : (x.request_hash == request_hash) ≡ true =
      (string_eq.beq_iff x.request_hash request_hash).1 h in
    rw same

abbrev pub settled : {D : Type 0} → KeySession D → KeySession D
settled u = record u { committed_records = u.records; committed_tables = u.tables }

module _ {D A : Type 0} (code : ℕ) (execute : Exec (KeySession D) A) (serialize : A → JsonObject)
    (q : KeyedRequest) (s t : KeySession D) (a : A) (quiet : IsQuiet s)
    (fresh : first_where (has_key q.request_key) s.records ≡ none)
    (runs : execute (reserved q s) ≡ (ok a, t)) (kept : t.records ≡ (reserved q s).records)
    (alone : t.raced ≡ []) where
  answer : KeySession D
  answer = answered q code (serialize a) s t

  answer_unique : keys_unique (answer.raced ++ answer.records) ≡ true
  unfolding answer
  answer_unique =
      ap (λ xs. keys_unique (xs ++ answer.records)) alone
      ∙ keys_unique-modify code (serialize a) q.now (next_key s.records) t.records
      ∙ ap keys_unique kept
      ∙ keys_unique-append s.records _ quiet.unique fresh

  persist-run :
      persist_success q
        (new_record (next_key s.records) q.request_key q.request_hash q.now)
        code
        (serialize a)
        t
      ≡ (ok tt, answer)
  unfolding persist_success update_records ◌>>=◌ answer
  persist-run = rw (flush_keys_unique answer answer_unique)

  reserved-run :
      execute_reserved code execute serialize q
        (new_record (next_key s.records) q.request_key q.request_hash q.now)
        (reserved q s)
      ≡ (ok (executed a), settled answer)
  unfolding execute_reserved pure
  reserved-run =
      bind-eq execute _ runs
      ∙ bind-eq (persist_success q _ code (serialize a)) _ persist-run
      ∙ bind-eq commit_keys _ (commit_keys_unique answer answer_unique)

  try-run :
      try_block (reserve_key q) s
      ≡ (ok (ok (new_record (next_key s.records) q.request_key q.request_hash q.now)), reserved q s)
  unfolding try_block
  try-run =
      ap (λ (x : Result IdempotencyRecord × KeySession D). (ok x.0, x.1))
        (reserve_key-fresh q s quiet fresh)

  -- The first request with a key runs the handler, stores its response and commits.
  pub first-run :
      execute_idempotent_mutation code execute serialize (some q) s
      ≡ (ok (executed a), settled (answered q code (serialize a) s t))
  unfolding execute_idempotent_mutation on_option after_try answer
  first-run =
      bind-eq (check_replay_or_conflict q) _ (check-fresh q s fresh)
      ∙ bind-eq (try_block (reserve_key q)) _ try-run
      ∙ reserved-run

  found-answer :
      first_where (has_key q.request_key) (settled answer).committed_records
      ≡ some (
          with_response code
            (serialize a)
            q.now
            (new_record (next_key s.records) q.request_key q.request_hash q.now))
  unfolding answer
  found-answer =
      ap
        (λ xs.
          first_where (has_key q.request_key)
            (modify (next_key s.records) (with_response code (serialize a) q.now) xs))
        kept
      ∙ first_where-written code (serialize a) q.now q.request_key s.records _
          (next_key-Fresh s.records) fresh
          (has_key_refl (new_record (next_key s.records) q.request_key q.request_hash q.now))

  check-answered :
      (now : ℕ) (u : KeySession D)
      → u.records ≡ (settled answer).committed_records
      → check_replay_or_conflict (record q { now = now }) u
        ≡ (ok (some (record { status_code = code; response_json = serialize a })), u)
  unfolding replay_of
  check-answered now u reads_it =
      check-found (record q { now = now }) u _
        (ap (first_where (has_key q.request_key)) reads_it ∙ found-answer)
      ∙ λ i. (
        replay_of-answered q.request_hash code (serialize a) q.now
            (new_record (next_key s.records) q.request_key q.request_hash q.now) refl i,
        u,
      )

  -- The stored response, for any session that reads what the first request committed.
  pub replay-run :
      {B : Type 0} (code' : ℕ) (execute' : Exec (KeySession D) B) (serialize' : B → JsonObject)
      (now : ℕ) (u : KeySession D)
      → u.records ≡ (settled (answered q code (serialize a) s t)).committed_records
      → execute_idempotent_mutation code' execute' serialize' (some (record q { now = now })) u
        ≡ (ok (replayed (record { status_code = code; response_json = serialize a })), u)
  unfolding execute_idempotent_mutation on_option pure answer
  replay-run code' execute' serialize' now u reads_it =
      bind-eq (check_replay_or_conflict (record q { now = now })) _ (check-answered now u reads_it)
