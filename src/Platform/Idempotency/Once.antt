-- ===== src/Platform/Idempotency/Once.antt =====
-- A keyed request runs its handler at most once.
use post_base.Base.{
  Bool-cases, Option-cases, String, [], ap, false, first_where, if◌then◌else◌, inl, inr, is_some,
  nat_eq, none, option_eq, some, string_eq, true, ℕ, ◌&&◌, ◌++◌, ◌==◌, ◌∙◌, ◌≡◌,
}
use post_base.Domain.Models.{
  JsonObject, audit_log_row, binding_row, binding_secret_row, capability_type_row, catalog_row,
  environment_row, project_row, secret_ref_row, tenant_member_row,
}
use post_base.Domain.Plans.{schema_migration_row, switchover_row}
use post_base.Events.Store.{channel_row, dead_letter_row, job_row}
use post_base.Platform.Audit.{transition_key_eq}
use post_base.Platform.Errors.{
  Error, err, http_exception, idempotency_key_actor_endpoint, idempotency_key_payload_conflict,
  idempotency_request_in_progress, integrity_error, ok,
}
use post_base.Platform.Exec.{Exec, on_option, pure, raise, ◌>>=◌}
use post_base.Platform.Idempotency.{
  IdempotencyRecord, KeySession, KeyedRequest, MutationResult, check_replay_or_conflict,
  execute_idempotent_mutation, executed, has_key, idempotency_row, replay_of, replayed,
}
use post_base.Platform.Idempotency.Replay.{IsQuiet, check-found, first-run, replay-run, reserved}
use post_base.Domain.Enums.{
  binding_status_eq, capability_key_eq, certification_approval_state_eq,
  certification_test_status_eq, environment_stage_eq, environment_status_eq, migration_status_eq,
  policy_mode_eq, readiness_state_eq, secret_status_eq, switchover_status_eq, tenant_role_eq,
}
use post_base.Domain.PlanEnums.{phase_eq, phases_eq}
use post_base.Platform.Exec.Rules.{bind-err}

-- A keyed request whose key has no record, in a session whose records satisfy the index and without
-- concurrent writers, with a handler that returns and leaves the records alone, returns what the
-- handler returned; and then every request with the same key and hash, in a session that reads the
-- committed records, gets the stored response and changes nothing, whatever its handler.
pub execute_idempotent_mutation-once :
    {D A B : Type 0} (code : ℕ) (execute : Exec (KeySession D) A) (serialize : A → JsonObject)
    (q : KeyedRequest) (s t : KeySession D) (a : A)
    → IsQuiet s
    → first_where (has_key q.request_key) s.records ≡ none
    → execute (reserved q s) ≡ (ok a, t)
    → t.records ≡ (reserved q s).records
    → t.raced ≡ []
    → (code' : ℕ) (execute' : Exec (KeySession D) B) (serialize' : B → JsonObject) (now : ℕ)
      (u : KeySession D)
    → let first = execute_idempotent_mutation code execute serialize (some q) s in
      u.records ≡ first.1.committed_records
      → (first.0 ≡ ok (executed a))
        × (first.1.committed_tables ≡ t.tables)
        × (execute_idempotent_mutation code' execute' serialize' (some (record q { now = now })) u
            ≡ (ok (replayed (record { status_code = code; response_json = serialize a })), u))
execute_idempotent_mutation-once code execute serialize q s t a quiet fresh runs kept alone code'
      execute' serialize' now u reads_it =
    let run = first-run code execute serialize q s t a quiet fresh runs kept alone in
    (
      ap (λ x. x.0) run,
      ap (λ x. x.1.committed_tables) run,
      replay-run code execute serialize q s t a quiet fresh runs kept alone code' execute'
          serialize' now u (reads_it ∙ ap (λ x. x.1.committed_records) run),
    )

-- The session after the rollback: it sees the record of the other transaction.
abbrev pub rolled_back : {D : Type 0} → KeySession D → KeySession D
rolled_back s = record s { records = s.committed_records ++ s.raced; tables = s.committed_tables }

after_loss : {D A : Type 0} → KeyedRequest → Exec (KeySession D) (MutationResult A)
after_loss q = check_replay_or_conflict q >>= λ replay.
    on_option replay (raise (integrity_error idempotency_key_actor_endpoint)) λ y. pure (replayed y)

refusal : String → IdempotencyRecord → Error
refusal request_hash x = http_exception 409 (
    if x.request_hash == request_hash
    then idempotency_request_in_progress
    else idempotency_key_payload_conflict)

replay_of-refused :
    (request_hash : String) (x : IdempotencyRecord)
    → (x.request_hash == request_hash && is_some x.response_status_code) ≡ false
    → replay_of request_hash x ≡ err (refusal request_hash x)
unfolding replay_of refusal
replay_of-refused request_hash x h = elim (Bool-cases (x.request_hash == request_hash)) [
  | inl same ↦ (elim (Option-cases x.response_status_code) [
    | inl pending ↦ rw (same, pending)
    | inr (c, e) ↦ absurd (let k : true ≡ false = (rw (same, e) at h) in cc)
  ])
  | inr other ↦ rw other
]

-- A keyed request whose key has a record with another hash, or one with the same hash and no response
-- yet, is refused with 409, which tells the two apart, and nothing changes.
pub execute_idempotent_mutation-refused :
    {D A : Type 0} (code : ℕ) (execute : Exec (KeySession D) A) (serialize : A → JsonObject)
    (q : KeyedRequest) (s : KeySession D) (x : IdempotencyRecord)
    → first_where (has_key q.request_key) s.records ≡ some x
    → (x.request_hash == q.request_hash && is_some x.response_status_code) ≡ false
    → execute_idempotent_mutation code execute serialize (some q) s ≡ (
      err (
          http_exception 409 (
            if x.request_hash == q.request_hash
            then idempotency_request_in_progress
            else idempotency_key_payload_conflict)),
      s,
    )
unfolding execute_idempotent_mutation refusal
execute_idempotent_mutation-refused code execute serialize q s x found pending =
    bind-err (check_replay_or_conflict q) _
      (check-found q s x found ∙ λ i. (replay_of-refused q.request_hash x pending i, s))
