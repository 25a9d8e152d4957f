-- ===== src/Events/Replay.antt =====
-- replay_dead_letter_webhook_jobs of backend/src/postbase/capabilities/events/webhook_jobs.py.
pub mod PutBack
pub mod Sound
pub mod Counts
pub mod Lost
pub mod Stranded
use post_base.Base.{
  Bool, List, Option, [], count_where, false, get_row, if◌then◌else◌, keep_if, leb, length, modify,
  nat_eq, none, option_eq, some, string_eq, take, true, ℕ, ◌&&◌, ◌++◌, ◌+◌, ◌==◌, ◌∷◌,
}
use post_base.Domain.Enums.{
  binding_status_eq, capability_key_eq, certification_approval_state_eq,
  certification_test_status_eq, environment_stage_eq, environment_status_eq, migration_status_eq,
  policy_mode_eq, readiness_state_eq, secret_status_eq, switchover_status_eq, tenant_role_eq,
}
use post_base.Domain.Models.{
  audit_log_row, binding_row, binding_secret_row, capability_type_row, catalog_row, environment_row,
  project_row, secret_ref_row, tenant_member_row,
}
use post_base.Events.Attempt.{write_job}
use post_base.Events.Jobs.{is_dead_lettered}
use post_base.Events.Store.{
  DeadLetterState, DeadLetterWebhookDelivery, JobStatus, Store, WebhookDeliveryJob, channel_row,
  dead_letter_row, job_row,
}
use post_base.Platform.Audit.{add_audit_row, audit_row, transition_key_eq}
use post_base.Domain.PlanEnums.{phase_eq, phases_eq}
use post_base.Domain.Plans.{
  namespace_row, schema_migration_row, switchover_row, table_definition_row,
}

-- The dictionary `reasons`, by its four keys.
pub record ReplayReasons : Type 0 where
  pub requeued : ℕ
  pub already_replayed : ℕ
  pub job_missing : ℕ
  pub job_not_dead_lettered : ℕ

-- The local variables of the loop.
pub record ReplayTally : Type 0 where
  pub requeued_dead_letters : List ℕ
  pub skipped_dead_letters : List ℕ
  pub reasons : ReplayReasons

pub record DeadLetterReplayDiagnostics : Type 0 where
  pub scanned_failed_jobs : ℕ
  pub requeued_jobs : ℕ
  pub exhausted_job_ids : List ℕ
  pub skipped_jobs : ℕ
  pub skipped_job_ids : List ℕ
  pub reasons : ReplayReasons

abbrev pub no_tally : ReplayTally
no_tally = record {
  requeued_dead_letters = [];
  skipped_dead_letters = [];
  reasons = record {
    requeued = 0;
    already_replayed = 0;
    job_missing = 0;
    job_not_dead_lettered = 0;
  };
}

-- What a replay writes to the job.
abbrev pub requeued : ℕ → WebhookDeliveryJob → WebhookDeliveryJob
requeued now job = record job {
  status = JobStatus.retrying;
  attempt_count = 0;
  latest_response_code = none;
  latest_latency_ms = none;
  delivered_at = none;
  next_attempt_at = some now;
  error_text = "operator initiated replay from dead-letter queue";
  updated_at = now;
}

unfoldable pub is_active_letter : DeadLetterWebhookDelivery → Bool
is_active_letter d = elim d.dead_letter_state [ DeadLetterState.active ↦ true | _ ↦ false ]

abbrev pub mark_replayed : ℕ → DeadLetterWebhookDelivery → DeadLetterWebhookDelivery
mark_replayed now d = record d {
  dead_letter_state = DeadLetterState.replayed;
  replayed_at = some now;
}

-- The rows with this id that are still active: the count that `update(...)` reports.
unfoldable pub rowcount : ℕ → Store → ℕ
unfolding count_where is_active_letter
rowcount id s = count_where (λ d. d.id == id && is_active_letter d) s.dead_letters

unfoldable pub mark_letter : ℕ → ℕ → Store → Store
unfolding modify
mark_letter id now s = record s { dead_letters = modify id (mark_replayed now) s.dead_letters }

-- The part of the loop's body below the update: the job is put back unless it is missing or is not
-- dead-lettered.
unfoldable pub requeue :
    ℕ
    → DeadLetterWebhookDelivery
    → Option WebhookDeliveryJob
    → ReplayTally
    → Store
    → ReplayTally × Store
requeue now d none r s = (
  record r {
    skipped_dead_letters = r.skipped_dead_letters ++ d.id ∷ [];
    reasons = record r.reasons { job_missing = r.reasons.job_missing + 1 };
  },
  s,
)
requeue now d (some job) r s =
    if is_dead_lettered job.status
    then (
      record r {
        requeued_dead_letters = r.requeued_dead_letters ++ d.id ∷ [];
        reasons = record r.reasons { requeued = r.reasons.requeued + 1 };
      },
      write_job (requeued now job) s,
    )
    else (
      record r {
        skipped_dead_letters = r.skipped_dead_letters ++ d.id ∷ [];
        reasons = record r.reasons { job_not_dead_lettered = r.reasons.job_not_dead_lettered + 1 };
      },
      s,
    )

unfoldable pub replay_letter :
    ℕ → DeadLetterWebhookDelivery → ReplayTally → Store → ReplayTally × Store
unfolding requeue mark_letter rowcount
replay_letter now d r s =
    if rowcount d.id s == 1
    then requeue now d (get_row d.webhook_delivery_job_id s.jobs) r (mark_letter d.id now s)
    else (
      record r {
        skipped_dead_letters = r.skipped_dead_letters ++ d.id ∷ [];
        reasons = record r.reasons { already_replayed = r.reasons.already_replayed + 1 };
      },
      s,
    )

unfoldable pub replay_letters :
    ℕ → List DeadLetterWebhookDelivery → ReplayTally → Store → ReplayTally × Store
unfolding replay_letter
replay_letters now [] r s = (r, s)
replay_letters now (d ∷ ds) r s =
    let (r', s') = replay_letter now d r s in replay_letters now ds r' s'

insert_by_burial :
    DeadLetterWebhookDelivery → List DeadLetterWebhookDelivery → List DeadLetterWebhookDelivery
insert_by_burial d [] = d ∷ []
insert_by_burial d (e ∷ es) =
    if leb d.dead_lettered_at e.dead_lettered_at then d ∷ e ∷ es else e ∷ insert_by_burial d es

unfoldable pub by_burial : List DeadLetterWebhookDelivery → List DeadLetterWebhookDelivery
unfolding insert_by_burial
by_burial [] = []
by_burial (d ∷ ds) = insert_by_burial d (by_burial ds)

unfoldable pub replay_dead_letter_webhook_jobs : ℕ → ℕ → Store → DeadLetterReplayDiagnostics × Store
unfolding replay_letters by_burial keep_if is_active_letter
replay_dead_letter_webhook_jobs limit now s =
    let dead_letters = take limit (by_burial (keep_if is_active_letter s.dead_letters)) in
    let (r, s') = replay_letters now dead_letters no_tally s in
    (
      record {
        scanned_failed_jobs = length dead_letters;
        requeued_jobs = length r.requeued_dead_letters;
        exhausted_job_ids = r.requeued_dead_letters;
        skipped_jobs = length r.skipped_dead_letters;
        skipped_job_ids = r.skipped_dead_letters;
        reasons = r.reasons;
      },
      s',
    )
