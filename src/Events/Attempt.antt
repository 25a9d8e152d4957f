-- ===== src/Events/Attempt.antt =====
-- The body of the loop of process_due_webhook_jobs, in
-- backend/src/postbase/capabilities/events/webhook_jobs.py: one job of a batch.
pub mod Sound
pub mod Steps
pub mod Exhausts
pub mod Keeps
use post_base.Base.{
  List, String, [], get_row, if◌then◌else◌, leb, modify, nat_eq, none, not, option_eq, some,
  string_eq, text_or, ℕ, ◌++◌, ◌+◌, ◌==◌, ◌∷◌,
}
use post_base.Domain.Enums.{
  binding_status_eq, capability_key_eq, certification_approval_state_eq,
  certification_test_status_eq, environment_stage_eq, environment_status_eq, migration_status_eq,
  policy_mode_eq, readiness_state_eq, secret_status_eq, switchover_status_eq, tenant_role_eq,
}
use post_base.Domain.Models.{
  audit_log_row, binding_row, binding_secret_row, capability_type_row, catalog_row, environment_row,
  project_row, secret_ref_row, tenant_member_row,
}
use post_base.Events.Jobs.{
  Deliver, Settings, WebhookDeliveryResult, add_dead_letter, is_active_status, next_attempt_time,
  resolve_metric_environment_id,
}
use post_base.Events.Store.{
  DeliveryRecord, DeliveryStatus, JobStatus, Store, WebhookDeliveryJob, channel_row,
  dead_letter_row, job_row, record_usage,
}
use post_base.Platform.Audit.{add_audit_row, transition_key_eq}

-- The job of a batch whose retry budget was used up before the batch.
abbrev pub exhausted : ℕ → WebhookDeliveryJob → WebhookDeliveryJob
exhausted now job = record job {
  status = JobStatus.dead_lettered;
  next_attempt_at = none;
  error_text = "webhook delivery retry budget exhausted";
  updated_at = now;
}

-- What an attempt writes to the job whatever its outcome.
abbrev pub attempted : WebhookDeliveryResult → ℕ → WebhookDeliveryJob → WebhookDeliveryJob
attempted result now job = record job {
  attempt_count = job.attempt_count + 1;
  error_text = result.error_text;
  latest_response_code = result.response_code;
  latest_latency_ms = some result.latency_ms;
  attempt_history_json =
      job.attempt_history_json
      ++ record {
        attempt_number = job.attempt_count + 1;
        response_code = result.response_code;
        latency_ms = result.latency_ms;
        error_text = result.error_text;
        attempted_at = now;
      }
        ∷ [];
  updated_at = now;
}

pub data Outcome : Type 0 where
  succeeded gave_up retried : Outcome

-- The test of the three branches after an attempt.
unfoldable pub outcome_of : WebhookDeliveryResult → WebhookDeliveryJob → Outcome
outcome_of result job =
    if result.is_delivered
    then succeeded
    else if leb job.max_attempts job.attempt_count
    then gave_up
    else retried

-- What each branch writes to the job.
unfoldable pub settle : Outcome → ℕ → WebhookDeliveryJob → WebhookDeliveryJob
settle succeeded now job = record job {
  status = JobStatus.delivered;
  next_attempt_at = none;
  delivered_at = some now;
}
settle gave_up now job = record job { status = JobStatus.dead_lettered; next_attempt_at = none }
settle retried now job = record job {
  status = JobStatus.retrying;
  next_attempt_at = some (next_attempt_time job.attempt_count now);
}

unfoldable pub metric_of : Outcome → String
metric_of succeeded = "webhook_delivery_success_total"
metric_of gave_up = "webhook_delivery_failed_total"
metric_of retried = "webhook_delivery_retry_total"

unfoldable pub delivery_of :
    Outcome → WebhookDeliveryResult → ℕ → WebhookDeliveryJob → DeliveryRecord
delivery_of outcome result now job = record {
  channel_id = job.channel_id;
  subscription_id = job.subscription_id;
  event_name = job.event_name;
  status = elim outcome [
    | succeeded ↦ DeliveryStatus.delivered
    | gave_up ↦ DeliveryStatus.failed
    | retried ↦ DeliveryStatus.retrying
  ];
  attempt_count = job.attempt_count;
  delivered_at = elim outcome [ succeeded ↦ some now | _ ↦ none ];
  error_text = elim outcome [
    | succeeded ↦ ""
    | gave_up ↦ text_or (some result.error_text) "webhook delivery failed after retries"
    | retried ↦ text_or (some result.error_text) "webhook delivery retry scheduled"
  ];
  payload_json = job.payload_json;
}

-- The dead letter of the second branch.
unfoldable pub bury : Outcome → WebhookDeliveryResult → ℕ → WebhookDeliveryJob → Store → Store
bury gave_up result now job s =
    add_dead_letter job (text_or (some result.error_text) "webhook delivery failed after retries")
      now s
bury succeeded result now job s = s
bury retried result now job s = s

unfoldable pub count_unauthorized : WebhookDeliveryResult → ℕ → ℕ → Store → Store
count_unauthorized result environment_id now s =
    if result.response_code == some 401
    then record_usage environment_id "events" "webhook_auth_anomaly_total" now s
    else s

unfoldable pub write_job : WebhookDeliveryJob → Store → Store
write_job job s = record s { jobs = modify job.id (λ _. job) s.jobs }

-- One attempt: the body of the loop below the test of the retry budget.
unfoldable pub attempt : Deliver → ℕ → WebhookDeliveryJob → Store → Outcome × DeliveryRecord × Store
attempt deliver now job s =
    let result = deliver job (job.attempt_count + 1) in
    let tried = attempted result now job in
    let outcome = outcome_of result tried in
    let settled = settle outcome now tried in
    let environment_id = resolve_metric_environment_id (some job.channel_id) s.channels in
    let delivery = delivery_of outcome result now settled in
    let buried = bury outcome result now settled (write_job settled s) in
    let counted = record_usage environment_id "events" (metric_of outcome) now buried in
    let flagged = count_unauthorized result environment_id now counted in
    (outcome, delivery, record flagged { deliveries = flagged.deliveries ++ delivery ∷ [] })

unfoldable pub next_failures : Outcome → ℕ → ℕ
next_failures succeeded batch_failures = 0
next_failures gave_up batch_failures = batch_failures + 1
next_failures retried batch_failures = batch_failures + 1

-- The body of the loop for one job: its delivery record if there is one, the count of failures since
-- the last success, and the tables.
unfoldable pub process_job :
    Settings → Deliver → ℕ → WebhookDeliveryJob → ℕ → Store → List DeliveryRecord × ℕ × Store
process_job settings deliver now job batch_failures s =
    if not (is_active_status job.status)
    then ([], batch_failures, s)
    else if leb job.max_attempts job.attempt_count
    then (
      [],
      batch_failures + 1,
      add_dead_letter (exhausted now job) (exhausted now job).error_text now
          (write_job (exhausted now job) s),
    )
    else (let (outcome, delivery, s') = attempt deliver now job s in
        (delivery ∷ [], next_failures outcome batch_failures, s'))
