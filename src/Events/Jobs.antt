-- ===== src/Events/Jobs.antt =====
-- backend/src/postbase/capabilities/events/webhook_jobs.py: the statuses, the backoff, the enqueueing
-- of a job, and the table of dead letters. deliver_webhook of webhook_delivery.py is a stand-in for
-- the transport; it is the argument `deliver`, so that what is proved holds whatever an endpoint
-- answers. The settings are those of backend/src/apps/core/config.py.
pub mod Valid
use post_base.Base.{
  Bool, List, Option, String, [], any_of, false, get_or, get_row, if◌then◌else◌, length, max, min,
  nat_eq, next_key, none, option_eq, some, string_eq, true, ℕ, ◌++◌, ◌+◌, ◌-◌, ◌==◌, ◌∷◌,
}
use post_base.Domain.Enums.{
  binding_status_eq, capability_key_eq, certification_approval_state_eq,
  certification_test_status_eq, environment_stage_eq, environment_status_eq, migration_status_eq,
  policy_mode_eq, readiness_state_eq, secret_status_eq, switchover_status_eq, tenant_role_eq,
}
use post_base.Domain.Models.{
  JsonObject, audit_log_row, binding_row, binding_secret_row, capability_type_row, catalog_row,
  environment_row, project_row, secret_ref_row, tenant_member_row,
}
use post_base.Events.Store.{
  DeadLetterState, DeadLetterWebhookDelivery, EventChannel, JobStatus, Store, WebhookDeliveryJob,
  channel_row, dead_letter_row, job_row,
}
use post_base.Platform.Audit.{add_audit_row, transition_key_eq}

pub record Settings : Type 0 where
  pub retry_ceiling : ℕ
  pub circuit_breaker_failure_threshold : ℕ
  pub backlog_alert_threshold : ℕ
  pub delivery_failure_alert_threshold : ℕ

abbrev pub default_settings : Settings
default_settings = record {
  retry_ceiling = 6;
  circuit_breaker_failure_threshold = 8;
  backlog_alert_threshold = 150;
  delivery_failure_alert_threshold = 25;
}

pub record WebhookDeliveryResult : Type 0 where
  pub is_delivered : Bool
  pub response_code : Option ℕ
  pub latency_ms : ℕ
  pub error_text : String

-- The answer to the attempt with this number.
abbrev pub Deliver : Type 0
Deliver = WebhookDeliveryJob → ℕ → WebhookDeliveryResult

unfoldable pub is_active_status : JobStatus → Bool
is_active_status JobStatus.pending = true
is_active_status JobStatus.retrying = true
is_active_status JobStatus.delivered = false
is_active_status JobStatus.dead_lettered = false

unfoldable pub is_dead_lettered : JobStatus → Bool
is_dead_lettered JobStatus.dead_lettered = true
is_dead_lettered JobStatus.pending = false
is_dead_lettered JobStatus.retrying = false
is_dead_lettered JobStatus.delivered = false

-- BACKOFF_SCHEDULE_SECONDS
abbrev pub backoff_schedule_seconds : List ℕ
backoff_schedule_seconds = 1 ∷ 2 ∷ 4 ∷ 8 ∷ 16 ∷ 32 ∷ 60 ∷ []

unfoldable pub next_attempt_time : ℕ → ℕ → ℕ
next_attempt_time attempt_count now =
    let schedule_index = min (attempt_count - 1) (length backoff_schedule_seconds - 1) in
    now + get_or backoff_schedule_seconds schedule_index 0

-- The job that enqueue_webhook_job adds; `max_attempts` is brought into 1 … the ceiling.
unfoldable pub enqueue_webhook_job :
    Settings
    → ℕ
    → ℕ
    → String
    → JsonObject
    → String
    → ℕ
    → List String
    → ℕ
    → Store
    → WebhookDeliveryJob × Store
unfolding next_key
enqueue_webhook_job settings channel_id subscription_id event_name payload target max_attempts
      secrets now s =
    let job : WebhookDeliveryJob = record {
      id = next_key s.jobs;
      channel_id = channel_id;
      subscription_id = subscription_id;
      event_name = event_name;
      payload_json = payload;
      target_ref = target;
      status = JobStatus.pending;
      attempt_count = 0;
      max_attempts = max 1 (min max_attempts settings.retry_ceiling);
      error_text = "";
      latest_response_code = none;
      latest_latency_ms = none;
      attempt_history_json = [];
      signing_secrets_json = secrets;
      next_attempt_at = some now;
      delivered_at = none;
      created_at = now;
      updated_at = now;
    } in
    (job, record s { jobs = s.jobs ++ job ∷ [] })

-- _resolve_metric_environment_id
unfoldable pub first_environment : List EventChannel → ℕ
first_environment [] = 1
first_environment (c ∷ cs) = c.environment_id

unfoldable pub resolve_metric_environment_id : Option ℕ → List EventChannel → ℕ
unfolding first_environment get_row
resolve_metric_environment_id none channels = first_environment channels
resolve_metric_environment_id (some channel_id) channels = elim (get_row channel_id channels) [
  | some c ↦ c.environment_id
  | none ↦ first_environment channels
]

-- `select(DeadLetterWebhookDelivery).where(webhook_delivery_job_id == job.id)` finds a row.
unfoldable pub has_dead_letter : ℕ → List DeadLetterWebhookDelivery → Bool
unfolding any_of
has_dead_letter job_id = any_of λ d. d.webhook_delivery_job_id == job_id

-- The dead letter of a job, unless one stands in the table.
unfoldable pub add_dead_letter : WebhookDeliveryJob → String → ℕ → Store → Store
unfolding has_dead_letter next_key
add_dead_letter job error_text now s =
    if has_dead_letter job.id s.dead_letters then s else record s {
      dead_letters =
          s.dead_letters
          ++ record {
            id = next_key s.dead_letters;
            webhook_delivery_job_id = job.id;
            channel_id = job.channel_id;
            subscription_id = job.subscription_id;
            event_name = job.event_name;
            payload_json = job.payload_json;
            target_ref = job.target_ref;
            attempt_count = job.attempt_count;
            max_attempts = job.max_attempts;
            latest_response_code = job.latest_response_code;
            latest_latency_ms = job.latest_latency_ms;
            error_text = error_text;
            attempt_history_json = job.attempt_history_json;
            dead_letter_state = DeadLetterState.active;
            dead_lettered_at = now;
            replayed_at = none;
          }
            ∷ [];
    }
