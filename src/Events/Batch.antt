-- ===== src/Events/Batch.antt =====
-- process_due_webhook_jobs and _record_queue_health_signals of
-- backend/src/postbase/capabilities/events/webhook_jobs.py: the choice of the batch and the loop.
pub mod Sound
pub mod Breaker
use post_base.Base.{
  Bool, List, Option, [], contains, count_where, false, if◌then◌else◌, keep_if, leb, nat_eq, none,
  option_eq, some, string_eq, take, true, ℕ, ◌&&◌, ◌++◌, ◌==◌, ◌∷◌,
}
use post_base.Domain.Enums.{
  binding_status_eq, capability_key_eq, certification_approval_state_eq,
  certification_test_status_eq, environment_stage_eq, environment_status_eq, migration_status_eq,
  policy_mode_eq, readiness_state_eq, secret_status_eq, switchover_status_eq, tenant_role_eq,
}
use post_base.Events.Attempt.{process_job}
use post_base.Events.Jobs.{
  Deliver, Settings, is_active_status, is_dead_lettered, resolve_metric_environment_id,
}
use post_base.Events.Store.{DeliveryRecord, Store, WebhookDeliveryJob, record_usage}
use post_base.Platform.Audit.{transition_key_eq}

-- The loop, which ends early at the threshold of the circuit breaker.
unfoldable pub process_jobs :
    Settings → Deliver → ℕ → List WebhookDeliveryJob → ℕ → Store → List DeliveryRecord × Store
process_jobs settings deliver now [] batch_failures s = ([], s)
process_jobs settings deliver now (job ∷ jobs) batch_failures s =
    let (records, failures, s') = process_job settings deliver now job batch_failures s in
    let rest = process_jobs settings deliver now jobs failures s' in
    if leb settings.circuit_breaker_failure_threshold batch_failures
    then ([], s)
    else (records ++ rest.0, rest.1)

abbrev is_before : ℕ → Option ℕ → Bool
is_before now none = false
is_before now (some t) = leb t now

-- The jobs that a filter on the channel leaves.
abbrev in_scope : Option ℕ → WebhookDeliveryJob → Bool
in_scope none job = true
in_scope (some channel_id) job = job.channel_id == channel_id

abbrev is_listed : Option (List ℕ) → WebhookDeliveryJob → Bool
is_listed none job = true
is_listed (some ids) job = contains job.id ids

-- `channel_id` and `job_ids` narrow the batch where they are given.
unfoldable pub is_due : ℕ → Option ℕ → Option (List ℕ) → WebhookDeliveryJob → Bool
unfolding is_active_status
is_due now channel_id job_ids job =
    is_active_status job.status
    && (is_before now job.next_attempt_at && (in_scope channel_id job && is_listed job_ids job))

-- `.order_by(created_at.asc())`
insert_by_age : WebhookDeliveryJob → List WebhookDeliveryJob → List WebhookDeliveryJob
insert_by_age job [] = job ∷ []
insert_by_age job (j ∷ js) =
    if leb job.created_at j.created_at then job ∷ j ∷ js else j ∷ insert_by_age job js

unfoldable pub oldest_first : List WebhookDeliveryJob → List WebhookDeliveryJob
unfolding insert_by_age
oldest_first [] = []
oldest_first (j ∷ js) = insert_by_age j (oldest_first js)

unfoldable pub due_jobs : ℕ → Option ℕ → ℕ → Option (List ℕ) → Store → List WebhookDeliveryJob
unfolding keep_if oldest_first is_due
due_jobs now channel_id limit job_ids s =
    take limit (oldest_first (keep_if (is_due now channel_id job_ids) s.jobs))

-- _record_queue_health_signals
unfoldable pub record_queue_health_signals : Settings → Option ℕ → ℕ → Store → Store
unfolding count_where is_active_status is_dead_lettered resolve_metric_environment_id record_usage
record_queue_health_signals settings channel_id now s =
    let backlog_size =
      count_where (λ j. is_active_status j.status && in_scope channel_id j) s.jobs in
    let failed_size =
      count_where (λ j. is_dead_lettered j.status && in_scope channel_id j) s.jobs in
    let scope = resolve_metric_environment_id channel_id s.channels in
    let alerted =
      if leb settings.backlog_alert_threshold backlog_size
      then record_usage scope "events" "webhook_backlog_alert_total" now s
      else s in
    if leb settings.delivery_failure_alert_threshold failed_size
    then record_usage scope "events" "webhook_delivery_failure_alert_total" now alerted
    else alerted

-- An empty list of job ids returns at once, before the health signals.
unfoldable pub process_due_webhook_jobs :
    Settings → Deliver → ℕ → Option ℕ → ℕ → Option (List ℕ) → Store → List DeliveryRecord × Store
unfolding process_jobs process_job due_jobs record_queue_health_signals
process_due_webhook_jobs settings deliver now channel_id limit (some []) s = ([], s)
process_due_webhook_jobs settings deliver now channel_id limit job_ids s =
    let (records, s') =
      process_jobs settings deliver now (due_jobs now channel_id limit job_ids s) 0 s in
    (records, record_queue_health_signals settings channel_id now s')
