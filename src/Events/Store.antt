-- ===== src/Events/Store.antt =====
-- The tables behind the delivery of webhooks (backend/src/postbase/domain/models.py), and
-- record_usage of backend/src/postbase/platform/usage.py. The columns `status` and
-- `dead_letter_state` hold strings; the code writes and tests only those that are constructors here.
use post_base.Base.{
  List, Option, Row, String, [], if◌then◌else◌, nat_eq, option_eq, string_eq, ℕ, ◌&&◌, ◌+◌, ◌==◌,
  ◌∷◌,
}
use post_base.Domain.Enums.{
  binding_status_eq, capability_key_eq, certification_approval_state_eq,
  certification_test_status_eq, environment_stage_eq, environment_status_eq, migration_status_eq,
  policy_mode_eq, readiness_state_eq, secret_status_eq, switchover_status_eq, tenant_role_eq,
}
use post_base.Domain.Models.{JsonObject}
use post_base.Platform.Audit.{transition_key_eq}

pub data JobStatus : Type 0 where
  pending retrying delivered dead_lettered : JobStatus

-- An entry of `attempt_history_json`.
pub record Attempt : Type 0 where
  pub attempt_number : ℕ
  pub response_code : Option ℕ
  pub latency_ms : ℕ
  pub error_text : String
  pub attempted_at : ℕ

pub record WebhookDeliveryJob : Type 0 where
  pub id : ℕ
  pub channel_id : ℕ
  pub subscription_id : ℕ
  pub event_name : String
  pub payload_json : JsonObject
  pub target_ref : String
  pub status : JobStatus
  pub attempt_count : ℕ
  pub max_attempts : ℕ
  pub error_text : String
  pub latest_response_code : Option ℕ
  pub latest_latency_ms : Option ℕ
  pub attempt_history_json : List Attempt
  pub signing_secrets_json : List String
  pub next_attempt_at : Option ℕ
  pub delivered_at : Option ℕ
  pub created_at : ℕ
  pub updated_at : ℕ

pub data DeadLetterState : Type 0 where
  active replayed : DeadLetterState

pub record DeadLetterWebhookDelivery : Type 0 where
  pub id : ℕ
  pub webhook_delivery_job_id : ℕ
  pub channel_id : ℕ
  pub subscription_id : ℕ
  pub event_name : String
  pub payload_json : JsonObject
  pub target_ref : String
  pub attempt_count : ℕ
  pub max_attempts : ℕ
  pub latest_response_code : Option ℕ
  pub latest_latency_ms : Option ℕ
  pub error_text : String
  pub attempt_history_json : List Attempt
  pub dead_letter_state : DeadLetterState
  pub dead_lettered_at : ℕ
  pub replayed_at : Option ℕ

-- The string column `status` of a delivery record.
pub data DeliveryStatus : Type 0 where
  delivered failed retrying : DeliveryStatus

pub record DeliveryRecord : Type 0 where
  pub channel_id : ℕ
  pub subscription_id : ℕ
  pub event_name : String
  pub status : DeliveryStatus
  pub attempt_count : ℕ
  pub delivered_at : Option ℕ
  pub error_text : String
  pub payload_json : JsonObject

pub record EventChannel : Type 0 where
  pub id : ℕ
  pub environment_id : ℕ

-- The increments are all 1.0, so `value` counts them.
pub record UsageMeter : Type 0 where
  pub environment_id : ℕ
  pub capability_key : String
  pub metric_key : String
  pub value : ℕ
  pub measured_at : ℕ

pub record Store : Type 0 where
  pub jobs : List WebhookDeliveryJob
  pub dead_letters : List DeadLetterWebhookDelivery
  pub deliveries : List DeliveryRecord
  pub channels : List EventChannel
  pub usage : List UsageMeter

instance abbrev pub job_row : Row WebhookDeliveryJob
job_row = record { key = λ j. j.id }

instance abbrev pub dead_letter_row : Row DeadLetterWebhookDelivery
dead_letter_row = record { key = λ d. d.id }

instance abbrev pub channel_row : Row EventChannel
channel_row = record { key = λ c. c.id }

-- The row of this meter counts one more; a missing row is added.
unfoldable pub add_usage : ℕ → String → String → ℕ → List UsageMeter → List UsageMeter
add_usage environment_id capability_key metric_key now [] =
    record {
      environment_id = environment_id;
      capability_key = capability_key;
      metric_key = metric_key;
      value = 1;
      measured_at = now;
    }
    ∷ []
add_usage environment_id capability_key metric_key now (m ∷ ms) =
    if m.environment_id == environment_id
      && (m.capability_key == capability_key && m.metric_key == metric_key)
    then record m { value = m.value + 1; measured_at = now } ∷ ms
    else m ∷ add_usage environment_id capability_key metric_key now ms

unfoldable pub record_usage : ℕ → String → String → ℕ → Store → Store
unfolding add_usage
record_usage environment_id capability_key metric_key now s = record s {
  usage = add_usage environment_id capability_key metric_key now s.usage;
}
