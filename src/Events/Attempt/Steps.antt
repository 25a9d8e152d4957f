-- ===== src/Events/Attempt/Steps.antt =====
-- The body of the loop keeps the tables sound on each of its branches.
use post_base.Base.{
  Bool, Bool-cases, List, String, [], arith, false, if◌then◌else◌, inl, inr, leb, length-append,
  nat_eq, option_eq, some, string_eq, true, ℕ, ◌+◌, ◌<◌, ◌==◌, ◌∷◌, ◌≡◌, ◌≤◌,
}
use post_base.Domain.Enums.{
  binding_status_eq, capability_key_eq, certification_approval_state_eq,
  certification_test_status_eq, environment_stage_eq, environment_status_eq, migration_status_eq,
  policy_mode_eq, readiness_state_eq, secret_status_eq, switchover_status_eq, tenant_role_eq,
}
use post_base.Events.Attempt.{
  attempt, attempted, count_unauthorized, gave_up, outcome_of, process_job, retried,
}
use post_base.Events.Attempt.Keeps.{settle-IsSound}
use post_base.Events.Attempt.Sound.{IsSound, IsTried}
use post_base.Events.Jobs.{Deliver, Settings, WebhookDeliveryResult, is_active_status}
use post_base.Events.Jobs.Valid.{IsValidJob, Scheduled}
use post_base.Events.Store.{DeliveryRecord, JobStatus, Store, WebhookDeliveryJob, record_usage}
use post_base.Platform.Audit.{transition_key_eq}
use post_base.Domain.PlanEnums.{phase_eq, phases_eq}

-- Usage and deliveries stand apart from the jobs and the dead letters.
pub used-IsSound :
    (environment_id : ℕ) (capability_key metric_key : String) (now : ℕ) (s : Store)
    → IsSound s
    → IsSound (record_usage environment_id capability_key metric_key now s)
unfolding record_usage
used-IsSound environment_id capability_key metric_key now s sound = record {
  jobs = sound.jobs;
  letters = sound.letters;
}

delivered-IsSound :
    (deliveries : List DeliveryRecord) (s : Store)
    → IsSound s
    → IsSound (record s { deliveries = deliveries })
delivered-IsSound deliveries s sound = record { jobs = sound.jobs; letters = sound.letters }

-- A meter that counts under a condition.
pub counted-IsSound :
    (b : Bool) (environment_id : ℕ) (capability_key metric_key : String) (now : ℕ) (s : Store)
    → IsSound s
    → IsSound (if b then record_usage environment_id capability_key metric_key now s else s)
counted-IsSound true environment_id capability_key metric_key now s sound =
    used-IsSound environment_id capability_key metric_key now s sound
counted-IsSound false environment_id capability_key metric_key now s sound = sound

outcome_of-retried :
    (result : WebhookDeliveryResult) (job : WebhookDeliveryJob)
    → outcome_of result job ≡ retried
    → job.attempt_count < job.max_attempts
unfolding outcome_of
outcome_of-retried result job h = ground (arith, h)

outcome_of-gave_up :
    (result : WebhookDeliveryResult) (job : WebhookDeliveryJob)
    → outcome_of result job ≡ gave_up
    → job.max_attempts ≤ job.attempt_count
unfolding outcome_of
outcome_of-gave_up result job h = ground (arith, h)

pub attempt-IsSound :
    (deliver : Deliver) (now : ℕ) (job : WebhookDeliveryJob) (s : Store)
    → IsSound s
    → IsValidJob job
    → job.attempt_count < job.max_attempts
    → IsSound (attempt deliver now job s).2
unfolding attempt count_unauthorized
attempt-IsSound deliver now job s sound valid left =
    let result = deliver job (job.attempt_count + 1) in
    let tried = attempted result now job in
    let t : IsTried tried = record {
      budget = valid.budget;
      within = omega (arith, left);
      recorded = omega (
        arith,
        valid.recorded,
        length-append job.attempt_history_json (
            (record {
              attempt_number = job.attempt_count + 1;
              response_code = result.response_code;
              latency_ms = result.latency_ms;
              error_text = result.error_text;
              attempted_at = now;
            })
            ∷ []),
      );
    } in
    let settled =
      settle-IsSound (outcome_of result tried) result now tried s sound t
        (outcome_of-retried result tried) (outcome_of-gave_up result tried) in
    delivered-IsSound _ _ (
      counted-IsSound (result.response_code == some 401) _ "events" "webhook_auth_anomaly_total" now
        _ (used-IsSound _ "events" _ now _ settled))

-- An active valid job has attempts left.
active-left :
    (status : JobStatus) (job : WebhookDeliveryJob)
    → is_active_status status ≡ true
    → Scheduled status job
    → job.attempt_count < job.max_attempts
unfolding is_active_status
active-left JobStatus.pending job h k = k.0
active-left JobStatus.retrying job h k = k.0
active-left JobStatus.delivered job h k = absurd (cc)
active-left JobStatus.dead_lettered job h k = absurd (cc)

pub process_job-IsSound :
    (settings : Settings) (deliver : Deliver) (now : ℕ) (job : WebhookDeliveryJob) (failures : ℕ)
    (s : Store)
    → IsSound s
    → IsValidJob job
    → IsSound (process_job settings deliver now job failures s).2
unfolding process_job
process_job-IsSound settings deliver now job failures s sound valid =
    elim (Bool-cases (is_active_status job.status)) [
      | inl e ↦
          let left = active-left job.status job e valid.scheduled in
          let more : leb job.max_attempts job.attempt_count ≡ false = ground (arith, left) in
          rw (e, more) (attempt-IsSound deliver now job s sound valid left)
      | inr e ↦ rw e sound
    ]
