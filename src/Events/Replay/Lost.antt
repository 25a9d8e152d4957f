-- ===== src/Events/Replay/Lost.antt =====
-- A job whose dead letter was replayed gets no other one from a batch.
use post_base.Base.{
  Bool, Bool-cases, List, Option, String, [], arith, count_where, false, if◌then◌else◌, inl, inr,
  leb, nat_eq, option_eq, some, string_eq, true, ℕ, ◌&&◌, ◌++◌, ◌+◌, ◌==◌, ◌∙◌, ◌∷◌, ◌≡◌, ◌≢◌,
}
use post_base.Domain.Enums.{
  binding_status_eq, capability_key_eq, certification_approval_state_eq,
  certification_test_status_eq, environment_stage_eq, environment_status_eq, migration_status_eq,
  policy_mode_eq, readiness_state_eq, secret_status_eq, switchover_status_eq, tenant_role_eq,
}
use post_base.Events.Attempt.{
  Outcome, attempt, attempted, bury, count_unauthorized, exhausted, gave_up, metric_of, outcome_of,
  process_job, retried, settle, succeeded, write_job,
}
use post_base.Events.Attempt.Sound.{has_dead_letter-append}
use post_base.Events.Batch.{
  due_jobs, process_due_webhook_jobs, process_jobs, record_queue_health_signals,
}
use post_base.Events.Jobs.{
  Deliver, Settings, WebhookDeliveryResult, add_dead_letter, has_dead_letter, is_active_status,
  resolve_metric_environment_id,
}
use post_base.Events.Replay.{is_active_letter}
use post_base.Events.Store.{DeadLetterWebhookDelivery, Store, WebhookDeliveryJob, record_usage}
use post_base.Platform.Audit.{transition_key_eq}
use post_base.Domain.PlanEnums.{phase_eq, phases_eq}

unfoldable pub active_letters_of : ℕ → List DeadLetterWebhookDelivery → ℕ
unfolding count_where is_active_letter
active_letters_of job_id =
    count_where λ d. d.webhook_delivery_job_id == job_id && is_active_letter d

-- The job has a dead letter, and none that is active.
pub record IsStranded (job_id : ℕ) (ds : List DeadLetterWebhookDelivery) : Type 0 where
  pub has : has_dead_letter job_id ds ≡ true
  pub none_active : active_letters_of job_id ds ≡ 0

active_letters_of-last :
    (job_id : ℕ) (ds : List DeadLetterWebhookDelivery) (e : DeadLetterWebhookDelivery)
    → e.webhook_delivery_job_id ≢ job_id
    → active_letters_of job_id (ds ++ e ∷ []) ≡ active_letters_of job_id ds
unfolding active_letters_of count_where
active_letters_of-last job_id [] e h = ground (arith, h)
active_letters_of-last job_id (d ∷ ds) e h =
    let ih = active_letters_of-last job_id ds e h in ground (arith, ih)

-- A letter is added for another job only.
add_dead_letter-IsStranded :
    (job_id : ℕ) (job : WebhookDeliveryJob) (error_text : String) (now : ℕ) (s : Store)
    → IsStranded job_id s.dead_letters
    → IsStranded job_id (add_dead_letter job error_text now s).dead_letters
unfolding add_dead_letter
add_dead_letter-IsStranded job_id job error_text now s h =
    elim (Bool-cases (has_dead_letter job.id s.dead_letters)) [
      | inl e ↦ rw e h
      | inr e ↦
          let other : job.id ≢ job_id =
            λ eq. (let f : has_dead_letter job.id s.dead_letters ≡ true = rw eq h.has in cc) in
          rw e (record {
            has = has_dead_letter-append job_id s.dead_letters _ h.has;
            none_active = active_letters_of-last job_id s.dead_letters _ other ∙ h.none_active;
          })
    ]

module _ (job_id : ℕ) where
  bury-IsStranded :
      (outcome : Outcome) (result : WebhookDeliveryResult) (now : ℕ) (job : WebhookDeliveryJob)
      (s : Store)
      → IsStranded job_id s.dead_letters
      → IsStranded job_id (bury outcome result now job s).dead_letters
  unfolding bury
  bury-IsStranded succeeded result now job s h = h
  bury-IsStranded gave_up result now job s h = add_dead_letter-IsStranded job_id job _ now s h
  bury-IsStranded retried result now job s h = h

  pub counted-IsStranded :
      (b : Bool) (environment_id : ℕ) (capability_key metric_key : String) (now : ℕ) (s : Store)
      → IsStranded job_id s.dead_letters
      → IsStranded job_id
          (if b
            then record_usage environment_id capability_key metric_key now s
            else s).dead_letters
  unfolding record_usage
  counted-IsStranded true environment_id capability_key metric_key now s h = h
  counted-IsStranded false environment_id capability_key metric_key now s h = h

  attempt-IsStranded :
      (deliver : Deliver) (now : ℕ) (job : WebhookDeliveryJob) (s : Store)
      → IsStranded job_id s.dead_letters
      → IsStranded job_id (attempt deliver now job s).2.dead_letters
  unfolding attempt count_unauthorized write_job record_usage
  attempt-IsStranded deliver now job s h =
      let result = deliver job (job.attempt_count + 1) in
      let tried = attempted result now job in
      let outcome = outcome_of result tried in
      let job' = settle outcome now tried in
      let t = bury outcome result now job' (write_job job' s) in
      let buried = bury-IsStranded outcome result now job' (write_job job' s) h in
      let id = resolve_metric_environment_id (some job.channel_id) s.channels in
      counted-IsStranded (result.response_code == some 401) id "events" "webhook_auth_anomaly_total"
        now (record_usage id "events" (metric_of outcome) now t) buried

  process_job-IsStranded :
      (settings : Settings) (deliver : Deliver) (now : ℕ) (job : WebhookDeliveryJob) (failures : ℕ)
      (s : Store)
      → IsStranded job_id s.dead_letters
      → IsStranded job_id (process_job settings deliver now job failures s).2.dead_letters
  unfolding process_job write_job
  process_job-IsStranded settings deliver now job failures s h =
      elim (Bool-cases (is_active_status job.status)) [
        | inr e ↦ rw e h
        | inl e ↦ elim (Bool-cases (leb job.max_attempts job.attempt_count)) [
          | inl f ↦ rw (e, f) (add_dead_letter-IsStranded job_id (exhausted now job) _ now _ h)
          | inr f ↦ rw (e, f) (attempt-IsStranded deliver now job s h)
        ]
      ]

  pub process_jobs-IsStranded :
      (settings : Settings) (deliver : Deliver) (now : ℕ) (jobs : List WebhookDeliveryJob)
      (failures : ℕ) (s : Store)
      → IsStranded job_id s.dead_letters
      → IsStranded job_id (process_jobs settings deliver now jobs failures s).1.dead_letters
  unfolding process_jobs
  process_jobs-IsStranded settings deliver now [] failures s h = h
  process_jobs-IsStranded settings deliver now (job ∷ jobs) failures s h =
      let rest =
        process_jobs-IsStranded settings deliver now jobs _ _
          (process_job-IsStranded settings deliver now job failures s h) in
      elim (Bool-cases (leb settings.circuit_breaker_failure_threshold failures)) [
        | inl e ↦ rw e h
        | inr e ↦ rw e rest
      ]

  health-IsStranded :
      (settings : Settings) (channel_id : Option ℕ) (now : ℕ) (s : Store)
      → IsStranded job_id s.dead_letters
      → IsStranded job_id (record_queue_health_signals settings channel_id now s).dead_letters
  unfolding record_queue_health_signals
  health-IsStranded settings channel_id now s h = search counted-IsStranded depth 6

  pub process_due_webhook_jobs-IsStranded :
      (settings : Settings) (deliver : Deliver) (now : ℕ) (channel_id : Option ℕ) (limit : ℕ)
      (job_ids : Option (List ℕ)) (s : Store)
      → IsStranded job_id s.dead_letters
      → IsStranded job_id
          (process_due_webhook_jobs settings deliver now channel_id limit job_ids s).1.dead_letters
  unfolding process_due_webhook_jobs
  process_due_webhook_jobs-IsStranded settings deliver now channel_id limit (some []) s h = h
  process_due_webhook_jobs-IsStranded settings deliver now channel_id limit job_ids s h =
      let jobs = due_jobs now channel_id limit job_ids s in
      health-IsStranded settings channel_id now (process_jobs settings deliver now jobs 0 s).1
        (process_jobs-IsStranded settings deliver now jobs 0 s h)
