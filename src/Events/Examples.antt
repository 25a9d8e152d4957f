-- ===== src/Events/Examples.antt =====
-- The theorems on webhooks at one small table of jobs.
use post_base.Base.{
  All, List, [], any_of, arith, count_where, false, get_row, length, none, refl, some, ◌+◌, ◌∷◌,
  ◌≡◌, ◌≤◌,
}
use post_base.Domain.Models.{
  audit_log_row, binding_row, binding_secret_row, capability_type_row, catalog_row, environment_row,
  project_row, secret_ref_row, tenant_member_row,
}
use post_base.Events.Attempt.Sound.{IsSound, letters_of}
use post_base.Events.Batch.{process_due_webhook_jobs}
use post_base.Events.Batch.Breaker.{
  process_due_webhook_jobs-breaker, process_due_webhook_jobs-limit,
}
use post_base.Events.Batch.Sound.{process_due_webhook_jobs-IsSound}
use post_base.Events.Jobs.{
  Deliver, default_settings, enqueue_webhook_job, has_dead_letter, is_active_status,
  next_attempt_time,
}
use post_base.Events.Jobs.Valid.{
  IsValidJob, enqueue_webhook_job-IsValidJob, next_attempt_time-bounds,
}
use post_base.Events.Replay.{is_active_letter, replay_dead_letter_webhook_jobs}
use post_base.Events.Replay.Counts.{replay_dead_letter_webhook_jobs-counts}
use post_base.Events.Replay.Lost.{IsStranded, active_letters_of}
use post_base.Events.Replay.Sound.{replay_dead_letter_webhook_jobs-IsSound}
use post_base.Events.Replay.Stranded.{replayed-IsStranded}
use post_base.Events.Store.{
  DeadLetterState, DeadLetterWebhookDelivery, JobStatus, Store, WebhookDeliveryJob, channel_row,
  dead_letter_row, job_row,
}
use post_base.Domain.Plans.{
  namespace_row, schema_migration_row, switchover_row, table_definition_row,
}
use post_base.Events.Attempt.Exhausts.{IsBuried, IsPending, passes, passes-IsBuried}
use post_base.Events.Replay.PutBack.{Replayed}

-- An endpoint that answers 500 to every attempt.
abbrev failing : Deliver
failing job n = record {
  is_delivered = false;
  response_code = some 500;
  latency_ms = 3;
  error_text = "down";
}

-- One attempt is left.
abbrev last_try : WebhookDeliveryJob
last_try = record {
  id = 1;
  channel_id = 1;
  subscription_id = 1;
  event_name = "order";
  payload_json = [];
  target_ref = "x";
  status = JobStatus.retrying;
  attempt_count = 0;
  max_attempts = 1;
  error_text = "";
  latest_response_code = none;
  latest_latency_ms = none;
  attempt_history_json = [];
  signing_secrets_json = [];
  next_attempt_at = some 10;
  delivered_at = none;
  created_at = 0;
  updated_at = 0;
}

abbrev buried_job : WebhookDeliveryJob
buried_job = record last_try {
  status = JobStatus.dead_lettered;
  attempt_count = 1;
  next_attempt_at = none;
  attempt_history_json =
      record {
        attempt_number = 1;
        response_code = none;
        latency_ms = 3;
        error_text = "down";
        attempted_at = 10;
      }
      ∷ [];
}

abbrev letter : DeadLetterState → DeadLetterWebhookDelivery
letter state = record {
  id = 1;
  webhook_delivery_job_id = 1;
  channel_id = 1;
  subscription_id = 1;
  event_name = "order";
  payload_json = [];
  target_ref = "x";
  attempt_count = 1;
  max_attempts = 1;
  latest_response_code = none;
  latest_latency_ms = none;
  error_text = "down";
  attempt_history_json = [];
  dead_letter_state = state;
  dead_lettered_at = 5;
  replayed_at = none;
}

abbrev store : List WebhookDeliveryJob → List DeadLetterWebhookDelivery → Store
store jobs letters = record {
  jobs = jobs;
  dead_letters = letters;
  deliveries = [];
  channels = record { id = 1; environment_id = 1 } ∷ [];
  usage = [];
}

waiting-IsSound : IsSound (store (last_try ∷ []) [])
unfolding letters_of count_where
waiting-IsSound = record {
  jobs = (
    record {
      valid = record {
        budget = omega arith;
        within = omega arith;
        recorded = omega arith;
        scheduled = (omega arith, refl);
      };
      buried = λ e. cc;
    },
    tt,
  );
  letters = λ job_id. omega arith;
}

buried-IsSound : IsSound (store (buried_job ∷ []) (letter DeadLetterState.active ∷ []))
unfolding letters_of count_where has_dead_letter any_of
buried-IsSound = record {
  jobs = (
    record {
      valid = record {
        budget = omega arith;
        within = omega arith;
        recorded = omega arith;
        scheduled = (refl, refl);
      };
      buried = λ e. refl;
    },
    tt,
  );
  letters = λ job_id. ground arith;
}

letter-IsStranded : IsStranded 1 (letter DeadLetterState.replayed ∷ [])
unfolding has_dead_letter any_of active_letters_of count_where is_active_letter
letter-IsStranded = record { has = refl; none_active = refl }

process_due_webhook_jobs-IsSound_example :
    IsSound
      (process_due_webhook_jobs default_settings failing 10 none 50 none
        (store (last_try ∷ []) [])).1
process_due_webhook_jobs-IsSound_example =
    process_due_webhook_jobs-IsSound default_settings failing 10 none 50 none
      (store (last_try ∷ []) []) waiting-IsSound

replay_dead_letter_webhook_jobs-IsSound_example :
    let s = store (buried_job ∷ []) (letter DeadLetterState.active ∷ []) in
    let s' = (replay_dead_letter_webhook_jobs 200 10 s).1 in
    IsSound s'
    × Replayed 10 (get_row 1 s.jobs) (get_row 1 s'.jobs)
    × (letters_of 1 s'.dead_letters ≡ letters_of 1 s.dead_letters)
replay_dead_letter_webhook_jobs-IsSound_example =
    replay_dead_letter_webhook_jobs-IsSound 200 10 1
      (store (buried_job ∷ []) (letter DeadLetterState.active ∷ [])) buried-IsSound

replayed-IsStranded_example :
    let s = store (last_try ∷ []) (letter DeadLetterState.replayed ∷ []) in
    IsStranded 1
      (process_due_webhook_jobs default_settings failing 10 none 50 none s).1.dead_letters
    × IsStranded 1 (replay_dead_letter_webhook_jobs 50 10 s).1.dead_letters
    × (get_row 1 (replay_dead_letter_webhook_jobs 50 10 s).1.jobs ≡ get_row 1 s.jobs)
replayed-IsStranded_example =
    replayed-IsStranded default_settings failing 10 1 none 50 none
      (store (last_try ∷ []) (letter DeadLetterState.replayed ∷ [])) letter-IsStranded

process_due_webhook_jobs-limit_example :
    length
      (process_due_webhook_jobs default_settings failing 10 none 50 none
        (store (last_try ∷ []) [])).0
    ≤ 50
process_due_webhook_jobs-limit_example =
    process_due_webhook_jobs-limit default_settings failing 10 none 50 none
      (store (last_try ∷ []) [])

process_due_webhook_jobs-breaker_example :
    length
      (process_due_webhook_jobs default_settings failing 10 none 50 none
        (store (last_try ∷ []) [])).0
    ≤ 8
process_due_webhook_jobs-breaker_example =
    process_due_webhook_jobs-breaker default_settings failing 10 none 50 none
      (store (last_try ∷ []) []) (λ job n. refl)

replay_dead_letter_webhook_jobs-counts_example :
    let r =
      (replay_dead_letter_webhook_jobs 200 10
        (store (buried_job ∷ []) (letter DeadLetterState.active ∷ []))).0 in
    let q = r.reasons in
    (length r.exhausted_job_ids + length r.skipped_job_ids ≡ r.scanned_failed_jobs)
    × (length r.skipped_job_ids ≡ q.already_replayed + (q.job_missing + q.job_not_dead_lettered))
    × (r.scanned_failed_jobs ≤ 200)
    × (q.requeued ≡ r.requeued_jobs)
    × (r.requeued_jobs ≡ length r.exhausted_job_ids)
    × (r.skipped_jobs ≡ length r.skipped_job_ids)
replay_dead_letter_webhook_jobs-counts_example =
    replay_dead_letter_webhook_jobs-counts 200 10
      (store (buried_job ∷ []) (letter DeadLetterState.active ∷ []))

enqueue_webhook_job-IsValidJob_example :
    let (job, s') = enqueue_webhook_job default_settings 1 1 "order" [] "x" 9 [] 10 (store [] []) in
    IsValidJob job × (job.max_attempts ≤ 6) × All IsValidJob s'.jobs
enqueue_webhook_job-IsValidJob_example =
    enqueue_webhook_job-IsValidJob default_settings 1 1 "order" [] "x" 9 [] 10 (store [] []) tt

next_attempt_time-bounds_example :
    (11 ≤ next_attempt_time 3 10)
    × (next_attempt_time 3 10 ≤ next_attempt_time 9 10)
    × (next_attempt_time 9 10 ≤ 70)
next_attempt_time-bounds_example = next_attempt_time-bounds 3 9 10 (omega arith)

abbrev two_tries : WebhookDeliveryJob
two_tries = record last_try { max_attempts = 2 }

two_tries-IsPending : IsPending 1 2 two_tries (store (two_tries ∷ []) [])
unfolding get_row is_active_status
two_tries-IsPending = record { row = refl; active = refl; budget = refl }

passes-IsBuried_example :
    IsBuried 1 2 (passes default_settings failing 1 (10 ∷ 20 ∷ []) (store (two_tries ∷ []) []))
passes-IsBuried_example =
    passes-IsBuried default_settings failing (λ job n. refl) 1 10 (20 ∷ []) two_tries
      (store (two_tries ∷ []) []) two_tries-IsPending
