-- ===== src/Events/Jobs/Valid.antt =====
-- The invariant of the rows that webhook_jobs.py writes, and the times of its retries.
use post_base.Base.{
  All, All-append, List, String, [], arith, get_or, is_some, length, max, min, none, refl, subst,
  suc, true, zero, ℕ, ◌+◌, ◌-◌, ◌<◌, ◌∷◌, ◌≡◌, ◌≤◌,
}
use post_base.Domain.Models.{JsonObject}
use post_base.Events.Jobs.{
  Settings, backoff_schedule_seconds, enqueue_webhook_job, next_attempt_time,
}
use post_base.Events.Store.{JobStatus, Store, WebhookDeliveryJob}

-- What the status of a job says of its attempts and its times.
abbrev pub Scheduled : JobStatus → WebhookDeliveryJob → Type 0
Scheduled JobStatus.pending job =
    job.attempt_count < job.max_attempts × is_some job.next_attempt_at ≡ true
Scheduled JobStatus.retrying job =
    job.attempt_count < job.max_attempts × is_some job.next_attempt_at ≡ true
Scheduled JobStatus.delivered job = job.next_attempt_at ≡ none × is_some job.delivered_at ≡ true
Scheduled JobStatus.dead_lettered job =
    job.next_attempt_at ≡ none × job.attempt_count ≡ job.max_attempts

-- A job keeps within its budget, has a budget and has every counted attempt in its history. It has a
-- next attempt and attempts left while it is open, neither when it is dead-lettered, and a time of
-- delivery and no next attempt when it is delivered.
pub record IsValidJob (job : WebhookDeliveryJob) : Type 0 where
  pub budget : 1 ≤ job.max_attempts
  pub within : job.attempt_count ≤ job.max_attempts
  pub recorded : job.attempt_count ≤ length job.attempt_history_json
  pub scheduled : Scheduled job.status job

-- An enqueued job is valid, its budget is in 1 … max 1 ceiling, and every job of the table stays valid.
pub enqueue_webhook_job-IsValidJob :
    (settings : Settings) (channel_id subscription_id : ℕ) (event_name : String)
    (payload : JsonObject) (target : String) (max_attempts : ℕ) (secrets : List String) (now : ℕ)
    (s : Store)
    → All IsValidJob s.jobs
    → let (job, s') =
        enqueue_webhook_job settings channel_id subscription_id event_name payload target
          max_attempts secrets now s in
      IsValidJob job × (job.max_attempts ≤ max 1 settings.retry_ceiling) × All IsValidJob s'.jobs
unfolding enqueue_webhook_job
enqueue_webhook_job-IsValidJob settings channel_id subscription_id event_name payload target
      max_attempts secrets now s valid =
    let job =
      (enqueue_webhook_job settings channel_id subscription_id event_name payload target
        max_attempts secrets now s).0 in
    let v : IsValidJob job = record {
      budget = omega arith;
      within = omega arith;
      recorded = omega arith;
      scheduled = (omega arith, refl);
    } in
    (v, omega arith, All-append IsValidJob s.jobs (job ∷ []) valid (v, tt))

-- The entry of the schedule at this index.
abbrev wait : ℕ → ℕ
wait i = get_or backoff_schedule_seconds i 0

wait-step : (i : ℕ) → i < 6 → wait i ≤ wait (suc i)
wait-step zero h = omega arith
wait-step (suc zero) h = omega arith
wait-step (suc (suc zero)) h = omega arith
wait-step (suc (suc (suc zero))) h = omega arith
wait-step (suc (suc (suc (suc zero)))) h = omega arith
wait-step (suc (suc (suc (suc (suc zero))))) h = omega arith
wait-step (suc (suc (suc (suc (suc (suc i)))))) h = absurd (omega arith)

wait_mono : (d i j : ℕ) → i + d ≡ j → j ≤ 6 → wait i ≤ wait j
wait_mono zero i j e h =
    let e' : i ≡ j = omega arith in
    let r : wait i ≤ wait i = omega arith in subst (λ x. wait i ≤ wait x) e' r
wait_mono (suc d) i j e h =
    omega (arith, wait_mono d (suc i) j (omega arith) h, wait-step i (omega arith))

wait-le : (i j : ℕ) → i ≤ j → j ≤ 6 → wait i ≤ wait j
wait-le i j h k = wait_mono (j - i) i j (omega arith) k

-- The wait before the next attempt is 1 to 60 seconds and grows with the number of attempts.
pub next_attempt_time-bounds :
    (m n now : ℕ)
    → m ≤ n
    → (now + 1 ≤ next_attempt_time m now)
      × (next_attempt_time m now ≤ next_attempt_time n now)
      × (next_attempt_time n now ≤ now + 60)
unfolding next_attempt_time
next_attempt_time-bounds m n now h =
    let a = min (m - 1) 6 in
    let b = min (n - 1) 6 in
    let first = wait-le 0 a (omega arith) (omega arith) in
    let middle = wait-le a b (omega arith) (omega arith) in
    let final = wait-le b 6 (omega arith) (omega arith) in (omega arith, omega arith, omega arith)
