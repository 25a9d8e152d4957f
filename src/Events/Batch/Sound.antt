-- ===== src/Events/Batch/Sound.antt =====
-- A batch keeps the tables of jobs and dead letters sound.
use post_base.Base.{
  All, All-if, All-map, Bool-cases, List, Option, [], inl, inr, keep_if-All, leb, some, take-All, ℕ,
  ◌∷◌,
}
use post_base.Events.Attempt.Sound.{IsSound}
use post_base.Events.Attempt.Steps.{counted-IsSound, process_job-IsSound}
use post_base.Events.Batch.{
  due_jobs, insert_by_age, is_due, oldest_first, process_due_webhook_jobs, process_jobs,
  record_queue_health_signals,
}
use post_base.Events.Jobs.{Deliver, Settings}
use post_base.Events.Jobs.Valid.{IsValidJob}
use post_base.Events.Store.{Store, WebhookDeliveryJob}

-- The jobs that a batch reads are those of the table.
insert_by_age-All :
    (P : WebhookDeliveryJob → Type 0) (job : WebhookDeliveryJob) (js : List WebhookDeliveryJob)
    → P job
    → All P js
    → All P (insert_by_age job js)
unfolding insert_by_age
insert_by_age-All P job [] h k = (h, tt)
insert_by_age-All P job (j ∷ js) h k =
    All-if P (leb job.created_at j.created_at) _ _ (h, k) (k.0, insert_by_age-All P job js h k.1)

oldest_first-All :
    (P : WebhookDeliveryJob → Type 0) (js : List WebhookDeliveryJob)
    → All P js
    → All P (oldest_first js)
unfolding oldest_first
oldest_first-All P [] h = tt
oldest_first-All P (j ∷ js) h =
    insert_by_age-All P j (oldest_first js) h.0 (oldest_first-All P js h.1)

pub due_jobs-All :
    (P : WebhookDeliveryJob → Type 0) (now : ℕ) (channel_id : Option ℕ) (limit : ℕ)
    (job_ids : Option (List ℕ)) (s : Store)
    → All P s.jobs
    → All P (due_jobs now channel_id limit job_ids s)
unfolding due_jobs
due_jobs-All P now channel_id limit job_ids s h =
    take-All P limit _
      (oldest_first-All P _ (keep_if-All P (is_due now channel_id job_ids) s.jobs h))

module _ (settings : Settings) (deliver : Deliver) (now : ℕ) where
  process_jobs-IsSound :
      (jobs : List WebhookDeliveryJob) (failures : ℕ) (s : Store)
      → IsSound s
      → All IsValidJob jobs
      → IsSound (process_jobs settings deliver now jobs failures s).1
  unfolding process_jobs
  process_jobs-IsSound [] failures s sound valid = sound
  process_jobs-IsSound (job ∷ jobs) failures s sound valid =
      let rest =
        process_jobs-IsSound jobs _ _
          (process_job-IsSound settings deliver now job failures s sound valid.0) valid.1 in
      elim (Bool-cases (leb settings.circuit_breaker_failure_threshold failures)) [
        | inl e ↦ rw e sound
        | inr e ↦ rw e rest
      ]

  record_queue_health_signals-IsSound :
      (channel_id : Option ℕ) (s : Store)
      → IsSound s
      → IsSound (record_queue_health_signals settings channel_id now s)
  unfolding record_queue_health_signals
  record_queue_health_signals-IsSound channel_id s sound = search counted-IsSound depth 6

-- Processing a batch of due jobs keeps the tables sound, whatever the endpoints answer: every job
-- keeps within its budget of attempts; while it is open it has attempts left and a next attempt; when
-- it is dead-lettered it has neither, and has a dead letter; when it is delivered it has no next
-- attempt; and no job has two dead letters.
pub process_due_webhook_jobs-IsSound :
    (settings : Settings) (deliver : Deliver) (now : ℕ) (channel_id : Option ℕ) (limit : ℕ)
    (job_ids : Option (List ℕ)) (s : Store)
    → IsSound s
    → IsSound (process_due_webhook_jobs settings deliver now channel_id limit job_ids s).1
unfolding process_due_webhook_jobs
process_due_webhook_jobs-IsSound settings deliver now channel_id limit (some []) s sound = sound
process_due_webhook_jobs-IsSound settings deliver now channel_id limit job_ids s sound =
    let valid =
      due_jobs-All IsValidJob now channel_id limit job_ids s
        (All-map _ IsValidJob s.jobs (λ j v. v.valid) sound.jobs) in
    record_queue_health_signals-IsSound settings deliver now channel_id _
      (process_jobs-IsSound settings deliver now _ 0 s sound valid)
