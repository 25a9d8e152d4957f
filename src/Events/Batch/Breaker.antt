-- ===== src/Events/Batch/Breaker.antt =====
-- The circuit breaker of a batch, and its limit.
use post_base.Base.{
  List, Option, [], arith, false, length, length-append, length-take, some, ℕ, ◌+◌, ◌-◌, ◌∷◌, ◌≡◌,
  ◌≤◌,
}
use post_base.Events.Attempt.{attempt, next_failures, outcome_of, process_job}
use post_base.Events.Batch.{due_jobs, process_due_webhook_jobs, process_jobs}
use post_base.Events.Jobs.{Deliver, Settings}
use post_base.Events.Store.{Store, WebhookDeliveryJob}

-- Every attempt fails.
abbrev pub NeverDelivers : Deliver → Type 0
NeverDelivers deliver = (job : WebhookDeliveryJob) (n : ℕ) → (deliver job n).is_delivered ≡ false

module _ (settings : Settings) (deliver : Deliver) (now : ℕ) where
  process_job-length :
      (job : WebhookDeliveryJob) (failures : ℕ) (s : Store)
      → length (process_job settings deliver now job failures s).0 ≤ 1
  unfolding process_job
  process_job-length job failures s = ground arith

  -- A job that is handled without success counts as a failure.
  process_job-failures :
      NeverDelivers deliver
      → (job : WebhookDeliveryJob) (failures : ℕ) (s : Store)
      → failures + length (process_job settings deliver now job failures s).0
        ≤ (process_job settings deliver now job failures s).1
  unfolding process_job attempt outcome_of next_failures
  process_job-failures never job failures s =
      let h = never job (job.attempt_count + 1) in ground (arith, h)

  process_jobs-length :
      (jobs : List WebhookDeliveryJob) (failures : ℕ) (s : Store)
      → length (process_jobs settings deliver now jobs failures s).0 ≤ length jobs
  unfolding process_jobs
  process_jobs-length [] failures s = omega arith
  process_jobs-length (job ∷ jobs) failures s =
      let step = process_job settings deliver now job failures s in
      let ih = process_jobs-length jobs step.1 step.2 in
      let one = process_job-length job failures s in
      let sum = length-append step.0 (process_jobs settings deliver now jobs step.1 step.2).0 in
      ground (arith, ih, one, sum)

  process_jobs-breaker :
      NeverDelivers deliver
      → (jobs : List WebhookDeliveryJob) (failures : ℕ) (s : Store)
      → length (process_jobs settings deliver now jobs failures s).0
        ≤ settings.circuit_breaker_failure_threshold - failures
  unfolding process_jobs
  process_jobs-breaker never [] failures s = omega arith
  process_jobs-breaker never (job ∷ jobs) failures s =
      let step = process_job settings deliver now job failures s in
      let ih = process_jobs-breaker never jobs step.1 step.2 in
      let one = process_job-length job failures s in
      let more = process_job-failures never job failures s in
      let sum = length-append step.0 (process_jobs settings deliver now jobs step.1 step.2).0 in
      ground (arith, ih, one, more, sum)

due_jobs-length :
    (now : ℕ) (channel_id : Option ℕ) (limit : ℕ) (job_ids : Option (List ℕ)) (s : Store)
    → length (due_jobs now channel_id limit job_ids s) ≤ limit
unfolding due_jobs
due_jobs-length now channel_id limit job_ids s = length-take limit _

-- A batch records at most `limit` deliveries.
pub process_due_webhook_jobs-limit :
    (settings : Settings) (deliver : Deliver) (now : ℕ) (channel_id : Option ℕ) (limit : ℕ)
    (job_ids : Option (List ℕ)) (s : Store)
    → length (process_due_webhook_jobs settings deliver now channel_id limit job_ids s).0 ≤ limit
unfolding process_due_webhook_jobs
process_due_webhook_jobs-limit settings deliver now channel_id limit (some []) s = omega arith
process_due_webhook_jobs-limit settings deliver now channel_id limit job_ids s =
    let jobs = due_jobs now channel_id limit job_ids s in
    omega (
      arith,
      process_jobs-length settings deliver now jobs 0 s,
      due_jobs-length now channel_id limit job_ids s,
    )

-- If every attempt fails, a batch makes at most as many attempts as the threshold of the circuit
-- breaker, however many jobs are due.
pub process_due_webhook_jobs-breaker :
    (settings : Settings) (deliver : Deliver) (now : ℕ) (channel_id : Option ℕ) (limit : ℕ)
    (job_ids : Option (List ℕ)) (s : Store)
    → NeverDelivers deliver
    → length (process_due_webhook_jobs settings deliver now channel_id limit job_ids s).0
      ≤ settings.circuit_breaker_failure_threshold
unfolding process_due_webhook_jobs
process_due_webhook_jobs-breaker settings deliver now channel_id limit (some []) s never =
    omega arith
process_due_webhook_jobs-breaker settings deliver now channel_id limit job_ids s never = omega (
  arith,
  process_jobs-breaker settings deliver now never (due_jobs now channel_id limit job_ids s) 0 s,
)
