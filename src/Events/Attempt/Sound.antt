-- ===== src/Events/Attempt/Sound.antt =====
-- The invariant of the tables of jobs and dead letters, and that one job of a batch preserves it.
use post_base.Base.{
  All, List, [], any_of, arith, count_where, false, length, nat_eq, option_eq, refl, string_eq,
  true, ℕ, ◌++◌, ◌+◌, ◌==◌, ◌∷◌, ◌≡◌, ◌≤◌,
}
use post_base.Domain.Enums.{
  binding_status_eq, capability_key_eq, certification_approval_state_eq,
  certification_test_status_eq, environment_stage_eq, environment_status_eq, migration_status_eq,
  policy_mode_eq, readiness_state_eq, secret_status_eq, switchover_status_eq, tenant_role_eq,
}
use post_base.Events.Jobs.{has_dead_letter}
use post_base.Events.Jobs.Valid.{IsValidJob}
use post_base.Events.Store.{DeadLetterWebhookDelivery, JobStatus, Store, WebhookDeliveryJob}
use post_base.Platform.Audit.{transition_key_eq}

-- The number of dead letters of a job.
unfoldable pub letters_of : ℕ → List DeadLetterWebhookDelivery → ℕ
unfolding count_where
letters_of job_id = count_where λ d. d.webhook_delivery_job_id == job_id

-- A job is valid, and it has a dead letter if it is dead-lettered.
pub record IsSoundJob (letters : List DeadLetterWebhookDelivery) (job : WebhookDeliveryJob)
    : Type 0 where
  pub valid : IsValidJob job
  pub buried : job.status ≡ JobStatus.dead_lettered → has_dead_letter job.id letters ≡ true

-- All jobs are sound, and no job has two dead letters.
pub record IsSound (s : Store) : Type 0 where
  pub jobs : All (IsSoundJob s.dead_letters) s.jobs
  pub letters : (job_id : ℕ) → letters_of job_id s.dead_letters ≤ 1

-- What an attempt leaves in a job before the branch on its outcome.
pub record IsTried (job : WebhookDeliveryJob) : Type 0 where
  pub budget : 1 ≤ job.max_attempts
  pub within : job.attempt_count ≤ job.max_attempts
  pub recorded : job.attempt_count ≤ length job.attempt_history_json

-- A dead letter is added where there is none.
letters_of-none :
    (job_id : ℕ) (ds : List DeadLetterWebhookDelivery)
    → has_dead_letter job_id ds ≡ false
    → letters_of job_id ds ≡ 0
unfolding letters_of has_dead_letter any_of count_where
letters_of-none job_id [] h = refl
letters_of-none job_id (d ∷ ds) h = let ih = letters_of-none job_id ds in ground (arith, h, ih)

letters_of-append :
    (job_id : ℕ) (ds : List DeadLetterWebhookDelivery) (e : DeadLetterWebhookDelivery)
    → letters_of job_id (ds ++ e ∷ []) ≡ letters_of job_id ds + letters_of job_id (e ∷ [])
unfolding letters_of count_where
letters_of-append job_id [] e = omega arith
letters_of-append job_id (d ∷ ds) e = let ih = letters_of-append job_id ds e in ground (arith, ih)

pub has_dead_letter-append :
    (job_id : ℕ) (ds : List DeadLetterWebhookDelivery) (e : DeadLetterWebhookDelivery)
    → has_dead_letter job_id ds ≡ true
    → has_dead_letter job_id (ds ++ e ∷ []) ≡ true
unfolding has_dead_letter any_of
has_dead_letter-append job_id [] e h = ground (arith, h)
has_dead_letter-append job_id (d ∷ ds) e h =
    let ih = has_dead_letter-append job_id ds e in ground (arith, ih, h)

pub has_dead_letter-last :
    (job_id : ℕ) (ds : List DeadLetterWebhookDelivery) (e : DeadLetterWebhookDelivery)
    → e.webhook_delivery_job_id ≡ job_id
    → has_dead_letter job_id (ds ++ e ∷ []) ≡ true
unfolding has_dead_letter any_of
has_dead_letter-last job_id [] e h = ground (arith, h)
has_dead_letter-last job_id (d ∷ ds) e h =
    let ih = has_dead_letter-last job_id ds e h in ground (arith, ih)

-- A letter for a job that has none leaves each job at most one letter.
pub letters_of-last :
    (job_id : ℕ) (ds : List DeadLetterWebhookDelivery) (e : DeadLetterWebhookDelivery)
    → has_dead_letter e.webhook_delivery_job_id ds ≡ false
    → letters_of job_id ds ≤ 1
    → letters_of job_id (ds ++ e ∷ []) ≤ 1
unfolding letters_of count_where
letters_of-last job_id ds e h k =
    let none : e.webhook_delivery_job_id ≡ job_id → letters_of job_id ds ≡ 0 =
      λ eq. letters_of-none job_id ds (rw eq at h) in
    let one = letters_of-append job_id ds e in ground (arith, none, one, k)
