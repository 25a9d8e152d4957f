-- ===== src/Events/Attempt/Keeps.antt =====
-- One job of a batch keeps the tables sound.
use post_base.Base.{
  All-map, Bool-cases, String, arith, inl, inr, modify, modify-All, refl, true, ℕ, ◌<◌, ◌≡◌, ◌≢◌,
  ◌≤◌,
}
use post_base.Events.Attempt.Sound.{
  IsSound, IsSoundJob, IsTried, has_dead_letter-append, has_dead_letter-last, letters_of,
  letters_of-last,
}
use post_base.Events.Jobs.{WebhookDeliveryResult, add_dead_letter, has_dead_letter}
use post_base.Events.Store.{
  JobStatus, Store, WebhookDeliveryJob, channel_row, dead_letter_row, job_row,
}
use post_base.Domain.Models.{
  audit_log_row, binding_row, binding_secret_row, capability_type_row, catalog_row, environment_row,
  project_row, secret_ref_row, tenant_member_row,
}
use post_base.Events.Attempt.{Outcome, bury, gave_up, retried, settle, succeeded, write_job}
use post_base.Events.Jobs.Valid.{IsValidJob}
use post_base.Domain.Plans.{
  namespace_row, schema_migration_row, switchover_row, table_definition_row,
}

-- The dead letter table after add_dead_letter: no fewer letters, one for the job, and none twice.
module _ (job : WebhookDeliveryJob) (error_text : String) (now : ℕ) (s : Store) where
  pub add_dead_letter-jobs : (add_dead_letter job error_text now s).jobs ≡ s.jobs
  unfolding add_dead_letter
  add_dead_letter-jobs = elim (Bool-cases (has_dead_letter job.id s.dead_letters)) [
    | inl e ↦ rw e refl
    | inr e ↦ rw e refl
  ]

  pub add_dead_letter-has :
      has_dead_letter job.id (add_dead_letter job error_text now s).dead_letters ≡ true
  unfolding add_dead_letter
  add_dead_letter-has = elim (Bool-cases (has_dead_letter job.id s.dead_letters)) [
    | inl e ↦ rw e e
    | inr e ↦ rw e (has_dead_letter-last job.id s.dead_letters _ refl)
  ]

  add_dead_letter-keeps :
      (job_id : ℕ)
      → has_dead_letter job_id s.dead_letters ≡ true
      → has_dead_letter job_id (add_dead_letter job error_text now s).dead_letters ≡ true
  unfolding add_dead_letter
  add_dead_letter-keeps job_id h = elim (Bool-cases (has_dead_letter job.id s.dead_letters)) [
    | inl e ↦ rw e h
    | inr e ↦ rw e (has_dead_letter-append job_id s.dead_letters _ h)
  ]

  add_dead_letter-letters :
      ((job_id : ℕ) → letters_of job_id s.dead_letters ≤ 1)
      → (job_id : ℕ) → letters_of job_id (add_dead_letter job error_text now s).dead_letters ≤ 1
  unfolding add_dead_letter
  add_dead_letter-letters h job_id = elim (Bool-cases (has_dead_letter job.id s.dead_letters)) [
    | inl e ↦ rw e (h job_id)
    | inr e ↦ rw e (letters_of-last job_id s.dead_letters _ e (h job_id))
  ]

-- A job object is written with a letter if it is dead-lettered: all jobs are sound afterwards.
write-IsSound :
    (job : WebhookDeliveryJob) (s s' : Store)
    → IsSound s
    → s'.jobs ≡ modify job.id (λ _. job) s.jobs
    → ((job_id : ℕ)
        → has_dead_letter job_id s.dead_letters ≡ true
        → has_dead_letter job_id s'.dead_letters ≡ true)
    → ((job_id : ℕ) → letters_of job_id s'.dead_letters ≤ 1)
    → IsSoundJob s'.dead_letters job
    → IsSound s'
write-IsSound job s s' sound written more once new =
    let old =
      All-map (IsSoundJob s.dead_letters) (IsSoundJob s'.dead_letters) s.jobs
        (λ j v. record { valid = v.valid; buried = λ e. more j.id (v.buried e) }) sound.jobs in
    record {
      jobs = rw written (modify-All (IsSoundJob s'.dead_letters) job.id job s.jobs old new);
      letters = once;
    }

-- The two writes of a branch that gives up.
buried-IsSound :
    (job : WebhookDeliveryJob) (error_text : String) (now : ℕ) (s : Store)
    → IsSound s
    → IsValidJob job
    → IsSound (add_dead_letter job error_text now (write_job job s))
unfolding write_job
buried-IsSound job error_text now s sound valid =
    let t = write_job job s in
    write-IsSound job s (add_dead_letter job error_text now t) sound
      (add_dead_letter-jobs job error_text now t) (add_dead_letter-keeps job error_text now t)
      (add_dead_letter-letters job error_text now t sound.letters)
      (record { valid = valid; buried = λ _. add_dead_letter-has job error_text now t })

pub written-IsSound :
    (job : WebhookDeliveryJob) (s : Store)
    → IsSound s
    → IsValidJob job
    → job.status ≢ JobStatus.dead_lettered
    → IsSound (write_job job s)
unfolding write_job
written-IsSound job s sound valid alive =
    write-IsSound job s (write_job job s) sound refl (λ _ h. h) sound.letters
      (record { valid = valid; buried = λ e. absurd (alive e) })

-- What each outcome writes is valid, and buried if it is dead-lettered.
pub settle-IsSound :
    (outcome : Outcome) (result : WebhookDeliveryResult) (now : ℕ) (job : WebhookDeliveryJob)
    (s : Store)
    → IsSound s
    → IsTried job
    → (outcome ≡ retried → job.attempt_count < job.max_attempts)
    → (outcome ≡ gave_up → job.max_attempts ≤ job.attempt_count)
    → IsSound
        (bury outcome result now (settle outcome now job) (write_job (settle outcome now job) s))
unfolding bury settle
settle-IsSound succeeded result now job s sound t left over =
    written-IsSound _ s sound
      (record {
        budget = t.budget;
        within = t.within;
        recorded = t.recorded;
        scheduled = (refl, refl);
      })
      (λ e. cc)
settle-IsSound gave_up result now job s sound t left over = buried-IsSound _ _ now s sound (record {
  budget = t.budget;
  within = t.within;
  recorded = t.recorded;
  scheduled = (refl, omega (arith, t.within, over refl));
})
settle-IsSound retried result now job s sound t left over =
    written-IsSound _ s sound
      (record {
        budget = t.budget;
        within = t.within;
        recorded = t.recorded;
        scheduled = (left refl, refl);
      })
      (λ e. cc)
