-- ===== src/Events/Replay/Sound.antt =====
-- A replay keeps the tables of jobs and dead letters sound.
use post_base.Base.{
  All-map, Bool-cases, List, Option, [], any_of, ap, arith, count_where, get_row, get_row-All, inl,
  inr, keep_if, modify, nat_eq, none, option_eq, refl, some, string_eq, take, ℕ, ◌==◌, ◌∙◌, ◌∷◌,
  ◌≡◌,
}
use post_base.Domain.Enums.{
  binding_status_eq, capability_key_eq, certification_approval_state_eq,
  certification_test_status_eq, environment_stage_eq, environment_status_eq, migration_status_eq,
  policy_mode_eq, readiness_state_eq, secret_status_eq, switchover_status_eq, tenant_role_eq,
}
use post_base.Domain.Models.{
  audit_log_row, binding_row, binding_secret_row, capability_type_row, catalog_row, environment_row,
  project_row, secret_ref_row, tenant_member_row,
}
use post_base.Events.Attempt.Keeps.{written-IsSound}
use post_base.Events.Attempt.Sound.{IsSound, IsSoundJob, letters_of}
use post_base.Events.Jobs.{has_dead_letter, is_dead_lettered}
use post_base.Events.Jobs.Valid.{IsValidJob}
use post_base.Events.Replay.{
  ReplayTally, by_burial, is_active_letter, mark_letter, mark_replayed, no_tally,
  replay_dead_letter_webhook_jobs, replay_letter, replay_letters, requeue, requeued, rowcount,
}
use post_base.Events.Store.{
  DeadLetterWebhookDelivery, Store, WebhookDeliveryJob, channel_row, dead_letter_row, job_row,
}
use post_base.Platform.Audit.{transition_key_eq}
use post_base.Domain.PlanEnums.{phase_eq, phases_eq}
use post_base.Domain.Plans.{
  namespace_row, schema_migration_row, switchover_row, table_definition_row,
}
use post_base.Events.Attempt.{write_job}
use post_base.Events.Replay.PutBack.{Replayed, replay_letters-Replayed}

-- Marking a letter as replayed leaves the letters of each job as they are.
letters_of-mark :
    (job_id id now : ℕ) (ds : List DeadLetterWebhookDelivery)
    → letters_of job_id (modify id (mark_replayed now) ds) ≡ letters_of job_id ds
unfolding letters_of count_where modify
letters_of-mark job_id id now [] = refl
letters_of-mark job_id id now (d ∷ ds) =
    let ih = letters_of-mark job_id id now ds in ground (arith, ih)

pub has_dead_letter-mark :
    (job_id id now : ℕ) (ds : List DeadLetterWebhookDelivery)
    → has_dead_letter job_id (modify id (mark_replayed now) ds) ≡ has_dead_letter job_id ds
unfolding has_dead_letter any_of modify
has_dead_letter-mark job_id id now [] = refl
has_dead_letter-mark job_id id now (d ∷ ds) =
    let ih = has_dead_letter-mark job_id id now ds in ground (arith, ih)

mark_letter-IsSound : (id now : ℕ) (s : Store) → IsSound s → IsSound (mark_letter id now s)
unfolding mark_letter
mark_letter-IsSound id now s sound = record {
  jobs =
      All-map (IsSoundJob s.dead_letters) _ s.jobs
        (λ j v. record {
          valid = v.valid;
          buried = λ e. has_dead_letter-mark j.id id now s.dead_letters ∙ v.buried e;
        })
        sound.jobs;
  letters = λ job_id. rw (letters_of-mark job_id id now s.dead_letters) (sound.letters job_id);
}

requeue-IsSound :
    (now : ℕ) (d : DeadLetterWebhookDelivery) (job : Option WebhookDeliveryJob) (r : ReplayTally)
    (s : Store)
    → ((j : WebhookDeliveryJob) → job ≡ some j → IsValidJob j)
    → IsSound s
    → IsSound (requeue now d job r s).1
unfolding requeue
requeue-IsSound now d none r s valid sound = sound
requeue-IsSound now d (some job) r s valid sound = elim (Bool-cases (is_dead_lettered job.status)) [
  | inl e ↦
      let v = valid job refl in
      rw e (
        written-IsSound (requeued now job) s sound
          (record {
            budget = v.budget;
            within = omega arith;
            recorded = omega arith;
            scheduled = (omega (arith, v.budget), refl);
          })
          (λ e. cc))
  | inr e ↦ rw e sound
]

replay_letter-IsSound :
    (now : ℕ) (d : DeadLetterWebhookDelivery) (r : ReplayTally) (s : Store)
    → IsSound s
    → IsSound (replay_letter now d r s).1
unfolding replay_letter
replay_letter-IsSound now d r s sound = elim (Bool-cases (rowcount d.id s == 1)) [
  | inl e ↦ rw e (
      requeue-IsSound now d _ r _
        (λ j f.
          (get_row-All (IsSoundJob s.dead_letters) d.webhook_delivery_job_id s.jobs j sound.jobs
            f).valid)
        (mark_letter-IsSound d.id now s sound))
  | inr e ↦ rw e sound
]

replay_letters-IsSound :
    (now : ℕ) (ds : List DeadLetterWebhookDelivery) (r : ReplayTally) (s : Store)
    → IsSound s
    → IsSound (replay_letters now ds r s).1
unfolding replay_letters
replay_letters-IsSound now [] r s sound = sound
replay_letters-IsSound now (d ∷ ds) r s sound =
    replay_letters-IsSound now ds _ _ (replay_letter-IsSound now d r s sound)

-- The letters of a job, active and replayed, are as many as before.
module _ (now job_id : ℕ) where
  requeue-letters :
      (d : DeadLetterWebhookDelivery) (job : Option WebhookDeliveryJob) (r : ReplayTally)
      (s : Store)
      → (requeue now d job r s).1.dead_letters ≡ s.dead_letters
  unfolding requeue write_job
  requeue-letters d none r s = refl
  requeue-letters d (some job) r s = ground arith

  replay_letter-letters :
      (d : DeadLetterWebhookDelivery) (r : ReplayTally) (s : Store)
      → letters_of job_id (replay_letter now d r s).1.dead_letters
        ≡ letters_of job_id s.dead_letters
  unfolding replay_letter mark_letter
  replay_letter-letters d r s = elim (Bool-cases (rowcount d.id s == 1)) [
    | inl e ↦ rw e (
        ap (letters_of job_id) (requeue-letters d _ r (mark_letter d.id now s))
        ∙ letters_of-mark job_id d.id now s.dead_letters)
    | inr e ↦ rw e refl
  ]

  replay_letters-letters :
      (ds : List DeadLetterWebhookDelivery) (r : ReplayTally) (s : Store)
      → letters_of job_id (replay_letters now ds r s).1.dead_letters
        ≡ letters_of job_id s.dead_letters
  unfolding replay_letters
  replay_letters-letters [] r s = refl
  replay_letters-letters (d ∷ ds) r s =
      replay_letters-letters ds (replay_letter now d r s).0 (replay_letter now d r s).1
      ∙ replay_letter-letters d r s

-- A replay keeps the tables sound. The row of each job stays as it was, or it was dead-lettered and is
-- put back: open, with no attempt counted, its old budget and a next attempt now. The job has as many
-- dead letters as before.
pub replay_dead_letter_webhook_jobs-IsSound :
    (limit now id : ℕ) (s : Store)
    → IsSound s
    → let s' = (replay_dead_letter_webhook_jobs limit now s).1 in
      IsSound s'
      × Replayed now (get_row id s.jobs) (get_row id s'.jobs)
      × (letters_of id s'.dead_letters ≡ letters_of id s.dead_letters)
unfolding replay_dead_letter_webhook_jobs
replay_dead_letter_webhook_jobs-IsSound limit now id s sound =
    let ds = take limit (by_burial (keep_if is_active_letter s.dead_letters)) in
    (
      replay_letters-IsSound now ds no_tally s sound,
      replay_letters-Replayed now id ds no_tally s,
      replay_letters-letters now id ds no_tally s,
    )
