-- ===== src/Events/Replay/Stranded.antt =====
-- The consequence of the test that finds replayed dead letters too: the job cannot be replayed again.
use post_base.Base.{
  All, All-if, Bool-cases, List, Option, [], arith, count_where, get_row, get_row-key,
  get_row-modify, inl, inr, keep_if, leb, modify, nat_eq, none, option_eq, refl, some, string_eq,
  sym, take, take-All, ℕ, ◌==◌, ◌∙◌, ◌∷◌, ◌≡◌, ◌≢◌,
}
use post_base.Domain.Enums.{
  binding_status_eq, capability_key_eq, certification_approval_state_eq,
  certification_test_status_eq, environment_stage_eq, environment_status_eq, migration_status_eq,
  policy_mode_eq, readiness_state_eq, secret_status_eq, switchover_status_eq, tenant_role_eq,
}
use post_base.Domain.Models.{
  audit_log_row, binding_row, binding_secret_row, capability_type_row, catalog_row, environment_row,
  project_row, secret_ref_row, tenant_member_row,
}
use post_base.Events.Attempt.{write_job}
use post_base.Events.Batch.{process_due_webhook_jobs}
use post_base.Events.Jobs.{Deliver, Settings, is_dead_lettered}
use post_base.Events.Replay.{
  ReplayTally, by_burial, insert_by_burial, is_active_letter, mark_letter, mark_replayed, no_tally,
  replay_dead_letter_webhook_jobs, replay_letter, replay_letters, requeue, requeued, rowcount,
}
use post_base.Events.Replay.Lost.{
  IsStranded, active_letters_of, process_due_webhook_jobs-IsStranded,
}
use post_base.Events.Store.{
  DeadLetterWebhookDelivery, Store, WebhookDeliveryJob, channel_row, dead_letter_row, job_row,
}
use post_base.Platform.Audit.{transition_key_eq}
use post_base.Events.Replay.Sound.{has_dead_letter-mark}
use post_base.Domain.PlanEnums.{phase_eq, phases_eq}
use post_base.Domain.Plans.{
  namespace_row, schema_migration_row, switchover_row, table_definition_row,
}

-- The letters that a replay scans are for other jobs.
abbrev IsOther : ℕ → DeadLetterWebhookDelivery → Type 0
IsOther job_id d = d.webhook_delivery_job_id ≢ job_id

active-IsOther :
    (job_id : ℕ) (ds : List DeadLetterWebhookDelivery)
    → active_letters_of job_id ds ≡ 0
    → All (IsOther job_id) (keep_if is_active_letter ds)
unfolding active_letters_of count_where keep_if
active-IsOther job_id [] h = tt
active-IsOther job_id (d ∷ ds) h = elim (Bool-cases (is_active_letter d)) [
  | inl e ↦
      (let f : d.webhook_delivery_job_id ≢ job_id = (λ eq. ground (arith, h, eq, e)) in
        let rest : active_letters_of job_id ds ≡ 0 = ground (arith, h, e) in
        rw e (f, active-IsOther job_id ds rest))
  | inr e ↦
      (let rest : active_letters_of job_id ds ≡ 0 = ground (arith, h, e) in
        rw e (active-IsOther job_id ds rest))
]

insert_by_burial-All :
    (P : DeadLetterWebhookDelivery → Type 0) (d : DeadLetterWebhookDelivery)
    (ds : List DeadLetterWebhookDelivery)
    → P d
    → All P ds
    → All P (insert_by_burial d ds)
unfolding insert_by_burial
insert_by_burial-All P d [] h k = (h, tt)
insert_by_burial-All P d (e ∷ es) h k =
    All-if P (leb d.dead_lettered_at e.dead_lettered_at) _ _ (h, k)
      (k.0, insert_by_burial-All P d es h k.1)

by_burial-All :
    (P : DeadLetterWebhookDelivery → Type 0) (ds : List DeadLetterWebhookDelivery)
    → All P ds
    → All P (by_burial ds)
unfolding by_burial
by_burial-All P [] h = tt
by_burial-All P (d ∷ ds) h = insert_by_burial-All P d (by_burial ds) h.0 (by_burial-All P ds h.1)

module _ (job_id now : ℕ) where
  active_letters_of-mark :
      (id : ℕ) (ds : List DeadLetterWebhookDelivery)
      → active_letters_of job_id ds ≡ 0
      → active_letters_of job_id (modify id (mark_replayed now) ds) ≡ 0
  unfolding active_letters_of count_where modify is_active_letter
  active_letters_of-mark id [] h = refl
  active_letters_of-mark id (d ∷ ds) h =
      let ih = active_letters_of-mark id ds in ground (arith, ih, h)

  mark_letter-IsStranded :
      (id : ℕ) (s : Store)
      → IsStranded job_id s.dead_letters
      → IsStranded job_id (mark_letter id now s).dead_letters
  unfolding mark_letter
  mark_letter-IsStranded id s h = record {
    has = has_dead_letter-mark job_id id now s.dead_letters ∙ h.has;
    none_active = active_letters_of-mark id s.dead_letters h.none_active;
  }

  -- A letter of another job leaves this job's row and letters.
  abbrev Untouched : Store → Store → Type 0
  Untouched s s' =
      (get_row job_id s'.jobs ≡ get_row job_id s.jobs) × IsStranded job_id s'.dead_letters

  requeue-Untouched :
      (d : DeadLetterWebhookDelivery) (job : Option WebhookDeliveryJob) (r : ReplayTally)
      (s : Store)
      → ((j : WebhookDeliveryJob) → job ≡ some j → j.id ≢ job_id)
      → IsStranded job_id s.dead_letters
      → Untouched s (requeue now d job r s).1
  unfolding requeue write_job
  requeue-Untouched d none r s other h = (refl, h)
  requeue-Untouched d (some job) r s other h = elim (Bool-cases (is_dead_lettered job.status)) [
    | inl e ↦ rw e (get_row-modify job_id job.id (requeued now job) s.jobs (other job refl) refl, h)
    | inr e ↦ rw e (refl, h)
  ]

  replay_letter-Untouched :
      (d : DeadLetterWebhookDelivery) (r : ReplayTally) (s : Store)
      → IsOther job_id d
      → IsStranded job_id s.dead_letters
      → Untouched s (replay_letter now d r s).1
  unfolding replay_letter mark_letter
  replay_letter-Untouched d r s other h = elim (Bool-cases (rowcount d.id s == 1)) [
    | inl e ↦ rw e (
        requeue-Untouched d (get_row d.webhook_delivery_job_id s.jobs) r (mark_letter d.id now s)
          (λ j f eq. other (sym (get_row-key d.webhook_delivery_job_id s.jobs j f) ∙ eq))
          (mark_letter-IsStranded d.id s h))
    | inr e ↦ rw e (refl, h)
  ]

  replay_letters-Untouched :
      (ds : List DeadLetterWebhookDelivery) (r : ReplayTally) (s : Store)
      → All (IsOther job_id) ds
      → IsStranded job_id s.dead_letters
      → Untouched s (replay_letters now ds r s).1
  unfolding replay_letters
  replay_letters-Untouched [] r s others h = (refl, h)
  replay_letters-Untouched (d ∷ ds) r s others h =
      let step = replay_letter-Untouched d r s others.0 h in
      let rest =
        replay_letters-Untouched ds (replay_letter now d r s).0 (replay_letter now d r s).1 others.1
          step.1 in
      (rest.0 ∙ step.0, rest.1)

-- A job that has dead letters of which none is active keeps none that is active through every batch,
-- also when it is dead-lettered again; and no replay puts it back.
pub replayed-IsStranded :
    (settings : Settings) (deliver : Deliver) (now job_id : ℕ) (channel_id : Option ℕ) (limit : ℕ)
    (job_ids : Option (List ℕ)) (s : Store)
    → IsStranded job_id s.dead_letters
    → IsStranded job_id
        (process_due_webhook_jobs settings deliver now channel_id limit job_ids s).1.dead_letters
      × IsStranded job_id (replay_dead_letter_webhook_jobs limit now s).1.dead_letters
      × (get_row job_id (replay_dead_letter_webhook_jobs limit now s).1.jobs
          ≡ get_row job_id s.jobs)
unfolding replay_dead_letter_webhook_jobs
replayed-IsStranded settings deliver now job_id channel_id limit job_ids s h =
    let kept =
      replay_letters-Untouched job_id now
        (take limit (by_burial (keep_if is_active_letter s.dead_letters))) no_tally s
        (take-All (IsOther job_id) limit _
          (by_burial-All (IsOther job_id) _ (active-IsOther job_id s.dead_letters h.none_active)))
        h in
    (
      process_due_webhook_jobs-IsStranded job_id settings deliver now channel_id limit job_ids s h,
      kept.1,
      kept.0,
    )
