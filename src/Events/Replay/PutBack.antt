-- ===== src/Events/Replay/PutBack.antt =====
-- What a replay does to the row of one job.
-- The row was dead-lettered and is open again, with its whole budget of attempts and a next attempt.
use post_base.Base.{
  Bool-cases, List, Option, [], ap, arith, get_row, get_row-key, get_row-modified, get_row-modify,
  inl, inr, modify, nat_beq, nat_beq_iff, nat_eq, none, option_eq, refl, some, string_eq, subst,
  sym, true, ℕ, ◌==◌, ◌∙◌, ◌∷◌, ◌≡◌, ◌⊎◌,
}
use post_base.Domain.Enums.{
  binding_status_eq, capability_key_eq, certification_approval_state_eq,
  certification_test_status_eq, environment_stage_eq, environment_status_eq, migration_status_eq,
  policy_mode_eq, readiness_state_eq, secret_status_eq, switchover_status_eq, tenant_role_eq,
}
use post_base.Domain.Models.{
  audit_log_row, binding_row, binding_secret_row, capability_type_row, catalog_row, environment_row,
  project_row, secret_ref_row, tenant_member_row,
}
use post_base.Domain.PlanEnums.{phase_eq, phases_eq}
use post_base.Domain.Plans.{
  namespace_row, schema_migration_row, switchover_row, table_definition_row,
}
use post_base.Events.Attempt.{write_job}
use post_base.Events.Jobs.{is_dead_lettered}
use post_base.Events.Replay.{
  ReplayTally, mark_letter, replay_letter, replay_letters, requeue, requeued, rowcount,
}
use post_base.Events.Store.{
  DeadLetterWebhookDelivery, JobStatus, Store, WebhookDeliveryJob, channel_row, dead_letter_row,
  job_row,
}
use post_base.Platform.Audit.{transition_key_eq}

pub record IsPutBack (now : ℕ) (before after : Option WebhookDeliveryJob) : Type 0 where
  pub old : WebhookDeliveryJob
  pub new : WebhookDeliveryJob
  pub found : before ≡ some old
  pub written : after ≡ some new
  pub dead : old.status ≡ JobStatus.dead_lettered
  pub retrying : new.status ≡ JobStatus.retrying
  pub reset : new.attempt_count ≡ 0
  pub budget : new.max_attempts ≡ old.max_attempts
  pub next : new.next_attempt_at ≡ some now

-- The row is as it was, or it is put back.
abbrev pub Replayed : ℕ → Option WebhookDeliveryJob → Option WebhookDeliveryJob → Type 0
Replayed now before after = (after ≡ before) ⊎ IsPutBack now before after

-- A row that is put back is not dead-lettered, so it is not put back twice.
Replayed-trans :
    (now : ℕ) (a b c : Option WebhookDeliveryJob)
    → Replayed now a b
    → Replayed now b c
    → Replayed now a c
Replayed-trans now a b c (inl e) (inl e') = inl (e' ∙ e)
Replayed-trans now a b c (inl e) (inr p) = inr (subst (λ x. IsPutBack now x c) e p)
Replayed-trans now a b c (inr p) (inl e') = inr (subst (λ x. IsPutBack now a x) (sym e') p)
Replayed-trans now a b c (inr p) (inr q) =
    let same : some p.new ≡ some q.old = sym p.written ∙ q.found in
    let eq : p.new ≡ q.old = cc in
    let no : JobStatus.retrying ≡ JobStatus.dead_lettered =
      sym p.retrying ∙ ap (λ j. j.status) eq ∙ q.dead in
    absurd (cc)

is_dead_lettered-eq :
    (status : JobStatus) → is_dead_lettered status ≡ true → status ≡ JobStatus.dead_lettered
unfolding is_dead_lettered
is_dead_lettered-eq JobStatus.dead_lettered h = refl
is_dead_lettered-eq JobStatus.pending h = absurd (cc)
is_dead_lettered-eq JobStatus.retrying h = absurd (cc)
is_dead_lettered-eq JobStatus.delivered h = absurd (cc)

module _ (now id : ℕ) where
  write-Replayed :
      (job_id : ℕ) (job : WebhookDeliveryJob) (s : Store)
      → get_row job_id s.jobs ≡ some job
      → job.status ≡ JobStatus.dead_lettered
      → Replayed now (get_row id s.jobs) (get_row id (write_job (requeued now job) s).jobs)
  unfolding write_job
  write-Replayed job_id job s found dead =
      let key : job.id ≡ job_id = get_row-key job_id s.jobs job found in
      elim (Bool-cases (nat_beq id job.id)) [
        | inl e ↦
            (let same : id ≡ job.id = (nat_beq_iff id job.id).0 e in
              let here : get_row id s.jobs ≡ some job =
                ap (λ k. get_row k s.jobs) (same ∙ key) ∙ found in
              inr (record {
                old = job;
                new = requeued now job;
                found = here;
                written =
                    ap (λ k. get_row id (modify k (λ _. requeued now job) s.jobs)) (sym same)
                    ∙ get_row-modified id job (requeued now job) s.jobs here (sym same);
                dead = dead;
                retrying = refl;
                reset = refl;
                budget = refl;
                next = refl;
              }))
        | inr e ↦ inl (get_row-modify id job.id (requeued now job) s.jobs (ground (arith, e)) refl)
      ]

  requeue-Replayed :
      (d : DeadLetterWebhookDelivery) (job_id : ℕ) (job : Option WebhookDeliveryJob)
      (r : ReplayTally) (s : Store)
      → get_row job_id s.jobs ≡ job
      → Replayed now (get_row id s.jobs) (get_row id (requeue now d job r s).1.jobs)
  unfolding requeue
  requeue-Replayed d job_id none r s found = inl refl
  requeue-Replayed d job_id (some job) r s found = elim (Bool-cases (is_dead_lettered job.status)) [
    | inl e ↦ rw e (write-Replayed job_id job s found (is_dead_lettered-eq job.status e))
    | inr e ↦ rw e (inl refl)
  ]

  replay_letter-Replayed :
      (d : DeadLetterWebhookDelivery) (r : ReplayTally) (s : Store)
      → Replayed now (get_row id s.jobs) (get_row id (replay_letter now d r s).1.jobs)
  unfolding replay_letter mark_letter
  replay_letter-Replayed d r s = elim (Bool-cases (rowcount d.id s == 1)) [
    | inl e ↦ rw e (requeue-Replayed d d.webhook_delivery_job_id _ r (mark_letter d.id now s) refl)
    | inr e ↦ rw e (inl refl)
  ]

  pub replay_letters-Replayed :
      (ds : List DeadLetterWebhookDelivery) (r : ReplayTally) (s : Store)
      → Replayed now (get_row id s.jobs) (get_row id (replay_letters now ds r s).1.jobs)
  unfolding replay_letters
  replay_letters-Replayed [] r s = inl refl
  replay_letters-Replayed (d ∷ ds) r s =
      Replayed-trans now _ _ _ (replay_letter-Replayed d r s)
        (replay_letters-Replayed ds (replay_letter now d r s).0 (replay_letter now d r s).1)
