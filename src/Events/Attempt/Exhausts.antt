-- ===== src/Events/Attempt/Exhausts.antt =====
-- A job whose endpoint never accepts it.
use post_base.Base.{
  Bool, List, Option, [], ap, arith, false, get_row, get_row-key, get_row-modified, if◌then◌else◌,
  leb, length, modify, nat_eq, none, option_eq, refl, some, string_eq, suc, sym, true, ℕ, ◌+◌, ◌==◌,
  ◌∙◌, ◌∷◌, ◌≡◌,
}
use post_base.Domain.Models.{
  audit_log_row, binding_row, binding_secret_row, capability_type_row, catalog_row, environment_row,
  project_row, secret_ref_row, tenant_member_row,
}
use post_base.Domain.Plans.{
  namespace_row, schema_migration_row, switchover_row, table_definition_row,
}
use post_base.Events.Attempt.{
  Outcome, attempt, attempted, bury, count_unauthorized, gave_up, metric_of, outcome_of,
  process_job, retried, settle, succeeded, write_job,
}
use post_base.Events.Attempt.Keeps.{add_dead_letter-has, add_dead_letter-jobs}
use post_base.Events.Jobs.{
  Deliver, Settings, has_dead_letter, is_active_status, resolve_metric_environment_id,
}
use post_base.Events.Store.{
  JobStatus, Store, WebhookDeliveryJob, channel_row, dead_letter_row, job_row, record_usage,
}
use post_base.Platform.Audit.{transition_key_eq}
use post_base.Domain.Enums.{
  binding_status_eq, capability_key_eq, certification_approval_state_eq,
  certification_test_status_eq, environment_stage_eq, environment_status_eq, migration_status_eq,
  policy_mode_eq, readiness_state_eq, secret_status_eq, switchover_status_eq, tenant_role_eq,
}
use post_base.Domain.PlanEnums.{phase_eq, phases_eq}

-- The job's row is processed at one time, as a batch does when the job is due.
pass_row : Settings → Deliver → ℕ → Option WebhookDeliveryJob → Store → Store
unfolding process_job
pass_row settings deliver now none s = s
pass_row settings deliver now (some job) s = (process_job settings deliver now job 0 s).2

unfoldable pub pass : Settings → Deliver → ℕ → ℕ → Store → Store
unfolding get_row pass_row
pass settings deliver id now s = pass_row settings deliver now (get_row id s.jobs) s

unfoldable pub passes : Settings → Deliver → ℕ → List ℕ → Store → Store
unfolding pass
passes settings deliver id [] s = s
passes settings deliver id (now ∷ nows) s =
    passes settings deliver id nows (pass settings deliver id now s)

-- The row of the job is active with `left` attempts left.
pub record IsPending (id left : ℕ) (job : WebhookDeliveryJob) (s : Store) : Type 0 where
  pub row : get_row id s.jobs ≡ some job
  pub active : is_active_status job.status ≡ true
  pub budget : job.attempt_count + left ≡ job.max_attempts

-- The row of the job is dead-lettered after `count` attempts, with a dead letter.
pub record IsBuried (id count : ℕ) (s : Store) : Type 0 where
  pub job : WebhookDeliveryJob
  pub row : get_row id s.jobs ≡ some job
  pub dead : job.status ≡ JobStatus.dead_lettered
  pub spent : job.attempt_count ≡ count
  pub letter : has_dead_letter id s.dead_letters ≡ true

usage-kept :
    (b : Bool) (environment_id : ℕ) (now : ℕ) (s : Store)
    → let t =
        if b then record_usage environment_id "events" "webhook_auth_anomaly_total" now s else s in
      (t.jobs ≡ s.jobs) × (t.dead_letters ≡ s.dead_letters)
unfolding record_usage
usage-kept true environment_id now s = (refl, refl)
usage-kept false environment_id now s = (refl, refl)

module _ (deliver : Deliver) (now : ℕ) (job : WebhookDeliveryJob) (s : Store) where
  tried : WebhookDeliveryJob
  tried = attempted (deliver job (job.attempt_count + 1)) now job

  settled_as : Outcome → WebhookDeliveryJob
  settled_as outcome = settle outcome now tried

  buried_as : Outcome → Store
  buried_as outcome =
      bury outcome (deliver job (job.attempt_count + 1)) now (settled_as outcome)
        (write_job (settled_as outcome) s)

  bury-jobs :
      (o : Outcome) → (buried_as o).jobs ≡ modify (settled_as o).id (λ _. settled_as o) s.jobs
  unfolding buried_as bury write_job
  bury-jobs succeeded = refl
  bury-jobs retried = refl
  bury-jobs gave_up = add_dead_letter-jobs _ _ now _

  outcome : Outcome
  outcome = outcome_of (deliver job (job.attempt_count + 1)) tried

  attempt-buried_as :
      ((attempt deliver now job s).2.jobs ≡ (buried_as outcome).jobs)
      × ((attempt deliver now job s).2.dead_letters ≡ (buried_as outcome).dead_letters)
  unfolding attempt count_unauthorized record_usage buried_as settled_as tried outcome
  attempt-buried_as =
      let environment_id = resolve_metric_environment_id (some job.channel_id) s.channels in
      usage-kept ((deliver job (job.attempt_count + 1)).response_code == some 401) environment_id
        now (record_usage environment_id "events" (metric_of outcome) now (buried_as outcome))

  -- The row after an attempt with this outcome.
  attempt-row :
      (id : ℕ) (o : Outcome)
      → outcome ≡ o
      → get_row id s.jobs ≡ some job
      → (settled_as o).id ≡ job.id
      → get_row id (attempt deliver now job s).2.jobs ≡ some (settled_as o)
  attempt-row id o e found same =
      let key : (settled_as o).id ≡ id = same ∙ get_row-key id s.jobs job found in
      ap (get_row id) (attempt-buried_as.0 ∙ ap (λ x. (buried_as x).jobs) e ∙ bury-jobs o)
      ∙ ap (λ k. get_row id (modify k (λ _. settled_as o) s.jobs)) key
      ∙ get_row-modified id job (settled_as o) s.jobs found key

  attempt-letter :
      outcome ≡ gave_up
      → has_dead_letter (settled_as gave_up).id (attempt deliver now job s).2.dead_letters ≡ true
  unfolding buried_as bury
  attempt-letter e =
      ap (has_dead_letter (settled_as gave_up).id)
        (attempt-buried_as.1 ∙ ap (λ x. (buried_as x).dead_letters) e)
      ∙ add_dead_letter-has (settled_as gave_up) _ now _

module _ (settings : Settings) (deliver : Deliver)
    (fails : (job : WebhookDeliveryJob) (n : ℕ) → (deliver job n).is_delivered ≡ false) (id now : ℕ)
    (job : WebhookDeliveryJob) (s : Store) where
  process-attempt :
      (left : ℕ)
      → IsPending id (suc left) job s
      → (process_job settings deliver now job 0 s).2 ≡ (attempt deliver now job s).2
  unfolding process_job
  process-attempt left p =
      let more : leb job.max_attempts job.attempt_count ≡ false =
        (let b = p.budget in ground (arith, b)) in
      rw (p.active, more)

  pass-attempt :
      (left : ℕ)
      → IsPending id (suc left) job s
      → pass settings deliver id now s ≡ (attempt deliver now job s).2
  unfolding pass pass_row
  pass-attempt left p = ap (λ o. pass_row settings deliver now o s) p.row ∙ process-attempt left p

  outcome-retried :
      (left : ℕ) → IsPending id (suc (suc left)) job s → outcome deliver now job s ≡ retried
  unfolding outcome outcome_of tried
  outcome-retried left p =
      let b = p.budget in
      let more : leb job.max_attempts (job.attempt_count + 1) ≡ false = ground (arith, b) in
      rw (fails job (job.attempt_count + 1), more)

  outcome-gave_up : IsPending id 1 job s → outcome deliver now job s ≡ gave_up
  unfolding outcome outcome_of tried
  outcome-gave_up p =
      let b = p.budget in
      let over : leb job.max_attempts (job.attempt_count + 1) ≡ true = ground (arith, b) in
      rw (fails job (job.attempt_count + 1), over)

  pass-IsPending :
      (left : ℕ)
      → IsPending id (suc (suc left)) job s
      → IsPending id
          (suc left)
          (settled_as deliver now job s retried)
          (pass settings deliver id now s)
  unfolding settled_as tried settle is_active_status
  pass-IsPending left p = record {
    row =
        ap (λ (t : Store). get_row id t.jobs) (pass-attempt (suc left) p)
        ∙ attempt-row deliver now job s id retried (outcome-retried left p) p.row refl;
    active = refl;
    budget = (let b = p.budget in omega (arith, b));
  }

  pass-IsBuried :
      IsPending id 1 job s → IsBuried id job.max_attempts (pass settings deliver id now s)
  unfolding settled_as tried settle
  pass-IsBuried p = record {
    job = settled_as deliver now job s gave_up;
    row =
        ap (λ (t : Store). get_row id t.jobs) (pass-attempt 0 p)
        ∙ attempt-row deliver now job s id gave_up (outcome-gave_up p) p.row refl;
    dead = refl;
    spent = p.budget;
    letter =
        ap (λ (t : Store). has_dead_letter id t.dead_letters) (pass-attempt 0 p)
        ∙ ap (λ k. has_dead_letter k (attempt deliver now job s).2.dead_letters)
            (sym (get_row-key id s.jobs job p.row))
        ∙ attempt-letter deliver now job s (outcome-gave_up p);
  }

-- An active job whose endpoint accepts no attempt is dead-lettered, with a dead letter, by exactly as
-- many passes as it has attempts left, whenever they are made; its attempts then equal its budget.
pub passes-IsBuried :
    (settings : Settings) (deliver : Deliver)
    → ((job : WebhookDeliveryJob) (n : ℕ) → (deliver job n).is_delivered ≡ false)
    → (id now : ℕ) (nows : List ℕ) (job : WebhookDeliveryJob) (s : Store)
    → IsPending id (suc (length nows)) job s
    → IsBuried id job.max_attempts (passes settings deliver id (now ∷ nows) s)
unfolding passes settled_as settle tried
passes-IsBuried settings deliver fails id now [] job s p =
    pass-IsBuried settings deliver fails id now job s p
passes-IsBuried settings deliver fails id now (later ∷ nows) job s p =
    passes-IsBuried settings deliver fails id later nows (settled_as deliver now job s retried)
      (pass settings deliver id now s)
      (pass-IsPending settings deliver fails id now job s (length nows) p)
