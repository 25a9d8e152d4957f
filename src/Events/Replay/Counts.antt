-- ===== src/Events/Replay/Counts.antt =====
-- The report of a replay accounts for every dead letter that it scanned.
use post_base.Base.{
  List, Option, [], arith, get_row, keep_if, length, length-append, length-take, none, refl, some,
  sym, take, ℕ, ◌+◌, ◌∷◌, ◌≡◌, ◌≤◌,
}
use post_base.Domain.Models.{
  audit_log_row, binding_row, binding_secret_row, capability_type_row, catalog_row, environment_row,
  project_row, secret_ref_row, tenant_member_row,
}
use post_base.Events.Replay.{
  ReplayTally, by_burial, is_active_letter, mark_letter, no_tally, replay_dead_letter_webhook_jobs,
  replay_letter, replay_letters, requeue,
}
use post_base.Events.Store.{
  DeadLetterWebhookDelivery, Store, WebhookDeliveryJob, channel_row, dead_letter_row, job_row,
}
use post_base.Domain.Plans.{
  namespace_row, schema_migration_row, switchover_row, table_definition_row,
}

-- The letters put back and the letters skipped.
abbrev handled : ReplayTally → ℕ
handled r = length r.requeued_dead_letters + length r.skipped_dead_letters

-- The reasons count the letters put back and the skipped ones.
abbrev pub Explained : ReplayTally → Type 0
Explained r =
    let q = r.reasons in
    (length r.requeued_dead_letters ≡ q.requeued)
    × (length r.skipped_dead_letters
        ≡ q.already_replayed + (q.job_missing + q.job_not_dead_lettered))

module _ (now : ℕ) where
  requeue-handled :
      (d : DeadLetterWebhookDelivery) (job : Option WebhookDeliveryJob) (r : ReplayTally)
      (s : Store)
      → Explained r
      → (handled (requeue now d job r s).0 ≡ handled r + 1) × Explained (requeue now d job r s).0
  unfolding requeue
  requeue-handled d none r s h =
      let l = length-append r.skipped_dead_letters (d.id ∷ []) in
      (omega (arith, l), (h.0, omega (arith, l, h.1)))
  requeue-handled d (some job) r s h =
      let l = length-append r.skipped_dead_letters (d.id ∷ []) in
      let m = length-append r.requeued_dead_letters (d.id ∷ []) in ground (arith, l, m, h)

  replay_letter-handled :
      (d : DeadLetterWebhookDelivery) (r : ReplayTally) (s : Store)
      → Explained r
      → (handled (replay_letter now d r s).0 ≡ handled r + 1)
        × Explained (replay_letter now d r s).0
  unfolding replay_letter
  replay_letter-handled d r s h =
      let l = length-append r.skipped_dead_letters (d.id ∷ []) in
      let q =
        requeue-handled d (get_row d.webhook_delivery_job_id s.jobs) r (mark_letter d.id now s) h in
      ground (arith, l, q, h)

  replay_letters-handled :
      (ds : List DeadLetterWebhookDelivery) (r : ReplayTally) (s : Store)
      → Explained r
      → (handled (replay_letters now ds r s).0 ≡ handled r + length ds)
        × Explained (replay_letters now ds r s).0
  unfolding replay_letters
  replay_letters-handled [] r s h = (omega arith, h)
  replay_letters-handled (d ∷ ds) r s h =
      let one = replay_letter-handled d r s h in
      let rest =
        replay_letters-handled ds (replay_letter now d r s).0 (replay_letter now d r s).1 one.1 in
      (omega (arith, one.0, rest.0), rest.1)

-- Each dead letter that a replay scans is either requeued or skipped, and each is counted under
-- exactly one reason; the two numbers of the report are the lengths of its two lists.
pub replay_dead_letter_webhook_jobs-counts :
    (limit now : ℕ) (s : Store)
    → let r = (replay_dead_letter_webhook_jobs limit now s).0 in
      let q = r.reasons in
      (length r.exhausted_job_ids + length r.skipped_job_ids ≡ r.scanned_failed_jobs)
      × (length r.skipped_job_ids ≡ q.already_replayed + (q.job_missing + q.job_not_dead_lettered))
      × (r.scanned_failed_jobs ≤ limit)
      × (q.requeued ≡ r.requeued_jobs)
      × (r.requeued_jobs ≡ length r.exhausted_job_ids)
      × (r.skipped_jobs ≡ length r.skipped_job_ids)
unfolding replay_dead_letter_webhook_jobs
replay_dead_letter_webhook_jobs-counts limit now s =
    let ds = take limit (by_burial (keep_if is_active_letter s.dead_letters)) in
    let h = replay_letters-handled now ds no_tally s (refl, refl) in
    (omega (arith, h.0), h.1.1, length-take limit _, sym h.1.0, refl, refl)
