-- ===== src/ControlPlane/Migrations/Budget.antt =====
-- The budget of reconciliation attempts.
use post_base.Base.{
  Bool, Option, String, ap, arith, false, inl, inr, leb, max, nat_eq, none, not, option_eq, refl,
  some, string_eq, subst, true, ℕ, ◌+◌, ◌<◌, ◌==◌, ◌||◌, ◌∙◌, ◌≡◌, ◌≤◌, ◌⊎◌,
}
use post_base.ControlPlane.Migrations.{
  DataProvider, affected_entities, attempt_reconciliation, detect_migration_drift, entities_of,
  execute_migration_reconciliation, load_metadata, missing_columns, physical_drift, recreate,
  refresh_migration_reconciliation_state, still_drifted, with_drift, write_migration,
}
use post_base.Domain.Plans.{DataNamespace, SchemaMigration, TableDefinition}
use post_base.Platform.Errors.{Error, Result, err, ok}
use post_base.Platform.Exec.{Exec, after_try, branch, on_option, pure, ◌>>=◌}
use post_base.Platform.Exec.Ensures.{Ensures, Ensures-bind, Ensures-last, Ensures-map, Ensures-pure}
use post_base.Platform.Session.{Session, flush, gets, update}
use post_base.Domain.Enums.{
  MigrationStatus, binding_status_eq, capability_key_eq, certification_approval_state_eq,
  certification_test_status_eq, environment_stage_eq, environment_status_eq, migration_status_eq,
  policy_mode_eq, readiness_state_eq, secret_status_eq, switchover_status_eq, tenant_role_eq,
}
use post_base.Domain.PlanEnums.{phase_eq, phases_eq}
use post_base.Platform.Audit.{transition_key_eq}
use post_base.Platform.Exec.Rules.{bind-cong}

-- The returned migration counts `n` attempts.
abbrev Counted : ℕ → SchemaMigration → Session → Type 0
Counted n m s = m.reconcile_attempt_count ≡ n

write_migration-Counted :
    (f : SchemaMigration → SchemaMigration) (m : SchemaMigration) (n : ℕ)
    → (f m).reconcile_attempt_count ≡ n
    → Ensures (λ _. Unit) (write_migration f m) (Counted n)
unfolding write_migration
write_migration-Counted f m n e =
    Ensures-last (update _) _ (record { holds = λ s h. h }) (λ s h. h)
      λ _.
        Ensures-last flush _ (record { holds = λ s h. h }) (λ s h. h)
          λ _. Ensures-pure (Counted n) (f m) λ s h. e

module _ (provider : DataProvider) (describe : Error → String) (now : ℕ) where
  refresh-Counted :
      (m : SchemaMigration)
      → Ensures
          (λ _. Unit)
          (refresh_migration_reconciliation_state provider m now)
          (Counted m.reconcile_attempt_count)
  unfolding refresh_migration_reconciliation_state
  refresh-Counted m =
      Ensures-last _ _ (record { holds = λ s h. h }) (λ s h. h)
        λ drift. write_migration-Counted (with_drift drift now) m _ refl

  after-Counted :
      (m : SchemaMigration) (outcome : Result (Unit {0}))
      → Ensures
          (λ _. Unit)
          (after_try outcome
            (λ exc. write_migration (still_drifted (describe exc) now) m)
            λ _.
              refresh_migration_reconciliation_state provider
                (record m { reconcile_error_text = "" })
                now)
          (Counted m.reconcile_attempt_count)
  unfolding after_try
  after-Counted m (ok _) = refresh-Counted (record m { reconcile_error_text = "" })
  after-Counted m (err exc) = write_migration-Counted (still_drifted (describe exc) now) m _ refl

  recreate-Counted :
      (m : SchemaMigration) (metadata : DataNamespace × TableDefinition)
      → Ensures
          (λ _. Unit)
          (recreate provider describe m now metadata)
          (Counted m.reconcile_attempt_count)
  unfolding recreate
  recreate-Counted m metadata =
      Ensures-last _ _ (record { holds = λ s h. h }) (λ s h. h) λ outcome. after-Counted m outcome

  attempted-Counted :
      (m : SchemaMigration) (metadata : Option (DataNamespace × TableDefinition))
      → Ensures
          (λ _. Unit)
          (on_option metadata
            (write_migration
              (still_drifted "metadata entities required for reconciliation are missing" now)
              m)
            (recreate provider describe m now))
          (Counted m.reconcile_attempt_count)
  unfolding on_option
  attempted-Counted m none = write_migration-Counted _ m _ refl
  attempted-Counted m (some metadata) = recreate-Counted m metadata

  loaded-Counted :
      (m : SchemaMigration)
      → Ensures
          (λ _. Unit)
          (gets (load_metadata m) >>= λ metadata.
            on_option metadata
              (write_migration
                (still_drifted "metadata entities required for reconciliation are missing" now)
                m)
              (recreate provider describe m now))
          (Counted m.reconcile_attempt_count)
  loaded-Counted m =
      Ensures-last (gets _) _ (record { holds = λ s h. h }) (λ s h. h) (attempted-Counted m)

  attempt-Counted :
      (m : SchemaMigration)
      → Ensures
          (λ _. Unit)
          (attempt_reconciliation provider describe m now)
          (Counted (m.reconcile_attempt_count + 1))
  unfolding attempt_reconciliation
  attempt-Counted m =
      Ensures-bind _ _ (write_migration-Counted _ m (m.reconcile_attempt_count + 1) refl)
        λ x. record { returns = λ s y e r. (loaded-Counted x).returns s y tt r ∙ e }

  -- At most one more attempt, and none without budget.
  Spends : ℕ → ℕ → SchemaMigration → Session → Type 0
  Spends max_retries before m s =
      (m.reconcile_attempt_count ≡ before)
      ⊎ ((m.reconcile_attempt_count ≡ before + 1) × (before < max_retries))

  spent-Spends :
      (max_retries : ℕ) (m : SchemaMigration) (is_settled over : Bool)
      → leb max_retries m.reconcile_attempt_count ≡ over
      → Ensures
          (λ _. Unit)
          (branch is_settled (pure m) (
            branch over
              (write_migration
                (λ x. record x { reconcile_error_text = "reconciliation retry budget exhausted" })
                m)
              (attempt_reconciliation provider describe m now)))
          (Spends max_retries m.reconcile_attempt_count)
  unfolding branch Spends
  spent-Spends max_retries m true over e = Ensures-pure _ m λ s h. inl refl
  spent-Spends max_retries m false true e =
      Ensures-map _ (λ s h. h) (λ x s h. inl h) (write_migration-Counted _ m _ refl)
  spent-Spends max_retries m false false e =
      Ensures-map _ (λ s h. h) (λ x s h. inr (h, ground (arith, e))) (attempt-Counted m)

  execute-Spends :
      (max_retries : ℕ) (m : SchemaMigration)
      → Ensures
          (λ _. Unit)
          (execute_migration_reconciliation provider describe max_retries m now)
          (Spends max_retries m.reconcile_attempt_count)
  unfolding execute_migration_reconciliation Spends
  execute-Spends max_retries m = Ensures-bind _ _ (refresh-Counted m) λ x. record {
    returns = λ s y e r.
        subst (λ n. Spends max_retries n y s) e
          ((spent-Spends max_retries x _ _ refl).returns s y tt r);
  }

-- Calls of execute_migration_reconciliation that return, one after the other, each on the migration
-- that the one before returned, in any sessions.
pub data Reconciled (provider : DataProvider) (describe : Error → String) (max_retries : ℕ)
    : SchemaMigration → SchemaMigration → Type 0 where
  none_yet : {m : SchemaMigration} → Reconciled provider describe max_retries m m
  one_more :
      {m x : SchemaMigration}
      → Reconciled provider describe max_retries m x
      → (now : ℕ) (s : Session) (y : SchemaMigration)
      → (execute_migration_reconciliation provider describe max_retries x now s).0 ≡ ok y
      → Reconciled provider describe max_retries m y

within_budget :
    (budget start before after : ℕ)
    → (before ≤ max budget start) × (start ≤ before)
    → (after ≡ before) ⊎ ((after ≡ before + 1) × (before < budget))
    → (after ≤ max budget start) × (start ≤ after)
within_budget budget start before after h (inl same) =
    (omega (arith, h.0, same), omega (arith, h.1, same))
within_budget budget start before after h (inr step) =
    (omega (arith, h.0, step.0, step.1), omega (arith, h.1, step.0))

-- However often the reconciliation of a migration is executed, its attempt count never exceeds the
-- budget, or the count that it started with, where that is larger; and it never falls.
pub execute_migration_reconciliation-budget :
    (provider : DataProvider) (describe : Error → String) (max_retries : ℕ) (m y : SchemaMigration)
    → Reconciled provider describe max_retries m y
    → (y.reconcile_attempt_count ≤ max max_retries m.reconcile_attempt_count)
      × (m.reconcile_attempt_count ≤ y.reconcile_attempt_count)
unfolding Spends
execute_migration_reconciliation-budget provider describe max_retries m _ none_yet =
    (omega arith, omega arith)
execute_migration_reconciliation-budget provider describe max_retries m _
      (one_more {x} before now s y e) =
    let ih = execute_migration_reconciliation-budget provider describe max_retries m x before in
    let step = (execute-Spends provider describe now max_retries x).returns s y tt e in
    within_budget max_retries m.reconcile_attempt_count x.reconcile_attempt_count
      y.reconcile_attempt_count ih step

-- The provider with other statements for creating a namespace and a table.
abbrev pub creating :
    (DataNamespace → Exec Session Unit)
    → (DataNamespace → TableDefinition → Exec Session Unit)
    → DataProvider
    → DataProvider
creating f g provider = record provider { create_namespace = f; create_table = g }

refresh-creating :
    (f : DataNamespace → Exec Session Unit)
    (g : DataNamespace → TableDefinition → Exec Session Unit) (provider : DataProvider)
    (m : SchemaMigration) (now : ℕ)
    → refresh_migration_reconciliation_state (creating f g provider) m now
      ≡ refresh_migration_reconciliation_state provider m now
unfolding refresh_migration_reconciliation_state detect_migration_drift affected_entities
    entities_of physical_drift missing_columns
refresh-creating f g provider m now = refl

over_budget :
    (f : DataNamespace → Exec Session Unit)
    (g : DataNamespace → TableDefinition → Exec Session Unit) (provider : DataProvider)
    (describe : Error → String) (x : SchemaMigration) (now : ℕ) (is_settled over : Bool)
    (s : Session) (n : Exec Session SchemaMigration)
    → over ≡ true
    → branch is_settled
        (pure x)
        (branch over n (attempt_reconciliation (creating f g provider) describe x now))
        s
      ≡ branch is_settled
          (pure x)
          (branch over n (attempt_reconciliation provider describe x now))
          s
unfolding branch
over_budget f g provider describe x now true over s n e = refl
over_budget f g provider describe x now false true s n e = refl
over_budget f g provider describe x now false false s n e = absurd (cc)

-- With the budget spent, the reconciliation does the same whatever statements the provider has for
-- creating a namespace and a table: it sends none.
pub execute_migration_reconciliation-exhausted :
    (f : DataNamespace → Exec Session Unit)
    (g : DataNamespace → TableDefinition → Exec Session Unit) (provider : DataProvider)
    (describe : Error → String) (max_retries : ℕ) (m : SchemaMigration) (now : ℕ) (s : Session)
    → max_retries ≤ m.reconcile_attempt_count
    → execute_migration_reconciliation (creating f g provider) describe max_retries m now s
      ≡ execute_migration_reconciliation provider describe max_retries m now s
unfolding execute_migration_reconciliation
execute_migration_reconciliation-exhausted f g provider describe max_retries m now s spent =
    ap (λ x. (x >>= rest (creating f g provider)) s) (refresh-creating f g provider m now)
    ∙ bind-cong (refresh_migration_reconciliation_state provider m now) _ _ s λ x e.
      let kept = (refresh-Counted provider describe now m).returns s x tt e in
      over_budget f g provider describe x now _ _ _ _ (ground (arith, kept, spent))
  where
    rest : DataProvider → SchemaMigration → Exec Session SchemaMigration
    rest p x =
        branch (x.reconciliation_status == "in_sync" || not (x.status == MigrationStatus.applied))
          (pure x)
          (branch (leb max_retries x.reconcile_attempt_count)
            (write_migration
              (λ y. record y { reconcile_error_text = "reconciliation retry budget exhausted" }) x)
            (attempt_reconciliation p describe x now))
