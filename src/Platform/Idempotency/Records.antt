-- ===== src/Platform/Idempotency/Records.antt =====
-- The table of idempotency records: the index under a new row and under a stored response, and what a
-- lookup finds after both.
use post_base.Base.{
  Bool, Eq, Fresh, List, [], any_of, ap, arith, beq_refl, false, first_where, if◌then◌else◌, modify,
  nat_beq, nat_eq, none, not, option_eq, refl, some, string_eq, true, ℕ, ◌&&◌, ◌++◌, ◌==◌, ◌||◌,
  ◌∙◌, ◌∷◌, ◌≡◌,
}
use post_base.Domain.Enums.{
  binding_status_eq, capability_key_eq, certification_approval_state_eq,
  certification_test_status_eq, environment_stage_eq, environment_status_eq, migration_status_eq,
  policy_mode_eq, readiness_state_eq, secret_status_eq, switchover_status_eq, tenant_role_eq,
}
use post_base.Domain.Models.{
  JsonObject, audit_log_row, binding_row, binding_secret_row, capability_type_row, catalog_row,
  environment_row, project_row, secret_ref_row, tenant_member_row,
}
use post_base.Domain.PlanEnums.{phase_eq, phases_eq}
use post_base.Domain.Plans.{schema_migration_row, switchover_row}
use post_base.Events.Store.{channel_row, dead_letter_row, job_row}
use post_base.Platform.Audit.{transition_key_eq}
use post_base.Platform.Idempotency.{
  IdempotencyRecord, RequestKey, has_key, idempotency_row, key_of, keys_unique, with_response,
}

eq_sym : {A : Type 0} ⦃e : Eq A⦄ (a b : A) → (a == b) ≡ (b == a)
eq_sym ⦃e⦄ a b = ground (arith, e.beq_iff a b, e.beq_iff b a)

has_key_sym : (x y : IdempotencyRecord) → has_key (key_of x) y ≡ has_key (key_of y) x
has_key_sym x y = rw (
  eq_sym y.idempotency_key x.idempotency_key,
  eq_sym y.actor_user_id x.actor_user_id,
  eq_sym y.endpoint_fingerprint x.endpoint_fingerprint,
)

pub has_key_refl : (x : IdempotencyRecord) → has_key (key_of x) x ≡ true
has_key_refl x =
    rw (beq_refl x.idempotency_key, beq_refl x.actor_user_id, beq_refl x.endpoint_fingerprint)

module _ (status_code : ℕ) (response_json : JsonObject) (now : ℕ) where
  abbrev stored : IdempotencyRecord → IdempotencyRecord
  stored = with_response status_code response_json now

  key_of-if : (b : Bool) (x : IdempotencyRecord) → key_of (if b then stored x else x) ≡ key_of x
  key_of-if true x = refl
  key_of-if false x = refl

  has_key-if :
      (p : RequestKey) (b : Bool) (x : IdempotencyRecord)
      → has_key p (if b then stored x else x) ≡ has_key p x
  has_key-if p true x = refl
  has_key-if p false x = refl

  any-modify :
      (id : ℕ) (p : RequestKey) (xs : List IdempotencyRecord)
      → any_of (has_key p) (modify id stored xs) ≡ any_of (has_key p) xs
  unfolding any_of modify
  any-modify id p [] = refl
  any-modify id p (x ∷ xs) = λ i. has_key-if p (nat_beq x.id id) x i || any-modify id p xs i

  pub keys_unique-modify :
      (id : ℕ) (xs : List IdempotencyRecord) → keys_unique (modify id stored xs) ≡ keys_unique xs
  unfolding keys_unique modify
  keys_unique-modify id [] = refl
  keys_unique-modify id (x ∷ xs) =
      ap (λ p. not (any_of (has_key p) (modify id stored xs)) && keys_unique (modify id stored xs))
        (key_of-if (nat_beq x.id id) x)
      ∙ λ i. not (any-modify id (key_of x) xs i) && keys_unique-modify id xs i

  -- The row that was added last is found, with the response that was written to it.
  pub first_where-written :
      (p : RequestKey) (xs : List IdempotencyRecord) (y : IdempotencyRecord)
      → Fresh y.id xs
      → first_where (has_key p) xs ≡ none
      → has_key p y ≡ true
      → first_where (has_key p) (modify y.id stored (xs ++ y ∷ [])) ≡ some (stored y)
  unfolding first_where modify
  first_where-written p [] y fresh n h = ground (arith, h)
  first_where-written p (x ∷ xs) y fresh n h =
      ground (arith, first_where-written p xs y, fresh, n, h)

any-append :
    (p : RequestKey) (xs : List IdempotencyRecord) (y : IdempotencyRecord)
    → any_of (has_key p) (xs ++ y ∷ []) ≡ (any_of (has_key p) xs || has_key p y)
unfolding any_of
any-append p [] y = ground arith
any-append p (x ∷ xs) y = ground (arith, any-append p xs y)

-- A row whose key no other row has.
pub keys_unique-append :
    (xs : List IdempotencyRecord) (y : IdempotencyRecord)
    → keys_unique xs ≡ true
    → first_where (has_key (key_of y)) xs ≡ none
    → keys_unique (xs ++ y ∷ []) ≡ true
unfolding keys_unique first_where any_of
keys_unique-append [] y h n = refl
keys_unique-append (x ∷ xs) y h n =
    let ih = keys_unique-append xs y in
    ground (arith, ih, any-append (key_of x) xs y, has_key_sym x y, h, n)

any-last :
    (p : RequestKey) (xs ys : List IdempotencyRecord) (y : IdempotencyRecord)
    → has_key p y ≡ true
    → any_of (has_key p) (xs ++ (ys ++ y ∷ [])) ≡ true
unfolding any_of
any-last p [] ys y h = ground (arith, any-append p ys y, h)
any-last p (x ∷ xs) ys y h = ground (arith, any-last p xs ys y h)

-- A row whose key another row has.
pub keys_unique-clash :
    (xs ys : List IdempotencyRecord) (y : IdempotencyRecord)
    → any_of (has_key (key_of y)) xs ≡ true
    → keys_unique (xs ++ (ys ++ y ∷ [])) ≡ false
unfolding keys_unique any_of
keys_unique-clash [] ys y h = absurd (cc)
keys_unique-clash (x ∷ xs) ys y h =
    let ih = keys_unique-clash xs ys y in
    let last = any-last (key_of x) xs ys y in ground (arith, ih, last, has_key_sym x y, h)
