-- ===== src/ControlPlane/Bindings/Unique.antt =====
-- The index of active bindings under the writes of the handlers: a row that leaves or enters the
-- status `active`, and a new row.
use post_base.Base.{
  All, Bool-cases, List, [], any_of, arith, false, first_where, inl, inr, modify, nat_beq,
  nat_beq_iff, nat_eq, none, not, option_eq, refl, string_eq, subst, true, ℕ, ◌&&◌, ◌==◌, ◌∷◌, ◌≡◌,
  ◌≢◌,
}
use post_base.Domain.Enums.{
  BindingStatus, binding_status_eq, capability_key_eq, certification_approval_state_eq,
  certification_test_status_eq, environment_stage_eq, environment_status_eq, migration_status_eq,
  policy_mode_eq, readiness_state_eq, secret_status_eq, switchover_status_eq, tenant_role_eq,
}
use post_base.Domain.Models.{
  CapabilityBinding, audit_log_row, binding_row, binding_secret_row, capability_type_row,
  catalog_row, environment_row, project_row, secret_ref_row, tenant_member_row,
}
use post_base.Platform.Audit.{transition_key_eq}
use post_base.Platform.Session.{active_bindings_unique, is_active_in}

-- `f` keeps the key and the index columns, and gives the status `status`.
abbrev pub Moves : BindingStatus → (CapabilityBinding → CapabilityBinding) → Type 0
Moves status f =
    (b : CapabilityBinding)
    → ((f b).id ≡ b.id)
      × ((f b).environment_id ≡ b.environment_id)
      × ((f b).capability_type_id ≡ b.capability_type_id)
      × ((f b).status ≡ status)

-- The primary keys differ.
abbrev pub KeysDiffer : List CapabilityBinding → Type 0
KeysDiffer [] = Unit
KeysDiffer (b ∷ bs) = All (λ c. b.id ≢ c.id) bs × KeysDiffer bs

-- The row with this key belongs to this environment and capability.
abbrev pub InSlot : ℕ → ℕ → ℕ → List CapabilityBinding → Type 0
InSlot id e c = All λ b. b.id ≡ id → (b.environment_id ≡ e) × (b.capability_type_id ≡ c)

module _ (id : ℕ) (f : CapabilityBinding → CapabilityBinding) where
  module _ (status : BindingStatus) (moves : Moves status f)
      (leaves : status ≢ BindingStatus.active) where
    any_active-leave :
        (e c : ℕ) (bs : List CapabilityBinding)
        → any_of (is_active_in e c) bs ≡ false
        → any_of (is_active_in e c) (modify id f bs) ≡ false
    unfolding any_of modify is_active_in
    any_active-leave e c [] h = h
    any_active-leave e c (b ∷ bs) h = ground (arith, moves b, any_active-leave e c bs)

    pub unique-leave :
        (bs : List CapabilityBinding)
        → active_bindings_unique bs ≡ true
        → active_bindings_unique (modify id f bs) ≡ true
    unfolding modify active_bindings_unique
    unique-leave [] h = h
    unique-leave (b ∷ bs) h =
        ground (
          arith,
          moves b,
          unique-leave bs,
          any_active-leave b.environment_id b.capability_type_id bs,
        )

-- No other row of the slot is active.
abbrev pub NoRival : ℕ → ℕ → ℕ → List CapabilityBinding → Type 0
NoRival id e c bs = first_where (λ b. is_active_in e c b && not (b.id == id)) bs ≡ none

module _ (id : ℕ) (f : CapabilityBinding → CapabilityBinding) where
  modify_absent : (bs : List CapabilityBinding) → All (λ c. id ≢ c.id) bs → modify id f bs ≡ bs
  unfolding modify
  modify_absent [] h = refl
  modify_absent (b ∷ bs) h = ground (arith, h.0, modify_absent bs h.1)

module _ (id e c : ℕ) where
  any_active_alone :
      (bs : List CapabilityBinding)
      → All (λ b. id ≢ b.id) bs
      → NoRival id e c bs
      → any_of (is_active_in e c) bs ≡ false
  unfolding any_of first_where
  any_active_alone [] h k = refl
  any_active_alone (b ∷ bs) h k = ground (arith, h.0, any_active_alone bs h.1)

module _ (id e c : ℕ) (f : CapabilityBinding → CapabilityBinding) (status : BindingStatus)
    (moves : Moves status f) where
  any_active_elsewhere :
      (e' c' : ℕ) (bs : List CapabilityBinding)
      → ((e' ≡ e) × (c' ≡ c) → ⊥)
      → InSlot id e c bs
      → any_of (is_active_in e' c') bs ≡ false
      → any_of (is_active_in e' c') (modify id f bs) ≡ false
  unfolding any_of modify is_active_in
  any_active_elsewhere e' c' [] other slot h = refl
  any_active_elsewhere e' c' (b ∷ bs) other slot h =
      ground (arith, moves b, slot.0, other, any_active_elsewhere e' c' bs other slot.1)

-- The first row is the one that enters.
enter_here :
    (e c : ℕ) (f : CapabilityBinding → CapabilityBinding) (status : BindingStatus)
    (moves : Moves status f) (b : CapabilityBinding) (bs : List CapabilityBinding)
    → KeysDiffer (b ∷ bs)
    → InSlot b.id e c (b ∷ bs)
    → NoRival b.id e c (b ∷ bs)
    → active_bindings_unique (b ∷ bs) ≡ true
    → active_bindings_unique (modify b.id f (b ∷ bs)) ≡ true
unfolding modify active_bindings_unique first_where
enter_here e c f status moves b bs keys slot rival h = ground (
  arith,
  moves b,
  slot.0 refl,
  modify_absent b.id f bs keys.0,
  any_active_alone b.id e c bs keys.0,
)

-- A later row enters.
enter_later :
    (id e c : ℕ) (f : CapabilityBinding → CapabilityBinding) (status : BindingStatus)
    (moves : Moves status f) (b : CapabilityBinding) (bs : List CapabilityBinding)
    → nat_beq b.id id ≡ false
    → InSlot id e c (b ∷ bs)
    → NoRival id e c (b ∷ bs)
    → active_bindings_unique (b ∷ bs) ≡ true
    → active_bindings_unique (modify id f bs) ≡ true
    → active_bindings_unique (modify id f (b ∷ bs)) ≡ true
unfolding modify active_bindings_unique first_where is_active_in
enter_later id e c f status moves b bs other slot rival h ih =
    ground
      (arith, any_active_elsewhere id e c f status moves b.environment_id b.capability_type_id bs)

pub unique-enter :
    (id e c : ℕ) (f : CapabilityBinding → CapabilityBinding) (status : BindingStatus)
    (moves : Moves status f) (bs : List CapabilityBinding)
    → KeysDiffer bs
    → InSlot id e c bs
    → NoRival id e c bs
    → active_bindings_unique bs ≡ true
    → active_bindings_unique (modify id f bs) ≡ true
unfolding active_bindings_unique first_where modify
unique-enter id e c f status moves [] keys slot rival h = refl
unique-enter id e c f status moves (b ∷ bs) keys slot rival h =
    elim (Bool-cases (nat_beq b.id id)) [
      | inl same ↦
          subst
            (λ k.
              InSlot k e c (b ∷ bs)
              → NoRival k e c (b ∷ bs)
              → active_bindings_unique (b ∷ bs) ≡ true
              → active_bindings_unique (modify k f (b ∷ bs)) ≡ true)
            ((nat_beq_iff b.id id).0 same) (enter_here e c f status moves b bs keys) slot rival h
      | inr other ↦
          enter_later id e c f status moves b bs other slot rival h
            (unique-enter id e c f status moves bs keys.1 slot.1 (ground arith) (ground arith))
    ]
