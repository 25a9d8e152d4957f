-- ===== src/Domain/PlanEnums.antt =====
-- The phases of a switchover: the strings that service.py writes to the entries `phase` and
-- `completed_phases` of a plan's state, among them those of SWITCHOVER_PHASE_ORDER.
use post_base.Base.{Bool, Eq, List, String, [], arith, false, nat_beq, true, ℕ, ◌&&◌, ◌↔◌, ◌∷◌, ◌≡◌}

pub data Phase : Type 0 where
  preflight stage_target canary validate_cutover retire_old_binding completed : Phase
  rollback_complete manual_rollback_complete : Phase

abbrev phase_rank : Phase → ℕ
phase_rank Phase.preflight = 0
phase_rank Phase.stage_target = 1
phase_rank Phase.canary = 2
phase_rank Phase.validate_cutover = 3
phase_rank Phase.retire_old_binding = 4
phase_rank Phase.completed = 5
phase_rank Phase.rollback_complete = 6
phase_rank Phase.manual_rollback_complete = 7

abbrev phase_beq : Phase → Phase → Bool
phase_beq p q = nat_beq (phase_rank p) (phase_rank q)

pub phase_beq_iff : (p q : Phase) → (phase_beq p q ≡ true) ↔ (p ≡ q)
phase_beq_iff p q = ground arith

instance abbrev pub phase_eq : Eq Phase
phase_eq = record { beq = phase_beq; beq_iff = phase_beq_iff }

-- `SWITCHOVER_PHASE_ORDER[:-1]`
abbrev pub executed_phases : List Phase
executed_phases =
    Phase.preflight ∷ Phase.stage_target ∷ Phase.canary ∷ Phase.validate_cutover
    ∷ Phase.retire_old_binding ∷ []

abbrev pub phase_value : Phase → String
phase_value Phase.preflight = "preflight"
phase_value Phase.stage_target = "stage_target"
phase_value Phase.canary = "canary"
phase_value Phase.validate_cutover = "validate_cutover"
phase_value Phase.retire_old_binding = "retire_old_binding"
phase_value Phase.completed = "completed"
phase_value Phase.rollback_complete = "rollback_complete"
phase_value Phase.manual_rollback_complete = "manual_rollback_complete"

abbrev phases_beq : List Phase → List Phase → Bool
phases_beq [] [] = true
phases_beq (p ∷ ps) (q ∷ qs) = phase_beq p q && phases_beq ps qs
phases_beq _ _ = false

pub phases_beq_iff : (ps qs : List Phase) → (phases_beq ps qs ≡ true) ↔ (ps ≡ qs)
phases_beq_iff [] [] = ground arith
phases_beq_iff [] (q ∷ qs) = ground arith
phases_beq_iff (p ∷ ps) [] = ground arith
phases_beq_iff (p ∷ ps) (q ∷ qs) = ground (arith, phases_beq_iff ps qs, phase_beq_iff p q)

instance abbrev pub phases_eq : Eq (List Phase)
phases_eq = record { beq = phases_beq; beq_iff = phases_beq_iff }
