-- ===== src/ControlPlane/Switchovers/Checkpoints.antt =====
-- What the loop over the canary's checkpoints returns.
use post_base.Base.{
  All, Bool, List, [], ap, arith, false, if◌then◌else◌, length, ltb, min, not, refl, subst, suc,
  true, zero, ℕ, ◌&&◌, ◌∷◌, ◌≡◌,
}
use post_base.ControlPlane.Switchovers.Cutover.{Cutover}
use post_base.Domain.Plans.{Checkpoint, SwitchoverPlan}
use post_base.Platform.Audit.{Request}
use post_base.Platform.Errors.{ok}
use post_base.Platform.Exec.{branch, pure, ◌>>=◌}
use post_base.Platform.Exec.Ensures.{Ensures, Ensures-bind, Ensures-last}
use post_base.ControlPlane.Switchovers.Canary.{evaluate_checkpoints, new_checkpoint}

-- The rate is over the threshold: one checkpoint at most, and the loop aborts. It is not: all of them.
record Evaluates (over : Bool) (remaining : ℕ) (outcome : List Checkpoint × Bool) : Type 0 where
  aborted : outcome.1 ≡ (over && ltb 0 remaining)
  count : length outcome.0 ≡ (if over then min 1 remaining else remaining)
  healthy : All (λ x. x.healthy ≡ not over) outcome.0

returned : {S A : Type 0} (P : A → Type 0) (a b : A) (s : S) → (pure a s).0 ≡ ok b → P a → P b
unfolding pure
returned P a b s e h = let eq : a ≡ b = cc in subst P eq h

module _ (r : Request) (p : SwitchoverPlan) (rate : ℕ) where
  checkpoint_healthy :
      (n : ℕ) (over : Bool)
      → ltb p.execution_state.canary.auto_abort_error_rate rate ≡ over
      → (new_checkpoint p rate n).healthy ≡ not over
  checkpoint_healthy n true h = ground (arith, h)
  checkpoint_healthy n false h = ground (arith, h)

  one_more :
      (remaining n : ℕ) (over : Bool)
      → ltb p.execution_state.canary.auto_abort_error_rate rate ≡ over
      → Ensures
          (λ _. Unit)
          (evaluate_checkpoints r p rate remaining (suc n))
          (λ o _. Evaluates over remaining o)
      → Ensures
          (λ _. Unit)
          (branch over (pure (new_checkpoint p rate n ∷ [], true)) (
            evaluate_checkpoints r p rate remaining (suc n) >>= λ rest.
            pure (new_checkpoint p rate n ∷ rest.0, rest.1)))
          (λ o _. Evaluates over (suc remaining) o)
  unfolding branch
  one_more remaining n true h ih = record {
    returns = λ c o _ e. returned (Evaluates true (suc remaining)) _ o c e (record {
      aborted = ground arith;
      count = ground arith;
      healthy = (checkpoint_healthy n true h, tt);
    });
  }
  one_more remaining n false h ih = Ensures-bind _ _ ih λ rest. record {
    returns = λ c o k e. returned (Evaluates false (suc remaining)) _ o c e (record {
      aborted = k.aborted;
      count = ap suc k.count;
      healthy = (checkpoint_healthy n false h, k.healthy);
    });
  }

  evaluate-Evaluates :
      (remaining n : ℕ)
      → Ensures
          (λ _. Unit)
          (evaluate_checkpoints r p rate remaining n)
          (λ o _. Evaluates (ltb p.execution_state.canary.auto_abort_error_rate rate) remaining o)
  unfolding evaluate_checkpoints
  evaluate-Evaluates zero n = record {
    returns = λ c o _ e.
        returned (Evaluates (ltb p.execution_state.canary.auto_abort_error_rate rate) 0) _ o c e
          (record { aborted = ground arith; count = ground arith; healthy = tt });
  }
  evaluate-Evaluates (suc remaining) n =
      Ensures-last _ _ (record { holds = λ c h. h }) (λ c h. h)
        λ _.
          one_more remaining n (ltb p.execution_state.canary.auto_abort_error_rate rate) refl
            (evaluate-Evaluates remaining (suc n))

-- The canary's loop, where it returns: with a rate over the threshold it aborts at the first
-- checkpoint, if there is one; otherwise it evaluates every checkpoint and does not abort. A
-- checkpoint is recorded as healthy exactly if the rate is not over the threshold.
pub evaluate_checkpoints-outcome :
    (r : Request) (p : SwitchoverPlan) (rate count : ℕ) (c : Cutover)
    (outcome : List Checkpoint × Bool)
    → (evaluate_checkpoints r p rate count 1 c).0 ≡ ok outcome
    → let over = ltb p.execution_state.canary.auto_abort_error_rate rate in
      (outcome.1 ≡ (over && ltb 0 count))
      × (length outcome.0 ≡ (if over then min 1 count else count))
      × All (λ x. x.healthy ≡ not over) outcome.0
evaluate_checkpoints-outcome r p rate count c outcome e =
    let k = (evaluate-Evaluates r p rate count 1).returns c outcome tt e in
    (k.aborted, k.count, k.healthy)
