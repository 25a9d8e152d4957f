-- ===== src/Platform/Exec/Ensures.antt =====
-- What holds when an action returns.
use post_base.Base.{refl, subst, ◌≡◌}
use post_base.Platform.Errors.{Result, err, ok}
use post_base.Platform.Exec.{Exec, continue_with, pure, ◌>>=◌}
use post_base.Platform.Exec.Rules.{Keeps}

-- If `m` starts where `P` holds and returns `a`, then `Q a` holds.
pub record Ensures {ℓ} {S A : Type ℓ} (P : S → Type ℓ) (m : Exec S A) (Q : A → S → Type ℓ)
    : Type ℓ where
  pub returns : (s : S) (a : A) → P s → (m s).0 ≡ ok a → Q a (m s).1

module _ {ℓ} {S A : Type ℓ} where
  pub Ensures-Keeps : {I : S → Type ℓ} (m : Exec S A) → Keeps I m → Ensures I m (λ _. I)
  Ensures-Keeps m k = record { returns = λ s a h e. k.holds s h }

  pub Ensures-map :
      {P Q : S → Type ℓ} {R T : A → S → Type ℓ} (m : Exec S A)
      → ((s : S) → P s → Q s)
      → ((a : A) (s : S) → R a s → T a s)
      → Ensures Q m R
      → Ensures P m T
  Ensures-map m f g k = record { returns = λ s a h e. g a (m s).1 (k.returns s a (f s h) e) }

module _ {ℓ} {S A B : Type ℓ} where
  continue-Ensures :
      (R : A → S → Type ℓ) (Q : B → S → Type ℓ) (r : Result A) (s : S) (f : A → Exec S B)
      → ((a : A) → r ≡ ok a → R a s)
      → ((a : A) → Ensures (R a) (f a) Q)
      → (b : B) → (continue_with r s f).0 ≡ ok b
      → Q b (continue_with r s f).1
  continue-Ensures R Q (ok a) s f hr kf b e = (kf a).returns s b (hr a refl) e
  continue-Ensures R Q (err x) s f hr kf b e = absurd (cc)

  pub Ensures-bind :
      {P : S → Type ℓ} {R : A → S → Type ℓ} {Q : B → S → Type ℓ} (m : Exec S A) (f : A → Exec S B)
      → Ensures P m R
      → ((a : A) → Ensures (R a) (f a) Q)
      → Ensures P (m >>= f) Q
  unfolding ◌>>=◌
  Ensures-bind {P} {R} {Q} m f km kf = record {
    returns = λ s b h e. continue-Ensures R Q (m s).0 (m s).1 f (λ a x. km.returns s a h x) kf b e;
  }

  -- A part whose effect does not matter.
  pub Ensures-last :
      {P : S → Type ℓ} {I : S → Type ℓ} {Q : B → S → Type ℓ} (m : Exec S A) (f : A → Exec S B)
      → Keeps I m
      → ((s : S) → P s → I s)
      → ((a : A) → Ensures I (f a) Q)
      → Ensures P (m >>= f) Q
  Ensures-last {P} {I} {Q} m f km w kf =
      Ensures-bind m f (Ensures-map m w (λ a s h. h) (Ensures-Keeps m km)) kf

pub Ensures-pure {ℓ} :
    {S A : Type ℓ} {P : S → Type ℓ} (Q : A → S → Type ℓ) (a : A)
    → ((s : S) → P s → Q a s)
    → Ensures P (pure a) Q
unfolding pure
Ensures-pure Q a k = record {
  returns = λ s b h e. let same : a ≡ b = cc in subst (λ x. Q x s) same (k s h);
}
