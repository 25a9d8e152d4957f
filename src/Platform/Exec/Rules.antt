-- ===== src/Platform/Exec/Rules.antt =====
-- What an action keeps, by one rule for each way to build an action.
use post_base.Base.{Bool, Option, ap, false, none, refl, some, true, ◌≡◌}
use post_base.Platform.Errors.{Error, Result, err, ok}
use post_base.Platform.Exec.{
  Exec, branch, continue_with, on_option, pure, raise, require, unless, ◌>>=◌,
}
use post_base.ControlPlane.Switchovers.Cutover.{reads}

-- Whether it returns or raises, `m` keeps `I`.
pub record Keeps {ℓ} {S A : Type ℓ} (I : S → Type ℓ) (m : Exec S A) : Type ℓ where
  pub holds : (s : S) → I s → I (m s).1

-- If it raises, `m` keeps `I`.
pub record KeepsOnError {ℓ} {S A : Type ℓ} (I : S → Type ℓ) (m : Exec S A) : Type ℓ where
  pub on_error : (s : S) (e : Error) → I s → (m s).0 ≡ err e → I (m s).1

-- `m` returns.
pub record Returns {ℓ} {S A : Type ℓ} (m : Exec S A) : Type ℓ where
  pub value : (s : S) → (a : A) × ((m s).0 ≡ ok a)

module _ {ℓ} {S A : Type ℓ} {I : S → Type ℓ} where
  pub Keeps-pure : (a : A) → Keeps I (pure {S = S} a)
  unfolding pure
  Keeps-pure a = record { holds = λ s h. h }

  pub Keeps-raise : (e : Error) → Keeps I (raise {S = S} {A = A} e)
  unfolding raise
  Keeps-raise e = record { holds = λ s h. h }

  pub Keeps-require : (o : Option A) (e : Error) → Keeps I (require {S = S} o e)
  unfolding require
  Keeps-require none e = record { holds = λ s h. h }
  Keeps-require (some a) e = record { holds = λ s h. h }

  pub Keeps-branch : (b : Bool) (m n : Exec S A) → Keeps I m → Keeps I n → Keeps I (branch b m n)
  unfolding branch
  Keeps-branch true m n km kn = km
  Keeps-branch false m n km kn = kn

  pub KeepsOnError-Keeps : {m : Exec S A} → Keeps I m → KeepsOnError I m
  KeepsOnError-Keeps k = record { on_error = λ s e h _. k.holds s h }

  pub KeepsOnError-Returns : {m : Exec S A} → Returns m → KeepsOnError I m
  KeepsOnError-Returns {m} r = record { on_error = λ s e h raised. cc ((r.value s).1, raised) }

  pub KeepsOnError-branch :
      (b : Bool) (m n : Exec S A)
      → KeepsOnError I m
      → KeepsOnError I n
      → KeepsOnError I (branch b m n)
  unfolding branch
  KeepsOnError-branch true m n km kn = km
  KeepsOnError-branch false m n km kn = kn

pub Keeps-unless {ℓ} :
    {S : Type ℓ} {I : S → Type ℓ} (b : Bool) (e : Error) → Keeps I (unless {S = S} b e)
unfolding unless
Keeps-unless true e = record { holds = λ s h. h }
Keeps-unless false e = record { holds = λ s h. h }

module _ {ℓ} {S A B : Type ℓ} {I : S → Type ℓ} where
  continue-Keeps :
      (r : Result A) (s : S) (f : A → Exec S B)
      → ((a : A) → Keeps I (f a))
      → I s
      → I (continue_with r s f).1
  continue-Keeps (ok a) s f kf h = (kf a).holds s h
  continue-Keeps (err e) s f kf h = h

  continue-KeepsOnError :
      (r : Result A) (s : S) (f : A → Exec S B)
      → ((a : A) → KeepsOnError I (f a))
      → I s
      → (e : Error) → (continue_with r s f).0 ≡ err e
      → I (continue_with r s f).1
  continue-KeepsOnError (ok a) s f kf h e raised = (kf a).on_error s e h raised
  continue-KeepsOnError (err x) s f kf h e raised = h

  pub Keeps-bind :
      (m : Exec S A) (f : A → Exec S B) → Keeps I m → ((a : A) → Keeps I (f a)) → Keeps I (m >>= f)
  unfolding ◌>>=◌
  Keeps-bind m f km kf = record {
    holds = λ s h. continue-Keeps (m s).0 (m s).1 f kf (km.holds s h);
  }

  pub KeepsOnError-bind :
      (m : Exec S A) (f : A → Exec S B)
      → Keeps I m
      → ((a : A) → KeepsOnError I (f a))
      → KeepsOnError I (m >>= f)
  unfolding ◌>>=◌
  KeepsOnError-bind m f km kf = record {
    on_error = λ s e h raised. continue-KeepsOnError (m s).0 (m s).1 f kf (km.holds s h) e raised;
  }

  pub Keeps-on_option :
      (o : Option A) (m : Exec S B) (f : A → Exec S B)
      → Keeps I m
      → ((a : A) → Keeps I (f a))
      → Keeps I (on_option o m f)
  unfolding on_option
  Keeps-on_option none m f km kf = km
  Keeps-on_option (some a) m f km kf = kf a

pub ruleset keeps_rules = (
  Keeps-pure, Keeps-raise, Keeps-require, Keeps-branch, Keeps-unless, Keeps-bind, Keeps-on_option,
)

module _ {ℓ} {S A B : Type ℓ} where
  abbrev ContinuesOn : (I : S → Type ℓ) → Result A → S → (A → Exec S B) → Type ℓ
  ContinuesOn I r s f = (e : Error) → (continue_with r s f).0 ≡ err e → I (continue_with r s f).1

  continue-last :
      (I : S → Type ℓ) (r : Result A) (s : S) (f : A → Exec S B)
      → ((a : A) → Returns (f a))
      → ((e : Error) → r ≡ err e → I s)
      → ContinuesOn I r s f
  continue-last I (ok a) s f rf kr e raised = cc (((rf a).value s).1, raised)
  continue-last I (err x) s f rf kr e raised = kr x refl

  -- An action that can raise only in its first part, which keeps `I` when it raises.
  pub KeepsOnError-last :
      (I : S → Type ℓ) (m : Exec S A) (f : A → Exec S B)
      → KeepsOnError I m
      → ((a : A) → Returns (f a))
      → KeepsOnError I (m >>= f)
  unfolding ◌>>=◌
  KeepsOnError-last I m f km rf = record {
    on_error = λ s e h raised.
        continue-last I (m s).0 (m s).1 f rf (λ x raised_x. km.on_error s x h raised_x) e raised;
  }

  continue-Returns :
      (r : Result A) (s : S) (f : A → Exec S B) (a : A)
      → r ≡ ok a
      → ((a : A) → Returns (f a))
      → (b : B) × ((continue_with r s f).0 ≡ ok b)
  continue-Returns (ok x) s f a e rf = (rf x).value s
  continue-Returns (err x) s f a e rf = cc

  pub Returns-bind :
      (m : Exec S A) (f : A → Exec S B) → Returns m → ((a : A) → Returns (f a)) → Returns (m >>= f)
  unfolding ◌>>=◌
  Returns-bind m f rm rf = record {
    value = λ s. continue-Returns (m s).0 (m s).1 f ((rm.value s).0) ((rm.value s).1) rf;
  }

pub Returns-pure {ℓ} : {S A : Type ℓ} (a : A) → Returns (pure {S = S} a)
unfolding pure
Returns-pure a = record { value = λ s. (a, refl) }

-- The next action goes on from where the first one returned or raised.
pub bind-eq {ℓ} :
    {S A B : Type ℓ} (m : Exec S A) (f : A → Exec S B) {s s' : S} {a : A}
    → m s ≡ (ok a, s')
    → (m >>= f) s ≡ f a s'
unfolding ◌>>=◌
bind-eq m f {s} {s'} {a} h = ap (λ (r : Result _ × _). continue_with r.0 r.1 f) h

pub bind-err {ℓ} :
    {S A B : Type ℓ} (m : Exec S A) (f : A → Exec S B) {s s' : S} {e : Error}
    → m s ≡ (err e, s')
    → (m >>= f) s ≡ (err e, s')
unfolding ◌>>=◌
bind-err m f h = ap (λ (r : Result _ × _). continue_with r.0 r.1 f) h

-- `m` changes nothing.
pub record Reads {ℓ} {S A : Type ℓ} (m : Exec S A) : Type ℓ where
  pub same : (s : S) → (m s).1 ≡ s

pub Reads-Keeps {ℓ} : {S A : Type ℓ} (m : Exec S A) → ((I : S → Type ℓ) → Keeps I m) → Reads m
Reads-Keeps m k = record { same = λ s. (k (λ t. t ≡ s)).holds s refl }

pub Reads-ok {ℓ} :
    {S A : Type ℓ} (m : Exec S A) (s : S) {a : A} → Reads m → (m s).0 ≡ ok a → m s ≡ (ok a, s)
Reads-ok m s reads h = λ i. (h i, reads.same s i)

pub bind_assoc {ℓ} :
    {S A B C : Type ℓ} (m : Exec S A) (f : A → Exec S B) (g : B → Exec S C) (s : S)
    → ((m >>= f) >>= g) s ≡ (m >>= λ a. f a >>= g) s
unfolding ◌>>=◌
bind_assoc {S} {A} {B} {C} m f g s = go (m s).0 (m s).1
  where
    go :
        (r : Result A) (s' : S)
        → continue_with (continue_with r s' f).0 (continue_with r s' f).1 g
          ≡ continue_with r s' (λ a t. continue_with (f a t).0 (f a t).1 g)
    go (ok a) s' = refl
    go (err e) s' = refl

-- A bound action that returns, where the first part only reads.
pub Reads-eq-ok {ℓ} :
    {S A B : Type ℓ} (m : Exec S A) (f : A → Exec S B) (s : S) {b : B}
    → Reads m
    → ((m >>= f) s).0 ≡ ok b
    → (a : A) × (m s ≡ (ok a, s)) × ((f a s).0 ≡ ok b)
unfolding ◌>>=◌
Reads-eq-ok {S} {A} {B} m f s {b} reads h = go (m s).0 (m s).1 (reads.same s) h
  where
    go :
        (r : Result A) (s' : S)
        → s' ≡ s
        → (continue_with r s' f).0 ≡ ok b
        → (a : A) × (◌≡◌ {A = Result A × S} (r, s') (ok a, s)) × ((f a s).0 ≡ ok b)
    go (ok a) s' e k = (a, rw e, rw e at k)
    go (err x) s' e k = cc

-- Two continuations that agree on what the first part returns.
pub bind-cong {ℓ} :
    {S A B : Type ℓ} (m : Exec S A) (f g : A → Exec S B) (s : S)
    → ((a : A) → (m s).0 ≡ ok a → f a (m s).1 ≡ g a (m s).1)
    → (m >>= f) s ≡ (m >>= g) s
unfolding ◌>>=◌
bind-cong {S} {A} {B} m f g s h = go (m s).0 (m s).1 h
  where
    go :
        (r : Result A) (s' : S)
        → ((a : A) → r ≡ ok a → f a s' ≡ g a s')
        → continue_with r s' f ≡ continue_with r s' g
    go (ok a) s' k = k a refl
    go (err e) s' k = refl
