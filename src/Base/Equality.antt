-- ===== src/Base/Equality.antt =====
-- Python's `==` as an interface, for every type whose values the program compares.
use Prim.Native.Nat.{ℕ}
use Prim.Native.String.{String}
use mathlib.Core.Path.{◌≡◌, ap, ◌∙◌}
use mathlib.Core.Logic.{◌↔◌}
use mathlib.Core.Bool.{Bool, true, false, ◌||◌}
use mathlib.Core.Option.{Option, none, some}
use mathlib.Core.List.{List, [], ◌∷◌, ◌++◌}
use native.Mathlib.Omega.{arith}
use text.Mathlib.Text.{◌==◌ as str_eq}
use text.Mathlib.TextEquality.{eq_iff}
use post_base.Base.Tests.{nat_beq, nat_beq_iff, if◌then◌else◌}

pub record Eq {ℓ} (T : Type ℓ) : Type ℓ where
  pub beq : T → T → Bool
  pub beq_iff : (x y : T) → (beq x y ≡ true) ↔ (x ≡ y)

instance abbrev pub string_eq : Eq String
string_eq = record { beq_iff = eq_iff; beq = str_eq }

instance abbrev pub nat_eq : Eq ℕ
nat_eq = record { beq_iff = nat_beq_iff; beq = nat_beq }

infix 50 ◌==◌
abbrev pub ◌==◌ {ℓ} : {T : Type ℓ} ⦃eq : Eq T⦄ → T → T → Bool
◌==◌ ⦃eq⦄ = eq.beq

module _ {ℓ} {A : Type ℓ} ⦃e : Eq A⦄ where
  abbrev pub option_beq : Option A → Option A → Bool
  option_beq none none = true
  option_beq none (some b) = false
  option_beq (some a) none = false
  option_beq (some a) (some b) = e.beq a b

  pub option_beq_iff : (a b : Option A) → (option_beq a b ≡ true) ↔ (a ≡ b)
  option_beq_iff none none = ground arith
  option_beq_iff none (some b) = ground arith
  option_beq_iff (some a) none = ground arith
  option_beq_iff (some a) (some b) = ground (arith, e.beq_iff a b)

  -- Python's `a in xs`.
  abbrev pub contains : A → List A → Bool
  contains a [] = false
  contains a (x ∷ xs) = e.beq a x || contains a xs

  pub contains-append :
      (a b : A) (xs : List A) → contains a (xs ++ b ∷ []) ≡ (contains a xs || e.beq a b)
  contains-append a b [] = ground arith
  contains-append a b (x ∷ xs) = ground (arith, contains-append a b xs)

  pub contains-append_left :
      (a b : A) (xs : List A) → contains a (xs ++ b ∷ []) ≡ false → contains a xs ≡ false
  contains-append_left a b xs h = ground (arith, contains-append a b xs, h)

  pub contains-append_kept :
      (a b : A) (xs : List A) → contains a xs ≡ true → contains a (xs ++ b ∷ []) ≡ true
  contains-append_kept a b xs h = ground (arith, contains-append a b xs, h)

  pub beq_refl : (a : A) → e.beq a a ≡ true
  beq_refl a = (e.beq_iff a a).1 (λ i. a)

-- Python's `s or d` on a string that may be None: the empty string counts as missing.
abbrev pub text_or : Option String → String → String
text_or none d = d
text_or (some s) d = if str_eq s "" then d else s

instance abbrev pub option_eq {ℓ} : {A : Type ℓ} ⦃e : Eq A⦄ → Eq (Option A)
option_eq = record { beq = option_beq; beq_iff = option_beq_iff }

pub contains-append_last {ℓ} :
    {A : Type ℓ} ⦃e : Eq A⦄ (a : A) (xs : List A) → contains a (xs ++ a ∷ []) ≡ true
contains-append_last a xs = ground (arith, contains-append a a xs, beq_refl a)

pub beq-other {ℓ} :
    {A : Type ℓ} ⦃e : Eq A⦄ (k a b : A) → e.beq a b ≡ false → e.beq k a ≡ true → e.beq k b ≡ false
beq-other ⦃e⦄ k a b h t = ap (λ x. e.beq x b) ((e.beq_iff k a).0 t) ∙ h
