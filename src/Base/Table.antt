-- ===== src/Base/Table.antt =====
-- A database table as a list of rows with numeric primary keys, in insertion order.
use Prim.Native.Nat.{ℕ, suc, ◌≤◌, ◌<◌, max}
use mathlib.Core.Path.{◌≡◌, refl, sym, ap, ◌∙◌, subst}
use mathlib.Core.Logic.{◌≢◌, inl, inr}
use mathlib.Core.Bool.{Bool, true, false}
use post_base.Base.Lists.{All}
use mathlib.Core.Option.{Option, none, some}
use mathlib.Core.List.{List, [], ◌∷◌}
use native.Mathlib.Omega.{arith}
use post_base.Base.Tests.{Bool-cases, nat_beq, nat_beq_iff, if◌then◌else◌}

-- The type of the rows of one table.
pub record Row {ℓ} (A : Type ℓ) : Type ℓ where
  pub key : A → ℕ

module _ {ℓ} {A : Type ℓ} ⦃r : Row A⦄ where
  -- `await db.get(A, id)`
  unfoldable pub get_row : ℕ → List A → Option A
  get_row id [] = none
  get_row id (x ∷ xs) = if nat_beq (r.key x) id then some x else get_row id xs

  -- An assignment to attributes of the row object with this key.
  unfoldable pub modify : ℕ → (A → A) → List A → List A
  modify id f [] = []
  modify id f (x ∷ xs) = (if nat_beq (r.key x) id then f x else x) ∷ modify id f xs

  -- The key that a flush gives to a new row.
  unfoldable pub next_key : List A → ℕ
  next_key [] = 1
  next_key (x ∷ xs) = max (suc (r.key x)) (next_key xs)

  abbrev pub Fresh : ℕ → List A → Type 0
  Fresh id [] = Unit
  Fresh id (x ∷ xs) = (r.key x < id) × Fresh id xs

  Fresh-mono : {m n : ℕ} (xs : List A) → m ≤ n → Fresh m xs → Fresh n xs
  Fresh-mono [] h f = tt
  Fresh-mono {m} {n} (x ∷ xs) h f = (omega arith, Fresh-mono xs h f.1)

  pub next_key-Fresh : (xs : List A) → Fresh (next_key xs) xs
  unfolding next_key
  next_key-Fresh [] = tt
  next_key-Fresh (x ∷ xs) = (omega arith, Fresh-mono xs (omega arith) (next_key-Fresh xs))

module _ {ℓ κ} {A : Type ℓ} ⦃r : Row A⦄ (P : A → Type κ) where
  modify-cases : (b : Bool) (x y : A) → P x → P y → P (if b then y else x)
  modify-cases true x y h k = k
  modify-cases false x y h k = h

  -- A row with this key is replaced by one that satisfies what all the rows satisfy.
  pub modify-All : (id : ℕ) (y : A) (xs : List A) → All P xs → P y → All P (modify id (λ _. y) xs)
  unfolding modify
  modify-All id y [] h k = tt
  modify-All id y (x ∷ xs) h k = (modify-cases _ x y h.0 k, modify-All id y xs h.1 k)

  -- A row that a lookup finds satisfies what all the rows satisfy.
  pub get_row-All : (id : ℕ) (xs : List A) (y : A) → All P xs → get_row id xs ≡ some y → P y
  unfolding get_row
  get_row-All id [] y h e = absurd (cc)
  get_row-All id (x ∷ xs) y h e = elim (Bool-cases (nat_beq (r.key x) id)) [
    | inl eq ↦ (let f : x ≡ y = cc in subst P f h.0)
    | inr eq ↦ get_row-All id xs y h.1 (rw eq at e)
  ]

module _ {ℓ} {A : Type ℓ} ⦃r : Row A⦄ where
  pub get_row-key : (id : ℕ) (xs : List A) (y : A) → get_row id xs ≡ some y → r.key y ≡ id
  unfolding get_row
  get_row-key id [] y e = absurd (cc)
  get_row-key id (x ∷ xs) y e =
      let ih = get_row-key id xs y in
      elim (Bool-cases (nat_beq (r.key x) id)) [
        | inl eq ↦
            (let f : some x ≡ some y = (rw eq at e) in
              let g : x ≡ y = cc in sym (ap r.key g) ∙ (nat_beq_iff (r.key x) id).0 eq)
        | inr eq ↦ ih (rw eq at e)
      ]

  -- A write to the row with one key leaves the row with another key.
  pub get_row-modify :
      (id id' : ℕ) (y : A) (xs : List A)
      → id' ≢ id
      → r.key y ≡ id'
      → get_row id (modify id' (λ _. y) xs) ≡ get_row id xs
  unfolding get_row modify
  get_row-modify id id' y [] other e = refl
  get_row-modify id id' y (x ∷ xs) other e =
      let ih = get_row-modify id id' y xs other e in ground (arith, ih, other, e)

  -- The row that was found is the one that a write to its key replaces.
  pub get_row-modified :
      (id : ℕ) (x y : A) (xs : List A)
      → get_row id xs ≡ some x
      → r.key y ≡ id
      → get_row id (modify id (λ _. y) xs) ≡ some y
  unfolding get_row modify
  get_row-modified id x y [] e k = absurd (cc)
  get_row-modified id x y (z ∷ xs) e k =
      let ih = get_row-modified id x y xs in ground (arith, ih, e, k)

module _ {ℓ} {A : Type ℓ} where
  -- `select(A).where(p)`, then `.first()`
  unfoldable pub first_where : (A → Bool) → List A → Option A
  first_where p [] = none
  first_where p (x ∷ xs) = if p x then some x else first_where p xs

  unfoldable pub count_where : (A → Bool) → List A → ℕ
  count_where p [] = 0
  count_where p (x ∷ xs) = if p x then suc (count_where p xs) else count_where p xs
