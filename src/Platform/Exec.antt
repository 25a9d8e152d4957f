-- ===== src/Platform/Exec.antt =====
-- Handlers as actions: an action reads and writes a state, and returns a value or raises. A raise
-- keeps what was written before it, as Python does. The combinators are shut, so that proofs go by
-- the rules of the child module.
pub mod Rules
pub mod Ensures
use post_base.Base.{Bool, Option, false, none, some, true}
use post_base.Platform.Errors.{Error, Result, err, ok}

abbrev pub Exec {ℓ} : Type ℓ → Type ℓ → Type ℓ
Exec S A = S → Result A × S

abbrev pub continue_with {ℓ} : {S A B : Type ℓ} → Result A → S → (A → Exec S B) → Result B × S
continue_with (ok a) s f = f a s
continue_with (err e) s f = (err e, s)

infixl 5 ◌>>=◌ ◌>>◌
unfoldable pub ◌>>=◌ {ℓ} : {S A B : Type ℓ} → Exec S A → (A → Exec S B) → Exec S B
◌>>=◌ m f s = continue_with (m s).0 (m s).1 f

abbrev pub ◌>>◌ {ℓ} : {S A B : Type ℓ} → Exec S A → Exec S B → Exec S B
m >> k = m >>= λ _. k

unfoldable pub pure {ℓ} : {S A : Type ℓ} → A → Exec S A
pure a s = (ok a, s)

unfoldable pub raise {ℓ} : {S A : Type ℓ} → Error → Exec S A
raise e s = (err e, s)

-- `if not test: raise e`
unfoldable pub unless {ℓ} : {S : Type ℓ} → Bool → Error → Exec S Unit
unless true e s = (ok tt, s)
unless false e s = (err e, s)

-- `if value is None: raise e`
unfoldable pub require {ℓ} : {S A : Type ℓ} → Option A → Error → Exec S A
require none e s = (err e, s)
require (some a) e s = (ok a, s)

-- `if value is None: m`, `else: f(value)`
unfoldable pub on_option {ℓ} : {S A B : Type ℓ} → Option A → Exec S B → (A → Exec S B) → Exec S B
on_option none m f = m
on_option (some a) m f = f a

-- `if test: m`, `else: n`
unfoldable pub branch {ℓ} : {S A : Type ℓ} → Bool → Exec S A → Exec S A → Exec S A
branch true m n = m
branch false m n = n

-- Whether the block under `try` returned, or what it raised.
unfoldable pub try_block {ℓ} : {S A : Type ℓ} → Exec S A → Exec S (Result A)
try_block m s = (ok (m s).0, (m s).1)

-- `except Exception as exc: handler`, which returns, and what follows the block.
unfoldable pub after_try {ℓ} :
    {S A B : Type ℓ} → Result A → (Error → Exec S B) → (A → Exec S B) → Exec S B
after_try (ok a) handler next = next a
after_try (err e) handler next = handler e
