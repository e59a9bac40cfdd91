-- ===== src/Prelude/Results.antt =====
-- Fallible code: a result with an error type, `require!`, and `ok_or`.
use mathlib.Core.Path.{◌≡◌, refl}
use mathlib.Core.Bool.{Bool, true, false}
use mathlib.Core.Option.{Option, none, some}

pub data Result (E A : Type 0) : Type 0 where
  ok : A → Result E A
  err : E → Result E A

infixl 5 ◌>>=◌ ◌>>◌
abbrev pub ◌>>=◌ : {E A B : Type 0} → Result E A → (A → Result E B) → Result E B
ok a >>= f = f a
err e >>= f = err e

abbrev pub ◌>>◌ : {E B : Type 0} → Result E (Unit {0}) → Result E B → Result E B
m >> k = m >>= λ _. k

-- `require!(test, error)`.
abbrev pub require : {E : Type 0} → Bool → E → Result E (Unit {0})
require true e = ok tt
require false e = err e

-- `option.ok_or(error)?`.
abbrev pub ok_or : {E A : Type 0} → Option A → E → Result E A
ok_or none e = err e
ok_or (some a) e = ok a

-- A transaction that fails leaves the state as it was: the runtime reverts every write.
abbrev pub commit : {E S : Type 0} → S → Result E S → S
commit s (ok t) = t
commit s (err e) = s

-- Inversion of a chain that ended in `ok`, step by step, as continuations: each step's value and
-- equation are then variables.
module _ {ℓ} {E A : Type 0} {C : Type ℓ} where
  pub bind_ok :
      {B : Type 0} (m : Result E A) (f : A → Result E B) {b : B}
      → (m >>= f) ≡ ok b
      → ((a : A) → m ≡ ok a → f a ≡ ok b → C)
      → C
  bind_ok (ok a) f h k = k a refl h
  bind_ok (err e) f h k = absurd (cc)

  pub ok_or_ok :
      {B : Type 0} (o : Option A) (e : E) (f : A → Result E B) {b : B}
      → (ok_or o e >>= f) ≡ ok b
      → ((a : A) → o ≡ some a → f a ≡ ok b → C)
      → C
  ok_or_ok (some a) e f h k = k a refl h
  ok_or_ok none e f h k = absurd (cc)

  pub require_ok :
      (t : Bool) (e : E) (m : Result E A) {b : A}
      → (require t e >> m) ≡ ok b
      → (t ≡ true → m ≡ ok b → C)
      → C
  require_ok true e m h k = k refl h
  require_ok false e m h k = absurd (cc)

-- A result that is known to be `ok`, with its value.
abbrev pub Succeeds : {E A : Type 0} → Result E A → Type 0
Succeeds (ok a) = Unit
Succeeds (err e) = ⊥

pub Succeeds-value : {E A : Type 0} (r : Result E A) → Succeeds r → (a : A) × (r ≡ ok a)
Succeeds-value (ok a) s = (a, refl)
Succeeds-value (err e) s = absurd s

-- A statement about a guarded result, on either outcome of the guard.
pub require_split {ℓ} :
    {E A : Type 0} (C : Result E A → Type ℓ) (t : Bool) (e : E) (m : Result E A)
    → (t ≡ true → C m)
    → (t ≡ false → C (err e))
    → C (require t e >> m)
require_split C true e m passed failed = passed refl
require_split C false e m passed failed = failed refl
