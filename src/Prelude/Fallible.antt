-- ===== src/Prelude/Fallible.antt =====
-- A result or the error that ended the run: Go's pair of a value and an `error`.
use mathlib.Core.Path.{◌≡◌, refl}
use mathlib.Core.Bool.{Bool, true, false}

pub data Except {ℓ} (E : Type 0) (A : Type ℓ) : Type ℓ where
  err : E → Except E A
  ok : A → Except E A

-- `if err != nil { return err }` between two calls.
infixl 5 ◌>>=◌ ◌>>◌
abbrev pub ◌>>=◌ {ℓ κ} :
    {E : Type 0} {A : Type ℓ} {B : Type κ} → Except E A → (A → Except E B) → Except E B
err e >>= next = err e
ok a >>= next = next a

abbrev pub ◌>>◌ {ℓ} : {E : Type 0} {B : Type ℓ} → Except E (Unit {0}) → Except E B → Except E B
first >> next = first >>= λ _. next

-- An early return: `refuse c e` ends the run with `e` if `c` holds.
abbrev pub refuse : {E : Type 0} → Bool → E → Except E (Unit {0})
refuse false e = ok tt
refuse true e = err e

-- What a chain that succeeded has been through at its first call.
pub passed {ℓ κ} :
    {E : Type 0} {A : Type ℓ} {B : Type κ} {b : B} (next : A → Except E B) (first : Except E A)
    → (first >>= next) ≡ ok b
    → (a : A) × (next a ≡ ok b) × (first ≡ ok a)
passed next (err e) h = cc
passed next (ok a) h = (a, h, refl)

pub not_refused {κ} :
    {E : Type 0} {B : Type κ} {b : B} (c : Bool) (e : E) (next : Except E B)
    → (refuse c e >> next) ≡ ok b
    → (next ≡ ok b) × (c ≡ false)
not_refused true e next h = cc
not_refused false e next h = (h, refl)
