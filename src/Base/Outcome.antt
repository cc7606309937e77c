-- ===== src/Base/Outcome.antt =====
-- Go's `(value, error)` pairs.
use mathlib.Core.Path.{◌≡◌, refl}
use mathlib.Core.Logic.{◌⊎◌, inl, inr}
use mathlib.Core.Option.{Option, none, some}
use mathlib.Core.Bool.{Bool, true, false}

pub data Result {ℓ} (E A : Type ℓ) : Type ℓ where
  ok : A → Result E A
  err : E → Result E A

infixl 5 ◌>>=◌ ◌>>◌
abbrev pub ◌>>=◌ {ℓ} : {E A B : Type ℓ} → Result E A → (A → Result E B) → Result E B
ok a >>= f = f a
err e >>= f = err e

abbrev pub ◌>>◌ {ℓ} : {E A B : Type ℓ} → Result E A → Result E B → Result E B
m >> k = m >>= λ _. k

-- `if test { return err }`
abbrev pub refuse {ℓ} : {E : Type ℓ} → Bool → E → Result E (Unit {ℓ})
refuse true e = err e
refuse false e = ok tt

-- A method gives back its state beside its result, on the error paths too.
abbrev pub checked : {S E A B : Type 0} → Result E A → S → (A → S × Result E B) → S × Result E B
checked (ok a) s k = k a
checked (err e) s k = (s, err e)

pub Result-cases {ℓ} :
    {E A : Type ℓ} (m : Result E A) → ((a : A) × (m ≡ ok a)) ⊎ ((e : E) × (m ≡ err e))
Result-cases (ok a) = inl (a, refl)
Result-cases (err e) = inr (e, refl)

pub Option-cases {ℓ} : {A : Type ℓ} (m : Option A) → (m ≡ none) ⊎ ((a : A) × (m ≡ some a))
Option-cases none = inl refl
Option-cases (some a) = inr (a, refl)

-- What holds before, and after the rest when the check passes, holds after.
pub checked_inv :
    {S E A B : Type 0} (P : S → Type 0) (m : Result E A) (s : S) (k : A → S × Result E B)
    → P s
    → ((a : A) → m ≡ ok a → P (k a).0)
    → P (checked m s k).0
checked_inv P (ok a) s k h step = step a refl
checked_inv P (err e) s k h step = h

-- What comes through a check passed it.
pub checked_ok :
    {S E A B : Type 0} (m : Result E A) (s : S) (k : A → S × Result E B) (b : B)
    → (checked m s k).1 ≡ ok b
    → (a : A) × (m ≡ ok a) × (checked m s k ≡ k a)
checked_ok (ok a) s k b h = (a, refl, refl)
checked_ok (err e) s k b h = cc h
