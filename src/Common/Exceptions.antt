-- ===== src/Common/Exceptions.antt =====
-- Exceptions as values. The source throws three families of exceptions that its handlers tell
-- apart: `std::runtime_error`, `std::logic_error` and `fawkes::Exception`. A family carries the
-- reason, one constructor for each `throw`, in place of the formatted text.
use mathlib.Core.Path.{◌≡◌, refl}
use mathlib.Core.Logic.{◌⊎◌, inl, inr}
use mathlib.Core.Option.{Option, none, some}

pub data Result {ℓ κ} (E : Type κ) (A : Type ℓ) : Type (ℓ ⊔ κ) where
  ok : A → Result E A
  err : E → Result E A

infixl 5 ◌>>=◌ ◌>>◌
abbrev pub ◌>>=◌ {ℓ κ ι} :
    {E : Type κ} {A : Type ℓ} {B : Type ι} → Result E A → (A → Result E B) → Result E B
ok x >>= next = next x
err what >>= next = err what

abbrev pub ◌>>◌ {ℓ κ} : {E : Type κ} {B : Type ℓ} → Result E (Unit {0}) → Result E B → Result E B
m >> k = m >>= λ _. k

abbrev pub or_throw {ℓ κ} : {E : Type κ} {A : Type ℓ} → Option A → E → Result E A
or_throw none e = err e
or_throw (some a) e = ok a

-- Inversions of a chain that succeeds.
pub >>=-eq-ok {ℓ κ ι} :
    {E : Type κ} {A : Type ℓ} {B : Type ι} (first : Result E A) (next : A → Result E B) {out : B}
    → first >>= next ≡ ok out
    → (mid : A) × (first ≡ ok mid) × (next mid ≡ ok out)
>>=-eq-ok (ok mid) next e = (mid, refl, e)
>>=-eq-ok (err what) next e = cc

pub or_throw-eq-ok {ℓ κ} :
    {E : Type κ} {A : Type ℓ} (o : Option A) (e : E) {a : A} → or_throw o e ≡ ok a → o ≡ some a
or_throw-eq-ok none e h = cc
or_throw-eq-ok (some a) e h = cc

pub Result-cases {ℓ κ} :
    {E : Type κ} {A : Type ℓ} (r : Result E A) → ((a : A) × (r ≡ ok a)) ⊎ ((e : E) × (r ≡ err e))
Result-cases (ok a) = inl (a, refl)
Result-cases (err e) = inr (e, refl)
