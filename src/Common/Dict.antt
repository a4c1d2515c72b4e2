-- ===== src/Common/Dict.antt =====
-- `std::map`: an association list that an insertion keeps in the order of the keys. The key
-- type's equality and order are an interface; the laws below need the equality alone.
use Prim.Native.Nat.{ℕ}
use Prim.Native.String.{String, compare}
use text.Mathlib.Text.{is_lt}
use mathlib.Core.Path.{◌≡◌, refl}
use mathlib.Core.Logic.{◌↔◌, ◌⊎◌, inl, inr}
use mathlib.Core.Bool.{Bool, true, false}
use mathlib.Core.Option.{Option, none, some}
use mathlib.Core.List.{List, [], ◌∷◌}
use native.Mathlib.Omega.{arith}
use at_work_central_factory.Common.Tests.{
  ltb, ◌==◌, ==_iff, if◌then◌else◌, str_eq, str_eq_iff, Bool-cases,
}

pub record Key {ℓ} (K : Type ℓ) : Type ℓ where
  pub beq : K → K → Bool
  pub before : K → K → Bool
  pub beq_iff : (a b : K) → (beq a b ≡ true) ↔ (a ≡ b)

instance abbrev pub nat_key : Key ℕ
nat_key = record { beq = ◌==◌; before = ltb; beq_iff = ==_iff }

-- Texts, in the order of their characters.
instance abbrev pub string_key : Key String
string_key = record { beq = str_eq; before = λ a b. is_lt (compare a b); beq_iff = str_eq_iff }

abbrev pub Dict {ℓ κ} : Type ℓ → Type κ → Type (ℓ ⊔ κ)
Dict K V = List (K × V)

module _ {ℓ κ} {K : Type ℓ} {V : Type κ} ⦃e : Key K⦄ where
  abbrev pub find : K → Dict K V → Option V
  find k [] = none
  find k ((j, v) ∷ m) = if e.beq j k then some v else find k m

  -- `m[k] = v`
  unfoldable pub insert : K → V → Dict K V → Dict K V
  insert k v [] = (k, v) ∷ []
  insert k v ((j, w) ∷ m) =
      if e.beq j k
      then (k, v) ∷ m
      else (if e.before k j then (k, v) ∷ (j, w) ∷ m else (j, w) ∷ insert k v m)

  -- `m.erase(k)`
  unfoldable pub erase : K → Dict K V → Dict K V
  erase k [] = []
  erase k ((j, w) ∷ m) = if e.beq j k then erase k m else (j, w) ∷ erase k m

  pub find-insert :
      (k j : K) (v : V) (m : Dict K V)
      → find j (insert k v m) ≡ (if e.beq k j then some v else find j m)
  unfolding insert
  find-insert k j v [] = refl
  find-insert k j v ((i, w) ∷ m) =
      ground (arith, e.beq_iff k j, e.beq_iff i k, e.beq_iff i j, find-insert k j v m)

  pub find-erase :
      (k j : K) (m : Dict K V) → find j (erase k m) ≡ (if e.beq k j then none else find j m)
  unfolding erase
  find-erase k j [] = ground arith
  find-erase k j ((i, w) ∷ m) =
      ground (arith, e.beq_iff k j, e.beq_iff i k, e.beq_iff i j, find-erase k j m)

module _ {ℓ} {K : Type ℓ} ⦃e : Key K⦄ where
  pub beq_refl : (k : K) → e.beq k k ≡ true
  beq_refl k = (e.beq_iff k k).1 refl

-- The laws above in the forms that proofs split on.
module _ {ℓ κ} {K : Type ℓ} {V : Type κ} ⦃e : Key K⦄ where
  pub find-insert_self : (k : K) (v : V) (m : Dict K V) → find k (insert k v m) ≡ some v
  find-insert_self k v m = rw (find-insert, beq_refl k)

  pub find-insert_ne :
      (k j : K) (v : V) (m : Dict K V) → e.beq k j ≡ false → find j (insert k v m) ≡ find j m
  find-insert_ne k j v m h = rw (find-insert, h)

  pub find-erase_ne : (k j : K) (m : Dict K V) → e.beq k j ≡ false → find j (erase k m) ≡ find j m
  find-erase_ne k j m h = rw (find-erase, h)

  pub find-erase_self : (k : K) (m : Dict K V) → find k (erase k m) ≡ none
  find-erase_self k m = rw (find-erase, beq_refl k)

  pub insert_cases :
      (k j : K) (v w : V) (m : Dict K V)
      → find j (insert k v m) ≡ some w
      → ((k ≡ j) × (v ≡ w)) ⊎ ((e.beq k j ≡ false) × (find j m ≡ some w))
  insert_cases k j v w m h = elim (Bool-cases (e.beq k j)) [
    | inl t ↦ inl ((e.beq_iff k j).0 t, ground (arith, find-insert k j v m))
    | inr f ↦ inr (f, ground (arith, find-insert k j v m))
  ]

  pub erase_cases :
      (k j : K) (w : V) (m : Dict K V)
      → find j (erase k m) ≡ some w
      → (e.beq k j ≡ false) × (find j m ≡ some w)
  erase_cases k j w m h = ground (arith, find-erase k j m)
