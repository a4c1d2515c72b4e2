-- ===== src/Common/Ordered.antt =====
-- A map over the native numbers keeps its keys in strictly rising order, so each occurs once.
use Prim.Native.Nat.{ℕ, ◌<◌, ◌≤◌}
use mathlib.Core.Path.{◌≡◌, refl, ◌∙◌}
use mathlib.Core.Option.{none, some}
use mathlib.Core.List.{[], ◌∷◌}
use native.Mathlib.Omega.{arith}
use at_work_central_factory.Common.Lists.{All}
use at_work_central_factory.Common.Dict.{Dict, nat_key, find, insert, erase}

module _ {ℓ} {V : Type ℓ} where
  -- Every key lies above `k`, and they rise.
  abbrev pub Above : ℕ → Dict ℕ V → Type 0
  Above k [] = Unit
  Above k ((j, v) ∷ m) = (k < j) × Above j m

  abbrev pub IsSorted : Dict ℕ V → Type 0
  IsSorted [] = Unit
  IsSorted ((j, v) ∷ m) = Above j m

  Above-le : (j k : ℕ) (m : Dict ℕ V) → j ≤ k → Above k m → Above j m
  Above-le j k [] h a = tt
  Above-le j k ((i, v) ∷ m) h a = (omega arith, a.1)

  pub Above-IsSorted : (k : ℕ) (m : Dict ℕ V) → Above k m → IsSorted m
  Above-IsSorted k [] a = tt
  Above-IsSorted k ((j, v) ∷ m) a = a.1

  pub find-Above : (j k : ℕ) (m : Dict ℕ V) → j ≤ k → Above k m → find j m ≡ none
  find-Above j k [] h a = refl
  find-Above j k ((i, v) ∷ m) h a = ground (arith, find-Above j i m)

  insert-Above : (k i : ℕ) (v : V) (m : Dict ℕ V) → k < i → Above k m → Above k (insert i v m)
  unfolding insert
  insert-Above k i v [] h a = (h, tt)
  insert-Above k i v ((j, w) ∷ m) h a = ground (arith, insert-Above j i v m)

  pub insert-IsSorted : (i : ℕ) (v : V) (m : Dict ℕ V) → IsSorted m → IsSorted (insert i v m)
  unfolding insert
  insert-IsSorted i v [] s = tt
  insert-IsSorted i v ((j, w) ∷ m) s = ground (arith, insert-Above j i v m)

  erase-Above : (k i : ℕ) (m : Dict ℕ V) → Above k m → Above k (erase i m)
  unfolding erase
  erase-Above k i [] a = tt
  erase-Above k i ((j, w) ∷ m) a =
      ground (arith, erase-Above j i m, erase-Above k i m, Above-le k j m)

  pub erase-IsSorted : (i : ℕ) (m : Dict ℕ V) → IsSorted m → IsSorted (erase i m)
  unfolding erase
  erase-IsSorted i [] s = tt
  erase-IsSorted i ((j, w) ∷ m) s =
      ground (arith, erase-Above j i m s, Above-IsSorted j (erase i m))

  -- Every entry is the one that its key finds.
  Above-entries :
      (k : ℕ) (m n : Dict ℕ V)
      → Above k m
      → ((j : ℕ) → k < j → find j n ≡ find j m)
      → All (λ e. find e.0 n ≡ some e.1) m
  Above-entries k [] n a same = tt
  Above-entries k ((j, v) ∷ m) n a same = (
    same j a.0 ∙ ground arith,
    Above-entries j m n a.1 (λ i h. same i (omega arith) ∙ ground arith),
  )

  pub IsSorted-entries : (m : Dict ℕ V) → IsSorted m → All (λ e. find e.0 m ≡ some e.1) m
  IsSorted-entries [] s = tt
  IsSorted-entries ((j, v) ∷ m) s =
      (ground arith, Above-entries j m ((j, v) ∷ m) s (λ i h. ground arith))
