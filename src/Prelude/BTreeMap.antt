-- ===== src/Prelude/BTreeMap.antt =====
-- `std::collections::BTreeMap<u32, V>` as an association list in ascending order of keys.
use native.Mathlib.Omega.{arith}
use mathlib.Core.Path.{◌≡◌, refl}
use Prim.Native.Nat.{ℕ, ◌<◌}
use mathlib.Core.Bool.{Bool, true, false}
use mathlib.Core.List.{List, [], ◌∷◌}
use mathlib.Core.Option.{Option, none, some}
use decomp_toolkit.Prelude.Tests.{ltb, ◌==◌, if◌then◌else◌}
use decomp_toolkit.Prelude.Lists.{All, filter}

abbrev pub BTreeMap {ℓ} : Type ℓ → Type ℓ
BTreeMap V = List (ℕ × V)

module _ {ℓ} {V : Type ℓ} where
  unfoldable pub get : ℕ → BTreeMap V → Option V
  get k [] = none
  get k ((j, v) ∷ m) = if j == k then some v else get k m

  unfoldable pub insert : ℕ → V → BTreeMap V → BTreeMap V
  insert k v [] = (k, v) ∷ []
  insert k v ((j, w) ∷ m) =
      if ltb k j
      then (k, v) ∷ ((j, w) ∷ m)
      else if j == k
      then (k, v) ∷ m
      else (j, w) ∷ insert k v m

  unfoldable pub remove : ℕ → BTreeMap V → BTreeMap V
  remove k [] = []
  remove k ((j, v) ∷ m) = if j == k then remove k m else (j, v) ∷ remove k m

  unfoldable pub contains_key : ℕ → BTreeMap V → Bool
  unfolding get
  contains_key k m = elim (get k m) [ none ↦ false | some _ ↦ true ]

  -- The entries whose keys satisfy a test, in ascending order.
  unfoldable pub range : (ℕ → Bool) → BTreeMap V → List (ℕ × V)
  range inside m = filter (λ (e : ℕ × V). inside e.0) m

  -- Strictly ascending keys.
  abbrev pub IsOrdered : BTreeMap V → Type 0
  IsOrdered [] = Unit
  IsOrdered ((j, v) ∷ m) = All (λ (e : ℕ × V). j < e.0) m × IsOrdered m

  pub get-insert :
      (k j : ℕ) (v : V) (m : BTreeMap V)
      → get j (insert k v m) ≡ (if k == j then some v else get j m)
  unfolding get insert
  get-insert k j v [] = refl
  get-insert k j v ((i, w) ∷ m) = ground (arith, get-insert k j v m)

  pub get-remove :
      (k j : ℕ) (m : BTreeMap V) → get j (remove k m) ≡ (if k == j then none else get j m)
  unfolding get remove
  get-remove k j [] = ground arith
  get-remove k j ((i, w) ∷ m) = ground (arith, get-remove k j m)

  All-insert :
      (i k : ℕ) (v : V) (m : BTreeMap V)
      → i < k
      → All (λ (e : ℕ × V). i < e.0) m
      → All (λ (e : ℕ × V). i < e.0) (insert k v m)
  unfolding insert
  All-insert i k v [] lt h = (lt, tt)
  All-insert i k v ((j, w) ∷ m) lt h = ground (arith, All-insert i k v m lt)

  All-weaken :
      (i k : ℕ) (m : BTreeMap V)
      → i < k
      → All (λ (e : ℕ × V). k < e.0) m
      → All (λ (e : ℕ × V). i < e.0) m
  All-weaken i k [] lt h = tt
  All-weaken i k ((j, w) ∷ m) lt h = (omega arith, All-weaken i k m lt h.1)

  pub insert-IsOrdered : (k : ℕ) (v : V) (m : BTreeMap V) → IsOrdered m → IsOrdered (insert k v m)
  unfolding insert
  insert-IsOrdered k v [] h = (tt, tt)
  insert-IsOrdered k v ((j, w) ∷ m) h =
      ground (arith, insert-IsOrdered k v m, All-insert j k v m, All-weaken k j m)

  All-remove :
      (i k : ℕ) (m : BTreeMap V)
      → All (λ (e : ℕ × V). i < e.0) m
      → All (λ (e : ℕ × V). i < e.0) (remove k m)
  unfolding remove
  All-remove i k [] h = tt
  All-remove i k ((j, w) ∷ m) h = ground (arith, All-remove i k m)

  pub remove-IsOrdered : (k : ℕ) (m : BTreeMap V) → IsOrdered m → IsOrdered (remove k m)
  unfolding remove
  remove-IsOrdered k [] h = tt
  remove-IsOrdered k ((j, w) ∷ m) h = ground (arith, remove-IsOrdered k m, All-remove j k m)
