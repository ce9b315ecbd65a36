-- ===== src/Util/Nested.antt =====
-- src/util/nested.rs: maps from a key to a vector. `bucket` reads the vector of a key, empty where
-- the map has no entry, as its callers do.
use decomp_toolkit.Prelude.{
  ℕ, ◌≡◌, not, List, [], ◌∷◌, ◌++◌, Option, none, some, String, arith, ◌==◌, str_eq, eq_iff,
  if◌then◌else◌, filter,
}
use decomp_toolkit.Prelude.BTreeMap.{BTreeMap}
use decomp_toolkit.Prelude.BTreeMap
use decomp_toolkit.Prelude.HashMap.{HashMap}
use decomp_toolkit.Prelude.HashMap

abbrev pub or_default {ℓ} : {A : Type ℓ} → Option (List A) → List A
or_default none = []
or_default (some v) = v

module _ {ℓ} {A : Type ℓ} where
  unfoldable pub bucket : ℕ → BTreeMap (List A) → List A
  bucket k m = or_default (BTreeMap.get k m)

  -- `entry(v1).or_default().push(v2)` on a `BTreeMap`
  unfoldable pub nested_push : ℕ → A → BTreeMap (List A) → BTreeMap (List A)
  unfolding bucket
  nested_push k v m = BTreeMap.insert k (bucket k m ++ (v ∷ [])) m

  pub bucket-nested_push :
      (k j : ℕ) (v : A) (m : BTreeMap (List A))
      → bucket j (nested_push k v m) ≡ (if k == j then bucket k m ++ (v ∷ []) else bucket j m)
  unfolding nested_push bucket
  bucket-nested_push k j v m =
      ground (arith, BTreeMap.get-insert k j (or_default (BTreeMap.get k m) ++ (v ∷ [])) m)

  pub bucket-nested_push_self :
      (k : ℕ) (v : A) (m : BTreeMap (List A))
      → bucket k (nested_push k v m) ≡ bucket k m ++ (v ∷ [])
  bucket-nested_push_self k v m = ground (arith, bucket-nested_push k k v m)

  -- the same on a `HashMap` keyed by names
  unfoldable pub name_bucket : String → HashMap (List A) → List A
  name_bucket k m = or_default (HashMap.get k m)

  unfoldable pub name_push : String → A → HashMap (List A) → HashMap (List A)
  unfolding name_bucket
  name_push k v m = HashMap.insert k (name_bucket k m ++ (v ∷ [])) m

  pub name_bucket-name_push :
      (k j : String) (v : A) (m : HashMap (List A))
      → name_bucket j (name_push k v m)
        ≡ (if str_eq k j then name_bucket k m ++ (v ∷ []) else name_bucket j m)
  unfolding name_push name_bucket
  name_bucket-name_push k j v m =
      ground (arith, HashMap.get-insert k j (or_default (HashMap.get k m) ++ (v ∷ [])) m)

-- `retain(|n| n != v2)` on the vector of a key that is present
unfoldable pub name_remove : String → ℕ → HashMap (List ℕ) → HashMap (List ℕ)
name_remove k v m = elim (HashMap.get k m) [
  | none ↦ m
  | some vec ↦ HashMap.insert k (filter (λ n. not (n == v)) vec) m
]

pub name_bucket-name_remove :
    (k j : String) (v : ℕ) (m : HashMap (List ℕ))
    → name_bucket j (name_remove k v m)
      ≡ (if str_eq k j then filter (λ n. not (n == v)) (name_bucket k m) else name_bucket j m)
unfolding name_remove name_bucket
name_bucket-name_remove k j v m = ground (
  arith,
  HashMap.get-insert k j (filter (λ n. not (n == v)) (or_default (HashMap.get k m))) m,
  eq_iff k j,
)
