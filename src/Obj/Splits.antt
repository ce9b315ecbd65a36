-- ===== src/Obj/Splits.antt =====
-- src/obj/splits.rs: the splits of a section, by address and, at one address, by end.
pub mod Order
use decomp_toolkit.Prelude.{
  ℕ, ◌≤◌, Bool, true, false, ◌||◌, List, [], ◌∷◌, ◌++◌, map, Option, none, some, String, str_eq,
  ◌==◌, ltb, leb, if◌then◌else◌, filter, get_last?, Result, ok, err,
}
use decomp_toolkit.Prelude.BTreeMap.{BTreeMap}
use decomp_toolkit.Prelude.BTreeMap
use decomp_toolkit.Util.Nested.{bucket}

pub record ObjSplit : Type 0 where
  pub unit : String
  pub end : ℕ
  pub align : Option ℕ
  pub common : Bool
  pub autogenerated : Bool
  pub skip : Bool
  pub rename : Option String

abbrev pub ObjSplits : Type 0
ObjSplits = BTreeMap (List ObjSplit)

-- The error of `for_unit`.
pub data SplitError : Type 0 where
  multiple_splits : SplitError

-- `flat_map(|(addr, v)| v.iter().map(move |u| (*addr, u)))`
unfoldable pub flatten : ObjSplits → List (ℕ × ObjSplit)
flatten [] = []
flatten ((address, v) ∷ m) = map (λ (s : ObjSplit). (address, s)) v ++ flatten m

unfoldable pub iter : ObjSplits → List (ℕ × ObjSplit)
unfolding flatten
iter splits = flatten splits

unfoldable pub has_split_at : ℕ → ObjSplits → Bool
has_split_at address splits = BTreeMap.contains_key address splits

-- A range of addresses is its test.
unfoldable pub for_range : (ℕ → Bool) → ObjSplits → List (ℕ × ObjSplit)
unfolding flatten BTreeMap.range
for_range inside splits = flatten (BTreeMap.range inside splits)

-- The guard of `for_address` and `at_mut`.
abbrev pub reaches : ℕ → ObjSplit → Bool
reaches address split = split.end == 0 || ltb address split.end

unfoldable pub for_address : ℕ → ObjSplits → Option (ℕ × ObjSplit)
unfolding for_range
for_address address splits = elim (get_last? (for_range (λ a. leb a address) splits)) [
  | none ↦ none
  | some (start, split) ↦ if reaches address split then some (start, split) else none
]

abbrev pub at_most_one {ℓ} : {A : Type ℓ} → List A → Result SplitError (Option A)
at_most_one [] = ok none
at_most_one (x ∷ []) = ok (some x)
at_most_one (x ∷ (y ∷ ys)) = err multiple_splits

unfoldable pub for_unit : String → ObjSplits → Result SplitError (Option (ℕ × ObjSplit))
unfolding flatten
for_unit unit splits =
    at_most_one (filter (λ (e : ℕ × ObjSplit). str_eq (e.1).unit unit) (flatten splits))

-- `sort_by_key(|s| s.end)`, which is stable.
unfoldable pub insert_by_end : ObjSplit → List ObjSplit → List ObjSplit
insert_by_end s [] = s ∷ []
insert_by_end s (t ∷ ts) = if leb s.end t.end then s ∷ (t ∷ ts) else t ∷ insert_by_end s ts

unfoldable pub sort_by_end : List ObjSplit → List ObjSplit
unfolding insert_by_end
sort_by_end [] = []
sort_by_end (s ∷ ss) = insert_by_end s (sort_by_end ss)

unfoldable pub push : ℕ → ObjSplit → ObjSplits → ObjSplits
unfolding bucket sort_by_end
push address split splits =
    BTreeMap.insert address (sort_by_end (bucket address splits ++ (split ∷ []))) splits

-- `remove` also returns the splits that it took out.
unfoldable pub remove : ℕ → ObjSplits → ObjSplits × Option (List ObjSplit)
remove address splits = (BTreeMap.remove address splits, BTreeMap.get address splits)
