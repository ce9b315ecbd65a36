-- ===== src/Util/Split/Creates.antt =====
-- `create_gap_splits` of src/util/split.rs over all sections, on the loop over one of them.
use decomp_toolkit.Prelude.{ℕ, List, [], ◌∷◌, ◌++◌, Option, none, some, Result, ok, err, panic}
use decomp_toolkit.Prelude.BTreeMap.{BTreeMap}
use decomp_toolkit.Obj.Splits.{ObjSplit}
use decomp_toolkit.Obj.Sections.{ObjSection}
use decomp_toolkit.Obj.Sections
use decomp_toolkit.Obj.Symbols.Table.{ObjSymbols, Error}
use decomp_toolkit.Obj.AddSplit.{Outcome}
use decomp_toolkit.Obj.Info.{ObjInfo, add_split}
use decomp_toolkit.Util.Split.{end_for_section}
use decomp_toolkit.Util.Split.Comdat.{GapError, symbols_error, splits_error, add_error}
use decomp_toolkit.Util.Split.Gaps.{GapState, UnitName, gap_loop, gap_start}
use decomp_toolkit.Util.Split.Truncate.{resize_all}

-- The new splits of a section, with the sizes to change so far.
unfoldable pub section_gaps :
    ℕ → UnitName → ObjInfo → ℕ → ObjSection → List (ℕ × ℕ) → Option (Result GapError GapState)
section_gaps rounds unit_name obj i section fixes = elim (end_for_section rounds obj i) [
  | none ↦ none
  | some (ok end) ↦ gap_loop rounds unit_name obj section i end (gap_start section end [] fixes)
  | some (err e) ↦ some (err (splits_error e))
  | some panic ↦ some panic
]

-- The new splits of each section, in the order of their addresses, and the sizes to change.
abbrev pub NewSplits : Type 0
NewSplits = List (ℕ × BTreeMap ObjSplit) × List (ℕ × ℕ)

unfoldable pub all_gaps :
    ℕ → UnitName → ObjInfo → List (ℕ × ObjSection) → NewSplits → Option (Result GapError NewSplits)
unfolding section_gaps
all_gaps rounds unit_name obj [] found = some (ok found)
all_gaps rounds unit_name obj ((i, section) ∷ rest) (splits, fixes) =
    elim (section_gaps rounds unit_name obj i section fixes) [
      | none ↦ none
      | some (ok s) ↦
          all_gaps rounds unit_name obj rest (splits ++ ((i, s.new_splits) ∷ []), s.size_fixes)
      | some (err e) ↦ some (err e)
      | some panic ↦ some panic
    ]

abbrev pub Created : Type 0
Created = Option (ObjInfo × Result GapError (Unit {0}))

abbrev pub then_create : (ObjInfo → Created) → Created → Created
then_create k none = none
then_create k (some (obj, ok _)) = k obj
then_create k (some (obj, err e)) = some (obj, err e)
then_create k (some (obj, panic)) = some (obj, panic)

abbrev pub created : Option (ObjInfo × Outcome) → Created
created none = none
created (some (obj, ok _)) = some (obj, ok tt)
created (some (obj, err e)) = some (obj, err (add_error e))
created (some (obj, panic)) = some (obj, panic)

unfoldable pub add_section_splits : ℕ → ℕ → BTreeMap ObjSplit → ObjInfo → Created
unfolding add_split
add_section_splits fuel i [] obj = some (obj, ok tt)
add_section_splits fuel i ((addr, split) ∷ rest) obj =
    then_create (add_section_splits fuel i rest) (created (add_split fuel i addr split obj))

unfoldable pub add_new_splits : ℕ → List (ℕ × BTreeMap ObjSplit) → ObjInfo → Created
unfolding add_section_splits
add_new_splits fuel [] obj = some (obj, ok tt)
add_new_splits fuel ((i, m) ∷ rest) obj =
    then_create (add_new_splits fuel rest) (add_section_splits fuel i m obj)

abbrev pub with_symbols :
    ObjInfo → ObjSymbols × Result Error (Unit {0}) → ObjInfo × Result GapError (Unit {0})
with_symbols obj (t, ok _) = (record obj { symbols = t }, ok tt)
with_symbols obj (t, err e) = (record obj { symbols = t }, err (symbols_error e))
with_symbols obj (t, panic) = (record obj { symbols = t }, panic)

-- The fuel is for the rounds of the loops and for each call of `add_split`.
unfoldable pub create_gap_splits : ℕ → UnitName → ObjInfo → Created
unfolding all_gaps add_new_splits
create_gap_splits fuel unit_name obj =
    elim (all_gaps fuel unit_name obj (Sections.iter obj.sections) ([], [])) [
      | none ↦ none
      | some (ok (splits, fixes)) ↦
          then_create (λ (o : ObjInfo). some (with_symbols o (resize_all fixes o.symbols)))
            (add_new_splits fuel splits obj)
      | some (err e) ↦ some (obj, err e)
      | some panic ↦ some (obj, panic)
    ]
