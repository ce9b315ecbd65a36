-- ===== src/Util/Split/Updates.antt =====
-- The passes of `update_splits` of src/util/split.rs that write the splits of an object:
-- `trim_linker_generated_symbols`, `create_gap_splits` and `update_common_splits`.
pub mod Common
use decomp_toolkit.Prelude.{
  ℕ, ◌+◌, ◌^◌, Bool, true, false, List, [], ◌∷◌, ◌++◌, map, Option, none, some, ◌==◌, ltb, leb,
  if◌then◌else◌, get_elem?, set, Result, ok, err, panic, ◌>>=◌, ok_or,
}
use decomp_toolkit.Prelude.BTreeMap.{BTreeMap}
use decomp_toolkit.Obj.Addresses.{SectionAddress}
use decomp_toolkit.Obj.Splits.{ObjSplit, ObjSplits, flatten}
use decomp_toolkit.Obj.Sections.{ObjSection, ObjSections, SectionError, common_bss_start}
use decomp_toolkit.Obj.Sections
use decomp_toolkit.Obj.Symbols.Table.{ObjSymbols, Error, u32}
use decomp_toolkit.Obj.AddSplit.{put_splits, Outcome}
use decomp_toolkit.Obj.Info.{ObjInfo, add_split}
use decomp_toolkit.Util.Split.{SplitsError, no_bss, sections_error, end_for_section}
use decomp_toolkit.Util.Split.Comdat.{GapError, symbols_error, splits_error, add_error}
use decomp_toolkit.Util.Split.Gaps.{GapState, UnitName, gap_loop, gap_start}
use decomp_toolkit.Util.Split.Truncate.{resize_all}

-- `update_common_splits`

abbrev pub set_common : ObjSplit → ObjSplit
set_common split = record split { common = true }

unfoldable pub mark_common : ℕ → ObjSplits → ObjSplits
mark_common start [] = []
mark_common start ((a, v) ∷ m) =
    (a, if leb start a then map set_common v else v) ∷ mark_common start m

-- The place of the section `.bss` and an address in it.
abbrev pub bss_place :
    ℕ → Result SectionError (Option (ℕ × ObjSection)) → Result SplitsError SectionAddress
bss_place addr (ok (some (i, section))) = ok (record { section = i; address = addr })
bss_place addr (ok none) = err no_bss
bss_place addr (err e) = err (sections_error e)
bss_place addr panic = panic

abbrev pub common_place : Option ℕ → ObjSections → Result SplitsError (Option SectionAddress)
common_place (some addr) t = do place ← bss_place addr (Sections.by_name t ".bss"); ok (some place)
common_place none t = ok (common_bss_start t)

unfoldable pub mark_common_at : SectionAddress → ObjInfo → ObjInfo × Result SplitsError (Unit {0})
unfolding mark_common
mark_common_at at obj = elim (get_elem? obj.sections.sections at.section) [
  | none ↦ (obj, panic)
  | some section ↦
      let splits = mark_common at.address section.splits in
      (record obj { sections = put_splits at.section section splits obj.sections }, ok tt)
]

unfoldable pub update_common_splits : Option ℕ → ObjInfo → ObjInfo × Result SplitsError (Unit {0})
unfolding mark_common_at
update_common_splits common_start obj = elim (common_place common_start obj.sections) [
  | ok none ↦ (obj, ok tt)
  | ok (some at) ↦ mark_common_at at obj
  | err e ↦ (obj, err e)
  | panic ↦ (obj, panic)
]

-- `trim_linker_generated_symbols`

unfoldable pub cut_last_split : ℕ → List ObjSplit → List ObjSplit
cut_last_split end [] = []
cut_last_split end (s ∷ []) = (if ltb end s.end then record s { end = end } else s) ∷ []
cut_last_split end (s ∷ (t ∷ ts)) = s ∷ cut_last_split end (t ∷ ts)

abbrev pub is_none {ℓ} : {A : Type ℓ} → List A → Bool
is_none [] = true
is_none (x ∷ xs) = false

-- `iter_mut().next_back()`, with the change.
unfoldable pub cut_last : ℕ → ObjSplits → ObjSplits
unfolding cut_last_split flatten
cut_last end [] = []
cut_last end ((a, v) ∷ m) =
    let rest = cut_last end m in
    if is_none (flatten m) then (a, cut_last_split end v) ∷ m else (a, v) ∷ rest

abbrev pub trim_to : ℕ → ObjSection → ℕ → ObjInfo → ObjInfo × Result SplitsError (Unit {0})
trim_to i section end obj =
    let whole = u32 section.address + u32 section.size in
    if ltb whole (2 ^ 32)
    then if whole == end then (obj, ok tt) else (
      record obj { sections = put_splits i section (cut_last end section.splits) obj.sections },
      ok tt,
    )
    else (obj, panic)

abbrev pub Trimmed : Type 0
Trimmed = Option (ObjInfo × Result SplitsError (Unit {0}))

-- There is no result where the rounds do not suffice for the end of a section.
unfoldable pub trim_section : ℕ → ℕ → ObjSection → ObjInfo → Trimmed
unfolding cut_last
trim_section rounds i section obj = elim (end_for_section rounds obj i) [
  | none ↦ none
  | some (ok end) ↦ some (trim_to i section end obj)
  | some (err e) ↦ some (obj, err e)
  | some panic ↦ some (obj, panic)
]

abbrev pub then_trim : (ObjInfo → Trimmed) → Trimmed → Trimmed
then_trim k (some (obj, ok _)) = k obj
then_trim k (some (obj, err e)) = some (obj, err e)
then_trim k (some (obj, panic)) = some (obj, panic)
then_trim k none = none

-- No section is changed before its turn.
unfoldable pub trim_sections : ℕ → List (ℕ × ObjSection) → ObjInfo → Trimmed
unfolding trim_section
trim_sections rounds [] obj = some (obj, ok tt)
trim_sections rounds ((i, section) ∷ rest) obj =
    then_trim (trim_sections rounds rest) (trim_section rounds i section obj)

unfoldable pub trim_linker_generated_symbols : ℕ → ObjInfo → Trimmed
unfolding trim_sections
trim_linker_generated_symbols rounds obj = trim_sections rounds (Sections.iter obj.sections) obj
