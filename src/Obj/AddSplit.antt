-- ===== src/Obj/AddSplit.antt =====
-- `ObjInfo::add_split` of src/obj/mod.rs, on the sections of the object, which are all that it
-- reads and writes. It calls itself again with the extended split; the calls are counted by fuel,
-- and `none` means that the fuel ran out.
pub mod Entries
pub mod Overlaps
pub mod Steps
pub mod Returns
pub mod Keeps
pub mod Covers
pub mod Endless
use decomp_toolkit.Prelude.{
  ℕ, zero, suc, ◌+◌, ◌%◌, ◌^◌, min, max, Bool, true, false, not, ◌&&◌, ◌||◌, List, [], ◌∷◌, map,
  Option, none, some, String, str_eq, ◌==◌, ltb, leb, if◌then◌else◌, get_elem?, set, Result, ok,
  err, panic, ◌>>=◌, guard,
}
use decomp_toolkit.Obj.Splits.{ObjSplit, ObjSplits, for_range, for_unit}
use decomp_toolkit.Obj.Splits
use decomp_toolkit.Obj.Sections.{ObjSection, ObjSections}

pub data SplitError : Type 0 where
  invalid_section outside_section multiple_splits : SplitError
  conflicting_alignment conflicting_common overlapping_split : SplitError

-- The outcome of `add_split`.
abbrev pub Outcome : Type 0
Outcome = Result SplitError (Unit {0})

abbrev pub eq_bool : Bool → Bool → Bool
eq_bool true b = b
eq_bool false b = not b

-- `new_align`, from the alignments of the new split and the existing one.
unfoldable pub merged_align : Option ℕ → Option ℕ → Result SplitError (Option ℕ)
merged_align none b = ok b
merged_align (some a) none = ok (some a)
merged_align (some a) (some b) = if a == b then ok (some a) else err conflicting_alignment

-- What the loop over the splits in the new range comes to: it returns early, it fails, or it has
-- the addresses to remove and the units to rename. The two sets are the lists of their insertions;
-- neither removing nor renaming depends on their order or on repetitions.
pub data Overlap : Type 0 where
  manual : Overlap
  conflict : Overlap
  replaced : List ℕ → List String → Overlap

abbrev pub note : ℕ → Bool → String → Overlap → Overlap
note address same_unit unit manual = manual
note address same_unit unit conflict = conflict
note address same_unit unit (replaced to_remove to_rename) =
    replaced (address ∷ to_remove) (if same_unit then to_rename else unit ∷ to_rename)

unfoldable pub overlap : ObjSplit → List (ℕ × ObjSplit) → Overlap
overlap split [] = replaced [] []
overlap split ((existing_addr, existing) ∷ rest) =
    let following = overlap split rest in
    if split.autogenerated && not existing.autogenerated
    then manual
    else if existing.autogenerated || str_eq existing.unit split.unit
    then note existing_addr (str_eq existing.unit split.unit) existing.unit following
    else conflict

unfoldable pub remove_all : List ℕ → ObjSplits → ObjSplits
unfolding Splits.remove
remove_all [] splits = splits
remove_all (address ∷ rest) splits = remove_all rest (Splits.remove address splits).0

unfoldable pub rename_split : String → String → ObjSplit → ObjSplit
rename_split old new split = if str_eq split.unit old then record split { unit = new } else split

unfoldable pub rename_splits : String → String → ObjSplits → ObjSplits
rename_splits old new [] = []
rename_splits old new ((address, v) ∷ m) =
    (address, map (rename_split old new) v) ∷ rename_splits old new m

unfoldable pub rename_sections : String → String → List ObjSection → List ObjSection
rename_sections old new [] = []
rename_sections old new (s ∷ ss) =
    record s { splits = rename_splits old new s.splits } ∷ rename_sections old new ss

unfoldable pub rename_all : List String → String → List ObjSection → List ObjSection
rename_all [] new ss = ss
rename_all (unit ∷ rest) new ss = rename_all rest new (rename_sections unit new ss)

-- One call: it returns, or it calls itself with a new address and split.
pub data Step : Type 0 where
  done : ObjSections → Outcome → Step
  again : ObjSections → ℕ → ObjSplit → Step

abbrev pub put_splits : ℕ → ObjSection → ObjSplits → ObjSections → ObjSections
put_splits index s splits t = record t {
  sections = set t.sections index (record s { splits = splits });
}

-- The split that the call is repeated with.
unfoldable pub extended : ObjSplit → ObjSplit → Option ℕ → ObjSplit
extended split existing align = record {
  unit = split.unit;
  end = max existing.end split.end;
  align = align;
  common = split.common;
  autogenerated = split.autogenerated && existing.autogenerated;
  skip = false;
  rename = none;
}

unfoldable pub replace_overlap :
    ℕ → ObjSection → ℕ → ObjSplit → ObjSplit → Overlap → ObjSections → Step
replace_overlap index s new_start split new_split manual t = done t (ok tt)
replace_overlap index s new_start split new_split conflict t = done t (err overlapping_split)
replace_overlap index s new_start split new_split (replaced to_remove to_rename) t =
    let removed = put_splits index s (remove_all to_remove s.splits) t in
    again (record removed { sections = rename_all to_rename split.unit removed.sections }) new_start
      new_split

-- The section has a split of the unit. `BTreeMap::range` panics where the range runs backwards.
unfoldable pub extend : ℕ → ObjSection → ℕ → ObjSplit → ℕ → ObjSplit → ObjSections → Step
extend index s address split existing_addr existing t =
    let new_start = min existing_addr address in
    let new_end = max existing.end split.end in
    elim (merged_align split.align existing.align) [
      | err e ↦ done t (err e)
      | panic ↦ done t panic
      | ok align ↦
          if not (eq_bool split.common existing.common)
          then done t (err conflicting_common)
          else if leb existing_addr new_start && leb new_end existing.end
          then done t (ok tt)
          else if ltb new_end new_start
          then done t panic
          else replace_overlap index s new_start split (extended split existing align)
              (overlap split (for_range (λ a. leb new_start a && ltb a new_end) s.splits)) t
    ]

abbrev pub section_end : ObjSection → ℕ
section_end s = (s.address + s.size) % 2 ^ 32

unfoldable pub add_split_at : ℕ → ObjSection → ℕ → ObjSplit → ObjSections → Step
unfolding extend
add_split_at index s address split t =
    if split.end == 0 || leb split.end (section_end s)
    then elim (for_unit split.unit s.splits) [
      | ok none ↦ done (put_splits index s (Splits.push address split s.splits) t) (ok tt)
      | ok (some (existing_addr, existing)) ↦ extend index s address split existing_addr existing t
      | err _ ↦ done t (err multiple_splits)
      | panic ↦ done t panic
    ]
    else done t (err outside_section)

unfoldable pub add_split_step : ℕ → ℕ → ObjSplit → ObjSections → Step
unfolding add_split_at
add_split_step index address split t = elim (get_elem? t.sections index) [
  | none ↦ done t (err invalid_section)
  | some s ↦ add_split_at index s address split t
]

unfoldable pub add_split : ℕ → ℕ → ℕ → ObjSplit → ObjSections → Option (ObjSections × Outcome)
unfolding add_split_step
add_split zero index address split t = none
add_split (suc fuel) index address split t = elim (add_split_step index address split t) [
  | done t' r ↦ some (t', r)
  | again t' address' split' ↦ add_split fuel index address' split' t'
]
