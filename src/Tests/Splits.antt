-- ===== src/Tests/Splits.antt =====
-- `add_split` at concrete sections.
use decomp_toolkit.Prelude.{
  ℕ, ◌≡◌, ◌≢◌, refl, Bool, true, false, [], ◌∷◌, none, some, String, ok, panic, arith,
}
use decomp_toolkit.Obj.Kinds.{executable, code}
use decomp_toolkit.Obj.Splits.{ObjSplit, ObjSplits}
use decomp_toolkit.Obj.Splits
use decomp_toolkit.Obj.Sections.{ObjSection, ObjSections}
use decomp_toolkit.Obj.AddSplit.{
  Outcome, add_split, merged_align, replace_overlap, overlap, rename_all, rename_sections,
  rename_splits, rename_split, remove_all, extended,
}
use decomp_toolkit.Prelude.BTreeMap
use decomp_toolkit.Util.Nested.{bucket}
use mathlib.Core.Bool.{false≢true}
use decomp_toolkit.Obj.AddSplit.Returns.{add_split_returns}
use decomp_toolkit.Obj.AddSplit.Keeps.{HasAt, add_split-HasAt}
use decomp_toolkit.Obj.AddSplit.Covers.{CoversAt, add_split-CoversAt}
use mathlib.Core.List.{Memᴰ}

abbrev pub split_of : String → ℕ → Bool → ObjSplit
split_of unit end autogenerated = record {
  unit = unit;
  end = end;
  align = none;
  common = false;
  autogenerated = autogenerated;
  skip = false;
  rename = none;
}

abbrev pub text_section : ObjSplits → ObjSection
text_section splits = record {
  name = ".text";
  kind = code;
  address = 4096;
  size = 8192;
  bytes = [];
  align = 4;
  elf_index = 1;
  relocations = [];
  virtual_address = none;
  file_offset = 256;
  section_known = true;
  splits = splits;
  sub_regions = [];
}

abbrev sections_of : ObjSplits → ObjSections
sections_of splits = record { obj_kind = executable; sections = text_section splits ∷ [] }

-- A unit, a generated one behind it, and a unit further on.
abbrev three_units : ObjSplits
three_units =
    (4096, split_of "a.c" 4160 false ∷ [])
    ∷ ((4160, split_of "auto.c" 4192 true ∷ []) ∷ ((8192, split_of "b.c" 8256 false ∷ []) ∷ []))

-- The same after `a.c` has grown over the generated unit.
abbrev pub two_units : ObjSplits
two_units = (4096, split_of "a.c" 4224 false ∷ []) ∷ ((8192, split_of "b.c" 8256 false ∷ []) ∷ [])

grown_over :
    add_split 4 0 4160 (split_of "a.c" 4224 false) (sections_of three_units)
    ≡ some (sections_of two_units, ok tt)
unfolding add_split merged_align replace_overlap overlap rename_all rename_sections rename_splits
    rename_split remove_all extended Splits.for_unit Splits.for_range Splits.push BTreeMap.remove
    BTreeMap.insert BTreeMap.get
grown_over = refl

add_split_returns_example :
    (t' : ObjSections) × (r : Outcome) × (add_split 4 0 4160
        (split_of "a.c" 4224 false)
        (sections_of three_units)
      ≡ some (t', r))
    × (r ≢ panic)
unfolding Splits.flatten
add_split_returns_example =
    add_split_returns 4 0 4160 (split_of "a.c" 4224 false) (sections_of three_units)
      ((omega arith, (omega arith, (omega arith, tt))), omega arith) (omega arith)

add_split-HasAt_example : HasAt 8192 (split_of "b.c" 8256 false) (text_section two_units ∷ []) 0
unfolding bucket BTreeMap.get Splits.flatten
add_split-HasAt_example =
    add_split-HasAt 4 0 4160 (split_of "a.c" 4224 false) (sections_of three_units) 8192
      (split_of "b.c" 8256 false) (Memᴰ.head refl)
      ((λ e. refl), ((λ e. absurd (false≢true e)), ((λ e. refl), tt))) refl grown_over

add_split-CoversAt_example : CoversAt "a.c" 4160 4224 (text_section two_units ∷ []) 0
add_split-CoversAt_example =
    add_split-CoversAt 4 0 4160 (split_of "a.c" 4224 false) (sections_of three_units) refl
      grown_over

abbrev open_ended : ObjSplits
open_ended = (8192, split_of "b.c" 0 false ∷ []) ∷ []
