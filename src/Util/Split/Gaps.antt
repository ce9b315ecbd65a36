-- ===== src/Util/Split/Gaps.antt =====
-- `create_gap_splits` of src/util/split.rs: the splits that fill the gaps of a section.
pub mod Covers
pub mod Filled
pub mod Returns
use decomp_toolkit.Prelude.{
  ℕ, zero, suc, ◌+◌, ◌-◌, ◌%◌, ◌^◌, min, max, bit_and, Bool, true, false, not, ◌&&◌, ◌||◌, List, [],
  ◌∷◌, ◌++◌, Option, none, some, String, str_eq, starts_with, ◌==◌, ltb, leb, if◌then◌else◌, length,
  filter, find, get_elem?, Result, ok, err, panic, ◌>>=◌, ◌>>◌, guard, expect,
}
use decomp_toolkit.Prelude.BTreeMap.{BTreeMap}
use decomp_toolkit.Prelude.BTreeMap
use decomp_toolkit.Obj.Kinds.{ObjArchitecture}
use decomp_toolkit.Obj.Addresses.{SectionAddress}
use decomp_toolkit.Obj.Addresses
use decomp_toolkit.Obj.Relocations.{ObjReloc, ObjRelocKind, x86_abs32}
use decomp_toolkit.Obj.Relocations
use decomp_toolkit.Obj.Splits.{ObjSplit, ObjSplits, for_range}
use decomp_toolkit.Obj.Sections.{ObjSection, ObjSubRegion, default_section_align}
use decomp_toolkit.Obj.Alignment.{alignment}
use decomp_toolkit.Obj.Symbols.Flags.{is_stripped, is_comdat}
use decomp_toolkit.Obj.Symbols.Symbol.{ObjSymbol}
use decomp_toolkit.Obj.Symbols.Table.{ObjSymbols, Error, u32, for_section_range}
use decomp_toolkit.Obj.Info.{ObjInfo}
use decomp_toolkit.Util.Split.{SplitsError, end_for_section}
use decomp_toolkit.Util.Split.Comdat.{
  GapError, overlaps_previous, duplicate_symbols, lift, lift_unit, region_end, gap_end, GapEnd,
}
use decomp_toolkit.Obj.AddSplit
use decomp_toolkit.Obj.Symbols.Table
use decomp_toolkit.Obj.Sections.{ObjSections}
use decomp_toolkit.Obj.Sections

-- The state of the loop over a section.
pub record GapState : Type 0 where
  pub current : ℕ
  pub explicit : List (ℕ × ObjSplit)
  pub prev_rename : Option String
  pub new_splits : BTreeMap ObjSplit
  pub size_fixes : List (ℕ × ℕ)

-- The explicit split that comes next: its start, its end, which is 0 if it has none, its alignment.
unfoldable pub peek :
    ObjInfo → ObjSection → ℕ → ℕ → List (ℕ × ObjSplit) → Result GapError (ℕ × ℕ × ℕ)
peek obj section section_index section_end [] =
    ok (section_end, 0, default_section_align obj.architecture section)
peek obj section section_index section_end ((addr, split) ∷ rest) = do
  align ← lift (alignment obj.architecture obj.symbols section_index section addr split)
  ok (addr, split.end, align)

abbrev pub in_region : ℕ → ObjSubRegion → Bool
in_region current r = leb r.start current && ltb current r.end

abbrev pub region_name : Option ObjSubRegion → Option String → Option String
region_name none prev = prev
region_name (some r) prev = some r.name

abbrev pub name_or : Option String → String → String
name_or none name = name
name_or (some rename) name = rename

abbrev pub add_fix : Option (ℕ × ℕ) → List (ℕ × ℕ) → List (ℕ × ℕ)
add_fix none fixes = fixes
add_fix (some fix) fixes = fixes ++ (fix ∷ [])

-- `format!` of the name of a unit, from the section's index, the address and the section's name.
abbrev pub UnitName : Type 0
UnitName = ℕ → ℕ → String → String

abbrev pub gap_split : UnitName → ObjSection → ℕ → ℕ → Option String → ObjSplit
gap_split unit_name section section_index current rename = record {
  unit = unit_name section_index current (name_or rename section.name);
  end = 0;
  align = none;
  common = false;
  autogenerated = true;
  skip = false;
  rename = rename;
}

unfoldable pub push_gap : UnitName → ObjSection → ℕ → GapState → GapEnd → Result GapError GapState
push_gap unit_name section section_index s gap = do
  guard (ltb s.current gap.end) duplicate_symbols
  let rename = region_name (find (in_region s.current) section.sub_regions) s.prev_rename
  let split = gap_split unit_name section section_index s.current rename
  ok (record s {
    current = gap.end;
    new_splits = BTreeMap.insert s.current (record split { end = gap.end }) s.new_splits;
    size_fixes = add_fix gap.fix s.size_fixes;
  })

-- The end of the gap at the current address, which reaches up to `split_start` at most.
unfoldable pub find_gap : ObjInfo → ObjSection → ℕ → ℕ → GapState → Result GapError GapEnd
unfolding region_end gap_end is_stripped
find_gap obj section section_index split_start s = do
  let limit = region_end s.current section.sub_regions split_start
  found ← lift (for_section_range section_index (λ a. leb s.current a && ltb a limit) obj.symbols)
  let symbols = filter (λ (e : ℕ × ObjSymbol). not (is_stripped (e.1).flags)) found
  gap_end obj section section_index s.current limit [] symbols

unfoldable pub fill_gap :
    UnitName → ObjInfo → ObjSection → ℕ → ℕ → GapState → Result GapError GapState
unfolding find_gap push_gap
fill_gap unit_name obj section section_index split_start s = do
  gap ← find_gap obj section section_index split_start s
  push_gap unit_name section section_index s gap

abbrev pub file_end : ℕ → List (ℕ × ObjSplit) → ℕ
file_end section_end [] = section_end
file_end section_end ((next_addr, next) ∷ rest) = min next_addr section_end

abbrev pub end_or : ℕ → ℕ → List (ℕ × ObjSplit) → ℕ
end_or section_end split_end rest = if ltb 0 split_end then split_end else file_end section_end rest

-- The explicit split is passed; at the end of the section there is none.
unfoldable pub pass_split : ℕ → GapState → List (ℕ × ObjSplit) → GapState
pass_split section_end s [] = record s { current = section_end }
pass_split section_end s ((addr, split) ∷ rest) = record s {
  current = end_or section_end split.end rest;
  explicit = rest;
  prev_rename = split.rename;
}

-- A round of the loop.
unfoldable pub gap_round :
    UnitName → ObjInfo → ObjSection → ℕ → ℕ → GapState → Result GapError GapState
unfolding peek fill_gap pass_split Addresses.align_up
gap_round unit_name obj section section_index section_end s = do
  (split_start, split_end, align) ← peek obj section section_index section_end s.explicit
  guard (leb s.current split_start) overlaps_previous
  aligned ←
      lift_unit (Addresses.align_up (record { section = section_index; address = s.current }) align)
  let filled = fill_gap unit_name obj section section_index split_start s
  if ltb aligned split_start then filled else ok (pass_split section_end s s.explicit)

-- The loop up to the end of the section; there is no result where the rounds do not suffice.
unfoldable pub gap_loop :
    ℕ → UnitName → ObjInfo → ObjSection → ℕ → ℕ → GapState → Option (Result GapError GapState)
gap_loop zero unit_name obj section section_index section_end s = none
gap_loop (suc rounds) unit_name obj section section_index section_end s =
    elim (leb section_end s.current) [
      | true ↦ some (ok s)
      | false ↦ elim (gap_round unit_name obj section section_index section_end s) [
        | ok s' ↦ gap_loop rounds unit_name obj section section_index section_end s'
        | err e ↦ some (err e)
        | panic ↦ some panic
      ]
    ]

-- The state at the start of a section.
abbrev pub gap_start : ObjSection → ℕ → BTreeMap ObjSplit → List (ℕ × ℕ) → GapState
gap_start section section_end new_splits size_fixes = record {
  current = u32 section.address;
  explicit = for_range (λ a. ltb a section_end) section.splits;
  prev_rename = none;
  new_splits = new_splits;
  size_fixes = size_fixes;
}
