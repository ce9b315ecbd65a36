-- ===== src/Obj/Sections.antt =====
-- src/obj/sections.rs: sections and lookups among them. Sums of `u64` addresses and sizes do not
-- reach 2^64 for the 32-bit images that are read, and are plain sums; sums of `u32` values are
-- checked, as a debug build does.
pub mod Ranges
use decomp_toolkit.Prelude.{
  ℕ, zero, suc, ◌+◌, ◌-◌, ◌%◌, ◌^◌, min, Bool, true, false, ◌&&◌, ◌||◌, List, [], ◌∷◌, ◌++◌, map,
  Option, none, some, String, str_eq, ◌==◌, ltb, leb, if◌then◌else◌, length, get_elem?, take, drop,
  filter, find, Result, ok, err, panic, ◌>>=◌, ◌>>◌, guard, ok_or,
}
use decomp_toolkit.Obj.Kinds.{
  ObjKind, ObjArchitecture, power_pc, x86, ObjSectionKind, code, read_only_data, bss,
  initialized_data, is_executable, section_kind_eq,
}
use decomp_toolkit.Obj.Addresses.{SectionAddress}
use decomp_toolkit.Obj.Relocations.{ObjRelocations}
use decomp_toolkit.Obj.Splits.{ObjSplit, ObjSplits}
use decomp_toolkit.Obj.Splits
use decomp_toolkit.Obj.Symbols.Symbol.{ObjSymbol, one_of}

pub record ObjSubRegion : Type 0 where
  pub start : ℕ
  pub end : ℕ
  pub name : String
  pub kind : Option ObjSectionKind

pub record ObjSection : Type 0 where
  pub name : String
  pub kind : ObjSectionKind
  pub address : ℕ
  pub size : ℕ
  pub bytes : List ℕ
  pub align : ℕ
  pub elf_index : ℕ
  pub relocations : ObjRelocations
  pub virtual_address : Option ℕ
  pub file_offset : ℕ
  pub section_known : Bool
  pub splits : ObjSplits
  pub sub_regions : List ObjSubRegion

pub record ObjSections : Type 0 where
  pub obj_kind : ObjKind
  pub sections : List ObjSection

pub data SectionError : Type 0 where
  relocatable_object no_section multiple_sections outside_section unknown_section : SectionError

unfoldable pub contains : ObjSection → ℕ → Bool
contains s addr = leb s.address addr && ltb addr (s.address + s.size)

-- `contains_range` on a `Range<u32>`: its start is included and its end excluded.
unfoldable pub contains_range : ObjSection → ℕ → ℕ → Result SectionError Bool
contains_range s from to =
    let start = s.address % 2 ^ 32 in
    let end = start + s.size % 2 ^ 32 in
    if ltb end (2 ^ 32)
    then ok ((leb start from && ltb from end) && (ltb start to && leb to end))
    else panic

-- `&data[from..to]`, `&data[from..]` where there is no end.
abbrev pub slice : List ℕ → ℕ → ℕ → Result SectionError (List ℕ)
slice bytes from to =
    if leb from to && leb to (length bytes) then ok (take (to - from) (drop from bytes)) else panic

-- What `data_range` returns once the range is checked. `start - self.address` panics below 0.
unfoldable pub data_slice : ObjSection → ℕ → ℕ → Result SectionError (List ℕ)
data_slice s start end =
    if section_kind_eq s.kind bss
    then ok []
    else if ltb start s.address
    then panic
    else if leb (length s.bytes) (start - s.address)
    then ok []
    else if end == 0
    then slice s.bytes (start - s.address) (length s.bytes)
    else if ltb end s.address
    then panic
    else slice s.bytes (start - s.address) (min (length s.bytes) (end - s.address))

unfoldable pub data_range : ObjSection → ℕ → ℕ → Result SectionError (List ℕ)
unfolding contains contains_range
data_range s start end =
    if end == 0 then (do guard (contains s start) outside_section; data_slice s start end) else (do
      inside ← contains_range s start end
      guard inside outside_section
      data_slice s start end)

unfoldable pub symbol_data : ObjSection → ObjSymbol → Result SectionError (List ℕ)
unfolding data_range
symbol_data s symbol =
    let start = symbol.address % 2 ^ 32 in
    let end = start + symbol.size % 2 ^ 32 in
    if symbol.size == 0 then ok [] else if ltb end (2 ^ 32) then data_range s start end else panic

-- `section_kind_for_section`
unfoldable pub section_kind_for_section : String → Result SectionError ObjSectionKind
unfolding one_of
section_kind_for_section name =
    if one_of name (".init" ∷ (".text" ∷ (".dbgtext" ∷ (".vmtext" ∷ []))))
    then ok code
    else if one_of name (
        ".ctors"
        ∷ (".dtors" ∷ (".rodata" ∷ (".sdata2" ∷ ("extab" ∷ ("extabindex" ∷ (".BINARY" ∷ [])))))))
    then ok read_only_data
    else if one_of name (".bss" ∷ (".sbss" ∷ (".sbss2" ∷ [])))
    then ok bss
    else if one_of name (".data" ∷ (".sdata" ∷ []))
    then ok initialized_data
    else err unknown_section

-- The section after `rename`, or the error with the section unchanged.
unfoldable pub rename : String → ObjSection → ObjSection × Result SectionError (Unit {0})
unfolding section_kind_for_section
rename name s = elim (section_kind_for_section name) [
  | ok kind ↦ (record s { name = name; kind = kind; section_known = true }, ok tt)
  | err e ↦ (s, err e)
  | panic ↦ (s, panic)
]

-- `default_section_align` of src/util/split.rs
unfoldable pub default_section_align : ObjArchitecture → ObjSection → ℕ
unfolding one_of
default_section_align x86 s = 4
default_section_align power_pc s =
    if section_kind_eq s.kind code
    then 4
    else if one_of s.name (".ctors" ∷ (".dtors" ∷ ("extab" ∷ ("extabindex" ∷ []))))
    then 4
    else 8

-- `iter().enumerate()` from an index on.
unfoldable pub enumerate : ℕ → List ObjSection → List (ℕ × ObjSection)
enumerate n [] = []
enumerate n (s ∷ ss) = (n, s) ∷ enumerate (suc n) ss

unfoldable pub iter : ObjSections → List (ℕ × ObjSection)
unfolding enumerate
iter t = enumerate 0 t.sections

-- `SectionIndex` is `u32`.
unfoldable pub len : ObjSections → ℕ
len t = length t.sections % 2 ^ 32

unfoldable pub is_empty : ObjSections → Bool
is_empty t = length t.sections == 0

-- The splits of all sections: section index, section, address and split.
unfoldable pub all_splits_from : List (ℕ × ObjSection) → List (ℕ × ObjSection × ℕ × ObjSplit)
unfolding Splits.iter
all_splits_from [] = []
all_splits_from ((i, s) ∷ rest) =
    map (λ (e : ℕ × ObjSplit). (i, s, e.0, e.1)) (Splits.iter s.splits) ++ all_splits_from rest

unfoldable pub all_splits : ObjSections → List (ℕ × ObjSection × ℕ × ObjSplit)
unfolding iter all_splits_from
all_splits t = all_splits_from (iter t)

unfoldable pub get : ObjSections → ℕ → Option ObjSection
get t index = get_elem? t.sections index

unfoldable pub get_elf_index : ObjSections → ℕ → Option (ℕ × ObjSection)
unfolding iter
get_elf_index t elf_index = find (λ (e : ℕ × ObjSection). (e.1).elf_index == elf_index) (iter t)

unfoldable pub at_address : ObjSections → ℕ → Result SectionError (ℕ × ObjSection)
unfolding iter contains
at_address t addr = do
  guard (is_executable t.obj_kind) relocatable_object
  ok_or (find (λ (e : ℕ × ObjSection). contains e.1 addr) (iter t)) no_section

-- `find` with a test that may panic.
unfoldable pub find_range :
    ℕ → ℕ → List (ℕ × ObjSection) → Result SectionError (Option (ℕ × ObjSection))
unfolding contains_range
find_range from to [] = ok none
find_range from to ((i, s) ∷ rest) = elim (contains_range s from to) [
  | ok true ↦ ok (some (i, s))
  | ok false ↦ find_range from to rest
  | err e ↦ err e
  | panic ↦ panic
]

unfoldable pub with_range : ObjSections → ℕ → ℕ → Result SectionError (ℕ × ObjSection)
unfolding iter find_range
with_range t from to = do
  guard (is_executable t.obj_kind) relocatable_object
  found ← find_range from to (iter t)
  ok_or found no_section

unfoldable pub by_kind : ObjSections → ObjSectionKind → List (ℕ × ObjSection)
unfolding iter
by_kind t kind = filter (λ (e : ℕ × ObjSection). section_kind_eq (e.1).kind kind) (iter t)

abbrev pub at_most_one {ℓ} : {A : Type ℓ} → List A → Result SectionError (Option A)
at_most_one [] = ok none
at_most_one (x ∷ []) = ok (some x)
at_most_one (x ∷ (y ∷ ys)) = err multiple_sections

unfoldable pub by_name : ObjSections → String → Result SectionError (Option (ℕ × ObjSection))
unfolding iter
by_name t name = at_most_one (filter (λ (e : ℕ × ObjSection). str_eq (e.1).name name) (iter t))

-- `push` also returns the index of the new section.
unfoldable pub push : ObjSection → ObjSections → ObjSections × ℕ
push s t = (record t { sections = t.sections ++ (s ∷ []) }, length t.sections % 2 ^ 32)

-- The address of the first common split of the only `.bss` section.
unfoldable pub common_bss_start : ObjSections → Option SectionAddress
unfolding by_name Splits.iter
common_bss_start t = elim (by_name t ".bss") [
  | ok (some (index, s)) ↦ elim (find (λ (e : ℕ × ObjSplit). (e.1).common) (Splits.iter s.splits)) [
    | some (addr, _) ↦ some (record { section = index; address = addr })
    | none ↦ none
  ]
  | _ ↦ none
]
