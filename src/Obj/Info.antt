-- ===== src/Obj/Info.antt =====
-- `ObjInfo` of src/obj/mod.rs: the object, with the addresses that the linker generated, and the
-- methods that add symbols and splits to it and measure it. The field `split_meta` is of the
-- objdiff-core crate and left out; no method of the object reads it.
pub mod Sizes
pub mod Bases
use decomp_toolkit.Prelude.{
  ℕ, ◌+◌, ◌%◌, ◌^◌, Bool, true, false, not, ◌&&◌, List, [], ◌∷◌, ◌++◌, map, Option, none, some,
  String, str_eq, ltb, if◌then◌else◌, filter, Result, ok, err, panic, ◌>>=◌,
}
use decomp_toolkit.Util.Comment.{MwComment}
use decomp_toolkit.Obj.Kinds.{ObjKind, ObjArchitecture, code, section_kind_eq}
use decomp_toolkit.Obj.Addresses.{AddressRanges, SectionAddress}
use decomp_toolkit.Obj.Relocations.{ObjRelocKind}
use decomp_toolkit.Obj.Splits.{ObjSplit}
use decomp_toolkit.Obj.Sections.{ObjSection, ObjSections, all_splits}
use decomp_toolkit.Obj.Sections
use decomp_toolkit.Obj.Symbols.Flags.{is_common}
use decomp_toolkit.Obj.Symbols.Symbol.{ObjSymbol}
use decomp_toolkit.Obj.Symbols.Table.{ObjSymbols, Error, u32}
use decomp_toolkit.Obj.Symbols.Table
use decomp_toolkit.Obj.Symbols.Add
use decomp_toolkit.Obj.AddSplit.{Outcome}
use decomp_toolkit.Obj.AddSplit

pub record PeMetadata : Type 0 where
  pub timestamp : ℕ
  pub characteristics : ℕ
  pub dll_characteristics : ℕ
  pub base_of_data : ℕ
  pub size_of_code : ℕ
  pub size_of_initialized_data : ℕ
  pub size_of_image : ℕ
  pub data_directories : List (ℕ × ℕ)
  pub reloc_virtual_size : ℕ
  pub trailing_data : List ℕ

-- The order is an `i32`, as its bit pattern.
pub record ObjUnit : Type 0 where
  pub name : String
  pub autogenerated : Bool
  pub comment_version : Option ℕ
  pub order : Option ℕ

-- src/util/rel.rs
pub record RelReloc : Type 0 where
  pub kind : ObjRelocKind
  pub section : ℕ
  pub address : ℕ
  pub module_id : ℕ
  pub target_section : ℕ
  pub addend : ℕ
  pub original_section : ℕ
  pub original_target_section : ℕ

pub record ObjInfo : Type 0 where
  pub kind : ObjKind
  pub architecture : ObjArchitecture
  pub name : String
  pub symbols : ObjSymbols
  pub sections : ObjSections
  pub entry : Option ℕ
  pub mw_comment : Option MwComment
  pub sda2_base : Option ℕ
  pub sda_base : Option ℕ
  pub stack_address : Option ℕ
  pub stack_end : Option ℕ
  pub db_stack_addr : Option ℕ
  pub arena_lo : Option ℕ
  pub arena_hi : Option ℕ
  pub link_order : List ObjUnit
  pub blocked_relocation_sources : AddressRanges
  pub blocked_relocation_targets : AddressRanges
  pub known_functions : List (SectionAddress × Option ℕ)
  pub module_id : ℕ
  pub unresolved_relocations : List RelReloc
  pub pe_reloc_data : List ℕ
  pub pe_iat_slots : List ℕ
  pub pe_comment_directives : List (Option String × List ℕ)
  pub pe_comment_sections : List (String × ℕ × ℕ × Option String)
  pub pe_metadata : Option PeMetadata

abbrev pub empty_info : ObjKind → ObjArchitecture → String → ObjSymbols → List ObjSection → ObjInfo
empty_info kind architecture name symbols sections = record {
  kind = kind;
  architecture = architecture;
  name = name;
  symbols = symbols;
  sections = record { obj_kind = kind; sections = sections };
  entry = none;
  mw_comment = none;
  sda2_base = none;
  sda_base = none;
  stack_address = none;
  stack_end = none;
  db_stack_addr = none;
  arena_lo = none;
  arena_hi = none;
  link_order = [];
  blocked_relocation_sources = [];
  blocked_relocation_targets = [];
  known_functions = [];
  module_id = 0;
  unresolved_relocations = [];
  pe_reloc_data = [];
  pe_iat_slots = [];
  pe_comment_directives = [];
  pe_comment_sections = [];
  pe_metadata = none;
}

-- `ObjSymbols::new` may panic.
unfoldable pub new :
    ObjKind → ObjArchitecture → String → List ObjSymbol → List ObjSection → Result Error ObjInfo
unfolding Table.new
new kind architecture name symbols sections = do
  table ← Table.new kind symbols
  ok (empty_info kind architecture name table sections)

-- The `match` on the name.
unfoldable pub note_base : ObjSymbol → ObjInfo → ObjInfo
note_base in_symbol o =
    if str_eq in_symbol.name "_SDA_BASE_"
    then record o { sda_base = some (u32 in_symbol.address) }
    else if str_eq in_symbol.name "_SDA2_BASE_"
    then record o { sda2_base = some (u32 in_symbol.address) }
    else if str_eq in_symbol.name "_stack_addr"
    then record o { stack_address = some (u32 in_symbol.address) }
    else if str_eq in_symbol.name "_stack_end"
    then record o { stack_end = some (u32 in_symbol.address) }
    else if str_eq in_symbol.name "_db_stack_addr"
    then record o { db_stack_addr = some (u32 in_symbol.address) }
    else if str_eq in_symbol.name "__ArenaLo"
    then record o { arena_lo = some (u32 in_symbol.address) }
    else if str_eq in_symbol.name "__ArenaHi"
    then record o { arena_hi = some (u32 in_symbol.address) }
    else o

unfoldable pub add_symbol : ObjSymbol → Bool → ObjInfo → ObjInfo × Result Error ℕ
unfolding note_base
add_symbol in_symbol replace o =
    let noted = note_base in_symbol o in
    let (symbols, r) = Add.add in_symbol replace noted.symbols in
    (record noted { symbols = symbols }, r)

-- On fuel, as `AddSplit.add_split` is.
unfoldable pub add_split : ℕ → ℕ → ℕ → ObjSplit → ObjInfo → Option (ObjInfo × Outcome)
unfolding AddSplit.add_split
add_split fuel section_index address split o =
    elim (AddSplit.add_split fuel section_index address split o.sections) [
      | none ↦ none
      | some (sections, r) ↦ some (record o { sections = sections }, r)
    ]

abbrev pub all_autogenerated : String → List (ℕ × ObjSection × ℕ × ObjSplit) → Bool
all_autogenerated unit [] = true
all_autogenerated unit ((_, _, _, split) ∷ rest) =
    if str_eq split.unit unit
    then split.autogenerated && all_autogenerated unit rest
    else all_autogenerated unit rest

unfoldable pub is_unit_autogenerated : String → ObjInfo → Bool
unfolding all_splits
is_unit_autogenerated unit o = all_autogenerated unit (all_splits o.sections)

-- `sum()` over `u32`, which panics in a debug build where the sum leaves `u32`.
unfoldable pub sum_u32 : ℕ → List ℕ → Result Error ℕ
sum_u32 total [] = ok total
sum_u32 total (n ∷ ns) =
    let following = sum_u32 (total + n) ns in if ltb (total + n) (2 ^ 32) then following else panic

unfoldable pub sizes_where : (ObjSection → Bool) → List ObjSection → List ℕ
sizes_where p ss = map (λ (s : ObjSection). u32 s.size) (filter p ss)

unfoldable pub common_sizes : List ObjSymbol → List ℕ
common_sizes symbols =
    map (λ (s : ObjSymbol). u32 s.size) (filter (λ (s : ObjSymbol). is_common s.flags) symbols)

abbrev pub is_code : ObjSection → Bool
is_code s = section_kind_eq s.kind code

unfoldable pub code_size : ObjInfo → Result Error ℕ
unfolding sum_u32 sizes_where
code_size o = sum_u32 0 (sizes_where is_code o.sections.sections)

unfoldable pub data_size : ObjInfo → Result Error ℕ
unfolding sum_u32 sizes_where common_sizes
data_size o =
    sum_u32 0
      (sizes_where (λ s. not (is_code s)) o.sections.sections ++ common_sizes o.symbols.symbols)
