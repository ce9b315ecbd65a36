-- ===== src/Tests/Rel.antt =====
-- Runs of src/util/rel.rs on a module with four relocations.
use decomp_toolkit.Prelude.{
  ℕ, suc, ◌+◌, ◌%◌, ◌^◌, ◌<◌, ◌≡◌, refl, Bool, true, List, [], ◌∷◌, ◌++◌, Option, none, some,
  String, length, filter, All, Result, ok, arith,
}
use mathlib.Core.List.{Perm}
use decomp_toolkit.Util.Reader.{big, little}
use decomp_toolkit.Obj.Relocations.{ObjRelocKind, absolute, ppc_addr16_lo, ppc_addr16_ha, ppc_rel24}
use decomp_toolkit.Obj.Info.{RelReloc}
use decomp_toolkit.Util.Rel.{RelHeader, read_header, write_header, write_size}
use decomp_toolkit.Util.Rel.Header.{read_header-IsComplete, write_size-write_header}
use decomp_toolkit.Util.Rel.Relocs.{RelTypes, RelError}
use decomp_toolkit.Util.Rel.Layout.{
  do_relocation_layout, layout_loop, enter_module, place, nops, enter_section, place_behind,
}
use decomp_toolkit.Util.Rel.Relocs.Entries.{InOrder}
use decomp_toolkit.Util.Rel.Tables.Written.{as_read, IsWritable}
use decomp_toolkit.Util.Rel.Relocs.Returns.{IsSupported}
use decomp_toolkit.Util.Rel.Order.{
  insert_reloc, sort_relocs, retain, skip_reloc, reloc_can_be_applied, compare_relocs,
  compare_modules,
}
use decomp_toolkit.Util.Rel.Order.Sorted.{IsSorted, is_at, sort_relocs-IsSorted}
use decomp_toolkit.Util.Rel.Order.Selected.{Selects, Stays, IsApplied, retain-Selects}
use decomp_toolkit.Util.Rel.Order.Returns.{room}
use decomp_toolkit.Util.Rel.Tables.{dedup_behind, Tables, layout_tables, write_tables, read_tables}
use decomp_toolkit.Util.Rel.Tables.Imports.{read_tables_returns}
use decomp_toolkit.Util.Rel.Tables.RoundTrip.{read_tables-write_tables}
use decomp_toolkit.Util.Rel.Tables.Short.{write_size-layout_tables}
use decomp_toolkit.Obj.Kinds.{ObjSectionKind, code, initialized_data, section_kind_eq}
use decomp_toolkit.Obj.Sections.{ObjSection, default_section_align}
use decomp_toolkit.Util.Split.Padding.{align_up}
use decomp_toolkit.Util.Rel.Alignment.{
  AlignError, halve, is_default, determined, align_section, align_sections,
  update_rel_section_alignment,
}
use decomp_toolkit.Util.Rel.Alignment.Rounds.{
  AreAligned, update_rel_section_alignment-AreAligned, halved, halve_lem,
}

abbrev types : RelTypes
types = record {
  r_ppc_none = 0;
  r_ppc_addr32 = 1;
  r_ppc_uaddr32 = 24;
  r_ppc_addr16_lo = 4;
  r_ppc_addr16_hi = 5;
  r_ppc_addr16_ha = 6;
  r_ppc_rel24 = 10;
  r_ppc_rel14 = 11;
}

types-InOrder : InOrder types
types-InOrder = (
  omega arith,
  omega arith,
  omega arith,
  omega arith,
  omega arith,
  omega arith,
  omega arith,
  omega arith,
)

-- The header of module 7 before and after the tables are laid out.
abbrev header : Option ℕ → RelHeader
header fix_size = record {
  module_id = 7;
  num_sections = 6;
  section_info_offset = 76;
  name_offset = 0;
  name_size = 0;
  version = 3;
  bss_size = 32;
  rel_offset = 0;
  imp_offset = 0;
  imp_size = 0;
  prolog_section = 1;
  epilog_section = 1;
  unresolved_section = 1;
  prolog_offset = 0;
  epilog_offset = 4;
  unresolved_offset = 8;
  align = some 32;
  bss_align = some 8;
  fix_size = fix_size;
}

abbrev reloc : ObjRelocKind → ℕ → ℕ → ℕ → ℕ → ℕ → RelReloc
reloc kind module_id section address target_section addend = record {
  kind = kind;
  section = section;
  address = address;
  module_id = module_id;
  target_section = target_section;
  addend = addend;
  original_section = section + 1;
  original_target_section = target_section + 1;
}

abbrev to_program : RelReloc
to_program = reloc absolute 0 1 8 0 2147487744

abbrev far_away : RelReloc
far_away = reloc ppc_addr16_ha 7 1 70000 4 12

abbrev branch : RelReloc
branch = reloc ppc_rel24 7 1 16 1 64

abbrev to_other : RelReloc
to_other = reloc ppc_addr16_lo 3 2 4 5 0

abbrev relocations : List RelReloc
relocations = to_program ∷ (far_away ∷ (branch ∷ (to_other ∷ [])))

abbrev all_permitted : ℕ → Option Bool
all_permitted section = some true

sorted : sort_relocs 3 7 relocations ≡ to_other ∷ (branch ∷ (far_away ∷ (to_program ∷ [])))
unfolding sort_relocs insert_reloc compare_relocs compare_modules
sorted = refl

retained :
    retain all_permitted 7 (sort_relocs 3 7 relocations)
    ≡ ok (to_other ∷ (far_away ∷ (to_program ∷ [])), branch ∷ [])
unfolding retain skip_reloc reloc_can_be_applied sort_relocs insert_reloc compare_relocs
    compare_modules
retained = refl

plain :
    (kind : ObjRelocKind) (m section address target addend : ℕ)
    → address % 4 ≡ 0
    → address < 2 ^ 32
    → section < 255
    → m < 4294967295
    → IsWritable (reloc kind m section address target addend)
plain kind m section address target addend word small below other = record {
  of_word = word;
  in_range = small;
  in_section = below;
  in_module = other;
}

relocations-IsWritable : All IsWritable relocations
relocations-IsWritable = (
  plain absolute 0 1 8 0 2147487744 refl (omega arith) (omega arith) (omega arith),
  (
    plain ppc_addr16_ha 7 1 70000 4 12 refl (omega arith) (omega arith) (omega arith),
    (
      plain ppc_rel24 7 1 16 1 64 refl (omega arith) (omega arith) (omega arith),
      (plain ppc_addr16_lo 3 2 4 5 0 refl (omega arith) (omega arith) (omega arith), tt),
    ),
  ),
)

relocations-IsSupported : All (IsSupported types) relocations
relocations-IsSupported = ((1, refl), ((6, refl), ((10, refl), ((4, refl), tt))))

read_tables-write_tables_example :
    (tables : Tables) × (layout_tables types
        (header none)
        (to_other ∷ (far_away ∷ (to_program ∷ [])))
        2
      ≡ ok tables)
    × (tables.offset ≡ length (1 ∷ (2 ∷ []) ++ write_tables tables))
    × (let file = 1 ∷ (2 ∷ []) ++ (write_tables tables ++ (9 ∷ [])) in
        read_tables (suc (length file)) types tables.header file
        ≡ some (ok (as_read to_other ∷ (as_read far_away ∷ (as_read to_program ∷ [])))))
unfolding room
read_tables-write_tables_example =
    read_tables-write_tables types (header none) all_permitted relocations
      (to_other ∷ (far_away ∷ (to_program ∷ []))) (branch ∷ []) (1 ∷ (2 ∷ [])) (9 ∷ [])
      types-InOrder (omega arith) (refl, refl, refl) relocations-IsWritable relocations-IsSupported
      retained (omega arith)

read_header-IsComplete_example :
    read_header little (write_header little (header (some 200)) ++ (5 ∷ []))
    ≡ ok (header (some 200), 5 ∷ [])
read_header-IsComplete_example =
    read_header-IsComplete little (header (some 200)) (5 ∷ [])
      (omega arith, omega arith, omega arith, omega arith)

write_size-write_header_example :
    write_size (header (some 200)) ≡ ok (length (write_header big (header (some 200))))
write_size-write_header_example =
    write_size-write_header big (header (some 200))
      (omega arith, omega arith, omega arith, omega arith) (omega arith)

read_tables_returns_example :
    (r : Result RelError (List RelReloc)) × (read_tables 1 types (header none) (0 ∷ (1 ∷ (2 ∷ [])))
      ≡ some r)
read_tables_returns_example =
    read_tables_returns 1 types (header none) (0 ∷ (1 ∷ (2 ∷ []))) (omega arith)

sort_relocs-IsSorted_example :
    IsSorted 3 7 (sort_relocs 3 7 relocations)
    × Perm (sort_relocs 3 7 relocations) relocations
    × (filter (is_at 7 1 16) (sort_relocs 3 7 relocations) ≡ filter (is_at 7 1 16) relocations)
sort_relocs-IsSorted_example = sort_relocs-IsSorted 3 7 7 1 16 relocations

retain-Selects_example :
    (kept : List RelReloc) × (applied : List RelReloc) × (retain all_permitted 7 relocations
      ≡ ok (kept, applied))
    × Selects (Stays all_permitted 7) relocations kept
    × Selects (IsApplied all_permitted) relocations applied
retain-Selects_example =
    retain-Selects all_permitted 7 relocations
      ((true, refl), ((true, refl), ((true, refl), ((true, refl), tt))))

-- The tables of a module with one relocation, against module 3.
abbrev foreign_tables : Tables
foreign_tables = record {
  header = record (header none) { imp_offset = 128; imp_size = 8; rel_offset = 136 };
  imp_entries = record { module_id = 3; offset = 136 } ∷ [];
  raw_relocations =
      record { offset = 0; kind = 202; section = 2; addend = 0 }
      ∷ (record { offset = 4; kind = 4; section = 5; addend = 0 }
          ∷ (record { offset = 0; kind = 203; section = 0; addend = 0 } ∷ []));
  offset = 160;
}

foreign : layout_tables types (header none) (to_other ∷ []) 128 ≡ ok foreign_tables
unfolding layout_tables dedup_behind do_relocation_layout layout_loop enter_module place nops
    enter_section place_behind
foreign = refl

write_size-layout_tables_example :
    write_size foreign_tables.header ≡ ok (length (write_header big foreign_tables.header) + 4)
write_size-layout_tables_example =
    write_size-layout_tables types (header none) to_other [] 128 32 8 foreign_tables refl
      (refl, refl) ((refl, refl), tt) foreign

-- Two sections, of which the second lies behind a gap.
abbrev section : String → ObjSectionKind → ℕ → ℕ → ℕ → ObjSection
section name kind file_offset size align = record {
  name = name;
  kind = kind;
  address = 0;
  size = size;
  bytes = [];
  align = align;
  elf_index = 1;
  relocations = [];
  virtual_address = none;
  file_offset = file_offset;
  section_known = section_kind_eq kind code;
  splits = [];
  sub_regions = [];
}

abbrev sections : List ObjSection
sections = section ".text" code 124 8 0 ∷ (section ".section4" initialized_data 160 12 0 ∷ [])

abbrev aligned_sections : List ObjSection
aligned_sections =
    section ".text" code 124 8 4 ∷ (section ".section4" initialized_data 160 12 32 ∷ [])

sections_aligned : update_rel_section_alignment (header none) sections ≡ ok aligned_sections
unfolding update_rel_section_alignment align_sections align_section is_default determined halve
    align_up default_section_align section_kind_eq
sections_aligned = refl

update_rel_section_alignment-AreAligned_example : AreAligned 124 sections aligned_sections
update_rel_section_alignment-AreAligned_example =
    update_rel_section_alignment-AreAligned (header none) sections aligned_sections sections_aligned

none_fits : halve 32 132 148 32 ≡ ok none
unfolding halve align_up
none_fits = refl

halve_lem_example : ¬ (align_up {E = AlignError} 132 (halved 2 32) ≡ ok 148)
unfolding halved
halve_lem_example = halve_lem 32 132 148 32 2 (omega arith) (omega arith) none_fits
