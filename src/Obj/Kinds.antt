-- ===== src/Obj/Kinds.antt =====
-- The small enumerations of src/obj, with the equality that their derived `PartialEq` gives.
use decomp_toolkit.Prelude.{ℕ, Bool, ◌==◌, true, false}

pub data ObjKind : Type 0 where
  executable relocatable : ObjKind

pub data ObjArchitecture : Type 0 where
  power_pc x86 : ObjArchitecture

pub data ObjSectionKind : Type 0 where
  code read_only_data bss initialized_data : ObjSectionKind

pub data ObjSymbolKind : Type 0 where
  unknown function object section : ObjSymbolKind

pub data ObjDataKind : Type 0 where
  unknown byte byte2 byte4 byte8 float double string shift_jis string16 : ObjDataKind
  string_table shift_jis_table string16_table int short : ObjDataKind

abbrev pub is_executable : ObjKind → Bool
is_executable executable = true
is_executable relocatable = false

abbrev pub section_kind_eq : ObjSectionKind → ObjSectionKind → Bool
section_kind_eq code code = true
section_kind_eq read_only_data read_only_data = true
section_kind_eq bss bss = true
section_kind_eq initialized_data initialized_data = true
section_kind_eq _ _ = false

abbrev pub symbol_kind_eq : ObjSymbolKind → ObjSymbolKind → Bool
symbol_kind_eq ObjSymbolKind.unknown ObjSymbolKind.unknown = true
symbol_kind_eq ObjSymbolKind.function ObjSymbolKind.function = true
symbol_kind_eq ObjSymbolKind.object ObjSymbolKind.object = true
symbol_kind_eq ObjSymbolKind.section ObjSymbolKind.section = true
symbol_kind_eq _ _ = false

-- The position of a data kind in its enum.
abbrev pub data_kind_tag : ObjDataKind → ℕ
data_kind_tag ObjDataKind.unknown = 0
data_kind_tag ObjDataKind.byte = 1
data_kind_tag ObjDataKind.byte2 = 2
data_kind_tag ObjDataKind.byte4 = 3
data_kind_tag ObjDataKind.byte8 = 4
data_kind_tag ObjDataKind.float = 5
data_kind_tag ObjDataKind.double = 6
data_kind_tag ObjDataKind.string = 7
data_kind_tag ObjDataKind.shift_jis = 8
data_kind_tag ObjDataKind.string16 = 9
data_kind_tag ObjDataKind.string_table = 10
data_kind_tag ObjDataKind.shift_jis_table = 11
data_kind_tag ObjDataKind.string16_table = 12
data_kind_tag ObjDataKind.int = 13
data_kind_tag ObjDataKind.short = 14

abbrev pub data_kind_eq : ObjDataKind → ObjDataKind → Bool
data_kind_eq a b = data_kind_tag a == data_kind_tag b
