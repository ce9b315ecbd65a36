-- ===== src/Obj/Symbols/Symbol.antt =====
-- `ObjSymbol` of src/obj/symbols.rs, and the tests on its name of src/util/config.rs and
-- src/util/split.rs. Addresses and sizes are `u64`, indexes and alignments `u32`, as numbers.
use decomp_toolkit.Prelude.{
  ℕ, Bool, true, false, not, ◌&&◌, ◌||◌, Option, none, some, String, str_eq, starts_with, ◌==◌,
  if◌then◌else◌, List, [], ◌∷◌,
}
use decomp_toolkit.Obj.Kinds.{ObjSymbolKind, ObjDataKind, symbol_kind_eq, data_kind_eq}
use decomp_toolkit.Obj.Relocations.{ObjRelocKind}
use decomp_toolkit.Obj.Symbols.Flags.{FlagSet, ObjSymbolFlags, is_relocation_ignore, is_stripped}

pub record ObjSymbol : Type 0 where
  pub name : String
  pub demangled_name : Option String
  pub address : ℕ
  pub section : Option ℕ
  pub size : ℕ
  pub size_known : Bool
  pub flags : FlagSet
  pub kind : ObjSymbolKind
  pub align : Option ℕ
  pub data_kind : ObjDataKind
  pub name_hash : Option ℕ
  pub demangled_name_hash : Option ℕ

-- `is_auto_symbol`, `is_auto_label` and `is_auto_jump_table` of src/util/config.rs
unfoldable pub is_auto_symbol : ObjSymbol → Bool
is_auto_symbol symbol =
    starts_with symbol.name "lbl_"
    || (starts_with symbol.name "fn_"
        || (starts_with symbol.name "jumptable_"
            || (starts_with symbol.name "gap_"
                || (starts_with symbol.name "pad_" || starts_with symbol.name "dtor_"))))

unfoldable pub is_auto_label : ObjSymbol → Bool
is_auto_label symbol = starts_with symbol.name "lbl_"

unfoldable pub is_auto_jump_table : ObjSymbol → Bool
is_auto_jump_table symbol = starts_with symbol.name "jumptable_"

unfoldable pub one_of : String → List String → Bool
one_of s [] = false
one_of s (x ∷ xs) = str_eq s x || one_of s xs

-- `is_linker_generated_label` of src/util/split.rs
unfoldable pub is_linker_generated_label : String → Bool
unfolding one_of
is_linker_generated_label name = one_of name (
    "_ctors" ∷ "_dtors" ∷ "_f_init" ∷ "_f_init_rom" ∷ "_e_init" ∷ "_fextab" ∷ "_fextab_rom"
    ∷ "_eextab" ∷ "_fextabindex" ∷ "_fextabindex_rom" ∷ "_eextabindex" ∷ "_f_text" ∷ "_f_text_rom"
    ∷ "_e_text" ∷ "_f_ctors" ∷ "_f_ctors_rom" ∷ "_e_ctors" ∷ "_f_dtors" ∷ "_f_dtors_rom"
    ∷ "_e_dtors" ∷ "_f_rodata" ∷ "_f_rodata_rom" ∷ "_e_rodata" ∷ "_f_data" ∷ "_f_data_rom"
    ∷ "_e_data" ∷ "_f_sdata" ∷ "_f_sdata_rom" ∷ "_e_sdata" ∷ "_f_sbss" ∷ "_f_sbss_rom" ∷ "_e_sbss"
    ∷ "_f_sdata2" ∷ "_f_sdata2_rom" ∷ "_e_sdata2" ∷ "_f_sbss2" ∷ "_f_sbss2_rom" ∷ "_e_sbss2"
    ∷ "_f_bss" ∷ "_f_bss_rom" ∷ "_e_bss" ∷ "_f_stack" ∷ "_f_stack_rom" ∷ "_e_stack" ∷ "_stack_addr"
    ∷ "_stack_end" ∷ "_db_stack_addr" ∷ "_db_stack_end" ∷ "_heap_addr" ∷ "_heap_end"
    ∷ "_nbfunctions" ∷ "SIZEOF_HEADERS" ∷ "_SDA_BASE_" ∷ "_SDA2_BASE_" ∷ "_ABS_SDA_BASE_"
    ∷ "_ABS_SDA2_BASE_" ∷ [])

-- Import slots are data pointers of four bytes.
unfoldable pub normalize_imp_kind : ObjSymbol → ObjSymbol
normalize_imp_kind symbol =
    if starts_with symbol.name "__imp_"
    then record symbol {
      kind = ObjSymbolKind.object;
      size = if symbol.size_known then symbol.size else 4;
      size_known = true;
    }
    else symbol

-- A relocation that addresses a half word: `@ha`, `@h` or `@l`.
abbrev pub is_addr16 : ObjRelocKind → Bool
is_addr16 ObjRelocKind.ppc_addr16_ha = true
is_addr16 ObjRelocKind.ppc_addr16_hi = true
is_addr16 ObjRelocKind.ppc_addr16_lo = true
is_addr16 _ = false

abbrev pub is_sda21 : ObjRelocKind → Bool
is_sda21 ObjRelocKind.ppc_emb_sda21 = true
is_sda21 _ = false

abbrev pub kind_referenced_by : ObjSymbolKind → ObjRelocKind → Bool
kind_referenced_by ObjSymbolKind.unknown reloc_kind = true
kind_referenced_by ObjSymbolKind.function reloc_kind = not (is_sda21 reloc_kind)
kind_referenced_by ObjSymbolKind.object reloc_kind = true
kind_referenced_by ObjSymbolKind.section reloc_kind = is_addr16 reloc_kind

-- Whether a relocation of a kind may refer to the symbol.
unfoldable pub referenced_by : ObjSymbol → ObjRelocKind → Bool
unfolding is_relocation_ignore is_stripped
referenced_by symbol reloc_kind =
    if is_relocation_ignore symbol.flags || is_stripped symbol.flags
    then false
    else if is_linker_generated_label symbol.name
    then is_addr16 reloc_kind
    else kind_referenced_by symbol.kind reloc_kind

-- The derived `PartialEq`.
abbrev bool_eq : Bool → Bool → Bool
bool_eq true b = b
bool_eq false b = not b

abbrev option_eq {ℓ} : {A : Type ℓ} → (A → A → Bool) → Option A → Option A → Bool
option_eq eq none none = true
option_eq eq (some a) (some b) = eq a b
option_eq eq _ _ = false

flags_eq : List ObjSymbolFlags → FlagSet → FlagSet → Bool
flags_eq [] a b = true
flags_eq (f ∷ fs) a b = bool_eq (a f) (b f) && flags_eq fs a b

abbrev all_flags : List ObjSymbolFlags
all_flags =
    ObjSymbolFlags.global ∷ ObjSymbolFlags.local ∷ ObjSymbolFlags.weak ∷ ObjSymbolFlags.common
    ∷ ObjSymbolFlags.hidden ∷ ObjSymbolFlags.exported ∷ ObjSymbolFlags.relocation_ignore
    ∷ ObjSymbolFlags.no_write ∷ ObjSymbolFlags.stripped ∷ ObjSymbolFlags.no_export
    ∷ ObjSymbolFlags.no_reloc ∷ ObjSymbolFlags.comdat ∷ ObjSymbolFlags.no_comdat
    ∷ ObjSymbolFlags.alias ∷ []

unfoldable pub symbol_eq : ObjSymbol → ObjSymbol → Bool
unfolding flags_eq
symbol_eq a b =
    str_eq a.name b.name
    && (option_eq str_eq a.demangled_name b.demangled_name
        && (a.address == b.address
            && (option_eq ◌==◌ a.section b.section
                && (a.size == b.size
                    && (bool_eq a.size_known b.size_known
                        && (flags_eq all_flags a.flags b.flags
                            && (symbol_kind_eq a.kind b.kind
                                && (option_eq ◌==◌ a.align b.align
                                    && (data_kind_eq a.data_kind b.data_kind
                                        && (option_eq ◌==◌ a.name_hash b.name_hash
                                            && option_eq ◌==◌ a.demangled_name_hash
                                                b.demangled_name_hash))))))))))
