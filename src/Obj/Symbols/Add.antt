-- ===== src/Obj/Symbols/Add.antt =====
-- `ObjSymbols::add` of src/obj/symbols.rs: the search for a symbol to merge with, and the merge.
pub mod Merges
pub mod Places
pub mod Locates
use decomp_toolkit.Prelude.{
  ℕ, Bool, true, not, ◌&&◌, ◌||◌, Option, none, some, str_eq, ◌==◌, if◌then◌else◌, find, Result, ok,
  err, panic, ◌>>=◌,
}
use decomp_toolkit.Obj.Kinds.{ObjSymbolKind, ObjDataKind, is_executable, symbol_kind_eq}
use decomp_toolkit.Obj.Symbols.Flags.{is_alias, is_stripped, keep_flags, ◌∪◌}
use decomp_toolkit.Obj.Symbols.Symbol.{
  ObjSymbol, normalize_imp_kind, is_auto_symbol, is_auto_label, is_auto_jump_table, symbol_eq,
}
use decomp_toolkit.Obj.Symbols.Table.{
  Error, abs_symbol_in_relocatable, u32, ObjSymbols, add_direct, at_section_address, iter_abs,
  replace,
}

-- The closure that picks the symbol at the same address to merge with.
unfoldable pub merges_with : ObjSymbol → ObjSymbol → Bool
merges_with in_symbol symbol =
    symbol_kind_eq symbol.kind in_symbol.kind
    || (str_eq symbol.name in_symbol.name
        || (symbol_kind_eq symbol.kind ObjSymbolKind.unknown && is_auto_symbol symbol))

unfoldable pub find_existing : ObjSymbol → ObjSymbols → Result Error (Option (ℕ × ObjSymbol))
find_existing in_symbol t =
    if is_stripped in_symbol.flags then ok none else elim in_symbol.section [
      | some section ↦ do
        found ← at_section_address section (u32 in_symbol.address) t
        ok (find (λ (e : ℕ × ObjSymbol). merges_with in_symbol e.1) found)
      | none ↦
          if is_executable t.obj_kind
          then (do
            found ← iter_abs t
            ok (find (λ (e : ℕ × ObjSymbol). str_eq (e.1).name in_symbol.name) found))
          else err abs_symbol_in_relocatable
    ]

-- `replace` as shadowed in the merge.
unfoldable pub replaces : Bool → ObjSymbol → ObjSymbol → Bool
replaces replace_flag existing in_symbol =
    replace_flag
    || (is_auto_symbol existing && not (is_auto_symbol in_symbol)
        || is_auto_label existing && is_auto_jump_table in_symbol)

unfoldable pub merged_size : Bool → ObjSymbol → ObjSymbol → ℕ
merged_size replacing existing in_symbol =
    if existing.size_known && (in_symbol.size_known && not (existing.size == in_symbol.size))
    then if replacing then in_symbol.size else existing.size
    else if in_symbol.size_known
    then in_symbol.size
    else existing.size

abbrev pub or_else {ℓ} : {A : Type ℓ} → Option A → Option A → Option A
or_else none b = b
or_else (some a) b = some a

-- Both kinds known and different: the existing kind stays.
unfoldable pub merged_kind : ObjSymbolKind → ObjSymbolKind → ObjSymbolKind
merged_kind existing in_kind =
    if not (symbol_kind_eq existing ObjSymbolKind.unknown)
      && (not (symbol_kind_eq in_kind ObjSymbolKind.unknown)
          && not (symbol_kind_eq existing in_kind))
    then existing
    else in_kind

abbrev pub merged_data_kind : ObjDataKind → ObjDataKind → ObjDataKind
merged_data_kind existing ObjDataKind.unknown = existing
merged_data_kind existing kind = kind

unfoldable pub merged : Bool → ObjSymbol → ObjSymbol → ObjSymbol
unfolding merged_size merged_kind keep_flags
merged replacing existing in_symbol = record {
  name = in_symbol.name;
  demangled_name = in_symbol.demangled_name;
  address = in_symbol.address;
  section = in_symbol.section;
  size = merged_size replacing existing in_symbol;
  size_known = existing.size_known || not (in_symbol.size == 0);
  flags = in_symbol.flags ∪ keep_flags existing.flags;
  kind = merged_kind existing.kind in_symbol.kind;
  align = or_else in_symbol.align existing.align;
  data_kind = merged_data_kind existing.data_kind in_symbol.data_kind;
  name_hash = or_else in_symbol.name_hash existing.name_hash;
  demangled_name_hash = or_else in_symbol.demangled_name_hash existing.demangled_name_hash;
}

-- `self.replace(…)?` and then the index.
abbrev pub then_index : ℕ → ObjSymbols × Result Error (Unit {0}) → ObjSymbols × Result Error ℕ
then_index idx (t, ok _) = (t, ok idx)
then_index idx (t, err e) = (t, err e)
then_index idx (t, panic) = (t, panic)

unfoldable pub merge_into :
    Bool → ℕ → ObjSymbol → ObjSymbol → ObjSymbols → ObjSymbols × Result Error ℕ
merge_into replace_flag idx existing in_symbol t =
    let replacing = replaces replace_flag existing in_symbol in
    let new_symbol = merged replacing existing in_symbol in
    if not replacing
    then if in_symbol.size_known && not existing.size_known
      then then_index idx
          (replace idx (record existing { size = in_symbol.size; size_known = true }) t)
      else (t, ok idx)
    else if symbol_eq existing new_symbol
    then (t, ok idx)
    else then_index idx (replace idx new_symbol t)

-- The symbol that `add` stores where there is nothing to merge with.
unfoldable pub fresh : ObjSymbol → ObjSymbol
fresh in_symbol = record in_symbol { size_known = not (in_symbol.size == 0) }

abbrev pub add_found :
    Result Error (Option (ℕ × ObjSymbol))
    → Bool
    → ObjSymbol
    → ObjSymbols
    → ObjSymbols × Result Error ℕ
add_found (ok (some (idx, existing))) replace_flag in_symbol t =
    merge_into replace_flag idx existing in_symbol t
add_found (ok none) replace_flag in_symbol t = add_direct (fresh in_symbol) t
add_found (err e) replace_flag in_symbol t = (t, err e)
add_found panic replace_flag in_symbol t = (t, panic)

unfoldable pub add : ObjSymbol → Bool → ObjSymbols → ObjSymbols × Result Error ℕ
add in_symbol replace_flag t =
    let symbol = normalize_imp_kind in_symbol in
    if is_alias symbol.flags
    then add_direct symbol t
    else add_found (find_existing symbol t) replace_flag symbol t
