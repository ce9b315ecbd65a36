-- ===== src/Tests/Symbols.antt =====
-- The properties of the symbol table at concrete tables.
use decomp_toolkit.Prelude.{
  ℕ, zero, suc, ◌^◌, ◌<◌, ◌≡◌, refl, true, false, List, [], ◌∷◌, ◌++◌, Option, none, some, length,
  get_elem?, ok, arith, String,
}
use decomp_toolkit.Obj.Kinds.{ObjKind, ObjSymbolKind, ObjDataKind}
use decomp_toolkit.Obj.Symbols.Flags.{ObjSymbolFlags, FlagSet, flag, no_flags}
use decomp_toolkit.Obj.Symbols.Symbol.{ObjSymbol, normalize_imp_kind}
use decomp_toolkit.Obj.Symbols.Table.{ObjSymbols, is_placed, indexed, new, add_direct, replace}
use decomp_toolkit.Obj.Symbols.Table.Indexes.{IsIndexed, indexed-IsIndexed, new-IsIndexed}
use decomp_toolkit.Obj.Symbols.Table.Writes.{
  IsConsistent, add_direct-IsConsistent, replace-IsConsistent,
}
use decomp_toolkit.Obj.Relocations.{ObjRelocKind}
use decomp_toolkit.Obj.Symbols.Relocation.{best_match_for_reloc}
use decomp_toolkit.Obj.Symbols.Relocation.Ranks.{FirstHighest, best_match_for_reloc-FirstHighest}
use decomp_toolkit.Obj.Symbols.Add.{add}
use decomp_toolkit.Obj.Symbols.Add.Merges.{add-IsConsistent}
use decomp_toolkit.Obj.Symbols.Add.Places.{KeepsPlaces, add-KeepsPlaces}
use decomp_toolkit.Obj.Symbols.Add.Locates.{Locates, add-Locates}

abbrev pub symbol_at : String → ℕ → Option ℕ → FlagSet → ObjSymbol
symbol_at name address section flags = record {
  name = name;
  demangled_name = none;
  address = address;
  section = section;
  size = 8;
  size_known = true;
  flags = flags;
  kind = ObjSymbolKind.function;
  align = none;
  data_kind = ObjDataKind.unknown;
  name_hash = none;
  demangled_name_hash = none;
}

abbrev auto : ObjSymbol
auto = symbol_at "fn_80003100" 2147496192 (some 1) no_flags

abbrev main_symbol : ObjSymbol
main_symbol = symbol_at "main" 2147496192 (some 1) (flag ObjSymbolFlags.global)

abbrev absolute_symbol : ObjSymbol
absolute_symbol = symbol_at "_SDA_BASE_" 4096 none no_flags

abbrev stripped_symbol : ObjSymbol
stripped_symbol = symbol_at "unused" 2147496192 (some 1) (flag ObjSymbolFlags.stripped)

abbrev other : ObjSymbol
other = symbol_at "memcpy" 2147496448 (some 1) (flag ObjSymbolFlags.global)

abbrev symbols : List ObjSymbol
symbols = auto ∷ (other ∷ [])

abbrev table : ObjSymbols
table = indexed ObjKind.executable symbols

abbrev relocatable : ObjSymbols
relocatable = indexed ObjKind.relocatable symbols

new-IsIndexed_example :
    (t : ObjSymbols) × (new ObjKind.executable symbols ≡ ok t)
    × (t.symbols ≡ symbols)
    × IsIndexed t.symbols t.maps
unfolding is_placed
new-IsIndexed_example = new-IsIndexed ObjKind.executable symbols (omega arith) (refl, (refl, tt))

table-IsConsistent : IsConsistent table
table-IsConsistent = indexed-IsIndexed ObjKind.executable symbols (omega arith)

relocatable-IsConsistent : IsConsistent relocatable
relocatable-IsConsistent = indexed-IsIndexed ObjKind.relocatable symbols (omega arith)

add_direct-IsConsistent_example :
    IsConsistent (add_direct main_symbol table).0
    × ((add_direct main_symbol table).1 ≡ ok (length table.symbols))
    × ((add_direct main_symbol table).0.symbols
        ≡ table.symbols ++ (normalize_imp_kind main_symbol ∷ []))
unfolding is_placed
add_direct-IsConsistent_example =
    add_direct-IsConsistent main_symbol table (omega arith) refl table-IsConsistent

replace-IsConsistent_example : IsConsistent (replace 0 main_symbol table).0
replace-IsConsistent_example = replace-IsConsistent 0 main_symbol table table-IsConsistent

add-KeepsPlaces_example : KeepsPlaces table (add main_symbol false table).0
add-KeepsPlaces_example = add-KeepsPlaces main_symbol false table

low : (i : ℕ) (x : ObjSymbol) → get_elem? symbols i ≡ some x → x.address < 2 ^ 32
low zero x e = ground arith
low (suc zero) x e = ground arith
low (suc (suc i)) x e = ground arith

add-Locates_example : Locates main_symbol.address 1 (add main_symbol false table)
add-Locates_example =
    add-Locates main_symbol false 1 table (omega arith) (omega arith) low refl table-IsConsistent

returned : Locates main_symbol.address 1 (add main_symbol false table)
returned =
    add-Locates main_symbol false 1 table (omega arith) (omega arith) low refl table-IsConsistent

add-IsConsistent_example : IsConsistent (add main_symbol false table).0
add-IsConsistent_example =
    add-IsConsistent main_symbol false table (omega arith) table-IsConsistent returned.2

best_match_for_reloc-FirstHighest_example :
    (y : ℕ × ObjSymbol) × (best_match_for_reloc
        ((0, auto) ∷ ((1, other) ∷ []))
        ObjRelocKind.ppc_rel24
      ≡ some y)
    × FirstHighest ObjRelocKind.ppc_rel24 ((0, auto) ∷ ((1, other) ∷ [])) y
best_match_for_reloc-FirstHighest_example =
    best_match_for_reloc-FirstHighest (0, auto) ((1, other) ∷ []) ObjRelocKind.ppc_rel24
