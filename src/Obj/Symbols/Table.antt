-- ===== src/Obj/Symbols/Table.antt =====
-- `ObjSymbols` of src/obj/symbols.rs: the symbols, and the indexes by address, by name and by
-- section and address. A method that changes the table returns the new table and its result, so
-- that what an early return leaves behind is part of the model.
pub mod Indexes
pub mod Writes
pub mod Reads
use decomp_toolkit.Prelude.{
  ℕ, zero, suc, ◌+◌, ◌-◌, ◌%◌, ◌^◌, ◌≡◌, Bool, true, false, not, ◌&&◌, ◌||◌, List, [], ◌∷◌, ◌++◌,
  Option, none, some, String, str_eq, ◌==◌, leb, ltb, if◌then◌else◌, length, get_or, get_elem?, set,
  replicate, filter, find, Result, ok, err, panic, ◌>>=◌, expect, ok_or,
}
use decomp_toolkit.Prelude.BTreeMap.{BTreeMap}
use decomp_toolkit.Prelude.BTreeMap
use decomp_toolkit.Prelude.HashMap.{HashMap}
use decomp_toolkit.Util.Nested.{bucket, nested_push, name_bucket, name_push, name_remove}
use decomp_toolkit.Obj.Kinds.{ObjKind, ObjSymbolKind, ObjDataKind, is_executable, symbol_kind_eq}
use decomp_toolkit.Obj.Symbols.Flags.{FlagSet, is_alias, is_stripped, is_common, keep_flags, ◌∪◌}
use decomp_toolkit.Obj.Symbols.Symbol.{
  ObjSymbol, normalize_imp_kind, is_auto_symbol, is_auto_label, is_auto_jump_table, symbol_eq,
}

pub data Error : Type 0 where
  abs_symbol_in_relocatable modify_address modify_section multiple_symbols : Error

-- `as u32`
abbrev pub u32 : ℕ → ℕ
u32 n = n % 2 ^ 32

pub record SymbolMaps : Type 0 where
  pub by_address : BTreeMap (List ℕ)
  pub by_name : HashMap (List ℕ)
  pub by_section : List (BTreeMap (List ℕ))

pub record ObjSymbols : Type 0 where
  pub obj_kind : ObjKind
  pub symbols : List ObjSymbol
  pub maps : SymbolMaps
  pub open maps use *

-- `resize_with(section + 1, BTreeMap::new)` where the vector is too short, then the push.
unfoldable pub push_section : ℕ → ℕ → ℕ → List (BTreeMap (List ℕ)) → List (BTreeMap (List ℕ))
push_section section address idx v =
    let grown = v ++ replicate (section + 1 - length v) [] in
    set grown section (nested_push address idx (get_or grown section []))

abbrev pub push_some_section :
    Option ℕ → ℕ → ℕ → List (BTreeMap (List ℕ)) → List (BTreeMap (List ℕ))
push_some_section none address idx v = v
push_some_section (some section) address idx v = push_section section address idx v

unfoldable pub push_name : String → ℕ → HashMap (List ℕ) → HashMap (List ℕ)
push_name name idx m = if str_eq name "" then m else name_push name idx m

-- The body of the loop of `new`.
unfoldable pub index_symbol : ℕ → ObjSymbol → SymbolMaps → SymbolMaps
index_symbol idx symbol maps = record {
  by_address = nested_push (u32 symbol.address) idx maps.by_address;
  by_name = push_name symbol.name idx maps.by_name;
  by_section = push_some_section symbol.section (u32 symbol.address) idx maps.by_section;
}

unfoldable pub index_symbols : ℕ → List ObjSymbol → SymbolMaps → SymbolMaps
index_symbols n [] maps = maps
index_symbols n (symbol ∷ rest) maps = index_symbols (suc n) rest (index_symbol (u32 n) symbol maps)

abbrev pub indexed : ObjKind → List ObjSymbol → ObjSymbols
indexed obj_kind symbols = record {
  obj_kind = obj_kind;
  symbols = symbols;
  maps = index_symbols 0 symbols (record { by_address = []; by_name = []; by_section = [] });
}

-- The `debug_assert!` of the loop of `new`.
unfoldable pub is_placed : ObjKind → ObjSymbol → Bool
unfolding is_common
is_placed obj_kind symbol = elim symbol.section [
  | some _ ↦ true
  | none ↦ symbol.address == 0 || (is_common symbol.flags || is_executable obj_kind)
]

abbrev pub all_placed : ObjKind → List ObjSymbol → Bool
all_placed obj_kind [] = true
all_placed obj_kind (symbol ∷ rest) = is_placed obj_kind symbol && all_placed obj_kind rest

-- A debug build panics at an absolute symbol in a relocatable object.
unfoldable pub new : ObjKind → List ObjSymbol → Result Error ObjSymbols
new obj_kind symbols = if all_placed obj_kind symbols then ok (indexed obj_kind symbols) else panic

-- `add_direct` after `normalize_imp_kind`. The address index is pushed before the `ensure!`.
unfoldable pub add_normalized : ObjSymbol → ObjSymbols → ObjSymbols × Result Error ℕ
unfolding is_common
add_normalized symbol t =
    let idx = u32 (length t.symbols) in
    let done : ObjSymbols × Result Error ℕ = (
      record t { symbols = t.symbols ++ (symbol ∷ []); maps = index_symbol idx symbol t.maps },
      ok idx,
    ) in
    elim symbol.section [
      | some _ ↦ done
      | none ↦
          if symbol.address == 0 || (is_common symbol.flags || is_executable t.obj_kind)
          then done
          else (
            record t {
              maps = record {
                by_address = nested_push (u32 symbol.address) idx t.by_address;
                by_name = t.by_name;
                by_section = t.by_section;
              };
            },
            err abs_symbol_in_relocatable,
          )
    ]

unfoldable pub add_direct : ObjSymbol → ObjSymbols → ObjSymbols × Result Error ℕ
unfolding add_normalized
add_direct symbol t = add_normalized (normalize_imp_kind symbol) t

-- `&self.symbols[idx as usize]` for each index: an index past the end panics.
unfoldable pub resolve : ObjSymbols → List ℕ → Result Error (List (ℕ × ObjSymbol))
resolve t [] = ok []
resolve t (idx ∷ rest) = do
  symbol ← expect (get_elem? t.symbols idx)
  more ← resolve t rest
  ok ((idx, symbol) ∷ more)

unfoldable pub at_section_address : ℕ → ℕ → ObjSymbols → Result Error (List (ℕ × ObjSymbol))
unfolding is_stripped
at_section_address section address t = do
  found ← resolve t (bucket address (get_or t.by_section section []))
  ok (filter (λ (e : ℕ × ObjSymbol). not (is_stripped (e.1).flags)) found)

-- All vectors of an ordered map, in order.
unfoldable pub flatten_values : BTreeMap (List ℕ) → List ℕ
flatten_values [] = []
flatten_values ((k, v) ∷ m) = v ++ flatten_values m

abbrev pub has_no_section : ℕ × ObjSymbol → Bool
has_no_section e = elim (e.1).section [ none ↦ true | some _ ↦ false ]

-- A debug build panics on a relocatable object.
unfoldable pub iter_abs : ObjSymbols → Result Error (List (ℕ × ObjSymbol))
iter_abs t =
    if is_executable t.obj_kind
    then (do found ← resolve t (flatten_values t.by_address); ok (filter has_no_section found))
    else panic

unfoldable pub for_section : ℕ → ObjSymbols → Result Error (List (ℕ × ObjSymbol))
for_section section t = resolve t (flatten_values (get_or t.by_section section []))

unfoldable pub for_section_range : ℕ → (ℕ → Bool) → ObjSymbols → Result Error (List (ℕ × ObjSymbol))
for_section_range section inside t =
    resolve t (flatten_values (BTreeMap.range inside (get_or t.by_section section [])))

unfoldable pub for_name : String → ObjSymbols → Result Error (List (ℕ × ObjSymbol))
for_name name t = resolve t (name_bucket name t.by_name)

-- The only entry, none, or an error where there are several.
abbrev pub at_most_one {ℓ} : {A : Type ℓ} → List A → Result Error (Option A)
at_most_one [] = ok none
at_most_one (x ∷ []) = ok (some x)
at_most_one (x ∷ (y ∷ ys)) = err multiple_symbols

unfoldable pub by_name : String → ObjSymbols → Result Error (Option (ℕ × ObjSymbol))
unfolding for_name
by_name name t = do found ← for_name name t; at_most_one found

unfoldable pub kind_at_section_address :
    ℕ → ℕ → ObjSymbolKind → ObjSymbols → Result Error (Option (ℕ × ObjSymbol))
unfolding at_section_address
kind_at_section_address section address kind t = do
  found ← at_section_address section address t
  at_most_one (filter (λ (e : ℕ × ObjSymbol). symbol_kind_eq (e.1).kind kind) found)

-- `symbols_by_name` after a symbol's name changes.
unfoldable pub rename_index : String → String → ℕ → HashMap (List ℕ) → HashMap (List ℕ)
unfolding push_name
rename_index old name idx m =
    if str_eq old name
    then m
    else push_name name idx (if str_eq old "" then m else name_remove old idx m)

abbrev pub section_eq : Option ℕ → Option ℕ → Bool
section_eq none none = true
section_eq (some a) (some b) = a == b
section_eq _ _ = false

-- `replace` after `normalize_imp_kind`, on the symbol that stands at the index.
abbrev pub replace_at :
    ℕ → ObjSymbol → ObjSymbol → ObjSymbols → ObjSymbols × Result Error (Unit {0})
replace_at idx old symbol t =
    if not (old.address == symbol.address)
    then (t, err modify_address)
    else if not (section_eq old.section symbol.section)
    then (t, err modify_section)
    else (
      record t {
        symbols = set t.symbols idx symbol;
        maps = record {
          by_address = t.by_address;
          by_name = rename_index old.name symbol.name idx t.by_name;
          by_section = t.by_section;
        };
      },
      ok tt,
    )

unfoldable pub replace : ℕ → ObjSymbol → ObjSymbols → ObjSymbols × Result Error (Unit {0})
replace idx symbol t = elim (get_elem? t.symbols idx) [
  | none ↦ (t, panic)
  | some old ↦ replace_at idx old (normalize_imp_kind symbol) t
]
