-- ===== src/Obj/Symbols/Relocation.antt =====
-- The symbol that a relocation refers to: `best_match_for_reloc` and `ObjSymbols::for_relocation`
-- of src/obj/symbols.rs, with the iterators that they use. Sums of `u64` addresses and sizes do
-- not reach 2^64 for symbols of a 32-bit address space, and are plain sums.
pub mod Least
pub mod Ranks
use decomp_toolkit.Prelude.{
  ℕ, ◌+◌, ◌-◌, ◌%◌, ◌^◌, Bool, true, false, ◌&&◌, ◌||◌, not, List, [], ◌∷◌, ◌++◌, Option, none,
  some, ◌==◌, ltb, leb, if◌then◌else◌, length, head?, filter, sort_by_key, rev, Result, ok,
  starts_with, ◌>>=◌,
}
use decomp_toolkit.Prelude.BTreeMap.{BTreeMap}
use decomp_toolkit.Prelude.BTreeMap
use decomp_toolkit.Obj.Kinds.{ObjSymbolKind, symbol_kind_eq}
use decomp_toolkit.Obj.Addresses.{SectionAddress}
use decomp_toolkit.Obj.Relocations.{ObjRelocKind}
use decomp_toolkit.Obj.Symbols.Symbol.{ObjSymbol, one_of, is_addr16, referenced_by}
use decomp_toolkit.Obj.Symbols.Table.{u32, Error, ObjSymbols, resolve}

-- `iter().enumerate()` from an index on.
unfoldable pub enumerate : ℕ → List ObjSymbol → List (ℕ × ObjSymbol)
enumerate n [] = []
enumerate n (s ∷ ss) = (u32 n, s) ∷ enumerate (n + 1) ss

unfoldable pub iter : ObjSymbols → List (ℕ × ObjSymbol)
unfolding enumerate
iter t = enumerate 0 t.symbols

unfoldable pub count : ObjSymbols → ℕ
count t = u32 (length t.symbols)

unfoldable pub by_kind : ObjSymbolKind → ObjSymbols → List (ℕ × ObjSymbol)
unfolding iter
by_kind kind t = filter (λ (e : ℕ × ObjSymbol). symbol_kind_eq (e.1).kind kind) (iter t)

unfoldable pub indexes_for_range : (ℕ → Bool) → ObjSymbols → List (ℕ × List ℕ)
indexes_for_range inside t = BTreeMap.range inside t.by_address

abbrev pub is_save_restore : ObjSymbol → Bool
is_save_restore symbol =
    one_of symbol.name ("__save_gpr" ∷ ("__restore_gpr" ∷ ("__save_fpr" ∷ ("__restore_fpr" ∷ []))))

-- The rank of a symbol of a kind before its size counts, one higher than in the code, where a
-- section has rank -1. `none` is the early return of key 0.
unfoldable pub base_rank : ObjRelocKind → ObjSymbol → ObjSymbolKind → Option ℕ
base_rank reloc_kind symbol ObjSymbolKind.function =
    if is_save_restore symbol then none else if is_addr16 reloc_kind then some 2 else some 3
base_rank reloc_kind symbol ObjSymbolKind.object =
    if is_save_restore symbol then none else if is_addr16 reloc_kind then some 2 else some 3
base_rank reloc_kind symbol ObjSymbolKind.unknown =
    if is_addr16 reloc_kind && not (starts_with symbol.name "..") then some 4 else some 2
base_rank reloc_kind symbol ObjSymbolKind.section = some 0

-- The sort key, `-rank` in the code, five higher: a rank is at most 4.
unfoldable pub reloc_key : ObjRelocKind → ℕ × ObjSymbol → ℕ
unfolding base_rank
reloc_key reloc_kind (_, symbol) = elim (base_rank reloc_kind symbol symbol.kind) [
  | none ↦ 5
  | some rank ↦ 6 - (if ltb 0 symbol.size then rank + 1 else rank)
]

unfoldable pub best_match_for_reloc : List (ℕ × ObjSymbol) → ObjRelocKind → Option (ℕ × ObjSymbol)
unfolding sort_by_key
best_match_for_reloc (x ∷ []) reloc_kind = some x
best_match_for_reloc symbols reloc_kind = head? (sort_by_key (reloc_key reloc_kind) symbols)

-- Whether a symbol is a candidate for a relocation to a section.
unfoldable pub may_target : ℕ → ObjRelocKind → ℕ × ObjSymbol → Bool
may_target section reloc_kind (_, symbol) =
    (elim symbol.section [ none ↦ true | some s ↦ s == section ]) && referenced_by symbol reloc_kind

-- The loop of `for_relocation` over the addresses from the target down.
unfoldable pub search_back :
    SectionAddress
    → ObjRelocKind
    → ObjSymbols
    → List (ℕ × List ℕ)
    → Result Error (Option (ℕ × ObjSymbol))
search_back target reloc_kind t [] = ok none
search_back target reloc_kind t ((_, symbol_idxs) ∷ below) =
    let next = search_back target reloc_kind t below in
    do
      symbols ← resolve t symbol_idxs
      elim (best_match_for_reloc (filter (may_target target.section reloc_kind) symbols)
          reloc_kind) [
            | none ↦ next
            | some (idx, symbol) ↦
                if symbol.address == target.address
                then ok (some (idx, symbol))
                else if ltb 0 symbol.size
                then ok (
                    if ltb target.address (symbol.address + symbol.size)
                    then some (idx, symbol)
                    else none)
                else next
          ]

unfoldable pub for_relocation :
    SectionAddress → ObjRelocKind → ObjSymbols → Result Error (Option (ℕ × ObjSymbol))
unfolding search_back
for_relocation target reloc_kind t =
    search_back target reloc_kind t (rev (indexes_for_range (λ a. leb a target.address) t))
