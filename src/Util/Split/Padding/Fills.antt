-- ===== src/Util/Split/Padding/Fills.antt =====
-- `add_padding_symbols` of src/util/split.rs over the splits and the sections of an object.
use decomp_toolkit.Prelude.{
  ℕ, ◌+◌, ◌-◌, ◌^◌, Bool, ◌&&◌, ◌||◌, List, [], ◌∷◌, Option, none, some, str_eq, ◌==◌, ltb, leb,
  if◌then◌else◌, filter, find, get_elem?, Result, ok, err, panic, ◌>>=◌,
}
use decomp_toolkit.Obj.Addresses.{SectionAddress}
use decomp_toolkit.Obj.Splits.{ObjSplit}
use decomp_toolkit.Obj.Sections.{ObjSection, common_bss_start, all_splits}
use decomp_toolkit.Obj.Sections
use decomp_toolkit.Obj.Symbols.Flags.{FlagSet, ObjSymbolFlags, flag, ◌∪◌}
use decomp_toolkit.Obj.Symbols.Symbol.{ObjSymbol}
use decomp_toolkit.Obj.Symbols.Table.{
  ObjSymbols, Error, u32, for_section, for_section_range, at_section_address,
  kind_at_section_address, add_direct,
}
use decomp_toolkit.Obj.Info.{ObjInfo}
use decomp_toolkit.Util.Split.Truncate.{resize}
use decomp_toolkit.Util.Split.Padding.{
  PadError, symbols_error, Names, Fill, symbol_kind_of, new_symbol, fill_symbols,
}

-- The table beside the outcome of a statement, and the statement that follows.
abbrev pub Padded : Type 0
Padded = ObjSymbols × Result PadError (Unit {0})

abbrev pub and_then : (ObjSymbols → Padded) → Padded → Padded
and_then k (t, ok _) = k t
and_then k (t, err e) = (t, err e)
and_then k (t, panic) = (t, panic)

abbrev pub lift {ℓ} : {A : Type ℓ} → Result Error A → Result PadError A
lift (ok a) = ok a
lift (err e) = err (symbols_error e)
lift panic = panic

abbrev pub done {ℓ} : {A : Type ℓ} → ObjSymbols × Result Error A → Padded
done (t, ok _) = (t, ok tt)
done (t, err e) = (t, err (symbols_error e))
done (t, panic) = (t, panic)

abbrev pub on_found {ℓ} : {A : Type ℓ} → ObjSymbols → (A → Padded) → Result PadError A → Padded
on_found t k (ok a) = k a
on_found t k (err e) = (t, err e)
on_found t k panic = (t, panic)

abbrev pub Entry : Type 0
Entry = ℕ × ObjSection × ℕ × ObjSplit

-- The start of the next split of the section, or the end of the section.
abbrev pub next_split_address : ℕ → ObjSection → List Entry → ℕ
next_split_address section_index section [] = section.address + section.size
next_split_address section_index section ((i, s, addr, split) ∷ rest) =
    if i == section_index then addr else section.address + section.size

abbrev pub has_size : ℕ × ObjSymbol → Bool
has_size e = (e.1).size_known && ltb 0 (e.1).size

abbrev pub address_or : ℕ → Option (ℕ × ObjSymbol) → ℕ
address_or address none = address
address_or address (some (_, symbol)) = symbol.address

-- `from..to` of a section that has an index; `BTreeMap::range` panics where it runs backwards.
unfoldable pub symbols_between : ObjSymbols → ℕ → ℕ → ℕ → Result PadError (List (ℕ × ObjSymbol))
symbols_between t section_index from to = elim (get_elem? t.by_section section_index) [
  | none ↦ ok []
  | some _ ↦
      if ltb to from
      then panic
      else lift (for_section_range section_index (λ a. leb from a && ltb a to) t)
]

unfoldable pub next_symbol_address :
    ObjSymbols → ℕ → ObjSection → ℕ → List Entry → Result PadError ℕ
unfolding symbols_between
next_symbol_address t section_index section addr rest =
    let next = next_split_address section_index section rest in
    if ltb (addr + 1) (2 ^ 32)
    then (do
      found ← symbols_between t section_index (addr + 1) (u32 next)
      ok (address_or next (find has_size found)))
    else panic

abbrev pub pad_flags : FlagSet
pad_flags = flag ObjSymbolFlags.local ∪ flag ObjSymbolFlags.exported ∪ flag ObjSymbolFlags.no_write

abbrev pub add_pad : Names → ℕ → ObjSection → ℕ → ObjSymbols → ℕ → Padded
add_pad names section_index section addr t next =
    if leb next addr
    then (t, ok tt)
    else done (
        add_direct
          (new_symbol (names.pad section_index addr section.name) section_index addr (next - addr)
            pad_flags (symbol_kind_of section.kind))
          t)

-- The first symbol of a split that has none.
unfoldable pub pad_split : Names → Entry → List Entry → ObjSymbols → Padded
unfolding next_symbol_address
pad_split names (section_index, section, addr, split) rest t =
    if str_eq section.name ".ctors" || (str_eq section.name ".dtors" || addr == split.end)
    then (t, ok tt)
    else elim (kind_at_section_address section_index addr (symbol_kind_of section.kind) t) [
      | ok (some _) ↦ (t, ok tt)
      | ok none ↦
          on_found t (add_pad names section_index section addr t)
            (next_symbol_address t section_index section addr rest)
      | err e ↦ (t, err (symbols_error e))
      | panic ↦ (t, panic)
    ]

unfoldable pub pad_splits : Names → List Entry → ObjSymbols → Padded
unfolding pad_split
pad_splits names [] t = (t, ok tt)
pad_splits names (entry ∷ rest) t = and_then (pad_splits names rest) (pad_split names entry rest t)

unfoldable pub resize_each : ℕ → List (ℕ × ObjSymbol) → ObjSymbols → Padded
unfolding resize
resize_each size [] t = (t, ok tt)
resize_each size ((idx, _) ∷ rest) t = and_then (resize_each size rest) (done (resize idx size t))

-- Every symbol with a known size at the address, whatever its name.
unfoldable pub truncate_at : ℕ → List (ℕ × ℕ) → ObjSymbols → Padded
unfolding resize_each
truncate_at section_index [] t = (t, ok tt)
truncate_at section_index ((addr, size) ∷ rest) t = and_then (truncate_at section_index rest) (
    on_found t
      (λ (found : List (ℕ × ObjSymbol)).
        resize_each size (filter (λ (e : ℕ × ObjSymbol). (e.1).size_known) found) t)
      (lift (at_section_address section_index (u32 addr) t)))

unfoldable pub add_each : List ObjSymbol → ObjSymbols → Padded
add_each [] t = (t, ok tt)
add_each (symbol ∷ rest) t = and_then (add_each rest) (done (add_direct symbol t))

abbrev pub apply_fill : ℕ → ObjSymbols → Fill → Padded
apply_fill section_index t f =
    and_then (add_each f.to_add) (truncate_at section_index f.to_truncate t)

-- The gaps between the symbols of a section.
unfoldable pub pad_section :
    Names → ℕ → Option SectionAddress → ℕ × ObjSection → ObjSymbols → Padded
unfolding fill_symbols truncate_at add_each
pad_section names module_id common (section_index, section) t =
    if str_eq section.name ".ctors" || str_eq section.name ".dtors"
    then (t, ok tt)
    else on_found t (apply_fill section_index t) (do
      found ← lift (for_section section_index t)
      fill_symbols names module_id section section_index common (filter has_size found)
          (record { to_add = []; to_truncate = [] }))

unfoldable pub pad_sections :
    Names → ℕ → Option SectionAddress → List (ℕ × ObjSection) → ObjSymbols → Padded
unfolding pad_section
pad_sections names module_id common [] t = (t, ok tt)
pad_sections names module_id common (s ∷ rest) t =
    and_then (pad_sections names module_id common rest) (pad_section names module_id common s t)

unfoldable pub add_padding_symbols : Names → ObjInfo → ObjInfo × Result PadError (Unit {0})
unfolding pad_splits pad_sections
add_padding_symbols names obj =
    let sections =
      pad_sections names obj.module_id (common_bss_start obj.sections)
        (Sections.iter obj.sections) in
    let (symbols, result) =
      and_then sections (pad_splits names (all_splits obj.sections) obj.symbols) in
    (record obj { symbols = symbols }, result)
