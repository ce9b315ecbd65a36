-- ===== src/Util/Split/Padding.antt =====
-- The second pass of `add_padding_symbols` of src/util/split.rs, which fills the gaps between the
-- symbols of a section and cuts symbols that run into the next one. The names of the new symbols,
-- which the format macro makes, are parameters.
pub mod Aligned
pub mod Between
pub mod Overlaps
pub mod Fills
use decomp_toolkit.Prelude.{
  ℕ, ◌+◌, ◌-◌, ◌^◌, max, bit_and, Bool, true, false, not, ◌&&◌, ◌||◌, List, [], ◌∷◌, ◌++◌, Option,
  none, some, String, str_eq, ◌==◌, ltb, leb, if◌then◌else◌, filter, Result, ok, err, panic, ◌>>=◌,
}
use decomp_toolkit.Obj.Kinds.{
  ObjSectionKind, code, bss, section_kind_eq, ObjSymbolKind, ObjDataKind,
}
use decomp_toolkit.Obj.Addresses.{SectionAddress}
use decomp_toolkit.Obj.Sections.{ObjSection, SectionError, data_range, common_bss_start}
use decomp_toolkit.Obj.Sections
use decomp_toolkit.Obj.Symbols.Flags.{FlagSet, ObjSymbolFlags, flag, no_flags, ◌∪◌}
use decomp_toolkit.Obj.Symbols.Symbol.{ObjSymbol}
use decomp_toolkit.Obj.Symbols.Table.{
  ObjSymbols, Error, u32, for_section, at_section_address, add_direct,
}
use decomp_toolkit.Obj.Info.{ObjInfo}
use decomp_toolkit.Util.Split.Boundaries.{is_autogen, boundary}
use decomp_toolkit.Util.Split.Truncate.{resize, then_on}

pub data PadError : Type 0 where
  overlaps_symbol : PadError
  section_error : SectionError → PadError
  symbols_error : Error → PadError

-- The name of a label, from the module, the section's name and the address; and those of a gap and
-- of the start of a split, from the section's index, the address and the section's name.
pub record Names : Type 0 where
  pub label : ℕ → String → ℕ → String
  pub gap : ℕ → ℕ → String → String
  pub pad : ℕ → ℕ → String → String

-- The new symbols, and the addresses and new sizes of those to be cut.
pub record Fill : Type 0 where
  pub to_add : List ObjSymbol
  pub to_truncate : List (ℕ × ℕ)

abbrev pub symbol_kind_of : ObjSectionKind → ObjSymbolKind
symbol_kind_of kind =
    if section_kind_eq kind code then ObjSymbolKind.function else ObjSymbolKind.object

abbrev pub new_symbol : String → ℕ → ℕ → ℕ → FlagSet → ObjSymbolKind → ObjSymbol
new_symbol name section_index address size flags kind = record {
  name = name;
  demangled_name = none;
  address = address;
  section = some section_index;
  size = size;
  size_known = true;
  flags = flags;
  kind = kind;
  align = none;
  data_kind = ObjDataKind.unknown;
  name_hash = none;
  demangled_name_hash = none;
}

abbrev pub gap_flags : FlagSet
gap_flags =
    flag ObjSymbolFlags.global
    ∪ flag ObjSymbolFlags.hidden
    ∪ flag ObjSymbolFlags.exported
    ∪ flag ObjSymbolFlags.no_write

-- `align_up` of src/util/mod.rs: a debug build panics where `align` is 0 or the sum leaves `u32`.
unfoldable pub align_up : {E : Type 0} → ℕ → ℕ → Result E ℕ
align_up value align =
    if align == 0 || leb (2 ^ 32) (value + (align - 1))
    then panic
    else ok (bit_and (value + (align - 1)) (2 ^ 32 - align))

abbrev pub align_or : Option ℕ → ℕ
align_or none = 1
align_or (some align) = align

-- The address of the next symbol, or the end of the section, and its alignment.
abbrev pub next_place : ObjSection → List (ℕ × ObjSymbol) → ℕ × ℕ
next_place section [] = (u32 (section.address + section.size), 1)
next_place section ((_, next) ∷ rest) = (u32 next.address, align_or next.align)

abbrev pub in_common : Option SectionAddress → ℕ → ObjSymbol → Bool
in_common none section_index symbol = false
in_common (some addr) section_index symbol =
    section_index == addr.section && leb addr.address (u32 symbol.address)

abbrev pub symbol_end : ObjSymbol → ℕ
symbol_end symbol = u32 (symbol.address + symbol.size)

-- How far the gap behind the symbol reaches.
unfoldable pub gap_limit : ObjSection → ObjSymbol → ℕ → Result PadError ℕ
unfolding boundary
gap_limit section symbol next_address = do
  limit ← boundary section.splits (u32 symbol.address) next_address
  ok (max limit (symbol_end symbol))

abbrev pub lift_bytes : Result SectionError (List ℕ) → Result PadError (List ℕ)
lift_bytes (ok bytes) = ok bytes
lift_bytes (err e) = err (section_error e)
lift_bytes panic = panic

abbrev pub any_set : List ℕ → Bool
any_set [] = false
any_set (b ∷ bs) = not (b == 0) || any_set bs

-- Whether there is something other than zeros between the symbol and the limit.
unfoldable pub has_bytes : ObjSection → ℕ → ℕ → Result PadError Bool
unfolding data_range
has_bytes section from limit =
    if not (section_kind_eq section.kind code || section_kind_eq section.kind bss) && ltb from limit
    then (do bytes ← lift_bytes (data_range section from limit); ok (any_set bytes))
    else ok false

abbrev pub add_label : Names → ℕ → ObjSection → ℕ → ℕ → ℕ → Fill → Fill
add_label names module_id section section_index from limit f =
    let name = names.label module_id section.name from in
    let label = new_symbol name section_index from (limit - from) no_flags ObjSymbolKind.object in
    record f { to_add = f.to_add ++ (label ∷ []) }

abbrev pub add_gap : Names → ObjSection → ℕ → ℕ → ℕ → Fill → Fill
add_gap names section section_index from limit f =
    let name = names.gap section_index from section.name in
    let kind = symbol_kind_of section.kind in
    let gap = new_symbol name section_index from (limit - from) gap_flags kind in
    record f { to_add = f.to_add ++ (gap ∷ []) }

-- The comparison of the aligned end with the limit.
unfoldable pub fill_from : Names → ObjSection → ℕ → ObjSymbol → ℕ → ℕ → Fill → Result PadError Fill
unfolding is_autogen
fill_from names section section_index symbol aligned limit f =
    if ltb aligned limit
    then ok (add_gap names section section_index aligned limit f)
    else if aligned == limit
    then ok f
    else if is_autogen symbol
    then ok (record f {
      to_truncate = f.to_truncate ++ ((symbol.address, limit - symbol.address) ∷ []);
    })
    else err overlaps_symbol

unfoldable pub fill_behind :
    Names → ObjSection → ℕ → ObjSymbol → ℕ → ℕ → Fill → Result PadError Fill
unfolding align_up fill_from
fill_behind names section section_index symbol limit align f = do
  aligned ← align_up (symbol_end symbol) align
  fill_from names section section_index symbol aligned limit f

-- What is done behind one symbol that has a size, before the symbols that follow.
unfoldable pub fill_symbol :
    Names
    → ℕ
    → ObjSection
    → ℕ
    → Option SectionAddress
    → ObjSymbol
    → List (ℕ × ObjSymbol)
    → Fill
    → Result PadError Fill
unfolding gap_limit has_bytes fill_behind
fill_symbol names module_id section section_index common symbol rest f =
    if in_common common section_index symbol then ok f else (do
      let next = next_place section rest
      limit ← gap_limit section symbol next.0
      labelled ← has_bytes section (symbol_end symbol) limit
      let behind = fill_behind names section section_index symbol limit next.1 f
      let with_label = add_label names module_id section section_index (symbol_end symbol) limit f
      if labelled then ok with_label else behind)

-- The loop over the symbols with a size.
unfoldable pub fill_symbols :
    Names
    → ℕ
    → ObjSection
    → ℕ
    → Option SectionAddress
    → List (ℕ × ObjSymbol)
    → Fill
    → Result PadError Fill
unfolding fill_symbol
fill_symbols names module_id section section_index common [] f = ok f
fill_symbols names module_id section section_index common ((_, symbol) ∷ rest) f = do
  f' ← fill_symbol names module_id section section_index common symbol rest f
  fill_symbols names module_id section section_index common rest f'
