-- ===== src/Util/Split/Comdat.antt =====
-- Where a gap between splits ends: at a sub-region, a COMDAT, a repeated name or an alignment. The
-- code is in `create_gap_splits` of src/util/split.rs.
use decomp_toolkit.Prelude.{
  ℕ, ◌+◌, ◌-◌, ◌%◌, min, max, bit_and, Bool, true, false, not, ◌&&◌, ◌||◌, List, [], ◌∷◌, Option,
  none, some, String, str_eq, starts_with, ◌==◌, ltb, leb, if◌then◌else◌, find, get_elem?, Result,
  ok, err, panic, ◌>>=◌, ◌>>◌, guard,
}
use decomp_toolkit.Obj.Addresses.{SectionAddress}
use decomp_toolkit.Obj.Relocations.{ObjReloc, ObjRelocKind, x86_abs32}
use decomp_toolkit.Obj.Relocations
use decomp_toolkit.Obj.Sections.{ObjSection, ObjSubRegion}
use decomp_toolkit.Obj.Symbols.Flags.{is_comdat}
use decomp_toolkit.Obj.Symbols.Symbol.{ObjSymbol}
use decomp_toolkit.Obj.Symbols.Table.{ObjSymbols, Error, u32, for_section_range}
use decomp_toolkit.Obj.Info.{ObjInfo}
use decomp_toolkit.Obj.AddSplit.{SplitError}
use decomp_toolkit.Util.Split.{SplitsError}

pub data GapError : Type 0 where
  overlaps_previous unknown_size duplicate_not_aligned duplicate_symbols : GapError
  symbols_error : Error → GapError
  splits_error : SplitsError → GapError
  add_error : SplitError → GapError

abbrev pub lift {ℓ} : {A : Type ℓ} → Result Error A → Result GapError A
lift (ok a) = ok a
lift (err e) = err (symbols_error e)
lift panic = panic

abbrev pub lift_unit : Result (Unit {0}) SectionAddress → Result GapError ℕ
lift_unit (ok a) = ok a.address
lift_unit (err e) = panic
lift_unit panic = panic

-- `+` and `-` on `u32`, checked as a debug build does.
abbrev pub checked_add : ℕ → ℕ → Result GapError ℕ
checked_add a b = if ltb (a + b) 4294967296 then ok (a + b) else panic

abbrev pub checked_sub : ℕ → ℕ → Result GapError ℕ
checked_sub a b = if ltb a b then panic else ok (a - b)

abbrev pub is_abs32 : ObjRelocKind → Bool
is_abs32 x86_abs32 = true
is_abs32 kind = false

abbrev pub is_locator : Option ObjSymbol → Bool
is_locator none = false
is_locator (some target) = starts_with target.name "??_R4"

abbrev pub leads_to_locator : ObjSymbols → Option ObjReloc → Bool
leads_to_locator symbols none = false
leads_to_locator symbols (some reloc) =
    is_abs32 reloc.kind && is_locator (get_elem? symbols.symbols reloc.target_symbol)

-- `has_vftable_locator` of src/util/coff.rs
unfoldable pub has_vftable_locator : ObjInfo → ObjSection → ObjSymbol → Bool
unfolding Relocations.at
has_vftable_locator obj section symbol =
    starts_with symbol.name "??_7"
    && (leb (section.address + 4) symbol.address
        && leads_to_locator obj.symbols
            (Relocations.at (u32 (symbol.address - 4)) section.relocations))

unfoldable pub comdat_start : ObjInfo → ObjSection → ObjSymbol → Result GapError ℕ
unfolding has_vftable_locator
comdat_start obj section symbol =
    if has_vftable_locator obj section symbol
    then checked_sub (u32 symbol.address) 4
    else ok (u32 symbol.address)

-- The end of a gap cut at the sub-regions.
unfoldable pub region_end : ℕ → List ObjSubRegion → ℕ → ℕ
region_end current [] end = end
region_end current (r ∷ rest) end =
    let cut = if ltb current r.start && ltb r.start end then r.start else end in
    region_end current rest
      (if leb r.start current && (ltb current r.end && ltb r.end cut) then r.end else cut)

-- The locator of the first vftable between two addresses.
unfoldable pub locator_between : ObjInfo → ObjSection → ℕ → ℕ → ℕ → Result GapError (Option ℕ)
unfolding has_vftable_locator
locator_between obj section section_index from to = if leb to from then ok none else (do
  found ← lift (for_section_range section_index (λ a. leb from a && ltb a to) obj.symbols)
  elim (find (λ (e : ℕ × ObjSymbol). has_vftable_locator obj section e.1) found) [
    | none ↦ ok none
    | some (_, symbol) ↦ do locator ← checked_sub (u32 symbol.address) 4; ok (some locator)
  ])

-- The end of a gap, and a symbol whose size is to be changed with the new one.
pub record GapEnd : Type 0 where
  pub end : ℕ
  pub fix : Option (ℕ × ℕ)

abbrev pub plain_end : ℕ → GapEnd
plain_end end = record { end = end; fix = none }

abbrev pub cut_at : ℕ → ObjSymbol → ℕ → Option ℕ → Result GapError GapEnd
cut_at index symbol end none = ok (plain_end end)
cut_at index symbol end (some locator) =
    if ltb locator symbol.address
    then panic
    else ok (record { end = locator; fix = some (index, locator - symbol.address) })

-- The end of a symbol, before the locator of the next vftable in the gap.
unfoldable pub whole_end : ObjInfo → ObjSection → ℕ → ℕ → ℕ → ObjSymbol → Result GapError GapEnd
unfolding locator_between
whole_end obj section section_index end index symbol = do
  guard symbol.size_known unknown_size
  own_end ← checked_add (u32 symbol.address) (u32 symbol.size)
  from ← checked_add (u32 symbol.address) 5
  to ← checked_add own_end 4
  locator ← locator_between obj section section_index from (min to end)
  cut_at index symbol own_end locator

-- The end of the unit of a comdat symbol, or its start, if the gap begins before it.
unfoldable pub comdat_end :
    ObjInfo → ObjSection → ℕ → ℕ → ℕ → ℕ → ObjSymbol → Result GapError GapEnd
unfolding comdat_start whole_end
comdat_end obj section section_index current end index symbol = do
  found ← comdat_start obj section symbol
  let start = max found current
  let size_cut = whole_end obj section section_index end index symbol
  if start == current then size_cut else ok (plain_end start)

-- `current_address & (align - 1) != 0`
abbrev pub is_misaligned : ℕ → Option ℕ → Result GapError Bool
is_misaligned current none = ok false
is_misaligned current (some align) = do
  mask ← checked_sub align 1
  ok (not (bit_and current mask == 0))

abbrev pub contains_name : String → List String → Bool
contains_name name [] = false
contains_name name (other ∷ rest) = str_eq other name || contains_name name rest

-- The loop over the symbols of the gap, with the names that were seen.
unfoldable pub gap_end :
    ObjInfo → ObjSection → ℕ → ℕ → ℕ → List String → List (ℕ × ObjSymbol) → Result GapError GapEnd
unfolding comdat_end is_comdat
gap_end obj section section_index current end seen [] = ok (plain_end end)
gap_end obj section section_index current end seen ((index, symbol) ∷ rest) =
    if is_comdat symbol.flags
    then comdat_end obj section section_index current end index symbol
    else if contains_name symbol.name seen
    then (if symbol.address % 4 == 0
        then ok (plain_end (u32 symbol.address))
        else err duplicate_not_aligned)
    else (do
      misaligned ← is_misaligned current symbol.align
      let more = gap_end obj section section_index current end (symbol.name ∷ seen) rest
      if misaligned then ok (plain_end (u32 symbol.address)) else more)
