-- ===== src/Util/Split.antt =====
-- src/util/split.rs: the passes of `update_splits` that trim, mark and check the splits of an
-- object, and the end of a section without the objects that the linker adds.
pub mod Ends
pub mod Validate
pub mod Comdat
pub mod Gaps
pub mod Boundaries
pub mod Truncate
pub mod Padding
pub mod Updates
pub mod Creates
pub mod LinkOrder
pub mod Edges
use decomp_toolkit.Prelude.{
  ℕ, zero, suc, ◌+◌, ◌-◌, ◌%◌, ◌^◌, min, Bool, true, false, not, ◌&&◌, ◌||◌, List, [], ◌∷◌, Option,
  none, some, String, str_eq, starts_with, ◌==◌, ltb, leb, if◌then◌else◌, length, drop, bytes_eq,
  filter, get_elem?, get_last?, Result, ok, err, panic, ◌>>=◌, ◌>>◌, guard, ok_or, expect, set,
}
use decomp_toolkit.Obj.Kinds.{ObjSymbolKind, symbol_kind_eq}
use decomp_toolkit.Obj.Addresses.{SectionAddress, before}
use decomp_toolkit.Obj.Splits.{ObjSplit, ObjSplits, for_range}
use decomp_toolkit.Obj.Sections.{ObjSection, ObjSections, SectionError, all_splits}
use decomp_toolkit.Obj.Sections
use decomp_toolkit.Obj.Symbols.Flags.{is_stripped}
use decomp_toolkit.Obj.Symbols.Symbol.{ObjSymbol, one_of}
use decomp_toolkit.Obj.Symbols.Table.{ObjSymbols, Error, u32, for_section_range}
use decomp_toolkit.Obj.Info.{ObjInfo}

pub data SplitsError : Type 0 where
  invalid_section no_bss overlaps_previous invalid_end overlaps_symbol ends_within_symbol :
      SplitsError
  symbols_error : Error → SplitsError
  sections_error : SectionError → SplitsError

abbrev pub lift {ℓ} : {A : Type ℓ} → Result Error A → Result SplitsError A
lift (ok a) = ok a
lift (err e) = err (symbols_error e)
lift panic = panic

-- `s.size_known && s.size > 0 && !s.flags.is_stripped()`
abbrev pub is_sized : ℕ × ObjSymbol → Bool
is_sized e = (e.1).size_known && (ltb 0 (e.1).size && not (is_stripped (e.1).flags))

unfoldable pub symbols_below : ObjInfo → ℕ → ℕ → Result SplitsError (List (ℕ × ObjSymbol))
symbols_below obj section_index bound =
    lift (for_section_range section_index (λ a. ltb a bound) obj.symbols)

unfoldable pub is_linker_generated_object : String → Bool
unfolding one_of
is_linker_generated_object name = one_of name (
    "_eti_init_info" ∷ ("_rom_copy_info" ∷ ("_bss_init_info" ∷ ("_ctors$99" ∷ ("_dtors$99" ∷ [])))))

abbrev pub is_sized_object : ℕ × ObjSymbol → Bool
is_sized_object e = symbol_kind_eq (e.1).kind ObjSymbolKind.object && is_sized e

abbrev pub generated_start : Option (ℕ × ObjSymbol) → Option ℕ
generated_start none = none
generated_start (some (_, symbol)) =
    if is_linker_generated_object symbol.name then some (u32 symbol.address) else none

-- The address of the last object below the end, if the linker has generated it.
unfoldable pub generated_below : ObjInfo → ℕ → ℕ → Result SplitsError (Option ℕ)
unfolding symbols_below
generated_below obj section_index section_end = do
  found ← symbols_below obj section_index section_end
  ok (generated_start (get_last? (filter is_sized_object found)))

-- The loop of `end_for_section`; there is no result where the rounds do not suffice.
unfoldable pub end_loop : ℕ → ObjInfo → ℕ → ℕ → Option (Result SplitsError ℕ)
end_loop zero obj section_index section_end = none
end_loop (suc rounds) obj section_index section_end =
    elim (generated_below obj section_index section_end) [
      | ok none ↦ some (ok section_end)
      | ok (some start) ↦ end_loop rounds obj section_index start
      | err e ↦ some (err e)
      | panic ↦ some panic
    ]

-- The end without the null pointer of `.ctors` and `.dtors`; the slice of the last four bytes
-- panics where there are fewer.
unfoldable pub without_null : ObjSection → Result SplitsError ℕ
without_null section =
    let section_end = u32 (section.address + section.size) in
    if str_eq section.name ".ctors" || str_eq section.name ".dtors"
    then if ltb (length section.bytes) 4
      then panic
      else if bytes_eq (drop (length section.bytes - 4) section.bytes) (0 ∷ (0 ∷ (0 ∷ (0 ∷ []))))
      then if ltb section_end 4 then panic else ok (section_end - 4)
      else ok section_end
    else ok section_end

abbrev pub is_empty : List ℕ → Bool
is_empty [] = true
is_empty (b ∷ bs) = false

abbrev pub end_from : ℕ → ObjInfo → ℕ → Result SplitsError ℕ → Option (Result SplitsError ℕ)
end_from rounds obj section_index (ok section_end) = end_loop rounds obj section_index section_end
end_from rounds obj section_index (err e) = some (err e)
end_from rounds obj section_index panic = some panic

abbrev pub end_of : ℕ → ObjInfo → ℕ → Option ObjSection → Option (Result SplitsError ℕ)
end_of rounds obj section_index none = some (err invalid_section)
end_of rounds obj section_index (some section) =
    if is_empty section.bytes
    then some (ok (u32 (section.address + section.size)))
    else end_from rounds obj section_index (without_null section)

-- The address of the result; its section is the argument.
unfoldable pub end_for_section : ℕ → ObjInfo → ℕ → Option (Result SplitsError ℕ)
unfolding end_loop without_null
end_for_section rounds obj section_index =
    end_of rounds obj section_index (Sections.get obj.sections section_index)

-- `symbol.address as u32 + symbol.size as u32`, checked as a debug build does.
abbrev pub symbol_end : ObjSymbol → Result SplitsError ℕ
symbol_end symbol =
    if ltb (u32 symbol.address + u32 symbol.size) 4294967296
    then ok (u32 symbol.address + u32 symbol.size)
    else panic

unfoldable pub ends_by : ℕ → SplitsError → Option (ℕ × ObjSymbol) → Result SplitsError (Unit {0})
ends_by bound e none = ok tt
ends_by bound e (some (_, symbol)) = do end ← symbol_end symbol; guard (leb end bound) e

-- The last sized symbol below the bound ends by it.
unfoldable pub check_symbols : ObjInfo → ℕ → ℕ → SplitsError → Result SplitsError (Unit {0})
unfolding symbols_below ends_by
check_symbols obj section_index bound e = do
  found ← symbols_below obj section_index bound
  ends_by bound e (get_last? (filter is_sized found))

-- The loop of `validate_splits`, with the end of the split before.
unfoldable pub check_splits :
    ObjInfo → SectionAddress → List (ℕ × ObjSection × ℕ × ObjSplit) → Result SplitsError (Unit {0})
unfolding check_symbols
check_splits obj last [] = ok tt
check_splits obj last ((section_index, section, addr, split) ∷ rest) = do
  guard (not (before (record { section = section_index; address = addr }) last)) overlaps_previous
  guard (ltb 0 split.end && leb addr split.end) invalid_end
  check_symbols obj section_index addr overlaps_symbol
  check_symbols obj section_index split.end ends_within_symbol
  check_splits obj (record { section = section_index; address = split.end }) rest

unfoldable pub validate_splits : ObjInfo → Result SplitsError (Unit {0})
unfolding check_splits
validate_splits obj =
    check_splits obj (record { section = 0; address = 0 }) (all_splits obj.sections)
