-- ===== src/Tests/Split.antt =====
-- The passes over the splits of a concrete object.
use decomp_toolkit.Prelude.{
  ℕ, zero, suc, ◌≡◌, refl, true, false, List, [], ◌∷◌, none, some, ltb, filter, Result, ok, arith,
  Bool-cases, inl, inr, String,
}
use decomp_toolkit.Prelude.BTreeMap
use decomp_toolkit.Obj.Kinds.{executable, power_pc, ObjSymbolKind}
use decomp_toolkit.Obj.Splits.{ObjSplit}
use decomp_toolkit.Obj.Sections.{ObjSection, all_splits}
use decomp_toolkit.Obj.Sections
use decomp_toolkit.Obj.Symbols.Flags.{no_flags, is_stripped}
use decomp_toolkit.Obj.Symbols.Symbol.{ObjSymbol}
use decomp_toolkit.Util.Nested.{nested_push}
use decomp_toolkit.Obj.Symbols.Table.{
  indexed, for_section_range, resolve, flatten_values, index_symbols, index_symbol, push_section,
}
use decomp_toolkit.Obj.Info.{ObjInfo, empty_info}
use decomp_toolkit.Util.Split.{symbols_below, is_sized, validate_splits}
use decomp_toolkit.Util.Split.Validate.{Separate, Valid, validate_splits-Valid}
use decomp_toolkit.Util.Split.Comdat.{GapError}
use decomp_toolkit.Util.Split.Gaps.{GapState, gap_loop}
use decomp_toolkit.Util.Split.Gaps.Covers.{WellPlaced}
use decomp_toolkit.Util.Split.Gaps.Returns.{gap_loop_returns}
use decomp_toolkit.Tests.Symbols.{symbol_at}
use decomp_toolkit.Tests.Splits.{text_section, two_units, split_of}

abbrev filled_text : ObjSection
filled_text = record (text_section two_units) { bytes = 0 ∷ [] }

abbrev obj_with : ObjSymbol → ObjInfo
obj_with symbol =
    empty_info executable power_pc "main" (indexed executable (symbol ∷ [])) (filled_text ∷ [])

-- An object of the linker in the last eight bytes.
abbrev generated : ObjInfo
generated =
    obj_with
      (record (symbol_at "_eti_init_info" 12280 (some 0) no_flags) { kind = ObjSymbolKind.object })

-- A function in the first unit.
abbrev plain : ObjInfo
plain = obj_with (symbol_at "main" 4200 (some 0) no_flags)

plain-Separate :
    (i bound : ℕ) (found : List (ℕ × ObjSymbol))
    → symbols_below plain i bound ≡ ok found
    → Separate (filter is_sized found)
unfolding symbols_below for_section_range resolve flatten_values BTreeMap.range index_symbols
    index_symbol push_section nested_push BTreeMap.insert BTreeMap.get is_stripped
plain-Separate zero bound found h = elim (Bool-cases (ltb 4200 bound)) [
  | inl t ↦
      let e : ok ((0, symbol_at "main" 4200 (some 0) no_flags) ∷ []) ≡ ok found = (rw t at h) in
      let same : (0, symbol_at "main" 4200 (some 0) no_flags) ∷ [] ≡ found = (cc) in rw (← same) tt
  | inr f ↦ let e : ok [] ≡ ok found = (rw f at h) in let same : [] ≡ found = (cc) in rw (← same) tt
]
plain-Separate (suc i) bound found h = let same : [] ≡ found = (cc) in rw (← same) tt

plain_passes : validate_splits plain ≡ ok tt
unfolding validate_splits all_splits is_stripped for_section_range resolve flatten_values
    BTreeMap.range index_symbols index_symbol push_section nested_push BTreeMap.insert BTreeMap.get
plain_passes = refl

validate_splits-Valid_example : Valid plain (all_splits plain.sections)
validate_splits-Valid_example = validate_splits-Valid plain plain-Separate plain_passes

abbrev unit_of : ℕ → ℕ → String → String
unit_of i address name = name

abbrev state : ℕ → List (ℕ × ObjSplit) → BTreeMap.BTreeMap ObjSplit → GapState
state current explicit new_splits = record {
  current = current;
  explicit = explicit;
  prev_rename = none;
  new_splits = new_splits;
  size_fixes = [];
}

abbrev text_gaps : GapState
text_gaps =
    state 4096 ((4096, split_of "a.c" 4224 false) ∷ ((8192, split_of "b.c" 8256 false) ∷ [])) []

text_gaps-WellPlaced : WellPlaced text_gaps.explicit
text_gaps-WellPlaced = (inr (omega arith), (omega arith, tt), (inr (omega arith), tt, tt))

gap_loop_returns_example :
    (r : Result GapError GapState) × (gap_loop 8195 unit_of plain filled_text 0 12288 text_gaps
      ≡ some r)
gap_loop_returns_example =
    gap_loop_returns 8195 unit_of plain filled_text 0 12288 text_gaps text_gaps-WellPlaced
      (omega arith)

-- The gaps behind the two units.
abbrev filled_gaps : GapState
filled_gaps =
    state 12288 [] ((4224, split_of ".text" 8192 true) ∷ ((8256, split_of ".text" 12288 true) ∷ []))
