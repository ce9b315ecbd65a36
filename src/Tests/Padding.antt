-- ===== src/Tests/Padding.antt =====
-- Symbols at the boundaries of the splits of a concrete section.
use decomp_toolkit.Prelude.{
  ℕ, ◌+◌, ◌≤◌, ◌<◌, ◌≡◌, refl, false, [], ◌∷◌, Option, none, some, ok, ◌⊎◌, arith,
}
use decomp_toolkit.Prelude.BTreeMap
use decomp_toolkit.Obj.Splits
use decomp_toolkit.Obj.Sections.{ObjSection}
use decomp_toolkit.Obj.Symbols.Flags.{no_flags}
use decomp_toolkit.Obj.Symbols.Symbol.{ObjSymbol}
use decomp_toolkit.Util.Split.Boundaries.{is_autogen, boundary}
use decomp_toolkit.Util.Split.Truncate.{truncation}
use decomp_toolkit.Util.Split.Truncate.Fits.{size_or, Fits, truncation-Fits}
use decomp_toolkit.Util.Split.Padding.{
  Names, Fill, fill_symbol, add_gap, has_bytes, align_up, fill_from, gap_limit, fill_behind,
}
use decomp_toolkit.Util.Split.Padding.Between.{FillsGap, fill_symbol-FillsGap}
use decomp_toolkit.Tests.Symbols.{symbol_at}
use decomp_toolkit.Tests.Splits.{text_section, two_units, split_of}
use decomp_toolkit.Util.Split.Boundaries.Nearest.{AllFull}

abbrev text : ObjSection
text = text_section two_units

abbrev names : Names
names = record {
  label = λ module_id name address. name;
  gap = λ i address name. name;
  pad = λ i address name. name;
}

abbrev no_fill : Fill
no_fill = record { to_add = []; to_truncate = [] }

abbrev main_symbol : ObjSymbol
main_symbol = symbol_at "main" 4200 (some 0) no_flags

-- A label that runs over the end of the first unit, at 4224.
abbrev long_label : ObjSymbol
long_label = record (symbol_at "lbl_00001068" 4200 (some 0) no_flags) { size = 100 }

two_units-AllFull : AllFull two_units
two_units-AllFull =
    ((split_of "a.c" 4224 false, [], refl), ((split_of "b.c" 8256 false, [], refl), tt))

truncation-Fits_example :
    (new : Option ℕ) × (truncation two_units long_label ≡ ok new)
    × (0 < size_or new 100)
    × (size_or new 100 ≤ 100)
    × Fits two_units 4200 (4200 + size_or new 100)
unfolding is_autogen
truncation-Fits_example =
    truncation-Fits two_units long_label ((omega arith, tt), (tt, tt)) two_units-AllFull refl
      (omega arith) refl (omega arith)

cut_label : truncation two_units long_label ≡ ok (some 24)
unfolding truncation is_autogen boundary Splits.for_range BTreeMap.range Splits.flatten
cut_label = refl

abbrev gap_filled : Fill
gap_filled = add_gap names text 0 4208 4224 no_fill

main_gap : fill_symbol names 0 text 0 none main_symbol [] no_fill ≡ ok gap_filled
unfolding fill_symbol has_bytes align_up fill_from gap_limit fill_behind boundary Splits.for_range
    BTreeMap.range Splits.flatten
main_gap = refl

fill_symbol-FillsGap_example :
    (gap_filled.to_add ≡ [])
    ⊎ ((new : ObjSymbol) × (gap_filled.to_add ≡ new ∷ []) × FillsGap text main_symbol 12288 new)
fill_symbol-FillsGap_example =
    fill_symbol-FillsGap names 0 text 0 none main_symbol [] no_fill gap_filled 0
      ((omega arith, tt), (tt, tt)) two_units-AllFull (omega arith) refl (omega arith) main_gap

-- A symbol in the middle of another one.
abbrev inner : Option ℕ → ObjSymbol
inner align = record (symbol_at "inner" 4204 (some 0) no_flags) { align = align }

abbrev label : ObjSymbol
label = symbol_at "lbl_00001068" 4200 (some 0) no_flags

abbrev label_cut : Fill
label_cut = record { to_add = []; to_truncate = (4200, 8) ∷ [] }

cut_inner : fill_symbol names 0 text 0 none label ((1, inner (some 32)) ∷ []) no_fill ≡ ok label_cut
unfolding fill_symbol has_bytes align_up fill_from gap_limit fill_behind boundary Splits.for_range
    BTreeMap.range Splits.flatten is_autogen
cut_inner = refl
