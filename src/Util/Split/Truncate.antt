-- ===== src/Util/Split/Truncate.antt =====
-- `truncate_autogen_symbols_at_splits` of src/util/split.rs, which ends generated symbols at the
-- boundaries of splits.
pub mod Fits
pub mod Keeps
use decomp_toolkit.Prelude.{
  ℕ, ◌+◌, ◌-◌, ◌^◌, Bool, true, false, not, ◌&&◌, ◌||◌, List, [], ◌∷◌, ◌++◌, Option, none, some,
  ◌==◌, ltb, if◌then◌else◌, get_elem?, Result, ok, err, panic, ◌>>=◌,
}
use decomp_toolkit.Obj.Splits.{ObjSplits}
use decomp_toolkit.Obj.Sections.{ObjSection}
use decomp_toolkit.Obj.Sections
use decomp_toolkit.Obj.Symbols.Symbol.{ObjSymbol}
use decomp_toolkit.Obj.Symbols.Table.{ObjSymbols, Error, u32, for_section, replace}
use decomp_toolkit.Obj.Info.{ObjInfo}
use decomp_toolkit.Util.Split.Boundaries.{is_autogen, boundary}

-- The new size of a symbol that a boundary cuts. The boundary is not below the start.
unfoldable pub truncation : ObjSplits → ObjSymbol → Result Error (Option ℕ)
unfolding is_autogen boundary
truncation splits symbol =
    let start = u32 symbol.address in
    let end = start + u32 symbol.size in
    if not symbol.size_known || (symbol.size == 0 || not (is_autogen symbol))
    then ok none
    else if ltb end (2 ^ 32)
    then (do cut ← boundary splits start end; ok (if ltb cut end then some (cut - start) else none))
    else panic

abbrev pub add_fix : ℕ → Option ℕ → List (ℕ × ℕ) → List (ℕ × ℕ)
add_fix idx none fixes = fixes
add_fix idx (some size) fixes = (idx, size) ∷ fixes

unfoldable pub truncations : ObjSplits → List (ℕ × ObjSymbol) → Result Error (List (ℕ × ℕ))
unfolding truncation
truncations splits [] = ok []
truncations splits ((idx, symbol) ∷ rest) = do
  size ← truncation splits symbol
  more ← truncations splits rest
  ok (add_fix idx size more)

-- The loop over the sections.
unfoldable pub all_truncations : ObjSymbols → List (ℕ × ObjSection) → Result Error (List (ℕ × ℕ))
unfolding truncations
all_truncations t [] = ok []
all_truncations t ((i, section) ∷ rest) = do
  found ← for_section i t
  here ← truncations section.splits found
  more ← all_truncations t rest
  ok (here ++ more)

unfoldable pub resize : ℕ → ℕ → ObjSymbols → ObjSymbols × Result Error (Unit {0})
resize idx size t = elim (get_elem? t.symbols idx) [
  | none ↦ (t, panic)
  | some symbol ↦ replace idx (record symbol { size = size }) t
]

abbrev pub then_on :
    (ObjSymbols → ObjSymbols × Result Error (Unit {0}))
    → ObjSymbols × Result Error (Unit {0})
    → ObjSymbols × Result Error (Unit {0})
then_on k (t, ok _) = k t
then_on k (t, err e) = (t, err e)
then_on k (t, panic) = (t, panic)

-- The loop over the fixes.
unfoldable pub resize_all : List (ℕ × ℕ) → ObjSymbols → ObjSymbols × Result Error (Unit {0})
unfolding resize
resize_all [] t = (t, ok tt)
resize_all ((idx, size) ∷ rest) t = then_on (resize_all rest) (resize idx size t)

abbrev pub resize_by :
    Result Error (List (ℕ × ℕ)) → ObjSymbols → ObjSymbols × Result Error (Unit {0})
resize_by (ok fixes) t = resize_all fixes t
resize_by (err e) t = (t, err e)
resize_by panic t = (t, panic)

unfoldable pub truncate_autogen_symbols_at_splits : ObjInfo → ObjInfo × Result Error (Unit {0})
unfolding all_truncations resize_all
truncate_autogen_symbols_at_splits obj =
    let fixes = all_truncations obj.symbols (Sections.iter obj.sections) in
    let (symbols, result) = resize_by fixes obj.symbols in
    (record obj { symbols = symbols }, result)
