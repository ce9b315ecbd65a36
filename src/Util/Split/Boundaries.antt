-- ===== src/Util/Split/Boundaries.antt =====
-- The nearest split boundary behind an address, as `truncate_autogen_symbols_at_splits` and
-- `add_padding_symbols` of src/util/split.rs compute it.
pub mod Nearest
use decomp_toolkit.Prelude.{
  ℕ, ◌+◌, ◌-◌, ◌^◌, min, Bool, true, false, ◌||◌, List, [], ◌∷◌, Option, none, some, ltb, leb,
  starts_with, if◌then◌else◌, get_last?, Result, ok, err, panic,
}
use decomp_toolkit.Obj.Splits.{ObjSplit, ObjSplits, for_range}
use decomp_toolkit.Obj.Symbols.Symbol.{ObjSymbol}
use decomp_toolkit.Obj.Symbols.Table.{u32}

-- The names of symbols that carry no size of their own.
unfoldable pub is_autogen : ObjSymbol → Bool
is_autogen symbol =
    starts_with symbol.name "lbl_"
    || (starts_with symbol.name "gap_" || starts_with symbol.name "pad_")

-- The end of the split that the address is in.
abbrev pub cut_at_end : ℕ → ℕ → Option (ℕ × ObjSplit) → ℕ
cut_at_end here bound none = bound
cut_at_end here bound (some (_, split)) = if ltb here split.end then min bound split.end else bound

-- The start of the split that comes next.
abbrev pub cut_at_start : ℕ → List (ℕ × ObjSplit) → ℕ
cut_at_start bound [] = bound
cut_at_start bound ((start, _) ∷ rest) = min bound start

-- `here + 1` is checked, as a debug build does.
unfoldable pub boundary : {E : Type 0} → ObjSplits → ℕ → ℕ → Result E ℕ
unfolding for_range
boundary splits here bound =
    if ltb (here + 1) (2 ^ 32)
    then ok (
        cut_at_start (cut_at_end here bound (get_last? (for_range (λ a. leb a here) splits)))
          (for_range (λ a. leb (here + 1) a) splits))
    else panic
