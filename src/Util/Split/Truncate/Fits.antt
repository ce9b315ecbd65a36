-- ===== src/Util/Split/Truncate/Fits.antt =====
-- A symbol of the size that it is cut to fits between the boundaries of the splits.
use decomp_toolkit.Prelude.{
  ℕ, ◌+◌, ◌-◌, ◌^◌, ◌≤◌, ◌<◌, ◌≡◌, refl, true, false, Option, none, some, ltb, leb, ◌==◌,
  if◌then◌else◌, get_last?, ok, arith, Bool-cases, inl, inr,
}
use decomp_toolkit.Prelude.BTreeMap.{IsOrdered}
use decomp_toolkit.Obj.Splits.{ObjSplits, for_range, flatten}
use decomp_toolkit.Obj.Symbols.Symbol.{ObjSymbol}
use decomp_toolkit.Obj.Symbols.Table.{Error, u32}
use decomp_toolkit.Util.Split.Boundaries.{is_autogen, boundary}
use decomp_toolkit.Util.Split.Boundaries.Nearest.{NoneBetween, EndsBehind, AllFull, boundary_lem}
use decomp_toolkit.Util.Split.Truncate.{truncation}

abbrev pub size_or : Option ℕ → ℕ → ℕ
size_or none size = size
size_or (some new) size = new

-- No split starts or ends inside a symbol, of those that start behind it and of the last one that
-- does not.
abbrev pub Fits : ObjSplits → ℕ → ℕ → Type 0
Fits splits start end =
    NoneBetween start end (flatten splits)
    × EndsBehind start end (get_last? (for_range (λ a. leb a start) splits))

-- The size at a boundary, of a generated symbol that has one.
truncation_eq :
    (splits : ObjSplits) (symbol : ObjSymbol) (limit : ℕ)
    → symbol.size_known ≡ true
    → 0 < symbol.size
    → is_autogen symbol ≡ true
    → symbol.address + symbol.size < 2 ^ 32
    → boundary {E = Error} splits symbol.address (symbol.address + symbol.size) ≡ ok limit
    → truncation splits symbol
      ≡ ok
          (if ltb limit (symbol.address + symbol.size) then some (limit - symbol.address) else none)
unfolding truncation
truncation_eq splits symbol limit known sized autogen small e =
    let same : u32 symbol.address ≡ symbol.address = (omega arith) in
    let same' : u32 symbol.size ≡ symbol.size = (omega arith) in
    let non_zero : symbol.size == 0 ≡ false = (ground arith) in
    let fits : ltb (symbol.address + symbol.size) (2 ^ 32) ≡ true = (ground arith) in
    rw (same, same', known, non_zero, autogen, fits, e) refl

-- Where the splits are in order and no address is without one, a generated symbol of a known size,
-- below 2^32, keeps its size or gets a smaller one, above 0, with which no split starts inside it
-- and the last split that starts at or before it does not end inside it.
pub truncation-Fits :
    (splits : ObjSplits) (symbol : ObjSymbol)
    → IsOrdered splits
    → AllFull splits
    → symbol.size_known ≡ true
    → 0 < symbol.size
    → is_autogen symbol ≡ true
    → symbol.address + symbol.size < 2 ^ 32
    → (new : Option ℕ) × (truncation splits symbol ≡ ok new)
      × (0 < size_or new symbol.size)
      × (size_or new symbol.size ≤ symbol.size)
      × Fits splits symbol.address (symbol.address + size_or new symbol.size)
truncation-Fits splits symbol o full known sized autogen small =
    let start = symbol.address in
    let end = start + symbol.size in
    let (limit, e, lt, le, starts, ends) =
      boundary_lem {E = Error} splits start end o full (omega arith) (omega arith) in
    let eq = truncation_eq splits symbol limit known sized autogen small e in
    elim (Bool-cases (ltb limit end)) [
      | inl t ↦
          let at : start + (limit - start) ≡ limit = (omega arith) in
          (some (limit - start), rw t at eq, omega arith, omega arith, rw at (starts, ends))
      | inr f ↦
          let at : limit ≡ end = (ground arith) in
          (none, rw f at eq, sized, omega arith, rw (← at) (starts, ends))
    ]
