-- ===== src/Util/Split/Padding/Overlaps.antt =====
-- What becomes of a symbol that runs into the next one.
use decomp_toolkit.Prelude.{
  ℕ, ◌+◌, ◌^◌, ◌≤◌, ◌<◌, ◌≡◌, refl, ap, true, false, List, [], ◌∷◌, Option, none, some, ltb, leb,
  ◌==◌, get_last?, ok, arith, Bool-cases, Result-cases, inl, inr, ==_refl, not, ◌||◌,
}
use decomp_toolkit.Util.Split.Padding.Aligned.{align_up_one}
use decomp_toolkit.Obj.Addresses.{SectionAddress}
use decomp_toolkit.Obj.Splits.{ObjSplit, for_range}
use decomp_toolkit.Obj.Sections.{ObjSection}
use decomp_toolkit.Obj.Symbols.Symbol.{ObjSymbol}
use decomp_toolkit.Obj.Symbols.Table.{u32}
use decomp_toolkit.Obj.Kinds.{code, bss, section_kind_eq}
use decomp_toolkit.Util.Split.Boundaries.{boundary, cut_at_end, cut_at_start}
use decomp_toolkit.Util.Split.Padding.{
  PadError, Names, Fill, symbol_end, in_common, gap_limit, has_bytes, fill_from, fill_behind,
  fill_symbol,
}

cut_at_start_bound : (bound : ℕ) (rest : List (ℕ × ObjSplit)) → cut_at_start bound rest ≤ bound
cut_at_start_bound bound [] = omega arith
cut_at_start_bound bound ((a, s) ∷ rest) = omega arith

cut_at_end_bound :
    (here bound : ℕ) (last : Option (ℕ × ObjSplit)) → cut_at_end here bound last ≤ bound
cut_at_end_bound here bound none = omega arith
cut_at_end_bound here bound (some (a, s)) = ground arith

-- Where a symbol ends at or behind the next one, nothing is left to fill.
gap_limit_overlap :
    (section : ObjSection) (symbol : ObjSymbol) (next_address : ℕ)
    → next_address ≤ symbol_end symbol
    → u32 symbol.address + 1 < 2 ^ 32
    → gap_limit section symbol next_address ≡ ok (symbol_end symbol)
unfolding gap_limit boundary
gap_limit_overlap section symbol next_address le small =
    let here = u32 symbol.address in
    let last = get_last? (for_range (λ a. leb a here) section.splits) in
    let cut = cut_at_end here next_address last in
    let le₁ = cut_at_end_bound here next_address last in
    let le₂ = cut_at_start_bound cut (for_range (λ a. leb (here + 1) a) section.splits) in
    let t : ltb (here + 1) (2 ^ 32) ≡ true = (ground arith) in rw t (ap ok (omega arith))

pub gap_limit_le :
    (section : ObjSection) (symbol : ObjSymbol) (next_address : ℕ) {limit : ℕ}
    → gap_limit section symbol next_address ≡ ok limit
    → symbol_end symbol ≤ limit
unfolding gap_limit
gap_limit_le section symbol next_address {limit} h =
    elim (Result-cases (boundary {E = PadError} section.splits (u32 symbol.address) next_address)) [
      | inl (b, e) ↦ ground arith
      | inr (inl (k, e)) ↦ absurd (ground arith)
      | inr (inr e) ↦ absurd (ground arith)
    ]

has_bytes_none : (section : ObjSection) (a : ℕ) → has_bytes section a a ≡ ok false
unfolding has_bytes
has_bytes_none section a =
    let f : ltb a a ≡ false = (ground arith) in
    elim (Bool-cases
      (not (section_kind_eq section.kind code || section_kind_eq section.kind bss))) [
        | inl t ↦ rw (t, f) refl
        | inr g ↦ rw g refl
      ]

-- A symbol that ends behind the start of the next one, or at it, is passed over without an error
-- and without a change, if the next one has no alignment.
pub fill_symbol_overlap :
    (names : Names) (module_id : ℕ) (section : ObjSection) (section_index : ℕ)
    (common : Option SectionAddress) (symbol : ObjSymbol) (i : ℕ) (next : ObjSymbol)
    (rest : List (ℕ × ObjSymbol)) (f : Fill)
    → next.align ≡ none
    → u32 next.address ≤ symbol_end symbol
    → u32 symbol.address + 1 < 2 ^ 32
    → fill_symbol names module_id section section_index common symbol ((i, next) ∷ rest) f ≡ ok f
unfolding fill_symbol fill_behind fill_from
fill_symbol_overlap names module_id section section_index common symbol i next rest f a le small =
    elim (Bool-cases (in_common common section_index symbol)) [
      | inl t ↦ rw t refl
      | inr g ↦
          let limit = gap_limit_overlap section symbol (u32 next.address) le small in
          let aligned = align_up_one (symbol_end symbol) (omega arith) in
          let not_below : ltb (symbol_end symbol) (symbol_end symbol) ≡ false = (ground arith) in
          let equal : symbol_end symbol == symbol_end symbol ≡ true = ==_refl (symbol_end symbol) in
          rw (g, limit, has_bytes_none section (symbol_end symbol), a, aligned, not_below, equal)
            refl
    ]
