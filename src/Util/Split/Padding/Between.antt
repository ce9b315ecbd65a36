-- ===== src/Util/Split/Padding/Between.antt =====
-- Where the symbols lie that fill a gap, and the sizes that symbols are cut to.
use decomp_toolkit.Prelude.{
  ℕ, ◌+◌, ◌-◌, ◌^◌, ◌≤◌, ◌<◌, ◌≡◌, refl, sym, ap, max, true, false, List, [], ◌∷◌, ◌++◌, Option,
  ltb, leb, ◌==◌, get_last?, ok, arith, Bool-cases, Result-cases, inl, inr, ◌⊎◌,
}
use decomp_toolkit.Prelude.BTreeMap.{IsOrdered}
use decomp_toolkit.Obj.Addresses.{SectionAddress}
use decomp_toolkit.Obj.Splits.{for_range, flatten}
use decomp_toolkit.Obj.Sections.{ObjSection}
use decomp_toolkit.Obj.Symbols.Symbol.{ObjSymbol}
use decomp_toolkit.Obj.Symbols.Table.{u32}
use decomp_toolkit.Util.Split.Boundaries.{is_autogen}
use decomp_toolkit.Util.Split.Boundaries.Nearest.{NoneBetween, EndsBehind, AllFull, boundary_lem}
use decomp_toolkit.Util.Split.Padding.Aligned.{align_up_le}
use decomp_toolkit.Util.Split.Padding.Overlaps.{gap_limit_le}
use decomp_toolkit.Util.Split.Padding.{
  PadError, Names, Fill, symbol_end, in_common, gap_limit, has_bytes, align_up, fill_from,
  fill_behind, fill_symbol, add_label, add_gap, next_place,
}

-- What a symbol adds to the lists: nothing, a new symbol that ends at the limit, or a size up to it.
pub data Step (align limit : ℕ) (symbol : ObjSymbol) (f f' : Fill) : Type 0 where
  kept : f ≡ f' → Step align limit symbol f f'
  added :
      (new : ObjSymbol)
      → f'.to_add ≡ f.to_add ++ (new ∷ [])
      → f'.to_truncate ≡ f.to_truncate
      → (new.address ≡ symbol_end symbol)
        ⊎ (align_up {E = PadError} (symbol_end symbol) align ≡ ok new.address)
      → new.address < limit
      → new.address + new.size ≡ limit
      → Step align limit symbol f f'
  cut :
      f'.to_add ≡ f.to_add
      → f'.to_truncate ≡ f.to_truncate ++ ((symbol.address, limit - symbol.address) ∷ [])
      → Step align limit symbol f f'

fill_from-Step :
    (names : Names) (section : ObjSection) (i : ℕ) (symbol : ObjSymbol) (align aligned limit : ℕ)
    (f : Fill) {f' : Fill}
    → align_up {E = PadError} (symbol_end symbol) align ≡ ok aligned
    → fill_from names section i symbol aligned limit f ≡ ok f'
    → Step align limit symbol f f'
unfolding fill_from
fill_from-Step names section i symbol align aligned limit f {f'} e h =
    elim (Bool-cases (ltb aligned limit)) [
      | inl t ↦
          let made : ok (add_gap names section i aligned limit f) ≡ ok f' = (rw t at h) in
          let same : add_gap names section i aligned limit f ≡ f' = (cc) in
          rw (← same) (added _ refl refl (inr e) (ground arith) (ground arith))
      | inr g ↦ elim (Bool-cases (aligned == limit)) [
        | inl t ↦ kept (ground arith)
        | inr g' ↦ elim (Bool-cases (is_autogen symbol)) [
          | inr g'' ↦ absurd (ground arith)
          | inl t ↦
              let size = limit - symbol.address in
              let f₁ : Fill = record f {
                to_truncate = f.to_truncate ++ ((symbol.address, size) ∷ []);
              } in
              let made : ok f₁ ≡ ok f' = (rw (g, g', t) at h) in
              let same : f₁ ≡ f' = (cc) in rw (← same) (cut refl refl)
        ]
      ]
    ]

has_bytes_lt :
    (section : ObjSection) (from limit : ℕ) → has_bytes section from limit ≡ ok true → from < limit
unfolding has_bytes
has_bytes_lt section from limit h = ground arith

fill_symbol-Step :
    (names : Names) (module_id : ℕ) (section : ObjSection) (i : ℕ) (common : Option SectionAddress)
    (symbol : ObjSymbol) (rest : List (ℕ × ObjSymbol)) (f : Fill) {f' : Fill}
    → fill_symbol names module_id section i common symbol rest f ≡ ok f'
    → (f ≡ f')
      ⊎ ((limit : ℕ) × (gap_limit section symbol (next_place section rest).0 ≡ ok limit)
          × Step (next_place section rest).1 limit symbol f f')
unfolding fill_symbol fill_behind
fill_symbol-Step names module_id section i common symbol rest f {f'} h =
    let next = next_place section rest in
    elim (Bool-cases (in_common common i symbol)) [
      | inl t ↦ inl (ground arith)
      | inr g ↦ elim (Result-cases (gap_limit section symbol next.0)) [
        | inr (inl (k, e)) ↦ absurd (ground arith)
        | inr (inr e) ↦ absurd (ground arith)
        | inl (limit, e) ↦ inr (
          limit,
          e,
          elim (Result-cases (has_bytes section (symbol_end symbol) limit)) [
            | inr (inl (k, e')) ↦ absurd (ground arith)
            | inr (inr e') ↦ absurd (ground arith)
            | inl (false, e') ↦
                elim (Result-cases (align_up {E = PadError} (symbol_end symbol) next.1)) [
                  | inr (inl (k, e'')) ↦ absurd (ground arith)
                  | inr (inr e'') ↦ absurd (ground arith)
                  | inl (aligned, e'') ↦
                      fill_from-Step names section i symbol next.1 aligned limit f e''
                        (rw (g, e, e', e'') at h)
                ]
            | inl (true, e') ↦
                let labelled = add_label names module_id section i (symbol_end symbol) limit f in
                let lt = has_bytes_lt section (symbol_end symbol) limit e' in
                let made : ok labelled ≡ ok f' = (rw (g, e, e') at h) in
                let same : labelled ≡ f' = (cc) in
                rw (← same) (added _ refl refl (inl refl) lt (omega arith))
          ],
        )
      ]
    ]

gap_limit_lem :
    (section : ObjSection) (symbol : ObjSymbol) (next_address limit : ℕ)
    → IsOrdered section.splits
    → AllFull section.splits
    → u32 symbol.address < next_address
    → next_address < 2 ^ 32
    → gap_limit section symbol next_address ≡ ok limit
    → symbol_end symbol < limit
    → (limit ≤ next_address)
      × NoneBetween (u32 symbol.address) limit (flatten section.splits)
      × EndsBehind
          (u32 symbol.address)
          limit
          (get_last? (for_range (λ a. leb a (u32 symbol.address)) section.splits))
unfolding gap_limit
gap_limit_lem section symbol next_address limit o full lt small h beyond =
    let here = u32 symbol.address in
    let (b, e, lt', le, none_between, ends) =
      boundary_lem {E = PadError} section.splits here next_address o full lt (omega arith) in
    let made : ok (max b (symbol_end symbol)) ≡ ok limit = (rw e at h) in
    let same : max b (symbol_end symbol) ≡ limit = (cc) in
    let is_b : b ≡ limit = (omega arith) in rw (← is_b) (le, none_between, ends)

-- A symbol that is added lies behind the symbol, ends at or before an address, and neither crosses
-- the start of a split nor the end of the one that the symbol is in.
pub record FillsGap (section : ObjSection) (symbol : ObjSymbol) (next_address : ℕ) (new : ObjSymbol)
    : Type 0 where
  pub behind : symbol_end symbol ≤ new.address
  pub full : 0 < new.size
  pub ends : new.address + new.size ≤ next_address
  pub starts : NoneBetween (u32 symbol.address) (new.address + new.size) (flatten section.splits)
  pub inside :
      EndsBehind
        (u32 symbol.address)
        (new.address + new.size)
        (get_last? (for_range (λ a. leb a (u32 symbol.address)) section.splits))

next_place_lt :
    (section : ObjSection) (rest : List (ℕ × ObjSymbol)) → (next_place section rest).0 < 2 ^ 32
next_place_lt section [] = omega arith
next_place_lt section ((i, next) ∷ rest) = omega arith

-- Where the splits are in order and no address is without one, the next symbol or the end of the
-- section lies behind the start of a symbol, and the next alignment is a power of two below 2^32,
-- what succeeds behind the symbol adds at most one symbol: it is not empty, starts at or behind the
-- end of the symbol and ends at or before the next one, no split starts between the start of the
-- symbol and its end, and the last split that starts at or before the symbol does not end there.
pub fill_symbol-FillsGap :
    (names : Names) (module_id : ℕ) (section : ObjSection) (i : ℕ) (common : Option SectionAddress)
    (symbol : ObjSymbol) (rest : List (ℕ × ObjSymbol)) (f f' : Fill) (k : ℕ)
    → IsOrdered section.splits
    → AllFull section.splits
    → u32 symbol.address < (next_place section rest).0
    → (next_place section rest).1 ≡ 2 ^ k
    → k < 32
    → fill_symbol names module_id section i common symbol rest f ≡ ok f'
    → (f'.to_add ≡ f.to_add)
      ⊎ ((new : ObjSymbol) × (f'.to_add ≡ f.to_add ++ (new ∷ []))
          × FillsGap section symbol (next_place section rest).0 new)
fill_symbol-FillsGap names module_id section i common symbol rest f f' k o full lt power small h =
    let next = next_place section rest in
    elim (fill_symbol-Step names module_id section i common symbol rest f {f' = f'} h) [
      | inl same ↦ inl (ap (λ (z : Fill). z.to_add) (sym same))
      | inr (limit, e, kept same) ↦ inl (ap (λ (z : Fill). z.to_add) (sym same))
      | inr (limit, e, cut same more) ↦ inl same
      | inr (limit, e, added new more same start lt' ends) ↦
          let behind : symbol_end symbol ≤ new.address = (elim start [
            | inl at_end ↦ omega arith
            | inr aligned ↦ align_up_le k (symbol_end symbol) small (rw power at aligned)
          ]) in
          let (le, starts, inside) =
            gap_limit_lem section symbol next.0 limit o full lt (next_place_lt section rest) e
              (omega arith) in
          inr (
            new,
            more,
            record {
              behind = behind;
              full = omega arith;
              ends = omega arith;
              starts = rw ends starts;
              inside = rw ends inside;
            },
          )
    ]

-- Of a symbol that ends below 2^32, what succeeds behind it notes no size or one that is not
-- smaller than the symbol's.
pub fill_symbol_size :
    (names : Names) (module_id : ℕ) (section : ObjSection) (i : ℕ) (common : Option SectionAddress)
    (symbol : ObjSymbol) (rest : List (ℕ × ObjSymbol)) (f f' : Fill)
    → symbol.address + symbol.size < 2 ^ 32
    → fill_symbol names module_id section i common symbol rest f ≡ ok f'
    → (f'.to_truncate ≡ f.to_truncate)
      ⊎ ((size : ℕ) × (f'.to_truncate ≡ f.to_truncate ++ ((symbol.address, size) ∷ []))
          × (symbol.size ≤ size))
fill_symbol_size names module_id section i common symbol rest f f' small h =
    let next = next_place section rest in
    elim (fill_symbol-Step names module_id section i common symbol rest f {f' = f'} h) [
      | inl same ↦ inl (ap (λ (z : Fill). z.to_truncate) (sym same))
      | inr (limit, e, kept same) ↦ inl (ap (λ (z : Fill). z.to_truncate) (sym same))
      | inr (limit, e, added new more same start lt ends) ↦ inl same
      | inr (limit, e, cut same more) ↦
          let le = gap_limit_le section symbol next.0 e in
          inr (limit - symbol.address, more, omega arith)
    ]
