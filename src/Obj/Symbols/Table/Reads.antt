-- ===== src/Obj/Symbols/Table/Reads.antt =====
-- Lookups by section and address in an indexed table, against a scan of all symbols.
use decomp_toolkit.Prelude.{
  ℕ, suc, ◌≡◌, refl, sym, ap, ◌∙◌, Bool, true, false, not, ◌&&◌, List, [], ◌∷◌, ◌++◌, some,
  if◌then◌else◌, length, get_elem?, filter, ok, arith, length-append, append_assoc,
}
use decomp_toolkit.Obj.Kinds.{ObjSymbolKind, symbol_kind_eq}
use decomp_toolkit.Obj.Symbols.Flags.{is_stripped}
use decomp_toolkit.Obj.Symbols.Symbol.{ObjSymbol}
use decomp_toolkit.Obj.Symbols.Table.{
  ObjSymbols, resolve, at_section_address, at_most_one, kind_at_section_address,
}
use decomp_toolkit.Obj.Symbols.Table.Indexes.{indices, has_address, in_section}
use decomp_toolkit.Obj.Symbols.Table.Writes.{IsConsistent}

-- The symbols that pass a test, with their positions counted from `n`.
unfoldable pub entries : (ObjSymbol → Bool) → ℕ → List ObjSymbol → List (ℕ × ObjSymbol)
entries p n [] = []
entries p n (x ∷ xs) = if p x then (n, x) ∷ entries p (suc n) xs else entries p (suc n) xs

pub get_elem?-append_length :
    (front : List ObjSymbol) (x : ObjSymbol) (xs : List ObjSymbol)
    → get_elem? (front ++ (x ∷ xs)) (length front) ≡ some x
get_elem?-append_length [] x xs = refl
get_elem?-append_length (y ∷ front) x xs = get_elem?-append_length front x xs

pub resolve-indices :
    (p : ObjSymbol → Bool) (t : ObjSymbols) (front xs : List ObjSymbol)
    → t.symbols ≡ front ++ xs
    → resolve t (indices p (length front) xs) ≡ ok (entries p (length front) xs)
unfolding resolve indices entries
resolve-indices p t front [] e = refl
resolve-indices p t front (x ∷ xs) e =
    let next : length (front ++ (x ∷ [])) ≡ suc (length front) =
      omega (arith, length-append front (x ∷ [])) in
    let ih =
      rw next at
        (resolve-indices p t (front ++ (x ∷ [])) xs (e ∙ sym (append_assoc front (x ∷ []) xs))) in
    let here : get_elem? t.symbols (length front) ≡ some x =
      ap (λ l. get_elem? l (length front)) e ∙ get_elem?-append_length front x xs in
    elim (p x)
      as (λ b.
        resolve t (
          if b
          then length front ∷ indices p (suc (length front)) xs
          else indices p (suc (length front)) xs)
        ≡ ok (
            if b
            then (length front, x) ∷ entries p (suc (length front)) xs
            else entries p (suc (length front)) xs)) [ true ↦ rw (here, ih) | false ↦ ih ]

filter-entries :
    (p q : ObjSymbol → Bool) (n : ℕ) (xs : List ObjSymbol)
    → filter (λ (e : ℕ × ObjSymbol). q e.1) (entries p n xs) ≡ entries (λ x. p x && q x) n xs
unfolding entries
filter-entries p q n [] = refl
filter-entries p q n (x ∷ xs) = ground (arith, filter-entries p q (suc n) xs)

pub at_section_address-entries :
    (section a : ℕ) (t : ObjSymbols)
    → IsConsistent t
    → at_section_address section a t
      ≡ ok (
          entries
            (λ x. (in_section section x && has_address a x) && not (is_stripped x.flags))
            0
            t.symbols)
unfolding at_section_address
at_section_address-entries section a t h = rw (h.sections section a) (
    rw (resolve-indices (λ x. in_section section x && has_address a x) t [] t.symbols refl)
      (ap ok (filter-entries _ (λ x. not (is_stripped x.flags)) 0 t.symbols)))

-- A lookup by kind as well finds the only such symbol, or none, and fails exactly where there are
-- several.
pub kind_at_section_address-entries :
    (section a : ℕ) (kind : ObjSymbolKind) (t : ObjSymbols)
    → IsConsistent t
    → kind_at_section_address section a kind t
      ≡ at_most_one (
          entries
            (λ x.
              ((in_section section x && has_address a x) && not (is_stripped x.flags))
              && symbol_kind_eq x.kind kind)
            0
            t.symbols)
unfolding kind_at_section_address
kind_at_section_address-entries section a kind t h =
    rw (at_section_address-entries section a t h)
      (ap at_most_one (filter-entries _ (λ x. symbol_kind_eq x.kind kind) 0 t.symbols))
