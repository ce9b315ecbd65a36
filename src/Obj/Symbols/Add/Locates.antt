-- ===== src/Obj/Symbols/Add/Locates.antt =====
-- `add` of a symbol in a section returns, and what it returns is the index of a symbol there.
use decomp_toolkit.Prelude.{
  ℕ, suc, ◌^◌, ◌<◌, ◌≡◌, refl, sym, ap, ◌∙◌, Bool, true, false, not, ◌&&◌, List, [], ◌∷◌, ◌++◌,
  Option, some, ◌==◌, length, Result, ok, find, get_elem?, starts_with, arith, Bool-cases,
  Option-cases, inl, inr, get_elem?-append, length-append, append_assoc, get_elem?-set_self,
  lt_of_get_elem?,
}
use mathlib.Core.Path.{subst}
use decomp_toolkit.Obj.Symbols.Flags.{is_stripped}
use decomp_toolkit.Obj.Symbols.Symbol.{ObjSymbol, normalize_imp_kind, symbol_eq}
use decomp_toolkit.Obj.Symbols.Table.{
  is_placed, u32, ObjSymbols, Error, add_direct, replace, section_eq,
}
use decomp_toolkit.Obj.Symbols.Table.Indexes.{has_address, in_section}
use decomp_toolkit.Obj.Symbols.Table.Writes.{IsConsistent, add_direct-IsConsistent}
use decomp_toolkit.Obj.Symbols.Table.Reads.{
  entries, get_elem?-append_length, at_section_address-entries,
}
use decomp_toolkit.Obj.Symbols.Add.{
  find_existing, merges_with, merged, replaces, merge_into, then_index, fresh, add_found, add,
}
use decomp_toolkit.Obj.Symbols.Add.Merges.{add_cases}
use decomp_toolkit.Obj.Symbols.Add.Places.{find_existing_stripped}

-- The call returned the index of a symbol of the new table at the address and in the section.
abbrev pub Locates : ℕ → ℕ → ObjSymbols × Result Error ℕ → Type 0
Locates address section (t, r) =
    (i : ℕ) × (y : ObjSymbol) × (r ≡ ok i)
    × (get_elem? t.symbols i ≡ some y)
    × (y.address ≡ address)
    × (y.section ≡ some section)

find-entries :
    (p q : ObjSymbol → Bool) (front xs : List ObjSymbol) {i : ℕ} {x : ObjSymbol}
    → find (λ (e : ℕ × ObjSymbol). q e.1) (entries p (length front) xs) ≡ some (i, x)
    → (p x ≡ true) × (get_elem? (front ++ xs) i ≡ some x)
unfolding entries
find-entries p q front [] h = absurd (cc)
find-entries p q front (y ∷ ys) {i} {x} h =
    let next : length (front ++ (y ∷ [])) ≡ suc (length front) =
      omega (arith, length-append front (y ∷ [])) in
    let later : find (λ (e : ℕ × ObjSymbol). q e.1) (entries p (suc (length front)) ys)
          ≡ some (i, x)
        → (p x ≡ true) × (get_elem? (front ++ (y ∷ ys)) i ≡ some x) =
      λ k.
        rw (append_assoc front (y ∷ []) ys) at
          (find-entries p q (front ++ (y ∷ [])) ys {i = i} {x = x} (rw next k)) in
    elim (Bool-cases (p y)) [
      | inl a ↦ elim (Bool-cases (q y)) [
        | inl b ↦
            let e : ◌≡◌ {A = Option (ℕ × ObjSymbol)} (some (length front, y)) (some (i, x)) =
              rw b at (rw a at h) in
            let e_i : length front ≡ i = cc in
            let e_x : y ≡ x = cc in
            (rw e_x at a, rw e_i at (get_elem?-append_length front y ys) ∙ ap some e_x)
        | inr b ↦ later (rw b at (rw a at h))
      ]
      | inr a ↦ later (rw a at h)
    ]

normalize_place :
    (s : ObjSymbol)
    → ((normalize_imp_kind s).address ≡ s.address)
      × ((normalize_imp_kind s).section ≡ s.section)
      × ((normalize_imp_kind s).flags ≡ s.flags)
unfolding normalize_imp_kind
normalize_place s = elim (Bool-cases (starts_with s.name "__imp_")) [
  | inl e ↦ rw e (refl, refl, refl)
  | inr e ↦ rw e (refl, refl, refl)
]

add_direct-Locates :
    (s : ObjSymbol) (section : ℕ) (t : ObjSymbols)
    → length t.symbols < 2 ^ 32
    → s.section ≡ some section
    → IsConsistent t
    → Locates s.address section (add_direct s t)
add_direct-Locates s section t small place h =
    let taken : is_placed t.obj_kind s ≡ true = unfold is_placed in rw place in
    let (_, result, symbols) = add_direct-IsConsistent s t small taken h in
    let (same_address, same_section, _) = normalize_place s in
    (
      length t.symbols,
      normalize_imp_kind s,
      result,
      rw symbols
          (ground (arith, get_elem?-append t.symbols (normalize_imp_kind s) (length t.symbols))),
      same_address,
      same_section ∙ place,
    )

replace-Locates :
    (idx section : ℕ) (old s : ObjSymbol) (t : ObjSymbols)
    → get_elem? t.symbols idx ≡ some old
    → s.address ≡ old.address
    → old.section ≡ some section
    → s.section ≡ some section
    → Locates old.address section (then_index idx (replace idx s t))
unfolding replace
replace-Locates idx section old s t here address old_section section' =
    let n = normalize_imp_kind s in
    let (same_address, same_section, _) = normalize_place s in
    let e : (old.address == n.address) ≡ true = ground arith in
    let d : section_eq old.section n.section ≡ true =
      rw (old_section) (rw (same_section ∙ section') (ground arith)) in
    rw (here, replace)
      (rw (e, d)
        (
          idx,
          n,
          refl,
          get_elem?-set_self t.symbols idx n (lt_of_get_elem? t.symbols idx here),
          same_address ∙ address,
          same_section ∙ section',
        ))

-- Where addresses are below 2^32, the symbol found at the same place has the same address.
merge_into-Locates :
    (flag : Bool) (idx section : ℕ) (existing s : ObjSymbol) (t : ObjSymbols)
    → get_elem? t.symbols idx ≡ some existing
    → s.address ≡ existing.address
    → existing.section ≡ some section
    → s.section ≡ some section
    → Locates existing.address section (merge_into flag idx existing s t)
unfolding merge_into
merge_into-Locates flag idx section existing s t here address old_section section' =
    let stay : Locates existing.address section (t, ok idx) =
      (idx, existing, refl, here, refl, old_section) in
    elim (Bool-cases (replaces flag existing s)) [
      | inl r ↦ rw r (elim (Bool-cases (symbol_eq existing (merged true existing s))) [
        | inl z ↦ rw z stay
        | inr z ↦ rw z (
            replace-Locates idx section existing (merged true existing s) t here
              (unfold merged in address) old_section (unfold merged in section'))
      ])
      | inr r ↦ rw r (elim (Bool-cases (s.size_known && not existing.size_known)) [
        | inl z ↦ rw z (replace-Locates idx section existing _ t here refl old_section old_section)
        | inr z ↦ rw z stay
      ])
    ]

module _ (s : ObjSymbol) (section : ℕ) (t : ObjSymbols) (h : IsConsistent t)
    (place : s.section ≡ some section) where
  -- The symbols that the lookup at the place of `s` lists.
  abbrev candidates : ObjSymbol → Bool
  candidates x =
      (in_section section x && has_address (u32 s.address) x) && not (is_stripped x.flags)

  find_existing-entries :
      is_stripped s.flags ≡ false
      → find_existing s t
        ≡ ok (find (λ (e : ℕ × ObjSymbol). merges_with s e.1) (entries candidates 0 t.symbols))
  unfolding find_existing
  find_existing-entries e =
      rw (e, find_existing) (simp (place, at_section_address-entries section (u32 s.address) t h))

  add_found-Locates :
      (flag : Bool)
      → length t.symbols < 2 ^ 32
      → s.address < 2 ^ 32
      → ((i : ℕ) (x : ObjSymbol) → get_elem? t.symbols i ≡ some x → x.address < 2 ^ 32)
      → Locates s.address section (add_found (find_existing s t) flag s t)
  add_found-Locates flag small low all_low =
      let appended : Locates s.address section (add_direct (fresh s) t) =
        unfold fresh in add_direct-Locates (fresh s) section t small place h in
      elim (Bool-cases (is_stripped s.flags)) [
        | inl e ↦ rw (find_existing_stripped s t e) appended
        | inr e ↦
            rw (find_existing-entries e)
              (elim (Option-cases (
                find (λ (e : ℕ × ObjSymbol). merges_with s e.1) (entries candidates 0 t.symbols))) [
                  | inl f ↦ rw f appended
                  | inr ((idx, x), f) ↦
                      let (passes, here) = find-entries candidates (merges_with s) [] t.symbols f in
                      let x_low = all_low idx x here in
                      let same : x.address ≡ s.address = ground arith in
                      rw f (
                        subst (λ a. Locates a section (merge_into flag idx x s t)) same
                          (merge_into-Locates flag idx section x s t here (sym same) (ground arith)
                            place))
                ])
      ]

-- On a table with exact indexes, whose addresses and the new one are below 2^32, `add` of a symbol
-- in a section always returns, and returns the index of a symbol at that address in that section.
pub add-Locates :
    (symbol : ObjSymbol) (flag : Bool) (section : ℕ) (t : ObjSymbols)
    → length t.symbols < 2 ^ 32
    → symbol.address < 2 ^ 32
    → ((i : ℕ) (x : ObjSymbol) → get_elem? t.symbols i ≡ some x → x.address < 2 ^ 32)
    → symbol.section ≡ some section
    → IsConsistent t
    → Locates symbol.address section (add symbol flag t)
add-Locates symbol flag section t small low all_low place h =
    let n = normalize_imp_kind symbol in
    let (same_address, same_section, _) = normalize_place symbol in
    elim (add_cases symbol flag t) [
      | inl (_, q) ↦ rw q (
          subst (λ a. Locates a section (add_direct n t)) same_address
            (add_direct-Locates n section t small (same_section ∙ place) h))
      | inr (_, q) ↦ rw q (
          subst (λ a. Locates a section (add_found (find_existing n t) flag n t)) same_address
            (add_found-Locates n section t h (same_section ∙ place) flag small (rw same_address low)
              all_low))
    ]
