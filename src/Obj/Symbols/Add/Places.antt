-- ===== src/Obj/Symbols/Add/Places.antt =====
-- What `add` leaves alone: the place of every symbol, and all symbols where it must not merge.
use decomp_toolkit.Prelude.{
  ℕ, ◌≡◌, refl, ap, ◌∙◌, Bool, true, false, ◌||◌, Option, none, some, ◌==◌, Result, ok, err,
  get_elem?, panic, arith, Bool-cases, starts_with, Option-cases, inl, inr, get_elem?-append,
  get_elem?-length, get_elem?-set_self, get_elem?-set_ne, lt_of_get_elem?,
}
use decomp_toolkit.Obj.Symbols.Flags.{is_alias, is_stripped}
use decomp_toolkit.Obj.Symbols.Symbol.{ObjSymbol, normalize_imp_kind}
use decomp_toolkit.Obj.Symbols.Table.{
  is_placed, ObjSymbols, Error, add_direct, replace, replace_at, section_eq,
}
use decomp_toolkit.Obj.Symbols.Table.Writes.{add_normalized_lem}
use decomp_toolkit.Obj.Symbols.Add.{find_existing, fresh, add_found, add}
use decomp_toolkit.Obj.Symbols.Add.Merges.{merge_into_rule, add_cases}

-- Every symbol of `t` is still there, under its index, at its address and in its section.
abbrev pub KeepsPlaces : ObjSymbols → ObjSymbols → Type 0
KeepsPlaces t u =
    (i : ℕ) (x : ObjSymbol)
    → get_elem? t.symbols i ≡ some x
    → (y : ObjSymbol) × (get_elem? u.symbols i ≡ some y)
      × (y.address ≡ x.address)
      × (y.section ≡ x.section)

keeps_all : (t : ObjSymbols) → KeepsPlaces t t
keeps_all t i x e = (x, e, refl, refl)

add_direct-KeepsPlaces :
    (symbol : ObjSymbol) (t : ObjSymbols) → KeepsPlaces t (add_direct symbol t).0
unfolding add_direct
add_direct-KeepsPlaces symbol t =
    let s = normalize_imp_kind symbol in
    rw (add_normalized_lem s t) (elim (Bool-cases (is_placed t.obj_kind s)) [
      | inl a ↦ rw a (λ i x e. (
        x,
        ground (arith, get_elem?-append t.symbols s i, get_elem?-length t.symbols),
        refl,
        refl,
      ))
      | inr a ↦ rw a (keeps_all t)
    ])

section_of_eq : (a b : Option ℕ) → section_eq a b ≡ true → b ≡ a
section_of_eq a b e = ground arith

replace_at-KeepsPlaces :
    (idx : ℕ) (old symbol : ObjSymbol) (t : ObjSymbols)
    → get_elem? t.symbols idx ≡ some old
    → KeepsPlaces t (replace_at idx old symbol t).0
replace_at-KeepsPlaces idx old symbol t here =
    let at_index : (i : ℕ) (x : ObjSymbol)
        → get_elem? t.symbols i ≡ some x
        → (idx == i) ≡ true
        → old ≡ x =
      λ i x h same. ground arith in
    elim (Bool-cases (old.address == symbol.address)) [
      | inr e ↦ rw e (keeps_all t)
      | inl e ↦ elim (Bool-cases (section_eq old.section symbol.section)) [
        | inr d ↦ rw (e, d) (keeps_all t)
        | inl d ↦
            rw (e, d)
              (λ i x h. elim (Bool-cases (idx == i)) [
                | inl same ↦ (
                  symbol,
                  ground (
                    arith,
                    get_elem?-set_self t.symbols idx symbol,
                    lt_of_get_elem? t.symbols idx here,
                  ),
                  ground (arith, at_index i x h same),
                  section_of_eq old.section symbol.section d
                      ∙ ap (λ (s : ObjSymbol). s.section) (at_index i x h same),
                )
                | inr other ↦
                    (x, ground (arith, get_elem?-set_ne t.symbols idx i symbol), refl, refl)
              ])
      ]
    ]

replace-KeepsPlaces :
    (idx : ℕ) (symbol : ObjSymbol) (t : ObjSymbols) → KeepsPlaces t (replace idx symbol t).0
unfolding replace
replace-KeepsPlaces idx symbol t = elim (Option-cases (get_elem? t.symbols idx)) [
  | inl e ↦ rw (e, replace) (keeps_all t)
  | inr (old, e) ↦ rw (e, replace) (replace_at-KeepsPlaces idx old (normalize_imp_kind symbol) t e)
]

add_found-KeepsPlaces :
    (found : Result Error (Option (ℕ × ObjSymbol))) (flag : Bool) (symbol : ObjSymbol)
    (t : ObjSymbols)
    → KeepsPlaces t (add_found found flag symbol t).0
add_found-KeepsPlaces (ok (some (idx, existing))) flag symbol t =
    merge_into_rule (KeepsPlaces t) flag idx existing symbol t (keeps_all t)
      (λ s. replace-KeepsPlaces idx s t)
add_found-KeepsPlaces (ok none) flag symbol t = add_direct-KeepsPlaces (fresh symbol) t
add_found-KeepsPlaces (err x) flag symbol t = keeps_all t
add_found-KeepsPlaces panic flag symbol t = keeps_all t

-- Whatever `add` does and returns, every symbol keeps its index, its address and its section.
pub add-KeepsPlaces :
    (symbol : ObjSymbol) (flag : Bool) (t : ObjSymbols) → KeepsPlaces t (add symbol flag t).0
add-KeepsPlaces symbol flag t =
    let s = normalize_imp_kind symbol in
    elim (add_cases symbol flag t) [
      | inl (_, q) ↦ rw q (add_direct-KeepsPlaces s t)
      | inr (_, q) ↦ rw q (add_found-KeepsPlaces (find_existing s t) flag s t)
    ]

normalize_imp_kind-flags : (s : ObjSymbol) → (normalize_imp_kind s).flags ≡ s.flags
unfolding normalize_imp_kind
normalize_imp_kind-flags s = elim (Bool-cases (starts_with s.name "__imp_")) [
  | inl e ↦ rw e
  | inr e ↦ rw e
]

pub find_existing_stripped :
    (s : ObjSymbol) (t : ObjSymbols) → is_stripped s.flags ≡ true → find_existing s t ≡ ok none
unfolding find_existing
find_existing_stripped s t h = rw (h, find_existing)

-- Every symbol of `t` is still there, unchanged.
abbrev pub KeepsSymbols : ObjSymbols → ObjSymbols → Type 0
KeepsSymbols t u =
    (i : ℕ) (x : ObjSymbol) → get_elem? t.symbols i ≡ some x → get_elem? u.symbols i ≡ some x

add_direct-KeepsSymbols :
    (symbol : ObjSymbol) (t : ObjSymbols) → KeepsSymbols t (add_direct symbol t).0
unfolding add_direct
add_direct-KeepsSymbols symbol t =
    let s = normalize_imp_kind symbol in
    rw (add_normalized_lem s t) (elim (Bool-cases (is_placed t.obj_kind s)) [
      | inl a ↦
          rw a (λ i x e. ground (arith, get_elem?-append t.symbols s i, get_elem?-length t.symbols))
      | inr a ↦ rw a (λ i x e. e)
    ])

-- An alias and a stripped symbol never merge with a symbol of the table, nor replace one.
pub add-KeepsSymbols :
    (symbol : ObjSymbol) (flag : Bool) (t : ObjSymbols)
    → (is_alias symbol.flags || is_stripped symbol.flags) ≡ true
    → KeepsSymbols t (add symbol flag t).0
add-KeepsSymbols symbol flag t h =
    let s = normalize_imp_kind symbol in
    elim (add_cases symbol flag t) [
      | inl (_, q) ↦ rw q (add_direct-KeepsSymbols s t)
      | inr (a, q) ↦
          rw q (rw (find_existing_stripped s t (stripped a)) (add_direct-KeepsSymbols (fresh s) t))
    ]
  where
    stripped :
        is_alias (normalize_imp_kind symbol).flags ≡ false
        → is_stripped (normalize_imp_kind symbol).flags ≡ true
    stripped a = ground (arith, normalize_imp_kind-flags symbol)
