-- ===== src/Obj/Symbols/Table/Writes.antt =====
-- `add_direct` and `replace` on an indexed table.
use decomp_toolkit.Prelude.{
  ℕ, ◌^◌, ◌<◌, ◌≡◌, refl, sym, ap, ◌∙◌, true, false, not, ◌&&◌, ◌||◌, List, [], ◌∷◌, ◌++◌, some,
  String, str_eq, eq_iff, ◌==◌, if◌then◌else◌, length, get_elem?, set, ok, err, arith,
  length-append, Option-cases, get_elem?-set_self, get_elem?-set_ne, lt_of_get_elem?, Bool-cases,
  inl, inr,
}
use decomp_toolkit.Prelude.HashMap.{HashMap}
use decomp_toolkit.Util.Nested.{
  bucket, nested_push, name_bucket, name_remove, bucket-nested_push_self, name_bucket-name_remove,
}
use decomp_toolkit.Obj.Kinds.{ObjKind}
use decomp_toolkit.Obj.Symbols.Flags.{is_common}
use decomp_toolkit.Obj.Symbols.Symbol.{ObjSymbol, normalize_imp_kind}
use decomp_toolkit.Obj.Symbols.Table.{
  is_placed, u32, SymbolMaps, ObjSymbols, abs_symbol_in_relocatable, index_symbol, rename_index,
  add_normalized, add_direct, replace_at, section_eq, replace,
}
use decomp_toolkit.Obj.Symbols.Table.Indexes.{
  IsIndexed, has_address, in_section, contains, index_symbol-IsIndexed, indices-set,
  contains-filter, name_bucket-push_name,
}

-- The table's indexes are exact.
abbrev pub IsConsistent : ObjSymbols → Type 0
IsConsistent t = IsIndexed t.symbols t.maps

-- The table with one more symbol, and the table that a refused symbol leaves.
abbrev pub appended : ObjSymbol → ObjSymbols → ObjSymbols
appended symbol t = record t {
  symbols = t.symbols ++ (symbol ∷ []);
  maps = index_symbol (u32 (length t.symbols)) symbol t.maps;
}

abbrev pub half_pushed : ObjSymbol → ObjSymbols → ObjSymbols
half_pushed symbol t = record t {
  maps = record {
    by_address = nested_push (u32 symbol.address) (u32 (length t.symbols)) t.by_address;
    by_name = t.by_name;
    by_section = t.by_section;
  };
}

pub add_normalized_lem :
    (symbol : ObjSymbol) (t : ObjSymbols)
    → add_normalized symbol t ≡ (
        if is_placed t.obj_kind symbol
        then (appended symbol t, ok (u32 (length t.symbols)))
        else (half_pushed symbol t, err abs_symbol_in_relocatable))
unfolding add_normalized is_placed
add_normalized_lem symbol t = ground arith

rename_index-contains :
    (old name n : String) (k i : ℕ) (m : HashMap (List ℕ))
    → contains i (name_bucket n (rename_index old name k m)) ≡ (
        if i == k
        then if str_eq old name
          then contains i (name_bucket n m)
          else (str_eq name n && not (str_eq n ""))
            || (if str_eq old ""
                then contains i (name_bucket n m)
                else contains i (name_bucket n m) && not (str_eq old n))
        else contains i (name_bucket n m))
unfolding rename_index
rename_index-contains old name n k i m = ground (
  arith,
  name_bucket-push_name name n k i m,
  name_bucket-push_name name n k i (name_remove old k m),
  name_bucket-name_remove old n k m,
  contains-filter i k (name_bucket old m),
  eq_iff old n,
  eq_iff old name,
)

appended-IsConsistent :
    (symbol : ObjSymbol) (t : ObjSymbols)
    → length t.symbols < 2 ^ 32
    → IsConsistent t
    → IsConsistent (appended symbol t)
appended-IsConsistent symbol t small h =
    let fits : u32 (length t.symbols) ≡ length t.symbols = omega arith in
    rw fits (index_symbol-IsIndexed t.symbols t.maps symbol h)

is_placed-normalize_imp_kind :
    (k : ObjKind) (symbol : ObjSymbol)
    → is_placed k (normalize_imp_kind symbol) ≡ is_placed k symbol
unfolding is_placed normalize_imp_kind is_common
is_placed-normalize_imp_kind k symbol = ground arith

-- A symbol that `add_direct` takes is appended, normalised, its index is returned, and the indexes
-- stay exact.
pub add_direct-IsConsistent :
    (symbol : ObjSymbol) (t : ObjSymbols)
    → length t.symbols < 2 ^ 32
    → is_placed t.obj_kind symbol ≡ true
    → IsConsistent t
    → IsConsistent (add_direct symbol t).0
      × ((add_direct symbol t).1 ≡ ok (length t.symbols))
      × ((add_direct symbol t).0.symbols ≡ t.symbols ++ (normalize_imp_kind symbol ∷ []))
unfolding add_direct
add_direct-IsConsistent symbol t small taken h =
    let s = normalize_imp_kind symbol in
    let fits : u32 (length t.symbols) ≡ length t.symbols = omega arith in
    rw (add_normalized_lem s t) (
      rw (is_placed-normalize_imp_kind t.obj_kind symbol)
        (rw taken (appended-IsConsistent s t small h, ap ok fits, refl)))

-- A symbol that `add_direct` refuses stays behind in the index by address: the error is returned
-- and no symbol is added, and the indexes are no longer exact.
pub add_direct_refused :
    (symbol : ObjSymbol) (t : ObjSymbols)
    → is_placed t.obj_kind symbol ≡ false
    → IsConsistent t
    → ((add_direct symbol t).1 ≡ err abs_symbol_in_relocatable)
      × ((add_direct symbol t).0.symbols ≡ t.symbols)
      × ¬ IsConsistent (add_direct symbol t).0
unfolding add_direct
add_direct_refused symbol t refused h =
    let s = normalize_imp_kind symbol in
    let a = u32 s.address in
    let n = u32 (length t.symbols) in
    rw (add_normalized_lem s t) (
      rw (is_placed-normalize_imp_kind t.obj_kind symbol) (
        rw refused (
          refl,
          refl,
          λ c. absurd (
              omega (
                arith,
                ap length (c.addresses a),
                ap length (h.addresses a),
                ap length (bucket-nested_push_self a n t.by_address),
                length-append (bucket a t.by_address) (n ∷ []),
              )),
        )))

module _ (idx : ℕ) (old symbol : ObjSymbol) (t : ObjSymbols) (h : IsConsistent t)
    (here : get_elem? t.symbols idx ≡ some old) where
  abbrev replaced : SymbolMaps
  replaced = record {
    by_address = t.by_address;
    by_name = rename_index old.name symbol.name idx t.by_name;
    by_section = t.by_section;
  }

  -- Where address and section stay, only the name index has to change.
  replaced-IsIndexed :
      (old.address == symbol.address) ≡ true
      → section_eq old.section symbol.section ≡ true
      → IsIndexed (set t.symbols idx symbol) replaced
  replaced-IsIndexed e d = record {
    addresses = λ a.
        h.addresses a
        ∙ sym (indices-set (has_address a) 0 idx t.symbols old symbol here (ground arith));
    sections = λ i a.
        h.sections i a
        ∙ sym (
            indices-set (λ x. in_section i x && has_address a x) 0 idx t.symbols old symbol here
              (ground arith));
    names = λ n i. ground (
      arith,
      h.names n i,
      rename_index-contains old.name symbol.name n idx i t.by_name,
      lt_of_get_elem? t.symbols idx here,
      get_elem?-set_self t.symbols idx symbol,
      get_elem?-set_ne t.symbols idx i symbol,
      eq_iff old.name symbol.name,
      eq_iff old.name n,
      eq_iff symbol.name n,
      eq_iff old.name "",
      eq_iff n "",
    );
  }

  replace_at-IsConsistent : IsConsistent (replace_at idx old symbol t).0
  replace_at-IsConsistent = elim (Bool-cases (old.address == symbol.address)) [
    | inr e ↦ rw e h
    | inl e ↦ elim (Bool-cases (section_eq old.section symbol.section)) [
      | inr d ↦ rw (e, d) h
      | inl d ↦ rw (e, d) (replaced-IsIndexed e d)
    ]
  ]

-- `replace` keeps the indexes exact, on every outcome.
pub replace-IsConsistent :
    (idx : ℕ) (symbol : ObjSymbol) (t : ObjSymbols)
    → IsConsistent t
    → IsConsistent (replace idx symbol t).0
unfolding replace
replace-IsConsistent idx symbol t h = elim (Option-cases (get_elem? t.symbols idx)) [
  | inl e ↦ rw (e, replace) h
  | inr (old, e) ↦
      rw (e, replace) (replace_at-IsConsistent idx old (normalize_imp_kind symbol) t h e)
]
