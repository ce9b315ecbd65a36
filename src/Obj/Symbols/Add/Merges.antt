-- ===== src/Obj/Symbols/Add/Merges.antt =====
-- `add` keeps the indexes exact, and what a merge makes of the two symbols.
use decomp_toolkit.Prelude.{
  ℕ, ◌^◌, ◌<◌, ◌≡◌, refl, Bool, true, false, not, ◌&&◌, Option, none, some, length, Result, ok, err,
  panic, Bool-cases, inl, inr, ◌⊎◌,
}
use decomp_toolkit.Obj.Symbols.Flags.{is_alias}
use decomp_toolkit.Obj.Symbols.Symbol.{ObjSymbol, normalize_imp_kind, symbol_eq}
use decomp_toolkit.Obj.Symbols.Table.{is_placed, ObjSymbols, Error, add_direct, replace}
use decomp_toolkit.Obj.Symbols.Table.Writes.{
  IsConsistent, add_direct-IsConsistent, add_direct_refused, replace-IsConsistent,
}
use decomp_toolkit.Obj.Symbols.Add.{
  find_existing, replaces, merged, merge_into, then_index, fresh, add_found, add,
}

pub fst-then_index :
    (idx : ℕ) (r : ObjSymbols × Result Error (Unit {0})) → (then_index idx r).0 ≡ r.0
fst-then_index idx (t, ok _) = refl
fst-then_index idx (t, err e) = refl
fst-then_index idx (t, panic) = refl

-- A merge leaves the table alone or ends in one `replace` at the index.
pub merge_into_rule :
    (P : ObjSymbols → Type 0) (flag : Bool) (idx : ℕ) (existing in_symbol : ObjSymbol)
    (t : ObjSymbols)
    → P t
    → ((s : ObjSymbol) → P (replace idx s t).0)
    → P (merge_into flag idx existing in_symbol t).0
unfolding merge_into
merge_into_rule P flag idx existing in_symbol t stay keep =
    elim (Bool-cases (replaces flag existing in_symbol)) [
      | inl r ↦ rw r (elim (Bool-cases (symbol_eq existing (merged true existing in_symbol))) [
        | inl z ↦ rw z stay
        | inr z ↦ rw (z, fst-then_index) (keep _)
      ])
      | inr r ↦ rw r (elim (Bool-cases (in_symbol.size_known && not existing.size_known)) [
        | inl z ↦ rw (z, fst-then_index) (keep _)
        | inr z ↦ rw z stay
      ])
    ]

add_direct-IsConsistent_ok :
    (symbol : ObjSymbol) (t : ObjSymbols)
    → length t.symbols < 2 ^ 32
    → IsConsistent t
    → {i : ℕ} → (add_direct symbol t).1 ≡ ok i
    → IsConsistent (add_direct symbol t).0
add_direct-IsConsistent_ok symbol t small h e = elim (Bool-cases (is_placed t.obj_kind symbol)) [
  | inl a ↦ (add_direct-IsConsistent symbol t small a h).0
  | inr a ↦ absurd (cc ((add_direct_refused symbol t a h).0))
]

add_found-IsConsistent :
    (found : Result Error (Option (ℕ × ObjSymbol))) (flag : Bool) (symbol : ObjSymbol)
    (t : ObjSymbols)
    → length t.symbols < 2 ^ 32
    → IsConsistent t
    → {i : ℕ} → (add_found found flag symbol t).1 ≡ ok i
    → IsConsistent (add_found found flag symbol t).0
add_found-IsConsistent (ok (some (idx, existing))) flag symbol t small h e =
    merge_into_rule IsConsistent flag idx existing symbol t h (λ s. replace-IsConsistent idx s t h)
add_found-IsConsistent (ok none) flag symbol t small h e =
    add_direct-IsConsistent_ok (fresh symbol) t small h e
add_found-IsConsistent (err x) flag symbol t small h e = h
add_found-IsConsistent panic flag symbol t small h e = h

-- `add` hands an alias to `add_direct`, and any other symbol to the search for a symbol to merge.
pub add_cases :
    (symbol : ObjSymbol) (flag : Bool) (t : ObjSymbols)
    → ((is_alias (normalize_imp_kind symbol).flags ≡ true)
        × (add symbol flag t ≡ add_direct (normalize_imp_kind symbol) t))
      ⊎ ((is_alias (normalize_imp_kind symbol).flags ≡ false)
          × (add symbol flag t
              ≡ add_found
                  (find_existing (normalize_imp_kind symbol) t)
                  flag
                  (normalize_imp_kind symbol)
                  t))
unfolding add
add_cases symbol flag t = elim (Bool-cases (is_alias (normalize_imp_kind symbol).flags)) [
  | inl a ↦ inl (a, rw a)
  | inr a ↦ inr (a, rw a)
]

-- A call of `add` that returns an index leaves the indexes exact, whether it merged or appended.
pub add-IsConsistent :
    (symbol : ObjSymbol) (flag : Bool) (t : ObjSymbols)
    → length t.symbols < 2 ^ 32
    → IsConsistent t
    → {i : ℕ} → (add symbol flag t).1 ≡ ok i
    → IsConsistent (add symbol flag t).0
add-IsConsistent symbol flag t small h e = elim (add_cases symbol flag t) [
  | inl (_, q) ↦ rw q (add_direct-IsConsistent_ok (normalize_imp_kind symbol) t small h (rw q at e))
  | inr (_, q) ↦ rw q (
      add_found-IsConsistent (find_existing (normalize_imp_kind symbol) t) flag
        (normalize_imp_kind symbol) t small h (rw q at e))
]
