-- ===== src/Util/Split/Truncate/Keeps.antt =====
-- What the pass leaves of the symbol table.
use decomp_toolkit.Prelude.{
  ℕ, List, [], ◌∷◌, get_elem?, Result, ok, err, panic, Option-cases, inl, inr,
}
use decomp_toolkit.Obj.Sections
use decomp_toolkit.Obj.Symbols.Table.{ObjSymbols, Error}
use decomp_toolkit.Obj.Symbols.Table.Writes.{IsConsistent, replace-IsConsistent}
use decomp_toolkit.Obj.Info.{ObjInfo}
use decomp_toolkit.Util.Split.Truncate.{
  resize, then_on, resize_all, resize_by, all_truncations, truncate_autogen_symbols_at_splits,
}

resize-IsConsistent :
    (idx size : ℕ) (t : ObjSymbols) → IsConsistent t → IsConsistent (resize idx size t).0
unfolding resize
resize-IsConsistent idx size t h = elim (Option-cases (get_elem? t.symbols idx)) [
  | inl e ↦ rw (e, resize) h
  | inr (symbol, e) ↦ rw (e, resize) (replace-IsConsistent idx (record symbol { size = size }) t h)
]

then_on-IsConsistent :
    (k : ObjSymbols → ObjSymbols × Result Error (Unit {0}))
    (r : ObjSymbols × Result Error (Unit {0}))
    → ((t : ObjSymbols) → IsConsistent t → IsConsistent (k t).0)
    → IsConsistent r.0
    → IsConsistent (then_on k r).0
then_on-IsConsistent k (t, ok _) f h = f t h
then_on-IsConsistent k (t, err e) f h = h
then_on-IsConsistent k (t, panic) f h = h

pub resize_all-IsConsistent :
    (fixes : List (ℕ × ℕ)) (t : ObjSymbols) → IsConsistent t → IsConsistent (resize_all fixes t).0
unfolding resize_all
resize_all-IsConsistent [] t h = h
resize_all-IsConsistent ((idx, size) ∷ rest) t h =
    then_on-IsConsistent (resize_all rest) (resize idx size t)
      (λ t' h'. resize_all-IsConsistent rest t' h') (resize-IsConsistent idx size t h)

resize_by-IsConsistent :
    (fixes : Result Error (List (ℕ × ℕ))) (t : ObjSymbols)
    → IsConsistent t
    → IsConsistent (resize_by fixes t).0
resize_by-IsConsistent (ok fixes) t h = resize_all-IsConsistent fixes t h
resize_by-IsConsistent (err e) t h = h
resize_by-IsConsistent panic t h = h

-- The pass keeps the indexes of the symbol table exact, on every outcome.
pub truncate-IsConsistent :
    (obj : ObjInfo)
    → IsConsistent obj.symbols
    → IsConsistent (truncate_autogen_symbols_at_splits obj).0.symbols
unfolding truncate_autogen_symbols_at_splits
truncate-IsConsistent obj h =
    resize_by-IsConsistent (all_truncations obj.symbols (Sections.iter obj.sections)) obj.symbols h
