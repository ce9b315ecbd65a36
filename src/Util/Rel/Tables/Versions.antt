-- ===== src/Util/Rel/Tables/Versions.antt =====
-- The tables in the order of version 3, and in that of the versions before it.
use decomp_toolkit.Prelude.{
  ℕ, suc, ◌+◌, ◌*◌, ◌^◌, ◌≤◌, ◌<◌, ◌≡◌, refl, sym, ap, true, false, List, ◌∷◌, ◌++◌, some, ltb, leb,
  length, All, ok, arith, append_assoc, length-append,
}
use mathlib.Core.Path.{subst}
use decomp_toolkit.Obj.Info.{RelReloc}
use decomp_toolkit.Util.Rel.{RelHeader}
use decomp_toolkit.Util.Rel.Relocs.{RelTypes, imports_relocs}
use decomp_toolkit.Util.Rel.Layout.{Laid, do_relocation_layout, write_raws}
use decomp_toolkit.Util.Rel.Relocs.Entries.{InOrder, IsPlain}
use decomp_toolkit.Util.Rel.Relocs.Reads.{length-write_raws}
use decomp_toolkit.Util.Rel.Relocs.RoundTrip.{imports_relocs-do_relocation_layout}
use decomp_toolkit.Util.Rel.Order.Ascending.{IsAscending}
use decomp_toolkit.Util.Rel.Tables.{
  with_tables, dedup_count, layout_tables, write_imports, write_tables,
}
use decomp_toolkit.Util.Rel.Tables.Imports.{length-write_imports}
use decomp_toolkit.Util.Rel.Tables.Read.{layout_lem, read_tables-write_imports, TablesReadBack}

module _ (t : RelTypes) (order : InOrder t) (h : RelHeader) (proper : 1 ≤ h.module_id) where
  pub tables_before :
      (r : RelReloc) (rs : List RelReloc) (laid : Laid) (prefix suffix : List ℕ)
      → leb 3 h.version ≡ true
      → All IsPlain (r ∷ rs)
      → IsAscending h.version h.module_id (r ∷ rs)
      → length prefix + 8 * dedup_count (r ∷ rs) < 2 ^ 32
      → do_relocation_layout t h.version h.module_id
          (r ∷ rs)
          (length prefix + 8 * dedup_count (r ∷ rs))
        ≡ ok laid
      → TablesReadBack t h (r ∷ rs) prefix suffix
  unfolding layout_tables write_tables
  tables_before r rs laid prefix suffix new plain ascending fits e =
      let count = dedup_count (r ∷ rs) in
      let offset = length prefix + 8 * count in
      let near : ltb offset (2 ^ 32) ≡ true = (ground arith) in
      let (imps, end, starts, fixed) =
        layout_lem t h.version h.module_id r rs offset laid order proper plain ascending e in
      let is = laid.imp_entries in
      let raws = laid.raw_relocations in
      let tables = with_tables h (length prefix) offset count laid laid.state.offset in
      let file = prefix ++ ((write_imports is ++ write_raws raws) ++ suffix) in
      let behind : length (prefix ++ write_imports is) ≡ offset =
        omega (arith, length-append prefix (write_imports is), length-write_imports is) in
      let split : file ≡ prefix ++ (write_imports is ++ (write_raws raws ++ suffix)) =
        simp (append_assoc) refl in
      let split' : (prefix ++ write_imports is) ++ (write_raws raws ++ suffix) ≡ file =
        simp (append_assoc) refl in
      let enough : length raws ≤ suc (length file) = omega (
        arith,
        length-append prefix ((write_imports is ++ write_raws raws) ++ suffix),
        length-append (write_imports is ++ write_raws raws) suffix,
        length-append (write_imports is) (write_raws raws),
        length-write_raws raws,
      ) in
      let e' =
        subst (λ n. do_relocation_layout t h.version h.module_id (r ∷ rs) n ≡ ok laid) (sym behind)
          e in
      let read =
        imports_relocs-do_relocation_layout t h.version h.module_id (r ∷ rs) laid
          (suc (length file)) (prefix ++ write_imports is) suffix order plain e' enough in
      let read' =
        subst (λ bs. imports_relocs (suc (length file)) t bs is ≡ some (ok (r ∷ rs))) split' read in
      (
        tables,
        rw (new, near, e) refl,
        rw new (
            omega (
              arith,
              length-append prefix (write_imports is ++ write_raws raws),
              length-append (write_imports is) (write_raws raws),
              length-write_imports is,
              length-write_raws raws,
            )),
        rw new (
            read_tables-write_imports t tables.header file is (r ∷ rs) prefix
              (write_raws raws ++ suffix) refl (ap (λ n. 8 * n) (sym imps)) fits split starts fixed
              read'),
      )

  pub tables_behind :
      (r : RelReloc) (rs : List RelReloc) (laid : Laid) (prefix suffix : List ℕ)
      → leb 3 h.version ≡ false
      → All IsPlain (r ∷ rs)
      → IsAscending h.version h.module_id (r ∷ rs)
      → laid.state.offset + 8 * dedup_count (r ∷ rs) < 2 ^ 32
      → do_relocation_layout t h.version h.module_id (r ∷ rs) (length prefix) ≡ ok laid
      → TablesReadBack t h (r ∷ rs) prefix suffix
  unfolding layout_tables write_tables
  tables_behind r rs laid prefix suffix old plain ascending fits e =
      let count = dedup_count (r ∷ rs) in
      let near : ltb (laid.state.offset + 8 * count) (2 ^ 32) ≡ true = (ground arith) in
      let (imps, end, starts, fixed) =
        layout_lem t h.version h.module_id r rs (length prefix) laid order proper plain ascending
          e in
      let is = laid.imp_entries in
      let raws = laid.raw_relocations in
      let tables =
        with_tables h laid.state.offset (length prefix) count laid
          (laid.state.offset + 8 * count) in
      let file = prefix ++ ((write_raws raws ++ write_imports is) ++ suffix) in
      let behind : length (prefix ++ write_raws raws) ≡ laid.state.offset =
        omega (arith, length-append prefix (write_raws raws), length-write_raws raws) in
      let split : file ≡ (prefix ++ write_raws raws) ++ (write_imports is ++ suffix) =
        simp (append_assoc) refl in
      let split' : prefix ++ (write_raws raws ++ (write_imports is ++ suffix)) ≡ file =
        simp (append_assoc) refl in
      let enough : length raws ≤ suc (length file) = omega (
        arith,
        length-append prefix ((write_raws raws ++ write_imports is) ++ suffix),
        length-append (write_raws raws ++ write_imports is) suffix,
        length-append (write_raws raws) (write_imports is),
        length-write_raws raws,
      ) in
      let read =
        imports_relocs-do_relocation_layout t h.version h.module_id (r ∷ rs) laid
          (suc (length file)) prefix (write_imports is ++ suffix) order plain e enough in
      let read' =
        subst (λ bs. imports_relocs (suc (length file)) t bs is ≡ some (ok (r ∷ rs))) split' read in
      (
        tables,
        rw (old, e, near) refl,
        rw old (
            omega (
              arith,
              length-append prefix (write_raws raws ++ write_imports is),
              length-append (write_raws raws) (write_imports is),
              length-write_imports is,
              length-write_raws raws,
            )),
        rw old (
            read_tables-write_imports t tables.header file is (r ∷ rs) (prefix ++ write_raws raws)
              suffix behind (ap (λ n. 8 * n) (sym imps)) fits split starts fixed read'),
      )
