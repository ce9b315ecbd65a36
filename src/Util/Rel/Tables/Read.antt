-- ===== src/Util/Rel/Tables/Read.antt =====
-- The reader of the tables, where they stand behind what is written in front of them.
use decomp_toolkit.Prelude.{
  ℕ, suc, ◌+◌, ◌*◌, ◌^◌, ◌≤◌, ◌<◌, ◌≡◌, refl, sym, ap, ◌∙◌, true, false, List, [], ◌∷◌, ◌++◌,
  Option, none, some, ◌==◌, ltb, leb, length, All, All-implies, All-every, ok, inl, inr, arith,
  Bool-cases, append-nil, length-append, if◌then◌else◌,
}
use decomp_toolkit.Obj.Info.{RelReloc}
use decomp_toolkit.Util.Rel.{RelHeader, RelImport}
use decomp_toolkit.Util.Rel.Relocs.{RelTypes, imports_relocs}
use decomp_toolkit.Util.Rel.Layout.{Laid, do_relocation_layout, start_at, write_raws}
use decomp_toolkit.Util.Rel.Relocs.Entries.{InOrder, IsPlain}
use decomp_toolkit.Util.Rel.Order.Ascending.{IsAscending}
use decomp_toolkit.Util.Rel.Tables.{
  dedup_behind, dedup_count, Tables, layout_tables, write_imports, write_tables, is_fixed_at,
  import_loop, read_tables,
}
use decomp_toolkit.Util.Rel.Tables.Imports.{
  IsFixed, StartsAt, length-write_imports, import_loop-write_imports,
}
use decomp_toolkit.Util.Rel.Tables.Counts.{layout_loop_lem, do_relocation_layout-StartsAt}
use decomp_toolkit.Util.Rel.Tables.Fixed.{layout_loop_fixed, layout_loop_unfixed}

pub dedup_behind_le : (m : ℕ) (rs : List RelReloc) → dedup_behind m rs ≤ length rs
unfolding dedup_behind
dedup_behind_le m [] = omega arith
dedup_behind_le m (r ∷ rs) = ground (arith, dedup_behind_le r.module_id rs)

-- What the layout behind an offset gives the header and the reader.
pub layout_lem :
    (t : RelTypes) (version own : ℕ) (r : RelReloc) (rs : List RelReloc) (offset : ℕ) (laid : Laid)
    → InOrder t
    → 1 ≤ own
    → All IsPlain (r ∷ rs)
    → IsAscending version own (r ∷ rs)
    → do_relocation_layout t version own (r ∷ rs) offset ≡ ok laid
    → (length laid.imp_entries ≡ dedup_count (r ∷ rs))
      × (laid.state.offset ≡ offset + 8 * length laid.raw_relocations)
      × StartsAt offset laid.imp_entries
      × All
          (λ (i : RelImport). i.module_id ≡ own → is_fixed_at laid.state.fix_size i.offset ≡ true)
          laid.imp_entries
unfolding do_relocation_layout dedup_behind
layout_lem t version own r rs offset laid order proper plain ascending h =
    let small = plain.0.in_module in
    let new_module : r.module_id == 4294967295 ≡ false = (ground arith) in
    let (count, finish) =
      layout_loop_lem t order version own (r ∷ rs) (start_at offset) laid plain h in
    let starts = do_relocation_layout-StartsAt t version own (r ∷ rs) offset laid plain h in
    let count' : length laid.imp_entries ≡ dedup_count (r ∷ rs) = count ∙ (rw new_module refl) in
    elim (Bool-cases (leb 3 version)) [
      | inr old ↦
          let unfixed =
            layout_loop_unfixed t version own (r ∷ rs) (start_at offset) laid old refl h in
          (count', finish, starts, rw unfixed (All-every laid.imp_entries (λ i same. refl)))
      | inl new ↦
          let fixed =
            layout_loop_fixed t version own (r ∷ rs) (start_at offset) laid order plain new proper
              ascending (λ n (e : ◌≡◌ {A = Option ℕ} none (some n)). absurd (ground arith)) h in
          (
            count',
            finish,
            starts,
            All-implies laid.imp_entries (λ i e same. rw (e same) (ground arith)) fixed,
          )
    ]

-- The reader of tables whose imports stand behind a prefix and lead to relocations.
pub read_tables-write_imports :
    (t : RelTypes) (h : RelHeader) (file : List ℕ) (is : List RelImport) (rs : List RelReloc)
    (prefix suffix : List ℕ)
    → length prefix ≡ h.imp_offset
    → h.imp_size ≡ 8 * length is
    → h.imp_offset + h.imp_size < 2 ^ 32
    → file ≡ prefix ++ (write_imports is ++ suffix)
    → StartsAt h.rel_offset is
    → All (IsFixed h) is
    → imports_relocs (suc (length file)) t file is ≡ some (ok rs)
    → read_tables (suc (length file)) t h file ≡ some (ok rs)
unfolding read_tables
read_tables-write_imports t h file is rs prefix suffix size imp_size fits whole starts fixed read =
    let fits' : ltb (h.imp_offset + h.imp_size) (2 ^ 32) ≡ true = (ground arith) in
    let count : length file ≡ length prefix + (8 * length is + length suffix) =
      ap length whole
      ∙ omega (
        arith,
        length-append prefix (write_imports is ++ suffix),
        length-append (write_imports is) suffix,
        length-write_imports is,
      ) in
    let loop =
      import_loop-write_imports (suc (length file)) (suc (length file)) t h file
        (h.imp_offset + h.imp_size) h.imp_offset true is prefix suffix (omega arith) size
        (ap (λ n. h.imp_offset + n) imp_size) whole (λ e. starts) fixed in
    rw fits' (loop ∙ read)

-- The tables of a layout read back.
abbrev pub TablesReadBack : RelTypes → RelHeader → List RelReloc → List ℕ → List ℕ → Type 0
TablesReadBack t h kept prefix suffix =
    (tables : Tables) × (layout_tables t h kept (length prefix) ≡ ok tables)
    × (tables.offset ≡ length (prefix ++ write_tables tables))
    × (let file = prefix ++ (write_tables tables ++ suffix) in
        read_tables (suc (length file)) t tables.header file ≡ some (ok kept))

-- Without relocations there is nothing to read.
read_none :
    (t : RelTypes) (h : RelHeader) (file : List ℕ)
    → h.imp_offset ≡ 0
    → h.imp_size ≡ 0
    → read_tables (suc (length file)) t h file ≡ some (ok [])
unfolding read_tables import_loop
read_none t h file imp_offset imp_size = rw (imp_offset, imp_size) refl

pub tables_empty :
    (t : RelTypes) (h : RelHeader) (prefix suffix : List ℕ)
    → h.imp_offset ≡ 0
    → h.imp_size ≡ 0
    → TablesReadBack t h [] prefix suffix
unfolding layout_tables write_tables write_imports write_raws
tables_empty t h prefix suffix imp_offset imp_size =
    let header : RelHeader =
      if leb 3 h.version then record h { fix_size = some (length prefix) } else h in
    let tables : Tables = record {
      header = header;
      imp_entries = [];
      raw_relocations = [];
      offset = length prefix;
    } in
    let (at, size) : (header.imp_offset ≡ 0) × (header.imp_size ≡ 0) =
      elim (Bool-cases (leb 3 h.version)) [
        | inl t ↦ rw t (imp_offset, imp_size)
        | inr f ↦ rw f (imp_offset, imp_size)
      ] in
    let none_written : write_tables tables ≡ [] = elim (Bool-cases (leb 3 header.version)) [
      | inl t ↦ rw t refl
      | inr f ↦ rw f refl
    ] in
    (
      tables,
      refl,
      rw none_written (sym (ap length (append-nil prefix))),
      read_none t header (prefix ++ (write_tables tables ++ suffix)) at size,
    )
