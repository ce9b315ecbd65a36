-- ===== src/Util/Rel/Tables/RoundTrip.antt =====
-- The tables of a module read back behind what is written in front of them.
use decomp_toolkit.Prelude.{
  ℕ, suc, ◌+◌, ◌*◌, ◌^◌, ◌≤◌, ◌<◌, ◌≡◌, sym, Bool, List, [], ◌∷◌, ◌++◌, Option, none, some, leb,
  length, length-map, map, All-map, ◌∙◌, All, ok, inl, inr, arith, Bool-cases,
}
use decomp_toolkit.Obj.Info.{RelReloc}
use decomp_toolkit.Util.Rel.{RelHeader}
use decomp_toolkit.Util.Rel.Relocs.{RelTypes}
use decomp_toolkit.Util.Rel.Relocs.Entries.{InOrder, IsPlain}
use decomp_toolkit.Util.Rel.Relocs.Returns.{IsSupported}
use decomp_toolkit.Util.Rel.Order.{sort_relocs, retain}
use decomp_toolkit.Util.Rel.Order.Ascending.{IsAscending, All-sort_relocs, sort_relocs-IsAscending}
use decomp_toolkit.Util.Rel.Order.Kept.{All-retain, retain-IsAscending}
use decomp_toolkit.Util.Rel.Order.Returns.{room, layout_returns}
use decomp_toolkit.Util.Rel.Tables.{dedup_count, Tables, layout_tables, write_tables, read_tables}
use decomp_toolkit.Util.Rel.Tables.Written.{
  as_read, IsWritable, All-IsWritable, IsAscending-as_read, room-as_read, layout_tables-as_read,
}
use decomp_toolkit.Util.Rel.Tables.Read.{dedup_behind_le, TablesReadBack, tables_empty}
use decomp_toolkit.Util.Rel.Tables.Versions.{tables_before, tables_behind}

-- The tables of relocations that are in order and are as the reader gives them.
read_back_plain :
    (t : RelTypes) (h : RelHeader) (kept : List RelReloc) (prefix suffix : List ℕ)
    → InOrder t
    → 1 ≤ h.module_id
    → (h.imp_offset ≡ 0) × (h.imp_size ≡ 0)
    → All IsPlain kept
    → All (IsSupported t) kept
    → IsAscending h.version h.module_id kept
    → length prefix + 8 * (room kept + length kept) < 2 ^ 32
    → TablesReadBack t h kept prefix suffix
read_back_plain t h [] prefix suffix order proper (imp_offset, imp_size) plain supported ascending
      fits =
    tables_empty t h prefix suffix imp_offset imp_size
read_back_plain t h (r ∷ rs) prefix suffix order proper start plain supported ascending fits =
    let few = dedup_behind_le r.module_id rs in
    let offset = length prefix + 8 * dedup_count (r ∷ rs) in
    elim (Bool-cases (leb 3 h.version)) [
      | inl new ↦
          let (laid, e, finish) =
            layout_returns t order h.version h.module_id (r ∷ rs) offset plain supported ascending
              (omega arith) in
          tables_before t order h proper r rs laid prefix suffix new plain ascending (omega arith) e
      | inr old ↦
          let (laid, e, finish) =
            layout_returns t order h.version h.module_id (r ∷ rs) (length prefix) plain supported
              ascending (omega arith) in
          tables_behind t order h proper r rs laid prefix suffix old plain ascending (omega arith) e
    ]

-- Where the relocations of a module are of supported kinds, at 32-bit addresses that are multiples
-- of four, in sections below 255 and against modules below 2^32 - 1, the numbers of the ELF types
-- are in their order and below 201, `retain` does not panic on the sorted relocations, the module
-- is not module 0, the header has no `fix_size` and no import table yet, and behind the prefix
-- there is room below 2^32 for an entry and, for each relocation that it retains, four entries and
-- one more for every 65535 bytes of its address, the layout of those succeeds and ends where the
-- written tables end, and the loops of `process_rel` read them back, in order and without a failed
-- check, whatever follows the tables; each is as it was, except that its original sections are
-- those in the module.
pub read_tables-write_tables :
    (t : RelTypes) (h : RelHeader) (permitted : ℕ → Option Bool)
    (relocations kept applied : List RelReloc) (prefix suffix : List ℕ)
    → InOrder t
    → 1 ≤ h.module_id
    → (h.fix_size ≡ none) × (h.imp_offset ≡ 0) × (h.imp_size ≡ 0)
    → All IsWritable relocations
    → All (IsSupported t) relocations
    → retain permitted h.module_id (sort_relocs h.version h.module_id relocations)
      ≡ ok (kept, applied)
    → length prefix + 8 * (room kept + length kept) < 2 ^ 32
    → (tables : Tables) × (layout_tables t h kept (length prefix) ≡ ok tables)
      × (tables.offset ≡ length (prefix ++ write_tables tables))
      × (let file = prefix ++ (write_tables tables ++ suffix) in
          read_tables (suc (length file)) t tables.header file ≡ some (ok (map as_read kept)))
read_tables-write_tables t h permitted relocations kept applied prefix suffix order proper
      (_, imp_offset, imp_size) writable supported retained fits =
    let version = h.version in
    let own = h.module_id in
    let sorted = sort_relocs version own relocations in
    let writable' =
      All-retain permitted own IsWritable sorted {kept = kept} retained
        (All-sort_relocs version own IsWritable relocations writable) in
    let supported' : All (IsSupported t) (map as_read kept) = All-map (IsSupported t) as_read kept (
      All-retain permitted own (IsSupported t) sorted {kept = kept} retained
        (All-sort_relocs version own (IsSupported t) relocations supported)) in
    let ascending =
      retain-IsAscending permitted version own sorted {kept = kept} retained
        (sort_relocs-IsAscending version own relocations).0 in
    let (tables, made, end, read) =
      read_back_plain t h (map as_read kept) prefix suffix order proper (imp_offset, imp_size)
        (All-IsWritable kept writable') supported' (IsAscending-as_read version own kept ascending)
        (omega (arith, room-as_read kept, length-map as_read kept)) in
    (tables, sym (layout_tables-as_read t h kept (length prefix)) ∙ made, end, read)
