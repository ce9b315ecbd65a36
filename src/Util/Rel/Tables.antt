-- ===== src/Util/Rel/Tables.antt =====
-- The import table and the relocation table of a module: where `write_rel` of src/util/rel.rs puts
-- them, and the loop of `process_rel` that reads them.
pub mod Imports
pub mod Counts
pub mod Fixed
pub mod Read
pub mod Short
pub mod Written
pub mod Versions
pub mod RoundTrip
use decomp_toolkit.Prelude.{
  ℕ, zero, suc, ◌+◌, ◌*◌, ◌^◌, Bool, true, false, not, ◌||◌, List, [], ◌∷◌, ◌++◌, Option, none,
  some, ◌==◌, ltb, leb, if◌then◌else◌, drop, Result, ok, err, panic, ◌>>=◌, ◌>>◌, guard,
}
use decomp_toolkit.Util.Reader.{big}
use decomp_toolkit.Obj.Info.{RelReloc}
use decomp_toolkit.Util.Rel.{RelHeader, RelImport, RelRelocRaw, read_import, write_import}
use decomp_toolkit.Util.Rel.Relocs.{
  RelTypes, RelError, read_error, first_import_mismatch, fix_size_mismatch, Relocs, import_relocs,
  append,
}
use decomp_toolkit.Util.Rel.Layout.{Laid, move_offset, do_relocation_layout, write_raws}

-- `dedup().count()` of the modules of the relocations
unfoldable pub dedup_behind : ℕ → List RelReloc → ℕ
dedup_behind m [] = 0
dedup_behind m (r ∷ rs) = (if r.module_id == m then 0 else 1) + dedup_behind r.module_id rs

abbrev pub dedup_count : List RelReloc → ℕ
dedup_count [] = 0
dedup_count (r ∷ rs) = 1 + dedup_behind r.module_id rs

-- The header with the places of the tables, the tables and the offset behind them.
pub record Tables : Type 0 where
  pub header : RelHeader
  pub imp_entries : List RelImport
  pub raw_relocations : List RelRelocRaw
  pub offset : ℕ

-- The tables of a layout, at their places.
abbrev pub with_tables : RelHeader → ℕ → ℕ → ℕ → Laid → ℕ → Tables
with_tables h imp_offset rel_offset count laid offset = record {
  header = record h {
    imp_offset = imp_offset;
    imp_size = 8 * count;
    rel_offset = rel_offset;
    fix_size = laid.state.fix_size;
  };
  imp_entries = laid.imp_entries;
  raw_relocations = laid.raw_relocations;
  offset = offset;
}

-- From version 3 on the import table stands before the relocations. The header has no `fix_size` yet.
unfoldable pub layout_tables : RelTypes → RelHeader → List RelReloc → ℕ → Result RelError Tables
layout_tables types h [] offset = ok (record {
  header = if leb 3 h.version then record h { fix_size = some offset } else h;
  imp_entries = [];
  raw_relocations = [];
  offset = offset;
})
layout_tables types h (r ∷ rs) offset =
    let count = dedup_count (r ∷ rs) in
    if leb 3 h.version
    then (do
      start ← move_offset offset count
      laid ← do_relocation_layout types h.version h.module_id (r ∷ rs) start
      ok (with_tables h offset start count laid laid.state.offset))
    else (do
      laid ← do_relocation_layout types h.version h.module_id (r ∷ rs) offset
      finish ← move_offset laid.state.offset count
      ok (with_tables h laid.state.offset offset count laid finish))

unfoldable pub write_imports : List RelImport → List ℕ
unfolding write_import
write_imports [] = []
write_imports (i ∷ is) = write_import big i ++ write_imports is

unfoldable pub write_tables : Tables → List ℕ
unfolding write_imports write_raws
write_tables tables =
    if leb 3 tables.header.version
    then write_imports tables.imp_entries ++ write_raws tables.raw_relocations
    else write_raws tables.raw_relocations ++ write_imports tables.imp_entries

-- The checks on an entry of the import table, of which the first points to the relocations.
abbrev pub is_fixed_at : Option ℕ → ℕ → Bool
is_fixed_at none offset = true
is_fixed_at (some fix_size) offset = fix_size == offset

unfoldable pub check_import : RelHeader → Bool → RelImport → Result RelError (Unit {0})
check_import h first i = do
  guard (not first || i.offset == h.rel_offset) first_import_mismatch
  guard (not (i.module_id == h.module_id) || is_fixed_at h.fix_size i.offset) fix_size_mismatch

-- The loop over the import table, from a position in the file on; there is no result where the
-- rounds do not suffice.
unfoldable pub import_loop : ℕ → ℕ → RelTypes → RelHeader → List ℕ → ℕ → Bool → ℕ → Relocs
import_loop zero rounds types h file imp_end first position = none
import_loop (suc loops) rounds types h file imp_end first position =
    if ltb position imp_end
    then elim (read_import big (drop position file)) [
      | err e ↦ some (err (read_error e))
      | panic ↦ some panic
      | ok (i, rest) ↦ elim (check_import h first i) [
        | err e ↦ some (err e)
        | panic ↦ some panic
        | ok _ ↦
            append (import_relocs rounds types file i)
              (import_loop loops rounds types h file imp_end false (position + 8))
      ]
    ]
    else some (ok [])

-- The sum of `u32` panics where it overflows, as in a debug build.
unfoldable pub read_tables : ℕ → RelTypes → RelHeader → List ℕ → Relocs
unfolding import_loop
read_tables rounds types h file =
    let imp_end = h.imp_offset + h.imp_size in
    let relocations = import_loop rounds rounds types h file imp_end true h.imp_offset in
    if ltb imp_end (2 ^ 32) then relocations else some panic
