-- ===== src/Util/Rel/Layout.antt =====
-- The layout of the relocation table: `do_relocation_layout` of `write_rel` in src/util/rel.rs.
pub mod Steps
use decomp_toolkit.Prelude.{
  ℕ, zero, suc, ◌+◌, ◌-◌, ◌*◌, ◌%◌, ◌^◌, ◌&&◌, ◌||◌, List, [], ◌∷◌, ◌++◌, Option, none, some, ◌==◌,
  ltb, leb, if◌then◌else◌, length, Result, ok, err, panic, ◌>>=◌,
}
use decomp_toolkit.Util.Reader.{big}
use decomp_toolkit.Obj.Relocations.{
  ObjRelocKind, absolute, ppc_addr16_lo, ppc_addr16_hi, ppc_addr16_ha, ppc_rel24, ppc_rel14,
}
use decomp_toolkit.Obj.Info.{RelReloc}
use decomp_toolkit.Util.Rel.{RelImport, RelRelocRaw, write_raw}
use decomp_toolkit.Util.Rel.Relocs.{
  RelTypes, RelError, unsupported_kind, r_dolphin_nop, r_dolphin_section, r_dolphin_end,
}

-- The state of `do_relocation_layout`; `u32::MAX` and `u8::MAX` stand for none yet.
pub record LayoutState : Type 0 where
  pub address : ℕ
  pub section : ℕ
  pub last_module_id : ℕ
  pub offset : ℕ
  pub fix_size : Option ℕ

-- What the layout adds to the import table and to the relocation table, and the state behind it.
pub record Laid : Type 0 where
  pub imp_entries : List RelImport
  pub raw_relocations : List RelRelocRaw
  pub state : LayoutState

abbrev pub marker : ℕ → ℕ → ℕ → RelRelocRaw
marker offset kind section = record { offset = offset; kind = kind; section = section; addend = 0 }

-- `*offset += 8` for each entry, checked as a debug build does.
abbrev pub move_offset : ℕ → ℕ → Result RelError ℕ
move_offset offset entries =
    if ltb (offset + 8 * entries) (2 ^ 32) then ok (offset + 8 * entries) else panic

-- The entries that bring an offset below 2^16, and the offset that is left. The rounds are as many
-- as the offset.
unfoldable pub nops : ℕ → ℕ → List RelRelocRaw × ℕ
nops zero reloc_offset = ([], reloc_offset)
nops (suc rounds) reloc_offset =
    let (more, left) = nops rounds (reloc_offset - 65535) in
    if ltb 65535 reloc_offset
    then (marker 65535 r_dolphin_nop 0 ∷ more, left)
    else ([], reloc_offset)

abbrev pub type_of : RelTypes → ObjRelocKind → Result RelError ℕ
type_of types absolute = ok types.r_ppc_addr32
type_of types ppc_addr16_lo = ok types.r_ppc_addr16_lo
type_of types ppc_addr16_hi = ok types.r_ppc_addr16_hi
type_of types ppc_addr16_ha = ok types.r_ppc_addr16_ha
type_of types ppc_rel24 = ok types.r_ppc_rel24
type_of types ppc_rel14 = ok types.r_ppc_rel14
type_of types kind = err (unsupported_kind kind)

-- An import entry where the module changes, behind the end of the table before.
unfoldable pub enter_module : RelReloc → LayoutState → Result RelError Laid
enter_module r s =
    if r.module_id == s.last_module_id
    then ok (record { imp_entries = []; raw_relocations = []; state = s })
    else (do
      let ends = if s.last_module_id == 4294967295 then [] else marker 0 r_dolphin_end 0 ∷ []
      offset ← move_offset s.offset (length ends)
      ok (record {
        imp_entries = record { module_id = r.module_id; offset = offset } ∷ [];
        raw_relocations = ends;
        state = record s { section = 255; last_module_id = r.module_id; offset = offset };
      }))

-- `fix_size` of the header, at the first relocation against module 0 or the module itself.
abbrev pub note_fix : ℕ → ℕ → RelReloc → LayoutState → LayoutState
note_fix version own r s = record s {
  fix_size = elim s.fix_size [
    | some n ↦ some n
    | none ↦
        if leb 3 version && (r.module_id == 0 || r.module_id == own) then some s.offset else none
  ];
}

-- An entry where the section changes, and the state behind it.
unfoldable pub enter_section : RelReloc → LayoutState → List RelRelocRaw × LayoutState
enter_section r s =
    if r.section == s.section
    then ([], s)
    else (marker 0 r_dolphin_section r.section ∷ [], record s { address = 0; section = r.section })

abbrev pub placed_entry : RelReloc → ℕ → ℕ → RelRelocRaw
placed_entry r kind offset = record {
  offset = offset;
  kind = kind % 256;
  section = r.target_section;
  addend = r.addend;
}

-- The entries of a relocation, of which those in front are known, and the state behind them.
unfoldable pub place_behind :
    RelTypes
    → RelReloc
    → LayoutState
    → List RelRelocRaw
    → ℕ
    → Result RelError (List RelRelocRaw × LayoutState)
place_behind types r s front left = do
  offset ← move_offset s.offset (length front)
  kind ← type_of types r.kind
  offset' ← move_offset offset 1
  ok (front ++ (placed_entry r kind left ∷ []), record s { address = r.address; offset = offset' })

unfoldable pub place :
    RelTypes → RelReloc → LayoutState → Result RelError (List RelRelocRaw × LayoutState)
unfolding nops enter_section place_behind
place types r s =
    let (front, s') = enter_section r s in
    let delta = r.address - s'.address in
    let (far, left) = nops delta delta in
    if ltb r.address s'.address then panic else place_behind types r s' (front ++ far) left

-- The relocations in order, and the end of the last table.
unfoldable pub layout_loop : RelTypes → ℕ → ℕ → List RelReloc → LayoutState → Result RelError Laid
unfolding enter_module place
layout_loop types version own [] s = do
  offset ← move_offset s.offset 1
  ok (record {
    imp_entries = [];
    raw_relocations = marker 0 r_dolphin_end 0 ∷ [];
    state = record s { offset = offset };
  })
layout_loop types version own (r ∷ rest) s = do
  entered ← enter_module r s
  (raws, s') ← place types r (note_fix version own r entered.state)
  more ← layout_loop types version own rest s'
  ok (record {
    imp_entries = entered.imp_entries ++ more.imp_entries;
    raw_relocations = entered.raw_relocations ++ (raws ++ more.raw_relocations);
    state = more.state;
  })

abbrev pub start_at : ℕ → LayoutState
start_at offset = record {
  address = 0;
  section = 255;
  last_module_id = 4294967295;
  offset = offset;
  fix_size = none;
}

-- `do_relocation_layout` for a header without a `fix_size`.
unfoldable pub do_relocation_layout : RelTypes → ℕ → ℕ → List RelReloc → ℕ → Result RelError Laid
unfolding layout_loop
do_relocation_layout types version own relocations offset =
    layout_loop types version own relocations (start_at offset)

-- The entries of the table as they are written, in big-endian order.
unfoldable pub write_raws : List RelRelocRaw → List ℕ
unfolding write_raw
write_raws [] = []
write_raws (r ∷ rs) = write_raw big r ++ write_raws rs
