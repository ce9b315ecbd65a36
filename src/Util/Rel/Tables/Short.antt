-- ===== src/Util/Rel/Tables/Short.antt =====
-- A module of version 3 whose relocations are all against other modules.
use decomp_toolkit.Prelude.{
  ℕ, ◌+◌, ◌*◌, ◌^◌, ◌≡◌, refl, ◌∙◌, true, false, List, [], ◌∷◌, none, some, ◌==◌, ltb, leb, length,
  All, Result, ok, err, panic, inl, inr, arith, Bool-cases, Result-cases,
}
use decomp_toolkit.Util.Reader.{big}
use decomp_toolkit.Obj.Info.{RelReloc}
use decomp_toolkit.Util.Rel.{RelHeader, write_size, write_header}
use decomp_toolkit.Util.Rel.Header.{length-write_header}
use decomp_toolkit.Util.Rel.Relocs.{RelTypes, RelError}
use decomp_toolkit.Util.Rel.Layout.{
  LayoutState, Laid, note_fix, layout_loop, do_relocation_layout, start_at,
}
use decomp_toolkit.Util.Rel.Layout.Steps.{layout_loop-inv, layout_loop_nil}
use decomp_toolkit.Util.Rel.Tables.{with_tables, Tables, dedup_count, layout_tables}
use decomp_toolkit.Util.Rel.Tables.Counts.{enter_module_lem, place-fix_size}

-- Neither against the main program nor against the module itself.
abbrev pub IsForeign : ℕ → RelReloc → Type 0
IsForeign own r = ((r.module_id == 0) ≡ false) × ((r.module_id == own) ≡ false)

note_fix_foreign :
    (version own : ℕ) (r : RelReloc) (s : LayoutState)
    → IsForeign own r
    → s.fix_size ≡ none
    → (note_fix version own r s).fix_size ≡ none
note_fix_foreign version own r s (dol, same) h = ground arith

layout_loop_foreign :
    (t : RelTypes) (version own : ℕ) (rs : List RelReloc) (s : LayoutState) (laid : Laid)
    → All (IsForeign own) rs
    → s.fix_size ≡ none
    → layout_loop t version own rs s ≡ ok laid
    → laid.state.fix_size ≡ none
layout_loop_foreign t version own [] s laid foreign fix h =
    let same = layout_loop_nil t version own s {laid = laid} h in rw (← same) fix
layout_loop_foreign t version own (r ∷ rs) s laid (foreign, more_foreign) fix h =
    let (entered, raws, s', more, e, placed, behind, imps, all, state) =
      layout_loop-inv t version own r rs s {laid = laid} h in
    let (count, at_module, same, off) = enter_module_lem r s entered e in
    let kept = place-fix_size t r (note_fix version own r entered.state) {s' = s'} placed in
    let there : s'.fix_size ≡ none =
      kept ∙ note_fix_foreign version own r entered.state foreign (same ∙ fix) in
    rw state (layout_loop_foreign t version own rs s' more more_foreign there behind)

-- Where a module of version 3 has relocations and all are against other modules than module 0 and
-- itself, a layout that succeeds leaves a header that is written in four bytes less than
-- `write_size` says.
pub write_size-layout_tables :
    (t : RelTypes) (h : RelHeader) (r : RelReloc) (rs : List RelReloc) (offset align bss_align : ℕ)
    (tables : Tables)
    → h.version ≡ 3
    → (h.align ≡ some align) × (h.bss_align ≡ some bss_align)
    → All (IsForeign h.module_id) (r ∷ rs)
    → layout_tables t h (r ∷ rs) offset ≡ ok tables
    → write_size tables.header ≡ ok (length (write_header big tables.header) + 4)
unfolding layout_tables write_size do_relocation_layout
write_size-layout_tables t h r rs offset align bss_align tables version (aligned, bss_aligned)
      foreign made =
    let new : leb 3 h.version ≡ true = (rw version refl) in
    let start = offset + 8 * dedup_count (r ∷ rs) in
    elim (Bool-cases (ltb start (2 ^ 32))) [
      | inr over ↦
          let bad : ◌≡◌ {A = Result RelError Tables} panic (ok tables) = (rw (new, over) at made) in
          absurd (ground arith)
      | inl near ↦
          elim (Result-cases (do_relocation_layout t h.version h.module_id (r ∷ rs) start)) [
            | inr (inl (k, e)) ↦
                let bad : ◌≡◌ {A = Result RelError Tables} (err k) (ok tables) =
                  (rw (new, near, e) at made) in
                absurd (ground arith)
            | inr (inr e) ↦
                let bad : ◌≡◌ {A = Result RelError Tables} panic (ok tables) =
                  (rw (new, near, e) at made) in
                absurd (ground arith)
            | inl (laid, e) ↦
                let unfixed =
                  layout_loop_foreign t h.version h.module_id (r ∷ rs) (start_at start) laid foreign
                    refl e in
                let whole =
                  with_tables h offset start (dedup_count (r ∷ rs)) laid laid.state.offset in
                let made_ok : ◌≡◌ {A = Result RelError Tables} (ok whole) (ok tables) =
                  (rw (new, near, e) at made) in
                let same : whole ≡ tables = (cc) in
                rw
                  (
                    ← same,
                    length-write_header big whole.header,
                    unfixed,
                    aligned,
                    bss_aligned,
                    version,
                  )
                  refl
          ]
    ]
