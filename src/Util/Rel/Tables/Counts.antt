-- ===== src/Util/Rel/Tables/Counts.antt =====
-- How many entries the layout has made, and where.
use decomp_toolkit.Prelude.{
  ℕ, ◌+◌, ◌*◌, ◌≡◌, refl, sym, ap, ◌∙◌, false, List, [], ◌∷◌, ◌++◌, ◌==◌, if◌then◌else◌, length,
  All, ok, arith, Bool-cases, inl, inr, length-append,
}
use decomp_toolkit.Obj.Info.{RelReloc}
use decomp_toolkit.Util.Rel.{RelRelocRaw}
use decomp_toolkit.Util.Rel.Relocs.{RelTypes}
use decomp_toolkit.Util.Rel.Layout.{
  LayoutState, Laid, note_fix, enter_module, place, place_behind, enter_section, layout_loop,
  do_relocation_layout, start_at,
}
use decomp_toolkit.Util.Rel.Relocs.Entries.{InOrder, IsPlain}
use decomp_toolkit.Util.Rel.Relocs.Placed.{place_lem}
use decomp_toolkit.Util.Rel.Layout.Steps.{layout_loop-inv, layout_loop_nil}
use decomp_toolkit.Util.Rel.Relocs.Entered.{ends, enter_module_same, enter_module_new}
use decomp_toolkit.Util.Rel.Tables.{dedup_behind}
use decomp_toolkit.Util.Rel.Tables.Imports.{StartsAt}

-- What entering a module has made.
pub enter_module_lem :
    (r : RelReloc) (s : LayoutState) (entered : Laid)
    → enter_module r s ≡ ok entered
    → (length entered.imp_entries ≡ (if r.module_id == s.last_module_id then 0 else 1))
      × (entered.state.last_module_id ≡ r.module_id)
      × (entered.state.fix_size ≡ s.fix_size)
      × (entered.state.offset ≡ s.offset + 8 * length entered.raw_relocations)
enter_module_lem r s entered e = elim (Bool-cases (r.module_id == s.last_module_id)) [
  | inl t ↦
      let same = enter_module_same r s {entered = entered} t e in
      rw (← same, t) (refl, (ground arith), refl, omega arith)
  | inr f ↦
      let same = enter_module_new r s {entered = entered} f e in
      rw (← same, f) (refl, refl, refl, refl)
]

module _ (t : RelTypes) (order : InOrder t) (version own : ℕ) where
  -- The entries that the layout has made from a state on.
  pub layout_loop_lem :
      (rs : List RelReloc) (s : LayoutState) (laid : Laid)
      → All IsPlain rs
      → layout_loop t version own rs s ≡ ok laid
      → (length laid.imp_entries ≡ dedup_behind s.last_module_id rs)
        × (laid.state.offset ≡ s.offset + 8 * length laid.raw_relocations)
  unfolding dedup_behind
  layout_loop_lem [] s laid plain h =
      let same = layout_loop_nil t version own s {laid = laid} h in rw (← same) (refl, refl)
  layout_loop_lem (r ∷ rs) s laid (plain, plains) h =
      let (entered, raws, s', more, e, placed, behind, imps, all, state) =
        layout_loop-inv t version own r rs s {laid = laid} h in
      let (count, at_module, fix, off) = enter_module_lem r s entered e in
      let s₁ = note_fix version own r entered.state in
      let (read, at, sec, last, moved) =
        place_lem t r s₁ s₁.address 0 [] {s' = s'} order plain (λ x. refl) placed in
      let (more_count, finish) = layout_loop_lem rs s' more plains behind in
      let here : s'.last_module_id ≡ r.module_id = last ∙ at_module in
      let more_count' = rw here at more_count in
      (
        rw (imps, length-append entered.imp_entries more.imp_entries, count, more_count') refl,
        rw (state, all)
            (omega (
              arith,
              length-append entered.raw_relocations (raws ++ more.raw_relocations),
              length-append raws more.raw_relocations,
            )),
      )

pub place-fix_size :
    (t : RelTypes) (r : RelReloc) (s : LayoutState) {raws : List RelRelocRaw} {s' : LayoutState}
    → place t r s ≡ ok (raws, s')
    → s'.fix_size ≡ s.fix_size
unfolding place place_behind enter_section
place-fix_size t r s {raws} {s'} h = ground arith

-- The first entry of the import table points to where the layout starts.
pub do_relocation_layout-StartsAt :
    (t : RelTypes) (version own : ℕ) (rs : List RelReloc) (offset : ℕ) (laid : Laid)
    → All IsPlain rs
    → do_relocation_layout t version own rs offset ≡ ok laid
    → StartsAt offset laid.imp_entries
unfolding do_relocation_layout ends
do_relocation_layout-StartsAt t version own [] offset laid plain h =
    let s = start_at offset in
    let same = layout_loop_nil t version own s {laid = laid} h in rw (← same) tt
do_relocation_layout-StartsAt t version own (r ∷ rs) offset laid (plain, plains) h =
    let s = start_at offset in
    let (entered, raws, s', more, e, placed, behind, imps, all, state) =
      layout_loop-inv t version own r rs s {laid = laid} h in
    let small = plain.in_module in
    let new_module : r.module_id == s.last_module_id ≡ false = (ground arith) in
    let same = enter_module_new r s {entered = entered} new_module e in
    let first : entered.imp_entries
        ≡ record { module_id = r.module_id; offset = offset + 8 * 0 } ∷ [] =
      ap (λ (l : Laid). l.imp_entries) (sym same) in
    rw (imps, first) (omega arith)
