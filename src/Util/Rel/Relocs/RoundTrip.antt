-- ===== src/Util/Rel/Relocs/RoundTrip.antt =====
-- The tables that the layout makes read back as the relocations.
use decomp_toolkit.Prelude.{
  ℕ, ◌+◌, ◌*◌, ◌≤◌, ◌≡◌, refl, sym, ap, ◌∙◌, false, List, [], ◌∷◌, ◌++◌, some, ◌==◌, length, All,
  ok, arith, Bool-cases, inl, inr,
}
use mathlib.Core.Path.{subst}
use decomp_toolkit.Obj.Info.{RelReloc}
use decomp_toolkit.Util.Rel.Relocs.{RelTypes, imports_relocs, r_dolphin_end}
use decomp_toolkit.Util.Rel.Layout.{
  marker, LayoutState, Laid, note_fix, place, layout_loop, do_relocation_layout, start_at,
  write_raws,
}
use decomp_toolkit.Util.Rel.Relocs.Entries.{InOrder, IsPlain}
use decomp_toolkit.Util.Rel.Layout.Steps.{layout_loop-inv, layout_loop_nil}
use decomp_toolkit.Util.Rel.Relocs.Reads.{
  mine, others, ReadsBack, read_stop, placed_module, back_same,
}
use decomp_toolkit.Util.Rel.Relocs.Entered.{
  entered_state, ends, enter_module_same, enter_module_new, there_new,
}

ends_inside :
    (s : LayoutState)
    → s.last_module_id == 4294967295 ≡ false
    → ends s ≡ marker 0 r_dolphin_end 0 ∷ []
unfolding ends
ends_inside s h = rw h refl

-- From any state in a module on, the layout reads back.
layout_loop-ReadsBack :
    (t : RelTypes) (version own : ℕ) (rs : List RelReloc) (s : LayoutState) (laid : Laid)
    → InOrder t
    → All IsPlain rs
    → s.last_module_id == 4294967295 ≡ false
    → layout_loop t version own rs s ≡ ok laid
    → ReadsBack t rs s laid
unfolding mine others imports_relocs
layout_loop-ReadsBack t version own [] s laid order plain inside h =
    subst (ReadsBack t [] s) (layout_loop_nil t version own s {laid = laid} h) (record {
      here = λ extra suffix. read_stop t s.last_module_id s.address s.section extra [] suffix order;
      there = λ rounds file prefix suffix enough size whole. refl;
    })
layout_loop-ReadsBack t version own (r ∷ rs) s laid order (plain, plains) inside h =
    let (entered, raws, s', more, e, placed, behind, imps, all, _) =
      layout_loop-inv t version own r rs s {laid = laid} h in
    elim (Bool-cases (r.module_id == s.last_module_id)) [
      | inl same_module ↦
          let same = enter_module_same r s {entered = entered} same_module e in
          let state : s ≡ entered.state = (ap (λ (l : Laid). l.state) same) in
          let placed' =
            subst (λ (z : LayoutState). place t r (note_fix version own r z) ≡ ok (raws, s'))
              (sym state) placed in
          let last = placed_module t r (note_fix version own r s) s' raws order plain placed' in
          let back =
            layout_loop-ReadsBack t version own rs s' more order plains (rw last inside) behind in
          back_same t version own r rs s s' raws more laid order plain same_module placed' back
            (imps ∙ (rw (← same) refl)) (all ∙ (rw (← same) refl))
      | inr new_module ↦
          let offset = s.offset + 8 * length (ends s) in
          let same = enter_module_new r s {entered = entered} new_module e in
          let state : entered_state r s offset ≡ entered.state =
            (ap (λ (l : Laid). l.state) same) in
          let raws_same : ends s ≡ entered.raw_relocations =
            (ap (λ (l : Laid). l.raw_relocations) same) in
          let placed' =
            subst (λ (z : LayoutState). place t r (note_fix version own r z) ≡ ok (raws, s'))
              (sym state) placed in
          let last =
            placed_module t r (note_fix version own r (entered_state r s offset)) s' raws order
              plain placed' in
          let small = plain.in_module in
          let outside : s'.last_module_id == 4294967295 ≡ false = (rw last (ground arith)) in
          let back = layout_loop-ReadsBack t version own rs s' more order plains outside behind in
          let closed : ends s ≡ marker 0 r_dolphin_end 0 ∷ [] = ends_inside s inside in
          let all' : laid.raw_relocations
              ≡ marker 0 r_dolphin_end 0 ∷ (raws ++ more.raw_relocations) =
            all ∙ (rw (← raws_same, closed) refl) in
          record {
            here = λ extra suffix.
                rw (all', new_module)
                  (read_stop t s.last_module_id s.address s.section extra
                    (raws ++ more.raw_relocations) suffix order);
            there = λ rounds file prefix suffix enough size whole. rw new_module (
                there_new t version own r rs s s' raws entered more laid rounds file prefix suffix
                  order plain new_module e placed back imps all enough size whole);
          }
    ]

-- The tables of a layout that starts behind the prefix lead the reader to the relocations.
pub imports_relocs-do_relocation_layout :
    (types : RelTypes) (version own : ℕ) (relocations : List RelReloc) (laid : Laid) (rounds : ℕ)
    (prefix suffix : List ℕ)
    → InOrder types
    → All IsPlain relocations
    → do_relocation_layout types version own relocations (length prefix) ≡ ok laid
    → length laid.raw_relocations ≤ rounds
    → imports_relocs rounds types
        (prefix ++ (write_raws laid.raw_relocations ++ suffix))
        laid.imp_entries
      ≡ some (ok relocations)
unfolding do_relocation_layout imports_relocs
imports_relocs-do_relocation_layout t version own [] laid rounds prefix suffix order plain h
      enough =
    let s = start_at (length prefix) in
    let same = layout_loop_nil t version own s {laid = laid} h in rw (← same) refl
imports_relocs-do_relocation_layout t version own (r ∷ rs) laid rounds prefix suffix order
      (plain, plains) h enough =
    let s = start_at (length prefix) in
    let (entered, raws, s', more, e, placed, behind, imps, all, _) =
      layout_loop-inv t version own r rs s {laid = laid} h in
    let small = plain.in_module in
    let new_module : r.module_id == s.last_module_id ≡ false = (ground arith) in
    let offset = s.offset + 8 * length (ends s) in
    let same = enter_module_new r s {entered = entered} new_module e in
    let state : entered_state r s offset ≡ entered.state = (ap (λ (l : Laid). l.state) same) in
    let placed' =
      subst (λ (z : LayoutState). place t r (note_fix version own r z) ≡ ok (raws, s')) (sym state)
        placed in
    let last =
      placed_module t r (note_fix version own r (entered_state r s offset)) s' raws order plain
        placed' in
    let outside : s'.last_module_id == 4294967295 ≡ false = (rw last (ground arith)) in
    let back = layout_loop-ReadsBack t version own rs s' more order plains outside behind in
    there_new t version own r rs s s' raws entered more laid rounds
      (prefix ++ (write_raws laid.raw_relocations ++ suffix)) prefix suffix order plain new_module e
      placed back imps all enough refl refl
