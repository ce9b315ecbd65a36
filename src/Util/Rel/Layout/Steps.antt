-- ===== src/Util/Rel/Layout/Steps.antt =====
-- What a layout that succeeds has done at each relocation.
use decomp_toolkit.Prelude.{
  ℕ, ◌+◌, ◌*◌, ◌^◌, ◌≡◌, refl, List, [], ◌∷◌, ◌++◌, Result, ok, panic, arith, Bool-cases,
  Result-cases, inl, inr, ltb,
}
use decomp_toolkit.Obj.Info.{RelReloc}
use decomp_toolkit.Util.Rel.{RelRelocRaw}
use decomp_toolkit.Util.Rel.Relocs.{RelTypes, RelError, r_dolphin_end}
use decomp_toolkit.Util.Rel.Layout.{
  marker, LayoutState, Laid, enter_module, note_fix, place, layout_loop,
}

-- What the layout adds behind the last relocation.
pub layout_loop_nil :
    (t : RelTypes) (version own : ℕ) (s : LayoutState) {laid : Laid}
    → layout_loop t version own [] s ≡ ok laid
    → record {
      imp_entries = [];
      raw_relocations = marker 0 r_dolphin_end 0 ∷ [];
      state = record s { offset = s.offset + 8 * 1 };
    }
      ≡ laid
unfolding layout_loop
layout_loop_nil t version own s {laid} h = elim (Bool-cases (ltb (s.offset + 8 * 1) (2 ^ 32))) [
  | inr g ↦
      let bad : ◌≡◌ {A = Result RelError Laid} panic (ok laid) = (rw g at h) in
      absurd (ground arith)
  | inl fits ↦
      let last : Laid = record {
        imp_entries = [];
        raw_relocations = marker 0 r_dolphin_end 0 ∷ [];
        state = record s { offset = s.offset + 8 * 1 };
      } in
      let made : ◌≡◌ {A = Result RelError Laid} (ok last) (ok laid) = (rw fits at h) in cc
]

-- What one relocation of the loop has done where it succeeds.
pub layout_loop-inv :
    (t : RelTypes) (version own : ℕ) (r : RelReloc) (rs : List RelReloc) (s : LayoutState)
    {laid : Laid}
    → layout_loop t version own (r ∷ rs) s ≡ ok laid
    → (entered : Laid) × (raws : List RelRelocRaw) × (s' : LayoutState) × (more : Laid)
      × (enter_module r s ≡ ok entered)
      × (place t r (note_fix version own r entered.state) ≡ ok (raws, s'))
      × (layout_loop t version own rs s' ≡ ok more)
      × (laid.imp_entries ≡ entered.imp_entries ++ more.imp_entries)
      × (laid.raw_relocations ≡ entered.raw_relocations ++ (raws ++ more.raw_relocations))
      × (laid.state ≡ more.state)
unfolding layout_loop
layout_loop-inv t version own r rs s {laid} h = elim (Result-cases (enter_module r s)) [
  | inr (inl (k, e)) ↦ absurd (ground arith)
  | inr (inr e) ↦ absurd (ground arith)
  | inl (entered, e) ↦ elim (Result-cases (place t r (note_fix version own r entered.state))) [
    | inr (inl (k, e')) ↦ absurd (ground arith)
    | inr (inr e') ↦ absurd (ground arith)
    | inl ((raws, s'), e') ↦ elim (Result-cases (layout_loop t version own rs s')) [
      | inr (inl (k, e'')) ↦ absurd (ground arith)
      | inr (inr e'') ↦ absurd (ground arith)
      | inl (more, e'') ↦
          let whole : Laid = record {
            imp_entries = entered.imp_entries ++ more.imp_entries;
            raw_relocations = entered.raw_relocations ++ (raws ++ more.raw_relocations);
            state = more.state;
          } in
          let made : ◌≡◌ {A = Result RelError Laid} (ok whole) (ok laid) = (rw (e, e', e'') at h) in
          let same : whole ≡ laid = (cc) in
          (
            entered,
            raws,
            s',
            more,
            e,
            e',
            e'',
            rw (← same) refl,
            rw (← same) refl,
            rw (← same) refl,
          )
    ]
  ]
]
