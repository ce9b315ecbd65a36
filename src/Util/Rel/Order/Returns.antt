-- ===== src/Util/Rel/Order/Returns.antt =====
-- What `write_rel` sorts and retains is laid out without a failure.
use decomp_toolkit.Prelude.{
  ℕ, ◌+◌, ◌*◌, ◌^◌, ◌≤◌, ◌<◌, ◌≡◌, refl, ◌∙◌, true, List, [], ◌∷◌, ◌++◌, ltb, ok, All, All-implies,
  arith,
}
use decomp_toolkit.Obj.Info.{RelReloc}
use decomp_toolkit.Util.Rel.Relocs.{RelTypes, r_dolphin_end}
use decomp_toolkit.Util.Rel.Layout.{
  LayoutState, Laid, note_fix, layout_loop, do_relocation_layout, start_at, marker,
}
use decomp_toolkit.Util.Rel.Relocs.Entries.{InOrder, IsPlain}
use decomp_toolkit.Util.Rel.Relocs.Placed.{place_lem}
use decomp_toolkit.Util.Rel.Relocs.Returns.{IsSupported, room_of, place_ok, enter_module_ok}
use decomp_toolkit.Util.Rel.Order.Ascending.{NotBehind-address, IsAscending}

-- The entries of the relocations at most, with the end of the last table.
unfoldable pub room : List RelReloc → ℕ
unfolding room_of
room [] = 1
room (r ∷ rs) = room_of r + room rs

-- A relocation that the state has not passed.
abbrev Ahead : LayoutState → RelReloc → Type 0
Ahead s r = r.module_id ≡ s.last_module_id → r.section ≡ s.section → s.address ≤ r.address

module _ (t : RelTypes) (order : InOrder t) (version own : ℕ) where
  layout_loop_returns :
      (rs : List RelReloc) (s : LayoutState)
      → All IsPlain rs
      → All (IsSupported t) rs
      → IsAscending version own rs
      → All (Ahead s) rs
      → s.offset + 8 * room rs < 2 ^ 32
      → (laid : Laid) × (layout_loop t version own rs s ≡ ok laid)
        × (laid.state.offset ≤ s.offset + 8 * room rs)
  unfolding layout_loop room room_of
  layout_loop_returns [] s plain supported ascending ahead fits =
      let near : ltb (s.offset + 8 * 1) (2 ^ 32) ≡ true = (ground arith) in
      (
        record {
          imp_entries = [];
          raw_relocations = marker 0 r_dolphin_end 0 ∷ [];
          state = record s { offset = s.offset + 8 * 1 };
        },
        rw near refl,
        omega arith,
      )
  layout_loop_returns (r ∷ rs) s (plain, plains) (supported, more_supported) (behind, ascending)
        (ahead, _) fits =
      let below = plain.in_section in
      let (entered, e, off, at_module, ahead') = enter_module_ok r s below (omega arith) ahead in
      let s₁ = note_fix version own r entered.state in
      let (raws, s', placed, off') = place_ok t r s₁ supported ahead' (omega arith) in
      let (read, at, sec, last, _) =
        place_lem t r s₁ s₁.address 0 [] {s' = s'} order plain (λ x. refl) placed in
      let passed : All (Ahead s') rs =
        All-implies rs
          (λ x k same_module same_section. rw at (
            NotBehind-address version own r x k (same_module ∙ last ∙ at_module)
              (same_section ∙ sec)))
          behind in
      let (more, e', finish) =
        layout_loop_returns rs s' plains more_supported ascending passed (omega arith) in
      (
        record {
          imp_entries = entered.imp_entries ++ more.imp_entries;
          raw_relocations = entered.raw_relocations ++ (raws ++ more.raw_relocations);
          state = more.state;
        },
        rw (e, placed, e') refl,
        omega arith,
      )

  -- What is in order is laid out, in room for so many entries.
  pub layout_returns :
      (kept : List RelReloc) (offset : ℕ)
      → All IsPlain kept
      → All (IsSupported t) kept
      → IsAscending version own kept
      → offset + 8 * room kept < 2 ^ 32
      → (laid : Laid) × (do_relocation_layout t version own kept offset ≡ ok laid)
        × (laid.state.offset ≤ offset + 8 * room kept)
  unfolding do_relocation_layout
  layout_returns kept offset plain supported ascending fits =
      let ahead : All (Ahead (start_at offset)) kept =
        All-implies kept
          (λ r (p : IsPlain r) same_module same_section.
            let outside = p.in_module in absurd (omega (arith, same_module)))
          plain in
      layout_loop_returns kept (start_at offset) plain supported ascending ahead fits
