-- ===== src/Util/Rel/Tables/Fixed.antt =====
-- The `fix_size` of the header and the entries of the import table.
use decomp_toolkit.Prelude.{
  ℕ, ◌+◌, ◌*◌, ◌≤◌, ◌≡◌, refl, sym, ap, ◌∙◌, true, false, List, [], ◌∷◌, Option, none, some,
  Option-cases, ◌==◌, leb, length, All, All-implies, All-append, ok, ◌⊎◌, inl, inr, arith,
  Bool-cases,
}
use decomp_toolkit.Obj.Info.{RelReloc}
use decomp_toolkit.Util.Rel.{RelImport}
use decomp_toolkit.Util.Rel.Relocs.{RelTypes}
use decomp_toolkit.Util.Rel.Layout.{LayoutState, Laid, note_fix, enter_module, layout_loop}
use decomp_toolkit.Util.Rel.Relocs.Entries.{InOrder, IsPlain}
use decomp_toolkit.Util.Rel.Relocs.Placed.{place_lem}
use decomp_toolkit.Util.Rel.Layout.Steps.{layout_loop-inv, layout_loop_nil}
use decomp_toolkit.Util.Rel.Relocs.Entered.{ends, enter_module_same, enter_module_new}
use decomp_toolkit.Util.Rel.Order.{compare_modules, compare_relocs}
use decomp_toolkit.Util.Rel.Order.Ascending.{NotBehind, IsAscending}
use decomp_toolkit.Util.Rel.Tables.Counts.{enter_module_lem, place-fix_size}

-- Once the header has the size, what follows is of module 0, or of the module itself in its table.
abbrev Guarded : ℕ → LayoutState → RelReloc → Type 0
Guarded own s r = (r.module_id ≡ 0) ⊎ ((r.module_id ≡ own) × (s.last_module_id ≡ own))

-- The entry of the module itself is where the size ends.
abbrev pub EndsAt : ℕ → Option ℕ → RelImport → Type 0
EndsAt own fix_size i = i.module_id ≡ own → fix_size ≡ some i.offset

enter_module-EndsAt :
    (r : RelReloc) (s : LayoutState) (entered : Laid) (own : ℕ) (fix_size : Option ℕ)
    → enter_module r s ≡ ok entered
    → (r.module_id ≡ own
        → r.module_id == s.last_module_id ≡ false
        → fix_size ≡ some entered.state.offset)
    → All (EndsAt own fix_size) entered.imp_entries
enter_module-EndsAt r s entered own fix_size e h =
    elim (Bool-cases (r.module_id == s.last_module_id)) [
      | inl t ↦ let same = enter_module_same r s {entered = entered} t e in rw (← same) tt
      | inr f ↦
          let same = enter_module_new r s {entered = entered} f e in
          let offset = s.offset + 8 * length (ends s) in
          let at : offset ≡ entered.state.offset = (ap (λ (l : Laid). l.state.offset) same) in
          let first : entered.imp_entries
              ≡ record { module_id = r.module_id; offset = offset } ∷ [] =
            ap (λ (l : Laid). l.imp_entries) (sym same) in
          rw first (λ x. h x f ∙ ap some (sym at), tt)
    ]

module _ (t : RelTypes) (version own : ℕ) where
  note_fix-some :
      (r : RelReloc) (s : LayoutState) {n : ℕ}
      → s.fix_size ≡ some n
      → (note_fix version own r s).fix_size ≡ some n
  note_fix-some r s h = ground arith

  note_fix-none :
      (r : RelReloc) (s : LayoutState)
      → leb 3 version ≡ false
      → s.fix_size ≡ none
      → (note_fix version own r s).fix_size ≡ none
  note_fix-none r s old h = ground arith

  note_fix_own :
      (r : RelReloc) (s : LayoutState)
      → leb 3 version ≡ true
      → s.fix_size ≡ none
      → r.module_id ≡ own
      → (note_fix version own r s).fix_size ≡ some s.offset
  note_fix_own r s new h same = ground arith

  layout_loop_keeps :
      (rs : List RelReloc) (s : LayoutState) (laid : Laid) (n : ℕ)
      → s.fix_size ≡ some n
      → layout_loop t version own rs s ≡ ok laid
      → laid.state.fix_size ≡ some n
  layout_loop_keeps [] s laid n fix h =
      let same = layout_loop_nil t version own s {laid = laid} h in rw (← same) fix
  layout_loop_keeps (r ∷ rs) s laid n fix h =
      let (entered, raws, s', more, e, placed, behind, imps, all, state) =
        layout_loop-inv t version own r rs s {laid = laid} h in
      let (count, at_module, same, off) = enter_module_lem r s entered e in
      let here : entered.state.fix_size ≡ some n = same ∙ fix in
      let kept = place-fix_size t r (note_fix version own r entered.state) {s' = s'} placed in
      let there : s'.fix_size ≡ some n = kept ∙ note_fix-some r entered.state here in
      rw state (layout_loop_keeps rs s' more n there behind)

  pub layout_loop_unfixed :
      (rs : List RelReloc) (s : LayoutState) (laid : Laid)
      → leb 3 version ≡ false
      → s.fix_size ≡ none
      → layout_loop t version own rs s ≡ ok laid
      → laid.state.fix_size ≡ none
  layout_loop_unfixed [] s laid old fix h =
      let same = layout_loop_nil t version own s {laid = laid} h in rw (← same) fix
  layout_loop_unfixed (r ∷ rs) s laid old fix h =
      let (entered, raws, s', more, e, placed, behind, imps, all, state) =
        layout_loop-inv t version own r rs s {laid = laid} h in
      let (count, at_module, same, off) = enter_module_lem r s entered e in
      let here : entered.state.fix_size ≡ none = same ∙ fix in
      let kept = place-fix_size t r (note_fix version own r entered.state) {s' = s'} placed in
      let there : s'.fix_size ≡ none = kept ∙ note_fix-none r entered.state old here in
      rw state (layout_loop_unfixed rs s' more old there behind)

  Guarded-behind :
      (r x : RelReloc) (s : LayoutState)
      → leb 3 version ≡ true
      → 1 ≤ own
      → s.last_module_id ≡ r.module_id
      → (r.module_id ≡ 0) ⊎ (r.module_id ≡ own)
      → NotBehind version own r x
      → Guarded own s x
  unfolding compare_relocs compare_modules
  Guarded-behind r x s new proper at which h = elim (Bool-cases (x.module_id == 0)) [
    | inl zero_module ↦ inl (ground arith)
    | inr other ↦ elim (Bool-cases (x.module_id == own)) [
      | inl own_module ↦ elim which [
        | inl dol ↦ absurd (ground arith)
        | inr same ↦ inr (ground arith, at ∙ same)
      ]
      | inr foreign ↦ elim which [
        | inl dol ↦ absurd (ground arith)
        | inr same ↦ absurd (ground arith)
      ]
    ]
  ]

  noted :
      (r : RelReloc) (s : LayoutState) {n : ℕ}
      → (note_fix version own r s).fix_size ≡ some n
      → (s.fix_size ≡ some n) ⊎ ((r.module_id ≡ 0) ⊎ (r.module_id ≡ own))
  noted r s {n} h = elim (Option-cases s.fix_size) [
    | inr (m, e) ↦ inl (e ∙ sym (note_fix-some r s e) ∙ h)
    | inl e ↦ elim (Bool-cases (r.module_id == 0)) [
      | inl dol ↦ inr (inl (ground arith))
      | inr other ↦ elim (Bool-cases (r.module_id == own)) [
        | inl same ↦ inr (inr (ground arith))
        | inr foreign ↦ absurd (ground arith)
      ]
    ]
  ]

  -- The table of the module itself starts where the size of the header ends.
  pub layout_loop_fixed :
      (rs : List RelReloc) (s : LayoutState) (laid : Laid)
      → InOrder t
      → All IsPlain rs
      → leb 3 version ≡ true
      → 1 ≤ own
      → IsAscending version own rs
      → ((n : ℕ) → s.fix_size ≡ some n → All (Guarded own s) rs)
      → layout_loop t version own rs s ≡ ok laid
      → All (EndsAt own laid.state.fix_size) laid.imp_entries
  layout_loop_fixed [] s laid order plain new proper ascending guard h =
      let same = layout_loop_nil t version own s {laid = laid} h in rw (← same) tt
  layout_loop_fixed (r ∷ rs) s laid order (plain, plains) new proper (behind_r, ascending) guard h =
      let (entered, raws, s', more, e, placed, behind, imps, all, state) =
        layout_loop-inv t version own r rs s {laid = laid} h in
      let (count, at_module, same_fix, off) = enter_module_lem r s entered e in
      let s₁ = note_fix version own r entered.state in
      let kept = place-fix_size t r s₁ {s' = s'} placed in
      let (read, at, sec, last, moved) =
        place_lem t r s₁ s₁.address 0 [] {s' = s'} order plain (λ x. refl) placed in
      let guard' : (n : ℕ) → s'.fix_size ≡ some n → All (Guarded own s') rs = λ n k.
        let which : (r.module_id ≡ 0) ⊎ (r.module_id ≡ own) =
          elim (noted r entered.state (sym kept ∙ k)) [
            | inl before ↦ elim (guard n (sym same_fix ∙ before)).0 [
              | inl dol ↦ inl dol
              | inr (same, _) ↦ inr same
            ]
            | inr which ↦ which
          ] in
        All-implies rs (λ x h. Guarded-behind r x s' new proper (last ∙ at_module) which h)
          behind_r in
      let more_fixed =
        layout_loop_fixed rs s' more order plains new proper ascending guard' behind in
      let entry = enter_module-EndsAt r s entered own more.state.fix_size e (λ same other.
        let unfixed : s.fix_size ≡ none = elim (Option-cases s.fix_size) [
          | inl e' ↦ e'
          | inr (m, e') ↦ elim (guard m e').0 [
            | inl dol ↦ absurd (omega (arith, same))
            | inr (_, in_own) ↦ absurd (ground arith)
          ]
        ] in
        let set = note_fix_own r entered.state new (same_fix ∙ unfixed) same in
        layout_loop_keeps rs s' more entered.state.offset (kept ∙ set) behind) in
      rw (imps, state)
        (All-append (EndsAt own more.state.fix_size) entered.imp_entries more.imp_entries entry
          more_fixed)
