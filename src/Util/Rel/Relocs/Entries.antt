-- ===== src/Util/Rel/Relocs/Entries.antt =====
-- The entries of the table, read one after the other.
use decomp_toolkit.Prelude.{
  ℕ, zero, suc, ◌+◌, ◌-◌, ◌%◌, ◌^◌, ◌≤◌, ◌<◌, ◌≡◌, refl, sym, ap, ◌∙◌, true, List, [], ◌++◌, some,
  ◌==◌, ltb, length, ok, arith, Bool-cases, inl, inr, append_assoc,
}
use decomp_toolkit.Util.Reader.{big}
use decomp_toolkit.Obj.Relocations.{
  ObjRelocKind, absolute, ppc_addr16_lo, ppc_addr16_hi, ppc_addr16_ha, ppc_rel24, ppc_rel14,
  ppc_emb_sda21, x86_abs32, x86_rel32,
}
use decomp_toolkit.Obj.Info.{RelReloc}
use decomp_toolkit.Util.Rel.{write_raw}
use decomp_toolkit.Util.Rel.Header.{read_raw-write_raw}
use decomp_toolkit.Util.Rel.Relocs.{
  RelTypes, action, relocate, advance, change, stop, read_relocs, prepend, aligned_reloc,
  r_dolphin_nop, r_dolphin_section, r_dolphin_end,
}
use decomp_toolkit.Util.Rel.Layout.{
  marker, nops, type_of, placed_entry, write_raws, LayoutState, enter_section,
}

-- The numbers of the ELF supplement for the processor, by their order.
abbrev pub InOrder : RelTypes → Type 0
InOrder t =
    (t.r_ppc_none < t.r_ppc_addr32)
    × (t.r_ppc_addr32 < t.r_ppc_addr16_lo)
    × (t.r_ppc_addr16_lo < t.r_ppc_addr16_hi)
    × (t.r_ppc_addr16_hi < t.r_ppc_addr16_ha)
    × (t.r_ppc_addr16_ha < t.r_ppc_rel24)
    × (t.r_ppc_rel24 < t.r_ppc_rel14)
    × (t.r_ppc_rel14 < t.r_ppc_uaddr32)
    × (t.r_ppc_uaddr32 < 201)

action-type_of :
    (t : RelTypes) (kind : ObjRelocKind) (n : ℕ)
    → InOrder t
    → type_of t kind ≡ ok n
    → action t (n % 256) ≡ relocate kind
unfolding action
action-type_of t absolute n h e = ground arith
action-type_of t ppc_addr16_lo n h e = ground arith
action-type_of t ppc_addr16_hi n h e = ground arith
action-type_of t ppc_addr16_ha n h e = ground arith
action-type_of t ppc_rel24 n h e = ground arith
action-type_of t ppc_rel14 n h e = ground arith
action-type_of t ppc_emb_sda21 n h e = ground arith
action-type_of t x86_abs32 n h e = ground arith
action-type_of t x86_rel32 n h e = ground arith

action_nop : (t : RelTypes) → InOrder t → action t r_dolphin_nop ≡ advance
unfolding action
action_nop t h = ground arith

action_section : (t : RelTypes) → InOrder t → action t r_dolphin_section ≡ change
unfolding action
action_section t h = ground arith

action_end : (t : RelTypes) → InOrder t → action t r_dolphin_end ≡ stop
unfolding action
action_end t h = ground arith

module _ (t : RelTypes) (order : InOrder t) (m : ℕ) where
  -- A table ends here.
  pub read_end :
      (rounds a sec : ℕ) (bs : List ℕ)
      → read_relocs (suc rounds) t m a sec (write_raw big (marker 0 r_dolphin_end 0) ++ bs)
        ≡ some (ok [])
  unfolding read_relocs
  read_end rounds a sec bs =
      rw (read_raw-write_raw big (marker 0 r_dolphin_end 0) bs, action_end t order, read_relocs)
        refl

  pub read_section :
      (rounds a sec new : ℕ) (bs : List ℕ)
      → read_relocs (suc rounds) t m a sec (write_raw big (marker 0 r_dolphin_section new) ++ bs)
        ≡ read_relocs rounds t m 0 new bs
  unfolding read_relocs
  read_section rounds a sec new bs =
      rw
        (
          read_raw-write_raw big (marker 0 r_dolphin_section new) bs,
          action_section t order,
          read_relocs,
        )
        refl

  read_nop :
      (rounds a sec : ℕ) (bs : List ℕ)
      → a + 65535 < 2 ^ 32
      → read_relocs (suc rounds) t m a sec (write_raw big (marker 65535 r_dolphin_nop 0) ++ bs)
        ≡ read_relocs rounds t m (a + 65535) sec bs
  unfolding read_relocs
  read_nop rounds a sec bs h =
      let fits : ltb (a + 65535) (2 ^ 32) ≡ true = (ground arith) in
      rw
        (
          read_raw-write_raw big (marker 65535 r_dolphin_nop 0) bs,
          action_nop t order,
          fits,
          read_relocs,
        )
        refl

  pub read_nops :
      (n delta rounds a sec : ℕ) (bs : List ℕ)
      → delta ≤ n
      → a + delta < 2 ^ 32
      → ((nops n delta).1 ≤ 65535)
        × ((nops n delta).1 ≤ delta)
        × (read_relocs
              (length (nops n delta).0 + rounds)
              t
              m
              a
              sec
              (write_raws (nops n delta).0 ++ bs)
            ≡ read_relocs rounds t m (a + (delta - (nops n delta).1)) sec bs)
  unfolding nops write_raws
  read_nops zero delta rounds a sec bs le fits =
      let same : a + (delta - delta) ≡ a = (omega arith) in
      let none_left : 0 + rounds ≡ rounds = (omega arith) in
      (omega arith, omega arith, rw (same, none_left) refl)
  read_nops (suc n) delta rounds a sec bs le fits = elim (Bool-cases (ltb 65535 delta)) [
    | inr f ↦
        let same : a + (delta - delta) ≡ a = (omega arith) in
        let none_left : 0 + rounds ≡ rounds = (omega arith) in
        rw f (ground arith, omega arith, rw (same, none_left) refl)
    | inl far ↦
        let more = (nops n (delta - 65535)).0 in
        let left = (nops n (delta - 65535)).1 in
        let (small, le', ih) =
          read_nops n (delta - 65535) rounds (a + 65535) sec bs (ground arith) (ground arith) in
        let step = read_nop (length more + rounds) a sec (write_raws more ++ bs) (ground arith) in
        let sum : suc (length more) + rounds ≡ suc (length more + rounds) = (omega arith) in
        let there : a + 65535 + (delta - 65535 - left) ≡ a + (delta - left) = (ground arith) in
        rw far (
          small,
          ground arith,
          rw (append_assoc (write_raw big (marker 65535 r_dolphin_nop 0)) (write_raws more) bs, sum)
              (step ∙ ih ∙ ap (λ (p : ℕ). read_relocs rounds t m p sec bs) there),
        )
  ]

-- A relocation as the reader gives it: of a word, with the sections that it has in the file.
pub record IsPlain (r : RelReloc) : Type 0 where
  pub of_word : r.address % 4 ≡ 0
  pub in_range : r.address < 2 ^ 32
  pub in_section : r.section < 255
  pub in_module : r.module_id < 4294967295
  pub from_section : r.original_section ≡ r.section
  pub to_section : r.original_target_section ≡ r.target_section

aligned_reloc-placed_entry :
    (r : RelReloc) (n a left : ℕ)
    → IsPlain r
    → a + left ≡ r.address
    → aligned_reloc r.module_id r.kind r.section (a + left) (placed_entry r n left) ≡ r
aligned_reloc-placed_entry r n a left p e =
    let word = p.of_word in
    let same : r.address - r.address % 4 ≡ r.address = (omega arith) in
    let from = p.from_section in let to = p.to_section in rw (e, same) (ground arith)

module _ (t : RelTypes) (order : InOrder t) where
  pub read_entry :
      (r : RelReloc) (n a left rounds : ℕ) (bs : List ℕ)
      → IsPlain r
      → type_of t r.kind ≡ ok n
      → a + left ≡ r.address
      → read_relocs
          (suc rounds)
          t
          r.module_id
          a
          r.section
          (write_raw big (placed_entry r n left) ++ bs)
        ≡ prepend r (read_relocs rounds t r.module_id r.address r.section bs)
  unfolding read_relocs
  read_entry r n a left rounds bs p e sum =
      let fits : ltb r.address (2 ^ 32) ≡ true = (let small = p.in_range in ground arith) in
      let same = aligned_reloc-placed_entry r n a left p sum in
      let same' = rw sum at same in
      rw
        (
          read_raw-write_raw big (placed_entry r n left) bs,
          action-type_of t r.kind n order e,
          read_relocs,
        )
        (rw (sum, fits, same') refl)

  -- The entries that change the section, and where the reader then stands.
  pub enter_section_lem :
      (r : RelReloc) (s : LayoutState) (m a rounds : ℕ) (bs : List ℕ)
      → (r.section ≡ s.section → a ≡ s.address)
      → (read_relocs
            (length (enter_section r s).0 + rounds)
            t
            m
            a
            s.section
            (write_raws (enter_section r s).0 ++ bs)
          ≡ read_relocs rounds t m (enter_section r s).1.address r.section bs)
        × ((enter_section r s).1.last_module_id ≡ s.last_module_id)
        × ((enter_section r s).1.section ≡ r.section)
        × ((enter_section r s).1.offset ≡ s.offset)
  unfolding enter_section write_raws
  enter_section_lem r s m a rounds bs same = elim (Bool-cases (r.section == s.section)) [
    | inl yes_same ↦
        let e : r.section ≡ s.section = (ground arith) in
        let at = same e in
        let none_left : 0 + rounds ≡ rounds = (omega arith) in
        rw yes_same (rw (none_left, at, e) refl, refl, sym e, refl)
    | inr f ↦
        let one : 1 + rounds ≡ suc rounds = (omega arith) in
        rw f (
          rw (append_assoc (write_raw big (marker 0 r_dolphin_section r.section)) [] bs, one)
              (read_section t order m rounds a s.section r.section bs),
          refl,
          refl,
          refl,
        )
  ]
