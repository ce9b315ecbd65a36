-- ===== src/Util/Rel/Relocs/Returns.antt =====
-- The reader of a relocation table and the layout give a result.
use decomp_toolkit.Prelude.{
  ℕ, zero, suc, ◌+◌, ◌-◌, ◌*◌, ◌/◌, ◌^◌, ◌≤◌, ◌<◌, ◌≡◌, refl, sym, true, false, List, [], ◌∷◌, ◌++◌,
  some, Option-cases, ◌==◌, ltb, if◌then◌else◌, length, Result, ok, arith, Bool-cases, Result-cases,
  inl, inr, length-append,
}
use decomp_toolkit.Util.Reader.{big}
use decomp_toolkit.Obj.Info.{RelReloc}
use decomp_toolkit.Util.Rel.{RelRelocRaw, read_raw}
use decomp_toolkit.Util.Rel.Relocs.{RelTypes, RelError, read_relocs, r_dolphin_end}
use decomp_toolkit.Util.Rel.Layout.{
  marker, nops, type_of, placed_entry, place_behind, LayoutState, Laid, enter_section, enter_module,
  place,
}

length-read_raw :
    (bs : List ℕ) {raw : RelRelocRaw} {rest : List ℕ}
    → read_raw big bs ≡ ok (raw, rest)
    → length bs ≡ 8 + length rest
unfolding read_raw
length-read_raw (a ∷ (b ∷ (c ∷ (d ∷ (e ∷ (f ∷ (g ∷ (h ∷ bs)))))))) k = ground arith
length-read_raw _ k = absurd (ground arith)

-- Enough rounds give a result.
pub read_relocs_returns :
    (rounds : ℕ) (t : RelTypes) (m a sec : ℕ) (bs : List ℕ)
    → length bs < 8 * rounds
    → (r : Result RelError (List RelReloc)) × (read_relocs rounds t m a sec bs ≡ some r)
unfolding read_relocs
read_relocs_returns zero t m a sec bs h = absurd (omega arith)
read_relocs_returns (suc rounds) t m a sec bs h =
    elim (Option-cases (read_relocs (suc rounds) t m a sec bs)) [
      | inr (r, e) ↦ (r, e)
      | inl lost ↦ elim (Result-cases (read_raw big bs)) [
        | inr (inl (k, e)) ↦ absurd (ground arith)
        | inr (inr e) ↦ absurd (ground arith)
        | inl ((raw, rest), e) ↦
            let fewer : length rest < 8 * rounds =
              (omega (arith, length-read_raw bs {rest = rest} e)) in
            let (r₁, here) = read_relocs_returns rounds t m a sec rest fewer in
            let (r₂, next) = read_relocs_returns rounds t m (a + raw.offset) sec rest fewer in
            let (r₃, start) = read_relocs_returns rounds t m 0 raw.section rest fewer in
            absurd (ground arith)
      ]
    ]

length-nops : (n delta : ℕ) → length (nops n delta).0 ≤ delta / 65535
unfolding nops
length-nops zero delta = omega arith
length-nops (suc n) delta = elim (Bool-cases (ltb 65535 delta)) [
  | inr f ↦ rw f (omega arith)
  | inl t ↦ rw t (ground (arith, length-nops n (delta - 65535)))
]

-- The kinds of relocation that a module has.
abbrev pub IsSupported : RelTypes → RelReloc → Type 0
IsSupported t r = (n : ℕ) × (type_of t r.kind ≡ ok n)

-- The entries of a relocation at most: an end, a change of section, the gaps and its own.
unfoldable pub room_of : RelReloc → ℕ
room_of r = 3 + r.address / 65535

place_behind_ok :
    (t : RelTypes) (r : RelReloc) (s : LayoutState) (front : List RelRelocRaw) (left : ℕ)
    → IsSupported t r
    → s.offset + 8 * (length front + 1) < 2 ^ 32
    → (raws : List RelRelocRaw) × (s' : LayoutState) × (place_behind t r s front left
        ≡ ok (raws, s'))
      × (s'.offset ≡ s.offset + 8 * (length front + 1))
unfolding place_behind
place_behind_ok t r s front left (n, k) fits =
    let near : ltb (s.offset + 8 * length front) (2 ^ 32) ≡ true = (ground arith) in
    let far : ltb (s.offset + 8 * length front + 8 * 1) (2 ^ 32) ≡ true = (ground arith) in
    let offset = s.offset + 8 * length front + 8 * 1 in
    (
      front ++ (placed_entry r n left ∷ []),
      record s { address = r.address; offset = offset },
      rw (near, k, far) refl,
      omega arith,
    )

length-enter_section : (r : RelReloc) (s : LayoutState) → length (enter_section r s).0 ≤ 1
unfolding enter_section
length-enter_section r s = elim (Bool-cases (r.section == s.section)) [
  | inl t ↦ rw t (omega arith)
  | inr f ↦ rw f (omega arith)
]

enter_section-address :
    (r : RelReloc) (s : LayoutState)
    → (r.section ≡ s.section → s.address ≤ r.address)
    → ((enter_section r s).1.address ≤ r.address) × ((enter_section r s).1.offset ≡ s.offset)
unfolding enter_section
enter_section-address r s same = elim (Bool-cases (r.section == s.section)) [
  | inl t ↦ rw t (same (ground arith), refl)
  | inr f ↦ rw f (omega arith, refl)
]

-- A relocation that does not lie before the state is placed.
pub place_ok :
    (t : RelTypes) (r : RelReloc) (s : LayoutState)
    → IsSupported t r
    → (r.section ≡ s.section → s.address ≤ r.address)
    → s.offset + 8 * (2 + r.address / 65535) < 2 ^ 32
    → (raws : List RelRelocRaw) × (s' : LayoutState) × (place t r s ≡ ok (raws, s'))
      × (s'.offset ≤ s.offset + 8 * (2 + r.address / 65535))
unfolding place
place_ok t r s supported same fits =
    let front = (enter_section r s).0 in
    let s₁ = (enter_section r s).1 in
    let delta = r.address - s₁.address in
    let far = (nops delta delta).0 in
    let left = (nops delta delta).1 in
    let (le, off) = enter_section-address r s same in
    let not_below : ltb r.address s₁.address ≡ false = (ground arith) in
    let gaps : delta / 65535 ≤ r.address / 65535 = (omega arith) in
    let count : length (front ++ far) + 1 ≤ 2 + r.address / 65535 =
      omega (arith, length-append front far, length-enter_section r s, length-nops delta delta) in
    let (raws, s', e, off') = place_behind_ok t r s₁ (front ++ far) left supported (omega arith) in
    (raws, s', rw not_below e, omega arith)

-- The import entry of a relocation fits as well.
pub enter_module_ok :
    (r : RelReloc) (s : LayoutState)
    → r.section < 255
    → s.offset + 8 < 2 ^ 32
    → (r.module_id ≡ s.last_module_id → r.section ≡ s.section → s.address ≤ r.address)
    → (entered : Laid) × (enter_module r s ≡ ok entered)
      × (entered.state.offset ≤ s.offset + 8)
      × (entered.state.last_module_id ≡ r.module_id)
      × (r.section ≡ entered.state.section → entered.state.address ≤ r.address)
unfolding enter_module
enter_module_ok r s below fits ascending =
    let same : Laid = record { imp_entries = []; raw_relocations = []; state = s } in
    let ends = if s.last_module_id == 4294967295 then [] else marker 0 r_dolphin_end 0 ∷ [] in
    let offset = s.offset + 8 * length ends in
    let new : Laid = record {
      imp_entries = record { module_id = r.module_id; offset = offset } ∷ [];
      raw_relocations = ends;
      state = record s { section = 255; last_module_id = r.module_id; offset = offset };
    } in
    let few : length ends ≤ 1 = elim (Bool-cases (s.last_module_id == 4294967295)) [
      | inl t ↦ rw t (omega arith)
      | inr f ↦ rw f (omega arith)
    ] in
    let near : ltb offset (2 ^ 32) ≡ true = (ground arith) in
    elim (Bool-cases (r.module_id == s.last_module_id)) [
      | inl t ↦
          let e : r.module_id ≡ s.last_module_id = (ground arith) in
          (same, rw t refl, omega arith, sym e, ascending e)
      | inr f ↦ (new, rw (f, near) refl, omega arith, refl, λ e. absurd (omega (arith, e)))
    ]
