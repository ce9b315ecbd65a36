-- ===== src/Util/Rel/Relocs/Placed.antt =====
-- The entries of one relocation, read from where the reader stands.
use decomp_toolkit.Prelude.{
  ℕ, suc, ◌+◌, ◌-◌, ◌*◌, ◌^◌, ◌≡◌, refl, sym, ◌∙◌, List, [], ◌∷◌, ◌++◌, ltb, length, Result, ok,
  err, panic, arith, Bool-cases, Result-cases, inl, inr, append_assoc, length-append,
}
use decomp_toolkit.Util.Reader.{big}
use decomp_toolkit.Obj.Info.{RelReloc}
use decomp_toolkit.Util.Rel.{RelRelocRaw, write_raw}
use decomp_toolkit.Util.Rel.Relocs.{RelTypes, RelError, read_relocs, prepend}
use decomp_toolkit.Util.Rel.Layout.{
  nops, type_of, placed_entry, place_behind, write_raws, LayoutState, enter_section, place,
}
use decomp_toolkit.Util.Rel.Relocs.Entries.{
  InOrder, IsPlain, read_nops, read_entry, enter_section_lem,
}

abbrev Placing : Type 0
Placing = Result RelError (List RelRelocRaw × LayoutState)

-- What `place_behind` has emitted where it succeeds.
place_behind-inv :
    (t : RelTypes) (r : RelReloc) (s : LayoutState) (front : List RelRelocRaw) (left : ℕ)
    {raws : List RelRelocRaw} {s' : LayoutState}
    → place_behind t r s front left ≡ ok (raws, s')
    → (n : ℕ) × (type_of t r.kind ≡ ok n)
      × (front ++ (placed_entry r n left ∷ []) ≡ raws)
      × (s'.address ≡ r.address)
      × (s'.section ≡ s.section)
      × (s'.last_module_id ≡ s.last_module_id)
      × (s'.offset ≡ s.offset + 8 * length raws)
unfolding place_behind
place_behind-inv t r s front left {raws} {s'} h =
    elim (Bool-cases (ltb (s.offset + 8 * length front) (2 ^ 32))) [
      | inr f ↦
          let bad : ◌≡◌ {A = Placing} panic (ok (raws, s')) = (rw f at h) in absurd (ground arith)
      | inl near ↦ elim (Result-cases (type_of t r.kind)) [
        | inr (inl (e, k)) ↦
            let bad : ◌≡◌ {A = Placing} (err e) (ok (raws, s')) = (rw (near, k) at h) in
            absurd (ground arith)
        | inr (inr k) ↦
            let bad : ◌≡◌ {A = Placing} panic (ok (raws, s')) = (rw (near, k) at h) in
            absurd (ground arith)
        | inl (n, k) ↦
            let made = front ++ (placed_entry r n left ∷ []) in
            let moved = s.offset + 8 * length front + 8 * 1 in
            let count : moved ≡ s.offset + 8 * length made =
              omega (arith, length-append front (placed_entry r n left ∷ [])) in
            elim (Bool-cases (ltb moved (2 ^ 32))) [
              | inr f ↦
                  let bad : ◌≡◌ {A = Placing} panic (ok (raws, s')) = (rw (near, k, f) at h) in
                  absurd (ground arith)
              | inl fits ↦
                  let s₁ : LayoutState = record s { address = r.address; offset = moved } in
                  let made_ok : ◌≡◌ {A = Placing} (ok (made, s₁)) (ok (raws, s')) =
                    (rw (near, k, fits) at h) in
                  let same : made ≡ raws = (cc) in
                  let same_state : s₁ ≡ s' = (cc) in
                  (
                    n,
                    k,
                    same,
                    rw (← same_state) refl,
                    rw (← same_state) refl,
                    rw (← same_state) refl,
                    rw (← same_state, ← same) count,
                  )
            ]
      ]
    ]

pub write_raws-append :
    (xs ys : List RelRelocRaw) → write_raws (xs ++ ys) ≡ write_raws xs ++ write_raws ys
unfolding write_raws
write_raws-append [] ys = refl
write_raws-append (x ∷ xs) ys =
    rw (write_raws-append xs ys)
      (sym (append_assoc (write_raw big x) (write_raws xs) (write_raws ys)))

write_raws_parts :
    (front far : List RelRelocRaw) (entry : RelRelocRaw) (bs : List ℕ)
    → write_raws (front ++ far ++ (entry ∷ [])) ++ bs
      ≡ write_raws front ++ (write_raws far ++ (write_raw big entry ++ bs))
unfolding write_raws
write_raws_parts front far entry bs = simp (write_raws-append, append_assoc) refl

length_parts :
    (front far : List RelRelocRaw) (entry : RelRelocRaw) (rounds : ℕ)
    → length (front ++ far ++ (entry ∷ [])) + rounds ≡ length front + (length far + suc rounds)
length_parts front far entry rounds =
    omega (arith, length-append (front ++ far) (entry ∷ []), length-append front far)

-- The entries of a relocation read back from where the layout stands, and where it then stands.
pub place_lem :
    (t : RelTypes) (r : RelReloc) (s : LayoutState) (a rounds : ℕ) (bs : List ℕ)
    {raws : List RelRelocRaw} {s' : LayoutState}
    → InOrder t
    → IsPlain r
    → (r.section ≡ s.section → a ≡ s.address)
    → place t r s ≡ ok (raws, s')
    → (read_relocs (length raws + rounds) t r.module_id a s.section (write_raws raws ++ bs)
        ≡ prepend r (read_relocs rounds t r.module_id r.address r.section bs))
      × (s'.address ≡ r.address)
      × (s'.section ≡ r.section)
      × (s'.last_module_id ≡ s.last_module_id)
      × (s'.offset ≡ s.offset + 8 * length raws)
unfolding place
place_lem t r s a rounds bs {raws} {s'} order plain same h =
    let front = (enter_section r s).0 in
    let s₁ = (enter_section r s).1 in
    let delta = r.address - s₁.address in
    let far = (nops delta delta).0 in
    let left = (nops delta delta).1 in
    elim (Bool-cases (ltb r.address s₁.address)) [
      | inl below ↦
          let bad : ◌≡◌ {A = Placing} panic (ok (raws, s')) = (rw below at h) in
          absurd (ground arith)
      | inr f ↦
          let placed : place_behind t r s₁ (front ++ far) left ≡ ok (raws, s') = (rw f at h) in
          let (n, k, made, at, in_section, in_module, moved) =
            place_behind-inv t r s₁ (front ++ far) left {s' = s'} placed in
          let entry = placed_entry r n left in
          let behind = write_raw big entry ++ bs in
          let small = plain.in_range in
          let (head, last, sec, off) =
            enter_section_lem t order r s r.module_id a (length far + suc rounds)
              (write_raws far ++ behind) same in
          let (le, le', tail) =
            read_nops t order r.module_id delta delta (suc rounds) s₁.address r.section behind
              (omega arith) (ground arith) in
          let there : s₁.address + (delta - left) + left ≡ r.address = (ground arith) in
          let read =
            read_entry t order r n (s₁.address + (delta - left)) left rounds bs plain k there in
          (
            rw (← made, write_raws_parts front far entry bs, length_parts front far entry rounds)
                (head ∙ tail ∙ read),
            at,
            in_section ∙ sec,
            in_module ∙ last,
            rw off at moved,
          )
    ]
