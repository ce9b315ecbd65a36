-- ===== src/Util/Rel/Order/Selected.antt =====
-- Which relocations stay in the table and which are applied to the data, apart from the code's tests.
use decomp_toolkit.Prelude.{
  ℕ, ◌≡◌, refl, Bool, true, false, List, [], ◌∷◌, Option, some, ok, All, arith, Bool-cases, inl,
  inr, ◌⊎◌,
}
use decomp_toolkit.Obj.Relocations.{ppc_rel24, ppc_rel14}
use decomp_toolkit.Obj.Info.{RelReloc}
use decomp_toolkit.Util.Rel.Order.{reloc_can_be_applied, skip_reloc, retain}

-- The entries of a list with a property, in their order, and no others.
pub data Selects (P : RelReloc → Type 0) : List RelReloc → List RelReloc → Type 0 where
  nothing : Selects P [] []
  take :
      {r : RelReloc} {rs kept : List RelReloc}
      → P r
      → Selects P rs kept
      → Selects P (r ∷ rs) (r ∷ kept)
  leave :
      {r : RelReloc} {rs kept : List RelReloc} → ¬ P r → Selects P rs kept → Selects P (r ∷ rs) kept

abbrev pub IsBranch : RelReloc → Type 0
IsBranch r = (r.kind ≡ ppc_rel24) ⊎ (r.kind ≡ ppc_rel14)

-- A branch within a section of the module itself.
abbrev pub IsWithin : ℕ → RelReloc → Type 0
IsWithin own r = (r.module_id ≡ own) × (r.section ≡ r.target_section) × IsBranch r

abbrev pub IsPermitted : (ℕ → Option Bool) → RelReloc → Type 0
IsPermitted permitted r = permitted r.original_section ≡ some true

abbrev pub Stays : (ℕ → Option Bool) → ℕ → RelReloc → Type 0
Stays permitted own r = IsPermitted permitted r × ¬ IsWithin own r

abbrev pub IsApplied : (ℕ → Option Bool) → RelReloc → Type 0
IsApplied permitted r = IsPermitted permitted r × IsBranch r

IsBranch-of : (r : RelReloc) → reloc_can_be_applied r ≡ true → IsBranch r
unfolding reloc_can_be_applied
IsBranch-of r h = ground arith

not-IsBranch : (r : RelReloc) → reloc_can_be_applied r ≡ false → ¬ IsBranch r
unfolding reloc_can_be_applied
not-IsBranch r h (inl e) = ground arith
not-IsBranch r h (inr e) = ground arith

IsWithin-of : (own : ℕ) (r : RelReloc) → skip_reloc own r ≡ true → IsWithin own r
unfolding skip_reloc
IsWithin-of own r h = (ground arith, ground arith, IsBranch-of r (ground arith))

not-IsWithin : (own : ℕ) (r : RelReloc) → skip_reloc own r ≡ false → ¬ IsWithin own r
unfolding skip_reloc
not-IsWithin own r h (same, here, branch) = elim (Bool-cases (reloc_can_be_applied r)) [
  | inl t ↦ ground arith
  | inr f ↦ not-IsBranch r f branch
]

-- Where the file has the original sections of all relocations, `retain` does not panic: it keeps,
-- in their order, the relocations of permitted sections that are not 24-bit or 14-bit branches
-- within a section of the module itself, and hands over to be applied, in their order, those of
-- permitted sections that are such branches, wherever they lead.
pub retain-Selects :
    (permitted : ℕ → Option Bool) (own : ℕ) (rs : List RelReloc)
    → All (λ (r : RelReloc). (b : Bool) × (permitted r.original_section ≡ some b)) rs
    → (kept : List RelReloc) × (applied : List RelReloc) × (retain permitted own rs
        ≡ ok (kept, applied))
      × Selects (Stays permitted own) rs kept
      × Selects (IsApplied permitted) rs applied
unfolding retain
retain-Selects permitted own [] hs = ([], [], refl, nothing, nothing)
retain-Selects permitted own (r ∷ rs) ((false, e), hs) =
    let (kept, applied, made, stays, used) = retain-Selects permitted own rs hs in
    (
      kept,
      applied,
      rw (made, e) refl,
      leave (λ s. ground arith) stays,
      leave (λ s. ground arith) used,
    )
retain-Selects permitted own (r ∷ rs) ((true, e), hs) =
    let (kept, applied, made, stays, used) = retain-Selects permitted own rs hs in
    elim (Bool-cases (reloc_can_be_applied r)) [
      | inr f ↦
          let other = not-IsBranch r f in
          (
            r ∷ kept,
            applied,
            rw (made, e, f) refl,
            take (e, λ w. other w.2) stays,
            leave (λ s. other s.1) used,
          )
      | inl t ↦ elim (Bool-cases (skip_reloc own r)) [
        | inl skipped ↦ (
          kept,
          r ∷ applied,
          rw (made, e, t, skipped) refl,
          leave (λ s. s.1 (IsWithin-of own r skipped)) stays,
          take (e, IsBranch-of r t) used,
        )
        | inr other ↦ (
          r ∷ kept,
          r ∷ applied,
          rw (made, e, t, other) refl,
          take (e, not-IsWithin own r other) stays,
          take (e, IsBranch-of r t) used,
        )
      ]
    ]
