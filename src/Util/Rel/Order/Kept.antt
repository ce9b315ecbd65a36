-- ===== src/Util/Rel/Order/Kept.antt =====
-- The relocations that stay.
use decomp_toolkit.Prelude.{
  ℕ, ◌≡◌, Bool, List, [], ◌∷◌, Option, ok, All, arith, Result-cases, inl, inr, ◌⊎◌,
}
use decomp_toolkit.Obj.Info.{RelReloc}
use decomp_toolkit.Util.Rel.Order.{retain}
use decomp_toolkit.Util.Rel.Order.Ascending.{NotBehind, IsAscending}

-- What stays is some of what there was, in its order.
pub retain-inv :
    (permitted : ℕ → Option Bool) (own : ℕ) (r : RelReloc) (rs : List RelReloc)
    {kept applied : List RelReloc}
    → retain permitted own (r ∷ rs) ≡ ok (kept, applied)
    → (kept' : List RelReloc) × (applied' : List RelReloc) × (retain permitted own rs
        ≡ ok (kept', applied'))
      × ((kept ≡ kept') ⊎ (kept ≡ r ∷ kept'))
unfolding retain
retain-inv permitted own r rs {kept} {applied} h = elim (Result-cases (retain permitted own rs)) [
  | inr (inl (k, e)) ↦ absurd (ground arith)
  | inr (inr e) ↦ absurd (ground arith)
  | inl ((kept', applied'), e) ↦ (kept', applied', e, ground arith)
]

pub All-retain :
    (permitted : ℕ → Option Bool) (own : ℕ) (P : RelReloc → Type 0) (rs : List RelReloc)
    {kept applied : List RelReloc}
    → retain permitted own rs ≡ ok (kept, applied)
    → All P rs
    → All P kept
unfolding retain
All-retain permitted own P [] {kept} h hs = let e : [] ≡ kept = (ground arith) in rw (← e) tt
All-retain permitted own P (r ∷ rs) {kept} h (k, ks) =
    let (kept', applied', e, which) = retain-inv permitted own r rs {kept = kept} h in
    let hs = All-retain permitted own P rs {kept = kept'} e ks in
    elim which [ inl same ↦ rw same hs | inr one ↦ rw one (k, hs) ]

pub retain-IsAscending :
    (permitted : ℕ → Option Bool) (version own : ℕ) (rs : List RelReloc)
    {kept applied : List RelReloc}
    → retain permitted own rs ≡ ok (kept, applied)
    → IsAscending version own rs
    → IsAscending version own kept
unfolding retain
retain-IsAscending permitted version own [] {kept} h hs =
    let e : [] ≡ kept = (ground arith) in rw (← e) tt
retain-IsAscending permitted version own (r ∷ rs) {kept} h (k, ks) =
    let (kept', applied', e, which) = retain-inv permitted own r rs {kept = kept} h in
    let hs = retain-IsAscending permitted version own rs {kept = kept'} e ks in
    elim which [
      | inl same ↦ rw same hs
      | inr one ↦
          rw one (All-retain permitted own (NotBehind version own r) rs {kept = kept'} e k, hs)
    ]
