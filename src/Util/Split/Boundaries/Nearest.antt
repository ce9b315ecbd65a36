-- ===== src/Util/Split/Boundaries/Nearest.antt =====
-- The boundary behind an address is the nearest one.
use decomp_toolkit.Prelude.{
  ℕ, ◌+◌, ◌^◌, ◌≤◌, ◌<◌, ◌≡◌, refl, min, true, List, [], ◌∷◌, ◌++◌, map, Option, none, some, ltb,
  leb, get_last?, All, ok, arith, Bool-cases, inl, inr, ◌⊎◌,
}
use decomp_toolkit.Prelude.BTreeMap.{BTreeMap, IsOrdered}
use decomp_toolkit.Prelude.BTreeMap
use decomp_toolkit.Obj.Splits.{ObjSplit, ObjSplits, for_range, flatten}
use decomp_toolkit.Util.Split.Boundaries.{cut_at_end, cut_at_start, boundary}

-- No split starts strictly between two addresses.
abbrev pub NoneBetween : ℕ → ℕ → List (ℕ × ObjSplit) → Type 0
NoneBetween here limit splits = All (λ (e : ℕ × ObjSplit). (e.0 ≤ here) ⊎ (limit ≤ e.0)) splits

-- The last split that starts at or before an address, if it reaches beyond, ends by the limit or
-- behind it.
abbrev pub EndsBehind : ℕ → ℕ → Option (ℕ × ObjSplit) → Type 0
EndsBehind here limit none = Unit
EndsBehind here limit (some (a, split)) = (split.end ≤ here) ⊎ (limit ≤ split.end)

cut_at_end_le :
    (here bound : ℕ) (last : Option (ℕ × ObjSplit))
    → here < bound
    → (here < cut_at_end here bound last)
      × (cut_at_end here bound last ≤ bound)
      × EndsBehind here (cut_at_end here bound last) last
cut_at_end_le here bound none lt = (lt, omega arith, tt)
cut_at_end_le here bound (some (a, split)) lt = elim (Bool-cases (ltb here split.end)) [
  | inl t ↦ (ground arith, ground arith, inr (ground arith))
  | inr f ↦ (ground arith, ground arith, inl (ground arith))
]

EndsBehind-le :
    (here limit limit' : ℕ) (last : Option (ℕ × ObjSplit))
    → limit' ≤ limit
    → EndsBehind here limit last
    → EndsBehind here limit' last
EndsBehind-le here limit limit' none le h = tt
EndsBehind-le here limit limit' (some (a, split)) le h = elim h [
  | inl le' ↦ inl le'
  | inr le' ↦ inr (omega arith)
]

same_start :
    (here limit a : ℕ) (v : List ObjSplit) (more : List (ℕ × ObjSplit))
    → (a ≤ here) ⊎ (limit ≤ a)
    → NoneBetween here limit more
    → NoneBetween here limit (map (λ (s : ObjSplit). (a, s)) v ++ more)
same_start here limit a [] more h k = k
same_start here limit a (s ∷ v) more h k = (h, same_start here limit a v more h k)

later_between :
    (here limit : ℕ) (m : ObjSplits)
    → All (λ (e : ℕ × List ObjSplit). limit ≤ e.0) m
    → NoneBetween here limit (flatten m)
unfolding flatten
later_between here limit [] h = tt
later_between here limit ((a, v) ∷ m) h =
    same_start here limit a v (flatten m) (inr h.0) (later_between here limit m h.1)

abbrev pub AllFull : ObjSplits → Type 0
AllFull m = All (λ (e : ℕ × List ObjSplit). (s : ObjSplit) × (v : List ObjSplit) × (e.1 ≡ s ∷ v)) m

All-le :
    (limit a : ℕ) (m : ObjSplits)
    → limit ≤ a
    → All (λ (e : ℕ × List ObjSplit). a < e.0) m
    → All (λ (e : ℕ × List ObjSplit). limit ≤ e.0) m
All-le limit a [] le h = tt
All-le limit a ((b, v) ∷ m) le h = (omega (arith, h.0), All-le limit a m le h.1)

cut_at_start_le :
    (here bound : ℕ) (m : ObjSplits)
    → IsOrdered m
    → AllFull m
    → here < bound
    → let limit = cut_at_start bound (for_range (λ a. leb (here + 1) a) m) in
      (here < limit) × (limit ≤ bound) × NoneBetween here limit (flatten m)
unfolding for_range flatten BTreeMap.range
cut_at_start_le here bound [] o full lt = (lt, omega arith, tt)
cut_at_start_le here bound ((a, v) ∷ m) o full lt = elim (Bool-cases (leb (here + 1) a)) [
  | inr f ↦
      let (lt', le, h) = cut_at_start_le here bound m o.1 full.1 lt in
      rw f (
        lt',
        le,
        same_start here (cut_at_start bound (for_range (λ a. leb (here + 1) a) m)) a v (flatten m)
            (inl (ground arith)) h,
      )
  | inl t ↦
      let (s, v', e) = full.0 in
      let limit = min bound a in
      rw (t, e)
        (
          ground arith,
          omega arith,
          same_start here limit a (s ∷ v') (flatten m) (inr (omega arith))
              (later_between here limit m (All-le limit a m (omega arith) o.0)),
        )
]

-- Among splits in order, of which no address has none, the boundary behind an address below the
-- bound is found: it is behind the address and at or before the bound, no split starts before it
-- and behind the address, and the last split that starts at or before the address does not end in
-- between.
pub boundary_lem :
    {E : Type 0} (splits : ObjSplits) (here bound : ℕ)
    → IsOrdered splits
    → AllFull splits
    → here < bound
    → here + 1 < 2 ^ 32
    → (limit : ℕ) × (boundary {E = E} splits here bound ≡ ok limit)
      × (here < limit)
      × (limit ≤ bound)
      × NoneBetween here limit (flatten splits)
      × EndsBehind here limit (get_last? (for_range (λ a. leb a here) splits))
unfolding boundary
boundary_lem splits here bound o full lt small =
    let last = get_last? (for_range (λ a. leb a here) splits) in
    let (lt₁, le₁, h₁) = cut_at_end_le here bound last lt in
    let limit₁ = cut_at_end here bound last in
    let (lt₂, le₂, h₂) = cut_at_start_le here limit₁ splits o full lt₁ in
    let limit = cut_at_start limit₁ (for_range (λ a. leb (here + 1) a) splits) in
    let t : ltb (here + 1) (2 ^ 32) ≡ true = (ground arith) in
    (limit, rw t refl, lt₂, omega arith, h₂, EndsBehind-le here limit₁ limit last le₂ h₁)
