-- ===== src/Analysis/Executor/Visits.antt =====
-- Marking an address: it leaves fewer to visit, and what is visited stays so.
use decomp_toolkit.Prelude.{
  ℕ, zero, suc, ◌+◌, ◌≤◌, ◌<◌, ◌≡◌, refl, ap, ◌∙◌, Bool, true, false, List, [], ◌∷◌, some, ◌==◌,
  length, get_elem?, set, get_elem?-set_self, get_elem?-set_ne, lt_of_get_elem?, ok, arith,
  Option-cases, Result-cases, Bool-cases, inl, inr,
}
use decomp_toolkit.Obj.Addresses.{SectionAddress}
use decomp_toolkit.Analysis.Executor.{VisitedAddresses, bit_for, bit_at, is_visited, mark}
use decomp_toolkit.Analysis.Executor.Run.{unset, unvisited}

-- What `mark` has found, where it succeeds.
mark-inv :
    (sa : ℕ) (a : SectionAddress) (inner : VisitedAddresses) {v : VisitedAddresses}
    → mark sa a inner ≡ ok v
    → (bits : List Bool) × (bit : ℕ) × (get_elem? inner a.section ≡ some bits)
      × (bit_for sa a.address ≡ ok bit)
      × (bit < length bits)
      × (v ≡ set inner a.section (set bits bit true))
unfolding mark
mark-inv sa a inner {v} h = elim (Option-cases (get_elem? inner a.section)) [
  | inl e ↦ absurd (ground arith)
  | inr (bits, e) ↦ elim (Result-cases (bit_for sa a.address)) [
    | inl (bit, f) ↦ (bits, bit, e, f, ground arith, ground arith)
    | inr (inl (x, f)) ↦ absurd (ground arith)
    | inr (inr f) ↦ absurd (ground arith)
  ]
]

is_visited_lem :
    (sa : ℕ) (a : SectionAddress) (inner : VisitedAddresses) (bits : List Bool) (bit : ℕ)
    → get_elem? inner a.section ≡ some bits
    → bit_for sa a.address ≡ ok bit
    → is_visited sa a inner ≡ ok (bit_at bits bit)
unfolding is_visited
is_visited_lem sa a inner bits bit e f = rw (e, is_visited, f)

unset-set_le : (bits : List Bool) (bit : ℕ) → unset (set bits bit true) ≤ unset bits
unset-set_le [] bit = omega arith
unset-set_le (true ∷ bits) zero = omega arith
unset-set_le (false ∷ bits) zero = omega arith
unset-set_le (true ∷ bits) (suc bit) = unset-set_le bits bit
unset-set_le (false ∷ bits) (suc bit) = omega (arith, unset-set_le bits bit)

unset-set_lt :
    (bits : List Bool) (bit : ℕ)
    → bit < length bits
    → bit_at bits bit ≡ false
    → unset (set bits bit true) < unset bits
unset-set_lt [] bit h e = elim h [ ]
unset-set_lt (true ∷ bits) zero h e = absurd (cc e)
unset-set_lt (false ∷ bits) zero h e = omega arith
unset-set_lt (true ∷ bits) (suc bit) h e = unset-set_lt bits bit (omega arith) e
unset-set_lt (false ∷ bits) (suc bit) h e = omega (arith, unset-set_lt bits bit (omega arith) e)

unvisited-set :
    (inner : VisitedAddresses) (i : ℕ) (bits bits' : List Bool)
    → get_elem? inner i ≡ some bits
    → unvisited (set inner i bits') + unset bits ≡ unvisited inner + unset bits'
unvisited-set [] i bits bits' e = absurd (cc e)
unvisited-set (x ∷ inner) zero bits bits' e = let eq : x ≡ bits = (cc) in omega (arith, ap unset eq)
unvisited-set (x ∷ inner) (suc i) bits bits' e = omega (arith, unvisited-set inner i bits bits' e)

module _ (sa : ℕ) (a : SectionAddress) (inner : VisitedAddresses) {v : VisitedAddresses}
    (marked : mark sa a inner ≡ ok v) where
  pub unvisited-mark_le : unvisited v ≤ unvisited inner
  unvisited-mark_le =
      let (bits, bit, e, f, lt, eq) = mark-inv sa a inner marked in
      omega (
        arith,
        unvisited-set inner a.section bits (set bits bit true) e,
        unset-set_le bits bit,
        ap unvisited eq,
      )

  -- An address that was not visited is one less to visit.
  pub unvisited-mark_lt : is_visited sa a inner ≡ ok false → unvisited v < unvisited inner
  unvisited-mark_lt new =
      let (bits, bit, e, f, lt, eq) = mark-inv sa a inner marked in
      let unmarked : bit_at bits bit ≡ false = cc (new, is_visited_lem sa a inner bits bit e f) in
      omega (
        arith,
        unvisited-set inner a.section bits (set bits bit true) e,
        unset-set_lt bits bit lt unmarked,
        ap unvisited eq,
      )

bit_at-set : (bits : List Bool) (i j : ℕ) → bit_at bits j ≡ true → bit_at (set bits i true) j ≡ true
bit_at-set [] i j h = h
bit_at-set (b ∷ bits) zero zero h = refl
bit_at-set (b ∷ bits) zero (suc j) h = h
bit_at-set (b ∷ bits) (suc i) zero h = h
bit_at-set (b ∷ bits) (suc i) (suc j) h = bit_at-set bits i j h

is_visited-inv :
    (sa : ℕ) (a : SectionAddress) (inner : VisitedAddresses)
    → is_visited sa a inner ≡ ok true
    → (bits : List Bool) × (bit : ℕ) × (get_elem? inner a.section ≡ some bits)
      × (bit_for sa a.address ≡ ok bit)
      × (bit_at bits bit ≡ true)
unfolding is_visited
is_visited-inv sa a inner h = elim (Option-cases (get_elem? inner a.section)) [
  | inl e ↦ absurd (ground arith)
  | inr (bits, e) ↦ elim (Result-cases (bit_for sa a.address)) [
    | inl (bit, f) ↦ (bits, bit, e, f, ground arith)
    | inr (inl (x, f)) ↦ absurd (ground arith)
    | inr (inr f) ↦ absurd (ground arith)
  ]
]

-- Marking any address keeps an address visited.
pub is_visited-mark :
    (sa : ℕ) (a : SectionAddress) (sa' : ℕ) (a' : SectionAddress) (inner v : VisitedAddresses)
    → mark sa' a' inner ≡ ok v
    → is_visited sa a inner ≡ ok true
    → is_visited sa a v ≡ ok true
is_visited-mark sa a sa' a' inner v marked h =
    let (bits', bit', e', f', lt, eq) = mark-inv sa' a' inner marked in
    let (bits, bit, e, f, on) = is_visited-inv sa a inner h in
    let new = set bits' bit' true in
    elim (Bool-cases (a'.section == a.section)) [
      | inl same ↦
          let same_section : a'.section ≡ a.section = ground arith in
          let there : get_elem? v a.section ≡ some new =
            rw (← same_section, eq)
              (get_elem?-set_self inner a'.section new (lt_of_get_elem? inner a'.section e')) in
          let same_bits : bits' ≡ bits = ground arith in
          is_visited_lem sa a v new bit there f
          ∙ ap ok (bit_at-set bits' bit' bit (rw same_bits on))
      | inr other ↦
          let there : get_elem? v a.section ≡ some bits =
            rw (eq, get_elem?-set_ne inner a'.section a.section new (ground arith)) e in
          is_visited_lem sa a v bits bit there f ∙ ap ok on
    ]
