-- ===== src/Analysis/Executor/Blocks.antt =====
-- The inner loop of `run` ends, whatever the callback answers.
use decomp_toolkit.Prelude.{
  ℕ, zero, suc, ◌+◌, ◌-◌, ◌*◌, ◌≤◌, ◌<◌, ◌≡◌, refl, ◌⊎◌, false, List, [], ◌∷◌, some, none, ok,
  arith, Result-cases, inl, inr,
}
use decomp_toolkit.Obj.Addresses.{SectionAddress}
use decomp_toolkit.Obj.Sections.{ObjSection}
use decomp_toolkit.Analysis.Executor.{
  Exec, VisitedAddresses, is_visited, mark, read_word, ExecCbResult, continue, jump, end_block, end,
  Executor, push, Push, Answer,
}
use decomp_toolkit.Analysis.Executor.Run.{
  Program, unvisited, data_end, block_fuel, BlockEnd, Block, Round, ended, next, push_all, follow,
  respond, answer, execute, round, block,
}
use decomp_toolkit.Analysis.Executor.Visits.{unvisited-mark_le, unvisited-mark_lt}
use native.Mathlib.Nat.{mul-le-mul_right}
use mathlib.Core.Path.{subst}

read_word-le :
    (s : ObjSection) (address word : ℕ)
    → read_word s address ≡ ok (some word)
    → (s.address ≤ address) × (address + 4 ≤ data_end s)
unfolding read_word
read_word-le s address word h = ground arith

module _ (m : Program) where
  open m use {VM, C, R}

  pub visited-push_all :
      (ps : List (Push VM)) (e : Executor VM) → (push_all m ps e).visited ≡ e.visited
  unfolding push_all push
  visited-push_all [] e = refl
  visited-push_all (p ∷ ps) e = visited-push_all ps (push VM p.address p.vm p.sort e)

  -- Where a round goes on: four bytes further, or at an address that is not visited.
  abbrev GoesOn : ℕ → SectionAddress → VisitedAddresses → Block m → Type 0
  GoesOn sa a v b =
      ((b.executor).visited ≡ v)
      × (((b.address).address ≡ a.address + 4) ⊎ (is_visited sa b.address v ≡ ok false))

  follow-next :
      (sa : ℕ) (b : Block m) (r : ExecCbResult R) {b' : Block m}
      → follow m sa b r ≡ next b'
      → GoesOn sa b.address (b.executor).visited b'
  unfolding follow
  follow-next sa b continue h = ground arith
  follow-next sa b (jump addr) h = ground arith
  follow-next sa b end_block h = absurd (cc)
  follow-next sa b (end x) h = absurd (cc)

  respond-next :
      (sa : ℕ) (b : Block m) (a : Answer VM C R) {b' : Block m}
      → respond m sa b a ≡ next b'
      → GoesOn sa b.address (b.executor).visited b'
  unfolding respond
  respond-next sa b a {b'} h = elim (Result-cases a.result) [
    | inl (r, e) ↦
        subst (λ v. GoesOn sa b.address v b') (visited-push_all a.pushes b.executor)
          (follow-next sa
            (record b {
              vm = a.vm;
              executor = push_all m a.pushes b.executor;
              captured = a.captured;
            })
            r {b' = b'} (rw (e, respond) at h))
    | inr (inl (x, e)) ↦ absurd (ground arith)
    | inr (inr e) ↦ absurd (ground arith)
  ]

  execute-next :
      (s : ObjSection) (sa : ℕ) (b : Block m) {b' : Block m}
      → execute m s sa b ≡ next b'
      → ((b.address).address + 4 ≤ data_end s) × GoesOn sa b.address (b.executor).visited b'
  unfolding execute
  execute-next s sa b {b'} h = elim (Result-cases (read_word s (b.address).address)) [
    | inl (none, e) ↦ absurd (ground arith)
    | inl (some word, e) ↦ (
      (read_word-le s (b.address).address word e).1,
      respond-next sa b (answer m s b word) {b' = b'} (rw (e, execute) at h),
    )
    | inr (inl (x, e)) ↦ absurd (ground arith)
    | inr (inr e) ↦ absurd (ground arith)
  ]

  pub round-next :
      (s : ObjSection) (sa : ℕ) (b : Block m) {b' : Block m}
      → round m s sa b ≡ next b'
      → (v : VisitedAddresses) × (mark sa b.address (b.executor).visited ≡ ok v)
        × ((b.address).address + 4 ≤ data_end s)
        × GoesOn sa b.address v b'
  unfolding round
  round-next s sa b {b'} h = elim (Result-cases (mark sa b.address (b.executor).visited)) [
    | inl (v, e) ↦
        let (le, on) =
          execute-next s sa (record b { executor = record b.executor { visited = v } }) {b' = b'}
            (rw (e, round) at h) in
        (v, e, le, on)
    | inr (inl (x, e)) ↦ absurd (ground arith)
    | inr (inr e) ↦ absurd (ground arith)
  ]

  -- The rounds that are left: a bound by the addresses to visit and the rest of the data.
  abbrev rank : ObjSection → VisitedAddresses → SectionAddress → ℕ
  rank s v a = unvisited v * suc (data_end s) + (data_end s - a.address)

  abbrev Ready : ℕ → ObjSection → ℕ → Block m → Type 0
  Ready n s sa b =
      (v : VisitedAddresses)
      → mark sa b.address (b.executor).visited ≡ ok v
      → rank s v b.address < n

  rank-lt :
      (s : ObjSection) (sa : ℕ) (a a' : SectionAddress) (v v' : VisitedAddresses)
      → a.address + 4 ≤ data_end s
      → mark sa a' v ≡ ok v'
      → (a'.address ≡ a.address + 4) ⊎ (is_visited sa a' v ≡ ok false)
      → rank s v' a' < rank s v a
  rank-lt s sa a a' v v' inside marked (inl e) =
      let le = mul-le-mul_right (suc (data_end s)) (unvisited-mark_le sa a' v marked) in omega arith
  rank-lt s sa a a' v v' inside marked (inr new) =
      let le = mul-le-mul_right (suc (data_end s)) (unvisited-mark_lt sa a' v marked new) in
      omega arith

  round-Ready :
      (n : ℕ) (s : ObjSection) (sa : ℕ) (b b' : Block m)
      → Ready (suc n) s sa b
      → round m s sa b ≡ next b'
      → Ready n s sa b'
  round-Ready n s sa b b' ready h v' marked' =
      let (v, marked, inside, on) = round-next s sa b {b' = b'} h in
      let lt =
        rank-lt s sa b.address b'.address v v' inside
          (subst (λ w. mark sa b'.address w ≡ ok v') on.0 marked') on.1 in
      omega (arith, ready v marked, lt)

  abbrev Ends : ℕ → ObjSection → ℕ → Block m → Type 0
  Ends fuel s sa b =
      (e : Executor VM) × (c : C) × (r : Exec (BlockEnd R)) × (block m fuel s sa b ≡ some (e, c, r))

  pub Round-cases :
      (x : Round m)
      → ((e : Executor VM) × (c : C) × (r : Exec (BlockEnd R)) × (x ≡ ended e c r))
        ⊎ ((b' : Block m) × (x ≡ next b'))
  Round-cases (ended e c r) = inl (e, c, r, refl)
  Round-cases (next b') = inr (b', refl)

  -- With enough fuel a block ends.
  block_returns :
      (n : ℕ) (s : ObjSection) (sa : ℕ) (b : Block m) → Ready n s sa b → Ends (suc n) s sa b
  unfolding block
  block_returns zero s sa b ready = elim (Round-cases (round m s sa b)) [
    | inl (e, c, r, h) ↦ (e, c, r, rw (h, block))
    | inr (b', h) ↦
        let (v, marked, _, _) = round-next s sa b {b' = b'} h in
        absurd (omega (arith, ready v marked))
  ]
  block_returns (suc n) s sa b ready = elim (Round-cases (round m s sa b)) [
    | inl (e, c, r, h) ↦ (e, c, r, rw (h, block))
    | inr (b', h) ↦
        let (e, c, r, rest) = block_returns n s sa b' (round-Ready n s sa b b' ready h) in
        (e, c, r, rw (h, block) rest)
  ]

  -- The fuel that `run` gives is enough.
  pub block_fuel_returns :
      (s : ObjSection) (sa : ℕ) (b : Block m) → Ends (block_fuel s (b.executor).visited) s sa b
  block_fuel_returns s sa b =
      let v₀ = (b.executor).visited in
      block_returns (unvisited v₀ * suc (data_end s) + suc (data_end s)) s sa b (λ v marked.
        let le = mul-le-mul_right (suc (data_end s)) (unvisited-mark_le sa b.address v₀ marked) in
        omega arith)
