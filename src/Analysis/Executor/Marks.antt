-- ===== src/Analysis/Executor/Marks.antt =====
-- What holds of the visited addresses through a block, where marking an address keeps it.
use decomp_toolkit.Prelude.{
  ℕ, zero, suc, ◌≡◌, ◌≢◌, sym, ap, ◌∙◌, ◌⊎◌, some, none, ok, arith, Result-cases, inl, inr,
}
use decomp_toolkit.Obj.Addresses.{SectionAddress}
use decomp_toolkit.Obj.Sections.{ObjSection}
use decomp_toolkit.Analysis.Executor.{
  Exec, VisitedAddresses, mark, read_word, ExecCbResult, continue, jump, end_block, end, Executor,
  Answer,
}
use decomp_toolkit.Analysis.Executor.Run.{
  Program, BlockEnd, broke, Block, ended, push_all, follow, respond, answer, execute, round, block,
}
use decomp_toolkit.Analysis.Executor.Blocks.{visited-push_all, round-next, Round-cases}
use mathlib.Core.Path.{subst}

module _ (m : Program) where
  open m use {VM, C, R}

  follow-ended :
      (sa : ℕ) (b : Block m) (x : ExecCbResult R) {e : Executor VM} {c : C} {r : Exec (BlockEnd R)}
      → follow m sa b x ≡ ended e c r
      → e.visited ≡ (b.executor).visited
  unfolding follow
  follow-ended sa b continue h = ground arith
  follow-ended sa b (jump addr) h = ground arith
  follow-ended sa b end_block h = ground arith
  follow-ended sa b (end x) h = ground arith

  respond-ended :
      (sa : ℕ) (b : Block m) (a : Answer VM C R) {e : Executor VM} {c : C} {r : Exec (BlockEnd R)}
      → respond m sa b a ≡ ended e c r
      → e.visited ≡ (b.executor).visited
  unfolding respond
  respond-ended sa b a {e} {c} {r} h = elim (Result-cases a.result) [
    | inl (x, eq) ↦
        follow-ended sa
          (record b { vm = a.vm; executor = push_all m a.pushes b.executor; captured = a.captured })
          x {e = e} {c = c} {r = r} (rw (eq, respond) at h)
        ∙ visited-push_all m a.pushes b.executor
    | inr (inl (x, eq)) ↦ ground (arith, visited-push_all m a.pushes b.executor)
    | inr (inr eq) ↦ ground (arith, visited-push_all m a.pushes b.executor)
  ]

  execute-ended :
      (s : ObjSection) (sa : ℕ) (b : Block m) {e : Executor VM} {c : C} {r : Exec (BlockEnd R)}
      → execute m s sa b ≡ ended e c r
      → e.visited ≡ (b.executor).visited
  unfolding execute
  execute-ended s sa b {e} {c} {r} h = elim (Result-cases (read_word s (b.address).address)) [
    | inl (none, eq) ↦ ground arith
    | inl (some word, eq) ↦
        respond-ended sa b (answer m s b word) {e = e} {c = c} {r = r} (rw (eq, execute) at h)
    | inr (inl (x, eq)) ↦ ground arith
    | inr (inr eq) ↦ ground arith
  ]

  -- A round that leaves the loop has marked the address, or failed to.
  round-ended :
      (s : ObjSection) (sa : ℕ) (b : Block m) {e : Executor VM} {c : C} {r : Exec (BlockEnd R)}
      → round m s sa b ≡ ended e c r
      → (mark sa b.address (b.executor).visited ≡ ok e.visited)
        ⊎ ((e.visited ≡ (b.executor).visited) × ((x : BlockEnd R) → r ≢ ok x))
  unfolding round
  round-ended s sa b {e} {c} {r} h = elim (Result-cases (mark sa b.address (b.executor).visited)) [
    | inl (v, eq) ↦ inl (
        eq
        ∙ ap ok (
            sym (
              execute-ended s sa (record b { executor = record b.executor { visited = v } }) {e = e}
                {c = c} {r = r} (rw (eq, round) at h))))
    | inr (inl (x, eq)) ↦ inr (ground arith, λ y p. ground arith)
    | inr (inr eq) ↦ inr (ground arith, λ y p. ground arith)
  ]

-- Marking keeps it.
abbrev pub IsKept : (VisitedAddresses → Type 0) → Type 0
IsKept P =
    (sa : ℕ) (a : SectionAddress) (v v' : VisitedAddresses) → mark sa a v ≡ ok v' → P v → P v'

module _ (m : Program) (P : VisitedAddresses → Type 0) (kept : IsKept P) where
  open m use {VM, C, R}

  round-IsKept :
      (s : ObjSection) (sa : ℕ) (b : Block m) {e : Executor VM} {c : C} {r : Exec (BlockEnd R)}
      → P (b.executor).visited
      → round m s sa b ≡ ended e c r
      → P e.visited
  round-IsKept s sa b {e} {c} {r} p h = elim (round-ended m s sa b {e = e} {c = c} {r = r} h) [
    | inl marked ↦ kept sa b.address _ e.visited marked p
    | inr (same, _) ↦ subst P (sym same) p
  ]

  -- A block keeps it.
  pub block-IsKept :
      (fuel : ℕ) (s : ObjSection) (sa : ℕ) (b : Block m) {e : Executor VM} {c : C}
      {r : Exec (BlockEnd R)}
      → P (b.executor).visited
      → block m fuel s sa b ≡ some (e, c, r)
      → P e.visited
  unfolding block
  block-IsKept zero s sa b p h = absurd (cc)
  block-IsKept (suc fuel) s sa b {e} {c} {r} p h = elim (Round-cases m (round m s sa b)) [
    | inl (e₁, c₁, r₁, eq) ↦
        let same : e₁ ≡ e = ground arith in
        subst (λ (z : Executor VM). P z.visited) same
          (round-IsKept s sa b {e = e₁} {c = c₁} {r = r₁} p eq)
    | inr (b', eq) ↦
        let (v, marked, _, on) = round-next m s sa b {b' = b'} eq in
        block-IsKept fuel s sa b' {e = e} {c = c} {r = r}
          (subst P (sym on.0) (kept sa b.address _ v marked p)) (rw (eq, block) at h)
  ]

  -- A block that breaks has it, if the first mark gives it.
  pub block-broke :
      (fuel : ℕ) (s : ObjSection) (sa : ℕ) (b : Block m) {e : Executor VM} {c : C}
      → ((v : VisitedAddresses) → mark sa b.address (b.executor).visited ≡ ok v → P v)
      → block m fuel s sa b ≡ some (e, c, ok broke)
      → P e.visited
  unfolding block
  block-broke zero s sa b p h = absurd (cc)
  block-broke (suc fuel) s sa b {e} {c} p h = elim (Round-cases m (round m s sa b)) [
    | inl (e₁, c₁, r₁, eq) ↦
        let same : e₁ ≡ e = ground arith in
        let done : r₁ ≡ ok broke = ground arith in
        subst (λ (z : Executor VM). P z.visited) same
          (elim (round-ended m s sa b {e = e₁} {c = c₁} {r = r₁} eq) [
            | inl marked ↦ p e₁.visited marked
            | inr (_, failed) ↦ absurd (failed broke done)
          ])
    | inr (b', eq) ↦
        let (v, marked, _, on) = round-next m s sa b {b' = b'} eq in
        block-IsKept fuel s sa b' {e = e} {c = c} {r = ok broke} (subst P (sym on.0) (p v marked))
          (rw (eq, block) at h)
  ]
