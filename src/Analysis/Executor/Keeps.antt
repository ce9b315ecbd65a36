-- ===== src/Analysis/Executor/Keeps.antt =====
-- What a run has visited stays visited.
use decomp_toolkit.Prelude.{
  ℕ, zero, suc, ◌%◌, ◌^◌, ◌≡◌, true, some, ok, arith, Option-cases, Result-cases, inl, inr, Option,
}
use decomp_toolkit.Obj.Addresses.{SectionAddress}
use decomp_toolkit.Analysis.Executor.{Exec, is_visited, Executor, pop}
use decomp_toolkit.Analysis.Executor.Run.{
  Program, block_fuel, broke, returned, enter, start, block, run,
}
use decomp_toolkit.Analysis.Executor.Visits.{is_visited-mark}
use decomp_toolkit.Analysis.Executor.Marks.{block-IsKept}
use decomp_toolkit.Analysis.Executor.Returns.{Entry-cases}

module _ (m : Program) (sa : ℕ) (a : SectionAddress) where
  open m use {VM, C, R}

  -- An address that is visited is so after the run, however it ends.
  pub is_visited-run :
      (fuel : ℕ) (e : Executor VM) (c : C) {e' : Executor VM} {c' : C} {r : Exec (Option R)}
      → is_visited sa a e.visited ≡ ok true
      → run m fuel e c ≡ some (e', c', r)
      → is_visited sa a e'.visited ≡ ok true
  unfolding run
  is_visited-run zero e c p h = absurd (cc)
  is_visited-run (suc fuel) e c {e'} {c'} {r} p h = elim (Option-cases (pop VM e.vm_stack)) [
    | inl none_left ↦ ground arith
    | inr ((state, rest), popped) ↦
        let e₁ : Executor VM = record e { vm_stack = rest } in
        elim (Entry-cases m (enter m state e.visited)) [
          | inl (x, entry) ↦ ground arith
          | inr (inl entry) ↦
              is_visited-run fuel e₁ c {e' = e'} {c' = c'} {r = r} p (rw (popped, run, entry) at h)
          | inr (inr (s, entry)) ↦
              elim (Option-cases
                (block m (block_fuel s e.visited) s (s.address % 2 ^ 32) (start m state e₁ c))) [
                  | inl none_left ↦ absurd (ground arith)
                  | inr ((e₂, c₂, r₂), ends) ↦
                      let kept =
                        block-IsKept m (λ v. is_visited sa a v ≡ ok true) (is_visited-mark sa a)
                          (block_fuel s e.visited) s (s.address % 2 ^ 32) (start m state e₁ c)
                          {e = e₂} {c = c₂} {r = r₂} p ends in
                      elim (Result-cases r₂) [
                        | inl (broke, eq) ↦
                            is_visited-run fuel e₂ c₂ {e' = e'} {c' = c'} {r = r} kept
                              (rw (popped, run, entry, ends, eq) at h)
                        | inl (returned x, eq) ↦ ground arith
                        | inr (inl (x, eq)) ↦ ground arith
                        | inr (inr eq) ↦ ground arith
                      ]
                ]
        ]
  ]
