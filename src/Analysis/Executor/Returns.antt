-- ===== src/Analysis/Executor/Returns.antt =====
-- `run` returns, whatever the callback answers and pushes.
use decomp_toolkit.Prelude.{
  ℕ, zero, suc, ◌%◌, ◌^◌, ◌<◌, ◌≡◌, ◌⊎◌, refl, false, List, [], ◌∷◌, Option, some, none, length, ok,
  err, panic, arith, Option-cases, Result-cases, inl, inr,
}
use decomp_toolkit.Obj.Sections.{ObjSection}
use decomp_toolkit.Analysis.Executor.{Exec, VisitedAddresses, is_visited, VmState, Executor, pop}
use decomp_toolkit.Analysis.Executor.Run.{
  Program, unvisited, block_fuel, broke, returned, block, Entry, refused, skipped, entered, enter,
  start, run,
}
use decomp_toolkit.Analysis.Executor.Visits.{unvisited-mark_le, unvisited-mark_lt}
use decomp_toolkit.Analysis.Executor.Blocks.{block_fuel_returns}
use decomp_toolkit.Analysis.Executor.Marks.{block-broke}

length-pop :
    (VM : Type 0) (xs : List (VmState VM)) {top : VmState VM} {rest : List (VmState VM)}
    → pop VM xs ≡ some (top, rest)
    → length xs ≡ suc (length rest)
length-pop VM [] h = absurd (cc h)
length-pop VM (x ∷ []) h = ground arith
length-pop VM (x ∷ (y ∷ ys)) h = elim (Option-cases (pop VM (y ∷ ys))) [
  | inl e ↦ absurd (ground arith)
  | inr ((top, rest), e) ↦ let ih = length-pop VM (y ∷ ys) e in ground arith
]

module _ (m : Program) where
  open m use {VM, C, R}

  pub Entry-cases :
      (x : Entry m)
      → ((r : Exec (Option R)) × (x ≡ refused r))
        ⊎ ((x ≡ skipped) ⊎ ((s : ObjSection) × (x ≡ entered s)))
  Entry-cases (refused r) = inl (r, refl)
  Entry-cases skipped = inr (inl refl)
  Entry-cases (entered s) = inr (inr (s, refl))

  -- A block is entered only at an address that is not visited.
  enter-new :
      (state : VmState VM) (visited : VisitedAddresses) {s : ObjSection}
      → enter m state visited ≡ entered s
      → is_visited (s.address % 2 ^ 32) state.address visited ≡ ok false
  unfolding enter
  enter-new state visited h = ground arith

  abbrev HasResult : Executor VM → C → Type 0
  HasResult e c =
      (fuel : ℕ) × (e' : Executor VM) × (c' : C) × (r : Exec (Option R)) × (run m fuel e c
        ≡ some (e', c', r))

  -- A block that breaks has visited its first address.
  fewer_unvisited :
      (n : ℕ) (s : ObjSection) (state : VmState VM) (e : Executor VM) (c : C) (e' : Executor VM)
      (c' : C)
      → unvisited e.visited < suc n
      → is_visited (s.address % 2 ^ 32) state.address e.visited ≡ ok false
      → block m (block_fuel s e.visited) s (s.address % 2 ^ 32) (start m state e c)
        ≡ some (e', c', ok broke)
      → unvisited e'.visited < n
  fewer_unvisited n s state e c e' c' h new ends =
      block-broke m (λ v. unvisited v < n)
        (λ sa a v v' marked lt. omega (arith, unvisited-mark_le sa a v marked)) _ s
        (s.address % 2 ^ 32) (start m state e c)
        (λ v marked.
          omega (arith, unvisited-mark_lt (s.address % 2 ^ 32) state.address e.visited marked new))
        ends

  run_returns_within :
      (n k : ℕ) (e : Executor VM) (c : C)
      → unvisited e.visited < n
      → length e.vm_stack < k
      → HasResult e c
  unfolding run
  run_returns_within zero k e c h l = absurd (omega arith)
  run_returns_within (suc n) zero e c h l = absurd (omega arith)
  run_returns_within (suc n) (suc k) e c h l = elim (Option-cases (pop VM e.vm_stack)) [
    | inl none_left ↦ (1, e, c, ok none, rw (none_left, run))
    | inr ((state, rest), popped) ↦
        let e₁ : Executor VM = record e { vm_stack = rest } in
        elim (Entry-cases (enter m state e.visited)) [
          | inl (r, entry) ↦ (1, e₁, c, r, rw (popped, run, entry))
          | inr (inl entry) ↦
              let (fuel, e', c', r, eq) =
                run_returns_within (suc n) k e₁ c h
                  (omega (arith, length-pop VM e.vm_stack popped)) in
              (suc fuel, e', c', r, rw (popped, run, entry) eq)
          | inr (inr (s, entry)) ↦
              let b = start m state e₁ c in
              let (e', c', r, ends) = block_fuel_returns m s (s.address % 2 ^ 32) b in
              elim (Result-cases r) [
                | inl (broke, eq) ↦
                    let ends' = rw eq at ends in
                    let fewer =
                      fewer_unvisited n s state e₁ c e' c' h (enter-new state e.visited entry)
                        ends' in
                    let (fuel, e'', c'', r'', last) =
                      run_returns_within n (suc (length e'.vm_stack)) e' c' fewer (omega arith) in
                    (suc fuel, e'', c'', r'', rw (popped, run, entry, ends') last)
                | inl (returned x, eq) ↦ (1, e', c', ok x, rw (popped, run, entry, rw eq at ends))
                | inr (inl (x, eq)) ↦ (1, e', c', err x, rw (popped, run, entry, rw eq at ends))
                | inr (inr eq) ↦ (1, e', c', panic, rw (popped, run, entry, rw eq at ends))
              ]
        ]
  ]

  -- Whatever the program, the callback and the stack are, there is a number of rounds after which
  -- `run` has returned, failed or panicked.
  pub run_returns :
      (e : Executor VM) (c : C)
      → (fuel : ℕ) × (e' : Executor VM) × (c' : C) × (r : Exec (Option R)) × (run m fuel e c
          ≡ some (e', c', r))
  run_returns e c =
      run_returns_within (suc (unvisited e.visited)) (suc (length e.vm_stack)) e c (omega arith)
        (omega arith)
