-- ===== src/Tests/LinkOrder.antt =====
-- The order of two units, of which the one behind has the lower address.
use decomp_toolkit.Prelude.{
  Bool, true, false, ◌||◌, ◌&&◌, ◌==◌, ==_iff, sym, get_or, if◌then◌else◌, Bool-cases, inl, inr,
  arith, some, ok, ℕ, ◌-◌, ◌*◌, ◌≡◌, refl, List, [], ◌∷◌, sort_by_key, insert_by_key,
}
use mathlib.Core.List.{Memᴰ}
use decomp_toolkit.Util.Split.LinkOrder.{Graph, Keys, sort_units, propagate, lower_by}
use decomp_toolkit.Util.Split.Edges.{Edges, Sorted, topological, cyclic, cycle_edges, sort_loop}
use decomp_toolkit.Util.Split.Edges.Breaks.{IsCycle, sort_loop_returns}
use decomp_toolkit.Util.Split.LinkOrder.Respects.{Before, sort_units-Before}

abbrev graph : Graph
graph = (1 ∷ []) ∷ ([] ∷ ([] ∷ []))

abbrev addresses : Keys
addresses i = 8192 - 1024 * i

ordered : sort_units graph (0 ∷ (1 ∷ (2 ∷ []))) addresses ≡ 2 ∷ (0 ∷ (1 ∷ []))
unfolding sort_units propagate lower_by sort_by_key insert_by_key
ordered = refl

sort_units-Before_example : Before 0 1 (sort_units graph (0 ∷ (1 ∷ (2 ∷ []))) addresses)
sort_units-Before_example =
    sort_units-Before graph (0 ∷ (1 ∷ (2 ∷ []))) addresses 0 1
      ((Memᴰ.head refl, tt), (refl, (refl, tt)), (tt, (refl, tt), (tt, tt, tt))) (Memᴰ.head refl)
      (Memᴰ.head refl)

abbrev has : ℕ → List ℕ → Bool
has v [] = false
has v (x ∷ xs) = x == v || has v xs

mem-has : (v : ℕ) (xs : List ℕ) → has v xs ≡ true → Memᴰ v xs
mem-has v [] h = absurd (cc)
mem-has v (x ∷ xs) h = elim (Bool-cases (x == v)) [
  | inl t ↦ Memᴰ.head (sym ((==_iff x v).0 t))
  | inr f ↦ Memᴰ.tail (mem-has v xs (rw f at h))
]

abbrev has_two_cycle : Graph → Bool
has_two_cycle graph = has 1 (get_or graph 0 []) && has 0 (get_or graph 1 [])

-- A sort of two units, which finds the cycle of two edges.
abbrev toposort : Graph → Sorted
toposort graph = if has_two_cycle graph then cyclic (0 ∷ (1 ∷ [])) else topological (0 ∷ (1 ∷ []))

toposort-IsCycle :
    (graph : Graph) (cycle : List ℕ) → toposort graph ≡ cyclic cycle → IsCycle graph cycle
unfolding cycle_edges
toposort-IsCycle graph cycle h = elim (Bool-cases (has_two_cycle graph)) [
  | inl t ↦
      let found : cyclic (0 ∷ (1 ∷ [])) ≡ cyclic cycle = (rw t at h) in
      let same : 0 ∷ (1 ∷ []) ≡ cycle = (cc) in
      let there : has 1 (get_or graph 0 []) ≡ true = (ground arith) in
      let back : has 0 (get_or graph 1 []) ≡ true = (ground arith) in
      rw (← same) (mem-has 1 (get_or graph 0 []) there, (mem-has 0 (get_or graph 1 []) back, tt))
  | inr f ↦ let other : topological (0 ∷ (1 ∷ [])) ≡ cyclic cycle = (rw f at h) in absurd (cc)
]

abbrev two_cycle : Edges
two_cycle = record { graph = (1 ∷ []) ∷ ((0 ∷ []) ∷ []); cross_boundary = (1, 0) ∷ [] }

sort_loop_returns_example :
    (graph : Graph) × (units : List ℕ) × (sort_loop toposort 3 two_cycle ≡ some (ok (graph, units)))
    × (toposort graph ≡ topological units)
sort_loop_returns_example = sort_loop_returns toposort toposort-IsCycle 3 two_cycle (omega arith)
