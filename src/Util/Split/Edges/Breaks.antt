-- ===== src/Util/Split/Edges/Breaks.antt =====
-- Each round of the search for an order removes an edge.
use decomp_toolkit.Prelude.{
  ℕ, zero, suc, ◌+◌, ◌≤◌, ◌<◌, ◌≡◌, refl, sym, ap, ◌∙◌, Bool, false, not, List, [], ◌∷◌, some, ◌==◌,
  length, filter, find, get_last?, get_or, set, ok, arith, Bool-cases, Option-cases, inl, inr, ◌⊎◌,
  All, ==_refl,
}
use mathlib.Core.List.{Memᴰ}
use mathlib.Core.Path.{subst}
use decomp_toolkit.Util.Split.LinkOrder.{Graph}
use decomp_toolkit.Util.Split.Edges.{
  Edges, Sorted, topological, cyclic, cycle_edges, contains_edge, edge_to_break, break_edge,
  sort_loop,
}

abbrev pub edge_count : Graph → ℕ
edge_count [] = 0
edge_count (vs ∷ graph) = length vs + edge_count graph

abbrev pub HasEdge : Graph → ℕ × ℕ → Type 0
HasEdge graph e = Memᴰ e.1 (get_or graph e.0 [])

-- What the sort is documented to return for a graph with a cycle: its units, one after the other
-- along edges of the graph.
abbrev pub IsCycle : Graph → List ℕ → Type 0
IsCycle graph [] = 1 ≤ 0
IsCycle graph (first ∷ rest) = All (HasEdge graph) (cycle_edges first (first ∷ rest))

filter_length : (p : ℕ → Bool) (xs : List ℕ) → length (filter p xs) ≤ length xs
filter_length p [] = omega arith
filter_length p (x ∷ xs) = elim (Bool-cases (p x)) [
  | inl t ↦ rw t (let ih = filter_length p xs in omega arith)
  | inr f ↦ rw f (let ih = filter_length p xs in omega arith)
]

filter_mem_lt :
    (p : ℕ → Bool) (v : ℕ) (xs : List ℕ)
    → Memᴰ v xs
    → p v ≡ false
    → length (filter p xs) < length xs
filter_mem_lt p v [] m h = elim m [ ]
filter_mem_lt p v (x ∷ xs) (Memᴰ.head e) h =
    let f : p x ≡ false = (ap p (sym e) ∙ h) in rw f (let le = filter_length p xs in omega arith)
filter_mem_lt p v (x ∷ xs) (Memᴰ.tail m) h = elim (Bool-cases (p x)) [
  | inl t ↦ rw t (let ih = filter_mem_lt p v xs m h in omega arith)
  | inr f ↦ rw f (let ih = filter_mem_lt p v xs m h in omega arith)
]

edge_count-set :
    (graph : Graph) (u : ℕ) (vs : List ℕ)
    → length vs < length (get_or graph u [])
    → edge_count (set graph u vs) < edge_count graph
edge_count-set [] u vs lt = absurd (omega arith)
edge_count-set (ws ∷ graph) zero vs lt = omega arith
edge_count-set (ws ∷ graph) (suc u) vs lt = let ih = edge_count-set graph u vs lt in omega arith

break_edge_lt :
    (edge : ℕ × ℕ) (e : Edges)
    → HasEdge e.graph edge
    → edge_count (break_edge edge e).graph < edge_count e.graph
unfolding break_edge
break_edge_lt (from, to) e m =
    let gone : not (to == to) ≡ false = (ap not (==_refl to)) in
    edge_count-set e.graph from (filter (λ n. not (n == to)) (get_or e.graph from []))
      (filter_mem_lt (λ n. not (n == to)) to (get_or e.graph from []) m gone)

find-All :
    {A : Type 0} (P : A → Type 0) (p : A → Bool) (xs : List A) {x : A}
    → All P xs
    → find p xs ≡ some x
    → P x
find-All P p [] h e = absurd (cc)
find-All P p (y ∷ ys) {x} h e = elim (Bool-cases (p y)) [
  | inl t ↦ let found : some y ≡ some x = (rw t at e) in let same : y ≡ x = (cc) in subst P same h.0
  | inr f ↦ find-All P p ys h.1 (rw f at e)
]

get_last?-All :
    {A : Type 0} (P : A → Type 0) (xs : List A) {x : A} → All P xs → get_last? xs ≡ some x → P x
get_last?-All P [] h e = absurd (cc)
get_last?-All P (y ∷ []) {x} h e = let same : y ≡ x = (cc) in subst P same h.0
get_last?-All P (y ∷ (z ∷ ys)) h e = get_last?-All P (z ∷ ys) h.1 e

edge_to_break-HasEdge :
    (graph : Graph) (cross : List (ℕ × ℕ)) (cycle : List ℕ) {edge : ℕ × ℕ}
    → IsCycle graph cycle
    → edge_to_break cross cycle ≡ some edge
    → HasEdge graph edge
unfolding edge_to_break
edge_to_break-HasEdge graph cross [] h e = absurd (omega arith)
edge_to_break-HasEdge graph cross (first ∷ rest) {edge} h e =
    let edges = cycle_edges first (first ∷ rest) in
    elim (Option-cases (find (contains_edge cross) edges)) [
      | inl n ↦ get_last?-All (HasEdge graph) edges {x = edge} h (rw n at e)
      | inr (x, s) ↦
          let found : some x ≡ some edge = (rw s at e) in
          find-All (HasEdge graph) (contains_edge cross) edges {x = edge} h (s ∙ found)
    ]

Sorted-cases :
    (r : Sorted)
    → ((units : List ℕ) × (r ≡ topological units)) ⊎ ((cycle : List ℕ) × (r ≡ cyclic cycle))
Sorted-cases (topological units) = inl (units, refl)
Sorted-cases (cyclic cycle) = inr (cycle, refl)

last_edge :
    (first u : ℕ) (rest : List ℕ)
    → (edge : ℕ × ℕ) × (get_last? (cycle_edges first (u ∷ rest)) ≡ some edge)
unfolding cycle_edges
last_edge first u [] = ((u, first), refl)
last_edge first u (v ∷ []) = ((v, first), refl)
last_edge first u (v ∷ (w ∷ rest)) = last_edge first v (w ∷ rest)

edge_to_break-cycle :
    (graph : Graph) (cross : List (ℕ × ℕ)) (cycle : List ℕ)
    → IsCycle graph cycle
    → (edge : ℕ × ℕ) × (edge_to_break cross cycle ≡ some edge)
unfolding edge_to_break
edge_to_break-cycle graph cross [] h = absurd (omega arith)
edge_to_break-cycle graph cross (first ∷ rest) h =
    elim (Option-cases (find (contains_edge cross) (cycle_edges first (first ∷ rest)))) [
      | inl n ↦ let (edge, l) = last_edge first first rest in (edge, rw n l)
      | inr (edge, s) ↦ (edge, rw s refl)
    ]

-- Where every cycle that the topological sort finds has a unit and runs along edges of the graph,
-- the loop that breaks cycles returns without a panic, after at most one round more than the graph
-- has edges, a graph with an order that the sort finds for it.
pub sort_loop_returns :
    (toposort : Graph → Sorted)
    → ((graph : Graph) (cycle : List ℕ) → toposort graph ≡ cyclic cycle → IsCycle graph cycle)
    → (rounds : ℕ) (e : Edges) → edge_count e.graph < rounds
    → (graph : Graph) × (units : List ℕ) × (sort_loop toposort rounds e ≡ some (ok (graph, units)))
      × (toposort graph ≡ topological units)
unfolding sort_loop
sort_loop_returns toposort cycles zero e enough = absurd (omega arith)
sort_loop_returns toposort cycles (suc rounds) e enough = elim (Sorted-cases (toposort e.graph)) [
  | inl (units, t) ↦ (e.graph, units, rw (t, sort_loop) refl, t)
  | inr (cycle, t) ↦
      let is_cycle = cycles e.graph cycle t in
      let (edge, b) = edge_to_break-cycle e.graph e.cross_boundary cycle is_cycle in
      let has = edge_to_break-HasEdge e.graph e.cross_boundary cycle {edge = edge} is_cycle b in
      let less = break_edge_lt edge e has in
      let (graph, units, rest, sorted) =
        sort_loop_returns toposort cycles rounds (break_edge edge e) (omega arith) in
      (graph, units, rw (t, b, sort_loop) rest, sorted)
]
