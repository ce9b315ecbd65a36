-- ===== src/Util/Split/Edges.antt =====
-- The graph of `resolve_link_order` of src/util/split.rs: the units of the splits, their
-- dependencies by address and by the order that the user sets, and the removal of an edge from each
-- cycle that the topological sort finds. The sort, which is taken from another project, is a
-- parameter.
pub mod Breaks
use decomp_toolkit.Prelude.{
  ℕ, zero, suc, ◌+◌, ◌-◌, ◌%◌, Bool, true, false, not, ◌&&◌, ◌||◌, List, [], ◌∷◌, ◌++◌, Option,
  none, some, String, str_eq, ◌==◌, ltb, leb, if◌then◌else◌, length, filter, find, get_elem?,
  get_last?, get_or, set, min, map, Result, ok, err, panic,
}
use decomp_toolkit.Prelude.BTreeMap.{BTreeMap}
use decomp_toolkit.Prelude.BTreeMap
use decomp_toolkit.Obj.Kinds.{ObjSectionKind, bss, section_kind_eq}
use decomp_toolkit.Obj.Splits.{ObjSplit}
use decomp_toolkit.Obj.Splits
use decomp_toolkit.Obj.Sections.{ObjSection, ObjSubRegion, all_splits}
use decomp_toolkit.Obj.Sections
use decomp_toolkit.Obj.Info.{ObjInfo, ObjUnit}
use decomp_toolkit.Util.Split.LinkOrder.{Graph, order_units}

abbrev pub contains_unit : List String → String → Bool
contains_unit [] name = false
contains_unit (unit ∷ units) name = str_eq unit name || contains_unit units name

-- `index_to_unit`: the units in the order of their first splits.
unfoldable pub units_of : List String → List (ℕ × ObjSection × ℕ × ObjSplit) → List String
units_of units [] = units
units_of units ((i, section, addr, split) ∷ rest) =
    units_of (if contains_unit units split.unit then units else units ++ (split.unit ∷ [])) rest

abbrev pub shift_index : Option ℕ → Option ℕ
shift_index none = none
shift_index (some n) = some (suc n)

-- `unit_to_index_map`
unfoldable pub index_of : List String → String → Option ℕ
index_of [] name = none
index_of (unit ∷ units) name =
    let rest = shift_index (index_of units name) in if str_eq unit name then some 0 else rest

-- The dependencies, and those that are no real constraint.
pub record Edges : Type 0 where
  pub graph : Graph
  pub cross_boundary : List (ℕ × ℕ)

abbrev pub is_bss_region : ObjSubRegion → Bool
is_bss_region r = elim r.kind [ none ↦ false | some kind ↦ section_kind_eq kind bss ]

abbrev pub least : ℕ → List ObjSubRegion → ℕ
least start [] = start
least start (r ∷ rest) = least (min start r.start) rest

abbrev pub init_end_of : ObjSection → List ObjSubRegion → ℕ
init_end_of section [] = section.address + length section.bytes
init_end_of section (r ∷ rest) = least r.start rest

abbrev pub region_at : ObjSection → ℕ → Option ObjSubRegion
region_at section addr =
    find (λ (r : ObjSubRegion). leb r.start addr && ltb addr r.end) section.sub_regions

abbrev pub differ : Option ObjSubRegion → Option ObjSubRegion → Bool
differ (some a) (some b) = not (str_eq a.name b.name)
differ _ _ = false

-- Whether the edge crosses into the tail of zeros, or into another sub-region.
unfoldable pub crosses : ObjSection → ℕ → ℕ → Bool
crosses section a_addr b_addr =
    let init_end = init_end_of section (filter is_bss_region section.sub_regions) in
    (ltb init_end (section.address + section.size) && (ltb a_addr init_end && leb init_end b_addr))
    || differ (region_at section a_addr) (region_at section b_addr)

abbrev pub push_edge : ℕ → ℕ → Graph → Graph
push_edge a b graph = set graph a (get_or graph a [] ++ (b ∷ []))

-- The cross-boundary set is the list of its insertions.
abbrev pub depend : Bool → Option ℕ → Option ℕ → Edges → Result String Edges
depend cross (some a) (some b) e = ok (record {
  graph = push_edge a b e.graph;
  cross_boundary = if cross then (a, b) ∷ e.cross_boundary else e.cross_boundary;
})
depend cross _ _ e = panic

abbrev pub then_edges : (Edges → Result String Edges) → Result String Edges → Result String Edges
then_edges k (ok e) = k e
then_edges k (err name) = err name
then_edges k panic = panic

unfoldable pub pair_edge :
    List String → ObjSection → ℕ × ObjSplit → ℕ × ObjSplit → Edges → Result String Edges
unfolding index_of crosses
pair_edge units section (a_addr, a) (b_addr, b) e =
    if (not a.common && b.common) || str_eq a.unit b.unit
    then ok e
    else depend (crosses section a_addr b_addr) (index_of units a.unit) (index_of units b.unit) e

-- The loop over the neighbours in a section.
unfoldable pub section_edges :
    List String → ObjSection → List (ℕ × ObjSplit) → Edges → Result String Edges
unfolding pair_edge
section_edges units section [] e = ok e
section_edges units section (a ∷ []) e = ok e
section_edges units section (a ∷ (b ∷ rest)) e =
    then_edges (section_edges units section (b ∷ rest)) (pair_edge units section a b e)

abbrev pub skip_first : List (ℕ × ObjSplit) → List (ℕ × ObjSplit)
skip_first [] = []
skip_first (x ∷ xs) = xs

abbrev pub ordered_splits : ObjSection → List (ℕ × ObjSplit)
ordered_splits section =
    if str_eq section.name ".ctors" || str_eq section.name ".dtors"
    then skip_first (Splits.iter section.splits)
    else Splits.iter section.splits

unfoldable pub all_edges : List String → List (ℕ × ObjSection) → Edges → Result String Edges
unfolding section_edges
all_edges units [] e = ok e
all_edges units ((i, section) ∷ rest) e =
    then_edges (all_edges units rest) (section_edges units section (ordered_splits section) e)

-- The units by the order that the user sets, or the name of a unit whose order is taken. An order is
-- an `i32`, as its bit pattern; in ascending order its sign bit is turned.
unfoldable pub user_order : List ObjUnit → BTreeMap String → Result String (BTreeMap String)
user_order [] taken = ok taken
user_order (unit ∷ rest) taken = elim unit.order [
  | none ↦ user_order rest taken
  | some order ↦
      let key = (order + 2147483648) % 4294967296 in
      elim (BTreeMap.get key taken) [
        | none ↦ user_order rest (BTreeMap.insert key unit.name taken)
        | some _ ↦ err unit.name
      ]
]

unfoldable pub user_indexes : List String → BTreeMap String → List ℕ
unfolding index_of
user_indexes units [] = []
user_indexes units ((key, name) ∷ rest) = elim (index_of units name) [
  | none ↦ user_indexes units rest
  | some i ↦ i ∷ user_indexes units rest
]

unfoldable pub user_edges : List ℕ → Graph → Graph
user_edges [] graph = graph
user_edges (a ∷ []) graph = graph
user_edges (a ∷ (b ∷ rest)) graph = user_edges (b ∷ rest) (push_edge a b graph)

-- A topological order, or a cycle.
pub data Sorted : Type 0 where
  topological cyclic : List ℕ → Sorted

-- The edges of a cycle that starts and ends at a unit.
unfoldable pub cycle_edges : ℕ → List ℕ → List (ℕ × ℕ)
cycle_edges first [] = []
cycle_edges first (u ∷ []) = (u, first) ∷ []
cycle_edges first (u ∷ (v ∷ rest)) = (u, v) ∷ cycle_edges first (v ∷ rest)

abbrev pub same_edge : ℕ × ℕ → ℕ × ℕ → Bool
same_edge (a, b) (c, d) = a == c && b == d

abbrev pub contains_edge : List (ℕ × ℕ) → ℕ × ℕ → Bool
contains_edge [] e = false
contains_edge (x ∷ xs) e = same_edge x e || contains_edge xs e

abbrev pub or_last : List (ℕ × ℕ) → Option (ℕ × ℕ) → Option (ℕ × ℕ)
or_last edges (some e) = some e
or_last edges none = get_last? edges

-- The edge to remove from a cycle; an empty one panics.
unfoldable pub edge_to_break : List (ℕ × ℕ) → List ℕ → Option (ℕ × ℕ)
unfolding cycle_edges
edge_to_break cross_boundary [] = none
edge_to_break cross_boundary (first ∷ rest) =
    let edges = cycle_edges first (first ∷ rest) in
    or_last edges (find (contains_edge cross_boundary) edges)

unfoldable pub break_edge : ℕ × ℕ → Edges → Edges
break_edge (from, to) e = record {
  graph = set e.graph from (filter (λ n. not (n == to)) (get_or e.graph from []));
  cross_boundary = filter (λ x. not (same_edge x (from, to))) e.cross_boundary;
}

-- The loop until there is no cycle; there is no result where the rounds do not suffice.
unfoldable pub sort_loop : (Graph → Sorted) → ℕ → Edges → Option (Result String (Graph × List ℕ))
unfolding edge_to_break break_edge
sort_loop toposort zero e = none
sort_loop toposort (suc rounds) e = elim (toposort e.graph) [
  | topological units ↦ some (ok (e.graph, units))
  | cyclic cycle ↦ elim (edge_to_break e.cross_boundary cycle) [
    | none ↦ some panic
    | some edge ↦ sort_loop toposort rounds (break_edge edge e)
  ]
]

abbrev pub order_sorted :
    ObjInfo
    → List String
    → Option (Result String (Graph × List ℕ))
    → Option (Result String (List ObjUnit))
order_sorted obj units none = none
order_sorted obj units (some (ok (graph, sorted))) =
    some (ok (order_units obj (index_of units) (λ i. get_or units i "") graph sorted))
order_sorted obj units (some (err name)) = some (err name)
order_sorted obj units (some panic) = some panic

abbrev pub with_user :
    (Graph → Sorted)
    → ℕ
    → ObjInfo
    → List String
    → Edges
    → Result String (BTreeMap String)
    → Option (Result String (List ObjUnit))
with_user toposort rounds obj units e (ok taken) =
    let graph = user_edges (user_indexes units taken) e.graph in
    order_sorted obj units (sort_loop toposort rounds (record e { graph = graph }))
with_user toposort rounds obj units e (err name) = some (err name)
with_user toposort rounds obj units e panic = some panic

unfoldable pub resolve_link_order :
    (Graph → Sorted) → ℕ → ObjInfo → Option (Result String (List ObjUnit))
unfolding units_of all_edges user_order user_edges user_indexes sort_loop
resolve_link_order toposort rounds obj =
    let units = units_of [] (all_splits obj.sections) in
    let none_yet : Edges = record { graph = map (λ u. []) units; cross_boundary = [] } in
    elim (all_edges units (Sections.iter obj.sections) none_yet) [
      | ok e ↦ with_user toposort rounds obj units e (user_order obj.link_order [])
      | err name ↦ some (err name)
      | panic ↦ some panic
    ]
