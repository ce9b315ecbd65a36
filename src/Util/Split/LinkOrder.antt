-- ===== src/Util/Split/LinkOrder.antt =====
-- The end of `resolve_link_order` of src/util/split.rs: the units in a topological order of the
-- graph of dependencies are sorted by address. A unit is its index; the index of each unit's name
-- and the topological order of a graph without cycles are made before.
pub mod Respects
use decomp_toolkit.Prelude.{
  ℕ, ◌+◌, ◌-◌, ◌^◌, min, Bool, true, false, List, [], ◌∷◌, ◌++◌, Option, none, some, String, str_eq,
  ◌==◌, ltb, if◌then◌else◌, get_or, find, sort_by_key, map,
}
use decomp_toolkit.Obj.Splits.{ObjSplit}
use decomp_toolkit.Obj.Splits
use decomp_toolkit.Obj.Sections.{ObjSection, all_splits}
use decomp_toolkit.Obj.Info.{ObjInfo, ObjUnit, is_unit_autogenerated}

-- The vector of keys, by the index of the unit; every index that it is read at is a unit's.
abbrev pub Keys : Type 0
Keys = ℕ → ℕ

abbrev pub Graph : Type 0
Graph = List (List ℕ)

-- `key[u] = value` where the value is smaller.
abbrev pub lower : ℕ → ℕ → Keys → Keys
lower u value key i = if u == i then (if ltb value (key u) then value else key u) else key i

-- The address of the first split of each unit.
unfoldable pub first_addresses :
    (String → Option ℕ) → List (ℕ × ObjSection × ℕ × ObjSplit) → Keys → Keys
first_addresses index_of [] key = key
first_addresses index_of ((i, section, addr, split) ∷ rest) key = elim (index_of split.unit) [
  | none ↦ first_addresses index_of rest key
  | some u ↦ first_addresses index_of rest (lower u addr key)
]

-- The loop over the successors of a unit.
unfoldable pub lower_by : ℕ → List ℕ → Keys → Keys
lower_by u [] key = key
lower_by u (v ∷ vs) key = lower_by u vs (lower u (key v) key)

-- The loop over the units from the last one to the first.
unfoldable pub propagate : Graph → List ℕ → Keys → Keys
unfolding lower_by
propagate graph [] key = key
propagate graph (u ∷ units) key = lower_by u (get_or graph u []) (propagate graph units key)

unfoldable pub sort_units : Graph → List ℕ → Keys → List ℕ
unfolding propagate sort_by_key
sort_units graph units key = sort_by_key (propagate graph units key) units

-- The unit of the link order with the name, or a new one.
unfoldable pub unit_named : ObjInfo → String → ObjUnit
unfolding is_unit_autogenerated
unit_named obj name = elim (find (λ (u : ObjUnit). str_eq u.name name) obj.link_order) [
  | some existing ↦ existing
  | none ↦ record {
    name = name;
    autogenerated = is_unit_autogenerated name obj;
    comment_version = none;
    order = none;
  }
]

-- `u64::MAX` is the key of a unit without a split.
unfoldable pub order_units :
    ObjInfo → (String → Option ℕ) → (ℕ → String) → Graph → List ℕ → List ObjUnit
unfolding first_addresses sort_units unit_named
order_units obj index_of name_of graph units =
    let key = first_addresses index_of (all_splits obj.sections) (λ i. 2 ^ 64 - 1) in
    map (λ (u : ℕ). unit_named obj (name_of u)) (sort_units graph units key)
