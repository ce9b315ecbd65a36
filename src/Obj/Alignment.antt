-- ===== src/Obj/Alignment.antt =====
-- `ObjSplit::alignment` of src/obj/splits.rs, on the architecture and the symbols of the object.
use decomp_toolkit.Prelude.{
  ℕ, max, Bool, ◌&&◌, List, [], ◌∷◌, none, some, ltb, leb, if◌then◌else◌, length, filter, Result,
  ok, panic, ◌>>=◌,
}
use decomp_toolkit.Obj.Kinds.{ObjArchitecture}
use decomp_toolkit.Obj.Splits.{ObjSplit}
use decomp_toolkit.Obj.Sections.{ObjSection, default_section_align}
use decomp_toolkit.Obj.Symbols.Symbol.{ObjSymbol}
use decomp_toolkit.Obj.Symbols.Table.{Error, ObjSymbols, for_section_range}

-- The alignments that the symbols state.
abbrev pub stated_aligns : List (ℕ × ObjSymbol) → List ℕ
stated_aligns [] = []
stated_aligns ((_, symbol) ∷ rest) = elim symbol.align [
  | none ↦ stated_aligns rest
  | some align ↦ align ∷ stated_aligns rest
]

-- `max().unwrap_or(default)`
abbrev pub max_or : ℕ → List ℕ → ℕ
max_or default [] = default
max_or default (a ∷ []) = a
max_or default (a ∷ (b ∷ rest)) = max a (max_or default (b ∷ rest))

abbrev pub is_sized : ℕ × ObjSymbol → Bool
is_sized e = (e.1).size_known && ltb 0 (e.1).size

-- `BTreeMap::range` panics where the start is behind the end, if the section has a map of symbols.
unfoldable pub alignment :
    ObjArchitecture → ObjSymbols → ℕ → ObjSection → ℕ → ObjSplit → Result Error ℕ
alignment architecture symbols section_index section split_addr split =
    let default_align = default_section_align architecture section in
    elim split.align [
      | some align ↦ ok align
      | none ↦
          if ltb section_index (length symbols.by_section) && ltb split.end split_addr
          then panic
          else (do
            found ←
                for_section_range section_index (λ a. leb split_addr a && ltb a split.end) symbols
            ok (max (max_or default_align (stated_aligns (filter is_sized found))) default_align))
    ]
