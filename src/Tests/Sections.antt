-- ===== src/Tests/Sections.antt =====
-- The properties of sections and splits at concrete ones.
use decomp_toolkit.Prelude.{ℕ, ◌≡◌, true, false, [], ◌∷◌, none, ◌==◌, arith, String}
use decomp_toolkit.Prelude.BTreeMap.{IsOrdered}
use decomp_toolkit.Util.Nested.{bucket}
use decomp_toolkit.Obj.Kinds.{initialized_data}
use decomp_toolkit.Obj.Splits.{ObjSplit, ObjSplits}
use decomp_toolkit.Obj.Splits
use decomp_toolkit.Obj.Splits.Order.{IsSorted, push_lem}
use decomp_toolkit.Obj.Sections.{ObjSection}
use mathlib.Core.List.{Perm}

abbrev split_to : String → ℕ → ObjSplit
split_to unit end = record {
  unit = unit;
  end = end;
  align = none;
  common = false;
  autogenerated = false;
  skip = false;
  rename = none;
}

abbrev splits : ObjSplits
splits = (4096, split_to "a.c" 4160 ∷ []) ∷ ((8192, split_to "b.c" 8256 ∷ []) ∷ [])

abbrev data_section : ObjSection
data_section = record {
  name = ".data";
  kind = initialized_data;
  address = 4096;
  size = 8;
  bytes = 1 ∷ 2 ∷ 3 ∷ 4 ∷ 5 ∷ 6 ∷ [];
  align = 4;
  elf_index = 2;
  relocations = [];
  virtual_address = none;
  file_offset = 256;
  section_known = true;
  splits = splits;
  sub_regions = [];
}

push_lem_example :
    IsOrdered (Splits.push 4096 (split_to "c.c" 4128) splits)
    × IsSorted (bucket 4096 (Splits.push 4096 (split_to "c.c" 4128) splits))
    × Perm
        (bucket 4096 (Splits.push 4096 (split_to "c.c" 4128) splits))
        (split_to "c.c" 4128 ∷ bucket 4096 splits)
    × ((j : ℕ)
        → (4096 == j) ≡ false
        → bucket j (Splits.push 4096 (split_to "c.c" 4128) splits) ≡ bucket j splits)
push_lem_example = push_lem 4096 (split_to "c.c" 4128) splits (((omega arith, tt), (tt, tt)))
