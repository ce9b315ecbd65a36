-- ===== src/Util/Rel/Order.antt =====
-- The order in which `write_rel` of src/util/rel.rs lays the relocations out, and those that it
-- leaves out. Whether a section of the ELF file is permitted, and whether there is such a section,
-- comes from the `object` crate and is a parameter.
pub mod Ascending
pub mod Kept
pub mod Selected
pub mod Sorted
pub mod Returns
use decomp_toolkit.Prelude.{
  ℕ, Bool, true, false, ◌&&◌, List, [], ◌∷◌, Option, none, some, ◌==◌, ltb, leb, if◌then◌else◌,
  Result, ok, panic, ◌>>=◌,
}
use decomp_toolkit.Obj.Relocations.{ObjRelocKind, ppc_rel24, ppc_rel14}
use decomp_toolkit.Obj.Info.{RelReloc}
use decomp_toolkit.Util.Rel.Relocs.{RelError}

-- `core::cmp::Ordering`
pub data Ordering : Type 0 where
  less equal greater : Ordering

abbrev pub cmp : ℕ → ℕ → Ordering
cmp a b = if ltb a b then less else if a == b then equal else greater

abbrev pub then_by : Ordering → Ordering → Ordering
then_by less o = less
then_by equal o = o
then_by greater o = greater

-- From version 3 on, module 0 comes last and the module itself before it.
unfoldable pub compare_modules : ℕ → ℕ → ℕ → ℕ → Ordering
compare_modules version own a b =
    if leb 3 version
    then (if a == 0
        then (if b == 0 then equal else greater)
        else if a == own
        then (if b == 0 then less else if b == own then equal else greater)
        else if b == 0
        then less
        else if b == own
        then less
        else cmp a b)
    else cmp a b

unfoldable pub compare_relocs : ℕ → ℕ → RelReloc → RelReloc → Ordering
unfolding compare_modules
compare_relocs version own a b =
    then_by (compare_modules version own a.module_id b.module_id)
      (then_by (cmp a.section b.section) (cmp a.address b.address))

-- Rust's `sort_by`, which is stable: equal elements stay in their order.
abbrev pub is_greater : Ordering → Bool
is_greater less = false
is_greater equal = false
is_greater greater = true

unfoldable pub insert_reloc : ℕ → ℕ → RelReloc → List RelReloc → List RelReloc
unfolding compare_relocs
insert_reloc version own r [] = r ∷ []
insert_reloc version own r (x ∷ xs) =
    let behind = insert_reloc version own r xs in
    if is_greater (compare_relocs version own r x) then x ∷ behind else r ∷ (x ∷ xs)

unfoldable pub sort_relocs : ℕ → ℕ → List RelReloc → List RelReloc
unfolding insert_reloc
sort_relocs version own [] = []
sort_relocs version own (r ∷ rs) = insert_reloc version own r (sort_relocs version own rs)

unfoldable pub reloc_can_be_applied : RelReloc → Bool
reloc_can_be_applied r = elim r.kind [ ppc_rel24 ↦ true | ppc_rel14 ↦ true | _ ↦ false ]

unfoldable pub skip_reloc : ℕ → RelReloc → Bool
unfolding reloc_can_be_applied
skip_reloc own r = r.module_id == own && (r.section == r.target_section && reloc_can_be_applied r)

-- The relocations that stay and those that are applied to the data; a section that the file has not
-- panics.
unfoldable pub retain :
    (ℕ → Option Bool) → ℕ → List RelReloc → Result RelError (List RelReloc × List RelReloc)
retain permitted own [] = ok ([], [])
retain permitted own (r ∷ rs) = do
  (kept, applied) ← retain permitted own rs
  elim (permitted r.original_section) [
    | none ↦ panic
    | some false ↦ ok (kept, applied)
    | some true ↦
        if reloc_can_be_applied r
        then ok (if skip_reloc own r then kept else r ∷ kept, r ∷ applied)
        else ok (r ∷ kept, applied)
  ]
