-- ===== src/Obj/Relocations.antt =====
-- src/obj/relocations.rs. The ELF relocation numbers come from the `object` crate and are a
-- parameter; the map of relocations is an ordered map from addresses.
pub mod Kinds
pub mod Tables
use decomp_toolkit.Prelude.{
  ℕ, zero, suc, ◌+◌, ◌-◌, ◌%◌, Bool, true, false, List, [], ◌∷◌, Option, none, some, String, str_eq,
  ◌==◌, if◌then◌else◌, Result, ok, err, length, ◌||◌, map,
}
use decomp_toolkit.Prelude.BTreeMap.{BTreeMap}
use decomp_toolkit.Prelude.BTreeMap

pub data ObjRelocKind : Type 0 where
  absolute ppc_addr16_hi ppc_addr16_ha ppc_addr16_lo ppc_rel24 ppc_rel14 ppc_emb_sda21 :
      ObjRelocKind
  x86_abs32 x86_rel32 : ObjRelocKind

-- `impl Serialize`
unfoldable pub serialize : ObjRelocKind → String
serialize absolute = "abs"
serialize ppc_addr16_hi = "hi"
serialize ppc_addr16_ha = "ha"
serialize ppc_addr16_lo = "l"
serialize ppc_rel24 = "rel24"
serialize ppc_rel14 = "rel14"
serialize ppc_emb_sda21 = "sda21"
serialize x86_abs32 = "x86_abs32"
serialize x86_rel32 = "x86_rel32"

-- `impl Deserialize`; the error carries the unknown variant.
unfoldable pub deserialize : String → Result String ObjRelocKind
deserialize s =
    if str_eq s "Absolute" || str_eq s "abs"
    then ok absolute
    else if str_eq s "PpcAddr16Hi" || str_eq s "hi"
    then ok ppc_addr16_hi
    else if str_eq s "PpcAddr16Ha" || str_eq s "ha"
    then ok ppc_addr16_ha
    else if str_eq s "PpcAddr16Lo" || str_eq s "l"
    then ok ppc_addr16_lo
    else if str_eq s "PpcRel24" || str_eq s "rel24"
    then ok ppc_rel24
    else if str_eq s "PpcRel14" || str_eq s "rel14"
    then ok ppc_rel14
    else if str_eq s "PpcEmbSda21" || str_eq s "sda21"
    then ok ppc_emb_sda21
    else if str_eq s "x86_abs32"
    then ok x86_abs32
    else if str_eq s "x86_rel32"
    then ok x86_rel32
    else err s

-- `addend` is the bit pattern of an `i64`.
pub record ObjReloc : Type 0 where
  pub kind : ObjRelocKind
  pub target_symbol : ℕ
  pub addend : ℕ
  pub module_id : Option ℕ

-- The constants of `object::elf` that the code names.
pub record ElfTypes : Type 0 where
  pub r_ppc_addr32 : ℕ
  pub r_ppc_uaddr32 : ℕ
  pub r_ppc_addr16_hi : ℕ
  pub r_ppc_addr16_ha : ℕ
  pub r_ppc_addr16_lo : ℕ
  pub r_ppc_rel24 : ℕ
  pub r_ppc_rel14 : ℕ
  pub r_ppc_emb_sda21 : ℕ
  pub r_386_32 : ℕ
  pub r_386_pc32 : ℕ

-- `r_offset & !3`
abbrev pub word_start : ℕ → ℕ
word_start r = r - r % 4

abbrev to_elf_kind : ElfTypes → ObjRelocKind → ℕ → ℕ × ℕ
to_elf_kind elf absolute r = if r % 4 == 0 then (r, elf.r_ppc_addr32) else (r, elf.r_ppc_uaddr32)
to_elf_kind elf ppc_addr16_hi r = (word_start r + 2, elf.r_ppc_addr16_hi)
to_elf_kind elf ppc_addr16_ha r = (word_start r + 2, elf.r_ppc_addr16_ha)
to_elf_kind elf ppc_addr16_lo r = (word_start r + 2, elf.r_ppc_addr16_lo)
to_elf_kind elf ppc_rel24 r = (word_start r, elf.r_ppc_rel24)
to_elf_kind elf ppc_rel14 r = (word_start r, elf.r_ppc_rel14)
to_elf_kind elf ppc_emb_sda21 r = (word_start r, elf.r_ppc_emb_sda21)
to_elf_kind elf x86_abs32 r = (r, elf.r_386_32)
to_elf_kind elf x86_rel32 r = (r, elf.r_386_pc32)

-- The ELF `r_offset` and `r_type` of a relocation at an address.
unfoldable pub to_elf : ElfTypes → ObjReloc → ℕ → ℕ × ℕ
to_elf elf reloc addr = to_elf_kind elf reloc.kind addr

abbrev pub ObjRelocations : Type 0
ObjRelocations = BTreeMap ObjReloc

pub record ExistingRelocationError : Type 0 where
  pub address : ℕ
  pub value : ObjReloc

-- The new map, or the error with the map unchanged.
unfoldable pub insert :
    ℕ → ObjReloc → ObjRelocations → ObjRelocations × Result ExistingRelocationError (Unit {0})
insert address reloc relocations = elim (BTreeMap.get address relocations) [
  | none ↦ (BTreeMap.insert address reloc relocations, ok tt)
  | some existing ↦ (relocations, err (record { address = address; value = existing }))
]

-- The loop of `new` over the pairs that are left.
unfoldable pub new_loop :
    ObjRelocations → List (ℕ × ObjReloc) → Result ExistingRelocationError ObjRelocations
new_loop acc [] = ok acc
new_loop acc ((address, reloc) ∷ rest) =
    let more = new_loop (BTreeMap.insert address reloc acc) rest in
    elim (BTreeMap.get address acc) [
      | none ↦ more
      | some existing ↦ err (record { address = address; value = existing })
    ]

unfoldable pub new : List (ℕ × ObjReloc) → Result ExistingRelocationError ObjRelocations
unfolding new_loop
new relocations = new_loop [] relocations

unfoldable pub replace : ℕ → ObjReloc → ObjRelocations → ObjRelocations
replace address reloc relocations = BTreeMap.insert address reloc relocations

unfoldable pub at : ℕ → ObjRelocations → Option ObjReloc
at address relocations = BTreeMap.get address relocations

-- `remove` also returns the relocation that it took out.
unfoldable pub remove : ℕ → ObjRelocations → ObjRelocations × Option ObjReloc
remove address relocations = (BTreeMap.remove address relocations, BTreeMap.get address relocations)

unfoldable pub contains : ℕ → ObjRelocations → Bool
contains address relocations = BTreeMap.contains_key address relocations

unfoldable pub len : ObjRelocations → ℕ
len relocations = length relocations

unfoldable pub is_empty : ObjRelocations → Bool
is_empty relocations = len relocations == 0

unfoldable pub iter : ObjRelocations → List (ℕ × ObjReloc)
iter relocations = relocations

unfoldable pub range : (ℕ → Bool) → ObjRelocations → List (ℕ × ObjReloc)
range inside relocations = BTreeMap.range inside relocations
