-- ===== src/Obj/Relocations/Kinds.antt =====
-- Relocation kinds as text, and where an ELF relocation lands.
use decomp_toolkit.Prelude.{ℕ, ◌/◌, ◌%◌, ◌≡◌, refl, ok, arith}
use decomp_toolkit.Obj.Relocations.{
  ObjRelocKind, absolute, ppc_addr16_hi, ppc_addr16_ha, ppc_addr16_lo, ppc_rel24, ppc_rel14,
  ppc_emb_sda21, x86_abs32, x86_rel32, serialize, deserialize, ObjReloc, ElfTypes, to_elf,
}

-- Every kind is read back from the text that it is written as.
pub deserialize-serialize : (k : ObjRelocKind) → deserialize (serialize k) ≡ ok k
unfolding deserialize serialize
deserialize-serialize absolute = refl
deserialize-serialize ppc_addr16_hi = refl
deserialize-serialize ppc_addr16_ha = refl
deserialize-serialize ppc_addr16_lo = refl
deserialize-serialize ppc_rel24 = refl
deserialize-serialize ppc_rel14 = refl
deserialize-serialize ppc_emb_sda21 = refl
deserialize-serialize x86_abs32 = refl
deserialize-serialize x86_rel32 = refl

-- The offset within the instruction word that a relocation kind patches, given the address.
pub patch_offset : ObjRelocKind → ℕ → ℕ
patch_offset ppc_addr16_hi addr = 2
patch_offset ppc_addr16_ha addr = 2
patch_offset ppc_addr16_lo addr = 2
patch_offset ppc_rel24 addr = 0
patch_offset ppc_rel14 addr = 0
patch_offset ppc_emb_sda21 addr = 0
patch_offset _ addr = addr % 4

-- The ELF offset stays in the word of the address, at the place that the kind patches.
pub to_elf_offset :
    (elf : ElfTypes) (reloc : ObjReloc) (addr : ℕ)
    → ((to_elf elf reloc addr).0 / 4 ≡ addr / 4)
      × ((to_elf elf reloc addr).0 % 4 ≡ patch_offset reloc.kind addr)
unfolding to_elf patch_offset
to_elf_offset elf reloc addr = ground arith
