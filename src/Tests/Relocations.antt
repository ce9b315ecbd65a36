-- ===== src/Tests/Relocations.antt =====
-- The properties of relocations at concrete relocations.
use decomp_toolkit.Prelude.{ℕ, List, [], ◌∷◌, none, arith}
use decomp_toolkit.Obj.Relocations.{ppc_addr16_lo, ppc_rel24, ObjReloc, ElfTypes, ObjRelocations}
use decomp_toolkit.Obj.Relocations.Tables.{IsDistinct}

abbrev lo : ObjReloc
lo = record { kind = ppc_addr16_lo; target_symbol = 3; addend = 0; module_id = none }

abbrev call : ObjReloc
call = record { kind = ppc_rel24; target_symbol = 4; addend = 0; module_id = none }

abbrev pairs : List (ℕ × ObjReloc)
pairs = (24, lo) ∷ ((16, call) ∷ [])

pairs-IsDistinct : IsDistinct pairs
pairs-IsDistinct = (((λ e. omega arith), tt), (tt, tt))

-- The numbers of the ELF relocation types.
abbrev elf : ElfTypes
elf = record {
  r_ppc_addr32 = 1;
  r_ppc_uaddr32 = 24;
  r_ppc_addr16_hi = 5;
  r_ppc_addr16_ha = 6;
  r_ppc_addr16_lo = 4;
  r_ppc_rel24 = 10;
  r_ppc_rel14 = 11;
  r_ppc_emb_sda21 = 109;
  r_386_32 = 1;
  r_386_pc32 = 2;
}

abbrev table : ObjRelocations
table = (16, call) ∷ []
