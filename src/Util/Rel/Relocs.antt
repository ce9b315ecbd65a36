-- ===== src/Util/Rel/Relocs.antt =====
-- The relocation table of src/util/rel.rs: the loop of `process_rel` that reads it. The numbers of the
-- ELF relocation types come from the `object` crate and are a parameter.
pub mod Entries
pub mod Placed
pub mod Reads
pub mod Entered
pub mod RoundTrip
pub mod Returns
use decomp_toolkit.Prelude.{
  ℕ, zero, suc, ◌+◌, ◌-◌, ◌*◌, ◌%◌, ◌^◌, Bool, true, false, not, ◌&&◌, ◌||◌, List, [], ◌∷◌, ◌++◌,
  Option, none, some, ◌==◌, ltb, leb, if◌then◌else◌, length, drop, Result, ok, err, panic, ◌>>=◌,
  ◌>>◌, guard,
}
use decomp_toolkit.Util.Reader.{ErrorKind, big}
use decomp_toolkit.Obj.Relocations.{
  ObjRelocKind, absolute, ppc_addr16_lo, ppc_addr16_hi, ppc_addr16_ha, ppc_rel24, ppc_rel14,
}
use decomp_toolkit.Obj.Info.{RelReloc}
use decomp_toolkit.Util.Rel.{RelImport, RelRelocRaw, read_raw, write_raw, read_import}

-- The constants of `object::elf` that the code names.
pub record RelTypes : Type 0 where
  pub r_ppc_none : ℕ
  pub r_ppc_addr32 : ℕ
  pub r_ppc_uaddr32 : ℕ
  pub r_ppc_addr16_lo : ℕ
  pub r_ppc_addr16_hi : ℕ
  pub r_ppc_addr16_ha : ℕ
  pub r_ppc_rel24 : ℕ
  pub r_ppc_rel14 : ℕ

abbrev pub r_dolphin_nop : ℕ
r_dolphin_nop = 201

abbrev pub r_dolphin_section : ℕ
r_dolphin_section = 202

abbrev pub r_dolphin_end : ℕ
r_dolphin_end = 203

pub data RelError : Type 0 where
  read_error : ErrorKind → RelError
  unhandled_type : ℕ → RelError
  unsupported_kind : ObjRelocKind → RelError
  first_import_mismatch fix_size_mismatch : RelError

-- What an entry of the table asks for.
pub data Action : Type 0 where
  skip advance change stop unhandled : Action
  relocate : ObjRelocKind → Action

unfoldable pub action : RelTypes → ℕ → Action
action types kind =
    if kind == types.r_ppc_none
    then skip
    else if kind == types.r_ppc_addr32 || kind == types.r_ppc_uaddr32
    then relocate absolute
    else if kind == types.r_ppc_addr16_lo
    then relocate ppc_addr16_lo
    else if kind == types.r_ppc_addr16_hi
    then relocate ppc_addr16_hi
    else if kind == types.r_ppc_addr16_ha
    then relocate ppc_addr16_ha
    else if kind == types.r_ppc_rel24
    then relocate ppc_rel24
    else if kind == types.r_ppc_rel14
    then relocate ppc_rel14
    else if kind == r_dolphin_nop
    then advance
    else if kind == r_dolphin_section
    then change
    else if kind == r_dolphin_end
    then stop
    else unhandled

-- `address & !3`
abbrev pub aligned_reloc : ℕ → ObjRelocKind → ℕ → ℕ → RelRelocRaw → RelReloc
aligned_reloc module_id kind section address raw = record {
  kind = kind;
  section = section;
  address = address - address % 4;
  module_id = module_id;
  target_section = raw.section;
  addend = raw.addend;
  original_section = section;
  original_target_section = raw.section;
}

abbrev pub Relocs : Type 0
Relocs = Option (Result RelError (List RelReloc))

abbrev pub prepend : RelReloc → Relocs → Relocs
prepend r (some (ok rs)) = some (ok (r ∷ rs))
prepend r (some (err e)) = some (err e)
prepend r (some panic) = some panic
prepend r none = none

-- The loop over the entries of a module, with the address and the section; there is no result where
-- the rounds do not suffice. The sum of `u32` panics where it overflows, as in a debug build.
unfoldable pub read_relocs : ℕ → RelTypes → ℕ → ℕ → ℕ → List ℕ → Relocs
unfolding action
read_relocs zero types module_id address section bs = none
read_relocs (suc rounds) types module_id address section bs = elim (read_raw big bs) [
  | err e ↦ some (err (read_error e))
  | panic ↦ some panic
  | ok (raw, rest) ↦
      let next = address + raw.offset in
      elim (action types raw.kind) [
        | skip ↦ read_relocs rounds types module_id address section rest
        | advance ↦
            let more = read_relocs rounds types module_id next section rest in
            if ltb next (2 ^ 32) then more else some panic
        | change ↦ read_relocs rounds types module_id 0 raw.section rest
        | stop ↦ some (ok [])
        | unhandled ↦ some (err (unhandled_type raw.kind))
        | relocate kind ↦
            let more = read_relocs rounds types module_id next section rest in
            if ltb next (2 ^ 32)
            then prepend (aligned_reloc module_id kind section next raw) more
            else some panic
      ]
]

abbrev pub append : Relocs → Relocs → Relocs
append none more = none
append (some (err e)) more = some (err e)
append (some panic) more = some panic
append (some (ok rs)) none = none
append (some (ok rs)) (some (err e)) = some (err e)
append (some (ok rs)) (some panic) = some panic
append (some (ok rs)) (some (ok rs')) = some (ok (rs ++ rs'))

-- The relocations of an import, whose table starts at its offset in the file.
unfoldable pub import_relocs : ℕ → RelTypes → List ℕ → RelImport → Relocs
unfolding read_relocs
import_relocs rounds types file i = read_relocs rounds types i.module_id 0 255 (drop i.offset file)

-- The relocations of several imports.
unfoldable pub imports_relocs : ℕ → RelTypes → List ℕ → List RelImport → Relocs
unfolding import_relocs
imports_relocs rounds types file [] = some (ok [])
imports_relocs rounds types file (i ∷ rest) =
    append (import_relocs rounds types file i) (imports_relocs rounds types file rest)
