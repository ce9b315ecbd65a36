-- ===== src/Obj/Symbols/Flags.antt =====
-- `ObjSymbolScope`, `ObjSymbolFlags` and `ObjSymbolFlagSet` of src/obj/symbols.rs. A `FlagSet` of
-- the `flagset` crate is the set of flags it stands for, as a test on flags.
pub mod Scope
use decomp_toolkit.Prelude.{Bool, true, false, not, ◌&&◌, ◌||◌, if◌then◌else◌, List, [], ◌∷◌}

pub data ObjSymbolScope : Type 0 where
  unknown global weak local : ObjSymbolScope

pub data ObjSymbolFlags : Type 0 where
  global local weak common hidden exported relocation_ignore no_write stripped : ObjSymbolFlags
  no_export no_reloc comdat no_comdat alias : ObjSymbolFlags

abbrev pub FlagSet : Type 0
FlagSet = ObjSymbolFlags → Bool

-- The test for one flag, by the rows of the enum.
abbrev pub index : ObjSymbolFlags → ObjSymbolFlags → Bool
index ObjSymbolFlags.global ObjSymbolFlags.global = true
index ObjSymbolFlags.local ObjSymbolFlags.local = true
index ObjSymbolFlags.weak ObjSymbolFlags.weak = true
index ObjSymbolFlags.common ObjSymbolFlags.common = true
index ObjSymbolFlags.hidden ObjSymbolFlags.hidden = true
index ObjSymbolFlags.exported ObjSymbolFlags.exported = true
index ObjSymbolFlags.relocation_ignore ObjSymbolFlags.relocation_ignore = true
index ObjSymbolFlags.no_write ObjSymbolFlags.no_write = true
index ObjSymbolFlags.stripped ObjSymbolFlags.stripped = true
index ObjSymbolFlags.no_export ObjSymbolFlags.no_export = true
index ObjSymbolFlags.no_reloc ObjSymbolFlags.no_reloc = true
index ObjSymbolFlags.comdat ObjSymbolFlags.comdat = true
index ObjSymbolFlags.no_comdat ObjSymbolFlags.no_comdat = true
index ObjSymbolFlags.alias ObjSymbolFlags.alias = true
index _ _ = false

abbrev pub flag : ObjSymbolFlags → FlagSet
flag f g = index f g

abbrev pub no_flags : FlagSet
no_flags f = false

-- `a & b` and `a | b` of two flag sets.
infixl 35 ◌∩◌
infixl 30 ◌∪◌
abbrev pub ◌∩◌ : FlagSet → FlagSet → FlagSet
◌∩◌ a b f = a f && b f

abbrev pub ◌∪◌ : FlagSet → FlagSet → FlagSet
◌∪◌ a b f = a f || b f

abbrev pub complement : FlagSet → FlagSet
complement a f = not (a f)

unfoldable pub is_local : FlagSet → Bool
is_local flags = flags ObjSymbolFlags.local

unfoldable pub is_global : FlagSet → Bool
unfolding is_local
is_global flags = not (is_local flags)

unfoldable pub is_common : FlagSet → Bool
is_common flags = flags ObjSymbolFlags.common

unfoldable pub is_weak : FlagSet → Bool
is_weak flags = flags ObjSymbolFlags.weak

unfoldable pub is_hidden : FlagSet → Bool
is_hidden flags = flags ObjSymbolFlags.hidden

unfoldable pub is_exported : FlagSet → Bool
is_exported flags = flags ObjSymbolFlags.exported

unfoldable pub is_relocation_ignore : FlagSet → Bool
is_relocation_ignore flags = flags ObjSymbolFlags.relocation_ignore

unfoldable pub is_no_write : FlagSet → Bool
is_no_write flags = flags ObjSymbolFlags.no_write

unfoldable pub is_stripped : FlagSet → Bool
is_stripped flags = flags ObjSymbolFlags.stripped

unfoldable pub is_no_export : FlagSet → Bool
is_no_export flags = flags ObjSymbolFlags.no_export

unfoldable pub is_no_reloc : FlagSet → Bool
is_no_reloc flags = flags ObjSymbolFlags.no_reloc

unfoldable pub is_comdat : FlagSet → Bool
is_comdat flags = flags ObjSymbolFlags.comdat

unfoldable pub is_no_comdat : FlagSet → Bool
is_no_comdat flags = flags ObjSymbolFlags.no_comdat

unfoldable pub is_alias : FlagSet → Bool
is_alias flags = flags ObjSymbolFlags.alias

unfoldable pub scope : FlagSet → ObjSymbolScope
unfolding is_local is_weak
scope flags =
    if is_local flags
    then ObjSymbolScope.local
    else if is_weak flags
    then ObjSymbolScope.weak
    else if flags ObjSymbolFlags.global
    then ObjSymbolScope.global
    else ObjSymbolScope.unknown

unfoldable pub set_scope : ObjSymbolScope → FlagSet → FlagSet
set_scope ObjSymbolScope.unknown flags =
    flags
    ∩ complement (flag ObjSymbolFlags.local ∪ flag ObjSymbolFlags.global ∪ flag ObjSymbolFlags.weak)
set_scope ObjSymbolScope.global flags =
    flags ∩ complement (flag ObjSymbolFlags.local ∪ flag ObjSymbolFlags.weak)
    ∪ flag ObjSymbolFlags.global
set_scope ObjSymbolScope.weak flags =
    flags ∩ complement (flag ObjSymbolFlags.local ∪ flag ObjSymbolFlags.global)
    ∪ flag ObjSymbolFlags.weak
set_scope ObjSymbolScope.local flags =
    flags ∩ complement (flag ObjSymbolFlags.global ∪ flag ObjSymbolFlags.weak)
    ∪ flag ObjSymbolFlags.local

unfoldable pub set_force_active : Bool → FlagSet → FlagSet
set_force_active true flags =
    flags ∩ complement (flag ObjSymbolFlags.no_export) ∪ flag ObjSymbolFlags.exported
set_force_active false flags = flags ∩ complement (flag ObjSymbolFlags.exported)

unfoldable pub keep_flags : FlagSet → FlagSet
keep_flags flags =
    flags
    ∩ (flag ObjSymbolFlags.exported
        ∪ flag ObjSymbolFlags.no_write
        ∪ flag ObjSymbolFlags.relocation_ignore
        ∪ flag ObjSymbolFlags.stripped
        ∪ flag ObjSymbolFlags.no_export
        ∪ flag ObjSymbolFlags.no_reloc)
