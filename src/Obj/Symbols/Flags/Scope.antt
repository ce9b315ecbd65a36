-- ===== src/Obj/Symbols/Flags/Scope.antt =====
-- What the setters of a flag set change, and what they leave.
use decomp_toolkit.Prelude.{Bool, true, false, not, ◌&&◌, ◌≡◌, arith}
use decomp_toolkit.Obj.Symbols.Flags.{
  ObjSymbolScope, ObjSymbolFlags, FlagSet, scope, set_scope, set_force_active,
}

-- Whether a flag is one of the three that state a scope.
unfoldable pub is_scope_flag : ObjSymbolFlags → Bool
is_scope_flag ObjSymbolFlags.global = true
is_scope_flag ObjSymbolFlags.local = true
is_scope_flag ObjSymbolFlags.weak = true
is_scope_flag _ = false

-- `set_scope` sets the scope that `scope` reads, whatever flags were set, and changes no flag but
-- the three scope flags.
pub scope-set_scope :
    (s : ObjSymbolScope) (flags : FlagSet)
    → (scope (set_scope s flags) ≡ s)
      × ((f : ObjSymbolFlags) → is_scope_flag f ≡ false → set_scope s flags f ≡ flags f)
unfolding scope set_scope is_scope_flag
scope-set_scope s flags = (ground arith, λ f h. ground arith)

-- Forcing a symbol active sets `Exported` and clears `NoExport`; the opposite clears `Exported`
-- only. No other flag changes.
pub set_force_active_flags :
    (value : Bool) (flags : FlagSet) (f : ObjSymbolFlags)
    → set_force_active value flags f ≡ elim f [
      | ObjSymbolFlags.exported ↦ value
      | ObjSymbolFlags.no_export ↦ not value && flags ObjSymbolFlags.no_export
      | g ↦ flags g
    ]
unfolding set_force_active
set_force_active_flags value flags f = ground arith
