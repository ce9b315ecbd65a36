-- ===== src/Obj/Info/Bases.antt =====
-- The addresses that the linker generated, as `add_symbol` notes them.
use decomp_toolkit.Prelude.{
  ◌∙◌, ◌≡◌, refl, Bool, true, false, Option, some, String, str_eq, if◌then◌else◌, arith, ℕ, eq_iff,
}
use decomp_toolkit.Obj.Symbols.Symbol.{ObjSymbol}
use decomp_toolkit.Obj.Symbols.Table.{u32, ObjSymbols}
use decomp_toolkit.Obj.Symbols.Add
use decomp_toolkit.Obj.Info.{ObjInfo, note_base, add_symbol}

-- The linker's symbols, their names, and where the object keeps their addresses.
pub data Base : Type 0 where
  sda sda2 stack_top stack_bottom db_stack arena_start arena_stop : Base

abbrev pub symbol_name : Base → String
symbol_name sda = "_SDA_BASE_"
symbol_name sda2 = "_SDA2_BASE_"
symbol_name stack_top = "_stack_addr"
symbol_name stack_bottom = "_stack_end"
symbol_name db_stack = "_db_stack_addr"
symbol_name arena_start = "__ArenaLo"
symbol_name arena_stop = "__ArenaHi"

abbrev pub base : Base → ObjInfo → Option ℕ
base sda o = o.sda_base
base sda2 o = o.sda2_base
base stack_top o = o.stack_address
base stack_bottom o = o.stack_end
base db_stack o = o.db_stack_addr
base arena_start o = o.arena_lo
base arena_stop o = o.arena_hi

differ : (n a b : String) → str_eq a b ≡ false → str_eq n a ≡ true → str_eq n b ≡ false
differ n a b ne h = ground (arith, eq_iff n a, eq_iff n b, eq_iff a b)

base-if :
    (b : Base) (t : Bool) (x y : ObjInfo)
    → base b (if t then x else y) ≡ (if t then base b x else base b y)
base-if b true x y = refl
base-if b false x y = refl

base-note_base :
    (b : Base) (symbol : ObjSymbol) (o : ObjInfo)
    → base b (note_base symbol o)
      ≡ (if str_eq symbol.name (symbol_name b) then some (u32 symbol.address) else base b o)
unfolding note_base
base-note_base sda symbol o = simp (note_base, base-if) (ground (arith))
base-note_base sda2 symbol o =
    simp (note_base, base-if)
      (ground (arith, differ symbol.name (symbol_name sda) (symbol_name sda2) refl))
base-note_base stack_top symbol o =
    simp (note_base, base-if)
      (ground (
        arith,
        differ symbol.name (symbol_name sda) (symbol_name stack_top) refl,
        differ symbol.name (symbol_name sda2) (symbol_name stack_top) refl,
      ))
base-note_base stack_bottom symbol o =
    simp (note_base, base-if)
      (ground (
        arith,
        differ symbol.name (symbol_name sda) (symbol_name stack_bottom) refl,
        differ symbol.name (symbol_name sda2) (symbol_name stack_bottom) refl,
        differ symbol.name (symbol_name stack_top) (symbol_name stack_bottom) refl,
      ))
base-note_base db_stack symbol o =
    simp (note_base, base-if)
      (ground (
        arith,
        differ symbol.name (symbol_name sda) (symbol_name db_stack) refl,
        differ symbol.name (symbol_name sda2) (symbol_name db_stack) refl,
        differ symbol.name (symbol_name stack_top) (symbol_name db_stack) refl,
        differ symbol.name (symbol_name stack_bottom) (symbol_name db_stack) refl,
      ))
base-note_base arena_start symbol o =
    simp (note_base, base-if)
      (ground (
        arith,
        differ symbol.name (symbol_name sda) (symbol_name arena_start) refl,
        differ symbol.name (symbol_name sda2) (symbol_name arena_start) refl,
        differ symbol.name (symbol_name stack_top) (symbol_name arena_start) refl,
        differ symbol.name (symbol_name stack_bottom) (symbol_name arena_start) refl,
        differ symbol.name (symbol_name db_stack) (symbol_name arena_start) refl,
      ))
base-note_base arena_stop symbol o =
    simp (note_base, base-if)
      (ground (
        arith,
        differ symbol.name (symbol_name sda) (symbol_name arena_stop) refl,
        differ symbol.name (symbol_name sda2) (symbol_name arena_stop) refl,
        differ symbol.name (symbol_name stack_top) (symbol_name arena_stop) refl,
        differ symbol.name (symbol_name stack_bottom) (symbol_name arena_stop) refl,
        differ symbol.name (symbol_name db_stack) (symbol_name arena_stop) refl,
        differ symbol.name (symbol_name arena_start) (symbol_name arena_stop) refl,
      ))

base-symbols :
    (b : Base) (symbols : ObjSymbols) (o : ObjInfo)
    → base b (record o { symbols = symbols }) ≡ base b o
base-symbols sda symbols o = refl
base-symbols b symbols o = refl

-- `add_symbol` keeps the address of each of the linker's symbols, whether it takes the symbol or
-- not: that of its name becomes the symbol's, every other stays.
pub base-add_symbol :
    (b : Base) (symbol : ObjSymbol) (replace : Bool) (o : ObjInfo)
    → base b (add_symbol symbol replace o).0
      ≡ (if str_eq symbol.name (symbol_name b) then some (u32 symbol.address) else base b o)
unfolding add_symbol
base-add_symbol b symbol replace o =
    base-symbols b (Add.add symbol replace (note_base symbol o).symbols).0 (note_base symbol o)
    ∙ base-note_base b symbol o
