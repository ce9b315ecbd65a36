-- ===== src/Util/Comment/Symbols.antt =====
-- The `.comment` entry of a symbol.
use decomp_toolkit.Prelude.{
  ℕ, ◌≡◌, Bool, true, false, not, ◌||◌, List, ◌++◌, if◌then◌else◌, ok, arith,
}
use decomp_toolkit.Util.Reader.{Endian, big, little}
use decomp_toolkit.Util.Comment.{CommentSym, read_sym, write_sym, from_symbol}
use decomp_toolkit.Obj.Symbols.Flags.{is_stripped, set_force_active}
use decomp_toolkit.Obj.Symbols.Symbol.{ObjSymbol}

-- An entry reads back as it was written, and what follows it is left to read.
pub read_sym-write_sym :
    (e : Endian) (s : CommentSym) (rest : List ℕ)
    → read_sym e (write_sym e s ++ rest) ≡ ok (s, rest)
unfolding read_sym write_sym
read_sym-write_sym big s rest = ground arith
read_sym-write_sym little s rest = ground arith

-- Unless the symbol is stripped, forcing it active makes its entry active whatever the settings,
-- and where symbols are not all exported, taking that back makes its entry inactive.
pub from_symbol-set_force_active :
    (symbol : ObjSymbol) (export_all value : Bool)
    → is_stripped symbol.flags ≡ false
    → (value || not export_all) ≡ true
    → (from_symbol
        (record symbol { flags = set_force_active value symbol.flags })
        export_all).active_flags
      ≡ (if value then 8 else 0)
unfolding from_symbol set_force_active
from_symbol-set_force_active symbol export_all value live h = ground arith
