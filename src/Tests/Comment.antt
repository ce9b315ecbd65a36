-- ===== src/Tests/Comment.antt =====
-- The properties of the `.comment` section and the byte readers at concrete values.
use decomp_toolkit.Prelude.{true, none, some}
use decomp_toolkit.Util.Comment.{MwComment, CommentSym, gekko_header}
use decomp_toolkit.Obj.Kinds.{ObjSymbolKind, ObjDataKind}
use decomp_toolkit.Obj.Symbols.Flags.{no_flags}
use decomp_toolkit.Obj.Symbols.Symbol.{ObjSymbol}

abbrev header : MwComment
header = gekko_header 11 (2, 4, 7, 1)

abbrev entry : CommentSym
entry = record { align = 4; vis_flags = 13; active_flags = 8 }

abbrev symbol : ObjSymbol
symbol = record {
  name = "main";
  demangled_name = none;
  address = 2147496192;
  section = some 1;
  size = 8;
  size_known = true;
  flags = no_flags;
  kind = ObjSymbolKind.function;
  align = none;
  data_kind = ObjDataKind.unknown;
  name_hash = none;
  demangled_name_hash = none;
}
