-- ===== src/Util/Comment.antt =====
-- src/util/comment.rs: the Metrowerks `.comment` section, its header and its entry per symbol.
pub mod Header
pub mod Symbols
use decomp_toolkit.Prelude.{
  bytes_eq, ℕ, ◌+◌, ◌%◌, ◌^◌, Bool, true, false, not, ◌&&◌, ◌||◌, List, [], ◌∷◌, ◌++◌, Option, none,
  some, ◌==◌, if◌then◌else◌, bit_and, bit_or, Result, ok, err, ◌>>=◌, ◌>>◌, guard, replicate,
}
use decomp_toolkit.Util.Reader.{
  Endian, ErrorKind, invalid_data, Reader, read_u8, read_u16, read_u32, read_bytes, skip_bytes,
  write_u16, write_u32,
}
use decomp_toolkit.Obj.Kinds.{ObjSymbolKind}
use decomp_toolkit.Obj.Symbols.Flags.{is_common, is_weak, is_stripped, is_exported, is_no_export}
use decomp_toolkit.Obj.Symbols.Symbol.{ObjSymbol}

pub data MwFloatKind : Type 0 where
  absent soft hard : MwFloatKind

-- `u8::from` and `MWFloatKind::try_from`
abbrev pub float_code : MwFloatKind → ℕ
float_code absent = 0
float_code soft = 1
float_code hard = 2

abbrev pub float_kind : ℕ → Result ErrorKind MwFloatKind
float_kind n =
    if n == 0
    then ok absent
    else if n == 1
    then ok soft
    else if n == 2
    then ok hard
    else err invalid_data

-- `compiler_version` has four bytes.
pub record MwComment : Type 0 where
  pub version : ℕ
  pub compiler_version : ℕ × ℕ × ℕ × ℕ
  pub pool_data : Bool
  pub float : MwFloatKind
  pub processor : ℕ
  pub incompatible_return_small_structs : Bool
  pub incompatible_sfpe_double_params : Bool
  pub unsafe_global_reg_vars : Bool

-- "CodeWarrior"
abbrev pub magic : List ℕ
magic =
    b'C'
    ∷ (b'o' ∷ (b'd' ∷ (b'e' ∷ (b'W' ∷ (b'a' ∷ (b'r' ∷ (b'r' ∷ (b'i' ∷ (b'o' ∷ (b'r' ∷ []))))))))))

abbrev pub header_size : ℕ
header_size = 0x2c

abbrev pub padding : List ℕ
padding = replicate 0x16 0

abbrev pub is_known_version : ℕ → Bool
is_known_version v = v == 8 || (v == 10 || (v == 11 || (v == 13 || (v == 14 || v == 15))))

abbrev pub bool_byte : ℕ → Result ErrorKind Bool
bool_byte n = if n == 0 then ok false else if n == 1 then ok true else err invalid_data

-- `from_reader_args`
unfoldable pub read_header : Endian → Reader MwComment
unfolding read_bytes read_u8 read_u16 skip_bytes
read_header e bs = do
  (found, bs1) ← read_bytes 11 bs
  guard (bytes_eq found magic) invalid_data
  (version, bs2) ← read_u8 bs1
  guard (is_known_version version) invalid_data
  (v0, bs3) ← read_u8 bs2
  (v1, bs4) ← read_u8 bs3
  (v2, bs5) ← read_u8 bs4
  (v3, bs6) ← read_u8 bs5
  (pool_byte, bs7) ← read_u8 bs6
  pool_data ← bool_byte pool_byte
  (float_byte, bs8) ← read_u8 bs7
  float ← float_kind float_byte
  (processor, bs9) ← read_u16 e bs8
  (size, bs10) ← read_u8 bs9
  guard (size == header_size) invalid_data
  (flags, bs11) ← read_u8 bs10
  guard (bit_and flags 0xf8 == 0) invalid_data
  (_, rest) ← skip_bytes 0x16 bs11
  ok (
    record {
      version = version;
      compiler_version = (v0, v1, v2, v3);
      pool_data = pool_data;
      float = float;
      processor = processor;
      incompatible_return_small_structs = bit_and flags 1 == 1;
      incompatible_sfpe_double_params = bit_and flags 2 == 2;
      unsafe_global_reg_vars = bit_and flags 4 == 4;
    },
    rest,
  )

abbrev pub set_flag : Bool → ℕ → ℕ → ℕ
set_flag on mask flags = if on then bit_or flags mask else flags

abbrev pub header_flags : MwComment → ℕ
header_flags c = set_flag c.unsafe_global_reg_vars 4 (
    set_flag c.incompatible_sfpe_double_params 2 (set_flag c.incompatible_return_small_structs 1 0))

-- `to_writer`
unfoldable pub write_header : Endian → MwComment → List ℕ
unfolding write_u16
write_header e c =
    magic
    ++ (c.version
        ∷ (c.compiler_version.0
            ∷ (c.compiler_version.1
                ∷ (c.compiler_version.2
                    ∷ (c.compiler_version.3
                        ∷ ((if c.pool_data then 1 else 0)
                            ∷ (float_code c.float
                                ∷ (write_u16 e c.processor
                                    ++ (header_size ∷ (header_flags c ∷ padding))))))))))

-- The header that `new` makes around a compiler version.
abbrev pub gekko_header : ℕ → ℕ × ℕ × ℕ × ℕ → MwComment
gekko_header version compiler_version = record {
  version = version;
  compiler_version = compiler_version;
  pool_data = true;
  float = hard;
  processor = 0x16;
  incompatible_return_small_structs = false;
  incompatible_sfpe_double_params = false;
  unsafe_global_reg_vars = false;
}

-- `MWComment::new`; `none` is the error of an unsupported version.
unfoldable pub new : ℕ → Option MwComment
new version =
    if version == 8
    then some (gekko_header version (2, 3, 0, 1))
    else if version == 10
    then some (gekko_header version (2, 4, 2, 1))
    else if version == 11 || version == 13
    then some (gekko_header version (2, 4, 7, 1))
    else if version == 14 || version == 15
    then some (gekko_header version (4, 0, 0, 1))
    else none

pub record CommentSym : Type 0 where
  pub align : ℕ
  pub vis_flags : ℕ
  pub active_flags : ℕ

unfoldable pub read_sym : Endian → Reader CommentSym
unfolding read_u8 read_u32
read_sym e bs = do
  (align, bs1) ← read_u32 e bs
  (vis_flags, bs2) ← read_u8 bs1
  (active_flags, bs3) ← read_u8 bs2
  (pad1, bs4) ← read_u8 bs3
  guard (pad1 == 0) invalid_data
  (pad2, rest) ← read_u8 bs4
  guard (pad2 == 0) invalid_data
  ok (record { align = align; vis_flags = vis_flags; active_flags = active_flags }, rest)

unfoldable pub write_sym : Endian → CommentSym → List ℕ
unfolding write_u32
write_sym e s = write_u32 e s.align ++ (s.vis_flags ∷ (s.active_flags ∷ (0 ∷ (0 ∷ []))))

abbrev pub kind_align : ObjSymbolKind → ℕ → ℕ
kind_align ObjSymbolKind.unknown address = 0
kind_align ObjSymbolKind.function address = 4
kind_align ObjSymbolKind.object address = if address % 4 == 0 then 4 else 1
kind_align ObjSymbolKind.section address = 8

abbrev pub is_function_or_object : ObjSymbolKind → Bool
is_function_or_object ObjSymbolKind.function = true
is_function_or_object ObjSymbolKind.object = true
is_function_or_object _ = false

-- `CommentSym::from`
unfoldable pub from_symbol : ObjSymbol → Bool → CommentSym
unfolding is_common is_weak is_stripped is_exported is_no_export
from_symbol symbol export_all = record {
  align = elim symbol.align [
    | some align ↦ align
    | none ↦
        if is_common symbol.flags
        then symbol.address % 2 ^ 32
        else kind_align symbol.kind symbol.address
  ];
  vis_flags = if is_weak symbol.flags then bit_or 0 0xd else 0;
  active_flags =
      if not (is_stripped symbol.flags)
        && (is_exported symbol.flags
            || (export_all
                && (not (is_no_export symbol.flags) && is_function_or_object symbol.kind)))
      then bit_or 0 8
      else 0;
}
