-- ===== src/Util/U8Arc.antt =====
-- src/util/u8_arc.rs: the view of a U8 archive over a buffer, and the search for a path in it.
pub mod Bounds
pub mod Search
pub mod Layout
pub mod Located
pub mod Outside
use decomp_toolkit.Prelude.{
  ℕ, zero, suc, ◌+◌, ◌-◌, ◌*◌, ◌%◌, Bool, true, false, ◌&&◌, List, [], ◌∷◌, Option, none, some, leb,
  ◌==◌, if◌then◌else◌, length, bytes_eq, get_elem?, take, drop, Result, ok, err, panic, ◌>>=◌, ◌>>◌,
  guard, ok_or, expect,
}
use decomp_toolkit.Util.Reader.{Reader, read_u8, read_u16, read_u32, read_bytes, read_vec, big}

pub record U8Header : Type 0 where
  pub magic : List ℕ
  pub node_table_offset : ℕ
  pub node_table_size : ℕ
  pub data_offset : ℕ

-- `name_offset` is a 24-bit field.
pub record U8Node : Type 0 where
  pub kind : ℕ
  pub name_offset : ℕ
  pub offset : ℕ
  pub length : ℕ

pub data U8NodeKind : Type 0 where
  file directory invalid : U8NodeKind

abbrev pub is_file : U8Node → Bool
is_file node = node.kind == 0

abbrev pub is_dir : U8Node → Bool
is_dir node = node.kind == 1

unfoldable pub kind : U8Node → U8NodeKind
kind node = if node.kind == 0 then file else if node.kind == 1 then directory else invalid

pub record U8View : Type 0 where
  pub header : U8Header
  pub nodes : List U8Node
  pub string_table : List ℕ

-- The texts that `new` fails with.
pub data U8Error : Type 0 where
  short_header magic_mismatch table_out_of_bounds root_not_aligned root_not_directory : U8Error
  root_offset size_mismatch table_not_aligned : U8Error

abbrev pub u8_magic : List ℕ
u8_magic = 0x55 ∷ (0xAA ∷ (0x38 ∷ (0x2D ∷ [])))

-- The structs as they lie in the buffer; the header has 16 bytes of padding.
unfoldable pub read_header : Reader U8Header
unfolding read_bytes read_u32
read_header bs = do
  (magic, bs) ← read_bytes 4 bs
  (node_table_offset, bs) ← read_u32 big bs
  (node_table_size, bs) ← read_u32 big bs
  (data_offset, bs) ← read_u32 big bs
  (pad, bs) ← read_bytes 16 bs
  ok (
    record {
      magic = magic;
      node_table_offset = node_table_offset;
      node_table_size = node_table_size;
      data_offset = data_offset;
    },
    bs,
  )

unfoldable pub read_node : Reader U8Node
unfolding read_u8 read_u16 read_u32
read_node bs = do
  (kind, bs) ← read_u8 bs
  (high, bs) ← read_u8 bs
  (low, bs) ← read_u16 big bs
  (offset, bs) ← read_u32 big bs
  (length, bs) ← read_u32 big bs
  ok (
    record { kind = kind; name_offset = high * 65536 + low; offset = offset; length = length },
    bs,
  )

-- A struct of alignment 4 at an offset of a buffer that lies at the address `base`.
abbrev pub is_aligned : ℕ → ℕ → Bool
is_aligned base offset = (base + offset) % 4 == 0

-- `ref_from_prefix` and `ref_from_bytes`: the value, where it is aligned and the bytes suffice.
abbrev pub value_of : {E : Type 0} {A B : Type 0} → Bool → Result E (A × B) → Option A
value_of true (ok (a, b)) = some a
value_of aligned r = none

-- `buf.get(from..to)`
unfoldable pub slice : ℕ → ℕ → List ℕ → Option (List ℕ)
slice from to bs =
    if leb from to && leb to (length bs) then some (take (to - from) (drop from bs)) else none

unfoldable pub split_at : {E : Type 0} → ℕ → List ℕ → Result E (List ℕ × List ℕ)
split_at n bs = if leb n (length bs) then ok (take n bs, drop n bs) else panic

-- The nodes and the names behind them, of the root's size.
unfoldable pub tables : ℕ → U8Header → List ℕ → U8Node → Result U8Error U8View
unfolding read_node split_at read_vec
tables base header nodes_buf root = do
  guard (leb (root.length * 12) header.node_table_size) size_mismatch
  (table, string_table) ← split_at (root.length * 12) nodes_buf
  nodes ←
      ok_or
        (value_of (is_aligned base header.node_table_offset) (read_vec read_node root.length table))
        table_not_aligned
  ok (record { header = header; nodes = nodes; string_table = string_table })

unfoldable pub new : ℕ → List ℕ → Result U8Error U8View
unfolding read_header read_node slice tables kind
new base buf = do
  header ← ok_or (value_of (is_aligned base 0) (read_header buf)) short_header
  guard (bytes_eq header.magic u8_magic) magic_mismatch
  let from = header.node_table_offset
  nodes_buf ← ok_or (slice from (from + header.node_table_size) buf) table_out_of_bounds
  root ← ok_or (value_of (is_aligned base from) (read_node nodes_buf)) root_not_aligned
  guard (is_dir root) root_not_directory
  guard (root.offset == 0) root_offset
  tables base header nodes_buf root

pub data NameError : Type 0 where
  name_out_of_bounds not_terminated : NameError

-- `CStr::from_bytes_until_nul`
unfoldable pub until_nul : List ℕ → Result NameError (List ℕ)
until_nul [] = err not_terminated
until_nul (c ∷ cs) =
    let rest = until_nul cs in if c == 0 then ok [] else do name ← rest; ok (c ∷ name)

-- A name is the UTF-8 text of its bytes; `lossy` replaces those that are none.
unfoldable pub get_name : (List ℕ → List ℕ) → U8View → U8Node → Result NameError (List ℕ)
unfolding until_nul
get_name lossy v node =
    if leb node.name_offset (length v.string_table)
    then until_nul (drop node.name_offset v.string_table) >>= (λ name. ok (lossy name))
    else err name_out_of_bounds

abbrev pub lower : ℕ → ℕ
lower c = if leb 65 c && leb c 90 then c + 32 else c

unfoldable pub eq_ignore_ascii_case : List ℕ → List ℕ → Bool
eq_ignore_ascii_case [] [] = true
eq_ignore_ascii_case (a ∷ rest) (b ∷ bs) = lower a == lower b && eq_ignore_ascii_case rest bs
eq_ignore_ascii_case _ _ = false

-- `split('/')`: the parts between the slashes, at least one.
unfoldable pub split_path : List ℕ → List (List ℕ)
split_path [] = [] ∷ []
split_path (c ∷ cs) = elim (split_path cs) [
  | [] ↦ (c ∷ []) ∷ []
  | part ∷ parts ↦ if c == 47 then [] ∷ (part ∷ parts) else (c ∷ part) ∷ parts
]

abbrev pub is_empty : List ℕ → Bool
is_empty [] = true
is_empty (c ∷ cs) = false

-- src/vfs/mod.rs: the next part and what follows it; no part is left if it is empty.
abbrev pub next_non_empty : List (List ℕ) → List ℕ × List (List ℕ)
next_non_empty [] = ([], [])
next_non_empty ([] ∷ parts) = next_non_empty parts
next_non_empty ((c ∷ cs) ∷ parts) = (c ∷ cs, parts)

-- The state of the search after a round, or its result.
pub data Next : Type 0 where
  done : Option (ℕ × U8Node) → Next
  again : ℕ → Option ℕ → List ℕ → List (List ℕ) → Next

abbrev pub has_name : List ℕ → Result NameError (List ℕ) → Bool
has_name current (ok name) = eq_ignore_ascii_case name current
has_name current (err e) = false
has_name current panic = false

abbrev pub is_past : Option ℕ → ℕ → Bool
is_past none idx = false
is_past (some stop) idx = leb stop idx

-- The test at the end of a round.
abbrev pub advance : ℕ → Option ℕ → List ℕ → List (List ℕ) → Next
advance idx stop current split =
    if is_past stop idx then done none else again idx stop current split

abbrev pub enter : ℕ → U8Node → List ℕ × List (List ℕ) → Next
enter idx node (current, split) =
    if is_empty current
    then done (some (idx, node))
    else if is_dir node
    then advance (idx + 1) (some (node.length + (idx + 1))) current split
    else done none

abbrev pub visit :
    (List ℕ → List ℕ) → U8View → U8Node → ℕ → Option ℕ → List ℕ → List (List ℕ) → Next
visit lossy v node idx stop current split =
    if has_name current (get_name lossy v node)
    then enter idx node (next_non_empty split)
    else if is_dir node
    then advance node.length stop current split
    else advance (idx + 1) stop current split

abbrev pub visit_some :
    (List ℕ → List ℕ) → U8View → Option U8Node → ℕ → Option ℕ → List ℕ → List (List ℕ) → Next
visit_some lossy v none idx stop current split = done none
visit_some lossy v (some node) idx stop current split = visit lossy v node idx stop current split

unfoldable pub find_step : (List ℕ → List ℕ) → U8View → ℕ → Option ℕ → List ℕ → List (List ℕ) → Next
unfolding get_name eq_ignore_ascii_case
find_step lossy v idx stop current split =
    visit_some lossy v (get_elem? v.nodes idx) idx stop current split

-- The loop of `find`; there is no result where the rounds do not suffice.
unfoldable pub find_loop :
    ℕ
    → (List ℕ → List ℕ)
    → U8View
    → ℕ
    → Option ℕ
    → List ℕ
    → List (List ℕ)
    → Option (Option (ℕ × U8Node))
find_loop zero lossy v idx stop current split = none
find_loop (suc rounds) lossy v idx stop current split =
    elim (find_step lossy v idx stop current split) [
      | done result ↦ some result
      | again idx' stop' current' split' ↦ find_loop rounds lossy v idx' stop' current' split'
    ]

abbrev pub returned :
    Option (Option (ℕ × U8Node)) → Option (Result (Unit {0}) (Option (ℕ × U8Node)))
returned none = none
returned (some result) = some (ok result)

abbrev pub root_of : U8View → Result (Unit {0}) (Option (ℕ × U8Node))
root_of v = do root ← expect (get_elem? v.nodes 0); ok (some (0, root))

unfoldable pub find :
    ℕ → (List ℕ → List ℕ) → U8View → List ℕ → Option (Result (Unit {0}) (Option (ℕ × U8Node)))
unfolding find_loop split_path
find rounds lossy v path =
    let (current, split) = next_non_empty (split_path path) in
    if is_empty current
    then some (root_of v)
    else returned (find_loop rounds lossy v 1 none current split)
