-- ===== src/Util/Rel/Header.antt =====
-- The records of a module written and read back.
use decomp_toolkit.Prelude.{
  ℕ, ◌+◌, ◌*◌, length-append, ◌≤◌, ◌<◌, ◌≡◌, refl, true, false, List, [], ◌∷◌, ◌++◌, Option, none,
  some, leb, ok, arith, length, append_assoc,
}
use decomp_toolkit.Util.Reader.{Endian, big, little, write_u32, read_u8}
use decomp_toolkit.Util.Reader.RoundTrip.{read_u32-write_u32}
use decomp_toolkit.Util.Rel.{
  RelHeader, read_header, write_header, write_size, read_since, write_option, write_words,
  RelImport, read_import, write_import, RelRelocRaw, read_raw, write_raw,
}

pub read_raw-write_raw :
    (e : Endian) (r : RelRelocRaw) (rest : List ℕ)
    → read_raw e (write_raw e r ++ rest) ≡ ok (r, rest)
unfolding read_raw write_raw
read_raw-write_raw big r rest = ground arith
read_raw-write_raw little r rest = ground arith

pub read_import-write_import :
    (e : Endian) (i : RelImport) (rest : List ℕ)
    → read_import e (write_import e i ++ rest) ≡ ok (i, rest)
unfolding read_import write_import
read_import-write_import big i rest = ground arith
read_import-write_import little i rest = ground arith

-- The fields of the later versions are there in those versions and in no other.
abbrev pub HasSince : ℕ → ℕ → Option ℕ → Type 0
HasSince since version none = version < since
HasSince since version (some n) = since ≤ version

abbrev pub IsComplete : RelHeader → Type 0
IsComplete h =
    (h.version ≤ 3)
    × HasSince 2 h.version h.align
    × HasSince 2 h.version h.bss_align
    × HasSince 3 h.version h.fix_size

read_since-write_option :
    (since version : ℕ) (e : Endian) (field : Option ℕ) (rest : List ℕ)
    → HasSince since version field
    → read_since (leb since version) e (write_option e field ++ rest) ≡ ok (field, rest)
unfolding read_since write_option
read_since-write_option since version e none rest h =
    let f : leb since version ≡ false = (ground arith) in rw f refl
read_since-write_option since version e (some n) rest h =
    let t : leb since version ≡ true = (ground arith) in rw (t, read_u32-write_u32 e n rest) refl

-- In both byte orders, a module header of at most version 3 that has the fields of its version and
-- no other is read back as it was written, and what follows it is left.
pub read_header-IsComplete :
    (e : Endian) (h : RelHeader) (rest : List ℕ)
    → IsComplete h
    → read_header e (write_header e h ++ rest) ≡ ok (h, rest)
unfolding read_header write_header write_words read_u8
read_header-IsComplete e h rest (known, has_align, has_bss, has_fix) =
    let t : leb h.version 3 ≡ true = (ground arith) in
    let align = λ (r : List ℕ). read_since-write_option 2 h.version e h.align r has_align in
    let bss_align = λ (r : List ℕ). read_since-write_option 2 h.version e h.bss_align r has_bss in
    let fix_size = λ (r : List ℕ). read_since-write_option 3 h.version e h.fix_size r has_fix in
    simp (append_assoc, read_u32-write_u32, t, align, bss_align, fix_size) refl

length-write_u32 : (e : Endian) (n : ℕ) → length (write_u32 e n) ≡ 4
unfolding write_u32
length-write_u32 big n = refl
length-write_u32 little n = refl

-- The bytes of an optional field.
abbrev pub option_size : Option ℕ → ℕ
option_size none = 0
option_size (some n) = 4

length-write_option :
    (e : Endian) (field : Option ℕ) → length (write_option e field) ≡ option_size field
unfolding write_option
length-write_option e none = refl
length-write_option e (some n) = length-write_u32 e n

length-write_words : (e : Endian) (ns : List ℕ) → length (write_words e ns) ≡ 4 * length ns
unfolding write_words
length-write_words e [] = refl
length-write_words e (n ∷ ns) = omega (
  arith,
  length-append (write_u32 e n) (write_words e ns),
  length-write_u32 e n,
  length-write_words e ns,
)

pub length-write_header :
    (e : Endian) (h : RelHeader)
    → length (write_header e h)
      ≡ 64 + (option_size h.align + (option_size h.bss_align + option_size h.fix_size))
unfolding write_header
length-write_header e h =
    simp (length-append, length-write_words, length-write_u32, length-write_option) (omega arith)

-- A module header of version 1 to 3 that has the fields of its version and no other is written in
-- as many bytes as `write_size` says.
pub write_size-write_header :
    (e : Endian) (h : RelHeader)
    → IsComplete h
    → 1 ≤ h.version
    → write_size h ≡ ok (length (write_header e h))
unfolding write_size
write_size-write_header e h (known, has_align, has_bss, has_fix) first =
    rw (length-write_header e h) (ground arith)
