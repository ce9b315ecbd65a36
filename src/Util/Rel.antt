-- ===== src/Util/Rel.antt =====
-- src/util/rel.rs: relocatable modules. The records of the file and their readers and writers; a file
-- is its list of bytes, and a seek drops what is in front of the position.
pub mod Header
pub mod Relocs
pub mod Layout
pub mod Order
pub mod Tables
pub mod Alignment
use decomp_toolkit.Prelude.{
  ℕ, ◌+◌, ◌-◌, ◌%◌, ◌^◌, Bool, true, false, not, List, [], ◌∷◌, ◌++◌, Option, none, some, ◌==◌, ltb,
  leb, if◌then◌else◌, Result, ok, err, panic, ◌>>=◌, ◌>>◌, guard,
}
use decomp_toolkit.Util.Reader.{
  Endian, ErrorKind, invalid_data, Reader, read_u8, read_u16, read_u32, write_u16, write_u32,
}

pub record RelHeader : Type 0 where
  pub module_id : ℕ
  pub num_sections : ℕ
  pub section_info_offset : ℕ
  pub name_offset : ℕ
  pub name_size : ℕ
  pub version : ℕ
  pub bss_size : ℕ
  pub rel_offset : ℕ
  pub imp_offset : ℕ
  pub imp_size : ℕ
  pub prolog_section : ℕ
  pub epilog_section : ℕ
  pub unresolved_section : ℕ
  pub prolog_offset : ℕ
  pub epilog_offset : ℕ
  pub unresolved_offset : ℕ
  pub align : Option ℕ
  pub bss_align : Option ℕ
  pub fix_size : Option ℕ

-- A field that only some versions have.
unfoldable pub read_since : Bool → Endian → Reader (Option ℕ)
unfolding read_u32
read_since true e bs = do (n, rest) ← read_u32 e bs; ok (some n, rest)
read_since false e bs = ok (none, bs)

-- `from_reader_args`
unfoldable pub read_header : Endian → Reader RelHeader
unfolding read_u8 read_u32 read_since
read_header e bs = do
  (module_id, bs1) ← read_u32 e bs
  (next, bs2) ← read_u32 e bs1
  guard (next == 0) invalid_data
  (prev, bs3) ← read_u32 e bs2
  guard (prev == 0) invalid_data
  (num_sections, bs4) ← read_u32 e bs3
  (section_info_offset, bs5) ← read_u32 e bs4
  (name_offset, bs6) ← read_u32 e bs5
  (name_size, bs7) ← read_u32 e bs6
  (version, bs8) ← read_u32 e bs7
  guard (leb version 3) invalid_data
  (bss_size, bs9) ← read_u32 e bs8
  (rel_offset, bs10) ← read_u32 e bs9
  (imp_offset, bs11) ← read_u32 e bs10
  (imp_size, bs12) ← read_u32 e bs11
  (prolog_section, bs13) ← read_u8 bs12
  (epilog_section, bs14) ← read_u8 bs13
  (unresolved_section, bs15) ← read_u8 bs14
  (bss_section, bs16) ← read_u8 bs15
  guard (bss_section == 0) invalid_data
  (prolog_offset, bs17) ← read_u32 e bs16
  (epilog_offset, bs18) ← read_u32 e bs17
  (unresolved_offset, bs19) ← read_u32 e bs18
  (align, bs20) ← read_since (leb 2 version) e bs19
  (bss_align, bs21) ← read_since (leb 2 version) e bs20
  (fix_size, rest) ← read_since (leb 3 version) e bs21
  ok (
    record {
      module_id = module_id;
      num_sections = num_sections;
      section_info_offset = section_info_offset;
      name_offset = name_offset;
      name_size = name_size;
      version = version;
      bss_size = bss_size;
      rel_offset = rel_offset;
      imp_offset = imp_offset;
      imp_size = imp_size;
      prolog_section = prolog_section;
      epilog_section = epilog_section;
      unresolved_section = unresolved_section;
      prolog_offset = prolog_offset;
      epilog_offset = epilog_offset;
      unresolved_offset = unresolved_offset;
      align = align;
      bss_align = bss_align;
      fix_size = fix_size;
    },
    rest,
  )

unfoldable pub write_option : Endian → Option ℕ → List ℕ
unfolding write_u32
write_option e none = []
write_option e (some n) = write_u32 e n

-- The integers of `u32`, one after the other.
unfoldable pub write_words : Endian → List ℕ → List ℕ
unfolding write_u32
write_words e [] = []
write_words e (n ∷ ns) = write_u32 e n ++ write_words e ns

abbrev pub first_words : RelHeader → List ℕ
first_words h =
    h.module_id
    ∷ (0
        ∷ (0
            ∷ (h.num_sections
                ∷ (h.section_info_offset
                    ∷ (h.name_offset
                        ∷ (h.name_size
                            ∷ (h.version
                                ∷ (h.bss_size
                                    ∷ (h.rel_offset ∷ (h.imp_offset ∷ (h.imp_size ∷ [])))))))))))

abbrev pub section_bytes : RelHeader → List ℕ
section_bytes h = h.prolog_section ∷ (h.epilog_section ∷ (h.unresolved_section ∷ (0 ∷ [])))

abbrev pub last_words : RelHeader → List ℕ
last_words h = h.prolog_offset ∷ (h.epilog_offset ∷ (h.unresolved_offset ∷ []))

-- `to_writer`
unfoldable pub write_header : Endian → RelHeader → List ℕ
unfolding write_words write_option
write_header e h =
    write_words e (first_words h)
    ++ (section_bytes h
        ++ (write_words e (last_words h)
            ++ (write_option e h.align
                ++ (write_option e h.bss_align ++ write_option e h.fix_size))))

-- `write_size`, which panics on another version.
unfoldable pub write_size : RelHeader → Result ErrorKind ℕ
write_size h =
    if h.version == 1
    then ok 64
    else if h.version == 2
    then ok 72
    else if h.version == 3
    then ok 76
    else panic

pub record RelImport : Type 0 where
  pub module_id : ℕ
  pub offset : ℕ

unfoldable pub read_import : Endian → Reader RelImport
unfolding read_u32
read_import e bs = do
  (module_id, bs1) ← read_u32 e bs
  (offset, rest) ← read_u32 e bs1
  ok (record { module_id = module_id; offset = offset }, rest)

unfoldable pub write_import : Endian → RelImport → List ℕ
unfolding write_u32
write_import e i = write_u32 e i.module_id ++ write_u32 e i.offset

pub record RelSectionHeader : Type 0 where
  pub offset_and_flags : ℕ
  pub size : ℕ

unfoldable pub read_section_header : Endian → Reader RelSectionHeader
unfolding read_u32
read_section_header e bs = do
  (offset_and_flags, bs1) ← read_u32 e bs
  (size, rest) ← read_u32 e bs1
  ok (record { offset_and_flags = offset_and_flags; size = size }, rest)

unfoldable pub write_section_header : Endian → RelSectionHeader → List ℕ
unfolding write_u32
write_section_header e h = write_u32 e h.offset_and_flags ++ write_u32 e h.size

-- `offset | exec`
unfoldable pub new_section_header : ℕ → ℕ → Bool → RelSectionHeader
new_section_header offset size exec = record {
  offset_and_flags = if exec then offset - offset % 2 + 1 else offset;
  size = size;
}

-- The offset without the flag, and the flag.
unfoldable pub offset_of : RelSectionHeader → ℕ
offset_of h = h.offset_and_flags - h.offset_and_flags % 2

unfoldable pub is_exec : RelSectionHeader → Bool
is_exec h = not (h.offset_and_flags % 2 == 0)

pub record RelRelocRaw : Type 0 where
  pub offset : ℕ
  pub kind : ℕ
  pub section : ℕ
  pub addend : ℕ

unfoldable pub read_raw : Endian → Reader RelRelocRaw
unfolding read_u8 read_u16 read_u32
read_raw e bs = do
  (offset, bs1) ← read_u16 e bs
  (kind, bs2) ← read_u8 bs1
  (section, bs3) ← read_u8 bs2
  (addend, rest) ← read_u32 e bs3
  ok (record { offset = offset; kind = kind; section = section; addend = addend }, rest)

unfoldable pub write_raw : Endian → RelRelocRaw → List ℕ
unfolding write_u16 write_u32
write_raw e r = write_u16 e r.offset ++ (r.kind ∷ (r.section ∷ write_u32 e r.addend))
