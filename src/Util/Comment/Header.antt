-- ===== src/Util/Comment/Header.antt =====
-- The `.comment` header written and read back.
use decomp_toolkit.Prelude.{
  ℕ, ◌≡◌, refl, true, false, ◌||◌, List, ◌++◌, none, some, ◌==◌, ok, arith, ◌⊎◌, inl, inr,
  Bool-cases, if◌then◌else◌, ◌∙◌,
}
use decomp_toolkit.Util.Reader.{Endian, big, little}
use decomp_toolkit.Util.Comment.{
  MwComment, is_known_version, read_header, write_header, new, gekko_header,
}

-- A header of a known version reads back as it was written, in either byte order, and what
-- follows it is left to read.
pub read_header-write_header :
    (e : Endian) (c : MwComment) (rest : List ℕ)
    → is_known_version c.version ≡ true
    → read_header e (write_header e c ++ rest) ≡ ok (c, rest)
unfolding read_header write_header
read_header-write_header big c rest known = ground arith
read_header-write_header little c rest known = ground arith

-- The compiler version that `new` picks.
compiler_of : ℕ → ℕ × ℕ × ℕ × ℕ
compiler_of version =
    if version == 8
    then (2, 3, 0, 1)
    else if version == 10
    then (2, 4, 2, 1)
    else if version == 11 || version == 13
    then (2, 4, 7, 1)
    else (4, 0, 0, 1)

new_lem :
    (version : ℕ)
    → new version ≡ (
        if is_known_version version
        then some (gekko_header version (compiler_of version))
        else none)
unfolding new compiler_of
new_lem version = ground arith

-- `new` succeeds exactly on the versions that the reader takes, and the header that it makes reads
-- back as it was made, in either byte order.
pub new-read_header :
    (version : ℕ) (e : Endian) (rest : List ℕ)
    → ((is_known_version version ≡ false) × (new version ≡ none))
      ⊎ ((is_known_version version ≡ true)
          × ((c : MwComment) × (new version ≡ some c)
              × (c.version ≡ version)
              × (read_header e (write_header e c ++ rest) ≡ ok (c, rest))))
new-read_header version e rest = elim (Bool-cases (is_known_version version)) [
  | inr k ↦ inl (k, new_lem version ∙ rw k)
  | inl k ↦
      let c = gekko_header version (compiler_of version) in
      inr (k, (c, new_lem version ∙ rw k, refl, read_header-write_header e c rest k))
]
