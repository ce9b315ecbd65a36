-- ===== src/Util/Reader.antt =====
-- src/util/reader.rs: reading and writing of integers and byte arrays in either byte order. A
-- reader over bytes in memory is the list of bytes that it has not passed; a writer appends.
pub mod RoundTrip
use decomp_toolkit.Prelude.{
  ℕ, zero, suc, ◌+◌, ◌*◌, ◌/◌, ◌%◌, List, [], ◌∷◌, ◌++◌, Result, ok, err, ◌>>=◌, drop,
}

pub data Endian : Type 0 where
  big little : Endian

unfoldable pub flip : Endian → Endian
flip big = little
flip little = big

-- The error kinds of `std::io` that the readers give.
pub data ErrorKind : Type 0 where
  unexpected_eof invalid_data : ErrorKind

abbrev pub Reader : Type 0 → Type 0
Reader A = List ℕ → Result ErrorKind (A × List ℕ)

unfoldable pub read_u8 : Reader ℕ
read_u8 [] = err unexpected_eof
read_u8 (b ∷ bs) = ok (b, bs)

abbrev pub from_bytes_u16 : Endian → ℕ → ℕ → ℕ
from_bytes_u16 big a b = a * 256 + b
from_bytes_u16 little a b = b * 256 + a

unfoldable pub read_u16 : Endian → Reader ℕ
read_u16 e (a ∷ (b ∷ bs)) = ok (from_bytes_u16 e a b, bs)
read_u16 e _ = err unexpected_eof

abbrev pub from_bytes_u32 : Endian → ℕ → ℕ → ℕ → ℕ → ℕ
from_bytes_u32 big a b c d = ((a * 256 + b) * 256 + c) * 256 + d
from_bytes_u32 little a b c d = ((d * 256 + c) * 256 + b) * 256 + a

unfoldable pub read_u32 : Endian → Reader ℕ
read_u32 e (a ∷ (b ∷ (c ∷ (d ∷ bs)))) = ok (from_bytes_u32 e a b c d, bs)
read_u32 e _ = err unexpected_eof

-- `read_exact` into a buffer of `n` bytes.
unfoldable pub read_bytes : ℕ → Reader (List ℕ)
read_bytes zero bs = ok ([], bs)
read_bytes (suc n) [] = err unexpected_eof
read_bytes (suc n) (b ∷ bs) = do (more, rest) ← read_bytes n bs; ok (b ∷ more, rest)

-- A seek forward may pass the end, and then nothing is left to read.
unfoldable pub skip_bytes : ℕ → Reader (Unit {0})
skip_bytes n bs = ok (tt, drop n bs)

-- `read_vec`: `count` values, one after the other.
unfoldable pub read_vec : {A : Type 0} → Reader A → ℕ → Reader (List A)
read_vec read zero bs = ok ([], bs)
read_vec read (suc count) bs = do
  (x, rest) ← read bs
  (xs, rest') ← read_vec read count rest
  ok (x ∷ xs, rest')

unfoldable pub write_u8 : ℕ → List ℕ
write_u8 n = n ∷ []

unfoldable pub write_u16 : Endian → ℕ → List ℕ
write_u16 big n = n / 256 ∷ (n % 256 ∷ [])
write_u16 little n = n % 256 ∷ (n / 256 ∷ [])

unfoldable pub write_u32 : Endian → ℕ → List ℕ
write_u32 big n = n / 16777216 ∷ (n / 65536 % 256 ∷ (n / 256 % 256 ∷ (n % 256 ∷ [])))
write_u32 little n = n % 256 ∷ (n / 256 % 256 ∷ (n / 65536 % 256 ∷ (n / 16777216 ∷ [])))
