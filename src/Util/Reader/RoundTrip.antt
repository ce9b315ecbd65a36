-- ===== src/Util/Reader/RoundTrip.antt =====
-- Integers written and read back.
use decomp_toolkit.Prelude.{ℕ, ◌≡◌, refl, List, [], ◌∷◌, ◌++◌, ok, arith, append_assoc, length}
use decomp_toolkit.Util.Reader.{
  Endian, big, little, Reader, read_u16, read_u32, read_bytes, read_vec, write_u16, write_u32,
}

pub read_u16-write_u16 :
    (e : Endian) (n : ℕ) (rest : List ℕ) → read_u16 e (write_u16 e n ++ rest) ≡ ok (n, rest)
unfolding read_u16 write_u16
read_u16-write_u16 big n rest = ground arith
read_u16-write_u16 little n rest = ground arith

pub read_u32-write_u32 :
    (e : Endian) (n : ℕ) (rest : List ℕ) → read_u32 e (write_u32 e n ++ rest) ≡ ok (n, rest)
unfolding read_u32 write_u32
read_u32-write_u32 big n rest = ground arith
read_u32-write_u32 little n rest = ground arith

pub read_bytes-append :
    (bytes rest : List ℕ) → read_bytes (length bytes) (bytes ++ rest) ≡ ok (bytes, rest)
unfolding read_bytes
read_bytes-append [] rest = refl
read_bytes-append (b ∷ bs) rest = rw (read_bytes-append bs rest)

pub flatten_map : {A : Type 0} → (A → List ℕ) → List A → List ℕ
flatten_map write [] = []
flatten_map write (x ∷ xs) = write x ++ flatten_map write xs

-- A vector of values that each read back reads back as a whole, and what follows is left.
pub read_vec-write :
    {A : Type 0} (read : Reader A) (write : A → List ℕ)
    → ((x : A) (rest : List ℕ) → read (write x ++ rest) ≡ ok (x, rest))
    → (xs : List A) (rest : List ℕ)
    → read_vec read (length xs) (flatten_map write xs ++ rest) ≡ ok (xs, rest)
unfolding read_vec flatten_map
read_vec-write read write back [] rest = refl
read_vec-write read write back (x ∷ xs) rest =
    rw (append_assoc (write x) (flatten_map write xs) rest)
      (rw (back x (flatten_map write xs ++ rest)) (rw (read_vec-write read write back xs rest)))
