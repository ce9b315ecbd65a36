-- ===== src/Obj/Sections/Ranges.antt =====
-- What a range of a section reads.
use decomp_toolkit.Prelude.{
  ℕ, zero, suc, ◌+◌, ◌-◌, ◌^◌, ◌≤◌, ◌<◌, min, ◌≡◌, refl, ap, Bool, List, [], ◌∷◌, ◌==◌,
  if◌then◌else◌, length, take, drop, ◌⊎◌, ◌&&◌, ◌||◌, leb, ltb, ok, err, arith,
}
use decomp_toolkit.Obj.Kinds.{bss, section_kind_eq}
use decomp_toolkit.Obj.Sections.{
  ObjSection, contains, contains_range, data_slice, data_range, outside_section,
}

take_congr : (m n : ℕ) (xs : List ℕ) → min (length xs) m ≡ min (length xs) n → take m xs ≡ take n xs
take_congr zero zero xs h = refl
take_congr zero (suc n) [] h = refl
take_congr zero (suc n) (x ∷ xs) h = absurd (omega arith)
take_congr (suc m) zero [] h = refl
take_congr (suc m) zero (x ∷ xs) h = absurd (omega arith)
take_congr (suc m) (suc n) [] h = refl
take_congr (suc m) (suc n) (x ∷ xs) h = ap (λ l. x ∷ l) (take_congr m n xs (omega arith))

length-drop : (k : ℕ) (xs : List ℕ) → length (drop k xs) ≡ length xs - k
length-drop zero xs = omega arith
length-drop (suc k) [] = omega arith
length-drop (suc k) (x ∷ xs) = omega (arith, length-drop k xs)

drop_all : (k n : ℕ) (xs : List ℕ) → length xs ≤ k → take n (drop k xs) ≡ []
drop_all zero zero [] h = refl
drop_all zero (suc n) [] h = refl
drop_all zero n (x ∷ xs) h = absurd (omega arith)
drop_all (suc k) zero [] h = refl
drop_all (suc k) (suc n) [] h = refl
drop_all (suc k) n (x ∷ xs) h = drop_all k n xs (omega arith)

-- What is read of a section from `start` to `end`, and up to the end of the image if `end` is 0.
abbrev pub bytes_between : ObjSection → ℕ → ℕ → List ℕ
bytes_between s start end =
    take (if end == 0 then length s.bytes else end - start) (drop (start - s.address) s.bytes)

abbrev pub image : ObjSection → ℕ → ℕ → List ℕ
image s start end = if section_kind_eq s.kind bss then [] else bytes_between s start end

-- A start inside the section and an end behind it, not behind that of the section.
abbrev pub is_inside : ObjSection → ℕ → ℕ → Bool
is_inside s start end =
    (leb s.address start && ltb start (s.address + s.size))
    && (end == 0 || (ltb s.address end && leb end (s.address + s.size)))

data_slice_lem :
    (s : ObjSection) (start end : ℕ)
    → s.address ≤ start
    → (end ≡ 0) ⊎ (start ≤ end)
    → data_slice s start end ≡ ok (image s start end)
unfolding data_slice
data_slice_lem s start end le h = ground (
  arith,
  drop_all (start - s.address) (if end == 0 then length s.bytes else end - start) s.bytes,
  length-drop (start - s.address) s.bytes,
  take_congr (length s.bytes - (start - s.address)) (length s.bytes)
      (drop (start - s.address) s.bytes),
  take_congr (min (length s.bytes) (end - s.address) - (start - s.address)) (end - start)
      (drop (start - s.address) s.bytes),
)

-- In a section below 2^32, and for a range that does not run backwards, `data_range` returns the
-- bytes of the image there, none of a `.bss` section and none behind the image; it never panics, and it fails
-- exactly where the range is not inside the section.
pub data_range_lem :
    (s : ObjSection) (start end : ℕ)
    → s.address + s.size < 2 ^ 32
    → (end ≡ 0) ⊎ (start ≤ end)
    → data_range s start end
      ≡ (if is_inside s start end then ok (image s start end) else err outside_section)
unfolding data_range contains contains_range
data_range_lem s start end lt h = ground (arith, data_slice_lem s start end)
