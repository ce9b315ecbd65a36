-- ===== src/Analysis/Vm/Rotate/Masks.antt =====
-- The masks of the rotate instructions.
use decomp_toolkit.Prelude.{
  ℕ, zero, suc, ◌+◌, ◌-◌, ◌/◌, ◌^◌, ◌≤◌, ◌<◌, ◌≡◌, refl, ◌&&◌, ◌||◌, Bool, true, min, bit_and, leb,
  ==_iff, Bool-cases, inl, inr, ◌==◌, if◌then◌else◌, arith,
}
use decomp_toolkit.Analysis.Vm.{mask_value}
use Prim.Native.Nat.{bit_and-bitwise, digits}

-- The bits of the mask, counted from the high end: from `first` to `last`, around the end where
-- `last` comes first.
abbrev pub in_mask : ℕ → ℕ → ℕ → Bool
in_mask first last bit =
    if leb first last then leb first bit && leb bit last else leb first bit || leb bit last

-- The word that has those of its first `n` bits.
abbrev pub bits : (ℕ → Bool) → ℕ → ℕ
bits f zero = 0
bits f (suc n) = (if f n then 2 ^ (31 - n) else 0) + bits f n

abbrev pub masked : ℕ → ℕ → ℕ
masked first last = bits (in_mask first last) 32

abbrev all_below : ℕ → (ℕ → Bool) → Bool
all_below zero f = true
all_below (suc n) f = f n && all_below n f

all_below_lt : (n : ℕ) (f : ℕ → Bool) (i : ℕ) → all_below n f ≡ true → i < n → f i ≡ true
all_below_lt zero f i h lt = absurd (omega arith)
all_below_lt (suc n) f i h lt = elim (Bool-cases (i == n)) [
  | inl e ↦ let eq : i ≡ n = ((==_iff i n).0 e) in rw eq (ground arith)
  | inr e ↦ all_below_lt n f i (ground arith) (ground arith)
]

table :
    all_below 32 (λ first. all_below 32 (λ last. mask_value first last == masked first last)) ≡ true
unfolding mask_value
table = refl

-- Over the fields of five bits, `mask_value` has the bits of the mask and no others.
pub mask_value-masked :
    (first last : ℕ) → first < 32 → last < 32 → mask_value first last ≡ masked first last
mask_value-masked first last lt lt' =
    let row =
      all_below_lt 32 (λ first. all_below 32 (λ last. mask_value first last == masked first last))
        first table lt in
    let cell = all_below_lt 32 (λ last. mask_value first last == masked first last) last row lt' in
    (==_iff (mask_value first last) (masked first last)).0 cell

digits_le : (n a b : ℕ) → digits (λ b. zero) min n a b ≤ b
digits_le zero a b = omega arith
digits_le (suc n) zero b = omega arith
digits_le (suc n) (suc a) b = let rest = digits_le n (suc a / 2) (b / 2) in omega arith

pub bit_and_le : (a b : ℕ) → bit_and a b ≤ b
bit_and_le a b =
    let eq : bit_and a b ≡ digits (λ b. zero) min a a b = (λ i. bit_and-bitwise a b i) in
    rw eq (digits_le a a b)
