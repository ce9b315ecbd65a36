-- ===== src/Util/Split/Padding/Aligned.antt =====
-- Rounding an address up.
use decomp_toolkit.Prelude.{
  ℕ, zero, suc, ◌+◌, ◌-◌, ◌/◌, ◌^◌, ◌≤◌, ◌<◌, ◌≡◌, refl, min, bit_and, false, leb, ◌==◌, ◌||◌, ok,
  arith, Bool-cases, inl, inr,
}
use Prim.Native.Nat.{bit_and-bitwise, digits}
use decomp_toolkit.Util.Split.Padding.{PadError, align_up}

digits_ones : (w n a b : ℕ) → b + 1 ≡ 2 ^ w → a ≤ n → a ≤ b → digits (λ b. zero) min n a b ≡ a
digits_ones w zero a b h le lt = omega arith
digits_ones w (suc n) zero b h le lt = refl
digits_ones zero (suc n) (suc a) b h le lt = absurd (omega arith)
digits_ones (suc w) (suc n) (suc a) b h le lt =
    let rest = digits_ones w n (suc a / 2) (b / 2) (omega arith) (omega arith) (omega arith) in
    rw rest (omega arith)

-- Rounding up to a multiple of one changes nothing.
pub align_up_one : (a : ℕ) → a < 2 ^ 32 → align_up {E = PadError} a 1 ≡ ok a
unfolding align_up
align_up_one a h =
    let eq : bit_and a (2 ^ 32 - 1) ≡ digits (λ b. zero) min a a (2 ^ 32 - 1) =
      (λ i. bit_and-bitwise a (2 ^ 32 - 1) i) in
    let same = digits_ones 32 a a (2 ^ 32 - 1) refl (omega arith) (omega arith) in
    let fits : leb (2 ^ 32) (a + 0) ≡ false = (ground arith) in
    let plain : a + 0 ≡ a = (omega arith) in rw (fits, plain, eq, same) refl

pow_pos : (k : ℕ) → 0 < 2 ^ k
pow_pos zero = omega arith
pow_pos (suc k) = let rest = pow_pos k in omega arith

digits_mask_lt :
    (k w n a b : ℕ)
    → b + 2 ^ k ≡ 2 ^ w
    → a ≤ n
    → a < 2 ^ w
    → a < digits (λ b. zero) min n a b + 2 ^ k
digits_mask_lt zero w n a b h le lt =
    let same = digits_ones w n a b h le (omega arith) in rw same (omega arith)
digits_mask_lt (suc k) w zero a b h le lt = let pos = pow_pos k in omega arith
digits_mask_lt (suc k) w (suc n) zero b h le lt = let pos = pow_pos k in omega arith
digits_mask_lt (suc k) zero (suc n) (suc a) b h le lt = absurd (omega arith)
digits_mask_lt (suc k) (suc w) (suc n) (suc a) b h le lt =
    let rest = digits_mask_lt k w n (suc a / 2) (b / 2) (omega arith) (omega arith) (omega arith) in
    omega arith

pow_le : (k w : ℕ) → k < w → 2 ^ k ≤ 2 ^ w
pow_le k zero lt = absurd (omega arith)
pow_le zero (suc w) lt = pow_pos (suc w)
pow_le (suc k) (suc w) lt = let rest = pow_le k w (omega arith) in omega arith

-- Rounding up to a multiple of a power of two does not round down.
pub align_up_le :
    (k a : ℕ) {aligned : ℕ} → k < 32 → align_up {E = PadError} a (2 ^ k) ≡ ok aligned → a ≤ aligned
unfolding align_up
align_up_le k a {aligned} lt h =
    let pos = pow_pos k in
    let step = 2 ^ k in
    let x = a + (step - 1) in
    let fits = pow_le k 32 lt in
    let eq : bit_and x (2 ^ 32 - step) ≡ digits (λ b. zero) min x x (2 ^ 32 - step) =
      (λ i. bit_and-bitwise x (2 ^ 32 - step) i) in
    elim (Bool-cases (step == 0 || leb (2 ^ 32) x)) [
      | inl t ↦ absurd (ground arith)
      | inr f ↦
          let room : leb (2 ^ 32) x ≡ false = (ground arith) in
          let below =
            digits_mask_lt k 32 x x (2 ^ 32 - step) (omega arith) (omega arith) (ground arith) in
          let made : ok (bit_and x (2 ^ 32 - step)) ≡ ok aligned = (rw f at h) in
          let same : bit_and x (2 ^ 32 - step) ≡ aligned = (cc) in omega arith
    ]
