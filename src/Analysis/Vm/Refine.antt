-- ===== src/Analysis/Vm/Refine.antt =====
-- A conditional branch on an unsigned comparison narrows the register to values that it may have.
use decomp_toolkit.Prelude.{
  ℕ, ◌≤◌, ◌<◌, ◌≡◌, Bool, true, false, ltb, ◌==◌, if◌then◌else◌, ok, arith, refl, inl, inr, ◌⊎◌,
}
use decomp_toolkit.Analysis.Vm.{
  GprValue, unknown, constant, address, comparison_result, range, load_indexed, split_lt, split_gt,
  split_eq, split_values_by_crb,
}

-- The register may have the value: a constant and a range bound it, all else tells nothing.
abbrev pub Holds : GprValue → ℕ → Type 0
Holds (constant c) v = v ≡ c
Holds (range lo hi step) v = (lo ≤ v) × (v ≤ hi)
Holds unknown v = Unit
Holds (address t) v = Unit
Holds (comparison_result n) v = Unit
Holds (load_indexed t m) v = Unit

-- The bit of the condition register after `cmplw` of `l` and `r`, where `so` is the overflow bit.
abbrev pub compared : ℕ → Bool → ℕ → ℕ → Bool
compared crb so l r =
    if crb == 0 then ltb l r else if crb == 1 then ltb r l else if crb == 2 then l == r else so

abbrev pub chosen : Bool → GprValue × GprValue → GprValue
chosen b p = if b then p.1 else p.0

crb_cases : (crb : ℕ) → crb < 4 → (crb ≡ 0) ⊎ ((crb ≡ 1) ⊎ ((crb ≡ 2) ⊎ (crb ≡ 3)))
crb_cases crb h = omega arith

chosen-Holds :
    (b : Bool) (p : GprValue × GprValue) (v : ℕ)
    → (b ≡ false → Holds p.0 v)
    → (b ≡ true → Holds p.1 v)
    → Holds (chosen b p) v
chosen-Holds true p v f t = t refl
chosen-Holds false p v f t = f refl

split_lt-Holds :
    (left right : GprValue) (l r : ℕ)
    → l < 4294967296
    → r < 4294967296
    → Holds left l
    → Holds right r
    → Holds (chosen (ltb l r) (split_lt left right)) l
split_lt-Holds (range lo hi step) (constant v) l r bl br hl hr =
    chosen-Holds (ltb l r) (split_lt (range lo hi step) (constant v)) l (λ f. ground arith)
      (λ t. ground arith)
split_lt-Holds left (constant v) l r bl br hl hr =
    chosen-Holds (ltb l r) (split_lt left (constant v)) l (λ f. ground arith) (λ t. ground arith)
split_lt-Holds left right l r bl br hl hr =
    chosen-Holds (ltb l r) (left, left) l (λ f. hl) (λ t. hl)

split_gt-Holds :
    (left right : GprValue) (l r : ℕ)
    → l < 4294967296
    → r < 4294967296
    → Holds left l
    → Holds right r
    → Holds (chosen (ltb r l) (split_gt left right)) l
split_gt-Holds (range lo hi step) (constant v) l r bl br hl hr =
    chosen-Holds (ltb r l) (split_gt (range lo hi step) (constant v)) l (λ f. ground arith)
      (λ t. ground arith)
split_gt-Holds left (constant v) l r bl br hl hr =
    chosen-Holds (ltb r l) (split_gt left (constant v)) l (λ f. ground arith) (λ t. ground arith)
split_gt-Holds left right l r bl br hl hr =
    chosen-Holds (ltb r l) (left, left) l (λ f. hl) (λ t. hl)

split_eq-Holds :
    (left right : GprValue) (l r : ℕ)
    → l < 4294967296
    → r < 4294967296
    → Holds left l
    → Holds right r
    → Holds (chosen (l == r) (split_eq left right)) l
split_eq-Holds (constant c) (constant v) l r bl br hl hr =
    chosen-Holds (l == r) (split_eq (constant c) (constant v)) l (λ f. ground arith)
      (λ t. ground arith)
split_eq-Holds left (constant v) l r bl br hl hr =
    chosen-Holds (l == r) (split_eq left (constant v)) l (λ f. ground arith) (λ t. ground arith)
split_eq-Holds left right l r bl br hl hr = chosen-Holds (l == r) (left, left) l (λ f. hl) (λ t. hl)

-- For an unsigned comparison of two 32-bit words, each among the values that are known for it,
-- `split_values_by_crb` returns for each of the four bits, and the branch that the bit selects
-- keeps the left word among its values.
pub split_values_by_crb-Holds :
    (crb : ℕ) (so : Bool) (left right : GprValue) (l r : ℕ)
    → crb < 4
    → l < 4294967296
    → r < 4294967296
    → Holds left l
    → Holds right r
    → (p : GprValue × GprValue) × (split_values_by_crb crb left right ≡ ok p)
      × Holds (chosen (compared crb so l r) p) l
unfolding split_values_by_crb
split_values_by_crb-Holds crb so left right l r four bl br hl hr = elim (crb_cases crb four) [
  | inl e ↦ rw e (split_lt left right, refl, split_lt-Holds left right l r bl br hl hr)
  | inr (inl e) ↦ rw e (split_gt left right, refl, split_gt-Holds left right l r bl br hl hr)
  | inr (inr (inl e)) ↦ rw e (split_eq left right, refl, split_eq-Holds left right l r bl br hl hr)
  | inr (inr (inr e)) ↦
      rw e ((left, left), refl, chosen-Holds so (left, left) l (λ f. hl) (λ t. hl))
]
