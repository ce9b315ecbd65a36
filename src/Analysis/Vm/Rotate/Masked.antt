-- ===== src/Analysis/Vm/Rotate/Masked.antt =====
-- The rotate arm against what the processor computes.
use decomp_toolkit.Prelude.{
  ℕ, ◌<◌, ◌≡◌, refl, sym, bit_and, Bool, true, false, List, Option, some, get_elem?, set, length,
  ok, arith,
}
use decomp_toolkit.Analysis.Vm.{GprValue, constant, range, Gpr, Vm}
use decomp_toolkit.Analysis.Vm.Refine.{Holds}
use decomp_toolkit.Analysis.Vm.Branches.{HoldsAll}
use decomp_toolkit.Analysis.Vm.Integers.{set_direct, read}
use decomp_toolkit.Analysis.Vm.Integers.Words.{HoldsAll-read, read-Holds, write-Holds}
use decomp_toolkit.Analysis.Vm.Rotate.{
  rotate_left, rotated_value, Amount, immediate, in_register, known_amount, shift_of, shifted_value,
  rotate_and_mask,
}
use decomp_toolkit.Analysis.Vm.Rotate.Masks.{masked, mask_value-masked, bit_and_le}

abbrev pub is_range : GprValue → Bool
is_range (range lo hi step) = true
is_range other = false

abbrev pub amount_word : Amount → List ℕ → Option ℕ
amount_word (immediate sh) vs = some sh
amount_word (in_register rb) vs = get_elem? vs rb

rotated_value-Holds :
    (value : GprValue) (n mask a : ℕ)
    → is_range value ≡ false
    → Holds value a
    → Holds (rotated_value n mask value) (bit_and (rotate_left a n) mask)
rotated_value-Holds (range lo hi step) n mask a h k = absurd (cc h)
rotated_value-Holds (constant c) n mask a h k = rw k refl
rotated_value-Holds value n mask a h k = (omega arith, bit_and_le (rotate_left a n) mask)

shifted_value-Holds :
    (amount value : GprValue) (n mask a : ℕ)
    → is_range value ≡ false
    → Holds amount n
    → Holds value a
    → Holds (shifted_value (known_amount amount) mask value) (bit_and (rotate_left a n) mask)
shifted_value-Holds (constant c) value n mask a h hn k =
    rw (sym hn) (rotated_value-Holds value n mask a h k)
shifted_value-Holds other value n mask a h hn k = tt

read-known :
    (rs a : ℕ) (g : Gpr) (vm : Vm) (vs : List ℕ)
    → HoldsAll vm.gpr vs
    → get_elem? vs rs ≡ some a
    → get_elem? vm.gpr rs ≡ some g
    → (read rs vm ≡ ok g) × Holds g.value a
unfolding read
read-known rs a g vm vs h ea eg =
    let (g', eg', k) = HoldsAll-read vm.gpr vs rs h ea in
    let eq : g' ≡ g = (cc) in (rw eg refl, rw (sym eq) k)

-- Where what is known of each register may be so and the rotated register is not known by a range,
-- on registers that exist and a mask of two fields of five bits, `rlwinm` and `rlwnm` return
-- without a panic, and what the machine then knows of each register may be so after the instruction.
pub rotate_and_mask-HoldsAll :
    (amount : Amount) (mb me ra rs n a : ℕ) (g : Gpr) (vm : Vm) (vs : List ℕ)
    → HoldsAll vm.gpr vs
    → mb < 32
    → me < 32
    → ra < length vs
    → amount_word amount vs ≡ some n
    → get_elem? vs rs ≡ some a
    → get_elem? vm.gpr rs ≡ some g
    → is_range g.value ≡ false
    → (vm₁ : Vm) × (rotate_and_mask amount mb me ra rs vm ≡ ok vm₁)
      × HoldsAll vm₁.gpr (set vs ra (bit_and (rotate_left a n) (masked mb me)))
unfolding rotate_and_mask shift_of
rotate_and_mask-HoldsAll (immediate sh) mb me ra rs n a g vm vs h lb le lr en ea eg r =
    let (found, k) = read-known rs a g vm vs h ea eg in
    let eq : sh ≡ n = (cc) in
    rw (found, mask_value-masked mb me lb le, eq)
      (write-Holds vm vs ra (bit_and (rotate_left a n) (masked mb me))
        (set_direct (shifted_value (some n) (masked mb me) g.value)) h lr
        (rotated_value-Holds g.value n (masked mb me) a r k))
rotate_and_mask-HoldsAll (in_register rb) mb me ra rs n a g vm vs h lb le lr en ea eg r =
    let (found, k) = read-known rs a g vm vs h ea eg in
    let (g', eg', k') = read-Holds vm vs rb h en in
    rw (eg', found, mask_value-masked mb me lb le)
      (write-Holds vm vs ra (bit_and (rotate_left a n) (masked mb me))
        (set_direct (shifted_value (known_amount g'.value) (masked mb me) g.value)) h lr
        (shifted_value-Holds g'.value g.value n (masked mb me) a r k' k))
