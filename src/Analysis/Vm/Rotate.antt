-- ===== src/Analysis/Vm/Rotate.antt =====
-- The arm of `VM::step` in src/analysis/vm.rs for `rlwinm` and `rlwnm`.
pub mod Masks
pub mod Masked
use decomp_toolkit.Prelude.{ℕ, ◌+◌, ◌*◌, ◌-◌, ◌/◌, ◌%◌, ◌^◌, bit_and, Option, none, some, ok, ◌>>=◌}
use decomp_toolkit.Analysis.Vm.{GprValue, unknown, constant, range, Vm, Checked, mask_value}
use decomp_toolkit.Analysis.Vm.Integers.{set_direct, read, write}

-- `u32::rotate_left`
abbrev pub rotate_left : ℕ → ℕ → ℕ
rotate_left word n = (word * 2 ^ (n % 32)) % 4294967296 + word / 2 ^ (32 - n % 32)

abbrev pub rotated_value : ℕ → ℕ → GprValue → GprValue
rotated_value shift mask (constant value) = constant (bit_and (rotate_left value shift) mask)
rotated_value shift mask (range lo hi step) =
    range (bit_and (rotate_left lo shift) mask) (bit_and (rotate_left hi shift) mask)
      (rotate_left step shift)
rotated_value shift mask other = range 0 mask (rotate_left 1 shift)

-- The amount of `rlwinm` is a field, that of `rlwnm` is in a register.
pub data Amount : Type 0 where
  immediate : ℕ → Amount
  in_register : ℕ → Amount

abbrev pub known_amount : GprValue → Option ℕ
known_amount (constant value) = some value
known_amount other = none

unfoldable pub shift_of : Amount → Vm → Checked (Option ℕ)
unfolding read
shift_of (immediate sh) vm = ok (some sh)
shift_of (in_register rb) vm = do g ← read rb vm; ok (known_amount g.value)

abbrev pub shifted_value : Option ℕ → ℕ → GprValue → GprValue
shifted_value none mask value = unknown
shifted_value (some shift) mask value = rotated_value shift mask value

unfoldable pub rotate_and_mask : Amount → ℕ → ℕ → ℕ → ℕ → Vm → Checked Vm
unfolding mask_value shift_of read write
rotate_and_mask amount mb me ra rs vm = do
  shift ← shift_of amount vm
  g ← read rs vm
  write ra (set_direct (shifted_value shift (mask_value mb me) g.value)) vm
