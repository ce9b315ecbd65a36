-- ===== src/Analysis/Vm.antt =====
-- src/analysis/vm.rs: what the virtual machine knows of its registers, and how a compare and a
-- conditional branch refine it.
pub mod Refine
pub mod Branches
pub mod Integers
pub mod Clones
pub mod Rotate
use decomp_toolkit.Prelude.{
  ℕ, zero, suc, ◌+◌, ◌-◌, ◌/◌, ◌%◌, ◌^◌, min, max, bit_and, bit_or, Bool, true, false, List, [],
  ◌∷◌, Option, none, some, leb, ◌==◌, if◌then◌else◌, get_elem?, set, Result, ok, panic, ◌>>=◌,
  expect, ltb,
}
use decomp_toolkit.Obj.Addresses.{SectionAddress}

-- `RelocationTarget` of src/analysis/mod.rs
pub data RelocationTarget : Type 0 where
  address : SectionAddress → RelocationTarget
  external : RelocationTarget

pub data GprValue : Type 0 where
  unknown : GprValue
  constant : ℕ → GprValue
  address : RelocationTarget → GprValue
  comparison_result : ℕ → GprValue
  range : ℕ → ℕ → ℕ → GprValue
  load_indexed : RelocationTarget → Option ℕ → GprValue

pub record Gpr : Type 0 where
  pub value : GprValue
  pub hi_addr : Option SectionAddress
  pub lo_addr : Option SectionAddress

pub record Cr : Type 0 where
  pub left : GprValue
  pub right : GprValue
  pub signed : Bool

-- `gpr` has 32 entries and `cr` 8.
pub record Vm : Type 0 where
  pub gpr : List Gpr
  pub cr : List Cr
  pub lr : GprValue
  pub ctr : GprValue

-- The outcome of code that may panic.
abbrev pub Checked {ℓ} : Type ℓ → Type ℓ
Checked A = Result (Unit {0}) A

-- `wrapping_sub(1)`, `wrapping_add(1)` and `u32::MAX`
abbrev pub before : ℕ → ℕ
before value = (value + 4294967295) % 4294967296

abbrev pub behind : ℕ → ℕ
behind value = (value + 1) % 4294967296

abbrev pub max_u32 : ℕ
max_u32 = 4294967295

-- The values where the register is below the constant are the second of a pair, the others the
-- first.
abbrev pub split_lt : GprValue → GprValue → GprValue × GprValue
split_lt (range lo hi step) (constant value) = (
  range (max lo value) (max hi value) step,
  range (min lo (before value)) (min hi (before value)) step,
)
split_lt left (constant value) = (range value max_u32 1, range 0 (before value) 1)
split_lt left right = (left, left)

abbrev pub split_gt : GprValue → GprValue → GprValue × GprValue
split_gt (range lo hi step) (constant value) = (
  range (min lo value) (min hi value) step,
  range (max lo (behind value)) (max hi (behind value)) step,
)
split_gt left (constant value) = (range 0 value 1, range (behind value) max_u32 1)
split_gt left right = (left, left)

abbrev pub split_eq : GprValue → GprValue → GprValue × GprValue
split_eq (constant l) (constant r) = (if l == r then unknown else constant l, constant r)
split_eq left (constant value) = (left, constant value)
split_eq left right = (left, left)

unfoldable pub split_values_by_crb : ℕ → GprValue → GprValue → Checked (GprValue × GprValue)
split_values_by_crb crb left right =
    if crb == 0
    then ok (split_lt left right)
    else if crb == 1
    then ok (split_gt left right)
    else if crb == 2
    then ok (split_eq left right)
    else if crb == 3
    then ok (left, left)
    else panic

-- The loops over the bits of a mask. A shift by more than 31 panics.
unfoldable pub set_bits : ℕ → ℕ → ℕ → ℕ
set_bits zero bit mask = mask
set_bits (suc n) bit mask = set_bits n (suc bit) (bit_or mask (2 ^ (31 - bit)))

unfoldable pub clear_bits : ℕ → ℕ → ℕ → ℕ
clear_bits zero bit mask = mask
clear_bits (suc n) bit mask = clear_bits n (suc bit) (bit_and mask (max_u32 - 2 ^ (31 - bit)))

-- On `begin` and `end` below 32, which are fields of five bits.
unfoldable pub mask_value : ℕ → ℕ → ℕ
unfolding set_bits clear_bits
mask_value first last =
    if leb first last
    then set_bits (suc last - first) first 0
    else if first == last + 1
    then max_u32
    else clear_bits (first - (last + 1)) (last + 1) max_u32

-- The arm of `step` for `cmp`, `cmpi`, `cmpl` and `cmpli` with `L` clear, where `right` and `signed`
-- come from the instruction.
unfoldable pub compare_gpr : ℕ → ℕ → GprValue → Bool → Vm → Checked Vm
compare_gpr left_reg crf right signed vm = do
  g ← expect (get_elem? vm.gpr left_reg)
  c ← expect (get_elem? vm.cr crf)
  ok (record vm {
    gpr = set vm.gpr left_reg (record g { value = comparison_result crf });
    cr = set vm.cr crf (record { left = g.value; right = right; signed = signed });
  })

abbrev pub is_result_of : ℕ → GprValue → Bool
is_result_of crf (comparison_result n) = n == crf
is_result_of crf _ = false

unfoldable pub set_results : GprValue → ℕ → List Gpr → List Gpr
set_results value crf [] = []
set_results value crf (g ∷ gs) =
    (if is_result_of crf g.value then record g { value = value } else g) ∷ set_results value crf gs

unfoldable pub set_comparison_result : GprValue → ℕ → Vm → Vm
unfolding set_results
set_comparison_result value crf vm = record vm { gpr = set_results value crf vm.gpr }

-- The machines of a conditional branch, not taken and taken: `bo & 0b11110` tells a branch if the
-- bit is false from one if it is true.
unfoldable pub sides : ℕ → ℕ → GprValue → GprValue → Vm → Vm × Vm
unfolding set_comparison_result
sides bo crf f_val t_val vm =
    if bit_and bo 0b11110 == 0b00100
    then (set_comparison_result t_val crf vm, set_comparison_result f_val crf vm)
    else if bit_and bo 0b11110 == 0b01100
    then (set_comparison_result f_val crf vm, set_comparison_result t_val crf vm)
    else (vm, vm)

unfoldable pub branch_machines : ℕ → ℕ → Vm → Checked (Vm × Vm)
unfolding split_values_by_crb sides
branch_machines bo bi vm = do
  let crf = bi / 4
  c ← expect (get_elem? vm.cr crf)
  (f_val, t_val) ← split_values_by_crb (bi % 4) c.left c.right
  ok (sides bo crf f_val t_val vm)
