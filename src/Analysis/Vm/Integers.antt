-- ===== src/Analysis/Vm/Integers.antt =====
-- The arms of `VM::step` in src/analysis/vm.rs for sums, differences and disjunctions of registers.
pub mod Words
pub mod Arms
pub mod Steps
use decomp_toolkit.Prelude.{
  ℕ, ◌+◌, ◌*◌, ◌-◌, ◌%◌, bit_or, Bool, true, false, Option, none, some, ◌==◌, if◌then◌else◌,
  get_elem?, set, Result, ok, panic, ◌>>=◌, expect,
}
use decomp_toolkit.Obj.Addresses.{SectionAddress, wrapping_add, offset}
use decomp_toolkit.Analysis.Vm.{
  RelocationTarget, GprValue, unknown, constant, address, Gpr, Vm, Checked, max_u32,
}

abbrev pub set_direct : GprValue → Gpr
set_direct value = record { value = value; hi_addr = none; lo_addr = none }

abbrev pub set_hi : GprValue → SectionAddress → Gpr
set_hi value addr = record { value = value; hi_addr = some addr; lo_addr = none }

abbrev pub lo_of : Option SectionAddress → SectionAddress → SectionAddress
lo_of none addr = addr
lo_of (some lo) addr = lo

abbrev pub set_lo : GprValue → SectionAddress → Gpr → Gpr
set_lo value addr hi_gpr = record {
  value = value;
  hi_addr = hi_gpr.hi_addr;
  lo_addr = some (lo_of hi_gpr.lo_addr addr);
}

unfoldable pub read : ℕ → Vm → Checked Gpr
read reg vm = expect (get_elem? vm.gpr reg)

unfoldable pub write : ℕ → Gpr → Vm → Checked Vm
write reg new vm = do
  old ← expect (get_elem? vm.gpr reg)
  ok (record vm { gpr = set vm.gpr reg new })

-- `u32::wrapping_add` and `!`
abbrev pub wrapping_sum : ℕ → ℕ → ℕ
wrapping_sum a b = (a + b) % 4294967296

abbrev pub complement : ℕ → ℕ
complement a = max_u32 - a

abbrev pub add_values : GprValue → GprValue → GprValue
add_values (constant left) (constant right) = constant (wrapping_sum left right)
add_values (address (address left)) (constant right) = address (address (wrapping_add left right))
add_values (constant left) (address (address right)) = address (address (wrapping_add right left))
add_values left right = unknown

abbrev pub addis_value : GprValue → ℕ → GprValue
addis_value (constant value) simm = constant (wrapping_sum value ((simm * 65536) % 4294967296))
addis_value left simm = unknown

abbrev pub addi_value : GprValue → ℕ → GprValue
addi_value (constant value) simm = constant (wrapping_sum value simm)
addi_value (address (address a)) simm = address (address (offset a simm))
addi_value left simm = unknown

abbrev pub subf_value : GprValue → GprValue → GprValue
subf_value (constant left) (constant right) =
    constant (wrapping_sum (wrapping_sum (complement left) right) 1)
subf_value left right = unknown

abbrev pub or_value : GprValue → GprValue → GprValue
or_value (constant left) (constant right) = constant (bit_or left right)
or_value left right = unknown

-- The instructions of these arms, with the fields that `step` reads. A signed immediate is its bit
-- pattern, extended to 32 bits.
pub data Instruction : Type 0 where
  add : ℕ → ℕ → ℕ → Instruction
  addis : ℕ → ℕ → ℕ → Instruction
  addi : ℕ → ℕ → ℕ → Instruction
  addic : ℕ → ℕ → ℕ → Instruction
  subf : ℕ → ℕ → ℕ → Instruction
  subfic : ℕ → ℕ → ℕ → Instruction
  ori : ℕ → ℕ → ℕ → Instruction
  disjoin : ℕ → ℕ → ℕ → Instruction

-- The immediate form of a sum, where `load_zero` tells `li`.
unfoldable pub add_immediate :
    Option RelocationTarget → SectionAddress → Bool → ℕ → ℕ → ℕ → Vm → Checked Vm
unfolding read write
add_immediate (some target) ins_addr load_zero rd ra simm vm = do
  hi ← read ra vm
  write rd (set_lo (address target) ins_addr hi) vm
add_immediate none ins_addr true rd ra simm vm =
    write rd (set_direct (addi_value (constant 0) simm)) vm
add_immediate none ins_addr false rd ra simm vm = do
  left ← read ra vm
  write rd (set_lo (addi_value left.value simm) ins_addr left) vm

-- `addis`: with a target, a debug assertion that the source is not a register.
unfoldable pub add_shifted :
    Option RelocationTarget → SectionAddress → Bool → ℕ → ℕ → ℕ → Vm → Checked Vm
unfolding read write
add_shifted (some target) ins_addr true rd ra simm vm =
    write rd (set_hi (address target) ins_addr) vm
add_shifted (some target) ins_addr false rd ra simm vm = panic
add_shifted none ins_addr true rd ra simm vm =
    write rd (set_hi (addis_value (constant 0) simm) ins_addr) vm
add_shifted none ins_addr false rd ra simm vm = do
  left ← read ra vm
  write rd (set_direct (addis_value left.value simm)) vm

unfoldable pub or_immediate : Option RelocationTarget → SectionAddress → ℕ → ℕ → ℕ → Vm → Checked Vm
unfolding read write
or_immediate (some target) ins_addr ra rs uimm vm = do
  hi ← read rs vm
  write ra (set_lo (address target) ins_addr hi) vm
or_immediate none ins_addr ra rs uimm vm = do
  left ← read rs vm
  write ra (set_lo (or_value left.value (constant uimm)) ins_addr left) vm

-- `target` is what `relocation_target_for` finds at the instruction, if anything.
unfoldable pub step : Option RelocationTarget → SectionAddress → Instruction → Vm → Checked Vm
unfolding read write add_immediate add_shifted or_immediate
step target ins_addr (add rd ra rb) vm = do
  left ← read ra vm
  right ← read rb vm
  write rd (set_direct (add_values left.value right.value)) vm
step target ins_addr (addis rd ra simm) vm = add_shifted target ins_addr (ra == 0) rd ra simm vm
step target ins_addr (addi rd ra simm) vm = add_immediate target ins_addr (ra == 0) rd ra simm vm
step target ins_addr (addic rd ra simm) vm = add_immediate target ins_addr false rd ra simm vm
step target ins_addr (subf rd ra rb) vm = do
  left ← read ra vm
  right ← read rb vm
  write rd (set_direct (subf_value left.value right.value)) vm
step target ins_addr (subfic rd ra simm) vm = do
  left ← read ra vm
  write rd (set_direct (subf_value left.value (constant simm))) vm
step target ins_addr (ori ra rs uimm) vm = or_immediate target ins_addr ra rs uimm vm
step target ins_addr (disjoin ra rs rb) vm = do
  left ← read rs vm
  right ← read rb vm
  write ra (if rs == rb then left else set_direct (or_value left.value right.value)) vm
