-- ===== src/Analysis/Vm/Clones.antt =====
-- The machines that `VM` of src/analysis/vm.rs starts from and keeps over a call.
pub mod Preserved
use decomp_toolkit.Prelude.{
  ℕ, zero, suc, ◌+◌, false, List, [], Option, none, some, get_elem?, set, replicate, Result, ok,
  ◌>>=◌, expect,
}
use decomp_toolkit.Analysis.Vm.{GprValue, unknown, constant, Gpr, Cr, Vm, Checked}

abbrev pub default_gpr : Gpr
default_gpr = record { value = unknown; hi_addr = none; lo_addr = none }

abbrev pub default_cr : Cr
default_cr = record { left = unknown; right = unknown; signed = false }

abbrev pub default_vm : List Gpr → Vm
default_vm gprs = record { gpr = gprs; cr = replicate 8 default_cr; lr = unknown; ctr = unknown }

-- `vm.gpr[reg].value = value`
unfoldable pub set_value : ℕ → GprValue → List Gpr → Checked (List Gpr)
set_value reg value gprs = do
  old ← expect (get_elem? gprs reg)
  ok (set gprs reg (record old { value = value }))

unfoldable pub set_base : ℕ → Option ℕ → List Gpr → Checked (List Gpr)
unfolding set_value
set_base reg none gprs = ok gprs
set_base reg (some base) gprs = set_value reg (constant base) gprs

unfoldable pub new_with_base : Option ℕ → Option ℕ → Checked Vm
unfolding set_base
new_with_base sda2_base sda_base = do
  with_sda2 ← set_base 2 sda2_base (replicate 32 default_gpr)
  with_sda ← set_base 13 sda_base with_sda2
  ok (default_vm with_sda)

unfoldable pub copy_value : List Gpr → ℕ → List Gpr → Checked (List Gpr)
unfolding set_value
copy_value from reg gprs = do g ← expect (get_elem? from reg); set_value reg g.value gprs

-- The loop from register `reg` on, `n` times.
unfoldable pub copy_registers : List Gpr → ℕ → ℕ → List Gpr → Checked (List Gpr)
copy_registers from zero reg gprs = ok gprs
copy_registers from (suc n) reg gprs = do
  g ← expect (get_elem? from reg)
  old ← expect (get_elem? gprs reg)
  copy_registers from n (reg + 1) (set gprs reg g)

unfoldable pub clone_for_link : Vm → Checked Vm
unfolding copy_value
clone_for_link vm = do
  with_sda2 ← copy_value vm.gpr 2 (replicate 32 default_gpr)
  with_sda ← copy_value vm.gpr 13 with_sda2
  ok (default_vm with_sda)

unfoldable pub clone_for_return : Vm → Checked Vm
unfolding copy_value copy_registers
clone_for_return vm = do
  with_stack ← copy_value vm.gpr 1 (replicate 32 default_gpr)
  with_sda2 ← copy_value vm.gpr 2 with_stack
  with_sda ← copy_value vm.gpr 13 with_sda2
  gprs ← copy_registers vm.gpr 18 14 with_sda
  ok (default_vm gprs)
