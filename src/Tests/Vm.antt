-- ===== src/Tests/Vm.antt =====
-- The virtual machine at single instructions, and over a call.
use decomp_toolkit.Prelude.{
  [], ◌∷◌, get_elem?-set_ne, ℕ, zero, suc, ◌≡◌, refl, false, some, none, ok, arith, set, replicate,
}
use decomp_toolkit.Analysis.Vm.{
  unknown, constant, range, comparison_result, Gpr, Cr, Vm, compare_gpr, branch_machines,
}
use decomp_toolkit.Analysis.Vm.Branches.{HoldsAll, Fresh, branch_machines-HoldsAll}
use decomp_toolkit.Obj.Addresses.{SectionAddress}
use decomp_toolkit.Analysis.Vm.Integers.{set_direct, subf, step}
use decomp_toolkit.Analysis.Vm.Integers.Steps.{step-HoldsAll}
use decomp_toolkit.Analysis.Vm.Clones.{default_vm, clone_for_return, clone_for_link, new_with_base}
use decomp_toolkit.Analysis.Vm.Rotate.{immediate, rotated_value, rotate_and_mask}
use decomp_toolkit.Analysis.Vm.Rotate.Masked.{rotate_and_mask-HoldsAll}
use decomp_toolkit.Analysis.Vm.Clones.Preserved.{clone_for_return-HoldsAll}

abbrev no_value : Gpr
no_value = record { value = unknown; hi_addr = none; lo_addr = none }

abbrev no_compare : Cr
no_compare = record { left = unknown; right = unknown; signed = false }

abbrev blank : Vm
blank = record {
  gpr = replicate 32 no_value;
  cr = replicate 8 no_compare;
  lr = unknown;
  ctr = unknown;
}

-- `blank` after a compare of register 3 with 10 in field 0.
abbrev after_compare : ℕ → Vm
after_compare a = record blank {
  gpr = set (replicate 32 no_value) a (record no_value { value = comparison_result 0 });
  cr = set (replicate 8 no_compare) 0 (record no_compare { right = constant 10 });
}

HoldsAll-blank : (n v : ℕ) → HoldsAll (replicate n no_value) (replicate n v)
HoldsAll-blank zero v = tt
HoldsAll-blank (suc n) v = (tt, HoldsAll-blank n v)

Fresh-blank : (n : ℕ) → Fresh 0 (replicate n no_value)
Fresh-blank zero = tt
Fresh-blank (suc n) = (refl, Fresh-blank n)

first_compare : compare_gpr 3 0 (constant 10) false blank ≡ ok (after_compare 3)
unfolding compare_gpr
first_compare = refl

abbrev after_both : Vm
after_both = record (after_compare 3) {
  gpr = set (after_compare 3).gpr 4 (record no_value { value = comparison_result 0 });
  cr = set (replicate 8 no_compare) 0 (record no_compare { right = constant 20 });
}

second_compare : compare_gpr 4 0 (constant 20) false (after_compare 3) ≡ ok after_both
unfolding compare_gpr
second_compare = refl

-- `cmplwi r3, 10` and `blt`, where each register is 7
branch_machines-HoldsAll_example :
    (m : Vm × Vm) × (branch_machines 12 0 (after_compare 3) ≡ ok m)
    × HoldsAll (m.1).gpr (replicate 32 7)
branch_machines-HoldsAll_example =
    branch_machines-HoldsAll blank (after_compare 3) (replicate 32 7) 3 12 0 false (constant 10) 7
      10 refl (omega arith) (omega arith) refl (HoldsAll-blank 32 7) (Fresh-blank 32) first_compare

-- The branch is taken with the register below 10.
narrowed :
    branch_machines 12 0 (after_compare 3)
    ≡ ok (
      record (after_compare 3) {
        gpr = set (replicate 32 no_value) 3 (record no_value { value = range 10 4294967295 1 });
      },
      record (after_compare 3) {
        gpr = set (replicate 32 no_value) 3 (record no_value { value = range 0 9 1 });
      },
    )
unfolding branch_machines
narrowed = refl

abbrev at_start : SectionAddress
at_start = record { section = 0; address = 4096 }

-- Two registers are known, and the difference of the second and the first wraps around.
abbrev two_known : Vm
two_known = record blank { gpr = no_value ∷ set_direct (constant 9) ∷ set_direct (constant 4) ∷ [] }

step-HoldsAll_example :
    (vm₁ : Vm) × (step none at_start (subf 0 1 2) two_known ≡ ok vm₁)
    × HoldsAll vm₁.gpr (4294967291 ∷ 9 ∷ 4 ∷ [])
step-HoldsAll_example =
    step-HoldsAll none at_start (subf 0 1 2) two_known (5 ∷ 9 ∷ 4 ∷ []) 4294967291
      (tt, (refl, (refl, tt))) (omega arith, (omega arith, (omega arith, tt))) (omega arith) refl
      refl

-- `subf` and `addic` of register 0, which is no zero there.
subtracted :
    step none at_start (subf 0 1 2) two_known
    ≡ ok (record two_known {
      gpr =
          set_direct (constant 4294967291) ∷ set_direct (constant 9) ∷ set_direct (constant 4) ∷ [];
    })
unfolding step
subtracted = refl

-- A call gives register 3 another word and keeps register 31.
clone_for_return-HoldsAll_example :
    (m : Vm) × (clone_for_return blank ≡ ok m) × HoldsAll m.gpr (set (replicate 32 7) 3 8)
clone_for_return-HoldsAll_example =
    clone_for_return-HoldsAll blank (replicate 32 7) (set (replicate 32 7) 3 8)
      (HoldsAll-blank 32 7) refl
      (λ reg kept. get_elem?-set_ne (replicate 32 7) 3 reg 8 (λ e. absurd (ground arith)))

clone_of_new :
    (clone_for_link (default_vm (set (replicate 32 no_value) 13 (set_direct (constant 64)))))
    ≡ new_with_base none (some 64)
unfolding clone_for_link new_with_base
clone_of_new = refl

-- `clrlslwi`: bits 28 to 29 of the word 9 turned left by 2
rotate_and_mask-HoldsAll_example :
    (vm₁ : Vm) × (rotate_and_mask (immediate 2) 28 29 0 1 two_known ≡ ok vm₁)
    × HoldsAll vm₁.gpr (4 ∷ 9 ∷ 4 ∷ [])
rotate_and_mask-HoldsAll_example =
    rotate_and_mask-HoldsAll (immediate 2) 28 29 0 1 2 9 (set_direct (constant 9)) two_known
      (5 ∷ 9 ∷ 4 ∷ []) (tt, (refl, (refl, tt))) (omega arith) (omega arith) (omega arith) refl refl
      refl refl

-- A word from 4 to 9 and its two lowest bits: 7 is such a word, but 3 is in no range to 1.
rotated_range : rotated_value 0 3 (range 4 9 1) ≡ range 0 1 1
rotated_range = refl
