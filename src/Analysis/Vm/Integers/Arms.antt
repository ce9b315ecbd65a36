-- ===== src/Analysis/Vm/Integers/Arms.antt =====
-- Each arm for sums, differences and disjunctions writes a register of which the machine knows what
-- may be so.
use decomp_toolkit.Prelude.{
  ℕ, ◌+◌, ◌*◌, ◌%◌, ◌<◌, ◌≡◌, refl, bit_or, Bool, true, false, List, Option, none, some, ◌==◌,
  get_elem?, set, length, ok, arith, Result, ◌⊎◌, Bool-cases, inl, inr, lt_of_get_elem?,
  get_elem?_of_lt,
}
use decomp_toolkit.Obj.Addresses.{SectionAddress}
use decomp_toolkit.Analysis.Vm.{RelocationTarget, constant, address, Vm}
use decomp_toolkit.Analysis.Vm.Branches.{HoldsAll}
use decomp_toolkit.Analysis.Vm.Integers.{
  set_direct, set_hi, set_lo, addis_value, addi_value, or_value, add_immediate, add_shifted,
  or_immediate,
}
use decomp_toolkit.Analysis.Vm.Integers.Words.{
  base_word, addis_value-Holds, addi_value-Holds, or_value-Holds, read-Holds, write-Holds,
}

-- The source of an immediate form: 0 for `li` and `lis`, else a register.
abbrev pub IsSource : Bool → ℕ → List ℕ → ℕ → Type 0
IsSource true ra vs a = a ≡ 0
IsSource false ra vs a = get_elem? vs ra ≡ some a

pub base_word-IsSource :
    (ra : ℕ) (vs : List ℕ) (a : ℕ) → base_word ra vs ≡ some a → IsSource (ra == 0) ra vs a
base_word-IsSource ra vs a h = elim (Bool-cases (ra == 0)) [
  | inl e ↦ rw e (ground arith)
  | inr e ↦ rw e (ground arith)
]

pub base_word_lt :
    (rd ra : ℕ) (vs : List ℕ) (a : ℕ) → rd < length vs → base_word ra vs ≡ some a → ra < length vs
base_word_lt rd ra vs a lt h = elim (Bool-cases (ra == 0)) [
  | inl e ↦ ground arith
  | inr e ↦ lt_of_get_elem? vs ra {v = a} (ground arith)
]

-- After a write of the word, what is known of each register is so.
abbrev pub Writes : Result (Unit {0}) Vm → List ℕ → ℕ → ℕ → Type 0
Writes r vs rd w = (vm₁ : Vm) × (r ≡ ok vm₁) × HoldsAll vm₁.gpr (set vs rd w)

pub add_immediate-Writes :
    (target : Option RelocationTarget) (ins_addr : SectionAddress) (z : Bool) (rd ra simm : ℕ)
    (vm : Vm) (vs : List ℕ) (a : ℕ)
    → HoldsAll vm.gpr vs
    → rd < length vs
    → ra < length vs
    → IsSource z ra vs a
    → Writes (add_immediate target ins_addr z rd ra simm vm) vs rd ((a + simm) % 4294967296)
unfolding add_immediate
add_immediate-Writes (some target) ins_addr z rd ra simm vm vs a h lt lt' e =
    let (l, el) = get_elem?_of_lt vs ra lt' in
    let (g, eg, k) = read-Holds vm vs ra h el in
    rw eg
      (write-Holds vm vs rd ((a + simm) % 4294967296) (set_lo (address target) ins_addr g) h lt tt)
add_immediate-Writes none ins_addr true rd ra simm vm vs a h lt lt' e =
    write-Holds vm vs rd ((a + simm) % 4294967296) (set_direct (addi_value (constant 0) simm)) h lt
      (addi_value-Holds (constant 0) simm a e)
add_immediate-Writes none ins_addr false rd ra simm vm vs a h lt lt' e =
    let (g, eg, k) = read-Holds vm vs ra h e in
    rw eg (
      write-Holds vm vs rd ((a + simm) % 4294967296) (set_lo (addi_value g.value simm) ins_addr g) h
        lt (addi_value-Holds g.value simm a k))

pub add_shifted-Writes :
    (target : Option RelocationTarget) (ins_addr : SectionAddress) (z : Bool) (rd ra simm : ℕ)
    (vm : Vm) (vs : List ℕ) (a : ℕ)
    → HoldsAll vm.gpr vs
    → rd < length vs
    → (target ≡ none) ⊎ (z ≡ true)
    → IsSource z ra vs a
    → Writes (add_shifted target ins_addr z rd ra simm vm) vs rd ((a + simm * 65536) % 4294967296)
unfolding add_shifted
add_shifted-Writes (some target) ins_addr true rd ra simm vm vs a h lt q e =
    write-Holds vm vs rd ((a + simm * 65536) % 4294967296) (set_hi (address target) ins_addr) h lt
      tt
add_shifted-Writes (some target) ins_addr false rd ra simm vm vs a h lt (inl q) e = absurd (cc q)
add_shifted-Writes (some target) ins_addr false rd ra simm vm vs a h lt (inr q) e = absurd (cc q)
add_shifted-Writes none ins_addr true rd ra simm vm vs a h lt q e =
    write-Holds vm vs rd ((a + simm * 65536) % 4294967296)
      (set_hi (addis_value (constant 0) simm) ins_addr) h lt
      (addis_value-Holds (constant 0) simm a e)
add_shifted-Writes none ins_addr false rd ra simm vm vs a h lt q e =
    let (g, eg, k) = read-Holds vm vs ra h e in
    rw eg (
      write-Holds vm vs rd ((a + simm * 65536) % 4294967296) (set_direct (addis_value g.value simm))
        h lt (addis_value-Holds g.value simm a k))

pub or_immediate-Writes :
    (target : Option RelocationTarget) (ins_addr : SectionAddress) (ra rs uimm : ℕ) (vm : Vm)
    (vs : List ℕ) (a : ℕ)
    → HoldsAll vm.gpr vs
    → ra < length vs
    → get_elem? vs rs ≡ some a
    → Writes (or_immediate target ins_addr ra rs uimm vm) vs ra (bit_or a uimm)
unfolding or_immediate
or_immediate-Writes (some target) ins_addr ra rs uimm vm vs a h lt e =
    let (g, eg, k) = read-Holds vm vs rs h e in
    rw eg (write-Holds vm vs ra (bit_or a uimm) (set_lo (address target) ins_addr g) h lt tt)
or_immediate-Writes none ins_addr ra rs uimm vm vs a h lt e =
    let (g, eg, k) = read-Holds vm vs rs h e in
    rw eg (
      write-Holds vm vs ra (bit_or a uimm) (set_lo (or_value g.value (constant uimm)) ins_addr g) h
        lt (or_value-Holds g.value (constant uimm) a uimm k refl))
