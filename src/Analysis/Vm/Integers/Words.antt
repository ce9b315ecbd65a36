-- ===== src/Analysis/Vm/Integers/Words.antt =====
-- The arms for sums, differences and disjunctions against what the processor computes.
use decomp_toolkit.Prelude.{
  ℕ, zero, suc, ◌+◌, ◌*◌, ◌-◌, ◌%◌, ◌<◌, ◌≡◌, refl, bit_or, Bool, true, List, [], ◌∷◌, Option, none,
  some, ◌==◌, if◌then◌else◌, get_elem?, set, length, ok, arith, All, get_elem?_of_lt,
}
use decomp_toolkit.Analysis.Vm.{RelocationTarget, GprValue, constant, address, Gpr, Vm}
use decomp_toolkit.Analysis.Vm.Refine.{Holds}
use decomp_toolkit.Analysis.Vm.Branches.{HoldsAll}
use decomp_toolkit.Analysis.Vm.Integers.{
  read, write, add_values, addis_value, addi_value, subf_value, or_value, Instruction, add, addis,
  addi, addic, subf, subfic, ori, disjoin,
}
use mathlib.Core.Path.{subst}

-- A word of the registers, where register 0 stands for 0 if it is `base`.
abbrev pub base_word : ℕ → List ℕ → Option ℕ
base_word ra vs = if ra == 0 then some 0 else get_elem? vs ra

abbrev pub both : Option ℕ → Option ℕ → (ℕ → ℕ → ℕ) → Option ℕ
both (some a) (some b) f = some (f a b)
both a b f = none

-- The word that the instruction computes from the words of the registers. A register in a
-- disjunction with itself keeps its word.
abbrev pub computed : Instruction → List ℕ → Option ℕ
computed (add rd ra rb) vs = both (get_elem? vs ra) (get_elem? vs rb) (λ a b. (a + b) % 4294967296)
computed (addis rd ra simm) vs =
    both (base_word ra vs) (some simm) (λ a n. (a + n * 65536) % 4294967296)
computed (addi rd ra simm) vs = both (base_word ra vs) (some simm) (λ a n. (a + n) % 4294967296)
computed (addic rd ra simm) vs = both (get_elem? vs ra) (some simm) (λ a n. (a + n) % 4294967296)
computed (subf rd ra rb) vs =
    both (get_elem? vs ra) (get_elem? vs rb) (λ a b. (b + (4294967296 - a)) % 4294967296)
computed (subfic rd ra simm) vs =
    both (get_elem? vs ra) (some simm) (λ a n. (n + (4294967296 - a)) % 4294967296)
computed (ori ra rs uimm) vs = both (get_elem? vs rs) (some uimm) bit_or
computed (disjoin ra rs rb) vs =
    both (get_elem? vs rs) (get_elem? vs rb) (λ a b. if rs == rb then a else bit_or a b)

abbrev pub written : Instruction → ℕ
written (add rd ra rb) = rd
written (addis rd ra simm) = rd
written (addi rd ra simm) = rd
written (addic rd ra simm) = rd
written (subf rd ra rb) = rd
written (subfic rd ra simm) = rd
written (ori ra rs uimm) = ra
written (disjoin ra rs rb) = ra

-- The code asserts of a relocated `addis` that it adds to no register.
abbrev pub asserted : Option RelocationTarget → Instruction → Bool
asserted (some target) (addis rd ra simm) = ra == 0
asserted target i = true

pub add_values-Holds :
    (left right : GprValue) (a b : ℕ)
    → Holds left a
    → Holds right b
    → Holds (add_values left right) ((a + b) % 4294967296)
add_values-Holds (constant l) (constant r) a b hl hr = rw (hl, hr) refl
add_values-Holds (address (address l)) (constant r) a b hl hr = tt
add_values-Holds (constant l) (address (address r)) a b hl hr = tt
add_values-Holds left right a b hl hr = tt

pub addis_value-Holds :
    (left : GprValue) (simm a : ℕ)
    → Holds left a
    → Holds (addis_value left simm) ((a + simm * 65536) % 4294967296)
addis_value-Holds (constant l) simm a h = omega arith
addis_value-Holds left simm a h = tt

pub addi_value-Holds :
    (left : GprValue) (simm a : ℕ)
    → Holds left a
    → Holds (addi_value left simm) ((a + simm) % 4294967296)
addi_value-Holds (constant l) simm a h = omega arith
addi_value-Holds (address (address l)) simm a h = tt
addi_value-Holds left simm a h = tt

pub subf_value-Holds :
    (left right : GprValue) (a b : ℕ)
    → a < 4294967296
    → Holds left a
    → Holds right b
    → Holds (subf_value left right) ((b + (4294967296 - a)) % 4294967296)
subf_value-Holds (constant l) (constant r) a b ba hl hr = omega arith
subf_value-Holds left right a b ba hl hr = tt

pub or_value-Holds :
    (left right : GprValue) (a b : ℕ)
    → Holds left a
    → Holds right b
    → Holds (or_value left right) (bit_or a b)
or_value-Holds (constant l) (constant r) a b hl hr = rw (hl, hr) refl
or_value-Holds left right a b hl hr = tt

pub HoldsAll-read :
    (gs : List Gpr) (vs : List ℕ) (a : ℕ) {l : ℕ}
    → HoldsAll gs vs
    → get_elem? vs a ≡ some l
    → (g : Gpr) × (get_elem? gs a ≡ some g) × Holds g.value l
HoldsAll-read [] [] a h e = absurd (cc e)
HoldsAll-read [] (v ∷ vs) a h e = elim h [ ]
HoldsAll-read (x ∷ gs) [] a h e = elim h [ ]
HoldsAll-read (x ∷ gs) (v ∷ vs) zero {l} h e =
    let eq : v ≡ l = (cc) in (x, refl, subst (Holds x.value) eq h.0)
HoldsAll-read (x ∷ gs) (v ∷ vs) (suc a) h e = HoldsAll-read gs vs a h.1 e

HoldsAll-write :
    (gs : List Gpr) (vs : List ℕ) (a w : ℕ) (g : Gpr)
    → HoldsAll gs vs
    → Holds g.value w
    → HoldsAll (set gs a g) (set vs a w)
HoldsAll-write [] [] a w g h k = tt
HoldsAll-write [] (v ∷ vs) a w g h k = elim h [ ]
HoldsAll-write (x ∷ gs) [] a w g h k = elim h [ ]
HoldsAll-write (x ∷ gs) (v ∷ vs) zero w g h k = (k, h.1)
HoldsAll-write (x ∷ gs) (v ∷ vs) (suc a) w g h k = (h.0, HoldsAll-write gs vs a w g h.1 k)

pub both-inv :
    (x y : Option ℕ) (f : ℕ → ℕ → ℕ) {w : ℕ}
    → both x y f ≡ some w
    → (a : ℕ) × (b : ℕ) × (x ≡ some a) × (y ≡ some b) × (w ≡ f a b)
both-inv (some a) (some b) f h = (a, b, refl, refl, cc)
both-inv (some a) none f h = absurd (cc h)
both-inv none y f h = absurd (cc h)

-- The word of each register is below 2^32.
pub word_lt :
    (vs : List ℕ) (a : ℕ) {l : ℕ}
    → All (λ v. v < 4294967296) vs
    → get_elem? vs a ≡ some l
    → l < 4294967296
word_lt [] a h e = absurd (cc e)
word_lt (v ∷ vs) zero {l} h e = let eq : v ≡ l = (cc) in rw eq at h.0
word_lt (v ∷ vs) (suc a) h e = word_lt vs a h.1 e

pub read-Holds :
    (vm : Vm) (vs : List ℕ) (a : ℕ) {l : ℕ}
    → HoldsAll vm.gpr vs
    → get_elem? vs a ≡ some l
    → (g : Gpr) × (read a vm ≡ ok g) × Holds g.value l
unfolding read
read-Holds vm vs a h e = let (g, eg, k) = HoldsAll-read vm.gpr vs a h e in (g, rw eg refl, k)

pub write-Holds :
    (vm : Vm) (vs : List ℕ) (a w : ℕ) (g : Gpr)
    → HoldsAll vm.gpr vs
    → a < length vs
    → Holds g.value w
    → (vm₁ : Vm) × (write a g vm ≡ ok vm₁) × HoldsAll vm₁.gpr (set vs a w)
unfolding write
write-Holds vm vs a w g h lt k =
    let (l, el) = get_elem?_of_lt vs a lt in
    let (old, eo, k') = HoldsAll-read vm.gpr vs a h el in
    (record vm { gpr = set vm.gpr a g }, rw eo refl, HoldsAll-write vm.gpr vs a w g h k)
