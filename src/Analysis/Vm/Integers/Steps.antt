-- ===== src/Analysis/Vm/Integers/Steps.antt =====
-- Every arm for sums, differences and disjunctions follows the processor.
use decomp_toolkit.Prelude.{
  ℕ, ◌+◌, ◌*◌, ◌-◌, ◌%◌, ◌<◌, ◌≡◌, refl, sym, bit_or, Bool, true, false, List, Option, none, some,
  ◌==◌, if◌then◌else◌, get_elem?, set, length, ok, All, ◌⊎◌, inl, inr, lt_of_get_elem?,
}
use decomp_toolkit.Obj.Addresses.{SectionAddress}
use decomp_toolkit.Analysis.Vm.{RelocationTarget, constant, Gpr, Vm}
use decomp_toolkit.Analysis.Vm.Refine.{Holds}
use decomp_toolkit.Analysis.Vm.Branches.{HoldsAll}
use decomp_toolkit.Analysis.Vm.Integers.{
  set_direct, add_values, subf_value, or_value, Instruction, add, addis, addi, addic, subf, subfic,
  ori, disjoin, step,
}
use decomp_toolkit.Analysis.Vm.Integers.Words.{
  base_word, computed, written, asserted, add_values-Holds, subf_value-Holds, or_value-Holds,
  both-inv, word_lt, read-Holds, write-Holds,
}
use decomp_toolkit.Analysis.Vm.Integers.Arms.{
  base_word-IsSource, base_word_lt, add_immediate-Writes, add_shifted-Writes, or_immediate-Writes,
}

asserted_cases :
    (target : Option RelocationTarget) (rd ra simm : ℕ)
    → asserted target (addis rd ra simm) ≡ true
    → (target ≡ none) ⊎ ((ra == 0) ≡ true)
asserted_cases none rd ra simm h = inl refl
asserted_cases (some target) rd ra simm h = inr h

disjoin-Holds :
    (left right : Gpr) (b : Bool) (x y : ℕ)
    → Holds left.value x
    → Holds right.value y
    → Holds
        (if b then left else set_direct (or_value left.value right.value)).value
        (if b then x else bit_or x y)
disjoin-Holds left right true x y hx hy = hx
disjoin-Holds left right false x y hx hy = or_value-Holds left.value right.value x y hx hy

-- Where what is known of each register may be so and every word is below 2^32, the arm of an
-- addition, a subtraction or a disjunction on registers that exist returns without a panic, and
-- what the machine then knows of each register may be so after the instruction; for an `addis` at
-- which a relocation is known, its source must be register 0.
pub step-HoldsAll :
    (target : Option RelocationTarget) (ins_addr : SectionAddress) (i : Instruction) (vm : Vm)
    (vs : List ℕ) (w : ℕ)
    → HoldsAll vm.gpr vs
    → All (λ v. v < 4294967296) vs
    → written i < length vs
    → computed i vs ≡ some w
    → asserted target i ≡ true
    → (vm₁ : Vm) × (step target ins_addr i vm ≡ ok vm₁) × HoldsAll vm₁.gpr (set vs (written i) w)
unfolding step
step-HoldsAll target ins_addr (add rd ra rb) vm vs w h small lt e q =
    let (a, b, ea, eb, ew) =
      both-inv (get_elem? vs ra) (get_elem? vs rb) (λ a b. (a + b) % 4294967296) e in
    let (g, eg, k) = read-Holds vm vs ra h ea in
    let (g', eg', k') = read-Holds vm vs rb h eb in
    rw (eg, eg', ew)
      (write-Holds vm vs rd ((a + b) % 4294967296) (set_direct (add_values g.value g'.value)) h lt
        (add_values-Holds g.value g'.value a b k k'))
step-HoldsAll target ins_addr (addis rd ra simm) vm vs w h small lt e q =
    let (a, b, ea, eb, ew) =
      both-inv (base_word ra vs) (some simm) (λ a n. (a + n * 65536) % 4294967296) e in
    let eq : simm ≡ b = (cc) in
    rw (ew, sym eq)
      (add_shifted-Writes target ins_addr (ra == 0) rd ra simm vm vs a h lt
        (asserted_cases target rd ra simm q) (base_word-IsSource ra vs a ea))
step-HoldsAll target ins_addr (addi rd ra simm) vm vs w h small lt e q =
    let (a, b, ea, eb, ew) =
      both-inv (base_word ra vs) (some simm) (λ a n. (a + n) % 4294967296) e in
    let eq : simm ≡ b = (cc) in
    rw (ew, sym eq)
      (add_immediate-Writes target ins_addr (ra == 0) rd ra simm vm vs a h lt
        (base_word_lt rd ra vs a lt ea) (base_word-IsSource ra vs a ea))
step-HoldsAll target ins_addr (addic rd ra simm) vm vs w h small lt e q =
    let (a, b, ea, eb, ew) =
      both-inv (get_elem? vs ra) (some simm) (λ a n. (a + n) % 4294967296) e in
    let eq : simm ≡ b = (cc) in
    rw (ew, sym eq)
      (add_immediate-Writes target ins_addr false rd ra simm vm vs a h lt (lt_of_get_elem? vs ra ea)
        ea)
step-HoldsAll target ins_addr (subf rd ra rb) vm vs w h small lt e q =
    let (a, b, ea, eb, ew) =
      both-inv (get_elem? vs ra) (get_elem? vs rb) (λ a b. (b + (4294967296 - a)) % 4294967296) e in
    let (g, eg, k) = read-Holds vm vs ra h ea in
    let (g', eg', k') = read-Holds vm vs rb h eb in
    rw (eg, eg', ew)
      (write-Holds vm vs rd ((b + (4294967296 - a)) % 4294967296)
        (set_direct (subf_value g.value g'.value)) h lt
        (subf_value-Holds g.value g'.value a b (word_lt vs ra small ea) k k'))
step-HoldsAll target ins_addr (subfic rd ra simm) vm vs w h small lt e q =
    let (a, b, ea, eb, ew) =
      both-inv (get_elem? vs ra) (some simm) (λ a n. (n + (4294967296 - a)) % 4294967296) e in
    let eq : simm ≡ b = (cc) in
    let (g, eg, k) = read-Holds vm vs ra h ea in
    rw (eg, ew, sym eq)
      (write-Holds vm vs rd ((simm + (4294967296 - a)) % 4294967296)
        (set_direct (subf_value g.value (constant simm))) h lt
        (subf_value-Holds g.value (constant simm) a simm (word_lt vs ra small ea) k refl))
step-HoldsAll target ins_addr (ori ra rs uimm) vm vs w h small lt e q =
    let (a, b, ea, eb, ew) = both-inv (get_elem? vs rs) (some uimm) bit_or e in
    let eq : uimm ≡ b = (cc) in
    rw (ew, sym eq) (or_immediate-Writes target ins_addr ra rs uimm vm vs a h lt ea)
step-HoldsAll target ins_addr (disjoin ra rs rb) vm vs w h small lt e q =
    let (a, b, ea, eb, ew) =
      both-inv (get_elem? vs rs) (get_elem? vs rb) (λ a b. if rs == rb then a else bit_or a b) e in
    let (g, eg, k) = read-Holds vm vs rs h ea in
    let (g', eg', k') = read-Holds vm vs rb h eb in
    rw (eg, eg', ew)
      (write-Holds vm vs ra (if rs == rb then a else bit_or a b)
        (if rs == rb then g else set_direct (or_value g.value g'.value)) h lt
        (disjoin-Holds g g' (rs == rb) a b k k'))
