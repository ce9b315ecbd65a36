-- ===== src/Analysis/Vm/Clones/Preserved.antt =====
-- What the machines after a call know of the registers that a call preserves.
use decomp_toolkit.Prelude.{
  ℕ, zero, suc, ◌+◌, ◌≤◌, ◌<◌, ◌≡◌, refl, sym, ◌∙◌, ◌||◌, Bool, true, List, [], ◌∷◌, some, ◌==◌,
  leb, get_elem?, set, replicate, length, ok, arith, get_elem?_of_lt,
}
use decomp_toolkit.Analysis.Vm.{Gpr, Vm}
use mathlib.Core.Path.{subst}
use decomp_toolkit.Analysis.Vm.Refine.{Holds}
use decomp_toolkit.Analysis.Vm.Branches.{HoldsAll}
use decomp_toolkit.Analysis.Vm.Integers.Words.{HoldsAll-read}
use decomp_toolkit.Analysis.Vm.Clones.{
  default_gpr, default_vm, set_value, copy_value, copy_registers, clone_for_return,
}

-- The registers that a call leaves as they are: the stack pointer, the bases of the small data
-- areas and the nonvolatile registers.
abbrev pub is_preserved : ℕ → Bool
is_preserved reg = reg == 1 || reg == 2 || leb 13 reg

HoldsAll-replicate : (n : ℕ) (ws : List ℕ) → length ws ≡ n → HoldsAll (replicate n default_gpr) ws
HoldsAll-replicate zero [] h = tt
HoldsAll-replicate zero (w ∷ ws) h = absurd (omega arith)
HoldsAll-replicate (suc n) [] h = absurd (omega arith)
HoldsAll-replicate (suc n) (w ∷ ws) h = (tt, HoldsAll-replicate n ws (omega arith))

HoldsAll-update :
    (gs : List Gpr) (ws : List ℕ) (reg : ℕ) {w : ℕ} (g : Gpr)
    → HoldsAll gs ws
    → get_elem? ws reg ≡ some w
    → Holds g.value w
    → HoldsAll (set gs reg g) ws
HoldsAll-update [] [] reg g h e k = tt
HoldsAll-update [] (w ∷ ws) reg g h e k = elim h [ ]
HoldsAll-update (x ∷ gs) [] reg g h e k = elim h [ ]
HoldsAll-update (x ∷ gs) (v ∷ ws) zero {w} g h e k =
    let eq : w ≡ v = (cc) in (subst (Holds g.value) eq k, h.1)
HoldsAll-update (x ∷ gs) (v ∷ ws) (suc reg) g h e k = (h.0, HoldsAll-update gs ws reg g h.1 e k)

copy_value-HoldsAll :
    (from gs : List Gpr) (vs ws : List ℕ) (reg : ℕ)
    → HoldsAll from vs
    → HoldsAll gs ws
    → reg < length ws
    → get_elem? ws reg ≡ get_elem? vs reg
    → (gs₁ : List Gpr) × (copy_value from reg gs ≡ ok gs₁) × HoldsAll gs₁ ws
unfolding copy_value set_value
copy_value-HoldsAll from gs vs ws reg hf hg lt e =
    let (w, ew) = get_elem?_of_lt ws reg lt in
    let (g, eg, k) = HoldsAll-read from vs reg hf (sym e ∙ ew) in
    let (old, eo, k') = HoldsAll-read gs ws reg hg ew in
    (
      set gs reg (record old { value = g.value }),
      rw (eg, eo) refl,
      HoldsAll-update gs ws reg (record old { value = g.value }) hg ew k,
    )

copy_registers-HoldsAll :
    (from gs : List Gpr) (vs ws : List ℕ) (n reg : ℕ)
    → HoldsAll from vs
    → HoldsAll gs ws
    → n + reg ≤ length ws
    → ((i : ℕ) → reg ≤ i → get_elem? ws i ≡ get_elem? vs i)
    → (gs₁ : List Gpr) × (copy_registers from n reg gs ≡ ok gs₁) × HoldsAll gs₁ ws
unfolding copy_registers
copy_registers-HoldsAll from gs vs ws zero reg hf hg le same = (gs, refl, hg)
copy_registers-HoldsAll from gs vs ws (suc n) reg hf hg le same =
    let (w, ew) = get_elem?_of_lt ws reg (omega arith) in
    let (g, eg, k) = HoldsAll-read from vs reg hf (sym (same reg (omega arith)) ∙ ew) in
    let (old, eo, k') = HoldsAll-read gs ws reg hg ew in
    rw (eg, eo)
      (copy_registers-HoldsAll from (set gs reg g) vs ws n (reg + 1) hf
        (HoldsAll-update gs ws reg g hg ew k) (omega arith) (λ i le'. same i (omega arith)))

-- Where what is known of each register may be so, `clone_for_return` of 32 registers returns
-- without a panic, and what its machine knows is so after any call that keeps the stack pointer,
-- the bases of the small data areas and the nonvolatile registers, whatever it leaves in the
-- others.
pub clone_for_return-HoldsAll :
    (vm : Vm) (vs ws : List ℕ)
    → HoldsAll vm.gpr vs
    → length ws ≡ 32
    → ((reg : ℕ) → is_preserved reg ≡ true → get_elem? ws reg ≡ get_elem? vs reg)
    → (m : Vm) × (clone_for_return vm ≡ ok m) × HoldsAll m.gpr ws
unfolding clone_for_return
clone_for_return-HoldsAll vm vs ws h len same =
    let (g₁, e₁, h₁) =
      copy_value-HoldsAll vm.gpr (replicate 32 default_gpr) vs ws 1 h (HoldsAll-replicate 32 ws len)
        (omega arith) (same 1 refl) in
    let (g₂, e₂, h₂) = copy_value-HoldsAll vm.gpr g₁ vs ws 2 h h₁ (omega arith) (same 2 refl) in
    let (g₃, e₃, h₃) = copy_value-HoldsAll vm.gpr g₂ vs ws 13 h h₂ (omega arith) (same 13 refl) in
    let (g₄, e₄, h₄) =
      copy_registers-HoldsAll vm.gpr g₃ vs ws 18 14 h h₃ (omega arith)
        (λ i le. same i (ground arith)) in
    (default_vm g₄, rw (e₁, e₂, e₃, e₄) refl, h₄)
