-- ===== src/Analysis/Vm/Branches.antt =====
-- A compare and the conditional branch on its result, over all registers.
use decomp_toolkit.Prelude.{
  ==_refl, ℕ, zero, suc, ◌/◌, ◌%◌, ◌<◌, ◌≡◌, ◌≢◌, refl, sym, ◌∙◌, Bool, true, false, not, List, [],
  ◌∷◌, some, ◌==◌, if◌then◌else◌, get_elem?, set, ok, arith, All, bit_and, Bool-cases, Option-cases,
  inl, inr, get_elem?-set_self, get_elem?-set_ne, lt_of_get_elem?,
}
use decomp_toolkit.Analysis.Vm.{
  GprValue, comparison_result, Gpr, Cr, Vm, compare_gpr, is_result_of, set_results,
  set_comparison_result, sides, branch_machines,
}
use decomp_toolkit.Analysis.Vm.Refine.{Holds, compared, chosen, split_values_by_crb-Holds}
use mathlib.Core.Path.{subst}

-- What is known of each register may be so.
abbrev pub HoldsAll : List Gpr → List ℕ → Type 0
HoldsAll [] [] = Unit
HoldsAll [] (v ∷ vs) = ⊥
HoldsAll (g ∷ gs) [] = ⊥
HoldsAll (g ∷ gs) (v ∷ vs) = Holds g.value v × HoldsAll gs vs

-- No register is known as the result of a comparison in the field.
abbrev pub Fresh : ℕ → List Gpr → Type 0
Fresh crf gs = All (λ (g : Gpr). is_result_of crf g.value ≡ false) gs

set_results-Fresh :
    (w : GprValue) (crf : ℕ) (gs : List Gpr) → Fresh crf gs → set_results w crf gs ≡ gs
unfolding set_results
set_results-Fresh w crf [] h = refl
set_results-Fresh w crf (g ∷ gs) h = rw (h.0, set_results-Fresh w crf gs h.1)

HoldsAll-get :
    (gs : List Gpr) (vs : List ℕ) (a : ℕ) {g : Gpr}
    → HoldsAll gs vs
    → get_elem? gs a ≡ some g
    → (l : ℕ) × (get_elem? vs a ≡ some l) × Holds g.value l
HoldsAll-get [] vs a h e = absurd (cc e)
HoldsAll-get (x ∷ gs) [] a h e = elim h [ ]
HoldsAll-get (x ∷ gs) (v ∷ vs) zero {g} h e =
    let eq : x ≡ g = (cc) in (v, refl, subst (λ (z : Gpr). Holds z.value v) eq h.0)
HoldsAll-get (x ∷ gs) (v ∷ vs) (suc a) h e = HoldsAll-get gs vs a h.1 e

-- The compared register takes the new value, and no other changes.
set_results-HoldsAll :
    (w : GprValue) (crf : ℕ) (gs : List Gpr) (vs : List ℕ) (a : ℕ) {g : Gpr} {l : ℕ}
    → Fresh crf gs
    → HoldsAll gs vs
    → get_elem? gs a ≡ some g
    → get_elem? vs a ≡ some l
    → Holds w l
    → HoldsAll (set_results w crf (set gs a (record g { value = comparison_result crf }))) vs
unfolding set_results
set_results-HoldsAll w crf [] vs a f h e el hw = absurd (cc e)
set_results-HoldsAll w crf (x ∷ gs) [] a f h e el hw = elim h [ ]
set_results-HoldsAll w crf (x ∷ gs) (v ∷ vs) zero {l = l} f h e el hw =
    let same : l ≡ v = (cc) in
    rw (==_refl crf) (
      subst (λ t. Holds w t) same hw,
      subst (λ z. HoldsAll z vs) (sym (set_results-Fresh w crf gs f.1)) h.1,
    )
set_results-HoldsAll w crf (x ∷ gs) (v ∷ vs) (suc a) f h e el hw =
    rw f.0 (h.0, set_results-HoldsAll w crf gs vs a f.1 h.1 e el hw)

HoldsAll-set :
    (crf : ℕ) (gs : List Gpr) (vs : List ℕ) (a : ℕ) (g : Gpr)
    → HoldsAll gs vs
    → HoldsAll (set gs a (record g { value = comparison_result crf })) vs
HoldsAll-set crf [] vs a g h = h
HoldsAll-set crf (x ∷ gs) [] a g h = elim h [ ]
HoldsAll-set crf (x ∷ gs) (v ∷ vs) zero g h = (tt, h.1)
HoldsAll-set crf (x ∷ gs) (v ∷ vs) (suc a) g h = (h.0, HoldsAll-set crf gs vs a g h.1)

-- Whether the branch is taken, where `bo` tells it to look at the bit.
abbrev pub taken : ℕ → Bool → Bool
taken bo bit = if bit_and bo 0b11110 == 0b00100 then not bit else bit

-- The side that the branch goes to, from what holds of each.
sides-HoldsAll :
    (bo crf : ℕ) (bit : Bool) (p : GprValue × GprValue) (vm : Vm) (vs : List ℕ) (l : ℕ)
    → ((w : GprValue) → Holds w l → HoldsAll (set_results w crf vm.gpr) vs)
    → HoldsAll vm.gpr vs
    → Holds (chosen bit p) l
    → HoldsAll
        (if taken bo bit
          then ((sides bo crf p.0 p.1 vm).1).gpr
          else ((sides bo crf p.0 p.1 vm).0).gpr)
        vs
unfolding sides set_comparison_result
sides-HoldsAll bo crf true p vm vs l all h hw = elim (Bool-cases (bit_and bo 0b11110 == 0b00100)) [
  | inl off ↦ rw off (all p.1 hw)
  | inr other ↦ elim (Bool-cases (bit_and bo 0b11110 == 0b01100)) [
    | inl on ↦ rw (other, on) (all p.1 hw)
    | inr neither ↦ rw (other, neither) h
  ]
]
sides-HoldsAll bo crf false p vm vs l all h hw = elim (Bool-cases (bit_and bo 0b11110 == 0b00100)) [
  | inl off ↦ rw off (all p.0 hw)
  | inr other ↦ elim (Bool-cases (bit_and bo 0b11110 == 0b01100)) [
    | inl on ↦ rw (other, on) (all p.0 hw)
    | inr neither ↦ rw (other, neither) h
  ]
]

-- What a compare has found and written.
compare_gpr-inv :
    (a crf : ℕ) (right : GprValue) (signed : Bool) (vm : Vm) {vm₁ : Vm}
    → compare_gpr a crf right signed vm ≡ ok vm₁
    → (g : Gpr) × (c : Cr) × (get_elem? vm.gpr a ≡ some g)
      × (get_elem? vm.cr crf ≡ some c)
      × (vm₁ ≡ record vm {
        gpr = set vm.gpr a (record g { value = comparison_result crf });
        cr = set vm.cr crf (record { left = g.value; right = right; signed = signed });
      })
unfolding compare_gpr
compare_gpr-inv a crf right signed vm h = elim (Option-cases (get_elem? vm.gpr a)) [
  | inl e ↦ absurd (ground arith)
  | inr (g, e) ↦ elim (Option-cases (get_elem? vm.cr crf)) [
    | inl e' ↦ absurd (ground arith)
    | inr (c, e') ↦ (g, c, e, e', ground arith)
  ]
]

-- Where what is known of each register may be so and none is taken for the result of a compare in
-- the field, after an unsigned compare in the field of a register with a value that may be the
-- second word, both words of 32 bits, the machines of the conditional branch on it are found, and
-- the one of the side that the branch goes to knows of each register what may be so.
pub branch_machines-HoldsAll :
    (vm vm₁ : Vm) (vs : List ℕ) (a bo bi : ℕ) (so : Bool) (right : GprValue) (l r : ℕ)
    → get_elem? vs a ≡ some l
    → l < 4294967296
    → r < 4294967296
    → Holds right r
    → HoldsAll vm.gpr vs
    → Fresh (bi / 4) vm.gpr
    → compare_gpr a (bi / 4) right false vm ≡ ok vm₁
    → (m : Vm × Vm) × (branch_machines bo bi vm₁ ≡ ok m)
      × HoldsAll (if taken bo (compared (bi % 4) so l r) then (m.1).gpr else (m.0).gpr) vs
unfolding branch_machines
branch_machines-HoldsAll vm vm₁ vs a bo bi so right l r el bl br hr h f e =
    let crf = bi / 4 in
    let (g, c, eg, ec, eq) = compare_gpr-inv a crf right false vm e in
    let (l', el', hg) = HoldsAll-get vm.gpr vs a h eg in
    let same : l' ≡ l = (cc) in
    let left : Holds g.value l = subst (Holds g.value) same hg in
    let cr₁ : Cr = record { left = g.value; right = right; signed = false } in
    let found : get_elem? vm₁.cr crf ≡ some cr₁ =
      rw eq (get_elem?-set_self vm.cr crf cr₁ (lt_of_get_elem? vm.cr crf ec)) in
    let (p, split, held) =
      split_values_by_crb-Holds (bi % 4) so g.value right l r (omega arith) bl br left hr in
    (
      sides bo crf p.0 p.1 vm₁,
      rw (found, split) refl,
      sides-HoldsAll bo crf (compared (bi % 4) so l r) p vm₁ vs l
          (λ w hw. rw eq (set_results-HoldsAll w crf vm.gpr vs a f h eg el hw))
          (rw eq (HoldsAll-set crf vm.gpr vs a g h)) held,
    )

set_results-get :
    (w : GprValue) (crf : ℕ) (gs : List Gpr) (a : ℕ) {g : Gpr}
    → get_elem? gs a ≡ some g
    → is_result_of crf g.value ≡ true
    → get_elem? (set_results w crf gs) a ≡ some (record g { value = w })
unfolding set_results
set_results-get w crf [] a e h = absurd (cc e)
set_results-get w crf (x ∷ gs) zero {g} e h = let eq : x ≡ g = (cc) in rw (eq, h) refl
set_results-get w crf (x ∷ gs) (suc a) e h = set_results-get w crf gs a e h

-- After compares of two different registers in one field, setting its result gives the value to the
-- first register too.
pub compare_gpr-compare_gpr :
    (vm vm₁ vm₂ : Vm) (w : GprValue) (a b crf : ℕ) (right₁ right₂ : GprValue) (s₁ s₂ : Bool)
    → a ≢ b
    → compare_gpr a crf right₁ s₁ vm ≡ ok vm₁
    → compare_gpr b crf right₂ s₂ vm₁ ≡ ok vm₂
    → (g : Gpr) × (get_elem? (set_comparison_result w crf vm₂).gpr a ≡ some g) × (g.value ≡ w)
unfolding set_comparison_result
compare_gpr-compare_gpr vm vm₁ vm₂ w a b crf right₁ right₂ s₁ s₂ ne e₁ e₂ =
    let (g₁, c₁, eg₁, ec₁, eq₁) = compare_gpr-inv a crf right₁ s₁ vm e₁ in
    let (g₂, c₂, eg₂, ec₂, eq₂) = compare_gpr-inv b crf right₂ s₂ vm₁ e₂ in
    let x₁ : Gpr = record g₁ { value = comparison_result crf } in
    let x₂ : Gpr = record g₂ { value = comparison_result crf } in
    let first : get_elem? vm₁.gpr a ≡ some x₁ =
      rw eq₁ (get_elem?-set_self vm.gpr a x₁ (lt_of_get_elem? vm.gpr a eg₁)) in
    let second : get_elem? vm₂.gpr a ≡ some x₁ =
      rw eq₂ (get_elem?-set_ne vm₁.gpr b a x₂ (λ e. ne (sym e)) ∙ first) in
    (record x₁ { value = w }, set_results-get w crf vm₂.gpr a second (==_refl crf), refl)
