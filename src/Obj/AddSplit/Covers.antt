-- ===== src/Obj/AddSplit/Covers.antt =====
-- What a successful `add_split` of a manual split leaves in the section.
use decomp_toolkit.Prelude.{
  ℕ, zero, suc, ◌≤◌, ◌≡◌, refl, true, false, List, [], ◌∷◌, some, String, str_eq, eq_iff, get_elem?,
  set, ok, arith, inl, inr,
}
use decomp_toolkit.Obj.Splits.{ObjSplit, ObjSplits, flatten, for_unit}
use decomp_toolkit.Obj.Splits
use decomp_toolkit.Obj.Sections.{ObjSection, ObjSections}
use decomp_toolkit.Obj.AddSplit.{manual, overlap, extended, Step, done, again, add_split}
use decomp_toolkit.Obj.AddSplit.Entries.{Entry, for_unit-mem, mem-flatten-push}
use decomp_toolkit.Obj.AddSplit.Steps.{
  StepCase, refused, pushed, covered, kept, backwards, grown, add_split_zero, add_split-cases,
  add_split_step-StepCase,
}
use mathlib.Core.Path.{subst}
use mathlib.Core.List.{Memᴰ}

-- The section at the index has a split of the unit that covers the addresses.
abbrev pub CoversAt : String → ℕ → ℕ → List ObjSection → ℕ → Type 0
CoversAt unit start end [] index = ⊥
CoversAt unit start end (s ∷ ss) zero =
    (e : Entry) × Memᴰ e (flatten s.splits)
    × (str_eq (e.1).unit unit ≡ true)
    × (e.0 ≤ start)
    × (end ≤ (e.1).end)
CoversAt unit start end (s ∷ ss) (suc index) = CoversAt unit start end ss index

module _ (unit : String) (start end : ℕ) where
  CoversAt-get :
      (ss : List ObjSection) (index : ℕ) {s : ObjSection} (e : Entry)
      → get_elem? ss index ≡ some s
      → Memᴰ e (flatten s.splits)
      → str_eq (e.1).unit unit ≡ true
      → e.0 ≤ start
      → end ≤ (e.1).end
      → CoversAt unit start end ss index
  CoversAt-get [] index e found m u below inside = absurd (cc found)
  CoversAt-get (y ∷ ss) zero {s} e found m u below inside =
      let eq : s ≡ y = (cc) in
      (e, subst (λ (z : ObjSection). Memᴰ e (flatten z.splits)) eq m, u, below, inside)
  CoversAt-get (y ∷ ss) (suc index) e found m u below inside =
      CoversAt-get ss index e found m u below inside

  CoversAt-set :
      (ss : List ObjSection) (index : ℕ) {s : ObjSection} (s' : ObjSection) (e : Entry)
      → get_elem? ss index ≡ some s
      → Memᴰ e (flatten s'.splits)
      → str_eq (e.1).unit unit ≡ true
      → e.0 ≤ start
      → end ≤ (e.1).end
      → CoversAt unit start end (set ss index s') index
  CoversAt-set [] index s' e found m u below inside = absurd (cc found)
  CoversAt-set (y ∷ ss) zero s' e found m u below inside = (e, m, u, below, inside)
  CoversAt-set (y ∷ ss) (suc index) s' e found m u below inside =
      CoversAt-set ss index s' e found m u below inside

  CoversAt-wider :
      (start' end' : ℕ) (ss : List ObjSection) (index : ℕ)
      → start' ≤ start
      → end ≤ end'
      → CoversAt unit start' end' ss index
      → CoversAt unit start end ss index
  CoversAt-wider start' end' [] index below inside h = h
  CoversAt-wider start' end' (s ∷ ss) zero below inside (e, m, u, p, q) =
      (e, m, u, omega arith, omega arith)
  CoversAt-wider start' end' (s ∷ ss) (suc index) below inside h =
      CoversAt-wider start' end' ss index below inside h

-- The loop gives way to no split where the new one is manual.
manual-overlap :
    (split : ObjSplit) (es : List Entry)
    → split.autogenerated ≡ false
    → overlap split es ≡ manual
    → ⊥
unfolding overlap
manual-overlap split [] h e = cc
manual-overlap split ((b, y) ∷ es) h e = ground (arith, manual-overlap split es h)

-- The split is in the section, or is left to the next call, which is given more.
abbrev Covers : ℕ → ℕ → ObjSplit → Step → Type 0
Covers index address split (done t r) =
    r ≡ ok tt → CoversAt split.unit address split.end t.sections index
Covers index address split (again t address' split') =
    (address' ≤ address)
    × (split.end ≤ split'.end)
    × (split'.unit ≡ split.unit)
    × (split'.autogenerated ≡ false)

StepCase-Covers :
    (index address : ℕ) (split : ObjSplit) (t : ObjSections) {st : Step}
    → split.autogenerated ≡ false
    → StepCase index address split t st
    → Covers index address split st
unfolding extended
StepCase-Covers index address split t man (refused e) = λ p. absurd (cc p)
StepCase-Covers index address split t man (pushed s found e) = λ p.
    CoversAt-set split.unit address split.end t.sections index
      (record s { splits = Splits.push address split s.splits }) (address, split) found
      (mem-flatten-push address split s.splits) ((eq_iff split.unit split.unit).1 refl)
      (omega arith) (omega arith)
StepCase-Covers index address split t man (covered s b y found e below inside) =
    let (m, u) = for_unit-mem split.unit s.splits e in
    λ p. CoversAt-get split.unit address split.end t.sections index (b, y) found m u below inside
StepCase-Covers index address split t man (kept s b y found e eq) =
    absurd (manual-overlap split _ man eq)
StepCase-Covers index address split t man (backwards s b y found e back) = λ p. absurd (cc p)
StepCase-Covers index address split t man (grown s b y align to_remove to_rename found e eq) =
    (omega arith, omega arith, refl, ground arith)

-- Where `add_split` of a manual split succeeds, the section has a split of its unit that starts at
-- or before its address and ends at or behind its end.
pub add_split-CoversAt :
    (fuel index address : ℕ) (split : ObjSplit) (t : ObjSections) {t' : ObjSections}
    → split.autogenerated ≡ false
    → add_split fuel index address split t ≡ some (t', ok tt)
    → CoversAt split.unit address split.end t'.sections index
add_split-CoversAt zero index address split t man e =
    absurd (add_split_zero index address split t e)
add_split-CoversAt (suc fuel) index address split t {t'} man e =
    let covers =
      StepCase-Covers index address split t man (add_split_step-StepCase index address split t) in
    elim (add_split-cases fuel index address split t e) [
      | inl last ↦ subst (Covers index address split) last covers refl
      | inr (t₁, address₁, split₁, next, rest) ↦
          let (below, behind, same, man₁) = subst (Covers index address split) next covers in
          CoversAt-wider split.unit address split.end address₁ split₁.end t'.sections index below
            behind
            (subst (λ u. CoversAt u address₁ split₁.end t'.sections index) same
              (add_split-CoversAt fuel index address₁ split₁ t₁ man₁ rest))
    ]
