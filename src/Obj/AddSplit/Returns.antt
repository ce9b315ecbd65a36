-- ===== src/Obj/AddSplit/Returns.antt =====
-- `add_split` returns: each further call has fewer splits in the section.
use decomp_toolkit.Prelude.{
  ℕ, zero, suc, ◌<◌, ◌≡◌, ◌≢◌, refl, sym, not, ◌&&◌, List, [], ◌∷◌, some, String, ◌==◌, ltb, leb,
  length, get_elem?, set, panic, arith, Bool-cases, inl, inr, All, All-filter, All-map, All-mem,
  mem-filter, length-filter_le, length-filter_lt, length-map, min, max,
}
use decomp_toolkit.Obj.Splits.{ObjSplit, ObjSplits, flatten, for_range, for_unit}
use decomp_toolkit.Obj.Splits
use decomp_toolkit.Obj.Sections.{ObjSection, ObjSections}
use decomp_toolkit.Obj.AddSplit.{
  Outcome, remove_all, rename_split, rename_splits, rename_sections, rename_all, Step, done, again,
  add_split_step, add_split,
}
use decomp_toolkit.Obj.AddSplit.Entries.{
  Entry, for_range-filter, flatten-remove, rename_entry, flatten-rename_splits, for_unit-mem,
}
use decomp_toolkit.Obj.AddSplit.Overlaps.{mem-to_remove}
use decomp_toolkit.Obj.AddSplit.Steps.{
  StepCase, refused, pushed, covered, kept, backwards, grown, in_range, add_split_step-StepCase,
}
use mathlib.Core.Path.{subst}
use mathlib.Core.List.{Memᴰ}
use mathlib.Core.List.Memᴰ

-- The split ends behind its start.
abbrev pub IsSized : Entry → Type 0
IsSized e = e.0 < (e.1).end

-- Every split is sized, and there are fewer than `n`.
abbrev pub Fits : ℕ → List Entry → Type 0
Fits n es = All IsSized es × (length es < n)

-- So it is in the section at the index, if there is one.
abbrev pub FitsAt : ℕ → List ObjSection → ℕ → Type 0
FitsAt n [] index = Unit
FitsAt n (s ∷ ss) zero = Fits n (flatten s.splits)
FitsAt n (s ∷ ss) (suc index) = FitsAt n ss index

FitsAt-get :
    (n : ℕ) (ss : List ObjSection) (index : ℕ) {s : ObjSection}
    → FitsAt n ss index
    → get_elem? ss index ≡ some s
    → Fits n (flatten s.splits)
FitsAt-get n [] index h e = absurd (cc e)
FitsAt-get n (x ∷ ss) zero {s} h e =
    let eq : x ≡ s = (cc) in subst (λ (y : ObjSection). Fits n (flatten y.splits)) eq h
FitsAt-get n (x ∷ ss) (suc index) h e = FitsAt-get n ss index h e

FitsAt-set :
    (n : ℕ) (ss : List ObjSection) (index : ℕ) (s : ObjSection)
    → Fits n (flatten s.splits)
    → FitsAt n (set ss index s) index
FitsAt-set n [] index s h = tt
FitsAt-set n (x ∷ ss) zero s h = h
FitsAt-set n (x ∷ ss) (suc index) s h = FitsAt-set n ss index s h

IsSized-rename :
    (old new : String) (es : List Entry)
    → All IsSized es
    → All (λ e. IsSized (rename_entry old new e)) es
unfolding rename_split
IsSized-rename old new [] h = h
IsSized-rename old new (e ∷ es) h = (ground arith, IsSized-rename old new es h.1)

Fits-rename :
    (n : ℕ) (old new : String) (splits : ObjSplits)
    → Fits n (flatten splits)
    → Fits n (flatten (rename_splits old new splits))
Fits-rename n old new splits h = subst (Fits n) (sym (flatten-rename_splits old new splits)) (
  All-map IsSized (rename_entry old new) (flatten splits)
      (IsSized-rename old new (flatten splits) h.0),
  omega (arith, length-map (rename_entry old new) (flatten splits), h.1),
)

FitsAt-rename :
    (n : ℕ) (old new : String) (ss : List ObjSection) (index : ℕ)
    → FitsAt n ss index
    → FitsAt n (rename_sections old new ss) index
unfolding rename_sections
FitsAt-rename n old new [] index h = tt
FitsAt-rename n old new (s ∷ ss) zero h = Fits-rename n old new s.splits h
FitsAt-rename n old new (s ∷ ss) (suc index) h = FitsAt-rename n old new ss index h

FitsAt-rename_all :
    (n : ℕ) (units : List String) (new : String) (ss : List ObjSection) (index : ℕ)
    → FitsAt n ss index
    → FitsAt n (rename_all units new ss) index
unfolding rename_all
FitsAt-rename_all n [] new ss index h = h
FitsAt-rename_all n (unit ∷ units) new ss index h =
    FitsAt-rename_all n units new (rename_sections unit new ss) index
      (FitsAt-rename n unit new ss index h)

Fits-remove :
    (n address : ℕ) (splits : ObjSplits)
    → Fits n (flatten splits)
    → Fits n (flatten (Splits.remove address splits).0)
Fits-remove n address splits h =
    let keep = λ (e : Entry). not (e.0 == address) in
    subst (Fits n) (sym (flatten-remove address splits)) (
      All-filter IsSized keep (flatten splits) h.0,
      omega (arith, length-filter_le keep (flatten splits), h.1),
    )

Fits-remove_all :
    (n : ℕ) (addresses : List ℕ) (splits : ObjSplits)
    → Fits n (flatten splits)
    → Fits n (flatten (remove_all addresses splits))
unfolding remove_all
Fits-remove_all n [] splits h = h
Fits-remove_all n (a ∷ addresses) splits h =
    Fits-remove_all n addresses (Splits.remove a splits).0 (Fits-remove n a splits h)

-- Removing an address at which there is a split leaves fewer splits.
Fits-remove_all_lt :
    (n : ℕ) (addresses : List ℕ) (splits : ObjSplits) {a : ℕ} {x : ObjSplit}
    → Memᴰ a addresses
    → Memᴰ {A = Entry} (a, x) (flatten splits)
    → Fits (suc n) (flatten splits)
    → Fits n (flatten (remove_all addresses splits))
unfolding remove_all
Fits-remove_all_lt n [] splits m e h = elim m [ ]
Fits-remove_all_lt n (b ∷ addresses) splits {a} {x} m e h =
    let keep = λ (e : Entry). not (e.0 == b) in
    elim (Bool-cases (a == b)) [
      | inl t ↦ Fits-remove_all n addresses (Splits.remove b splits).0 (
          subst (Fits n) (sym (flatten-remove b splits)) (
            All-filter IsSized keep (flatten splits) h.0,
            omega (arith, length-filter_lt keep (flatten splits) e (ground arith), h.1),
          ))
      | inr f ↦ elim (Memᴰ.cases_cons m) [
        | inl eq ↦ absurd (ground arith)
        | inr r ↦
            Fits-remove_all_lt n addresses (Splits.remove b splits).0 r
              (subst (Memᴰ (a, x)) (sym (flatten-remove b splits))
                (mem-filter keep (flatten splits) e (ground arith)))
              (Fits-remove (suc n) b splits h)
      ]
    ]

mem-in_range :
    (address : ℕ) (split : ObjSplit) {existing_addr : ℕ} {existing : ObjSplit} (splits : ObjSplits)
    → All IsSized (flatten splits)
    → Memᴰ {A = Entry} (existing_addr, existing) (flatten splits)
    → Memᴰ {A = Entry}
        (existing_addr, existing)
        (in_range address split (existing_addr, existing) splits)
mem-in_range address split {existing_addr} {existing} splits sized m =
    let inside =
      λ (a : ℕ). leb (min existing_addr address) a && ltb a (max existing.end split.end) in
    let lt = All-mem IsSized (flatten splits) sized m in
    subst (Memᴰ {A = Entry} (existing_addr, existing)) (sym (for_range-filter inside splits))
      (mem-filter (λ (e : Entry). inside e.0) (flatten splits) m (ground arith))

-- A call returns without a panic, or leaves fewer splits to the next.
abbrev Continues : ℕ → ℕ → Step → Type 0
Continues n index (done t r) = r ≢ panic
Continues n index (again t address split) = FitsAt n t.sections index × (0 < n)

StepCase-Continues :
    (n index address : ℕ) (split : ObjSplit) (t : ObjSections) {st : Step}
    → FitsAt (suc n) t.sections index
    → StepCase index address split t st
    → Continues n index st
StepCase-Continues n index address split t h (refused e) = λ p. cc
StepCase-Continues n index address split t h (pushed s found none_found) = λ p. cc
StepCase-Continues n index address split t h (covered s a x found of_unit below inside) = λ p. cc
StepCase-Continues n index address split t h (kept s a x found of_unit e) = λ p. cc
StepCase-Continues n index address split t h (backwards s a x found of_unit back) =
    let fits = FitsAt-get (suc n) t.sections index h found in
    let lt =
      All-mem IsSized (flatten s.splits) fits.0 (for_unit-mem split.unit s.splits of_unit).0 in
    absurd (ground arith)
StepCase-Continues n index address split t h
      (grown s a x align to_remove to_rename found of_unit e) =
    let fits = FitsAt-get (suc n) t.sections index h found in
    let m = (for_unit-mem split.unit s.splits of_unit).0 in
    let gone = mem-to_remove split _ e (mem-in_range address split s.splits fits.0 m) in
    let fewer = Fits-remove_all_lt n to_remove s.splits gone m fits in
    (
      FitsAt-rename_all n to_rename split.unit _ index (
          FitsAt-set n t.sections index (record s { splits = remove_all to_remove s.splits })
            fewer),
      omega (arith, fewer.1),
    )

abbrev Returns : ℕ → ℕ → ℕ → ObjSplit → ObjSections → Type 0
Returns fuel index address split t =
    (t' : ObjSections) × (r : Outcome) × (add_split fuel index address split t ≡ some (t', r))
    × (r ≢ panic)

-- From one call on, where the calls after it return.
Returns-suc :
    (fuel index address : ℕ) (split : ObjSplit) (t : ObjSections)
    → ((address' : ℕ) (split' : ObjSplit) (t' : ObjSections)
        → FitsAt fuel t'.sections index
        → 0 < fuel
        → Returns fuel index address' split' t')
    → (st : Step) → add_split_step index address split t ≡ st
    → Continues fuel index st
    → Returns (suc fuel) index address split t
unfolding add_split
Returns-suc fuel index address split t next (done t' r) e h = (t', r, rw (e, add_split), h)
Returns-suc fuel index address split t next (again t' address' split') e h =
    let (t'', r, eq, ne) = next address' split' t' h.0 h.1 in (t'', r, rw (e, add_split) eq, ne)

-- Where every split of the section ends behind its start, `add_split` returns without a panic,
-- after at most one call more than the section has splits.
pub add_split_returns :
    (fuel index address : ℕ) (split : ObjSplit) (t : ObjSections)
    → FitsAt fuel t.sections index
    → 0 < fuel
    → (t' : ObjSections) × (r : Outcome) × (add_split fuel index address split t ≡ some (t', r))
      × (r ≢ panic)
add_split_returns zero index address split t h p = absurd (omega arith)
add_split_returns (suc fuel) index address split t h p =
    Returns-suc fuel index address split t (add_split_returns fuel index)
      (add_split_step index address split t) refl
      (StepCase-Continues fuel index address split t h
        (add_split_step-StepCase index address split t))
