-- ===== src/Obj/AddSplit/Steps.antt =====
-- The ways in which one call of `add_split` ends, each with what the code has tested on the way.
use decomp_toolkit.Prelude.{
  ◌⊎◌, filter, suc, ℕ, ◌≤◌, ◌<◌, ◌≡◌, ◌≢◌, refl, [], ◌∷◌, not, ◌&&◌, ◌||◌, List, Option, none, some,
  String, ◌==◌, ltb, leb, if◌then◌else◌, get_elem?, ok, err, panic, arith, Bool-cases, Option-cases,
  Result-cases, inl, inr, min, max,
}
use decomp_toolkit.Obj.Splits.{ObjSplit, ObjSplits, flatten, for_range, for_unit, at_most_one}
use decomp_toolkit.Obj.Splits
use decomp_toolkit.Obj.Sections.{ObjSection, ObjSections}
use decomp_toolkit.Obj.AddSplit.{
  SplitError, overlapping_split, outside_section, multiple_splits, conflicting_common,
  invalid_section, Overlap, manual, conflict, replaced, overlap, merged_align, eq_bool, remove_all,
  rename_all, Step, done, again, put_splits, extended, replace_overlap, extend, section_end,
  add_split_at, add_split_step, add_split, Outcome,
}
use decomp_toolkit.Obj.AddSplit.Entries.{Entry, for_range-filter}

-- The entries that start in the range of the extended split.
abbrev pub in_range : ℕ → ObjSplit → Entry → ObjSplits → List Entry
in_range address split e splits =
    for_range (λ a. leb (min e.0 address) a && ltb a (max (e.1).end split.end)) splits

pub in_range-filter :
    (address : ℕ) (split : ObjSplit) (e : Entry) (splits : ObjSplits)
    → in_range address split e splits
      ≡ filter
          (λ (k : Entry). leb (min e.0 address) k.0 && ltb k.0 (max (e.1).end split.end))
          (flatten splits)
in_range-filter address split e splits =
    for_range-filter (λ a. leb (min e.0 address) a && ltb a (max (e.1).end split.end)) splits

merged_align-ne-panic : (a b : Option ℕ) → merged_align a b ≢ panic
unfolding merged_align
merged_align-ne-panic none b = λ e. cc
merged_align-ne-panic (some a) none = λ e. cc
merged_align-ne-panic (some a) (some b) = ground arith

at_most_one-ne-panic : (xs : List Entry) → at_most_one xs ≢ panic
at_most_one-ne-panic [] = λ e. cc
at_most_one-ne-panic (x ∷ []) = λ e. cc
at_most_one-ne-panic (x ∷ (y ∷ ys)) = λ e. cc

for_unit-ne-panic : (unit : String) (splits : ObjSplits) → for_unit unit splits ≢ panic
unfolding for_unit
for_unit-ne-panic unit splits = at_most_one-ne-panic _

module _ (index address : ℕ) (split : ObjSplit) (t : ObjSections) where
  pub data StepCase : Step → Type 0 where
    refused : (e : SplitError) → StepCase (done t (err e))
    pushed :
        (s : ObjSection)
        → get_elem? t.sections index ≡ some s
        → for_unit split.unit s.splits ≡ ok none
        → StepCase (done (put_splits index s (Splits.push address split s.splits) t) (ok tt))
    covered :
        (s : ObjSection) (existing_addr : ℕ) (existing : ObjSplit)
        → get_elem? t.sections index ≡ some s
        → for_unit split.unit s.splits ≡ ok (some (existing_addr, existing))
        → existing_addr ≤ address
        → split.end ≤ existing.end
        → StepCase (done t (ok tt))
    kept :
        (s : ObjSection) (existing_addr : ℕ) (existing : ObjSplit)
        → get_elem? t.sections index ≡ some s
        → for_unit split.unit s.splits ≡ ok (some (existing_addr, existing))
        → overlap split (in_range address split (existing_addr, existing) s.splits) ≡ manual
        → StepCase (done t (ok tt))
    backwards :
        (s : ObjSection) (existing_addr : ℕ) (existing : ObjSplit)
        → get_elem? t.sections index ≡ some s
        → for_unit split.unit s.splits ≡ ok (some (existing_addr, existing))
        → max existing.end split.end < min existing_addr address
        → StepCase (done t panic)
    grown :
        (s : ObjSection) (existing_addr : ℕ) (existing : ObjSplit) (align : Option ℕ)
        (to_remove : List ℕ) (to_rename : List String)
        → get_elem? t.sections index ≡ some s
        → for_unit split.unit s.splits ≡ ok (some (existing_addr, existing))
        → overlap split (in_range address split (existing_addr, existing) s.splits)
          ≡ replaced to_remove to_rename
        → StepCase (
            again
              (record t {
                sections =
                    rename_all to_rename split.unit
                      (put_splits index s (remove_all to_remove s.splits) t).sections;
              })
              (min existing_addr address)
              (extended split existing align))

  module _ (s : ObjSection) (found : get_elem? t.sections index ≡ some s) (existing_addr : ℕ)
      (existing : ObjSplit)
      (of_unit : for_unit split.unit s.splits ≡ ok (some (existing_addr, existing))) where
    replace_overlap-StepCase :
        (align : Option ℕ) (o : Overlap)
        → overlap split (in_range address split (existing_addr, existing) s.splits) ≡ o
        → StepCase (
            replace_overlap index s
              (min existing_addr address)
              split
              (extended split existing align)
              o
              t)
    unfolding replace_overlap
    replace_overlap-StepCase align manual e = kept s existing_addr existing found of_unit e
    replace_overlap-StepCase align conflict e = refused overlapping_split
    replace_overlap-StepCase align (replaced to_remove to_rename) e =
        grown s existing_addr existing align to_remove to_rename found of_unit e

    extend_aligned :
        (align : Option ℕ)
        → StepCase (
            if not (eq_bool split.common existing.common)
            then done t (err conflicting_common)
            else if leb existing_addr (min existing_addr address)
                && leb (max existing.end split.end) existing.end
            then done t (ok tt)
            else if ltb (max existing.end split.end) (min existing_addr address)
            then done t panic
            else replace_overlap index s
                (min existing_addr address)
                split
                (extended split existing align)
                (overlap split (in_range address split (existing_addr, existing) s.splits))
                t)
    extend_aligned align = elim (Bool-cases (eq_bool split.common existing.common)) [
      | inr differ ↦ rw differ (refused conflicting_common)
      | inl same ↦
          elim (Bool-cases (
            leb existing_addr (min existing_addr address)
            && leb (max existing.end split.end) existing.end)) [
              | inl inside ↦
                  rw (same, inside)
                    (covered s existing_addr existing found of_unit (ground arith) (ground arith))
              | inr outside ↦
                  elim (Bool-cases (ltb (max existing.end split.end) (min existing_addr address))) [
                    | inl back ↦
                        rw (same, outside, back)
                          (backwards s existing_addr existing found of_unit (ground arith))
                    | inr forth ↦ rw (same, outside, forth) (replace_overlap-StepCase align _ refl)
                  ]
            ]
    ]

    extend-StepCase : StepCase (extend index s address split existing_addr existing t)
    unfolding extend
    extend-StepCase = elim (Result-cases (merged_align split.align existing.align)) [
      | inl (align, e) ↦ rw (e, extend) (extend_aligned align)
      | inr (inl (e, eq)) ↦ rw (eq, extend) (refused e)
      | inr (inr eq) ↦ absurd (merged_align-ne-panic split.align existing.align eq)
    ]

  add_split_at-StepCase :
      (s : ObjSection)
      → get_elem? t.sections index ≡ some s
      → StepCase (add_split_at index s address split t)
  unfolding add_split_at
  add_split_at-StepCase s found =
      elim (Bool-cases (split.end == 0 || leb split.end (section_end s))) [
        | inr outside ↦ rw (outside, add_split_at) (refused outside_section)
        | inl inside ↦ elim (Result-cases (for_unit split.unit s.splits)) [
          | inl (none, e) ↦ rw (inside, e, add_split_at) (pushed s found e)
          | inl (some (existing_addr, existing), e) ↦
              rw (inside, e, add_split_at) (extend-StepCase s found existing_addr existing e)
          | inr (inl (_, e)) ↦ rw (inside, e, add_split_at) (refused multiple_splits)
          | inr (inr e) ↦ absurd (for_unit-ne-panic split.unit s.splits e)
        ]
      ]

  -- Every call ends in one of these ways.
  pub add_split_step-StepCase : StepCase (add_split_step index address split t)
  unfolding add_split_step
  add_split_step-StepCase = elim (Option-cases (get_elem? t.sections index)) [
    | inl e ↦ rw (e, add_split_step) (refused invalid_section)
    | inr (s, e) ↦ rw (e, add_split_step) (add_split_at-StepCase s e)
  ]

pub add_split_zero :
    (index address : ℕ) (split : ObjSplit) (t : ObjSections) {t' : ObjSections} {r : Outcome}
    → add_split 0 index address split t ≡ some (t', r)
    → ⊥
unfolding add_split
add_split_zero index address split t e = cc

-- A call that returns has ended, or has called itself and that call returns.
pub add_split-cases :
    (fuel index address : ℕ) (split : ObjSplit) (t : ObjSections) {t' : ObjSections} {r : Outcome}
    → add_split (suc fuel) index address split t ≡ some (t', r)
    → (add_split_step index address split t ≡ done t' r)
      ⊎ ((t₁ : ObjSections) × (address₁ : ℕ) × (split₁ : ObjSplit) × (add_split_step index address
              split t
            ≡ again t₁ address₁ split₁)
          × (add_split fuel index address₁ split₁ t₁ ≡ some (t', r)))
unfolding add_split
add_split-cases fuel index address split t e = ground arith
