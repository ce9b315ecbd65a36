-- ===== src/Util/Split/Gaps/Covers.antt =====
-- The loop over a section leaves no gap.
use decomp_toolkit.Prelude.{
  ℕ, ◌≤◌, ◌<◌, ◌≡◌, refl, List, [], ◌∷◌, ◌++◌, some, ltb, leb, All, ok, arith, Bool-cases,
  Result-cases, inl, inr, ◌⊎◌, find,
}
use mathlib.Core.Path.{subst}
use decomp_toolkit.Prelude.BTreeMap.{BTreeMap, get-insert}
use decomp_toolkit.Prelude.BTreeMap
use decomp_toolkit.Obj.Addresses.{SectionAddress}
use decomp_toolkit.Obj.Addresses
use decomp_toolkit.Obj.Splits.{ObjSplit}
use decomp_toolkit.Obj.Sections.{ObjSection}
use decomp_toolkit.Obj.Info.{ObjInfo}
use decomp_toolkit.Util.Split.Comdat.{GapEnd, lift_unit}
use decomp_toolkit.Util.Split.Gaps.{
  GapState, peek, push_gap, find_gap, gap_split, in_region, region_name, add_fix, UnitName,
  fill_gap, end_or, pass_split, gap_round,
}

-- An address of the section is in a new split, in an explicit split (which goes on to the next one
-- if it has no end), or in front of an explicit split or of the section's end, where the alignment
-- leaves no room for a new split.
pub data Covered (obj : ObjInfo) (section : ObjSection) (section_index section_end x : ℕ)
    (explicit : List (ℕ × ObjSplit)) (new_splits : BTreeMap ObjSplit) : Type 0 where
  in_new :
      (a : ℕ) (split : ObjSplit)
      → BTreeMap.get a new_splits ≡ some split
      → a ≤ x
      → x < split.end
      → Covered obj section section_index section_end x explicit new_splits
  in_explicit :
      (front rest : List (ℕ × ObjSplit)) (a : ℕ) (split : ObjSplit)
      → explicit ≡ front ++ ((a, split) ∷ rest)
      → a ≤ x
      → x < end_or section_end split.end rest
      → Covered obj section section_index section_end x explicit new_splits
  in_padding :
      (front rest : List (ℕ × ObjSplit)) (from to end align aligned : ℕ)
      → explicit ≡ front ++ rest
      → peek obj section section_index section_end rest ≡ ok (to, end, align)
      → lift_unit (Addresses.align_up (record { section = section_index; address = from }) align)
        ≡ ok aligned
      → from ≤ x
      → x < to
      → to ≤ aligned
      → Covered obj section section_index section_end x explicit new_splits

-- The explicit splits are in order, and each ends at or behind its start, if it has an end.
abbrev pub WellPlaced : List (ℕ × ObjSplit) → Type 0
WellPlaced [] = Unit
WellPlaced ((a, split) ∷ rest) =
    ((split.end ≡ 0) ⊎ (a ≤ split.end)) × All (λ (e : ℕ × ObjSplit). a ≤ e.0) rest × WellPlaced rest

abbrev pub next_start : ℕ → List (ℕ × ObjSplit) → ℕ
next_start section_end [] = section_end
next_start section_end ((a, split) ∷ rest) = a

-- What a round that succeeds has done: it has filled a gap or passed a split.
pub data Round (obj : ObjInfo) (section : ObjSection) (section_index section_end : ℕ)
    (s s' : GapState) : Type 0 where
  filled :
      (split : ObjSplit)
      → s.current < s'.current
      → split.end ≡ s'.current
      → s'.explicit ≡ s.explicit
      → s'.new_splits ≡ BTreeMap.insert s.current split s.new_splits
      → Round obj section section_index section_end s s'
  passed :
      (start end align aligned : ℕ)
      → peek obj section section_index section_end s.explicit ≡ ok (start, end, align)
      → lift_unit
          (Addresses.align_up (record { section = section_index; address = s.current }) align)
        ≡ ok aligned
      → s.current ≤ next_start section_end s.explicit
      → next_start section_end s.explicit ≤ aligned
      → s' ≡ pass_split section_end s s.explicit
      → Round obj section section_index section_end s s'

pub peek-next_start :
    (obj : ObjInfo) (section : ObjSection) (i section_end : ℕ) (explicit : List (ℕ × ObjSplit))
    {start end align : ℕ}
    → peek obj section i section_end explicit ≡ ok (start, end, align)
    → start ≡ next_start section_end explicit
unfolding peek
peek-next_start obj section i section_end [] h = ground arith
peek-next_start obj section i section_end ((a, split) ∷ rest) h = ground arith

push_gap-inv :
    (unit_name : UnitName) (obj : ObjInfo) (section : ObjSection) (i section_end : ℕ) (s : GapState)
    (gap : GapEnd) {s' : GapState}
    → push_gap unit_name section i s gap ≡ ok s'
    → Round obj section i section_end s s'
unfolding push_gap
push_gap-inv unit_name obj section i section_end s gap {s'} h =
    elim (Bool-cases (ltb s.current gap.end)) [
      | inr f ↦ absurd (ground arith)
      | inl t ↦
          let rename = region_name (find (in_region s.current) section.sub_regions) s.prev_rename in
          let split : ObjSplit = record (gap_split unit_name section i s.current rename) {
            end = gap.end;
          } in
          let s₁ : GapState = record s {
            current = gap.end;
            new_splits = BTreeMap.insert s.current split s.new_splits;
            size_fixes = add_fix gap.fix s.size_fixes;
          } in
          let made : ok s₁ ≡ ok s' = (rw t at h) in
          let same : s₁ ≡ s' = (cc) in
          subst (Round obj section i section_end s) same
            (filled split (ground arith) refl refl refl)
    ]

fill_gap-inv :
    (unit_name : UnitName) (obj : ObjInfo) (section : ObjSection) (i section_end start : ℕ)
    (s : GapState) {s' : GapState}
    → fill_gap unit_name obj section i start s ≡ ok s'
    → Round obj section i section_end s s'
unfolding fill_gap
fill_gap-inv unit_name obj section i section_end start s {s'} h =
    elim (Result-cases (find_gap obj section i start s)) [
      | inl (gap, e) ↦ push_gap-inv unit_name obj section i section_end s gap {s' = s'} (rw e at h)
      | inr (inl (k, e)) ↦ absurd (ground arith)
      | inr (inr e) ↦ absurd (ground arith)
    ]

pub gap_round-Round :
    (unit_name : UnitName) (obj : ObjInfo) (section : ObjSection) (i section_end : ℕ) (s : GapState)
    {s' : GapState}
    → gap_round unit_name obj section i section_end s ≡ ok s'
    → Round obj section i section_end s s'
unfolding gap_round
gap_round-Round unit_name obj section i section_end s {s'} h =
    elim (Result-cases (peek obj section i section_end s.explicit)) [
      | inr (inl (k, e)) ↦ absurd (ground arith)
      | inr (inr e) ↦ absurd (ground arith)
      | inl ((start, end, align), e) ↦ elim (Bool-cases (leb s.current start)) [
        | inr f ↦ absurd (ground arith)
        | inl t ↦
            let next : start ≡ next_start section_end s.explicit =
              (peek-next_start obj section i section_end s.explicit e) in
            let at : SectionAddress = record { section = i; address = s.current } in
            elim (Result-cases (lift_unit (Addresses.align_up at align))) [
              | inr (inl (k, e')) ↦ absurd (ground arith)
              | inr (inr e') ↦ absurd (ground arith)
              | inl (aligned, e') ↦ elim (Bool-cases (ltb aligned start)) [
                | inl gap ↦
                    fill_gap-inv unit_name obj section i section_end start s {s' = s'}
                      (rw (e, t, e', gap) at h)
                | inr none_left ↦
                    let done : ok (pass_split section_end s s.explicit) ≡ ok s' =
                      (rw (e, t, e', none_left) at h) in
                    passed start end align aligned e e' (ground arith) (ground arith) cc
              ]
            ]
      ]
    ]
