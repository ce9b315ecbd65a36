-- ===== src/Util/Split/Gaps/Returns.antt =====
-- The loop over a section ends.
use decomp_toolkit.Prelude.{
  ℕ, zero, suc, ◌+◌, ◌-◌, ◌≤◌, ◌<◌, ◌≡◌, refl, List, [], ◌∷◌, some, leb, length, Result, ok, err,
  panic, arith, Bool-cases, Result-cases, inl, inr,
}
use decomp_toolkit.Obj.Splits.{ObjSplit}
use decomp_toolkit.Obj.Sections.{ObjSection}
use decomp_toolkit.Obj.Info.{ObjInfo}
use decomp_toolkit.Util.Split.Comdat.{GapError}
use decomp_toolkit.Util.Split.Gaps.{GapState, UnitName, pass_split, gap_round, gap_loop}
use decomp_toolkit.Util.Split.Gaps.Covers.{
  WellPlaced, next_start, Round, filled, passed, gap_round-Round,
}
use decomp_toolkit.Util.Split.Gaps.Filled.{Round_le, pass_split_le}

-- What is left of the section and of its explicit splits.
abbrev pub left_over : ℕ → GapState → ℕ
left_over section_end s = (section_end - s.current) + length s.explicit

pass_split_lt :
    (section_end : ℕ) (s : GapState) (explicit : List (ℕ × ObjSplit))
    → WellPlaced explicit
    → s.current ≤ next_start section_end explicit
    → s.current < section_end
    → s.explicit ≡ explicit
    → left_over section_end (pass_split section_end s explicit)
      < (section_end - s.current) + length explicit
unfolding pass_split
pass_split_lt section_end s [] placed le lt e = rw e (omega arith)
pass_split_lt section_end s ((a, split) ∷ rest) placed le lt e =
    let moved = (pass_split_le section_end s ((a, split) ∷ rest) placed le lt).0 in omega arith

Round_lt :
    {obj : ObjInfo} {section : ObjSection} {i section_end : ℕ} {s s' : GapState}
    → Round obj section i section_end s s'
    → WellPlaced s.explicit
    → s.current < section_end
    → left_over section_end s' < left_over section_end s
Round_lt (filled split lt e same new) placed in_section = rw same (omega arith)
Round_lt {obj} {section} {i} {section_end} {s} {s'}
      (passed start end align aligned peeked e le le' same) placed in_section =
    rw same (pass_split_lt section_end s s.explicit placed le in_section refl)

-- Where the explicit splits are in order and none ends before its start, the loop of
-- `create_gap_splits` over a section has returned, failed or panicked after at most one round more
-- than there are bytes and explicit splits left.
pub gap_loop_returns :
    (rounds : ℕ) (unit_name : UnitName) (obj : ObjInfo) (section : ObjSection) (i section_end : ℕ)
    (s : GapState)
    → WellPlaced s.explicit
    → left_over section_end s < rounds
    → (r : Result GapError GapState) × (gap_loop rounds unit_name obj section i section_end s
        ≡ some r)
unfolding gap_loop
gap_loop_returns zero unit_name obj section i section_end s placed enough = absurd (omega arith)
gap_loop_returns (suc rounds) unit_name obj section i section_end s placed enough =
    elim (Bool-cases (leb section_end s.current)) [
      | inl t ↦ (ok s, rw (t, gap_loop) refl)
      | inr f ↦ elim (Result-cases (gap_round unit_name obj section i section_end s)) [
        | inr (inl (k, e)) ↦ (err k, rw (f, e, gap_loop) refl)
        | inr (inr e) ↦ (panic, rw (f, e, gap_loop) refl)
        | inl (s', e) ↦
            let round = gap_round-Round unit_name obj section i section_end s e in
            let in_section : s.current < section_end = (ground arith) in
            let (moved, placed') = Round_le round placed in_section in
            let less = Round_lt round placed in_section in
            let (r, found) =
              gap_loop_returns rounds unit_name obj section i section_end s' placed'
                (omega arith) in
            (r, rw (f, e, gap_loop) found)
      ]
    ]
