-- ===== src/Util/Split/Gaps/Filled.antt =====
-- The loop over a section leaves no address between its start and its end uncovered, and it ends.
use decomp_toolkit.Prelude.{ℕ, ◌≤◌, ◌<◌, ◌≡◌, refl, List, [], ◌∷◌, All, arith, inl, inr}
use decomp_toolkit.Prelude.BTreeMap.{BTreeMap}
use decomp_toolkit.Prelude.BTreeMap
use decomp_toolkit.Obj.Splits.{ObjSplit}
use decomp_toolkit.Obj.Sections.{ObjSection}
use decomp_toolkit.Obj.Info.{ObjInfo}
use decomp_toolkit.Util.Split.Gaps.{GapState, file_end, pass_split}
use decomp_toolkit.Util.Split.Gaps.Covers.{WellPlaced, next_start, Round, filled, passed}

file_end_le :
    (a section_end : ℕ) (rest : List (ℕ × ObjSplit)) (current : ℕ)
    → current ≤ a
    → current < section_end
    → All (λ (e : ℕ × ObjSplit). a ≤ e.0) rest
    → current ≤ file_end section_end rest
file_end_le a section_end [] current le lt h = omega arith
file_end_le a section_end ((b, next) ∷ rest) current le lt h = omega (arith, h.0)

-- A split that is passed moves the loop on, or leaves it where it is.
pub pass_split_le :
    (section_end : ℕ) (s : GapState) (explicit : List (ℕ × ObjSplit))
    → WellPlaced explicit
    → s.current ≤ next_start section_end explicit
    → s.current < section_end
    → (s.current ≤ (pass_split section_end s explicit).current)
      × ((pass_split section_end s explicit).new_splits ≡ s.new_splits)
unfolding pass_split
pass_split_le section_end s [] placed le lt = (omega arith, refl)
pass_split_le section_end s ((a, split) ∷ rest) (ends, behind, placed) le lt =
    let at_next = file_end_le a section_end rest s.current le lt behind in
    elim ends [ inl z ↦ (ground arith, refl) | inr le' ↦ (ground arith, refl) ]

pass_split-WellPlaced :
    (section_end : ℕ) (s : GapState) (explicit : List (ℕ × ObjSplit))
    → s.explicit ≡ explicit
    → WellPlaced explicit
    → WellPlaced (pass_split section_end s explicit).explicit
unfolding pass_split
pass_split-WellPlaced section_end s [] e placed = rw e tt
pass_split-WellPlaced section_end s ((a, split) ∷ rest) e (ends, behind, placed) = placed

pub Round_le :
    {obj : ObjInfo} {section : ObjSection} {i section_end : ℕ} {s s' : GapState}
    → Round obj section i section_end s s'
    → WellPlaced s.explicit
    → s.current < section_end
    → (s.current ≤ s'.current) × WellPlaced s'.explicit
Round_le (filled split lt e same new) placed in_section = (omega arith, rw same placed)
Round_le {obj} {section} {i} {section_end} {s} {s'}
      (passed start end align aligned peeked e le le' same) placed in_section =
    (
      rw same ((pass_split_le section_end s s.explicit placed le in_section).0),
      rw same (pass_split-WellPlaced section_end s s.explicit refl placed),
    )
