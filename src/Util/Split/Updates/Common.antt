-- ===== src/Util/Split/Updates/Common.antt =====
-- Which splits the update marks as common.
use decomp_toolkit.Prelude.{
  ℕ, ◌≡◌, refl, List, [], ◌∷◌, ◌++◌, map, leb, if◌then◌else◌, Bool-cases, inl, inr,
}
use decomp_toolkit.Obj.Splits.{ObjSplit, ObjSplits, flatten}
use decomp_toolkit.Util.Split.Updates.{set_common, mark_common}

abbrev pub common_from : ℕ → ℕ × ObjSplit → ℕ × ObjSplit
common_from start e = if leb start e.0 then (e.0, set_common e.1) else e

marked :
    (start a : ℕ) (v : List ObjSplit) (more : List (ℕ × ObjSplit))
    → map (λ (s : ObjSplit). (a, s)) (if leb start a then map set_common v else v)
        ++ map (common_from start) more
      ≡ map (common_from start) (map (λ (s : ObjSplit). (a, s)) v ++ more)
marked start a [] more = elim (Bool-cases (leb start a)) [ inl t ↦ rw t refl | inr f ↦ rw f refl ]
marked start a (s ∷ v) more = elim (Bool-cases (leb start a)) [
  | inl t ↦ let rest = rw t at (marked start a v more) in rw (t, rest) refl
  | inr f ↦ let rest = rw f at (marked start a v more) in rw (f, rest) refl
]

-- The splits at or behind the address become common, and all others stay as they are.
pub mark_common-flatten :
    (start : ℕ) (m : ObjSplits)
    → flatten (mark_common start m) ≡ map (common_from start) (flatten m)
unfolding flatten mark_common
mark_common-flatten start [] = refl
mark_common-flatten start ((a, v) ∷ m) =
    rw (mark_common-flatten start m) (marked start a v (flatten m))
