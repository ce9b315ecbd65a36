-- ===== src/Obj/AddSplit/Endless.antt =====
-- A unit whose split has no end cannot be extended towards lower addresses.
use decomp_toolkit.Prelude.{ℕ, ◌≤◌, ◌<◌, ◌≡◌, true, ◌&&◌, [], none, some, leb, ltb, get_elem?, ok}
use decomp_toolkit.Obj.Splits.{ObjSplit, for_range, for_unit}
use decomp_toolkit.Obj.Sections.{ObjSection, ObjSections}
use decomp_toolkit.Obj.AddSplit.{eq_bool, section_end}

module _ (index address : ℕ) (t : ObjSections) (s : ObjSection) (existing_addr : ℕ)
    (existing : ObjSplit) (found : get_elem? t.sections index ≡ some s) (no_end : existing.end ≡ 0)
    (no_align : existing.align ≡ none) where
  -- The split is of the unit of the existing one and lies in the section before it.
  pub record Precedes (split : ObjSplit) : Type 0 where
    pub of_unit : for_unit split.unit s.splits ≡ ok (some (existing_addr, existing))
    pub same_common : eq_bool split.common existing.common ≡ true
    pub forward : address < split.end
    pub in_section : split.end ≤ section_end s
    pub before_existing : split.end ≤ existing_addr
    pub alone : for_range (λ a. leb address a && ltb a split.end) s.splits ≡ []
