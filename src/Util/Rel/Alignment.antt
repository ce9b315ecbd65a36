-- ===== src/Util/Rel/Alignment.antt =====
-- `update_rel_section_alignment` of src/util/rel.rs: the alignments of the sections, which a module
-- does not name, from their offsets in the file.
pub mod Rounds
use decomp_toolkit.Prelude.{
  ℕ, zero, suc, ◌+◌, ◌*◌, ◌/◌, ◌%◌, ◌^◌, ◌≤◌, ◌≡◌, refl, sym, ap, ◌∙◌, Bool, true, false, List, [],
  ◌∷◌, Option, none, some, String, ◌==◌, ltb, if◌then◌else◌, Result, ok, err, panic, ◌>>=◌, ◌⊎◌,
  inl, inr, arith, Bool-cases, Result-cases, Option-cases,
}
use decomp_toolkit.Obj.Kinds.{power_pc}
use decomp_toolkit.Obj.Sections.{ObjSection, default_section_align}
use decomp_toolkit.Util.Rel.{RelHeader}
use decomp_toolkit.Util.Split.Padding.{align_up}

pub data AlignError : Type 0 where
  undetermined : String → AlignError

-- The loop from the alignment of the header down. On as many rounds as the alignment it ends below 4.
unfoldable pub halve : ℕ → ℕ → ℕ → ℕ → Result AlignError (Option ℕ)
halve zero prev_offset file_offset align = ok none
halve (suc rounds) prev_offset file_offset align =
    let smaller = halve rounds prev_offset file_offset (align / 2) in
    if ltb align 4 then ok none else (do
      up ← align_up prev_offset align
      if up == file_offset then ok (some align) else smaller)

-- Whether the default alignment of a section that is known fits.
unfoldable pub is_default : ℕ → ObjSection → Result AlignError Bool
is_default prev_offset section =
    if section.section_known
    then (do
      up ← align_up prev_offset (default_section_align power_pc section % 2 ^ 32)
      ok (up == section.file_offset % 2 ^ 32))
    else ok false

abbrev pub header_align : RelHeader → ℕ
header_align h = elim h.align [ none ↦ 32 | some align ↦ align ]

unfoldable pub determined : RelHeader → ℕ → ObjSection → Result AlignError ObjSection
unfolding halve
determined h prev_offset section = do
  found ← halve (header_align h) prev_offset (section.file_offset % 2 ^ 32) (header_align h)
  elim found [
    | none ↦ err (undetermined section.name)
    | some align ↦ ok (record section { align = align })
  ]

unfoldable pub align_section : RelHeader → ℕ → ObjSection → Result AlignError ObjSection
unfolding is_default determined
align_section h prev_offset section = if ltb 0 section.align then ok section else (do
  fits ← is_default prev_offset section
  let known = record section { align = default_section_align power_pc section }
  if fits then ok known else determined h prev_offset section)

unfoldable pub align_sections :
    RelHeader → ℕ → List ObjSection → Result AlignError (List ObjSection)
unfolding align_section
align_sections h prev_offset [] = ok []
align_sections h prev_offset (section ∷ rest) = do
  aligned ← align_section h prev_offset section
  more ← align_sections h ((section.file_offset + section.size) % 2 ^ 32) rest
  ok (aligned ∷ more)

-- The sums of `u32` panic where they overflow, as in a debug build.
unfoldable pub update_rel_section_alignment :
    RelHeader → List ObjSection → Result AlignError (List ObjSection)
unfolding align_sections
update_rel_section_alignment h sections =
    let start = h.section_info_offset + h.num_sections * 8 in
    let aligned = align_sections h start sections in if ltb start (2 ^ 32) then aligned else panic
