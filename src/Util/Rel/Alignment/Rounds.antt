-- ===== src/Util/Rel/Alignment/Rounds.antt =====
-- The alignments that are determined round the offsets up.
use decomp_toolkit.Prelude.{
  ℕ, zero, suc, ◌+◌, ◌*◌, ◌/◌, ◌%◌, ◌^◌, ◌≤◌, ◌≡◌, refl, Bool, true, false, List, [], ◌∷◌, Option,
  none, some, ◌==◌, ltb, Result, ok, err, panic, ◌⊎◌, inl, inr, arith, Bool-cases, Result-cases,
}
use decomp_toolkit.Obj.Kinds.{power_pc}
use decomp_toolkit.Obj.Sections.{ObjSection, default_section_align}
use decomp_toolkit.Util.Rel.{RelHeader}
use decomp_toolkit.Util.Split.Padding.{align_up}
use decomp_toolkit.Util.Rel.Alignment.{
  AlignError, undetermined, halve, is_default, header_align, determined, align_section,
  align_sections, update_rel_section_alignment,
}

-- A section keeps all but its alignment. An alignment that is set stays; where none is, the new one
-- rounds the end of the section before up to the offset in the file.
abbrev pub IsAligned : ℕ → ObjSection → ObjSection → Type 0
IsAligned prev_offset section aligned =
    (aligned ≡ record section { align = aligned.align })
    × ((1 ≤ section.align) × (aligned.align ≡ section.align)
        ⊎ (section.align ≡ 0)
          × (align_up {E = AlignError} prev_offset aligned.align
              ≡ ok (section.file_offset % 2 ^ 32)))

abbrev pub AreAligned : ℕ → List ObjSection → List ObjSection → Type 0
AreAligned prev_offset [] [] = Unit {0}
AreAligned prev_offset [] (aligned ∷ more) = ⊥
AreAligned prev_offset (section ∷ rest) [] = ⊥
AreAligned prev_offset (section ∷ rest) (aligned ∷ more) =
    IsAligned prev_offset section aligned
    × AreAligned ((section.file_offset + section.size) % 2 ^ 32) rest more

halve-align_up :
    (rounds prev_offset file_offset align : ℕ) {found : ℕ}
    → halve rounds prev_offset file_offset align ≡ ok (some found)
    → align_up {E = AlignError} prev_offset found ≡ ok file_offset
unfolding halve
halve-align_up zero prev_offset file_offset align h = absurd (ground arith)
halve-align_up (suc rounds) prev_offset file_offset align {found} h =
    elim (Bool-cases (ltb align 4)) [
      | inl small ↦
          let bad : ◌≡◌ {A = Result AlignError (Option ℕ)} (ok none) (ok (some found)) =
            (rw small at h) in
          absurd (ground arith)
      | inr large ↦ elim (Result-cases (align_up {E = AlignError} prev_offset align)) [
        | inr (inl (k, e)) ↦
            let bad : ◌≡◌ {A = Result AlignError (Option ℕ)} (err k) (ok (some found)) =
              (rw (large, e) at h) in
            absurd (ground arith)
        | inr (inr e) ↦
            let bad : ◌≡◌ {A = Result AlignError (Option ℕ)} panic (ok (some found)) =
              (rw (large, e) at h) in
            absurd (ground arith)
        | inl (up, e) ↦ elim (Bool-cases (up == file_offset)) [
          | inl same ↦
              let here : ◌≡◌ {A = Result AlignError (Option ℕ)} (ok (some align))
                  (ok (some found)) =
                (rw (large, e, same) at h) in
              let at : align ≡ found = (ground arith) in
              let there : up ≡ file_offset = (ground arith) in rw (← at, e, there) refl
          | inr other ↦
              halve-align_up rounds prev_offset file_offset (align / 2) (rw (large, e, other) at h)
        ]
      ]
    ]

default_section_align_small :
    (section : ObjSection)
    → default_section_align power_pc section % 2 ^ 32 ≡ default_section_align power_pc section
unfolding default_section_align
default_section_align_small section = ground arith

is_default-align_up :
    (prev_offset : ℕ) (section : ObjSection)
    → is_default prev_offset section ≡ ok true
    → align_up {E = AlignError} prev_offset (default_section_align power_pc section)
      ≡ ok (section.file_offset % 2 ^ 32)
unfolding is_default
is_default-align_up prev_offset section h =
    let small = default_section_align_small section in
    elim (Bool-cases section.section_known) [
      | inr unknown ↦
          let bad : ◌≡◌ {A = Result AlignError Bool} (ok false) (ok true) = (rw unknown at h) in
          absurd (ground arith)
      | inl known ↦
          elim (Result-cases (
            align_up {E = AlignError} prev_offset
              (default_section_align power_pc section % 2 ^ 32))) [
                | inr (inl (k, e)) ↦
                    let bad : ◌≡◌ {A = Result AlignError Bool} (err k) (ok true) =
                      (rw (e, known) at h) in
                    absurd (ground arith)
                | inr (inr e) ↦
                    let bad : ◌≡◌ {A = Result AlignError Bool} panic (ok true) =
                      (rw (e, known) at h) in
                    absurd (ground arith)
                | inl (up, e) ↦
                    let same : ◌≡◌ {A = Result AlignError Bool}
                        (ok (up == section.file_offset % 2 ^ 32)) (ok true) =
                      (rw (e, known) at h) in
                    let there : up ≡ section.file_offset % 2 ^ 32 = (ground arith) in
                    let e' = rw small at e in rw (e', there) refl
              ]
    ]

determined-IsAligned :
    (h : RelHeader) (prev_offset : ℕ) (section : ObjSection) {aligned : ObjSection}
    → section.align ≡ 0
    → determined h prev_offset section ≡ ok aligned
    → IsAligned prev_offset section aligned
unfolding determined
determined-IsAligned h prev_offset section {aligned} unset e =
    let align = header_align h in
    elim (Result-cases (halve align prev_offset (section.file_offset % 2 ^ 32) align)) [
      | inr (inl (k, f)) ↦
          let bad : ◌≡◌ {A = Result AlignError ObjSection} (err k) (ok aligned) = (rw f at e) in
          absurd (ground arith)
      | inr (inr f) ↦
          let bad : ◌≡◌ {A = Result AlignError ObjSection} panic (ok aligned) = (rw f at e) in
          absurd (ground arith)
      | inl (none, f) ↦
          let bad : ◌≡◌ {A = Result AlignError ObjSection} (err (undetermined section.name))
              (ok aligned) =
            (rw f at e) in
          absurd (ground arith)
      | inl (some found, f) ↦
          let new : ObjSection = record section { align = found } in
          let made : ◌≡◌ {A = Result AlignError ObjSection} (ok new) (ok aligned) = (rw f at e) in
          let same : new ≡ aligned = (cc) in
          let up =
            halve-align_up align prev_offset (section.file_offset % 2 ^ 32) align {found = found}
              f in
          rw (← same) (refl, inr (unset, up))
    ]

align_section-IsAligned :
    (h : RelHeader) (prev_offset : ℕ) (section : ObjSection) {aligned : ObjSection}
    → align_section h prev_offset section ≡ ok aligned
    → IsAligned prev_offset section aligned
unfolding align_section determined
align_section-IsAligned h prev_offset section {aligned} e =
    elim (Bool-cases (ltb 0 section.align)) [
      | inl set ↦
          let made : ◌≡◌ {A = Result AlignError ObjSection} (ok section) (ok aligned) =
            (rw set at e) in
          let same : section ≡ aligned = (cc) in rw (← same) (refl, inl (ground arith, refl))
      | inr unset ↦ elim (Result-cases (is_default prev_offset section)) [
        | inr (inl (k, f)) ↦
            let bad : ◌≡◌ {A = Result AlignError ObjSection} (err k) (ok aligned) =
              (rw (unset, f) at e) in
            absurd (ground arith)
        | inr (inr f) ↦
            let bad : ◌≡◌ {A = Result AlignError ObjSection} panic (ok aligned) =
              (rw (unset, f) at e) in
            absurd (ground arith)
        | inl (true, f) ↦
            let known : ObjSection = record section {
              align = default_section_align power_pc section;
            } in
            let made : ◌≡◌ {A = Result AlignError ObjSection} (ok known) (ok aligned) =
              (rw (unset, f) at e) in
            let same : known ≡ aligned = (cc) in
            rw (← same) (refl, inr (ground arith, is_default-align_up prev_offset section f))
        | inl (false, f) ↦
            let found : determined h prev_offset section ≡ ok aligned = (rw (unset, f) at e) in
            determined-IsAligned h prev_offset section (ground arith) found
      ]
    ]

align_sections-AreAligned :
    (h : RelHeader) (prev_offset : ℕ) (sections aligned : List ObjSection)
    → align_sections h prev_offset sections ≡ ok aligned
    → AreAligned prev_offset sections aligned
unfolding align_sections
align_sections-AreAligned h prev_offset [] aligned e =
    let same : [] ≡ aligned = (ground arith) in rw (← same) tt
align_sections-AreAligned h prev_offset (section ∷ rest) aligned e =
    let behind = (section.file_offset + section.size) % 2 ^ 32 in
    elim (Result-cases (align_section h prev_offset section)) [
      | inr (inl (k, f)) ↦ absurd (ground arith)
      | inr (inr f) ↦ absurd (ground arith)
      | inl (first, f) ↦ elim (Result-cases (align_sections h behind rest)) [
        | inr (inl (k, f')) ↦ absurd (ground arith)
        | inr (inr f') ↦ absurd (ground arith)
        | inl (more, f') ↦
            let made : ◌≡◌ {A = Result AlignError (List ObjSection)} (ok (first ∷ more))
                (ok aligned) =
              (rw (f, f') at e) in
            let same : first ∷ more ≡ aligned = (cc) in
            rw (← same) (
              align_section-IsAligned h prev_offset section f,
              align_sections-AreAligned h behind rest more f',
            )
      ]
    ]

-- Where `update_rel_section_alignment` succeeds, every section keeps all but its alignment; an
-- alignment that was set stays, and where none was set the new one rounds the end of the section
-- before up to the offset of the section in the file.
pub update_rel_section_alignment-AreAligned :
    (h : RelHeader) (sections aligned : List ObjSection)
    → update_rel_section_alignment h sections ≡ ok aligned
    → AreAligned (h.section_info_offset + h.num_sections * 8) sections aligned
unfolding update_rel_section_alignment
update_rel_section_alignment-AreAligned h sections aligned e =
    let start = h.section_info_offset + h.num_sections * 8 in
    elim (Bool-cases (ltb start (2 ^ 32))) [
      | inl fits ↦ align_sections-AreAligned h start sections aligned (rw fits at e)
      | inr over ↦
          let bad : ◌≡◌ {A = Result AlignError (List ObjSection)} panic (ok aligned) =
            (rw over at e) in
          absurd (ground arith)
    ]

-- The alignment after some halvings.
unfoldable pub halved : ℕ → ℕ → ℕ
halved zero align = align
halved (suc times) align = halved times (align / 2)

halved_le : (times align : ℕ) → halved times align ≤ align
unfolding halved
halved_le zero align = omega arith
halved_le (suc times) align = omega (arith, halved_le times (align / 2))

-- On as many rounds as the alignment that it starts from, the loop over alignments finds none only
-- where no halving of that alignment down to 4 rounds the end of the section before up to the
-- offset in the file.
pub halve_lem :
    (rounds prev_offset file_offset align times : ℕ)
    → align ≤ rounds
    → 4 ≤ halved times align
    → halve rounds prev_offset file_offset align ≡ ok none
    → ¬ (align_up {E = AlignError} prev_offset (halved times align) ≡ ok file_offset)
unfolding halve halved
halve_lem zero prev_offset file_offset align times enough large h e =
    absurd (omega (arith, halved_le times align))
halve_lem (suc rounds) prev_offset file_offset align zero enough large h e =
    let go : ltb align 4 ≡ false = (ground arith) in
    let same : file_offset == file_offset ≡ true = (ground arith) in
    let found : ◌≡◌ {A = Result AlignError (Option ℕ)} (ok (some align)) (ok none) =
      (rw (go, e, same) at h) in
    absurd (ground arith)
halve_lem (suc rounds) prev_offset file_offset align (suc times) enough large h e =
    let go : ltb align 4 ≡ false = (ground (arith, halved_le times (align / 2))) in
    elim (Result-cases (align_up {E = AlignError} prev_offset align)) [
      | inr (inl (k, f)) ↦
          let bad : ◌≡◌ {A = Result AlignError (Option ℕ)} (err k) (ok none) = (rw (go, f) at h) in
          absurd (ground arith)
      | inr (inr f) ↦
          let bad : ◌≡◌ {A = Result AlignError (Option ℕ)} panic (ok none) = (rw (go, f) at h) in
          absurd (ground arith)
      | inl (up, f) ↦ elim (Bool-cases (up == file_offset)) [
        | inl same ↦
            let bad : ◌≡◌ {A = Result AlignError (Option ℕ)} (ok (some align)) (ok none) =
              (rw (go, f, same) at h) in
            absurd (ground arith)
        | inr other ↦
            halve_lem rounds prev_offset file_offset (align / 2) times (omega arith) large
              (rw (go, f, other) at h) e
      ]
    ]
