-- ===== src/Util/Rel/Relocs/Entered.antt =====
-- The reader behind an entry that the layout makes in the import table.
use decomp_toolkit.Prelude.{
  ℕ, ◌+◌, ◌-◌, ◌*◌, ◌^◌, ◌≤◌, ◌≡◌, refl, sym, ap, ◌∙◌, true, false, List, [], ◌∷◌, ◌++◌, some, ◌==◌,
  if◌then◌else◌, length, drop, Result, ok, panic, arith, Bool-cases, inl, inr, append_assoc,
  length-append, ltb,
}
use mathlib.Core.Path.{subst}
use decomp_toolkit.Obj.Info.{RelReloc}
use decomp_toolkit.Util.Rel.{RelImport, RelRelocRaw}
use decomp_toolkit.Util.Rel.Relocs.{
  RelTypes, RelError, imports_relocs, import_relocs, r_dolphin_end,
}
use decomp_toolkit.Util.Rel.Layout.{
  marker, LayoutState, Laid, enter_module, note_fix, place, write_raws,
}
use decomp_toolkit.Util.Rel.Relocs.Entries.{InOrder, IsPlain}
use decomp_toolkit.Util.Rel.Relocs.Placed.{place_lem, write_raws-append}
use decomp_toolkit.Util.Rel.Relocs.Reads.{
  mine-others, length-write_raws, drop-append, ReadsBack, read_placed,
}

-- The state that the layout is in behind the entry of a new module.
abbrev pub entered_state : RelReloc → LayoutState → ℕ → LayoutState
entered_state r s offset = record s { section = 255; last_module_id = r.module_id; offset = offset }

-- Behind the prefix, a new module reads back from its entry in the import table, and so does the rest.
pub imports_new :
    (t : RelTypes) (version own : ℕ) (r : RelReloc) (rs : List RelReloc) (s s' : LayoutState)
    (raws : List RelRelocRaw) (more : Laid) (offset rounds : ℕ) (file prefix suffix : List ℕ)
    → InOrder t
    → IsPlain r
    → place t r (note_fix version own r (entered_state r s offset)) ≡ ok (raws, s')
    → ReadsBack t rs s' more
    → length (raws ++ more.raw_relocations) ≤ rounds
    → length prefix ≡ offset
    → file ≡ prefix ++ (write_raws (raws ++ more.raw_relocations) ++ suffix)
    → imports_relocs rounds t file
        (record { module_id = r.module_id; offset = offset } ∷ more.imp_entries)
      ≡ some (ok (r ∷ rs))
unfolding imports_relocs import_relocs
imports_new t version own r rs s s' raws more offset rounds file prefix suffix order plain placed
      back enough size whole =
    let s₁ = note_fix version own r (entered_state r s offset) in
    let all = raws ++ more.raw_relocations in
    let below = plain.in_section in
    let extra = rounds - length all in
    let (read', at, sec, last, off) =
      place_lem t r s₁ 0 0 [] {s' = s'} order plain (λ e. absurd (omega (arith, e))) placed in
    let read =
      read_placed t r rs s₁ s' raws more 0 extra suffix order plain (λ e. absurd (omega (arith, e)))
        placed refl back in
    let enough_rounds : length all + extra ≡ rounds = (omega arith) in
    let start : drop offset file ≡ write_raws all ++ suffix =
      ap (drop offset) whole ∙ drop-append prefix (write_raws all ++ suffix) {n = offset} size in
    let split : file ≡ (prefix ++ write_raws raws) ++ (write_raws more.raw_relocations ++ suffix) =
      whole ∙ simp (write_raws-append, append_assoc) refl in
    let rest =
      back.there rounds file (prefix ++ write_raws raws) suffix
        (omega (arith, length-append raws more.raw_relocations))
        (omega (arith, length-append prefix (write_raws raws), length-write_raws raws)) split in
    let rest' = rw last at rest in
    let read_all = rw enough_rounds at read in
    rw (start, read_all, rest') (ap (λ l. some (ok (r ∷ l))) (mine-others r.module_id rs))

pub enter_module_same :
    (r : RelReloc) (s : LayoutState) {entered : Laid}
    → r.module_id == s.last_module_id ≡ true
    → enter_module r s ≡ ok entered
    → record { imp_entries = []; raw_relocations = []; state = s } ≡ entered
unfolding enter_module
enter_module_same r s {entered} t h =
    let same : Laid = record { imp_entries = []; raw_relocations = []; state = s } in
    let made : ◌≡◌ {A = Result RelError Laid} (ok same) (ok entered) = (rw t at h) in cc

unfoldable pub ends : LayoutState → List RelRelocRaw
ends s = if s.last_module_id == 4294967295 then [] else marker 0 r_dolphin_end 0 ∷ []

pub enter_module_new :
    (r : RelReloc) (s : LayoutState) {entered : Laid}
    → r.module_id == s.last_module_id ≡ false
    → enter_module r s ≡ ok entered
    → let offset = s.offset + 8 * length (ends s) in
      record {
        imp_entries = record { module_id = r.module_id; offset = offset } ∷ [];
        raw_relocations = ends s;
        state = entered_state r s offset;
      }
      ≡ entered
unfolding enter_module ends
enter_module_new r s {entered} f h =
    let offset = s.offset + 8 * length (ends s) in
    let new : Laid = record {
      imp_entries = record { module_id = r.module_id; offset = offset } ∷ [];
      raw_relocations = ends s;
      state = entered_state r s offset;
    } in
    elim (Bool-cases (ltb offset (2 ^ 32))) [
      | inr g ↦
          let bad : ◌≡◌ {A = Result RelError Laid} panic (ok entered) = (rw (f, g) at h) in
          absurd (ground arith)
      | inl t ↦
          let made : ◌≡◌ {A = Result RelError Laid} (ok new) (ok entered) = (rw (f, t) at h) in cc
    ]

-- The import table from a relocation of a new module on.
pub there_new :
    (t : RelTypes) (version own : ℕ) (r : RelReloc) (rs : List RelReloc) (s s' : LayoutState)
    (raws : List RelRelocRaw) (entered more laid : Laid) (rounds : ℕ) (file prefix suffix : List ℕ)
    → InOrder t
    → IsPlain r
    → r.module_id == s.last_module_id ≡ false
    → enter_module r s ≡ ok entered
    → place t r (note_fix version own r entered.state) ≡ ok (raws, s')
    → ReadsBack t rs s' more
    → laid.imp_entries ≡ entered.imp_entries ++ more.imp_entries
    → laid.raw_relocations ≡ entered.raw_relocations ++ (raws ++ more.raw_relocations)
    → length laid.raw_relocations ≤ rounds
    → length prefix ≡ s.offset
    → file ≡ prefix ++ (write_raws laid.raw_relocations ++ suffix)
    → imports_relocs rounds t file laid.imp_entries ≡ some (ok (r ∷ rs))
there_new t version own r rs s s' raws entered more laid rounds file prefix suffix order plain f e
      placed back imps all enough size whole =
    let offset = s.offset + 8 * length (ends s) in
    let entry : RelImport = record { module_id = r.module_id; offset = offset } in
    let same = enter_module_new r s {entered = entered} f e in
    let state_same : entered_state r s offset ≡ entered.state = (ap (λ (l : Laid). l.state) same) in
    let imps_same : entry ∷ [] ≡ entered.imp_entries = (ap (λ (l : Laid). l.imp_entries) same) in
    let raws_same : ends s ≡ entered.raw_relocations =
      (ap (λ (l : Laid). l.raw_relocations) same) in
    let placed' =
      subst (λ (z : LayoutState). place t r (note_fix version own r z) ≡ ok (raws, s'))
        (sym state_same) placed in
    let all' : laid.raw_relocations ≡ ends s ++ (raws ++ more.raw_relocations) =
      (rw raws_same all) in
    let enough' : length (ends s ++ (raws ++ more.raw_relocations)) ≤ rounds =
      (rw (← all') enough) in
    let whole' : file
        ≡ (prefix ++ write_raws (ends s)) ++ (write_raws (raws ++ more.raw_relocations) ++ suffix) =
      whole ∙ (rw all' (simp (write_raws-append, append_assoc) refl)) in
    let read =
      imports_new t version own r rs s s' raws more offset rounds file
        (prefix ++ write_raws (ends s)) suffix order plain placed' back
        (omega (arith, length-append (ends s) (raws ++ more.raw_relocations)))
        (omega (arith, length-append prefix (write_raws (ends s)), length-write_raws (ends s)))
        whole' in
    rw (imps, ← imps_same) read
