-- ===== src/Util/Rel/Relocs/Reads.antt =====
-- The reader behind what the layout of a relocation has written.
use decomp_toolkit.Prelude.{
  ℕ, suc, ◌+◌, ◌*◌, ◌≤◌, ◌≡◌, refl, sym, ap, ◌∙◌, true, List, [], ◌∷◌, ◌++◌, some, ◌==◌,
  if◌then◌else◌, length, drop, ok, arith, Bool-cases, inl, inr, append_assoc, length-append,
}
use mathlib.Core.Path.{subst}
use decomp_toolkit.Util.Reader.{big, write_u16, write_u32}
use decomp_toolkit.Obj.Info.{RelReloc}
use decomp_toolkit.Util.Rel.{RelRelocRaw, write_raw}
use decomp_toolkit.Util.Rel.Relocs.{RelTypes, read_relocs, imports_relocs, r_dolphin_end}
use decomp_toolkit.Util.Rel.Layout.{marker, LayoutState, Laid, note_fix, place, write_raws}
use decomp_toolkit.Util.Rel.Relocs.Entries.{InOrder, IsPlain, read_end}
use decomp_toolkit.Util.Rel.Relocs.Placed.{place_lem, write_raws-append}

-- The relocations of the module that the layout is in, and those that follow.
unfoldable pub mine : ℕ → List RelReloc → List RelReloc
mine m [] = []
mine m (r ∷ rs) = if r.module_id == m then r ∷ mine m rs else []

unfoldable pub others : ℕ → List RelReloc → List RelReloc
others m [] = []
others m (r ∷ rs) = let rest = others m rs in if r.module_id == m then rest else r ∷ rs

pub mine-others : (m : ℕ) (rs : List RelReloc) → mine m rs ++ others m rs ≡ rs
unfolding mine others
mine-others m [] = refl
mine-others m (r ∷ rs) = elim (Bool-cases (r.module_id == m)) [
  | inl t ↦ rw t (ap (λ l. r ∷ l) (mine-others m rs))
  | inr f ↦ rw f refl
]

pub length-write_raw : (r : RelRelocRaw) → length (write_raw big r) ≡ 8
unfolding write_raw write_u16 write_u32
length-write_raw r = refl

pub length-write_raws : (raws : List RelRelocRaw) → length (write_raws raws) ≡ 8 * length raws
unfolding write_raws
length-write_raws [] = refl
length-write_raws (r ∷ rs) = omega (
  arith,
  length-append (write_raw big r) (write_raws rs),
  length-write_raw r,
  length-write_raws rs,
)

pub drop-append : (xs ys : List ℕ) {n : ℕ} → length xs ≡ n → drop n (xs ++ ys) ≡ ys
drop-append [] ys {n} h = rw (← h) refl
drop-append (x ∷ xs) ys {n} h = rw (← h) (drop-append xs ys {n = length xs} refl)

-- What holds of the layout from a state on: the reader, standing where the layout stands, reads what
-- is left of the module, and the entries of the import table lead to the rest.
pub record ReadsBack (t : RelTypes) (rs : List RelReloc) (s : LayoutState) (laid : Laid)
    : Type 0 where
  pub here :
      (extra : ℕ) (suffix : List ℕ)
      → read_relocs
          (length laid.raw_relocations + extra)
          t
          s.last_module_id
          s.address
          s.section
          (write_raws laid.raw_relocations ++ suffix)
        ≡ some (ok (mine s.last_module_id rs))
  pub there :
      (rounds : ℕ) (file prefix suffix : List ℕ)
      → length laid.raw_relocations ≤ rounds
      → length prefix ≡ s.offset
      → file ≡ prefix ++ (write_raws laid.raw_relocations ++ suffix)
      → imports_relocs rounds t file laid.imp_entries ≡ some (ok (others s.last_module_id rs))

-- The reader stands where a relocation and what follows it were laid out.
pub read_placed :
    (t : RelTypes) (r : RelReloc) (rs : List RelReloc) (s s' : LayoutState)
    (raws : List RelRelocRaw) (more : Laid) (a extra : ℕ) (suffix : List ℕ)
    → InOrder t
    → IsPlain r
    → (r.section ≡ s.section → a ≡ s.address)
    → place t r s ≡ ok (raws, s')
    → s.last_module_id ≡ r.module_id
    → ReadsBack t rs s' more
    → read_relocs
        (length (raws ++ more.raw_relocations) + extra)
        t
        r.module_id
        a
        s.section
        (write_raws (raws ++ more.raw_relocations) ++ suffix)
      ≡ some (ok (r ∷ mine r.module_id rs))
read_placed t r rs s s' raws more a extra suffix order plain same placed in_module back =
    let tail = write_raws more.raw_relocations ++ suffix in
    let rounds = length more.raw_relocations + extra in
    let (read, at, sec, last, off) =
      place_lem t r s a rounds tail {s' = s'} order plain same placed in
    let last' : s'.last_module_id ≡ r.module_id = last ∙ in_module in
    let rest = rw (last', at, sec) at (back.here extra suffix) in
    let count : length (raws ++ more.raw_relocations) + extra ≡ length raws + rounds =
      omega (arith, length-append raws more.raw_relocations) in
    rw
      (
        write_raws-append raws more.raw_relocations,
        append_assoc (write_raws raws) (write_raws more.raw_relocations) suffix,
        count,
        read,
        rest,
      )
      refl

-- At the end of a table the reader stops, whatever follows.
pub read_stop :
    (t : RelTypes) (m a sec extra : ℕ) (more : List RelRelocRaw) (suffix : List ℕ)
    → InOrder t
    → read_relocs
        (length (marker 0 r_dolphin_end 0 ∷ more) + extra)
        t
        m
        a
        sec
        (write_raws (marker 0 r_dolphin_end 0 ∷ more) ++ suffix)
      ≡ some (ok [])
unfolding write_raws
read_stop t m a sec extra more suffix order =
    let count : suc (length more) + extra ≡ suc (length more + extra) = (omega arith) in
    rw (append_assoc (write_raw big (marker 0 r_dolphin_end 0)) (write_raws more) suffix, count)
      (read_end t order m (length more + extra) a sec (write_raws more ++ suffix))

-- Where the state after a relocation stands.
pub placed_module :
    (t : RelTypes) (r : RelReloc) (s s' : LayoutState) (raws : List RelRelocRaw)
    → InOrder t
    → IsPlain r
    → place t r s ≡ ok (raws, s')
    → s'.last_module_id ≡ s.last_module_id
placed_module t r s s' raws order plain placed =
    let (read, at, sec, last, off) =
      place_lem t r s s.address 0 [] {s' = s'} order plain (λ e. refl) placed in
    last

-- A relocation of the module that the layout is in.
pub back_same :
    (t : RelTypes) (version own : ℕ) (r : RelReloc) (rs : List RelReloc) (s s' : LayoutState)
    (raws : List RelRelocRaw) (more laid : Laid)
    → InOrder t
    → IsPlain r
    → r.module_id == s.last_module_id ≡ true
    → place t r (note_fix version own r s) ≡ ok (raws, s')
    → ReadsBack t rs s' more
    → laid.imp_entries ≡ more.imp_entries
    → laid.raw_relocations ≡ raws ++ more.raw_relocations
    → ReadsBack t (r ∷ rs) s laid
unfolding mine others
back_same t version own r rs s s' raws more laid order plain same placed back imps all =
    let s₁ = note_fix version own r s in
    let in_module : s.last_module_id ≡ r.module_id = (ground arith) in
    let (read, at, sec, last, off) =
      place_lem t r s₁ s.address 0 [] {s' = s'} order plain (λ e. refl) placed in
    record {
      here = λ extra suffix.
          let read' =
            read_placed t r rs s₁ s' raws more s.address extra suffix order plain (λ e. refl) placed
              in_module back in
          let read_here =
            subst
              (λ (m : ℕ).
                read_relocs (length (raws ++ more.raw_relocations) + extra) t m s.address s.section
                  (write_raws (raws ++ more.raw_relocations) ++ suffix)
                ≡ some (ok (r ∷ mine m rs)))
              (sym in_module) read' in
          rw (all, same) read_here;
      there = λ rounds file prefix suffix enough size whole.
          let split : file
              ≡ (prefix ++ write_raws raws) ++ (write_raws more.raw_relocations ++ suffix) =
            whole ∙ (rw all (simp (write_raws-append, append_assoc) refl)) in
          let few : length (raws ++ more.raw_relocations) ≤ rounds = (rw (← all) enough) in
          let rest =
            back.there rounds file (prefix ++ write_raws raws) suffix
              (omega (arith, length-append raws more.raw_relocations))
              (omega (arith, length-append prefix (write_raws raws), length-write_raws raws))
              split in
          let rest' = rw last at rest in rw (imps, same) rest';
    }
