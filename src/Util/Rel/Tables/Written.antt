-- ===== src/Util/Rel/Tables/Written.antt =====
-- What the tables keep of a relocation: not the sections that it had in the object file.
use decomp_toolkit.Prelude.{
  ℕ, ◌+◌, ◌*◌, ◌%◌, ◌^◌, ◌<◌, ◌≡◌, refl, ap, List, [], ◌∷◌, All, All-implies, All-map, map,
  Result-cases, inl, inr, leb, ltb, Bool-cases,
}
use decomp_toolkit.Obj.Info.{RelReloc}
use decomp_toolkit.Util.Rel.{RelHeader}
use decomp_toolkit.Util.Rel.Relocs.{RelTypes}
use decomp_toolkit.Util.Rel.Layout.{
  LayoutState, enter_module, note_fix, place, place_behind, enter_section, layout_loop,
  do_relocation_layout, start_at,
}
use decomp_toolkit.Util.Rel.Relocs.Entries.{IsPlain}
use decomp_toolkit.Util.Rel.Relocs.Returns.{room_of}
use decomp_toolkit.Util.Rel.Order.{compare_relocs}
use decomp_toolkit.Util.Rel.Order.Ascending.{NotBehind, IsAscending}
use decomp_toolkit.Util.Rel.Order.Returns.{room}
use decomp_toolkit.Util.Rel.Tables.{dedup_behind, dedup_count, layout_tables}

-- A relocation as the reader gives it, whose sections in the object file are those in the module.
abbrev pub as_read : RelReloc → RelReloc
as_read r = record r { original_section = r.section; original_target_section = r.target_section }

-- A relocation of a word, whose section and module are not the numbers that stand for none.
pub record IsWritable (r : RelReloc) : Type 0 where
  pub of_word : r.address % 4 ≡ 0
  pub in_range : r.address < 2 ^ 32
  pub in_section : r.section < 255
  pub in_module : r.module_id < 4294967295

IsWritable-IsPlain : (r : RelReloc) → IsWritable r → IsPlain (as_read r)
IsWritable-IsPlain r w = record {
  of_word = w.of_word;
  in_range = w.in_range;
  in_section = w.in_section;
  in_module = w.in_module;
  from_section = refl;
  to_section = refl;
}

pub All-IsWritable : (rs : List RelReloc) → All IsWritable rs → All IsPlain (map as_read rs)
All-IsWritable rs h = All-map IsPlain as_read rs (All-implies rs IsWritable-IsPlain h)

pub IsAscending-as_read :
    (version own : ℕ) (rs : List RelReloc)
    → IsAscending version own rs
    → IsAscending version own (map as_read rs)
unfolding compare_relocs
IsAscending-as_read version own [] h = tt
IsAscending-as_read version own (r ∷ rs) (h, hs) = (
  All-map (NotBehind version own (as_read r)) as_read rs h,
  IsAscending-as_read version own rs hs,
)

pub room-as_read : (rs : List RelReloc) → room (map as_read rs) ≡ room rs
unfolding room room_of
room-as_read [] = refl
room-as_read (r ∷ rs) = ap (λ n. room_of r + n) (room-as_read rs)

dedup_behind-as_read :
    (m : ℕ) (rs : List RelReloc) → dedup_behind m (map as_read rs) ≡ dedup_behind m rs
unfolding dedup_behind
dedup_behind-as_read m [] = refl
dedup_behind-as_read m (r ∷ rs) = rw (dedup_behind-as_read r.module_id rs) refl

enter_module-as_read :
    (r : RelReloc) (s : LayoutState) → enter_module (as_read r) s ≡ enter_module r s
unfolding enter_module
enter_module-as_read r s = refl

place-as_read :
    (t : RelTypes) (r : RelReloc) (s : LayoutState) → place t (as_read r) s ≡ place t r s
unfolding place place_behind enter_section
place-as_read t r s = refl

layout_loop-as_read :
    (t : RelTypes) (version own : ℕ) (rs : List RelReloc) (s : LayoutState)
    → layout_loop t version own (map as_read rs) s ≡ layout_loop t version own rs s
unfolding layout_loop
layout_loop-as_read t version own [] s = refl
layout_loop-as_read t version own (r ∷ rs) s =
    let entering = enter_module-as_read r s in
    elim (Result-cases (enter_module r s)) [
      | inr (inl (k, e)) ↦ rw (entering, e) refl
      | inr (inr e) ↦ rw (entering, e) refl
      | inl (entered, e) ↦
          let placing = place-as_read t r (note_fix version own r entered.state) in
          elim (Result-cases (place t r (note_fix version own r entered.state))) [
            | inr (inl (k, e')) ↦ rw (entering, e, placing, e') refl
            | inr (inr e') ↦ rw (entering, e, placing, e') refl
            | inl ((raws, s'), e') ↦
                rw (entering, e, placing, e', layout_loop-as_read t version own rs s') refl
          ]
    ]

do_relocation_layout-as_read :
    (t : RelTypes) (version own : ℕ) (rs : List RelReloc) (offset : ℕ)
    → do_relocation_layout t version own (map as_read rs) offset
      ≡ do_relocation_layout t version own rs offset
unfolding do_relocation_layout
do_relocation_layout-as_read t version own rs offset =
    layout_loop-as_read t version own rs (start_at offset)

pub layout_tables-as_read :
    (t : RelTypes) (h : RelHeader) (rs : List RelReloc) (offset : ℕ)
    → layout_tables t h (map as_read rs) offset ≡ layout_tables t h rs offset
unfolding layout_tables
layout_tables-as_read t h [] offset = refl
layout_tables-as_read t h (r ∷ rs) offset =
    let counted = dedup_behind-as_read r.module_id rs in
    let start = offset + 8 * dedup_count (r ∷ rs) in
    elim (Bool-cases (leb 3 h.version)) [
      | inr old ↦
          rw (counted, old, do_relocation_layout-as_read t h.version h.module_id (r ∷ rs) offset)
            refl
      | inl new ↦ elim (Bool-cases (ltb start (2 ^ 32))) [
        | inr over ↦ rw (counted, new, over) refl
        | inl fits ↦
            rw
              (
                counted,
                new,
                fits,
                do_relocation_layout-as_read t h.version h.module_id (r ∷ rs) start,
              )
              refl
      ]
    ]
