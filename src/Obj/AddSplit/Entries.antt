-- ===== src/Obj/AddSplit/Entries.antt =====
-- The splits of a section as the list of its entries, under the operations that `add_split` uses.
use decomp_toolkit.Prelude.{
  ℕ, ◌≡◌, refl, sym, ap, ◌∙◌, Bool, true, false, not, List, [], ◌∷◌, ◌++◌, map, some, String,
  str_eq, ◌==◌, if◌then◌else◌, filter, leb, ==_refl, ok, arith, Bool-cases, inl, inr, mem_of_filter,
}
use decomp_toolkit.Prelude.BTreeMap
use decomp_toolkit.Util.Nested.{bucket}
use decomp_toolkit.Obj.Splits.{ObjSplit, ObjSplits, flatten, for_range, for_unit, at_most_one, push}
use decomp_toolkit.Obj.Splits
use decomp_toolkit.Obj.AddSplit.{rename_split, rename_splits}
use decomp_toolkit.Obj.Splits.Order.{bucket-push}
use mathlib.Core.Path.{subst}
use mathlib.Core.List.{Memᴰ, map-append}
use mathlib.Core.List.Memᴰ

abbrev pub Entry : Type 0
Entry = ℕ × ObjSplit

filter-append :
    (p : Entry → Bool) (xs ys : List Entry) → filter p (xs ++ ys) ≡ filter p xs ++ filter p ys
filter-append p [] ys = refl
filter-append p (x ∷ xs) ys = ground (arith, filter-append p xs ys)

-- All entries of one address pass a test on addresses, or none does.
filter_here :
    (p : ℕ → Bool) (address : ℕ) (v : List ObjSplit)
    → filter (λ (e : Entry). p e.0) (map (λ (s : ObjSplit). (address, s)) v)
      ≡ (if p address then map (λ (s : ObjSplit). (address, s)) v else [])
filter_here p address [] = ground arith
filter_here p address (s ∷ v) = ground (arith, filter_here p address v)

pub for_range-filter :
    (p : ℕ → Bool) (splits : ObjSplits)
    → for_range p splits ≡ filter (λ (e : Entry). p e.0) (flatten splits)
unfolding for_range flatten BTreeMap.range
for_range-filter p [] = refl
for_range-filter p ((address, v) ∷ m) = ground (
  arith,
  filter-append (λ (e : Entry). p e.0) (map (λ (s : ObjSplit). (address, s)) v) (flatten m),
  filter_here p address v,
  for_range-filter p m,
)

pub flatten-remove :
    (address : ℕ) (splits : ObjSplits)
    → flatten (Splits.remove address splits).0
      ≡ filter (λ (e : Entry). not (e.0 == address)) (flatten splits)
unfolding flatten Splits.remove BTreeMap.remove
flatten-remove address [] = refl
flatten-remove address ((j, v) ∷ m) = ground (
  arith,
  filter-append (λ (e : Entry). not (e.0 == address)) (map (λ (s : ObjSplit). (j, s)) v)
      (flatten m),
  filter_here (λ a. not (a == address)) j v,
  flatten-remove address m,
)

abbrev pub rename_entry : String → String → Entry → Entry
rename_entry old new e = (e.0, rename_split old new e.1)

map_here :
    (old new : String) (address : ℕ) (v : List ObjSplit)
    → map (λ (s : ObjSplit). (address, s)) (map (rename_split old new) v)
      ≡ map (rename_entry old new) (map (λ (s : ObjSplit). (address, s)) v)
map_here old new address [] = refl
map_here old new address (s ∷ v) =
    ap (λ l. (address, rename_split old new s) ∷ l) (map_here old new address v)

pub flatten-rename_splits :
    (old new : String) (splits : ObjSplits)
    → flatten (rename_splits old new splits) ≡ map (rename_entry old new) (flatten splits)
unfolding flatten rename_splits
flatten-rename_splits old new [] = refl
flatten-rename_splits old new ((address, v) ∷ m) =
    rw (map_here old new address v, flatten-rename_splits old new m)
      (sym (map-append (rename_entry old new) (map (λ (s : ObjSplit). (address, s)) v) (flatten m)))

at_most_one-mem : {A : Type 0} (xs : List A) {x : A} → at_most_one xs ≡ ok (some x) → Memᴰ x xs
at_most_one-mem [] h = absurd (cc h)
at_most_one-mem (y ∷ []) h = Memᴰ.head (cc)
at_most_one-mem (y ∷ (z ∷ zs)) h = absurd (cc h)

-- What `for_unit` finds is an entry of that unit.
pub for_unit-mem :
    (unit : String) (splits : ObjSplits) {e : Entry}
    → for_unit unit splits ≡ ok (some e)
    → Memᴰ e (flatten splits) × (str_eq (e.1).unit unit ≡ true)
unfolding for_unit
for_unit-mem unit splits h =
    mem_of_filter (λ (e : Entry). str_eq (e.1).unit unit) (flatten splits) (at_most_one-mem _ h)

mem-insert_by_end : (s : ObjSplit) (ss : List ObjSplit) → Memᴰ s (Splits.insert_by_end s ss)
unfolding Splits.insert_by_end
mem-insert_by_end s [] = Memᴰ.head refl
mem-insert_by_end s (t ∷ ts) =
    elim (leb s.end t.end)
      as (λ b. Memᴰ s (if b then s ∷ (t ∷ ts) else t ∷ Splits.insert_by_end s ts)) [
        | true ↦ Memᴰ.head refl
        | false ↦ Memᴰ.tail (mem-insert_by_end s ts)
      ]

mem-insert_by_end_other :
    {x : ObjSplit} (s : ObjSplit) (ss : List ObjSplit)
    → Memᴰ x ss
    → Memᴰ x (Splits.insert_by_end s ss)
unfolding Splits.insert_by_end
mem-insert_by_end_other s [] m = elim m [ ]
mem-insert_by_end_other {x} s (t ∷ ts) m =
    elim (leb s.end t.end)
      as (λ b. Memᴰ x (if b then s ∷ (t ∷ ts) else t ∷ Splits.insert_by_end s ts)) [
        | true ↦ Memᴰ.tail m
        | false ↦ elim (Memᴰ.cases_cons m) [
          | inl e ↦ Memᴰ.head e
          | inr r ↦ Memᴰ.tail (mem-insert_by_end_other s ts r)
        ]
      ]

mem-sort_by_end : {x : ObjSplit} (ss : List ObjSplit) → Memᴰ x ss → Memᴰ x (Splits.sort_by_end ss)
unfolding Splits.sort_by_end
mem-sort_by_end [] m = elim m [ ]
mem-sort_by_end {x} (s ∷ ss) (Memᴰ.head e) =
    subst (λ y. Memᴰ y (Splits.insert_by_end s (Splits.sort_by_end ss))) (sym e)
      (mem-insert_by_end s (Splits.sort_by_end ss))
mem-sort_by_end (s ∷ ss) (Memᴰ.tail m) =
    mem-insert_by_end_other s (Splits.sort_by_end ss) (mem-sort_by_end ss m)

-- A push loses no split, and enters the new one.
pub mem-push :
    (address j : ℕ) (split : ObjSplit) (splits : ObjSplits) {x : ObjSplit}
    → Memᴰ x (bucket j splits)
    → Memᴰ x (bucket j (push address split splits))
mem-push address j split splits {x} m = elim (Bool-cases (address == j)) [
  | inl t ↦
      let e : address ≡ j = ground arith in
      subst (Memᴰ x) (sym (bucket-push address j split splits ∙ rw t)) (
        mem-sort_by_end (bucket address splits ++ (split ∷ []))
          (Memᴰ.append_left (split ∷ []) (subst (λ k. Memᴰ x (bucket k splits)) (sym e) m)))
  | inr f ↦ subst (Memᴰ x) (sym (bucket-push address j split splits ∙ rw f)) m
]

mem-push_self :
    (address : ℕ) (split : ObjSplit) (splits : ObjSplits)
    → Memᴰ split (bucket address (push address split splits))
mem-push_self address split splits =
    subst (Memᴰ split) (sym (bucket-push address address split splits ∙ rw (==_refl address))) (
      mem-sort_by_end (bucket address splits ++ (split ∷ []))
        (Memᴰ.append_right (bucket address splits) (Memᴰ.head refl)))

-- The splits at an address are entries.
pub mem_of_bucket :
    (address : ℕ) (splits : ObjSplits) {x : ObjSplit}
    → Memᴰ x (bucket address splits)
    → Memᴰ (address, x) (flatten splits)
unfolding bucket flatten BTreeMap.get
mem_of_bucket address [] m = elim m [ ]
mem_of_bucket address ((j, v) ∷ splits) {x} m = elim (Bool-cases (j == address)) [
  | inl t ↦
      let e : j ≡ address = ground arith in
      Memᴰ.append_left (flatten splits) (
        subst (λ k. Memᴰ {A = Entry} (k, x) (map (λ (s : ObjSplit). (j, s)) v)) e
          (Memᴰ.map (λ (s : ObjSplit). (j, s)) (rw t at m)))
  | inr f ↦
      Memᴰ.append_right (map (λ (s : ObjSplit). (j, s)) v)
        (mem_of_bucket address splits (rw f at m))
]

pub mem-flatten-push :
    (address : ℕ) (split : ObjSplit) (splits : ObjSplits)
    → Memᴰ (address, split) (flatten (push address split splits))
mem-flatten-push address split splits =
    mem_of_bucket address (push address split splits) (mem-push_self address split splits)
