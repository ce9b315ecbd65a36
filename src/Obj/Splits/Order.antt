-- ===== src/Obj/Splits/Order.antt =====
-- `push` keeps the splits in order and loses none.
use decomp_toolkit.Prelude.{
  ℕ, ◌≤◌, ◌≡◌, sym, true, false, List, [], ◌∷◌, ◌++◌, ◌==◌, leb, if◌then◌else◌, arith, All,
}
use decomp_toolkit.Prelude.BTreeMap.{IsOrdered}
use decomp_toolkit.Prelude.BTreeMap
use decomp_toolkit.Util.Nested.{bucket}
use decomp_toolkit.Obj.Splits.{ObjSplit, ObjSplits, insert_by_end, sort_by_end, push}
use mathlib.Core.Path.{subst}
use mathlib.Core.List.{Perm}
use mathlib.Core.List.Perm

-- Ends in ascending order.
abbrev pub IsSorted : List ObjSplit → Type 0
IsSorted [] = Unit
IsSorted (s ∷ ss) = All (λ (t : ObjSplit). s.end ≤ t.end) ss × IsSorted ss

insert_by_end-All :
    (n : ℕ) (s : ObjSplit) (ss : List ObjSplit)
    → n ≤ s.end
    → All (λ (t : ObjSplit). n ≤ t.end) ss
    → All (λ (t : ObjSplit). n ≤ t.end) (insert_by_end s ss)
unfolding insert_by_end
insert_by_end-All n s [] le h = (le, tt)
insert_by_end-All n s (t ∷ ts) le h = ground (arith, insert_by_end-All n s ts le)

All-weaken :
    (n m : ℕ) (ss : List ObjSplit)
    → n ≤ m
    → All (λ (t : ObjSplit). m ≤ t.end) ss
    → All (λ (t : ObjSplit). n ≤ t.end) ss
All-weaken n m [] le h = tt
All-weaken n m (t ∷ ts) le h = (omega arith, All-weaken n m ts le h.1)

insert_by_end-IsSorted :
    (s : ObjSplit) (ss : List ObjSplit) → IsSorted ss → IsSorted (insert_by_end s ss)
unfolding insert_by_end
insert_by_end-IsSorted s [] h = (tt, tt)
insert_by_end-IsSorted s (t ∷ ts) h =
    ground
      (arith, insert_by_end-IsSorted s ts, insert_by_end-All t.end s ts, All-weaken s.end t.end ts)

sort_by_end-IsSorted : (ss : List ObjSplit) → IsSorted (sort_by_end ss)
unfolding sort_by_end
sort_by_end-IsSorted [] = tt
sort_by_end-IsSorted (s ∷ ss) = insert_by_end-IsSorted s (sort_by_end ss) (sort_by_end-IsSorted ss)

insert_by_end-perm : (s : ObjSplit) (ss : List ObjSplit) → Perm (insert_by_end s ss) (s ∷ ss)
unfolding insert_by_end
insert_by_end-perm s [] = Perm.refl (s ∷ [])
insert_by_end-perm s (t ∷ ts) =
    elim (leb s.end t.end)
      as (λ b. Perm (if b then s ∷ (t ∷ ts) else t ∷ insert_by_end s ts) (s ∷ (t ∷ ts))) [
        | true ↦ Perm.refl (s ∷ (t ∷ ts))
        | false ↦ Perm.trans (Perm.cons t (insert_by_end-perm s ts)) (Perm.swap s t ts)
      ]

sort_by_end-perm : (ss : List ObjSplit) → Perm (sort_by_end ss) ss
unfolding sort_by_end
sort_by_end-perm [] = Perm.refl []
sort_by_end-perm (s ∷ ss) =
    Perm.trans (insert_by_end-perm s (sort_by_end ss)) (Perm.cons s (sort_by_end-perm ss))

perm_snoc : (split : ObjSplit) (ss : List ObjSplit) → Perm (ss ++ (split ∷ [])) (split ∷ ss)
perm_snoc split [] = Perm.refl (split ∷ [])
perm_snoc split (s ∷ ss) = Perm.trans (Perm.cons s (perm_snoc split ss)) (Perm.swap split s ss)

pub bucket-push :
    (address j : ℕ) (split : ObjSplit) (splits : ObjSplits)
    → bucket j (push address split splits) ≡ (
        if address == j
        then sort_by_end (bucket address splits ++ (split ∷ []))
        else bucket j splits)
unfolding push bucket
bucket-push address j split splits = ground (
  arith,
  BTreeMap.get-insert address j (sort_by_end (bucket address splits ++ (split ∷ []))) splits,
)

push-IsOrdered :
    (address : ℕ) (split : ObjSplit) (splits : ObjSplits)
    → IsOrdered splits
    → IsOrdered (push address split splits)
unfolding push
push-IsOrdered address split splits h =
    BTreeMap.insert-IsOrdered address (sort_by_end (bucket address splits ++ (split ∷ []))) splits h

-- After a push the addresses are in order, the splits at the address are sorted by end and are
-- those that were there and the new one, and the splits at every other address are as they were.
pub push_lem :
    (address : ℕ) (split : ObjSplit) (splits : ObjSplits)
    → IsOrdered splits
    → IsOrdered (push address split splits)
      × IsSorted (bucket address (push address split splits))
      × Perm (bucket address (push address split splits)) (split ∷ bucket address splits)
      × ((j : ℕ) → (address == j) ≡ false → bucket j (push address split splits) ≡ bucket j splits)
push_lem address split splits h =
    let here : bucket address (push address split splits)
        ≡ sort_by_end (bucket address splits ++ (split ∷ [])) =
      ground (arith, bucket-push address address split splits) in
    (
      push-IsOrdered address split splits h,
      subst IsSorted (sym here) (sort_by_end-IsSorted (bucket address splits ++ (split ∷ []))),
      subst (λ l. Perm l (split ∷ bucket address splits)) (sym here)
          (Perm.trans (sort_by_end-perm (bucket address splits ++ (split ∷ [])))
            (perm_snoc split (bucket address splits))),
      λ j ne. ground (arith, bucket-push address j split splits),
    )
