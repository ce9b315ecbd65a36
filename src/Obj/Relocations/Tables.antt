-- ===== src/Obj/Relocations/Tables.antt =====
-- The relocation map against the function from addresses to relocations that it stands for.
use decomp_toolkit.Prelude.{
  ℕ, ◌≡◌, ◌≢◌, refl, List, [], ◌∷◌, ◌++◌, none, some, ok, err, arith, ◌==◌, if◌then◌else◌, All, ◌⊎◌,
  inl, inr, Option-cases, append-nil, ◌∙◌,
}
use decomp_toolkit.Prelude.BTreeMap.{IsOrdered}
use decomp_toolkit.Prelude.BTreeMap
use decomp_toolkit.Obj.Relocations.{ObjReloc, ObjRelocations, insert, new_loop, new, at}

-- A free address takes the relocation and every other address is as it was; a taken address gives
-- the error with the relocation that is there, and changes nothing.
pub insert_cases :
    (address : ℕ) (reloc : ObjReloc) (m : ObjRelocations)
    → ((at address m ≡ none)
        × ((insert address reloc m).1 ≡ ok tt)
        × ((j : ℕ)
            → at j (insert address reloc m).0 ≡ (if address == j then some reloc else at j m)))
      ⊎ ((existing : ObjReloc) × (at address m ≡ some existing)
          × (insert address reloc m ≡ (m, err (record { address = address; value = existing }))))
unfolding insert at
insert_cases address reloc m = elim (Option-cases (BTreeMap.get address m)) [
  | inl e ↦
      inl (e, rw (e, insert) refl, λ j. rw (e, insert) (BTreeMap.get-insert address j reloc m))
  | inr (existing, e) ↦ inr (existing, e, rw (e, insert) refl)
]

-- No address stands twice in the pairs.
abbrev pub IsDistinct : List (ℕ × ObjReloc) → Type 0
IsDistinct [] = Unit
IsDistinct ((a, r) ∷ rest) = All (λ (e : ℕ × ObjReloc). a ≢ e.0) rest × IsDistinct rest

abbrev IsFree : ObjRelocations → List (ℕ × ObjReloc) → Type 0
IsFree acc xs = All (λ (e : ℕ × ObjReloc). BTreeMap.get e.0 acc ≡ none) xs

insert_all : ObjRelocations → List (ℕ × ObjReloc) → ObjRelocations
insert_all acc [] = acc
insert_all acc ((a, r) ∷ rest) = insert_all (BTreeMap.insert a r acc) rest

insert-IsFree :
    (acc : ObjRelocations) (a : ℕ) (r : ObjReloc) (xs : List (ℕ × ObjReloc))
    → All (λ (e : ℕ × ObjReloc). a ≢ e.0) xs
    → IsFree acc xs
    → IsFree (BTreeMap.insert a r acc) xs
insert-IsFree acc a r [] d f = tt
insert-IsFree acc a r ((b, q) ∷ xs) d f =
    (ground (arith, BTreeMap.get-insert a b r acc), insert-IsFree acc a r xs d.1 f.1)

-- Pairs with fresh, distinct addresses are all inserted before the rest is read.
new_loop-append :
    (acc : ObjRelocations) (front rest : List (ℕ × ObjReloc))
    → IsDistinct front
    → IsFree acc front
    → new_loop acc (front ++ rest) ≡ new_loop (insert_all acc front) rest
unfolding new_loop insert_all
new_loop-append acc [] rest d f = refl
new_loop-append acc ((a, r) ∷ xs) rest d f =
    rw (f.0, new_loop)
      (new_loop-append (BTreeMap.insert a r acc) xs rest d.1 (insert-IsFree acc a r xs d.0 f.1))

new_loop-ok :
    (acc : ObjRelocations) (xs : List (ℕ × ObjReloc))
    → IsDistinct xs
    → IsFree acc xs
    → new_loop acc xs ≡ ok (insert_all acc xs)
unfolding new_loop
new_loop-ok acc xs d f = rw append-nil at (new_loop-append acc xs [] d f)

get-insert_all :
    (acc : ObjRelocations) (xs : List (ℕ × ObjReloc)) (j : ℕ)
    → IsDistinct xs
    → IsFree acc xs
    → BTreeMap.get j (insert_all acc xs)
      ≡ elim (BTreeMap.get j acc) [ none ↦ BTreeMap.get j xs | some v ↦ some v ]
unfolding insert_all BTreeMap.get
get-insert_all acc [] j d f = ground arith
get-insert_all acc ((a, r) ∷ xs) j d f =
    let ih = get-insert_all (BTreeMap.insert a r acc) xs j d.1 (insert-IsFree acc a r xs d.0 f.1) in
    ground (arith, ih, BTreeMap.get-insert a j r acc)

insert_all-IsOrdered :
    (acc : ObjRelocations) (xs : List (ℕ × ObjReloc))
    → IsOrdered acc
    → IsOrdered (insert_all acc xs)
unfolding insert_all
insert_all-IsOrdered acc [] h = h
insert_all-IsOrdered acc ((a, r) ∷ xs) h =
    insert_all-IsOrdered (BTreeMap.insert a r acc) xs (BTreeMap.insert-IsOrdered a r acc h)

all-IsFree : (xs : List (ℕ × ObjReloc)) → IsFree [] xs
unfolding BTreeMap.get
all-IsFree [] = tt
all-IsFree (x ∷ xs) = (refl, all-IsFree xs)

-- Pairs with distinct addresses give an ordered map that holds exactly these pairs.
pub new-IsDistinct :
    (xs : List (ℕ × ObjReloc))
    → IsDistinct xs
    → (m : ObjRelocations) × (new xs ≡ ok m) × IsOrdered m × ((j : ℕ) → at j m ≡ BTreeMap.get j xs)
unfolding new new_loop at BTreeMap.get
new-IsDistinct xs d = (
  insert_all [] xs,
  new_loop-ok [] xs d (all-IsFree xs),
  insert_all-IsOrdered [] xs tt,
  λ j. get-insert_all [] xs j d (all-IsFree xs),
)

-- At the first address that stands twice, `new` fails with that address and the earlier value.
pub new_repeated :
    (front back : List (ℕ × ObjReloc)) (a : ℕ) (r v : ObjReloc)
    → IsDistinct front
    → BTreeMap.get a front ≡ some v
    → new (front ++ ((a, r) ∷ back)) ≡ err (record { address = a; value = v })
unfolding new new_loop BTreeMap.get
new_repeated front back a r v d h =
    new_loop-append [] front ((a, r) ∷ back) d (all-IsFree front)
    ∙ rw (get-insert_all [] front a d (all-IsFree front), h, new_loop)
