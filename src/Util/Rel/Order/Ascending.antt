-- ===== src/Util/Rel/Order/Ascending.antt =====
-- The order of the relocations that are laid out.
use decomp_toolkit.Prelude.{
  ℕ, ◌≤◌, ◌≡◌, true, false, List, [], ◌∷◌, All, All-implies, arith, Bool-cases, inl, inr,
}
use mathlib.Core.List.{Perm}
use mathlib.Core.List.Perm
use decomp_toolkit.Obj.Info.{RelReloc}
use decomp_toolkit.Util.Rel.Order.{
  compare_modules, compare_relocs, is_greater, insert_reloc, sort_relocs,
}

-- The order of two relocations as they are laid out: neither comes before the other's predecessors.
abbrev pub NotBehind : ℕ → ℕ → RelReloc → RelReloc → Type 0
NotBehind version own a b = is_greater (compare_relocs version own a b) ≡ false

NotBehind-trans :
    (version own : ℕ) (a b c : RelReloc)
    → NotBehind version own a b
    → NotBehind version own b c
    → NotBehind version own a c
unfolding compare_relocs compare_modules
NotBehind-trans version own a b c h h' = ground arith

NotBehind-total :
    (version own : ℕ) (a b : RelReloc)
    → is_greater (compare_relocs version own a b) ≡ true
    → NotBehind version own b a
unfolding compare_relocs compare_modules
NotBehind-total version own a b h = ground arith

-- In a section the addresses ascend.
pub NotBehind-address :
    (version own : ℕ) (a b : RelReloc)
    → NotBehind version own a b
    → b.module_id ≡ a.module_id
    → b.section ≡ a.section
    → a.address ≤ b.address
unfolding compare_relocs compare_modules
NotBehind-address version own a b h same_module same_section = ground arith

-- Every relocation is in order with all behind it.
abbrev pub IsAscending : ℕ → ℕ → List RelReloc → Type 0
IsAscending version own [] = Unit {0}
IsAscending version own (r ∷ rs) = All (NotBehind version own r) rs × IsAscending version own rs

All-insert_reloc :
    (version own : ℕ) (P : RelReloc → Type 0) (r : RelReloc) (xs : List RelReloc)
    → P r
    → All P xs
    → All P (insert_reloc version own r xs)
unfolding insert_reloc
All-insert_reloc version own P r [] h hs = (h, tt)
All-insert_reloc version own P r (x ∷ xs) h (k, ks) =
    elim (Bool-cases (is_greater (compare_relocs version own r x))) [
      | inl t ↦ rw t (k, All-insert_reloc version own P r xs h ks)
      | inr f ↦ rw f (h, (k, ks))
    ]

pub All-sort_relocs :
    (version own : ℕ) (P : RelReloc → Type 0) (rs : List RelReloc)
    → All P rs
    → All P (sort_relocs version own rs)
unfolding sort_relocs
All-sort_relocs version own P [] hs = tt
All-sort_relocs version own P (r ∷ rs) (h, hs) =
    All-insert_reloc version own P r (sort_relocs version own rs) h
      (All-sort_relocs version own P rs hs)

insert_reloc-IsAscending :
    (version own : ℕ) (r : RelReloc) (xs : List RelReloc)
    → IsAscending version own xs
    → IsAscending version own (insert_reloc version own r xs)
unfolding insert_reloc
insert_reloc-IsAscending version own r [] hs = (tt, tt)
insert_reloc-IsAscending version own r (x ∷ xs) (h, hs) =
    elim (Bool-cases (is_greater (compare_relocs version own r x))) [
      | inl t ↦ rw t (
        All-insert_reloc version own (NotBehind version own x) r xs
            (NotBehind-total version own r x t) h,
        insert_reloc-IsAscending version own r xs hs,
      )
      | inr f ↦ rw f ((f, All-implies xs (λ y k. NotBehind-trans version own r x y f k) h), (h, hs))
    ]

insert_reloc-perm :
    (version own : ℕ) (r : RelReloc) (xs : List RelReloc)
    → Perm (insert_reloc version own r xs) (r ∷ xs)
unfolding insert_reloc
insert_reloc-perm version own r [] = Perm.refl (r ∷ [])
insert_reloc-perm version own r (x ∷ xs) =
    elim (Bool-cases (is_greater (compare_relocs version own r x))) [
      | inl t ↦
          rw t (Perm.trans (Perm.cons x (insert_reloc-perm version own r xs)) (Perm.swap r x xs))
      | inr f ↦ rw f (Perm.refl (r ∷ (x ∷ xs)))
    ]

pub sort_relocs-perm : (version own : ℕ) (rs : List RelReloc) → Perm (sort_relocs version own rs) rs
unfolding sort_relocs
sort_relocs-perm version own [] = Perm.refl []
sort_relocs-perm version own (r ∷ rs) =
    Perm.trans (insert_reloc-perm version own r (sort_relocs version own rs))
      (Perm.cons r (sort_relocs-perm version own rs))

sort_IsAscending :
    (version own : ℕ) (rs : List RelReloc) → IsAscending version own (sort_relocs version own rs)
unfolding sort_relocs
sort_IsAscending version own [] = tt
sort_IsAscending version own (r ∷ rs) =
    insert_reloc-IsAscending version own r (sort_relocs version own rs)
      (sort_IsAscending version own rs)

-- The sort leaves a permutation in which the comparison finds each relocation in order with all
-- that follow it.
pub sort_relocs-IsAscending :
    (version own : ℕ) (rs : List RelReloc)
    → IsAscending version own (sort_relocs version own rs) × Perm (sort_relocs version own rs) rs
sort_relocs-IsAscending version own rs =
    (sort_IsAscending version own rs, sort_relocs-perm version own rs)
