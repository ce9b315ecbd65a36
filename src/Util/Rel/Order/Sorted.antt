-- ===== src/Util/Rel/Order/Sorted.antt =====
-- What the order of the relocations is, apart from the comparisons that the code makes.
use decomp_toolkit.Prelude.{
  ℕ, ◌<◌, ◌≡◌, refl, ap, ◌∙◌, Bool, ◌&&◌, true, false, ◌==◌, List, [], ◌∷◌, All, All-implies,
  filter, leb, if◌then◌else◌, arith, Bool-cases, inl, inr, ◌⊎◌,
}
use mathlib.Core.List.{Perm}
use decomp_toolkit.Obj.Info.{RelReloc}
use decomp_toolkit.Util.Rel.Order.{
  compare_modules, compare_relocs, is_greater, insert_reloc, sort_relocs,
}
use decomp_toolkit.Util.Rel.Order.Ascending.{
  NotBehind, IsAscending, sort_relocs-IsAscending, sort_relocs-perm,
}

-- The order of lists of numbers by the first that differs.
abbrev pub AtMost : List ℕ → List ℕ → Type 0
AtMost [] ns = Unit {0}
AtMost (m ∷ ms) [] = ⊥
AtMost (m ∷ ms) (n ∷ ns) = (m < n) ⊎ ((m ≡ n) × AtMost ms ns)

-- What a fixed link no longer needs comes last: the relocations against the module itself, and then
-- those against the main program, which is module 0.
unfoldable pub group : ℕ → ℕ → ℕ
group own m = if m == 0 then 2 else if m == own then 1 else 0

-- The place of a relocation: its group from version 3 on, its module, its section and its address.
abbrev pub place_in_order : ℕ → ℕ → RelReloc → List ℕ
place_in_order version own r =
    let rest = r.module_id ∷ (r.section ∷ (r.address ∷ [])) in
    if leb 3 version then group own r.module_id ∷ rest else rest

abbrev pub IsSorted : ℕ → ℕ → List RelReloc → Type 0
IsSorted version own [] = Unit {0}
IsSorted version own (r ∷ rs) =
    All (λ (x : RelReloc). AtMost (place_in_order version own r) (place_in_order version own x)) rs
    × IsSorted version own rs

-- A relocation against the module, in the section and at the address.
unfoldable pub is_at : ℕ → ℕ → ℕ → RelReloc → Bool
is_at m section address r = r.module_id == m && (r.section == section && r.address == address)

NotBehind-AtMost :
    (version own : ℕ) (a b : RelReloc)
    → NotBehind version own a b
    → AtMost (place_in_order version own a) (place_in_order version own b)
unfolding compare_relocs compare_modules group
NotBehind-AtMost version own a b h = ground arith

IsAscending-IsSorted :
    (version own : ℕ) (rs : List RelReloc) → IsAscending version own rs → IsSorted version own rs
IsAscending-IsSorted version own [] h = tt
IsAscending-IsSorted version own (r ∷ rs) (h, hs) =
    (All-implies rs (NotBehind-AtMost version own r) h, IsAscending-IsSorted version own rs hs)

module _ (version own m section address : ℕ) where
  -- Relocations at one place are not behind each other.
  is_at-compare_relocs :
      (a b : RelReloc)
      → is_at m section address a ≡ true
      → is_at m section address b ≡ true
      → is_greater (compare_relocs version own a b) ≡ false
  unfolding is_at compare_relocs compare_modules
  is_at-compare_relocs a b h k = ground arith

  filter-insert_reloc :
      (r : RelReloc) (xs : List RelReloc)
      → filter (is_at m section address) (insert_reloc version own r xs)
        ≡ filter (is_at m section address) (r ∷ xs)
  unfolding insert_reloc
  filter-insert_reloc r [] = refl
  filter-insert_reloc r (x ∷ xs) = elim (Bool-cases (is_greater (compare_relocs version own r x))) [
    | inr f ↦ rw f refl
    | inl t ↦
        let ih = filter-insert_reloc r xs in
        elim (Bool-cases (is_at m section address r)) [
          | inr f ↦ rw (t, f) (ground arith)
          | inl at ↦ elim (Bool-cases (is_at m section address x)) [
            | inr f ↦ rw (t, at, f) (ground arith)
            | inl at' ↦ absurd (let e = is_at-compare_relocs r x at at' in ground arith)
          ]
        ]
  ]

  filter-sort_relocs :
      (rs : List RelReloc)
      → filter (is_at m section address) (sort_relocs version own rs)
        ≡ filter (is_at m section address) rs
  unfolding sort_relocs
  filter-sort_relocs [] = refl
  filter-sort_relocs (r ∷ rs) =
      let ih = filter-sort_relocs rs in
      filter-insert_reloc r (sort_relocs version own rs)
      ∙ ap (λ l. if is_at m section address r then r ∷ l else l) ih

-- `write_rel` sorts the relocations into a permutation in which they ascend by module, section and
-- address; from version 3 on those against the module itself come behind those against other
-- modules, and those against module 0 last. Relocations of one module, section and address stay in
-- the order that they had.
pub sort_relocs-IsSorted :
    (version own m section address : ℕ) (rs : List RelReloc)
    → IsSorted version own (sort_relocs version own rs)
      × Perm (sort_relocs version own rs) rs
      × (filter (is_at m section address) (sort_relocs version own rs)
          ≡ filter (is_at m section address) rs)
sort_relocs-IsSorted version own m section address rs = (
  IsAscending-IsSorted version own (sort_relocs version own rs)
      (sort_relocs-IsAscending version own rs).0,
  sort_relocs-perm version own rs,
  filter-sort_relocs version own m section address rs,
)
