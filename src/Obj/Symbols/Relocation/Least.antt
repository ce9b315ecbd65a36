-- ===== src/Obj/Symbols/Relocation/Least.antt =====
-- `best_match_for_reloc` picks the first of the symbols of the least key.
use decomp_toolkit.Prelude.{
  ℕ, ◌≤◌, ◌<◌, ◌≡◌, refl, sym, ap, List, [], ◌∷◌, ◌++◌, some, leb, if◌then◌else◌, head?, All,
  sort_by_key, insert_by_key, arith, Bool-cases, inl, inr,
}
use mathlib.Core.Path.{subst}
use decomp_toolkit.Obj.Relocations.{ObjRelocKind}
use decomp_toolkit.Obj.Symbols.Symbol.{ObjSymbol}
use decomp_toolkit.Obj.Symbols.Relocation.{reloc_key, best_match_for_reloc}

-- The list has its first entry with the least key at `y`.
abbrev pub FirstLeast {ℓ} : {A : Type ℓ} → (A → ℕ) → List A → A → Type ℓ
FirstLeast {A = A} key xs y =
    (front back : List A) × (xs ≡ front ++ (y ∷ back))
    × All (λ (x : A). key y < key x) front
    × All (λ (x : A). key y ≤ key x) back

module _ {ℓ} {A : Type ℓ} (key : A → ℕ) where
  head-insert_by_key :
      (x y : A) (l : List A)
      → head? l ≡ some y
      → head? (insert_by_key key x l) ≡ some (if leb (key x) (key y) then x else y)
  unfolding insert_by_key
  head-insert_by_key x y [] h = absurd (cc)
  head-insert_by_key x y (z ∷ zs) h =
      let e : z ≡ y = cc in
      rw e (elim (Bool-cases (leb (key x) (key y))) [ inl le ↦ rw le refl | inr gt ↦ rw gt refl ])

  All-below :
      (x y : A) (front back : List A)
      → key x ≤ key y
      → All (λ (z : A). key y < key z) front
      → All (λ (z : A). key y ≤ key z) back
      → All (λ (z : A). key x ≤ key z) (front ++ (y ∷ back))
  All-below x y [] [] le f b = (le, tt)
  All-below x y [] (z ∷ zs) le f b = (le, (omega arith, (All-below x y [] zs le tt b.1).1))
  All-below x y (z ∷ zs) back le f b = (omega arith, All-below x y zs back le f.1 b)

  head-sort_by_key :
      (x : A) (xs : List A)
      → (y : A) × (head? (sort_by_key key (x ∷ xs)) ≡ some y) × FirstLeast key (x ∷ xs) y
  unfolding sort_by_key insert_by_key
  head-sort_by_key x [] = (x, refl, ([], [], refl, tt, tt))
  head-sort_by_key x (z ∷ zs) =
      let (y, h, (front, back, e, f, b)) = head-sort_by_key z zs in
      let first = head-insert_by_key x y (sort_by_key key (z ∷ zs)) h in
      elim (Bool-cases (leb (key x) (key y))) [
        | inl le ↦ (
          x,
          rw le at first,
          (
            [],
            z ∷ zs,
            refl,
            tt,
            subst (All (λ (w : A). key x ≤ key w)) (sym e)
                (All-below x y front back (ground arith) f b),
          ),
        )
        | inr gt ↦ (y, rw gt at first, (x ∷ front, back, ap (λ l. x ∷ l) e, (ground arith, f), b))
      ]

pub best_match_for_reloc-FirstLeast :
    (x : ℕ × ObjSymbol) (xs : List (ℕ × ObjSymbol)) (reloc_kind : ObjRelocKind)
    → (y : ℕ × ObjSymbol) × (best_match_for_reloc (x ∷ xs) reloc_kind ≡ some y)
      × FirstLeast (reloc_key reloc_kind) (x ∷ xs) y
unfolding best_match_for_reloc
best_match_for_reloc-FirstLeast x [] reloc_kind = (x, refl, ([], [], refl, tt, tt))
best_match_for_reloc-FirstLeast x (z ∷ zs) reloc_kind =
    head-sort_by_key (reloc_key reloc_kind) x (z ∷ zs)
