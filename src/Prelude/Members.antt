-- ===== src/Prelude/Members.antt =====
-- Members of lists: under `filter`, under `All`, and counted.
use Prim.Native.Nat.{suc, ◌≤◌, ◌<◌}
use mathlib.Core.Path.{◌≡◌, refl, sym, ap, subst, ◌∙◌}
use mathlib.Core.Bool.{Bool, true, false}
use mathlib.Core.List.{List, [], ◌∷◌, ◌++◌, map, Memᴰ}
use mathlib.Core.List.Memᴰ
use native.Mathlib.Omega.{arith}
use mathlib.Core.Logic.{inl, inr}
use decomp_toolkit.Prelude.Tests.{Bool-cases}
use decomp_toolkit.Prelude.Lists.{length, filter, All}

module _ {ℓ} {A : Type ℓ} where
  -- A test at the head of a filtered list.
  filter-cons_true :
      (p : A → Bool) (x : A) (xs : List A) → p x ≡ true → filter p (x ∷ xs) ≡ x ∷ filter p xs
  filter-cons_true p x xs e = rw e

  filter-cons_false :
      (p : A → Bool) (x : A) (xs : List A) → p x ≡ false → filter p (x ∷ xs) ≡ filter p xs
  filter-cons_false p x xs e = rw e

  pub mem-filter :
      (p : A → Bool) {a : A} (xs : List A) → Memᴰ a xs → p a ≡ true → Memᴰ a (filter p xs)
  mem-filter p [] m e = elim m [ ]
  mem-filter p (x ∷ xs) (Memᴰ.head h) e =
      subst (Memᴰ _) (sym (filter-cons_true p x xs (ap p (sym h) ∙ e))) (Memᴰ.head h)
  mem-filter p (x ∷ xs) (Memᴰ.tail m) e = elim (Bool-cases (p x)) [
    | inl t ↦ subst (Memᴰ _) (sym (filter-cons_true p x xs t)) (Memᴰ.tail (mem-filter p xs m e))
    | inr f ↦ subst (Memᴰ _) (sym (filter-cons_false p x xs f)) (mem-filter p xs m e)
  ]

  pub mem_of_filter :
      (p : A → Bool) {a : A} (xs : List A) → Memᴰ a (filter p xs) → Memᴰ a xs × (p a ≡ true)
  mem_of_filter p [] m = elim m [ ]
  mem_of_filter p {a} (x ∷ xs) m = elim (Bool-cases (p x)) [
    | inl t ↦ elim (Memᴰ.cases_cons (subst (Memᴰ a) (filter-cons_true p x xs t) m)) [
      | inl e ↦ (Memᴰ.head e, ap p e ∙ t)
      | inr r ↦ let ih = mem_of_filter p xs r in (Memᴰ.tail ih.0, ih.1)
    ]
    | inr f ↦
        let ih = mem_of_filter p xs (subst (Memᴰ a) (filter-cons_false p x xs f) m) in
        (Memᴰ.tail ih.0, ih.1)
  ]

  pub length-filter_le : (p : A → Bool) (xs : List A) → length (filter p xs) ≤ length xs
  length-filter_le p [] = omega arith
  length-filter_le p (x ∷ xs) = ground (arith, length-filter_le p xs)

  -- A member that fails the test makes the filtered list shorter.
  pub length-filter_lt :
      (p : A → Bool) {a : A} (xs : List A)
      → Memᴰ a xs
      → p a ≡ false
      → length (filter p xs) < length xs
  length-filter_lt p [] m e = elim m [ ]
  length-filter_lt p (x ∷ xs) (Memᴰ.head h) e =
      let f : p x ≡ false = ap p (sym h) ∙ e in rw f (omega (arith, length-filter_le p xs))
  length-filter_lt p (x ∷ xs) (Memᴰ.tail m) e = let ih = length-filter_lt p xs m e in ground arith

  pub All-filter {κ} :
      (P : A → Type κ) (p : A → Bool) (xs : List A) → All P xs → All P (filter p xs)
  All-filter P p [] h = h
  All-filter P p (x ∷ xs) h = elim (Bool-cases (p x)) [
    | inl t ↦ subst (All P) (sym (filter-cons_true p x xs t)) (h.0, All-filter P p xs h.1)
    | inr f ↦ subst (All P) (sym (filter-cons_false p x xs f)) (All-filter P p xs h.1)
  ]

  pub All-mem {κ} : (P : A → Type κ) {a : A} (xs : List A) → All P xs → Memᴰ a xs → P a
  All-mem P [] h m = elim m [ ]
  All-mem P (x ∷ xs) h (Memᴰ.head e) = subst P (sym e) h.0
  All-mem P (x ∷ xs) h (Memᴰ.tail m) = All-mem P xs h.1 m

  pub All-append {κ} : (P : A → Type κ) (xs ys : List A) → All P xs → All P ys → All P (xs ++ ys)
  All-append P [] ys h k = k
  All-append P (x ∷ xs) ys h k = (h.0, All-append P xs ys h.1 k)

  pub All-every {κ} : {P : A → Type κ} (xs : List A) → ((x : A) → P x) → All P xs
  All-every [] f = tt
  All-every (x ∷ xs) f = (f x, All-every xs f)

  pub All-implies {κ ν} :
      {P : A → Type κ} {Q : A → Type ν} (xs : List A) → ((x : A) → P x → Q x) → All P xs → All Q xs
  All-implies [] f h = tt
  All-implies (x ∷ xs) f h = (f x h.0, All-implies xs f h.1)

module _ {ℓ κ} {A : Type ℓ} {B : Type κ} where
  pub All-map {ν} :
      (P : B → Type ν) (f : A → B) (xs : List A) → All (λ a. P (f a)) xs → All P (map f xs)
  All-map P f [] h = h
  All-map P f (x ∷ xs) h = (h.0, All-map P f xs h.1)

  pub length-map : (f : A → B) (xs : List A) → length (map f xs) ≡ length xs
  length-map f [] = refl
  length-map f (x ∷ xs) = ap suc (length-map f xs)
