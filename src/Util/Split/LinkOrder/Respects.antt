-- ===== src/Util/Split/LinkOrder/Respects.antt =====
-- The sorted units respect the dependencies.
use decomp_toolkit.Prelude.{
  ℕ, ◌≤◌, ◌≡◌, refl, sym, ap, ◌∙◌, false, List, [], ◌∷◌, ◌==◌, leb, get_or, All, All-mem,
  insert_by_key, sort_by_key, arith, Bool-cases, inl, inr,
}
use mathlib.Core.List.{Memᴰ}
use mathlib.Core.List.Memᴰ
use mathlib.Core.Path.{subst}
use decomp_toolkit.Util.Split.LinkOrder.{Keys, Graph, lower, lower_by, propagate, sort_units}

-- The first one stands before the second one in the list.
pub data Before (u v : ℕ) : List ℕ → Type 0 where
  here : {x : ℕ} {xs : List ℕ} → u ≡ x → Memᴰ v xs → Before u v (x ∷ xs)
  later : {x : ℕ} {xs : List ℕ} → Before u v xs → Before u v (x ∷ xs)

-- Each unit stands once, before those that depend on it.
abbrev pub IsTopological : Graph → List ℕ → Type 0
IsTopological graph [] = Unit
IsTopological graph (u ∷ units) =
    All (λ v. Memᴰ v units) (get_or graph u [])
    × All (λ v. u == v ≡ false) units
    × IsTopological graph units

lower_by_self : (u : ℕ) (vs : List ℕ) (key : Keys) → lower_by u vs key u ≤ key u
unfolding lower_by
lower_by_self u [] key = omega arith
lower_by_self u (v ∷ vs) key =
    let rest = lower_by_self u vs (lower u (key v) key) in ground (arith, rest)

lower_by_other : (u i : ℕ) (vs : List ℕ) (key : Keys) → u == i ≡ false → lower_by u vs key i ≡ key i
unfolding lower_by
lower_by_other u i [] key h = refl
lower_by_other u i (v ∷ vs) key h = lower_by_other u i vs (lower u (key v) key) h ∙ (rw h refl)

lower_by_le :
    (u v : ℕ) (vs : List ℕ) (key : Keys) → Memᴰ v vs → u == v ≡ false → lower_by u vs key u ≤ key v
unfolding lower_by
lower_by_le u v [] key m h = elim m [ ]
lower_by_le u v (w ∷ vs) key (Memᴰ.head e) h =
    let rest = lower_by_self u vs (lower u (key w) key) in
    let same : key v ≡ key w = (ap key e) in ground (arith, rest)
lower_by_le u v (w ∷ vs) key (Memᴰ.tail m) h =
    let rest = lower_by_le u v vs (lower u (key w) key) m h in rw h at rest

successor :
    (graph : Graph) (u v : ℕ) (units : List ℕ)
    → IsTopological graph units
    → Memᴰ u units
    → Memᴰ v (get_or graph u [])
    → Before u v units
successor graph u v [] t m e = elim m [ ]
successor graph u v (x ∷ units) t (Memᴰ.head h) e = here h (
    All-mem (λ w. Memᴰ w units) (get_or graph x []) t.0
      (subst (λ y. Memᴰ v (get_or graph y [])) h e))
successor graph u v (x ∷ units) t (Memᴰ.tail m) e = later (successor graph u v units t.2 m e)

Before-Memᴰ : {u v : ℕ} {units : List ℕ} → Before u v units → Memᴰ v units
Before-Memᴰ (here e m) = Memᴰ.tail m
Before-Memᴰ (later b) = Memᴰ.tail (Before-Memᴰ b)

propagate_le :
    (graph : Graph) (u v : ℕ) (units : List ℕ) (key : Keys)
    → IsTopological graph units
    → Memᴰ u units
    → Memᴰ v (get_or graph u [])
    → propagate graph units key u ≤ propagate graph units key v
unfolding propagate
propagate_le graph u v [] key t m e = elim m [ ]
propagate_le graph u v (x ∷ units) key t (Memᴰ.head h) e =
    let edges = get_or graph x [] in
    let e' = subst (λ y. Memᴰ v (get_or graph y [])) h e in
    let other =
      All-mem (λ w. x == w ≡ false) units t.1 (All-mem (λ w. Memᴰ w units) edges t.0 e') in
    let le = lower_by_le x v edges (propagate graph units key) e' other in
    rw (h, lower_by_other x v edges (propagate graph units key) other) le
propagate_le graph u v (x ∷ units) key t (Memᴰ.tail m) e =
    let k = propagate graph units key in
    let edges = get_or graph x [] in
    let other = All-mem (λ w. x == w ≡ false) units t.1 m in
    let other' =
      All-mem (λ w. x == w ≡ false) units t.1 (Before-Memᴰ (successor graph u v units t.2 m e)) in
    rw (lower_by_other x u edges k other, lower_by_other x v edges k other')
      (propagate_le graph u v units key t.2 m e)

mem-insert_by_key :
    (key : Keys) (x v : ℕ) (ys : List ℕ) → Memᴰ v ys → Memᴰ v (insert_by_key key x ys)
unfolding insert_by_key
mem-insert_by_key key x v [] m = elim m [ ]
mem-insert_by_key key x v (y ∷ ys) m = elim (Bool-cases (leb (key x) (key y))) [
  | inl t ↦ rw t (Memᴰ.tail m)
  | inr f ↦ rw f (elim (Memᴰ.cases_cons m) [
    | inl e ↦ Memᴰ.head e
    | inr r ↦ Memᴰ.tail (mem-insert_by_key key x v ys r)
  ])
]

head-insert_by_key : (key : Keys) (x : ℕ) (ys : List ℕ) → Memᴰ x (insert_by_key key x ys)
unfolding insert_by_key
head-insert_by_key key x [] = Memᴰ.head refl
head-insert_by_key key x (y ∷ ys) = elim (Bool-cases (leb (key x) (key y))) [
  | inl t ↦ rw t (Memᴰ.head refl)
  | inr f ↦ rw f (Memᴰ.tail (head-insert_by_key key x ys))
]

mem-sort_by_key : (key : Keys) (v : ℕ) (xs : List ℕ) → Memᴰ v xs → Memᴰ v (sort_by_key key xs)
unfolding sort_by_key
mem-sort_by_key key v [] m = elim m [ ]
mem-sort_by_key key v (x ∷ xs) (Memᴰ.head e) =
    subst (λ y. Memᴰ y (insert_by_key key x (sort_by_key key xs))) (sym e)
      (head-insert_by_key key x (sort_by_key key xs))
mem-sort_by_key key v (x ∷ xs) (Memᴰ.tail m) =
    mem-insert_by_key key x v (sort_by_key key xs) (mem-sort_by_key key v xs m)

insert_by_key-here :
    (key : Keys) (x v : ℕ) (ys : List ℕ)
    → Memᴰ v ys
    → key x ≤ key v
    → Before x v (insert_by_key key x ys)
unfolding insert_by_key
insert_by_key-here key x v [] m le = elim m [ ]
insert_by_key-here key x v (y ∷ ys) m le = elim (Bool-cases (leb (key x) (key y))) [
  | inl t ↦ rw t (here refl m)
  | inr f ↦ rw f (elim (Memᴰ.cases_cons m) [
    | inl e ↦ let same : key v ≡ key y = (ap key e) in absurd (ground arith)
    | inr r ↦ later (insert_by_key-here key x v ys r le)
  ])
]

insert_by_key-later :
    (key : Keys) (x u v : ℕ) (ys : List ℕ) → Before u v ys → Before u v (insert_by_key key x ys)
unfolding insert_by_key
insert_by_key-later key x u v [] b = elim b [ ]
insert_by_key-later key x u v (y ∷ ys) (here e m) = elim (Bool-cases (leb (key x) (key y))) [
  | inl t ↦ rw t (later (here e m))
  | inr f ↦ rw f (here e (mem-insert_by_key key x v ys m))
]
insert_by_key-later key x u v (y ∷ ys) (later b) = elim (Bool-cases (leb (key x) (key y))) [
  | inl t ↦ rw t (later (later b))
  | inr f ↦ rw f (later (insert_by_key-later key x u v ys b))
]

-- The sort is stable.
sort_by_key-Before :
    (key : Keys) (u v : ℕ) (xs : List ℕ)
    → Before u v xs
    → key u ≤ key v
    → Before u v (sort_by_key key xs)
unfolding sort_by_key
sort_by_key-Before key u v [] b le = elim b [ ]
sort_by_key-Before key u v (x ∷ xs) (here e m) le =
    let at_x : key x ≤ key v = (let same : key u ≡ key x = (ap key e) in omega arith) in
    subst (λ y. Before y v (insert_by_key key x (sort_by_key key xs))) (sym e)
      (insert_by_key-here key x v (sort_by_key key xs) (mem-sort_by_key key v xs m) at_x)
sort_by_key-Before key u v (x ∷ xs) (later b) le =
    insert_by_key-later key x u v (sort_by_key key xs) (sort_by_key-Before key u v xs b le)

-- Where each unit stands once and before those that depend on it, a unit still stands before each
-- one that depends on it after `resolve_link_order` has handed the least addresses on through the
-- graph and sorted the units by them.
pub sort_units-Before :
    (graph : Graph) (units : List ℕ) (key : Keys) (u v : ℕ)
    → IsTopological graph units
    → Memᴰ u units
    → Memᴰ v (get_or graph u [])
    → Before u v (sort_units graph units key)
unfolding sort_units
sort_units-Before graph units key u v t m e =
    sort_by_key-Before (propagate graph units key) u v units (successor graph u v units t m e)
      (propagate_le graph u v units key t m e)
