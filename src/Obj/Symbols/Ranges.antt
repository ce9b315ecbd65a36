-- ===== src/Obj/Symbols/Ranges.antt =====
-- Lookups over a range of addresses of a section, in an indexed table.
use decomp_toolkit.Prelude.{
  ℕ, suc, ◌<◌, ◌≡◌, refl, sym, ap, ◌∙◌, Bool, true, ◌&&◌, List, [], ◌∷◌, ◌++◌, some, ◌==◌, length,
  get_elem?, get_or, filter, All, ok, arith, ==_iff, Bool-cases, Option-cases, Result-cases, inl,
  inr, length-append, append_assoc, All-filter, All-append,
}
use decomp_toolkit.Prelude.BTreeMap.{BTreeMap, IsOrdered}
use decomp_toolkit.Prelude.BTreeMap
use decomp_toolkit.Util.Nested.{bucket}
use decomp_toolkit.Obj.Symbols.Symbol.{ObjSymbol}
use decomp_toolkit.Obj.Symbols.Table.{ObjSymbols, u32, resolve, flatten_values, for_section_range}
use decomp_toolkit.Obj.Symbols.Table.Indexes.{indices, has_address, in_section}
use decomp_toolkit.Obj.Symbols.Table.Writes.{IsConsistent}
use decomp_toolkit.Obj.Symbols.Table.Reads.{entries, resolve-indices, get_elem?-append_length}

-- The entry is a symbol of the table at its position, in the section, at an address in the range.
abbrev pub IsInside : ℕ → (ℕ → Bool) → ObjSymbols → ℕ × ObjSymbol → Type 0
IsInside section inside t (n, x) =
    (get_elem? t.symbols n ≡ some x)
    × (in_section section x ≡ true)
    × (inside (u32 x.address) ≡ true)

resolve-append :
    (t : ObjSymbols) (js ks : List ℕ) (xs ys : List (ℕ × ObjSymbol))
    → resolve t js ≡ ok xs
    → resolve t ks ≡ ok ys
    → resolve t (js ++ ks) ≡ ok (xs ++ ys)
unfolding resolve
resolve-append t [] ks xs ys h k = let e : [] ≡ xs = (cc) in rw (← e) k
resolve-append t (j ∷ js) ks xs ys h k = elim (Option-cases (get_elem? t.symbols j)) [
  | inl n ↦ absurd (ground arith)
  | inr (x, s) ↦ elim (Result-cases (resolve t js)) [
    | inr (inl (e, f)) ↦ absurd (ground arith)
    | inr (inr f) ↦ absurd (ground arith)
    | inl (more, f) ↦
        let whole : ok ((j, x) ∷ more) ≡ ok xs = (rw (s, f) at h) in
        let e : (j, x) ∷ more ≡ xs = (cc) in rw (← e, s, resolve-append t js ks more ys f k) refl
  ]
]

-- The symbols found by a scan are at their positions and pass the test.
entries-All :
    (p : ObjSymbol → Bool) (t : ObjSymbols) (front xs : List ObjSymbol)
    → t.symbols ≡ front ++ xs
    → All
        (λ (e : ℕ × ObjSymbol). (get_elem? t.symbols e.0 ≡ some e.1) × (p e.1 ≡ true))
        (entries p (length front) xs)
unfolding entries
entries-All p t front [] e = tt
entries-All p t front (x ∷ xs) e =
    let next : length (front ++ (x ∷ [])) ≡ suc (length front) =
      omega (arith, length-append front (x ∷ [])) in
    let ih =
      rw next at
        (entries-All p t (front ++ (x ∷ [])) xs (e ∙ sym (append_assoc front (x ∷ []) xs))) in
    let here : get_elem? t.symbols (length front) ≡ some x =
      ap (λ l. get_elem? l (length front)) e ∙ get_elem?-append_length front x xs in
    elim (Bool-cases (p x)) [ inl yes_x ↦ rw yes_x ((here, yes_x), ih) | inr no_x ↦ rw no_x ih ]

-- The places of a map whose vectors are those of the section.
abbrev pub IsExact : ℕ → ObjSymbols → BTreeMap (List ℕ) → Type 0
IsExact section t m =
    All
      (λ (e : ℕ × List ℕ).
        e.1 ≡ indices (λ x. in_section section x && has_address e.0 x) 0 t.symbols)
      m

entries-IsInside :
    (section a : ℕ) (inside : ℕ → Bool) (t : ObjSymbols) (found : List (ℕ × ObjSymbol))
    → inside a ≡ true
    → All
        (λ (e : ℕ × ObjSymbol).
          (get_elem? t.symbols e.0 ≡ some e.1)
          × (in_section section e.1 && has_address a e.1 ≡ true))
        found
    → All (IsInside section inside t) found
entries-IsInside section a inside t [] i h = tt
entries-IsInside section a inside t ((n, x) ∷ found) i ((g, p), h) =
    let s : in_section section x ≡ true = (ground arith) in
    let q : u32 x.address == a ≡ true = (ground arith) in
    let e : u32 x.address ≡ a = ((==_iff (u32 x.address) a).0 q) in
    ((g, s, rw e i), entries-IsInside section a inside t found i h)

flatten_values-IsInside :
    (section : ℕ) (inside : ℕ → Bool) (t : ObjSymbols) (m : BTreeMap (List ℕ))
    → IsExact section t m
    → All (λ (e : ℕ × List ℕ). inside e.0 ≡ true) m
    → (found : List (ℕ × ObjSymbol)) × (resolve t (flatten_values m) ≡ ok found)
      × All (IsInside section inside t) found
unfolding resolve flatten_values
flatten_values-IsInside section inside t [] exact i = ([], refl, tt)
flatten_values-IsInside section inside t ((a, v) ∷ m) (e, exact) (here, i) =
    let p : ObjSymbol → Bool = λ x. in_section section x && has_address a x in
    let (found, r, h) = flatten_values-IsInside section inside t m exact i in
    let first : resolve t v ≡ ok (entries p 0 t.symbols) =
      (rw e (resolve-indices p t [] t.symbols refl)) in
    (
      entries p 0 t.symbols ++ found,
      resolve-append t v (flatten_values m) (entries p 0 t.symbols) found first r,
      All-append (IsInside section inside t) (entries p 0 t.symbols) found
          (entries-IsInside section a inside t (entries p 0 t.symbols) here
            (entries-All p t [] t.symbols refl))
          h,
    )

All-zip :
    {A : Type 0} (P Q R : A → Type 0) (xs : List A)
    → ((x : A) → P x → Q x → R x)
    → All P xs
    → All Q xs
    → All R xs
All-zip P Q R [] f h k = tt
All-zip P Q R (x ∷ xs) f h k = (f x h.0 k.0, All-zip P Q R xs f h.1 k.1)

-- In an ordered map each entry is what is found at its key.
get-IsOrdered :
    (m : BTreeMap (List ℕ))
    → IsOrdered m
    → All (λ (e : ℕ × List ℕ). BTreeMap.get e.0 m ≡ some e.1) m
unfolding BTreeMap.get
get-IsOrdered [] o = tt
get-IsOrdered ((j, v) ∷ m) o = (
  ground arith,
  All-zip (λ (e : ℕ × List ℕ). j < e.0) (λ e. BTreeMap.get e.0 m ≡ some e.1)
      (λ e. BTreeMap.get e.0 ((j, v) ∷ m) ≡ some e.1) m (λ e lt g. ground arith) o.0
      (get-IsOrdered m o.1),
)

bucket-get :
    (k : ℕ) (m : BTreeMap (List ℕ)) {v : List ℕ} → BTreeMap.get k m ≡ some v → bucket k m ≡ v
unfolding bucket
bucket-get k m g = rw g refl

IsExact-IsOrdered :
    (section : ℕ) (t : ObjSymbols)
    → IsConsistent t
    → IsOrdered (get_or t.by_section section [])
    → IsExact section t (get_or t.by_section section [])
IsExact-IsOrdered section t h o =
    let m = get_or t.by_section section [] in
    let found = get-IsOrdered m o in
    All-zip (λ (e : ℕ × List ℕ). BTreeMap.get e.0 m ≡ some e.1) (λ e. BTreeMap.get e.0 m ≡ some e.1)
      (λ e. e.1 ≡ indices (λ x. in_section section x && has_address e.0 x) 0 t.symbols) m
      (λ e g g'. sym (bucket-get e.0 m g) ∙ h.sections section e.0) found found

inside-filter :
    (inside : ℕ → Bool) (m : BTreeMap (List ℕ))
    → All (λ (e : ℕ × List ℕ). inside e.0 ≡ true) (filter (λ (e : ℕ × List ℕ). inside e.0) m)
inside-filter inside [] = tt
inside-filter inside ((k, v) ∷ m) = elim (Bool-cases (inside k)) [
  | inl yes_k ↦ rw yes_k (yes_k, inside-filter inside m)
  | inr no_k ↦ rw no_k (inside-filter inside m)
]

-- In a table with exact indexes, whose map of the section is in order, the symbols of a range are
-- found without a panic or an error, and each is a symbol of the table at its position, in the
-- section, at an address in the range.
pub for_section_range-IsInside :
    (section : ℕ) (inside : ℕ → Bool) (t : ObjSymbols)
    → IsConsistent t
    → IsOrdered (get_or t.by_section section [])
    → (found : List (ℕ × ObjSymbol)) × (for_section_range section inside t ≡ ok found)
      × All (IsInside section inside t) found
unfolding for_section_range BTreeMap.range
for_section_range-IsInside section inside t h o =
    let m = get_or t.by_section section [] in
    flatten_values-IsInside section inside t (filter (λ (e : ℕ × List ℕ). inside e.0) m)
      (All-filter
        (λ (e : ℕ × List ℕ).
          e.1 ≡ indices (λ x. in_section section x && has_address e.0 x) 0 t.symbols)
        (λ (e : ℕ × List ℕ). inside e.0) m (IsExact-IsOrdered section t h o))
      (inside-filter inside m)
