-- ===== src/Obj/Symbols/Table/Indexes.antt =====
-- The three indexes of a symbol table say exactly where the symbols are, and every operation keeps
-- them so.
use decomp_toolkit.Prelude.{
  ℕ, zero, suc, ◌+◌, ◌-◌, ◌^◌, ◌≤◌, ◌≡◌, refl, Bool, false, not, ◌&&◌, ◌||◌, List, [], ◌∷◌, ◌++◌,
  Option, none, some, String, str_eq, eq_iff, ◌==◌, if◌then◌else◌, length, get_or, get_elem?, set,
  replicate, filter, All, ok, true, arith, length-append, length-replicate, get_or-set_self,
  get_or-set_ne, get_or-append_replicate, get_elem?-append, get_elem?-length, append_assoc,
  append-nil,
}
use decomp_toolkit.Prelude.BTreeMap.{BTreeMap}
use decomp_toolkit.Prelude.BTreeMap
use decomp_toolkit.Prelude.HashMap.{HashMap}
use decomp_toolkit.Prelude.HashMap
use decomp_toolkit.Obj.Kinds.{ObjKind}
use decomp_toolkit.Util.Nested.{
  bucket, nested_push, name_bucket, bucket-nested_push, name_bucket-name_push,
}
use decomp_toolkit.Obj.Symbols.Symbol.{ObjSymbol}
use decomp_toolkit.Obj.Symbols.Table.{
  u32, SymbolMaps, push_section, push_some_section, push_name, index_symbol, index_symbols,
  ObjSymbols, is_placed, all_placed, indexed, new,
}

-- The positions of the symbols that pass a test, counted from `n`.
unfoldable pub indices : (ObjSymbol → Bool) → ℕ → List ObjSymbol → List ℕ
indices p n [] = []
indices p n (x ∷ xs) = if p x then n ∷ indices p (suc n) xs else indices p (suc n) xs

abbrev pub has_address : ℕ → ObjSymbol → Bool
has_address a x = u32 x.address == a

abbrev pub in_section : ℕ → ObjSymbol → Bool
in_section i x = elim x.section [ none ↦ false | some j ↦ j == i ]

-- Whether there is a symbol, and it has this name, which is not empty.
abbrev pub is_named : String → Option ObjSymbol → Bool
is_named n none = false
is_named n (some x) = str_eq x.name n && not (str_eq n "")

unfoldable pub contains : ℕ → List ℕ → Bool
contains i [] = false
contains i (j ∷ js) = i == j || contains i js

-- Each vector of the address indexes lists, in order, exactly the symbols at that place; each
-- vector of the name index has exactly the symbols with that name.
pub record IsIndexed (symbols : List ObjSymbol) (maps : SymbolMaps) : Type 0 where
  pub addresses : (a : ℕ) → bucket a maps.by_address ≡ indices (has_address a) 0 symbols
  pub sections :
      (i a : ℕ)
      → bucket a (get_or maps.by_section i [])
        ≡ indices (λ x. in_section i x && has_address a x) 0 symbols
  pub names :
      (n : String) (i : ℕ)
      → contains i (name_bucket n maps.by_name) ≡ is_named n (get_elem? symbols i)

pub indices-append :
    (p : ObjSymbol → Bool) (n k : ℕ) (xs : List ObjSymbol) (x : ObjSymbol)
    → n + length xs ≡ k
    → indices p n (xs ++ (x ∷ [])) ≡ (if p x then indices p n xs ++ (k ∷ []) else indices p n xs)
unfolding indices
indices-append p n k [] x e = let e' : n ≡ k = omega arith in ground arith
indices-append p n k (y ∷ xs) x e = ground (arith, indices-append p (suc n) k xs x (omega arith))

-- A write that keeps the test's answer moves no position.
pub indices-set :
    (p : ObjSymbol → Bool) (n i : ℕ) (xs : List ObjSymbol) (old new : ObjSymbol)
    → get_elem? xs i ≡ some old
    → p new ≡ p old
    → indices p n (set xs i new) ≡ indices p n xs
unfolding indices
indices-set p n i [] old new e h = cc
indices-set p n zero (y ∷ xs) old new e h = ground arith
indices-set p n (suc i) (y ∷ xs) old new e h =
    ground (arith, indices-set p (suc n) i xs old new e h)

contains-append : (i k : ℕ) (js : List ℕ) → contains i (js ++ (k ∷ [])) ≡ (contains i js || i == k)
unfolding contains
contains-append i k [] = ground arith
contains-append i k (j ∷ js) = ground (arith, contains-append i k js)

pub contains-filter :
    (i k : ℕ) (js : List ℕ)
    → contains i (filter (λ n. not (n == k)) js) ≡ (contains i js && not (i == k))
unfolding contains
contains-filter i k [] = refl
contains-filter i k (j ∷ js) = ground (arith, contains-filter i k js)

bucket-push_section :
    (s a k i b : ℕ) (v : List (BTreeMap (List ℕ)))
    → bucket b (get_or (push_section s a k v) i []) ≡ (
        if s == i && a == b then bucket b (get_or v i []) ++ (k ∷ []) else bucket b (get_or v i []))
unfolding push_section
bucket-push_section s a k i b v =
    let pad : List (BTreeMap (List ℕ)) = replicate (s + 1 - length v) [] in
    let pushed = nested_push a k (get_or (v ++ pad) s []) in
    ground (
      arith,
      get_or-set_self (v ++ pad) s pushed [],
      get_or-set_ne (v ++ pad) s i pushed [],
      get_or-append_replicate v (s + 1 - length v) i [],
      bucket-nested_push a b k (get_or (v ++ pad) s []),
      length-append v pad,
      length-replicate {A = BTreeMap (List ℕ)} (s + 1 - length v) [],
    )

bucket-push_some_section :
    (x : ObjSymbol) (a k i b : ℕ) (v : List (BTreeMap (List ℕ)))
    → bucket b (get_or (push_some_section x.section a k v) i []) ≡ (
        if in_section i x && a == b
        then bucket b (get_or v i []) ++ (k ∷ [])
        else bucket b (get_or v i []))
bucket-push_some_section x a k i b v = go x.section
  where
    go :
        (o : Option ℕ)
        → bucket b (get_or (push_some_section o a k v) i []) ≡ (
            if (elim o [ none ↦ false | some j ↦ j == i ]) && a == b
            then bucket b (get_or v i []) ++ (k ∷ [])
            else bucket b (get_or v i []))
    go none = refl
    go (some s) = bucket-push_section s a k i b v

pub name_bucket-push_name :
    (name n : String) (k i : ℕ) (m : HashMap (List ℕ))
    → contains i (name_bucket n (push_name name k m))
      ≡ (contains i (name_bucket n m) || (str_eq name n && not (str_eq n "")) && i == k)
unfolding push_name
name_bucket-push_name name n k i m = ground (
  arith,
  name_bucket-name_push name n k m,
  contains-append i k (name_bucket name m),
  eq_iff name n,
  eq_iff name "",
  eq_iff n "",
)

-- One more symbol, indexed under the position it gets.
pub index_symbol-IsIndexed :
    (symbols : List ObjSymbol) (maps : SymbolMaps) (x : ObjSymbol)
    → IsIndexed symbols maps
    → IsIndexed (symbols ++ (x ∷ [])) (index_symbol (length symbols) x maps)
unfolding index_symbol
index_symbol-IsIndexed symbols maps x h = record {
  addresses = λ a. ground (
    arith,
    h.addresses a,
    bucket-nested_push (u32 x.address) a (length symbols) maps.by_address,
    indices-append (has_address a) 0 (length symbols) symbols x (omega arith),
  );
  sections = λ i a. ground (
    arith,
    h.sections i a,
    bucket-push_some_section x (u32 x.address) (length symbols) i a maps.by_section,
    indices-append (λ y. in_section i y && has_address a y) 0 (length symbols) symbols x
        (omega arith),
  );
  names = λ n i. ground (
    arith,
    h.names n i,
    name_bucket-push_name x.name n (length symbols) i maps.by_name,
    get_elem?-append symbols x i,
    get_elem?-length symbols,
  );
}

take_snoc-append :
    (done : List ObjSymbol) (x : ObjSymbol) (rest : List ObjSymbol)
    → (done ++ (x ∷ [])) ++ rest ≡ done ++ (x ∷ rest)
take_snoc-append done x rest = append_assoc done (x ∷ []) rest

index_symbols-IsIndexed :
    (done rest : List ObjSymbol) (maps : SymbolMaps)
    → length (done ++ rest) ≤ 2 ^ 32
    → IsIndexed done maps
    → IsIndexed (done ++ rest) (index_symbols (length done) rest maps)
unfolding index_symbols
index_symbols-IsIndexed done [] maps small h = rw append-nil h
index_symbols-IsIndexed done (x ∷ rest) maps small h =
    let fits : u32 (length done) ≡ length done = omega (arith, length-append done (x ∷ rest)) in
    let ih =
      index_symbols-IsIndexed (done ++ (x ∷ [])) rest (index_symbol (length done) x maps)
        (rw take_snoc-append small) (index_symbol-IsIndexed done maps x h) in
    let grown : length (done ++ (x ∷ [])) ≡ suc (length done) =
      omega (arith, length-append done (x ∷ [])) in
    rw fits (rw (take_snoc-append, grown) at ih)

pub indexed-IsIndexed :
    (obj_kind : ObjKind) (symbols : List ObjSymbol)
    → length symbols ≤ 2 ^ 32
    → IsIndexed symbols (indexed obj_kind symbols).maps
indexed-IsIndexed obj_kind symbols small = index_symbols-IsIndexed [] symbols _ small (record {
  addresses = λ a. unfold bucket BTreeMap.get indices in refl;
  sections = λ i a. unfold bucket BTreeMap.get indices in refl;
  names = λ n i. unfold name_bucket HashMap.get contains in refl;
})

all_placed_of_All :
    (obj_kind : ObjKind) (symbols : List ObjSymbol)
    → All (λ (s : ObjSymbol). is_placed obj_kind s ≡ true) symbols
    → all_placed obj_kind symbols ≡ true
all_placed_of_All obj_kind [] h = refl
all_placed_of_All obj_kind (s ∷ ss) h = rw h.0 (all_placed_of_All obj_kind ss h.1)

-- On at most 2^32 symbols, each in a section, at address 0, common, or in an executable, `new`
-- returns a table of exactly these symbols, whose three indexes are exact.
pub new-IsIndexed :
    (obj_kind : ObjKind) (symbols : List ObjSymbol)
    → length symbols ≤ 2 ^ 32
    → All (λ (s : ObjSymbol). is_placed obj_kind s ≡ true) symbols
    → (t : ObjSymbols) × (new obj_kind symbols ≡ ok t)
      × (t.symbols ≡ symbols)
      × IsIndexed t.symbols t.maps
unfolding new
new-IsIndexed obj_kind symbols small placed = (
  indexed obj_kind symbols,
  rw (all_placed_of_All obj_kind symbols placed) refl,
  refl,
  indexed-IsIndexed obj_kind symbols small,
)
