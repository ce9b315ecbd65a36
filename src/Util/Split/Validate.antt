-- ===== src/Util/Split/Validate.antt =====
-- What the splits of an object satisfy that `validate_splits` has let pass.
use decomp_toolkit.Prelude.{
  ℕ, ◌+◌, ◌≤◌, ◌<◌, ◌≡◌, false, ◌&&◌, List, [], ◌∷◌, none, some, ltb, leb, ◌==◌, filter, get_last?,
  All, ok, arith, Bool-cases, Option-cases, Result-cases, inl, inr, ◌⊎◌,
}
use decomp_toolkit.Obj.Addresses.{SectionAddress, before}
use decomp_toolkit.Obj.Splits.{ObjSplit}
use decomp_toolkit.Obj.Sections.{ObjSection, all_splits}
use decomp_toolkit.Obj.Symbols.Symbol.{ObjSymbol}
use decomp_toolkit.Obj.Symbols.Table.{u32}
use decomp_toolkit.Obj.Info.{ObjInfo}
use decomp_toolkit.Util.Split.{
  SplitsError, overlaps_symbol, ends_within_symbol, is_sized, symbols_below, ends_by, check_symbols,
  check_splits, validate_splits,
}

abbrev pub Entry : Type 0
Entry = ℕ × ObjSection × ℕ × ObjSplit

-- A symbol ends at or before an address.
abbrev pub EndsBy : ℕ → ℕ × ObjSymbol → Type 0
EndsBy bound e = u32 (e.1).address + u32 (e.1).size ≤ bound

-- Each symbol ends before the next one starts.
abbrev pub Separate : List (ℕ × ObjSymbol) → Type 0
Separate [] = Unit
Separate (x ∷ []) = Unit
Separate (x ∷ (y ∷ rest)) = EndsBy (u32 (y.1).address) x × Separate (y ∷ rest)

-- The sized symbols of a section that start below an address end by it.
abbrev pub Uncrossed : ObjInfo → ℕ → ℕ → Type 0
Uncrossed obj section_index bound =
    (found : List (ℕ × ObjSymbol)) × (symbols_below obj section_index bound ≡ ok found)
    × All (EndsBy bound) (filter is_sized found)

-- The place is in the same section at or behind the address, or in a later section.
abbrev pub Behind : ℕ → ℕ → Entry → Type 0
Behind section_index address (i, s, addr, split) =
    (section_index < i) ⊎ ((section_index ≡ i) × (address ≤ addr))

-- Each split ends at or behind its start and before the splits that follow, and no sized symbol
-- crosses its start or its end.
abbrev pub Valid : ObjInfo → List Entry → Type 0
Valid obj [] = Unit
Valid obj ((i, s, addr, split) ∷ rest) =
    (0 < split.end)
    × (addr ≤ split.end)
    × Uncrossed obj i addr
    × Uncrossed obj i split.end
    × All (Behind i split.end) rest
    × Valid obj rest

last-Separate :
    (bound : ℕ) (found : List (ℕ × ObjSymbol)) {e : ℕ × ObjSymbol}
    → Separate found
    → get_last? found ≡ some e
    → EndsBy bound e
    → All (EndsBy bound) found
last-Separate bound [] sep l h = tt
last-Separate bound (x ∷ []) {e} sep l h = let same : x ≡ e = (cc) in (rw same h, tt)
last-Separate bound (x ∷ (y ∷ rest)) sep l h =
    let behind = last-Separate bound (y ∷ rest) sep.1 l h in
    (omega (arith, sep.0, behind.0), behind)

no_last :
    (bound : ℕ) (found : List (ℕ × ObjSymbol)) → get_last? found ≡ none → All (EndsBy bound) found
no_last bound [] l = tt
no_last bound (x ∷ []) l = absurd (cc)
no_last bound (x ∷ (y ∷ rest)) l = absurd (last_some y rest l)
  where
    last_some : (y : ℕ × ObjSymbol) (rest : List (ℕ × ObjSymbol)) → get_last? (y ∷ rest) ≡ none → ⊥
    last_some y [] l = cc
    last_some y (z ∷ more) l = last_some z more l

ends_by-EndsBy :
    (bound : ℕ) (k : SplitsError) (e : ℕ × ObjSymbol)
    → ends_by bound k (some e) ≡ ok tt
    → EndsBy bound e
unfolding ends_by
ends_by-EndsBy bound k (n, symbol) h = ground arith

check_symbols-Uncrossed :
    (obj : ObjInfo) (i bound : ℕ) (k : SplitsError)
    → ((found : List (ℕ × ObjSymbol))
        → symbols_below obj i bound ≡ ok found
        → Separate (filter is_sized found))
    → check_symbols obj i bound k ≡ ok tt
    → Uncrossed obj i bound
unfolding check_symbols
check_symbols-Uncrossed obj i bound k sep h = elim (Result-cases (symbols_below obj i bound)) [
  | inl (found, e) ↦
      let ends : ends_by bound k (get_last? (filter is_sized found)) ≡ ok tt = (rw e at h) in
      elim (Option-cases (get_last? (filter is_sized found))) [
        | inl n ↦ (found, e, no_last bound (filter is_sized found) n)
        | inr (last, l) ↦ (
          found,
          e,
          last-Separate bound (filter is_sized found) (sep found e) l
              (ends_by-EndsBy bound k last (rw l at ends)),
        )
      ]
  | inr (inl (k', e)) ↦ absurd (ground arith)
  | inr (inr e) ↦ absurd (ground arith)
]

-- What has passed for one split.
check_splits-inv :
    (obj : ObjInfo) (last : SectionAddress) (i : ℕ) (s : ObjSection) (addr : ℕ) (split : ObjSplit)
    (rest : List Entry)
    → check_splits obj last ((i, s, addr, split) ∷ rest) ≡ ok tt
    → (before (record { section = i; address = addr }) last ≡ false)
      × ((0 < split.end) × (addr ≤ split.end))
      × (check_symbols obj i addr overlaps_symbol ≡ ok tt)
      × (check_symbols obj i split.end ends_within_symbol ≡ ok tt)
      × (check_splits obj (record { section = i; address = split.end }) rest ≡ ok tt)
unfolding check_splits
check_splits-inv obj last i s addr split rest h =
    elim (Bool-cases (before (record { section = i; address = addr }) last)) [
      | inl t ↦ absurd (ground arith)
      | inr f ↦ elim (Bool-cases (ltb 0 split.end && leb addr split.end)) [
        | inr f' ↦ absurd (ground arith)
        | inl t' ↦ elim (Result-cases (check_symbols obj i addr overlaps_symbol)) [
          | inr (inl (k, e)) ↦ absurd (ground arith)
          | inr (inr e) ↦ absurd (ground arith)
          | inl (u, e) ↦ elim (Result-cases (check_symbols obj i split.end ends_within_symbol)) [
            | inr (inl (k, e')) ↦ absurd (ground arith)
            | inr (inr e') ↦ absurd (ground arith)
            | inl (u', e') ↦ (f, (ground arith, ground arith), e, e', ground arith)
          ]
        ]
      ]
    ]

Behind-trans :
    (i a j b : ℕ) (x : Entry) → (i < j) ⊎ ((i ≡ j) × (a ≤ b)) → Behind j b x → Behind i a x
Behind-trans i a j b (k, s, addr, split) (inl lt) (inl lt') = inl (omega arith)
Behind-trans i a j b (k, s, addr, split) (inl lt) (inr (e', le')) = inl (omega arith)
Behind-trans i a j b (k, s, addr, split) (inr (e, le)) (inl lt') = inl (omega arith)
Behind-trans i a j b (k, s, addr, split) (inr (e, le)) (inr (e', le')) =
    inr (omega arith, omega arith)

All-Behind :
    (i a j b : ℕ) (rest : List Entry)
    → (i < j) ⊎ ((i ≡ j) × (a ≤ b))
    → All (Behind j b) rest
    → All (Behind i a) rest
All-Behind i a j b [] le h = tt
All-Behind i a j b (x ∷ rest) le h = (Behind-trans i a j b x le h.0, All-Behind i a j b rest le h.1)

not_before :
    (i addr : ℕ) (last : SectionAddress)
    → before (record { section = i; address = addr }) last ≡ false
    → (last.section < i) ⊎ ((last.section ≡ i) × (last.address ≤ addr))
not_before i addr last h = elim (Bool-cases (i == last.section)) [
  | inl t ↦ inr (ground arith, ground arith)
  | inr f ↦ inl (ground arith)
]

-- All splits that pass are behind the end of the one before.
check_splits-Behind :
    (obj : ObjInfo) (last : SectionAddress) (splits : List Entry)
    → check_splits obj last splits ≡ ok tt
    → All (Behind last.section last.address) splits
check_splits-Behind obj last [] h = tt
check_splits-Behind obj last ((i, s, addr, split) ∷ rest) h =
    let (f, bounds, e, e', next) = check_splits-inv obj last i s addr split rest h in
    let step = not_before i addr last f in
    let behind = check_splits-Behind obj (record { section = i; address = split.end }) rest next in
    (
      step,
      All-Behind last.section last.address i split.end rest
          (Behind_end last.section last.address i addr split.end step bounds.1) behind,
    )
  where
    Behind_end :
        (k a i addr end : ℕ)
        → (k < i) ⊎ ((k ≡ i) × (a ≤ addr))
        → addr ≤ end
        → (k < i) ⊎ ((k ≡ i) × (a ≤ end))
    Behind_end k a i addr end (inl lt) le = inl lt
    Behind_end k a i addr end (inr (e, le')) le = inr (e, omega arith)

check_splits-Valid :
    (obj : ObjInfo) (last : SectionAddress) (splits : List Entry)
    → ((i bound : ℕ) (found : List (ℕ × ObjSymbol))
        → symbols_below obj i bound ≡ ok found
        → Separate (filter is_sized found))
    → check_splits obj last splits ≡ ok tt
    → Valid obj splits
check_splits-Valid obj last [] sep h = tt
check_splits-Valid obj last ((i, s, addr, split) ∷ rest) sep h =
    let (f, bounds, e, e', next) = check_splits-inv obj last i s addr split rest h in
    let end_at : SectionAddress = record { section = i; address = split.end } in
    (
      bounds.0,
      bounds.1,
      check_symbols-Uncrossed obj i addr overlaps_symbol (sep i addr) e,
      check_symbols-Uncrossed obj i split.end ends_within_symbol (sep i split.end) e',
      check_splits-Behind obj end_at rest next,
      check_splits-Valid obj end_at rest sep next,
    )

-- Where the sized symbols of each section below any address are found in order, each ending before
-- the next one, and `validate_splits` succeeds, every split has an end that is not 0 and is at or
-- behind its start and at or before all splits that follow, and no sized symbol crosses its start
-- or its end.
pub validate_splits-Valid :
    (obj : ObjInfo)
    → ((i bound : ℕ) (found : List (ℕ × ObjSymbol))
        → symbols_below obj i bound ≡ ok found
        → Separate (filter is_sized found))
    → validate_splits obj ≡ ok tt
    → Valid obj (all_splits obj.sections)
unfolding validate_splits
validate_splits-Valid obj sep h =
    check_splits-Valid obj (record { section = 0; address = 0 }) (all_splits obj.sections) sep h
