-- ===== src/Obj/Symbols/Relocation/Ranks.antt =====
-- `best_match_for_reloc` picks the first of the symbols of the highest rank.
use decomp_toolkit.Prelude.{
  ℕ, ◌+◌, ◌⊎◌, true, false, ltb, none, str_eq, starts_with, All-implies, Option-cases, ◌≤◌, ◌<◌,
  ◌≡◌, refl, List, ◌∷◌, ◌++◌, some, if◌then◌else◌, All, arith, Bool-cases, inl, inr,
}
use decomp_toolkit.Obj.Relocations.{ObjRelocKind}
use decomp_toolkit.Obj.Symbols.Symbol.{ObjSymbol, is_addr16, one_of}
use decomp_toolkit.Obj.Kinds.{ObjSymbolKind}
use decomp_toolkit.Obj.Symbols.Relocation.{
  base_rank, is_save_restore, reloc_key, best_match_for_reloc,
}
use decomp_toolkit.Obj.Symbols.Relocation.Least.{best_match_for_reloc-FirstLeast}

abbrev pub IsNamed : ObjSymbol → Type 0
IsNamed s = (s.kind ≡ ObjSymbolKind.function) ⊎ (s.kind ≡ ObjSymbolKind.object)

-- The functions that save and restore registers, which code seldom refers to by their own names.
abbrev pub IsHelper : ObjSymbol → Type 0
IsHelper s =
    IsNamed s
    × ((str_eq s.name "__save_gpr" ≡ true)
        ⊎ ((str_eq s.name "__restore_gpr" ≡ true)
            ⊎ ((str_eq s.name "__save_fpr" ≡ true) ⊎ (str_eq s.name "__restore_fpr" ≡ true))))

-- How well a symbol fits a relocation kind before its size counts. A half of an address is best
-- taken from a label, unless its name starts with two dots, and all else from a function or an
-- object. A section fits worst.
pub data Fits (kind : ObjRelocKind) (s : ObjSymbol) : ℕ → Type 0 where
  of_label :
      is_addr16 kind ≡ true
      → s.kind ≡ ObjSymbolKind.unknown
      → starts_with s.name ".." ≡ false
      → Fits kind s 4
  of_dotted :
      is_addr16 kind ≡ true
      → s.kind ≡ ObjSymbolKind.unknown
      → starts_with s.name ".." ≡ true
      → Fits kind s 2
  of_other_label : is_addr16 kind ≡ false → s.kind ≡ ObjSymbolKind.unknown → Fits kind s 2
  of_half : is_addr16 kind ≡ true → IsNamed s → Fits kind s 2
  of_named : is_addr16 kind ≡ false → IsNamed s → Fits kind s 3
  of_section : s.kind ≡ ObjSymbolKind.section → Fits kind s 0

-- A size is worth one more; a helper ranks below every other symbol that is no section, whatever its
-- size.
pub data Ranks (kind : ObjRelocKind) (s : ObjSymbol) : ℕ → Type 0 where
  helper : IsHelper s → Ranks kind s 1
  unsized : {n : ℕ} → ¬ IsHelper s → Fits kind s n → s.size ≡ 0 → Ranks kind s n
  sized : {n : ℕ} → ¬ IsHelper s → Fits kind s n → 1 ≤ s.size → Ranks kind s (n + 1)

IsHelper-of : (s : ObjSymbol) → IsNamed s → is_save_restore s ≡ true → IsHelper s
unfolding one_of
IsHelper-of s named h = (named, ground arith)

not-IsHelper : (s : ObjSymbol) → is_save_restore s ≡ false → ¬ IsHelper s
unfolding one_of
not-IsHelper s h (named, which) = ground arith

not-IsHelper_unnamed :
    (s : ObjSymbol) → s.kind ≡ ObjSymbolKind.unknown ⊎ s.kind ≡ ObjSymbolKind.section → ¬ IsHelper s
not-IsHelper_unnamed s other (named, which) = ground arith

-- What a symbol that is a function or an object, or a label, ranks before its size counts.
base_rank_named :
    (kind : ObjRelocKind) (s : ObjSymbol) {n : ℕ}
    → IsNamed s
    → is_save_restore s ≡ false
    → (if is_addr16 kind then some 2 else some 3) ≡ some n
    → (¬ IsHelper s) × Fits kind s n × (n ≤ 4)
base_rank_named kind s {n} named other e = elim (Bool-cases (is_addr16 kind)) [
  | inl half ↦
      let same : 2 ≡ n = (ground arith) in
      (not-IsHelper s other, rw (← same) (of_half half named), omega arith)
  | inr whole ↦
      let same : 3 ≡ n = (ground arith) in
      (not-IsHelper s other, rw (← same) (of_named whole named), omega arith)
]

base_rank_label :
    (kind : ObjRelocKind) (s : ObjSymbol) {n : ℕ}
    → s.kind ≡ ObjSymbolKind.unknown
    → base_rank kind s ObjSymbolKind.unknown ≡ some n
    → (¬ IsHelper s) × Fits kind s n × (n ≤ 4)
unfolding base_rank
base_rank_label kind s {n} label e = elim (Bool-cases (is_addr16 kind)) [
  | inr whole ↦
      let same : 2 ≡ n = (ground arith) in
      (not-IsHelper_unnamed s (inl label), rw (← same) (of_other_label whole label), omega arith)
  | inl half ↦ elim (Bool-cases (starts_with s.name "..")) [
    | inl dotted ↦
        let same : 2 ≡ n = (ground arith) in
        (not-IsHelper_unnamed s (inl label), rw (← same) (of_dotted half label dotted), omega arith)
    | inr plain ↦
        let same : 4 ≡ n = (ground arith) in
        (not-IsHelper_unnamed s (inl label), rw (← same) (of_label half label plain), omega arith)
  ]
]

base_rank-some :
    (kind : ObjRelocKind) (s : ObjSymbol) (k : ObjSymbolKind) {n : ℕ}
    → s.kind ≡ k
    → base_rank kind s k ≡ some n
    → (¬ IsHelper s) × Fits kind s n × (n ≤ 4)
unfolding base_rank
base_rank-some kind s ObjSymbolKind.function at e = elim (Bool-cases (is_save_restore s)) [
  | inl t ↦ absurd (ground arith)
  | inr f ↦ base_rank_named kind s (inl at) f (ground arith)
]
base_rank-some kind s ObjSymbolKind.object at e = elim (Bool-cases (is_save_restore s)) [
  | inl t ↦ absurd (ground arith)
  | inr f ↦ base_rank_named kind s (inr at) f (ground arith)
]
base_rank-some kind s ObjSymbolKind.unknown at e = base_rank_label kind s at e
base_rank-some kind s ObjSymbolKind.section {n} at e =
    let same : 0 ≡ n = (ground arith) in
    (not-IsHelper_unnamed s (inr at), rw (← same) (of_section at), omega arith)

base_rank-none :
    (kind : ObjRelocKind) (s : ObjSymbol) (k : ObjSymbolKind)
    → s.kind ≡ k
    → base_rank kind s k ≡ none
    → IsHelper s
unfolding base_rank
base_rank-none kind s ObjSymbolKind.function at e = IsHelper-of s (inl at) (ground arith)
base_rank-none kind s ObjSymbolKind.object at e = IsHelper-of s (inr at) (ground arith)
base_rank-none kind s ObjSymbolKind.unknown at e = absurd (ground arith)
base_rank-none kind s ObjSymbolKind.section at e = absurd (ground arith)

reloc_key-Ranks :
    (kind : ObjRelocKind) (e : ℕ × ObjSymbol)
    → (n : ℕ) × Ranks kind e.1 n × (n ≤ 5) × (reloc_key kind e + n ≡ 6)
unfolding reloc_key
reloc_key-Ranks kind (i, s) = elim (Option-cases (base_rank kind s s.kind)) [
  | inl e ↦ (1, helper (base_rank-none kind s s.kind refl e), omega arith, rw (reloc_key, e) refl)
  | inr (n, e) ↦
      let (other, fits, le) = base_rank-some kind s s.kind refl e in
      elim (Bool-cases (ltb 0 s.size)) [
        | inl t ↦ (
          n + 1,
          sized other fits (ground arith),
          omega arith,
          rw (reloc_key, e, t) (omega arith),
        )
        | inr f ↦
            (n, unsized other fits (ground arith), omega arith, rw (reloc_key, e, f) (omega arith))
      ]
]

-- The first of the symbols of the highest rank in the list.
abbrev pub FirstHighest : ObjRelocKind → List (ℕ × ObjSymbol) → ℕ × ObjSymbol → Type 0
FirstHighest kind xs y =
    (front back : List (ℕ × ObjSymbol)) × (n : ℕ) × (xs ≡ front ++ (y ∷ back))
    × Ranks kind y.1 n
    × All (λ (x : ℕ × ObjSymbol). (m : ℕ) × Ranks kind x.1 m × (m < n)) front
    × All (λ (x : ℕ × ObjSymbol). (m : ℕ) × Ranks kind x.1 m × (m ≤ n)) back

-- Of one or more symbols, `best_match_for_reloc` picks the first of the highest rank. For a half of
-- an address a label ranks above a function or an object, which ranks with a label whose name
-- starts with two dots; for the other kinds a function or an object ranks above a label. A size is
-- worth one rank, a section ranks two below the lowest of these, and a register save or restore
-- function is one above an unsized section, whatever its own size.
pub best_match_for_reloc-FirstHighest :
    (x : ℕ × ObjSymbol) (xs : List (ℕ × ObjSymbol)) (kind : ObjRelocKind)
    → (y : ℕ × ObjSymbol) × (best_match_for_reloc (x ∷ xs) kind ≡ some y)
      × FirstHighest kind (x ∷ xs) y
best_match_for_reloc-FirstHighest x xs kind =
    let (y, found, (front, back, split, below, behind)) =
      best_match_for_reloc-FirstLeast x xs kind in
    let (n, rank, le, key) = reloc_key-Ranks kind y in
    (
      y,
      found,
      (
        front,
        back,
        n,
        split,
        rank,
        All-implies front
            (λ z lt. let (m, rank', le', key') = reloc_key-Ranks kind z in (m, rank', omega arith))
            below,
        All-implies back
            (λ z lt. let (m, rank', le', key') = reloc_key-Ranks kind z in (m, rank', omega arith))
            behind,
      ),
    )
