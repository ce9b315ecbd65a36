-- ===== src/Util/Rel/Tables/Imports.antt =====
-- The loop over the import table.
use decomp_toolkit.Prelude.{
  ℕ, zero, suc, ◌+◌, ◌-◌, ◌*◌, ◌^◌, ◌<◌, ◌≡◌, refl, ap, ◌∙◌, Bool, true, false, List, [], ◌∷◌, ◌++◌,
  some, Option-cases, ltb, length, drop, All, Result, ok, err, panic, arith, Bool-cases,
  Result-cases, inl, inr, append_assoc, length-append,
}
use decomp_toolkit.Util.Reader.{big, write_u32}
use decomp_toolkit.Obj.Info.{RelReloc}
use decomp_toolkit.Util.Rel.{RelHeader, RelImport, read_import, write_import}
use decomp_toolkit.Util.Rel.Header.{read_import-write_import}
use decomp_toolkit.Util.Rel.Relocs.{RelTypes, RelError, import_relocs, imports_relocs, append}
use decomp_toolkit.Util.Rel.Relocs.Reads.{drop-append}
use decomp_toolkit.Util.Rel.Relocs.Returns.{read_relocs_returns}
use decomp_toolkit.Util.Rel.Tables.{
  is_fixed_at, check_import, import_loop, write_imports, read_tables,
}

length-write_import : (i : RelImport) → length (write_import big i) ≡ 8
unfolding write_import write_u32
length-write_import i = refl

pub length-write_imports : (is : List RelImport) → length (write_imports is) ≡ 8 * length is
unfolding write_imports
length-write_imports [] = refl
length-write_imports (i ∷ is) = omega (
  arith,
  length-append (write_import big i) (write_imports is),
  length-write_import i,
  length-write_imports is,
)

-- The entries pass the checks.
abbrev pub IsFixed : RelHeader → RelImport → Type 0
IsFixed h i = i.module_id ≡ h.module_id → is_fixed_at h.fix_size i.offset ≡ true

abbrev pub StartsAt : ℕ → List RelImport → Type 0
StartsAt offset [] = Unit {0}
StartsAt offset (i ∷ is) = i.offset ≡ offset

check_import_ok :
    (h : RelHeader) (first : Bool) (i : RelImport)
    → (first ≡ true → i.offset ≡ h.rel_offset)
    → IsFixed h i
    → check_import h first i ≡ ok tt
unfolding check_import
check_import_ok h true i starts fixed = let e = starts refl in ground arith
check_import_ok h false i starts fixed = ground arith

pub import_loop-write_imports :
    (loops rounds : ℕ) (t : RelTypes) (h : RelHeader) (file : List ℕ) (imp_end position : ℕ)
    (first : Bool) (is : List RelImport) (prefix suffix : List ℕ)
    → length is < loops
    → length prefix ≡ position
    → imp_end ≡ position + 8 * length is
    → file ≡ prefix ++ (write_imports is ++ suffix)
    → (first ≡ true → StartsAt h.rel_offset is)
    → All (IsFixed h) is
    → import_loop loops rounds t h file imp_end first position ≡ imports_relocs rounds t file is
unfolding import_loop imports_relocs write_imports
import_loop-write_imports zero rounds t h file imp_end position first is prefix suffix enough size
      at_end whole starts fixed =
    absurd (omega arith)
import_loop-write_imports (suc loops) rounds t h file imp_end position first [] prefix suffix enough
      size at_end whole starts fixed =
    let stop : ltb position imp_end ≡ false = (ground arith) in rw stop refl
import_loop-write_imports (suc loops) rounds t h file imp_end position first (i ∷ is) prefix suffix
      enough size at_end whole starts (fixed, more_fixed) =
    let go : ltb position imp_end ≡ true = (ground arith) in
    let there : drop position file ≡ write_import big i ++ (write_imports is ++ suffix) =
      ap (drop position) whole
      ∙ drop-append prefix (write_import big i ++ write_imports is ++ suffix) {n = position} size
      ∙ append_assoc (write_import big i) (write_imports is) suffix in
    let read = read_import-write_import big i (write_imports is ++ suffix) in
    let checked = check_import_ok h first i starts fixed in
    let split : file ≡ (prefix ++ write_import big i) ++ (write_imports is ++ suffix) =
      whole ∙ simp (append_assoc) refl in
    let rest =
      import_loop-write_imports loops rounds t h file imp_end (position + 8) false is
        (prefix ++ write_import big i) suffix (omega arith)
        (omega (arith, length-append prefix (write_import big i), length-write_import i))
        (omega arith) split (λ e. absurd (ground arith)) more_fixed in
    rw (go, there, read, checked, rest) refl

length-read_import :
    (bs : List ℕ) {i : RelImport} {rest : List ℕ}
    → read_import big bs ≡ ok (i, rest)
    → length bs ≡ 8 + length rest
unfolding read_import
length-read_import (a ∷ (b ∷ (c ∷ (d ∷ (e ∷ (f ∷ (g ∷ (h ∷ bs)))))))) k = ground arith
length-read_import _ k = absurd (ground arith)

length-drop : (n : ℕ) (xs : List ℕ) → length (drop n xs) ≡ length xs - n
length-drop zero xs = omega arith
length-drop (suc n) [] = omega arith
length-drop (suc n) (x ∷ xs) = omega (arith, length-drop n xs)

import_relocs_returns :
    (rounds : ℕ) (t : RelTypes) (file : List ℕ) (i : RelImport)
    → length file < 8 * rounds
    → (r : Result RelError (List RelReloc)) × (import_relocs rounds t file i ≡ some r)
unfolding import_relocs
import_relocs_returns rounds t file i enough =
    read_relocs_returns rounds t i.module_id 0 255 (drop i.offset file)
      (omega (arith, length-drop i.offset file))

append_returns :
    (r r' : Result RelError (List RelReloc))
    → (r'' : Result RelError (List RelReloc)) × (append (some r) (some r') ≡ some r'')
append_returns (ok rs) (ok rs') = (ok (rs ++ rs'), refl)
append_returns (ok rs) (err e) = (err e, refl)
append_returns (ok rs) panic = (panic, refl)
append_returns (err e) r' = (err e, refl)
append_returns panic r' = (panic, refl)

import_loop_returns :
    (loops rounds : ℕ) (t : RelTypes) (h : RelHeader) (file : List ℕ) (imp_end position : ℕ)
    (first : Bool)
    → length file < 8 * rounds
    → length (drop position file) < 8 * loops
    → (r : Result RelError (List RelReloc)) × (import_loop loops rounds t h file imp_end first
          position
        ≡ some r)
unfolding import_loop
import_loop_returns zero rounds t h file imp_end position first enough more = absurd (omega arith)
import_loop_returns (suc loops) rounds t h file imp_end position first enough more =
    elim (Option-cases (import_loop (suc loops) rounds t h file imp_end first position)) [
      | inr (r, e) ↦ (r, e)
      | inl lost ↦ elim (Result-cases (read_import big (drop position file))) [
        | inr (inl (k, e)) ↦ absurd (ground arith)
        | inr (inr e) ↦ absurd (ground arith)
        | inl ((i, rest), e) ↦
            let (r, here) = import_relocs_returns rounds t file i enough in
            let (r', behind) =
              import_loop_returns loops rounds t h file imp_end (position + 8) false enough (
                omega (
                  arith,
                  length-read_import (drop position file) {rest = rest} e,
                  length-drop position file,
                  length-drop (position + 8) file,
                )) in
            let (r'', both) = append_returns r r' in
            let both' : append (import_relocs rounds t file i)
                  (import_loop loops rounds t h file imp_end false (position + 8))
                ≡ some r'' =
              (rw (here, behind) both) in
            absurd (ground arith)
      ]
    ]

-- On as many rounds as the file has entries of eight bytes and one more, the loops over the import
-- table and the relocation tables end with relocations, an error or a panic.
pub read_tables_returns :
    (rounds : ℕ) (t : RelTypes) (h : RelHeader) (file : List ℕ)
    → length file < 8 * rounds
    → (r : Result RelError (List RelReloc)) × (read_tables rounds t h file ≡ some r)
unfolding read_tables
read_tables_returns rounds t h file enough =
    let imp_end = h.imp_offset + h.imp_size in
    let (r, e) =
      import_loop_returns rounds rounds t h file imp_end h.imp_offset true enough
        (omega (arith, length-drop h.imp_offset file)) in
    elim (Bool-cases (ltb imp_end (2 ^ 32))) [
      | inl fits ↦ (r, rw (fits, e) refl)
      | inr over ↦ (panic, rw over refl)
    ]
