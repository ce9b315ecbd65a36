-- ===== src/Obj/AddSplit/Overlaps.antt =====
-- The loop of `add_split` over the splits in the new range: what it removes and what it renames.
use decomp_toolkit.Prelude.{
  ℕ, ◌≡◌, sym, ap, true, false, not, ◌&&◌, ◌||◌, List, [], ◌∷◌, String, str_eq, eq_iff,
  if◌then◌else◌, arith, Bool-cases, inl, inr, All,
}
use decomp_toolkit.Obj.Splits.{ObjSplit}
use decomp_toolkit.Obj.AddSplit.{Overlap, manual, conflict, replaced, note, overlap}
use decomp_toolkit.Obj.AddSplit.Entries.{Entry}
use mathlib.Core.Path.{subst}
use mathlib.Core.List.{Memᴰ}
use mathlib.Core.List.Memᴰ

-- The loop has passed over the entry, with `o` for the entries after it.
abbrev pub Passed : ObjSplit → Entry → Overlap → List ℕ → List String → Type 0
Passed split (b, y) o to_remove to_rename =
    (following : List ℕ) × (units : List String) × (o ≡ replaced following units)
    × (to_remove ≡ b ∷ following)
    × (to_rename ≡ (if str_eq y.unit split.unit then units else y.unit ∷ units))
    × ((y.autogenerated || str_eq y.unit split.unit) ≡ true)

passed :
    (split : ObjSplit) (b : ℕ) (y : ObjSplit) (o : Overlap) {to_remove : List ℕ}
    {to_rename : List String}
    → (if split.autogenerated && not y.autogenerated
        then manual
        else if y.autogenerated || str_eq y.unit split.unit
        then note b (str_eq y.unit split.unit) y.unit o
        else conflict)
      ≡ replaced to_remove to_rename
    → Passed split (b, y) o to_remove to_rename
passed split b y manual h = ground arith
passed split b y conflict h = ground arith
passed split b y (replaced r u) h = (r, u, ground arith, ground arith, ground arith, ground arith)

-- The loop that finishes has passed over each entry.
pub overlap-cons :
    (split : ObjSplit) (b : ℕ) (y : ObjSplit) (es : List Entry) {to_remove : List ℕ}
    {to_rename : List String}
    → overlap split ((b, y) ∷ es) ≡ replaced to_remove to_rename
    → Passed split (b, y) (overlap split es) to_remove to_rename
unfolding overlap
overlap-cons split b y es h = passed split b y (overlap split es) h

-- Where the loop finishes, it removes the address of every split that it saw.
pub mem-to_remove :
    (split : ObjSplit) (es : List Entry) {a : ℕ} {x : ObjSplit} {to_remove : List ℕ}
    {to_rename : List String}
    → overlap split es ≡ replaced to_remove to_rename
    → Memᴰ {A = Entry} (a, x) es
    → Memᴰ a to_remove
mem-to_remove split [] h m = elim m [ ]
mem-to_remove split ((b, y) ∷ es) {a} {x} {to_remove} h m =
    let (following, units, e, eq, _, _) = overlap-cons split b y es h in
    subst (Memᴰ a) (sym eq) (elim (Memᴰ.cases_cons m) [
      | inl here ↦ Memᴰ.head (ap (λ (e : Entry). e.0) here)
      | inr there ↦ Memᴰ.tail (mem-to_remove split es e there)
    ])

-- What the loop removes are addresses that it saw.
pub mem_of_to_remove :
    (split : ObjSplit) (es : List Entry) {a : ℕ} {to_remove : List ℕ} {to_rename : List String}
    → overlap split es ≡ replaced to_remove to_rename
    → Memᴰ a to_remove
    → (y : ObjSplit) × Memᴰ {A = Entry} (a, y) es
unfolding overlap
mem_of_to_remove split [] {a} {to_remove} h m =
    let e : to_remove ≡ [] = (cc) in elim (subst (Memᴰ a) e m) [ ]
mem_of_to_remove split ((b, y) ∷ es) {a} h m =
    let (following, units, e, eq, _, _) = overlap-cons split b y es h in
    elim (Memᴰ.cases_cons (subst (Memᴰ a) eq m)) [
      | inl here ↦ (y, Memᴰ.head (ap (λ k. (k, y)) here))
      | inr there ↦ let (z, r) = mem_of_to_remove split es e there in (z, Memᴰ.tail r)
    ]

-- Each split that it saw is generated or of the same unit.
pub seen :
    (split : ObjSplit) (es : List Entry) {x : Entry} {to_remove : List ℕ} {to_rename : List String}
    → overlap split es ≡ replaced to_remove to_rename
    → Memᴰ x es
    → ((x.1).autogenerated || str_eq (x.1).unit split.unit) ≡ true
seen split [] h m = elim m [ ]
seen split ((b, y) ∷ es) {x} h m =
    let (following, units, e, _, _, ok_y) = overlap-cons split b y es h in
    elim (Memᴰ.cases_cons m) [ inl here ↦ rw here ok_y | inr there ↦ seen split es e there ]

-- No generated split among the entries is of the unit.
abbrev pub IsManual : String → Entry → Type 0
IsManual unit e = str_eq (e.1).unit unit ≡ true → (e.1).autogenerated ≡ false

-- A split of another unit than a manual one, or a manual split, is not renamed for it.
unit_differs :
    (unit : String) (y : ObjSplit) (address : ℕ)
    → IsManual unit (address, y)
    → y.autogenerated ≡ true
    → str_eq unit y.unit ≡ false
unit_differs unit y address m auto = ground (arith, eq_iff unit y.unit, eq_iff y.unit unit)

-- It renames no unit of which all splits are manual.
pub to_rename_other :
    (unit : String) (split : ObjSplit) (es : List Entry) {to_remove : List ℕ}
    {to_rename : List String}
    → All (IsManual unit) es
    → overlap split es ≡ replaced to_remove to_rename
    → All (λ u. str_eq unit u ≡ false) to_rename
unfolding overlap
to_rename_other unit split [] {to_rename = units} h e =
    let eq : [] ≡ units = (cc) in subst (All (λ u. str_eq unit u ≡ false)) eq tt
to_rename_other unit split ((b, y) ∷ es) h e =
    let (following, units, rest, _, eq, passed_y) = overlap-cons split b y es e in
    let ih = to_rename_other unit split es h.1 rest in
    subst (All (λ u. str_eq unit u ≡ false)) (sym eq)
      (elim (Bool-cases (str_eq y.unit split.unit)) [
        | inl same ↦ rw same ih
        | inr other ↦ rw other (unit_differs unit y b h.0 (ground arith), ih)
      ])
