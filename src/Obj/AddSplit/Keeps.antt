-- ===== src/Obj/AddSplit/Keeps.antt =====
-- `add_split` loses no split that was not generated.
use decomp_toolkit.Prelude.{
  ℕ, zero, suc, ◌≡◌, refl, sym, true, false, not, ◌&&◌, ◌||◌, List, [], ◌∷◌, map, some, String,
  str_eq, eq_iff, ◌==◌, ltb, leb, get_elem?, set, arith, Bool-cases, inl, inr, All, All-filter,
  All-map, All-mem, mem-filter, mem_of_filter, min, max,
}
use decomp_toolkit.Prelude.BTreeMap
use decomp_toolkit.Util.Nested.{bucket}
use decomp_toolkit.Obj.Splits.{ObjSplit, ObjSplits, flatten, for_range, for_unit}
use decomp_toolkit.Obj.Splits
use decomp_toolkit.Obj.Sections.{ObjSection, ObjSections}
use decomp_toolkit.Obj.AddSplit.{
  Outcome, replaced, overlap, remove_all, rename_split, rename_splits, rename_sections, rename_all,
  Step, done, again, extended, add_split,
}
use decomp_toolkit.Obj.AddSplit.Entries.{
  Entry, flatten-remove, rename_entry, flatten-rename_splits, mem-push, mem_of_bucket,
}
use decomp_toolkit.Obj.AddSplit.Overlaps.{IsManual, mem_of_to_remove, seen, to_rename_other}
use decomp_toolkit.Obj.AddSplit.Steps.{
  StepCase, refused, pushed, covered, kept, backwards, grown, in_range, in_range-filter,
  add_split_zero, add_split-cases, add_split_step-StepCase,
}
use mathlib.Core.Path.{subst}
use mathlib.Core.List.{Memᴰ}
use mathlib.Core.List.Memᴰ

-- The section at the index has the split at the address.
abbrev pub HasAt : ℕ → ObjSplit → List ObjSection → ℕ → Type 0
HasAt address x [] index = ⊥
HasAt address x (s ∷ ss) zero = Memᴰ x (bucket address s.splits)
HasAt address x (s ∷ ss) (suc index) = HasAt address x ss index

abbrev pub ManualAt : String → List ObjSection → ℕ → Type 0
ManualAt unit [] index = Unit
ManualAt unit (s ∷ ss) zero = All (IsManual unit) (flatten s.splits)
ManualAt unit (s ∷ ss) (suc index) = ManualAt unit ss index

bucket-remove :
    (address j : ℕ) (splits : ObjSplits)
    → (address == j) ≡ false
    → bucket j (Splits.remove address splits).0 ≡ bucket j splits
unfolding bucket Splits.remove
bucket-remove address j splits ne = ground (arith, BTreeMap.get-remove address j splits)

bucket-rename_splits :
    (old new : String) (j : ℕ) (splits : ObjSplits)
    → bucket j (rename_splits old new splits) ≡ map (rename_split old new) (bucket j splits)
unfolding bucket rename_splits BTreeMap.get
bucket-rename_splits old new j [] = refl
bucket-rename_splits old new j ((a, v) ∷ m) = ground (arith, bucket-rename_splits old new j m)

rename_split_other :
    (old new : String) (x : ObjSplit) → str_eq x.unit old ≡ false → rename_split old new x ≡ x
unfolding rename_split
rename_split_other old new x ne = rw ne

module _ (address : ℕ) (x : ObjSplit) where
  mem-remove_all :
      (addresses : List ℕ) (splits : ObjSplits)
      → (Memᴰ address addresses → ⊥)
      → Memᴰ x (bucket address splits)
      → Memᴰ x (bucket address (remove_all addresses splits))
  unfolding remove_all
  mem-remove_all [] splits out m = m
  mem-remove_all (a ∷ addresses) splits out m = elim (Bool-cases (a == address)) [
    | inl t ↦ absurd (out (Memᴰ.head (ground arith)))
    | inr f ↦
        mem-remove_all addresses (Splits.remove a splits).0 (λ r. out (Memᴰ.tail r))
          (subst (Memᴰ x) (sym (bucket-remove a address splits f)) m)
  ]

  HasAt-rename :
      (old new : String) (ss : List ObjSection) (index : ℕ)
      → str_eq x.unit old ≡ false
      → HasAt address x ss index
      → HasAt address x (rename_sections old new ss) index
  unfolding rename_sections
  HasAt-rename old new [] index ne h = h
  HasAt-rename old new (s ∷ ss) zero ne h =
      subst (Memᴰ x) (sym (bucket-rename_splits old new address s.splits)) (
        subst (λ y. Memᴰ y (map (rename_split old new) (bucket address s.splits)))
          (rename_split_other old new x ne) (Memᴰ.map (rename_split old new) h))
  HasAt-rename old new (s ∷ ss) (suc index) ne h = HasAt-rename old new ss index ne h

  HasAt-rename_all :
      (units : List String) (new : String) (ss : List ObjSection) (index : ℕ)
      → All (λ unit. str_eq x.unit unit ≡ false) units
      → HasAt address x ss index
      → HasAt address x (rename_all units new ss) index
  unfolding rename_all
  HasAt-rename_all [] new ss index ne h = h
  HasAt-rename_all (unit ∷ units) new ss index ne h =
      HasAt-rename_all units new (rename_sections unit new ss) index ne.1
        (HasAt-rename unit new ss index ne.0 h)

  HasAt-get :
      (ss : List ObjSection) (index : ℕ) {s : ObjSection}
      → get_elem? ss index ≡ some s
      → HasAt address x ss index
      → Memᴰ x (bucket address s.splits)
  HasAt-get [] index e h = elim h [ ]
  HasAt-get (y ∷ ss) zero {s} e h =
      let eq : y ≡ s = (cc) in subst (λ (z : ObjSection). Memᴰ x (bucket address z.splits)) eq h
  HasAt-get (y ∷ ss) (suc index) e h = HasAt-get ss index e h

  HasAt-set :
      (ss : List ObjSection) (index : ℕ) (s : ObjSection)
      → HasAt address x ss index
      → Memᴰ x (bucket address s.splits)
      → HasAt address x (set ss index s) index
  HasAt-set [] index s h m = elim h [ ]
  HasAt-set (y ∷ ss) zero s h m = m
  HasAt-set (y ∷ ss) (suc index) s h m = HasAt-set ss index s h m

module _ (unit : String) where
  IsManual-rename :
      (old new : String) (es : List Entry)
      → str_eq new unit ≡ false
      → All (IsManual unit) es
      → All (λ e. IsManual unit (rename_entry old new e)) es
  unfolding rename_split
  IsManual-rename old new [] ne h = h
  IsManual-rename old new ((a, y) ∷ es) ne h =
      (ground (arith, h.0), IsManual-rename old new es ne h.1)

  ManualAt-rename :
      (old new : String) (ss : List ObjSection) (index : ℕ)
      → str_eq new unit ≡ false
      → ManualAt unit ss index
      → ManualAt unit (rename_sections old new ss) index
  unfolding rename_sections
  ManualAt-rename old new [] index ne h = h
  ManualAt-rename old new (s ∷ ss) zero ne h =
      subst (All (IsManual unit)) (sym (flatten-rename_splits old new s.splits)) (
        All-map (IsManual unit) (rename_entry old new) (flatten s.splits)
          (IsManual-rename old new (flatten s.splits) ne h))
  ManualAt-rename old new (s ∷ ss) (suc index) ne h = ManualAt-rename old new ss index ne h

  ManualAt-rename_all :
      (units : List String) (new : String) (ss : List ObjSection) (index : ℕ)
      → str_eq new unit ≡ false
      → ManualAt unit ss index
      → ManualAt unit (rename_all units new ss) index
  unfolding rename_all
  ManualAt-rename_all [] new ss index ne h = h
  ManualAt-rename_all (old ∷ units) new ss index ne h =
      ManualAt-rename_all units new (rename_sections old new ss) index ne
        (ManualAt-rename old new ss index ne h)

  ManualAt-get :
      (ss : List ObjSection) (index : ℕ) {s : ObjSection}
      → get_elem? ss index ≡ some s
      → ManualAt unit ss index
      → All (IsManual unit) (flatten s.splits)
  ManualAt-get [] index e h = absurd (cc e)
  ManualAt-get (y ∷ ss) zero {s} e h =
      let eq : y ≡ s = (cc) in
      subst (λ (z : ObjSection). All (IsManual unit) (flatten z.splits)) eq h
  ManualAt-get (y ∷ ss) (suc index) e h = ManualAt-get ss index e h

  ManualAt-set :
      (ss : List ObjSection) (index : ℕ) (s : ObjSection)
      → All (IsManual unit) (flatten s.splits)
      → ManualAt unit (set ss index s) index
  ManualAt-set [] index s h = tt
  ManualAt-set (y ∷ ss) zero s h = h
  ManualAt-set (y ∷ ss) (suc index) s h = ManualAt-set ss index s h

  IsManual-remove_all :
      (addresses : List ℕ) (splits : ObjSplits)
      → All (IsManual unit) (flatten splits)
      → All (IsManual unit) (flatten (remove_all addresses splits))
  unfolding remove_all
  IsManual-remove_all [] splits h = h
  IsManual-remove_all (a ∷ addresses) splits h =
      IsManual-remove_all addresses (Splits.remove a splits).0 (
        subst (All (IsManual unit)) (sym (flatten-remove a splits))
          (All-filter (IsManual unit) (λ (e : Entry). not (e.0 == a)) (flatten splits) h))

manual_unseen :
    (x split : ObjSplit)
    → (str_eq x.unit x.unit ≡ true → x.autogenerated ≡ false)
    → str_eq split.unit x.unit ≡ false
    → (x.autogenerated || str_eq x.unit split.unit) ≡ true
    → ⊥
manual_unseen x split m ne h =
    let auto = m ((eq_iff x.unit x.unit).1 refl) in
    ground (arith, auto, eq_iff split.unit x.unit, eq_iff x.unit split.unit)

module _ (a : ℕ) (x : ObjSplit) where
  -- The split stays where it is, and its unit manual.
  abbrev Keeps : ℕ → Step → Type 0
  Keeps index (done t r) = HasAt a x t.sections index
  Keeps index (again t address split) =
      HasAt a x t.sections index
      × ManualAt x.unit t.sections index
      × (str_eq split.unit x.unit ≡ false)

  All-in_range :
      (address : ℕ) (split : ObjSplit) (e : Entry) (splits : ObjSplits)
      → All (IsManual x.unit) (flatten splits)
      → All (IsManual x.unit) (in_range address split e splits)
  All-in_range address split e splits h =
      subst (All (IsManual x.unit)) (sym (in_range-filter address split e splits))
        (All-filter (IsManual x.unit) _ (flatten splits) h)

  -- The loop does not see the split, or it would have failed.
  unseen :
      (address : ℕ) (split : ObjSplit) (e : Entry) (splits : ObjSplits) {to_remove : List ℕ}
      {to_rename : List String}
      → All (IsManual x.unit) (flatten splits)
      → str_eq split.unit x.unit ≡ false
      → Memᴰ x (bucket a splits)
      → overlap split (in_range address split e splits) ≡ replaced to_remove to_rename
      → (Memᴰ a to_remove → ⊥)
  unseen address split e splits h ne m eq r =
      let inside = λ (k : Entry). leb (min e.0 address) k.0 && ltb k.0 (max (e.1).end split.end) in
      let (y, seen_y) = mem_of_to_remove split (in_range address split e splits) eq r in
      let here =
        (mem_of_filter inside (flatten splits)
          (subst (Memᴰ {A = Entry} (a, y)) (in_range-filter address split e splits) seen_y)).1 in
      let mem : Memᴰ {A = Entry} (a, x) (in_range address split e splits) =
        subst (Memᴰ {A = Entry} (a, x)) (sym (in_range-filter address split e splits))
          (mem-filter inside (flatten splits) (mem_of_bucket a splits m) here) in
      manual_unseen x split
        (All-mem (IsManual x.unit) (flatten splits) h (mem_of_bucket a splits m)) ne
        (seen split (in_range address split e splits) eq mem)

  StepCase-Keeps :
      (index address : ℕ) (split : ObjSplit) (t : ObjSections) {st : Step}
      → HasAt a x t.sections index
      → ManualAt x.unit t.sections index
      → str_eq split.unit x.unit ≡ false
      → StepCase index address split t st
      → Keeps index st
  unfolding extended
  StepCase-Keeps index address split t h all ne (refused e) = h
  StepCase-Keeps index address split t h all ne (pushed s found e) =
      HasAt-set a x t.sections index (record s { splits = Splits.push address split s.splits }) h
        (mem-push address a split s.splits (HasAt-get a x t.sections index found h))
  StepCase-Keeps index address split t h all ne (covered s b y found e below inside) = h
  StepCase-Keeps index address split t h all ne (kept s b y found e eq) = h
  StepCase-Keeps index address split t h all ne (backwards s b y found e back) = h
  StepCase-Keeps index address split t h all ne (grown s b y align to_remove to_rename found e eq) =
      let here = HasAt-get a x t.sections index found h in
      let manuals = ManualAt-get x.unit t.sections index found all in
      let s' : ObjSection = record s { splits = remove_all to_remove s.splits } in
      (
        HasAt-rename_all a x to_rename split.unit (set t.sections index s') index
            (to_rename_other x.unit split _ (All-in_range address split (b, y) s.splits manuals) eq)
            (HasAt-set a x t.sections index s' h (
              mem-remove_all a x to_remove s.splits
                (unseen address split (b, y) s.splits manuals ne here eq) here)),
        ManualAt-rename_all x.unit to_rename split.unit (set t.sections index s') index ne (
            ManualAt-set x.unit t.sections index s'
              (IsManual-remove_all x.unit to_remove s.splits manuals)),
        ne,
      )

-- Whatever `add_split` does and returns, a manual split of another unit, of which the section has
-- no generated split, stays as it is at its address.
pub add_split-HasAt :
    (fuel index address : ℕ) (split : ObjSplit) (t : ObjSections) {t' : ObjSections} {r : Outcome}
    (a : ℕ) (x : ObjSplit)
    → HasAt a x t.sections index
    → ManualAt x.unit t.sections index
    → str_eq split.unit x.unit ≡ false
    → add_split fuel index address split t ≡ some (t', r)
    → HasAt a x t'.sections index
add_split-HasAt zero index address split t a x h all ne e =
    absurd (add_split_zero index address split t e)
add_split-HasAt (suc fuel) index address split t {t'} {r} a x h all ne e =
    let keeps =
      StepCase-Keeps a x index address split t h all ne
        (add_split_step-StepCase index address split t) in
    elim (add_split-cases fuel index address split t e) [
      | inl last ↦ rw last at keeps
      | inr (t₁, address₁, split₁, next, rest) ↦
          let k = subst (Keeps a x index) next keeps in
          add_split-HasAt fuel index address₁ split₁ t₁ a x k.0 k.1 k.2 rest
    ]
