-- ===== src/Obj/Addresses/Ranges.antt =====
-- What `AddressRanges` promises: sorted by start, and on ranges that do not overlap a lookup that
-- agrees with the union of the ranges.
use decomp_toolkit.Prelude.{◌≤◌, ◌≡◌, refl, Bool, true, false, ◌||◌, [], ◌∷◌, some, ok, arith, All}
use decomp_toolkit.Obj.Addresses.{
  SectionAddress, before, same, AddressRange, AddressRanges, covers, insert_sorted, insert,
  contains_from, contains,
}

abbrev pub StartsAfter : SectionAddress → AddressRanges → Type 0
StartsAfter a rs = All (λ (r : AddressRange). before a r.start ≡ true) rs

-- Strictly ascending starts.
abbrev pub IsSorted : AddressRanges → Type 0
IsSorted [] = Unit
IsSorted (r ∷ rs) = StartsAfter r.start rs × IsSorted rs

insert_sorted-StartsAfter :
    (a start end : SectionAddress) (rs : AddressRanges)
    → before a start ≡ true
    → StartsAfter a rs
    → StartsAfter a (insert_sorted start end rs)
unfolding insert_sorted
insert_sorted-StartsAfter a start end [] lt h = (lt, tt)
insert_sorted-StartsAfter a start end (r ∷ rs) lt h =
    ground (arith, insert_sorted-StartsAfter a start end rs lt)

StartsAfter-weaken :
    (a b : SectionAddress) (rs : AddressRanges)
    → before a b ≡ true
    → StartsAfter b rs
    → StartsAfter a rs
StartsAfter-weaken a b [] lt h = tt
StartsAfter-weaken a b (r ∷ rs) lt h = (ground arith, StartsAfter-weaken a b rs lt h.1)

insert_sorted-IsSorted :
    (start end : SectionAddress) (rs : AddressRanges)
    → IsSorted rs
    → IsSorted (insert_sorted start end rs)
unfolding insert_sorted
insert_sorted-IsSorted start end [] h = (tt, tt)
insert_sorted-IsSorted start end (r ∷ rs) h = ground (
  arith,
  insert_sorted-IsSorted start end rs,
  insert_sorted-StartsAfter r.start start end rs,
  StartsAfter-weaken start r.start rs,
)

-- The end of every range is at most the start of each later range of its section.
abbrev pub EndsBefore : AddressRange → AddressRanges → Type 0
EndsBefore r rs =
    All (λ (s : AddressRange). r.start.section ≡ s.start.section → r.end ≤ s.start.address) rs

abbrev pub IsDisjoint : AddressRanges → Type 0
IsDisjoint [] = Unit
IsDisjoint (r ∷ rs) = EndsBefore r rs × IsDisjoint rs

-- The reference definition: some range covers the address, or starts there.
unfoldable pub member : AddressRanges → SectionAddress → Bool
member [] a = false
member (r ∷ rs) a = (covers r a || same r.start a) || member rs a

member-before :
    (rs : AddressRanges) (a b : SectionAddress)
    → StartsAfter b rs
    → (before a b || same a b) ≡ true
    → member rs a ≡ false
unfolding member
member-before [] a b h lt = refl
member-before (r ∷ rs) a b h lt = ground (arith, member-before rs a b h.1 lt)

-- A range that ends before all of `rs` covers no address at or behind the first start.
contains_from-member :
    (p : AddressRange) (rs : AddressRanges) (a : SectionAddress)
    → IsSorted (p ∷ rs)
    → IsDisjoint (p ∷ rs)
    → before p.start a ≡ true
    → contains_from (some p) rs a ≡ (covers p a || member rs a)
unfolding contains_from member
contains_from-member p [] a s d lt = ground arith
contains_from-member p (r ∷ rs) a s d lt =
    ground (arith, contains_from-member r rs a s.1 d.1, member-before rs a r.start s.1.0)

-- On sorted ranges that do not overlap, `contains` is membership in the union of the ranges.
pub contains-member :
    (rs : AddressRanges) (a : SectionAddress)
    → IsSorted rs
    → IsDisjoint rs
    → contains rs a ≡ member rs a
unfolding contains contains_from member
contains-member [] a s d = refl
contains-member (r ∷ rs) a s d =
    ground (arith, contains_from-member r rs a s d, member-before rs a r.start s.0)

member-insert_sorted :
    (start end a : SectionAddress) (rs : AddressRanges)
    → member (insert_sorted start end rs) a
      ≡ (member rs a || (covers (record { start = start; end = end.address }) a || same start a))
unfolding member insert_sorted
member-insert_sorted start end a [] = ground arith
member-insert_sorted start end a (r ∷ rs) = ground (arith, member-insert_sorted start end a rs)

-- Within one section, `insert` returns; the starts stay strictly ascending, and the union of the
-- ranges grows by the new range and by nothing else.
pub insert-member :
    (start end : SectionAddress) (rs : AddressRanges)
    → start.section ≡ end.section
    → IsSorted rs
    → (rs' : AddressRanges) × (insert start end rs ≡ ok rs')
      × IsSorted rs'
      × ((a : SectionAddress)
          → member rs' a ≡ (
              member rs a
              || (covers (record { start = start; end = end.address }) a || same start a)))
unfolding insert
insert-member start end rs e h = (
  insert_sorted start end rs,
  ground arith,
  insert_sorted-IsSorted start end rs h,
  λ a. member-insert_sorted start end a rs,
)

-- Where a range starts inside an earlier one and ends before an address, `contains` does not see
-- that the earlier one still covers the address.
pub contains_overlap :
    (p r : AddressRange) (a : SectionAddress)
    → before p.start r.start ≡ true
    → before r.start a ≡ true
    → covers r a ≡ false
    → covers p a ≡ true
    → (contains (p ∷ (r ∷ [])) a ≡ false) × (member (p ∷ (r ∷ [])) a ≡ true)
unfolding contains contains_from member
contains_overlap p r a h k c d = ground arith
