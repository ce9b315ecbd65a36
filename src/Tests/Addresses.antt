-- ===== src/Tests/Addresses.antt =====
-- The properties of the address ranges at concrete ranges.
use decomp_toolkit.Prelude.{ℕ, arith, ◌≡◌, refl, ◌||◌, [], ◌∷◌, ok}
use decomp_toolkit.Obj.Addresses.{SectionAddress, same, AddressRange, AddressRanges, covers, insert}
use decomp_toolkit.Obj.Addresses.Ranges.{IsSorted, IsDisjoint, member, insert-member}

abbrev at : ℕ → SectionAddress
at address = record { section = 1; address = address }

abbrev low : AddressRange
low = record { start = at 16; end = 32 }

abbrev high : AddressRange
high = record { start = at 48; end = 64 }

abbrev nested : AddressRange
nested = record { start = at 20; end = 24 }

abbrev two : AddressRanges
two = low ∷ (high ∷ [])

two-IsSorted : IsSorted two
two-IsSorted = ((refl, tt), (tt, tt))

two-IsDisjoint : IsDisjoint two
two-IsDisjoint = (((λ e. omega arith), tt), (tt, tt))

insert-member_example :
    (rs' : AddressRanges) × (insert (at 36) (at 40) two ≡ ok rs')
    × IsSorted rs'
    × ((a : SectionAddress)
        → member rs' a
          ≡ (member two a || (covers (record { start = at 36; end = 40 }) a || same (at 36) a)))
insert-member_example = insert-member (at 36) (at 40) two refl two-IsSorted
