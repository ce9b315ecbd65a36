-- ===== src/Obj/Addresses.antt =====
-- src/obj/addresses.rs, and the `SectionAddress` of src/analysis/cfa.rs that it orders by.
-- A `Vec` of ranges is a list; `binary_search_by_key` returns `Ok` of the position of an equal key
-- or `Err` of the position where the key belongs, which on a vector sorted by strictly ascending
-- keys is the number of smaller keys.
pub mod Ranges
use decomp_toolkit.Prelude.{
  ℕ, suc, ◌+◌, ◌-◌, ◌*◌, ◌/◌, ◌%◌, ◌^◌, ◌<◌, max, bit_and, Bool, true, false, ◌&&◌, ◌||◌, List, [],
  ◌∷◌, Option, none, some, ltb, leb, ◌==◌, if◌then◌else◌, Result, ok, panic,
}

pub record SectionAddress : Type 0 where
  pub section : ℕ
  pub address : ℕ

-- The derived `Ord`: by section, then by address.
abbrev pub before : SectionAddress → SectionAddress → Bool
before a b = if a.section == b.section then ltb a.address b.address else ltb a.section b.section

abbrev pub same : SectionAddress → SectionAddress → Bool
same a b = a.section == b.section && a.address == b.address

-- `u32::wrapping_add`
unfoldable pub wrapping_add : SectionAddress → ℕ → SectionAddress
wrapping_add a rhs = record a { address = (a.address + rhs) % 2 ^ 32 }

-- An `i32` offset is its bit pattern, which `wrapping_add_signed` adds modulo 2^32.
unfoldable pub offset : SectionAddress → ℕ → SectionAddress
offset a pattern = record a { address = (a.address + pattern) % 2 ^ 32 }

-- `impl Add<u32>` and `impl Sub<u32>`: a debug build panics where the result leaves `u32`.
unfoldable pub add : SectionAddress → ℕ → Result (Unit {0}) SectionAddress
add a rhs =
    if ltb (a.address + rhs) (2 ^ 32) then ok (record a { address = a.address + rhs }) else panic

unfoldable pub sub : SectionAddress → ℕ → Result (Unit {0}) SectionAddress
sub a rhs = if leb rhs a.address then ok (record a { address = a.address - rhs }) else panic

-- `!(align - 1)` is the 32-bit complement; a debug build panics where `align` is 0 or the sum
-- leaves `u32`.
unfoldable pub align_up : SectionAddress → ℕ → Result (Unit {0}) SectionAddress
align_up a align =
    if align == 0 || leb (2 ^ 32) (a.address + align)
    then panic
    else ok (record a { address = bit_and (a.address + align - 1) (2 ^ 32 - align) })

unfoldable pub align_down : SectionAddress → ℕ → Result (Unit {0}) SectionAddress
align_down a align =
    if align == 0 then panic else ok (record a { address = bit_and a.address (2 ^ 32 - align) })

unfoldable pub is_aligned : SectionAddress → ℕ → Result (Unit {0}) Bool
is_aligned a align = if align == 0 then panic else ok (bit_and a.address (align - 1) == 0)

pub record AddressRange : Type 0 where
  pub start : SectionAddress
  pub end : ℕ

abbrev pub AddressRanges : Type 0
AddressRanges = List AddressRange

unfoldable pub new : AddressRanges
new = []

-- On `Ok(pos)` the end is raised; on `Err(pos)` a range is inserted there.
unfoldable pub insert_sorted : SectionAddress → SectionAddress → AddressRanges → AddressRanges
insert_sorted start end [] = record { start = start; end = end.address } ∷ []
insert_sorted start end (r ∷ rs) =
    if same r.start start
    then record r { end = max end.address r.end } ∷ rs
    else if before r.start start
    then r ∷ insert_sorted start end rs
    else record { start = start; end = end.address } ∷ (r ∷ rs)

-- A debug build panics where start and end are in different sections.
unfoldable pub insert :
    SectionAddress → SectionAddress → AddressRanges → Result (Unit {0}) AddressRanges
insert start end rs =
    if start.section == end.section then ok (insert_sorted start end rs) else panic

-- Whether the range before the position of `address`, if any, covers it.
abbrev pub covers : AddressRange → SectionAddress → Bool
covers r a = r.start.section == a.section && leb r.start.address a.address && ltb a.address r.end

-- `previous` is the last range already passed, the one at `pos - 1`.
unfoldable pub contains_from : Option AddressRange → AddressRanges → SectionAddress → Bool
contains_from previous [] a = elim previous [ none ↦ false | some p ↦ covers p a ]
contains_from previous (r ∷ rs) a =
    if same r.start a
    then true
    else if before r.start a
    then contains_from (some r) rs a
    else elim previous [ none ↦ false | some p ↦ covers p a ]

unfoldable pub contains : AddressRanges → SectionAddress → Bool
unfolding contains_from
contains ranges a = contains_from none ranges a
