-- ===== src/Analysis/Executor.antt =====
-- src/analysis/executor.rs: branched execution of a section's code that visits addresses once, with
-- `disassemble` of src/analysis/mod.rs. It is stated for every virtual machine `VM` with its `step`
-- (src/analysis/vm.rs has the one of the program), for the instruction decoder of the ppc750cl
-- crate, and for every callback, with the state `C` that its closure captures.
pub mod Run
pub mod Visits
pub mod Blocks
pub mod Marks
pub mod Returns
pub mod Keeps
use decomp_toolkit.Prelude.{
  ℕ, zero, suc, ◌+◌, ◌-◌, ◌*◌, ◌/◌, ◌%◌, ◌^◌, Bool, true, false, not, List, [], ◌∷◌, ◌++◌, Option,
  none, some, ltb, leb, if◌then◌else◌, length, get_elem?, set, replicate, drop, Result, ok, err,
  panic, ◌>>=◌, expect,
}
use decomp_toolkit.Obj.Kinds.{code, section_kind_eq}
use decomp_toolkit.Obj.Addresses.{SectionAddress, before}
use decomp_toolkit.Obj.Sections.{ObjSection, contains}
use decomp_toolkit.Util.Reader.{big, from_bytes_u32}

-- The error of the `ensure!` in `run`; `failed` is an error of the callback.
pub data ExecError : Type 0 where
  invalid_address failed : ExecError

abbrev pub Exec {ℓ} : Type ℓ → Type ℓ
Exec A = Result ExecError A

-- A `FixedBitSet` is the list of its bits.
abbrev pub VisitedAddresses : Type 0
VisitedAddresses = List (List Bool)

unfoldable pub bits_for : ObjSection → List Bool
bits_for s = if section_kind_eq s.kind code then replicate (s.size / 4) false else []

unfoldable pub new_visited : List ObjSection → VisitedAddresses
unfolding bits_for
new_visited [] = []
new_visited (s ∷ ss) = bits_for s ∷ new_visited ss

-- `address - section_address` panics below 0.
unfoldable pub bit_for : ℕ → ℕ → Exec ℕ
bit_for section_address address =
    if leb section_address address then ok ((address - section_address) / 4) else panic

abbrev pub bit_at : List Bool → ℕ → Bool
bit_at [] i = false
bit_at (b ∷ bits) zero = b
bit_at (b ∷ bits) (suc i) = bit_at bits i

-- `FixedBitSet::contains` is false past the end.
unfoldable pub is_visited : ℕ → SectionAddress → VisitedAddresses → Exec Bool
unfolding bit_for
is_visited section_address address inner = do
  bits ← expect (get_elem? inner address.section)
  bit ← bit_for section_address address.address
  ok (bit_at bits bit)

-- `FixedBitSet::insert` panics past the end.
abbrev pub set_bit : List Bool → ℕ → Exec (List Bool)
set_bit bits bit = if ltb bit (length bits) then ok (set bits bit true) else panic

unfoldable pub mark : ℕ → SectionAddress → VisitedAddresses → Exec VisitedAddresses
unfolding bit_for
mark section_address address inner = do
  bits ← expect (get_elem? inner address.section)
  bit ← bit_for section_address address.address
  marked ← set_bit bits bit
  ok (set inner address.section marked)

abbrev pub word_of : List ℕ → Option ℕ
word_of (a ∷ (b ∷ (c ∷ (d ∷ rest)))) = some (from_bytes_u32 big a b c d)
word_of _ = none

-- `read_u32` of src/analysis/mod.rs; `address - section.address` panics below 0.
unfoldable pub read_word : ObjSection → ℕ → Exec (Option ℕ)
read_word s address =
    if leb s.address address
    then if ltb (length s.bytes) (address - s.address + 4)
      then ok none
      else ok (word_of (drop (address - s.address) s.bytes))
    else panic

pub data ExecCbResult (R : Type 0) : Type 0 where
  continue : ExecCbResult R
  jump : SectionAddress → ExecCbResult R
  end_block : ExecCbResult R
  end : R → ExecCbResult R

module _ (VM : Type 0) where
  pub record VmState : Type 0 where
    pub vm : VM
    pub address : SectionAddress

  pub record Executor : Type 0 where
    pub vm_stack : List VmState
    pub visited : VisitedAddresses

  unfoldable pub new : List ObjSection → Executor
  unfolding new_visited
  new sections = record { vm_stack = []; visited = new_visited sections }

  -- `sort_by_key`, which is stable.
  unfoldable pub insert_state : VmState → List VmState → List VmState
  insert_state x [] = x ∷ []
  insert_state x (y ∷ ys) =
      if before y.address x.address then y ∷ insert_state x ys else x ∷ (y ∷ ys)

  unfoldable pub sort_states : List VmState → List VmState
  unfolding insert_state
  sort_states [] = []
  sort_states (x ∷ xs) = insert_state x (sort_states xs)

  unfoldable pub push : SectionAddress → VM → Bool → Executor → Executor
  unfolding sort_states
  push address vm sort e =
      let pushed = e.vm_stack ++ (record { vm = vm; address = address } ∷ []) in
      record e { vm_stack = if sort then sort_states pushed else pushed }

  -- `Vec::pop`
  abbrev pub pop : List VmState → Option (VmState × List VmState)
  pop [] = none
  pop (x ∷ []) = some (x, [])
  pop (x ∷ (y ∷ ys)) = elim (pop (y ∷ ys)) [ none ↦ none | some (top, rest) ↦ some (top, x ∷ rest) ]

-- The calls of `push` that a callback makes, in order.
pub record Push (VM : Type 0) : Type 0 where
  pub address : SectionAddress
  pub vm : VM
  pub sort : Bool

-- What a callback is given: the fields of `ExecCbData`, where `Res` is the result of a step.
pub record ExecCbData (VM Ins Res : Type 0) : Type 0 where
  pub executor : Executor VM
  pub vm : VM
  pub result : Res
  pub ins_addr : SectionAddress
  pub section : ObjSection
  pub ins : Ins
  pub block_start : SectionAddress

-- What it does: the fields of the executor are private, so that it can push but not change what is
-- visited.
pub record Answer (VM C R : Type 0) : Type 0 where
  pub captured : C
  pub vm : VM
  pub pushes : List (Push VM)
  pub result : Exec (ExecCbResult R)
