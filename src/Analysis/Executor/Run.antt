-- ===== src/Analysis/Executor/Run.antt =====
-- `Executor::run` of src/analysis/executor.rs. Its inner loop follows one block; its fuel is a bound
-- on the rounds that the section and the addresses left to visit allow. The outer loop takes states
-- from the stack, on fuel; `none` means that the fuel ran out.
use decomp_toolkit.Prelude.{
  ℕ, zero, suc, ◌+◌, ◌*◌, ◌%◌, ◌^◌, Bool, true, false, not, List, [], ◌∷◌, Option, none, some, ltb,
  if◌then◌else◌, length, get_elem?, ok, err, panic,
}
use decomp_toolkit.Obj.Kinds.{code, section_kind_eq}
use decomp_toolkit.Obj.Addresses.{SectionAddress}
use decomp_toolkit.Obj.Sections.{ObjSection, contains}
use decomp_toolkit.Analysis.Executor.{
  invalid_address, Exec, VisitedAddresses, is_visited, mark, read_word, ExecCbResult, continue,
  jump, end_block, end, VmState, Executor, pop, push, Push, ExecCbData, Answer,
}

-- The bits that are not set.
abbrev pub unset : List Bool → ℕ
unset [] = 0
unset (true ∷ bits) = unset bits
unset (false ∷ bits) = suc (unset bits)

abbrev pub unvisited : VisitedAddresses → ℕ
unvisited [] = 0
unvisited (bits ∷ inner) = unset bits + unvisited inner

-- The end of the section's data.
abbrev pub data_end : ObjSection → ℕ
data_end s = s.address + length s.bytes

abbrev pub block_fuel : ObjSection → VisitedAddresses → ℕ
block_fuel s visited = suc (unvisited visited * suc (data_end s) + suc (data_end s))

-- `return Ok(…)` out of the inner loop, or `break`.
pub data BlockEnd (R : Type 0) : Type 0 where
  broke : BlockEnd R
  returned : Option R → BlockEnd R

-- What the loops run: the virtual machine and its result of a step, the instructions, the state of
-- the closure and its final value, with the sections, the decoder, the step and the callback.
pub record Program : Type 1 where
  pub VM : Type 0
  pub Ins : Type 0
  pub Res : Type 0
  pub C : Type 0
  pub R : Type 0
  pub sections : List ObjSection
  pub decode : ℕ → Ins
  pub step : VM → SectionAddress → Ins → VM × Res
  pub cb : C → ExecCbData VM Ins Res → Answer VM C R

module _ (program : Program) where
  open program use {VM, C, R, sections, decode, step, cb}

  unfoldable pub push_all : List (Push VM) → Executor VM → Executor VM
  push_all [] e = e
  push_all (p ∷ ps) e = push_all ps (push VM p.address p.vm p.sort e)

  -- The variables of the inner loop.
  pub record Block : Type 0 where
    pub address : SectionAddress
    pub block_start : SectionAddress
    pub vm : VM
    pub executor : Executor VM
    pub captured : C

  -- A round leaves the loop or goes on.
  pub data Round : Type 0 where
    ended : Executor VM → C → Exec (BlockEnd R) → Round
    next : Block → Round

  -- The `match` on the callback's answer.
  unfoldable pub follow : ℕ → Block → ExecCbResult R → Round
  follow section_address b continue =
      if ltb ((b.address).address + 4) (2 ^ 32)
      then next (record b { address = record b.address { address = (b.address).address + 4 } })
      else ended b.executor b.captured panic
  follow section_address b (jump addr) =
      elim (is_visited section_address addr (b.executor).visited) [
        | ok true ↦ ended b.executor b.captured (ok broke)
        | ok false ↦ next (record b { address = addr; block_start = addr })
        | err e ↦ ended b.executor b.captured (err e)
        | panic ↦ ended b.executor b.captured panic
      ]
  follow section_address b end_block = ended b.executor b.captured (ok broke)
  follow section_address b (end result) = ended b.executor b.captured (ok (returned (some result)))

  unfoldable pub respond : ℕ → Block → Answer VM C R → Round
  unfolding follow push_all
  respond section_address b a =
      let executor = push_all a.pushes b.executor in
      elim a.result [
        | ok r ↦
            follow section_address
              (record b { vm = a.vm; executor = executor; captured = a.captured }) r
        | err e ↦ ended executor a.captured (err e)
        | panic ↦ ended executor a.captured panic
      ]

  -- The step, and the callback on its result.
  unfoldable pub answer : ObjSection → Block → ℕ → Answer VM C R
  answer s b word =
      let ins = decode word in
      let (vm, result) = step b.vm b.address ins in
      cb b.captured (record {
        executor = b.executor;
        vm = vm;
        result = result;
        ins_addr = b.address;
        section = s;
        ins = ins;
        block_start = b.block_start;
      })

  unfoldable pub execute : ObjSection → ℕ → Block → Round
  unfolding respond answer
  execute s section_address b = elim (read_word s (b.address).address) [
    | ok none ↦ ended b.executor b.captured (ok (returned none))
    | ok (some word) ↦ respond section_address b (answer s b word)
    | err e ↦ ended b.executor b.captured (err e)
    | panic ↦ ended b.executor b.captured panic
  ]

  unfoldable pub round : ObjSection → ℕ → Block → Round
  unfolding execute
  round s section_address b = elim (mark section_address b.address (b.executor).visited) [
    | ok visited ↦
        execute s section_address (record b { executor = record b.executor { visited = visited } })
    | err e ↦ ended b.executor b.captured (err e)
    | panic ↦ ended b.executor b.captured panic
  ]

  unfoldable pub block : ℕ → ObjSection → ℕ → Block → Option (Executor VM × C × Exec (BlockEnd R))
  unfolding round
  block zero s section_address b = none
  block (suc fuel) s section_address b = elim (round s section_address b) [
    | ended e c r ↦ some (e, c, r)
    | next b' ↦ block fuel s section_address b'
  ]

  -- What becomes of a state that is taken from the stack.
  pub data Entry : Type 0 where
    refused : Exec (Option R) → Entry
    skipped : Entry
    entered : ObjSection → Entry

  unfoldable pub enter : VmState VM → VisitedAddresses → Entry
  enter state visited = elim (get_elem? sections (state.address).section) [
    | none ↦ refused panic
    | some s ↦
        if not (contains s (state.address).address)
        then refused (err invalid_address)
        else if not (section_kind_eq s.kind code)
        then skipped
        else elim (is_visited (s.address % 2 ^ 32) state.address visited) [
          | ok true ↦ skipped
          | ok false ↦ entered s
          | err e ↦ refused (err e)
          | panic ↦ refused panic
        ]
  ]

  abbrev pub start : VmState VM → Executor VM → C → Block
  start state e c = record {
    address = state.address;
    block_start = state.address;
    vm = state.vm;
    executor = e;
    captured = c;
  }

  unfoldable pub run : ℕ → Executor VM → C → Option (Executor VM × C × Exec (Option R))
  unfolding enter block
  run zero e c = none
  run (suc fuel) e c = elim (pop VM e.vm_stack) [
    | none ↦ some (e, c, ok none)
    | some (state, rest) ↦
        let popped : Executor VM = record e { vm_stack = rest } in
        elim (enter state e.visited) [
          | refused r ↦ some (popped, c, r)
          | skipped ↦ run fuel popped c
          | entered s ↦
              elim (block (block_fuel s e.visited) s (s.address % 2 ^ 32) (start state popped c)) [
                | none ↦ none
                | some (e', c', ok broke) ↦ run fuel e' c'
                | some (e', c', ok (returned r)) ↦ some (e', c', ok r)
                | some (e', c', err x) ↦ some (e', c', err x)
                | some (e', c', panic) ↦ some (e', c', panic)
              ]
        ]
  ]
