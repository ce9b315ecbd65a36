-- ===== src/Tests/Executor.antt =====
-- Runs of the executor over two instructions.
use decomp_toolkit.Prelude.{
  ℕ, ◌+◌, ◌≡◌, refl, true, false, [], ◌∷◌, Option, none, some, ◌==◌, if◌then◌else◌, ok,
}
use decomp_toolkit.Obj.Kinds.{code}
use decomp_toolkit.Obj.Addresses.{SectionAddress}
use decomp_toolkit.Obj.Sections.{ObjSection, contains}
use decomp_toolkit.Analysis.Executor.{
  Exec, is_visited, mark, read_word, continue, jump, Executor, ExecCbData, Answer, push,
}
use decomp_toolkit.Analysis.Executor.Run.{Program, run}
use decomp_toolkit.Analysis.Executor.Returns.{run_returns}

abbrev code_section : ObjSection
code_section = record {
  name = ".text";
  kind = code;
  address = 4096;
  size = 8;
  bytes = 0 ∷ 0 ∷ 0 ∷ 1 ∷ 0 ∷ 0 ∷ 0 ∷ 2 ∷ [];
  align = 4;
  elf_index = 1;
  relocations = [];
  virtual_address = none;
  file_offset = 256;
  section_known = true;
  splits = [];
  sub_regions = [];
}

abbrev at_text : ℕ → SectionAddress
at_text address = record { section = 0; address = address }

-- The first instruction goes on, the second jumps back to it, and both are counted.
abbrev back_and_forth : ℕ → ExecCbData (Unit {0}) ℕ (Unit {0}) → Answer (Unit {0}) ℕ ℕ
back_and_forth count given = record {
  captured = count + 1;
  vm = tt;
  pushes = record { address = at_text 4100; vm = tt; sort = true } ∷ [];
  result = ok (if given.ins == 1 then continue else jump (at_text 4096));
}

abbrev program : Program
program = record {
  VM = Unit {0};
  Ins = ℕ;
  Res = Unit {0};
  C = ℕ;
  R = ℕ;
  sections = code_section ∷ [];
  decode = λ word. word;
  step = λ vm a ins. (vm, tt);
  cb = back_and_forth;
}

abbrev at_first : Executor (Unit {0})
at_first = record {
  vm_stack = record { vm = tt; address = at_text 4096 } ∷ [];
  visited = (false ∷ false ∷ []) ∷ [];
}

abbrev halfway : Executor (Unit {0})
halfway = record {
  vm_stack = record { vm = tt; address = at_text 4096 } ∷ [];
  visited = (false ∷ true ∷ []) ∷ [];
}

abbrev all_visited : Executor (Unit {0})
all_visited = record { vm_stack = []; visited = (true ∷ true ∷ []) ∷ [] }

halfway_result : run program 4 halfway 0 ≡ some (all_visited, 2, ok none)
unfolding run contains is_visited mark read_word push
halfway_result = refl

run_returns_example :
    (fuel : ℕ) × (e' : Executor (Unit {0})) × (c' : ℕ) × (r : Exec (Option ℕ)) × (run program fuel
        at_first 0
      ≡ some (e', c', r))
run_returns_example = run_returns program at_first 0
