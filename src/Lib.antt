-- ===== src/Lib.antt =====
-- decomp-toolkit takes GameCube and Wii executables apart into objects that can be linked again.
-- Its commands load an image into the object model of src/obj, let the analyses fill in symbols,
-- relocations and splits, and write objects, assembly and linker scripts from it. This library
-- models the object model, which all other parts read and change, and the binary formats beneath.
--
-- Obj/Kinds, Obj/Addresses, Obj/Relocations: the enums of src/obj, `AddressRanges` with the
--   `SectionAddress` of src/analysis/cfa.rs, and src/obj/relocations.rs. The ELF relocation numbers
--   of the `object` crate are the parameter `ElfTypes`.
-- Obj/Symbols: src/obj/symbols.rs. Flags has the flag set, a test on flags; Symbol has `ObjSymbol`,
--   with the name tests of src/util/config.rs and src/util/split.rs; Table has `ObjSymbols`: the
--   vector of symbols and its indexes by address, by name and by section and address; Add has
--   `ObjSymbols::add`, which merges a symbol into one at the same place or appends it; Relocation
--   has `best_match_for_reloc` and `for_relocation`. Table/Indexes states what exact indexes are.
-- Obj/Splits, Obj/Sections, Obj/Alignment: src/obj/splits.rs and src/obj/sections.rs. A section holds
--   its relocations and splits; the alignment of a split reads the symbols in it.
-- Obj/AddSplit, Obj/Info: src/obj/mod.rs. AddSplit has `ObjInfo::add_split`, which extends the split
--   of a unit over its neighbours; its recursion is on fuel. Info has `ObjInfo` and its other methods.
-- Analysis/Executor: src/analysis/executor.rs, which runs a virtual machine over branching code and
--   visits addresses once. Run has the loops of `Executor::run`; the inner one is given as many rounds
--   as the addresses left to visit allow, the outer one is on fuel. The virtual machine, its `step`,
--   the instruction decoder of the ppc750cl crate and the callback are parameters: what is shown of
--   the loops does not depend on them.
-- Analysis/Vm: the register machine of src/analysis/vm.rs, in parts. Vm has `GprValue` and the state,
--   the compare arm of `VM::step`, `split_values_by_crb` and the machines of a conditional branch;
--   Integers has the arms for `add`, `addis`, `addi`, `addic`, `subf`, `subfic`, `ori` and `or`;
--   Rotate those for `rlwinm` and `rlwnm`; Clones the machines kept over a call. The fields of an
--   instruction, which the ppc750cl crate decodes, and what `relocation_target_for` answers are
--   arguments. `Holds` says what the machine's knowledge means: a register that is known as a
--   constant or by a range has such a word, other knowledge does not bound it.
-- Util/Nested, Util/Reader, Util/Comment: src/util/nested.rs, src/util/reader.rs and
--   src/util/comment.rs, the CodeWarrior `.comment` section made from symbols.
-- Util/Rel: src/util/rel.rs, relocatable modules. Rel has the records of the format, Relocs the loop
--   of `process_rel` over a relocation table, Order the sort of `write_rel` and the relocations that
--   it leaves out, Layout its `do_relocation_layout`, and Tables the import table in front of the
--   relocations or behind them, written and read; Alignment has `update_rel_section_alignment`. The
--   ELF relocation numbers and the sections of the ELF file, which come from the `object` crate, are
--   the parameters `RelTypes` and `permitted`.
-- Util/U8Arc, Vfs/U8Arc: src/util/u8_arc.rs, the view of a U8 archive and the search for a path in
--   it, and src/vfs/u8_arc.rs, the archive as a file system. Layout says how a directory tree lies in
--   the node table. Paths and names are lists of bytes; the search and the listing are on rounds,
--   since a damaged archive can make them go on for ever.
-- Util/Split: src/util/split.rs, the passes of `update_splits`, and `has_vftable_locator` of
--   src/util/coff.rs. Split has `end_for_section` and `validate_splits`; Comdat has the end of a gap
--   and Gaps the loop of `create_gap_splits` over one section, which Creates runs over all of them
--   and hands on to `add_split`; Updates has `trim_linker_generated_symbols` and
--   `update_common_splits`; Boundaries and Truncate have `truncate_autogen_symbols_at_splits`;
--   Padding has `add_padding_symbols`; Edges and LinkOrder have `resolve_link_order`, less its
--   warnings, with the topological sort as a parameter, which returns an order or a cycle. The names
--   of new units and symbols, which the format macro makes, are the parameters `UnitName` and `Names`.
-- Prelude: results that are a value, an error or a panic; lists; ordered and hashed maps.
-- Tests: instances of the theorems at concrete inputs.
--
-- Machine integers are natural numbers. An `as u32` is written out as a remainder; sums of `u32` and
-- the `debug_assert!`s are checked as a debug build does, with a panic; sums of `u64` addresses do
-- not reach 2^64 and are plain. An index past the end of a vector is a panic. A method that changes
-- its object returns the new object beside its result, so that what an early return leaves behind
-- is visible. A `BTreeMap` is an association list in ascending order of keys, a `HashMap` an
-- association list, an iterator the list that it yields. A loop over a list needs no fuel. On rounds,
-- with no result where they do not suffice, are: `add_split`, which calls itself: one more than the
-- splits of the section is enough, where they end behind their starts; `Executor::run`, which some
-- number is always enough for; the search in a U8 archive, two more than its nodes where every
-- directory ends behind itself; `end_for_section`, one more than the address of the end; the loop
-- of `create_gap_splits`, one more than the bytes and the explicit splits left; the loop that breaks
-- the cycles of the link order, one more than its edges; and the loops over the tables of a module,
-- of which every entry takes eight bytes of the file. The theorems on the symbol table suppose at
-- most 2^32 symbols, which `SymbolIndex` can count.
--
-- Not modelled: logging, mutable iterators and borrows, the text references of `by_ref`, the arms
-- of `VM::step` for loads, stores, special registers and the targets of branches, the other analyses
-- of src/analysis, the splits of constructor and exception tables and `split_obj` of
-- src/util/split.rs, the section data, the symbols and the applied relocations of modules in
-- src/util/rel.rs, the formats and generators in the rest of src/util, the other file systems of
-- src/vfs and the commands of src/cmd. src/util/nlzss.rs, src/util/take_seek.rs and
-- src/util/toposort.rs are taken from other projects.
pub mod Prelude
pub mod Util
pub mod Obj
pub mod Analysis
pub mod Vfs
mod Tests
