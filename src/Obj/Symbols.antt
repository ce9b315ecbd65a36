-- ===== src/Obj/Symbols.antt =====
-- src/obj/symbols.rs: symbols, their flags, and the table of symbols with its three indexes.
pub mod Flags
pub mod Symbol
pub mod Table
pub mod Ranges
pub mod Add
pub mod Relocation
