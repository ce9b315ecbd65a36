-- ===== src/Obj.antt =====
-- The object model of src/obj.
pub mod Kinds
pub mod Addresses
pub mod Relocations
pub mod Symbols
pub mod Splits
pub mod Sections
pub mod Alignment
pub mod AddSplit
pub mod Info
