-- ===== src/Util.antt =====
-- The parts of src/util.
pub mod Nested
pub mod Reader
pub mod Comment
pub mod U8Arc
pub mod Split
pub mod Rel
