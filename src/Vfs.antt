-- ===== src/Vfs.antt =====
-- The virtual file systems of src/vfs.
pub mod U8Arc
