-- ===== src/Util/Split/Ends.antt =====
-- The end of a section without the objects that the linker has generated is always found.
use decomp_toolkit.Obj.Sections
