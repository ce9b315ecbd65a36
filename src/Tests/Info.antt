-- ===== src/Tests/Info.antt =====
-- The measures and the linker's addresses of a concrete object.
use decomp_toolkit.Prelude.{◌^◌, ◌<◌, [], ◌∷◌, arith}
use decomp_toolkit.Obj.Kinds.{executable, power_pc}
use decomp_toolkit.Obj.Symbols.Table.{indexed}
use decomp_toolkit.Obj.Info.{ObjInfo, empty_info, sizes_where, common_sizes}
use decomp_toolkit.Obj.Info.Sizes.{total_size, sum}
use decomp_toolkit.Tests.Splits.{text_section, two_units}

abbrev info : ObjInfo
info = empty_info executable power_pc "main" (indexed executable []) (text_section two_units ∷ [])

info_size : total_size info < 2 ^ 32
unfolding total_size sum sizes_where common_sizes
info_size = omega arith
