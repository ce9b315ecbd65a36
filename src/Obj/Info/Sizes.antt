-- ===== src/Obj/Info/Sizes.antt =====
-- The sizes of code and data.
use decomp_toolkit.Prelude.{
  ℕ, ◌+◌, ◌^◌, ◌<◌, ◌≡◌, refl, not, List, [], ◌∷◌, ◌++◌, map, ok, arith, Bool-cases, inl, inr,
}
use decomp_toolkit.Obj.Sections.{ObjSection}
use decomp_toolkit.Obj.Symbols.Table.{u32}
use decomp_toolkit.Obj.Info.{
  ObjInfo, sum_u32, sizes_where, common_sizes, is_code, code_size, data_size,
}

unfoldable pub sum : List ℕ → ℕ
sum [] = 0
sum (n ∷ ns) = n + sum ns

-- The sizes of all sections and of the common symbols, without a bound.
unfoldable pub total_size : ObjInfo → ℕ
unfolding sum sizes_where common_sizes
total_size o =
    sum (map (λ (s : ObjSection). u32 s.size) o.sections.sections)
    + sum (common_sizes o.symbols.symbols)

sum-append : (xs ys : List ℕ) → sum (xs ++ ys) ≡ sum xs + sum ys
unfolding sum
sum-append [] ys = omega arith
sum-append (x ∷ xs) ys = omega (arith, sum-append xs ys)

sum_u32_lem :
    (start : ℕ) (ns : List ℕ) → start + sum ns < 2 ^ 32 → sum_u32 start ns ≡ ok (start + sum ns)
unfolding sum_u32 sum
sum_u32_lem start [] h = ground arith
sum_u32_lem start (n ∷ ns) h = ground (arith, sum_u32_lem (start + n) ns)

sizes_where-partition :
    (ss : List ObjSection)
    → sum (sizes_where is_code ss) + sum (sizes_where (λ s. not (is_code s)) ss)
      ≡ sum (map (λ (s : ObjSection). u32 s.size) ss)
unfolding sizes_where sum
sizes_where-partition [] = refl
sizes_where-partition (s ∷ ss) = elim (Bool-cases (is_code s)) [
  | inl t ↦ rw t (omega (arith, sizes_where-partition ss))
  | inr f ↦ rw f (omega (arith, sizes_where-partition ss))
]

-- Where all sections and common symbols together have less than 2^32 bytes, both sizes are found
-- without a panic, and each section and common symbol is counted once, in one of them.
pub code_size-data_size :
    (o : ObjInfo)
    → total_size o < 2 ^ 32
    → (c : ℕ) × (d : ℕ) × (code_size o ≡ ok c) × (data_size o ≡ ok d) × (c + d ≡ total_size o)
unfolding code_size data_size total_size
code_size-data_size o h =
    let ss = o.sections.sections in
    let code = sizes_where is_code ss in
    let other = sizes_where (λ s. not (is_code s)) ss in
    let common = common_sizes o.symbols.symbols in
    let parts = sizes_where-partition ss in
    let joined = sum-append other common in
    (
      0 + sum code,
      0 + sum (other ++ common),
      sum_u32_lem 0 code (omega arith),
      sum_u32_lem 0 (other ++ common) (omega arith),
      omega arith,
    )
