-- ===== src/Util/U8Arc/Bounds.antt =====
-- What `U8View::new` has checked of the buffer.
use decomp_toolkit.Prelude.{
  ℕ, zero, suc, ◌+◌, ◌-◌, ◌*◌, ◌≤◌, ◌≡◌, refl, Bool, true, false, ◌&&◌, List, [], ◌∷◌, some, leb,
  ◌==◌, length, bytes_eq, take, drop, Result, ok, err, panic, arith, Bool-cases, Option-cases,
  Result-cases, inl, inr,
}
use decomp_toolkit.Util.Reader.{Reader, read_vec, ErrorKind}
use decomp_toolkit.Util.U8Arc.{
  U8Header, U8Node, U8View, U8Error, is_dir, read_header, read_node, is_aligned, value_of, slice,
  split_at, tables, new, u8_magic,
}

-- The tables of a view fill the part of the buffer that the header names; an error says nothing, and
-- there is no panic.
abbrev pub Fits : List ℕ → Result U8Error U8View → Type 0
Fits buf (ok v) =
    (v.header.node_table_offset + v.header.node_table_size ≤ length buf)
    × (length v.nodes * 12 + length v.string_table ≡ v.header.node_table_size)
Fits buf (err e) = Unit
Fits buf panic = ⊥

length-take : (n : ℕ) (xs : List ℕ) → n ≤ length xs → length (take n xs) ≡ n
length-take zero xs h = refl
length-take (suc n) [] h = absurd (omega arith)
length-take (suc n) (x ∷ xs) h = omega (arith, length-take n xs (omega arith))

length-drop : (n : ℕ) (xs : List ℕ) → n ≤ length xs → length (drop n xs) + n ≡ length xs
length-drop zero xs h = omega arith
length-drop (suc n) [] h = absurd (omega arith)
length-drop (suc n) (x ∷ xs) h = omega (arith, length-drop n xs (omega arith))

length-read_vec :
    {A : Type 0} (read : Reader A) (count : ℕ) (bs : List ℕ) {xs : List A} {rest : List ℕ}
    → read_vec read count bs ≡ ok (xs, rest)
    → length xs ≡ count
unfolding read_vec
length-read_vec read zero bs h = ground arith
length-read_vec read (suc count) bs h = elim (Result-cases (read bs)) [
  | inl ((x, more), e) ↦ elim (Result-cases (read_vec read count more)) [
    | inl ((ys, left), e') ↦ ground (arith, length-read_vec read count more e')
    | inr (inl (k, e')) ↦ absurd (ground arith)
    | inr (inr e') ↦ absurd (ground arith)
  ]
  | inr (inl (k, e)) ↦ absurd (ground arith)
  | inr (inr e) ↦ absurd (ground arith)
]

length-slice :
    (from to : ℕ) (bs : List ℕ) {part : List ℕ}
    → slice from to bs ≡ some part
    → (to ≤ length bs) × (length part + from ≡ to)
unfolding slice
length-slice from to bs h = elim (Bool-cases (leb from to && leb to (length bs))) [
  | inl e ↦ ground (arith, length-drop from bs, length-take (to - from) (drop from bs))
  | inr e ↦ absurd (ground arith)
]

value_of-some :
    {A B : Type 0} (aligned : Bool) (r : Result ErrorKind (A × B)) {a : A}
    → value_of aligned r ≡ some a
    → (b : B) × (r ≡ ok (a, b))
value_of-some true (ok (x, b)) h = (b, cc)
value_of-some true (err e) h = absurd (cc)
value_of-some true panic h = absurd (cc)
value_of-some false r h = absurd (cc)

tables-Fits :
    (base : ℕ) (header : U8Header) (buf nodes_buf : List ℕ) (root : U8Node)
    → header.node_table_offset + header.node_table_size ≤ length buf
    → length nodes_buf ≡ header.node_table_size
    → Fits buf (tables base header nodes_buf root)
unfolding tables split_at
tables-Fits base header buf nodes_buf root inside e =
    elim (Bool-cases (leb (root.length * 12) header.node_table_size)) [
      | inr f ↦ rw f tt
      | inl t ↦
          let enough : leb (root.length * 12) (length nodes_buf) ≡ true = (ground arith) in
          let parsed =
            value_of (is_aligned base header.node_table_offset)
              (read_vec read_node root.length (take (root.length * 12) nodes_buf)) in
          elim (Option-cases parsed) [
            | inl n ↦ rw (t, enough, n) tt
            | inr (nodes, s) ↦
                let (rest, r) =
                  value_of-some (is_aligned base header.node_table_offset)
                    (read_vec read_node root.length (take (root.length * 12) nodes_buf)) s in
                let count =
                  length-read_vec read_node root.length (take (root.length * 12) nodes_buf) r in
                let left = length-drop (root.length * 12) nodes_buf (ground arith) in
                rw (t, enough, s) (inside, omega arith)
          ]
    ]

-- For any buffer at any address, `U8View::new` returns a view or an error without a panic, and of a
-- view the node table lies in the buffer at the place and of the size that the header names, and
-- the nodes and the string table fill it.
pub new-Fits : (base : ℕ) (buf : List ℕ) → Fits buf (new base buf)
unfolding new
new-Fits base buf = elim (Option-cases (value_of (is_aligned base 0) (read_header buf))) [
  | inl n ↦ rw n tt
  | inr (header, s) ↦ elim (Bool-cases (bytes_eq header.magic u8_magic)) [
    | inr f ↦ rw (s, f) tt
    | inl t ↦
        let from = header.node_table_offset in
        elim (Option-cases (slice from (from + header.node_table_size) buf)) [
          | inl n ↦ rw (s, t, n) tt
          | inr (nodes_buf, s') ↦
              elim (Option-cases (value_of (is_aligned base from) (read_node nodes_buf))) [
                | inl n ↦ rw (s, t, s', n) tt
                | inr (root, s'') ↦ elim (Bool-cases (is_dir root)) [
                  | inr f ↦ rw (s, t, s', s'', f) tt
                  | inl d ↦ elim (Bool-cases (root.offset == 0)) [
                    | inr f ↦ rw (s, t, s', s'', d, f) tt
                    | inl o ↦
                        let (inside, l) =
                          length-slice from (from + header.node_table_size) buf s' in
                        rw (s, t, s', s'', d, o)
                          (tables-Fits base header buf nodes_buf root inside (omega arith))
                  ]
                ]
              ]
        ]
  ]
]
