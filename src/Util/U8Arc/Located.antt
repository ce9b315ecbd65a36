-- ===== src/Util/U8Arc/Located.antt =====
-- The search finds what a path names in the tree that the archive holds.
use decomp_toolkit.Prelude.{
  ℕ, zero, suc, ◌+◌, ◌≤◌, ◌≡◌, refl, ◌∙◌, Bool, true, false, List, [], ◌∷◌, Option, none, some,
  get_elem?, ok, arith, Bool-cases, inl, inr,
}
use decomp_toolkit.Util.U8Arc.{
  U8Node, U8View, eq_ignore_ascii_case, split_path, is_empty, next_non_empty, is_past, find_loop,
  find,
}
use decomp_toolkit.Util.U8Arc.Layout.{
  Forest, nil, file, dir, size, IsNode, Laid, parts_of, locate, next_non_empty_cases,
  size_of_locate, RunsTo, is_past-RunsTo, RunsTo-le, step_file, step_dir, step_enter, step_last,
  again_lem, done_lem,
}

-- The loop finds the node at the index.
abbrev pub Finds :
    ℕ → (List ℕ → List ℕ) → U8View → ℕ → Option ℕ → List ℕ → List (List ℕ) → ℕ → Type 0
Finds rounds lossy v idx stop part split j =
    (node : U8Node) × (get_elem? v.nodes j ≡ some node)
    × (find_loop rounds lossy v idx stop part split ≡ some (some (j, node)))

Finds-again :
    (rounds : ℕ) (lossy : List ℕ → List ℕ) (v : U8View) (idx idx' : ℕ) (stop stop' : Option ℕ)
    (part part' : List ℕ) (split split' : List (List ℕ)) (j : ℕ)
    → find_loop (suc rounds) lossy v idx stop part split
      ≡ find_loop rounds lossy v idx' stop' part' split'
    → Finds rounds lossy v idx' stop' part' split' j
    → Finds (suc rounds) lossy v idx stop part split j
Finds-again rounds lossy v idx idx' stop stop' part part' split split' j e (node, g, found) =
    (node, g, e ∙ found)

locate_file :
    (name part : List ℕ) (rest : Forest) (idx j : ℕ) (parts : List (List ℕ))
    → eq_ignore_ascii_case name part ≡ true
    → locate (file name rest) idx part parts ≡ some j
    → (parts ≡ []) × (idx ≡ j)
locate_file name part rest idx j [] same h =
    let e : some idx ≡ some j = (rw same at h) in (refl, cc)
locate_file name part rest idx j (next ∷ more) same h =
    let e : none ≡ some j = (rw same at h) in absurd (cc e)

-- Behind an entry of another name.
locate_file_other :
    (name part : List ℕ) (rest : Forest) (idx j : ℕ) (parts : List (List ℕ))
    → eq_ignore_ascii_case name part ≡ false
    → locate (file name rest) idx part parts ≡ some j
    → locate rest (idx + 1) part parts ≡ some j
locate_file_other name part rest idx j parts other h = rw other at h

locate_dir_other :
    (name part : List ℕ) (kids rest : Forest) (idx j : ℕ) (parts : List (List ℕ))
    → eq_ignore_ascii_case name part ≡ false
    → locate (dir name kids rest) idx part parts ≡ some j
    → locate rest (idx + 1 + size kids) part parts ≡ some j
locate_dir_other name part kids rest idx j [] other h = rw other at h
locate_dir_other name part kids rest idx j (next ∷ more) other h = rw other at h

locate_dir_last :
    (name part : List ℕ) (kids rest : Forest) (idx j : ℕ)
    → eq_ignore_ascii_case name part ≡ true
    → locate (dir name kids rest) idx part [] ≡ some j
    → idx ≡ j
locate_dir_last name part kids rest idx j same h = let e : some idx ≡ some j = (rw same at h) in cc

locate_dir_below :
    (name part next : List ℕ) (more : List (List ℕ)) (kids rest : Forest) (idx j : ℕ)
    → eq_ignore_ascii_case name part ≡ true
    → locate (dir name kids rest) idx part (next ∷ more) ≡ some j
    → locate kids (idx + 1) next more ≡ some j
locate_dir_below name part next more kids rest idx j same h = rw same at h

-- The last part of the path is found.
Finds-last :
    (rounds : ℕ) (lossy : List ℕ → List ℕ) (v : U8View) (idx j : ℕ) (stop : Option ℕ)
    (part name : List ℕ) (split : List (List ℕ)) (d : Bool) (node : U8Node)
    → IsNode lossy v idx name d node
    → eq_ignore_ascii_case name part ≡ true
    → is_empty (next_non_empty split).0 ≡ true
    → idx ≡ j
    → Finds (suc rounds) lossy v idx stop part split j
Finds-last rounds lossy v idx j stop part name split d node n same last e = rw (← e) (
  node,
  n.0,
  done_lem rounds lossy v idx stop part split (some (idx, node))
      (step_last lossy v idx name d node stop part split n same last),
)

find_loop-locate :
    (f : Forest) (rounds : ℕ) (lossy : List ℕ → List ℕ) (v : U8View) (idx : ℕ) (stop : Option ℕ)
    (part : List ℕ) (split : List (List ℕ)) (j : ℕ)
    → Laid lossy v idx f
    → RunsTo stop (idx + size f)
    → size f ≤ rounds
    → locate f idx part (parts_of split) ≡ some j
    → Finds rounds lossy v idx stop part split j
find_loop-locate nil rounds lossy v idx stop part split j laid run enough h = absurd (cc h)
find_loop-locate (file name rest) zero lossy v idx stop part split j laid run enough h =
    absurd (omega arith)
find_loop-locate (file name rest) (suc rounds) lossy v idx stop part split j ((node, n), laid) run
      enough h =
    elim (Bool-cases (eq_ignore_ascii_case name part)) [
      | inl same ↦
          let (last, e) = locate_file name part rest idx j (parts_of split) same h in
          elim (next_non_empty_cases split) [
            | inl (none_left, last') ↦
                Finds-last rounds lossy v idx j stop part name split false node n same last' e
            | inr (some_left, more) ↦ absurd (cc)
          ]
      | inr other ↦
          let h' = locate_file_other name part rest idx j (parts_of split) other h in
          let past : is_past stop (idx + 1) ≡ false =
            (is_past-RunsTo stop (idx + 1) (idx + size (file name rest)) run
              (omega (arith, size_of_locate rest (idx + 1) j part (parts_of split) h'))) in
          Finds-again rounds lossy v idx (idx + 1) stop stop part part split split j
            (again_lem rounds lossy v idx (idx + 1) stop stop part part split split
              (step_file lossy v idx name node stop part split n other past))
            (find_loop-locate rest rounds lossy v (idx + 1) stop part split j laid
              (RunsTo-le stop (idx + size (file name rest)) (idx + 1 + size rest) run (omega arith))
              (omega arith) h')
    ]
find_loop-locate (dir name kids rest) zero lossy v idx stop part split j laid run enough h =
    absurd (omega arith)
find_loop-locate (dir name kids rest) (suc rounds) lossy v idx stop part split j
      ((node, n, l), below, behind) run enough h =
    elim (Bool-cases (eq_ignore_ascii_case name part)) [
      | inl same ↦ elim (next_non_empty_cases split) [
        | inl (none_left, last) ↦
            Finds-last rounds lossy v idx j stop part name split true node n same last
              (locate_dir_last name part kids rest idx j same (rw none_left at h))
        | inr (some_left, more) ↦
            let next = (next_non_empty split).0 in
            let split' = (next_non_empty split).1 in
            let stop' = some (node.length + (idx + 1)) in
            let h' =
              locate_dir_below name part next (parts_of split') kids rest idx j same
                (rw some_left at h) in
            Finds-again rounds lossy v idx (idx + 1) stop stop' part next split split' j
              (again_lem rounds lossy v idx (idx + 1) stop stop' part next split split'
                (step_enter lossy v idx name node stop part split n same more (omega arith)))
              (find_loop-locate kids rounds lossy v (idx + 1) stop' next split' j below
                (omega arith) (omega arith) h')
      ]
      | inr other ↦
          let to = idx + 1 + size kids in
          let h' = locate_dir_other name part kids rest idx j (parts_of split) other h in
          let past : is_past stop to ≡ false =
            (is_past-RunsTo stop to (idx + size (dir name kids rest)) run
              (omega (arith, size_of_locate rest to j part (parts_of split) h'))) in
          Finds-again rounds lossy v idx to stop stop part part split split j
            (again_lem rounds lossy v idx to stop stop part part split split
              (step_dir lossy v idx to name node stop part split n l other past))
            (find_loop-locate rest rounds lossy v to stop part split j behind
              (RunsTo-le stop (idx + size (dir name kids rest)) (to + size rest) run (omega arith))
              (omega arith) h')
    ]

-- In an archive whose nodes hold a directory tree behind the root, the search for a path that names
-- an entry of the tree returns the index and the node of the entry, in no more rounds than the tree
-- has entries; of entries with one name the path names the first.
pub find-locate :
    (f : Forest) (lossy : List ℕ → List ℕ) (v : U8View) (path part : List ℕ) (parts : List (List ℕ))
    (j rounds : ℕ)
    → Laid lossy v 1 f
    → size f ≤ rounds
    → parts_of (split_path path) ≡ part ∷ parts
    → locate f 1 part parts ≡ some j
    → (node : U8Node) × (get_elem? v.nodes j ≡ some node)
      × (find rounds lossy v path ≡ some (ok (some (j, node))))
unfolding find
find-locate f lossy v path part parts j rounds laid enough e h =
    elim (next_non_empty_cases (split_path path)) [
      | inl (none_left, last) ↦ absurd (cc)
      | inr (some_left, more) ↦
          let (first, rest) = next_non_empty (split_path path) in
          let same : part ≡ first = (cc) in
          let same' : parts ≡ parts_of rest = (cc) in
          let (node, g, found) =
            find_loop-locate f rounds lossy v 1 none first rest j laid tt enough
              (rw (same, same') at h) in
          (node, g, rw (more, found) refl)
    ]
