-- ===== src/Util/U8Arc/Outside.antt =====
-- The search goes on behind a directory that it has entered.
use decomp_toolkit.Prelude.{
  ℕ, zero, suc, ◌+◌, ◌≤◌, ◌<◌, ◌≡◌, refl, ◌∙◌, true, false, List, [], ◌∷◌, Option, none, some,
  get_elem?, ok, arith, inl, inr,
}
use decomp_toolkit.Util.U8Arc.{
  U8Node, U8View, eq_ignore_ascii_case, split_path, is_empty, next_non_empty, is_past, find_step,
  find_loop, find, done,
}
use decomp_toolkit.Util.U8Arc.Layout.{
  Forest, nil, file, dir, size, Laid, parts_of, next_non_empty_cases, RunsTo, is_past-RunsTo,
  step_file, step_dir, step_enter, step_last, again_lem, done_lem,
}

-- No entry of the directory has the name.
abbrev pub Absent : List ℕ → Forest → Type 0
Absent part nil = Unit
Absent part (file name rest) = (eq_ignore_ascii_case name part ≡ false) × Absent part rest
Absent part (dir name kids rest) = (eq_ignore_ascii_case name part ≡ false) × Absent part rest

-- The loop passes all entries and goes on behind them.
find_loop-Absent :
    (f : Forest) (rounds : ℕ) (lossy : List ℕ → List ℕ) (v : U8View) (idx to : ℕ) (stop : Option ℕ)
    (part : List ℕ) (split : List (List ℕ))
    → Laid lossy v idx f
    → Absent part f
    → idx + size f ≡ to
    → RunsTo stop (to + 1)
    → size f ≤ rounds
    → (left : ℕ) × (rounds ≤ left + size f)
      × (find_loop rounds lossy v idx stop part split ≡ find_loop left lossy v to stop part split)
find_loop-Absent nil rounds lossy v idx to stop part split laid absent e run enough =
    let e' : idx ≡ to = (omega arith) in (rounds, omega arith, rw e' refl)
find_loop-Absent (file name rest) zero lossy v idx to stop part split laid absent e run enough =
    absurd (omega arith)
find_loop-Absent (file name rest) (suc rounds) lossy v idx to stop part split ((node, n), laid)
      (other, absent) e run enough =
    let past : is_past stop (idx + 1) ≡ false =
      (is_past-RunsTo stop (idx + 1) (to + 1) run (omega arith)) in
    let (left, le, same) =
      find_loop-Absent rest rounds lossy v (idx + 1) to stop part split laid absent (omega arith)
        run (omega arith) in
    (
      left,
      omega arith,
      again_lem rounds lossy v idx (idx + 1) stop stop part part split split
            (step_file lossy v idx name node stop part split n other past)
          ∙ same,
    )
find_loop-Absent (dir name kids rest) zero lossy v idx to stop part split laid absent e run enough =
    absurd (omega arith)
find_loop-Absent (dir name kids rest) (suc rounds) lossy v idx to stop part split
      ((node, n, l), below, behind) (other, absent) e run enough =
    let next = idx + 1 + size kids in
    let past : is_past stop next ≡ false = (is_past-RunsTo stop next (to + 1) run (omega arith)) in
    let (left, le, same) =
      find_loop-Absent rest rounds lossy v next to stop part split behind absent (omega arith) run
        (omega arith) in
    (
      left,
      omega arith,
      again_lem rounds lossy v idx next stop stop part part split split
            (step_dir lossy v idx next name node stop part split n l other past)
          ∙ same,
    )

done_at :
    (rounds : ℕ) (lossy : List ℕ → List ℕ) (v : U8View) (idx : ℕ) (stop : Option ℕ) (part : List ℕ)
    (split : List (List ℕ)) (r : Option (ℕ × U8Node))
    → 0 < rounds
    → find_step lossy v idx stop part split ≡ done r
    → find_loop rounds lossy v idx stop part split ≡ some r
done_at zero lossy v idx stop part split r pos e = absurd (omega arith)
done_at (suc rounds) lossy v idx stop part split r pos e =
    done_lem rounds lossy v idx stop part split r e

-- A path has one part more.
last_part :
    (split : List (List ℕ)) (last : List ℕ)
    → parts_of split ≡ last ∷ []
    → ((next_non_empty split).0 ≡ last)
      × (is_empty (next_non_empty split).0 ≡ false)
      × (is_empty (next_non_empty (next_non_empty split).1).0 ≡ true)
last_part split last e = elim (next_non_empty_cases split) [
  | inl (none_left, empty) ↦ absurd (cc)
  | inr (some_left, more) ↦ elim (next_non_empty_cases (next_non_empty split).1) [
    | inl (none_left, empty) ↦ (cc, more, empty)
    | inr (one_left, more') ↦ absurd (cc)
  ]
]

find_loop_outside :
    (name file_name first last : List ℕ) (kids rest : Forest) (lossy : List ℕ → List ℕ) (v : U8View)
    (split : List (List ℕ)) (rounds : ℕ)
    → Laid lossy v 1 (dir name kids (file file_name rest))
    → parts_of split ≡ last ∷ []
    → eq_ignore_ascii_case name first ≡ true
    → Absent last kids
    → eq_ignore_ascii_case file_name last ≡ true
    → size kids < rounds
    → (node : U8Node) × (get_elem? v.nodes (2 + size kids) ≡ some node)
      × (find_loop (suc rounds) lossy v 1 none first split ≡ some (some (2 + size kids, node)))
find_loop_outside name file_name first last kids rest lossy v split rounds
      ((node, n, l), below, ((leaf, m), behind)) e same absent same' enough =
    let (is_last, more, empty) = last_part split last e in
    let split' = (next_non_empty split).1 in
    let part = (next_non_empty split).0 in
    let stop = some (node.length + 2) in
    let entered =
      again_lem rounds lossy v 1 2 none stop first part split split'
        (step_enter lossy v 1 name node none first split n same more (omega arith)) in
    let (left, le, passed) =
      find_loop-Absent kids rounds lossy v 2 (2 + size kids) stop part split' below
        (rw is_last absent) refl (omega arith) (omega arith) in
    (
      leaf,
      m.0,
      entered
          ∙ (passed
              ∙ done_at left lossy v (2 + size kids) stop part split' (some (2 + size kids, leaf))
                  (omega arith)
                  (step_last lossy v (2 + size kids) file_name false leaf stop part split' m
                    (rw is_last same') empty)),
    )

-- Where the first entry of the archive is a directory, a file lies directly behind it, and the
-- directory has no entry of the file's name, a path that leads to that name in the directory finds
-- the file, which is not in the directory.
pub find_outside :
    (name file_name first last : List ℕ) (kids rest : Forest) (lossy : List ℕ → List ℕ) (v : U8View)
    (path : List ℕ) (rounds : ℕ)
    → Laid lossy v 1 (dir name kids (file file_name rest))
    → parts_of (split_path path) ≡ first ∷ (last ∷ [])
    → eq_ignore_ascii_case name first ≡ true
    → Absent last kids
    → eq_ignore_ascii_case file_name last ≡ true
    → size kids < rounds
    → (node : U8Node) × (get_elem? v.nodes (2 + size kids) ≡ some node)
      × (find (suc rounds) lossy v path ≡ some (ok (some (2 + size kids, node))))
unfolding find
find_outside name file_name first last kids rest lossy v path rounds laid e same absent same'
      enough =
    elim (next_non_empty_cases (split_path path)) [
      | inl (none_left, empty) ↦ absurd (cc)
      | inr (some_left, more) ↦
          let (part, split) = next_non_empty (split_path path) in
          let is_first : first ≡ part = (cc) in
          let is_last : parts_of split ≡ last ∷ [] = (cc) in
          let (node, g, found) =
            find_loop_outside name file_name part last kids rest lossy v split rounds laid is_last
              (rw (← is_first) same) absent same' (omega arith) in
          (node, g, rw (more, found) refl)
    ]
