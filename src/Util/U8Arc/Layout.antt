-- ===== src/Util/U8Arc/Layout.antt =====
-- A directory tree as it lies in the node table, and what the search finds in it.
use decomp_toolkit.Prelude.{
  ℕ, suc, ◌+◌, ◌≤◌, ◌<◌, ◌≡◌, refl, ◌∙◌, Bool, true, false, List, [], ◌∷◌, Option, none, some, leb,
  if◌then◌else◌, get_elem?, ok, arith, inl, inr, ◌⊎◌,
}
use decomp_toolkit.Util.U8Arc.{
  U8Node, U8View, is_dir, get_name, eq_ignore_ascii_case, is_empty, next_non_empty, done, again,
  is_past, enter, find_step, find_loop,
}

-- The entries of a directory in order, each with those behind it.
pub data Forest : Type 0 where
  nil : Forest
  file : List ℕ → Forest → Forest
  dir : List ℕ → Forest → Forest → Forest

abbrev pub size : Forest → ℕ
size nil = 0
size (file name rest) = 1 + size rest
size (dir name kids rest) = 1 + (size kids + size rest)

-- The node at an index has the name and the kind.
abbrev pub IsNode : (List ℕ → List ℕ) → U8View → ℕ → List ℕ → Bool → U8Node → Type 0
IsNode lossy v idx name d node =
    (get_elem? v.nodes idx ≡ some node) × (get_name lossy v node ≡ ok name) × (is_dir node ≡ d)

-- The entries lie one after the other from an index on, those of a directory directly behind it,
-- and the directory ends behind them.
abbrev pub Laid : (List ℕ → List ℕ) → U8View → ℕ → Forest → Type 0
Laid lossy v idx nil = Unit
Laid lossy v idx (file name rest) =
    ((node : U8Node) × IsNode lossy v idx name false node) × Laid lossy v (idx + 1) rest
Laid lossy v idx (dir name kids rest) =
    ((node : U8Node) × IsNode lossy v idx name true node × (node.length ≡ idx + 1 + size kids))
    × Laid lossy v (idx + 1) kids
    × Laid lossy v (idx + 1 + size kids) rest

-- The parts of a path that are not empty.
abbrev pub parts_of : List (List ℕ) → List (List ℕ)
parts_of [] = []
parts_of ([] ∷ parts) = parts_of parts
parts_of ((c ∷ cs) ∷ parts) = (c ∷ cs) ∷ parts_of parts

-- The index of the entry that a path names: the first of its name at each level, and below a
-- directory if more of the path is left.
abbrev pub locate : Forest → ℕ → List ℕ → List (List ℕ) → Option ℕ
locate nil idx part parts = none
locate (file name rest) idx part parts =
    if eq_ignore_ascii_case name part
    then elim parts [ [] ↦ some idx | next ∷ more ↦ none ]
    else locate rest (idx + 1) part parts
locate (dir name kids rest) idx part [] =
    if eq_ignore_ascii_case name part then some idx else locate rest (idx + 1 + size kids) part []
locate (dir name kids rest) idx part (next ∷ more) =
    if eq_ignore_ascii_case name part
    then locate kids (idx + 1) next more
    else locate rest (idx + 1 + size kids) part (next ∷ more)

-- `next_non_empty` takes the parts that are not empty one by one.
pub next_non_empty_cases :
    (split : List (List ℕ))
    → ((parts_of split ≡ []) × (is_empty (next_non_empty split).0 ≡ true))
      ⊎ ((parts_of split ≡ (next_non_empty split).0 ∷ parts_of (next_non_empty split).1)
          × (is_empty (next_non_empty split).0 ≡ false))
next_non_empty_cases [] = inl (refl, refl)
next_non_empty_cases ([] ∷ split) = next_non_empty_cases split
next_non_empty_cases ((c ∷ cs) ∷ split) = inr (refl, refl)

pub size_of_locate :
    (f : Forest) (idx j : ℕ) (part : List ℕ) (parts : List (List ℕ))
    → locate f idx part parts ≡ some j
    → 0 < size f
size_of_locate nil idx j part parts h = absurd (cc h)
size_of_locate (file name rest) idx j part parts h = omega arith
size_of_locate (dir name kids rest) idx j part parts h = omega arith

-- The search is not stopped before it has passed `size` nodes.
abbrev pub RunsTo : Option ℕ → ℕ → Type 0
RunsTo none idx = Unit
RunsTo (some stop) idx = idx ≤ stop

pub is_past-RunsTo :
    (stop : Option ℕ) (idx to : ℕ) → RunsTo stop to → idx < to → is_past stop idx ≡ false
is_past-RunsTo none idx to h lt = refl
is_past-RunsTo (some stop) idx to h lt = ground arith

pub RunsTo-le : (stop : Option ℕ) (a b : ℕ) → RunsTo stop a → b ≤ a → RunsTo stop b
RunsTo-le none a b h le = tt
RunsTo-le (some stop) a b h le = omega arith

step_named :
    (lossy : List ℕ → List ℕ) (v : U8View) (idx : ℕ) (name : List ℕ) (d : Bool) (node : U8Node)
    (stop : Option ℕ) (part : List ℕ) (split : List (List ℕ))
    → IsNode lossy v idx name d node
    → eq_ignore_ascii_case name part ≡ true
    → find_step lossy v idx stop part split ≡ enter idx node (next_non_empty split)
unfolding find_step
step_named lossy v idx name d node stop part split (e, named, k) same = rw (e, named, same) refl

pub step_file :
    (lossy : List ℕ → List ℕ) (v : U8View) (idx : ℕ) (name : List ℕ) (node : U8Node)
    (stop : Option ℕ) (part : List ℕ) (split : List (List ℕ))
    → IsNode lossy v idx name false node
    → eq_ignore_ascii_case name part ≡ false
    → is_past stop (idx + 1) ≡ false
    → find_step lossy v idx stop part split ≡ again (idx + 1) stop part split
unfolding find_step
step_file lossy v idx name node stop part split (e, named, k) other past =
    rw (e, named, other, k, past) refl

pub step_dir :
    (lossy : List ℕ → List ℕ) (v : U8View) (idx to : ℕ) (name : List ℕ) (node : U8Node)
    (stop : Option ℕ) (part : List ℕ) (split : List (List ℕ))
    → IsNode lossy v idx name true node
    → node.length ≡ to
    → eq_ignore_ascii_case name part ≡ false
    → is_past stop to ≡ false
    → find_step lossy v idx stop part split ≡ again to stop part split
unfolding find_step
step_dir lossy v idx to name node stop part split (e, named, k) l other past =
    rw (e, named, other, k, l, past) refl

-- A directory of the name is entered, where more of the path is left.
pub step_enter :
    (lossy : List ℕ → List ℕ) (v : U8View) (idx : ℕ) (name : List ℕ) (node : U8Node)
    (stop : Option ℕ) (part : List ℕ) (split : List (List ℕ))
    → IsNode lossy v idx name true node
    → eq_ignore_ascii_case name part ≡ true
    → is_empty (next_non_empty split).0 ≡ false
    → 0 < node.length
    → find_step lossy v idx stop part split
      ≡ again
          (idx + 1)
          (some (node.length + (idx + 1)))
          (next_non_empty split).0
          (next_non_empty split).1
step_enter lossy v idx name node stop part split n same more pos =
    let past : leb (node.length + (idx + 1)) (idx + 1) ≡ false = (ground arith) in
    step_named lossy v idx name true node stop part split n same ∙ rw (more, n.2, past) refl

-- The last part of a path is found at its node.
pub step_last :
    (lossy : List ℕ → List ℕ) (v : U8View) (idx : ℕ) (name : List ℕ) (d : Bool) (node : U8Node)
    (stop : Option ℕ) (part : List ℕ) (split : List (List ℕ))
    → IsNode lossy v idx name d node
    → eq_ignore_ascii_case name part ≡ true
    → is_empty (next_non_empty split).0 ≡ true
    → find_step lossy v idx stop part split ≡ done (some (idx, node))
step_last lossy v idx name d node stop part split n same last =
    step_named lossy v idx name d node stop part split n same ∙ rw last refl

pub again_lem :
    (rounds : ℕ) (lossy : List ℕ → List ℕ) (v : U8View) (idx idx' : ℕ) (stop stop' : Option ℕ)
    (part part' : List ℕ) (split split' : List (List ℕ))
    → find_step lossy v idx stop part split ≡ again idx' stop' part' split'
    → find_loop (suc rounds) lossy v idx stop part split
      ≡ find_loop rounds lossy v idx' stop' part' split'
unfolding find_loop
again_lem rounds lossy v idx idx' stop stop' part part' split split' e = rw (e, find_loop) refl

pub done_lem :
    (rounds : ℕ) (lossy : List ℕ → List ℕ) (v : U8View) (idx : ℕ) (stop : Option ℕ) (part : List ℕ)
    (split : List (List ℕ)) (r : Option (ℕ × U8Node))
    → find_step lossy v idx stop part split ≡ done r
    → find_loop (suc rounds) lossy v idx stop part split ≡ some r
unfolding find_loop
done_lem rounds lossy v idx stop part split r e = rw (e, find_loop) refl
