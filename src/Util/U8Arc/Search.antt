-- ===== src/Util/U8Arc/Search.antt =====
-- When the search for a path ends.
use decomp_toolkit.Prelude.{
  ℕ, zero, suc, ◌<◌, ◌≡◌, refl, true, false, List, none, some, length, get_elem?,
}
use decomp_toolkit.Util.U8Arc.{
  U8Node, U8View, is_dir, get_name, split_path, is_empty, next_non_empty, Next, done, again,
  has_name, find_step, find_loop, find,
}

-- Every directory ends behind its own node.
abbrev pub Forward : U8View → Type 0
Forward v =
    (idx : ℕ) (node : U8Node)
    → get_elem? v.nodes idx ≡ some node
    → is_dir node ≡ true
    → idx < node.length

-- A round that goes on has passed a node.
abbrev pub Progress : ℕ → Next → Type 0
Progress idx (done result) = Unit
Progress idx (again idx' stop current split) = idx < idx'

-- A directory of another name that ends at its own node is visited again and again.
pub find_loop_endless :
    (rounds : ℕ) (lossy : List ℕ → List ℕ) (v : U8View) (idx : ℕ) (node : U8Node) (current : List ℕ)
    (split : List (List ℕ))
    → get_elem? v.nodes idx ≡ some node
    → is_dir node ≡ true
    → node.length ≡ idx
    → has_name current (get_name lossy v node) ≡ false
    → find_loop rounds lossy v idx none current split ≡ none
unfolding find_loop find_step
find_loop_endless zero lossy v idx node current split e d l n = refl
find_loop_endless (suc rounds) lossy v idx node current split e d l n =
    let once : find_step lossy v idx none current split ≡ again idx none current split =
      rw (e, n, d, l) refl in
    rw (once, find_loop) (find_loop_endless rounds lossy v idx node current split e d l n)

-- Where the first node behind the root is a directory that ends at itself, the search for a path
-- that does not start with its name returns for no number of rounds.
pub find_endless :
    (rounds : ℕ) (lossy : List ℕ → List ℕ) (v : U8View) (node : U8Node) (path : List ℕ)
    → get_elem? v.nodes 1 ≡ some node
    → is_dir node ≡ true
    → node.length ≡ 1
    → is_empty (next_non_empty (split_path path)).0 ≡ false
    → has_name (next_non_empty (split_path path)).0 (get_name lossy v node) ≡ false
    → find rounds lossy v path ≡ none
unfolding find
find_endless rounds lossy v node path e d l some_part other =
    let (current, split) = next_non_empty (split_path path) in
    rw (some_part, find_loop_endless rounds lossy v 1 node current split e d l other) refl
