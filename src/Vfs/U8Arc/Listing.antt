-- ===== src/Vfs/U8Arc/Listing.antt =====
-- What `read_dir` lists of the tree that an archive holds.
use decomp_toolkit.Prelude.{
  ℕ, zero, suc, ◌+◌, ◌≤◌, ◌<◌, ◌≡◌, refl, ◌∙◌, Bool, true, false, List, [], ◌∷◌, Option, none, some,
  ltb, ◌==◌, if◌then◌else◌, get_elem?, ok, arith, Bool-cases, ==_iff, inl, inr,
}
use decomp_toolkit.Util.U8Arc.{U8Node, U8View, is_dir, kind, directory, split_path, new}
use decomp_toolkit.Util.U8Arc.Layout.{Forest, nil, file, dir, size, IsNode, Laid, parts_of, locate}
use decomp_toolkit.Util.U8Arc.Located.{find-locate}
use decomp_toolkit.Vfs.U8Arc.{read_child, read_entries, cons_entry, read_dir}

-- The names of the entries of a directory.
abbrev pub names : Forest → List (List ℕ)
names nil = []
names (file name rest) = name ∷ names rest
names (dir name kids rest) = name ∷ names rest

-- The entries of the directory whose node has the index `j`.
abbrev pub kids_at : Forest → ℕ → ℕ → Option Forest
kids_at nil idx j = none
kids_at (file name rest) idx j = kids_at rest (idx + 1) j
kids_at (dir name kids rest) idx j =
    if idx == j
    then some kids
    else if ltb j (idx + 1 + size kids)
    then kids_at kids (idx + 1) j
    else kids_at rest (idx + 1 + size kids) j

read_child_lem :
    (lossy : List ℕ → List ℕ) (v : U8View) (idx : ℕ) (name : List ℕ) (d : Bool) (node : U8Node)
    → IsNode lossy v idx name d node
    → read_child lossy v idx ≡ ok (name, if d then node.length else idx + 1)
unfolding read_child
read_child_lem lossy v idx name d node (e, n, k) = rw (e, n, k) refl

read_entries_lem :
    (rounds : ℕ) (lossy : List ℕ → List ℕ) (v : U8View) (idx next stop : ℕ) (name : List ℕ)
    → idx < stop
    → read_child lossy v idx ≡ ok (name, next)
    → read_entries (suc rounds) lossy v idx stop
      ≡ cons_entry name (read_entries rounds lossy v next stop)
unfolding read_entries
read_entries_lem rounds lossy v idx next stop name lt e =
    let t : ltb idx stop ≡ true = (ground arith) in rw (t, e, read_entries) refl

read_entries-names :
    (f : Forest) (rounds : ℕ) (lossy : List ℕ → List ℕ) (v : U8View) (idx stop : ℕ)
    → Laid lossy v idx f
    → idx + size f ≡ stop
    → size f ≤ rounds
    → read_entries (suc rounds) lossy v idx stop ≡ some (ok (names f))
unfolding read_entries
read_entries-names nil rounds lossy v idx stop laid e enough =
    let t : ltb idx stop ≡ false = (ground arith) in rw (t, read_entries) refl
read_entries-names (file name rest) zero lossy v idx stop laid e enough = absurd (omega arith)
read_entries-names (file name rest) (suc rounds) lossy v idx stop ((node, n), laid) e enough =
    read_entries_lem (suc rounds) lossy v idx (idx + 1) stop name (omega arith)
      (read_child_lem lossy v idx name false node n)
    ∙ rw (read_entries-names rest rounds lossy v (idx + 1) stop laid (omega arith) (omega arith))
        refl
read_entries-names (dir name kids rest) zero lossy v idx stop laid e enough = absurd (omega arith)
read_entries-names (dir name kids rest) (suc rounds) lossy v idx stop ((node, n, l), below, behind)
      e enough =
    let to = idx + 1 + size kids in
    read_entries_lem (suc rounds) lossy v idx to stop name (omega arith)
      (read_child_lem lossy v idx name true node n ∙ rw l refl)
    ∙ rw (read_entries-names rest rounds lossy v to stop behind (omega arith) (omega arith)) refl

-- The node of a directory of the tree, with its entries behind it.
kids_at-Laid :
    (f : Forest) (lossy : List ℕ → List ℕ) (v : U8View) (idx j : ℕ) {kids : Forest}
    → Laid lossy v idx f
    → kids_at f idx j ≡ some kids
    → (node : U8Node) × (get_elem? v.nodes j ≡ some node)
      × (is_dir node ≡ true)
      × (node.length ≡ j + 1 + size kids)
      × Laid lossy v (j + 1) kids
      × (size kids < size f)
kids_at-Laid nil lossy v idx j laid h = absurd (cc)
kids_at-Laid (file name rest) lossy v idx j (leaf, laid) h =
    let (node, g, d, l, k, lt) = kids_at-Laid rest lossy v (idx + 1) j laid h in
    (node, g, d, l, k, omega arith)
kids_at-Laid (dir name below rest) lossy v idx j {kids} ((node, n, l), laid, behind) h =
    elim (Bool-cases (idx == j)) [
      | inl t ↦
          let e : idx ≡ j = ((==_iff idx j).0 t) in
          let found : some below ≡ some kids = (rw t at h) in
          let k : below ≡ kids = (cc) in rw (← e, ← k) (node, n.0, n.2, l, laid, omega arith)
      | inr f ↦ elim (Bool-cases (ltb j (idx + 1 + size below))) [
        | inl t' ↦
            let (node', g, d, l', k, lt) =
              kids_at-Laid below lossy v (idx + 1) j {kids = kids} laid (rw (f, t') at h) in
            (node', g, d, l', k, omega arith)
        | inr f' ↦
            let (node', g, d, l', k, lt) =
              kids_at-Laid rest lossy v (idx + 1 + size below) j {kids = kids} behind
                (rw (f, f') at h) in
            (node', g, d, l', k, omega arith)
      ]
    ]

kind-is_dir : (node : U8Node) → is_dir node ≡ true → kind node ≡ directory
unfolding kind
kind-is_dir node h = let other : node.kind == 0 ≡ false = (ground arith) in rw (other, h) refl

-- Where the bytes are an archive whose nodes hold a directory tree behind the root, `read_dir` of a
-- path that names a directory of the tree lists the names of its entries in order, and of no
-- others.
pub read_dir-names :
    (f kids : Forest) (lossy : List ℕ → List ℕ) (base : ℕ) (buf : List ℕ) (v : U8View)
    (path part : List ℕ) (parts : List (List ℕ)) (j rounds : ℕ)
    → new base buf ≡ ok v
    → Laid lossy v 1 f
    → parts_of (split_path path) ≡ part ∷ parts
    → locate f 1 part parts ≡ some j
    → kids_at f 1 j ≡ some kids
    → size f ≤ rounds
    → read_dir (suc rounds) lossy base buf path ≡ some (ok (names kids))
unfolding read_dir
read_dir-names f kids lossy base buf v path part parts j rounds made laid e h k enough =
    let (node, g, found) =
      find-locate f lossy v path part parts j (suc rounds) laid (omega arith) e h in
    let (node', g', d, l, below, lt) = kids_at-Laid f lossy v 1 j {kids = kids} laid k in
    let same : node' ≡ node = (cc) in
    rw (made, found, ← same, kind-is_dir node' d)
      (read_entries-names kids rounds lossy v (j + 1) node'.length below (omega arith)
        (omega arith))
