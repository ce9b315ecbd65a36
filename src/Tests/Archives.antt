-- ===== src/Tests/Archives.antt =====
-- A U8 archive of a directory with one file and a file behind it.
use decomp_toolkit.Prelude.{
  ℕ, ◌/◌, ◌%◌, ◌≡◌, refl, List, [], ◌∷◌, ◌++◌, some, replicate, length, get_elem?, ok, err, panic,
  arith,
}
use decomp_toolkit.Util.U8Arc.{
  U8Node, U8View, new, find, get_name, split_path, short_header, eq_ignore_ascii_case,
}
use decomp_toolkit.Util.U8Arc.Bounds.{Fits, new-Fits}
use decomp_toolkit.Util.U8Arc.Layout.{Forest, nil, file, dir, Laid}
use decomp_toolkit.Util.U8Arc.Located.{find-locate}
use decomp_toolkit.Vfs.U8Arc.{read_dir}
use decomp_toolkit.Vfs.U8Arc.Listing.{read_dir-names}

abbrev lossy : List ℕ → List ℕ
lossy bytes = bytes

abbrev word : ℕ → List ℕ
word n = n / 16777216 ∷ ((n / 65536 % 256) ∷ ((n / 256 % 256) ∷ ((n % 256) ∷ [])))

abbrev node_bytes : ℕ → ℕ → ℕ → ℕ → List ℕ
node_bytes kind name offset length = kind ∷ (0 ∷ (0 ∷ (name ∷ (word offset ++ word length))))

abbrev header_bytes : List ℕ
header_bytes =
    0x55 ∷ (0xAA ∷ (0x38 ∷ (0x2D ∷ (word 32 ++ (word 55 ++ (word 96 ++ replicate 16 0))))))

abbrev table_bytes : List ℕ
table_bytes =
    node_bytes 1 0 0 4 ++ (node_bytes 1 1 0 3 ++ (node_bytes 0 3 96 4 ++ node_bytes 0 5 100 2))

abbrev names_bytes : List ℕ
names_bytes = 0 ∷ (97 ∷ (0 ∷ (98 ∷ (0 ∷ (99 ∷ (0 ∷ []))))))

abbrev archive : List ℕ
archive = header_bytes ++ (table_bytes ++ names_bytes)

abbrev root_node : U8Node
root_node = record { kind = 1; name_offset = 0; offset = 0; length = 4 }

abbrev dir_a : U8Node
dir_a = record { kind = 1; name_offset = 1; offset = 0; length = 3 }

abbrev file_b : U8Node
file_b = record { kind = 0; name_offset = 3; offset = 96; length = 4 }

abbrev file_c : U8Node
file_c = record { kind = 0; name_offset = 5; offset = 100; length = 2 }

abbrev view : U8View
view = record {
  header = record {
    magic = 0x55 ∷ (0xAA ∷ (0x38 ∷ (0x2D ∷ [])));
    node_table_offset = 32;
    node_table_size = 55;
    data_offset = 96;
  };
  nodes = root_node ∷ (dir_a ∷ (file_b ∷ (file_c ∷ [])));
  string_table = 0 ∷ (97 ∷ (0 ∷ (98 ∷ (0 ∷ (99 ∷ (0 ∷ []))))));
}

made : new 0 archive ≡ ok view
unfolding new
made = refl

-- A buffer that is not aligned is refused.
unaligned : new 2 archive ≡ err short_header
unfolding new
unaligned = refl

new-Fits_example : Fits archive (new 0 archive)
new-Fits_example = new-Fits 0 archive

abbrev tree : Forest
tree = dir (97 ∷ []) (file (98 ∷ []) nil) (file (99 ∷ []) nil)

tree-Laid : Laid lossy view 1 tree
unfolding get_name
tree-Laid = (
  (dir_a, (refl, refl, refl), refl),
  ((file_b, (refl, refl, refl)), tt),
  ((file_c, (refl, refl, refl)), tt),
)

-- "a/B"
find-locate_example :
    (node : U8Node) × (get_elem? view.nodes 2 ≡ some node)
    × (find 3 lossy view (97 ∷ (47 ∷ (66 ∷ []))) ≡ some (ok (some (2, node))))
unfolding split_path eq_ignore_ascii_case
find-locate_example =
    find-locate tree lossy view (97 ∷ (47 ∷ (66 ∷ []))) (97 ∷ []) ((66 ∷ []) ∷ []) 2 3 tree-Laid
      (omega arith) refl refl

read_dir-names_example : read_dir 4 lossy 0 archive (47 ∷ (97 ∷ [])) ≡ some (ok ((98 ∷ []) ∷ []))
unfolding split_path eq_ignore_ascii_case
read_dir-names_example =
    read_dir-names tree (file (98 ∷ []) nil) lossy 0 archive view (47 ∷ (97 ∷ [])) (97 ∷ []) [] 1 3
      made tree-Laid refl refl refl (omega arith)

abbrev dir_at_itself : U8Node
dir_at_itself = record { kind = 1; name_offset = 1; offset = 0; length = 1 }

abbrev looping : U8View
looping = record view { nodes = root_node ∷ (dir_at_itself ∷ []) }

-- A root that ends at itself gives no node, and the search for the root indexes past the end.
no_node : find 3 lossy (record view { nodes = [] }) [] ≡ some panic
unfolding find
no_node = refl
