-- ===== src/Vfs/U8Arc.antt =====
-- src/vfs/u8_arc.rs: a U8 archive as a file system, over the bytes of the mapped file.
pub mod Listing
use decomp_toolkit.Prelude.{
  ℕ, zero, suc, ◌+◌, Bool, true, false, List, [], ◌∷◌, Option, none, some, ltb, if◌then◌else◌,
  get_elem?, Result, ok, err, panic, ◌>>=◌, ok_or,
}
use decomp_toolkit.Util.U8Arc.{
  U8Node, U8View, U8NodeKind, file, directory, invalid, kind, is_dir, NameError, get_name, U8Error,
  new, find,
}

-- `VfsError` of src/vfs/mod.rs, with the errors of the archive in place of their texts.
pub data VfsError : Type 0 where
  not_found is_a_directory not_a_directory invalid_kind : VfsError
  invalid_archive : U8Error → VfsError
  invalid_name : NameError → VfsError

pub data VfsFileType : Type 0 where
  file_entry directory_entry : VfsFileType

-- `VfsMetadata` but for the time, which is that of the archive's file.
pub record VfsMetadata : Type 0 where
  pub file_type : VfsFileType
  pub len : ℕ

abbrev pub Found : Type 0
Found = Result (Unit {0}) (Option (ℕ × U8Node))

-- `view` and then `find`; the callback is the rest of the method, and there is no result where the
-- rounds of the search do not suffice.
abbrev pub found_then :
    {A : Type 0}
    → (Option (ℕ × U8Node) → Option (Result VfsError A))
    → Option Found
    → Option (Result VfsError A)
found_then k none = none
found_then k (some (ok found)) = k found
found_then k (some (err e)) = some panic
found_then k (some panic) = some panic

abbrev pub view_then :
    {A : Type 0}
    → (U8View → Option (Result VfsError A))
    → Result U8Error U8View
    → Option (Result VfsError A)
view_then k (ok v) = k v
view_then k (err e) = some (err (invalid_archive e))
view_then k panic = some panic

-- A file is opened as the window of its bytes: the offset and the length.
abbrev pub open_kind : U8NodeKind → U8Node → Result VfsError (ℕ × ℕ)
open_kind file node = ok (node.offset, node.length)
open_kind directory node = err is_a_directory
open_kind invalid node = err invalid_kind

abbrev pub open_found : Option (ℕ × U8Node) → Option (Result VfsError (ℕ × ℕ))
open_found none = some (err not_found)
open_found (some (idx, node)) = some (open_kind (kind node) node)

unfoldable pub open_file :
    ℕ → (List ℕ → List ℕ) → ℕ → List ℕ → List ℕ → Option (Result VfsError (ℕ × ℕ))
unfolding new find kind
open_file rounds lossy base buf path =
    view_then (λ v. found_then open_found (find rounds lossy v path)) (new base buf)

abbrev pub is_some : {A : Type 0} → Option A → Bool
is_some none = false
is_some (some a) = true

unfoldable pub exists : ℕ → (List ℕ → List ℕ) → ℕ → List ℕ → List ℕ → Option (Result VfsError Bool)
unfolding new find
exists rounds lossy base buf path =
    view_then (λ v. found_then (λ found. some (ok (is_some found))) (find rounds lossy v path))
      (new base buf)

abbrev pub metadata_kind : U8NodeKind → U8Node → Result VfsError VfsMetadata
metadata_kind file node = ok (record { file_type = file_entry; len = node.length })
metadata_kind directory node = ok (record { file_type = directory_entry; len = 0 })
metadata_kind invalid node = err invalid_kind

abbrev pub metadata_found : Option (ℕ × U8Node) → Option (Result VfsError VfsMetadata)
metadata_found none = some (err not_found)
metadata_found (some (idx, node)) = some (metadata_kind (kind node) node)

unfoldable pub metadata :
    ℕ → (List ℕ → List ℕ) → ℕ → List ℕ → List ℕ → Option (Result VfsError VfsMetadata)
unfolding new find kind
metadata rounds lossy base buf path =
    view_then (λ v. found_then metadata_found (find rounds lossy v path)) (new base buf)

abbrev pub named : Result NameError (List ℕ) → Result VfsError (List ℕ)
named (ok name) = ok name
named (err e) = err (invalid_name e)
named panic = panic

-- The name of an entry and the index of the one behind it.
unfoldable pub read_child : (List ℕ → List ℕ) → U8View → ℕ → Result VfsError (List ℕ × ℕ)
unfolding get_name
read_child lossy v idx = do
  child ← ok_or (get_elem? v.nodes idx) not_found
  name ← named (get_name lossy v child)
  ok (name, if is_dir child then child.length else idx + 1)

abbrev pub cons_entry :
    List ℕ → Option (Result VfsError (List (List ℕ))) → Option (Result VfsError (List (List ℕ)))
cons_entry name none = none
cons_entry name (some (ok names)) = some (ok (name ∷ names))
cons_entry name (some r) = some r

-- The loop of `read_dir` up to the index `stop`.
unfoldable pub read_entries :
    ℕ → (List ℕ → List ℕ) → U8View → ℕ → ℕ → Option (Result VfsError (List (List ℕ)))
read_entries zero lossy v idx stop = none
read_entries (suc rounds) lossy v idx stop = elim (ltb idx stop) [
  | false ↦ some (ok [])
  | true ↦ elim (read_child lossy v idx) [
    | ok entry ↦ cons_entry entry.0 (read_entries rounds lossy v entry.1 stop)
    | err e ↦ some (err e)
    | panic ↦ some panic
  ]
]

abbrev pub read_kind :
    ℕ
    → (List ℕ → List ℕ)
    → U8View
    → U8NodeKind
    → ℕ
    → U8Node
    → Option (Result VfsError (List (List ℕ)))
read_kind rounds lossy v file idx node = some (err not_a_directory)
read_kind rounds lossy v directory idx node = read_entries rounds lossy v (idx + 1) node.length
read_kind rounds lossy v invalid idx node = some (err invalid_kind)

abbrev pub read_found :
    ℕ → (List ℕ → List ℕ) → U8View → Option (ℕ × U8Node) → Option (Result VfsError (List (List ℕ)))
read_found rounds lossy v none = some (err not_found)
read_found rounds lossy v (some (idx, node)) = read_kind rounds lossy v (kind node) idx node

unfoldable pub read_dir :
    ℕ → (List ℕ → List ℕ) → ℕ → List ℕ → List ℕ → Option (Result VfsError (List (List ℕ)))
unfolding new find kind read_entries
read_dir rounds lossy base buf path =
    view_then (λ v. found_then (read_found rounds lossy v) (find rounds lossy v path))
      (new base buf)
