-- ===== src/MemVfs/Tests.antt =====
-- Tests and witnesses of the in-memory filesystem.
use wasmux.Prelude.{
  true, false, ◌≡◌, refl, inl, List, [], ◌∷◌, ◌++◌, arith, none, ok, err, codes, length, take, drop,
}
use wasmux.Errno.{noent}
use wasmux.Desc.{Bytes}
use wasmux.Path.{same, is_empty, components, split}
use wasmux.Tree.{
  Node, dir, file, link, Entries, end, entry, less, insert, remove, get, nonempty, parts, rfind,
  split_parent, make_dirs, dir_mut, has_none, or_new,
}
use wasmux.Tree
use wasmux.Tree.View.{view}
use wasmux.MemVfs.{MemVfs, MemFile, find, write_entry, write_file, read_file, readlink}
use wasmux.MemVfs.Change.{
  add_node, mkdir, symlink, unlink, unlink_entry, rmdir, rmdir_entry, take_entry, place, rename,
}
use wasmux.MemVfs.Laws.{IsSame, IsPut, IsGone}
use wasmux.MemVfs.Update.{readlink-symlink, unlink-IsGone, rmdir-IsGone}
use wasmux.MemVfs.Rename.{IsMoved, rename-IsMoved}
use wasmux.MemVfs.Contents.{read_file-write_file}
use wasmux.MemVfs.Refused.{rename_to, apply, refused-IsSame}
use wasmux.MemVfs.File.{read, write}
use wasmux.MemVfs.File.Laws.{read-write}

-- "/a/f" holds two bytes, "/b" is an empty directory, "/c" holds the file "x".
abbrev some_files : MemVfs
some_files = record {
  root = dir (
      entry (codes "a") (dir (entry (codes "f") (file 0) end)) (
        entry (codes "b") (dir end)
          (entry (codes "c") (dir (entry (codes "x") (file 1) end)) end)));
  contents = λ id. 7 ∷ 8 ∷ [];
  next = 2;
}

mkdir_runs : (mkdir some_files (codes "/a/new") 0).1 ≡ ok tt
unfolding mkdir add_node dir_mut Tree.find parts nonempty components split split_parent rfind
    is_empty get insert same less
mkdir_runs = refl

symlink_runs : (symlink some_files (codes "../b") (codes "/a/new")).1 ≡ ok tt
unfolding symlink add_node dir_mut Tree.find parts nonempty components split split_parent rfind
    is_empty get insert same less
symlink_runs = refl

readlink-symlink_example :
    (readlink (symlink some_files (codes "../b") (codes "/a/new")).0 (codes "/a/new")
      ≡ ok (codes "../b"))
    × (find some_files (codes "/a/new") ≡ none)
    × IsPut some_files
        (symlink some_files (codes "../b") (codes "/a/new")).0
        (parts (codes "/a/new"))
        (link (codes "../b"))
readlink-symlink_example = readlink-symlink some_files (codes "../b") (codes "/a/new") symlink_runs

named : is_empty (split_parent (codes "/a/f")).1 ≡ false
unfolding split_parent rfind is_empty
named = refl

unlink_runs : (unlink some_files (codes "/a/f")).1 ≡ ok tt
unfolding unlink unlink_entry dir_mut parts nonempty components split split_parent rfind is_empty
    get insert remove same less
unlink_runs = refl

unlink-IsGone_example :
    IsGone some_files (unlink some_files (codes "/a/f")).0 (parts (codes "/a/f"))
unlink-IsGone_example = unlink-IsGone some_files (codes "/a/f") named unlink_runs

named_dir : is_empty (split_parent (codes "/b")).1 ≡ false
unfolding split_parent rfind is_empty
named_dir = refl

rmdir_runs : (rmdir some_files (codes "/b")).1 ≡ ok tt
unfolding rmdir rmdir_entry dir_mut parts nonempty components split split_parent rfind is_empty get
    insert remove same less has_none
rmdir_runs = refl

rmdir-IsGone_example :
    ((rest : List Bytes) → view some_files.root (parts (codes "/b") ++ rest) ≡ view (dir end) rest)
    × IsGone some_files (rmdir some_files (codes "/b")).0 (parts (codes "/b"))
rmdir-IsGone_example = rmdir-IsGone some_files (codes "/b") named_dir rmdir_runs

-- The empty directory takes the place of one that holds a file.
rename_replaces : (rename some_files (codes "/b") (codes "/c")).1 ≡ ok tt
unfolding rename take_entry place dir_mut parts nonempty components split split_parent rfind
    is_empty get insert remove same less
rename_replaces = refl

rename-IsMoved_example :
    IsMoved some_files
      (rename some_files (codes "/b") (codes "/c")).0
      (parts (codes "/b"))
      (parts (codes "/c"))
rename-IsMoved_example = rename-IsMoved some_files (codes "/b") (codes "/c") rename_replaces

-- A directory cannot be moved below itself: the node is put back.
rename_fails : (apply some_files (rename_to (codes "/c") (codes "/c/d"))).1 ≡ err noent
unfolding apply rename take_entry place dir_mut parts nonempty components split split_parent rfind
    is_empty get insert remove same less
rename_fails = refl

refused-IsSame_example :
    IsSame some_files (apply some_files (rename_to (codes "/c") (codes "/c/d"))).0
refused-IsSame_example =
    refused-IsSame some_files (rename_to (codes "/c") (codes "/c/d")) noent rename_fails

write_file_runs : (write_file some_files (codes "/d/e") (1 ∷ 2 ∷ [])).1 ≡ ok tt
unfolding write_file write_entry make_dirs or_new Tree.find dir_mut parts nonempty components split
    split_parent rfind is_empty get insert same less
write_file_runs = refl

read_file-write_file_example :
    read_file (write_file some_files (codes "/d/e") (1 ∷ 2 ∷ [])).0 (codes "/d/e") ≡ ok (1 ∷ 2 ∷ [])
read_file-write_file_example =
    read_file-write_file some_files (codes "/d/e") (1 ∷ 2 ∷ []) write_file_runs

-- A handle at the position 1, behind the first byte.
abbrev handle : MemFile
handle = record { data_ = 0; position = 1; append = false; writable = true }

read-write_example :
    ((write some_files handle (5 ∷ 6 ∷ [])).1.1 ≡ ok 2)
    × ((read (write some_files handle (5 ∷ 6 ∷ [])).0 handle 2).1 ≡ ok (5 ∷ 6 ∷ []))
    × (length ((write some_files handle (5 ∷ 6 ∷ [])).0.contents 0) ≡ 3)
    × (take 1 (drop 0 ((write some_files handle (5 ∷ 6 ∷ [])).0.contents 0)) ≡ 7 ∷ [])
read-write_example =
    read-write some_files handle (5 ∷ 6 ∷ []) 0 1 refl (omega arith) (omega arith)
      (inl (omega arith))
