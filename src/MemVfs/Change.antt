-- ===== src/MemVfs/Change.antt =====
-- crates/wasmux/src/vfs/mem.rs: the methods that change the tree.
use wasmux.Prelude.{◌||◌, none, some, if◌then◌else◌, is_some, ok, err, ℕ}
use wasmux.Errno.{VfsResult, noent, notdir, isdir, exist, notempty, inval}
use wasmux.Desc.{Bytes}
use wasmux.Path.{is_empty}
use wasmux.Tree
use wasmux.Tree.{Node, dir, file, link, Entries, end, split_parent, has_none}
use wasmux.MemVfs.{MemVfs, find, in_dir, put_entry}

-- A new node at a path where there is none: `mkdir` and `symlink`.
unfoldable pub add_node : MemVfs → Bytes → Node → MemVfs × VfsResult (Unit {0})
add_node fs path n =
    let (parent, name) = split_parent path in
    if is_empty name || is_some (find fs path)
    then (fs, err exist)
    else in_dir fs parent (put_entry name n)

unfoldable pub mkdir : MemVfs → Bytes → ℕ → MemVfs × VfsResult (Unit {0})
unfolding add_node
mkdir fs path mode = add_node fs path (dir end)

unfoldable pub symlink : MemVfs → Bytes → Bytes → MemVfs × VfsResult (Unit {0})
unfolding add_node
symlink fs target path = add_node fs path (link target)

unfoldable pub unlink_entry : Bytes → Entries → Entries × VfsResult (Unit {0})
unlink_entry name es = elim (Tree.get es name) [
  | some (dir inner) ↦ (es, err isdir)
  | some (file id) ↦ (Tree.remove es name, ok tt)
  | some (link target) ↦ (Tree.remove es name, ok tt)
  | none ↦ (es, err noent)
]

unfoldable pub unlink : MemVfs → Bytes → MemVfs × VfsResult (Unit {0})
unfolding unlink_entry
unlink fs path = let (parent, name) = split_parent path in in_dir fs parent (unlink_entry name)

unfoldable pub rmdir_entry : Bytes → Entries → Entries × VfsResult (Unit {0})
rmdir_entry name es = elim (Tree.get es name) [
  | some (dir inner) ↦ if has_none inner then (Tree.remove es name, ok tt) else (es, err notempty)
  | some (file id) ↦ (es, err notdir)
  | some (link target) ↦ (es, err notdir)
  | none ↦ (es, err noent)
]

unfoldable pub rmdir : MemVfs → Bytes → MemVfs × VfsResult (Unit {0})
unfolding rmdir_entry
rmdir fs path = let (parent, name) = split_parent path in in_dir fs parent (rmdir_entry name)

-- `entries.remove(from_name).ok_or(NOENT)`
unfoldable pub take_entry : Bytes → Entries → Entries × VfsResult Node
take_entry name es = elim (Tree.get es name) [
  | none ↦ (es, err noent)
  | some n ↦ (Tree.remove es name, ok n)
]

-- The node that was taken out is put at its new path, or back.
unfoldable pub place : MemVfs → Bytes → Bytes → Bytes → Bytes → Node → MemVfs × VfsResult (Unit {0})
place fs from_parent from_name to_parent to_name n =
    let (fs', r) = in_dir fs to_parent (put_entry to_name n) in
    elim r [
      | ok u ↦ (fs', ok u)
      | err e ↦ let (back, u) = in_dir fs' from_parent (put_entry from_name n) in (back, err e)
    ]

unfoldable pub rename : MemVfs → Bytes → Bytes → MemVfs × VfsResult (Unit {0})
unfolding take_entry place
rename fs from to =
    let (from_parent, from_name) = split_parent from in
    let (to_parent, to_name) = split_parent to in
    if is_empty from_name || is_empty to_name
    then (fs, err inval)
    else let (fs', r) = in_dir fs from_parent (take_entry from_name) in
      elim r [ err e ↦ (fs', err e) | ok n ↦ place fs' from_parent from_name to_parent to_name n ]
