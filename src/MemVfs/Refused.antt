-- ===== src/MemVfs/Refused.antt =====
-- crates/wasmux/src/vfs/mem.rs: a call that is refused changes nothing.
use wasmux.Prelude.{ℕ, ◌≡◌, err}
use wasmux.Errno.{Errno, VfsResult}
use wasmux.Desc.{Bytes}
use wasmux.Tree.{dir, link, end, split_parent}
use wasmux.MemVfs.{MemVfs}
use wasmux.MemVfs.Change.{mkdir, symlink, unlink, unlink_entry, rmdir, rmdir_entry, rename}
use wasmux.MemVfs.Laws.{IsSame, in_dir-refused, unlink_entry-OnEntry, rmdir_entry-OnEntry}
use wasmux.MemVfs.Update.{add_node-refused}
use wasmux.MemVfs.Rename.{rename-refused}

-- The methods of `Vfs` that change the tree and answer with nothing.
pub data Change : Type 0 where
  mkdir_at : Bytes → ℕ → Change
  symlink_at : Bytes → Bytes → Change
  unlink_at : Bytes → Change
  rmdir_at : Bytes → Change
  rename_to : Bytes → Bytes → Change

unfoldable pub apply : MemVfs → Change → MemVfs × VfsResult (Unit {0})
apply fs (mkdir_at path mode) = mkdir fs path mode
apply fs (symlink_at target path) = symlink fs target path
apply fs (unlink_at path) = unlink fs path
apply fs (rmdir_at path) = rmdir fs path
apply fs (rename_to from to) = rename fs from to

-- A call of `mkdir`, `symlink`, `unlink`, `rmdir` or `rename` that is refused leaves every path and
-- the contents of every file as they were: a rename whose second half fails puts the node back.
pub refused-IsSame :
    (fs : MemVfs) (change : Change) (e : Errno)
    → (apply fs change).1 ≡ err e
    → IsSame fs (apply fs change).0
unfolding apply mkdir symlink unlink rmdir
refused-IsSame fs (mkdir_at path mode) e x = add_node-refused fs path (dir end) e x
refused-IsSame fs (symlink_at target path) e x = add_node-refused fs path (link target) e x
refused-IsSame fs (unlink_at path) e x =
    let name = (split_parent path).1 in
    in_dir-refused fs (split_parent path).0 name (unlink_entry name) (unlink_entry-OnEntry name) e x
refused-IsSame fs (rmdir_at path) e x =
    let name = (split_parent path).1 in
    in_dir-refused fs (split_parent path).0 name (rmdir_entry name) (rmdir_entry-OnEntry name) e x
refused-IsSame fs (rename_to from to) e x = rename-refused fs from to e x
