-- ===== src/Syscall/Paths/Handlers.antt =====
-- crates/wasmux/src/kernel/syscall.rs: the handlers of the calls that take a path.
use Prim.Native.Nat.{bit_and}
use wasmux.Prelude.{
  ℕ, Bool, true, false, not, Option, none, some, ◌==◌, if◌then◌else◌, ℤ, pos, ok, err, and_not,
}
use wasmux.Errno.{notdir, inval, rofs, xdev}
use wasmux.Desc.{Bytes}
use wasmux.Path.{is_empty}
use wasmux.Nodes.{Device, Node, device, mounted, virtual_dir, virtual_link, Overlay}
use wasmux.Ctx.{Ctx, errno, Sys}
use wasmux.Syscall.Paths.{
  Filesystems, at_fdcwd, at_symlink_nofollow, at_removedir, resolve, with_path, with_node, with_new,
  change, look_up, enter, enter_dir, copy_target, fd_target,
}

-- The calls on one or two paths, with the arguments that they read.
pub data PathCall : Type 0 where
  truncate : ℕ → ℕ → PathCall
  chdir : ℕ → PathCall
  faccessat : ℤ → ℕ → ℕ → PathCall
  readlinkat : ℤ → ℕ → ℕ → ℕ → PathCall
  mkdirat : ℤ → ℕ → ℕ → PathCall
  unlinkat : ℤ → ℕ → ℕ → PathCall
  renameat : ℤ → ℕ → ℤ → ℕ → PathCall
  symlinkat : ℕ → ℤ → ℕ → PathCall
  fchmodat : ℤ → ℕ → ℕ → PathCall
  utimensat : ℤ → ℕ → ℕ → PathCall

-- The pattern `Node::Mounted { mount, rel, .. }`.
unfoldable pub mount_of : Node → Option (ℕ × Bytes)
mount_of (mounted mount rel guest) = some (mount, rel)
mount_of node = none

module _ {W F : Type 0} (b : Filesystems W) where
  -- `nr::TRUNCATE`
  unfoldable pub truncate_node : ℕ → W → Ctx F → Node → W × Sys F ℤ
  unfolding change mount_of
  truncate_node size w c node = elim (mount_of node) [
    | some (mount, rel) ↦ change b w c mount (λ w. b.truncate w mount rel size)
    | none ↦ (w, (c, err (errno rofs)))
  ]

  -- `nr::CHDIR`
  unfoldable pub chdir_node : W → Ctx F → Node → W × Sys F ℤ
  unfolding look_up
  chdir_node w c (virtual_dir guest) = (w, enter c guest)
  chdir_node w c (mounted mount rel guest) =
      look_up b w c mount (λ m. m.vfs.stat rel true) (enter_dir guest)
  chdir_node w c node = (w, (c, err (errno notdir)))

  -- `nr::FACCESSAT` and `nr::UTIMENSAT_TIME64`: a path on a mount has to be there.
  unfoldable pub access_node : Bool → W → Ctx F → Node → W × Sys F ℤ
  unfolding look_up mount_of
  access_node follow w c node = elim (mount_of node) [
    | some (mount, rel) ↦ look_up b w c mount (λ m. m.vfs.stat rel follow) (λ c st. (c, ok (pos 0)))
    | none ↦ (w, (c, ok (pos 0)))
  ]

  -- `nr::READLINKAT`
  unfoldable pub readlink_node : ℕ → ℕ → W → Ctx F → Node → W × Sys F ℤ
  unfolding look_up copy_target fd_target
  readlink_node at size w c (virtual_link target) = (w, copy_target at size c target)
  readlink_node at size w c (device (Device.fd n)) = (w, fd_target at size c n)
  readlink_node at size w c (mounted mount rel guest) =
      look_up b w c mount (λ m. m.vfs.readlink rel) (copy_target at size)
  readlink_node at size w c node = (w, (c, err (errno inval)))

  -- `nr::UNLINKAT`
  unfoldable pub unlink_node : Bool → W → Ctx F → Node → W × Sys F ℤ
  unfolding change mount_of
  unlink_node remove_dir w c node = elim (mount_of node) [
    | some (mount, rel) ↦
        change b w c mount (λ w. if remove_dir then b.rmdir w mount rel else b.unlink w mount rel)
    | none ↦ (w, (c, err (errno rofs)))
  ]

  -- `nr::RENAMEAT`, the two nodes
  unfoldable pub rename_nodes : W → Ctx F → Node → Node → W × Sys F ℤ
  unfolding change mount_of
  rename_nodes w c from to = elim (mount_of from) [
    | none ↦ (w, (c, err (errno rofs)))
    | some (m₁, r₁) ↦ elim (mount_of to) [
      | none ↦ (w, (c, err (errno rofs)))
      | some (m₂, r₂) ↦
          if m₁ == m₂
          then change b w c m₁ (λ w. b.rename w m₁ r₁ r₂)
          else (w, (c, err (errno xdev)))
    ]
  ]

  -- `nr::FCHMODAT`
  unfoldable pub chmod_node : ℕ → W → Ctx F → Node → W × Sys F ℤ
  unfolding change mount_of
  chmod_node mode w c node = elim (mount_of node) [
    | some (mount, rel) ↦ change b w c mount (λ w. b.set_mode w mount rel (bit_and mode 0o7777))
    | none ↦ (w, (c, ok (pos 0)))
  ]

  -- The arms of `handle` for the calls on paths.
  unfoldable pub run : Overlay → (Bytes → Bytes) → PathCall → W → Ctx F → W × Sys F ℤ
  unfolding resolve with_path with_node with_new change truncate_node chdir_node access_node
      readlink_node unlink_node rename_nodes chmod_node
  run overlay lossy (truncate path_at size) w c =
      with_path lossy w c path_at
        λ path. with_node w (resolve b overlay w c at_fdcwd path true) (truncate_node size w)
  run overlay lossy (chdir path_at) w c =
      with_path lossy w c path_at
        λ path. with_node w (resolve b overlay w c at_fdcwd path true) (chdir_node w)
  run overlay lossy (faccessat dirfd path_at flags) w c = with_path lossy w c path_at λ path.
      let follow = bit_and flags at_symlink_nofollow == 0 in
      with_node w (resolve b overlay w c dirfd path follow) (access_node follow w)
  run overlay lossy (readlinkat dirfd path_at at size) w c =
      with_path lossy w c path_at
        λ path. with_node w (resolve b overlay w c dirfd path false) (readlink_node at size w)
  run overlay lossy (mkdirat dirfd path_at mode) w c = with_path lossy w c path_at λ path.
      with_new w (resolve b overlay w c dirfd path true) λ c mount rel.
        change b w c mount (λ w. b.mkdir w mount rel (bit_and (and_not mode c.task.umask) 0o777))
  run overlay lossy (unlinkat dirfd path_at flags) w c = with_path lossy w c path_at λ path.
      with_node w (resolve b overlay w c dirfd path false)
        (unlink_node (not (bit_and flags at_removedir == 0)) w)
  run overlay lossy (renameat from_fd from_at to_fd to_at) w c =
      with_path lossy w c from_at λ from_path. with_path lossy w c to_at λ to_path.
        with_node w (resolve b overlay w c from_fd from_path false) λ c₁ from.
          with_node w (resolve b overlay w c₁ to_fd to_path false)
            λ c₂ to. rename_nodes w c₂ from to
  run overlay lossy (symlinkat target_at dirfd path_at) w c =
      with_path lossy w c target_at λ target. with_path lossy w c path_at λ path.
        with_new w (resolve b overlay w c dirfd path false)
          λ c mount rel. change b w c mount (λ w. b.symlink w mount target rel)
  run overlay lossy (fchmodat dirfd path_at mode) w c =
      with_path lossy w c path_at
        λ path. with_node w (resolve b overlay w c dirfd path true) (chmod_node mode w)
  run overlay lossy (utimensat dirfd path_at flags) w c = with_path lossy w c path_at λ path.
      if is_empty path
      then (w, (c, ok (pos 0)))
      else let follow = bit_and flags at_symlink_nofollow == 0 in
        with_node w (resolve b overlay w c dirfd path follow) (access_node true w)
