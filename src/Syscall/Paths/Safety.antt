-- ===== src/Syscall/Paths/Safety.antt =====
-- crates/wasmux/src/kernel/syscall.rs: a read-only mount cannot be changed by any call on a path, and
-- no such call blocks in silence.
use Prim.Native.Nat.{bit_and}
use wasmux.Prelude.{
  ℕ, Bool, true, false, not, ◌≡◌, inl, inr, ◌==◌, if◌then◌else◌, ℤ, pos, ok, err, and_not,
  Bool-cases, Option-cases,
}
use wasmux.Errno.{VfsResult, rofs, xdev, notdir, inval}
use wasmux.Desc.{Bytes}
use wasmux.Path.{is_empty}
use wasmux.Nodes.{Device, Node, program, device, synth, mounted, virtual_dir, virtual_link, Overlay}
use wasmux.Ctx.{Ctx, block, Sys}
use wasmux.Syscall.Paths.{
  Filesystems, at_fdcwd, at_symlink_nofollow, at_removedir, resolve, with_path, with_node, with_new,
  change, enter, enter_dir, copy_target, fd_target,
}
use wasmux.Syscall.Paths.Handlers.{
  PathCall, truncate, chdir, faccessat, readlinkat, mkdirat, unlinkat, renameat, symlinkat,
  fchmodat, utimensat, truncate_node, chdir_node, access_node, readlink_node, unlink_node,
  rename_nodes, chmod_node, mount_of, run,
}
use wasmux.Syscall.Paths.Checks.{
  IsReadOnly, IsFine, copy_target-Notes, fd_target-Notes, enter_dir-Notes, resolve-Notes,
  errno-IsFine, kept-IsFine, change-IsFine, look_up-IsFine, with_path-IsFine, with_node-IsFine,
  with_new-IsFine,
}

module _ {W F : Type 0} (b : Filesystems W) where
  truncate_node-IsFine :
      (size : ℕ) (w : W) (c : Ctx F) (n : Node) → IsFine b w (truncate_node b size w c n)
  unfolding truncate_node
  truncate_node-IsFine size w c n = elim (Option-cases (mount_of n)) [
    | inl e ↦ rw (truncate_node, e) (errno-IsFine b w c rofs)
    | inr ((mount, rel), e) ↦
        rw (truncate_node, e) (change-IsFine b w c mount (λ w. b.truncate w mount rel size))
  ]

  chdir_node-IsFine : (w : W) (c : Ctx F) (n : Node) → IsFine b w (chdir_node b w c n)
  unfolding chdir_node
  chdir_node-IsFine w c (mounted mount rel guest) =
      look_up-IsFine b w c mount (λ m. m.vfs.stat rel true) (enter_dir guest)
        (enter_dir-Notes guest)
  chdir_node-IsFine w c (virtual_dir guest) = kept-IsFine b w (enter c guest) (λ z. cc)
  chdir_node-IsFine w c (program id guest) = errno-IsFine b w c notdir
  chdir_node-IsFine w c (device d) = errno-IsFine b w c notdir
  chdir_node-IsFine w c (synth guest) = errno-IsFine b w c notdir
  chdir_node-IsFine w c (virtual_link target) = errno-IsFine b w c notdir

  access_node-IsFine :
      (follow : Bool) (w : W) (c : Ctx F) (n : Node) → IsFine b w (access_node b follow w c n)
  unfolding access_node
  access_node-IsFine follow w c n = elim (Option-cases (mount_of n)) [
    | inl e ↦ rw (access_node, e) (kept-IsFine b w (c, ok (pos 0)) (λ z. cc))
    | inr ((mount, rel), e) ↦
        rw (access_node, e)
          (look_up-IsFine b w c mount (λ m. m.vfs.stat rel follow) (λ c st. (c, ok (pos 0)))
            (λ c st z. cc))
  ]

  readlink_node-IsFine :
      (at size : ℕ) (w : W) (c : Ctx F) (n : Node) → IsFine b w (readlink_node b at size w c n)
  unfolding readlink_node
  readlink_node-IsFine at size w c (virtual_link target) =
      kept-IsFine b w (copy_target at size c target) (copy_target-Notes at size c target)
  readlink_node-IsFine at size w c (mounted mount rel guest) =
      look_up-IsFine b w c mount (λ m. m.vfs.readlink rel) (copy_target at size)
        (copy_target-Notes at size)
  readlink_node-IsFine at size w c (device (Device.fd n)) =
      kept-IsFine b w (fd_target at size c n) (fd_target-Notes at size c n)
  readlink_node-IsFine at size w c (device Device.null) = errno-IsFine b w c inval
  readlink_node-IsFine at size w c (device Device.zero) = errno-IsFine b w c inval
  readlink_node-IsFine at size w c (device Device.random) = errno-IsFine b w c inval
  readlink_node-IsFine at size w c (device Device.tty) = errno-IsFine b w c inval
  readlink_node-IsFine at size w c (program id guest) = errno-IsFine b w c inval
  readlink_node-IsFine at size w c (synth guest) = errno-IsFine b w c inval
  readlink_node-IsFine at size w c (virtual_dir guest) = errno-IsFine b w c inval

  unlink_node-IsFine :
      (dir : Bool) (w : W) (c : Ctx F) (n : Node) → IsFine b w (unlink_node b dir w c n)
  unfolding unlink_node
  unlink_node-IsFine dir w c n = elim (Option-cases (mount_of n)) [
    | inl e ↦ rw (unlink_node, e) (errno-IsFine b w c rofs)
    | inr ((mount, rel), e) ↦
        rw (unlink_node, e)
          (change-IsFine b w c mount
            (λ w. if dir then b.rmdir w mount rel else b.unlink w mount rel))
  ]

  rename_nodes-IsFine :
      (w : W) (c : Ctx F) (from to : Node) → IsFine b w (rename_nodes b w c from to)
  unfolding rename_nodes
  rename_nodes-IsFine w c from to = elim (Option-cases (mount_of from)) [
    | inl e ↦ rw (rename_nodes, e) (errno-IsFine b w c rofs)
    | inr ((m₁, r₁), e) ↦ elim (Option-cases (mount_of to)) [
      | inl d ↦ rw (rename_nodes, e, d) (errno-IsFine b w c rofs)
      | inr ((m₂, r₂), d) ↦ elim (Bool-cases (m₁ == m₂)) [
        | inl x ↦ rw (rename_nodes, e, d, x) (change-IsFine b w c m₁ (λ w. b.rename w m₁ r₁ r₂))
        | inr x ↦ rw (rename_nodes, e, d, x) (errno-IsFine b w c xdev)
      ]
    ]
  ]

  chmod_node-IsFine :
      (mode : ℕ) (w : W) (c : Ctx F) (n : Node) → IsFine b w (chmod_node b mode w c n)
  unfolding chmod_node
  chmod_node-IsFine mode w c n = elim (Option-cases (mount_of n)) [
    | inl e ↦ rw (chmod_node, e) (kept-IsFine b w (c, ok (pos 0)) (λ z. cc))
    | inr ((mount, rel), e) ↦
        rw (chmod_node, e)
          (change-IsFine b w c mount (λ w. b.set_mode w mount rel (bit_and mode 0o7777)))
  ]

  -- A call on one path that is resolved.
  at_path-IsFine :
      (overlay : Overlay) (lossy : Bytes → Bytes) (w : W) (c : Ctx F) (at : ℕ) (dirfd : ℤ)
      (follow : Bool) (k : Ctx F → Node → W × Sys F ℤ)
      → ((c : Ctx F) (n : Node) → IsFine b w (k c n))
      → IsFine b w
          (with_path lossy w c at λ path. with_node w (resolve b overlay w c dirfd path follow) k)
  at_path-IsFine overlay lossy w c at dirfd follow k h =
      with_path-IsFine b lossy w c at
        (λ path. with_node w (resolve b overlay w c dirfd path follow) k)
        λ path.
          with_node-IsFine b w (resolve b overlay w c dirfd path follow) k
            (resolve-Notes b overlay w c dirfd path follow) h

  -- A new name at a path.
  at_new-IsFine :
      (overlay : Overlay) (w : W) (c : Ctx F) (dirfd : ℤ) (path : Bytes) (follow : Bool)
      (f : ℕ → Bytes → W → W × VfsResult (Unit {0}))
      → IsFine b w (
          with_new w
            (resolve b overlay w c dirfd path follow)
            λ c mount rel. change b w c mount (f mount rel))
  at_new-IsFine overlay w c dirfd path follow f =
      with_new-IsFine b w (resolve b overlay w c dirfd path follow)
        (λ c mount rel. change b w c mount (f mount rel))
        (resolve-Notes b overlay w c dirfd path follow)
        λ c mount rel. change-IsFine b w c mount (f mount rel)

  -- Two paths, one after the other.
  at_paths-IsFine :
      (lossy : Bytes → Bytes) (w : W) (c : Ctx F) (at₁ at₂ : ℕ) (k : Bytes → Bytes → W × Sys F ℤ)
      → ((p q : Bytes) → IsFine b w (k p q))
      → IsFine b w (with_path lossy w c at₁ λ p. with_path lossy w c at₂ (k p))
  at_paths-IsFine lossy w c at₁ at₂ k h =
      with_path-IsFine b lossy w c at₁ (λ p. with_path lossy w c at₂ (k p))
        λ p. with_path-IsFine b lossy w c at₂ (k p) (h p)

  -- Where a call on the directory `dirfd` looks for two nodes.
  abbrev two_nodes : Overlay → W → Ctx F → ℤ → ℤ → Bytes → Bytes → W × Sys F ℤ
  two_nodes overlay w c from_fd to_fd p q =
      with_node w (resolve b overlay w c from_fd p false) λ c₁ from.
        with_node w (resolve b overlay w c₁ to_fd q false) λ c₂ to. rename_nodes b w c₂ from to

  two_nodes-IsFine :
      (overlay : Overlay) (w : W) (c : Ctx F) (from_fd to_fd : ℤ) (p q : Bytes)
      → IsFine b w (two_nodes overlay w c from_fd to_fd p q)
  two_nodes-IsFine overlay w c from_fd to_fd p q =
      with_node-IsFine b w (resolve b overlay w c from_fd p false)
        (λ c₁ from.
          with_node w (resolve b overlay w c₁ to_fd q false) λ c₂ to. rename_nodes b w c₂ from to)
        (resolve-Notes b overlay w c from_fd p false)
        λ c₁ from.
          with_node-IsFine b w (resolve b overlay w c₁ to_fd q false)
            (λ c₂ to. rename_nodes b w c₂ from to) (resolve-Notes b overlay w c₁ to_fd q false)
            λ c₂ to. rename_nodes-IsFine w c₂ from to

  run-IsFine :
      (overlay : Overlay) (lossy : Bytes → Bytes) (call : PathCall) (w : W) (c : Ctx F)
      → IsFine b w (run b overlay lossy call w c)
  unfolding run
  run-IsFine overlay lossy (truncate path_at size) w c =
      at_path-IsFine overlay lossy w c path_at at_fdcwd true (truncate_node b size w)
        (truncate_node-IsFine size w)
  run-IsFine overlay lossy (chdir path_at) w c =
      at_path-IsFine overlay lossy w c path_at at_fdcwd true (chdir_node b w) (chdir_node-IsFine w)
  run-IsFine overlay lossy (faccessat dirfd path_at flags) w c =
      let follow = bit_and flags at_symlink_nofollow == 0 in
      at_path-IsFine overlay lossy w c path_at dirfd follow (access_node b follow w)
        (access_node-IsFine follow w)
  run-IsFine overlay lossy (readlinkat dirfd path_at at size) w c =
      at_path-IsFine overlay lossy w c path_at dirfd false (readlink_node b at size w)
        (readlink_node-IsFine at size w)
  run-IsFine overlay lossy (mkdirat dirfd path_at mode) w c =
      with_path-IsFine b lossy w c path_at
        (λ path. with_new w (resolve b overlay w c dirfd path true) λ c' mount rel.
          change b w c' mount
            (λ w. b.mkdir w mount rel (bit_and (and_not mode c'.task.umask) 0o777)))
        λ path.
          with_new-IsFine b w (resolve b overlay w c dirfd path true)
            (λ c' mount rel.
              change b w c' mount
                (λ w. b.mkdir w mount rel (bit_and (and_not mode c'.task.umask) 0o777)))
            (resolve-Notes b overlay w c dirfd path true)
            λ c' mount rel.
              change-IsFine b w c' mount
                (λ w. b.mkdir w mount rel (bit_and (and_not mode c'.task.umask) 0o777))
  run-IsFine overlay lossy (unlinkat dirfd path_at flags) w c =
      let remove_dir = not (bit_and flags at_removedir == 0) in
      at_path-IsFine overlay lossy w c path_at dirfd false (unlink_node b remove_dir w)
        (unlink_node-IsFine remove_dir w)
  run-IsFine overlay lossy (renameat from_fd from_at to_fd to_at) w c =
      at_paths-IsFine lossy w c from_at to_at (two_nodes overlay w c from_fd to_fd)
        (two_nodes-IsFine overlay w c from_fd to_fd)
  run-IsFine overlay lossy (symlinkat target_at dirfd path_at) w c =
      at_paths-IsFine lossy w c target_at path_at
        (λ target path.
          with_new w (resolve b overlay w c dirfd path false)
            λ c' mount rel. change b w c' mount (λ w. b.symlink w mount target rel))
        λ target path.
          at_new-IsFine overlay w c dirfd path false (λ mount rel w. b.symlink w mount target rel)
  run-IsFine overlay lossy (fchmodat dirfd path_at mode) w c =
      at_path-IsFine overlay lossy w c path_at dirfd true (chmod_node b mode w)
        (chmod_node-IsFine mode w)
  run-IsFine overlay lossy (utimensat dirfd path_at flags) w c =
      let follow = bit_and flags at_symlink_nofollow == 0 in
      with_path-IsFine b lossy w c path_at
        (λ path.
          if is_empty path
          then (w, (c, ok (pos 0)))
          else with_node w (resolve b overlay w c dirfd path follow) (access_node b true w))
        λ path. elim (Bool-cases (is_empty path)) [
          | inl e ↦ rw e (kept-IsFine b w (c, ok (pos 0)) (λ z. cc))
          | inr e ↦ rw e (
              with_node-IsFine b w (resolve b overlay w c dirfd path follow) (access_node b true w)
                (resolve-Notes b overlay w c dirfd path follow) (access_node-IsFine true w))
        ]

-- Where every mount is read only, none of the calls truncate, chdir, faccessat, readlinkat, mkdirat,
-- unlinkat, renameat, symlinkat, fchmodat and utimensat changes a filesystem: the state of the
-- filesystems is the one before the call, whatever the call answers. Openat is not among them.
pub run-read_only :
    {W F : Type 0} (b : Filesystems W) (overlay : Overlay) (lossy : Bytes → Bytes) (call : PathCall)
    (w : W) (c : Ctx F)
    → IsReadOnly b w
    → (run b overlay lossy call w c).0 ≡ w
run-read_only b overlay lossy call w c ro = (run-IsFine b overlay lossy call w c).keeps ro

-- A call on a path that blocks has noted that a filesystem is pending, so that the scheduler knows
-- what the process waits for.
run-pending :
    {W F : Type 0} (b : Filesystems W) (overlay : Overlay) (lossy : Bytes → Bytes) (call : PathCall)
    (w : W) (c : Ctx F)
    → (run b overlay lossy call w c).1.1 ≡ err block
    → (run b overlay lossy call w c).1.0.shared.vfs_pending ≡ true
run-pending b overlay lossy call w c e = (run-IsFine b overlay lossy call w c).notes e
