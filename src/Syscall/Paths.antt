-- ===== src/Syscall/Paths.antt =====
-- crates/wasmux/src/kernel/syscall.rs: the calls that take a path.
-- The state of all mounted filesystems is `W`; what the mounts are in a state, and what their
-- methods answer and leave behind, are parameters, and so is `String::from_utf8_lossy`.
pub mod Handlers
pub mod Checks
pub mod Safety
mod Tests
use Prim.Native.Nat.{bit_and}
use wasmux.Prelude.{
  ℕ, zero, suc, ◌+◌, ◌-◌, ◌*◌, ◌%◌, ◌^◌, min, Bool, true, false, not, Option, none, some, List, [],
  ◌∷◌, ◌==◌, ltb, if◌then◌else◌, ℤ, pos, negsuc, eq_ℤ, as_i32, Result, ok, err, length, take,
  get_elem?, and_not,
}
use wasmux.Errno.{Errno, VfsResult, badf, notdir, inval, again, is, rofs, noent, exist, xdev, range}
use wasmux.Slab
use wasmux.Desc.{Bytes, Desc, DescKind}
use wasmux.Fd
use wasmux.Mem.{cstr_bytes, put, put_u8}
use wasmux.Path.{is_absolute, is_empty}
use wasmux.Vfs.{Stat, FileType}
use wasmux.Mounts.{Mount, root}
use wasmux.Nodes.{
  Device, Node, program, device, synth, mounted, virtual_dir, virtual_link, Overlay, Who,
}
use wasmux.Resolve
use wasmux.Ctx.{Ctx, Fault, errno, block, Sys, with_shared}
use wasmux.Syscall.Streams.{is_read_only}

-- The methods of the trait `Vfs` that change a filesystem, by the index of its mount.
pub record Filesystems (W : Type 0) : Type 0 where
  pub mounts : W → List Mount
  pub truncate : W → ℕ → Bytes → ℕ → W × VfsResult (Unit {0})
  pub mkdir : W → ℕ → Bytes → ℕ → W × VfsResult (Unit {0})
  pub unlink : W → ℕ → Bytes → W × VfsResult (Unit {0})
  pub rmdir : W → ℕ → Bytes → W × VfsResult (Unit {0})
  pub rename : W → ℕ → Bytes → Bytes → W × VfsResult (Unit {0})
  pub symlink : W → ℕ → Bytes → Bytes → W × VfsResult (Unit {0})
  pub set_mode : W → ℕ → Bytes → ℕ → W × VfsResult (Unit {0})

-- crates/wasmux/src/abi.rs
abbrev pub at_fdcwd : ℤ
at_fdcwd = negsuc 99

abbrev pub at_symlink_nofollow : ℕ
at_symlink_nofollow = 0x100

abbrev pub at_removedir : ℕ
at_removedir = 0x200

-- `i32::saturating_add(1)`
unfoldable pub add_one : ℤ → ℤ
add_one (pos n) = pos (min (n + 1) (2 ^ 31 - 1))
add_one (negsuc zero) = pos 0
add_one (negsuc (suc n)) = negsuc n

module _ {F : Type 0} where
  -- The directory that a path is relative to.
  unfoldable pub base_of : Ctx F → ℤ → Bytes → Result Fault Bytes
  base_of c dirfd path =
      if is_absolute path
      then ok root
      else if eq_ℤ dirfd at_fdcwd
      then ok c.task.cwd
      else elim (Fd.get c.task.fds dirfd) [
        | err e ↦ err (errno e)
        | ok entry ↦ elim (Slab.get c.shared.descs entry.desc) [
          | none ↦ err (errno badf)
          | some d ↦ elim (d.kind) [ DescKind.dir entries at ↦ ok d.path | _ ↦ err (errno notdir) ]
        ]
      ]

  -- `ctx.who()`
  abbrev pub who : Ctx F → Who
  who c = record { cwd = c.task.cwd; exe = c.task.exe; pid = c.task.pid }

  -- `vfs_fault`: a filesystem that is not ready blocks the process.
  unfoldable pub vfs_fault : {A : Type 0} → Ctx F → VfsResult A → Sys F A
  vfs_fault c (ok a) = (c, ok a)
  vfs_fault c (err e) =
      if is e again
      then (with_shared c (record (c.shared) { vfs_pending = true }), err block)
      else (c, err (errno e))

  -- `Ok(0)` after a method of a filesystem.
  unfoldable pub zero_of : {A : Type 0} → Sys F A → Sys F ℤ
  zero_of (c, ok a) = (c, ok (pos 0))
  zero_of (c, err e) = (c, err e)

  -- `nr::GETCWD`
  unfoldable pub getcwd : Ctx F → ℕ → ℕ → Sys F ℤ
  unfolding add_one
  getcwd c at size =
      if ltb size (length c.task.cwd + 1)
      then (c, err (errno range))
      else elim (put c.memory at c.task.cwd) [
        | err e ↦ (c, err (errno e))
        | ok m ↦ elim (put_u8 m ((at + length c.task.cwd) % 2 ^ 32) 0) [
          | err e ↦ (record c { memory = m }, err (errno e))
          | ok m' ↦ (record c { memory = m' }, ok (add_one (as_i32 (length c.task.cwd))))
        ]
      ]

  -- `nr::FCHDIR`
  unfoldable pub fchdir : Ctx F → ℤ → Sys F ℤ
  fchdir c fd = elim (Fd.get c.task.fds fd) [
    | err e ↦ (c, err (errno e))
    | ok entry ↦ elim (Slab.get c.shared.descs entry.desc) [
      | none ↦ (c, err (errno badf))
      | some d ↦ elim (d.kind) [
        | DescKind.dir entries at ↦
            (record c { task = record (c.task) { cwd = d.path } }, ok (pos 0))
        | _ ↦ (c, err (errno notdir))
      ]
    ]
  ]

  -- `ctx.task.cwd = target`
  abbrev pub enter : Ctx F → Bytes → Sys F ℤ
  enter c guest = (record c { task = record (c.task) { cwd = guest } }, ok (pos 0))

  abbrev pub enter_dir : Bytes → Ctx F → Stat → Sys F ℤ
  enter_dir guest c st = elim (st.file_type) [
    | FileType.dir ↦ enter c guest
    | _ ↦ (c, err (errno notdir))
  ]

  -- The end of `readlinkat`: as much of the target as fits.
  unfoldable pub copy_target : ℕ → ℕ → Ctx F → Bytes → Sys F ℤ
  copy_target at size c target =
      let count = min (length target) size in
      elim (put c.memory at (take count target)) [
        | err e ↦ (c, err (errno e))
        | ok m ↦ (record c { memory = m }, ok (as_i32 count))
      ]

  -- The path of the description behind `/proc/self/fd/N`.
  unfoldable pub fd_target : ℕ → ℕ → Ctx F → ℤ → Sys F ℤ
  unfolding copy_target
  fd_target at size c fd = elim (Fd.get c.task.fds fd) [
    | err e ↦ (c, err (errno e))
    | ok entry ↦ elim (Slab.get c.shared.descs entry.desc) [
      | none ↦ (c, err (errno badf))
      | some d ↦ copy_target at size c d.path
    ]
  ]

module _ {W F : Type 0} where
  -- `memory(s).cstr(..)?`, the rest of the handler and the state of the filesystems.
  unfoldable pub with_path : (Bytes → Bytes) → W → Ctx F → ℕ → (Bytes → W × Sys F ℤ) → W × Sys F ℤ
  with_path lossy w c at k = elim (cstr_bytes c.memory at) [
    | err e ↦ (w, (c, err (errno e)))
    | ok path ↦ k (lossy path)
  ]

  -- `resolve(..)?`
  unfoldable pub with_node : W → Sys F Node → (Ctx F → Node → W × Sys F ℤ) → W × Sys F ℤ
  with_node w (c, err e) k = (w, (c, err e))
  with_node w (c, ok node) k = k c node

  -- A new name at a path: what is not on a mount is there already, or cannot be made.
  unfoldable pub with_new : W → Sys F Node → (Ctx F → ℕ → Bytes → W × Sys F ℤ) → W × Sys F ℤ
  with_new w (c, ok (mounted mount rel guest)) k = k c mount rel
  with_new w (c, ok node) k = (w, (c, err (errno exist)))
  with_new w (c, err (errno e)) k = (w, (c, err (errno (if is e noent then rofs else e))))
  with_new w (c, err fault) k = (w, (c, err fault))

module _ {W F : Type 0} (b : Filesystems W) where
  -- `resolve`
  unfoldable pub resolve : Overlay → W → Ctx F → ℤ → Bytes → Bool → Sys F Node
  unfolding base_of
  resolve overlay w c dirfd path follow = elim (base_of c dirfd path) [
    | err e ↦ (c, err e)
    | ok base ↦ vfs_fault c (Resolve.resolve overlay (b.mounts w) (who c) base path follow)
  ]

  -- A method that changes a filesystem, on a mount that is not read only.
  unfoldable pub change : W → Ctx F → ℕ → (W → W × VfsResult (Unit {0})) → W × Sys F ℤ
  unfolding is_read_only
  change w c mount f =
      if is_read_only (b.mounts w) mount
      then (w, (c, err (errno rofs)))
      else elim (get_elem? (b.mounts w) mount) [
        | none ↦ (w, (c, err (errno noent)))
        | some m ↦ let (w', r) = f w in (w', zero_of (vfs_fault c r))
      ]

  -- A method that looks a path up.
  unfoldable pub look_up :
      {A : Type 0} → W → Ctx F → ℕ → (Mount → VfsResult A) → (Ctx F → A → Sys F ℤ) → W × Sys F ℤ
  unfolding vfs_fault
  look_up w c mount f k = elim (get_elem? (b.mounts w) mount) [
    | none ↦ (w, (c, err (errno noent)))
    | some m ↦
        let (c', r) = vfs_fault c (f m) in elim r [ err e ↦ (w, (c', err e)) | ok a ↦ (w, k c' a) ]
  ]
