-- ===== src/Syscall/Paths/Checks.antt =====
-- crates/wasmux/src/kernel/syscall.rs: what no call on a path does, composed from the steps that the
-- handlers share.
use wasmux.Prelude.{
  ℕ, Bool, true, ◌≡◌, refl, ap, ◌∙◌, ◌≢◌, inl, inr, arith, ℤ, ok, err, get_elem?, Bool-cases,
  Option-cases, Result-cases,
}
use wasmux.Errno.{Errno, VfsResult, again, is, noent, rofs}
use wasmux.Slab
use wasmux.Desc.{Bytes}
use wasmux.Fd
use wasmux.Mem.{cstr_bytes}
use wasmux.Vfs.{Stat}
use wasmux.Mounts.{Mount}
use wasmux.Nodes.{Node, program, device, synth, mounted, virtual_dir, virtual_link, Overlay}
use wasmux.Ctx.{Ctx, errno, block, exit, exec, Sys}
use wasmux.Syscall.Streams.{is_read_only}
use wasmux.Syscall.Paths.{
  Filesystems, vfs_fault, zero_of, base_of, resolve, with_path, with_node, with_new, change,
  look_up, enter_dir, copy_target, fd_target,
}

module _ {F : Type 0} where
  -- A call that blocks has noted that a filesystem has to be asked again.
  abbrev pub Notes : {A : Type 0} → Sys F A → Type 0
  Notes s = s.1 ≡ err block → s.0.shared.vfs_pending ≡ true

  vfs_fault-Notes : {A : Type 0} (c : Ctx F) (r : VfsResult A) → Notes (vfs_fault c r)
  unfolding vfs_fault
  vfs_fault-Notes c (ok a) = λ e. cc
  vfs_fault-Notes c (err x) = elim (Bool-cases (is x again)) [
    | inl e ↦ rw (vfs_fault, e) (λ z. refl)
    | inr e ↦ rw (vfs_fault, e) (λ z. cc)
  ]

  zero_of-Notes : {A : Type 0} (s : Sys F A) → Notes s → Notes (zero_of s)
  unfolding zero_of
  zero_of-Notes (c, ok a) n = λ e. cc
  zero_of-Notes (c, err x) n = λ e. n (cc)

  pub copy_target-Notes :
      (at size : ℕ) (c : Ctx F) (target : Bytes) → Notes (copy_target at size c target)
  unfolding copy_target
  copy_target-Notes at size c target = ground arith

  pub fd_target-Notes : (at size : ℕ) (c : Ctx F) (fd : ℤ) → Notes (fd_target at size c fd)
  unfolding fd_target
  fd_target-Notes at size c fd = elim (Result-cases (Fd.get c.task.fds fd)) [
    | inl (e, x) ↦ rw (fd_target, x) (λ z. cc)
    | inr (entry, x) ↦ elim (Option-cases (Slab.get c.shared.descs entry.desc)) [
      | inl y ↦ rw (fd_target, x, y) (λ z. cc)
      | inr (d, y) ↦ rw (fd_target, x, y) (copy_target-Notes at size c d.path)
    ]
  ]

  pub enter_dir-Notes : (guest : Bytes) (c : Ctx F) (st : Stat) → Notes (enter_dir guest c st)
  enter_dir-Notes guest c st = ground arith

  base_of-ne : (c : Ctx F) (dirfd : ℤ) (path : Bytes) → base_of c dirfd path ≢ err block
  unfolding base_of
  base_of-ne c dirfd path = ground arith

-- Every mount is read only.
abbrev pub IsReadOnly : {W : Type 0} → Filesystems W → W → Type 0
IsReadOnly b w = (i : ℕ) → is_read_only (b.mounts w) i ≡ true

module _ {W F : Type 0} (b : Filesystems W) where
  -- What each step of a handler keeps, from the state `w` of the filesystems.
  pub record IsFine (w : W) (x : W × Sys F ℤ) : Type 0 where
    pub notes : Notes x.1
    pub keeps : IsReadOnly b w → x.0 ≡ w

  pub errno-IsFine : (w : W) (c : Ctx F) (e : Errno) → IsFine w (w, (c, err (errno e)))
  errno-IsFine w c e = record { notes = λ z. cc; keeps = λ r. refl }

  pub kept-IsFine : (w : W) (s : Sys F ℤ) → Notes s → IsFine w (w, s)
  kept-IsFine w s n = record { notes = n; keeps = λ r. refl }

  pub change-IsFine :
      (w : W) (c : Ctx F) (mount : ℕ) (f : W → W × VfsResult (Unit {0}))
      → IsFine w (change b w c mount f)
  unfolding change
  change-IsFine w c mount f = elim (Bool-cases (is_read_only (b.mounts w) mount)) [
    | inl e ↦ rw (change, e) (errno-IsFine w c rofs)
    | inr e ↦ elim (Option-cases (get_elem? (b.mounts w) mount)) [
      | inl g ↦ rw (change, e, g) (errno-IsFine w c noent)
      | inr (m, g) ↦
          rw (change, e, g)
            (record {
              notes = zero_of-Notes (vfs_fault c (f w).1) (vfs_fault-Notes c (f w).1);
              keeps = λ r. cc (e, r mount);
            })
    ]
  ]

  pub look_up-IsFine :
      {A : Type 0} (w : W) (c : Ctx F) (mount : ℕ) (f : Mount → VfsResult A)
      (k : Ctx F → A → Sys F ℤ)
      → ((c : Ctx F) (a : A) → Notes (k c a))
      → IsFine w (look_up b w c mount f k)
  unfolding look_up
  look_up-IsFine w c mount f k h = elim (Option-cases (get_elem? (b.mounts w) mount)) [
    | inl g ↦ rw (look_up, g) (errno-IsFine w c noent)
    | inr (m, g) ↦ elim (Result-cases (vfs_fault c (f m)).1) [
      | inl (e, x) ↦
          rw (look_up, g, x)
            (kept-IsFine w ((vfs_fault c (f m)).0, err e)
              (λ z. let t : e ≡ block = cc in vfs_fault-Notes c (f m) (x ∙ ap err t)))
      | inr (a, x) ↦ rw (look_up, g, x) (kept-IsFine w _ (h (vfs_fault c (f m)).0 a))
    ]
  ]

  pub resolve-Notes :
      (overlay : Overlay) (w : W) (c : Ctx F) (dirfd : ℤ) (path : Bytes) (follow : Bool)
      → Notes (resolve b overlay w c dirfd path follow)
  unfolding resolve
  resolve-Notes overlay w c dirfd path follow = elim (Result-cases (base_of c dirfd path)) [
    | inl (e, x) ↦
        rw (resolve, x)
          (λ z. let t : e ≡ block = cc in absurd (base_of-ne c dirfd path (x ∙ ap err t)))
    | inr (base, x) ↦ rw (resolve, x) (vfs_fault-Notes c _)
  ]

  pub with_path-IsFine :
      (lossy : Bytes → Bytes) (w : W) (c : Ctx F) (at : ℕ) (k : Bytes → W × Sys F ℤ)
      → ((path : Bytes) → IsFine w (k path))
      → IsFine w (with_path lossy w c at k)
  unfolding with_path
  with_path-IsFine lossy w c at k h = elim (Result-cases (cstr_bytes c.memory at)) [
    | inl (e, x) ↦ rw (with_path, x) (errno-IsFine w c e)
    | inr (path, x) ↦ rw (with_path, x) (h (lossy path))
  ]

  pub with_node-IsFine :
      (w : W) (s : Sys F Node) (k : Ctx F → Node → W × Sys F ℤ)
      → Notes s
      → ((c : Ctx F) (node : Node) → IsFine w (k c node))
      → IsFine w (with_node w s k)
  unfolding with_node
  with_node-IsFine w (c, err e) k n h = kept-IsFine w (c, err e) (λ z. n (cc))
  with_node-IsFine w (c, ok node) k n h = h c node

  pub with_new-IsFine :
      (w : W) (s : Sys F Node) (k : Ctx F → ℕ → Bytes → W × Sys F ℤ)
      → Notes s
      → ((c : Ctx F) (mount : ℕ) (rel : Bytes) → IsFine w (k c mount rel))
      → IsFine w (with_new w s k)
  unfolding with_new
  with_new-IsFine w (c, ok (mounted mount rel guest)) k n h = h c mount rel
  with_new-IsFine w (c, ok (program id guest)) k n h = errno-IsFine w c _
  with_new-IsFine w (c, ok (device d)) k n h = errno-IsFine w c _
  with_new-IsFine w (c, ok (synth guest)) k n h = errno-IsFine w c _
  with_new-IsFine w (c, ok (virtual_dir guest)) k n h = errno-IsFine w c _
  with_new-IsFine w (c, ok (virtual_link target)) k n h = errno-IsFine w c _
  with_new-IsFine w (c, err (errno e)) k n h = errno-IsFine w c _
  with_new-IsFine w (c, err block) k n h = kept-IsFine w (c, err block) (λ z. n refl)
  with_new-IsFine w (c, err (exit status)) k n h = kept-IsFine w (c, err (exit status)) (λ z. cc)
  with_new-IsFine w (c, err exec) k n h = kept-IsFine w (c, err exec) (λ z. cc)
