-- ===== src/Syscall/Streams/Quiet.antt =====
-- crates/wasmux/src/kernel/syscall.rs: what reading and writing a stream leaves alone.
use wasmux.Prelude.{
  ℕ, ◌≡◌, refl, inl, inr, Bool, not, ◌==◌, List, ℤ, ok, err, Bool-cases, Option-cases, Result-cases,
}
use wasmux.Errno.{VfsResult, is, again}
use wasmux.Slab
use wasmux.Slab.{Key}
use wasmux.Desc.{Bytes, Desc, DescKind, readable, writable}
use wasmux.Fd
use wasmux.Vfs.{VfsFile}
use wasmux.Mounts.{Mount}
use wasmux.Shared.{write_output}
use wasmux.Ctx.{Ctx}
use wasmux.Syscall.Streams.{
  file_result, read_from_pipe, read_kind, read_bytes, write_to_pipe, write_kind, write_bytes,
  is_read_only, with_kind,
}

module _ {F : Type 0} where
  -- The charge of the session, its limits and the growth of the process stay.
  pub record IsQuiet (c c' : Ctx F) : Type 0 where
    pub used : c'.shared.memory_used ≡ c.shared.memory_used
    pub limits : c'.shared.limits ≡ c.shared.limits
    pub grown : c'.grown ≡ c.grown

  pub quiet : (c : Ctx F) → IsQuiet c c
  quiet c = record { used = refl; limits = refl; grown = refl }

module _ {F : Type 0} (files : VfsFile F) (mounts : List Mount) (seed : ℕ) where
  file_result-IsQuiet :
      {A : Type 0} (c c' : Ctx F) (r : VfsResult A)
      → IsQuiet c c'
      → IsQuiet c (file_result files mounts seed c' r).0
  unfolding file_result
  file_result-IsQuiet c c' (ok a) h = h
  file_result-IsQuiet c c' (err e) h = elim (Bool-cases (is e again)) [
    | inl p ↦ rw (file_result, p) (record { used = h.used; limits = h.limits; grown = h.grown })
    | inr p ↦ rw (file_result, p) h
  ]

  read_pipe-IsQuiet :
      (c : Ctx F) (key : Key) (nonblocking : Bool) (n : ℕ)
      → IsQuiet c (read_from_pipe files mounts seed c key nonblocking n).0
  unfolding read_from_pipe
  read_pipe-IsQuiet c key nonblocking n = elim (Option-cases (Slab.get c.shared.pipes key)) [
    | inl e ↦ rw (read_from_pipe, e) (quiet c)
    | inr (p, e) ↦ rw (read_from_pipe, e) (record { used = refl; limits = refl; grown = refl })
  ]

  write_pipe-IsQuiet :
      (c : Ctx F) (key : Key) (nonblocking : Bool) (bytes : Bytes)
      → IsQuiet c (write_to_pipe files mounts seed c key nonblocking bytes).0
  unfolding write_to_pipe
  write_pipe-IsQuiet c key nonblocking bytes = elim (Option-cases (Slab.get c.shared.pipes key)) [
    | inl e ↦ rw (write_to_pipe, e) (quiet c)
    | inr (p, e) ↦ elim (Bool-cases (p.readers == 0)) [
      | inl b ↦ rw (write_to_pipe, e, b) (record { used = refl; limits = refl; grown = refl })
      | inr b ↦ rw (write_to_pipe, e, b) (record { used = refl; limits = refl; grown = refl })
    ]
  ]

  read_kind-IsQuiet :
      (c : Ctx F) (key : Key) (d : Desc F) (n : ℕ) (kind : DescKind F)
      → IsQuiet c (read_kind files mounts seed c key (record d { kind = kind }) n).0
  unfolding read_kind
  read_kind-IsQuiet c key d n (DescKind.file f mount done) =
      let (f', r) = files.read f n in
      file_result-IsQuiet c
        (with_kind files mounts seed c key (record d { kind = DescKind.file f mount done })
          (DescKind.file f' mount done))
        r (record { used = refl; limits = refl; grown = refl })
  read_kind-IsQuiet c key d n (DescKind.memory bytes at) = record {
    used = refl;
    limits = refl;
    grown = refl;
  }
  read_kind-IsQuiet c key d n DescKind.stdin = record { used = refl; limits = refl; grown = refl }
  read_kind-IsQuiet c key d n (DescKind.pipe_read pipe) = read_pipe-IsQuiet c pipe _ n
  read_kind-IsQuiet c key d n _ = quiet c

  write_kind-IsQuiet :
      (c : Ctx F) (key : Key) (d : Desc F) (bytes : Bytes) (kind : DescKind F)
      → IsQuiet c (write_kind files mounts seed c key (record d { kind = kind }) bytes).0
  unfolding write_kind write_output
  write_kind-IsQuiet c key d bytes (DescKind.file f mount done) =
      elim (Bool-cases (is_read_only mounts mount)) [
        | inl e ↦ rw (write_kind, e) (quiet c)
        | inr e ↦
            let (f', r) = files.write f bytes in
            rw (write_kind, e)
              (file_result-IsQuiet c
                (with_kind files mounts seed c key (record d { kind = DescKind.file f mount done })
                  (DescKind.file f' mount done))
                r (record { used = refl; limits = refl; grown = refl }))
      ]
  write_kind-IsQuiet c key d bytes (DescKind.stdout which) = elim (Bool-cases (which == 2)) [
    | inl e ↦ rw (write_kind, write_output, e) (record { used = refl; limits = refl; grown = refl })
    | inr e ↦ rw (write_kind, write_output, e) (record { used = refl; limits = refl; grown = refl })
  ]
  write_kind-IsQuiet c key d bytes (DescKind.pipe_write pipe) = write_pipe-IsQuiet c pipe _ bytes
  write_kind-IsQuiet c key d bytes _ = quiet c

  pub read_bytes-IsQuiet :
      (c : Ctx F) (fd : ℤ) (n : ℕ) → IsQuiet c (read_bytes files mounts seed c fd n).0
  unfolding read_bytes
  read_bytes-IsQuiet c fd n = elim (Bool-cases (n == 0)) [
    | inl z ↦ rw (read_bytes, z) (quiet c)
    | inr z ↦ elim (Result-cases (Fd.get c.task.fds fd)) [
      | inl (e, q) ↦ rw (read_bytes, z, q) (quiet c)
      | inr (entry, q) ↦ elim (Option-cases (Slab.get c.shared.descs entry.desc)) [
        | inl g ↦ rw (read_bytes, z, q, g) (quiet c)
        | inr (d, g) ↦ elim (Bool-cases (not (readable d))) [
          | inl r ↦ rw (read_bytes, z, q, g, r) (quiet c)
          | inr r ↦ rw (read_bytes, z, q, g, r) (read_kind-IsQuiet c entry.desc d n d.kind)
        ]
      ]
    ]
  ]

  pub write_bytes-IsQuiet :
      (c : Ctx F) (fd : ℤ) (bytes : Bytes) → IsQuiet c (write_bytes files mounts seed c fd bytes).0
  unfolding write_bytes
  write_bytes-IsQuiet c fd bytes = elim (Result-cases (Fd.get c.task.fds fd)) [
    | inl (e, q) ↦ rw (write_bytes, q) (quiet c)
    | inr (entry, q) ↦ elim (Option-cases (Slab.get c.shared.descs entry.desc)) [
      | inl g ↦ rw (write_bytes, q, g) (quiet c)
      | inr (d, g) ↦ elim (Bool-cases (not (writable d))) [
        | inl r ↦ rw (write_bytes, q, g, r) (quiet c)
        | inr r ↦ rw (write_bytes, q, g, r) (write_kind-IsQuiet c entry.desc d bytes d.kind)
      ]
    ]
  ]
