-- ===== src/Syscall/Descriptors.antt =====
-- crates/wasmux/src/kernel/syscall.rs: the calls that make, share and drop descriptors.
-- Each branch returns the state as the code leaves it, also where it fails half way.
pub mod Balance
use Prim.Native.Nat.{bit_and, bit_or}
use wasmux.Prelude.{
  ℕ, ◌-◌, min, ◌*◌, ◌+◌, ◌%◌, ◌^◌, Bool, true, false, ◌||◌, not, Option, none, some, List, [], ◌∷◌,
  ◌==◌, if◌then◌else◌, ℤ, pos, negsuc, eq_ℤ, as_i32, as_u32, Result, ok, err, ok_or,
}
use wasmux.Errno.{Errno, VfsResult, badf, mfile, inval, again}
use wasmux.Slab
use wasmux.Slab.{Key, Slab}
use wasmux.Desc
use wasmux.Desc.{
  Bytes, Desc, DescKind, Pipe, o_accmode, o_rdonly, o_wronly, o_append, o_nonblock, o_cloexec,
}
use wasmux.Fd
use wasmux.Fd.{Fd, FdTable, retain}
use wasmux.Shared.{Shared, release_desc, release_keys, release_fds}
use wasmux.Mem.{put_u32}
use wasmux.Task.{Task}
use wasmux.Ctx.{Ctx, Fault, errno, Sys, lift, with_fds, with_descs, with_shared}

-- `F_SETFL` keeps the access mode.
abbrev pub status_flags : ℕ → ℕ → ℕ
status_flags flags argument =
    bit_or (bit_and flags o_accmode) (bit_and argument (bit_or o_append o_nonblock))

abbrev pub f_dupfd : ℤ
f_dupfd = pos 0

abbrev pub f_getfd : ℤ
f_getfd = pos 1

abbrev pub f_setfd : ℤ
f_setfd = pos 2

abbrev pub f_getfl : ℤ
f_getfl = pos 3

abbrev pub f_setfl : ℤ
f_setfl = pos 4

abbrev pub f_getlk : ℤ
f_getlk = pos 5

abbrev pub f_setlk : ℤ
f_setlk = pos 6

abbrev pub f_setlkw : ℤ
f_setlkw = pos 7

abbrev pub f_dupfd_cloexec : ℤ
f_dupfd_cloexec = pos 1030

-- "pipe:"
abbrev pub pipe_name : Bytes
pipe_name = b'p' ∷ b'i' ∷ b'p' ∷ b'e' ∷ b':' ∷ []

-- `argument.max(0) as usize`
abbrev pub at_least_zero : ℤ → ℕ
at_least_zero (pos n) = n
at_least_zero (negsuc n) = 0

module _ {F : Type 0} where
  -- `nr::CLOSE`
  unfoldable pub close : Ctx F → ℤ → Sys F ℤ
  close c fd =
      let (fds, r) = Fd.take c.task.fds fd in
      let c' = with_fds c fds in
      elim r [
        | err e ↦ (c', err (errno e))
        | ok entry ↦ (with_shared c' (release_desc c.shared entry.desc), ok (pos 0))
      ]

  -- A new descriptor for a description that has one: the body of `nr::DUP`, of F_DUPFD, and of
  -- opening `/proc/self/fd/N`. The count goes up before the number is allocated.
  unfoldable pub share : Ctx F → Key → Bool → ℕ → Sys F ℤ
  share c key cloexec least =
      let (fds, r) =
        Fd.alloc c.task.fds (record { desc = key; cloexec = cloexec }) least
          c.shared.limits.open_files in
      (with_fds (with_descs c (retain c.shared.descs key)) fds, lift r)

  -- `nr::DUP`
  unfoldable pub dup : Ctx F → ℤ → Sys F ℤ
  unfolding share
  dup c fd = elim (Fd.get c.task.fds fd) [
    | err e ↦ (c, err (errno e))
    | ok entry ↦ share c entry.desc false 0
  ]

  -- `nr::DUP3`
  unfoldable pub dup3 : Ctx F → ℤ → ℤ → ℕ → Sys F ℤ
  dup3 c old_fd new_fd flags =
      if eq_ℤ old_fd new_fd then (c, err (errno inval)) else elim (Fd.get c.task.fds old_fd) [
        | err e ↦ (c, err (errno e))
        | ok entry ↦
            let placed : Fd = record {
              desc = entry.desc;
              cloexec = not (bit_and flags o_cloexec == 0);
            } in
            let (fds, r) = Fd.replace c.task.fds new_fd placed c.shared.limits.open_files in
            let c' = with_fds (with_descs c (retain c.shared.descs entry.desc)) fds in
            elim r [
              | err e ↦ (c', err (errno e))
              | ok none ↦ (c', ok new_fd)
              | ok (some old) ↦ (with_shared c' (release_desc c'.shared old.desc), ok new_fd)
            ]
      ]

  -- `F_SETFL`
  set_flags : Ctx F → Key → ℕ → Sys F ℤ
  set_flags c key argument = elim (Slab.get c.shared.descs key) [
    | none ↦ (c, err (errno badf))
    | some d ↦ (
      with_descs c
          (Slab.put c.shared.descs key (record d { flags = status_flags d.flags argument })),
      ok (pos 0),
    )
  ]

  -- `F_GETFL`
  get_flags : Ctx F → Key → Sys F ℤ
  get_flags c key = elim (Slab.get c.shared.descs key) [
    | none ↦ (c, err (errno badf))
    | some d ↦ (c, ok (as_i32 d.flags))
  ]

  -- A command on a descriptor that is open, else EBADF.
  abbrev pub on_fd : Ctx F → ℤ → (Fd → Sys F ℤ) → Sys F ℤ
  on_fd c fd k = elim (Fd.get c.task.fds fd) [ err e ↦ (c, err (errno e)) | ok entry ↦ k entry ]

  -- `F_SETFD`
  set_fd_flags : Ctx F → ℤ → Bool → Sys F ℤ
  set_fd_flags c fd flag =
      let (fds, r) = Fd.set_cloexec c.task.fds fd flag in
      elim r [ err e ↦ (c, err (errno e)) | ok u ↦ (with_fds c fds, ok (pos 0)) ]

  -- `nr::FCNTL`, its commands by the numbers of crates/wasmux/src/abi.rs.
  unfoldable pub fcntl : Ctx F → ℤ → ℤ → ℤ → Sys F ℤ
  unfolding share set_flags get_flags set_fd_flags
  fcntl c fd command argument =
      if eq_ℤ command f_dupfd || eq_ℤ command f_dupfd_cloexec
      then on_fd c fd
          (λ entry. share c entry.desc (eq_ℤ command f_dupfd_cloexec) (at_least_zero argument))
      else if eq_ℤ command f_getfd
      then on_fd c fd (λ entry. (c, ok (pos (if entry.cloexec then 1 else 0))))
      else if eq_ℤ command f_setfd
      then set_fd_flags c fd (not (bit_and (as_u32 argument) 1 == 0))
      else if eq_ℤ command f_getfl
      then on_fd c fd (λ entry. get_flags c entry.desc)
      else if eq_ℤ command f_setfl
      then on_fd c fd (λ entry. set_flags c entry.desc (as_u32 argument))
      else if eq_ℤ command f_getlk || (eq_ℤ command f_setlk || eq_ℤ command f_setlkw)
      then on_fd c fd (λ entry. (c, ok (pos 0)))
      else (c, err (errno inval))

  -- The two numbers are written to the guest; the first stays written if the second faults.
  write_pair : Ctx F → ℕ → ℤ → ℤ → Sys F ℤ
  write_pair c out read_fd write_fd = elim (put_u32 c.memory out (as_u32 read_fd)) [
    | err e ↦ (c, err (errno e))
    | ok m ↦ elim (put_u32 m ((out + 4) % 2 ^ 32) (as_u32 write_fd)) [
      | err e ↦ (record c { memory = m }, err (errno e))
      | ok m' ↦ (record c { memory = m' }, ok (pos 0))
    ]
  ]

  -- No number for the write end: the read end is closed again.
  undo_read : Ctx F → ℤ → Errno → Sys F ℤ
  undo_read c read_fd e =
      let (fds, r) = Fd.take c.task.fds read_fd in
      let c' = with_fds c fds in
      elim r [
        | err x ↦ (c', err (errno e))
        | ok entry ↦ (with_shared c' (release_desc c.shared entry.desc), err (errno e))
      ]

  pipe_fds : Ctx F → ℕ → Bool → Key → Key → Sys F ℤ
  unfolding write_pair undo_read
  pipe_fds c out cloexec read_desc write_desc =
      let limit = c.shared.limits.open_files in
      let (fds, r) = Fd.alloc c.task.fds (record { desc = read_desc; cloexec = cloexec }) 0 limit in
      elim r [
        | err e ↦ (with_fds c fds, err (errno e))
        | ok read_fd ↦
            let (fds', w) =
              Fd.alloc fds (record { desc = write_desc; cloexec = cloexec }) 0 limit in
            elim w [
              | err e ↦ undo_read (with_fds c fds') read_fd e
              | ok write_fd ↦ write_pair (with_fds c fds') out read_fd write_fd
            ]
      ]

  pipe_descs : Ctx F → ℕ → ℕ → Key → Sys F ℤ
  unfolding pipe_fds
  pipe_descs c out flags pipe =
      let most = min (c.shared.limits.open_files * 4) (2 ^ 64 - 1) in
      let nonblock = bit_and flags o_nonblock in
      let (descs, r) =
        Slab.insert c.shared.descs
          (Desc.new (DescKind.pipe_read pipe) pipe_name (bit_or o_rdonly nonblock)) most in
      elim r [
        | none ↦ (with_descs c descs, err (errno mfile))
        | some read_desc ↦
            let (descs', w) =
              Slab.insert descs
                (Desc.new (DescKind.pipe_write pipe) pipe_name (bit_or o_wronly nonblock)) most in
            elim w [
              | none ↦ (with_descs c descs', err (errno mfile))
              | some write_desc ↦
                  pipe_fds (with_descs c descs') out (not (bit_and flags o_cloexec == 0)) read_desc
                    write_desc
            ]
      ]

  -- `nr::PIPE2`
  unfoldable pub pipe2 : Ctx F → ℕ → ℕ → Sys F ℤ
  unfolding pipe_descs
  pipe2 c out flags =
      let (pipes, r) = Slab.insert c.shared.pipes Desc.new_pipe c.shared.limits.open_files in
      let c' = with_shared c (record (c.shared) { pipes = pipes }) in
      elim r [ none ↦ (c', err (errno mfile)) | some pipe ↦ pipe_descs c' out flags pipe ]
