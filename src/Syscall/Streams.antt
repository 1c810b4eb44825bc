-- ===== src/Syscall/Streams.antt =====
-- crates/wasmux/src/kernel/syscall.rs: read(2) and write(2) on every kind of description.
-- The handles of files, the mounts and the thread's random state are parameters.
pub mod Pipes
pub mod Transfer
pub mod Quiet
use Prim.Native.Nat.{bit_xor}
use wasmux.Prelude.{
  ℕ, zero, suc, ◌-◌, min, ◌*◌, ◌+◌, ◌%◌, ◌/◌, ◌^◌, Bool, true, false, ◌||◌, not, Option, none, some,
  List, [], ◌∷◌, ◌++◌, ◌==◌, ltb, if◌then◌else◌, ℤ, pos, negsuc, eq_ℤ, as_i32, as_u32, Result, ok,
  err, ok_or, length, take, drop, replicate, get_elem?,
}
use wasmux.Errno.{Errno, VfsResult, badf, mfile, inval, again, isdir, rofs, pipe, is}
use wasmux.Slab
use wasmux.Slab.{Key, Slab}
use wasmux.Desc.{
  Bytes, Desc, DescKind, Pipe, is_nonblocking, readable, writable, room, pipe_capacity,
}
use wasmux.Fd
use wasmux.Fd.{Fd, FdTable}
use wasmux.Shared.{Shared, StdinBuffer, ProcRecord, write_output}
use wasmux.Mem.{slice, put, read_u32}
use wasmux.Task.{raise, sigpipe}
use wasmux.Process.{update_record}
use wasmux.Vfs.{VfsFile}
use wasmux.Mounts.{Mount}
use wasmux.Ctx.{Ctx, Fault, errno, block, Sys, lift, with_descs, with_shared}

-- `x as u64` of a left shift keeps the low 64 bits.
abbrev pub xorshift : ℕ → ℕ
xorshift x =
    let a = bit_xor x (x * 2 ^ 13 % 2 ^ 64) in
    let b = bit_xor a (a / 2 ^ 7) in bit_xor b (b * 2 ^ 17 % 2 ^ 64)

-- The bytes that `fill_random` writes, from a state that is not 0.
unfoldable pub random_bytes : ℕ → ℕ → Bytes
random_bytes zero x = []
random_bytes (suc n) x = xorshift x % 256 ∷ random_bytes n (xorshift x)

-- `Shared::is_read_only`: a mount that is not there is read only.
unfoldable pub is_read_only : List Mount → ℕ → Bool
is_read_only mounts mount = elim (get_elem? mounts mount) [ none ↦ true | some m ↦ m.read_only ]

-- The bytes from `front` up to the end of a line, and what is left.
unfoldable pub take_line : ℕ → Bytes → Bytes × Bytes
take_line zero front = ([], front)
take_line (suc n) [] = ([], [])
take_line (suc n) (b ∷ front) =
    let (line, rest) = take_line n front in if b == 10 then (b ∷ [], front) else (b ∷ line, rest)

unfoldable pub read_stdin : StdinBuffer → Bool → ℕ → StdinBuffer × Result Fault Bytes
unfolding take_line
read_stdin s nonblocking n =
    if length s.bytes == 0
    then if s.closed
      then (s, ok [])
      else if nonblocking
      then (s, err (errno again))
      else (record s { wanted = true }, err block)
    else let (line, rest) = take_line n s.bytes in
      (record s { bytes = rest; wanted = false }, ok line)

unfoldable pub read_pipe : Pipe → Bool → ℕ → Pipe × Result Fault Bytes
read_pipe p nonblocking n =
    if length p.bytes == 0
    then (p, if p.writers == 0 then ok [] else if nonblocking then err (errno again) else err block)
    else let count = min (length p.bytes) n in
      (record p { bytes = drop count p.bytes }, ok (take count p.bytes))

-- A write to a pipe that has a reader.
unfoldable pub write_pipe : Pipe → Bool → Bytes → Pipe × Result Fault ℕ
unfolding room
write_pipe p nonblocking bytes =
    if room p == 0
    then (p, if nonblocking then err (errno again) else err block)
    else let count = min (room p) (length bytes) in
      (record p { bytes = p.bytes ++ take count bytes }, ok count)

-- `DescKind::Memory`: the bytes from the position on, and the new position.
unfoldable pub read_memory : Bytes → ℕ → ℕ → ℕ × Bytes
read_memory bytes at n =
    let start = min at (length bytes) in
    let available = drop start bytes in
    let count = min (length available) n in (min (start + count) (2 ^ 64 - 1), take count available)

module _ {F : Type 0} (files : VfsFile F) (mounts : List Mount) (seed : ℕ) where
  abbrev pub with_kind : Ctx F → Key → Desc F → DescKind F → Ctx F
  with_kind c key d kind = with_descs c (Slab.put c.shared.descs key (record d { kind = kind }))

  -- `vfs_fault`: a file that is not ready blocks the process.
  unfoldable pub file_result : {A : Type 0} → Ctx F → VfsResult A → Sys F A
  file_result c (ok a) = (c, ok a)
  file_result c (err e) =
      if is e again
      then (with_shared c (record (c.shared) { vfs_pending = true }), err block)
      else (c, err (errno e))

  read_from_pipe : Ctx F → Key → Bool → ℕ → Sys F Bytes
  unfolding read_pipe
  read_from_pipe c key nonblocking n = elim (Slab.get c.shared.pipes key) [
    | none ↦ (c, err (errno badf))
    | some p ↦
        let (p', r) = read_pipe p nonblocking n in
        (with_shared c (record (c.shared) { pipes = Slab.put c.shared.pipes key p' }), r)
  ]

  read_kind : Ctx F → Key → Desc F → ℕ → Sys F Bytes
  unfolding file_result read_from_pipe read_stdin read_memory random_bytes is_nonblocking
  read_kind c key d n = elim d.kind [
    | DescKind.file f mount done ↦
        let (f', r) = files.read f n in
        file_result (with_kind c key d (DescKind.file f' mount done)) r
    | DescKind.memory bytes at ↦
        let (at', out) = read_memory bytes at n in
        (with_kind c key d (DescKind.memory bytes at'), ok out)
    | DescKind.null ↦ (c, ok [])
    | DescKind.zero ↦ (c, ok (replicate n 0))
    | DescKind.random ↦ (c, ok (random_bytes n seed))
    | DescKind.dir entries at ↦ (c, err (errno isdir))
    | DescKind.pipe_write pipe_key ↦ (c, err (errno badf))
    | DescKind.stdout which ↦ (c, err (errno badf))
    | DescKind.stdin ↦
        let (s, r) = read_stdin c.shared.stdin (is_nonblocking d) n in
        (with_shared c (record (c.shared) { stdin = s }), r)
    | DescKind.pipe_read pipe_key ↦ read_from_pipe c pipe_key (is_nonblocking d) n
  ]

  -- The bytes that `read_bytes` leaves in a staging buffer of `n` bytes.
  unfoldable pub read_bytes : Ctx F → ℤ → ℕ → Sys F Bytes
  unfolding read_kind readable
  read_bytes c fd n = if n == 0 then (c, ok []) else elim (Fd.get c.task.fds fd) [
    | err e ↦ (c, err (errno e))
    | ok entry ↦ elim (Slab.get c.shared.descs entry.desc) [
      | none ↦ (c, err (errno badf))
      | some d ↦ if not (readable d) then (c, err (errno badf)) else read_kind c entry.desc d n
    ]
  ]

  write_to_pipe : Ctx F → Key → Bool → Bytes → Sys F ℕ
  unfolding write_pipe update_record raise
  write_to_pipe c key nonblocking bytes = elim (Slab.get c.shared.pipes key) [
    | none ↦ (c, err (errno badf))
    | some p ↦
        if p.readers == 0
        then (
          with_shared c (record (c.shared) {
            table = update_record c.shared.table c.task.pid (λ r. raise r (pos sigpipe));
          }),
          err (errno pipe),
        )
        else let (p', r) = write_pipe p nonblocking bytes in
          (with_shared c (record (c.shared) { pipes = Slab.put c.shared.pipes key p' }), r)
  ]

  write_kind : Ctx F → Key → Desc F → Bytes → Sys F ℕ
  unfolding file_result write_to_pipe is_nonblocking is_read_only write_output
  write_kind c key d bytes = elim d.kind [
    | DescKind.file f mount done ↦
        if is_read_only mounts mount
        then (c, err (errno rofs))
        else let (f', r) = files.write f bytes in
          file_result (with_kind c key d (DescKind.file f' mount done)) r
    | DescKind.memory bytes_ at ↦ (c, ok (length bytes))
    | DescKind.null ↦ (c, ok (length bytes))
    | DescKind.zero ↦ (c, ok (length bytes))
    | DescKind.random ↦ (c, ok (length bytes))
    | DescKind.dir entries at ↦ (c, err (errno badf))
    | DescKind.pipe_read pipe_key ↦ (c, err (errno badf))
    | DescKind.stdin ↦ (c, err (errno badf))
    | DescKind.stdout which ↦
        let (sh, n) = write_output c.shared which bytes in (with_shared c sh, ok n)
    | DescKind.pipe_write pipe_key ↦ write_to_pipe c pipe_key (is_nonblocking d) bytes
  ]

  unfoldable pub write_bytes : Ctx F → ℤ → Bytes → Sys F ℕ
  unfolding write_kind writable
  write_bytes c fd bytes = elim (Fd.get c.task.fds fd) [
    | err e ↦ (c, err (errno e))
    | ok entry ↦ elim (Slab.get c.shared.descs entry.desc) [
      | none ↦ (c, err (errno badf))
      | some d ↦ if not (writable d) then (c, err (errno badf)) else write_kind c entry.desc d bytes
    ]
  ]

  -- The bytes are consumed before they are copied to the guest.
  copy_out : ℕ → Sys F Bytes → Sys F ℤ
  copy_out start (c, err e) = (c, err e)
  copy_out start (c, ok bytes) = elim (put c.memory start bytes) [
    | err e ↦ (c, err (errno e))
    | ok m ↦ (record c { memory = m }, ok (pos (length bytes)))
  ]

  unfoldable pub sys_read : Ctx F → ℤ → ℕ → ℕ → Sys F ℤ
  unfolding read_bytes copy_out
  sys_read c fd start len =
      if len == 0 then (c, ok (pos 0)) else copy_out start (read_bytes c fd (min len (2 ^ 20)))

  -- `written as i32`
  written : Sys F ℕ → Sys F ℤ
  written (c, err e) = (c, err e)
  written (c, ok n) = (c, ok (as_i32 n))

  unfoldable pub sys_write : Ctx F → ℤ → ℕ → ℕ → Sys F ℤ
  unfolding write_bytes written slice
  sys_write c fd start len = elim (slice c.memory start len) [
    | err e ↦ (c, err (errno e))
    | ok bytes ↦ written (write_bytes c fd bytes)
  ]
