-- ===== src/Syscall/Streams/Transfer.antt =====
-- From one end of a pipe to the other through the calls themselves (kernel/syscall.rs `write_bytes`
-- and `read_bytes`).
use wasmux.Prelude.{
  ℕ, zero, suc, min, ◌+◌, ◌≤◌, ◌<◌, ◌≡◌, refl, ap, sym, ◌∙◌, Bool, true, false, arith, List, [],
  ◌∷◌, ◌++◌, ◌==◌, ok, err, length, take, some, ℤ, length-append,
}
use wasmux.Slab
use wasmux.Slab.{Slab, Key}
use wasmux.Slab.Refine.{put_refines}
use wasmux.Desc.{
  Bytes, Desc, DescKind, Pipe, room, pipe_capacity, readable, writable, is_nonblocking,
}
use wasmux.Fd
use wasmux.Fd.{Fd}
use wasmux.Vfs.{VfsFile}
use wasmux.Mounts.{Mount}
use wasmux.Errno.{pipe}
use wasmux.Ctx.{Ctx, errno}
use wasmux.Syscall.Streams.{
  read_pipe, read_stdin, write_pipe, read_bytes, read_kind, read_from_pipe, write_bytes, write_kind,
  write_to_pipe,
}

take_all : (n : ℕ) (xs : Bytes) → n ≡ length xs → take n xs ≡ xs
take_all zero [] e = refl
take_all zero (x ∷ xs) e = absurd (omega arith)
take_all (suc n) [] e = refl
take_all (suc n) (x ∷ xs) e = ap (◌∷◌ x) (take_all n xs (omega arith))

-- With room for all of it, a write to a pipe takes it whole.
write_pipe_whole :
    (p : Pipe) (nonblocking : Bool) (bytes : Bytes)
    → 0 < length bytes
    → length p.bytes + length bytes ≤ pipe_capacity
    → write_pipe p nonblocking bytes ≡ (record p { bytes = p.bytes ++ bytes }, ok (length bytes))
unfolding write_pipe room
write_pipe_whole p nonblocking bytes some_ fits =
    let free : (room p == 0) ≡ false = ground arith in
    let all : min (room p) (length bytes) ≡ length bytes = omega arith in
    rw (free, all, take_all (length bytes) bytes refl) refl

-- A read with a buffer of the size of the queue empties it.
read_pipe_whole :
    (p : Pipe) (nonblocking : Bool) (n : ℕ)
    → 0 < length p.bytes
    → n ≡ length p.bytes
    → (read_pipe p nonblocking n).1 ≡ ok p.bytes
unfolding read_pipe
read_pipe_whole p nonblocking n some_ e =
    let full : (length p.bytes == 0) ≡ false = ground arith in
    let all : min (length p.bytes) n ≡ length p.bytes = omega (arith, e) in
    rw (full, all, take_all (length p.bytes) p.bytes refl) refl

module _ {F : Type 0} where
  -- A descriptor of one end of the pipe `key`.
  pub record Opens (c : Ctx F) (fd : ℤ) (kind : DescKind F) : Type 0 where
    pub entry : Fd
    pub desc : Desc F
    pub open_fd : Fd.get c.task.fds fd ≡ ok entry
    pub live : Slab.get c.shared.descs entry.desc ≡ some desc
    pub of_kind : desc.kind ≡ kind

module _ {F : Type 0} (files : VfsFile F) (mounts : List Mount) (seed : ℕ) where
  pub write_bytes_pipe :
      (c : Ctx F) (fd : ℤ) (key : Key) (o : Opens c fd (DescKind.pipe_write key)) (p : Pipe)
      (bytes : Bytes)
      → writable o.desc ≡ true
      → Slab.get c.shared.pipes key ≡ some p
      → 0 < p.readers
      → write_bytes files mounts seed c fd bytes ≡ (
        record c {
          shared = record (c.shared) {
            pipes = Slab.put c.shared.pipes key (write_pipe p (is_nonblocking o.desc) bytes).0;
          };
        },
        (write_pipe p (is_nonblocking o.desc) bytes).1,
      )
  unfolding write_bytes write_kind write_to_pipe
  write_bytes_pipe c fd key o p bytes w e h =
      let r : (p.readers == 0) ≡ false = ground arith in
      rw (write_bytes, o.open_fd, o.live, w, write_kind, o.of_kind, write_to_pipe, e, r) refl

  pub read_bytes_pipe :
      (c : Ctx F) (fd : ℤ) (key : Key) (o : Opens c fd (DescKind.pipe_read key)) (p : Pipe) (n : ℕ)
      → readable o.desc ≡ true
      → Slab.get c.shared.pipes key ≡ some p
      → 0 < n
      → (read_bytes files mounts seed c fd n).1 ≡ (read_pipe p (is_nonblocking o.desc) n).1
  unfolding read_bytes read_kind read_from_pipe
  read_bytes_pipe c fd key o p n w e h =
      let r : (n == 0) ≡ false = ground arith in
      rw (read_bytes, r, o.open_fd, o.live, w, read_kind, o.of_kind, read_from_pipe, e) refl

  pub read_bytes_stdin :
      (c : Ctx F) (fd : ℤ) (o : Opens c fd DescKind.stdin) (n : ℕ)
      → readable o.desc ≡ true
      → 0 < n
      → (read_bytes files mounts seed c fd n).1
        ≡ (read_stdin c.shared.stdin (is_nonblocking o.desc) n).1
  unfolding read_bytes read_kind
  read_bytes_stdin c fd o n w h =
      let r : (n == 0) ≡ false = ground arith in
      rw (read_bytes, r, o.open_fd, o.live, w, read_kind, o.of_kind) refl

  -- Nobody reads: the process gets SIGPIPE and the call EPIPE.
  pub write_bytes_closed :
      (c : Ctx F) (fd : ℤ) (key : Key) (o : Opens c fd (DescKind.pipe_write key)) (p : Pipe)
      (bytes : Bytes)
      → writable o.desc ≡ true
      → Slab.get c.shared.pipes key ≡ some p
      → (p.readers == 0) ≡ true
      → (write_bytes files mounts seed c fd bytes).1 ≡ err (errno pipe)
  unfolding write_bytes write_kind write_to_pipe
  write_bytes_closed c fd key o p bytes w e r =
      rw (write_bytes, o.open_fd, o.live, w, write_kind, o.of_kind, write_to_pipe, e, r) refl

  -- At least one byte is written to the write end of a pipe that has a reader and room for all the
  -- bytes, by a descriptor that is open for writing: they are taken whole. A read from the read end,
  -- by a descriptor that is open for reading and with a buffer of the size of the queue, then answers
  -- with what the pipe held before, followed by those bytes.
  pub write_bytes-read_bytes :
      (c : Ctx F) (writing reading : ℤ) (key : Key)
      → (w : Opens c writing (DescKind.pipe_write key))
      → (r : Opens c reading (DescKind.pipe_read key)) → (p : Pipe) (bytes : Bytes)
      → writable w.desc ≡ true
      → readable r.desc ≡ true
      → Slab.get c.shared.pipes key ≡ some p
      → 0 < p.readers
      → 0 < length bytes
      → length p.bytes + length bytes ≤ pipe_capacity
      → ((write_bytes files mounts seed c writing bytes).1 ≡ ok (length bytes))
        × ((read_bytes files mounts seed
              (write_bytes files mounts seed c writing bytes).0
              reading
              (length p.bytes + length bytes)).1
            ≡ ok (p.bytes ++ bytes))
  write_bytes-read_bytes c writing reading key w r p bytes can_write can_read e readers some_ fits =
      let sent = write_bytes_pipe c writing key w p bytes can_write e readers in
      let whole = write_pipe_whole p (is_nonblocking w.desc) bytes some_ fits in
      rw (sent, whole) (refl, received)
    where
      fuller : Pipe
      fuller = record p { bytes = p.bytes ++ bytes }

      after : Ctx F
      after = record c { shared = record (c.shared) { pipes = Slab.put c.shared.pipes key fuller } }

      there : Slab.get after.shared.pipes key ≡ some fuller
      there = put_refines c.shared.pipes key key fuller ∙ ground (arith, e)

      size : length p.bytes + length bytes ≡ length (p.bytes ++ bytes)
      size = sym (length-append p.bytes bytes)

      still : Opens after reading (DescKind.pipe_read key)
      still = record {
        entry = r.entry;
        desc = r.desc;
        open_fd = r.open_fd;
        live = r.live;
        of_kind = r.of_kind;
      }

      received :
          (read_bytes files mounts seed after reading (length p.bytes + length bytes)).1
          ≡ ok (p.bytes ++ bytes)
      received =
          read_bytes_pipe after reading key still fuller (length p.bytes + length bytes) can_read
            there (omega (arith, some_))
          ∙ read_pipe_whole fuller (is_nonblocking r.desc) (length p.bytes + length bytes)
              (omega (arith, size, some_)) size
