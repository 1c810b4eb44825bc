-- ===== src/Syscall/Poll/Truth.antt =====
-- crates/wasmux/src/kernel/syscall.rs: what `poll_one` answers, against what `read_bytes` and
-- `write_bytes` then do.
use Prim.Native.Nat.{bit_and, bit_or}
use wasmux.Prelude.{
  ℕ, ◌<◌, ◌≡◌, ◌↔◌, refl, ap, true, false, arith, List, ◌==◌, err, length, some, ℤ, Bool-cases, inl,
  inr, ltb,
}
use wasmux.Slab
use wasmux.Slab.{Key}
use wasmux.Desc.{Bytes, DescKind, Pipe, room, readable, writable, is_nonblocking}
use wasmux.Vfs.{VfsFile}
use wasmux.Mounts.{Mount}
use wasmux.Shared.{StdinBuffer}
use wasmux.Ctx.{Ctx, Sys, block}
use wasmux.Syscall.Streams.{read_pipe, write_pipe, read_stdin, read_bytes, write_bytes}
use wasmux.Syscall.Streams.Transfer.{
  Opens, read_bytes_pipe, read_bytes_stdin, write_bytes_pipe, write_bytes_closed,
}
use wasmux.Syscall.Poll.{
  poll_fd, poll_one, ready_kind, ready_stdin, ready_pipe_read, ready_pipe_write, pollin, pollout,
  pollerr, pollhup, pollnval,
}

abbrev masked : ℕ → ℕ → ℕ
masked ready events = bit_and ready (bit_or events (bit_or pollhup (bit_or pollerr pollnval)))

waits_read :
    (p : Pipe) (n : ℕ)
    → (masked (ready_pipe_read (some p)) pollin ≡ 0) ↔ ((read_pipe p false n).1 ≡ err block)
unfolding ready_pipe_read read_pipe
waits_read p n = elim (Bool-cases (length p.bytes == 0)) [
  | inl b ↦ elim (Bool-cases (p.writers == 0)) [
    | inl w ↦ rw (b, w) (λ e. absurd (omega (arith, e)), λ e. absurd cc)
    | inr w ↦ rw (b, w) (λ e. refl, λ e. refl)
  ]
  | inr b ↦ rw (b) (λ e. absurd (omega (arith, e)), λ e. absurd cc)
]

waits_stdin :
    (s : StdinBuffer) (n : ℕ)
    → (masked (ready_stdin s) pollin ≡ 0) ↔ ((read_stdin s false n).1 ≡ err block)
unfolding ready_stdin read_stdin
waits_stdin s n = elim (Bool-cases (length s.bytes == 0)) [
  | inl b ↦ elim (Bool-cases s.closed) [
    | inl w ↦ rw (b, w) (λ e. absurd (omega (arith, e)), λ e. absurd cc)
    | inr w ↦ rw (b, w) (λ e. refl, λ e. refl)
  ]
  | inr b ↦ rw (b) (λ e. absurd (omega (arith, e)), λ e. absurd cc)
]

waits_write :
    (p : Pipe) (bytes : Bytes)
    → (p.readers == 0) ≡ false
    → (masked (ready_pipe_write (some p)) pollout ≡ 0) ↔ ((write_pipe p false bytes).1 ≡ err block)
unfolding ready_pipe_write write_pipe
waits_write p bytes r = elim (Bool-cases (room p == 0)) [
  | inl b ↦
      let full : ltb 0 (room p) ≡ false = ground arith in rw (b, r, full) (λ e. refl, λ e. refl)
  | inr b ↦
      let free : ltb 0 (room p) ≡ true = ground arith in
      rw (b, r, free) (λ e. absurd (omega (arith, e)), λ e. absurd cc)
]

module _ {F : Type 0} where
  poll_fd-Opens :
      (c : Ctx F) (fd : ℤ) (kind : DescKind F) (o : Opens c fd kind) (events : ℕ)
      → poll_fd c fd events ≡ masked (ready_kind c.shared kind) events
  unfolding poll_fd poll_one
  poll_fd-Opens c fd kind o events = rw (poll_fd, o.open_fd, poll_one, o.live, o.of_kind) refl

  module _ (files : VfsFile F) (mounts : List Mount) (seed : ℕ) where
    poll_read :
        (c : Ctx F) (fd : ℤ) (key : Key) (o : Opens c fd (DescKind.pipe_read key)) (p : Pipe)
        (n : ℕ)
        → readable o.desc ≡ true
        → is_nonblocking o.desc ≡ false
        → Slab.get c.shared.pipes key ≡ some p
        → 0 < n
        → (poll_fd c fd pollin ≡ 0) ↔ ((read_bytes files mounts seed c fd n).1 ≡ err block)
    unfolding ready_kind
    poll_read c fd key o p n mode blocking live h =
        rw
          (
            poll_fd-Opens c fd (DescKind.pipe_read key) o pollin,
            read_bytes_pipe files mounts seed c fd key o p n mode live h,
            blocking,
            live,
          )
          (waits_read p n)

    poll_write :
        (c : Ctx F) (fd : ℤ) (key : Key) (o : Opens c fd (DescKind.pipe_write key)) (p : Pipe)
        (bytes : Bytes)
        → writable o.desc ≡ true
        → is_nonblocking o.desc ≡ false
        → Slab.get c.shared.pipes key ≡ some p
        → (poll_fd c fd pollout ≡ 0) ↔ ((write_bytes files mounts seed c fd bytes).1 ≡ err block)
    unfolding ready_kind ready_pipe_write
    poll_write c fd key o p bytes mode blocking live = elim (Bool-cases (p.readers == 0)) [
      | inl r ↦
          rw
            (
              poll_fd-Opens c fd (DescKind.pipe_write key) o pollout,
              write_bytes_closed files mounts seed c fd key o p bytes mode live r,
              live,
              r,
            )
            (λ e. absurd (omega (arith, e)), λ e. absurd cc)
      | inr r ↦
          rw
            (
              poll_fd-Opens c fd (DescKind.pipe_write key) o pollout,
              ap (λ (s : Sys F ℕ). s.1)
                  (write_bytes_pipe files mounts seed c fd key o p bytes mode live (ground arith)),
              blocking,
              live,
            )
            (waits_write p bytes r)
    ]

    -- A descriptor of the standard input is open for reading and blocks: no event is reported on it
    -- to one who asks for input exactly where a read of at least one byte then blocks.
    pub poll_stdin :
        (c : Ctx F) (fd : ℤ) (o : Opens c fd DescKind.stdin) (n : ℕ)
        → readable o.desc ≡ true
        → is_nonblocking o.desc ≡ false
        → 0 < n
        → (poll_fd c fd pollin ≡ 0) ↔ ((read_bytes files mounts seed c fd n).1 ≡ err block)
    unfolding ready_kind
    poll_stdin c fd o n mode blocking h =
        rw
          (
            poll_fd-Opens c fd DescKind.stdin o pollin,
            read_bytes_stdin files mounts seed c fd o n mode h,
            blocking,
          )
          (waits_stdin c.shared.stdin n)

    -- The two ends of a pipe are open, for reading and for writing, and both block. No event is
    -- reported on the one to who asks for input exactly where a read of at least one byte from it
    -- then blocks, and none on the other to who asks for output exactly where a write to it then
    -- blocks.
    pub poll_pipe :
        (c : Ctx F) (reading writing : ℤ) (key : Key)
        → (r : Opens c reading (DescKind.pipe_read key))
        → (w : Opens c writing (DescKind.pipe_write key)) → (p : Pipe) (n : ℕ) (bytes : Bytes)
        → readable r.desc ≡ true
        → writable w.desc ≡ true
        → is_nonblocking r.desc ≡ false
        → is_nonblocking w.desc ≡ false
        → Slab.get c.shared.pipes key ≡ some p
        → 0 < n
        → ((poll_fd c reading pollin ≡ 0)
            ↔ ((read_bytes files mounts seed c reading n).1 ≡ err block))
          × ((poll_fd c writing pollout ≡ 0)
              ↔ ((write_bytes files mounts seed c writing bytes).1 ≡ err block))
    poll_pipe c reading writing key r w p n bytes can_read can_write waits waits' live h = (
      poll_read c reading key r p n can_read waits live h,
      poll_write c writing key w p bytes can_write waits' live,
    )
