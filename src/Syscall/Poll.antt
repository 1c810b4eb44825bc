-- ===== src/Syscall/Poll.antt =====
-- crates/wasmux/src/kernel/syscall.rs: poll(2) and select(2), which wait for descriptors.
-- An `i16` is its 16 bits. An instant is a number; what the clock reads is a parameter.
pub mod Select
pub mod Bitmaps
pub mod Truth
pub mod Wake
mod Tests
use Prim.Native.Nat.{bit_and, bit_or}
use wasmux.Prelude.{
  ℕ, zero, suc, ◌+◌, ◌-◌, ◌*◌, ◌/◌, ◌%◌, ◌^◌, min, Bool, true, false, ◌&&◌, ◌||◌, not, Option, none,
  some, List, [], ◌∷◌, ◌==◌, ltb, if◌then◌else◌, ℤ, pos, negsuc, Result, ok, err, length, replicate,
  get_elem?, ◌>>=◌,
}
use wasmux.Errno.{VfsResult}
use wasmux.Slab
use wasmux.Slab.{Key}
use wasmux.Desc.{Bytes, Desc, DescKind, Pipe, room}
use wasmux.Fd
use wasmux.Shared.{Shared, StdinBuffer, ProcRecord}
use wasmux.Mem.{Duration, timespec, read_u32, i32_at, put_u16, put_u32, then_put}
use wasmux.Process.{update_record}
use wasmux.Ctx.{Ctx, Fault, errno, block, Sys, with_shared}

-- crates/wasmux/src/abi.rs
abbrev pub pollin : ℕ
pollin = 1

abbrev pub pollout : ℕ
pollout = 4

abbrev pub pollerr : ℕ
pollerr = 8

abbrev pub pollhup : ℕ
pollhup = 0x10

abbrev pub pollnval : ℕ
pollnval = 0x20

-- `Instant::now().checked_add(after)`, `Instant::now` where that fails, and `Instant::now` when a
-- call asks whether its deadline has passed.
pub record Clock : Type 0 where
  pub checked_add : Duration → Option ℕ
  pub fallback : ℕ
  pub now : ℕ

-- `unwrap_or_else`
instant_or : Option ℕ → ℕ → ℕ
instant_or none other = other
instant_or (some at) other = at

-- `i32::saturating_add(1)` on a count.
abbrev pub count_one : ℕ → ℕ
count_one ready = min (ready + 1) (2 ^ 31 - 1)

ready_pipe_read : Option Pipe → ℕ
ready_pipe_read none = 0
ready_pipe_read (some p) =
    if not (length p.bytes == 0) then pollin else if p.writers == 0 then pollhup else 0

ready_stdin : StdinBuffer → ℕ
ready_stdin s = if not (length s.bytes == 0) || s.closed then pollin else 0

ready_pipe_write : Option Pipe → ℕ
unfolding room
ready_pipe_write none = 0
ready_pipe_write (some p) =
    if p.readers == 0 then pollerr else if ltb 0 (room p) then pollout else 0

unfoldable pub count_ready : List (ℕ × ℕ) → ℕ
count_ready [] = 0
count_ready ((at, r) ∷ results) =
    let rest = count_ready results in if r == 0 then rest else count_one rest

unfoldable pub put_revents : Bytes → List (ℕ × ℕ) → Bytes × VfsResult (Unit {0})
unfolding put_u16
put_revents m [] = (m, ok tt)
put_revents m ((at, r) ∷ results) = then_put m (put_u16 m at r) λ m'. put_revents m' results

wake_at_instant : ℕ → ProcRecord → ProcRecord
wake_at_instant at r = record r { wake_at = some at }

module _ {F : Type 0} where
  -- The bits of `ready` when the match is over.
  unfoldable pub ready_kind : Shared F → DescKind F → ℕ
  unfolding ready_pipe_read ready_pipe_write ready_stdin
  ready_kind sh kind = elim kind [
    | DescKind.pipe_read key ↦ ready_pipe_read (Slab.get sh.pipes key)
    | DescKind.pipe_write key ↦ ready_pipe_write (Slab.get sh.pipes key)
    | DescKind.stdin ↦ ready_stdin sh.stdin
    | DescKind.stdout which ↦ pollout
    | _ ↦ bit_or pollin pollout
  ]

  unfoldable pub poll_one : Shared F → Key → ℕ → ℕ
  unfolding ready_kind
  poll_one sh key events = elim (Slab.get sh.descs key) [
    | none ↦ pollnval
    | some d ↦
        bit_and (ready_kind sh d.kind) (bit_or events (bit_or pollhup (bit_or pollerr pollnval)))
  ]

  -- `poll_one` of an open descriptor, and `POLLNVAL` of another.
  unfoldable pub poll_fd : Ctx F → ℤ → ℕ → ℕ
  unfolding poll_one
  poll_fd c fd events = elim (Fd.get c.task.fds fd) [
    | err e ↦ pollnval
    | ok entry ↦ poll_one c.shared entry.desc events
  ]

  -- `revents` of `ppoll`: a negative descriptor is ignored.
  unfoldable pub revents : Ctx F → ℤ → ℕ → ℕ
  unfolding poll_fd
  revents c (negsuc n) events = 0
  revents c (pos n) events = poll_fd c (pos n) events

  -- The loop over the entries of `ppoll`: where an answer goes, and the answer.
  unfoldable pub poll_entries : Ctx F → ℕ → ℕ → ℕ → VfsResult (List (ℕ × ℕ))
  unfolding revents i32_at read_u32
  poll_entries c fds_at index zero = ok []
  poll_entries c fds_at index (suc left) = do
    let entry_at = (fds_at + index * 8 % 2 ^ 32) % 2 ^ 32
    fd ← i32_at c.memory entry_at
    events ← read_u32 c.memory ((entry_at + 4) % 2 ^ 32)
    rest ← poll_entries c fds_at (suc index) left
    ok (((entry_at + 6) % 2 ^ 32, revents c fd (events % 2 ^ 16)) ∷ rest)

  -- What the guest is told, unless a write of it fails.
  unfoldable pub told : Ctx F → ℕ → Bytes × VfsResult (Unit {0}) → Sys F ℤ
  told c ready (m, ok u) = (record c { memory = m }, ok (pos ready))
  told c ready (m, err e) = (record c { memory = m }, err (errno e))

  -- A deadline that has not passed is where the process wakes.
  unfoldable pub sleep_until : Ctx F → ℕ → Ctx F
  unfolding update_record wake_at_instant
  sleep_until c at =
      with_shared c
        (record (c.shared) { table = update_record c.shared.table c.task.pid (wake_at_instant at) })

  -- Without a deadline, a call on an open standard input asks the host for more of it.
  unfoldable pub want_stdin : Ctx F → Ctx F
  want_stdin c = elim (Fd.get c.task.fds (pos 0)) [
    | err e ↦ c
    | ok entry ↦
        with_shared c (record (c.shared) { stdin = record (c.shared.stdin) { wanted = true } })
  ]

  module _ (clock : Clock) where
    unfoldable pub deadline : Ctx F → Duration → Ctx F × ℕ
    unfolding instant_or
    deadline c after = elim c.deadline [
      | some at ↦ (c, at)
      | none ↦
          let at = instant_or (clock.checked_add after) clock.fallback in
          (record c { deadline = some at }, at)
    ]

    -- `until` of both calls: no deadline where no timeout is given.
    unfoldable pub until_ : Ctx F → ℕ → Sys F (Option ℕ)
    unfolding deadline timespec
    until_ c timeout_at =
        if timeout_at == 0 then (c, ok none) else elim (timespec c.memory timeout_at) [
          | err e ↦ (c, err (errno e))
          | ok requested ↦ let (c', at) = deadline c requested in (c', ok (some at))
        ]

    -- With nothing ready, a call waits unless its deadline has passed. `idle` is what it does
    -- before it waits without one.
    unfoldable pub wait_or : (Ctx F → Ctx F) → Ctx F → Option ℕ → ℕ → Sys F ℤ → Sys F ℤ
    unfolding sleep_until
    wait_or idle c until ready answer = if not (ready == 0) then answer else elim until [
      | none ↦ (idle c, err block)
      | some at ↦ if ltb clock.now at then (sleep_until c at, err block) else answer
    ]

    poll_until : Sys F (Option ℕ) → ℕ → ℕ → Sys F ℤ
    unfolding poll_entries count_ready put_revents told want_stdin wait_or
    poll_until (c, err e) fds_at count = (c, err e)
    poll_until (c, ok until) fds_at count = elim (poll_entries c fds_at 0 (min count 1024)) [
      | err e ↦ (c, err (errno e))
      | ok results ↦
          let ready = count_ready results in
          wait_or want_stdin c until ready (told c ready (put_revents c.memory results))
    ]

    unfoldable pub sys_ppoll : Ctx F → ℕ → ℕ → ℕ → Sys F ℤ
    unfolding until_ poll_until
    sys_ppoll c fds_at count timeout_at = poll_until (until_ c timeout_at) fds_at count
