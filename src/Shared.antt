-- ===== src/Shared.antt =====
-- crates/wasmux/src/kernel/mod.rs: what a session shares between its processes.
-- `&mut self` is explicit: each method returns the state that it leaves.
-- Not in the record: the mounts, the overlay and the program table, which no method here changes,
-- the spawn queue, the start time and the terminal.
pub mod Refs
pub mod Counts
pub mod Tables
pub mod Charge
use wasmux.Prelude.{
  ℕ, ◌+◌, ◌-◌, ◌^◌, min, Bool, true, false, ◌&&◌, Option, none, some, List, [], ◌∷◌, ◌++◌, ltb,
  if◌then◌else◌, ◌==◌, length, take, drop, ℤ,
}
use wasmux.Slab
use wasmux.Slab.{Key, Slab}
use wasmux.Desc.{Bytes, Desc, DescKind, Pipe}
use wasmux.Fd
use wasmux.Fd.{FdTable}

-- The wall clock limit is left out: it is read by the scheduler only.
pub record Limits : Type 0 where
  pub memory : ℕ
  pub memory_per_process : ℕ
  pub processes : ℕ
  pub open_files : ℕ
  pub output : ℕ

-- crates/wasmux/src/kernel/task.rs: the part of a process that other processes can see.
-- A signal set is a `u64`; an instant is a number.
pub record ProcRecord : Type 0 where
  pub pid : ℤ
  pub ppid : ℤ
  pub pgid : ℤ
  pub sid : ℤ
  pub pending : ℕ
  pub exit : Option ℤ
  pub wake_at : Option ℕ
  pub comm : Bytes

pub record StdinBuffer : Type 0 where
  pub bytes : Bytes
  pub closed : Bool
  pub wanted : Bool

pub record OutputBuffer : Type 0 where
  pub bytes : Bytes
  pub dropped : ℕ
  pub taken : ℕ

-- `closed` is the trace of the handles given to `VfsFile::close`, the latest first.
pub record Shared (F : Type 0) : Type 0 where
  pub limits : Limits
  pub descs : Slab (Desc F)
  pub pipes : Slab Pipe
  pub table : List ProcRecord
  pub next_pid : ℕ
  pub stdin : StdinBuffer
  pub stdout : OutputBuffer
  pub stderr : OutputBuffer
  pub memory_used : ℕ
  pub vfs_pending : Bool
  pub host_pending : Bool
  pub syscalls : ℕ
  pub closed : List F

-- `u64::saturating_add`
abbrev pub add_u64 : ℕ → ℕ → ℕ
add_u64 a b = min (a + b) (2 ^ 64 - 1)

unfoldable pub push : OutputBuffer → Bytes → ℕ → OutputBuffer
push b bytes limit =
    let taking = min (limit - length b.bytes) (length bytes) in
    record b {
      bytes = b.bytes ++ take taking bytes;
      dropped = add_u64 b.dropped (length bytes - taking);
    }

-- The bytes that the caller has not had yet.
unfoldable pub drain_new : OutputBuffer → OutputBuffer × Bytes
drain_new b = (record b { taken = length b.bytes }, drop b.taken b.bytes)

module _ {F : Type 0} where
  unfoldable pub collect_pipe : Shared F → Key → Shared F
  collect_pipe sh key = elim (Slab.get sh.pipes key) [
    | none ↦ sh
    | some p ↦
        if p.readers == 0 && p.writers == 0
        then record sh { pipes = (Slab.remove sh.pipes key).0 }
        else sh
  ]

  drop_reader : Shared F → Key → Shared F
  drop_reader sh key = elim (Slab.get sh.pipes key) [
    | none ↦ sh
    | some p ↦ record sh { pipes = Slab.put sh.pipes key (record p { readers = p.readers - 1 }) }
  ]

  drop_writer : Shared F → Key → Shared F
  drop_writer sh key = elim (Slab.get sh.pipes key) [
    | none ↦ sh
    | some p ↦ record sh { pipes = Slab.put sh.pipes key (record p { writers = p.writers - 1 }) }
  ]

  -- What closing the last descriptor of a description does, by its kind.
  unfoldable pub close_kind : Shared F → DescKind F → Shared F
  unfolding collect_pipe drop_reader drop_writer
  close_kind sh (DescKind.file f mount done) =
      if done then sh else record sh { closed = f ∷ sh.closed }
  close_kind sh (DescKind.pipe_read key) = collect_pipe (drop_reader sh key) key
  close_kind sh (DescKind.pipe_write key) = collect_pipe (drop_writer sh key) key
  close_kind sh kind = sh

  -- `self.descs.remove(key)` and the match on its kind.
  drop_desc : Shared F → Key → Shared F
  unfolding close_kind
  drop_desc sh key =
      let (descs, gone) = Slab.remove sh.descs key in
      elim gone [
        | none ↦ record sh { descs = descs }
        | some d ↦ close_kind (record sh { descs = descs }) d.kind
      ]

  unfoldable pub release_desc : Shared F → Key → Shared F
  unfolding drop_desc
  release_desc sh key = elim (Slab.get sh.descs key) [
    | none ↦ sh
    | some d ↦
        let fewer = d.refs - 1 in
        let sh' = record sh { descs = Slab.put sh.descs key (record d { refs = fewer }) } in
        if fewer == 0 then drop_desc sh' key else sh'
  ]

  unfoldable pub release_keys : Shared F → List Key → Shared F
  unfolding release_desc
  release_keys sh [] = sh
  release_keys sh (key ∷ keys) = release_keys (release_desc sh key) keys

  unfoldable pub release_fds : Shared F → FdTable → Shared F
  unfolding release_keys
  release_fds sh t = release_keys sh (Fd.drain_all t).1

  unfoldable pub charge_memory : Shared F → ℕ → Shared F × Bool
  charge_memory sh bytes =
      let next = add_u64 sh.memory_used bytes in
      if ltb sh.limits.memory next then (sh, false) else (record sh { memory_used = next }, true)

  unfoldable pub release_memory : Shared F → ℕ → Shared F
  release_memory sh bytes = record sh { memory_used = sh.memory_used - bytes }

  unfoldable pub write_output : Shared F → ℕ → Bytes → Shared F × ℕ
  unfolding push
  write_output sh which bytes =
      if which == 2
      then (record sh { stderr = push sh.stderr bytes sh.limits.output }, length bytes)
      else (record sh { stdout = push sh.stdout bytes sh.limits.output }, length bytes)
