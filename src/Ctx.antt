-- ===== src/Ctx.antt =====
-- crates/wasmux/src/kernel/mod.rs, `Ctx`: the state that one system call works on.
-- The shared tables that `Ctx` points at are a field, and so is the guest's memory, which the
-- backend hands out. A handler returns the state that it leaves and its outcome.
use wasmux.Prelude.{ℕ, Option, List, ℤ, Result, ok, err}
use wasmux.Errno.{Errno, VfsResult}
use wasmux.Slab.{Slab}
use wasmux.Desc.{Bytes, Desc}
use wasmux.Fd.{FdTable}
use wasmux.Shared.{Shared}
use wasmux.Task.{Task}

-- A process that waits for an instance of its own.
pub record Spawn : Type 0 where
  pub task : Task
  pub program : ℕ
  pub exe : Bytes
  pub argv : List Bytes
  pub envp : List Bytes

-- `spawn` is the queue of `Shared`, the latest first.
pub record Ctx (F : Type 0) : Type 0 where
  pub shared : Shared F
  pub task : Task
  pub vfork_stack : List Task
  pub memory : Bytes
  pub deadline : Option ℕ
  pub mask_to_restore : Option ℕ
  pub signal_flag : ℕ
  pub grown : ℕ
  pub exec_request : Option Spawn
  pub spawn : List Spawn

-- crates/wasmux/src/kernel/syscall.rs: the error channel of the handlers.
pub data Fault : Type 0 where
  errno : Errno → Fault
  block : Fault
  exit : ℤ → Fault
  exec : Fault

abbrev pub Sys : Type 0 → Type 0 → Type 0
Sys F A = Ctx F × Result Fault A

-- `?` on a `VfsResult`.
abbrev pub lift : {A : Type 0} → VfsResult A → Result Fault A
lift (ok a) = ok a
lift (err e) = err (errno e)

module _ {F : Type 0} where
  abbrev pub with_fds : Ctx F → FdTable → Ctx F
  with_fds c fds = record c { task = record (c.task) { fds = fds } }

  abbrev pub with_descs : Ctx F → Slab (Desc F) → Ctx F
  with_descs c descs = record c { shared = record (c.shared) { descs = descs } }

  abbrev pub with_shared : Ctx F → Shared F → Ctx F
  with_shared c sh = record c { shared = sh }
