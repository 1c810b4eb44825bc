-- ===== src/Kernel.antt =====
-- crates/wasmux/src/kernel/mod.rs: the processes of one session, and what the scheduler keeps of them.
-- `Proc.ctx` holds a `Ctx` whose pointer to the shared state is set while the process runs: `enter`
-- sets it and `leave` takes back what the process did to the shared state.
mod Tests
pub mod Start
pub mod Finish
pub mod Asyncify
pub mod Steps
pub mod HostStep
pub mod Run
use wasmux.Prelude.{
  ℕ, zero, suc, ◌+◌, ◌-◌, ◌^◌, min, Bool, true, false, Option, none, some, List, [], ◌∷◌, ◌++◌, ℤ,
  pos, Result, length, get_elem?, set,
}
use wasmux.Errno.{VfsResult}
use wasmux.Engine.{LoadError, Exit}
use wasmux.Desc.{Bytes}
use wasmux.Vfs.{VfsFile}
use wasmux.Mounts.{Mount}
use wasmux.Shared.{Shared}
use wasmux.Task.{Task}
use wasmux.Ctx.{Ctx, Sys, Spawn}

-- Why a stack is being unwound.
pub data Suspension : Type 0 where
  setjmp : ℕ → ℕ → Suspension
  longjmp : ℕ → ℤ → Suspension
  blocked : ℤ → List ℤ → Suspension
  exit : ℤ → Suspension
  exec : Suspension

-- The Asyncify part of `ExecState`; `jmp_bufs` has the latest entry for a buffer first.
pub record ExecState : Type 0 where
  pub asyncify_data : ℕ
  pub rewinding : Bool
  pub resume_value : ℤ
  pub resume_sp : ℕ
  pub suspension : Option Suspension
  pub jmp_bufs : List (ℕ × (Bytes × ℕ))

pub data Resume : Type 0 where
  fresh : Resume
  rewind : Resume
  blocked : ℤ → List ℤ → Resume

-- `Phase`: draining standard input, or handing the output on.
pub data Phase : Type 0 where
  reading : Bytes → Phase
  flushing : ℤ → Bytes → Bytes → ℕ → ℕ → Phase

-- crates/wasmux/src/host.rs: `Invocation`, `Exit` and the trait `HostCommand`. What a command works
-- on outside the sandbox is `W`, which it changes.
pub record Invocation : Type 0 where
  pub argv : List Bytes
  pub envp : List Bytes
  pub cwd : Bytes
  pub stdin : Bytes

pub record HostExit : Type 0 where
  pub status : ℤ
  pub stdout : Bytes
  pub stderr : Bytes

pub record HostCommand (W : Type 0) : Type 0 where
  pub wants_stdin : List Bytes → Bool
  pub run : W → Invocation → W × VfsResult HostExit

pub record HostProc (W : Type 0) : Type 0 where
  pub command : HostCommand W
  pub reads_stdin : Bool
  pub phase : Phase

pub data Body (I W : Type 0) : Type 0 where
  guest : I → Body I W
  host : HostProc W → Body I W

pub record Proc (F I W : Type 0) : Type 0 where
  pub ctx : Ctx F
  pub argv : List Bytes
  pub envp : List Bytes
  pub exec : ExecState
  pub body : Body I W
  pub resume : Resume
  pub charged : ℕ
  pub parked : Bool

-- `spawn` is the queue of `Shared`, the latest first; `host` is what the host commands work on.
pub record Kernel (F I W : Type 0) : Type 0 where
  pub shared : Shared F
  pub spawn : List Spawn
  pub procs : List (Proc F I W)
  pub exit_status : Option ℤ
  pub host : W

pub data ProgramKind (M W : Type 0) : Type 0 where
  guest : M → ProgramKind M W
  host : HostCommand W → ProgramKind M W

-- What the scheduler calls outside kernel/mod.rs: the programs, the engine (a module, an instance and
-- its memory), `handle` of kernel/syscall.rs, and what the calls on streams take.
pub record World (F I M W : Type 0) : Type 0 where
  pub programs : List (ProgramKind M W)
  pub instantiate : M → Result LoadError (I × Bytes)
  pub grow : Bytes → ℕ → Option (Bytes × ℕ)
  pub start_rewind : I → ℕ → I
  pub stop_unwind : I → I
  pub run_start : I → Ctx F → ExecState → I × (Ctx F × (ExecState × Exit))
  pub handle : ℤ → List ℤ → Ctx F → Sys F ℤ
  pub files : VfsFile F
  pub mounts : List Mount
  pub seed : ℕ
  pub lossy : Bytes → Bytes

-- `ExecState::default`
abbrev pub default_exec : ExecState
default_exec = record {
  asyncify_data = 0;
  rewinding = false;
  resume_value = pos 0;
  resume_sp = 0;
  suspension = none;
  jmp_bufs = [];
}

module _ {ℓ} {A : Type ℓ} where
  -- `Vec::remove`, for an index that is there.
  unfoldable pub remove_at : List A → ℕ → List A
  remove_at [] i = []
  remove_at (x ∷ xs) zero = xs
  remove_at (x ∷ xs) (suc i) = x ∷ remove_at xs i

  -- `Vec::insert` at `index.min(len)`
  unfoldable pub insert_at : List A → ℕ → A → List A
  insert_at [] i a = a ∷ []
  insert_at (x ∷ xs) zero a = a ∷ x ∷ xs
  insert_at (x ∷ xs) (suc i) a = x ∷ insert_at xs i a

  -- `Vec::pop`: the last entry, and those before it.
  unfoldable pub pop : List A → List A × Option A
  pop [] = ([], none)
  pop (x ∷ []) = ([], some x)
  pop (x ∷ y ∷ xs) = let (front, last) = pop (y ∷ xs) in (x ∷ front, last)

module _ {F I W : Type 0} where
  -- `proc.ctx.shared = shared`
  abbrev pub enter : Kernel F I W → Proc F I W → Ctx F
  enter k p = record (p.ctx) { shared = k.shared; spawn = k.spawn }

  -- The kernel after `c` has run.
  abbrev pub leave : Kernel F I W → Ctx F → Kernel F I W
  leave k c = record k { shared = c.shared; spawn = c.spawn }

  -- A change through `procs.get_mut`.
  abbrev pub put_proc : Kernel F I W → ℕ → Proc F I W → Kernel F I W
  put_proc k index p = record k { procs = set k.procs index p }

  abbrev pub with_ctx : Proc F I W → Ctx F → Proc F I W
  with_ctx p c = record p { ctx = c }

  abbrev pub with_exec : Proc F I W → ExecState → Proc F I W
  with_exec p e = record p { exec = e }

  abbrev pub with_resume : Proc F I W → Resume → Proc F I W
  with_resume p r = record p { resume = r }
