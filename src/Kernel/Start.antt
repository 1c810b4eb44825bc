-- ===== src/Kernel/Start.antt =====
-- crates/wasmux/src/kernel/mod.rs: how a process starts.
use mathlib.Core.List.{reverse}
use wasmux.Prelude.{
  ℕ, ◌*◌, ◌%◌, ◌^◌, min, false, not, Option, none, some, List, [], ◌∷◌, ◌++◌, if◌then◌else◌, pos,
  ok, err, length, get_elem?, codes,
}
use wasmux.Engine.{LoadError}
use wasmux.Slab
use wasmux.Desc.{Bytes, Desc, DescKind, o_rdonly, o_wronly}
use wasmux.Desc
use wasmux.Fd
use wasmux.Fd.{FdTable}
use wasmux.Shared.{add_u64, charge_memory, release_memory, release_fds}
use wasmux.Task
use wasmux.Task.{Task, reset_handlers_for_exec, new_record, status_exited, status_signaled, sigsegv}
use wasmux.Process.{allocate_pid, set_exit}
use wasmux.Ctx.{Ctx, Spawn}
use wasmux.Syscall.Memory.{page_bytes}
use wasmux.Kernel.{Phase, Resume, HostCommand, Body, Proc, Kernel, ProgramKind, World, default_exec}

abbrev max_u64 : ℕ
max_u64 = 0xffffffffffffffff

-- `ASYNCIFY_PAGES`
abbrev pub asyncify_pages : ℕ
asyncify_pages = 16

-- What a process that `proc` names costs the session besides what it has grown by.
abbrev pub guest_charge : Bytes → ℕ
guest_charge memory = add_u64 (length memory) (page_bytes asyncify_pages)

-- The name that a process goes by: its first argument.
abbrev pub comm_of : (Bytes → Bytes) → List Bytes → Bytes
comm_of lossy [] = []
comm_of lossy (a ∷ argv) = lossy a

-- The task that a spawn starts with.
unfoldable pub task_of : (Bytes → Bytes) → Spawn → Task
unfolding reset_handlers_for_exec
task_of lossy s =
    reset_handlers_for_exec (record (s.task) { exe = s.exe; comm = comm_of lossy s.argv })

-- The standard descriptions.
unfoldable pub stdio : {F : Type 0} → List (DescKind F × (Bytes × ℕ))
stdio =
    (DescKind.stdin, (codes "/dev/stdin", o_rdonly))
    ∷ (DescKind.stdout 1, (codes "/dev/stdout", o_wronly))
    ∷ (DescKind.stdout 2, (codes "/dev/stderr", o_wronly))
    ∷ []

-- The answer of a function that gives the kernel a process, or gives up.
abbrev pub Started : Type 0 → Type 0 → Type 0 → Type 0
Started F I W = Kernel F I W × Option LoadError

module _ {F I W : Type 0} where
  -- `abandon`: the descriptors that the process was handed are given back.
  unfoldable pub abandon : Kernel F I W → FdTable → LoadError → Started F I W
  abandon k fds error = (record k { shared = release_fds k.shared fds }, some error)

  -- A context of a process that has not run yet.
  abbrev pub new_ctx : Kernel F I W → Task → Bytes → Ctx F
  new_ctx k t memory = record {
    shared = k.shared;
    task = t;
    vfork_stack = [];
    memory = memory;
    deadline = none;
    mask_to_restore = none;
    signal_flag = 0;
    grown = 0;
    exec_request = none;
    spawn = k.spawn;
  }

  abbrev pub push_proc : Kernel F I W → Proc F I W → Kernel F I W
  push_proc k p = record k { procs = k.procs ++ (p ∷ []) }

  abbrev pub host_proc : Kernel F I W → Spawn → Task → HostCommand W → Proc F I W
  host_proc k s t command = record {
    ctx = new_ctx k t [];
    argv = s.argv;
    envp = s.envp;
    exec = default_exec;
    body = Body.host (record {
      command = command;
      reads_stdin = command.wants_stdin s.argv;
      phase = Phase.reading [];
    });
    resume = Resume.fresh;
    charged = 0;
    parked = false;
  }

  -- `start`, for a host command: there is nothing to charge.
  unfoldable pub start_host : Kernel F I W → Spawn → Task → HostCommand W → Started F I W
  start_host k s t command = (push_proc k (host_proc k s t command), none)

  abbrev pub guest_proc : Kernel F I W → Spawn → Task → I → Bytes → ℕ → ℕ → Proc F I W
  guest_proc k s t i memory charge old = record {
    ctx = new_ctx k t memory;
    argv = s.argv;
    envp = s.envp;
    exec = record default_exec { asyncify_data = page_bytes old % 2 ^ 32 };
    body = Body.guest i;
    resume = Resume.fresh;
    charged = charge;
    parked = false;
  }

  -- The three standard descriptions of `spawn_first`; what `alloc` answers is dropped.
  unfoldable pub open_stdio :
      Kernel F I W → FdTable → List (DescKind F × (Bytes × ℕ)) → Kernel F I W × Option FdTable
  open_stdio k t [] = (k, some t)
  open_stdio k t ((kind, (path, flags)) ∷ rest) =
      let limit = k.shared.limits.open_files in
      let (descs, key) =
        Slab.insert k.shared.descs (Desc.new kind path flags) (min (limit * 4) max_u64) in
      let k' = record k { shared = record (k.shared) { descs = descs } } in
      elim key [
        | none ↦ (k', none)
        | some key ↦
            open_stdio k' (Fd.alloc t (record { desc = key; cloexec = false }) 0 limit).0 rest
      ]

  module _ {M : Type 0} (w : World F I M W) where
    -- `start`, for a module: its memory and the Asyncify area are charged, then the area is made.
    unfoldable pub start_guest : Kernel F I W → Spawn → Task → M → Started F I W
    unfolding charge_memory release_memory abandon
    start_guest k s t m = elim (w.instantiate m) [
      | err e ↦ abandon k t.fds e
      | ok (i, memory) ↦
          let charge = guest_charge memory in
          let (sh, charged) = charge_memory k.shared charge in
          if not charged
          then abandon k t.fds LoadError.out_of_memory
          else elim (w.grow memory asyncify_pages) [
            | none ↦
                abandon (record k { shared = release_memory sh charge }) t.fds
                  LoadError.out_of_memory
            | some (memory', old) ↦ (
              let k' = record k { shared = sh } in
                  push_proc k' (guest_proc k' s t i memory' charge old),
              none,
            )
          ]
    ]

    unfoldable pub start : Kernel F I W → Spawn → Started F I W
    unfolding start_guest start_host abandon task_of
    start k s =
        let t = task_of w.lossy s in
        elim (get_elem? w.programs s.program) [
          | none ↦ abandon k t.fds LoadError.not_wasm
          | some (ProgramKind.host command) ↦ start_host k s t command
          | some (ProgramKind.guest m) ↦ start_guest k s t m
        ]

    -- One round of the loop of `run` over the spawn queue: a child that cannot run fails as an exec
    -- does.
    unfoldable pub start_one : Kernel F I W → Spawn → Kernel F I W
    unfolding start set_exit
    start_one k s =
        let (k', failed) = start k s in
        elim failed [
          | none ↦ k'
          | some e ↦ record k' { shared = set_exit k'.shared s.task.pid (status_exited (pos 126)) }
        ]

    unfoldable pub start_all : Kernel F I W → List Spawn → Kernel F I W
    unfolding start_one
    start_all k [] = k
    start_all k (s ∷ spawns) = start_all (start_one k s) spawns

    -- The processes that vfork and exec made get an instance, the oldest first.
    unfoldable pub start_pending : Kernel F I W → Kernel F I W
    unfolding start_all
    start_pending k = start_all (record k { spawn = [] }) (reverse k.spawn)

    unfoldable pub spawn_first :
        Kernel F I W → ℕ → Bytes → List Bytes → List Bytes → Bytes → Started F I W
    unfolding allocate_pid open_stdio stdio start new_record
    spawn_first k program exe argv envp cwd =
        let (sh, pid) = allocate_pid k.shared in
        let (k', opened) = open_stdio (record k { shared = sh }) Fd.new stdio in
        elim opened [
          | none ↦ (k', some LoadError.out_of_memory)
          | some fds ↦
              let first = new_record pid (pos 0) pid pid (comm_of w.lossy argv) in
              let sh' = record (k'.shared) { table = k'.shared.table ++ (first ∷ []) } in
              start (record k' { shared = sh' })
                (record {
                  task = record (Task.new pid fds) { cwd = cwd };
                  program = program;
                  exe = exe;
                  argv = argv;
                  envp = envp;
                })
        ]
