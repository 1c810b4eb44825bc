-- ===== src/Syscall/Processes.antt =====
-- crates/wasmux/src/kernel/syscall.rs and kernel/mod.rs: vfork, exit, exec, wait and kill.
-- The parents that a vfork child suspends are a stack, the innermost first.
pub mod Balance
pub mod Fork
pub mod Exec
use Prim.Native.Nat.{bit_and}
use wasmux.Prelude.{
  ℕ, zero, suc, ◌-◌, min, ◌+◌, ◌^◌, Bool, true, false, ◌||◌, ◌&&◌, not, Option, none, some, List,
  [], ◌∷◌, ◌++◌, ◌==◌, ltb, if◌then◌else◌, ℤ, pos, negsuc, eq_ℤ, as_u32, Result, ok, err, length,
  map,
}
use wasmux.Errno.{Errno, VfsResult, nosys, again, child, inval, srch}
use wasmux.Slab.{Key, Slab}
use wasmux.Desc.{Bytes, Desc}
use wasmux.Fd
use wasmux.Fd.{Fd, FdTable}
use wasmux.Shared.{Shared, ProcRecord, release_keys, release_fds, release_memory, add_u64}
use wasmux.Mem.{put_u32, zero_fill}
use wasmux.Task
use wasmux.Task.{Task, raise, is_alive, nsig, status_exited, status_signaled, sigkill}
use wasmux.Process.{find_record, update_record, drop_pid, set_exit, fork_record}
use wasmux.Ctx.{Ctx, Spawn, Fault, errno, block, exit, exec, Sys, with_shared}

-- crates/wasmux/src/abi.rs
abbrev pub clone_vm : ℕ
clone_vm = 0x100

abbrev pub clone_vfork : ℕ
clone_vfork = 0x4000

abbrev pub clone_thread : ℕ
clone_thread = 0x10000

abbrev pub wnohang : ℕ
wnohang = 1

-- `i32::wrapping_neg`
unfoldable pub wrapping_neg : ℤ → ℤ
wrapping_neg (pos zero) = pos zero
wrapping_neg (pos (suc n)) = negsuc n
wrapping_neg (negsuc n) = if n == 2 ^ 31 - 1 then negsuc n else pos (suc n)

-- The task of a vfork child.
unfoldable pub child_of : Task → ℤ → FdTable → Task
child_of parent pid fds = record (Task.new pid fds) {
  cwd = parent.cwd;
  umask = parent.umask;
  sigact = parent.sigact;
  sigmask = parent.sigmask;
  exe = parent.exe;
  comm = parent.comm;
}

-- The group of a process, or else its pid.
unfoldable pub group_of : List ProcRecord → ℤ → ℤ
unfolding find_record
group_of table pid = elim (find_record table pid) [ none ↦ pid | some r ↦ r.pgid ]

-- `wait4`: whether a child is one of those that `which` asks for.
unfoldable pub asked_for : ℤ → ℤ → ProcRecord → Bool
unfolding wrapping_neg
asked_for (negsuc zero) pgid r = true
asked_for (negsuc (suc n)) pgid r = eq_ℤ r.pgid (wrapping_neg (negsuc (suc n)))
asked_for (pos zero) pgid r = eq_ℤ r.pgid pgid
asked_for (pos (suc n)) pgid r = eq_ℤ r.pid (pos (suc n))

-- The loop of `wait4`: how many children match, up to the first that has exited, and that one.
unfoldable pub scan : List ProcRecord → ℤ → ℤ → ℤ → ℕ → ℕ × Option (ℤ × ℤ)
unfolding asked_for
scan [] pid which pgid count = (count, none)
scan (r ∷ table) pid which pgid count =
    let more = min (count + 1) (2 ^ 31 - 1) in
    let skipped = scan table pid which pgid count in
    let counted = scan table pid which pgid more in
    if not (eq_ℤ r.ppid pid)
    then skipped
    else if not (asked_for which pgid r)
    then skipped
    else elim r.exit [ none ↦ counted | some status ↦ (more, some (r.pid, status)) ]

-- `kill`: whether a signal to `target`, sent by `me`, goes to a process.
unfoldable pub signalled : ℤ → ℤ → ℤ → ProcRecord → Bool
unfolding wrapping_neg is_alive
signalled (pos zero) me group r = eq_ℤ r.pgid group && is_alive r
signalled (pos (suc n)) me group r = eq_ℤ r.pid (pos (suc n))
signalled (negsuc zero) me group r = not (eq_ℤ r.pid (pos 1)) && (not (eq_ℤ r.pid me) && is_alive r)
signalled (negsuc (suc n)) me group r = eq_ℤ r.pgid (wrapping_neg (negsuc (suc n))) && is_alive r

-- A signal that is not 0 is made pending, and the timer of the process is dropped.
unfoldable pub deliver : ℕ → ProcRecord → ProcRecord
unfolding raise
deliver zero r = r
deliver (suc n) r = record (raise r (pos (suc n))) { wake_at = none }

unfoldable pub any_signalled : ℤ → ℤ → ℤ → List ProcRecord → Bool
unfolding signalled
any_signalled target me group [] = false
any_signalled target me group (r ∷ table) =
    signalled target me group r || any_signalled target me group table

-- The task that stays behind when an `execve` hands its own to a new instance.
abbrev pub vacant : Task
vacant = Task.new (pos 0) Fd.new

module _ {F : Type 0} where
  -- `nr::CLONE`
  unfoldable pub clone : Ctx F → ℕ → Sys F ℤ
  unfolding child_of
  clone c flags =
      if bit_and flags clone_vfork == 0
        || (bit_and flags clone_vm == 0 || not (bit_and flags clone_thread == 0))
      then (c, err (errno nosys))
      else let (sh, r) = fork_record c.shared c.task in
        elim r [
          | none ↦ (with_shared c sh, err (errno again))
          | some pid ↦
              let (descs, fds) = Fd.duplicate c.task.fds sh.descs in
              (
                record c {
                  shared = record sh { descs = descs };
                  task = child_of c.task pid fds;
                  vfork_stack = c.task ∷ c.vfork_stack;
                },
                ok (pos 0),
              )
        ]

  -- A task that ends: its descriptors are closed and its record takes the status.
  unfoldable pub end_task : Shared F → Task → ℤ → Shared F
  end_task sh t status = set_exit (release_fds sh t.fds) t.pid status

  -- `nr::EXIT`, `nr::EXIT_GROUP`
  unfoldable pub exit_process : Ctx F → ℤ → Sys F ℤ
  unfolding end_task
  exit_process c code = elim c.vfork_stack [
    | [] ↦ (c, err (exit (status_exited code)))
    | parent ∷ rest ↦ (
      record c {
        shared = end_task c.shared c.task (status_exited code);
        task = parent;
        vfork_stack = rest;
      },
      ok c.task.pid,
    )
  ]

  -- `finish_exec`
  unfoldable pub finish_exec : Ctx F → ℕ → Bytes → List Bytes → List Bytes → Sys F ℤ
  finish_exec c program exe argv envp =
      let (fds, keys) = Fd.drain_cloexec c.task.fds in
      let sh = release_keys c.shared keys in
      let request : Spawn = record {
        task = record (c.task) { fds = fds };
        program = program;
        exe = exe;
        argv = argv;
        envp = envp;
      } in
      elim c.vfork_stack [
        | [] ↦ (record c { shared = sh; task = vacant; exec_request = some request }, err exec)
        | parent ∷ rest ↦ (
          record c { shared = sh; task = parent; vfork_stack = rest; spawn = request ∷ c.spawn },
          ok c.task.pid,
        )
      ]

  -- The loop of `finish_process`: the tasks of one instance, the innermost child first, are killed
  -- up to the outermost, which takes the status.
  unfoldable pub end_tasks : Shared F → Task → List Task → ℤ → Shared F
  unfolding end_task
  end_tasks sh t [] status = end_task sh t status
  end_tasks sh t (parent ∷ rest) status =
      end_tasks (end_task sh t (status_signaled (pos sigkill))) parent rest status

  -- `finish_process`, for the process that `c` runs and the memory charged for it.
  unfoldable pub finish_process : Ctx F → ℕ → ℤ → Shared F
  unfolding end_tasks
  finish_process c charged status =
      end_tasks (release_memory c.shared (add_u64 charged c.grown)) c.task c.vfork_stack status

  -- A write to the guest, if there is an address.
  store_if : Ctx F → ℕ → VfsResult Bytes → (Ctx F → Sys F ℤ) → Sys F ℤ
  store_if c zero m k = k c
  store_if c (suc n) (ok m) k = k (record c { memory = m })
  store_if c (suc n) (err e) k = (c, err (errno e))

  -- `nr::WAIT4`
  unfoldable pub wait4 : Ctx F → ℤ → ℕ → ℕ → ℕ → Sys F ℤ
  unfolding scan group_of store_if drop_pid
  wait4 c which status_at options rusage_at =
      let pid = c.task.pid in
      let (count, found) = scan c.shared.table pid which (group_of c.shared.table pid) 0 in
      if count == 0 then (c, err (errno child)) else elim found [
        | none ↦ (c, if bit_and options wnohang == 0 then err block else ok (pos 0))
        | some (zombie, status) ↦
            let c' = with_shared c (record (c.shared) { table = drop_pid c.shared.table zombie }) in
            store_if c' status_at (put_u32 c'.memory status_at (as_u32 status))
              λ c₁. store_if c₁ rusage_at (zero_fill c₁.memory rusage_at 72) λ c₂. (c₂, ok zombie)
      ]

  -- `send_signal`
  unfoldable pub send_signal : Ctx F → ℤ → ℤ → Sys F (Unit {0})
  unfolding signalled deliver any_signalled group_of
  send_signal c target (negsuc n) = (c, err (errno inval))
  send_signal c target (pos sig) =
      if not (ltb sig nsig)
      then (c, err (errno inval))
      else let me = c.task.pid in
        let group = group_of c.shared.table me in
        let hit = λ (r : ProcRecord). if signalled target me group r then deliver sig r else r in
        (
          with_shared c (record (c.shared) { table = map hit c.shared.table }),
          if any_signalled target me group c.shared.table then ok tt else err (errno srch),
        )
