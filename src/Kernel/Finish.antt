-- ===== src/Kernel/Finish.antt =====
-- crates/wasmux/src/kernel/mod.rs: how a process ends, and is replaced by execve.
use wasmux.Prelude.{
  ℕ, zero, suc, ◌||◌, Option, none, some, List, [], ◌∷◌, ◌==◌, if◌then◌else◌, ℤ, pos, eq_ℤ, length,
  get_elem?,
}
use wasmux.Shared.{add_u64, release_memory}
use wasmux.Task.{Task, status_exited}
use wasmux.Process.{set_exit}
use wasmux.Ctx.{Spawn}
use wasmux.Syscall.Processes.{finish_process}
use wasmux.Kernel.{Proc, Kernel, World, remove_at, insert_at, pop, enter}
use wasmux.Kernel.Start.{start}

-- The pid of the instance: that of the outermost task.
unfoldable pub outermost : Task → List Task → Task
outermost t [] = t
outermost t (parent ∷ rest) = outermost parent rest

-- `get_or_insert`
abbrev pub get_or_insert : Option ℤ → ℤ → Option ℤ
get_or_insert none status = some status
get_or_insert (some first) status = some first

-- `ProcStep`
pub data ProcStep : Type 0 where
  ran : ProcStep
  stuck : ProcStep
  ended : ℤ → ProcStep
  replaced : ProcStep

module _ {F I W : Type 0} where
  -- `finish_process`: the process goes, and the end of the first or of the last sets the status.
  unfoldable pub finish : Kernel F I W → ℕ → ℤ → Kernel F I W
  unfolding finish_process outermost
  finish k index status = elim (get_elem? k.procs index) [
    | none ↦ k
    | some p ↦
        let procs = remove_at k.procs index in
        let last = eq_ℤ (outermost p.ctx.task p.ctx.vfork_stack).pid (pos 1) || length procs == 0 in
        record k {
          procs = procs;
          shared = finish_process (enter k p) p.charged status;
          exit_status = if last then get_or_insert k.exit_status status else k.exit_status;
        }
  ]

  -- The loop of `kill_all`, a round for each process.
  unfoldable pub finish_all : ℕ → Kernel F I W → ℤ → Kernel F I W
  unfolding finish
  finish_all zero k status = k
  finish_all (suc rounds) k status = finish_all rounds (finish k 0 status) status

  unfoldable pub kill_all : Kernel F I W → ℤ → Kernel F I W
  unfolding finish_all
  kill_all k status =
      let k' = finish_all (length k.procs) k status in
      record k' { exit_status = get_or_insert k'.exit_status status }

  -- The new process is taken from the end of the list to the place of the old one.
  unfoldable pub move_back : Kernel F I W → ℕ → Kernel F I W
  unfolding pop insert_at
  move_back k index =
      let (rest, last) = pop k.procs in
      elim last [
        | none ↦ record k { procs = rest }
        | some new ↦ record k { procs = insert_at rest index new }
      ]

  module _ {M : Type 0} (w : World F I M W) where
    -- What `replace_instance` does with the process `p` at `index`, which asks for `s`.
    unfoldable pub replace_by : Kernel F I W → ℕ → Proc F I W → Spawn → Kernel F I W × ProcStep
    unfolding release_memory start move_back set_exit remove_at
    replace_by k index p s =
        let sh = release_memory k.shared (add_u64 p.charged p.ctx.grown) in
        let (k', failed) = start w (record k { procs = remove_at k.procs index; shared = sh }) s in
        elim failed [
          | none ↦ (move_back k' index, ProcStep.replaced)
          | some e ↦ (
            record k' { shared = set_exit k'.shared s.task.pid (status_exited (pos 126)) },
            ProcStep.stuck,
          )
        ]

    unfoldable pub replace_instance : Kernel F I W → ℕ → Kernel F I W × ProcStep
    unfolding replace_by
    replace_instance k index = elim (get_elem? k.procs index) [
      | none ↦ (k, ProcStep.stuck)
      | some p ↦ elim p.ctx.exec_request [
        | none ↦ (k, ProcStep.ended (status_exited (pos 126)))
        | some s ↦ replace_by k index p s
      ]
    ]
