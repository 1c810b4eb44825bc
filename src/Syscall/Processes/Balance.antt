-- ===== src/Syscall/Processes/Balance.antt =====
-- vfork, exec and exit (kernel/syscall.rs, kernel/mod.rs) and the reference counts of the
-- descriptions. `others` are the tables of the processes of other instances.
use wasmux.Prelude.{
  ℕ, ◌+◌, ◌^◌, ◌<◌, ◌≡◌, refl, inl, inr, arith, ◌||◌, not, Option, none, some, List, [], ◌∷◌, ◌++◌,
  ◌==◌, ℤ, pos, Bool-cases, Option-cases,
}
use Prim.Native.Nat.{bit_and}
use wasmux.Slab.{Key, Slab}
use wasmux.Desc.{Bytes, Desc}
use wasmux.Fd
use wasmux.Fd.{FdTable, new}
use wasmux.Shared.{Shared, release_keys, release_fds, release_memory, add_u64}
use wasmux.Shared.Refs.{IsBalanced, refs_at, occurs, total, release_keys-IsBalanced}
use wasmux.Shared.Tables.{duplicate-IsBalanced, drain_all-IsBalanced, drain_cloexec-IsBalanced}
use wasmux.Task
use wasmux.Task.{Task, status_exited, status_signaled, sigkill}
use wasmux.Process.{fork_record, set_exit}
use wasmux.Ctx.{Ctx, Spawn}
use wasmux.Syscall.Processes.{
  clone, child_of, end_task, exit_process, finish_exec, end_tasks, finish_process, clone_vm,
  clone_vfork, clone_thread,
}

-- The tables of the tasks of one instance, and those of the instances that it has asked for.
abbrev pub tables_of : List Task → List FdTable
tables_of [] = []
tables_of (t ∷ ts) = t.fds ∷ tables_of ts

abbrev pub tables_of_spawns : List Spawn → List FdTable
tables_of_spawns [] = []
tables_of_spawns (s ∷ ss) = s.task.fds ∷ tables_of_spawns ss

abbrev pub tables_of_request : Option Spawn → List FdTable
tables_of_request none = []
tables_of_request (some s) = s.task.fds ∷ []

total-append :
    (key : Key) (ts us : List FdTable) → total key (ts ++ us) ≡ total key ts + total key us
total-append key [] us = omega arith
total-append key (t ∷ ts) us = omega (arith, total-append key ts us)

-- Where the table `d` stands among the others does not matter.
moved :
    (key : Key) (d : FdTable) (ts qs ss others : List FdTable)
    → occurs key d.slots + total key (ts ++ ((qs ++ ss) ++ others))
      ≡ total key (ts ++ ((qs ++ (d ∷ ss)) ++ others))
moved key d ts qs ss others = omega (
  arith,
  total-append key ts ((qs ++ ss) ++ others),
  total-append key (qs ++ ss) others,
  total-append key qs ss,
  total-append key ts ((qs ++ (d ∷ ss)) ++ others),
  total-append key (qs ++ (d ∷ ss)) others,
  total-append key qs (d ∷ ss),
)

module _ {F : Type 0} where
  -- The balance depends on the tables only through the number of descriptors for each key.
  IsBalanced-total :
      {ts us : List FdTable} {descs : Slab (Desc F)}
      → ((key : Key) → total key ts ≡ total key us)
      → IsBalanced ts [] descs
      → IsBalanced us [] descs
  IsBalanced-total h b = record {
    counted = λ key. omega (arith, h key, b.counted key);
    alive = b.alive;
  }

  -- The tables of the processes that wait for an instance.
  abbrev pub asked : Ctx F → List FdTable
  asked c = tables_of_request c.exec_request ++ tables_of_spawns c.spawn

  -- The counts account for the running task, its suspended parents, the processes that wait for an
  -- instance, and everyone else.
  abbrev pub InBalance : Ctx F → List FdTable → Type 0
  InBalance c others =
      IsBalanced (c.task.fds ∷ (tables_of c.vfork_stack ++ (asked c ++ others))) [] c.shared.descs

  release_fds-IsBalanced :
      (sh : Shared F) (t : FdTable) (ts : List FdTable)
      → IsBalanced (t ∷ ts) [] sh.descs
      → IsBalanced ts [] (release_fds sh t).descs
  unfolding release_fds
  release_fds-IsBalanced sh t ts b =
      release_keys-IsBalanced ts (Fd.drain_all t).1 [] sh (drain_all-IsBalanced t ts [] sh.descs b)

  end_task-IsBalanced :
      (sh : Shared F) (t : Task) (ts : List FdTable) (status : ℤ)
      → IsBalanced (t.fds ∷ ts) [] sh.descs
      → IsBalanced ts [] (end_task sh t status).descs
  unfolding end_task set_exit
  end_task-IsBalanced sh t ts status b = release_fds-IsBalanced sh t.fds ts b

  exit_stack :
      (c : Ctx F) (others : List FdTable) (code : ℤ) (stack : List Task)
      → c.vfork_stack ≡ stack
      → InBalance c others
      → InBalance (exit_process c code).0 others
  unfolding exit_process
  exit_stack c others code [] e b = rw (e, exit_process) b
  exit_stack c others code (parent ∷ rest) e b =
      let b' : IsBalanced (c.task.fds ∷ (parent.fds ∷ (tables_of rest ++ (asked c ++ others)))) []
          c.shared.descs =
        rw e at b in
      rw (e, exit_process) (end_task-IsBalanced c.shared c.task _ (status_exited code) b')

  -- If the count of every description is the number of descriptors that point at it, over the tables
  -- of all processes, then it still is after an exit call.
  pub exit-InBalance :
      (c : Ctx F) (others : List FdTable) (code : ℤ)
      → InBalance c others
      → InBalance (exit_process c code).0 others
  exit-InBalance c others code b = exit_stack c others code c.vfork_stack refl b

  descs-fork_record : (sh : Shared F) (t : Task) → (fork_record sh t).0.descs ≡ sh.descs
  unfolding fork_record
  descs-fork_record sh t = ground arith

  -- The counts stay in balance over a vfork, also where it is refused; provided that no count reaches
  -- 2 ^ 32 with the descriptors of the parent added.
  pub clone-InBalance :
      (c : Ctx F) (others : List FdTable) (flags : ℕ)
      → ((k : Key) → refs_at c.shared.descs k + occurs k c.task.fds.slots < 2 ^ 32)
      → InBalance c others
      → InBalance (clone c flags).0 others
  unfolding clone child_of Task.new
  clone-InBalance c others flags small b =
      elim (Bool-cases (
        bit_and flags clone_vfork == 0
        || (bit_and flags clone_vm == 0 || not (bit_and flags clone_thread == 0)))) [
          | inl e ↦ rw (e, clone) b
          | inr e ↦ elim (Option-cases (fork_record c.shared c.task).1) [
            | inl f ↦ rw (e, clone, f, descs-fork_record c.shared c.task) b
            | inr (pid, f) ↦
                rw (e, clone, f, descs-fork_record c.shared c.task)
                  (duplicate-IsBalanced c.task.fds _ [] c.shared.descs small b)
          ]
        ]

  pub closed_marked :
      (c : Ctx F) (ts : List FdTable)
      → IsBalanced (c.task.fds ∷ ts) [] c.shared.descs
      → IsBalanced
          ((Fd.drain_cloexec c.task.fds).0 ∷ ts)
          []
          (release_keys c.shared (Fd.drain_cloexec c.task.fds).1).descs
  closed_marked c ts b =
      release_keys-IsBalanced _ (Fd.drain_cloexec c.task.fds).1 [] c.shared
        (drain_cloexec-IsBalanced c.task.fds ts [] c.shared.descs b)

  -- The table of the caller goes to the process that is asked for.
  exec_stack :
      (c : Ctx F) (others : List FdTable) (program : ℕ) (exe : Bytes) (argv envp : List Bytes)
      → (stack : List Task) → c.vfork_stack ≡ stack
      → c.exec_request ≡ none
      → InBalance c others
      → InBalance (finish_exec c program exe argv envp).0 others
  unfolding finish_exec Task.new new
  exec_stack c others program exe argv envp [] e n b =
      let b' : IsBalanced (c.task.fds ∷ (tables_of c.vfork_stack ++ (([] ++ spawns) ++ others))) []
          c.shared.descs =
        rw n at b in
      rw (e, finish_exec)
        (IsBalanced-total
          (λ key. omega (arith, moved key left (tables_of c.vfork_stack) [] spawns others))
          (closed_marked c _ b'))
    where
      spawns : List FdTable
      spawns = tables_of_spawns c.spawn

      left : FdTable
      left = (Fd.drain_cloexec c.task.fds).0
  exec_stack c others program exe argv envp (parent ∷ rest) e n b =
      let b' : IsBalanced (c.task.fds ∷ (tables_of (parent ∷ rest) ++ (asked c ++ others))) []
          c.shared.descs =
        rw e at b in
      rw (e, finish_exec)
        (IsBalanced-total
          (λ key. omega (
            arith,
            moved key (Fd.drain_cloexec c.task.fds).0 (tables_of rest)
                (tables_of_request c.exec_request) (tables_of_spawns c.spawn) others,
          ))
          (closed_marked c _ b'))

  -- The counts stay in balance over the end of an exec. The caller has no other request open.
  pub exec-InBalance :
      (c : Ctx F) (others : List FdTable) (program : ℕ) (exe : Bytes) (argv envp : List Bytes)
      → c.exec_request ≡ none
      → InBalance c others
      → InBalance (finish_exec c program exe argv envp).0 others
  exec-InBalance c others program exe argv envp n b =
      exec_stack c others program exe argv envp c.vfork_stack refl n b

  end_tasks-IsBalanced :
      (sh : Shared F) (t : Task) (ts : List Task) (others : List FdTable) (status : ℤ)
      → IsBalanced (t.fds ∷ (tables_of ts ++ others)) [] sh.descs
      → IsBalanced others [] (end_tasks sh t ts status).descs
  unfolding end_tasks
  end_tasks-IsBalanced sh t [] others status b = end_task-IsBalanced sh t others status b
  end_tasks-IsBalanced sh t (parent ∷ rest) others status b =
      end_tasks-IsBalanced (end_task sh t (status_signaled (pos sigkill))) parent rest others status
        (end_task-IsBalanced sh t _ (status_signaled (pos sigkill)) b)

  -- The end of an instance releases the descriptors of its task and of every parent that is
  -- suspended in it: the counts are in balance with the tables of the others alone.
  pub finish-IsBalanced :
      (c : Ctx F) (others : List FdTable) (charged : ℕ) (status : ℤ)
      → InBalance c others
      → IsBalanced (asked c ++ others) [] (finish_process c charged status).descs
  unfolding finish_process release_memory
  finish-IsBalanced c others charged status b =
      end_tasks-IsBalanced (release_memory c.shared (add_u64 charged c.grown)) c.task c.vfork_stack
        (asked c ++ others) status b
