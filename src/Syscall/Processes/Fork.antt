-- ===== src/Syscall/Processes/Fork.antt =====
-- vfork and exit (kernel/syscall.rs): whose descriptors the tasks have after the call.
use wasmux.Prelude.{
  ℕ, ◌+◌, ◌^◌, ◌<◌, ◌≡◌, ◌⊎◌, refl, ap, inl, inr, arith, Bool, true, false, ◌||◌, not, none, some,
  List, [], ◌∷◌, ◌==◌, leb, ℤ, pos, ok, err, Bool-cases,
}
use Prim.Native.Nat.{bit_and}
use wasmux.Errno.{nosys, again}
use wasmux.Slab.{Key}
use wasmux.Fd
use wasmux.Fd.{Fd, FdTable, at, drain_marked, drain_cloexec}
use wasmux.Shared.Refs.{refs_at, occurs}
use wasmux.Task
use wasmux.Task.{Task, status_exited}
use wasmux.Process.{fork_record, count_alive, allocate_pid}
use wasmux.Ctx.{Ctx, errno, exit}
use wasmux.Syscall.Processes.{clone, child_of, exit_process, clone_vm, clone_vfork, clone_thread}
use wasmux.Syscall.Processes.Balance.{InBalance, asked, clone-InBalance, exit-InBalance}

-- The flags ask for something else than a vfork.
abbrev no_vfork : ℕ → Bool
no_vfork flags =
    bit_and flags clone_vfork == 0
    || (bit_and flags clone_vm == 0 || not (bit_and flags clone_thread == 0))

module _ {F : Type 0} where
  -- What a vfork that succeeds leaves: the child has the parent's descriptors, each with a reference
  -- of its own, and the parent is suspended.
  pub record IsShared (c c' : Ctx F) : Type 0 where
    pub table : c'.task.fds ≡ c.task.fds
    pub suspended : c'.vfork_stack ≡ c.task ∷ c.vfork_stack
    pub child : c'.task.pid ≡ pos c.shared.next_pid
    pub counts :
        (key : Key)
        → refs_at c'.shared.descs key ≡ refs_at c.shared.descs key + occurs key c.task.fds.slots

  fork_record-none :
      (c : Ctx F)
      → leb c.shared.limits.processes (count_alive c.shared.table) ≡ true
      → fork_record c.shared c.task ≡ (c.shared, none)
  unfolding fork_record
  fork_record-none c full = rw (fork_record, full) refl

  fork_record-some :
      (c : Ctx F)
      → leb c.shared.limits.processes (count_alive c.shared.table) ≡ false
      → (fork_record c.shared c.task).1 ≡ some (pos c.shared.next_pid)
  unfolding fork_record allocate_pid
  fork_record-some c room = rw (fork_record, room) refl

  counts-shared :
      (c c' : Ctx F) (others : List FdTable)
      → InBalance c others
      → InBalance c' others
      → c'.task.fds ≡ c.task.fds
      → c'.vfork_stack ≡ c.task ∷ c.vfork_stack
      → asked c' ≡ asked c
      → (key : Key)
      → refs_at c'.shared.descs key ≡ refs_at c.shared.descs key + occurs key c.task.fds.slots
  counts-shared c c' others b b' t s a key =
      let after = rw (t, s, a) at (b'.counted key) in omega (arith, after, b.counted key)

  -- What a refused vfork answers; nothing has changed.
  abbrev pub IsRefused : Ctx F → ℕ → Type 0
  IsRefused c flags =
      ((no_vfork flags ≡ true) × (clone c flags ≡ (c, err (errno nosys))))
      ⊎ ((leb c.shared.limits.processes (count_alive c.shared.table) ≡ true)
          × (clone c flags ≡ (c, err (errno again))))

  -- The counts of the descriptions account for the descriptors of all processes, and none reaches
  -- 2 ^ 32 with the descriptors of the parent added. After a vfork they still do. It is refused, with
  -- nothing changed, where the flags ask for something else or there is no room for a process; else
  -- it answers 0 to a child that has the parent's table, with one more reference on a description
  -- for each descriptor of it, and the parent is suspended.
  pub clone-IsShared :
      (c : Ctx F) (others : List FdTable) (flags : ℕ)
      → ((k : Key) → refs_at c.shared.descs k + occurs k c.task.fds.slots < 2 ^ 32)
      → InBalance c others
      → InBalance (clone c flags).0 others
        × (IsRefused c flags ⊎ (((clone c flags).1 ≡ ok (pos 0)) × IsShared c (clone c flags).0))
  unfolding clone child_of Task.new Fd.duplicate
  clone-IsShared c others flags small b =
      let b' = clone-InBalance c others flags small b in
      (
        b',
        elim (Bool-cases (no_vfork flags)) [
          | inl e ↦ inl (inl (e, rw (clone, e) refl))
          | inr e ↦ elim (Bool-cases (leb c.shared.limits.processes (count_alive c.shared.table))) [
            | inl full ↦ inl (
                inr (
                  full,
                  rw
                      (
                        clone,
                        e,
                        ap (λ r. r.1) (fork_record-none c full),
                        ap (λ r. r.0) (fork_record-none c full),
                      )
                      refl,
                ))
            | inr room ↦
                let f = fork_record-some c room in
                let table : (clone c flags).0.task.fds ≡ c.task.fds = rw (clone, e, f) refl in
                let stack : (clone c flags).0.vfork_stack ≡ c.task ∷ c.vfork_stack =
                  rw (clone, e, f) refl in
                let same : asked (clone c flags).0 ≡ asked c = rw (clone, e, f) refl in
                inr (
                  rw (clone, e, f) refl,
                  record {
                    table = table;
                    suspended = stack;
                    child = rw (clone, e, f) refl;
                    counts = counts-shared c (clone c flags).0 others b b' table stack same;
                  },
                )
          ]
        ],
      )

  -- What the exit of a vfork child leaves: the parent runs, and the references of the child's
  -- descriptors are given back.
  pub record IsEnded (c c' : Ctx F) (parent : Task) (rest : List Task) : Type 0 where
    pub runs : c'.task ≡ parent
    pub suspended : c'.vfork_stack ≡ rest
    pub counts :
        (key : Key)
        → refs_at c'.shared.descs key + occurs key c.task.fds.slots ≡ refs_at c.shared.descs key

  counts-ended :
      (c c' : Ctx F) (others : List FdTable) (parent : Task) (rest : List Task)
      → InBalance c others
      → InBalance c' others
      → c.vfork_stack ≡ parent ∷ rest
      → c'.task ≡ parent
      → c'.vfork_stack ≡ rest
      → asked c' ≡ asked c
      → (key : Key)
      → refs_at c'.shared.descs key + occurs key c.task.fds.slots ≡ refs_at c.shared.descs key
  counts-ended c c' others parent rest b b' e t s a key =
      let before = rw (e) at (b.counted key) in
      let after = rw (t, s, a) at (b'.counted key) in omega (arith, before, after)

  exit_cases :
      (c : Ctx F) (others : List FdTable) (code : ℤ) (stack : List Task)
      → c.vfork_stack ≡ stack
      → InBalance c others
      → ((c.vfork_stack ≡ []) × (exit_process c code ≡ (c, err (exit (status_exited code)))))
        ⊎ ((parent : Task) × (rest : List Task) × (c.vfork_stack ≡ parent ∷ rest)
            × ((exit_process c code).1 ≡ ok c.task.pid)
            × IsEnded c (exit_process c code).0 parent rest)
  unfolding exit_process
  exit_cases c others code [] e b = inl (e, simp (exit_process, e))
  exit_cases c others code (parent ∷ rest) e b =
      let runs : (exit_process c code).0.task ≡ parent = rw (exit_process, e) refl in
      let stack : (exit_process c code).0.vfork_stack ≡ rest = rw (exit_process, e) refl in
      let same : asked (exit_process c code).0 ≡ asked c = rw (exit_process, e) refl in
      inr (
        parent,
        rest,
        e,
        rw (exit_process, e) refl,
        record {
          runs = runs;
          suspended = stack;
          counts =
              counts-ended c (exit_process c code).0 others parent rest b
                (exit-InBalance c others code b) e runs stack same;
        },
      )

  -- The counts of the descriptions account for the descriptors of all processes. After an exit call
  -- they still do. Of a process that no vfork has started, the call ends the instance and changes
  -- nothing itself. Of a vfork child, it takes one reference away for each descriptor of the child,
  -- and the parent runs again, with the pid of the child as its answer.
  pub exit-IsEnded :
      (c : Ctx F) (others : List FdTable) (code : ℤ)
      → InBalance c others
      → InBalance (exit_process c code).0 others
        × (((c.vfork_stack ≡ []) × (exit_process c code ≡ (c, err (exit (status_exited code)))))
            ⊎ ((parent : Task) × (rest : List Task) × (c.vfork_stack ≡ parent ∷ rest)
                × ((exit_process c code).1 ≡ ok c.task.pid)
                × IsEnded c (exit_process c code).0 parent rest))
  exit-IsEnded c others code b =
      (exit-InBalance c others code b, exit_cases c others code c.vfork_stack refl b)
