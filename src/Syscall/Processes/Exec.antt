-- ===== src/Syscall/Processes/Exec.antt =====
-- The end of an exec (kernel/syscall.rs, `finish_exec`): which descriptors the new instance gets.
use wasmux.Prelude.{
  ℕ, zero, suc, ◌+◌, ◌≡◌, ◌⊎◌, refl, ap, ◌∙◌, inl, inr, arith, ◌&&◌, Option, none, some, List, [],
  ◌∷◌, ◌==◌, ℤ, if◌then◌else◌, ok, err, Bool-cases,
}
use wasmux.Slab.{Key}
use wasmux.Desc.{Bytes}
use wasmux.Fd.{Fd, FdTable, at, drain_marked, drain_cloexec}
use wasmux.Shared.{release_keys}
use wasmux.Shared.Refs.{refs_at, occurs}
use wasmux.Task.{Task}
use wasmux.Ctx.{Ctx, Sys, exec, Spawn}
use wasmux.Syscall.Processes.{finish_exec}
use wasmux.Syscall.Processes.Balance.{InBalance, exec-InBalance, closed_marked}

-- The slot of a descriptor after an exec: empty if it was marked.
abbrev pub unmarked : Option Fd → Option Fd
unmarked none = none
unmarked (some e) = if e.cloexec then none else some e

-- How many marked descriptors point at a description.
abbrev pub marked : Key → List (Option Fd) → ℕ
marked key [] = 0
marked key (none ∷ slots) = marked key slots
marked key (some e ∷ slots) = (if e.cloexec && key == e.desc then 1 else 0) + marked key slots

at-drain_marked :
    (slots : List (Option Fd)) (i : ℕ) → at (drain_marked slots).0 i ≡ unmarked (at slots i)
unfolding drain_marked
at-drain_marked [] i = refl
at-drain_marked (none ∷ slots) zero = refl
at-drain_marked (none ∷ slots) (suc i) = at-drain_marked slots i
at-drain_marked (some e ∷ slots) zero = elim (Bool-cases e.cloexec) [
  | inl m ↦ rw (drain_marked, m) refl
  | inr m ↦ rw (drain_marked, m) refl
]
at-drain_marked (some e ∷ slots) (suc i) = elim (Bool-cases e.cloexec) [
  | inl m ↦ rw (drain_marked, m) (at-drain_marked slots i)
  | inr m ↦ rw (drain_marked, m) (at-drain_marked slots i)
]

occurs-drain_marked :
    (key : Key) (slots : List (Option Fd))
    → occurs key (drain_marked slots).0 + marked key slots ≡ occurs key slots
unfolding drain_marked
occurs-drain_marked key [] = refl
occurs-drain_marked key (none ∷ slots) = occurs-drain_marked key slots
occurs-drain_marked key (some e ∷ slots) = elim (Bool-cases e.cloexec) [
  | inl m ↦ rw (drain_marked, m) (omega (arith, occurs-drain_marked key slots))
  | inr m ↦ rw (drain_marked, m) (omega (arith, occurs-drain_marked key slots))
]

module _ {F : Type 0} where
  -- A program that an exec asks for, and what the caller gives up for it.
  pub record IsHandedOver (c c' : Ctx F) (s : Spawn) : Type 0 where
    pub slots : (i : ℕ) → at s.task.fds.slots i ≡ unmarked (at c.task.fds.slots i)
    pub counts :
        (key : Key)
        → refs_at c'.shared.descs key + marked key c.task.fds.slots ≡ refs_at c.shared.descs key

  -- Who runs after an exec, and where the request for an instance is.
  abbrev pub GoesOn : Ctx F → Sys F ℤ → Spawn → Type 0
  GoesOn c r s =
      ((c.vfork_stack ≡ []) × (r.1 ≡ err exec) × (r.0.exec_request ≡ some s))
      ⊎ ((parent : Task) × (rest : List Task) × (c.vfork_stack ≡ parent ∷ rest)
          × (r.1 ≡ ok c.task.pid)
          × (r.0.task ≡ parent)
          × (r.0.vfork_stack ≡ rest)
          × (r.0.spawn ≡ s ∷ c.spawn))

  -- The request of an exec: the caller's task without its marked descriptors.
  abbrev pub request : Ctx F → ℕ → Bytes → List Bytes → List Bytes → Spawn
  request c program exe argv envp = record {
    task = record (c.task) { fds = (drain_cloexec c.task.fds).0 };
    program = program;
    exe = exe;
    argv = argv;
    envp = envp;
  }

  exec_cases :
      (c : Ctx F) (program : ℕ) (exe : Bytes) (argv envp : List Bytes) (stack : List Task)
      → c.vfork_stack ≡ stack
      → GoesOn c (finish_exec c program exe argv envp) (request c program exe argv envp)
  unfolding finish_exec
  exec_cases c program exe argv envp [] e =
      inl (e, rw (finish_exec, e) refl, rw (finish_exec, e) refl)
  exec_cases c program exe argv envp (parent ∷ rest) e = inr (
    parent,
    rest,
    e,
    rw (finish_exec, e) refl,
    rw (finish_exec, e) refl,
    rw (finish_exec, e) refl,
    rw (finish_exec, e) refl,
  )

  closed_counts :
      (c : Ctx F) (others : List FdTable)
      → InBalance c others
      → (key : Key)
      → refs_at (release_keys c.shared (drain_cloexec c.task.fds).1).descs key
          + marked key c.task.fds.slots
        ≡ refs_at c.shared.descs key
  unfolding drain_cloexec
  closed_counts c others b key = omega (
    arith,
    (closed_marked c _ b).counted key,
    b.counted key,
    occurs-drain_marked key c.task.fds.slots,
  )

  descs-finish_exec :
      (c : Ctx F) (program : ℕ) (exe : Bytes) (argv envp : List Bytes) (stack : List Task)
      → c.vfork_stack ≡ stack
      → (finish_exec c program exe argv envp).0.shared.descs
        ≡ (release_keys c.shared (drain_cloexec c.task.fds).1).descs
  unfolding finish_exec
  descs-finish_exec c program exe argv envp [] e = rw (finish_exec, e) refl
  descs-finish_exec c program exe argv envp (parent ∷ rest) e = rw (finish_exec, e) refl

  -- The counts of the descriptions account for the descriptors of all processes, and the caller has
  -- no other request open. After the end of an exec they still do. The request takes the caller's
  -- descriptors at their numbers, but not those marked close-on-exec, and one reference goes for
  -- each that is marked. Without a vfork the instance makes way for the request; else the parent
  -- runs again, with the pid of the caller as its answer, and the request is queued.
  pub exec-IsHandedOver :
      (c : Ctx F) (others : List FdTable) (program : ℕ) (exe : Bytes) (argv envp : List Bytes)
      → c.exec_request ≡ none
      → InBalance c others
      → InBalance (finish_exec c program exe argv envp).0 others
        × ((s : Spawn) × GoesOn c (finish_exec c program exe argv envp) s
            × IsHandedOver c (finish_exec c program exe argv envp).0 s)
  unfolding drain_cloexec
  exec-IsHandedOver c others program exe argv envp n b = (
    exec-InBalance c others program exe argv envp n b,
    (
      request c program exe argv envp,
      exec_cases c program exe argv envp c.vfork_stack refl,
      record {
        slots = λ i. at-drain_marked c.task.fds.slots i;
        counts = λ key.
            ap (λ d. refs_at d key + marked key c.task.fds.slots)
              (descs-finish_exec c program exe argv envp c.vfork_stack refl)
            ∙ closed_counts c others b key;
      },
    ),
  )
