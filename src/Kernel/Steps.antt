-- ===== src/Kernel/Steps.antt =====
-- crates/wasmux/src/kernel/mod.rs: how the scheduler advances a guest.
use wasmux.Prelude.{
  ℕ, true, Option, none, some, List, [], ◌∷◌, ◌++◌, ◌==◌, if◌then◌else◌, ℤ, pos, codes,
}
use wasmux.Engine.{Exit, as_str}
use wasmux.Desc.{Bytes}
use wasmux.Shared.{push}
use wasmux.Task.{status_exited, status_signaled, sigsegv}
use wasmux.Syscall.Signals.{Outcome, dispatch}
use wasmux.Kernel.{
  Suspension, ExecState, Resume, Body, Proc, Kernel, World, enter, leave, put_proc, with_exec,
  with_resume,
}
use wasmux.Kernel.Finish.{ProcStep, replace_instance}
use wasmux.Kernel.Asyncify.{read_asyncify_stack, write_asyncify_stack}

-- `jmp_bufs.get(&env)`
unfoldable pub find_buf : List (ℕ × (Bytes × ℕ)) → ℕ → Option (Bytes × ℕ)
find_buf [] env = none
find_buf ((e, saved) ∷ rest) env = if e == env then some saved else find_buf rest env

abbrev segfault : ℤ
segfault = status_signaled (pos sigsegv)

-- `wasmux: {}: {}\n`
abbrev pub message : Bytes → Bytes → Bytes
message comm what = codes "wasmux: " ++ (comm ++ (codes ": " ++ (what ++ (10 ∷ []))))

-- The saved state of a rewind: the value that the import gives and the stack pointer.
abbrev pub resuming : ExecState → ℤ → ℕ → ExecState
resuming e value sp = record e { suspension = none; resume_value = value; resume_sp = sp }

module _ {F I W : Type 0} where
  module _ {M : Type 0} (w : World F I M W) where
    -- The arms of `after_return`, for the process `p` at `index` with the suspension taken.
    unfoldable pub on_suspension :
        Kernel F I W → ℕ → Proc F I W → Suspension → Kernel F I W × ProcStep
    unfolding read_asyncify_stack write_asyncify_stack find_buf replace_instance
    on_suspension k index p (Suspension.setjmp env sp) =
        let snapshot = read_asyncify_stack p.ctx.memory p.exec.asyncify_data in
        let bufs = (env, (snapshot, sp)) ∷ p.exec.jmp_bufs in
        (
          put_proc k index (record p {
            exec = record (resuming p.exec (pos 0) sp) { jmp_bufs = bufs };
            resume = Resume.rewind;
          }),
          ProcStep.ran,
        )
    on_suspension k index p (Suspension.longjmp env val) = elim (find_buf p.exec.jmp_bufs env) [
      | none ↦ (put_proc k index p, ProcStep.ended segfault)
      | some (snapshot, sp) ↦
          elim (write_asyncify_stack p.ctx.memory p.exec.asyncify_data snapshot) [
            | none ↦ (put_proc k index p, ProcStep.ended segfault)
            | some m ↦ (
              put_proc k index (record p {
                ctx = record (p.ctx) { memory = m };
                exec = resuming p.exec val sp;
                resume = Resume.rewind;
              }),
              ProcStep.ran,
            )
          ]
    ]
    on_suspension k index p (Suspension.blocked number args) =
        (put_proc k index (with_resume p (Resume.blocked number args)), ProcStep.ran)
    on_suspension k index p (Suspension.exit status) = (put_proc k index p, ProcStep.ended status)
    on_suspension k index p Suspension.exec = replace_instance w (put_proc k index p) index

    -- `after_return`, for a guest.
    unfoldable pub after_return : Kernel F I W → ℕ → Proc F I W → I → Kernel F I W × ProcStep
    unfolding on_suspension
    after_return k index p i = elim p.exec.suspension [
      | none ↦ (put_proc k index p, ProcStep.ended (status_exited (pos 0)))
      | some why ↦
          on_suspension k index
            (record p {
              exec = record (p.exec) { suspension = none };
              body = Body.guest (w.stop_unwind i);
            })
            why
    ]

    -- `run_start` and what follows it.
    unfoldable pub run_guest : Kernel F I W → ℕ → Proc F I W → I → Kernel F I W × ProcStep
    unfolding after_return push as_str
    run_guest k index p i =
        let (i', (c, (e, why))) = w.run_start i (enter k p) p.exec in
        let p' = record p { ctx = c; exec = e; body = Body.guest i' } in
        let k' = leave k c in
        elim why [
          | Exit.returned ↦ after_return k' index p' i'
          | Exit.trap kind ↦ (
            record (put_proc k' index p') {
              shared = record (k'.shared) {
                stderr =
                    push k'.shared.stderr (message c.task.comm (as_str kind))
                      k'.shared.limits.output;
              };
            },
            ProcStep.ended segfault,
          )
        ]

    abbrev rewinding : Proc F I W → Proc F I W
    rewinding p = record p { exec = record (p.exec) { rewinding = true }; resume = Resume.fresh }

    -- What follows the retry of a call that was blocked.
    unfoldable pub retried :
        Kernel F I W → ℕ → Proc F I W → I → ℤ → List ℤ → Outcome → Kernel F I W × ProcStep
    unfolding run_guest replace_instance
    retried k index p i number args Outcome.blocked =
        (put_proc k index (with_resume p (Resume.blocked number args)), ProcStep.stuck)
    retried k index p i number args (Outcome.exited status) =
        (put_proc k index p, ProcStep.ended status)
    retried k index p i number args Outcome.replaced = replace_instance w (put_proc k index p) index
    retried k index p i number args (Outcome.value v) =
        run_guest k index (rewinding (with_exec p (record (p.exec) { resume_value = v })))
          (w.start_rewind i p.exec.asyncify_data)

    -- `step_process`, for a guest that is not parked, by how it continues.
    unfoldable pub step_guest : Kernel F I W → ℕ → Proc F I W → I → Resume → Kernel F I W × ProcStep
    unfolding run_guest retried dispatch
    step_guest k index p i Resume.fresh = run_guest k index p i
    step_guest k index p i Resume.rewind =
        run_guest k index (rewinding p) (w.start_rewind i p.exec.asyncify_data)
    step_guest k index p i (Resume.blocked number args) =
        let (c, outcome) = dispatch (w.handle number args) (enter k p) in
        retried (leave k c) index (record p { ctx = c; resume = Resume.fresh }) i number args
          outcome
