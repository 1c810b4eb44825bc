-- ===== src/Kernel/Run/Retry.antt =====
-- A system call that blocks (kernel/mod.rs, `syscall_entry`), and the scheduler's retry of it
-- (`step_process`, `after_return`).
use wasmux.Prelude.{
  ℕ, ◌<◌, ◌≡◌, refl, ap, sym, ◌∙◌, false, none, some, List, ◌==◌, if◌then◌else◌, ℤ, pos, ok, as_i32,
  as_u32, length, get_elem?, get_elem?-set_self,
}
use mathlib.Core.Option.{some-injective}
use wasmux.Engine.{Exit}
use wasmux.Task.{status_exited}
use wasmux.Ctx.{Ctx}
use wasmux.Syscall.Signals.{Outcome, dispatch}
use wasmux.Kernel.{Suspension, ExecState, Resume, Body, Proc, Kernel, World, enter, leave, put_proc}
use wasmux.Kernel.Finish.{ProcStep}
use wasmux.Kernel.Steps.{after_return, on_suspension, run_guest, retried, step_guest}
use wasmux.Kernel.Asyncify.{
  Suspend, Guest, read_args, unwind, finish_rewind, rewound, after_dispatch, syscall_entry,
}
use wasmux.Kernel.Run.{step_process}

module _ {F I M W : Type 0} (s : Suspend I) (deliver : I → ℕ → I) (number args_ptr : ℕ)
    (world : World F I M W) where
  -- What a guest is that enters the kernel by the import `syscall`.
  abbrev pub entered : I → Ctx F → ExecState → Guest F I × ℕ
  entered i c e =
      syscall_entry s (λ n args. dispatch (world.handle n args))
        (record { ctx = c; exec = e; instance_state = i }) number args_ptr

  -- The world whose guests make one system call and return; `deliver` is what the guest does with
  -- the answer that the import gives.
  abbrev pub calling : World F I M W
  calling = record world {
    run_start = λ i c e.
        let (g, answer) = entered i c e in
        (deliver g.instance_state answer, (g.ctx, (g.exec, Exit.returned)));
  }

  -- The process that waits for a call that has blocked.
  abbrev asleep : Kernel F I W → Proc F I W → I → List ℤ → Ctx F → Proc F I W
  asleep k p i args c =
      let g =
        (unwind s
          (record {
            ctx = c;
            exec = record (p.exec) { resume_sp = s.stack_pointer i };
            instance_state = i;
          })
          (Suspension.blocked (as_i32 number) args)) in
      record p {
        ctx = g.ctx;
        exec = record (g.exec) { suspension = none };
        body = Body.guest (world.stop_unwind (deliver g.instance_state 0));
        resume = Resume.blocked (as_i32 number) args;
      }

  first_step :
      (k : Kernel F I W) (index : ℕ) (p : Proc F I W) (i : I) (args : List ℤ) (c : Ctx F)
      → p.exec.rewinding ≡ false
      → read_args p.ctx.memory args_ptr 6 ≡ ok args
      → dispatch (world.handle (as_i32 number) args) (enter k p) ≡ (c, Outcome.blocked)
      → step_guest calling k index p i Resume.fresh
        ≡ (put_proc (leave k (asleep k p i args c).ctx) index (asleep k p i args c), ProcStep.ran)
  unfolding step_guest run_guest after_return on_suspension syscall_entry after_dispatch unwind
  first_step k index p i args c fresh read blocks = simp (fresh, read, blocks)

  -- The instance that the guest runs on after the retry: the rewind is over and the stack pointer,
  -- where it is not 0, is the one of before the call.
  abbrev pub restored : I → ℕ → ℕ → I
  restored j area sp =
      let i = s.stop_rewind (world.start_rewind j area) in
      if sp == 0 then i else s.set_stack_pointer i sp

  -- The process once the guest has its answer.
  abbrev pub answered : Proc F I W → I → Ctx F → ℤ → Proc F I W
  answered q j c v = record q {
    ctx = c;
    resume = Resume.fresh;
    exec = record (q.exec) { resume_value = v; rewinding = false };
    body = Body.guest (deliver (restored j q.exec.asyncify_data q.exec.resume_sp) (as_u32 v));
  }

  retry :
      (k : Kernel F I W) (index : ℕ) (q : Proc F I W) (j : I) (args : List ℤ) (c : Ctx F) (v : ℤ)
      → q.exec.suspension ≡ none
      → retried calling
          (leave k c)
          index
          (record q { ctx = c; resume = Resume.fresh })
          j
          (as_i32 number)
          args
          (Outcome.value v)
        ≡ (put_proc (leave k c) index (answered q j c v), ProcStep.ended (status_exited (pos 0)))
  unfolding retried run_guest after_return syscall_entry rewound finish_rewind
  retry k index q j args c v none_ = simp (none_)

  second_guest :
      (k : Kernel F I W) (index : ℕ) (q : Proc F I W) (j : I) (args : List ℤ) (c : Ctx F) (v : ℤ)
      → q.exec.suspension ≡ none
      → dispatch (world.handle (as_i32 number) args) (enter k q) ≡ (c, Outcome.value v)
      → step_guest calling k index q j (Resume.blocked (as_i32 number) args)
        ≡ (put_proc (leave k c) index (answered q j c v), ProcStep.ended (status_exited (pos 0)))
  unfolding step_guest
  second_guest k index q j args c v none_ answers =
      ap
        (λ (r : Ctx F × Outcome).
          retried calling (leave k r.0) index (record q { ctx = r.0; resume = Resume.fresh }) j
            (as_i32 number) args r.1)
        answers
      ∙ retry k index q j args c v none_

  turn_of :
      (rounds : ℕ) (k : Kernel F I W) (index : ℕ) (q : Proc F I W) (j : I) (resume : Resume)
      → get_elem? k.procs index ≡ some q
      → q.parked ≡ false
      → q.body ≡ Body.guest j
      → q.resume ≡ resume
      → step_process calling rounds k index ≡ (
        (step_guest calling k index q j resume).0,
        some (step_guest calling k index q j resume).1,
      )
  unfolding step_process
  turn_of rounds k index q j resume there on body same = simp (step_process, there, on, body, same)

  -- The instance of a guest that a call has suspended.
  abbrev pub suspended : I → ℕ → I
  suspended i area = world.stop_unwind (deliver (s.start_unwind i area) 0)

  asleep-retried :
      (k : Kernel F I W) (p : Proc F I W) (i : I) (args : List ℤ) (c : Ctx F) (rounds : ℕ)
      (later : Kernel F I W) (place : ℕ) (c' : Ctx F) (v : ℤ)
      → p.parked ≡ false
      → get_elem? later.procs place ≡ some (asleep k p i args c)
      → dispatch (world.handle (as_i32 number) args) (enter later (asleep k p i args c))
        ≡ (c', Outcome.value v)
      → step_process calling rounds later place ≡ (
        put_proc
            (leave later c')
            place
            (answered (asleep k p i args c) (suspended i p.exec.asyncify_data) c' v),
        some (ProcStep.ended (status_exited (pos 0))),
      )
  unfolding unwind
  asleep-retried k p i args c rounds later place c' v on there answers =
      let q = asleep k p i args c in
      let j = suspended i p.exec.asyncify_data in
      turn_of rounds later place q j (Resume.blocked (as_i32 number) args) there on refl refl
      ∙ ap (λ (r : Kernel F I W × ProcStep). (r.0, some r.1))
          (second_guest later place q j args c' v refl answers)

  -- What the guest finds after the retry: the context of the call that gave the answer, with the
  -- rewind over; and it goes on with that answer, its stack pointer restored.
  pub record GoesOn (p q : Proc F I W) (i : I) (c : Ctx F) (v : ℤ) : Type 0 where
    pub ctx : q.ctx ≡ c
    pub rewind_over : q.exec.rewinding ≡ false
    pub body :
        q.body
        ≡ Body.guest (
            deliver
              (restored (suspended i p.exec.asyncify_data) p.exec.asyncify_data (s.stack_pointer i))
              (as_u32 v))

  -- A guest that makes one system call is started, its arguments can be read, and the call blocks.
  -- The step counts as progress, and leaves the process `q` to wait. The scheduler comes to that
  -- process again, at any place of any later kernel, and there the call with the same number and
  -- arguments has an answer. That step lets the guest rewind: the import gives it the answer of the
  -- retry, without a further call, with the stack pointer restored where it is not 0, and the guest
  -- goes on to its end.
  pub syscall_entry-retried :
      (k : Kernel F I W) (index : ℕ) (p : Proc F I W) (i : I) (args : List ℤ) (c : Ctx F)
      (rounds : ℕ) (later : Kernel F I W) (place : ℕ) (q : Proc F I W) (c' : Ctx F) (v : ℤ)
      → index < length k.procs
      → p.parked ≡ false
      → p.exec.rewinding ≡ false
      → read_args p.ctx.memory args_ptr 6 ≡ ok args
      → dispatch (world.handle (as_i32 number) args) (enter k p) ≡ (c, Outcome.blocked)
      → get_elem? (step_guest calling k index p i Resume.fresh).0.procs index ≡ some q
      → get_elem? later.procs place ≡ some q
      → dispatch (world.handle (as_i32 number) args) (enter later q) ≡ (c', Outcome.value v)
      → ((step_guest calling k index p i Resume.fresh).1 ≡ ProcStep.ran)
        × (q' : Proc F I W) × (step_process calling rounds later place
            ≡ (put_proc (leave later c') place q', some (ProcStep.ended (status_exited (pos 0)))))
        × GoesOn p q' i c' v
  unfolding unwind
  syscall_entry-retried k index p i args c rounds later place q c' v room on fresh read blocks left
        there answers =
      let first = first_step k index p i args c fresh read blocks in
      let a = asleep k p i args c in
      let waits : q ≡ a = some-injective q a (
        sym left
        ∙ ap (λ (r : Kernel F I W × ProcStep). get_elem? r.0.procs index) first
        ∙ get_elem?-set_self k.procs index a room) in
      (
        ap (λ (r : Kernel F I W × ProcStep). r.1) first,
        answered a (suspended i p.exec.asyncify_data) c' v,
        asleep-retried k p i args c rounds later place c' v on (there ∙ ap some waits) (
            ap (λ x. dispatch (world.handle (as_i32 number) args) (enter later x)) (sym waits)
            ∙ answers),
        record { ctx = refl; rewind_over = refl; body = refl },
      )
