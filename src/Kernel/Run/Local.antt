-- ===== src/Kernel/Run/Local.antt =====
-- What one step of the scheduler (kernel/mod.rs) keeps, from what the guest and the calls keep of the
-- context of the process that they run for.
use wasmux.Prelude.{
  ℕ, ◌≡◌, ◌⊎◌, refl, inl, inr, Bool, true, none, some, List, ℤ, get_elem?, Option-cases,
}
use wasmux.Engine.{Exit, TrapKind}
use wasmux.Desc.{Bytes}
use wasmux.Shared.{OutputBuffer}
use wasmux.Ctx.{Ctx}
use wasmux.Syscall.Signals.{Outcome, dispatch}
use wasmux.Kernel.{
  Suspension, ExecState, Resume, Body, Proc, Kernel, World, enter, leave, put_proc, with_ctx,
}
use wasmux.Kernel.Finish.{replace_instance}
use wasmux.Kernel.Asyncify.{write_asyncify_stack}
use wasmux.Kernel.Steps.{
  find_buf, resuming, on_suspension, after_return, run_guest, retried, step_guest,
}
use wasmux.Kernel.HostStep.{reads, writes}
use wasmux.Kernel.Run.{park}

-- `P` is kept where the context of a process goes on by `R`, with the charge it has, and by the
-- changes that a step makes beside that.
pub record Local {F I M W : Type 0} (w : World F I M W) (P : Kernel F I W → Type 0)
    (R : Ctx F → Ctx F → Type 0) : Type 0 where
  pub same : (c : Ctx F) → R c c
  pub trans : (a b c : Ctx F) → R a b → R b c → R a c
  pub memory : (c : Ctx F) (m : Bytes) → R c (record c { memory = m })
  pub advance :
      (k : Kernel F I W) (index : ℕ) (p : Proc F I W) (p' : Proc F I W)
      → P k
      → get_elem? k.procs index ≡ some p
      → R (enter k p) p'.ctx
      → p'.charged ≡ p.charged
      → P (put_proc (leave k p'.ctx) index p')
  pub on_replace : (k : Kernel F I W) (index : ℕ) → P k → P (replace_instance w k index).0
  pub on_stderr :
      (k : Kernel F I W) (b : OutputBuffer)
      → P k
      → P (record k { shared = record (k.shared) { stderr = b } })
  pub on_pending :
      (k : Kernel F I W) → P k → P (record k { shared = record (k.shared) { host_pending = true } })
  pub on_host : (k : Kernel F I W) (host : W) → P k → P (record k { host = host })
  pub on_park : (k : Kernel F I W) (index : ℕ) (external : Bool) → P k → P (park k index external)
  -- The guest, and the calls that are retried or made for a host command.
  pub on_run : (i : I) (c : Ctx F) (e : ExecState) → R c (w.run_start i c e).1.0
  pub on_dispatch :
      (number : ℤ) (args : List ℤ) (c : Ctx F) → R c (dispatch (w.handle number args) c).0
  pub on_read : (c : Ctx F) (n : ℕ) → R c (reads w c n).0
  pub on_write : (c : Ctx F) (fd : ℕ) (bytes : Bytes) → R c (writes w fd c bytes).0

Exit-cases : (why : Exit) → (why ≡ Exit.returned) ⊎ ((kind : TrapKind) × (why ≡ Exit.trap kind))
Exit-cases Exit.returned = inl refl
Exit-cases (Exit.trap kind) = inr (kind, refl)

module _ {F I M W : Type 0} (w : World F I M W) (P : Kernel F I W → Type 0)
    (R : Ctx F → Ctx F → Type 0) (l : Local w P R) where
  -- A process may be put back at `index` once its context has gone on from `c`.
  abbrev pub Good : Kernel F I W → ℕ → Ctx F → ℕ → Type 0
  Good k index c charged =
      (p' : Proc F I W) → R c p'.ctx → p'.charged ≡ charged → P (put_proc (leave k p'.ctx) index p')

  -- What is good at `c` is good where a call has taken it to.
  pub Good-later :
      (k : Kernel F I W) (index : ℕ) (c d : Ctx F) (charged : ℕ)
      → R c d
      → Good k index c charged
      → Good k index d charged
  Good-later k index c d charged r good p' r' e = good p' (l.trans c d p'.ctx r r') e

  on_suspension-keeps :
      (k : Kernel F I W) (index : ℕ) (c : Ctx F) (p : Proc F I W)
      → Good k index c p.charged
      → (why : Suspension) → P (on_suspension w (leave k c) index (with_ctx p c) why).0
  unfolding on_suspension
  on_suspension-keeps k index c p good (Suspension.setjmp env sp) = good _ (l.same c) refl
  on_suspension-keeps k index c p good (Suspension.longjmp env val) =
      elim (Option-cases (find_buf p.exec.jmp_bufs env)) [
        | inl e ↦ rw (on_suspension, e) (good (with_ctx p c) (l.same c) refl)
        | inr ((snapshot, sp), e) ↦
            elim (Option-cases (write_asyncify_stack c.memory p.exec.asyncify_data snapshot)) [
              | inl f ↦ rw (on_suspension, e, f) (good (with_ctx p c) (l.same c) refl)
              | inr (m, f) ↦
                  rw (on_suspension, e, f)
                    (good
                      (record p {
                        ctx = record c { memory = m };
                        exec = resuming p.exec val sp;
                        resume = Resume.rewind;
                      })
                      (l.memory c m) refl)
            ]
      ]
  on_suspension-keeps k index c p good (Suspension.blocked number args) = good _ (l.same c) refl
  on_suspension-keeps k index c p good (Suspension.exit status) = good _ (l.same c) refl
  on_suspension-keeps k index c p good Suspension.exec =
      l.on_replace _ index (good (with_ctx p c) (l.same c) refl)

  after_return-keeps :
      (k : Kernel F I W) (index : ℕ) (c : Ctx F) (p : Proc F I W)
      → Good k index c p.charged
      → (i : I) → P (after_return w (leave k c) index (with_ctx p c) i).0
  unfolding after_return
  after_return-keeps k index c p good i = elim (Option-cases p.exec.suspension) [
    | inl e ↦ rw (after_return, e) (good (with_ctx p c) (l.same c) refl)
    | inr (why, e) ↦
        rw (after_return, e)
          (on_suspension-keeps k index c
            (record p {
              exec = record (p.exec) { suspension = none };
              body = Body.guest (w.stop_unwind i);
            })
            good why)
  ]

  run_guest-keeps :
      (k : Kernel F I W) (index : ℕ) (c : Ctx F) (p : Proc F I W)
      → Good k index c p.charged
      → (i : I) → P (run_guest w (leave k c) index (with_ctx p c) i).0
  unfolding run_guest
  run_guest-keeps k index c p good i =
      let (i', (d, (e, why))) = w.run_start i c p.exec in
      let good' : Good k index d p.charged =
        Good-later k index c d p.charged (l.on_run i c p.exec) good in
      let p' : Proc F I W = record p { exec = e; body = Body.guest i' } in
      elim (Exit-cases why) [
        | inl x ↦ rw (run_guest, x) (after_return-keeps k index d p' good' i')
        | inr (kind, x) ↦
            rw (run_guest, x) (l.on_stderr _ _ (good' (with_ctx p' d) (l.same d) refl))
      ]

  retried-keeps :
      (k : Kernel F I W) (index : ℕ) (c : Ctx F) (p : Proc F I W)
      → Good k index c p.charged
      → (i : I) (number : ℤ) (args : List ℤ) (o : Outcome)
      → P (retried w (leave k c) index (with_ctx p c) i number args o).0
  unfolding retried
  retried-keeps k index c p good i number args Outcome.blocked = good _ (l.same c) refl
  retried-keeps k index c p good i number args (Outcome.exited status) = good _ (l.same c) refl
  retried-keeps k index c p good i number args Outcome.replaced =
      l.on_replace _ index (good (with_ctx p c) (l.same c) refl)
  retried-keeps k index c p good i number args (Outcome.value v) =
      run_guest-keeps k index c
        (record p {
          exec = record (p.exec) { resume_value = v; rewinding = true };
          resume = Resume.fresh;
        })
        good (w.start_rewind i p.exec.asyncify_data)

  pub step_guest-keeps :
      (k : Kernel F I W) (index : ℕ) (p : Proc F I W)
      → Good k index (enter k p) p.charged
      → (i : I) (r : Resume) → P (step_guest w k index p i r).0
  unfolding step_guest run_guest
  step_guest-keeps k index p good i Resume.fresh = run_guest-keeps k index (enter k p) p good i
  step_guest-keeps k index p good i Resume.rewind =
      run_guest-keeps k index (enter k p)
        (record p { exec = record (p.exec) { rewinding = true }; resume = Resume.fresh }) good
        (w.start_rewind i p.exec.asyncify_data)
  step_guest-keeps k index p good i (Resume.blocked number args) =
      let (c, o) = dispatch (w.handle number args) (enter k p) in
      retried-keeps k index c (record p { resume = Resume.fresh })
        (Good-later k index (enter k p) c p.charged (l.on_dispatch number args (enter k p)) good) i
        number args o
