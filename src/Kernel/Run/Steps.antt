-- ===== src/Kernel/Run/Steps.antt =====
-- What one step of the scheduler (kernel/mod.rs) keeps where it advances a host command, and so what
-- any step keeps.
use wasmux.Prelude.{
  ℕ, zero, suc, ◌+◌, ◌≡◌, ◌⊎◌, refl, inl, inr, Bool, true, false, [], ◌∷◌, ◌++◌, ltb, if◌then◌else◌,
  ℤ, pos, as_u32, codes, length, drop, get_elem?, Bool-cases, Option-cases, Result-cases,
}
use wasmux.Errno.{is, again, name}
use Prim.Native.Nat.{bit_and}
use wasmux.Desc.{Bytes}
use wasmux.Task.{status_exited}
use wasmux.Ctx.{Ctx}
use wasmux.Kernel.{Phase, HostProc, Body, Proc, Kernel, World, enter, leave, with_ctx}
use wasmux.Kernel.Steps.{message}
use wasmux.Kernel.HostStep.{
  Drained, drain, flush, with_phase, reads, writes, flush_both, run_command, after_drain, step_host,
}
use wasmux.Kernel.Run.{step_process, step_and_park}
use wasmux.Kernel.Run.Local.{Local, Good, Good-later, step_guest-keeps}

Body-cases :
    {I W : Type 0} (b : Body I W)
    → ((i : I) × (b ≡ Body.guest i)) ⊎ ((h : HostProc W) × (b ≡ Body.host h))
Body-cases (Body.guest i) = inl (i, refl)
Body-cases (Body.host h) = inr (h, refl)

module _ {F I M W : Type 0} (w : World F I M W) (P : Kernel F I W → Type 0)
    (R : Ctx F → Ctx F → Type 0) (l : Local w P R) where
  drain-keeps : (rounds : ℕ) (c : Ctx F) (buffer : Bytes) → R c (drain (reads w) rounds c buffer).0
  unfolding drain
  drain-keeps zero c buffer = l.same c
  drain-keeps (suc rounds) c buffer =
      let step : R c (reads w c 8192).0 = l.on_read c 8192 in
      elim (Result-cases (reads w c 8192).1) [
        | inl (e, r) ↦ rw (drain, r) step
        | inr ([], r) ↦ rw (drain, r) step
        | inr (b ∷ bs, r) ↦
            rw (drain, r)
              (l.trans c _ _ step (drain-keeps rounds (reads w c 8192).0 (buffer ++ (b ∷ bs))))
      ]

  flush-keeps :
      (rounds : ℕ) (c : Ctx F) (fd : ℕ) (bytes : Bytes) (at : ℕ)
      → R c (flush (writes w fd) rounds c bytes at).0
  unfolding flush
  flush-keeps zero c fd bytes at = l.same c
  flush-keeps (suc rounds) c fd bytes at = elim (Bool-cases (ltb at (length bytes))) [
    | inl e ↦
        let (c', r) = writes w fd c (drop at bytes) in
        let step : R c (writes w fd c (drop at bytes)).0 = l.on_write c fd (drop at bytes) in
        elim (Result-cases (writes w fd c (drop at bytes)).1) [
          | inl (x, q) ↦ rw (flush, e, q) step
          | inr (zero, q) ↦ rw (flush, e, q) step
          | inr (suc n, q) ↦
              rw (flush, e, q) (l.trans c c' _ step (flush-keeps rounds c' fd bytes (at + suc n)))
        ]
    | inr e ↦ rw (flush, e) (l.same c)
  ]

  flush_both-keeps :
      (k : Kernel F I W) (index : ℕ) (c : Ctx F) (p : Proc F I W)
      → Good w P R l k index c p.charged
      → (h : HostProc W) (status : ℤ) (out errs : Bytes) (out_done err_done : ℕ)
      → P (flush_both w (leave k c) index (with_ctx p c) h status out errs out_done err_done).0
  unfolding flush_both
  flush_both-keeps k index c p good h status out errs out_done err_done =
      let (d, (o, full)) = flush (writes w 1) (length out) c out out_done in
      let r : R c d = flush-keeps (length out) c 1 out out_done in
      let (d', (e, full')) = flush (writes w 2) (length errs) d errs err_done in
      let r' : R d d' = flush-keeps (length errs) d 2 errs err_done in
      elim (Bool-cases full) [
        | inl f ↦
            rw (flush_both, f)
              (good
                (record p {
                  ctx = d;
                  body = Body.host (record h { phase = Phase.flushing status out errs o err_done });
                })
                r refl)
        | inr f ↦
            rw (flush_both, f)
              (good
                (record p {
                  ctx = d';
                  body = Body.host (record h { phase = Phase.flushing status out errs o e });
                })
                (l.trans c d d' r r') refl)
      ]

  run_command-keeps :
      (k : Kernel F I W) (index : ℕ) (c : Ctx F) (p : Proc F I W)
      → Good w P R l k index c p.charged
      → (h : HostProc W) (buffer : Bytes)
      → P (run_command w (leave k c) index (with_ctx p c) h buffer).0
  unfolding run_command
  run_command-keeps k index c p good h buffer =
      let (host, r) =
        h.command.run k.host
          (record { argv = p.argv; envp = p.envp; cwd = c.task.cwd; stdin = buffer }) in
      let k' : Kernel F I W = record k { host = host } in
      let good' : Good w P R l k' index c p.charged =
        λ p' later same. l.on_host _ host (good p' later same) in
      elim (Result-cases r) [
        | inl (e, q) ↦ elim (Bool-cases (is e again)) [
          | inl a ↦
              rw (run_command, q, a)
                (l.on_pending _
                  (good' (with_phase (with_ctx p c) h (Phase.reading buffer)) (l.same c) refl))
          | inr a ↦
              rw (run_command, q, a)
                (flush_both-keeps k' index c p good' h (status_exited (pos 126)) []
                  (message c.task.comm (codes (name e))) 0 0)
        ]
        | inr (exit, q) ↦
            rw (run_command, q)
              (flush_both-keeps k' index c p good' h
                (status_exited (pos (bit_and (as_u32 exit.status) 0xff))) exit.stdout exit.stderr 0
                0)
      ]

  after_drain-keeps :
      (k : Kernel F I W) (index : ℕ) (c : Ctx F) (p : Proc F I W)
      → Good w P R l k index c p.charged
      → (h : HostProc W) (buffer : Bytes) (end : Drained)
      → P (after_drain w k index p h c buffer end).0
  unfolding after_drain
  after_drain-keeps k index c p good h buffer Drained.done =
      run_command-keeps k index c p good h buffer
  after_drain-keeps k index c p good h buffer Drained.blocked = good _ (l.same c) refl
  after_drain-keeps k index c p good h buffer Drained.endless = good _ (l.same c) refl

  if-keeps :
      {B : Type 0} (b : Bool) (x y : Kernel F I W × B)
      → P (x.0)
      → P (y.0)
      → P (if b then x else y).0
  if-keeps true x y px py = px
  if-keeps false x y px py = py

  read_phase-keeps :
      (rounds : ℕ) (k : Kernel F I W) (index : ℕ) (p : Proc F I W)
      → Good w P R l k index (enter k p) p.charged
      → (h : HostProc W) (buffer : Bytes)
      → P (step_host w rounds k index p h (Phase.reading buffer)).0
  unfolding step_host
  read_phase-keeps rounds k index p good h buffer =
      let c = enter k p in
      let (d, (buffer', end)) = drain (reads w) rounds c buffer in
      if-keeps h.reads_stdin (after_drain w k index p h d buffer' end)
        (after_drain w k index p h c buffer Drained.done)
        (after_drain-keeps k index d p
          (Good-later w P R l k index c d p.charged (drain-keeps rounds c buffer) good) h buffer'
          end)
        (after_drain-keeps k index c p good h buffer Drained.done)

  step_host-keeps :
      (rounds : ℕ) (k : Kernel F I W) (index : ℕ) (p : Proc F I W)
      → Good w P R l k index (enter k p) p.charged
      → (h : HostProc W) (phase : Phase) → P (step_host w rounds k index p h phase).0
  unfolding step_host flush_both
  step_host-keeps rounds k index p good h (Phase.reading buffer) =
      read_phase-keeps rounds k index p good h buffer
  step_host-keeps rounds k index p good h (Phase.flushing status out errs out_done err_done) =
      flush_both-keeps k index (enter k p) p good h status out errs out_done err_done

  step_process-keeps :
      (rounds : ℕ) (k : Kernel F I W) (index : ℕ) → P k → P (step_process w rounds k index).0
  unfolding step_process
  step_process-keeps rounds k index h = elim (Option-cases (get_elem? k.procs index)) [
    | inl e ↦ rw (step_process, e) h
    | inr (p, e) ↦
        let good : Good w P R l k index (enter k p) p.charged =
          λ p' later same. l.advance k index p p' h e later same in
        elim (Bool-cases p.parked) [
          | inl b ↦ rw (step_process, e, b) h
          | inr b ↦ elim (Body-cases p.body) [
            | inl (i, q) ↦
                rw (step_process, e, b, q) (step_guest-keeps w P R l k index p good i p.resume)
            | inr (host, q) ↦
                rw (step_process, e, b, q) (step_host-keeps rounds k index p good host host.phase)
          ]
        ]
  ]

  -- A step of the scheduler keeps what is kept locally.
  pub step_and_park-keeps :
      (rounds : ℕ) (k : Kernel F I W) (index : ℕ) → P k → P (step_and_park w rounds k index).0
  unfolding step_and_park
  step_and_park-keeps rounds k index h = l.on_park _ index _ (step_process-keeps rounds k index h)
