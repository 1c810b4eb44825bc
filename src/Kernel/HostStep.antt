-- ===== src/Kernel/HostStep.antt =====
-- crates/wasmux/src/kernel/mod.rs, `step_host`: how the scheduler advances a host command.
pub mod Endless
use Prim.Native.Nat.{bit_and}
use wasmux.Prelude.{
  ℕ, zero, suc, ◌+◌, ◌-◌, ◌^◌, min, Bool, true, false, Option, none, some, List, [], ◌∷◌, ◌++◌, ltb,
  ◌==◌, if◌then◌else◌, ℤ, pos, as_u32, Result, ok, err, length, drop, set, codes,
}
use wasmux.Errno.{Errno, VfsResult, name, again, is}
use wasmux.Desc.{Bytes}
use wasmux.Shared.{Shared}
use wasmux.Task.{status_exited}
use wasmux.Ctx.{Ctx, Fault, Sys}
use wasmux.Syscall.Streams.{read_bytes, write_bytes}
use wasmux.Kernel.{
  Phase, Invocation, HostExit, HostCommand, HostProc, Body, Proc, Kernel, World, enter, leave,
  put_proc,
}
use wasmux.Kernel.Finish.{ProcStep}
use wasmux.Kernel.Steps.{message}

-- How draining standard input ends; `endless` is a loop that the rounds given did not end.
pub data Drained : Type 0 where
  done blocked endless : Drained

module _ {F : Type 0} (read : Ctx F → ℕ → Sys F Bytes) where
  -- The loop that reads standard input, by chunks of 8192 bytes. An error is an end of file.
  unfoldable pub drain : ℕ → Ctx F → Bytes → Ctx F × (Bytes × Drained)
  drain zero c buffer = (c, (buffer, Drained.endless))
  drain (suc rounds) c buffer =
      let (c', r) = read c 8192 in
      elim r [
        | err e ↦ (c', (buffer, elim e [ Fault.block ↦ Drained.blocked | _ ↦ Drained.done ]))
        | ok bytes ↦ elim bytes [
          | [] ↦ (c', (buffer, Drained.done))
          | b ∷ bs ↦ drain rounds c' (buffer ++ (b ∷ bs))
        ]
      ]

module _ {F : Type 0} (write : Ctx F → Bytes → Sys F ℕ) where
  -- The loop that writes one stream from the byte `at` on, with a round for each byte, and whether
  -- it blocks.
  unfoldable pub flush : ℕ → Ctx F → Bytes → ℕ → Ctx F × (ℕ × Bool)
  flush zero c bytes at = (c, (at, false))
  flush (suc rounds) c bytes at = elim (ltb at (length bytes)) [
    | false ↦ (c, (at, false))
    | true ↦
        let (c', r) = write c (drop at bytes) in
        elim r [
          | err e ↦ (c', (at, elim e [ Fault.block ↦ true | _ ↦ false ]))
          | ok zero ↦ (c', (at, false))
          | ok (suc n) ↦ flush rounds c' bytes (at + suc n)
        ]
  ]

module _ {F I W : Type 0} where
  abbrev pub with_phase : Proc F I W → HostProc W → Phase → Proc F I W
  with_phase p h phase = record p { body = Body.host (record h { phase = phase }) }

  module _ {M : Type 0} (w : World F I M W) where
    abbrev pub reads : Ctx F → ℕ → Sys F Bytes
    reads c n = read_bytes w.files w.mounts w.seed c (pos 0) n

    abbrev pub writes : ℕ → Ctx F → Bytes → Sys F ℕ
    writes fd c bytes = write_bytes w.files w.mounts w.seed c (pos fd) bytes

    -- Standard output first, then standard error, each from where it stopped.
    unfoldable pub flush_both :
        Kernel F I W
        → ℕ
        → Proc F I W
        → HostProc W
        → ℤ
        → Bytes
        → Bytes
        → ℕ
        → ℕ
        → Kernel F I W × ProcStep
    unfolding flush
    flush_both k index p h status out errs out_done err_done =
        let (c, (o, full)) = flush (writes 1) (length out) (enter k p) out out_done in
        if full
        then (
          put_proc (leave k c) index
              (record (with_phase p h (Phase.flushing status out errs o err_done)) { ctx = c }),
          ProcStep.stuck,
        )
        else let (c', (e, full')) = flush (writes 2) (length errs) c errs err_done in
          (
            put_proc (leave k c') index
                (record (with_phase p h (Phase.flushing status out errs o e)) { ctx = c' }),
            if full' then ProcStep.stuck else ProcStep.ended status,
          )

    -- The command is run on what was read.
    unfoldable pub run_command :
        Kernel F I W → ℕ → Proc F I W → HostProc W → Bytes → Kernel F I W × ProcStep
    unfolding flush_both
    run_command k index p h buffer =
        let (host, r) =
          h.command.run k.host
            (record { argv = p.argv; envp = p.envp; cwd = p.ctx.task.cwd; stdin = buffer }) in
        let k' = record k { host = host } in
        elim r [
          | ok exit ↦
              let status = status_exited (pos (bit_and (as_u32 exit.status) 0xff)) in
              flush_both k' index p h status exit.stdout exit.stderr 0 0
          | err e ↦
              if is e again
              then (
                put_proc (record k' { shared = record (k'.shared) { host_pending = true } }) index
                    (with_phase p h (Phase.reading buffer)),
                ProcStep.stuck,
              )
              else flush_both k' index p h (status_exited (pos 126)) []
                  (message p.ctx.task.comm (codes (name e))) 0 0
        ]

    -- What `step_host` does once standard input is drained, or cannot be.
    unfoldable pub after_drain :
        Kernel F I W
        → ℕ
        → Proc F I W
        → HostProc W
        → Ctx F
        → Bytes
        → Drained
        → Kernel F I W × Option ProcStep
    unfolding run_command
    after_drain k index p h c buffer Drained.done =
        let (k', step) = run_command (leave k c) index (record p { ctx = c }) h buffer in
        (k', some step)
    after_drain k index p h c buffer Drained.blocked = (
      put_proc (leave k c) index (with_phase (record p { ctx = c }) h (Phase.reading buffer)),
      some ProcStep.stuck,
    )
    after_drain k index p h c buffer Drained.endless = (
      put_proc (leave k c) index (with_phase (record p { ctx = c }) h (Phase.reading buffer)),
      none,
    )

    -- `none`: the loop over standard input has not ended after the rounds given.
    unfoldable pub step_host :
        ℕ → Kernel F I W → ℕ → Proc F I W → HostProc W → Phase → Kernel F I W × Option ProcStep
    unfolding drain after_drain flush_both
    step_host rounds k index p h (Phase.flushing status out errs out_done err_done) =
        let (k', step) = flush_both k index p h status out errs out_done err_done in (k', some step)
    step_host rounds k index p h (Phase.reading buffer) =
        if h.reads_stdin
        then (let (c, (buffer', end)) = drain reads rounds (enter k p) buffer in
            after_drain k index p h c buffer' end)
        else after_drain k index p h (enter k p) buffer Drained.done
