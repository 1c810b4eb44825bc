-- ===== src/Kernel/HostStep/Endless.antt =====
-- kernel/mod.rs, `step_host`: a standard input that never ends.
use wasmux.Prelude.{ℕ, zero, suc, ◌≡◌, refl, ◌++◌, true, ok, pos, replicate, ◌∷◌}
use wasmux.Desc.{Bytes, DescKind, readable}
use wasmux.Ctx.{Ctx}
use wasmux.Syscall.Streams.{read_bytes}
use wasmux.Syscall.Streams.Transfer.{Opens}
use wasmux.Kernel.{World}
use wasmux.Kernel.HostStep.{Drained, drain, reads}

module _ {F I M W : Type 0} (w : World F I M W) (c : Ctx F) (o : Opens c (pos 0) DescKind.zero)
    (r : readable o.desc ≡ true) where
  read-zero : reads w c 8192 ≡ (c, ok (replicate 8192 0))
  unfolding read_bytes
  read-zero = rw (read_bytes, o.open_fd, o.live, r, o.of_kind) refl

  -- A host command that reads standard input never gets on where that is an open /dev/zero: the loop
  -- that drains it has not ended after any number of rounds, whatever it has read before.
  pub drain-zero :
      (rounds : ℕ) (buffer : Bytes) → (drain (reads w) rounds c buffer).1.1 ≡ Drained.endless
  unfolding drain
  drain-zero zero buffer = refl
  drain-zero (suc rounds) buffer =
      rw (drain, read-zero, read-zero) (drain-zero rounds (buffer ++ (0 ∷ replicate 8191 0)))
