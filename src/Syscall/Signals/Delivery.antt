-- ===== src/Syscall/Signals/Delivery.antt =====
-- crates/wasmux/src/kernel/syscall.rs: `next_signal`, which takes a signal to deliver.
pub mod Ends
use Prim.Native.Nat.{bit_and, bit_or, bit_xor}
use wasmux.Prelude.{
  ℕ, zero, suc, ◌+◌, ◌-◌, ◌/◌, ◌%◌, ◌^◌, Bool, true, false, ◌||◌, not, Option, none, some, List, [],
  ◌∷◌, ◌==◌, ltb, if◌then◌else◌, ℤ, pos, negsuc, eq_ℤ, Result, ok, err, ◌>>=◌, and_not,
}
use wasmux.Errno.{Errno, VfsResult, inval, intr, as_neg}
use wasmux.Desc.{Bytes}
use wasmux.Shared.{Shared, ProcRecord, add_u64}
use wasmux.Mem.{put_u32, put_u64, read_u32, read_u64}
use wasmux.Task.{
  Task, SigAction, action, set_action, bit, triage, default_kills, default_action, nsig, sigkill,
  sigstop, sig_ign, sig_dfl, status_signaled,
}
use wasmux.Process.{find_record, update_record}
use wasmux.Ctx.{Ctx, Fault, errno, block, exit, exec, Sys, lift, with_shared}
use wasmux.Syscall.Signals.{offset, put_or_keep, sa_resethand, with_pending, live_signals}

-- `SignalDelivery`
pub data SignalDelivery : Type 0 where
  no_signal : SignalDelivery
  handler : SignalDelivery
  fatal : ℤ → SignalDelivery

-- `live.trailing_zeros()` of a number with at most the given count of digits.
unfoldable pub trailing_zeros : ℕ → ℕ → ℕ
trailing_zeros zero a = 0
trailing_zeros (suc n) a = let rest = trailing_zeros n (a / 2) in if a % 2 == 1 then 0 else suc rest

-- What `next_signal` writes for the handler of a signal.
unfoldable pub describe : Bytes → ℕ → ℕ → SigAction → Bytes
describe m out sig a =
    let m₁ = put_or_keep (put_u32 m out sig) m in
    let m₂ = put_or_keep (put_u32 m₁ (offset out 4) a.handler) m₁ in
    let m₃ = put_or_keep (put_u32 m₂ (offset out 8) a.flags) m₂ in
    let m₄ = put_or_keep (put_u32 m₃ (offset out 12) 0) m₃ in
    put_or_keep (put_u32 m₄ (offset out 16) 0) m₄

module _ {F : Type 0} where
  -- A signal that is to be delivered is taken out: an answer, or it is dropped.
  unfoldable pub take_signal : Ctx F → ℕ → ℕ → Ctx F × Option SignalDelivery
  unfolding describe
  take_signal c₁ sig out =
      let c = with_pending c₁ (λ p. and_not p (bit (pos sig))) in
      let a = action c.task (pos sig) in
      if a.handler == sig_ign
      then (c, none)
      else if a.handler == sig_dfl
      then (c, if default_kills sig then some (fatal (status_signaled (pos sig))) else none)
      else (
        record c {
          task =
              if bit_and a.flags sa_resethand == 0
              then c.task
              else set_action c.task (pos sig) default_action;
          memory = describe c.memory out sig a;
        },
        some handler,
      )

  -- A round of the loop of `next_signal`.
  unfoldable pub signal_round : Ctx F → ℕ → Ctx F × Option SignalDelivery
  unfolding live_signals trailing_zeros take_signal
  signal_round c out =
      let (live, discard) = live_signals c in
      let c₁ = if discard == 0 then c else with_pending c (λ p. and_not p discard) in
      if live == 0
      then (
        if c₁.signal_flag == 0
            then c₁
            else record c₁ { memory = put_or_keep (put_u32 c₁.memory c₁.signal_flag 0) c₁.memory },
        some no_signal,
      )
      else take_signal c₁ (trailing_zeros 64 live) out

  -- The loop, with room for so many rounds.
  unfoldable pub next_signal : ℕ → Ctx F → ℕ → Ctx F × Option SignalDelivery
  unfolding signal_round
  next_signal zero c out = (c, none)
  next_signal (suc rounds) c out =
      let (c', r) = signal_round c out in
      let rest = next_signal rounds c' out in elim r [ some d ↦ (c', some d) | none ↦ rest ]
