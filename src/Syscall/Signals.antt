-- ===== src/Syscall/Signals.antt =====
-- crates/wasmux/src/kernel/syscall.rs: the calls on signals, and how a call ends.
-- `handle` and the clock are parameters of what uses them.
pub mod Delivery
mod Tests
pub mod Masks
use Prim.Native.Nat.{bit_and, bit_or, bit_xor}
use wasmux.Prelude.{
  ℕ, zero, suc, ◌+◌, ◌-◌, ◌/◌, ◌%◌, ◌^◌, Bool, true, false, ◌||◌, not, Option, none, some, List, [],
  ◌∷◌, ◌==◌, ltb, if◌then◌else◌, ℤ, pos, negsuc, eq_ℤ, Result, ok, err, ◌>>=◌, and_not,
}
use wasmux.Errno.{Errno, VfsResult, inval, intr, as_neg}
use wasmux.Desc.{Bytes}
use wasmux.Shared.{Shared, ProcRecord, add_u64}
use wasmux.Mem.{put_u32, put_u64, read_u32, read_u64}
use wasmux.Task.{
  Task, SigAction, action, set_action, bit, triage, default_kills, default_action, nsig, sigkill,
  sigstop, sig_ign, sig_dfl, status_signaled,
}
use wasmux.Process.{find_record, update_record}
use wasmux.Ctx.{Ctx, Fault, errno, block, exit, exec, Sys, lift, with_shared}

-- crates/wasmux/src/abi.rs
abbrev pub sa_resethand : ℕ
sa_resethand = 0x80000000

abbrev pub sig_block : ℤ
sig_block = pos 0

abbrev pub sig_unblock : ℤ
sig_unblock = pos 1

abbrev pub sig_setmask : ℤ
sig_setmask = pos 2

-- `Outcome`
pub data Outcome : Type 0 where
  value : ℤ → Outcome
  blocked : Outcome
  exited : ℤ → Outcome
  replaced : Outcome

-- `wrapping_add` of an address.
abbrev pub offset : ℕ → ℕ → ℕ
offset at n = (at + n) % 2 ^ 32

-- The pending signals of a process; none if it has no record.
unfoldable pub pending_of : List ProcRecord → ℤ → ℕ
unfolding find_record
pending_of table pid = elim (find_record table pid) [ none ↦ 0 | some r ↦ r.pending ]

-- `let _ = m.put_u32(..)`: a fault is dropped.
abbrev pub put_or_keep : VfsResult Bytes → Bytes → Bytes
put_or_keep (ok m) old = m
put_or_keep (err e) old = old

unfoldable pub load_action : Bytes → ℕ → VfsResult SigAction
load_action m at = do
  handle ← read_u32 m at
  flags ← read_u32 m (offset at 4)
  mask ← read_u64 m (offset at 8)
  ok (record { handler = handle; flags = flags; mask = mask })

-- The mask that `how` asks for.
unfoldable pub new_mask : ℤ → ℕ → ℕ → Option ℕ
new_mask how previous set =
    if eq_ℤ how sig_block
    then some (bit_or previous set)
    else if eq_ℤ how sig_unblock
    then some (and_not previous set)
    else if eq_ℤ how sig_setmask
    then some set
    else none

abbrev pub unwrap_or : {A : Type 0} → Option A → A → A
unwrap_or none a = a
unwrap_or (some b) a = b

module _ {F : Type 0} where
  abbrev pub with_pending : Ctx F → (ℕ → ℕ) → Ctx F
  with_pending c f = with_shared c (record (c.shared) {
    table = update_record c.shared.table c.task.pid (λ r. record r { pending = f r.pending });
  })

  -- The signals to deliver to the process.
  unfoldable pub live_signals : Ctx F → ℕ × ℕ
  unfolding pending_of
  live_signals c = triage (pending_of c.shared.table c.task.pid) c.task.sigmask c.task

  unfoldable pub raise_signal_flag : Ctx F → Ctx F
  unfolding live_signals
  raise_signal_flag c = if c.signal_flag == 0 then c else record c {
    memory =
        put_or_keep (put_u32 c.memory c.signal_flag (if (live_signals c).0 == 0 then 0 else 1))
          c.memory;
  }

  unfoldable pub finish : Ctx F → Ctx F
  unfolding raise_signal_flag
  finish c =
      let mask = unwrap_or c.mask_to_restore c.task.sigmask in
      raise_signal_flag (record c {
        deadline = none;
        mask_to_restore = none;
        task = record (c.task) { sigmask = mask };
      })

  unfoldable pub interrupted : Ctx F → Bool
  unfolding live_signals
  interrupted c = not ((live_signals c).0 == 0)

  -- How `dispatch` ends a call that `handle` answers.
  unfoldable pub conclude : Sys F ℤ → Ctx F × Outcome
  unfolding finish interrupted
  conclude (c, ok v) = (finish c, value v)
  conclude (c, err (errno e)) = (finish c, value (as_neg e))
  conclude (c, err block) = if interrupted c then (finish c, value (as_neg intr)) else (c, blocked)
  conclude (c, err (exit status)) = (c, exited status)
  conclude (c, err exec) = (c, replaced)

  unfoldable pub dispatch : (Ctx F → Sys F ℤ) → Ctx F → Ctx F × Outcome
  unfolding conclude
  dispatch handle c =
      conclude
        (handle (with_shared c (record (c.shared) { syscalls = add_u64 c.shared.syscalls 1 })))

  -- A write to the guest that ends the call where it faults.
  abbrev pub storing : Ctx F → VfsResult Bytes → (Ctx F → Sys F ℤ) → Sys F ℤ
  storing c (err e) k = (c, err (errno e))
  storing c (ok m) k = k (record c { memory = m })

  store_action : Ctx F → ℕ → SigAction → (Ctx F → Sys F ℤ) → Sys F ℤ
  store_action c at a k = storing c (put_u32 c.memory at a.handler) λ c₁.
      storing c₁ (put_u32 c₁.memory (offset at 4) a.flags) λ c₂.
        storing c₂ (put_u64 c₂.memory (offset at 8) a.mask)
          λ c₃. storing c₃ (put_u32 c₃.memory (offset at 16) 0) k

  install_action : Ctx F → ℕ → ℕ → Sys F ℤ
  unfolding load_action
  install_action c sig at =
      if at == 0
      then (c, ok (pos 0))
      else if sig == sigkill || sig == sigstop
      then (c, err (errno inval))
      else elim (load_action c.memory at) [
        | err e ↦ (c, err (errno e))
        | ok a ↦ (record c { task = set_action c.task (pos sig) a }, ok (pos 0))
      ]

  -- `nr::RT_SIGACTION`
  unfoldable pub rt_sigaction : Ctx F → ℤ → ℕ → ℕ → Sys F ℤ
  unfolding store_action install_action
  rt_sigaction c (negsuc n) action_at old_at = (c, err (errno inval))
  rt_sigaction c (pos sig) action_at old_at =
      if sig == 0 || not (ltb sig nsig)
      then (c, err (errno inval))
      else if old_at == 0
      then install_action c sig action_at
      else store_action c old_at (action c.task (pos sig)) λ c'. install_action c' sig action_at

  unfoldable pub store_mask : Ctx F → ℕ → ℕ → Sys F ℤ
  store_mask c at mask =
      if at == 0
      then (c, ok (pos 0))
      else storing c (put_u64 c.memory at mask) λ c'. (c', ok (pos 0))

  -- `nr::RT_SIGPROCMASK`
  unfoldable pub rt_sigprocmask : Ctx F → ℤ → ℕ → ℕ → Sys F ℤ
  unfolding new_mask store_mask
  rt_sigprocmask c how set_at old_at =
      let previous = c.task.sigmask in
      if set_at == 0 then store_mask c old_at previous else elim (read_u64 c.memory set_at) [
        | err e ↦ (c, err (errno e))
        | ok raw ↦
            let set = and_not raw (bit_or (bit (pos sigkill)) (bit (pos sigstop))) in
            elim (new_mask how previous set) [
              | none ↦ (c, err (errno inval))
              | some mask ↦
                  store_mask (record c { task = record (c.task) { sigmask = mask } }) old_at
                    previous
            ]
      ]

  -- `nr::RT_SIGPENDING`
  unfoldable pub rt_sigpending : Ctx F → ℕ → Sys F ℤ
  unfolding pending_of
  rt_sigpending c at =
      storing c (put_u64 c.memory at (pending_of c.shared.table c.task.pid)) λ c'. (c', ok (pos 0))

  -- `nr::RT_SIGSUSPEND`
  unfoldable pub rt_sigsuspend : Ctx F → ℕ → Sys F ℤ
  unfolding interrupted
  rt_sigsuspend c at = elim (read_u64 c.memory at) [
    | err e ↦ (c, err (errno e))
    | ok mask ↦
        let restore = unwrap_or c.mask_to_restore c.task.sigmask in
        let c' = record c {
          mask_to_restore = some restore;
          task = record (c.task) { sigmask = mask };
        } in
        (c', if interrupted c' then err (errno intr) else err block)
  ]
