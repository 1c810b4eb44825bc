-- ===== src/Syscall/Signals/Masks.antt =====
-- crates/wasmux/src/kernel/syscall.rs: what the calls do to the signal mask of a process.
use Prim.Native.Nat.{bit_or, max}
use wasmux.Prelude.{
  ℕ, ◌^◌, ◌≡◌, refl, ap, sym, ◌∙◌, ◌⊎◌, inl, inr, none, some, arith, ◌==◌, if◌then◌else◌, ℤ, pos,
  eq_ℤ, ok, err, Bool-cases, Result-cases, Option-cases, ◌<◌, nth, nth-bit_or, nth-pow, and_not,
  nth-and_not_self, nth-and_not-le,
}
use wasmux.Errno.{intr, as_neg}
use wasmux.Mem.{put_u64, read_u64}
use wasmux.Task.{bit, sigkill, sigstop}
use wasmux.Task.Triage.{bit-pos}
use wasmux.Shared.{add_u64}
use wasmux.Ctx.{Ctx, errno, block, with_shared}
use wasmux.Syscall.Signals.{
  value, blocked, new_mask, unwrap_or, store_mask, rt_sigprocmask, rt_sigsuspend, interrupted,
  finish, conclude, dispatch, raise_signal_flag, sig_block, sig_unblock, sig_setmask,
}

-- The signals that no mask may hold.
abbrev pub unblockable : ℕ
unblockable = bit_or (bit (pos sigkill)) (bit (pos sigstop))

unblockable-digit :
    (sig : ℕ) → (sig ≡ sigkill) ⊎ (sig ≡ sigstop) → (nth unblockable sig ≡ 1) × (sig < 64)
unblockable-digit sig which =
    let a : bit (pos sigkill) ≡ 2 ^ sigkill = bit-pos sigkill (omega arith) (omega arith) in
    let b : bit (pos sigstop) ≡ 2 ^ sigstop = bit-pos sigstop (omega arith) (omega arith) in
    (
      nth-bit_or (bit (pos sigkill)) (bit (pos sigstop)) sig
          ∙ rw (a, b) (ground (arith, nth-pow sigkill sig, nth-pow sigstop sig)),
      omega arith,
    )

new_mask_lem :
    (how : ℤ) (previous raw mask sig : ℕ)
    → new_mask how previous (and_not raw unblockable) ≡ some mask
    → (sig ≡ sigkill) ⊎ (sig ≡ sigstop)
    → nth previous sig ≡ 0
    → nth mask sig ≡ 0
unfolding new_mask
new_mask_lem how previous raw mask sig e which z =
    let set = and_not raw unblockable in
    let d = unblockable-digit sig which in
    let n : nth set sig ≡ 0 = nth-and_not_self raw unblockable sig d.1 d.0 in
    let o : nth (bit_or previous set) sig ≡ max (nth previous sig) (nth set sig) =
      nth-bit_or previous set sig in
    let r = nth-and_not-le previous set sig in
    elim (Bool-cases (eq_ℤ how sig_block)) [
      | inl x ↦
          let m : bit_or previous set ≡ mask = cc (rw (new_mask, x) at e) in
          rw (sym m) (omega (arith, o, n, z))
      | inr x ↦ elim (Bool-cases (eq_ℤ how sig_unblock)) [
        | inl y ↦
            let m : and_not previous set ≡ mask = cc (rw (new_mask, x, y) at e) in
            rw (sym m) (omega (arith, r, z))
        | inr y ↦ elim (Bool-cases (eq_ℤ how sig_setmask)) [
          | inl w ↦ let m : set ≡ mask = cc (rw (new_mask, x, y, w) at e) in rw (sym m) n
          | inr w ↦ cc (rw (new_mask, x, y, w) at e)
        ]
      ]
    ]

module _ {F : Type 0} where
  store_mask-task : (c : Ctx F) (at mask : ℕ) → (store_mask c at mask).0.task ≡ c.task
  unfolding store_mask
  store_mask-task c at mask = elim (Bool-cases (at == 0)) [
    | inl e ↦ rw (store_mask, e) refl
    | inr e ↦ elim (Result-cases (put_u64 c.memory at mask)) [
      | inl (x, r) ↦ rw (store_mask, e, r) refl
      | inr (m, r) ↦ rw (store_mask, e, r) refl
    ]
  ]

  -- `rt_sigprocmask` never makes a mask block SIGKILL or SIGSTOP, whatever it is asked for and also
  -- where it is refused.
  pub rt_sigprocmask-unblockable :
      (c : Ctx F) (how : ℤ) (set_at old_at sig : ℕ)
      → (sig ≡ sigkill) ⊎ (sig ≡ sigstop)
      → nth c.task.sigmask sig ≡ 0
      → nth (rt_sigprocmask c how set_at old_at).0.task.sigmask sig ≡ 0
  unfolding rt_sigprocmask
  rt_sigprocmask-unblockable c how set_at old_at sig which z = elim (Bool-cases (set_at == 0)) [
    | inl e ↦ rw (rt_sigprocmask, e, store_mask-task c old_at c.task.sigmask) z
    | inr e ↦ elim (Result-cases (read_u64 c.memory set_at)) [
      | inl (x, r) ↦ rw (rt_sigprocmask, e, r) z
      | inr (raw, r) ↦ elim (Option-cases (new_mask how c.task.sigmask (and_not raw unblockable))) [
        | inl n ↦ rw (rt_sigprocmask, e, r, n) z
        | inr (mask, n) ↦
            let c' = record c { task = record (c.task) { sigmask = mask } } in
            rw (rt_sigprocmask, e, r, n, store_mask-task c' old_at c.task.sigmask)
              (new_mask_lem how c.task.sigmask raw mask sig n which z)
      ]
    ]
  ]

  finish-mask :
      (c : Ctx F)
      → ((finish c).task.sigmask ≡ unwrap_or c.mask_to_restore c.task.sigmask)
        × ((finish c).mask_to_restore ≡ none)
        × ((finish c).deadline ≡ none)
  unfolding finish raise_signal_flag
  finish-mask c = elim (Bool-cases (c.signal_flag == 0)) [
    | inl e ↦ rw (finish, raise_signal_flag, e) (refl, refl, refl)
    | inr e ↦ rw (finish, raise_signal_flag, e) (refl, refl, refl)
  ]

  conclude_suspended :
      (c : Ctx F)
      → let r = conclude (c, if interrupted c then err (errno intr) else err block) in
        ((r.1 ≡ blocked) × (r.0 ≡ c)) ⊎ ((r.1 ≡ value (as_neg intr)) × (r.0 ≡ finish c))
  unfolding conclude
  conclude_suspended c = elim (Bool-cases (interrupted c)) [
    | inl i ↦ inr (rw (i, conclude) (refl, refl))
    | inr i ↦ inl (rw (i, conclude, i) (refl, refl))
  ]

  -- The state in which `rt_sigsuspend` waits.
  abbrev pub suspended : Ctx F → ℕ → Ctx F
  suspended c mask = record c {
    mask_to_restore = some (unwrap_or c.mask_to_restore c.task.sigmask);
    task = record (c.task) { sigmask = mask };
  }

  rt_sigsuspend-suspended :
      (c : Ctx F) (at mask : ℕ)
      → read_u64 c.memory at ≡ ok mask
      → rt_sigsuspend c at
        ≡ (suspended c mask, if interrupted (suspended c mask) then err (errno intr) else err block)
  unfolding rt_sigsuspend
  rt_sigsuspend-suspended c at mask e = rw (rt_sigsuspend, e) refl

  -- A dispatched `rt_sigsuspend` whose mask can be read either blocks, with that mask in force and
  -- the first mask kept to be put back, or ends with EINTR and the first mask in force again. The
  -- first mask is that of the task, or of the call that is tried again.
  pub rt_sigsuspend-mask :
      (c : Ctx F) (at mask : ℕ)
      → read_u64 c.memory at ≡ ok mask
      → let first = unwrap_or c.mask_to_restore c.task.sigmask in
        let r = dispatch (λ c. rt_sigsuspend c at) c in
        ((r.1 ≡ blocked) × (r.0.task.sigmask ≡ mask) × (r.0.mask_to_restore ≡ some first))
        ⊎ ((r.1 ≡ value (as_neg intr)) × (r.0.task.sigmask ≡ first) × (r.0.mask_to_restore ≡ none))
  unfolding dispatch
  rt_sigsuspend-mask c at mask e =
      let c₁ = with_shared c (record (c.shared) { syscalls = add_u64 c.shared.syscalls 1 }) in
      let c' = suspended c₁ mask in
      let f = finish-mask c' in
      rw (dispatch, rt_sigsuspend-suspended c₁ at mask e)
        (elim (conclude_suspended c') [
          | inl h ↦ inl (
            h.0,
            ap (λ (x : Ctx F). x.task.sigmask) h.1,
            ap (λ (x : Ctx F). x.mask_to_restore) h.1,
          )
          | inr h ↦ inr (
            h.0,
            ap (λ (x : Ctx F). x.task.sigmask) h.1 ∙ f.0,
            ap (λ (x : Ctx F). x.mask_to_restore) h.1 ∙ f.1,
          )
        ])
