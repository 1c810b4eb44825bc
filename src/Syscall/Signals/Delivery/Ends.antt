-- ===== src/Syscall/Signals/Delivery/Ends.antt =====
-- crates/wasmux/src/kernel/syscall.rs: the loop of `next_signal` ends.
use wasmux.Prelude.{
  ℕ, zero, suc, ◌/◌, ◌%◌, ◌≤◌, ◌<◌, false, ◌&&◌, ◌≡◌, refl, ap, sym, ◌∙◌, ◌⊎◌, inl, inr, none, some,
  List, [], ◌∷◌, arith, ltb, ltb→lt, ◌==◌, ==_iff, ℤ, pos, eq_ℤ, Bool-cases, Option-cases, nth,
  nth-low, nth-high, zero-nth, nth-lt, nth-ext_zero, nth-pow_self, and_not, nth-and_not_self,
  nth-and_not-le, ones, ones-le, ones_less,
}
use wasmux.Shared.{ProcRecord}
use wasmux.Task.{Task, nsig, bit, action, sig_ign, sig_dfl}
use wasmux.Task.Triage.{bit-pos, triage_lem, delivered, digit}
use wasmux.Process.{find_record, update_record}
use wasmux.Ctx.{Ctx}
use wasmux.Syscall.Signals.{pending_of, live_signals, with_pending}
use wasmux.Syscall.Signals.Delivery.{
  SignalDelivery, trailing_zeros, take_signal, signal_round, next_signal,
}

no_digits :
    (n a : ℕ)
    → (a % 2 == 1) ≡ false
    → ((i : ℕ) → i < n → nth (a / 2) i ≡ 0)
    → (i : ℕ) → i < suc n
    → nth a i ≡ 0
no_digits n a e none_ zero h = nth-low a ∙ ground (arith, e)
no_digits n a e none_ (suc i) h = nth-high a i ∙ none_ i (omega arith)

-- The lowest digit that is 1, if there is one.
trailing_zeros_lem :
    (n a : ℕ)
    → ((nth a (trailing_zeros n a) ≡ 1) × (trailing_zeros n a < n))
      ⊎ ((i : ℕ) → i < n → nth a i ≡ 0)
unfolding trailing_zeros
trailing_zeros_lem zero a = inr (λ i h. absurd (omega arith))
trailing_zeros_lem (suc n) a = elim (Bool-cases (a % 2 == 1)) [
  | inl e ↦ inl (rw (trailing_zeros, e) (nth-low a ∙ (==_iff (a % 2) 1).0 e, omega arith))
  | inr e ↦ elim (trailing_zeros_lem n (a / 2)) [
    | inl h ↦
        inl
          (rw (trailing_zeros, e) (nth-high a (trailing_zeros n (a / 2)) ∙ h.0, omega (arith, h.1)))
    | inr none_ ↦ inr (no_digits n a e none_)
  ]
]

pending_update-le :
    (table : List ProcRecord) (pid : ℤ) (f : ℕ → ℕ) (i : ℕ)
    → nth (pending_of (update_record table pid (λ r. record r { pending = f r.pending })) pid) i
      ≤ nth (f (pending_of table pid)) i
unfolding pending_of find_record update_record
pending_update-le [] pid f i = omega (arith, zero-nth i)
pending_update-le (r ∷ table) pid f i = elim (Bool-cases (eq_ℤ r.pid pid)) [
  | inl e ↦ rw (pending_of, find_record, update_record, e, e) (omega arith)
  | inr e ↦ rw (pending_of, find_record, update_record, e, e) (pending_update-le table pid f i)
]

-- What a digit of `triage` says.
live_digit :
    (pending mask : ℕ) (t : Task) (sig : ℕ)
    → digit (ltb 0 sig && (ltb sig nsig && delivered pending mask t sig)) ≡ 1
    → (0 < sig) × (sig < 64) × (nth pending sig ≡ 1)
live_digit pending mask t sig e = ground (arith, nth-lt pending sig)

dead_digit :
    (pending mask : ℕ) (t : Task) (sig : ℕ)
    → ltb sig 64 ≡ false
    → digit (ltb 0 sig && (ltb sig nsig && delivered pending mask t sig)) ≡ 0
dead_digit pending mask t sig e = ground arith

module _ {F : Type 0} where
  abbrev pending : Ctx F → ℕ
  pending c = pending_of c.shared.table c.task.pid

  -- A signal to deliver is pending.
  live-pending :
      (c : Ctx F)
      → ((live_signals c).0 == 0) ≡ false
      → let sig = trailing_zeros 64 (live_signals c).0 in
        (0 < sig) × (sig < 64) × (nth (pending c) sig ≡ 1)
  unfolding live_signals
  live-pending c live =
      let l = (live_signals c).0 in
      let sig = trailing_zeros 64 l in
      let h = λ (i : ℕ). (triage_lem (pending c) c.task.sigmask c.task i).0 in
      elim (trailing_zeros_lem 64 l) [
        | inl one ↦
            let e : nth l sig ≡ 1 = one.0 in
            live_digit (pending c) c.task.sigmask c.task sig (sym (h sig) ∙ e)
        | inr none_ ↦
            let all : (i : ℕ) → nth l i ≡ 0 = λ i. elim (Bool-cases (ltb i 64)) [
              | inl x ↦ none_ i (ltb→lt i 64 x)
              | inr x ↦ h i ∙ dead_digit (pending c) c.task.sigmask c.task i x
            ] in
            let z : l ≡ 0 = nth-ext_zero l l (omega arith) all in ground (arith, z, live)
      ]

  -- The state after a signal was taken out.
  dropped :
      (c : Ctx F) (sig i : ℕ)
      → 0 < sig
      → sig < 64
      → let c' = with_pending c (λ p. and_not p (bit (pos sig))) in
        (nth (pending c') i ≤ nth (pending c) i) × (nth (pending c') sig ≡ 0)
  dropped c sig i a b =
      let f = λ (p : ℕ). and_not p (bit (pos sig)) in
      let one : nth (bit (pos sig)) sig ≡ 1 =
        ap (λ (v : ℕ). nth v sig) (bit-pos sig a b) ∙ nth-pow_self sig in
      let u = λ (k : ℕ). pending_update-le c.shared.table c.task.pid f k in
      let z : nth (f (pending c)) sig ≡ 0 =
        nth-and_not_self (pending c) (bit (pos sig)) sig b one in
      (omega (arith, u i, nth-and_not-le (pending c) (bit (pos sig)) i), omega (arith, u sig, z))

  discarding-le :
      (c : Ctx F) (discard i : ℕ)
      → nth (pending (with_pending c (λ p. and_not p discard))) i ≤ nth (pending c) i
  discarding-le c discard i = omega (
    arith,
    pending_update-le c.shared.table c.task.pid (λ p. and_not p discard) i,
    nth-and_not-le (pending c) discard i,
  )

  fewer :
      (c c₁ : Ctx F)
      → ((live_signals c).0 == 0) ≡ false
      → ((i : ℕ) → nth (pending c₁) i ≤ nth (pending c) i)
      → ones 64 (
          pending
            (with_pending c₁ (λ p. and_not p (bit (pos (trailing_zeros 64 (live_signals c).0))))))
        < ones 64 (pending c)
  fewer c c₁ live le =
      let sig = trailing_zeros 64 (live_signals c).0 in
      let p = live-pending c live in
      let d = λ (i : ℕ). dropped c₁ sig i p.0 p.1 in
      ones_less 64 _ (pending c) sig p.1 (λ i. omega (arith, (d i).0, le i))
        (omega (arith, (d sig).1, p.2))

  take_signal-none :
      (c : Ctx F) (sig out : ℕ)
      → (take_signal c sig out).1 ≡ none
      → (take_signal c sig out).0 ≡ with_pending c (λ p. and_not p (bit (pos sig)))
  unfolding take_signal
  take_signal-none c sig out = elim (Bool-cases ((action c.task (pos sig)).handler == sig_ign)) [
    | inl e ↦ rw (take_signal, e) (λ x. refl)
    | inr e ↦ elim (Bool-cases ((action c.task (pos sig)).handler == sig_dfl)) [
      | inl d ↦ rw (take_signal, e, d) (λ x. refl)
      | inr d ↦ rw (take_signal, e, d) (λ x. cc)
    ]
  ]

  take_signal-fewer :
      (c c₁ : Ctx F) (out : ℕ)
      → ((live_signals c).0 == 0) ≡ false
      → ((i : ℕ) → nth (pending c₁) i ≤ nth (pending c) i)
      → (take_signal c₁ (trailing_zeros 64 (live_signals c).0) out).1 ≡ none
      → ones 64 (pending (take_signal c₁ (trailing_zeros 64 (live_signals c).0) out).0)
        < ones 64 (pending c)
  take_signal-fewer c c₁ out live le e =
      rw (take_signal-none c₁ (trailing_zeros 64 (live_signals c).0) out e) (fewer c c₁ live le)

  -- A round that gives no answer took a pending signal away.
  signal_round-fewer :
      (c : Ctx F) (out : ℕ)
      → (signal_round c out).1 ≡ none
      → ones 64 (pending (signal_round c out).0) < ones 64 (pending c)
  unfolding signal_round
  signal_round-fewer c out = elim (Bool-cases ((live_signals c).0 == 0)) [
    | inl z ↦ rw (signal_round, z) (λ e. cc)
    | inr live ↦ elim (Bool-cases ((live_signals c).1 == 0)) [
      | inl z ↦ rw (signal_round, live, z) (take_signal-fewer c c out live (λ i. omega arith))
      | inr z ↦
          rw (signal_round, live, z)
            (take_signal-fewer c (with_pending c (λ p. and_not p (live_signals c).1)) out live
              (discarding-le c (live_signals c).1))
    ]
  ]

  next_signal-some :
      (rounds : ℕ) (c : Ctx F) (out : ℕ)
      → ones 64 (pending c) < rounds
      → (d : SignalDelivery) × ((next_signal rounds c out).1 ≡ some d)
  unfolding next_signal
  next_signal-some zero c out h = absurd (omega arith)
  next_signal-some (suc rounds) c out h = elim (Option-cases (signal_round c out).1) [
    | inr (d, e) ↦ rw (next_signal, e) (d, refl)
    | inl e ↦
        rw (next_signal, e)
          (next_signal-some rounds (signal_round c out).0 out
            (omega (arith, signal_round-fewer c out e)))
  ]

-- The loop of `next_signal` ends in every state: each round that gives no answer takes a pending
-- signal away, so that 65 rounds are enough to answer.
pub next_signal-ends :
    {F : Type 0} (c : Ctx F) (out : ℕ) → (d : SignalDelivery) × ((next_signal 65 c out).1 ≡ some d)
next_signal-ends c out = next_signal-some 65 c out (omega (arith, ones-le 64 (pending c)))
