-- ===== src/Task/Triage.antt =====
-- crates/wasmux/src/kernel/task.rs: which signals `triage` delivers and discards.
use Prim.Native.Nat.{max}
use wasmux.Prelude.{
  ℕ, zero, suc, ◌+◌, ◌-◌, ◌^◌, ◌≤◌, ◌<◌, Bool, true, false, ◌&&◌, ◌||◌, not, ◌≡◌, refl, ap, ◌∙◌,
  inl, inr, arith, ltb, leb, ◌==◌, if◌then◌else◌, pos, nth, zero-nth, nth-bit_or, nth-pow,
  bit_and-pow, Bool-cases, ◌≢◌, ==_iff,
}
use wasmux.Task.{
  Task, nsig, sigkill, sigstop, bit, is_ignored, action, triage, triage_from, triage_one,
}

-- Whether the action for a signal is to ignore it.
abbrev pub ignores : Task → ℕ → Bool
ignores t sig = is_ignored (action t (pos sig)) sig

-- A pending signal that is not ignored is delivered, unless the mask blocks it, which it cannot for
-- SIGKILL and SIGSTOP.
abbrev pub delivered : ℕ → ℕ → Task → ℕ → Bool
delivered pending mask t sig =
    not (nth pending sig == 0)
    && (not (ignores t sig) && (nth mask sig == 0 || (sig == sigkill || sig == sigstop)))

abbrev pub discarded : ℕ → Task → ℕ → Bool
discarded pending t sig = not (nth pending sig == 0) && ignores t sig

abbrev pub digit : Bool → ℕ
digit b = if b then 1 else 0

pub bit-pos : (sig : ℕ) → 0 < sig → sig < nsig → bit (pos sig) ≡ 2 ^ sig
unfolding bit
bit-pos sig a b = ground arith

-- One round decides the digits of its signal, and keeps the others.
triage_one_lem :
    (pending mask : ℕ) (t : Task) (sig live discard i : ℕ)
    → 0 < sig
    → sig < nsig
    → let r = triage_one pending mask t sig (live, discard) in
      (nth r.0 i ≡ (
        if i == sig then max (nth live i) (digit (delivered pending mask t sig)) else nth live i))
      × (nth r.1 i ≡ (
          if i == sig
          then max (nth discard i) (digit (discarded pending t sig))
          else nth discard i))
unfolding triage_one
triage_one_lem pending mask t sig live discard i a b =
    let e : bit (pos sig) ≡ 2 ^ sig = bit-pos sig a b in
    rw (triage_one, e, bit_and-pow pending sig, bit_and-pow mask sig)
      (ground (arith, nth-bit_or live (2 ^ sig) i, nth-bit_or discard (2 ^ sig) i, nth-pow sig i))

-- Whether a signal is one of those that `rounds` rounds from `sig` on decide.
abbrev in_rounds : ℕ → ℕ → ℕ → Bool
in_rounds rounds sig i = leb sig i && ltb i (sig + rounds)

triage_from_lem :
    (rounds pending mask : ℕ) (t : Task) (sig live discard i : ℕ)
    → 0 < sig
    → sig + rounds ≤ nsig
    → let r = triage_from rounds pending mask t sig (live, discard) in
      (nth r.0 i ≡ (
        if in_rounds rounds sig i
        then max (nth live i) (digit (delivered pending mask t i))
        else nth live i))
      × (nth r.1 i ≡ (
          if in_rounds rounds sig i
          then max (nth discard i) (digit (discarded pending t i))
          else nth discard i))
unfolding triage_from
triage_from_lem zero pending mask t sig live discard i a b = ground arith
triage_from_lem (suc rounds) pending mask t sig live discard i a b =
    let p = triage_one pending mask t sig (live, discard) in
    let one = triage_one_lem pending mask t sig live discard i a (omega arith) in
    let rest =
      triage_from_lem rounds pending mask t (sig + 1) p.0 p.1 i (omega arith) (omega arith) in
    elim (Bool-cases (i == sig)) [
      | inl c ↦
          let e : i ≡ sig = (==_iff i sig).0 c in
          let e₁ : in_rounds rounds (sig + 1) i ≡ false = ground arith in
          let e₂ : in_rounds (suc rounds) sig i ≡ true = ground arith in
          (
            rest.0 ∙ (rw (e₁, e₂) (one.0 ∙ rw (c, e) refl)),
            rest.1 ∙ (rw (e₁, e₂) (one.1 ∙ rw (c, e) refl)),
          )
      | inr c ↦
          let ne : i ≢ sig = λ x. cc (c, (==_iff i sig).1 x) in
          let e : in_rounds (suc rounds) sig i ≡ in_rounds rounds (sig + 1) i =
            ground (arith, ne) in
          let o₀ : nth p.0 i ≡ nth live i = one.0 ∙ rw c refl in
          let o₁ : nth p.1 i ≡ nth discard i = one.1 ∙ rw c refl in
          (rest.0 ∙ rw (e, o₀) refl, rest.1 ∙ rw (e, o₁) refl)
    ]

-- `triage` decides each signal from 1 to 63: it is to be delivered if it is pending, its action is
-- not to ignore it, and the mask does not block it or it is SIGKILL or SIGSTOP; it is discarded if
-- it is pending and ignored. No other bit is set in either result.
pub triage_lem :
    (pending mask : ℕ) (t : Task) (sig : ℕ)
    → (nth (triage pending mask t).0 sig
        ≡ digit (ltb 0 sig && (ltb sig nsig && delivered pending mask t sig)))
      × (nth (triage pending mask t).1 sig
          ≡ digit (ltb 0 sig && (ltb sig nsig && discarded pending t sig)))
unfolding triage
triage_lem pending mask t sig =
    let z = zero-nth sig in
    elim (Bool-cases (pending == 0)) [
      | inl c ↦
          let e : pending ≡ 0 = (==_iff pending 0).0 c in
          let p : nth pending sig ≡ 0 = ap (λ (v : ℕ). nth v sig) e ∙ z in
          rw (triage, c, p, z) (ground arith, ground arith)
      | inr c ↦
          let h = triage_from_lem (nsig - 1) pending mask t 1 0 0 sig (omega arith) (omega arith) in
          rw (triage, c) (h.0 ∙ ground (arith, z), h.1 ∙ ground (arith, z))
    ]
