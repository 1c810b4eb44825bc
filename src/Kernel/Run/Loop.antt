-- ===== src/Kernel/Run/Loop.antt =====
-- The loops of `run` (kernel/mod.rs): what each of their steps keeps, a run keeps.
use wasmux.Prelude.{
  ℕ, zero, suc, ◌+◌, ◌-◌, ◌≡◌, refl, ◌⊎◌, not, inl, inr, Bool, false, Option, none, some, List, [],
  ◌∷◌, leb, ◌==◌, ℤ, length, Bool-cases,
}
use wasmux.Kernel.{Kernel, World}
use wasmux.Kernel.Start.{start_pending}
use wasmux.Kernel.Finish.{ProcStep, finish, finish_all, kill_all}
use wasmux.Kernel.Run.{
  Slice, Reading, Budget, Passed, Next, RoundEnd, follow, turn, expire, round, unpark, reached,
  why_idle, step_and_park, pass, end_round, rounds_of, run,
}

-- What each step of the loops has to keep.
pub record Keeps {F I M W : Type 0} (w : World F I M W) (rounds : ℕ) (P : Kernel F I W → Type 0)
    : Type 0 where
  pub on_unpark : (k : Kernel F I W) → P k → P (record k { procs = unpark k.procs })
  pub on_start : (k : Kernel F I W) → P k → P (start_pending w k)
  pub on_step : (k : Kernel F I W) (index : ℕ) → P k → P (step_and_park w rounds k index).0
  pub on_finish : (k : Kernel F I W) (index : ℕ) (status : ℤ) → P k → P (finish k index status)
  pub on_status :
      (k : Kernel F I W) (status : Option ℤ) → P k → P (record k { exit_status = status })
  pub on_idle : (k : Kernel F I W) → P k → P (why_idle k).0

pub Next-cases :
    (n : Next)
    → ((end : Passed) × (n ≡ Next.stop end))
      ⊎ ((index : ℕ) × (moved : Bool) × (n ≡ Next.next index moved))
Next-cases (Next.stop end) = inl (end, refl)
Next-cases (Next.next index moved) = inr (index, moved, refl)

RoundEnd-cases :
    (r : RoundEnd)
    → ((slice : Slice) × (r ≡ RoundEnd.answer slice))
      ⊎ ((r ≡ RoundEnd.again) ⊎ (r ≡ RoundEnd.never))
RoundEnd-cases (RoundEnd.answer slice) = inl (slice, refl)
RoundEnd-cases RoundEnd.again = inr (inl refl)
RoundEnd-cases RoundEnd.never = inr (inr refl)

module _ {F I M W : Type 0} (w : World F I M W) (rounds : ℕ) (P : Kernel F I W → Type 0)
    (keeps : Keeps w rounds P) where
  finish_all-keeps : (n : ℕ) (k : Kernel F I W) (status : ℤ) → P k → P (finish_all n k status)
  unfolding finish_all
  finish_all-keeps zero k status h = h
  finish_all-keeps (suc n) k status h =
      finish_all-keeps n (finish k 0 status) status (keeps.on_finish k 0 status h)

  kill_all-keeps : (k : Kernel F I W) (status : ℤ) → P k → P (kill_all k status)
  unfolding kill_all
  kill_all-keeps k status h = keeps.on_status _ _ (finish_all-keeps (length k.procs) k status h)

  follow-keeps :
      (k : Kernel F I W) (index : ℕ) (moved : Bool) (step : Option ProcStep)
      → P k
      → P (follow k index moved step).0
  unfolding follow
  follow-keeps k index moved none h = h
  follow-keeps k index moved (some ProcStep.ran) h = h
  follow-keeps k index moved (some ProcStep.replaced) h = h
  follow-keeps k index moved (some ProcStep.stuck) h = h
  follow-keeps k index moved (some (ProcStep.ended status)) h = keeps.on_finish k index status h

  turn-keeps :
      (k : Kernel F I W) (index : ℕ) (moved : Bool) → P k → P (turn w rounds k index moved).0
  unfolding turn
  turn-keeps k index moved h = follow-keeps _ index moved _ (keeps.on_step k index h)

  pass-keeps :
      (fuel : ℕ) (k : Kernel F I W) (index : ℕ) (moved : Bool)
      → P k
      → P (pass w rounds fuel k index moved).0
  unfolding pass
  pass-keeps zero k index moved h = h
  pass-keeps (suc fuel) k index moved h = elim (Bool-cases (leb (length k.procs) index)) [
    | inl e ↦ rw (pass, e) h
    | inr e ↦ elim (Next-cases (turn w rounds k index moved).1) [
      | inl (end, n) ↦ rw (pass, e, n) (turn-keeps k index moved h)
      | inr (index', moved', n) ↦
          rw (pass, e, n) (pass-keeps fuel _ index' moved' (turn-keeps k index moved h))
    ]
  ]

  end_round-keeps :
      (k : Kernel F I W) (allowed : Budget) (served elapsed : ℕ) (end : Option Passed)
      → P k
      → P (end_round k allowed served elapsed end).0
  unfolding end_round
  end_round-keeps k allowed served elapsed none h = h
  end_round-keeps k allowed served elapsed (some Passed.endless) h = h
  end_round-keeps k allowed served elapsed (some (Passed.finished status)) h = h
  end_round-keeps k allowed served elapsed (some (Passed.passed moved)) h =
      elim (Bool-cases (length k.procs == 0)) [
        | inl e ↦ rw (end_round, e) h
        | inr e ↦ elim (Bool-cases (not moved)) [
          | inl s ↦ rw (end_round, e, s) (keeps.on_idle k h)
          | inr s ↦ rw (end_round, e, s) h
        ]
      ]

  round-keeps :
      (deadline : Option ℕ) (allowed : Budget) (served : ℕ) (now : Reading) (k : Kernel F I W)
      → P k
      → P (round w rounds deadline allowed served now k).0
  unfolding round expire
  round-keeps deadline allowed served now k h =
      let h' : P (start_pending w k) = keeps.on_start k h in
      elim (Bool-cases (reached deadline now.before)) [
        | inl e ↦ rw (round, e) (kill_all-keeps _ _ h')
        | inr e ↦
            let k₁ = start_pending w k in
            let fuel = length k₁.procs + 1 in
            let (k₂, end) = pass w rounds fuel k₁ 0 false in
            rw (round, e)
              (end_round-keeps k₂ allowed (k₂.shared.syscalls - served) now.after end
                (pass-keeps fuel k₁ 0 false h'))
      ]

  rounds_of-keeps :
      (deadline : Option ℕ) (allowed : Budget) (served : ℕ) (readings : List Reading)
      (k : Kernel F I W)
      → P k
      → P (rounds_of w rounds deadline allowed served readings k).0
  unfolding rounds_of
  rounds_of-keeps deadline allowed served [] k h = h
  rounds_of-keeps deadline allowed served (now ∷ readings) k h =
      let h' : P (round w rounds deadline allowed served now k).0 =
        round-keeps deadline allowed served now k h in
      elim (RoundEnd-cases (round w rounds deadline allowed served now k).1) [
        | inl (slice, e) ↦ rw (rounds_of, e) h'
        | inr (inl e) ↦ rw (rounds_of, e) (rounds_of-keeps deadline allowed served readings _ h')
        | inr (inr e) ↦ rw (rounds_of, e) h'
      ]

  -- What every step of a slice keeps, the slice keeps, whatever it answers.
  pub run-keeps :
      (deadline : Option ℕ) (allowed : Budget) (readings : List Reading) (k : Kernel F I W)
      → P k
      → P (run w rounds deadline allowed readings k).0
  unfolding run
  run-keeps deadline allowed readings k h =
      rounds_of-keeps deadline allowed k.shared.syscalls readings _ (keeps.on_unpark k h)
