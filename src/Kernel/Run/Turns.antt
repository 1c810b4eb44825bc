-- ===== src/Kernel/Run/Turns.antt =====
-- The turns of the inner loop of `run` (kernel/mod.rs), and how a turn stops the loop.
use wasmux.Prelude.{
  ℕ, ◌≡◌, ◌≢◌, ◌⊎◌, refl, inl, inr, Bool, true, false, none, some, get_elem?, Bool-cases,
  Option-cases,
}
use wasmux.Desc.{Bytes}
use wasmux.Kernel.{Kernel, World, Proc, Body, HostProc, Phase, enter}
use wasmux.Kernel.Finish.{ProcStep, finish}
use wasmux.Kernel.HostStep.{Drained, drain, reads, step_host, after_drain}
use wasmux.Kernel.Run.{Passed, Next, follow, turn, step_and_park, step_process}

module _ {F I M W : Type 0} (w : World F I M W) (rounds : ℕ) where
  -- The process at the index is a host command whose drain of standard input has not ended after the
  -- rounds given.
  pub record Drains (k : Kernel F I W) (index : ℕ) : Type 0 where
    pub proc : Proc F I W
    pub host : HostProc W
    pub buffer : Bytes
    pub there : get_elem? k.procs index ≡ some proc
    pub body : proc.body ≡ Body.host host
    pub phase : host.phase ≡ Phase.reading buffer
    pub wants : host.reads_stdin ≡ true
    pub endless : (drain (reads w) rounds (enter k proc) buffer).1.1 ≡ Drained.endless

  -- From one place in the inner loop to a later one, by turns that go on.
  pub data Reaches : Kernel F I W → ℕ → Bool → Kernel F I W → ℕ → Type 0 where
    here : (k : Kernel F I W) (index : ℕ) (moved : Bool) → Reaches k index moved k index
    after :
        (k : Kernel F I W) (index : ℕ) (moved : Bool) (index' : ℕ) (moved' : Bool)
        (k' : Kernel F I W) (last : ℕ)
        → (turn w rounds k index moved).1 ≡ Next.next index' moved'
        → Reaches (turn w rounds k index moved).0 index' moved' k' last
        → Reaches k index moved k' last

  Drained-cases :
      (d : Drained) → (d ≡ Drained.done) ⊎ ((d ≡ Drained.blocked) ⊎ (d ≡ Drained.endless))
  Drained-cases Drained.done = inl refl
  Drained-cases Drained.blocked = inr (inl refl)
  Drained-cases Drained.endless = inr (inr refl)

  phase-Drains :
      (k : Kernel F I W) (index : ℕ) (p : Proc F I W) (h : HostProc W) (phase : Phase)
      → get_elem? k.procs index ≡ some p
      → p.body ≡ Body.host h
      → h.phase ≡ phase
      → (step_host w rounds k index p h phase).1 ≡ none
      → Drains k index
  unfolding step_host after_drain
  phase-Drains k index p h (Phase.flushing status out errs o e) there body at n = absurd cc
  phase-Drains k index p h (Phase.reading buffer) there body at n =
      elim (Bool-cases h.reads_stdin) [
        | inr r ↦ let never = rw (step_host, r) at n in absurd cc
        | inl r ↦
            let n' = rw (step_host, r) at n in
            elim (Drained-cases (drain (reads w) rounds (enter k p) buffer).1.1) [
              | inl d ↦ let never = rw (d) at n' in absurd cc
              | inr (inl d) ↦ let never = rw (d) at n' in absurd cc
              | inr (inr d) ↦ record {
                proc = p;
                host = h;
                buffer = buffer;
                there = there;
                body = body;
                phase = at;
                wants = r;
                endless = d;
              }
            ]
      ]

  body-Drains :
      (k : Kernel F I W) (index : ℕ) (p : Proc F I W) (b : Body I W)
      → get_elem? k.procs index ≡ some p
      → p.parked ≡ false
      → p.body ≡ b
      → (step_process w rounds k index).1 ≡ none
      → Drains k index
  unfolding step_process
  body-Drains k index p (Body.guest i) there on body n =
      let never = rw (step_process, there, on, body) at n in absurd cc
  body-Drains k index p (Body.host h) there on body n =
      phase-Drains k index p h h.phase there body refl (rw (step_process, there, on, body) at n)

  -- The only step that has no end is such a drain.
  step-Drains :
      (k : Kernel F I W) (index : ℕ) → (step_process w rounds k index).1 ≡ none → Drains k index
  unfolding step_process
  step-Drains k index n = elim (Option-cases (get_elem? k.procs index)) [
    | inl e ↦ let never = rw (step_process, e) at n in absurd cc
    | inr (p, e) ↦ elim (Bool-cases p.parked) [
      | inl on ↦ let never = rw (step_process, e, on) at n in absurd cc
      | inr on ↦ body-Drains k index p p.body e on refl n
    ]
  ]

  follow-stops :
      (k : Kernel F I W) (index : ℕ) (moved : Bool) (step : ProcStep) (end : Passed)
      → (follow k index moved (some step)).1 ≡ Next.stop end
      → end ≢ Passed.endless
  unfolding follow
  follow-stops k index moved ProcStep.ran end n = absurd cc
  follow-stops k index moved ProcStep.replaced end n = absurd cc
  follow-stops k index moved ProcStep.stuck end n = absurd cc
  follow-stops k index moved (ProcStep.ended status) end n =
      elim (Option-cases (finish k index status).exit_status) [
        | inl x ↦ let never = rw (x, follow) at n in absurd cc
        | inr (first, x) ↦ let end_ = rw (x, follow) at n in λ z. cc
      ]

  -- A turn that stops the loop has an end, or its process drains.
  pub turn-stops :
      (k : Kernel F I W) (index : ℕ) (moved : Bool) (end : Passed)
      → (turn w rounds k index moved).1 ≡ Next.stop end
      → (end ≢ Passed.endless) ⊎ ((end ≡ Passed.endless) × Drains k index)
  unfolding turn step_and_park follow
  turn-stops k index moved end n = elim (Option-cases (step_process w rounds k index).1) [
    | inl s ↦ let stopped = rw (turn, step_and_park, s) at n in inr (cc, step-Drains k index s)
    | inr (step, s) ↦ inl (
        follow-stops (step_and_park w rounds k index).0 index moved step end
          (rw (turn, step_and_park, s) at n))
  ]
