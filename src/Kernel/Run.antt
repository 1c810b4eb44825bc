-- ===== src/Kernel/Run.antt =====
-- crates/wasmux/src/kernel/mod.rs: `run`, one slice of a session, and what it answers.
-- The clock is read twice in a round, before the processes run and after: a `Reading`. The loop runs
-- on the list of its readings, and is `none` where it has not ended when they do.
pub mod Loop
pub mod Turns
pub mod Retry
pub mod Ends
pub mod Local
pub mod Steps
pub mod Charge
pub mod Settled
pub mod Answers
use wasmux.Prelude.{
  ℕ, zero, suc, ◌+◌, ◌-◌, Bool, true, false, ◌&&◌, ◌||◌, not, Option, none, some, List, [], ◌∷◌,
  ◌++◌, leb, ◌==◌, if◌then◌else◌, ℤ, pos, length, get_elem?, set, map,
}
use wasmux.Shared.{Shared, ProcRecord}
use wasmux.Task.{sigkill, status_signaled}
use wasmux.Ctx.{Ctx, Spawn}
use wasmux.Kernel.{Body, Proc, Kernel, World, put_proc}
use wasmux.Kernel.Start.{start_pending}
use wasmux.Kernel.Finish.{ProcStep, finish, kill_all}
use wasmux.Kernel.Steps.{step_guest}
use wasmux.Kernel.HostStep.{step_host}

-- Why nothing could run.
pub data Idle : Type 0 where
  host vfs stdin deadlock : Idle
  until : ℕ → Idle

pub data Slice : Type 0 where
  progressed : Slice
  finished : ℤ → Slice
  idle : Idle → Slice
  budget : Slice

-- The time that has passed since the session started, when the round starts and when it ends.
pub record Reading : Type 0 where
  pub before : ℕ
  pub after : ℕ

-- `Budget`; a duration is a number.
pub record Budget : Type 0 where
  pub syscalls : Option ℕ
  pub duration : Option ℕ

abbrev pub reached : Option ℕ → ℕ → Bool
reached none n = false
reached (some limit) n = leb limit n

-- `Budget::spent`
unfoldable pub spent : Budget → ℕ → ℕ → Bool
spent b served elapsed = reached b.syscalls served || reached b.duration elapsed

-- The earliest `wake_at` of the table, from the one found so far.
unfoldable pub earliest : List ProcRecord → Option ℕ → Option ℕ
earliest [] found = found
earliest (r ∷ table) found = earliest table (elim r.wake_at [
  | none ↦ found
  | some when ↦ elim found [
    | none ↦ some when
    | some current ↦ some (if leb current when then current else when)
  ]
])

-- Every process has its chance again.
unfoldable pub unpark : {F I W : Type 0} → List (Proc F I W) → List (Proc F I W)
unpark [] = []
unpark (p ∷ procs) = record p { parked = false } ∷ unpark procs

-- The end of one pass over the processes: `endless` is that of a host command.
pub data Passed : Type 0 where
  finished : ℤ → Passed
  passed : Bool → Passed
  endless : Passed

-- How the inner loop goes on, and how a round ends.
pub data Next : Type 0 where
  stop : Passed → Next
  next : ℕ → Bool → Next

pub data RoundEnd : Type 0 where
  answer : Slice → RoundEnd
  again : RoundEnd
  never : RoundEnd

module _ {F I W : Type 0} where
  unfoldable pub why_idle : Kernel F I W → Kernel F I W × Idle
  unfolding earliest
  why_idle k =
      if k.shared.vfs_pending
      then (record k { shared = record (k.shared) { vfs_pending = false } }, Idle.vfs)
      else if k.shared.host_pending
      then (record k { shared = record (k.shared) { host_pending = false } }, Idle.host)
      else (
        k,
        elim (earliest k.shared.table none) [
          | some when ↦ Idle.until when
          | none ↦
              if k.shared.stdin.wanted && not k.shared.stdin.closed
              then Idle.stdin
              else Idle.deadlock
        ],
      )

  -- The process that asked to be retried later is parked.
  abbrev pub park : Kernel F I W → ℕ → Bool → Kernel F I W
  park k index external = elim (get_elem? k.procs index) [
    | none ↦ k
    | some p ↦ if external then put_proc k index (record p { parked = true }) else k
  ]

  -- What a step is followed by: the next index, which is the same where the process is gone.
  unfoldable pub follow : Kernel F I W → ℕ → Bool → Option ProcStep → Kernel F I W × Next
  unfolding finish
  follow k index moved none = (k, Next.stop Passed.endless)
  follow k index moved (some ProcStep.ran) = (k, Next.next (index + 1) true)
  follow k index moved (some ProcStep.replaced) = (k, Next.next (index + 1) true)
  follow k index moved (some ProcStep.stuck) = (k, Next.next (index + 1) moved)
  follow k index moved (some (ProcStep.ended status)) =
      let k' = finish k index status in
      (
        k',
        elim k'.exit_status [
          | some first ↦ Next.stop (Passed.finished first)
          | none ↦ Next.next index true
        ],
      )

  -- What a round does once its pass is over.
  unfoldable pub end_round : Kernel F I W → Budget → ℕ → ℕ → Option Passed → Kernel F I W × RoundEnd
  unfolding why_idle spent
  end_round k allowed served elapsed none = (k, RoundEnd.never)
  end_round k allowed served elapsed (some Passed.endless) = (k, RoundEnd.never)
  end_round k allowed served elapsed (some (Passed.finished status)) =
      (k, RoundEnd.answer (Slice.finished status))
  end_round k allowed served elapsed (some (Passed.passed moved)) =
      if length k.procs == 0
      then (k, RoundEnd.answer (Slice.finished (elim k.exit_status [ none ↦ pos 0 | some s ↦ s ])))
      else if not moved
      then (let (k', why) = why_idle k in (k', RoundEnd.answer (Slice.idle why)))
      else (
        k,
        if spent allowed served elapsed then RoundEnd.answer Slice.budget else RoundEnd.again,
      )

  -- The end of a session at its wall clock limit.
  unfoldable pub expire : Kernel F I W → Kernel F I W × RoundEnd
  unfolding kill_all
  expire k =
      let status = status_signaled (pos sigkill) in
      let k' = kill_all k status in
      (k', RoundEnd.answer (Slice.finished (elim k'.exit_status [ none ↦ status | some s ↦ s ])))

  module _ {M : Type 0} (w : World F I M W) (rounds : ℕ) where
    -- `step_process`; `rounds` is for the loop of a host command over its standard input.
    unfoldable pub step_process : Kernel F I W → ℕ → Kernel F I W × Option ProcStep
    unfolding step_guest step_host
    step_process k index = elim (get_elem? k.procs index) [
      | none ↦ (k, some ProcStep.stuck)
      | some p ↦ if p.parked then (k, some ProcStep.stuck) else elim p.body [
        | Body.host h ↦ step_host w rounds k index p h h.phase
        | Body.guest i ↦ let (k', step) = step_guest w k index p i p.resume in (k', some step)
      ]
    ]

    -- A step, and the parking of its process.
    unfoldable pub step_and_park : Kernel F I W → ℕ → Kernel F I W × Option ProcStep
    unfolding step_process
    step_and_park k index =
        let (k', step) = step_process k index in
        let external =
          (k'.shared.vfs_pending && not k.shared.vfs_pending)
          || (k'.shared.host_pending && not k.shared.host_pending) in
        (park k' index external, step)

    -- One turn of the inner loop of `run`.
    unfoldable pub turn : Kernel F I W → ℕ → Bool → Kernel F I W × Next
    unfolding step_and_park follow
    turn k index moved = let (k', step) = step_and_park k index in follow k' index moved step

    -- The inner loop, on fuel: from `index` on, and whether something has run.
    unfoldable pub pass : ℕ → Kernel F I W → ℕ → Bool → Kernel F I W × Option Passed
    unfolding turn
    pass zero k index moved = (k, none)
    pass (suc fuel) k index moved = elim (leb (length k.procs) index) [
      | true ↦ (k, some (Passed.passed moved))
      | false ↦
          let (k', after) = turn k index moved in
          elim after [
            | Next.stop end ↦ (k', some end)
            | Next.next index' moved' ↦ pass fuel k' index' moved'
          ]
    ]

    -- A round of the loop of `run`; `deadline` is the session's wall clock limit.
    unfoldable pub round : Option ℕ → Budget → ℕ → Reading → Kernel F I W → Kernel F I W × RoundEnd
    unfolding start_pending expire pass end_round
    round deadline allowed served now k =
        let k₁ = start_pending w k in
        if reached deadline now.before
        then expire k₁
        else let (k₂, end) = pass (length k₁.procs + 1) k₁ 0 false in
          end_round k₂ allowed (k₂.shared.syscalls - served) now.after end

    unfoldable pub rounds_of :
        Option ℕ → Budget → ℕ → List Reading → Kernel F I W → Kernel F I W × Option Slice
    unfolding round
    rounds_of deadline allowed served [] k = (k, none)
    rounds_of deadline allowed served (now ∷ readings) k =
        let (k', end) = round deadline allowed served now k in
        elim end [
          | RoundEnd.answer slice ↦ (k', some slice)
          | RoundEnd.never ↦ (k', none)
          | RoundEnd.again ↦ rounds_of deadline allowed served readings k'
        ]

    unfoldable pub run :
        Option ℕ → Budget → List Reading → Kernel F I W → Kernel F I W × Option Slice
    unfolding unpark rounds_of
    run deadline allowed readings k =
        rounds_of deadline allowed k.shared.syscalls readings (record k { procs = unpark k.procs })
