-- ===== src/Syscall/Poll/Wake.antt =====
-- crates/wasmux/src/kernel/syscall.rs: a process that `ppoll` puts to sleep, and its next attempt.
use wasmux.Prelude.{
  ℕ, ◌+◌, ◌≡◌, ◌≢◌, ◌≤◌, refl, ◌∙◌, false, arith, Bool-cases, Result-cases, Option-cases, inl, inr,
  ◌⊎◌, some, ok, err, ℤ, ltb, ◌==◌, min,
}
use wasmux.Errno.{Errno, VfsResult}
use wasmux.Desc.{Bytes}
use wasmux.Mem.{timespec}
use wasmux.Ctx.{Ctx, Sys, block, errno}
use wasmux.Syscall.Poll.{
  Clock, instant_or, deadline, until_, wait_or, told, sleep_until, want_stdin, poll_entries,
  count_ready, put_revents, poll_until, sys_ppoll,
}

module _ {F : Type 0} where
  told-answers :
      (c : Ctx F) (ready : ℕ) (r : Bytes × VfsResult (Unit {0})) → (told c ready r).1 ≢ err block
  unfolding told
  told-answers c ready (m, ok u) e = absurd cc
  told-answers c ready (m, err x) e = absurd cc

  told-deadline :
      (c : Ctx F) (ready : ℕ) (r : Bytes × VfsResult (Unit {0}))
      → (told c ready r).0.deadline ≡ c.deadline
  unfolding told
  told-deadline c ready (m, ok u) = refl
  told-deadline c ready (m, err x) = refl

  -- A deadline that has passed: the call answers.
  wait_or-answers :
      (clock : Clock) (idle : Ctx F → Ctx F) (c : Ctx F) (at ready : ℕ) (answer : Sys F ℤ)
      → at ≤ clock.now
      → wait_or clock idle c (some at) ready answer ≡ answer
  unfolding wait_or
  wait_or-answers clock idle c at ready answer h =
      let past : ltb clock.now at ≡ false = ground arith in
      elim (Bool-cases (ready == 0)) [
        | inl e ↦ rw (wait_or, e, past) refl
        | inr e ↦ rw (wait_or, e) refl
      ]

  wait_or-deadline :
      (clock : Clock) (idle : Ctx F → Ctx F) (c : Ctx F) (at ready : ℕ) (answer : Sys F ℤ)
      → answer.0.deadline ≡ c.deadline
      → (wait_or clock idle c (some at) ready answer).0.deadline ≡ c.deadline
  unfolding wait_or sleep_until
  wait_or-deadline clock idle c at ready answer h = elim (Bool-cases (ready == 0)) [
    | inr e ↦ rw (wait_or, e) h
    | inl e ↦ elim (Bool-cases (ltb clock.now at)) [
      | inl l ↦ rw (wait_or, e, l) refl
      | inr l ↦ rw (wait_or, e, l) h
    ]
  ]

  poll_until-deadline :
      (clock : Clock) (c : Ctx F) (at fds_at count : ℕ)
      → (poll_until clock (c, ok (some at)) fds_at count).0.deadline ≡ c.deadline
  unfolding poll_until
  poll_until-deadline clock c at fds_at count =
      elim (Result-cases (poll_entries c fds_at 0 (min count 1024))) [
        | inr (results, e) ↦
            rw (poll_until, e)
              (wait_or-deadline clock want_stdin c at (count_ready results)
                (told c (count_ready results) (put_revents c.memory results))
                (told-deadline c (count_ready results) (put_revents c.memory results)))
        | inl (x, e) ↦ rw (poll_until, e) refl
      ]

  poll_until-answers :
      (clock : Clock) (c : Ctx F) (at fds_at count : ℕ)
      → at ≤ clock.now
      → (poll_until clock (c, ok (some at)) fds_at count).1 ≢ err block
  unfolding poll_until
  poll_until-answers clock c at fds_at count h =
      elim (Result-cases (poll_entries c fds_at 0 (min count 1024))) [
        | inr (results, e) ↦
            rw
              (
                poll_until,
                e,
                wait_or-answers clock want_stdin c at (count_ready results)
                    (told c (count_ready results) (put_revents c.memory results)) h,
              )
              (told-answers c (count_ready results) (put_revents c.memory results))
        | inl (x, e) ↦ rw (poll_until, e) (λ z. absurd cc)
      ]

  -- What `until_` leaves where a timeout is given and can be read.
  until_-deadline :
      (clock : Clock) (c : Ctx F) (timeout_at : ℕ)
      → (timeout_at == 0) ≡ false
      → ((x : Errno) × (until_ clock c timeout_at ≡ (c, err (errno x))))
        ⊎ ((c' : Ctx F) × (at : ℕ) × (until_ clock c timeout_at ≡ (c', ok (some at)))
            × (c'.deadline ≡ some at))
  unfolding until_ deadline
  until_-deadline clock c timeout_at given = elim (Result-cases (timespec c.memory timeout_at)) [
    | inl (x, e) ↦ inl (x, rw (until_, given, e) refl)
    | inr (d, e) ↦ elim (Option-cases c.deadline) [
      | inr (at, f) ↦ inr (c, at, simp (until_, given, e, deadline, f), f)
      | inl f ↦
          let at = instant_or (clock.checked_add d) clock.fallback in
          inr (record c { deadline = some at }, at, rw (until_, given, e, deadline, f) refl, refl)
    ]
  ]

  -- Retried by a clock that has reached the deadline of the call, `ppoll` answers.
  retry-answers :
      (clock : Clock) (c : Ctx F) (fds_at count timeout_at at : ℕ)
      → (timeout_at == 0) ≡ false
      → c.deadline ≡ some at
      → at ≤ clock.now
      → (sys_ppoll clock c fds_at count timeout_at).1 ≢ err block
  unfolding sys_ppoll until_ deadline
  retry-answers clock c fds_at count timeout_at at given set h =
      elim (Result-cases (timespec c.memory timeout_at)) [
        | inl (x, e) ↦ rw (sys_ppoll, until_, given, e, poll_until) (λ z. absurd cc)
        | inr (d, e) ↦
            rw (sys_ppoll, until_, given, e, deadline, set)
              (poll_until-answers clock c at fds_at count h)
      ]

  -- A call of `ppoll` with a timeout blocks the process. Then it has left a deadline, and when it is
  -- tried again on a state that keeps that deadline, by a clock that reads the deadline or any time
  -- after it, it does not block, whatever the state is otherwise.
  pub sys_ppoll-wakes :
      (clock later : Clock) (c after : Ctx F) (fds_at count timeout_at : ℕ)
      → (timeout_at == 0) ≡ false
      → (sys_ppoll clock c fds_at count timeout_at).1 ≡ err block
      → after.deadline ≡ (sys_ppoll clock c fds_at count timeout_at).0.deadline
      → (at : ℕ) × ((sys_ppoll clock c fds_at count timeout_at).0.deadline ≡ some at)
        × ((n : ℕ)
            → (sys_ppoll (record later { now = at + n }) after fds_at count timeout_at).1
              ≢ err block)
  unfolding sys_ppoll poll_until
  sys_ppoll-wakes clock later c after fds_at count timeout_at given waits kept =
      elim (until_-deadline clock c timeout_at given) [
        | inl (x, e) ↦
            let failed : (sys_ppoll clock c fds_at count timeout_at).1 ≡ err (errno x) =
              rw (sys_ppoll, e, poll_until) refl in
            absurd cc
        | inr (c', at, e, set) ↦
            let left : (sys_ppoll clock c fds_at count timeout_at).0.deadline ≡ some at =
              rw (sys_ppoll, e) (poll_until-deadline clock c' at fds_at count ∙ set) in
            (
              at,
              left,
              λ n.
                  retry-answers (record later { now = at + n }) after fds_at count timeout_at at
                    given (kept ∙ left) (omega arith),
            )
      ]
