-- ===== src/Kernel/Run/Answers.antt =====
-- kernel/mod.rs: what `why_idle` and `kill_all` answer for.
use wasmux.Prelude.{
  ℕ, zero, suc, ◌≤◌, ◌≡◌, refl, ap, sym, ◌∙◌, inl, inr, ◌⊎◌, if◌then◌else◌, arith, Bool, true,
  false, ◌&&◌, not, Option, none, some, List, [], ◌∷◌, leb, ℤ, length, get_elem?, Bool-cases,
  Option-cases, is_some,
}
use mathlib.Core.Path.{subst}
use wasmux.Shared.{ProcRecord}
use wasmux.Kernel.{Kernel, Proc, remove_at}
use wasmux.Kernel.Finish.{finish, finish_all, kill_all, get_or_insert}
use wasmux.Kernel.Run.{Idle, earliest, why_idle}
use wasmux.Kernel.Run.Charge.{IsSettled, cost, finish-IsSettled}

-- An instant that is not before the bound; there is none without a bound.
abbrev pub Later : Option ℕ → Option ℕ → Type 0
Later bound none = Unit {0}
Later none (some when) = ⊥
Later (some at) (some when) = at ≤ when

-- No record asks to be woken before the bound.
abbrev pub NoneBefore : Option ℕ → List ProcRecord → Type 0
NoneBefore bound [] = Unit {0}
NoneBefore bound (r ∷ table) = Later bound r.wake_at × NoneBefore bound table

-- A record that asks to be woken at the instant.
abbrev pub Wakes : ℕ → List ProcRecord → Type 0
Wakes at [] = ⊥
Wakes at (r ∷ table) = (r.wake_at ≡ some at) ⊎ Wakes at table

sooner : Option ℕ → Option ℕ → Option ℕ
sooner found none = found
sooner none (some when) = some when
sooner (some current) (some when) = some (if leb current when then current else when)

Later-trans : (a b c : Option ℕ) → Later a b → Later b c → Later a c
Later-trans a b none h g = tt
Later-trans a none (some z) h g = absurd g
Later-trans none (some y) (some z) h g = absurd h
Later-trans (some x) (some y) (some z) h g = omega arith

Later-sooner :
    (found wake : Option ℕ) → Later (sooner found wake) found × Later (sooner found wake) wake
unfolding sooner
Later-sooner none none = (tt, tt)
Later-sooner (some a) none = (omega arith, tt)
Later-sooner none (some b) = (tt, omega arith)
Later-sooner (some a) (some b) = ground arith

earliest-cons :
    (r : ProcRecord) (table : List ProcRecord) (found : Option ℕ)
    → earliest (r ∷ table) found ≡ earliest table (sooner found r.wake_at)
unfolding earliest sooner
earliest-cons r table found = elim (Option-cases r.wake_at) [
  | inl e ↦ rw (earliest, sooner, e) refl
  | inr (when, e) ↦ elim (Option-cases found) [
    | inl f ↦ rw (earliest, sooner, e, f) refl
    | inr (current, f) ↦ rw (earliest, sooner, e, f) refl
  ]
]

earliest-Later :
    (table : List ProcRecord) (found : Option ℕ)
    → Later (earliest table found) found × NoneBefore (earliest table found) table
unfolding earliest
earliest-Later [] none = (tt, tt)
earliest-Later [] (some a) = (omega arith, tt)
earliest-Later (r ∷ table) found =
    let s = sooner found r.wake_at in
    let (below, rest) = earliest-Later table s in
    let (a, b) = Later-sooner found r.wake_at in
    let e = earliest table s in
    subst (λ (x : Option ℕ). Later x found × NoneBefore x (r ∷ table))
      (sym (earliest-cons r table found))
      (Later-trans e s found below a, (Later-trans e s r.wake_at below b, rest))

sooner-some :
    (found wake : Option ℕ) {at : ℕ}
    → sooner found wake ≡ some at
    → (found ≡ some at) ⊎ (wake ≡ some at)
unfolding sooner
sooner-some found none h = inl h
sooner-some none (some b) h = inr h
sooner-some (some a) (some b) h = elim (Bool-cases (leb a b)) [
  | inl e ↦ inl (rw (sooner, e) at h)
  | inr e ↦ inr (rw (sooner, e) at h)
]

earliest-Wakes :
    (table : List ProcRecord) (found : Option ℕ) {at : ℕ}
    → earliest table found ≡ some at
    → (found ≡ some at) ⊎ Wakes at table
unfolding earliest
earliest-Wakes [] found h = inl h
earliest-Wakes (r ∷ table) found {at} h =
    elim (earliest-Wakes table (sooner found r.wake_at) (rw (earliest-cons r table found) at h)) [
      | inr w ↦ inr (inr w)
      | inl e ↦ elim (sooner-some found r.wake_at e) [ inl f ↦ inl f | inr g ↦ inr (inl g) ]
    ]

given : (first : Option ℤ) (status : ℤ) → is_some (get_or_insert first status) ≡ true
given none status = refl
given (some s) status = refl

module _ {F I W : Type 0} where
  -- What an answer says of the kernel `k` that it was asked of, and of the one that it leaves.
  abbrev pub Explains : Kernel F I W → Kernel F I W → Idle → Type 0
  Explains k k' Idle.vfs = (k.shared.vfs_pending ≡ true) × (k'.shared.vfs_pending ≡ false)
  Explains k k' Idle.host =
      (k.shared.vfs_pending ≡ false)
      × (k.shared.host_pending ≡ true)
      × (k'.shared.host_pending ≡ false)
  Explains k k' (Idle.until at) =
      (k.shared.vfs_pending ≡ false)
      × (k.shared.host_pending ≡ false)
      × Wakes at k.shared.table
      × NoneBefore (some at) k.shared.table
  Explains k k' Idle.stdin =
      (k.shared.vfs_pending ≡ false)
      × (k.shared.host_pending ≡ false)
      × NoneBefore none k.shared.table
      × (k.shared.stdin.wanted ≡ true)
      × (k.shared.stdin.closed ≡ false)
  Explains k k' Idle.deadlock =
      (k.shared.vfs_pending ≡ false)
      × (k.shared.host_pending ≡ false)
      × NoneBefore none k.shared.table
      × (k.shared.stdin.wanted && not k.shared.stdin.closed ≡ false)

  waiting :
      (k k' : Kernel F I W)
      → k.shared.vfs_pending ≡ false
      → k.shared.host_pending ≡ false
      → Explains k k' (elim (earliest k.shared.table none) [
        | some when ↦ Idle.until when
        | none ↦
            if k.shared.stdin.wanted && not k.shared.stdin.closed then Idle.stdin else Idle.deadlock
      ])
  waiting k k' v h =
      let bound = (earliest-Later k.shared.table none).1 in
      elim (Option-cases (earliest k.shared.table none)) [
        | inr (at, e) ↦ rw e (
          v,
          h,
          elim (earliest-Wakes k.shared.table none e) [ inl x ↦ absurd cc | inr w ↦ w ],
          rw e at bound,
        )
        | inl e ↦ elim (Bool-cases (k.shared.stdin.wanted && not k.shared.stdin.closed)) [
          | inl s ↦ rw (e, s) (v, h, rw e at bound, ground (arith, s), ground (arith, s))
          | inr s ↦ rw (e, s) (v, h, rw e at bound, s)
        ]
      ]

  -- `why_idle`, with what the two flags are.
  abbrev why : Kernel F I W → Bool → Bool → Kernel F I W × Idle
  why k v h =
      if v
      then (record k { shared = record (k.shared) { vfs_pending = false } }, Idle.vfs)
      else if h
      then (record k { shared = record (k.shared) { host_pending = false } }, Idle.host)
      else (
        k,
        elim (earliest k.shared.table none) [
          | some when ↦ Idle.until when
          | none ↦
              if k.shared.stdin.wanted && not k.shared.stdin.closed
              then Idle.stdin
              else Idle.deadlock
        ],
      )

  why-Explains :
      (k : Kernel F I W) (v h : Bool)
      → k.shared.vfs_pending ≡ v
      → k.shared.host_pending ≡ h
      → Explains k (why k v h).0 (why k v h).1
  why-Explains k true h ev eh = (ev, refl)
  why-Explains k false true ev eh = (ev, eh, refl)
  why-Explains k false false ev eh = waiting k k ev eh

  -- The reason that `why_idle` gives holds. A filesystem or a host command that is pending comes
  -- first, in this order, and its flag is lowered. Else the answer is the earliest instant that a
  -- process asks to be woken at, where one asks; else standard input, where it is wanted and still
  -- open; and a deadlock only where none of these is so.
  pub why_idle_lem : (k : Kernel F I W) → Explains k (why_idle k).0 (why_idle k).1
  unfolding why_idle
  why_idle_lem k = why-Explains k k.shared.vfs_pending k.shared.host_pending refl refl

  remove_at-first :
      (xs : List (Proc F I W)) (p : Proc F I W) (rest : List (Proc F I W))
      → xs ≡ p ∷ rest
      → remove_at xs 0 ≡ rest
  unfolding remove_at
  remove_at-first xs p rest e = rw e

  finish-procs :
      (k : Kernel F I W) (p : Proc F I W) (procs : List (Proc F I W)) (status : ℤ)
      → k.procs ≡ p ∷ procs
      → (finish k 0 status).procs ≡ procs
  unfolding finish remove_at
  finish-procs k p procs status e =
      rw (finish, ap (λ (xs : List (Proc F I W)). get_elem? xs 0) e)
        (remove_at-first k.procs p procs e)

  finish_all-procs :
      (procs : List (Proc F I W)) (k : Kernel F I W) (status : ℤ)
      → k.procs ≡ procs
      → (finish_all (length procs) k status).procs ≡ []
  unfolding finish_all
  finish_all-procs [] k status e = e
  finish_all-procs (p ∷ procs) k status e =
      finish_all-procs procs (finish k 0 status) status (finish-procs k p procs status e)

  finish_all-IsSettled :
      (n : ℕ) (k : Kernel F I W) (status : ℤ) → IsSettled k → IsSettled (finish_all n k status)
  unfolding finish_all
  finish_all-IsSettled zero k status v = v
  finish_all-IsSettled (suc n) k status v =
      finish_all-IsSettled n (finish k 0 status) status (finish-IsSettled k 0 status v)

  -- `kill_all` leaves no process, gives back all the memory that a session has charged for its
  -- processes, and the session has an exit status.
  pub kill_all_lem :
      (k : Kernel F I W) (status : ℤ)
      → IsSettled k
      → ((kill_all k status).procs ≡ [])
        × ((kill_all k status).shared.memory_used ≡ 0)
        × (is_some (kill_all k status).exit_status ≡ true)
  unfolding kill_all cost
  kill_all_lem k status v =
      let gone = finish_all-procs k.procs k status refl in
      let settled = finish_all-IsSettled (length k.procs) k status v in
      (
        gone,
        settled.exact ∙ ap cost gone,
        given (finish_all (length k.procs) k status).exit_status status,
      )
