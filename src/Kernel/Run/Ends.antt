-- ===== src/Kernel/Run/Ends.antt =====
-- How the inner loop of `run` (kernel/mod.rs) ends: each turn goes on to the next process, or one goes.
use wasmux.Prelude.{
  ℕ, zero, suc, ◌+◌, ◌-◌, ◌≤◌, ◌<◌, ◌≡◌, refl, ap, ◌≢◌, ◌⊎◌, inl, inr, arith, Bool, true,
  if◌then◌else◌, is_some, Option, none, some, List, [], ◌∷◌, leb, ℤ, length, get_elem?, Bool-cases,
  Option-cases, Result-cases, length-set, length-append, get_elem?-lt,
}
use wasmux.Shared.{add_u64, release_memory, charge_memory}
use wasmux.Task.{Task}
use wasmux.Ctx.{Spawn}
use wasmux.Kernel.{Kernel, World, ProgramKind, remove_at, insert_at, pop}
use wasmux.Kernel.Start.{
  asyncify_pages, guest_charge, guest_proc, host_proc, task_of, start, start_guest, start_host,
  abandon,
}
use wasmux.Kernel.Finish.{ProcStep, finish, replace_by, replace_instance, move_back}
use wasmux.Kernel.Run.{Passed, Next, follow, turn, pass, step_and_park, park}
use wasmux.Kernel.Run.Loop.{Next-cases}
use wasmux.Kernel.Run.Turns.{Drains, Reaches, turn-stops}
use wasmux.Kernel.Run.Local.{Local}
use wasmux.Kernel.Run.Steps.{step_and_park-keeps}

module _ {ℓ} {A : Type ℓ} where
  length-remove_at : (xs : List A) (i : ℕ) → i < length xs → length (remove_at xs i) + 1 ≡ length xs
  unfolding remove_at
  length-remove_at [] i h = absurd (omega arith)
  length-remove_at (x ∷ xs) zero h = omega arith
  length-remove_at (x ∷ xs) (suc i) h = omega (arith, length-remove_at xs i (omega arith))

  length-insert_at : (xs : List A) (i : ℕ) (a : A) → length (insert_at xs i a) ≡ length xs + 1
  unfolding insert_at
  length-insert_at [] i a = refl
  length-insert_at (x ∷ xs) zero a = omega arith
  length-insert_at (x ∷ xs) (suc i) a = omega (arith, length-insert_at xs i a)

get_elem?-le {ℓ} : {A : Type ℓ} (xs : List A) (i : ℕ) → get_elem? xs i ≡ none → length xs ≤ i
get_elem?-le [] i h = omega arith
get_elem?-le (x ∷ xs) zero h = cc
get_elem?-le (x ∷ xs) (suc i) h = omega (arith, get_elem?-le xs i h)

-- What `pop` takes away.
length-pop {ℓ} :
    {A : Type ℓ} (xs : List A)
    → length (pop xs).0 + (if is_some (pop xs).1 then 1 else 0) ≡ length xs
unfolding pop
length-pop [] = refl
length-pop (x ∷ []) = refl
length-pop (x ∷ y ∷ xs) = omega (arith, length-pop (y ∷ xs))

-- The next index, or any number where the loop stops.
index_of : Next → ℕ → ℕ
index_of (Next.stop end) n = n
index_of (Next.next index moved) n = index

module _ {F I W : Type 0} where
  abbrev count : Kernel F I W → ℕ
  count k = length k.procs

  count-finish :
      (k : Kernel F I W) (index : ℕ) (status : ℤ)
      → count (finish k index status) - index ≤ count k - index - 1
  unfolding finish
  count-finish k index status = elim (Option-cases (get_elem? k.procs index)) [
    | inl e ↦ rw (finish, e) (omega (arith, get_elem?-le k.procs index e))
    | inr (p, e) ↦
        rw (finish, e)
          (omega (arith, length-remove_at k.procs index (get_elem?-lt k.procs index e)))
  ]

  count-move_back : (k : Kernel F I W) (index : ℕ) → count (move_back k index) ≡ count k
  unfolding move_back
  count-move_back k index = elim (Option-cases (pop k.procs).1) [
    | inl e ↦ let n = length-pop k.procs in rw (move_back, e) (omega (arith, rw e at n))
    | inr (p, e) ↦
        let n = length-pop k.procs in
        rw (move_back, e) (omega (arith, rw e at n, length-insert_at (pop k.procs).0 index p))
  ]

  count-follow :
      (k : Kernel F I W) (index : ℕ) (moved : Bool) (step : Option ProcStep) (index' : ℕ)
      (moved' : Bool)
      → (follow k index moved step).1 ≡ Next.next index' moved'
      → count (follow k index moved step).0 - index' ≤ count k - index - 1
  unfolding follow index_of
  count-follow k index moved none index' moved' e = absurd cc
  count-follow k index moved (some ProcStep.ran) index' moved' e =
      omega (arith, ap (λ (n : Next). index_of n 0) e)
  count-follow k index moved (some ProcStep.replaced) index' moved' e =
      omega (arith, ap (λ (n : Next). index_of n 0) e)
  count-follow k index moved (some ProcStep.stuck) index' moved' e =
      omega (arith, ap (λ (n : Next). index_of n 0) e)
  count-follow k index moved (some (ProcStep.ended status)) index' moved' e =
      elim (Option-cases (finish k index status).exit_status) [
        | inl x ↦ omega (
          arith,
          count-finish k index status,
          ap (λ (n : Next). index_of n 0) (rw (x, follow) at e),
        )
        | inr (first, x) ↦ absurd (cc (rw (x, follow) at e))
      ]

  module _ {M : Type 0} (w : World F I M W) where
    count-start_guest :
        (k : Kernel F I W) (s : Spawn) (t : Task) (m : M)
        → count (start_guest w k s t m).0 ≤ count k + 1
    unfolding start_guest abandon
    count-start_guest k s t m = elim (Result-cases (w.instantiate m)) [
      | inl (e, q) ↦ rw (start_guest, q) (omega arith)
      | inr ((i, memory), q) ↦ elim (Bool-cases (charge_memory k.shared (guest_charge memory)).1) [
        | inl c ↦ elim (Option-cases (w.grow memory asyncify_pages)) [
          | inl g ↦ rw (start_guest, q, c, g) (omega arith)
          | inr ((memory', old), g) ↦
              rw (start_guest, q, c, g)
                (omega (
                  arith,
                  length-append k.procs (
                      guest_proc
                        (record k { shared = (charge_memory k.shared (guest_charge memory)).0 }) s t
                        i memory' (guest_charge memory) old
                      ∷ []),
                ))
        ]
        | inr c ↦ rw (start_guest, q, c) (omega arith)
      ]
    ]

    count-start : (k : Kernel F I W) (s : Spawn) → count (start w k s).0 ≤ count k + 1
    unfolding start start_host abandon
    count-start k s = elim (Option-cases (get_elem? w.programs s.program)) [
      | inl e ↦ rw (start, e) (omega arith)
      | inr (ProgramKind.host h, e) ↦
          rw (start, e)
            (omega (arith, length-append k.procs (host_proc k s (task_of w.lossy s) h ∷ [])))
      | inr (ProgramKind.guest m, e) ↦ rw (start, e) (count-start_guest k s (task_of w.lossy s) m)
    ]

    count-replace_instance :
        (k : Kernel F I W) (index : ℕ) → count (replace_instance w k index).0 ≤ count k
    unfolding replace_instance replace_by
    count-replace_instance k index = elim (Option-cases (get_elem? k.procs index)) [
      | inl e ↦ rw (replace_instance, e) (omega arith)
      | inr (p, e) ↦ elim (Option-cases p.ctx.exec_request) [
        | inl r ↦ rw (replace_instance, e, r) (omega arith)
        | inr (s, r) ↦
            let k₁ : Kernel F I W = record k {
              procs = remove_at k.procs index;
              shared = release_memory k.shared (add_u64 p.charged p.ctx.grown);
            } in
            let below = length-remove_at k.procs index (get_elem?-lt k.procs index e) in
            let started = count-start k₁ s in
            elim (Option-cases (start w k₁ s).1) [
              | inl f ↦
                  rw (replace_instance, e, r, replace_by, f)
                    (omega (arith, below, started, count-move_back (start w k₁ s).0 index))
              | inr (x, f) ↦
                  rw (replace_instance, e, r, replace_by, f) (omega (arith, below, started))
            ]
      ]
    ]

    abbrev AtMost : ℕ → Kernel F I W → Type 0
    AtMost n k = count k ≤ n

    count-park :
        (k : Kernel F I W) (index : ℕ) (external : Bool) → count (park k index external) ≤ count k
    count-park k index external = elim (Option-cases (get_elem? k.procs index)) [
      | inl e ↦ rw (park, e) (omega arith)
      | inr (p, e) ↦ elim (Bool-cases external) [
        | inl b ↦
            rw (park, e, b) (omega (arith, length-set k.procs index (record p { parked = true })))
        | inr b ↦ rw (park, e, b) (omega arith)
      ]
    ]

    count-Local : (n : ℕ) → Local w (AtMost n) (λ c c'. Unit {0})
    count-Local n = record {
      same = λ c. tt;
      trans = λ a b c r r'. tt;
      memory = λ c m. tt;
      advance = λ k index p p' h e r same. omega (arith, h, length-set k.procs index p');
      on_replace = λ k index h. omega (arith, h, count-replace_instance k index);
      on_stderr = λ k b h. h;
      on_pending = λ k h. h;
      on_host = λ k host h. h;
      on_park = λ k index external h. omega (arith, h, count-park k index external);
      on_run = λ i c e. tt;
      on_dispatch = λ number args c. tt;
      on_read = λ c n'. tt;
      on_write = λ c fd bytes. tt;
    }

    module _ (rounds : ℕ) where
      -- How a pass ends: with an answer of its own, or at a process that it reaches by its turns and
      -- that is a host command whose drain of standard input does not end.
      abbrev pub Ending : Kernel F I W → ℕ → Bool → Option Passed → Type 0
      Ending k index moved end =
          ((answer : Passed) × (end ≡ some answer) × (answer ≢ Passed.endless))
          ⊎ ((end ≡ some Passed.endless)
              × (k' : Kernel F I W) × (last : ℕ) × Reaches w rounds k index moved k' last
              × Drains w rounds k' last)

      further :
          (k : Kernel F I W) (index : ℕ) (moved : Bool) (index' : ℕ) (moved' : Bool)
          (end : Option Passed)
          → (turn w rounds k index moved).1 ≡ Next.next index' moved'
          → Ending (turn w rounds k index moved).0 index' moved' end
          → Ending k index moved end
      further k index moved index' moved' end n (inl own) = inl own
      further k index moved index' moved' end n (inr (e, k', last, path, stuck)) =
          inr (e, k', last, Reaches.after k index moved index' moved' k' last n path, stuck)

      -- With a round for each process that is left and one more, a pass over the processes, from any
      -- index, ends with an answer of its own, whatever the guests and the calls do: every turn
      -- leaves a process behind, or takes one away. The one exception is a pass that comes, by turns
      -- that go on, to a host command whose loop over its standard input has used up all the rounds
      -- that it is given.
      pub pass-ends :
          (fuel : ℕ) (k : Kernel F I W) (index : ℕ) (moved : Bool)
          → count k - index < fuel
          → Ending k index moved (pass w rounds fuel k index moved).1
      unfolding pass turn
      pass-ends zero k index moved h = absurd (omega arith)
      pass-ends (suc fuel) k index moved h = elim (Bool-cases (leb (length k.procs) index)) [
        | inl e ↦ inl (Passed.passed moved, rw (pass, e) refl, λ x. cc)
        | inr e ↦ elim (Next-cases (turn w rounds k index moved).1) [
          | inl (end, n) ↦ elim (turn-stops w rounds k index moved end n) [
            | inl own ↦ inl (end, rw (pass, e, n) refl, own)
            | inr (x, stuck) ↦
                inr (rw (pass, e, n, x) refl, k, index, Reaches.here k index moved, stuck)
          ]
          | inr (index', moved', n) ↦
              let below : index < count k = ground (arith, e) in
              let stepped =
                step_and_park-keeps w (AtMost (count k)) (λ c c'. Unit {0}) (count-Local (count k))
                  rounds k index (omega arith) in
              let (k', step) = step_and_park w rounds k index in
              let rest =
                pass-ends fuel (turn w rounds k index moved).0 index' moved'
                  (omega (arith, stepped, count-follow k' index moved step index' moved' n)) in
              rw (pass, e, n)
                (further k index moved index' moved'
                  (pass w rounds fuel (turn w rounds k index moved).0 index' moved').1 n rest)
        ]
      ]
