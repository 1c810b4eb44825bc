-- ===== src/Kernel/Run/Charge.antt =====
-- kernel/mod.rs: what the session charges for memory is what its processes have.
use mathlib.Core.List.{reverse}
use wasmux.Prelude.{
  ℕ, zero, suc, ◌+◌, ◌-◌, ◌^◌, ◌≤◌, ◌<◌, ◌≡◌, refl, inl, inr, arith, Option, none, some, List, [],
  ◌∷◌, ◌++◌, ltb, ℤ, get_elem?, set, Bool-cases, Option-cases, Result-cases,
}
use wasmux.Engine.{LoadError}
use wasmux.Fd.{FdTable}
use wasmux.Shared.{Shared, add_u64, release_memory, release_fds}
use wasmux.Shared.Charge.{SameCharge, same_trans, release_fds-same}
use wasmux.Task.{Task}
use wasmux.Process.{set_exit}
use wasmux.Ctx.{Spawn}
use wasmux.Syscall.Processes.{end_task, end_tasks, finish_process}
use wasmux.Syscall.Memory.Charge.{charge_memory-full, charge_memory-fits}
use wasmux.Kernel.{Kernel, World, Proc, ProgramKind, remove_at, insert_at, pop}
use wasmux.Kernel.Start.{
  start, start_one, start_all, start_pending, start_guest, start_host, abandon, task_of,
  guest_charge, guest_proc, host_proc, asyncify_pages,
}
use wasmux.Kernel.Finish.{finish, move_back}

module _ {F : Type 0} where
  end_task-same : (sh : Shared F) (t : Task) (status : ℤ) → SameCharge sh (end_task sh t status)
  unfolding end_task set_exit
  end_task-same sh t status =
      let h = release_fds-same sh t.fds in record { used = h.used; limit = h.limit }

  end_tasks-same :
      (sh : Shared F) (t : Task) (ts : List Task) (status : ℤ)
      → SameCharge sh (end_tasks sh t ts status)
  unfolding end_tasks
  end_tasks-same sh t [] status = end_task-same sh t status
  end_tasks-same sh t (parent ∷ rest) status =
      same_trans sh _ _ (end_task-same sh t _) (end_tasks-same (end_task sh t _) parent rest status)

module _ {F I W : Type 0} where
  -- What the processes of a list have cost: what each was charged and what it has grown by.
  unfoldable pub cost : List (Proc F I W) → ℕ
  cost [] = 0
  cost (p ∷ procs) = p.charged + p.ctx.grown + cost procs

  -- The session has charged what its processes cost, within its limit, which is no `u64::MAX`.
  pub record IsSettled (k : Kernel F I W) : Type 0 where
    pub exact : k.shared.memory_used ≡ cost k.procs
    pub within : k.shared.memory_used ≤ k.shared.limits.memory
    pub fits : k.shared.limits.memory < 2 ^ 64 - 1

  cost-push :
      (procs : List (Proc F I W)) (p : Proc F I W)
      → cost (procs ++ (p ∷ [])) ≡ cost procs + (p.charged + p.ctx.grown)
  unfolding cost
  cost-push [] p = omega arith
  cost-push (q ∷ procs) p = omega (arith, cost-push procs p)

  pub cost-set :
      (procs : List (Proc F I W)) (i : ℕ) (p p' : Proc F I W)
      → get_elem? procs i ≡ some p
      → cost (set procs i p') + (p.charged + p.ctx.grown) ≡ cost procs + (p'.charged + p'.ctx.grown)
  unfolding cost
  cost-set [] i p p' h = absurd cc
  cost-set (q ∷ procs) zero p p' h = let e : q ≡ p = cc in rw e (omega arith)
  cost-set (q ∷ procs) (suc i) p p' h = omega (arith, cost-set procs i p p' h)

  pub cost-remove_at :
      (procs : List (Proc F I W)) (i : ℕ) (p : Proc F I W)
      → get_elem? procs i ≡ some p
      → cost (remove_at procs i) + (p.charged + p.ctx.grown) ≡ cost procs
  unfolding cost remove_at
  cost-remove_at [] i p h = absurd cc
  cost-remove_at (q ∷ procs) zero p h = let e : q ≡ p = cc in rw e (omega arith)
  cost-remove_at (q ∷ procs) (suc i) p h = omega (arith, cost-remove_at procs i p h)

  cost-insert_at :
      (procs : List (Proc F I W)) (i : ℕ) (p : Proc F I W)
      → cost (insert_at procs i p) ≡ cost procs + (p.charged + p.ctx.grown)
  unfolding cost insert_at
  cost-insert_at [] i p = omega arith
  cost-insert_at (q ∷ procs) zero p = omega arith
  cost-insert_at (q ∷ procs) (suc i) p = omega (arith, cost-insert_at procs i p)

  abbrev cost_of : Option (Proc F I W) → ℕ
  cost_of none = 0
  cost_of (some p) = p.charged + p.ctx.grown

  cost-pop : (procs : List (Proc F I W)) → cost (pop procs).0 + cost_of (pop procs).1 ≡ cost procs
  unfolding cost pop
  cost-pop [] = refl
  cost-pop (p ∷ []) = omega arith
  cost-pop (p ∷ q ∷ procs) = omega (arith, cost-pop (q ∷ procs))

  pub move_back-IsSettled :
      (k : Kernel F I W) (index : ℕ) → IsSettled k → IsSettled (move_back k index)
  unfolding move_back
  move_back-IsSettled k index v =
      let n = cost-pop k.procs in
      elim (Option-cases (pop k.procs).1) [
        | inl e ↦
            rw (move_back, e)
              (record { exact = omega (arith, v, rw e at n); within = v.within; fits = v.fits })
        | inr (p, e) ↦
            rw (move_back, e)
              (record {
                exact = omega (arith, v, rw e at n, cost-insert_at (pop k.procs).0 index p);
                within = v.within;
                fits = v.fits;
              })
      ]

  abbrev with_shared : Kernel F I W → Shared F → Kernel F I W
  with_shared k sh = record k { shared = sh }

  same-IsSettled :
      (k : Kernel F I W) (sh : Shared F)
      → SameCharge k.shared sh
      → IsSettled k
      → IsSettled (with_shared k sh)
  same-IsSettled k sh h v = record {
    exact = omega (arith, h.used, v.exact);
    within = omega (arith, h.used, h.limit, v.within);
    fits = omega (arith, h.limit, v.fits);
  }

  abandon-IsSettled :
      (k : Kernel F I W) (t : FdTable) (e : LoadError) → IsSettled k → IsSettled (abandon k t e).0
  unfolding abandon
  abandon-IsSettled k t e v =
      same-IsSettled k (release_fds k.shared t) (release_fds-same k.shared t) v

  -- What a process cost is given back when it ends.
  pub finish-IsSettled :
      (k : Kernel F I W) (index : ℕ) (status : ℤ) → IsSettled k → IsSettled (finish k index status)
  unfolding finish finish_process release_memory
  finish-IsSettled k index status v = elim (Option-cases (get_elem? k.procs index)) [
    | inl e ↦ rw (finish, e) v
    | inr (p, e) ↦
        let h =
          end_tasks-same (release_memory k.shared (add_u64 p.charged p.ctx.grown)) p.ctx.task
            p.ctx.vfork_stack status in
        let gone = cost-remove_at k.procs index p e in
        rw (finish, e)
          (record {
            exact = omega (arith, v, h.used, gone);
            within = omega (arith, v, h.used, h.limit);
            fits = omega (arith, v, h.limit);
          })
  ]

  module _ {M : Type 0} (w : World F I M W) where
    -- The charge is taken before the Asyncify area is made, and given back where it cannot be made.
    start_guest-IsSettled :
        (k : Kernel F I W) (s : Spawn) (t : Task) (m : M)
        → IsSettled k
        → IsSettled (start_guest w k s t m).0
    unfolding start_guest release_memory
    start_guest-IsSettled k s t m v = elim (Result-cases (w.instantiate m)) [
      | inl (e, q) ↦ rw (start_guest, q) (abandon-IsSettled k t.fds e v)
      | inr ((i, memory), q) ↦
          let charge = guest_charge memory in
          elim (Bool-cases (ltb k.shared.limits.memory (add_u64 k.shared.memory_used charge))) [
            | inl over ↦
                rw (start_guest, q, charge_memory-full k.shared charge over)
                  (abandon-IsSettled k t.fds LoadError.out_of_memory v)
            | inr room ↦
                let le : add_u64 k.shared.memory_used charge ≤ k.shared.limits.memory =
                  ground (arith, room) in
                let q' = charge_memory-fits k.shared charge room in
                elim (Option-cases (w.grow memory asyncify_pages)) [
                  | inl g ↦
                      rw (start_guest, q, q', g, q')
                        (abandon-IsSettled
                          (with_shared k (record (k.shared) {
                            memory_used = add_u64 k.shared.memory_used charge - charge;
                          }))
                          t.fds LoadError.out_of_memory
                          (record {
                            exact = omega (arith, v, le);
                            within = omega (arith, v, le);
                            fits = v.fits;
                          }))
                  | inr ((memory', old), g) ↦
                      let k' =
                        with_shared k (record (k.shared) {
                          memory_used = add_u64 k.shared.memory_used charge;
                        }) in
                      let p = guest_proc k' s t i memory' charge old in
                      rw (start_guest, q, q', g, q')
                        (record {
                          exact = omega (arith, v, le, cost-push k'.procs p);
                          within = le;
                          fits = v.fits;
                        })
                ]
          ]
    ]

    pub start-IsSettled : (k : Kernel F I W) (s : Spawn) → IsSettled k → IsSettled (start w k s).0
    unfolding start start_host
    start-IsSettled k s v = elim (Option-cases (get_elem? w.programs s.program)) [
      | inl e ↦ rw (start, e) (abandon-IsSettled k (task_of w.lossy s).fds LoadError.not_wasm v)
      | inr (ProgramKind.guest m, e) ↦
          rw (start, e) (start_guest-IsSettled k s (task_of w.lossy s) m v)
      | inr (ProgramKind.host h, e) ↦
          rw (start, e)
            (record {
              exact = omega (arith, v, cost-push k.procs (host_proc k s (task_of w.lossy s) h));
              within = v.within;
              fits = v.fits;
            })
    ]

    start_one-IsSettled : (k : Kernel F I W) (s : Spawn) → IsSettled k → IsSettled (start_one w k s)
    unfolding start_one set_exit
    start_one-IsSettled k s v =
        let v' = start-IsSettled k s v in
        elim (Option-cases (start w k s).1) [
          | inl e ↦ rw (start_one, e) v'
          | inr (x, e) ↦
              rw (start_one, e) (record { exact = v'.exact; within = v'.within; fits = v'.fits })
        ]

    start_all-IsSettled :
        (k : Kernel F I W) (ss : List Spawn) → IsSettled k → IsSettled (start_all w k ss)
    unfolding start_all
    start_all-IsSettled k [] v = v
    start_all-IsSettled k (s ∷ ss) v =
        start_all-IsSettled (start_one w k s) ss (start_one-IsSettled k s v)

    pub start_pending-IsSettled : (k : Kernel F I W) → IsSettled k → IsSettled (start_pending w k)
    unfolding start_pending
    start_pending-IsSettled k v =
        start_all-IsSettled (record k { spawn = [] }) (reverse k.spawn)
          (record { exact = v.exact; within = v.within; fits = v.fits })
