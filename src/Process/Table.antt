-- ===== src/Process/Table.antt =====
-- The invariant of the table of processes (kernel/mod.rs `fork_record`, `set_exit`): no two records
-- have the same pid, and no pid is handed out twice.
use wasmux.Prelude.{
  ℕ, ◌-◌, min, ◌+◌, ◌^◌, ◌<◌, ◌≡◌, refl, ◌≢◌, inl, inr, arith, List, [], ◌∷◌, ◌++◌, leb, ℤ, pos,
  negsuc, eq_ℤ, map, All, Bool-cases,
}
use wasmux.Shared.{Shared, ProcRecord}
use wasmux.Task.{Task, raise, sigchld}
use wasmux.Process.{
  update_record, count_alive, drop_pid, reparent, mark_exit, parent_of, alive_in, exit_table,
  set_exit, allocate_pid, fork_record,
}

-- A pid that was handed out before `next`.
unfoldable pub Below : ℕ → ℤ → Type 0
Below next (pos n) = n < next
Below next (negsuc n) = ⊥

unfoldable pub Distinct : List ProcRecord → Type 0
Distinct [] = Unit
Distinct (r ∷ table) = All (λ s. s.pid ≢ r.pid) table × Distinct table

pub record IsValid (table : List ProcRecord) (next : ℕ) : Type 0 where
  pub distinct : Distinct table
  pub below : All (λ r. Below next r.pid) table

-- A change of a record that keeps its pid.
abbrev pub KeepsPid : (ProcRecord → ProcRecord) → Type 0
KeepsPid f = (r : ProcRecord) → (f r).pid ≡ r.pid

-- Every predicate on pids survives a change of records that keeps them.
All-update :
    (P : ℤ → Type 0) (table : List ProcRecord) (pid : ℤ) (f : ProcRecord → ProcRecord)
    → KeepsPid f
    → All (λ r. P r.pid) table
    → All (λ r. P r.pid) (update_record table pid f)
unfolding update_record
All-update P [] pid f k a = tt
All-update P (r ∷ table) pid f k a = elim (Bool-cases (eq_ℤ r.pid pid)) [
  | inl e ↦ rw e (rw (k r) a.0, a.1)
  | inr e ↦ rw e (a.0, All-update P table pid f k a.1)
]

All-map :
    (P : ℤ → Type 0) (table : List ProcRecord) (f : ProcRecord → ProcRecord)
    → KeepsPid f
    → All (λ r. P r.pid) table
    → All (λ r. P r.pid) (map f table)
All-map P [] f k a = tt
All-map P (r ∷ table) f k a = (rw (k r) a.0, All-map P table f k a.1)

All-drop :
    (P : ℤ → Type 0) (table : List ProcRecord) (pid : ℤ)
    → All (λ r. P r.pid) table
    → All (λ r. P r.pid) (drop_pid table pid)
unfolding drop_pid
All-drop P [] pid a = tt
All-drop P (r ∷ table) pid a = elim (Bool-cases (eq_ℤ r.pid pid)) [
  | inl e ↦ rw e (All-drop P table pid a.1)
  | inr e ↦ rw e (a.0, All-drop P table pid a.1)
]

Distinct-update :
    (table : List ProcRecord) (pid : ℤ) (f : ProcRecord → ProcRecord)
    → KeepsPid f
    → Distinct table
    → Distinct (update_record table pid f)
unfolding update_record Distinct
Distinct-update [] pid f k d = tt
Distinct-update (r ∷ table) pid f k d = elim (Bool-cases (eq_ℤ r.pid pid)) [
  | inl e ↦ rw (e, k r) d
  | inr e ↦ rw e (All-update (λ x. x ≢ r.pid) table pid f k d.0, Distinct-update table pid f k d.1)
]

Distinct-map :
    (table : List ProcRecord) (f : ProcRecord → ProcRecord)
    → KeepsPid f
    → Distinct table
    → Distinct (map f table)
unfolding Distinct
Distinct-map [] f k d = tt
Distinct-map (r ∷ table) f k d =
    rw (k r) (All-map (λ x. x ≢ r.pid) table f k d.0, Distinct-map table f k d.1)

Distinct-drop : (table : List ProcRecord) (pid : ℤ) → Distinct table → Distinct (drop_pid table pid)
unfolding drop_pid Distinct
Distinct-drop [] pid d = tt
Distinct-drop (r ∷ table) pid d = elim (Bool-cases (eq_ℤ r.pid pid)) [
  | inl e ↦ rw e (Distinct-drop table pid d.1)
  | inr e ↦ rw e (All-drop (λ x. x ≢ r.pid) table pid d.0, Distinct-drop table pid d.1)
]

pub reparent-KeepsPid : (pid : ℤ) → KeepsPid (reparent pid)
unfolding reparent
reparent-KeepsPid pid r = ground arith

pub mark_exit-KeepsPid : (status : ℤ) → KeepsPid (mark_exit status)
unfolding mark_exit
mark_exit-KeepsPid status r = refl

pub raise-KeepsPid : (sig : ℤ) → KeepsPid (λ r. raise r sig)
unfolding raise
raise-KeepsPid (pos n) r = ground arith
raise-KeepsPid (negsuc n) r = refl

update-IsValid :
    (table : List ProcRecord) (next : ℕ) (pid : ℤ) (f : ProcRecord → ProcRecord)
    → KeepsPid f
    → IsValid table next
    → IsValid (update_record table pid f) next
update-IsValid table next pid f k v = record {
  distinct = Distinct-update table pid f k v.distinct;
  below = All-update (Below next) table pid f k v.below;
}

-- An exit keeps the table of processes valid: its pids stay distinct, and below the next one.
exit_table-IsValid :
    (table : List ProcRecord) (next : ℕ) (pid status : ℤ)
    → IsValid table next
    → IsValid (exit_table table pid status) next
unfolding exit_table
exit_table-IsValid table next pid status v =
    elim (Bool-cases (alive_in orphaned (parent_of table pid))) [
      | inl e ↦
          rw (e, exit_table)
            (update-IsValid orphaned next _ (λ r. raise r (pos sigchld))
              (raise-KeepsPid (pos sigchld)) valid)
      | inr e ↦
          rw (e, exit_table)
            (record {
              distinct = Distinct-drop orphaned pid valid.distinct;
              below = All-drop (Below next) orphaned pid valid.below;
            })
    ]
  where
    marked : List ProcRecord
    marked = update_record table pid (mark_exit status)

    orphaned : List ProcRecord
    orphaned = map (reparent pid) marked

    marked-IsValid : IsValid marked next
    marked-IsValid = update-IsValid table next pid (mark_exit status) (mark_exit-KeepsPid status) v

    valid : IsValid orphaned next
    valid = record {
      distinct = Distinct-map marked (reparent pid) (reparent-KeepsPid pid) marked-IsValid.distinct;
      below =
          All-map (Below next) marked (reparent pid) (reparent-KeepsPid pid) marked-IsValid.below;
    }

set_exit-IsValid :
    {F : Type 0} (sh : Shared F) (pid status : ℤ)
    → IsValid sh.table sh.next_pid
    → IsValid (set_exit sh pid status).table (set_exit sh pid status).next_pid
unfolding set_exit
set_exit-IsValid sh pid status v = exit_table-IsValid sh.table sh.next_pid pid status v

Below-suc : (next : ℕ) (p : ℤ) → Below next p → Below (next + 1) p
unfolding Below
Below-suc next (pos n) b = omega (arith, b)
Below-suc next (negsuc n) b = b

All-Below-suc :
    (table : List ProcRecord) (next : ℕ)
    → All (λ r. Below next r.pid) table
    → All (λ r. Below (next + 1) r.pid) table
All-Below-suc [] next a = tt
All-Below-suc (r ∷ table) next a = (Below-suc next r.pid a.0, All-Below-suc table next a.1)

All-snoc :
    (P : ℤ → Type 0) (table : List ProcRecord) (r : ProcRecord)
    → All (λ s. P s.pid) table
    → P r.pid
    → All (λ s. P s.pid) (table ++ (r ∷ []))
All-snoc P [] r a p = (p, tt)
All-snoc P (s ∷ table) r a p = (a.0, All-snoc P table r a.1 p)

Below-ne : (next : ℕ) (p : ℤ) → Below next p → pos next ≢ p
unfolding Below
Below-ne next (pos n) b e = ground (arith)
Below-ne next (negsuc n) b e = b

Distinct-snoc :
    (table : List ProcRecord) (r : ProcRecord) (next : ℕ)
    → Distinct table
    → All (λ s. Below next s.pid) table
    → r.pid ≡ pos next
    → Distinct (table ++ (r ∷ []))
unfolding Distinct
Distinct-snoc [] r next d b e = (tt, tt)
Distinct-snoc (s ∷ table) r next d b e = (
  All-snoc (λ x. x ≢ s.pid) table r d.0 (rw e (Below-ne next s.pid b.0)),
  Distinct-snoc table r next d.1 b.1 e,
)

snoc-IsValid :
    (table : List ProcRecord) (r : ProcRecord) (next : ℕ)
    → IsValid table next
    → r.pid ≡ pos next
    → IsValid (table ++ (r ∷ [])) (next + 1)
unfolding Below
snoc-IsValid table r next v e = record {
  distinct = Distinct-snoc table r next v.distinct v.below e;
  below =
      All-snoc (Below (next + 1)) table r (All-Below-suc table next v.below) (rw e (omega arith));
}

-- While the pids do not reach the largest `i32`, `fork_record` keeps the table of processes
-- valid: the pid of a new record is that of no other.
pub fork_record-IsValid :
    {F : Type 0} (sh : Shared F) (parent : Task)
    → sh.next_pid < 2 ^ 31 - 1
    → IsValid sh.table sh.next_pid
    → IsValid (fork_record sh parent).0.table (fork_record sh parent).0.next_pid
unfolding fork_record allocate_pid
fork_record-IsValid sh parent room v =
    elim (Bool-cases (leb sh.limits.processes (count_alive sh.table))) [
      | inl full ↦ rw full v
      | inr free ↦
          let step : min (sh.next_pid + 1) (2 ^ 31 - 1) ≡ sh.next_pid + 1 = omega (arith, room) in
          rw (free, step) (snoc-IsValid sh.table _ sh.next_pid v (refl))
    ]
