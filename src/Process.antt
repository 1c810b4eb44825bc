-- ===== src/Process.antt =====
-- crates/wasmux/src/kernel/mod.rs: the table of processes.
mod Tests
pub mod Table
pub mod Exit
use wasmux.Prelude.{
  ℕ, zero, suc, ◌-◌, min, ◌+◌, ◌^◌, Bool, true, false, ◌&&◌, not, Option, none, some, List, [], ◌∷◌,
  ◌++◌, ◌==◌, ltb, leb, if◌then◌else◌, ℤ, pos, negsuc, eq_ℤ, map, length,
}
use wasmux.Desc.{Bytes}
use wasmux.Shared.{Shared, ProcRecord}
use wasmux.Task.{Task, raise, is_alive, new_record, sigchld}

-- `record`: the first with the pid.
unfoldable pub find_record : List ProcRecord → ℤ → Option ProcRecord
find_record [] pid = none
find_record (r ∷ table) pid = if eq_ℤ r.pid pid then some r else find_record table pid

-- A change through `record_mut`.
unfoldable pub update_record : List ProcRecord → ℤ → (ProcRecord → ProcRecord) → List ProcRecord
update_record [] pid f = []
update_record (r ∷ table) pid f =
    let rest = update_record table pid f in if eq_ℤ r.pid pid then f r ∷ table else r ∷ rest

-- `filter(|r| r.is_alive()).count()`
unfoldable pub count_alive : List ProcRecord → ℕ
unfolding is_alive
count_alive [] = 0
count_alive (r ∷ table) = (if is_alive r then 1 else 0) + count_alive table

-- `retain(|r| r.pid != pid)`
unfoldable pub drop_pid : List ProcRecord → ℤ → List ProcRecord
drop_pid [] pid = []
drop_pid (r ∷ table) pid =
    let rest = drop_pid table pid in if eq_ℤ r.pid pid then rest else r ∷ rest

-- Orphans go to the process 1.
unfoldable pub reparent : ℤ → ProcRecord → ProcRecord
reparent pid r = if eq_ℤ r.ppid pid then record r { ppid = pos 1 } else r

-- The first exit status stays.
unfoldable pub mark_exit : ℤ → ProcRecord → ProcRecord
mark_exit status r = record r {
  exit = elim r.exit [ none ↦ some status | some first ↦ some first ];
  wake_at = none;
}

-- The parent that a record names; 0 if there is no record.
unfoldable pub parent_of : List ProcRecord → ℤ → ℤ
unfolding find_record
parent_of table pid = elim (find_record table pid) [ none ↦ pos 0 | some r ↦ r.ppid ]

unfoldable pub alive_in : List ProcRecord → ℤ → Bool
unfolding find_record is_alive
alive_in table pid = elim (find_record table pid) [ none ↦ false | some r ↦ is_alive r ]

-- The table that `set_exit` leaves.
unfoldable pub exit_table : List ProcRecord → ℤ → ℤ → List ProcRecord
unfolding update_record reparent mark_exit parent_of alive_in drop_pid raise
exit_table table pid status =
    let parent = parent_of table pid in
    let orphaned = map (reparent pid) (update_record table pid (mark_exit status)) in
    if alive_in orphaned parent
    then update_record orphaned parent (λ r. raise r (pos sigchld))
    else drop_pid orphaned pid

module _ {F : Type 0} where
  unfoldable pub set_exit : Shared F → ℤ → ℤ → Shared F
  unfolding exit_table
  set_exit sh pid status = record sh { table = exit_table sh.table pid status }

  -- `i32::saturating_add`
  unfoldable pub allocate_pid : Shared F → Shared F × ℤ
  allocate_pid sh = (record sh { next_pid = min (sh.next_pid + 1) (2 ^ 31 - 1) }, pos sh.next_pid)

  -- Parent, group and session of a child.
  family : Shared F → Task → ℤ × (ℤ × ℤ)
  unfolding find_record
  family sh parent = elim (find_record sh.table parent.pid) [
    | none ↦ (parent.pid, (parent.pid, parent.pid))
    | some r ↦ (r.pid, (r.pgid, r.sid))
  ]

  unfoldable pub fork_record : Shared F → Task → Shared F × Option ℤ
  unfolding count_alive allocate_pid family new_record
  fork_record sh parent =
      if leb sh.limits.processes (count_alive sh.table)
      then (sh, none)
      else let (sh', pid) = allocate_pid sh in
        let (ppid, (pgid, sid)) = family sh' parent in
        (
          record sh' { table = sh'.table ++ (new_record pid ppid pgid sid parent.comm ∷ []) },
          some pid,
        )
