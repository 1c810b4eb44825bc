-- ===== src/Process/Exit.antt =====
-- What an exit leaves behind (kernel/mod.rs `set_exit`): the zombie, the orphans and the signal.
use Prim.Native.Nat.{bit_or}
use wasmux.Prelude.{
  ℕ, ◌^◌, ◌==◌, if◌then◌else◌, ◌⊎◌, nth, nth-bit_or, nth-pow, nth-lt, ◌≡◌, refl, ap, sym, ◌∙◌, ◌≢◌,
  inl, inr, Bool, true, false, arith, Option, none, some, List, [], ◌∷◌, ℤ, pos, negsuc, eq_ℤ,
  eq_ℤ_iff, eq_ℤ-ne, map, All, Bool-cases, Option-cases,
}
use wasmux.Shared.{ProcRecord}
use wasmux.Task.{bit, raise, is_alive, sigchld}
use wasmux.Process.{
  find_record, update_record, drop_pid, reparent, mark_exit, parent_of, alive_in, exit_table,
}
use wasmux.Process.Table.{KeepsPid, reparent-KeepsPid, mark_exit-KeepsPid, raise-KeepsPid}

abbrev pub map_option : (ProcRecord → ProcRecord) → Option ProcRecord → Option ProcRecord
map_option f none = none
map_option f (some r) = some (f r)

find-update_self :
    (table : List ProcRecord) (pid : ℤ) (f : ProcRecord → ProcRecord)
    → KeepsPid f
    → find_record (update_record table pid f) pid ≡ map_option f (find_record table pid)
unfolding find_record update_record
find-update_self [] pid f k = refl
find-update_self (r ∷ table) pid f k = elim (Bool-cases (eq_ℤ r.pid pid)) [
  | inl e ↦ rw (e, find_record, k r, e) refl
  | inr e ↦ rw (e, find_record, e) (find-update_self table pid f k)
]

find-update_other :
    (table : List ProcRecord) (pid q : ℤ) (f : ProcRecord → ProcRecord)
    → KeepsPid f
    → q ≢ pid
    → find_record (update_record table pid f) q ≡ find_record table q
unfolding find_record update_record
find-update_other [] pid q f k n = refl
find-update_other (r ∷ table) pid q f k n = elim (Bool-cases (eq_ℤ r.pid pid)) [
  | inl e ↦
      let o : eq_ℤ r.pid q ≡ false = ground (arith, eq_ℤ_iff r.pid pid, eq_ℤ_iff r.pid q) in
      rw (e, find_record, k r, o) refl
  | inr e ↦ rw (e, find_record, find-update_other table pid q f k n)
]

find-map :
    (table : List ProcRecord) (q : ℤ) (f : ProcRecord → ProcRecord)
    → KeepsPid f
    → find_record (map f table) q ≡ map_option f (find_record table q)
unfolding find_record
find-map [] q f k = refl
find-map (r ∷ table) q f k = elim (Bool-cases (eq_ℤ r.pid q)) [
  | inl e ↦ let t : eq_ℤ (f r).pid q ≡ true = rw (k r) e in rw (find_record, t, e) refl
  | inr e ↦
      let t : eq_ℤ (f r).pid q ≡ false = rw (k r) e in rw (find_record, t, e) (find-map table q f k)
]

find-drop : (table : List ProcRecord) (pid : ℤ) → find_record (drop_pid table pid) pid ≡ none
unfolding find_record drop_pid
find-drop [] pid = refl
find-drop (r ∷ table) pid = elim (Bool-cases (eq_ℤ r.pid pid)) [
  | inl e ↦ rw (e) (find-drop table pid)
  | inr e ↦ rw (e, find_record, e) (find-drop table pid)
]

-- No record names `pid` as its parent.
abbrev pub NoChild : ℤ → List ProcRecord → Type 0
NoChild pid table = All (λ r. r.ppid ≢ pid) table

map-NoChild :
    (pid : ℤ) (table : List ProcRecord) → pid ≢ pos 1 → NoChild pid (map (reparent pid) table)
unfolding reparent
map-NoChild pid [] n = tt
map-NoChild pid (r ∷ table) n = (ground (arith, eq_ℤ_iff r.ppid pid, n), map-NoChild pid table n)

update-NoChild :
    (pid q : ℤ) (table : List ProcRecord) (f : ProcRecord → ProcRecord)
    → ((r : ProcRecord) → (f r).ppid ≡ r.ppid)
    → NoChild pid table
    → NoChild pid (update_record table q f)
unfolding update_record
update-NoChild pid q [] f k a = tt
update-NoChild pid q (r ∷ table) f k a = elim (Bool-cases (eq_ℤ r.pid q)) [
  | inl e ↦ rw e (rw (k r) a.0, a.1)
  | inr e ↦ rw e (a.0, update-NoChild pid q table f k a.1)
]

drop-NoChild :
    (pid q : ℤ) (table : List ProcRecord) → NoChild pid table → NoChild pid (drop_pid table q)
unfolding drop_pid
drop-NoChild pid q [] a = tt
drop-NoChild pid q (r ∷ table) a = elim (Bool-cases (eq_ℤ r.pid q)) [
  | inl e ↦ rw e (drop-NoChild pid q table a.1)
  | inr e ↦ rw e (a.0, drop-NoChild pid q table a.1)
]

raise_ppid : (sig : ℤ) (r : ProcRecord) → (raise r sig).ppid ≡ r.ppid
unfolding raise
raise_ppid (pos n) r = ground arith
raise_ppid (negsuc n) r = refl

-- After a process other than 1 has exited, no record names it as its parent: its children have
-- become those of process 1.
pub exit-NoChild :
    (table : List ProcRecord) (pid status : ℤ)
    → pid ≢ pos 1
    → NoChild pid (exit_table table pid status)
unfolding exit_table
exit-NoChild table pid status n = elim (Bool-cases (alive_in orphaned (parent_of table pid))) [
  | inl e ↦
      rw (e, exit_table)
        (update-NoChild pid _ orphaned (λ r. raise r (pos sigchld)) (raise_ppid (pos sigchld))
          none_)
  | inr e ↦ rw (e, exit_table) (drop-NoChild pid pid orphaned none_)
]
  where
    orphaned : List ProcRecord
    orphaned = map (reparent pid) (update_record table pid (mark_exit status))

    none_ : NoChild pid orphaned
    none_ = map-NoChild pid (update_record table pid (mark_exit status)) n

orphaned_find :
    (table : List ProcRecord) (pid status q : ℤ)
    → q ≢ pid
    → find_record (map (reparent pid) (update_record table pid (mark_exit status))) q
      ≡ map_option (reparent pid) (find_record table q)
orphaned_find table pid status q n =
    find-map (update_record table pid (mark_exit status)) q (reparent pid) (reparent-KeepsPid pid)
    ∙ ap (map_option (reparent pid))
        (find-update_other table pid q (mark_exit status) (mark_exit-KeepsPid status) n)

reparent_other :
    (pid status : ℤ) (r : ProcRecord)
    → r.ppid ≢ pid
    → reparent pid (mark_exit status r) ≡ mark_exit status r
unfolding reparent mark_exit
reparent_other pid status r n = let o = eq_ℤ-ne r.ppid pid n in rw o

orphaned_self :
    (table : List ProcRecord) (pid status : ℤ) {r : ProcRecord}
    → find_record table pid ≡ some r
    → r.ppid ≢ pid
    → find_record (map (reparent pid) (update_record table pid (mark_exit status))) pid
      ≡ some (mark_exit status r)
orphaned_self table pid status {r} e n =
    find-map (update_record table pid (mark_exit status)) pid (reparent pid) (reparent-KeepsPid pid)
    ∙ ap (map_option (reparent pid)) (
        find-update_self table pid (mark_exit status) (mark_exit-KeepsPid status)
        ∙ ap (map_option (mark_exit status)) e)
    ∙ ap some (reparent_other pid status r n)

alive_of : Option ProcRecord → Bool
alive_of none = false
alive_of (some r) = is_alive r

alive_in_lem : (table : List ProcRecord) (q : ℤ) → alive_in table q ≡ alive_of (find_record table q)
unfolding alive_in alive_of
alive_in_lem table q = elim (Option-cases (find_record table q)) [
  | inl e ↦ rw (e, alive_in) refl
  | inr (r, e) ↦ rw (e, alive_in) refl
]

alive_of-reparent :
    (pid : ℤ) (o : Option ProcRecord) → alive_of (map_option (reparent pid) o) ≡ alive_of o
unfolding alive_of is_alive reparent
alive_of-reparent pid none = refl
alive_of-reparent pid (some r) = ground arith

alive_orphaned :
    (table : List ProcRecord) (pid status q : ℤ)
    → q ≢ pid
    → alive_in (map (reparent pid) (update_record table pid (mark_exit status))) q
      ≡ alive_in table q
alive_orphaned table pid status q n =
    alive_in_lem (map (reparent pid) (update_record table pid (mark_exit status))) q
    ∙ ap alive_of (orphaned_find table pid status q n)
    ∙ alive_of-reparent pid (find_record table q)
    ∙ sym (alive_in_lem table q)

parent_of_lem :
    (table : List ProcRecord) (pid : ℤ) {r : ProcRecord}
    → find_record table pid ≡ some r
    → parent_of table pid ≡ r.ppid
unfolding parent_of
parent_of_lem table pid e = rw (parent_of, e) refl

-- A record after its process has exited: the status is that of its first exit, the timer is gone,
-- and it keeps its number and its parent.
pub record IsZombie (r : ProcRecord) (status : ℤ) (z : ProcRecord) : Type 0 where
  pub exit :
      ((r.exit ≡ none) × (z.exit ≡ some status))
      ⊎ ((first : ℤ) × (r.exit ≡ some first) × (z.exit ≡ some first))
  pub timer : z.wake_at ≡ none
  pub pid : z.pid ≡ r.pid
  pub parent : z.ppid ≡ r.ppid

mark_exit-IsZombie : (r : ProcRecord) (status : ℤ) → IsZombie r status (mark_exit status r)
unfolding mark_exit
mark_exit-IsZombie r status = record {
  exit = elim (Option-cases r.exit) [
    | inl e ↦ inl (e, rw (mark_exit, e) refl)
    | inr (first, e) ↦ inr (first, e, rw (mark_exit, e) refl)
  ];
  timer = refl;
  pid = refl;
  parent = refl;
}

-- A record whose process has SIGCHLD pending, the other signals as before.
pub record HasSigchld (p q : ProcRecord) : Type 0 where
  pub pending : (i : ℕ) → nth q.pending i ≡ (if i == sigchld then 1 else nth p.pending i)
  pub alive : q.exit ≡ p.exit
  pub pid : q.pid ≡ p.pid

raise-HasSigchld : (pid : ℤ) (p : ProcRecord) → HasSigchld p (raise (reparent pid p) (pos sigchld))
unfolding raise reparent bit
raise-HasSigchld pid p = record {
  pending = λ i. elim (Bool-cases (eq_ℤ p.ppid pid)) [
    | inl e ↦ rw (reparent, e) (raised p.pending i)
    | inr e ↦ rw (reparent, e) (raised p.pending i)
  ];
  alive = ground arith;
  pid = ground arith;
}
  where
    raised : (v i : ℕ) → nth (bit_or v (2 ^ sigchld)) i ≡ (if i == sigchld then 1 else nth v i)
    raised v i = ground (arith, nth-bit_or v (2 ^ sigchld) i, nth-pow sigchld i, nth-lt v i)

-- A process exits whose parent, another process, is alive. It stays in the table as a zombie, with
-- the status of its first exit, without a timer, and with its number and parent as before. The
-- parent has SIGCHLD pending besides the signals that it had, and is still alive.
pub exit-IsZombie :
    (table : List ProcRecord) (pid status : ℤ) {r p : ProcRecord}
    → find_record table pid ≡ some r
    → r.ppid ≢ pid
    → find_record table r.ppid ≡ some p
    → is_alive p ≡ true
    → (z : ProcRecord) × (q : ProcRecord) × (find_record (exit_table table pid status) pid ≡ some z)
      × (find_record (exit_table table pid status) r.ppid ≡ some q)
      × IsZombie r status z
      × HasSigchld p q
unfolding exit_table alive_of
exit-IsZombie table pid status {r} {p} e n f alive =
    let t : alive_in table r.ppid ≡ true = alive_in_lem table r.ppid ∙ ap alive_of f ∙ alive in
    let a : alive_in orphaned r.ppid ≡ true = alive_orphaned table pid status r.ppid n ∙ t in
    (
      mark_exit status r,
      raise (reparent pid p) (pos sigchld),
      rw (parent_of_lem table pid e, a)
          (find-update_other orphaned r.ppid pid (λ x. raise x (pos sigchld))
              (raise-KeepsPid (pos sigchld)) (λ q. n (sym q))
            ∙ orphaned_self table pid status e n),
      rw (parent_of_lem table pid e, a)
          (find-update_self orphaned r.ppid (λ x. raise x (pos sigchld))
              (raise-KeepsPid (pos sigchld))
            ∙ ap (map_option (λ x. raise x (pos sigchld)))
                (orphaned_find table pid status r.ppid n ∙ ap (map_option (reparent pid)) f)),
      mark_exit-IsZombie r status,
      raise-HasSigchld pid p,
    )
  where
    orphaned : List ProcRecord
    orphaned = map (reparent pid) (update_record table pid (mark_exit status))

-- A process whose parent, not itself, has exited or is not in the table leaves the table when it
-- exits: nobody would wait for it.
pub exit-gone :
    (table : List ProcRecord) (pid status : ℤ) {r : ProcRecord}
    → find_record table pid ≡ some r
    → r.ppid ≢ pid
    → alive_in table r.ppid ≡ false
    → find_record (exit_table table pid status) pid ≡ none
unfolding exit_table
exit-gone table pid status {r} e n dead =
    rw (parent_of_lem table pid e, alive_orphaned table pid status r.ppid n ∙ dead)
      (find-drop (map (reparent pid) (update_record table pid (mark_exit status))) pid)
