-- ===== src/Fd.antt =====
-- crates/wasmux/src/kernel/fd.rs: a process's table of descriptors.
-- A method that takes `&mut self` returns the new table, beside its result if it has one.
mod Tests
pub mod Alloc
use wasmux.Prelude.{
  ℕ, zero, suc, ◌+◌, ◌-◌, ◌^◌, min, Bool, true, false, ◌||◌, Option, none, some, List, [], ◌∷◌,
  ◌++◌, ltb, leb, if◌then◌else◌, length, get_elem?, set, replicate, is_some, join_option, ℤ, pos,
  negsuc, as_i32, Result, ok, err, ok_or, ◌>>=◌,
}
use wasmux.Errno.{Errno, VfsResult, badf, mfile}
use wasmux.Slab
use wasmux.Slab.{Key, Slab}
use wasmux.Desc.{Desc}

pub record Fd : Type 0 where
  pub desc : Key
  pub cloexec : Bool

pub record FdTable : Type 0 where
  pub slots : List (Option Fd)

unfoldable pub new : FdTable
new = record { slots = [] }

-- `self.slots.get(i).and_then(|s| *s)`
abbrev pub at : List (Option Fd) → ℕ → Option Fd
at slots i = join_option (get_elem? slots i)

unfoldable pub get : FdTable → ℤ → VfsResult Fd
get t (negsuc n) = err badf
get t (pos i) = ok_or (at t.slots i) badf

unfoldable pub set_cloexec : FdTable → ℤ → Bool → FdTable × VfsResult (Unit {0})
set_cloexec t (negsuc n) flag = (t, err badf)
set_cloexec t (pos i) flag = elim (at t.slots i) [
  | none ↦ (t, err badf)
  | some entry ↦ (record { slots = set t.slots i (some (record entry { cloexec = flag })) }, ok tt)
]

-- `Vec::resize(n, None)` of a vector that is no longer than `n`.
abbrev pub resize : List (Option Fd) → ℕ → List (Option Fd)
resize slots n = slots ++ replicate (n - length slots) none

-- `if i >= self.slots.len() { self.slots.resize(i.saturating_add(1), None) }`
abbrev pub reserve : List (Option Fd) → ℕ → List (Option Fd)
reserve slots i = if leb (length slots) i then resize slots (i + 1) else slots

-- The loop of `alloc` at index `i`, with `rounds` = `max - i` rounds left: none left is `i >= max`.
-- `i` stays below `max`, so that `saturating_add` does not saturate.
unfoldable pub alloc_from : ℕ → List (Option Fd) → Fd → ℕ → FdTable × VfsResult ℤ
alloc_from zero slots entry i = (record { slots = slots }, err mfile)
alloc_from (suc rounds) slots entry i =
    let slots' = reserve slots i in
    elim (get_elem? slots' i) [
      | none ↦ (record { slots = slots' }, err mfile)
      | some none ↦ (record { slots = set slots' i (some entry) }, ok (as_i32 i))
      | some (some other) ↦ alloc_from rounds slots' entry (i + 1)
    ]

unfoldable pub alloc : FdTable → Fd → ℕ → ℕ → FdTable × VfsResult ℤ
unfolding alloc_from
alloc t entry least max = alloc_from (max - least) t.slots entry least

unfoldable pub replace : FdTable → ℤ → Fd → ℕ → FdTable × VfsResult (Option Fd)
replace t (negsuc n) entry max = (t, err badf)
replace t (pos i) entry max =
    if leb max i
    then (t, err badf)
    else let slots = reserve t.slots i in
      elim (get_elem? slots i) [
        | none ↦ (record { slots = slots }, err badf)
        | some old ↦ (record { slots = set slots i (some entry) }, ok old)
      ]

unfoldable pub take : FdTable → ℤ → FdTable × VfsResult Fd
take t (negsuc n) = (t, err badf)
take t (pos i) = elim (get_elem? t.slots i) [
  | none ↦ (t, err badf)
  | some old ↦ (record { slots = set t.slots i none }, ok_or old badf)
]

-- The descriptors that are open, with their numbers.
unfoldable pub entries_from : ℕ → List (Option Fd) → List (ℤ × Fd)
entries_from i [] = []
entries_from i (none ∷ slots) = entries_from (i + 1) slots
entries_from i (some e ∷ slots) = (as_i32 i, e) ∷ entries_from (i + 1) slots

unfoldable pub entries : FdTable → List (ℤ × Fd)
unfolding entries_from
entries t = entries_from 0 t.slots

-- The loop of `drain_cloexec`: the slots left, and the keys released.
unfoldable pub drain_marked : List (Option Fd) → List (Option Fd) × List Key
drain_marked [] = ([], [])
drain_marked (none ∷ slots) = let (rest, keys) = drain_marked slots in (none ∷ rest, keys)
drain_marked (some e ∷ slots) =
    let (rest, keys) = drain_marked slots in
    if e.cloexec then (none ∷ rest, e.desc ∷ keys) else (some e ∷ rest, keys)

unfoldable pub drain_cloexec : FdTable → FdTable × List Key
unfolding drain_marked
drain_cloexec t = let (rest, keys) = drain_marked t.slots in (record { slots = rest }, keys)

unfoldable pub drain_slots : List (Option Fd) → List (Option Fd) × List Key
drain_slots [] = ([], [])
drain_slots (none ∷ slots) = let (rest, keys) = drain_slots slots in (none ∷ rest, keys)
drain_slots (some e ∷ slots) = let (rest, keys) = drain_slots slots in (none ∷ rest, e.desc ∷ keys)

unfoldable pub drain_all : FdTable → FdTable × List Key
unfolding drain_slots
drain_all t = let (rest, keys) = drain_slots t.slots in (record { slots = rest }, keys)

-- `u32::saturating_add(1)`
abbrev pub bump : ℕ → ℕ
bump refs = min (refs + 1) (2 ^ 32 - 1)

-- `if let Some(desc) = descs.get_mut(key) { desc.refs = desc.refs.saturating_add(1) }`
unfoldable pub retain : {F : Type 0} → Slab (Desc F) → Key → Slab (Desc F)
retain descs key = elim (Slab.get descs key) [
  | none ↦ descs
  | some d ↦ Slab.put descs key (record d { refs = bump d.refs })
]

unfoldable pub retain_all : {F : Type 0} → Slab (Desc F) → List (ℤ × Fd) → Slab (Desc F)
unfolding retain
retain_all descs [] = descs
retain_all descs ((n, e) ∷ rest) = retain_all (retain descs e.desc) rest

unfoldable pub duplicate : {F : Type 0} → FdTable → Slab (Desc F) → Slab (Desc F) × FdTable
unfolding entries retain_all
duplicate t descs = (retain_all descs (entries t), record { slots = t.slots })

unfoldable pub count_open : List (Option Fd) → ℕ
count_open [] = 0
count_open (o ∷ slots) = (if is_some o then 1 else 0) + count_open slots

unfoldable pub count : FdTable → ℕ
unfolding count_open
count t = count_open t.slots
