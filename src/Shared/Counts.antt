-- ===== src/Shared/Counts.antt =====
-- What each operation of `FdTable` (kernel/fd.rs) does to the number of descriptors that point at a
-- description.
use wasmux.Prelude.{
  ℕ, zero, suc, ◌+◌, ◌-◌, ◌<◌, ◌≡◌, refl, inl, inr, Option, none, some, List, [], ◌∷◌, ◌++◌, arith,
  ◌==◌, if◌then◌else◌, Option-cases, length, get_elem?, set, replicate, ℤ, pos, ok, err,
}
use wasmux.Errno.{Errno, VfsResult}
use wasmux.Slab.{Key}
use wasmux.Fd
use wasmux.Fd.{
  Fd, FdTable, at, reserve, alloc_from, entries_from, drain_marked, drain_slots, retain, retain_all,
}
use wasmux.Shared.Refs.{occurs, times}

-- The weight of one slot.
abbrev pub points : Key → Option Fd → ℕ
points key none = 0
points key (some e) = if key == e.desc then 1 else 0

occurs-replicate : (key : Key) (n : ℕ) → occurs key (replicate n none) ≡ 0
occurs-replicate key zero = refl
occurs-replicate key (suc n) = occurs-replicate key n

occurs-append :
    (key : Key) (xs ys : List (Option Fd)) → occurs key (xs ++ ys) ≡ occurs key xs + occurs key ys
occurs-append key [] ys = omega arith
occurs-append key (none ∷ xs) ys = occurs-append key xs ys
occurs-append key (some e ∷ xs) ys = omega (arith, occurs-append key xs ys)

occurs-reserve :
    (key : Key) (slots : List (Option Fd)) (i : ℕ) → occurs key (reserve slots i) ≡ occurs key slots
occurs-reserve key slots i = ground (
  arith,
  occurs-append key slots (replicate (i + 1 - length slots) none),
  occurs-replicate key (i + 1 - length slots),
)

occurs-set :
    (key : Key) (slots : List (Option Fd)) (i : ℕ) (old o : Option Fd)
    → get_elem? slots i ≡ some old
    → occurs key (set slots i o) + points key old ≡ occurs key slots + points key o
occurs-set key [] i old o e = cc
occurs-set key (x ∷ slots) zero old o e = ground arith
occurs-set key (none ∷ slots) (suc i) old o e = occurs-set key slots i old o e
occurs-set key (some f ∷ slots) (suc i) old o e = omega (arith, occurs-set key slots i old o e)

-- A successful `alloc` adds one occurrence; a failed one adds none.
abbrev added : Key → Fd → FdTable × VfsResult ℤ → ℕ
added key e (t, ok i) = points key (some e)
added key e (t, err x) = 0

pub occurs-alloc_from :
    (key : Key) (rounds : ℕ) (slots : List (Option Fd)) (entry : Fd) (i : ℕ)
    → occurs key (alloc_from rounds slots entry i).0.slots
      ≡ occurs key slots + added key entry (alloc_from rounds slots entry i)
unfolding alloc_from
occurs-alloc_from key zero slots entry i = omega arith
occurs-alloc_from key (suc rounds) slots entry i =
    let slots' : List (Option Fd) = reserve slots i in
    elim (Option-cases (get_elem? slots' i)) [
      | inl e ↦ rw (e, alloc_from) (omega (arith, occurs-reserve key slots i))
      | inr (none, e) ↦
          rw (e, alloc_from)
            (omega (arith, occurs-reserve key slots i, occurs-set key slots' i none (some entry) e))
      | inr (some f, e) ↦
          rw (e, alloc_from)
            (omega (
              arith,
              occurs-reserve key slots i,
              occurs-alloc_from key rounds slots' entry (i + 1),
            ))
    ]

pub occurs-drain_slots :
    (key : Key) (slots : List (Option Fd))
    → (occurs key slots ≡ times key (drain_slots slots).1) × (occurs key (drain_slots slots).0 ≡ 0)
unfolding drain_slots
occurs-drain_slots key [] = (refl, refl)
occurs-drain_slots key (none ∷ slots) = occurs-drain_slots key slots
occurs-drain_slots key (some e ∷ slots) =
    let h = occurs-drain_slots key slots in (omega (arith, h.0), h.1)

pub occurs-drain_marked :
    (key : Key) (slots : List (Option Fd))
    → occurs key slots ≡ occurs key (drain_marked slots).0 + times key (drain_marked slots).1
unfolding drain_marked
occurs-drain_marked key [] = omega arith
occurs-drain_marked key (none ∷ slots) = occurs-drain_marked key slots
occurs-drain_marked key (some e ∷ slots) = ground (arith, occurs-drain_marked key slots)

pub occurs-take :
    (t : FdTable) (i : ℕ) (entry : Fd) (key : Key)
    → (Fd.take t (pos i)).1 ≡ ok entry
    → occurs key (Fd.take t (pos i)).0.slots + points key (some entry) ≡ occurs key t.slots
unfolding Fd.take
occurs-take t i entry key e = elim (Option-cases (get_elem? t.slots i)) [
  | inl h ↦ ground arith
  | inr (none, h) ↦ ground arith
  | inr (some f, h) ↦ ground (arith, occurs-set key t.slots i (some f) none h)
]

pub occurs-replace :
    (t : FdTable) (i : ℕ) (entry : Fd) (max : ℕ) (old : Option Fd) (key : Key)
    → (Fd.replace t (pos i) entry max).1 ≡ ok old
    → occurs key (Fd.replace t (pos i) entry max).0.slots + points key old
      ≡ occurs key t.slots + points key (some entry)
unfolding Fd.replace
occurs-replace t i entry max old key e = elim (Option-cases (get_elem? (reserve t.slots i) i)) [
  | inl h ↦ ground arith
  | inr (f, h) ↦
      ground
        (arith, occurs-reserve key t.slots i, occurs-set key (reserve t.slots i) i f (some entry) h)
]

pub occurs-take_err :
    (t : FdTable) (i : ℕ) (x : Errno) (key : Key)
    → (Fd.take t (pos i)).1 ≡ err x
    → occurs key (Fd.take t (pos i)).0.slots ≡ occurs key t.slots
unfolding Fd.take
occurs-take_err t i x key e = elim (Option-cases (get_elem? t.slots i)) [
  | inl h ↦ ground arith
  | inr (none, h) ↦ ground (arith, occurs-set key t.slots i none none h)
  | inr (some f, h) ↦ ground arith
]

pub occurs-replace_err :
    (t : FdTable) (i : ℕ) (entry : Fd) (max : ℕ) (x : Errno) (key : Key)
    → (Fd.replace t (pos i) entry max).1 ≡ err x
    → occurs key (Fd.replace t (pos i) entry max).0.slots ≡ occurs key t.slots
unfolding Fd.replace
occurs-replace_err t i entry max x key e = ground (arith, occurs-reserve key t.slots i)

-- An open descriptor occurs.
pub occurs_of_at :
    (slots : List (Option Fd)) (i : ℕ) {entry : Fd}
    → at slots i ≡ some entry
    → 0 < occurs entry.desc slots
occurs_of_at [] i e = cc
occurs_of_at (x ∷ slots) zero e = ground arith
occurs_of_at (none ∷ slots) (suc i) e = occurs_of_at slots i e
occurs_of_at (some f ∷ slots) (suc i) {entry} e =
    omega (arith, occurs_of_at slots i {entry = entry} e)

abbrev pub keys_of : List (ℤ × Fd) → List Key
keys_of [] = []
keys_of ((n, e) ∷ rest) = e.desc ∷ keys_of rest

pub times-entries :
    (key : Key) (i : ℕ) (slots : List (Option Fd))
    → times key (keys_of (entries_from i slots)) ≡ occurs key slots
unfolding entries_from
times-entries key i [] = refl
times-entries key i (none ∷ slots) = times-entries key (i + 1) slots
times-entries key i (some e ∷ slots) = omega (arith, times-entries key (i + 1) slots)

pub times-append :
    (key : Key) (xs ys : List Key) → times key (xs ++ ys) ≡ times key xs + times key ys
times-append key [] ys = omega arith
times-append key (x ∷ xs) ys = omega (arith, times-append key xs ys)
