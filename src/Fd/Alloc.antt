-- ===== src/Fd/Alloc.antt =====
-- `FdTable::alloc` of kernel/fd.rs takes the lowest free descriptor, and only that one changes.
use wasmux.Prelude.{
  ℕ, zero, suc, ◌+◌, ◌-◌, ◌≤◌, ◌<◌, ◌≡◌, refl, ap, sym, ◌∙◌, ◌⊎◌, inl, inr, Option, none, some,
  List, [], ◌∷◌, ◌++◌, true, arith, length, get_elem?, set, length-append, length-replicate,
  get_elem?-set, ◌==◌, if◌then◌else◌, is_some, ℤ, Option-cases, replicate, as_i32, ok, err,
}
use native.Mathlib.Decide.{dec_lt}
use wasmux.Errno.{VfsResult, mfile}
use wasmux.Fd.{Fd, FdTable, at, reserve, alloc_from, alloc}

at-replicate : (n j : ℕ) → at (replicate n none) j ≡ none
at-replicate zero j = refl
at-replicate (suc n) zero = refl
at-replicate (suc n) (suc j) = at-replicate n j

at-append : (xs : List (Option Fd)) (n j : ℕ) → at (xs ++ replicate n none) j ≡ at xs j
at-append [] n j = at-replicate n j
at-append (x ∷ xs) n zero = refl
at-append (x ∷ xs) n (suc j) = at-append xs n j

-- Growing the vector opens nothing.
pub at-reserve : (slots : List (Option Fd)) (i j : ℕ) → at (reserve slots i) j ≡ at slots j
at-reserve slots i j = ground (arith, at-append slots (i + 1 - length slots) j)

pub length-reserve : (slots : List (Option Fd)) (i : ℕ) → i < length (reserve slots i)
length-reserve slots i = ground (
  arith,
  length-append slots (replicate (i + 1 - length slots) none),
  length-replicate {A = Option Fd} (i + 1 - length slots) none,
)

pub at-set :
    (slots : List (Option Fd)) (i j : ℕ) (o : Option Fd)
    → i < length slots
    → at (set slots i o) j ≡ (if j == i then o else at slots j)
at-set slots i j o h = ground (arith, get_elem?-set slots i j o h)

get_elem?-some :
    (slots : List (Option Fd)) (i : ℕ) → i < length slots → get_elem? slots i ≡ some (at slots i)
get_elem?-some [] i h = elim h [ ]
get_elem?-some (x ∷ slots) zero h = refl
get_elem?-some (x ∷ slots) (suc i) h = get_elem?-some slots i (omega arith)

-- Every descriptor from `lo` up to `hi` is open.
abbrev pub Full : List (Option Fd) → ℕ → ℕ → Type 0
Full slots lo hi = (j : ℕ) → lo ≤ j → j < hi → is_some (at slots j) ≡ true

-- What `alloc` promises: it takes the lowest free number in the range and changes nothing else,
-- or the range is full and no descriptor changed.
abbrev pub Allocates : List (Option Fd) → Fd → ℕ → ℕ → FdTable × VfsResult ℤ → Type 0
Allocates slots entry least max out =
    ((out.1 ≡ err mfile) × Full slots least max × ((j : ℕ) → at out.0.slots j ≡ at slots j))
    ⊎ ((i : ℕ) × (out.1 ≡ ok (as_i32 i))
        × (least ≤ i)
        × (i < max)
        × (at slots i ≡ none)
        × Full slots least i
        × ((j : ℕ) → at out.0.slots j ≡ (if j == i then some entry else at slots j)))

Full-suc :
    (slots slots' : List (Option Fd)) (i hi : ℕ) {other : Fd}
    → at slots i ≡ some other
    → ((j : ℕ) → at slots' j ≡ at slots j)
    → Full slots' (i + 1) hi
    → Full slots i hi
Full-suc slots slots' i hi e same full j lo below = elim (dec_lt i j) [
  | yes p ↦ let h : is_some (at slots' j) ≡ true = full j (omega arith) below in rw same at h
  | no p ↦ let e' : j ≡ i = omega arith in rw (e', e)
]

-- A step past an open descriptor.
Allocates-suc :
    (slots slots' : List (Option Fd)) (entry : Fd) (i max : ℕ) (other : Fd)
    → at slots i ≡ some other
    → ((j : ℕ) → at slots' j ≡ at slots j)
    → (out : FdTable × VfsResult ℤ) → Allocates slots' entry (i + 1) max out
    → Allocates slots entry i max out
Allocates-suc slots slots' entry i max other e same out (inl (r, full, rest)) =
    inl (r, Full-suc slots slots' i max e same full, λ j. rest j ∙ same j)
Allocates-suc slots slots' entry i max other e same out (inr (k, r, lo, hi, free, full, rest)) =
    inr (
      k,
      r,
      omega arith,
      hi,
      sym (same k) ∙ free,
      Full-suc slots slots' i k e same full,
      λ j. ground (arith, rest j, same j),
    )

alloc_from-Allocates :
    (rounds : ℕ) (slots : List (Option Fd)) (entry : Fd) (i max : ℕ)
    → rounds ≡ max - i
    → Allocates slots entry i max (alloc_from rounds slots entry i)
unfolding alloc_from
alloc_from-Allocates zero slots entry i max e =
    inl (refl, λ j lo hi. absurd (omega arith), λ j. refl)
alloc_from-Allocates (suc rounds) slots entry i max e =
    let slots' : List (Option Fd) = reserve slots i in
    let within : i < length slots' = length-reserve slots i in
    elim (Option-cases (at slots i)) [
      | inl free ↦
          rw (get_elem?-some slots' i within ∙ ap some (at-reserve slots i i ∙ free), alloc_from)
            (inr (
              i,
              refl,
              omega arith,
              omega arith,
              free,
              λ j lo hi. absurd (omega arith),
              λ j. ground (arith, at-set slots' i j (some entry) within, at-reserve slots i j),
            ))
      | inr (other, open_) ↦
          rw (get_elem?-some slots' i within ∙ ap some (at-reserve slots i i ∙ open_), alloc_from)
            (Allocates-suc slots slots' entry i max other open_ (at-reserve slots i) _
              (alloc_from-Allocates rounds slots' entry (i + 1) max (omega arith)))
    ]

-- `FdTable::alloc` takes the lowest free number in `least .. max` and puts the entry there, with
-- every other descriptor as before; or it fails with EMFILE, the whole range is open and no
-- descriptor changed.
pub alloc_lem :
    (t : FdTable) (entry : Fd) (least max : ℕ)
    → Allocates t.slots entry least max (alloc t entry least max)
unfolding alloc
alloc_lem t entry least max = alloc_from-Allocates (max - least) t.slots entry least max refl
