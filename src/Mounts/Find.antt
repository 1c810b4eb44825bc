-- ===== src/Mounts/Find.antt =====
-- `Mounts::find` of kernel/path.rs: which mount owns a path, and what path the mount is asked for.
use wasmux.Prelude.{
  ℕ, zero, suc, ◌+◌, ◌≤◌, ◌≡◌, refl, sym, ◌∙◌, ◌≢◌, ◌⊎◌, inl, inr, true, none, some, List, [], ◌∷◌,
  ◌++◌, arith, ◌==◌, if◌then◌else◌, All, All-at, Bool-cases, Option-cases, length, get_elem?, ltb,
}
use wasmux.Desc.{Bytes}
use wasmux.Path.{slash, same, is_empty, is_absolute, join_parts, join}
use wasmux.Path.Normal.{IsName}
use wasmux.Mounts.{Mount, strip_prefix, insert, new, root, below, find_from, find}

-- A path as the `Vfs` contract promises it: absolute, with no `.`, no `..`, no empty component and
-- no trailing slash.
abbrev pub IsClean : Bytes → Type 0
IsClean path = (parts : List Bytes) × All IsName parts × (path ≡ join parts)

strip_prefix_lem : (p s : Bytes) {rest : Bytes} → strip_prefix p s ≡ some rest → s ≡ p ++ rest
unfolding strip_prefix
strip_prefix_lem [] s e = cc
strip_prefix_lem (x ∷ p) [] e = cc
strip_prefix_lem (x ∷ p) (c ∷ s) {rest} e = ground (arith, strip_prefix_lem p s {rest = rest})

-- What follows a slash inside a joined path is a joined path.
suffix-join_parts :
    (s rest p : Bytes) (ps : List Bytes)
    → All (λ x. x ≢ slash) p
    → All IsName ps
    → s ++ rest ≡ p ++ join_parts ps
    → is_absolute rest ≡ true
    → (qs : List Bytes) × All IsName qs × (rest ≡ join_parts qs)
unfolding join_parts is_absolute
suffix-join_parts [] rest [] ps h n e ab = (ps, n, e)
suffix-join_parts [] rest (x ∷ p) ps h n e ab =
    let t : (x == slash) ≡ true = rw e at ab in absurd (ground (arith, h.0))
suffix-join_parts (c ∷ s) rest [] [] h n e ab = absurd (cc)
suffix-join_parts (c ∷ s) rest [] (q ∷ ps) h n e ab =
    suffix-join_parts s rest q ps (n.0.one_part) n.1 (cc) ab
suffix-join_parts (c ∷ s) rest (x ∷ p) ps h n e ab = suffix-join_parts s rest p ps h.1 n (cc) ab

join-join_parts : (qs : List Bytes) → is_absolute (join_parts qs) ≡ true → join_parts qs ≡ join qs
unfolding join_parts join is_absolute
join-join_parts [] ab = cc
join-join_parts (q ∷ qs) ab = refl

suffix-IsClean :
    (s rest : Bytes) (ps : List Bytes)
    → All IsName ps
    → join ps ≡ s ++ rest
    → is_absolute rest ≡ true
    → IsClean rest
unfolding join is_absolute
suffix-IsClean [] rest [] n e ab = ([], tt, sym e)
suffix-IsClean (c ∷ []) [] [] n e ab = absurd (cc)
suffix-IsClean (c ∷ []) (r ∷ rest) [] n e ab = absurd (cc)
suffix-IsClean (c ∷ d ∷ s) rest [] n e ab = absurd (cc)
suffix-IsClean s rest (p ∷ ps) n e ab =
    let (qs, names, r) = suffix-join_parts s rest [] (p ∷ ps) tt n (sym e) ab in
    (qs, names, r ∙ join-join_parts qs (rw r at ab))

join-nil : root ≡ join []
unfolding join
join-nil = refl

below_rest :
    (point guest rel rest : Bytes)
    → guest ≡ point ++ rest
    → (if is_empty rest then some root else if is_absolute rest then some rest else none) ≡ some rel
    → ((rel ≡ root) × (guest ≡ point ++ [])) ⊎ ((guest ≡ point ++ rel) × (is_absolute rel ≡ true))
unfolding is_empty
below_rest point guest rel [] whole e = inl (ground arith, whole)
below_rest point guest rel (c ∷ rest) whole e = elim (Bool-cases (is_absolute (c ∷ rest))) [
  | inl ab ↦ let r : c ∷ rest ≡ rel = ground arith in inr (rw r at whole, rw r at ab)
  | inr no_ ↦ absurd (ground arith)
]

-- How the path below a mount point comes about: at the root mount it is the path itself, at the
-- mount point it is the root, and below it is what follows the mount point.
pub below_cases :
    (point guest rel : Bytes)
    → below point guest ≡ some rel
    → (rel ≡ guest)
      ⊎ (((rel ≡ root) × (guest ≡ point ++ []))
          ⊎ ((guest ≡ point ++ rel) × (is_absolute rel ≡ true)))
unfolding below
below_cases point guest rel e = elim (Bool-cases (same point root)) [
  | inl at_root ↦ inl (ground arith)
  | inr other ↦ elim (Option-cases (strip_prefix point guest)) [
    | inl none_ ↦ absurd (ground arith)
    | inr (rest, s) ↦
        let whole : guest ≡ point ++ rest = strip_prefix_lem point guest s in
        inr (below_rest point guest rel rest whole (ground arith))
  ]
]

-- A mount is asked for a clean path.
pub below-IsClean :
    (point guest rel : Bytes) → IsClean guest → below point guest ≡ some rel → IsClean rel
below-IsClean point guest rel (ps, names, j) e = elim (below_cases point guest rel e) [
  | inl r ↦ (ps, names, r ∙ j)
  | inr (inl (r, s)) ↦ ([], tt, r ∙ join-nil)
  | inr (inr (whole, ab)) ↦ suffix-IsClean point rel ps names (sym j ∙ whole) ab
]

-- Nothing in the table before `n` owns the path.
pub NoneBefore : ℕ → List Mount → Bytes → Type 0
NoneBefore n [] guest = Unit
NoneBefore zero (m ∷ rest) guest = Unit
NoneBefore (suc n) (m ∷ rest) guest = (below m.point guest ≡ none) × NoneBefore n rest guest

-- What `find` promises of the index it returns.
pub record Found (mounts : List Mount) (guest : Bytes) (index : ℕ) (rel : Bytes) : Type 0 where
  pub mount : Mount
  pub at_index : get_elem? mounts index ≡ some mount
  pub owns : below mount.point guest ≡ some rel
  pub first : NoneBefore index mounts guest

find_from_lem :
    (start : ℕ) (mounts : List Mount) (guest : Bytes) {index : ℕ} {rel : Bytes}
    → find_from start mounts guest ≡ some (index, rel)
    → (n : ℕ) × (index ≡ start + n) × Found mounts guest n rel
unfolding find_from NoneBefore
find_from_lem start [] guest e = absurd (cc)
find_from_lem start (m ∷ rest) guest {index} {rel} e = elim (Option-cases (below m.point guest)) [
  | inr (r, b) ↦
      let here : find_from start (m ∷ rest) guest ≡ some (start, r) = rw (b, find_from) refl in
      (0, ground arith, record { mount = m; at_index = refl; owns = b ∙ cc; first = tt })
  | inl b ↦
      let h : find_from (suc start) rest guest ≡ some (index, rel) = rw (b, find_from) at e in
      let (n, i, f) = find_from_lem (suc start) rest guest h in
      (
        suc n,
        omega (arith, i),
        record { mount = f.mount; at_index = f.at_index; owns = f.owns; first = (b, f.first) },
      )
]

pub find_lem :
    (mounts : List Mount) (guest : Bytes) {index : ℕ} {rel : Bytes}
    → find mounts guest ≡ some (index, rel)
    → Found mounts guest index rel
unfolding find
find_lem mounts guest {index} {rel} e =
    let (n, i, f) = find_from_lem 0 mounts guest e in
    let j : n ≡ index = omega (arith, i) in rw j at f

-- The table is sorted: the longest mount point first.
pub Ordered : List Mount → Type 0
Ordered [] = Unit
Ordered (m ∷ rest) = All (λ n. length n.point ≤ length m.point) rest × Ordered rest

All-insert :
    (P : Mount → Type 0) (m : Mount) (rest : List Mount) → P m → All P rest → All P (insert m rest)
unfolding insert
All-insert P m [] p q = (p, tt)
All-insert P m (n ∷ rest) p q = elim (Bool-cases (ltb (length m.point) (length n.point))) [
  | inl e ↦ rw e (q.0, All-insert P m rest p q.1)
  | inr e ↦ rw e (p, (q.0, q.1))
]

All-below :
    (a b : ℕ) (rest : List Mount)
    → a ≤ b
    → All (λ n. length n.point ≤ a) rest
    → All (λ n. length n.point ≤ b) rest
All-below a b [] h q = tt
All-below a b (n ∷ rest) h q = (omega (arith, h, q.0), All-below a b rest h q.1)

insert-Ordered : (m : Mount) (rest : List Mount) → Ordered rest → Ordered (insert m rest)
unfolding insert Ordered
insert-Ordered m [] o = (tt, tt)
insert-Ordered m (n ∷ rest) o = elim (Bool-cases (ltb (length m.point) (length n.point))) [
  | inl e ↦ rw e (
    All-insert (λ k. length k.point ≤ length n.point) m rest (ground arith) o.0,
    insert-Ordered m rest o.1,
  )
  | inr e ↦
      let h : length n.point ≤ length m.point = ground arith in
      rw e ((h, All-below _ _ rest h o.0), o)
]

pub new-Ordered : (mounts : List Mount) → Ordered (new mounts)
unfolding new Ordered
new-Ordered [] = tt
new-Ordered (m ∷ rest) = insert-Ordered m (new rest) (new-Ordered rest)

-- In a sorted table, an owner of the path that is not before the first one has no longer point.
first_is_longest :
    (mounts : List Mount) (guest : Bytes) (n k : ℕ) {m other : Mount} {rel : Bytes}
    → Ordered mounts
    → NoneBefore n mounts guest
    → get_elem? mounts n ≡ some m
    → get_elem? mounts k ≡ some other
    → below other.point guest ≡ some rel
    → length other.point ≤ length m.point
unfolding NoneBefore Ordered
first_is_longest [] guest n k o f e1 e2 b = absurd (cc)
first_is_longest (x ∷ rest) guest zero zero o f e1 e2 b = ground arith
first_is_longest (x ∷ rest) guest zero (suc k) {m} {other} o f e1 e2 b =
    let t : length other.point ≤ length x.point =
      All-at (λ n. length n.point ≤ length x.point) rest k o.0 e2 in
    ground arith
first_is_longest (x ∷ rest) guest (suc n) zero o f e1 e2 b = absurd (cc)
first_is_longest (x ∷ rest) guest (suc n) (suc k) o f e1 e2 b =
    first_is_longest rest guest n k o.1 f.1 e1 e2 b

-- In a table that `new` made, the mount `m` that `find` picks owns the path, and no mount of the
-- table that owns the path has a longer mount point: the longest match wins.
pub find-longest :
    (mounts : List Mount) (guest : Bytes) (index k : ℕ) {rel r : Bytes} {m other : Mount}
    → find (new mounts) guest ≡ some (index, rel)
    → get_elem? (new mounts) index ≡ some m
    → get_elem? (new mounts) k ≡ some other
    → below other.point guest ≡ some r
    → (below m.point guest ≡ some rel) × (length other.point ≤ length m.point)
find-longest mounts guest index k {rel} {r} {m} {other} e at_m at_other b =
    let f = find_lem (new mounts) guest e in
    let same_ : f.mount ≡ m = cc (f.at_index, at_m) in
    let owns : below m.point guest ≡ some rel = rw same_ at f.owns in
    (owns, first_is_longest (new mounts) guest index k (new-Ordered mounts) f.first at_m at_other b)
