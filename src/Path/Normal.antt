-- ===== src/Path/Normal.antt =====
-- What `normalize` of kernel/path.rs guarantees of every path that a guest can name.
use wasmux.Prelude.{
  ◌≡◌, refl, ap, sym, ◌∙◌, ◌≢◌, inl, inr, Bool, true, false, ◌||◌, List, [], ◌∷◌, ◌++◌, arith, ◌==◌,
  if◌then◌else◌, All, Bool-cases,
}
use mathlib.Core.List.{append-nil, append_assoc}
use wasmux.Desc.{Bytes}
use wasmux.Path.{
  slash, dot, same, is_empty, is_absolute, split, components, pop, fold_one, fold_all, normalize,
  join_parts, join,
}

-- A name that a directory can hold: not empty, neither `.` nor `..`, and without a slash.
pub record IsName (s : Bytes) : Type 0 where
  pub nonempty : is_empty s ≡ false
  pub not_dot : same s (dot ∷ []) ≡ false
  pub not_dots : same s (dot ∷ dot ∷ []) ≡ false
  pub one_part : All (λ x. x ≢ slash) s

split-one_part :
    (path : Bytes) → All (λ x. x ≢ slash) (split path).0 × All (All (λ x. x ≢ slash)) (split path).1
unfolding split
split-one_part [] = (tt, tt)
split-one_part (x ∷ xs) = elim (Bool-cases (x == slash)) [
  | inl at_slash ↦ rw (at_slash, split) (tt, split-one_part xs)
  | inr other ↦ rw (other, split) ((ground arith, (split-one_part xs).0), (split-one_part xs).1)
]

or-false : (a b : Bool) → (a || b) ≡ false → (a ≡ false) × (b ≡ false)
or-false a b h = ground arith

pub All-append : (P : Bytes → Type 0) (xs ys : List Bytes) → All P xs → All P ys → All P (xs ++ ys)
All-append P [] ys p q = q
All-append P (x ∷ xs) ys p q = (p.0, All-append P xs ys p.1 q)

All-pop : (P : Bytes → Type 0) (xs : List Bytes) → All P xs → All P (pop xs)
unfolding pop
All-pop P [] p = p
All-pop P (x ∷ []) p = tt
All-pop P (x ∷ y ∷ ys) p = (p.0, All-pop P (y ∷ ys) p.1)

fold_one-IsName :
    (parts : List Bytes) (c : Bytes)
    → All (λ x. x ≢ slash) c
    → All IsName parts
    → All IsName (fold_one parts c)
unfolding fold_one
fold_one-IsName parts c h p = elim (Bool-cases (is_empty c || same c (dot ∷ []))) [
  | inl skip ↦ rw (skip, fold_one) p
  | inr keep ↦ elim (Bool-cases (same c (dot ∷ dot ∷ []))) [
    | inl up ↦ rw (keep, up, fold_one) (All-pop IsName parts p)
    | inr name ↦
        rw (keep, name, fold_one)
          (All-append IsName parts (c ∷ []) p (
            record {
              nonempty = (or-false _ _ keep).0;
              not_dot = (or-false _ _ keep).1;
              not_dots = name;
              one_part = h;
            },
            tt,
          ))
  ]
]

fold_all-IsName :
    (parts cs : List Bytes)
    → All (All (λ x. x ≢ slash)) cs
    → All IsName parts
    → All IsName (fold_all parts cs)
unfolding fold_all
fold_all-IsName parts [] h p = p
fold_all-IsName parts (c ∷ cs) h p =
    fold_all-IsName (fold_one parts c) cs h.1 (fold_one-IsName parts c h.0 p)

components-one_part : (path : Bytes) → All (All (λ x. x ≢ slash)) (components path)
unfolding components
components-one_part path = split-one_part path

-- Every component of a normalised path is a name: no `..` is left, so that nothing above the root
-- can be named, whatever the base and the path are.
pub normalize-IsName : (base path : Bytes) → All IsName (normalize base path)
unfolding normalize
normalize-IsName base path =
    fold_all-IsName _ (components path) (components-one_part path) (start (is_absolute path))
  where
    start : (b : Bool) → All IsName (if b then [] else fold_all [] (components base))
    start true = tt
    start false = fold_all-IsName [] (components base) (components-one_part base) tt

fold_one_name : (parts : List Bytes) (c : Bytes) → IsName c → fold_one parts c ≡ parts ++ (c ∷ [])
unfolding fold_one
fold_one_name parts c n = rw (n.nonempty, n.not_dot, n.not_dots)

fold_all_names : (parts cs : List Bytes) → All IsName cs → fold_all parts cs ≡ parts ++ cs
unfolding fold_all
fold_all_names parts [] n = sym (append-nil parts)
fold_all_names parts (c ∷ cs) n =
    rw (fold_one_name parts c n.0)
      (fold_all_names (parts ++ (c ∷ [])) cs n.1 ∙ append_assoc parts (c ∷ []) cs)

fold_all-append :
    (parts xs ys : List Bytes) → fold_all parts (xs ++ ys) ≡ fold_all (fold_all parts xs) ys
unfolding fold_all
fold_all-append parts [] ys = refl
fold_all-append parts (x ∷ xs) ys = fold_all-append (fold_one parts x) xs ys

split-slash :
    (p rest : Bytes) → All (λ x. x ≢ slash) p → split (p ++ (slash ∷ rest)) ≡ (p, components rest)
unfolding split components
split-slash [] rest h = refl
split-slash (x ∷ p) rest h =
    let other : (x == slash) ≡ false = ground (arith, h.0) in
    rw (split-slash p rest h.1, split, other)

components-slash :
    (p rest : Bytes)
    → All (λ x. x ≢ slash) p
    → components (p ++ (slash ∷ rest)) ≡ p ∷ components rest
unfolding components
components-slash p rest h = rw (split-slash p rest h)

split_whole : (p : Bytes) → All (λ x. x ≢ slash) p → split p ≡ (p, [])
unfolding split
split_whole [] h = refl
split_whole (x ∷ p) h =
    let other : (x == slash) ≡ false = ground (arith, h.0) in rw (split_whole p h.1, split, other)

components_whole : (p : Bytes) → All (λ x. x ≢ slash) p → components p ≡ p ∷ []
unfolding components
components_whole p h = rw (split_whole p h)

components-join_parts :
    (p : Bytes) (ps : List Bytes)
    → All (λ x. x ≢ slash) p
    → All IsName ps
    → components (p ++ join_parts ps) ≡ p ∷ ps
unfolding join_parts
components-join_parts p [] h n = ap components (append-nil p) ∙ components_whole p h
components-join_parts p (q ∷ ps) h n =
    components-slash p (q ++ join_parts ps) h
    ∙ ap (◌∷◌ p) (components-join_parts q ps (n.0.one_part) n.1)

fold_all-empty : (parts cs : List Bytes) → fold_all parts ([] ∷ cs) ≡ fold_all parts cs
unfolding fold_all fold_one
fold_all-empty parts cs = refl

-- Joining the components of a normalised path and normalising it again, from any base, gives the
-- same components.
normalize-join :
    (base : Bytes) (parts : List Bytes) → All IsName parts → normalize base (join parts) ≡ parts
unfolding normalize join is_absolute
normalize-join base [] n = refl
normalize-join base (p ∷ ps) n =
    ap (fold_all []) (components-slash [] (p ++ join_parts ps) tt)
    ∙ fold_all-empty [] (components (p ++ join_parts ps))
    ∙ ap (fold_all []) (components-join_parts p ps (n.0.one_part) n.1)
    ∙ fold_all_names [] (p ∷ ps) n

split-append : (a b : Bytes) → split (a ++ (slash ∷ b)) ≡ ((split a).0, (split a).1 ++ components b)
unfolding components split
split-append [] b = refl
split-append (x ∷ a) b = elim (Bool-cases (x == slash)) [
  | inl e ↦ rw (split-append a b, split, e)
  | inr e ↦ rw (split-append a b, split, e)
]

components-append : (a b : Bytes) → components (a ++ (slash ∷ b)) ≡ components a ++ components b
unfolding components
components-append a b = rw (split-append a b)

normalize_of_relative :
    (base path : Bytes)
    → is_absolute path ≡ false
    → normalize base path ≡ fold_all (fold_all [] (components base)) (components path)
unfolding normalize
normalize_of_relative base path rel = rw (rel, normalize)

normalize_of_absolute :
    (base path : Bytes)
    → is_absolute path ≡ true
    → normalize base path ≡ fold_all [] (components path)
unfolding normalize
normalize_of_absolute base path ab = rw (ab, normalize)

is_absolute-append : (a b : Bytes) → is_absolute a ≡ true → is_absolute (a ++ b) ≡ true
unfolding is_absolute
is_absolute-append [] b h = cc
is_absolute-append (x ∷ a) b h = h

-- A relative path resolves as the absolute path that is made of an absolute base, a slash and it.
pub normalize_relative :
    (base other path : Bytes)
    → is_absolute base ≡ true
    → is_absolute path ≡ false
    → normalize base path ≡ normalize other (base ++ (slash ∷ path))
normalize_relative base other path ab rel =
    normalize_of_relative base path rel
    ∙ sym (fold_all-append [] (components base) (components path))
    ∙ ap (fold_all []) (sym (components-append base path))
    ∙ sym (
        normalize_of_absolute other (base ++ (slash ∷ path))
          (is_absolute-append base (slash ∷ path) ab))
