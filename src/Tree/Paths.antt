-- ===== src/Tree/Paths.antt =====
-- crates/wasmux/src/vfs/mem.rs: `split_parent` takes the last component off a path.
use wasmux.Prelude.{
  ℕ, zero, suc, ◌+◌, true, false, ◌≡◌, refl, ap, sym, ◌∙◌, inl, inr, none, some, List, [], ◌∷◌,
  ◌++◌, arith, ◌==◌, take, drop, Bool-cases, Option-cases,
}
use wasmux.Desc.{Bytes}
use wasmux.Path.{slash, is_empty, components, split}
use wasmux.Tree.{nonempty, parts, rfind, split_parent}

split-append : (a b : Bytes) → split (a ++ (slash ∷ b)) ≡ ((split a).0, (split a).1 ++ components b)
unfolding split components
split-append [] b = refl
split-append (x ∷ a) b = elim (Bool-cases (x == slash)) [
  | inl e ↦ rw (e, split-append a b) refl
  | inr e ↦ rw (e, split-append a b) refl
]

components-append : (a b : Bytes) → components (a ++ (slash ∷ b)) ≡ components a ++ components b
unfolding components
components-append a b = rw (split-append a b) refl

nonempty-append : (xs ys : List Bytes) → nonempty (xs ++ ys) ≡ nonempty xs ++ nonempty ys
unfolding nonempty
nonempty-append [] ys = refl
nonempty-append (c ∷ xs) ys = elim (Bool-cases (is_empty c)) [
  | inl e ↦ rw e (nonempty-append xs ys)
  | inr e ↦ rw e (ap (◌∷◌ c) (nonempty-append xs ys))
]

parts-append : (a b : Bytes) → parts (a ++ (slash ∷ b)) ≡ parts a ++ parts b
unfolding parts
parts-append a b =
    ap nonempty (components-append a b) ∙ nonempty-append (components a) (components b)

rfind-none_cons :
    (x : ℕ) (s : Bytes) → rfind (x ∷ s) ≡ none → (rfind s ≡ none) × ((x == slash) ≡ false)
unfolding rfind
rfind-none_cons x s e = elim (Option-cases (rfind s)) [
  | inl r ↦ elim (Bool-cases (x == slash)) [ inl t ↦ cc (rw (r, t) at e) | inr t ↦ (r, t) ]
  | inr (i, r) ↦ cc (rw r at e)
]

-- A text without a separator is its only component.
split-none : (s : Bytes) → rfind s ≡ none → split s ≡ (s, [])
unfolding split
split-none [] e = refl
split-none (x ∷ s) e = let h = rfind-none_cons x s e in rw (h.1, split-none s h.0) refl

rfind-zero : (x : ℕ) (s : Bytes) → rfind s ≡ none → (x == slash) ≡ true → rfind (x ∷ s) ≡ some 0
unfolding rfind
rfind-zero x s r e = rw (r, e) refl

rfind-suc : (x : ℕ) (s : Bytes) (j : ℕ) → rfind s ≡ some j → rfind (x ∷ s) ≡ some (suc j)
unfolding rfind
rfind-suc x s j r = rw r refl

-- The last separator splits a text, and none follows it.
rfind-some :
    (s : Bytes) (i : ℕ)
    → rfind s ≡ some i
    → (s ≡ take i s ++ (slash ∷ drop (suc i) s)) × (rfind (drop (suc i) s) ≡ none)
unfolding rfind
rfind-some [] i e = cc
rfind-some (x ∷ s) i e = elim (Option-cases (rfind s)) [
  | inl r ↦ elim (Bool-cases (x == slash)) [
    | inl t ↦
        let z : 0 ≡ i = cc (e, rfind-zero x s r t) in
        let y : x ≡ slash = ground (arith, t) in rw (sym z) (ap (λ (c : ℕ). c ∷ s) y, r)
    | inr t ↦ cc (rw (r, t) at e)
  ]
  | inr (j, r) ↦
      let z : suc j ≡ i = cc (e, rfind-suc x s j r) in
      let h = rfind-some s j r in rw (sym z) (ap (◌∷◌ x) h.0, h.1)
]

parts-name : (name : Bytes) → rfind name ≡ none → is_empty name ≡ false → parts name ≡ name ∷ []
unfolding parts components nonempty
parts-name name r e = rw (split-none name r, e) refl

-- The directory and the name of a path, put together: the last separator stands between them.
Joined : Bytes → Bytes × Bytes → Type 0
Joined path (parent, name) = (rfind name ≡ none) × (parts path ≡ parts parent ++ parts name)

split_parent-Joined : (path : Bytes) → Joined path (split_parent path)
unfolding split_parent Joined parts
split_parent-Joined path = elim (Option-cases (rfind path)) [
  | inl r ↦ rw (split_parent, r) (r, refl)
  | inr (zero, r) ↦
      let h = rfind-some path 0 r in
      rw (split_parent, r) (h.1, ap parts h.0 ∙ parts-append [] (drop 1 path))
  | inr (suc i, r) ↦
      let h = rfind-some path (suc i) r in
      let z : suc (suc i) ≡ suc i + 1 = omega arith in
      rw (split_parent, r, sym z)
        (h.1, ap parts h.0 ∙ parts-append (take (suc i) path) (drop (suc (suc i)) path))
]

-- The components of a path are those of its directory, then its last name.
pub parts-split_parent :
    (path : Bytes)
    → is_empty (split_parent path).1 ≡ false
    → parts path ≡ parts (split_parent path).0 ++ ((split_parent path).1 ∷ [])
unfolding Joined
parts-split_parent path named =
    let h = split_parent-Joined path in
    h.1 ∙ ap (◌++◌ (parts (split_parent path).0)) (parts-name (split_parent path).1 h.0 named)
