-- ===== src/Tree/Entry.antt =====
-- crates/wasmux/src/vfs/mem.rs: what a change of one entry of one directory does to the tree.
use wasmux.Prelude.{
  false, ◌≡◌, refl, ap, sym, ◌∙◌, ◌≢◌, ◌⊎◌, inl, inr, some, List, [], ◌∷◌, ◌++◌, Bool-cases,
  Option-cases,
}
use wasmux.Desc.{Bytes}
use wasmux.Path.{same}
use wasmux.Tree.{Node, dir, file, link, Entries, get, find}
use wasmux.Tree.View.{same-eq, same_self, view, IsApart, view-nil, view_entry-some, view_entry_same}
use wasmux.Tree.Edit.{Edit}

pub append_assoc : (xs ys zs : List Bytes) → (xs ++ ys) ++ zs ≡ xs ++ (ys ++ zs)
append_assoc [] ys zs = refl
append_assoc (x ∷ xs) ys zs = ap (◌∷◌ x) (append_assoc xs ys zs)

pub append_nil : (xs : List Bytes) → xs ++ [] ≡ xs
append_nil [] = refl
append_nil (x ∷ xs) = ap (◌∷◌ x) (append_nil xs)

cons_eq : {a b : Bytes} {xs ys : List Bytes} → a ∷ xs ≡ b ∷ ys → (a ≡ b) × (xs ≡ ys)
cons_eq e = (cc, cc)

pub not_same : (a b : Bytes) → same a b ≡ false → a ≢ b
not_same a b e x = cc (e, rw x at (same_self a))

-- A path lies at or below another, or not.
pub continues : (ps q : List Bytes) → ((rest : List Bytes) × (ps ++ rest ≡ q)) ⊎ IsApart ps q
continues [] q = inl (q, refl)
continues (p ∷ ps) [] = inr (λ rest e. cc)
continues (p ∷ ps) (c ∷ q) = elim (Bool-cases (same p c)) [
  | inl e ↦ elim (continues ps q) [
    | inl (rest, x) ↦ inl (rest, rw (same-eq p c e) (ap (◌∷◌ c) x))
    | inr apart ↦ inr (λ rest x. apart rest (cons_eq x).1)
  ]
  | inr e ↦ inr (λ rest x. not_same p c e (cons_eq x).0)
]

-- The tree below a node that `find` gives is that node's.
pub view-append :
    (n : Node) (ps cs : List Bytes) {m : Node} → find n ps ≡ some m → view n (ps ++ cs) ≡ view m cs
unfolding find
view-append n [] cs e = cc
view-append (dir es) (p ∷ ps) cs e = elim (Option-cases (get es p)) [
  | inl g ↦ cc (rw (find, g) at e)
  | inr (child, g) ↦ view_entry-some es p (ps ++ cs) g ∙ view-append child ps cs (rw (find, g) at e)
]
view-append (file id) (p ∷ ps) cs e = cc
view-append (link target) (p ∷ ps) cs e = cc

entry_outside :
    (ps : List Bytes) (es es' : Entries) (name : Bytes) (q : List Bytes)
    → ((c : Bytes) → name ≢ c → get es' c ≡ get es c)
    → IsApart (ps ++ (name ∷ [])) q
    → (rest : List Bytes) → ps ++ rest ≡ q
    → view (dir es') rest ≡ view (dir es) rest
entry_outside ps es es' name q others apart [] e = view-nil es' es
entry_outside ps es es' name q others apart (c ∷ cs) e = view_entry_same es es' c cs (
    others c
      (λ x. apart cs (append_assoc ps (name ∷ []) cs ∙ (ap (λ (a : Bytes). ps ++ (a ∷ cs)) x ∙ e))))

module _ (n n' : Node) (ps : List Bytes) (es es' : Entries) (ed : Edit n ps es es' n') where
  -- A change of the entry `name` alone changes no path but those at or below it.
  pub Edit-outside :
      (name : Bytes) (q : List Bytes)
      → ((c : Bytes) → name ≢ c → get es' c ≡ get es c)
      → IsApart (ps ++ (name ∷ [])) q
      → view n' q ≡ view n q
  Edit-outside name q others apart = elim (continues ps q) [
    | inr away ↦ ed.outside q away
    | inl (rest, e) ↦ rw (sym e) (
        ed.inside rest
        ∙ (entry_outside ps es es' name q others apart rest e
            ∙ sym (view-append n ps rest (ed.at_dir))))
  ]

  -- The paths at or below the entry `name`.
  pub Edit-inside :
      (name : Bytes) (rest : List Bytes)
      → view n' ((ps ++ (name ∷ [])) ++ rest) ≡ view (dir es') (name ∷ rest)
  Edit-inside name rest = ap (view n') (append_assoc ps (name ∷ []) rest) ∙ ed.inside (name ∷ rest)

  -- A directory whose entries are as before leaves every path as it was.
  pub Edit_same :
      ((rest : List Bytes) → view (dir es') rest ≡ view (dir es) rest)
      → (q : List Bytes) → view n' q ≡ view n q
  Edit_same keep q = elim (continues ps q) [
    | inr away ↦ ed.outside q away
    | inl (rest, e) ↦
        rw (sym e) (ed.inside rest ∙ (keep rest ∙ sym (view-append n ps rest (ed.at_dir))))
  ]
