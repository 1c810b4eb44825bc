-- ===== src/Tree/View.antt =====
-- crates/wasmux/src/vfs/mem.rs: the tree as a map from paths to nodes, and what a change of one
-- directory does to it.
use wasmux.Prelude.{
  ℕ, true, false, ◌≡◌, refl, ap, sym, ◌∙◌, ◌≢◌, inl, inr, Option, none, some, List, [], ◌∷◌, ◌++◌,
  arith, if◌then◌else◌, Bool-cases, Option-cases,
}
use wasmux.Desc.{Bytes}
use wasmux.Path.{same}
use wasmux.Tree.{Node, dir, file, link, Entries, end, entry, less, get, insert, remove, find}

pub same-eq : (a b : Bytes) → same a b ≡ true → a ≡ b
unfolding same
same-eq [] [] e = refl
same-eq [] (y ∷ ys) e = cc
same-eq (x ∷ xs) [] e = cc
same-eq (x ∷ xs) (y ∷ ys) e = ground (arith, same-eq xs ys)

pub same_self : (a : Bytes) → same a a ≡ true
unfolding same
same_self [] = refl
same_self (x ∷ xs) = ground (arith, same_self xs)

pub same-ne : (a b : Bytes) → a ≢ b → same a b ≡ false
same-ne a b ne = elim (Bool-cases (same a b)) [ inl e ↦ absurd (ne (same-eq a b e)) | inr e ↦ e ]

pub get-insert_self :
    (es : Entries) (name : Bytes) (n : Node) → get (insert es name n) name ≡ some n
unfolding get insert
get-insert_self end name n = rw (same_self name)
get-insert_self (entry key old es) name n = elim (Bool-cases (same key name)) [
  | inl e ↦ rw (e, e)
  | inr e ↦ elim (Bool-cases (less name key)) [
    | inl l ↦ rw (e, l, same_self name)
    | inr l ↦ rw (e, l, e) (get-insert_self es name n)
  ]
]

pub get-insert_ne :
    (es : Entries) (name other : Bytes) (n : Node)
    → name ≢ other
    → get (insert es name n) other ≡ get es other
unfolding get insert
get-insert_ne end name other n ne = rw (same-ne name other ne)
get-insert_ne (entry key old es) name other n ne = elim (Bool-cases (same key name)) [
  | inl e ↦
      let f : same key other ≡ false = rw (sym (same-eq key name e)) at (same-ne name other ne) in
      rw (e, f)
  | inr e ↦ elim (Bool-cases (less name key)) [
    | inl l ↦ rw (e, l, same-ne name other ne)
    | inr l ↦
        rw (e, l)
          (ap (λ (t : Option Node). if same key other then some old else t)
            (get-insert_ne es name other n ne))
  ]
]

pub get-remove_self : (es : Entries) (name : Bytes) → get (remove es name) name ≡ none
unfolding get remove
get-remove_self end name = refl
get-remove_self (entry key n es) name = elim (Bool-cases (same key name)) [
  | inl e ↦ rw e (get-remove_self es name)
  | inr e ↦ rw (e, e) (get-remove_self es name)
]

pub get-remove_ne :
    (es : Entries) (name other : Bytes) → name ≢ other → get (remove es name) other ≡ get es other
unfolding get remove
get-remove_ne end name other ne = refl
get-remove_ne (entry key n es) name other ne = elim (Bool-cases (same key name)) [
  | inl e ↦
      let f : same key other ≡ false = rw (sym (same-eq key name e)) at (same-ne name other ne) in
      rw (e, f) (get-remove_ne es name other ne)
  | inr e ↦ rw e (
      ap (λ (t : Option Node). if same key other then some n else t)
        (get-remove_ne es name other ne))
]

-- What a path names, with the entries of a directory forgotten.
pub data Kind : Type 0 where
  is_dir : Kind
  is_file : ℕ → Kind
  is_link : Bytes → Kind

abbrev pub kind : Node → Kind
kind (dir es) = is_dir
kind (file id) = is_file id
kind (link target) = is_link target

abbrev kind_of : Option Node → Option Kind
kind_of none = none
kind_of (some n) = some (kind n)

-- The tree as a partial map from paths.
unfoldable pub view : Node → List Bytes → Option Kind
unfolding find
view n cs = kind_of (find n cs)

-- The map of the entries of a directory.
unfoldable pub view_entry : Entries → Bytes → List Bytes → Option Kind
unfolding view get
view_entry es c cs = elim (get es c) [ none ↦ none | some n ↦ view n cs ]

pub view-dir :
    (es : Entries) (c : Bytes) (cs : List Bytes) → view (dir es) (c ∷ cs) ≡ view_entry es c cs
unfolding view view_entry find
view-dir es c cs = elim (Option-cases (get es c)) [
  | inl e ↦ rw (view, view_entry, find, e) refl
  | inr (n, e) ↦ rw (view, view_entry, find, e) refl
]

-- A path that does not lie at or below another.
abbrev pub IsApart : List Bytes → List Bytes → Type 0
IsApart path q = (rest : List Bytes) → path ++ rest ≢ q

pub view_entry-some :
    (es : Entries) (c : Bytes) (cs : List Bytes) {n : Node}
    → get es c ≡ some n
    → view (dir es) (c ∷ cs) ≡ view n cs
unfolding view_entry
view_entry-some es c cs e = view-dir es c cs ∙ rw (view_entry, e) refl

pub view_entry_same :
    (es es' : Entries) (c : Bytes) (cs : List Bytes)
    → get es' c ≡ get es c
    → view (dir es') (c ∷ cs) ≡ view (dir es) (c ∷ cs)
unfolding view_entry
view_entry_same es es' c cs e =
    view-dir es' c cs ∙ (rw (view_entry, e) refl ∙ sym (view-dir es c cs))

pub view-nil : (es es' : Entries) → view (dir es) [] ≡ view (dir es') []
unfolding view find
view-nil es es' = refl

pub view_entry-none :
    (es : Entries) (c : Bytes) (cs : List Bytes) → get es c ≡ none → view (dir es) (c ∷ cs) ≡ none
unfolding view_entry
view_entry-none es c cs e = view-dir es c cs ∙ rw (view_entry, e) refl

pub view-dir_nil : (es : Entries) → view (dir es) [] ≡ some is_dir
unfolding view find
view-dir_nil es = refl

pub view-is_dir :
    (n : Node) (ps : List Bytes)
    → view n ps ≡ some is_dir
    → (es : Entries) × (find n ps ≡ some (dir es))
unfolding view
view-is_dir n ps = elim (Option-cases (find n ps)) [
  | inl g ↦ rw (view, g) (λ x. cc)
  | inr (dir es, g) ↦ λ x. (es, g)
  | inr (file id, g) ↦ rw (view, g) (λ x. cc)
  | inr (link t, g) ↦ rw (view, g) (λ x. cc)
]
