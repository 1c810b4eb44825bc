-- ===== src/Tree/Edit.antt =====
-- crates/wasmux/src/vfs/mem.rs: what `dir_mut` and a change of the directory that it finds do to
-- the tree as a map from paths.
use wasmux.Prelude.{
  ◌≡◌, refl, ap, sym, ◌∙◌, ◌≢◌, inl, inr, some, List, [], ◌∷◌, ◌++◌, err, Bool-cases, Option-cases,
}
use wasmux.Errno.{Errno, VfsResult, noent, notdir}
use wasmux.Desc.{Bytes}
use wasmux.Path.{same}
use wasmux.Tree.{Node, dir, file, link, Entries, get, insert, find, dir_mut}
use wasmux.Tree.View.{
  same-eq, same_self, get-insert_self, get-insert_ne, view, IsApart, view-nil, view_entry-some,
  view_entry_same,
}

-- What a change of the directory at `ps`, from `es` to `es'`, does to the tree.
pub record Edit (n : Node) (ps : List Bytes) (es es' : Entries) (n' : Node) : Type 0 where
  pub at_dir : find n ps ≡ some (dir es)
  pub inside : (cs : List Bytes) → view n' (ps ++ cs) ≡ view (dir es') cs
  pub outside : (q : List Bytes) → IsApart ps q → view n' q ≡ view n q

edit_outside :
    (es : Entries) (c : Bytes) (child child' : Node) (cs : List Bytes) (q : List Bytes)
    → get es c ≡ some child
    → ((d : List Bytes) → IsApart cs d → view child' d ≡ view child d)
    → IsApart (c ∷ cs) q
    → view (dir (insert es c child')) q ≡ view (dir es) q
edit_outside es c child child' cs [] g ih apart = view-nil (insert es c child') es
edit_outside es c child child' cs (d ∷ ds) g ih apart = elim (Bool-cases (same c d)) [
  | inl e ↦
      let t : c ≡ d = same-eq c d e in
      let g' : get es d ≡ some child = rw t at g in
      let h : get (insert es c child') d ≡ some child' =
        ap (get (insert es c child')) (sym t) ∙ get-insert_self es c child' in
      view_entry-some (insert es c child') d ds h
      ∙ (ih ds (λ rest x. apart rest (rw t (ap (◌∷◌ d) x))) ∙ sym (view_entry-some es d ds g'))
  | inr e ↦
      view_entry_same es (insert es c child') d ds
        (get-insert_ne es c d child' (λ x. cc (e, rw x at (same_self c))))
]

pub Edit-step :
    (es : Entries) (c : Bytes) (cs : List Bytes) (child child' : Node) (xs xs' : Entries)
    → get es c ≡ some child
    → Edit child cs xs xs' child'
    → Edit (dir es) (c ∷ cs) xs xs' (dir (insert es c child'))
unfolding find
Edit-step es c cs child child' xs xs' g ih = record {
  at_dir = rw (find, g) (ih.at_dir);
  inside = λ ds.
      view_entry-some (insert es c child') c (cs ++ ds) (get-insert_self es c child')
      ∙ ih.inside ds;
  outside = λ q apart. edit_outside es c child child' cs q g (ih.outside) apart;
}

-- What `dir_mut` finds: the directory at `ps`, which `f` changes, or nothing to change.
pub data Found {A : Type 0} (n : Node) (ps : List Bytes) (f : Entries → Entries × VfsResult A)
    (n' : Node) (r : VfsResult A) : Type 0 where
  at_dir : (es : Entries) → Edit n ps es (f es).0 n' → r ≡ (f es).1 → Found n ps f n' r
  no_dir :
      (e : Errno)
      → r ≡ err e
      → ((es : Entries) → find n ps ≢ some (dir es))
      → ((q : List Bytes) → view n' q ≡ view n q)
      → Found n ps f n' r

same_view :
    (es : Entries) (c : Bytes) (child child' : Node) (q : List Bytes)
    → get es c ≡ some child
    → ((d : List Bytes) → view child' d ≡ view child d)
    → view (dir (insert es c child')) q ≡ view (dir es) q
same_view es c child child' [] g ih = view-nil (insert es c child') es
same_view es c child child' (d ∷ ds) g ih = elim (Bool-cases (same c d)) [
  | inl e ↦
      let t : c ≡ d = same-eq c d e in
      let g' : get es d ≡ some child = rw t at g in
      let h : get (insert es c child') d ≡ some child' =
        ap (get (insert es c child')) (sym t) ∙ get-insert_self es c child' in
      view_entry-some (insert es c child') d ds h ∙ (ih ds ∙ sym (view_entry-some es d ds g'))
  | inr e ↦
      view_entry_same es (insert es c child') d ds
        (get-insert_ne es c d child' (λ x. cc (e, rw x at (same_self c))))
]

Found-step :
    {A : Type 0} (es : Entries) (c : Bytes) (cs : List Bytes) (f : Entries → Entries × VfsResult A)
    (child child' : Node) (r : VfsResult A)
    → get es c ≡ some child
    → Found child cs f child' r
    → Found (dir es) (c ∷ cs) f (dir (insert es c child')) r
unfolding find
Found-step es c cs f child child' r g (at_dir xs ed e) =
    at_dir xs (Edit-step es c cs child child' xs (f xs).0 g ed) e
Found-step es c cs f child child' r g (no_dir e x none_ same_) =
    no_dir e x (rw (find, g) none_) (λ q. same_view es c child child' q g same_)

pub dir_mut-Found :
    {A : Type 0} (n : Node) (ps : List Bytes) (f : Entries → Entries × VfsResult A)
    → Found n ps f (dir_mut n ps f).0 (dir_mut n ps f).1
unfolding dir_mut find
dir_mut-Found (dir es) [] f =
    at_dir es
      (record { at_dir = refl; inside = λ cs. refl; outside = λ q apart. absurd (apart q refl) })
      refl
dir_mut-Found (file id) [] f = no_dir notdir refl (λ es e. cc) (λ q. refl)
dir_mut-Found (link target) [] f = no_dir notdir refl (λ es e. cc) (λ q. refl)
dir_mut-Found (dir es) (c ∷ cs) f = elim (Option-cases (get es c)) [
  | inl e ↦ rw (dir_mut, e) (no_dir noent refl (rw (find, e) (λ es x. cc)) (λ q. refl))
  | inr (child, e) ↦
      rw (dir_mut, e)
        (Found-step es c cs f child (dir_mut child cs f).0 (dir_mut child cs f).1 e
          (dir_mut-Found child cs f))
]
dir_mut-Found (file id) (c ∷ cs) f = no_dir noent refl (λ es e. cc) (λ q. refl)
dir_mut-Found (link target) (c ∷ cs) f = no_dir noent refl (λ es e. cc) (λ q. refl)
