-- ===== src/MemVfs/Laws.antt =====
-- crates/wasmux/src/vfs/mem.rs: the filesystem as a map from paths, and what each method does to it.
use wasmux.Prelude.{
  ℕ, ◌≡◌, refl, ap, sym, ◌∙◌, ◌≢◌, inl, inr, none, some, List, [], ◌∷◌, ◌++◌, ok, err, Bool-cases,
  Option-cases,
}
use wasmux.Errno.{Errno, VfsResult}
use wasmux.Desc.{Bytes}
use wasmux.Tree.{Node, dir, file, link, Entries, get, parts, has_none}
use wasmux.Tree.View.{get-insert_ne, get-remove_ne, is_dir, view, IsApart, view-dir_nil}
use wasmux.Tree.Edit.{at_dir, no_dir, dir_mut-Found}
use wasmux.Tree.Entry.{append_assoc, append_nil, view-append, Edit-outside, Edit-inside, Edit_same}
use wasmux.MemVfs.{MemVfs, in_dir, put_entry}
use wasmux.MemVfs.Change.{unlink_entry, rmdir_entry, take_entry}

-- Every path names what it named before, and every file has the contents that it had.
pub record IsSame (fs fs' : MemVfs) : Type 0 where
  pub paths : (q : List Bytes) → view fs'.root q ≡ view fs.root q
  pub contents : (id : ℕ) → fs'.contents id ≡ fs.contents id

-- The node at `ps` became `n`, with all that is below it, and no other path changed.
pub record IsPut (fs fs' : MemVfs) (ps : List Bytes) (n : Node) : Type 0 where
  pub inside : (rest : List Bytes) → view fs'.root (ps ++ rest) ≡ view n rest
  pub outside : (q : List Bytes) → IsApart ps q → view fs'.root q ≡ view fs.root q
  pub contents : (id : ℕ) → fs'.contents id ≡ fs.contents id

-- `ps` and what is below it are gone, and no other path changed.
pub record IsGone (fs fs' : MemVfs) (ps : List Bytes) : Type 0 where
  pub inside : (rest : List Bytes) → view fs'.root (ps ++ rest) ≡ none
  pub outside : (q : List Bytes) → IsApart ps q → view fs'.root q ≡ view fs.root q
  pub contents : (id : ℕ) → fs'.contents id ≡ fs.contents id

-- What a change of the entries of one directory does: it refuses and keeps the entries, or it
-- changes the entry `name` alone.
pub record OnEntry {A : Type 0} (name : Bytes) (f : Entries → Entries × VfsResult A) : Type 0 where
  pub refuse : (es : Entries) (e : Errno) → (f es).1 ≡ err e → (f es).0 ≡ es
  pub others : (es : Entries) (c : Bytes) → name ≢ c → get (f es).0 c ≡ get es c

-- A change that was made to the directory with the entries `es`, and what the tree is afterwards.
pub record Done {A : Type 0} (fs fs' : MemVfs) (ps : List Bytes) (name : Bytes)
    (f : Entries → Entries × VfsResult A) (a : A) : Type 0 where
  pub es : Entries
  pub parent : view fs'.root ps ≡ some is_dir
  pub result : (f es).1 ≡ ok a
  pub after :
      (rest : List Bytes)
      → view fs'.root ((ps ++ (name ∷ [])) ++ rest) ≡ view (dir (f es).0) (name ∷ rest)
  pub before :
      (rest : List Bytes) → view fs.root ((ps ++ (name ∷ [])) ++ rest) ≡ view (dir es) (name ∷ rest)
  pub outside : (q : List Bytes) → IsApart (ps ++ (name ∷ [])) q → view fs'.root q ≡ view fs.root q

module _ {A : Type 0} (fs : MemVfs) (path name : Bytes) (f : Entries → Entries × VfsResult A)
    (on : OnEntry name f) where
  pub in_dir-refused : (e : Errno) → (in_dir fs path f).1 ≡ err e → IsSame fs (in_dir fs path f).0
  in_dir-refused e x = elim (dir_mut-Found fs.root (parts path) f) [
    | no_dir e' r none_ keep ↦ record { paths = keep; contents = λ id. refl }
    | at_dir es ed r ↦ record {
      paths =
          Edit_same fs.root (in_dir fs path f).0.root (parts path) es (f es).0 ed
            (λ rest. ap (λ (s : Entries). view (dir s) rest) (on.refuse es e (sym r ∙ x)));
      contents = λ id. refl;
    }
  ]

  pub in_dir-Done :
      (a : A) → (in_dir fs path f).1 ≡ ok a → Done fs (in_dir fs path f).0 (parts path) name f a
  in_dir-Done a x = elim (dir_mut-Found fs.root (parts path) f) [
    | no_dir e' r none_ keep ↦ cc
    | at_dir es ed r ↦ record {
      es = es;
      parent =
          ap (view (in_dir fs path f).0.root) (sym (append_nil (parts path)))
          ∙ (ed.inside [] ∙ view-dir_nil (f es).0);
      result = sym r ∙ x;
      after = Edit-inside fs.root (in_dir fs path f).0.root (parts path) es (f es).0 ed name;
      before = λ rest.
          ap (view fs.root) (append_assoc (parts path) (name ∷ []) rest)
          ∙ view-append fs.root (parts path) (name ∷ rest) (ed.at_dir);
      outside = λ q.
          Edit-outside fs.root (in_dir fs path f).0.root (parts path) es (f es).0 ed name q
            (on.others es);
    }
  ]

-- The entry of a name.
pub data Entry (es : Entries) (name : Bytes) : Type 0 where
  no_entry : get es name ≡ none → Entry es name
  a_dir : (inner : Entries) → get es name ≡ some (dir inner) → Entry es name
  a_file : (id : ℕ) → get es name ≡ some (file id) → Entry es name
  a_link : (target : Bytes) → get es name ≡ some (link target) → Entry es name

pub Entry-cases : (es : Entries) (name : Bytes) → Entry es name
Entry-cases es name = elim (Option-cases (get es name)) [
  | inl e ↦ no_entry e
  | inr (dir inner, e) ↦ a_dir inner e
  | inr (file id, e) ↦ a_file id e
  | inr (link target, e) ↦ a_link target e
]

pub put_entry-OnEntry : (name : Bytes) (n : Node) → OnEntry name (put_entry name n)
put_entry-OnEntry name n = record {
  refuse = λ es e x. cc;
  others = λ es c ne. get-insert_ne es name c n ne;
}

pub unlink_entry-OnEntry : (name : Bytes) → OnEntry name (unlink_entry name)
unfolding unlink_entry
unlink_entry-OnEntry name = record {
  refuse = λ es e. elim (Entry-cases es name) [
    | no_entry g ↦ rw (unlink_entry, g) (λ x. refl)
    | a_dir inner g ↦ rw (unlink_entry, g) (λ x. refl)
    | a_file id g ↦ rw (unlink_entry, g) (λ x. cc)
    | a_link target g ↦ rw (unlink_entry, g) (λ x. cc)
  ];
  others = λ es c ne. elim (Entry-cases es name) [
    | no_entry g ↦ rw (unlink_entry, g) refl
    | a_dir inner g ↦ rw (unlink_entry, g) refl
    | a_file id g ↦ rw (unlink_entry, g) (get-remove_ne es name c ne)
    | a_link target g ↦ rw (unlink_entry, g) (get-remove_ne es name c ne)
  ];
}

pub rmdir_entry-OnEntry : (name : Bytes) → OnEntry name (rmdir_entry name)
unfolding rmdir_entry
rmdir_entry-OnEntry name = record {
  refuse = λ es e. elim (Entry-cases es name) [
    | no_entry g ↦ rw (rmdir_entry, g) (λ x. refl)
    | a_dir inner g ↦ elim (Bool-cases (has_none inner)) [
      | inl h ↦ rw (rmdir_entry, g, h) (λ x. cc)
      | inr h ↦ rw (rmdir_entry, g, h) (λ x. refl)
    ]
    | a_file id g ↦ rw (rmdir_entry, g) (λ x. refl)
    | a_link target g ↦ rw (rmdir_entry, g) (λ x. refl)
  ];
  others = λ es c ne. elim (Entry-cases es name) [
    | no_entry g ↦ rw (rmdir_entry, g) refl
    | a_dir inner g ↦ elim (Bool-cases (has_none inner)) [
      | inl h ↦ rw (rmdir_entry, g, h) (get-remove_ne es name c ne)
      | inr h ↦ rw (rmdir_entry, g, h) refl
    ]
    | a_file id g ↦ rw (rmdir_entry, g) refl
    | a_link target g ↦ rw (rmdir_entry, g) refl
  ];
}

pub take_entry-OnEntry : (name : Bytes) → OnEntry name (take_entry name)
unfolding take_entry
take_entry-OnEntry name = record {
  refuse = λ es e. elim (Option-cases (get es name)) [
    | inl g ↦ rw (take_entry, g) (λ x. refl)
    | inr (n, g) ↦ rw (take_entry, g) (λ x. cc)
  ];
  others = λ es c ne. elim (Option-cases (get es name)) [
    | inl g ↦ rw (take_entry, g) refl
    | inr (n, g) ↦ rw (take_entry, g) (get-remove_ne es name c ne)
  ];
}
