-- ===== src/MemVfs/Update.antt =====
-- crates/wasmux/src/vfs/mem.rs: what `mkdir`, `symlink`, `unlink` and `rmdir` do to the filesystem as
-- a map from paths.
use wasmux.Prelude.{
  ℕ, false, ◌||◌, ◌≡◌, refl, ap, sym, ◌∙◌, ◌≢◌, inl, inr, none, some, List, [], ◌∷◌, ◌++◌, is_some,
  ok, err, Bool-cases, Option-cases,
}
use wasmux.Errno.{Errno, VfsResult}
use wasmux.Desc.{Bytes}
use wasmux.Path.{is_empty}
use wasmux.Tree
use wasmux.Tree.{
  Node, dir, file, link, Entries, end, entry, get, insert, remove, parts, split_parent, has_none,
}
use wasmux.Tree.View.{
  get-insert_self, get-remove_self, is_link, view, view_entry-some, view_entry-none,
}
use wasmux.Tree.Entry.{append_nil}
use wasmux.Tree.Paths.{parts-split_parent}
use wasmux.MemVfs.{MemVfs, find, put_entry, readlink}
use wasmux.MemVfs.Change.{add_node, mkdir, symlink, unlink, unlink_entry, rmdir, rmdir_entry}
use wasmux.MemVfs.Laws.{
  IsSame, IsPut, IsGone, Done, in_dir-refused, in_dir-Done, put_entry-OnEntry, unlink_entry-OnEntry,
  rmdir_entry-OnEntry, no_entry, a_dir, a_file, a_link, Entry-cases,
}

-- Where `split_parent` puts the last name of a path.
abbrev pub at_name : Bytes → List Bytes
at_name path = parts (split_parent path).0 ++ ((split_parent path).1 ∷ [])

pub put_entry-IsPut :
    (fs fs' : MemVfs) (ps : List Bytes) (name : Bytes) (n : Node) (u : Unit {0})
    → ((id : ℕ) → fs'.contents id ≡ fs.contents id)
    → Done fs fs' ps name (put_entry name n) u
    → IsPut fs fs' (ps ++ (name ∷ [])) n
put_entry-IsPut fs fs' ps name n u same_ d = record {
  inside = λ rest.
      d.after rest ∙ view_entry-some (insert d.es name n) name rest (get-insert_self d.es name n);
  outside = d.outside;
  contents = same_;
}

add_node-IsPut :
    (fs : MemVfs) (path : Bytes) (n : Node)
    → (add_node fs path n).1 ≡ ok tt
    → IsPut fs (add_node fs path n).0 (parts path) n × (find fs path ≡ none)
unfolding add_node
add_node-IsPut fs path n = elim (Bool-cases (is_empty (split_parent path).1)) [
  | inl e ↦ rw (add_node, e) (λ x. cc)
  | inr e ↦ elim (Option-cases (find fs path)) [
    | inr (m, g) ↦ rw (add_node, e, g) (λ x. cc)
    | inl g ↦
        rw (add_node, e, g)
          (λ x. (
            rw (parts-split_parent path e) (
                put_entry-IsPut fs _ _ _ n tt (λ id. refl)
                  (in_dir-Done fs (split_parent path).0 (split_parent path).1
                    (put_entry (split_parent path).1 n) (put_entry-OnEntry (split_parent path).1 n)
                    tt x)),
            refl,
          ))
  ]
]

pub add_node-refused :
    (fs : MemVfs) (path : Bytes) (n : Node) (e : Errno)
    → (add_node fs path n).1 ≡ err e
    → IsSame fs (add_node fs path n).0
unfolding add_node
add_node-refused fs path n e =
    elim (Bool-cases (is_empty (split_parent path).1 || is_some (find fs path))) [
      | inl c ↦ rw (add_node, c) (λ x. record { paths = λ q. refl; contents = λ id. refl })
      | inr c ↦
          rw (add_node, c)
            (in_dir-refused fs (split_parent path).0 (split_parent path).1
              (put_entry (split_parent path).1 n) (put_entry-OnEntry (split_parent path).1 n) e)
    ]

view-link :
    (n : Node) (ps : List Bytes) (target : Bytes)
    → view n ps ≡ some (is_link target)
    → Tree.find n ps ≡ some (link target)
unfolding view
view-link n ps target = elim (Option-cases (Tree.find n ps)) [
  | inl g ↦ rw (view, g) (λ x. cc)
  | inr (dir es, g) ↦ rw (view, g) (λ x. cc)
  | inr (file id, g) ↦ rw (view, g) (λ x. cc)
  | inr (link t, g) ↦ rw (view, g) (λ x. cc)
]

readlink-find :
    (fs : MemVfs) (path target : Bytes)
    → find fs path ≡ some (link target)
    → readlink fs path ≡ ok target
unfolding readlink
readlink-find fs path target e = rw (readlink, e) refl

-- Where `mkdir` succeeds, the path named nothing before; it names an empty directory afterwards,
-- and no path that does not lie at or below it names anything else than before.
mkdir-IsPut :
    (fs : MemVfs) (path : Bytes) (mode : ℕ)
    → (mkdir fs path mode).1 ≡ ok tt
    → (find fs path ≡ none) × IsPut fs (mkdir fs path mode).0 (parts path) (dir end)
unfolding mkdir
mkdir-IsPut fs path mode x = let h = add_node-IsPut fs path (dir end) x in (h.1, h.0)

-- Where `symlink` succeeds, `readlink` gives the target back, the path named nothing before, and no
-- path that does not lie at or below it names anything else than before.
pub readlink-symlink :
    (fs : MemVfs) (target path : Bytes)
    → (symlink fs target path).1 ≡ ok tt
    → (readlink (symlink fs target path).0 path ≡ ok target)
      × (find fs path ≡ none)
      × IsPut fs (symlink fs target path).0 (parts path) (link target)
unfolding symlink view
readlink-symlink fs target path x =
    let h = add_node-IsPut fs path (link target) x in
    let fs' = (symlink fs target path).0 in
    let v : view fs'.root (parts path) ≡ some (is_link target) =
      ap (view fs'.root) (sym (append_nil (parts path))) ∙ h.0.inside [] in
    (readlink-find fs' path target (view-link fs'.root (parts path) target v), h.1, h.0)

pub removed-IsGone :
    {A : Type 0} (fs fs' : MemVfs) (ps : List Bytes) (name : Bytes)
    (f : Entries → Entries × VfsResult A) (a : A)
    → ((id : ℕ) → fs'.contents id ≡ fs.contents id)
    → (d : Done fs fs' ps name f a) → (f d.es).0 ≡ remove d.es name
    → IsGone fs fs' (ps ++ (name ∷ []))
removed-IsGone fs fs' ps name f a same_ d e = record {
  inside = λ rest.
      d.after rest
      ∙ (ap (λ (s : Entries). view (dir s) (name ∷ rest)) e
          ∙ view_entry-none (remove d.es name) name rest (get-remove_self d.es name));
  outside = d.outside;
  contents = same_;
}

unlink_entry-removes :
    (name : Bytes) (es : Entries)
    → (unlink_entry name es).1 ≡ ok tt
    → ((unlink_entry name es).0 ≡ remove es name)
      × ((inner : Entries) → get es name ≢ some (dir inner))
unfolding unlink_entry
unlink_entry-removes name es = elim (Entry-cases es name) [
  | no_entry g ↦ rw (unlink_entry, g) (λ x. cc)
  | a_dir inner g ↦ rw (unlink_entry, g) (λ x. cc)
  | a_file id g ↦ rw (unlink_entry, g) (λ x. (refl, λ inner z. cc))
  | a_link target g ↦ rw (unlink_entry, g) (λ x. (refl, λ inner z. cc))
]

rmdir_entry-removes :
    (name : Bytes) (es : Entries)
    → (rmdir_entry name es).1 ≡ ok tt
    → ((rmdir_entry name es).0 ≡ remove es name) × (get es name ≡ some (dir end))
unfolding rmdir_entry has_none remove
rmdir_entry-removes name es = elim (Entry-cases es name) [
  | no_entry g ↦ rw (rmdir_entry, g) (λ x. cc)
  | a_dir end g ↦ rw (rmdir_entry, has_none, g) (λ x. (refl, refl))
  | a_dir (entry k n more) g ↦ rw (rmdir_entry, has_none, g) (λ x. cc)
  | a_file id g ↦ rw (rmdir_entry, g) (λ x. cc)
  | a_link target g ↦ rw (rmdir_entry, g) (λ x. cc)
]

pub entry_before :
    (fs fs' : MemVfs) (ps : List Bytes) (name : Bytes) {A : Type 0}
    (f : Entries → Entries × VfsResult A) (a : A) {n : Node}
    → (d : Done fs fs' ps name f a) → get d.es name ≡ some n
    → (rest : List Bytes) → view fs.root ((ps ++ (name ∷ [])) ++ rest) ≡ view n rest
entry_before fs fs' ps name f a d g rest = d.before rest ∙ view_entry-some d.es name rest g

-- Where `unlink` succeeds on a path with a last name, the path and all below it name nothing
-- afterwards, and no other path names anything else than before.
pub unlink-IsGone :
    (fs : MemVfs) (path : Bytes)
    → is_empty (split_parent path).1 ≡ false
    → (unlink fs path).1 ≡ ok tt
    → IsGone fs (unlink fs path).0 (parts path)
unfolding unlink
unlink-IsGone fs path named x =
    let name = (split_parent path).1 in
    let d =
      in_dir-Done fs (split_parent path).0 name (unlink_entry name) (unlink_entry-OnEntry name) tt
        x in
    rw (parts-split_parent path named) (
      removed-IsGone fs (unlink fs path).0 _ name (unlink_entry name) tt (λ id. refl) d
        (unlink_entry-removes name d.es d.result).0)

-- Where `rmdir` succeeds on a path with a last name, the path named an empty directory; it names
-- nothing afterwards, and no path that does not lie at or below it names anything else than before.
pub rmdir-IsGone :
    (fs : MemVfs) (path : Bytes)
    → is_empty (split_parent path).1 ≡ false
    → (rmdir fs path).1 ≡ ok tt
    → ((rest : List Bytes) → view fs.root (parts path ++ rest) ≡ view (dir end) rest)
      × IsGone fs (rmdir fs path).0 (parts path)
unfolding rmdir
rmdir-IsGone fs path named x =
    let name = (split_parent path).1 in
    let d =
      in_dir-Done fs (split_parent path).0 name (rmdir_entry name) (rmdir_entry-OnEntry name) tt
        x in
    let h = rmdir_entry-removes name d.es d.result in
    rw (parts-split_parent path named) (
      entry_before fs (rmdir fs path).0 (parts (split_parent path).0) name (rmdir_entry name) tt d
          h.1,
      removed-IsGone fs (rmdir fs path).0 (parts (split_parent path).0) name (rmdir_entry name) tt
          (λ id. refl) d h.0,
    )
