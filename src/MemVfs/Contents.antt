-- ===== src/MemVfs/Contents.antt =====
-- crates/wasmux/src/vfs/mem.rs: `read_file` gives back what `write_file` wrote.
use wasmux.Prelude.{
  ℕ, ◌≡◌, refl, ap, sym, ◌∙◌, inl, inr, some, List, [], ◌∷◌, ◌++◌, arith, ok, Bool-cases,
  Option-cases, Result-cases,
}
use wasmux.Desc.{Bytes}
use wasmux.Path.{is_empty}
use wasmux.Tree
use wasmux.Tree.{Node, dir, file, link, Entries, get, insert, parts, split_parent, make_dirs}
use wasmux.Tree.View.{is_file, view, view_entry-some}
use wasmux.Tree.Entry.{append_nil, view-append}
use wasmux.Tree.Paths.{parts-split_parent}
use wasmux.MemVfs.{
  MemVfs, find, in_dir, put_entry, add_file, store, with_root, write_entry, write_file, read_file,
}
use wasmux.MemVfs.Laws.{
  IsPut, no_entry, a_dir, a_file, a_link, Entry-cases, in_dir-Done, put_entry-OnEntry,
}
use wasmux.MemVfs.Update.{put_entry-IsPut}

-- What `read_file` answers, from the map of paths.
read_file-view :
    (fs : MemVfs) (path : Bytes) (id : ℕ)
    → view fs.root (parts path) ≡ some (is_file id)
    → read_file fs path ≡ ok (fs.contents id)
unfolding read_file view
read_file-view fs path id = elim (Option-cases (find fs path)) [
  | inl g ↦ rw (view, g) (λ x. cc)
  | inr (dir es, g) ↦ rw (view, g) (λ x. cc)
  | inr (file i, g) ↦ rw (view, read_file, g) (λ x. cc)
  | inr (link t, g) ↦ rw (view, g) (λ x. cc)
]

store_self : (contents : ℕ → Bytes) (id : ℕ) (bytes : Bytes) → store contents id bytes id ≡ bytes
unfolding store
store_self contents id bytes = ground arith

-- The path of an entry of a directory that `find` gives.
view_at :
    (n : Node) (ps : List Bytes) (name : Bytes) (id : ℕ) (es : Entries)
    → Tree.find n ps ≡ some (dir es)
    → get es name ≡ some (file id)
    → view n (ps ++ (name ∷ [])) ≡ some (is_file id)
unfolding view
view_at n ps name id es e g = view-append n ps (name ∷ []) e ∙ view_entry-some es name [] g

-- The file that `path` names has the given contents.
record Holds (fs : MemVfs) (ps : List Bytes) (bytes : Bytes) : Type 0 where
  id : ℕ
  named : view fs.root ps ≡ some (is_file id)
  held : fs.contents id ≡ bytes

add_file-Holds :
    (fs : MemVfs) (parent name bytes : Bytes)
    → (add_file bytes (in_dir fs parent (put_entry name (file fs.next)))).1 ≡ ok tt
    → Holds
        (add_file bytes (in_dir fs parent (put_entry name (file fs.next)))).0
        (parts parent ++ (name ∷ []))
        bytes
unfolding view
add_file-Holds fs parent name bytes =
    elim (Result-cases (in_dir fs parent (put_entry name (file fs.next))).1) [
      | inl (e, x) ↦ rw x (λ z. cc)
      | inr (u, x) ↦ rw x (λ z.
          let p : IsPut fs (in_dir fs parent (put_entry name (file fs.next))).0
              (parts parent ++ (name ∷ [])) (file fs.next) =
            put_entry-IsPut fs _ (parts parent) name (file fs.next) tt (λ id. refl)
              (in_dir-Done fs parent name (put_entry name (file fs.next))
                (put_entry-OnEntry name (file fs.next)) tt x) in
          record {
            id = fs.next;
            named =
                ap (view (in_dir fs parent (put_entry name (file fs.next))).0.root)
                  (sym (append_nil (parts parent ++ (name ∷ []))))
                ∙ p.inside [];
            held = store_self fs.contents fs.next bytes;
          })
    ]

write_entry-Holds :
    (fs : MemVfs) (parent name bytes : Bytes)
    → (write_entry fs parent name bytes).1 ≡ ok tt
    → Holds (write_entry fs parent name bytes).0 (parts parent ++ (name ∷ [])) bytes
unfolding write_entry
write_entry-Holds fs parent name bytes = elim (Option-cases (Tree.find fs.root (parts parent))) [
  | inl g ↦ rw (write_entry, g) (λ x. cc)
  | inr (file id, g) ↦ rw (write_entry, g) (λ x. cc)
  | inr (link target, g) ↦ rw (write_entry, g) (λ x. cc)
  | inr (dir es, g) ↦ elim (Entry-cases es name) [
    | a_dir inner h ↦ rw (write_entry, g, h) (λ x. cc)
    | a_link target h ↦ rw (write_entry, g, h) (λ x. cc)
    | no_entry h ↦ rw (write_entry, g, h) (add_file-Holds fs parent name bytes)
    | a_file id h ↦
        rw (write_entry, g, h)
          (λ x. record {
            id = id;
            named = view_at fs.root (parts parent) name id es g h;
            held = store_self fs.contents id bytes;
          })
  ]
]

-- After a `write_file` that succeeds, `read_file` of the same path gives the bytes back, whether
-- the file was there or was made with its parent directories.
pub read_file-write_file :
    (fs : MemVfs) (path bytes : Bytes)
    → (write_file fs path bytes).1 ≡ ok tt
    → read_file (write_file fs path bytes).0 path ≡ ok bytes
unfolding write_file
read_file-write_file fs path bytes = elim (Bool-cases (is_empty (split_parent path).1)) [
  | inl e ↦ rw (write_file, e) (λ x. cc)
  | inr e ↦
      rw (write_file, e)
        (λ x.
          let fs0 = with_root fs (make_dirs fs.root (parts (split_parent path).0)) in
          let fs' = (write_entry fs0 (split_parent path).0 (split_parent path).1 bytes).0 in
          let h = write_entry-Holds fs0 (split_parent path).0 (split_parent path).1 bytes x in
          let v : view fs'.root (parts path) ≡ some (is_file h.id) =
            rw (parts-split_parent path e) (h.named) in
          read_file-view fs' path h.id v ∙ ap ok (h.held))
]
