-- ===== src/MemVfs/Rename.antt =====
-- crates/wasmux/src/vfs/mem.rs: `rename` moves a tree or changes nothing, and a call that is refused
-- changes nothing.
use wasmux.Prelude.{
  ℕ, ◌||◌, ◌≡◌, refl, sym, ◌∙◌, inl, inr, none, some, List, ◌++◌, ok, err, Bool-cases, Option-cases,
  Result-cases,
}
use wasmux.Errno.{Errno, VfsResult}
use wasmux.Desc.{Bytes}
use wasmux.Path.{is_empty}
use wasmux.Tree.{Node, Entries, get, remove, parts, split_parent}
use wasmux.Tree.View.{is_dir, view, view-is_dir, IsApart}
use wasmux.Tree.Edit.{at_dir, no_dir, dir_mut-Found}
use wasmux.Tree.Entry.{continues}
use wasmux.Tree.Paths.{parts-split_parent}
use wasmux.MemVfs.{MemVfs, in_dir, put_entry}
use wasmux.MemVfs.Change.{take_entry, place, rename}
use wasmux.MemVfs.Laws.{
  IsSame, IsPut, IsGone, in_dir-refused, in_dir-Done, put_entry-OnEntry, take_entry-OnEntry,
}
use wasmux.MemVfs.Update.{at_name, put_entry-IsPut, removed-IsGone, entry_before}

-- The tree at `from` stands at `to`; what else was at `from` is gone, and the rest is as before.
pub record IsMoved (fs fs' : MemVfs) (from to : List Bytes) : Type 0 where
  pub at_to : (rest : List Bytes) → view fs'.root (to ++ rest) ≡ view fs.root (from ++ rest)
  pub at_from :
      (rest : List Bytes) → IsApart to (from ++ rest) → view fs'.root (from ++ rest) ≡ none
  pub outside : (q : List Bytes) → IsApart from q → IsApart to q → view fs'.root q ≡ view fs.root q
  pub contents : (id : ℕ) → fs'.contents id ≡ fs.contents id

take_entry-removes :
    (name : Bytes) (es : Entries) (n : Node)
    → (take_entry name es).1 ≡ ok n
    → ((take_entry name es).0 ≡ remove es name) × (get es name ≡ some n)
unfolding take_entry
take_entry-removes name es n = elim (Option-cases (get es name)) [
  | inl g ↦ rw (take_entry, g) (λ x. cc)
  | inr (m, g) ↦ rw (take_entry, g) (λ x. (refl, cc))
]

-- The state between the two halves of a rename: `n` was taken out at the path.
record Taken (fs fs1 : MemVfs) (path : Bytes) (n : Node) : Type 0 where
  gone : IsGone fs fs1 (at_name path)
  parent : view fs1.root (parts (split_parent path).0) ≡ some is_dir
  was : (rest : List Bytes) → view fs.root (at_name path ++ rest) ≡ view n rest

take-Taken :
    (fs : MemVfs) (path : Bytes) (n : Node)
    → (in_dir fs (split_parent path).0 (take_entry (split_parent path).1)).1 ≡ ok n
    → Taken fs (in_dir fs (split_parent path).0 (take_entry (split_parent path).1)).0 path n
take-Taken fs path n x =
    let name = (split_parent path).1 in
    let fs1 = (in_dir fs (split_parent path).0 (take_entry name)).0 in
    let d =
      in_dir-Done fs (split_parent path).0 name (take_entry name) (take_entry-OnEntry name) n x in
    let h = take_entry-removes name d.es n d.result in
    record {
      gone =
          removed-IsGone fs fs1 (parts (split_parent path).0) name (take_entry name) n (λ id. refl)
            d h.0;
      parent = d.parent;
      was = entry_before fs fs1 (parts (split_parent path).0) name (take_entry name) n d h.1;
    }

Taken-IsMoved :
    (fs fs1 fs2 : MemVfs) (from : Bytes) (to : List Bytes) (n : Node)
    → Taken fs fs1 from n
    → IsPut fs1 fs2 to n
    → IsMoved fs fs2 (at_name from) to
Taken-IsMoved fs fs1 fs2 from to n t p = record {
  at_to = λ rest. p.inside rest ∙ sym (t.was rest);
  at_from = λ rest apart. p.outside (at_name from ++ rest) apart ∙ t.gone.inside rest;
  outside = λ q a b. p.outside q b ∙ t.gone.outside q a;
  contents = λ id. p.contents id ∙ t.gone.contents id;
}

-- The tree that was taken out is put back.
Taken-IsSame :
    (fs fs1 fs2 fs3 : MemVfs) (from : Bytes) (n : Node)
    → Taken fs fs1 from n
    → IsSame fs1 fs2
    → IsPut fs2 fs3 (at_name from) n
    → IsSame fs fs3
Taken-IsSame fs fs1 fs2 fs3 from n t s p = record {
  paths = λ q. elim (continues (at_name from) q) [
    | inl (rest, e) ↦ rw (sym e) (p.inside rest ∙ sym (t.was rest))
    | inr apart ↦ p.outside q apart ∙ (s.paths q ∙ t.gone.outside q apart)
  ];
  contents = λ id. p.contents id ∙ (s.contents id ∙ t.gone.contents id);
}

put-ok :
    (fs : MemVfs) (path name : Bytes) (n : Node)
    → view fs.root (parts path) ≡ some is_dir
    → (in_dir fs path (put_entry name n)).1 ≡ ok tt
put-ok fs path name n v = elim (dir_mut-Found fs.root (parts path) (put_entry name n)) [
  | no_dir e r none_ keep ↦ let h = view-is_dir fs.root (parts path) v in absurd (none_ h.0 h.1)
  | at_dir es ed r ↦ r
]

in_dir-IsPut :
    (fs : MemVfs) (path : Bytes) (n : Node)
    → (in_dir fs (split_parent path).0 (put_entry (split_parent path).1 n)).1 ≡ ok tt
    → IsPut fs
        (in_dir fs (split_parent path).0 (put_entry (split_parent path).1 n)).0
        (at_name path)
        n
in_dir-IsPut fs path n x =
    let name = (split_parent path).1 in
    put_entry-IsPut fs (in_dir fs (split_parent path).0 (put_entry name n)).0 _ name n tt
      (λ id. refl)
      (in_dir-Done fs (split_parent path).0 name (put_entry name n) (put_entry-OnEntry name n) tt x)

-- The second half of a rename, from and to the paths.
abbrev place_at : MemVfs → Bytes → Bytes → Node → MemVfs × VfsResult (Unit {0})
place_at fs from to n =
    place fs (split_parent from).0 (split_parent from).1 (split_parent to).0 (split_parent to).1 n

place-IsMoved :
    (fs fs1 : MemVfs) (from to : Bytes) (n : Node)
    → Taken fs fs1 from n
    → (place_at fs1 from to n).1 ≡ ok tt
    → IsMoved fs (place_at fs1 from to n).0 (at_name from) (at_name to)
unfolding place
place-IsMoved fs fs1 from to n t =
    elim (Result-cases (in_dir fs1 (split_parent to).0 (put_entry (split_parent to).1 n)).1) [
      | inl (e, x) ↦ rw (place, x) (λ z. cc)
      | inr (u, x) ↦
          rw (place, x)
            (λ z. Taken-IsMoved fs fs1 _ from (at_name to) n t (in_dir-IsPut fs1 to n x))
    ]

place-refused :
    (fs fs1 : MemVfs) (from to : Bytes) (n : Node) (e : Errno)
    → Taken fs fs1 from n
    → (place_at fs1 from to n).1 ≡ err e
    → IsSame fs (place_at fs1 from to n).0
unfolding place
place-refused fs fs1 from to n e t =
    let fs2 = (in_dir fs1 (split_parent to).0 (put_entry (split_parent to).1 n)).0 in
    elim (Result-cases (in_dir fs1 (split_parent to).0 (put_entry (split_parent to).1 n)).1) [
      | inr (u, x) ↦ rw (place, x) (λ z. cc)
      | inl (e', x) ↦
          rw (place, x)
            (λ z.
              let s : IsSame fs1 fs2 =
                in_dir-refused fs1 (split_parent to).0 (split_parent to).1
                  (put_entry (split_parent to).1 n) (put_entry-OnEntry (split_parent to).1 n) e'
                  x in
              Taken-IsSame fs fs1 fs2 _ from n t s
                (in_dir-IsPut fs2 from n (put-ok fs2 _ _ n (s.paths _ ∙ t.parent))))
    ]

-- Where `rename` succeeds, the tree that was at `from` stands at `to`, in place of what was there;
-- nothing else is left at or below `from`, and every other path names what it named before.
pub rename-IsMoved :
    (fs : MemVfs) (from to : Bytes)
    → (rename fs from to).1 ≡ ok tt
    → IsMoved fs (rename fs from to).0 (parts from) (parts to)
unfolding rename
rename-IsMoved fs from to = elim (Bool-cases (is_empty (split_parent from).1)) [
  | inl c ↦ rw (rename, c) (λ x. cc)
  | inr c ↦ elim (Bool-cases (is_empty (split_parent to).1)) [
    | inl d ↦ rw (rename, c, d) (λ x. cc)
    | inr d ↦
        elim (Result-cases (in_dir fs (split_parent from).0 (take_entry (split_parent from).1)).1) [
          | inl (e, y) ↦ rw (rename, c, d, y) (λ x. cc)
          | inr (n, y) ↦
              rw (parts-split_parent from c, parts-split_parent to d, rename, c, d, y)
                (place-IsMoved fs _ from to n (take-Taken fs from n y))
        ]
  ]
]

pub rename-refused :
    (fs : MemVfs) (from to : Bytes) (e : Errno)
    → (rename fs from to).1 ≡ err e
    → IsSame fs (rename fs from to).0
unfolding rename
rename-refused fs from to e =
    elim (Bool-cases (is_empty (split_parent from).1 || is_empty (split_parent to).1)) [
      | inl c ↦ rw (rename, c) (λ x. record { paths = λ q. refl; contents = λ id. refl })
      | inr c ↦
          elim (Result-cases
            (in_dir fs (split_parent from).0 (take_entry (split_parent from).1)).1) [
              | inl (e', y) ↦
                  rw (rename, c, y)
                    (λ x.
                      in_dir-refused fs (split_parent from).0 (split_parent from).1
                        (take_entry (split_parent from).1)
                        (take_entry-OnEntry (split_parent from).1) e' y)
              | inr (n, y) ↦
                  rw (rename, c, y) (place-refused fs _ from to n e (take-Taken fs from n y))
            ]
    ]
