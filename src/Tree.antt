-- ===== src/Tree.antt =====
-- crates/wasmux/src/vfs/mem.rs: the tree of the in-memory filesystem, and its paths.
-- A `BTreeMap` is a list of entries in the order of their names. A file is the number of its
-- contents, which stands for the identity of the `Arc`. A method that takes `&mut self` returns the
-- node that it leaves.
pub mod View
pub mod Edit
pub mod Paths
pub mod Entry
use wasmux.Prelude.{
  ℕ, zero, suc, ◌+◌, Bool, true, false, ◌&&◌, ◌||◌, not, Option, none, some, List, [], ◌∷◌, ltb,
  ◌==◌, if◌then◌else◌, take, drop, Result, ok, err,
}
use wasmux.Errno.{Errno, VfsResult, noent, notdir}
use wasmux.Desc.{Bytes}
use wasmux.Path.{slash, same, is_empty, components}

mutual
  pub data Node : Type 0 where
    dir : Entries → Node
    file : ℕ → Node
    link : Bytes → Node

  pub data Entries : Type 0 where
    end : Entries
    entry : Bytes → Node → Entries → Entries

-- The order of `String`: byte by byte, a proper prefix first.
unfoldable pub less : Bytes → Bytes → Bool
less s [] = false
less [] (y ∷ ys) = true
less (x ∷ xs) (y ∷ ys) = ltb x y || (x == y && less xs ys)

-- `BTreeMap::get`
unfoldable pub get : Entries → Bytes → Option Node
unfolding same
get end name = none
get (entry key n es) name = if same key name then some n else get es name

-- `BTreeMap::insert`, which replaces the node of a key that is there.
unfoldable pub insert : Entries → Bytes → Node → Entries
unfolding same less
insert end name n = entry name n end
insert (entry key old es) name n =
    let rest = insert es name n in
    if same key name
    then entry key n es
    else if less name key
    then entry name n (entry key old es)
    else entry key old rest

-- `BTreeMap::remove`: no key occurs twice.
unfoldable pub remove : Entries → Bytes → Entries
unfolding same
remove end name = end
remove (entry key n es) name =
    let rest = remove es name in if same key name then rest else entry key n rest

-- `BTreeMap::is_empty`
unfoldable pub has_none : Entries → Bool
has_none end = true
has_none (entry key n es) = false

unfoldable pub nonempty : List Bytes → List Bytes
unfolding is_empty
nonempty [] = []
nonempty (c ∷ cs) = let rest = nonempty cs in if is_empty c then rest else c ∷ rest

unfoldable pub parts : Bytes → List Bytes
unfolding nonempty components
parts path = nonempty (components path)

-- `path.rfind('/')`
unfoldable pub rfind : Bytes → Option ℕ
rfind [] = none
rfind (c ∷ s) = elim (rfind s) [
  | some i ↦ some (suc i)
  | none ↦ if c == slash then some 0 else none
]

-- The directory of a path and its last name.
unfoldable pub split_parent : Bytes → Bytes × Bytes
unfolding rfind
split_parent path = elim (rfind path) [
  | none ↦ (slash ∷ [], path)
  | some zero ↦ (slash ∷ [], drop 1 path)
  | some (suc i) ↦ (take (suc i) path, drop (suc i + 1) path)
]

-- `Node::find`, along the components that are left.
unfoldable pub find : Node → List Bytes → Option Node
unfolding get
find n [] = some n
find (dir es) (c ∷ cs) = elim (get es c) [ none ↦ none | some child ↦ find child cs ]
find (file id) (c ∷ cs) = none
find (link target) (c ∷ cs) = none

-- `Node::dir_mut`, and what the caller does to the map that it returns.
unfoldable pub dir_mut :
    {A : Type 0} → Node → List Bytes → (Entries → Entries × VfsResult A) → Node × VfsResult A
unfolding get insert
dir_mut (dir es) [] f = let (es', r) = f es in (dir es', r)
dir_mut (file id) [] f = (file id, err notdir)
dir_mut (link target) [] f = (link target, err notdir)
dir_mut (dir es) (c ∷ cs) f = elim (get es c) [
  | none ↦ (dir es, err noent)
  | some child ↦ let (child', r) = dir_mut child cs f in (dir (insert es c child'), r)
]
dir_mut (file id) (c ∷ cs) f = (file id, err noent)
dir_mut (link target) (c ∷ cs) f = (link target, err noent)

-- `entry(name).or_insert_with(..)`: the node of the name, or a new directory.
unfoldable pub or_new : Option Node → Node
or_new none = dir end
or_new (some n) = n

unfoldable pub make_dirs : Node → List Bytes → Node
unfolding get insert or_new
make_dirs n [] = n
make_dirs (dir es) (c ∷ cs) = dir (insert es c (make_dirs (or_new (get es c)) cs))
make_dirs (file id) (c ∷ cs) = file id
make_dirs (link target) (c ∷ cs) = link target
