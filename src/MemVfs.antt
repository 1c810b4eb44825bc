-- ===== src/MemVfs.antt =====
-- crates/wasmux/src/vfs/mem.rs: the in-memory filesystem.
-- The contents of files are a store by number, `next` the first number that was never given out.
-- A method that takes the lock returns the state that it leaves; a lock is never poisoned, since no
-- method panics while it holds one.
pub mod Change
pub mod Laws
pub mod Update
pub mod Rename
pub mod Contents
pub mod Refused
mod Tests
pub mod File
use wasmux.Prelude.{
  ℕ, zero, suc, ◌+◌, Bool, true, false, ◌&&◌, ◌||◌, not, Option, none, some, List, [], ◌∷◌, ◌++◌,
  ◌==◌, if◌then◌else◌, is_some, length, Result, ok, err,
}
use wasmux.Errno.{Errno, VfsResult, noent, notdir, isdir, exist, loop, notempty, inval}
use wasmux.Desc.{Bytes}
use wasmux.Path.{slash, is_empty, is_absolute}
use wasmux.Vfs.{FileType, Stat, stat_file, stat_dir, stat_symlink, DirEntry, OpenOptions}
use wasmux.Tree
use wasmux.Tree.{
  Node, dir, file, link, Entries, end, entry, parts, split_parent, dir_mut, make_dirs, has_none,
}

pub record MemVfs : Type 0 where
  pub root : Node
  pub contents : ℕ → Bytes
  pub next : ℕ

-- An open file: `data` is the number of its contents.
pub record MemFile : Type 0 where
  pub data_ : ℕ
  pub position : ℕ
  pub append : Bool
  pub writable : Bool

unfoldable pub new : MemVfs
new = record { root = dir end; contents = λ id. []; next = 0 }

-- `*data = ..` on a file that is held by a number.
unfoldable pub store : (ℕ → Bytes) → ℕ → Bytes → ℕ → Bytes
store contents id bytes i = if i == id then bytes else contents i

-- `root.find(path)`
abbrev pub find : MemVfs → Bytes → Option Node
find fs path = Tree.find fs.root (parts path)

abbrev pub with_root : MemVfs → Node → MemVfs
with_root fs n = record fs { root = n }

-- `root.dir_mut(parent)?` and what follows it.
abbrev pub in_dir :
    {A : Type 0} → MemVfs → Bytes → (Entries → Entries × VfsResult A) → MemVfs × VfsResult A
in_dir fs path f = let (root, r) = dir_mut fs.root (parts path) f in (with_root fs root, r)

-- `entries.insert(name, node); Ok(())`
abbrev pub put_entry : Bytes → Node → Entries → Entries × VfsResult (Unit {0})
put_entry name n es = (Tree.insert es name n, ok tt)

-- A file of its own number with the given contents.
abbrev pub add_file : Bytes → MemVfs × VfsResult (Unit {0}) → MemVfs × VfsResult (Unit {0})
add_file bytes (fs, err e) = (fs, err e)
add_file bytes (fs, ok u) =
    (record fs { contents = store fs.contents fs.next bytes; next = fs.next + 1 }, ok u)

unfoldable pub mkdir_all : MemVfs → Bytes → MemVfs × VfsResult (Unit {0})
mkdir_all fs path = (with_root fs (make_dirs fs.root (parts path)), ok tt)

-- `write_file` once the directory is there. The entry that it looks up is the one that `find`
-- gives for the directory's components and the name.
unfoldable pub write_entry : MemVfs → Bytes → Bytes → Bytes → MemVfs × VfsResult (Unit {0})
unfolding store
write_entry fs parent name bytes = elim (Tree.find fs.root (parts parent)) [
  | none ↦ (fs, err noent)
  | some (file id) ↦ (fs, err notdir)
  | some (link target) ↦ (fs, err notdir)
  | some (dir es) ↦ elim (Tree.get es name) [
    | some (file id) ↦ (record fs { contents = store fs.contents id bytes }, ok tt)
    | some (dir inner) ↦ (fs, err isdir)
    | some (link target) ↦ (fs, err isdir)
    | none ↦ add_file bytes (in_dir fs parent (put_entry name (file fs.next)))
  ]
]

unfoldable pub write_file : MemVfs → Bytes → Bytes → MemVfs × VfsResult (Unit {0})
unfolding write_entry
write_file fs path bytes =
    let (parent, name) = split_parent path in
    if is_empty name
    then (fs, err isdir)
    else write_entry (with_root fs (make_dirs fs.root (parts parent))) parent name bytes

unfoldable pub read_file : MemVfs → Bytes → VfsResult Bytes
read_file fs path = elim (find fs path) [
  | some (file id) ↦ ok (fs.contents id)
  | some (dir es) ↦ err isdir
  | some (link target) ↦ err noent
  | none ↦ err noent
]

-- `Node::stat`
unfoldable pub stat_node : MemVfs → Node → Stat
unfolding stat_dir stat_file stat_symlink
stat_node fs (dir es) = stat_dir
stat_node fs (file id) = stat_file (length (fs.contents id))
stat_node fs (link target) = stat_symlink (length target)

-- `trim_end_matches('/')`
unfoldable pub trim_end : Bytes → Bytes
trim_end [] = []
trim_end (c ∷ s) = let rest = trim_end s in if is_empty rest && c == slash then [] else c ∷ rest

stat_found : MemVfs → Option Node → VfsResult Stat
unfolding stat_node
stat_found fs none = err noent
stat_found fs (some n) = ok (stat_node fs n)

unfoldable pub stat : MemVfs → Bytes → Bool → VfsResult Stat
unfolding stat_node trim_end stat_found
stat fs path follow = elim (find fs path) [
  | some (link target) ↦
      if not follow
      then ok (stat_node fs (link target))
      else if is_absolute target
      then stat_found fs (find fs target)
      else stat_found fs (find fs (trim_end (split_parent path).0 ++ (slash ∷ target)))
  | other ↦ stat_found fs other
]

-- The position of a new handle.
opened : MemVfs → OpenOptions → ℕ → MemFile
opened fs opts id = record {
  data_ = id;
  position = if opts.append then length (fs.contents id) else 0;
  append = opts.append;
  writable = opts.write || opts.append;
}

-- A handle on a file that `open` creates, if its directory is there.
open_added : OpenOptions → ℕ → MemVfs × VfsResult (Unit {0}) → MemVfs × VfsResult MemFile
unfolding opened
open_added opts id (fs, err e) = (fs, err e)
open_added opts id (fs, ok u) = (fs, ok (opened fs opts id))

unfoldable pub open_file : MemVfs → Bytes → OpenOptions → MemVfs × VfsResult MemFile
unfolding opened open_added store
open_file fs path opts =
    let (parent, name) = split_parent path in
    if is_empty name then (fs, err isdir) else elim (find fs path) [
      | some (dir es) ↦ (fs, err isdir)
      | some (link target) ↦ (fs, err loop)
      | some (file id) ↦
          if opts.create_new
          then (fs, err exist)
          else let fs' =
              if opts.truncate && opts.write
              then record fs { contents = store fs.contents id [] }
              else fs in
            (fs', ok (opened fs' opts id))
      | none ↦
          if not opts.create && not opts.create_new
          then (fs, err noent)
          else open_added opts fs.next
              (add_file [] (in_dir fs parent (put_entry name (file fs.next))))
    ]

-- The type of an entry.
abbrev pub type_of : Node → FileType
type_of (dir es) = FileType.dir
type_of (file id) = FileType.file
type_of (link target) = FileType.symlink

unfoldable pub listing : Entries → List DirEntry
listing end = []
listing (entry name n es) =
    record { name = name; file_type = some (type_of n); ino = 0 } ∷ listing es

unfoldable pub readdir : MemVfs → Bytes → VfsResult (List DirEntry)
unfolding listing
readdir fs path = elim (find fs path) [
  | some (dir es) ↦ ok (listing es)
  | some (file id) ↦ err notdir
  | some (link target) ↦ err notdir
  | none ↦ err noent
]

unfoldable pub readlink : MemVfs → Bytes → VfsResult Bytes
readlink fs path = elim (find fs path) [
  | some (link target) ↦ ok target
  | some (dir es) ↦ err inval
  | some (file id) ↦ err inval
  | none ↦ err noent
]
