-- ===== src/Vfs.antt =====
-- crates/wasmux/src/vfs/mod.rs: what the kernel asks of a filesystem that an embedder supplies.
use wasmux.Prelude.{ℕ, Bool, false, ℤ, pos, Option}
use wasmux.Errno.{VfsResult}
use wasmux.Desc.{Bytes}

pub data FileType : Type 0 where
  file dir symlink : FileType

pub record Stat : Type 0 where
  pub file_type : FileType
  pub size : ℕ
  pub mode : ℕ
  pub ino : ℕ
  pub mtime : ℤ × ℕ
  pub nlink : ℕ

unfoldable pub stat_file : ℕ → Stat
stat_file size = record {
  file_type = file;
  size = size;
  mode = 0;
  ino = 0;
  mtime = (pos 0, 0);
  nlink = 1;
}

unfoldable pub stat_dir : Stat
stat_dir = record { file_type = dir; size = 0; mode = 0; ino = 0; mtime = (pos 0, 0); nlink = 1 }

unfoldable pub stat_symlink : ℕ → Stat
stat_symlink len = record {
  file_type = symlink;
  size = len;
  mode = 0;
  ino = 0;
  mtime = (pos 0, 0);
  nlink = 1;
}

-- The part of the trait `Vfs` that name resolution calls. Within one resolution the filesystem
-- does not change, so that its methods are functions.
pub record Vfs : Type 0 where
  pub has_symlinks : Bool
  pub stat : Bytes → Bool → VfsResult Stat
  pub readlink : Bytes → VfsResult Bytes

-- The part of the trait `VfsFile` that read(2) and write(2) call, for handles `F`: `&mut self` is
-- returned. A read of at most `n` bytes answers with the bytes at the front of the buffer, a write
-- with how many it took.
pub record VfsFile (F : Type 0) : Type 0 where
  pub read : F → ℕ → F × VfsResult Bytes
  pub write : F → Bytes → F × VfsResult ℕ

pub record DirEntry : Type 0 where
  pub name : Bytes
  pub file_type : Option FileType
  pub ino : ℕ

-- `i64` offsets are signed.
pub data SeekFrom : Type 0 where
  start : ℕ → SeekFrom
  end : ℤ → SeekFrom
  current : ℤ → SeekFrom

pub record OpenOptions : Type 0 where
  pub read : Bool
  pub write : Bool
  pub append : Bool
  pub create : Bool
  pub create_new : Bool
  pub truncate : Bool
  pub mode : ℕ

-- `OpenOptions::new`
abbrev pub no_options : OpenOptions
no_options = record {
  read = false;
  write = false;
  append = false;
  create = false;
  create_new = false;
  truncate = false;
  mode = 0o644;
}
