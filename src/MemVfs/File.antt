-- ===== src/MemVfs/File.antt =====
-- crates/wasmux/src/vfs/mem.rs: `MemFile`, an open file of the in-memory filesystem.
-- The lock is on the contents of the file, which the filesystem holds by number. Contents larger
-- than memory, where `Vec::resize` aborts the program, are not modelled.
pub mod Laws
use wasmux.Prelude.{
  ℕ, ◌+◌, ◌-◌, ◌^◌, min, Bool, true, false, not, List, ◌++◌, ltb, if◌then◌else◌, length, take, drop,
  replicate, ℤ, pos, negsuc, as_i64, add_i64, Result, ok, err,
}
use wasmux.Errno.{Errno, VfsResult, badf, inval}
use wasmux.Desc.{Bytes}
use wasmux.Vfs.{Stat, stat_file, SeekFrom}
use wasmux.MemVfs.{MemVfs, MemFile, store}

-- `Vec::resize` with zeros.
unfoldable pub resize : Bytes → ℕ → Bytes
resize bytes n = take n bytes ++ replicate (n - length bytes) 0

unfoldable pub read : MemVfs → MemFile → ℕ → MemFile × VfsResult Bytes
read fs f n =
    let bytes = fs.contents f.data_ in
    let available = drop (min f.position (length bytes)) bytes in
    let count = min (length available) n in
    (record f { position = min (f.position + count) (2 ^ 64 - 1) }, ok (take count available))

-- Bytes that are written at a position, after zeros where the contents are shorter.
unfoldable pub overwrite : Bytes → ℕ → Bytes → Bytes
unfolding resize
overwrite old at bytes =
    let end = min (at + length bytes) (2 ^ 64 - 1) in
    let grown = if ltb (length old) end then resize old end else old in
    take at grown ++ (bytes ++ drop end grown)

unfoldable pub write : MemVfs → MemFile → Bytes → MemVfs × (MemFile × VfsResult ℕ)
unfolding overwrite store
write fs f bytes =
    if not f.writable
    then (fs, (f, err badf))
    else let old = fs.contents f.data_ in
      let at = if f.append then length old else f.position in
      (
        record fs { contents = store fs.contents f.data_ (overwrite old at bytes) },
        (record f { position = min (at + length bytes) (2 ^ 64 - 1) }, ok (length bytes)),
      )

-- The position that a seek asks for, an `i64`.
unfoldable pub target : MemVfs → MemFile → SeekFrom → ℤ
target fs f (SeekFrom.start p) = as_i64 p
target fs f (SeekFrom.end d) = add_i64 (as_i64 (length (fs.contents f.data_))) d
target fs f (SeekFrom.current d) = add_i64 (as_i64 f.position) d

unfoldable pub seek : MemVfs → MemFile → SeekFrom → MemFile × VfsResult ℕ
unfolding target
seek fs f from = elim (target fs f from) [
  | pos n ↦ (record f { position = n }, ok n)
  | negsuc n ↦ (f, err inval)
]

unfoldable pub stat : MemVfs → MemFile → VfsResult Stat
unfolding stat_file
stat fs f = ok (stat_file (length (fs.contents f.data_)))

unfoldable pub set_len : MemVfs → MemFile → ℕ → MemVfs × VfsResult (Unit {0})
unfolding resize store
set_len fs f len = if not f.writable then (fs, err badf) else (
  record fs { contents = store fs.contents f.data_ (resize (fs.contents f.data_) len) },
  ok tt,
)
