-- ===== src/Syscall/Files.antt =====
-- crates/wasmux/src/kernel/syscall.rs: calls on an open file or directory.
-- The handles of files are a parameter.
pub mod Listing
mod Tests
use wasmux.Prelude.{
  ℕ, suc, ◌+◌, ◌-◌, ◌*◌, ◌/◌, ◌^◌, Bool, not, Option, none, some, List, [], ◌∷◌, ◌++◌, ◌==◌, ltb,
  if◌then◌else◌, ℤ, pos, negsuc, eq_ℤ, as_i32, Result, ok, err, length, drop, replicate,
}
use wasmux.Errno.{Errno, VfsResult, badf, inval, notdir, rofs, spipe, overflow}
use wasmux.Slab
use wasmux.Slab.{Key}
use wasmux.Desc.{Bytes, Desc, DescKind, DirEnt}
use wasmux.Fd
use wasmux.Mem.{to_le_bytes, put}
use wasmux.Vfs.{SeekFrom}
use wasmux.Mounts.{Mount}
use wasmux.Ctx.{Ctx, Fault, errno, Sys, with_descs}
use wasmux.Syscall.Streams.{is_read_only}
use wasmux.Syscall.Paths.{vfs_fault, zero_of}

-- The methods `seek` and `set_len` of the trait `VfsFile`: `&mut self` is returned.
pub record SeekFile (F : Type 0) : Type 0 where
  pub seek : F → SeekFrom → F × VfsResult ℕ
  pub set_len : F → ℕ → F × VfsResult (Unit {0})

-- crates/wasmux/src/abi.rs
abbrev pub seek_set : ℤ
seek_set = pos 0

abbrev pub seek_cur : ℤ
seek_cur = pos 1

abbrev pub seek_end : ℤ
seek_end = pos 2

-- `offset.max(0) as u64`
abbrev pub not_negative : ℤ → ℕ
not_negative (pos n) = n
not_negative (negsuc n) = 0

unfoldable pub seek_from : ℤ → ℤ → Option SeekFrom
seek_from offset whence =
    if eq_ℤ whence seek_set
    then some (SeekFrom.start (not_negative offset))
    else if eq_ℤ whence seek_cur
    then some (SeekFrom.current offset)
    else if eq_ℤ whence seek_end
    then some (SeekFrom.end offset)
    else none

-- `next_multiple_of(8)` of the size of a record: its header, the name and a NUL.
unfoldable pub record_len : DirEnt → ℕ
record_len e = (19 + length e.name + 1 + 7) / 8 * 8

unfoldable pub dirent_record : DirEnt → ℕ → Bytes
unfolding to_le_bytes record_len
dirent_record e offset =
    to_le_bytes 8 e.ino
    ++ (to_le_bytes 8 offset
        ++ (to_le_bytes 2 (record_len e)
            ++ (e.kind ∷ (e.name ++ replicate (record_len e - (length e.name + 19)) 0))))

-- The loop of `getdents64` over the entries from the position on: the records that fit, and how
-- many they are.
unfoldable pub fill : List DirEnt → ℕ → ℕ → ℕ → Bytes × ℕ
unfolding dirent_record record_len
fill [] at used capacity = ([], 0)
fill (e ∷ rest) at used capacity =
    let (bytes, count) = fill rest (at + 1) (used + record_len e) capacity in
    if ltb capacity (used + record_len e)
    then ([], 0)
    else (dirent_record e (at + 1) ++ bytes, count + 1)

module _ {F : Type 0} where
  -- The entry of a descriptor and its description, or EBADF.
  unfoldable pub with_desc : Ctx F → ℤ → (Key → Desc F → Sys F ℤ) → Sys F ℤ
  with_desc c fd k = elim (Fd.get c.task.fds fd) [
    | err e ↦ (c, err (errno e))
    | ok entry ↦ elim (Slab.get c.shared.descs entry.desc) [
      | none ↦ (c, err (errno badf))
      | some d ↦ k entry.desc d
    ]
  ]

  abbrev pub put_kind : Ctx F → Key → Desc F → DescKind F → Ctx F
  put_kind c key d kind = with_descs c (Slab.put c.shared.descs key (record d { kind = kind }))

  -- The end of `lseek`: a position that does not fit the answer is an error, after the move.
  unfoldable pub answer_position : Ctx F → VfsResult ℕ → Sys F ℤ
  unfolding vfs_fault
  answer_position c r = elim (vfs_fault c r).1 [
    | err e ↦ ((vfs_fault c r).0, err e)
    | ok at ↦ (c, if ltb (2 ^ 31 - 1) at then err (errno overflow) else ok (as_i32 at))
  ]

  -- `nr::LSEEK`
  unfoldable pub lseek : SeekFile F → Ctx F → ℤ → ℤ → ℤ → Sys F ℤ
  unfolding with_desc answer_position seek_from
  lseek files c fd offset whence = with_desc c fd λ key d. elim (d.kind) [
    | DescKind.file f mount done ↦ elim (seek_from offset whence) [
      | none ↦ (c, err (errno inval))
      | some from ↦
          let (f', r) = files.seek f from in
          answer_position (put_kind c key d (DescKind.file f' mount done)) r
    ]
    | DescKind.dir entries at ↦ (
      put_kind c key d (
          DescKind.dir entries
            (if eq_ℤ whence seek_set then (if eq_ℤ offset (pos 0) then 0 else at) else at)),
      ok (pos 0),
    )
    | DescKind.null ↦ (c, ok (pos 0))
    | DescKind.zero ↦ (c, ok (pos 0))
    | DescKind.random ↦ (c, ok (pos 0))
    | _ ↦ (c, err (errno spipe))
  ]

  -- `nr::FTRUNCATE`
  unfoldable pub ftruncate : SeekFile F → List Mount → Ctx F → ℤ → ℕ → Sys F ℤ
  unfolding with_desc is_read_only vfs_fault zero_of
  ftruncate files mounts c fd size = with_desc c fd λ key d. elim (d.kind) [
    | DescKind.file f mount done ↦
        if is_read_only mounts mount
        then (c, err (errno rofs))
        else let (f', r) = files.set_len f size in
          zero_of (vfs_fault (put_kind c key d (DescKind.file f' mount done)) r)
    | _ ↦ (c, err (errno inval))
  ]

  -- The records are written to the guest once the position has moved.
  unfoldable pub put_block : Ctx F → ℕ → Bytes → Sys F ℤ
  put_block c at block = elim (put c.memory at block) [
    | err e ↦ (c, err (errno e))
    | ok m ↦ (record c { memory = m }, ok (as_i32 (length block)))
  ]

  -- `nr::GETDENTS64`: a first record that does not fit is an error.
  unfoldable pub getdents64 : Ctx F → ℤ → ℕ → ℕ → Sys F ℤ
  unfolding with_desc fill put_block
  getdents64 c fd at capacity = with_desc c fd λ key d. elim (d.kind) [
    | DescKind.dir entries from ↦
        let (block, count) = fill (drop from entries) from 0 capacity in
        if count == 0
        then elim (drop from entries) [ [] ↦ put_block c at [] | e ∷ rest ↦ (c, err (errno inval)) ]
        else put_block (put_kind c key d (DescKind.dir entries (from + count))) at block
    | _ ↦ (c, err (errno notdir))
  ]
