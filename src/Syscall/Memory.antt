-- ===== src/Syscall/Memory.antt =====
-- crates/wasmux/src/kernel/syscall.rs: brk(2) and mmap(2), which grow the guest's memory.
-- `grow`, the engine's `mem_grow`, is a parameter: the new memory and the number of pages before, or
-- a refusal. So are the handles of files.
pub mod Charge
mod Tests
use Prim.Native.Nat.{bit_and}
use wasmux.Prelude.{
  ℕ, zero, suc, ◌+◌, ◌-◌, ◌*◌, ◌/◌, ◌%◌, ◌^◌, min, Bool, true, false, ◌&&◌, ◌||◌, not, Option, none,
  some, List, [], ◌++◌, ◌==◌, ltb, leb, if◌then◌else◌, ℤ, pos, as_i32, Result, ok, err, length,
  replicate,
}
use wasmux.Errno.{Errno, VfsResult, badf, inval, nomem, nodev}
use wasmux.Desc.{Bytes, Desc, DescKind}
use wasmux.Slab.{Key}
use wasmux.Mem.{put}
use wasmux.Vfs.{VfsFile, SeekFrom}
use wasmux.Shared.{Shared, add_u64, charge_memory, release_memory}
use wasmux.Ctx.{Ctx, Fault, errno, Sys, with_shared}
use wasmux.Syscall.Paths.{vfs_fault}
use wasmux.Syscall.Files.{SeekFile, with_desc, put_kind}

-- crates/wasmux/src/kernel/mod.rs
abbrev pub page : ℕ
page = 65536

-- crates/wasmux/src/abi.rs
abbrev pub map_fixed : ℕ
map_fixed = 0x10

abbrev pub map_anonymous : ℕ
map_anonymous = 0x20

-- `n.div_ceil(PAGE)`
abbrev pub pages_for : ℕ → ℕ
pages_for n = (n + 65535) / page

-- `pages.saturating_mul(PAGE)`
abbrev pub page_bytes : ℕ → ℕ
page_bytes pages = min (pages * page) (2 ^ 64 - 1)

module _ {F : Type 0} where
  -- The buffer, zeros behind what was read, goes to the new memory.
  unfoldable pub put_mapping : ℕ → ℕ → Sys F Bytes → Sys F ℤ
  put_mapping at size (c, err e) = (c, err e)
  put_mapping at size (c, ok bytes) =
      elim (put c.memory at (bytes ++ replicate (size - length bytes) 0)) [
        | err e ↦ (c, err (errno e))
        | ok m ↦ (record c { memory = m }, ok (as_i32 at))
      ]

  module _ (files : VfsFile F) (seeks : SeekFile F) where
    -- The loop that fills a buffer, with `rounds` for the reads: each adds a byte at least.
    unfoldable pub read_all : ℕ → F → ℕ → F × VfsResult Bytes
    read_all zero f room = (f, ok [])
    read_all (suc rounds) f room =
        if room == 0
        then (f, ok [])
        else let (f', r) = files.read f room in
          elim r [
            | err e ↦ (f', err e)
            | ok bytes ↦
                if length bytes == 0
                then (f', ok [])
                else let (f'', rest) = read_all rounds f' (room - length bytes) in
                  (f'', elim rest [ err e ↦ err e | ok more ↦ ok (bytes ++ more) ])
          ]

    -- The file is read from the offset and its position put back, but not where a step fails.
    unfoldable pub read_mapping : F → ℕ → ℕ → F × VfsResult Bytes
    unfolding read_all
    read_mapping f offset size =
        let (f₁, saved) = seeks.seek f (SeekFrom.current (pos 0)) in
        elim saved [
          | err e ↦ (f₁, err e)
          | ok at ↦
              let (f₂, moved) = seeks.seek f₁ (SeekFrom.start (min (offset * 4096) (2 ^ 64 - 1))) in
              elim moved [
                | err e ↦ (f₂, err e)
                | ok there ↦
                    let (f₃, r) = read_all size f₂ size in
                    elim r [
                      | err e ↦ (f₃, err e)
                      | ok bytes ↦ ((seeks.seek f₃ (SeekFrom.start at)).0, ok bytes)
                    ]
              ]
        ]

    -- The part of `sys_mmap` that reads a file, on a description of one kind.
    unfoldable pub map_kind : Ctx F → Key → Desc F → ℕ → ℕ → ℕ → DescKind F → Sys F ℤ
    unfolding read_mapping put_mapping
    map_kind c key d offset at size (DescKind.file f mount done) =
        let (f', r) = read_mapping f offset size in
        put_mapping at size (vfs_fault (put_kind c key d (DescKind.file f' mount done)) r)
    map_kind c key d offset at size _ = (c, err (errno nodev))

    unfoldable pub map_file : Ctx F → ℤ → ℕ → ℕ → ℕ → Sys F ℤ
    unfolding map_kind
    map_file c fd offset at size = with_desc c fd λ key d. map_kind c key d offset at size (d.kind)

    -- What `sys_mmap` answers once the memory is grown or refused.
    unfoldable pub map_grown : ℕ → ℕ → ℤ → ℕ → Ctx F × Option ℕ → Sys F ℤ
    unfolding map_file
    map_grown size flags fd offset (c, none) = (c, err (errno nomem))
    map_grown size flags fd offset (c, some previous) =
        let at = page_bytes previous % 2 ^ 32 in
        if bit_and flags map_anonymous == 0
        then map_file c fd offset at size
        else (c, ok (as_i32 at))

module _ {F : Type 0} (grow : Bytes → ℕ → Option (Bytes × ℕ)) where
  -- The memory is charged, then grown; a growth that is refused gives the charge back.
  unfoldable pub grow_by : Ctx F → ℕ → Ctx F × Option ℕ
  unfolding charge_memory release_memory
  grow_by c pages =
      let bytes = page_bytes pages in
      let (sh, charged) = charge_memory c.shared bytes in
      if not charged then (with_shared c sh, none) else elim (grow c.memory pages) [
        | none ↦ (with_shared c (release_memory sh bytes), none)
        | some (m, previous) ↦
            (record c { shared = sh; memory = m; grown = add_u64 c.grown bytes }, some previous)
      ]

  -- `sys_brk`
  unfoldable pub sys_brk : Ctx F → ℕ → Sys F ℤ
  unfolding grow_by
  sys_brk c request =
      let current = length c.memory in
      if request == 0 || leb request current
      then (c, ok (as_i32 current))
      else if ltb c.shared.limits.memory_per_process request
      then (c, ok (as_i32 current))
      else let (c', r) = grow_by c (pages_for (request - current)) in
        (c', ok (elim r [ none ↦ as_i32 current | some previous ↦ as_i32 request ]))

  -- `sys_mmap`: the flags are the bits of the argument, the offset is the `u64` that it is cast to.
  unfoldable pub sys_mmap : VfsFile F → SeekFile F → Ctx F → ℕ → ℕ → ℕ → ℤ → ℕ → Sys F ℤ
  unfolding grow_by map_grown
  sys_mmap files seeks c addr size flags fd offset =
      if size == 0
      then (c, err (errno inval))
      else if not (bit_and flags map_fixed == 0) && not (addr == 0)
      then (c, err (errno nomem))
      else if ltb c.shared.limits.memory_per_process
          (add_u64 (length c.memory) (page_bytes (pages_for size)))
      then (c, err (errno nomem))
      else map_grown files seeks size flags fd offset (grow_by c (pages_for size))
