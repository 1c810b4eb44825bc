-- ===== src/Syscall/Memory/Charge.antt =====
-- crates/wasmux/src/kernel/syscall.rs: the memory that is charged for a process.
use wasmux.Prelude.{
  ℕ, ◌+◌, ◌-◌, ◌^◌, ◌≤◌, ◌<◌, true, false, ◌&&◌, ◌||◌, not, ◌≡◌, refl, inl, inr, Option, none, some,
  arith, ◌==◌, ltb, leb, length, Bool-cases, Option-cases, ℤ, ok, err, Result-cases, ◌++◌,
  replicate, List, [], ◌∷◌,
}
use Prim.Native.Nat.{bit_and}
use wasmux.Errno.{VfsResult, again, is}
use wasmux.Desc.{Bytes, Desc, DescKind}
use wasmux.Slab
use wasmux.Slab.{Key}
use wasmux.Fd
use wasmux.Mem.{put}
use wasmux.Vfs.{VfsFile}
use wasmux.Shared.{Shared, add_u64, charge_memory, release_memory}
use wasmux.Ctx.{Ctx, Sys}
use wasmux.Syscall.Paths.{vfs_fault}
use wasmux.Syscall.Files.{SeekFile, with_desc}
use wasmux.Syscall.Memory.{
  map_fixed, map_anonymous, page_bytes, pages_for, grow_by, sys_brk, put_mapping, map_kind,
  map_file, map_grown, sys_mmap,
}

module _ {F : Type 0} where
  -- What the session charges is within its limit, and covers what the process has grown by.
  pub record IsCharged (c : Ctx F) : Type 0 where
    pub within : c.shared.memory_used ≤ c.shared.limits.memory
    pub covers : c.grown ≤ c.shared.memory_used
    pub fits : c.shared.limits.memory < 2 ^ 64 - 1

  -- The charge is kept in order, and the session and the process count the same growth.
  pub record IsMatched (c c' : Ctx F) : Type 0 where
    pub charged : IsCharged c'
    pub equal : c'.shared.memory_used + c.grown ≡ c.shared.memory_used + c'.grown

  same-IsMatched : (c : Ctx F) → IsCharged c → IsMatched c c
  same-IsMatched c h = record { charged = h; equal = refl }

  pub charge_memory-full :
      (sh : Shared F) (bytes : ℕ)
      → ltb sh.limits.memory (add_u64 sh.memory_used bytes) ≡ true
      → charge_memory sh bytes ≡ (sh, false)
  unfolding charge_memory
  charge_memory-full sh bytes e = rw (charge_memory, e) refl

  pub charge_memory-fits :
      (sh : Shared F) (bytes : ℕ)
      → ltb sh.limits.memory (add_u64 sh.memory_used bytes) ≡ false
      → charge_memory sh bytes ≡ (record sh { memory_used = add_u64 sh.memory_used bytes }, true)
  unfolding charge_memory
  charge_memory-fits sh bytes e = rw (charge_memory, e) refl

module _ {F : Type 0} (c₀ : Ctx F) where
  -- What is counted stays where only descriptions, flags and bytes of the memory change.
  keep :
      (c c' : Ctx F)
      → c'.shared.memory_used ≡ c.shared.memory_used
      → c'.shared.limits.memory ≡ c.shared.limits.memory
      → c'.grown ≡ c.grown
      → IsMatched c₀ c
      → IsMatched c₀ c'
  keep c c' m l g h = record {
    charged = record {
      within = omega (arith, m, l, h);
      covers = omega (arith, m, g, h);
      fits = omega (arith, l, h);
    };
    equal = omega (arith, m, g, h);
  }

  with_desc-IsMatched :
      (c : Ctx F) (fd : ℤ) (k : Key → Desc F → Sys F ℤ)
      → IsMatched c₀ c
      → ((key : Key) (d : Desc F) → IsMatched c₀ (k key d).0)
      → IsMatched c₀ (with_desc c fd k).0
  unfolding with_desc
  with_desc-IsMatched c fd k h f = elim (Result-cases (Fd.get c.task.fds fd)) [
    | inl (e, p) ↦ rw (with_desc, p) h
    | inr (entry, p) ↦ elim (Option-cases (Slab.get c.shared.descs entry.desc)) [
      | inl q ↦ rw (with_desc, p, q) h
      | inr (d, q) ↦ rw (with_desc, p, q) (f entry.desc d)
    ]
  ]

  vfs_fault-IsMatched :
      {A : Type 0} (c : Ctx F) (r : VfsResult A) → IsMatched c₀ c → IsMatched c₀ (vfs_fault c r).0
  unfolding vfs_fault
  vfs_fault-IsMatched c (ok a) h = h
  vfs_fault-IsMatched c (err e) h = elim (Bool-cases (is e again)) [
    | inl p ↦ rw (vfs_fault, p) (keep c _ refl refl refl h)
    | inr p ↦ rw (vfs_fault, p) h
  ]

  put_mapping-IsMatched :
      (at size : ℕ) (r : Sys F Bytes) → IsMatched c₀ (r.0) → IsMatched c₀ (put_mapping at size r).0
  unfolding put_mapping
  put_mapping-IsMatched at size (c, err e) h = h
  put_mapping-IsMatched at size (c, ok bytes) h =
      elim (Result-cases (put c.memory at (bytes ++ replicate (size - length bytes) 0))) [
        | inl (e, p) ↦ rw (put_mapping, p) h
        | inr (m, p) ↦ rw (put_mapping, p) (keep c _ refl refl refl h)
      ]

  map_kind-IsMatched :
      (files : VfsFile F) (seeks : SeekFile F) (c : Ctx F) (key : Key) (d : Desc F)
      (offset at size : ℕ) (kind : DescKind F)
      → IsMatched c₀ c
      → IsMatched c₀ (map_kind files seeks c key d offset at size kind).0
  unfolding map_kind
  map_kind-IsMatched files seeks c key d offset at size (DescKind.file f mount done) h =
      put_mapping-IsMatched at size _ (vfs_fault-IsMatched _ _ (keep c _ refl refl refl h))
  map_kind-IsMatched files seeks c key d offset at size _ h = h

  map_file-IsMatched :
      (files : VfsFile F) (seeks : SeekFile F) (c : Ctx F) (fd : ℤ) (offset at size : ℕ)
      → IsMatched c₀ c
      → IsMatched c₀ (map_file files seeks c fd offset at size).0
  unfolding map_file
  map_file-IsMatched files seeks c fd offset at size h =
      with_desc-IsMatched c fd _ h
        λ key d. map_kind-IsMatched files seeks c key d offset at size (d.kind) h

  map_grown-IsMatched :
      (files : VfsFile F) (seeks : SeekFile F) (size flags : ℕ) (fd : ℤ) (offset : ℕ)
      (r : Ctx F × Option ℕ)
      → IsMatched c₀ (r.0)
      → IsMatched c₀ (map_grown files seeks size flags fd offset r).0
  unfolding map_grown
  map_grown-IsMatched files seeks size flags fd offset (c, none) h = h
  map_grown-IsMatched files seeks size flags fd offset (c, some previous) h =
      elim (Bool-cases (bit_and flags map_anonymous == 0)) [
        | inl e ↦ rw (map_grown, e) (map_file-IsMatched files seeks c fd offset _ size h)
        | inr e ↦ rw (map_grown, e) h
      ]

module _ {F : Type 0} (grow : Bytes → ℕ → Option (Bytes × ℕ)) where
  grow_by-IsMatched : (c : Ctx F) (pages : ℕ) → IsCharged c → IsMatched c (grow_by grow c pages).0
  unfolding grow_by release_memory
  grow_by-IsMatched c pages h =
      let bytes = page_bytes pages in
      elim (Bool-cases (ltb c.shared.limits.memory (add_u64 c.shared.memory_used bytes))) [
        | inl e ↦ rw (grow_by, charge_memory-full c.shared bytes e) (same-IsMatched c h)
        | inr e ↦
            let le : add_u64 c.shared.memory_used bytes ≤ c.shared.limits.memory =
              ground (arith, e) in
            elim (Option-cases (grow c.memory pages)) [
              | inl g ↦
                  rw
                    (
                      grow_by,
                      charge_memory-fits c.shared bytes e,
                      g,
                      charge_memory-fits c.shared bytes e,
                    )
                    (record {
                      charged = record {
                        within = omega (arith, h, le);
                        covers = omega (arith, h, le);
                        fits = h.fits;
                      };
                      equal = omega (arith, h, le);
                    })
              | inr ((m, previous), g) ↦
                  rw
                    (
                      grow_by,
                      charge_memory-fits c.shared bytes e,
                      g,
                      charge_memory-fits c.shared bytes e,
                    )
                    (record {
                      charged = record {
                        within = le;
                        covers = omega (arith, h, le);
                        fits = h.fits;
                      };
                      equal = omega (arith, h, le);
                    })
            ]
      ]

  sys_brk-IsMatched :
      (c : Ctx F) (request : ℕ) → IsCharged c → IsMatched c (sys_brk grow c request).0
  unfolding sys_brk
  sys_brk-IsMatched c request h =
      elim (Bool-cases (request == 0 || leb request (length c.memory))) [
        | inl e ↦ rw (sys_brk, e) (same-IsMatched c h)
        | inr e ↦ elim (Bool-cases (ltb c.shared.limits.memory_per_process request)) [
          | inl d ↦ rw (sys_brk, e, d) (same-IsMatched c h)
          | inr d ↦
              rw (sys_brk, e, d) (grow_by-IsMatched c (pages_for (request - length c.memory)) h)
        ]
      ]

  sys_mmap-IsMatched :
      (files : VfsFile F) (seeks : SeekFile F) (c : Ctx F) (addr size flags : ℕ) (fd : ℤ)
      (offset : ℕ)
      → IsCharged c
      → IsMatched c (sys_mmap grow files seeks c addr size flags fd offset).0
  unfolding sys_mmap
  sys_mmap-IsMatched files seeks c addr size flags fd offset h = elim (Bool-cases (size == 0)) [
    | inl e ↦ rw (sys_mmap, e) (same-IsMatched c h)
    | inr e ↦ elim (Bool-cases (not (bit_and flags map_fixed == 0) && not (addr == 0))) [
      | inl d ↦ rw (sys_mmap, e, d) (same-IsMatched c h)
      | inr d ↦
          elim (Bool-cases (
            ltb c.shared.limits.memory_per_process
              (add_u64 (length c.memory) (page_bytes (pages_for size))))) [
                | inl b ↦ rw (sys_mmap, e, d, b) (same-IsMatched c h)
                | inr b ↦
                    rw (sys_mmap, e, d, b)
                      (map_grown-IsMatched c files seeks size flags fd offset _
                        (grow_by-IsMatched c _ h))
              ]
    ]
  ]

  module _ (files : VfsFile F) (seeks : SeekFile F) where
    -- A call that grows the memory, with its arguments.
    pub data Growth : Type 0 where
      brk : ℕ → Growth
      mmap : ℕ → ℕ → ℕ → ℤ → ℕ → Growth

    unfoldable pub grow_once : Ctx F → Growth → Ctx F
    unfolding sys_brk sys_mmap
    grow_once c (Growth.brk request) = (sys_brk grow c request).0
    grow_once c (Growth.mmap addr size flags fd offset) =
        (sys_mmap grow files seeks c addr size flags fd offset).0

    unfoldable pub grow_all : Ctx F → List Growth → Ctx F
    unfolding grow_once
    grow_all c [] = c
    grow_all c (call ∷ calls) = grow_all (grow_once c call) calls

    grow_once-IsMatched : (c : Ctx F) (call : Growth) → IsCharged c → IsMatched c (grow_once c call)
    unfolding grow_once
    grow_once-IsMatched c (Growth.brk request) h = sys_brk-IsMatched c request h
    grow_once-IsMatched c (Growth.mmap addr size flags fd offset) h =
        sys_mmap-IsMatched files seeks c addr size flags fd offset h

    -- Where the charge of a session is within its limit, covers what the process has grown by, and the
    -- limit is below the largest `u64`, any sequence of `brk` and `mmap` calls keeps that so, and the
    -- charge of the session grows by exactly what the count of the process grows by, whatever fails on
    -- the way: a refused charge, a refused growth, a bad descriptor, or a file that cannot be read.
    pub grow_all-IsMatched :
        (c : Ctx F) (calls : List Growth) → IsCharged c → IsMatched c (grow_all c calls)
    unfolding grow_all
    grow_all-IsMatched c [] h = same-IsMatched c h
    grow_all-IsMatched c (call ∷ calls) h =
        let first = grow_once-IsMatched c call h in
        let rest = grow_all-IsMatched (grow_once c call) calls first.charged in
        record { charged = rest.charged; equal = omega (arith, first.equal, rest.equal) }
