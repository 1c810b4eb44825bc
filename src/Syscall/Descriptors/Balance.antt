-- ===== src/Syscall/Descriptors/Balance.antt =====
-- The descriptor calls of kernel/syscall.rs and the reference counts of the descriptions.
-- `others` are the tables of every process but the caller, suspended vfork parents included.
use Prim.Native.Nat.{bit_and}
use wasmux.Prelude.{
  not, eq_ℤ-ne, ℕ, ◌+◌, ◌-◌, ◌≤◌, ◌<◌, ◌^◌, ◌≡◌, inl, inr, none, some, List, [], ◌∷◌, Bool, true,
  false, arith, ◌==◌, is_some, Result-cases, ℤ, pos, ok, err, ◌≢◌,
}
use wasmux.Errno.{badf, mfile}
use wasmux.Desc.{o_cloexec}
use wasmux.Slab
use wasmux.Slab.{Key, Slab}
use wasmux.Fd
use wasmux.Fd.{Fd, FdTable, retain, at}
use wasmux.Fd.Alloc.{alloc_lem, Full, Allocates}
use wasmux.Shared.Refs.{total, refs_at, IsBalanced, release_desc-IsBalanced, retain-IsBalanced}
use wasmux.Shared.Tables.{
  take-IsBalanced, take_err-IsBalanced, alloc-IsBalanced, alloc_err-IsBalanced, replace-IsBalanced,
  replace_err-IsBalanced, live_of_get,
}
use wasmux.Ctx.{Ctx, Fault, errno, lift, Sys, with_descs}
use wasmux.Syscall.Descriptors.{close, share, dup, dup3}

module _ {F : Type 0} where
  -- Every reference to a description is a descriptor of some process, but for those in hand.
  abbrev pub Balanced : Ctx F → List FdTable → List Key → Type 0
  Balanced c others held = IsBalanced (c.task.fds ∷ others) held c.shared.descs

  -- If the count of every description is the number of descriptors that point at it, then it still is
  -- after `close`, also when that fails.
  close-Balanced :
      (c : Ctx F) (others : List FdTable) (fd : ℤ)
      → Balanced c others []
      → Balanced (close c fd).0 others []
  unfolding close
  close-Balanced c others fd b = elim (Result-cases (Fd.take c.task.fds fd).1) [
    | inl (x, e) ↦ rw (e, close) (take_err-IsBalanced c.task.fds others [] _ fd e b)
    | inr (entry, e) ↦
        rw (e, close)
          (release_desc-IsBalanced _ [] c.shared entry.desc
            (take-IsBalanced c.task.fds others [] _ fd e b))
  ]

  -- A successful sharing is in balance; a failed one leaves one reference that no descriptor has.
  abbrev pub Shares : List FdTable → Key → Sys F ℤ → Type 0
  Shares others key (c, ok i) = Balanced c others []
  Shares others key (c, err e) = Balanced c others (key ∷ [])

  pub share-Shares :
      (c : Ctx F) (others : List FdTable) (key : Key) (cloexec : Bool) (least : ℕ)
      → is_some (Slab.get c.shared.descs key) ≡ true
      → refs_at c.shared.descs key < 2 ^ 32 - 1
      → Balanced c others []
      → Shares others key (share c key cloexec least)
  unfolding share
  share-Shares c others key cloexec least live room b =
      let entry : Fd = record { desc = key; cloexec = cloexec } in
      let limit = c.shared.limits.open_files in
      let b' = retain-IsBalanced _ [] c.shared.descs key live room b in
      elim (Result-cases (Fd.alloc c.task.fds entry least limit).1) [
        | inl (x, e) ↦
            rw (e, share)
              (alloc_err-IsBalanced c.task.fds others (key ∷ []) _ entry least limit e b')
        | inr (i, e) ↦
            rw (e, share) (alloc-IsBalanced c.task.fds others [] _ entry least limit e b')
      ]

  -- `dup` of an open descriptor, whose description has fewer references than a `u32` can count: if
  -- it succeeds, the counts are in balance; if it fails, they are but for one reference to the
  -- description, which no descriptor has.
  pub dup-Shares :
      (c : Ctx F) (others : List FdTable) (fd : ℤ) (entry : Fd)
      → Fd.get c.task.fds fd ≡ ok entry
      → refs_at c.shared.descs entry.desc < 2 ^ 32 - 1
      → Balanced c others []
      → Shares others entry.desc (dup c fd)
  unfolding dup
  dup-Shares c others fd entry e room b =
      rw (e, dup)
        (share-Shares c others entry.desc false 0
          (live_of_get c.task.fds others [] c.shared.descs fd e b) room b)

  -- `dup3` of an open descriptor to another number: if it succeeds, the counts are in balance, the
  -- description that the number had before included; if it fails, they are but for one reference to
  -- the description, which no descriptor has.
  pub dup3-Shares :
      (c : Ctx F) (others : List FdTable) (old_fd new_fd : ℤ) (flags : ℕ) (entry : Fd)
      → old_fd ≢ new_fd
      → Fd.get c.task.fds old_fd ≡ ok entry
      → refs_at c.shared.descs entry.desc < 2 ^ 32 - 1
      → Balanced c others []
      → Shares others entry.desc (dup3 c old_fd new_fd flags)
  unfolding dup3
  dup3-Shares c others old_fd new_fd flags entry ne e room b =
      rw (eq_ℤ-ne old_fd new_fd ne, dup3, e)
        (elim (Result-cases (Fd.replace c.task.fds new_fd placed limit).1) [
          | inl (x, r) ↦ rw (r, dup3) (replace_err-IsBalanced _ others _ _ new_fd placed limit r b')
          | inr (none, r) ↦
              rw (r, dup3) (replace-IsBalanced _ others [] _ new_fd placed limit none r b')
          | inr (some old, r) ↦
              rw (r, dup3)
                (release_desc-IsBalanced _ [] (c₁.shared) old.desc
                  (replace-IsBalanced _ others [] _ new_fd placed limit (some old) r b'))
        ])
    where
      placed : Fd
      placed = record { desc = entry.desc; cloexec = not (bit_and flags o_cloexec == 0) }

      limit : ℕ
      limit = c.shared.limits.open_files

      c₁ : Ctx F
      c₁ = with_descs c (retain c.shared.descs entry.desc)

      b' : Balanced c₁ others (entry.desc ∷ [])
      b' =
          retain-IsBalanced _ [] c.shared.descs entry.desc
            (live_of_get c.task.fds others [] c.shared.descs old_fd e b) room b

  -- A failed sharing leaves one reference too many.
  leaked :
      (key : Key) (others : List FdTable) (out : Sys F ℤ) {x : Fault}
      → out.1 ≡ err x
      → Shares others key out
      → refs_at out.0.shared.descs key ≡ 1 + total key (out.0.task.fds ∷ others)
  leaked key others (c, ok i) e h = cc
  leaked key others (c, err x) e h = ground (arith, h.counted key)

  -- With the counts in balance and the description's below the largest `u32`, a `dup3` of an open
  -- descriptor to another number, at or above the limit, fails with EBADF and leaves the description
  -- with one reference more than it has descriptors.
  pub dup3_leaks :
      (c : Ctx F) (others : List FdTable) (old_fd : ℤ) (n flags : ℕ) (entry : Fd)
      → old_fd ≢ pos n
      → c.shared.limits.open_files ≤ n
      → Fd.get c.task.fds old_fd ≡ ok entry
      → refs_at c.shared.descs entry.desc < 2 ^ 32 - 1
      → Balanced c others []
      → ((dup3 c old_fd (pos n) flags).1 ≡ err (errno badf))
        × (refs_at (dup3 c old_fd (pos n) flags).0.shared.descs entry.desc
            ≡ 1 + total entry.desc ((dup3 c old_fd (pos n) flags).0.task.fds ∷ others))
  unfolding dup3 Fd.replace
  dup3_leaks c others old_fd n flags entry ne over e room b =
      let h = dup3-Shares c others old_fd (pos n) flags entry ne e room b in
      let failed : (dup3 c old_fd (pos n) flags).1 ≡ err (errno badf) =
        rw (eq_ℤ-ne old_fd (pos n) ne, dup3, e) (ground arith) in
      (failed, leaked entry.desc others (dup3 c old_fd (pos n) flags) failed h)

  dup-mfile :
      (c : Ctx F) (fd : ℤ) (entry : Fd)
      → Full c.task.fds.slots 0 c.shared.limits.open_files
      → Fd.get c.task.fds fd ≡ ok entry
      → (dup c fd).1 ≡ err (errno mfile)
  unfolding dup share
  dup-mfile c fd entry full e =
      rw (e, dup) (refused (alloc_lem c.task.fds _ 0 c.shared.limits.open_files))
    where
      shared_entry : Fd
      shared_entry = record { desc = entry.desc; cloexec = false }

      refused :
          Allocates c.task.fds.slots shared_entry 0 c.shared.limits.open_files
            (Fd.alloc c.task.fds shared_entry 0 c.shared.limits.open_files)
          → lift (Fd.alloc c.task.fds shared_entry 0 c.shared.limits.open_files).1
            ≡ err (errno mfile)
      refused (inl (r, x, y)) = rw r
      refused (inr (i, r, lo, hi, free, x, y)) =
          let busy : is_some (at c.task.fds.slots i) ≡ true = full i lo hi in
          absurd (cc (free, busy))

  -- With the counts in balance and the description's below the largest `u32`, a `dup` of an open
  -- descriptor in a process whose descriptors are used up fails with EMFILE and leaves the
  -- description with one reference more than it has descriptors.
  pub dup_leaks :
      (c : Ctx F) (others : List FdTable) (fd : ℤ) (entry : Fd)
      → Full c.task.fds.slots 0 c.shared.limits.open_files
      → Fd.get c.task.fds fd ≡ ok entry
      → refs_at c.shared.descs entry.desc < 2 ^ 32 - 1
      → Balanced c others []
      → ((dup c fd).1 ≡ err (errno mfile))
        × (refs_at (dup c fd).0.shared.descs entry.desc
            ≡ 1 + total entry.desc ((dup c fd).0.task.fds ∷ others))
  dup_leaks c others fd entry full e room b =
      let failed = dup-mfile c fd entry full e in
      (failed, leaked entry.desc others (dup c fd) failed (dup-Shares c others fd entry e room b))
