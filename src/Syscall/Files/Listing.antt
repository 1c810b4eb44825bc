-- ===== src/Syscall/Files/Listing.antt =====
-- crates/wasmux/src/kernel/syscall.rs: how much of a directory `getdents64` hands out.
use wasmux.Prelude.{
  ℕ, ◌+◌, ◌-◌, ◌*◌, ◌%◌, ◌^◌, ◌≤◌, ◌<◌, ◌≡◌, refl, ap, ◌⊎◌, inl, inr, List, [], ◌∷◌, arith, ◌==◌,
  ltb, ℤ, pos, ok, err, Result, false, length, drop, replicate, length-append, length-replicate,
  Bool-cases, as_i32-pos,
}
use wasmux.Desc.{Bytes, DescKind, DirEnt}
use wasmux.Errno.{inval, fault}
use wasmux.Mem.{to_le_bytes, put, fits}
use wasmux.Ctx.{Ctx, Fault, errno}
use wasmux.Syscall.Streams.Transfer.{Opens}
use wasmux.Syscall.Files.{
  record_len, dirent_record, fill, with_desc, put_kind, put_block, getdents64,
}

record_len-ge : (e : DirEnt) → (20 + length e.name ≤ record_len e) × (record_len e % 8 ≡ 0)
unfolding record_len
record_len-ge e = (omega arith, omega arith)

length-dirent_record : (e : DirEnt) (offset : ℕ) → length (dirent_record e offset) ≡ record_len e
unfolding dirent_record to_le_bytes
length-dirent_record e offset = omega (
  arith,
  record_len-ge e,
  length-append e.name (replicate (record_len e - (length e.name + 19)) 0),
  length-replicate {A = ℕ} (record_len e - (length e.name + 19)) 0,
)

-- The records that `getdents64` builds fit the room that the guest gives, their size is a multiple
-- of 8, and they are at most as many as the entries that are left, each of at least 24 bytes.
pub fill_lem :
    (es : List DirEnt) (at used capacity : ℕ)
    → used ≤ capacity
    → (used + length (fill es at used capacity).0 ≤ capacity)
      × (length (fill es at used capacity).0 % 8 ≡ 0)
      × ((fill es at used capacity).1 ≤ length es)
      × ((fill es at used capacity).1 * 24 ≤ length (fill es at used capacity).0)
unfolding fill
fill_lem [] at used capacity h = (omega arith, omega arith, omega arith, omega arith)
fill_lem (e ∷ rest) at used capacity h = elim (Bool-cases (ltb capacity (used + record_len e))) [
  | inl c ↦ rw (fill, c) (omega arith, omega arith, omega arith, omega arith)
  | inr c ↦
      let r = fill_lem rest (at + 1) (used + record_len e) capacity (ground (arith, c)) in
      let tail = (fill rest (at + 1) (used + record_len e) capacity).0 in
      let l = length-append (dirent_record e (at + 1)) tail in
      let k = length-dirent_record e (at + 1) in
      let g = record_len-ge e in
      rw (fill, c)
        (
          omega (arith, r, l, k),
          omega (arith, r, l, k, g),
          omega (arith, r),
          omega (arith, r, l, k, g),
        )
]

-- What the guest is told of a block that is not empty.
abbrev pub IsTold : ℕ → Result Fault ℤ → Type 0
IsTold capacity r =
    ((n : ℕ) × (0 < n) × (n ≤ capacity) × (n % 8 ≡ 0) × (r ≡ ok (pos n))) ⊎ (r ≡ err (errno fault))

module _ {F : Type 0} where
  put_block-IsTold :
      (c : Ctx F) (at : ℕ) (block : Bytes) (capacity : ℕ)
      → 0 < length block
      → length block ≤ capacity
      → length block % 8 ≡ 0
      → capacity < 2 ^ 31
      → IsTold capacity (put_block c at block).1
  unfolding put_block put
  put_block-IsTold c at block capacity some_ fits_ whole small =
      elim (Bool-cases (fits c.memory at (length block))) [
        | inl x ↦ inl (
          length block,
          some_,
          fits_,
          whole,
          rw (put_block, put, x) (ap ok (as_i32-pos (length block) (omega (arith, small, fits_)))),
        )
        | inr x ↦ inr (rw (put_block, put, x) refl)
      ]

  -- A `getdents64` on a directory that is not read to its end, with a buffer of less than 2 ^ 31
  -- bytes: where the record of the next entry does not fit the buffer, it fails with EINVAL and
  -- changes nothing. Else it answers a number of bytes that is not 0, a multiple of 8 and at most
  -- the size of the buffer, or fails with EFAULT.
  pub getdents64_lem :
      (c : Ctx F) (fd : ℤ) (at capacity : ℕ) (entries : List DirEnt) (from : ℕ) (next : DirEnt)
      (rest : List DirEnt)
      → Opens c fd (DescKind.dir entries from)
      → drop from entries ≡ next ∷ rest
      → capacity < 2 ^ 31
      → ((capacity < record_len next) × (getdents64 c fd at capacity ≡ (c, err (errno inval))))
        ⊎ ((record_len next ≤ capacity) × IsTold capacity (getdents64 c fd at capacity).1)
  unfolding getdents64 with_desc fill
  getdents64_lem c fd at capacity entries from next rest o left small =
      let n = fill_lem (drop from entries) from 0 capacity (omega arith) in
      let here : 0 + record_len next ≡ record_len next = omega arith in
      elim (Bool-cases (ltb capacity (0 + record_len next))) [
        | inl short ↦
            let none_ : (fill (drop from entries) from 0 capacity).1 ≡ 0 =
              rw (left, fill, short) refl in
            inl (
              ground (arith, short),
              rw (getdents64, with_desc, o.open_fd, o.live, o.of_kind, none_, left) refl,
            )
        | inr room ↦
            let some_ : 0 < (fill (drop from entries) from 0 capacity).1 =
              rw (left, fill, room) (omega arith) in
            let z : ((fill (drop from entries) from 0 capacity).1 == 0) ≡ false = ground arith in
            inr (
              ground (arith, room),
              rw (getdents64, with_desc, o.open_fd, o.live, o.of_kind, z)
                  (put_block-IsTold
                    (put_kind c o.entry.desc o.desc
                      (DescKind.dir entries (from + (fill (drop from entries) from 0 capacity).1)))
                    at (fill (drop from entries) from 0 capacity).0 capacity
                    (omega (arith, n, some_)) (omega (arith, n)) (omega (arith, n)) small),
            )
      ]
