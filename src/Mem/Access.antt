-- ===== src/Mem/Access.antt =====
-- Reads and writes of guest memory (kernel/mem.rs): bounds, what a write changes, round trips.
use wasmux.Prelude.{
  ℕ, zero, suc, ◌+◌, ◌-◌, ◌/◌, ◌≤◌, ◌<◌, ◌^◌, ◌≡◌, refl, ap, sym, ◌∙◌, ◌⊎◌, inl, inr, ◌++◌, arith,
  length, take, drop, length-append, length-take, length-drop, take-append-left, take-append-exact,
  drop-append-left, drop-append-right, drop-drop, take-drop-take, ok, err, ◌>>=◌,
}
use native.Mathlib.Nat.{pow-suc}
use wasmux.Errno.{fault}
use wasmux.Desc.{Bytes}
use wasmux.Mem.{slice, put, to_le_bytes, from_le_bytes, read_u32, read_u64, put_u32, put_u64}

-- The memory after a write of `b` at `s`.
abbrev pub splice : Bytes → ℕ → Bytes → Bytes
splice m s b = take s m ++ (b ++ drop (s + length b) m)

pub length-splice :
    (m : Bytes) (s : ℕ) (b : Bytes) → s + length b ≤ length m → length (splice m s b) ≡ length m
length-splice m s b h = omega (
  arith,
  length-append (take s m) (b ++ drop (s + length b) m),
  length-append b (drop (s + length b) m),
  length-take s m,
  length-drop (s + length b) m,
)

pub splice_read :
    (m : Bytes) (s : ℕ) (b : Bytes)
    → s + length b ≤ length m
    → take (length b) (drop s (splice m s b)) ≡ b
splice_read m s b h =
    ap (take (length b)) (
      drop-append-right s (take s m) (b ++ drop (s + length b) m) 0
        (omega (arith, length-take s m)))
    ∙ take-append-exact (length b) b (drop (s + length b) m) refl

pub splice_below :
    (m : Bytes) (s : ℕ) (b : Bytes) (j n : ℕ)
    → s ≤ length m
    → j + n ≤ s
    → take n (drop j (splice m s b)) ≡ take n (drop j m)
splice_below m s b j n h lo =
    ap (take n)
      (drop-append-left j (take s m) (b ++ drop (s + length b) m) (omega (arith, length-take s m)))
    ∙ take-append-left n (drop j (take s m)) (b ++ drop (s + length b) m)
        (omega (arith, length-drop j (take s m), length-take s m))
    ∙ take-drop-take n j s m lo

pub splice_above :
    (m : Bytes) (s : ℕ) (b : Bytes) (j n : ℕ)
    → s + length b ≤ length m
    → s + length b ≤ j
    → take n (drop j (splice m s b)) ≡ take n (drop j m)
splice_above m s b j n h hi = ap (take n) (
    drop-append-right j (take s m) (b ++ drop (s + length b) m) (j - s)
      (omega (arith, length-take s m))
    ∙ drop-append-right (j - s) b (drop (s + length b) m) (j - s - length b) (omega arith)
    ∙ drop-drop (j - s - length b) (s + length b) m
    ∙ ap (λ (i : ℕ). drop i m) (omega arith))

-- An access is served exactly if it lies in the memory and its end does not overflow `usize`;
-- otherwise it is EFAULT.
pub slice_bounds :
    (m : Bytes) (s n : ℕ)
    → ((s + n ≤ length m) × (s + n < 2 ^ 64) × (slice m s n ≡ ok (take n (drop s m))))
      ⊎ (((length m < s + n) ⊎ (2 ^ 64 ≤ s + n)) × (slice m s n ≡ err fault))
unfolding slice
slice_bounds m s n = ground arith

put-splice :
    (m : Bytes) (s : ℕ) (b m' : Bytes)
    → put m s b ≡ ok m'
    → (s + length b ≤ length m) × (s + length b < 2 ^ 64) × (m' ≡ splice m s b)
unfolding put
put-splice m s b m' e = ground arith

slice-ok :
    (m : Bytes) (s n : ℕ) (b : Bytes)
    → s + n ≤ length m
    → s + n < 2 ^ 64
    → take n (drop s m) ≡ b
    → slice m s n ≡ ok b
unfolding slice
slice-ok m s n b h k e = ground arith

slice_same :
    (m m' : Bytes) (s n : ℕ)
    → length m' ≡ length m
    → take n (drop s m') ≡ take n (drop s m)
    → slice m' s n ≡ slice m s n
unfolding slice
slice_same m m' s n size e = ground arith

-- A write that succeeds is read back, keeps the size of the memory and leaves every range that it
-- does not touch as it was; it succeeds exactly where a read of that range does.
pub put_lem :
    (m : Bytes) (s : ℕ) (b m' : Bytes)
    → put m s b ≡ ok m'
    → (slice m' s (length b) ≡ ok b)
      × (length m' ≡ length m)
      × ((j n : ℕ) → (j + n ≤ s) ⊎ (s + length b ≤ j) → slice m' j n ≡ slice m j n)
unfolding put slice
put_lem m s b m' e =
    let p = put-splice m s b m' e in
    let size : length m' ≡ length m = rw (p.2) (length-splice m s b p.0) in
    (
      slice-ok m' s (length b) b (omega (arith, p.0, size)) p.1
          (ap (λ (x : Bytes). take (length b) (drop s x)) (p.2) ∙ splice_read m s b p.0),
      size,
      λ j n apart. slice_same m m' j n size (
          ap (λ (x : Bytes). take n (drop j x)) (p.2) ∙ elim apart [
            | inl lo ↦ splice_below m s b j n (omega (arith, p.0)) lo
            | inr hi ↦ splice_above m s b j n p.0 hi
          ]),
    )

-- A number that fits `width` bytes is read back from them.
pub from_le_bytes-to_le_bytes :
    (width v : ℕ) → v < 256 ^ width → from_le_bytes (to_le_bytes width v) ≡ v
unfolding from_le_bytes to_le_bytes
from_le_bytes-to_le_bytes zero v h = omega arith
from_le_bytes-to_le_bytes (suc width) v h =
    omega (arith, from_le_bytes-to_le_bytes width (v / 256) (omega (arith, h, pow-suc 256 width)))

pub length-to_le_bytes : (width v : ℕ) → length (to_le_bytes width v) ≡ width
unfolding to_le_bytes
length-to_le_bytes zero v = refl
length-to_le_bytes (suc width) v = ap suc (length-to_le_bytes width (v / 256))

pub put_u32-put : (m : Bytes) (s v : ℕ) → put_u32 m s v ≡ put m s (to_le_bytes 4 v)
unfolding put_u32
put_u32-put m s v = refl

put_u64-put : (m : Bytes) (s v : ℕ) → put_u64 m s v ≡ put m s (to_le_bytes 8 v)
unfolding put_u64
put_u64-put m s v = refl

pub read_u32-slice :
    (m : Bytes) (s : ℕ) → read_u32 m s ≡ (slice m s 4 >>= λ b. ok (from_le_bytes b))
unfolding read_u32
read_u32-slice m s = refl

read_u64-slice : (m : Bytes) (s : ℕ) → read_u64 m s ≡ (slice m s 8 >>= λ b. ok (from_le_bytes b))
unfolding read_u64
read_u64-slice m s = refl

-- What writing the bytes of a number promises: it is read back, and the other words stay.
pub record Wrote (m : Bytes) (s width : ℕ) (m' : Bytes) (bytes : Bytes) : Type 0 where
  pub back : slice m' s width ≡ ok bytes
  pub size : length m' ≡ length m
  pub rest : (j n : ℕ) → (j + n ≤ s) ⊎ (s + width ≤ j) → slice m' j n ≡ slice m j n

pub put-Wrote :
    (m : Bytes) (s width v : ℕ) (m' : Bytes)
    → put m s (to_le_bytes width v) ≡ ok m'
    → Wrote m s width m' (to_le_bytes width v)
put-Wrote m s width v m' e =
    let h = put_lem m s (to_le_bytes width v) m' e in
    let l : length (to_le_bytes width v) ≡ width = length-to_le_bytes width v in
    record { back = rw l at h.0; size = h.1; rest = λ j n apart. h.2 j n (rw l apart) }

-- A 32-bit word that was written to guest memory is read back from the same address.
pub read_u32-put_u32 :
    (m : Bytes) (s v : ℕ) (m' : Bytes) → v < 2 ^ 32 → put_u32 m s v ≡ ok m' → read_u32 m' s ≡ ok v
read_u32-put_u32 m s v m' small e =
    let w = put-Wrote m s 4 v m' (sym (put_u32-put m s v) ∙ e) in
    read_u32-slice m' s ∙ rw (w.back) (ap ok (from_le_bytes-to_le_bytes 4 v (omega arith)))

-- A 64-bit word that was written to guest memory is read back from the same address.
pub read_u64-put_u64 :
    (m : Bytes) (s v : ℕ) (m' : Bytes) → v < 2 ^ 64 → put_u64 m s v ≡ ok m' → read_u64 m' s ≡ ok v
read_u64-put_u64 m s v m' small e =
    let w = put-Wrote m s 8 v m' (sym (put_u64-put m s v) ∙ e) in
    read_u64-slice m' s ∙ rw (w.back) (ap ok (from_le_bytes-to_le_bytes 8 v (omega arith)))

-- After a write that succeeds, its bytes are read back from its address, the memory has the size
-- that it had, and every range that lies before or behind the written one reads as before.
pub slice-put :
    (m : Bytes) (s : ℕ) (b m' : Bytes) (j n : ℕ)
    → put m s b ≡ ok m'
    → (j + n ≤ s) ⊎ (s + length b ≤ j)
    → (slice m' s (length b) ≡ ok b) × (length m' ≡ length m) × (slice m' j n ≡ slice m j n)
slice-put m s b m' j n e apart = let h = put_lem m s b m' e in (h.0, h.1, h.2 j n apart)
