-- ===== src/MemVfs/File/Laws.antt =====
-- crates/wasmux/src/vfs/mem.rs: what an open file's `write` does to the contents, and that `read`
-- gives the bytes back.
use wasmux.Prelude.{
  ℕ, ◌+◌, ◌-◌, ◌^◌, ◌≤◌, ◌<◌, min, true, ◌≡◌, refl, ap, ◌∙◌, ◌⊎◌, inl, inr, ◌++◌, arith, ltb,
  if◌then◌else◌, length, take, drop, replicate, length-append, length-take, length-drop,
  length-replicate, take-append-left, drop-append-left, take-drop-take, ok, Bool-cases, ltb→lt,
}
use Prim.Native.Nat.{max}
use wasmux.Desc.{Bytes}
use wasmux.Mem.Access.{splice, length-splice, splice_read, splice_below, splice_above}
use wasmux.MemVfs.{MemVfs, MemFile, store}
use wasmux.MemVfs.File.{resize, overwrite, write, read}

length-resize : (old : Bytes) (n : ℕ) → length (resize old n) ≡ n
unfolding resize
length-resize old n = omega (
  arith,
  length-append (take n old) (replicate (n - length old) 0),
  length-take n old,
  length-replicate {A = ℕ} (n - length old) 0,
)

-- The contents before the write, long enough for it.
abbrev grown : Bytes → ℕ → Bytes
grown old end = if ltb (length old) end then resize old end else old

length-grown : (old : Bytes) (end : ℕ) → end ≤ length (grown old end)
length-grown old end = ground (arith, length-resize old end)

grown_size : (old : Bytes) (end : ℕ) → length (grown old end) ≡ max (length old) end
grown_size old end = ground (arith, length-resize old end)

overwrite-splice :
    (old : Bytes) (at : ℕ) (bytes : Bytes)
    → at + length bytes < 2 ^ 64
    → overwrite old at bytes ≡ splice (grown old (at + length bytes)) at bytes
unfolding overwrite
overwrite-splice old at bytes h =
    let e : min (at + length bytes) (2 ^ 64 - 1) ≡ at + length bytes = omega arith in
    ap (λ (end : ℕ). take at (grown old end) ++ (bytes ++ drop end (grown old end))) e

-- What was there before stays there when the contents grow.
resize_same :
    (old : Bytes) (end j n : ℕ)
    → length old < end
    → j + n ≤ length old
    → take n (drop j (resize old end)) ≡ take n (drop j old)
unfolding resize
resize_same old end j n more h =
    ap (take n) (
      drop-append-left j (take end old) (replicate (end - length old) 0)
        (omega (arith, length-take end old)))
    ∙ (take-append-left n (drop j (take end old)) (replicate (end - length old) 0)
          (omega (arith, length-drop j (take end old), length-take end old))
        ∙ take-drop-take n j end old (omega arith))

grown_same :
    (old : Bytes) (end j n : ℕ)
    → j + n ≤ length old
    → take n (drop j (grown old end)) ≡ take n (drop j old)
grown_same old end j n h = elim (Bool-cases (ltb (length old) end)) [
  | inl c ↦ rw c (resize_same old end j n (ltb→lt _ _ c) h)
  | inr c ↦ rw c refl
]

-- Where a write starts.
abbrev pub start : MemVfs → MemFile → ℕ
start fs f = if f.append then length (fs.contents f.data_) else f.position

write-contents :
    (fs : MemVfs) (f : MemFile) (bytes : Bytes)
    → f.writable ≡ true
    → (write fs f bytes).0.contents f.data_ ≡ overwrite (fs.contents f.data_) (start fs f) bytes
unfolding write store
write-contents fs f bytes e = rw (write, e) (ground arith)

-- What a `read` at `at` gives, from the contents.
read-contents :
    (fs : MemVfs) (f : MemFile) (new : Bytes) (at n : ℕ)
    → fs.contents f.data_ ≡ new
    → at + n ≤ length new
    → (read fs (record f { position = at }) n).1 ≡ ok (take n (drop at new))
unfolding read
read-contents fs f new at n e h =
    let a : min at (length new) ≡ at = omega arith in
    let b : min (length (drop at new)) n ≡ n = omega (arith, length-drop at new) in
    rw (e, a, b) refl

-- A write on a file that is open for writing takes all bytes, from the position or, with O_APPEND,
-- from the end; a read of as many bytes from where it started gives them back, the file reaches as
-- far as it did or as the write, and the bytes that were there before and that the write does not
-- touch are as they were. The end of the write has to fit `u64`.
pub read-write :
    (fs : MemVfs) (f : MemFile) (bytes : Bytes) (j n : ℕ)
    → f.writable ≡ true
    → start fs f + length bytes < 2 ^ 64
    → j + n ≤ length (fs.contents f.data_)
    → (j + n ≤ start fs f) ⊎ (start fs f + length bytes ≤ j)
    → ((write fs f bytes).1.1 ≡ ok (length bytes))
      × ((read (write fs f bytes).0 (record f { position = start fs f }) (length bytes)).1
          ≡ ok bytes)
      × (length ((write fs f bytes).0.contents f.data_)
          ≡ max (length (fs.contents f.data_)) (start fs f + length bytes))
      × (take n (drop j ((write fs f bytes).0.contents f.data_))
          ≡ take n (drop j (fs.contents f.data_)))
unfolding write
read-write fs f bytes j n w fits old away =
    let fs' = (write fs f bytes).0 in
    let old_ = fs.contents f.data_ in
    let end = start fs f + length bytes in
    let m = grown old_ end in
    let enough : end ≤ length m = length-grown old_ end in
    let e : fs'.contents f.data_ ≡ splice m (start fs f) bytes =
      write-contents fs f bytes w ∙ overwrite-splice old_ (start fs f) bytes fits in
    let size : length (splice m (start fs f) bytes) ≡ length m =
      length-splice m (start fs f) bytes enough in
    (
      rw (write, w) refl,
      read-contents fs' f (splice m (start fs f) bytes) (start fs f) (length bytes) e
            (omega (arith, size, enough))
          ∙ ap ok (splice_read m (start fs f) bytes enough),
      ap length e ∙ (size ∙ grown_size old_ end),
      ap (λ (b : Bytes). take n (drop j b)) e
          ∙ (elim away [
            | inl lo ↦ splice_below m (start fs f) bytes j n (omega (arith, enough)) lo
            | inr hi ↦ splice_above m (start fs f) bytes j n enough hi
          ]
              ∙ grown_same old_ end j n old),
    )
