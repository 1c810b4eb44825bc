-- ===== src/Kernel/Asyncify/Laws.antt =====
-- kernel/mod.rs: a stack that was saved is put back, and read back the same.
use wasmux.Prelude.{
  ℕ, ◌+◌, ◌-◌, ◌≤◌, ◌<◌, ◌≡◌, refl, ap, ◌∙◌, inl, inr, arith, true, false, some, ◌++◌, ◌||◌, leb,
  ltb, length, take, drop, Bool-cases, length-take, length-drop, take-append-left,
  drop-append-right, take-drop-take,
}
use wasmux.Desc.{Bytes}
use wasmux.Mem.{from_le_bytes}
use wasmux.Mem.Access.{splice, length-splice, splice_read}
use wasmux.Kernel.Asyncify.{read_asyncify_stack, write_asyncify_stack}

-- Where the saved stack ends: the header's first word.
abbrev end_of : Bytes → ℕ → ℕ
end_of m area = from_le_bytes (take 4 (drop area m))

-- What was read: it runs to the end that the header names, and starts with the header.
pub record IsSaved (m : Bytes) (area : ℕ) (snapshot : Bytes) : Type 0 where
  pub ends : end_of m area ≡ area + length snapshot
  pub starts : take 4 snapshot ≡ take 4 (drop area m)

read-IsSaved :
    (m : Bytes) (area : ℕ)
    → 8 ≤ length (read_asyncify_stack m area)
    → IsSaved m area (read_asyncify_stack m area)
unfolding read_asyncify_stack
read-IsSaved m area h = elim (Bool-cases (ltb (length m) (area + 8))) [
  | inl short ↦ absurd (omega (arith, rw (read_asyncify_stack, short) at h))
  | inr long ↦
      let end = end_of m area in
      elim (Bool-cases (leb end area || ltb (length m) end)) [
        | inl bad ↦ absurd (omega (arith, rw (read_asyncify_stack, long, bad) at h))
        | inr good ↦
            let lo : area < end = ground (arith, good) in
            let hi : end ≤ length m = ground (arith, good) in
            let size = length-take (end - area) (drop area m) in
            let room = length-drop area m in
            let h' : 8 ≤ length (take (end - area) (drop area m)) =
              rw (read_asyncify_stack, long, good) at h in
            rw (read_asyncify_stack, long, good)
              (record {
                ends = omega (arith, lo, hi, size, room);
                starts =
                    take-drop-take 4 0 (end - area) (drop area m) (omega (arith, size, room, h'));
              })
      ]
]

write-some :
    (m : Bytes) (area : ℕ) (snapshot : Bytes)
    → area + length snapshot ≤ length m
    → write_asyncify_stack m area snapshot ≡ some (splice m area snapshot)
unfolding write_asyncify_stack
write-some m area snapshot h =
    let e : leb (area + length snapshot) (length m) ≡ true = ground arith in
    rw (write_asyncify_stack, e) refl

read-splice :
    (m₀ m : Bytes) (area : ℕ) (s : Bytes)
    → IsSaved m₀ area s
    → 8 ≤ length s
    → area + length s ≤ length m
    → read_asyncify_stack (splice m area s) area ≡ s
unfolding read_asyncify_stack
read-splice m₀ m area s v h room =
    let m' = splice m area s in
    let size : length m' ≡ length m = length-splice m area s room in
    let front : take 4 (drop area m') ≡ take 4 (drop area m₀) =
      ap (take 4) (
        drop-append-right area (take area m) (s ++ drop (area + length s) m) 0
          (omega (arith, length-take area m)))
      ∙ take-append-left 4 s (drop (area + length s) m) (omega arith)
      ∙ v.starts in
    let end : end_of m' area ≡ area + length s = ap from_le_bytes front ∙ v.ends in
    let a : ltb (length m') (area + 8) ≡ false = ground (arith, size) in
    let b : (leb (area + length s) area || ltb (length m') (area + length s)) ≡ false =
      ground (arith, size) in
    let n : area + length s - area ≡ length s = omega arith in
    rw (read_asyncify_stack, a, end, b, n) (splice_read m area s room)

-- A stack that was saved from one memory of a guest and is put back into a later one, whatever the
-- guest did to it in between, is read back the same. The saved stack has its header, 8 bytes, and
-- the later memory has room for it; the memory keeps its size.
pub write-read_asyncify_stack :
    (m₀ m : Bytes) (area : ℕ)
    → 8 ≤ length (read_asyncify_stack m₀ area)
    → area + length (read_asyncify_stack m₀ area) ≤ length m
    → (m' : Bytes) × (write_asyncify_stack m area (read_asyncify_stack m₀ area) ≡ some m')
      × (read_asyncify_stack m' area ≡ read_asyncify_stack m₀ area)
      × (length m' ≡ length m)
write-read_asyncify_stack m₀ m area h room =
    let s = read_asyncify_stack m₀ area in
    (
      splice m area s,
      write-some m area s room,
      read-splice m₀ m area s (read-IsSaved m₀ area h) h room,
      length-splice m area s room,
    )
