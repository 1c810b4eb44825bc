-- ===== src/Syscall/Streams/Pipes.antt =====
-- Pipes (kernel/syscall.rs `read_bytes` and `write_bytes`): a bounded queue of bytes between any
-- number of readers and writers.
use wasmux.Prelude.{
  ℕ, zero, suc, min, ◌≤◌, ◌<◌, ◌≡◌, refl, ap, sym, ◌∙◌, ◌⊎◌, inl, inr, Bool, true, false, arith,
  List, [], ◌∷◌, ◌++◌, ◌==◌, if◌then◌else◌, Bool-cases, Result, ok, err, length, take, drop,
  length-append,
}
use mathlib.Core.List.{append-nil, append_assoc}
use wasmux.Errno.{again}
use wasmux.Desc.{Bytes, Pipe, room, pipe_capacity}
use wasmux.Ctx.{Fault, errno, block}
use wasmux.Syscall.Streams.{read_pipe, write_pipe}

-- A call on one pipe: a read of at most so many bytes, or a write, each blocking or not.
pub data Call : Type 0 where
  read : Bool → ℕ → Call
  write : Bool → Bytes → Call

-- A pipe with the bytes that it has taken and those that it has handed out, since some moment.
pub record History : Type 0 where
  pub pipe : Pipe
  pub written : Bytes
  pub delivered : Bytes

after_read : History → Pipe × Result Fault Bytes → History
after_read h (p, ok bytes) = record h { pipe = p; delivered = h.delivered ++ bytes }
after_read h (p, err e) = record h { pipe = p }

-- A write that answers `n` has taken the first `n` bytes that it was given.
after_write : History → Bytes → Pipe × Result Fault ℕ → History
after_write h bytes (p, ok n) = record h { pipe = p; written = h.written ++ take n bytes }
after_write h bytes (p, err e) = record h { pipe = p }

unfoldable pub step : History → Call → History
unfolding after_read after_write read_pipe write_pipe
step h (read nonblocking n) = after_read h (read_pipe h.pipe nonblocking n)
step h (write nonblocking bytes) = after_write h bytes (write_pipe h.pipe nonblocking bytes)

-- Calls in the order in which the kernel serves them.
unfoldable pub run : History → List Call → History
unfolding step
run h [] = h
run h (c ∷ calls) = run (step h c) calls

-- The bytes handed out, then those in the pipe, are `start` and then the bytes taken.
abbrev pub Conserves : Bytes → History → Type 0
Conserves start h = h.delivered ++ h.pipe.bytes ≡ start ++ h.written

take-drop : (n : ℕ) (xs : Bytes) → take n xs ++ drop n xs ≡ xs
take-drop zero xs = refl
take-drop (suc n) [] = refl
take-drop (suc n) (x ∷ xs) = ap (◌∷◌ x) (take-drop n xs)

-- What a read does: it fails only on an empty pipe, and then changes nothing; it answers with the
-- front of the queue and leaves the rest. An empty answer to a read of some bytes is the end of
-- the stream: nothing is left, and no writer either.
abbrev pub Reads : Pipe → ℕ → Pipe × Result Fault Bytes → Type 0
Reads p n (p', ok bytes) =
    (bytes ++ p'.bytes ≡ p.bytes)
    × ((length bytes ≡ min (length p.bytes) n)
        × ((0 < length bytes) ⊎ ((n ≡ 0) ⊎ ((length p.bytes ≡ 0) × (p.writers ≡ 0)))))
Reads p n (p', err e) = (p' ≡ p) × ((length p.bytes ≡ 0) × (0 < p.writers))

-- What a write does: it fails only on a full pipe, and then changes nothing; it takes as many bytes
-- as there is room for, and adds them at the end.
abbrev pub Writes : Pipe → Bytes → Pipe × Result Fault ℕ → Type 0
Writes p bytes (p', ok n) =
    (p'.bytes ≡ p.bytes ++ take n bytes)
    × ((n ≡ min (room p) (length bytes)) × (length p.bytes < pipe_capacity))
Writes p bytes (p', err e) = (p' ≡ p) × (pipe_capacity ≤ length p.bytes)

length-take : (n : ℕ) (xs : Bytes) → length (take n xs) ≡ min n (length xs)
length-take zero xs = omega arith
length-take (suc n) [] = omega arith
length-take (suc n) (x ∷ xs) = omega (arith, length-take n xs)

length_zero : (xs : Bytes) → length xs ≡ 0 → xs ≡ []
length_zero [] e = refl
length_zero (x ∷ xs) e = absurd (omega arith)

some_or_none : {P : Type 0} (k n size : ℕ) → k ≡ min size n → 0 < size → (0 < k) ⊎ ((n ≡ 0) ⊎ P)
some_or_none k zero size e h = inr (inl refl)
some_or_none k (suc n) size e h = inl (omega (arith, e, h))

-- A read of a pipe answers with as many bytes as there are and the buffer holds, from the front of
-- the queue, and leaves the rest; its answer is empty only for an empty buffer, or at the end of the
-- stream, when the queue is empty and no writer is left. It fails only on an empty queue that has a
-- writer, and then changes nothing.
pub read_pipe-Reads :
    (p : Pipe) (nonblocking : Bool) (n : ℕ) → Reads p n (read_pipe p nonblocking n)
unfolding read_pipe
read_pipe-Reads p nonblocking n = elim (Bool-cases (length p.bytes == 0)) [
  | inl empty ↦
      let none_ : length p.bytes ≡ 0 = ground arith in
      elim (Bool-cases (p.writers == 0)) [
        | inl closed ↦
            rw (empty, closed) (refl, (omega (arith, none_), inr (inr (none_, ground arith))))
        | inr writing ↦ rw (empty, writing) (waits nonblocking none_ (ground arith))
      ]
  | inr some_ ↦
      let l = length-take (min (length p.bytes) n) p.bytes in
      let pos_ : 0 < length p.bytes = ground arith in
      rw some_ (
        take-drop (min (length p.bytes) n) p.bytes,
        (
          omega (arith, l),
          some_or_none (length (take (min (length p.bytes) n) p.bytes)) n (length p.bytes)
              (omega (arith, l)) pos_,
        ),
      )
]
  where
    waits :
        (b : Bool)
        → length p.bytes ≡ 0
        → 0 < p.writers
        → Reads p n (p, if b then err (errno again) else err block)
    waits true none_ writing = (refl, (none_, writing))
    waits false none_ writing = (refl, (none_, writing))

-- A write to a pipe that has a reader adds as many bytes as there is room for, from the front of
-- what is written, at the end of the queue, and answers with their number. It fails only on a full
-- queue, and then changes nothing.
pub write_pipe-Writes :
    (p : Pipe) (nonblocking : Bool) (bytes : Bytes)
    → Writes p bytes (write_pipe p nonblocking bytes)
unfolding write_pipe room
write_pipe-Writes p nonblocking bytes = elim (Bool-cases (room p == 0)) [
  | inl full ↦ rw full (waits nonblocking (ground arith))
  | inr free ↦ rw free (refl, (refl, ground arith))
]
  where
    waits :
        (b : Bool)
        → pipe_capacity ≤ length p.bytes
        → Writes p bytes (p, if b then err (errno again) else err block)
    waits true full = (refl, full)
    waits false full = (refl, full)

after_read-Conserves :
    (start : Bytes) (h : History) (n : ℕ) (out : Pipe × Result Fault Bytes)
    → Reads h.pipe n out
    → Conserves start h
    → Conserves start (after_read h out)
unfolding after_read
after_read-Conserves start h n (p, ok bytes) (r, more) e =
    append_assoc h.delivered bytes p.bytes ∙ rw r e
after_read-Conserves start h n (p, err x) (r, more) e = rw r e

after_write-Conserves :
    (start : Bytes) (h : History) (bytes : Bytes) (out : Pipe × Result Fault ℕ)
    → Writes h.pipe bytes out
    → Conserves start h
    → Conserves start (after_write h bytes out)
unfolding after_write
after_write-Conserves start h bytes (p, ok n) (r, more) e =
    ap (λ (xs : Bytes). h.delivered ++ xs) r
    ∙ sym (append_assoc h.delivered h.pipe.bytes (take n bytes))
    ∙ ap (λ (xs : Bytes). xs ++ take n bytes) e
    ∙ append_assoc start h.written (take n bytes)
after_write-Conserves start h bytes (p, err x) (r, more) e = rw r e

step-Conserves :
    (start : Bytes) (h : History) (c : Call) → Conserves start h → Conserves start (step h c)
unfolding step
step-Conserves start h (read nonblocking n) e =
    after_read-Conserves start h n _ (read_pipe-Reads h.pipe nonblocking n) e
step-Conserves start h (write nonblocking bytes) e =
    after_write-Conserves start h bytes _ (write_pipe-Writes h.pipe nonblocking bytes) e

run-Conserves :
    (start : Bytes) (h : History) (calls : List Call)
    → Conserves start h
    → Conserves start (run h calls)
unfolding run
run-Conserves start h [] e = e
run-Conserves start h (c ∷ calls) e =
    run-Conserves start (step h c) calls (step-Conserves start h c e)

abbrev pub begin : Pipe → History
begin p = record { pipe = p; written = []; delivered = [] }

-- Whatever reads and writes a pipe serves, in whatever order they come: the bytes handed out,
-- followed by those still queued, are the bytes that the pipe held at first followed by those it
-- took, in order. Nothing is lost, repeated or reordered.
pub pipe_fifo :
    (p : Pipe) (calls : List Call)
    → (run (begin p) calls).delivered ++ (run (begin p) calls).pipe.bytes
      ≡ p.bytes ++ (run (begin p) calls).written
pipe_fifo p calls = run-Conserves p.bytes (begin p) calls (sym (append-nil p.bytes))

Bounded : Pipe → Type 0
Bounded p = length p.bytes ≤ pipe_capacity

after_read-Bounded :
    (h : History) (n : ℕ) (out : Pipe × Result Fault Bytes)
    → Reads h.pipe n out
    → Bounded h.pipe
    → Bounded (after_read h out).pipe
unfolding after_read Bounded
after_read-Bounded h n (p, ok bytes) (r, more) b =
    omega (arith, b, length-append bytes p.bytes, ap length r)
after_read-Bounded h n (p, err x) (r, more) b = rw r b

after_write-Bounded :
    (h : History) (bytes : Bytes) (out : Pipe × Result Fault ℕ)
    → Writes h.pipe bytes out
    → Bounded h.pipe
    → Bounded (after_write h bytes out).pipe
unfolding after_write Bounded room
after_write-Bounded h bytes (p, ok n) (r, (taken, more)) b =
    omega
      (arith, b, taken, length-append h.pipe.bytes (take n bytes), ap length r, length-take n bytes)
after_write-Bounded h bytes (p, err x) (r, more) b = rw r b

step-Bounded : (h : History) (c : Call) → Bounded h.pipe → Bounded (step h c).pipe
unfolding step
step-Bounded h (read nonblocking n) b =
    after_read-Bounded h n _ (read_pipe-Reads h.pipe nonblocking n) b
step-Bounded h (write nonblocking bytes) b =
    after_write-Bounded h bytes _ (write_pipe-Writes h.pipe nonblocking bytes) b

-- A pipe that starts within its capacity never holds more, whatever calls it serves.
pub run-Bounded :
    (h : History) (calls : List Call)
    → length h.pipe.bytes ≤ pipe_capacity
    → length (run h calls).pipe.bytes ≤ pipe_capacity
unfolding run Bounded
run-Bounded h [] b = b
run-Bounded h (c ∷ calls) b = run-Bounded (step h c) calls (step-Bounded h c b)
