-- ===== src/Syscall/Poll/Bitmaps.antt =====
-- crates/wasmux/src/kernel/syscall.rs: the bitmaps of `select`, written and read back.
use wasmux.Prelude.{
  ◌⊎◌, ℕ, zero, suc, ◌+◌, ◌*◌, ◌/◌, ◌%◌, ◌^◌, ◌≤◌, ◌<◌, ◌≡◌, refl, ap, sym, ◌∙◌, Bool, true, false,
  arith, not, List, [], ◌∷◌, ◌==◌, if◌then◌else◌, ok, length, Bool-cases, Result-cases, inl, inr,
  nth, nth-bit_or, nth-pow, nth-ext_zero, bit_and-pow, nth-high, zero-nth,
}
use native.Mathlib.Nat.{pow-suc}
use wasmux.Desc.{Bytes}
use wasmux.Mem.{slice, put_u32, read_u32}
use wasmux.Mem.Access.{put-Wrote, read_u32-put_u32, read_u32-slice, put_u32-put}
use wasmux.Syscall.Poll.Select.{in_set, word_bits, put_words, write_fd_set, read_bits, read_fd_set}

-- A number without digits from `n` on.
nth-bound : (n a : ℕ) → ((k : ℕ) → n ≤ k → nth a k ≡ 0) → a < 2 ^ n
nth-bound zero a h = omega (arith, nth-ext_zero a a (omega arith) (λ k. h k (omega arith)))
nth-bound (suc n) a h =
    let half : a / 2 < 2 ^ n =
      nth-bound n (a / 2) (λ k le. sym (nth-high a k) ∙ h (suc k) (omega (arith, le))) in
    omega (arith, half, pow-suc 2 n)

-- The digit that a descriptor has.
abbrev digit : Bool → ℕ
digit b = if b then 1 else 0

nth-word_out :
    (values : List Bool) (index offset left k : ℕ)
    → (k < offset) ⊎ (offset + left ≤ k)
    → nth (word_bits values index offset left) k ≡ 0
unfolding word_bits
nth-word_out values index offset zero k out = zero-nth k
nth-word_out values index offset (suc left) k out =
    let rest = nth-word_out values index (suc offset) left k (ground arith) in
    let apart : (k == offset) ≡ false = ground arith in
    elim (Bool-cases (in_set values (index * 32 + offset))) [
      | inl e ↦
          rw
            (
              word_bits,
              e,
              nth-bit_or (2 ^ offset) (word_bits values index (suc offset) left) k,
              nth-pow offset k,
              apart,
              rest,
            )
            refl
      | inr e ↦ rw (word_bits, e) rest
    ]

nth-word :
    (values : List Bool) (index offset left k : ℕ)
    → offset ≤ k
    → k < offset + left
    → nth (word_bits values index offset left) k ≡ digit (in_set values (index * 32 + k))
unfolding word_bits
nth-word values index offset zero k lo hi = absurd (omega arith)
nth-word values index offset (suc left) k lo hi = elim (Bool-cases (k == offset)) [
  | inl here ↦
      let same : k ≡ offset = ground (arith, here) in
      let rest : nth (word_bits values index (suc offset) left) k ≡ 0 =
        nth-word_out values index (suc offset) left k (inl (omega (arith, same))) in
      elim (Bool-cases (in_set values (index * 32 + offset))) [
        | inl e ↦
            rw
              (
                word_bits,
                e,
                nth-bit_or (2 ^ offset) (word_bits values index (suc offset) left) k,
                nth-pow offset k,
                here,
                rest,
                same,
                e,
              )
              refl
        | inr e ↦
            rw (word_bits, e)
              (rest ∙ sym (ap (λ x. digit (in_set values (index * 32 + x))) same ∙ ap digit e))
      ]
  | inr there ↦
      let rest = nth-word values index (suc offset) left k (ground (arith, there)) (omega arith) in
      elim (Bool-cases (in_set values (index * 32 + offset))) [
        | inl e ↦
            rw
              (
                word_bits,
                e,
                nth-bit_or (2 ^ offset) (word_bits values index (suc offset) left) k,
                nth-pow offset k,
                there,
                rest,
              )
              (omega arith)
        | inr e ↦ rw (word_bits, e) rest
      ]
]

word-lt : (values : List Bool) (index : ℕ) → word_bits values index 0 32 < 2 ^ 32
word-lt values index =
    nth-bound 32 (word_bits values index 0 32)
      (λ k le. nth-word_out values index 0 32 k (inr (omega (arith, le))))

-- A word of the bitmap in the guest's memory.
abbrev WordAt : Bytes → ℕ → List Bool → ℕ → Type 0
WordAt m at values j = read_u32 m (at + j * 4) ≡ ok (word_bits values j 0 32)

-- A word that lies in an unchanged range.
read_same : (m m' : Bytes) (s : ℕ) → slice m' s 4 ≡ slice m s 4 → read_u32 m' s ≡ read_u32 m s
read_same m m' s e = read_u32-slice m' s ∙ (rw (e) refl ∙ sym (read_u32-slice m s))

put_words-frame :
    (m : Bytes) (at : ℕ) (values : List Bool) (index left s n : ℕ)
    → at + (index + left) * 4 ≤ 2 ^ 32
    → s + n ≤ at + index * 4
    → (put_words m at values index left).1 ≡ ok tt
    → slice (put_words m at values index left).0 s n ≡ slice m s n
unfolding put_words
put_words-frame m at values index zero s n fits below done = refl
put_words-frame m at values index (suc left) s n fits below done =
    let here : (at + index * 4 % 2 ^ 32) % 2 ^ 32 ≡ at + index * 4 = omega (arith, fits) in
    let v = word_bits values index 0 32 in
    elim (Result-cases (put_u32 m (at + index * 4) v)) [
      | inl (x, e) ↦ let failed = rw (put_words, here, e) at done in absurd cc
      | inr (m', e) ↦
          let w =
            put-Wrote m (at + index * 4) 4 v m' (sym (put_u32-put m (at + index * 4) v) ∙ e) in
          rw (put_words, here, e)
            (put_words-frame m' at values (suc index) left s n (omega (arith, fits))
                (omega (arith, below)) (rw (put_words, here, e) at done)
              ∙ w.rest s n (inl below))
    ]

later_word : (index j : ℕ) → index ≤ j → (j == index) ≡ false → suc index ≤ j
later_word index j lo apart = ground arith

put_words-step :
    (m : Bytes) (at : ℕ) (values : List Bool) (index left : ℕ) (m' : Bytes)
    → at + (index + suc left) * 4 ≤ 2 ^ 32
    → put_u32 m (at + index * 4) (word_bits values index 0 32) ≡ ok m'
    → put_words m at values index (suc left) ≡ put_words m' at values (suc index) left
unfolding put_words
put_words-step m at values index left m' fits e =
    let here : (at + index * 4 % 2 ^ 32) % 2 ^ 32 ≡ at + index * 4 = omega (arith, fits) in
    rw (put_words, here, e) refl

put_words-reads :
    (m : Bytes) (at : ℕ) (values : List Bool) (index left j : ℕ)
    → at + (index + left) * 4 ≤ 2 ^ 32
    → (put_words m at values index left).1 ≡ ok tt
    → index ≤ j
    → j < index + left
    → WordAt (put_words m at values index left).0 at values j
unfolding put_words
put_words-reads m at values index zero j fits done lo hi = absurd (omega arith)
put_words-reads m at values index (suc left) j fits done lo hi =
    let here : (at + index * 4 % 2 ^ 32) % 2 ^ 32 ≡ at + index * 4 = omega (arith, fits) in
    let v = word_bits values index 0 32 in
    elim (Result-cases (put_u32 m (at + index * 4) v)) [
      | inl (x, e) ↦ let failed = rw (put_words, here, e) at done in absurd cc
      | inr (m', e) ↦
          let step = put_words-step m at values index left m' fits e in
          let done' : (put_words m' at values (suc index) left).1 ≡ ok tt =
            sym (ap (λ r. r.1) step) ∙ done in
          ap (λ r. read_u32 (r.0) (at + j * 4)) step ∙ elim (Bool-cases (j == index)) [
            | inl b ↦
                let same : j ≡ index = ground (arith, b) in
                ap (λ x. read_u32 (put_words m' at values (suc index) left).0 (at + x * 4)) same
                ∙ (read_same m' (put_words m' at values (suc index) left).0 (at + index * 4) (
                      put_words-frame m' at values (suc index) left (at + index * 4) 4
                        (omega (arith, fits)) (omega arith) done')
                    ∙ (read_u32-put_u32 m (at + index * 4) v m' (word-lt values index) e
                        ∙ sym (ap (λ x. ok (word_bits values x 0 32)) same)))
            | inr b ↦
                put_words-reads m' at values (suc index) left j (omega (arith, fits)) done'
                  (later_word index j lo b) (omega (arith, hi))
          ]
    ]

-- The memberships of the descriptors from `fd` on.
bits_of : List Bool → ℕ → ℕ → List Bool
unfolding in_set
bits_of values fd zero = []
bits_of values fd (suc left) = in_set values fd ∷ bits_of values (suc fd) left

bits_of-cons :
    (v : Bool) (values : List Bool) (fd left : ℕ)
    → bits_of (v ∷ values) (suc fd) left ≡ bits_of values fd left
unfolding bits_of in_set
bits_of-cons v values fd zero = refl
bits_of-cons v values fd (suc left) =
    ap (◌∷◌ (in_set values fd)) (bits_of-cons v values (suc fd) left)

bits_of-all : (values : List Bool) → bits_of values 0 (length values) ≡ values
unfolding bits_of in_set
bits_of-all [] = refl
bits_of-all (v ∷ values) = ap (◌∷◌ v) (bits_of-cons v values 0 (length values) ∙ bits_of-all values)

digit-back : (b : Bool) → not (digit b == 0) ≡ b
digit-back true = refl
digit-back false = refl

read_bits-all :
    (m : Bytes) (at : ℕ) (values : List Bool) (words : ℕ)
    → at + words * 4 ≤ 2 ^ 32
    → ((j : ℕ) → j < words → WordAt m at values j)
    → (fd left : ℕ) → fd + left ≤ words * 32
    → read_bits m at fd left ≡ ok (bits_of values fd left)
unfolding read_bits bits_of
read_bits-all m at values words fits all fd zero h = refl
read_bits-all m at values words fits all fd (suc left) h =
    let here : (at + fd / 32 * 4 % 2 ^ 32) % 2 ^ 32 ≡ at + fd / 32 * 4 = omega (arith, fits, h) in
    let word = all (fd / 32) (omega (arith, h)) in
    let bit : nth (word_bits values (fd / 32) 0 32) (fd % 32) ≡ digit (in_set values fd) =
      nth-word values (fd / 32) 0 32 (fd % 32) (omega arith) (omega arith)
      ∙ ap (λ x. digit (in_set values x)) (omega arith) in
    rw
      (
        read_bits,
        here,
        word,
        read_bits-all m at values words fits all (suc fd) left (omega (arith, h)),
        bit_and-pow (word_bits values (fd / 32) 0 32) (fd % 32),
        bit,
        digit-back (in_set values fd),
      )
      refl

-- A bitmap is written at an address that is not null, in words that end within the address space,
-- and the write succeeds: then the same bitmap is read back from there.
pub read_fd_set-write_fd_set :
    (m : Bytes) (at : ℕ) (values : List Bool)
    → 0 < at
    → at + (length values + 31) / 32 * 4 ≤ 2 ^ 32
    → (write_fd_set m at values).1 ≡ ok tt
    → read_fd_set (write_fd_set m at values).0 at (length values) ≡ ok values
unfolding read_fd_set write_fd_set
read_fd_set-write_fd_set m at values some_ fits done =
    let there : (at == 0) ≡ false = ground (arith, some_) in
    let words = (length values + 31) / 32 in
    let done' : (put_words m at values 0 words).1 ≡ ok tt = rw (write_fd_set, there) at done in
    rw (read_fd_set, write_fd_set, there)
      (read_bits-all (put_words m at values 0 words).0 at values words fits
          (λ j h.
            put_words-reads m at values 0 words j (omega (arith, fits)) done' (omega arith)
              (omega (arith, h)))
          0 (length values) (omega arith)
        ∙ ap ok (bits_of-all values))
