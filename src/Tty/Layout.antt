-- ===== src/Tty/Layout.antt =====
-- crates/wasmux/src/kernel/tty.rs: the layout of `termios` is read back as it was written.
use wasmux.Prelude.{
  ℕ, ◌+◌, ◌^◌, ◌<◌, ◌≤◌, ◌≡◌, refl, ap, sym, ◌∙◌, none, some, List, [], ◌∷◌, arith, length, take,
  drop, get_elem?,
}
use wasmux.Desc.{Bytes}
use wasmux.Mem.{to_le_bytes}
use wasmux.Mem.Access.{from_le_bytes-to_le_bytes}
use wasmux.Tty.{Termios, nccs_kernel, termios_bytes, encode, decode, get_range, word}

take_all : {A : Type 0} (xs : List A) (n : ℕ) → length xs ≡ n → take n xs ≡ xs
take_all [] n e = rw (sym e) refl
take_all (x ∷ xs) n e = rw (sym e) (ap (◌∷◌ x) (take_all xs (length xs) refl))

get_range-some :
    (bytes : Bytes) (at n : ℕ)
    → at + n ≤ length bytes
    → get_range bytes at n ≡ some (take n (drop at bytes))
unfolding get_range
get_range-some bytes at n h = ground arith

-- A word that stands at `at` is read.
word-some :
    (bytes : Bytes) (at v : ℕ)
    → at + 4 ≤ length bytes
    → take 4 (drop at bytes) ≡ to_le_bytes 4 v
    → v < 2 ^ 32
    → word bytes at ≡ some v
unfolding word
word-some bytes at v h e small =
    rw (word, get_range-some bytes at 4 h, e)
      (ap some (from_le_bytes-to_le_bytes 4 v (omega arith)))

length-encode : (t : Termios) → length t.cc_ ≡ nccs_kernel → length (encode t) ≡ termios_bytes
unfolding encode to_le_bytes
length-encode t size = omega (arith, size)

decode-some :
    (bytes : Bytes) (t : Termios)
    → get_range bytes 17 nccs_kernel ≡ some t.cc_
    → word bytes 0 ≡ some t.iflag
    → word bytes 4 ≡ some t.oflag
    → word bytes 8 ≡ some t.cflag
    → word bytes 12 ≡ some t.lflag
    → get_elem? bytes 16 ≡ some t.line
    → decode bytes ≡ some t
unfolding decode
decode-some bytes t e₀ e₁ e₂ e₃ e₄ e₅ = rw (decode, e₀, e₁, e₂, e₃, e₄, e₅) refl

-- What `encode` writes is 36 bytes long, and `decode` reads the same state back from it: every flag
-- word that fits 32 bits, the line and the 19 control characters.
pub decode-encode :
    (t : Termios)
    → t.iflag < 2 ^ 32
    → t.oflag < 2 ^ 32
    → t.cflag < 2 ^ 32
    → t.lflag < 2 ^ 32
    → length t.cc_ ≡ nccs_kernel
    → (length (encode t) ≡ termios_bytes) × (decode (encode t) ≡ some t)
unfolding encode to_le_bytes
decode-encode t a b c d size =
    let e : length (encode t) ≡ 36 = length-encode t size in
    (
      e,
      decode-some (encode t) t
          (get_range-some (encode t) 17 19 (omega (arith, e)) ∙ ap some (take_all (t.cc_) 19 size))
          (word-some (encode t) 0 t.iflag (omega (arith, e)) refl a)
          (word-some (encode t) 4 t.oflag (omega (arith, e)) refl b)
          (word-some (encode t) 8 t.cflag (omega (arith, e)) refl c)
          (word-some (encode t) 12 t.lflag (omega (arith, e)) refl d) refl,
    )

-- A buffer that is too short is refused.
pub decode_short : (bytes : Bytes) → length bytes < termios_bytes → decode bytes ≡ none
unfolding decode get_range
decode_short bytes h = ground arith
