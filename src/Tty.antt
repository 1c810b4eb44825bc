-- ===== src/Tty.antt =====
-- crates/wasmux/src/kernel/tty.rs: the terminal, and the `termios` that the guest sees.
-- An array is a list of its length.
pub mod Layout
mod Tests
use Prim.Native.Nat.{bit_and, bit_or}
use wasmux.Prelude.{
  ℕ, ◌+◌, Bool, not, Option, none, some, List, [], ◌∷◌, ◌++◌, ◌==◌, leb, if◌then◌else◌, length,
  take, drop, get_elem?, replicate, set,
}
use wasmux.Desc.{Bytes}
use wasmux.Mem.{to_le_bytes, from_le_bytes}

-- crates/wasmux/src/abi.rs
abbrev pub nccs_kernel : ℕ
nccs_kernel = 19

abbrev pub isig : ℕ
isig = 1

abbrev pub icanon : ℕ
icanon = 2

abbrev pub echo : ℕ
echo = 8

abbrev pub echoe : ℕ
echoe = 0o20

abbrev pub echok : ℕ
echok = 0o40

abbrev pub termios_bytes : ℕ
termios_bytes = 17 + nccs_kernel

pub record Termios : Type 0 where
  pub iflag : ℕ
  pub oflag : ℕ
  pub cflag : ℕ
  pub lflag : ℕ
  pub line : ℕ
  pub cc_ : Bytes

unfoldable pub raw : Termios → Bool
raw t = bit_and t.lflag icanon == 0

unfoldable pub signals : Termios → Bool
signals t = not (bit_and t.lflag isig == 0)

unfoldable pub encode : Termios → Bytes
unfolding to_le_bytes
encode t =
    to_le_bytes 4 t.iflag
    ++ (to_le_bytes 4 t.oflag
        ++ (to_le_bytes 4 t.cflag ++ (to_le_bytes 4 t.lflag ++ (t.line ∷ t.cc_))))

-- `bytes.get(at..at + n)`
unfoldable pub get_range : Bytes → ℕ → ℕ → Option Bytes
get_range bytes at n = if leb (at + n) (length bytes) then some (take n (drop at bytes)) else none

unfoldable pub word : Bytes → ℕ → Option ℕ
unfolding get_range from_le_bytes
word bytes at = elim (get_range bytes at 4) [ none ↦ none | some b ↦ some (from_le_bytes b) ]

-- `Option::and_then`
infixl 5 ◌>>=◌
abbrev pub ◌>>=◌ : {A B : Type 0} → Option A → (A → Option B) → Option B
none >>= f = none
some a >>= f = f a

unfoldable pub decode : Bytes → Option Termios
unfolding get_range word
decode bytes = do
  cc_ ← get_range bytes 17 nccs_kernel
  iflag ← word bytes 0
  oflag ← word bytes 4
  cflag ← word bytes 8
  lflag ← word bytes 12
  line ← get_elem? bytes 16
  some (record {
    iflag = iflag;
    oflag = oflag;
    cflag = cflag;
    lflag = lflag;
    line = line;
    cc_ = cc_;
  })
