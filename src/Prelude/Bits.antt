-- ===== src/Prelude/Bits.antt =====
-- The bits of native numbers, which signal sets and flags are.
use Prim.Native.Nat.{
  ℕ, zero, suc, ◌+◌, ◌-◌, ◌*◌, ◌/◌, ◌%◌, ◌^◌, ◌≤◌, ◌<◌, min, max, bit_and, bit_or, digits, bit_xor,
  differ, bit_and-bitwise, bit_or-bitwise, bit_xor-bitwise,
}
use mathlib.Core.Path.{◌≡◌, refl, ◌∙◌, ap}
use mathlib.Core.Logic.{◌≢◌, ◌⊎◌, inl, inr}
use native.Mathlib.Omega.{arith}
use native.Mathlib.Nat.{pow-suc}
use wasmux.Prelude.Tests.{◌==◌, if◌then◌else◌, ==_iff, Bool-cases}

-- The digit of weight 2 ^ i.
unfoldable pub nth : ℕ → ℕ → ℕ
nth a zero = a % 2
nth a (suc i) = nth (a / 2) i

pub zero-nth : (i : ℕ) → nth 0 i ≡ 0
unfolding nth
zero-nth zero = refl
zero-nth (suc i) = zero-nth i

pub nth-lt : (a i : ℕ) → nth a i < 2
unfolding nth
nth-lt a zero = omega arith
nth-lt a (suc i) = nth-lt (a / 2) i

module _ (rest : ℕ → ℕ) (op : ℕ → ℕ → ℕ) (op_digit : (x y : ℕ) → x < 2 → y < 2 → op x y < 2)
    (op_rest : (b i : ℕ) → nth (rest b) i ≡ op 0 (nth b i)) where
  nth-digits : (n a b i : ℕ) → a ≤ n → nth (digits rest op n a b) i ≡ op (nth a i) (nth b i)
  unfolding nth
  nth-digits zero zero b i h = rw (zero-nth i) (op_rest b i)
  nth-digits zero (suc a) b i h = absurd (omega arith)
  nth-digits (suc n) zero b i h = rw (zero-nth i) (op_rest b i)
  nth-digits (suc n) (suc a) b zero h =
      omega (arith, op_digit (suc a % 2) (b % 2) (omega arith) (omega arith))
  nth-digits (suc n) (suc a) b (suc i) h =
      let rec_ = nth-digits n (suc a / 2) (b / 2) i (omega arith) in
      let d : op (suc a % 2) (b % 2) < 2 =
        op_digit (suc a % 2) (b % 2) (omega arith) (omega arith) in
      let low : (digits rest op n (suc a / 2) (b / 2) * 2 + op (suc a % 2) (b % 2)) / 2
          ≡ digits rest op n (suc a / 2) (b / 2) =
        omega (arith, d) in
      ap (λ (v : ℕ). nth v i) low ∙ rec_

pub nth-bit_and : (a b i : ℕ) → nth (bit_and a b) i ≡ min (nth a i) (nth b i)
nth-bit_and a b i =
    ap (λ (v : ℕ). nth v i) (bit_and-bitwise a b)
    ∙ nth-digits (λ b. zero) min (λ x y p q. omega arith) (λ b i. rw (zero-nth i) (omega arith)) a a
        b i (omega arith)

pub nth-bit_or : (a b i : ℕ) → nth (bit_or a b) i ≡ max (nth a i) (nth b i)
nth-bit_or a b i =
    ap (λ (v : ℕ). nth v i) (bit_or-bitwise a b)
    ∙ nth-digits (λ b. b) max (λ x y p q. omega arith) (λ b i. omega arith) a a b i (omega arith)

-- A power of 2 has one digit.
pub nth-pow : (k i : ℕ) → nth (2 ^ k) i ≡ (if i == k then 1 else 0)
unfolding nth
nth-pow zero zero = ground arith
nth-pow zero (suc i) = ground (arith, zero-nth i)
nth-pow (suc k) zero = ground (arith, pow-suc 2 k)
nth-pow (suc k) (suc i) =
    let e : 2 ^ suc k / 2 ≡ 2 ^ k = omega (arith, pow-suc 2 k) in
    ap (λ (v : ℕ). nth v i) e ∙ (nth-pow k i ∙ ground arith)

-- A number without digits is 0.
pub nth-ext_zero : (n a : ℕ) → a ≤ n → ((i : ℕ) → nth a i ≡ 0) → a ≡ 0
unfolding nth
nth-ext_zero zero a h none_ = omega arith
nth-ext_zero (suc n) a h none_ =
    let half : a / 2 ≡ 0 = nth-ext_zero n (a / 2) (omega arith) (λ i. none_ (suc i)) in
    omega (arith, half, none_ 0)

pub nth-pow_self : (k : ℕ) → nth (2 ^ k) k ≡ 1
nth-pow_self k = nth-pow k k ∙ ground arith

Nat-cases : (n : ℕ) → (n ≡ 0) ⊎ (0 < n)
Nat-cases zero = inl refl
Nat-cases (suc n) = inr (omega arith)

-- `a & 1 << k` is 0 exactly if the digit is.
pub bit_and-pow : (a k : ℕ) → (bit_and a (2 ^ k) == 0) ≡ (nth a k == 0)
bit_and-pow a k = elim (Nat-cases (nth a k)) [
  | inl z ↦
      let all : (i : ℕ) → nth (bit_and a (2 ^ k)) i ≡ 0 =
        λ i. nth-bit_and a (2 ^ k) i ∙ ground (arith, nth-pow k i, z) in
      let e : bit_and a (2 ^ k) ≡ 0 =
        nth-ext_zero (bit_and a (2 ^ k)) (bit_and a (2 ^ k)) (omega arith) all in
      rw (e, z) refl
  | inr p ↦
      let e : nth (bit_and a (2 ^ k)) k ≡ min (nth a k) (nth (2 ^ k) k) = nth-bit_and a (2 ^ k) k in
      let q : nth (2 ^ k) k ≡ 1 = nth-pow_self k in
      let ne : bit_and a (2 ^ k) ≢ 0 = λ x.
        let y : nth (bit_and a (2 ^ k)) k ≡ 0 = ap (λ (v : ℕ). nth v k) x ∙ zero-nth k in
        omega (arith, e, q, y, p) in
      ground (arith, ne, p)
]

differ-lt : (x y : ℕ) → x < 2 → y < 2 → differ x y < 2
differ-lt zero y p q = q
differ-lt (suc zero) zero p q = omega arith
differ-lt (suc zero) (suc zero) p q = omega arith
differ-lt (suc zero) (suc (suc y)) p q = absurd (omega arith)
differ-lt (suc (suc x)) y p q = absurd (omega arith)

pub nth-bit_xor : (a b i : ℕ) → nth (bit_xor a b) i ≡ differ (nth a i) (nth b i)
nth-bit_xor a b i =
    ap (λ (v : ℕ). nth v i) (bit_xor-bitwise a b)
    ∙ nth-digits (λ b. b) differ differ-lt (λ b i. refl) a a b i (omega arith)

pow_pos : (k : ℕ) → 0 < 2 ^ k
pow_pos zero = omega arith
pow_pos (suc k) = omega (arith, pow-suc 2 k, pow_pos k)

-- A number of ones.
pub nth-ones : (k i : ℕ) → i < k → nth (2 ^ k - 1) i ≡ 1
unfolding nth
nth-ones zero i h = absurd (omega arith)
nth-ones (suc k) zero h = omega (arith, pow-suc 2 k, pow_pos k)
nth-ones (suc k) (suc i) h =
    let e : (2 ^ suc k - 1) / 2 ≡ 2 ^ k - 1 = omega (arith, pow-suc 2 k, pow_pos k) in
    ap (λ (v : ℕ). nth v i) e ∙ nth-ones k i (omega arith)

-- `x & !y` of two `u64`.
abbrev pub and_not : ℕ → ℕ → ℕ
and_not x y = bit_and x (bit_xor y (2 ^ 64 - 1))

pub nth-and_not_self : (x y i : ℕ) → i < 64 → nth y i ≡ 1 → nth (and_not x y) i ≡ 0
nth-and_not_self x y i h e =
    let a = nth-bit_and x (bit_xor y (2 ^ 64 - 1)) i in
    let b = nth-bit_xor y (2 ^ 64 - 1) i in
    let c : differ (nth y i) (nth (2 ^ 64 - 1) i) ≡ 0 = rw (e, nth-ones 64 i h) refl in
    omega (arith, a, b, c)

pub nth-and_not-le : (x y i : ℕ) → nth (and_not x y) i ≤ nth x i
nth-and_not-le x y i = omega (arith, nth-bit_and x (bit_xor y (2 ^ 64 - 1)) i)

-- How many of the lowest `n` digits are ones.
unfoldable pub ones : ℕ → ℕ → ℕ
unfolding nth
ones zero a = 0
ones (suc n) a = ones n a + nth a n

pub ones-le : (n a : ℕ) → ones n a ≤ n
unfolding ones
ones-le zero a = omega arith
ones-le (suc n) a = omega (arith, ones-le n a, nth-lt a n)

pub ones_mono : (n a b : ℕ) → ((i : ℕ) → nth a i ≤ nth b i) → ones n a ≤ ones n b
unfolding ones
ones_mono zero a b h = omega arith
ones_mono (suc n) a b h = omega (arith, ones_mono n a b h, h n)

-- Fewer ones, where one digit is gone and no other came.
pub ones_less :
    (n a b k : ℕ) → k < n → ((i : ℕ) → nth a i ≤ nth b i) → nth a k < nth b k → ones n a < ones n b
unfolding ones
ones_less zero a b k lt h less = absurd (omega arith)
ones_less (suc n) a b k lt h less = elim (Bool-cases (k == n)) [
  | inl e ↦
      let x : k ≡ n = (==_iff k n).0 e in
      let l : nth a n < nth b n = rw x at less in omega (arith, ones_mono n a b h, l)
  | inr e ↦ omega (arith, ones_less n a b k (ground (arith, e)) h less, h n)
]

pub nth-low : (a : ℕ) → nth a 0 ≡ a % 2
unfolding nth
nth-low a = refl

pub nth-high : (a i : ℕ) → nth a (suc i) ≡ nth (a / 2) i
unfolding nth
nth-high a i = refl
