-- ===== src/Decimal.antt =====
-- The decimal text of an `i32`, as `to_string` writes it and `parse::<i32>` reads it.
use wasmux.Prelude.{
  ℕ, zero, suc, ◌+◌, ◌-◌, ◌*◌, ◌/◌, ◌%◌, ◌^◌, ◌&&◌, Option, none, some, [], ◌∷◌, ltb, leb, ◌==◌,
  if◌then◌else◌, ℤ, pos, negsuc,
}
use wasmux.Desc.{Bytes}

-- An `i32` has ten digits at most.
digits_onto : ℕ → ℕ → Bytes → Bytes
digits_onto zero n acc = acc
digits_onto (suc rounds) n acc =
    let more = digits_onto rounds (n / 10) ((n % 10 + b'0') ∷ acc) in
    if ltb n 10 then (n + b'0') ∷ acc else more

unfoldable pub to_string : ℤ → Bytes
unfolding digits_onto
to_string (pos n) = digits_onto 10 n []
to_string (negsuc n) = b'-' ∷ digits_onto 10 (n + 1) []

read_digits : Bytes → ℕ → Option ℕ
read_digits [] acc = some acc
read_digits (c ∷ s) acc =
    let more = read_digits s (acc * 10 + (c - b'0')) in
    if leb b'0' c && leb c b'9' then more else none

-- A number of one digit at least.
read_number : Bytes → Option ℕ
unfolding read_digits
read_number [] = none
read_number (c ∷ s) = read_digits (c ∷ s) 0

abbrev positive : Option ℕ → Option ℤ
positive none = none
positive (some n) = if ltb n (2 ^ 31) then some (pos n) else none

abbrev negative : Option ℕ → Option ℤ
negative none = none
negative (some n) =
    if n == 0 then some (pos 0) else if leb n (2 ^ 31) then some (negsuc (n - 1)) else none

unfoldable pub parse_i32 : Bytes → Option ℤ
unfolding read_number
parse_i32 [] = none
parse_i32 (c ∷ s) =
    if c == b'-'
    then negative (read_number s)
    else if c == b'+'
    then positive (read_number s)
    else positive (read_number (c ∷ s))
