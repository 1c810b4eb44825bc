-- ===== src/Mem.antt =====
-- crates/wasmux/src/kernel/mem.rs: checked access to a guest's linear memory, a list of bytes.
-- `usize` has 64 bits. An accessor that takes `&mut self` returns the new memory.
mod Tests
pub mod Access
use wasmux.Prelude.{
  ℕ, zero, suc, ◌+◌, ◌-◌, ◌*◌, ◌/◌, ◌%◌, ◌^◌, min, Bool, true, false, ◌&&◌, ◌||◌, Option, none,
  some, List, [], ◌∷◌, ◌++◌, ltb, leb, ◌==◌, if◌then◌else◌, length, take, drop, get_elem?,
  replicate, ℤ, as_i32, Result, ok, err, ok_or, ◌>>=◌,
}
use wasmux.Errno.{Errno, VfsResult, fault, inval, nametoolong, toobig}
use wasmux.Desc.{Bytes}

abbrev pub max_str : ℕ
max_str = 4096

abbrev pub max_args : ℕ
max_args = 4096

abbrev pub max_arg_strlen : ℕ
max_arg_strlen = 128 * 1024

abbrev pub max_arg_total : ℕ
max_arg_total = 2 * 1024 * 1024

-- `start.checked_add(len)` and `get(start..end)`.
abbrev pub fits : Bytes → ℕ → ℕ → Bool
fits m start len = ltb (start + len) (2 ^ 64) && leb (start + len) (length m)

unfoldable pub slice : Bytes → ℕ → ℕ → VfsResult Bytes
slice m start len = if fits m start len then ok (take len (drop start m)) else err fault

-- The bytes of a little-endian number of the given width.
unfoldable pub to_le_bytes : ℕ → ℕ → Bytes
to_le_bytes zero v = []
to_le_bytes (suc width) v = v % 256 ∷ to_le_bytes width (v / 256)

unfoldable pub from_le_bytes : Bytes → ℕ
from_le_bytes [] = 0
from_le_bytes (b ∷ bs) = b + 256 * from_le_bytes bs

-- `slice_mut` and `copy_from_slice`.
unfoldable pub put : Bytes → ℕ → Bytes → VfsResult Bytes
put m start bytes =
    if fits m start (length bytes)
    then ok (take start m ++ (bytes ++ drop (start + length bytes) m))
    else err fault

unfoldable pub read_u32 : Bytes → ℕ → VfsResult ℕ
unfolding slice from_le_bytes
read_u32 m start = do b ← slice m start 4; ok (from_le_bytes b)

unfoldable pub read_u64 : Bytes → ℕ → VfsResult ℕ
unfolding slice from_le_bytes
read_u64 m start = do b ← slice m start 8; ok (from_le_bytes b)

unfoldable pub i32_at : Bytes → ℕ → VfsResult ℤ
unfolding read_u32
i32_at m start = do v ← read_u32 m start; ok (as_i32 v)

unfoldable pub put_u8 : Bytes → ℕ → ℕ → VfsResult Bytes
unfolding put
put_u8 m start v = put m start (v ∷ [])

unfoldable pub put_u16 : Bytes → ℕ → ℕ → VfsResult Bytes
unfolding put to_le_bytes
put_u16 m start v = put m start (to_le_bytes 2 v)

unfoldable pub put_u32 : Bytes → ℕ → ℕ → VfsResult Bytes
unfolding put to_le_bytes
put_u32 m start v = put m start (to_le_bytes 4 v)

unfoldable pub put_u64 : Bytes → ℕ → ℕ → VfsResult Bytes
unfolding put to_le_bytes
put_u64 m start v = put m start (to_le_bytes 8 v)

-- `zero` of the source.
unfoldable pub zero_fill : Bytes → ℕ → ℕ → VfsResult Bytes
unfolding put
zero_fill m start len = put m start (replicate len 0)

-- The bytes before the first NUL, if there is one.
unfoldable pub until_nul : Bytes → Option Bytes
until_nul [] = none
until_nul (b ∷ bs) =
    let rest = until_nul bs in
    elim (b == 0) [ true ↦ some [] | false ↦ elim rest [ none ↦ none | some s ↦ some (b ∷ s) ] ]

unfoldable pub cstr_bytes_upto : Bytes → ℕ → ℕ → VfsResult Bytes
unfolding until_nul
cstr_bytes_upto m start most =
    if ltb (length m) start
    then err fault
    else ok_or (until_nul (take most (drop start m))) nametoolong

unfoldable pub cstr_bytes : Bytes → ℕ → VfsResult Bytes
unfolding cstr_bytes_upto
cstr_bytes m start = cstr_bytes_upto m start max_str

-- `map_err` on the string of an argument.
abbrev pub too_long : VfsResult Bytes → VfsResult Bytes
too_long (ok s) = ok s
too_long (err e) = err (if e.code == nametoolong.code then toobig else e)

-- The loop of `cstr_array` at the pointer `p`, with room for `rounds` more strings. With no room
-- left, which the source tests after it pushes a string, the array is too big.
unfoldable pub array_from : ℕ → Bytes → ℕ → ℕ → List Bytes → VfsResult (List Bytes)
unfolding read_u32 cstr_bytes_upto
array_from zero m p total out = err toobig
array_from (suc rounds) m p total out = do
  item ← read_u32 m p
  let rest = λ (s : Bytes).
      if leb (2 ^ 32) (p + 4)
      then elim rounds [ zero ↦ err toobig | suc r ↦ err fault ]
      else array_from rounds m (p + 4) (total + length s + 1) (out ++ (s ∷ []))
  elim (item == 0) [
    | true ↦ ok out
    | false ↦ (do
      s ← too_long (cstr_bytes_upto m item max_arg_strlen)
      if ltb max_arg_total (total + length s + 1) then err toobig else rest s)
  ]

unfoldable pub cstr_array : Bytes → ℕ → VfsResult (List Bytes)
unfolding array_from
cstr_array m p = if p == 0 then ok [] else array_from max_args m p 0 []

-- `core::time::Duration` as seconds and nanoseconds. A negative `i64` has its top bit set.
pub record Duration : Type 0 where
  pub secs : ℕ
  pub nanos : ℕ

-- `u32::checked_add`
abbrev pub offset_u32 : ℕ → ℕ → VfsResult ℕ
offset_u32 start k = if leb (2 ^ 32) (start + k) then err fault else ok (start + k)

unfoldable pub timespec : Bytes → ℕ → VfsResult Duration
unfolding read_u64 read_u32
timespec m start = do
  secs ← read_u64 m start
  second ← offset_u32 start 8
  nanos ← read_u32 m second
  if leb (2 ^ 63) secs || leb 1000000000 nanos
      then err inval
      else ok (record { secs = secs; nanos = nanos })

-- A write, then what follows it if it succeeds; a failed write leaves the memory as it was.
abbrev pub then_put :
    Bytes → VfsResult Bytes → (Bytes → Bytes × VfsResult (Unit {0})) → Bytes × VfsResult (Unit {0})
then_put m (ok m') k = k m'
then_put m (err e) k = (m, err e)

-- `u32::checked_add`, and what follows it.
abbrev pub then_offset :
    Bytes → VfsResult ℕ → (ℕ → Bytes × VfsResult (Unit {0})) → Bytes × VfsResult (Unit {0})
then_offset m (ok p) k = k p
then_offset m (err e) k = (m, err e)

unfoldable pub put_timespec : Bytes → ℕ → Duration → Bytes × VfsResult (Unit {0})
unfolding put_u64 put_u32
put_timespec m start d = then_put m (put_u64 m start d.secs) λ m₁.
    then_offset m₁ (offset_u32 start 8) λ second. then_put m₁ (put_u32 m₁ second d.nanos) λ m₂.
      then_offset m₂ (offset_u32 start 12)
        λ third. then_put m₂ (put_u32 m₂ third 0) λ m₃. (m₃, ok tt)
