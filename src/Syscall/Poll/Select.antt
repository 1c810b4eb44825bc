-- ===== src/Syscall/Poll/Select.antt =====
-- crates/wasmux/src/kernel/syscall.rs: select(2) and its bitmaps.
use Prim.Native.Nat.{bit_and, bit_or}
use wasmux.Prelude.{
  ℕ, zero, suc, ◌+◌, ◌*◌, ◌/◌, ◌%◌, ◌^◌, min, Bool, false, ◌&&◌, ◌||◌, not, Option, none, some,
  List, [], ◌∷◌, ◌==◌, if◌then◌else◌, ℤ, pos, negsuc, ok, err, length, replicate, get_elem?, ◌>>=◌,
}
use wasmux.Errno.{VfsResult}
use wasmux.Desc.{Bytes}
use wasmux.Mem.{read_u32, put_u32, then_put}
use wasmux.Ctx.{Ctx, errno, Sys}
use wasmux.Syscall.Poll.{
  Clock, pollin, pollout, pollerr, pollhup, count_one, poll_fd, until_, wait_or, told,
}

-- The bitmaps of `select`, from the descriptor `fd` on.
unfoldable pub read_bits : Bytes → ℕ → ℕ → ℕ → VfsResult (List Bool)
unfolding read_u32
read_bits m at fd zero = ok []
read_bits m at fd (suc left) = do
  word ← read_u32 m ((at + fd / 32 * 4 % 2 ^ 32) % 2 ^ 32)
  rest ← read_bits m at (suc fd) left
  ok (not (bit_and word (2 ^ (fd % 32)) == 0) ∷ rest)

unfoldable pub read_fd_set : Bytes → ℕ → ℕ → VfsResult (List Bool)
unfolding read_bits
read_fd_set m at count = if at == 0 then ok (replicate count false) else read_bits m at 0 count

-- `get(fd).copied().unwrap_or(false)`
unfoldable pub in_set : List Bool → ℕ → Bool
in_set values fd = elim (get_elem? values fd) [ none ↦ false | some b ↦ b ]

-- The bits of one word from `offset` on, with `left` of them to go.
unfoldable pub word_bits : List Bool → ℕ → ℕ → ℕ → ℕ
unfolding in_set
word_bits values index offset zero = 0
word_bits values index offset (suc left) =
    let rest = word_bits values index (suc offset) left in
    if in_set values (index * 32 + offset) then bit_or (2 ^ offset) rest else rest

unfoldable pub put_words : Bytes → ℕ → List Bool → ℕ → ℕ → Bytes × VfsResult (Unit {0})
unfolding word_bits put_u32
put_words m at values index zero = (m, ok tt)
put_words m at values index (suc left) =
    then_put m (put_u32 m ((at + index * 4 % 2 ^ 32) % 2 ^ 32) (word_bits values index 0 32))
      λ m'. put_words m' at values (suc index) left

unfoldable pub write_fd_set : Bytes → ℕ → List Bool → Bytes × VfsResult (Unit {0})
unfolding put_words
write_fd_set m at values =
    if at == 0 then (m, ok tt) else put_words m at values 0 ((length values + 31) / 32)

-- The answers for the descriptors so far, and how many there are.
pub record Selected : Type 0 where
  pub readable : List Bool
  pub writable : List Bool
  pub ready : ℕ

abbrev pub has : ℕ → ℕ → Bool
has r mask = not (bit_and r mask == 0)

-- The three sets are written in turn.
unfoldable pub put_sets :
    Bytes → ℕ → ℕ → ℕ → List Bool → List Bool → ℕ → Bytes × VfsResult (Unit {0})
unfolding write_fd_set
put_sets m read_at write_at except_at rs ws count =
    let (m₁, r₁) = write_fd_set m read_at rs in
    elim r₁ [
      | err e ↦ (m₁, err e)
      | ok u ↦
          let (m₂, r₂) = write_fd_set m₁ write_at ws in
          elim r₂ [ err e ↦ (m₂, err e) | ok u ↦ write_fd_set m₂ except_at (replicate count false) ]
    ]

-- `count.clamp(0, 1024)`
unfoldable pub clamp_count : ℤ → ℕ
clamp_count (pos n) = min n 1024
clamp_count (negsuc n) = 0

module _ {F : Type 0} where
  -- `revents` of one descriptor of `select`; nobody asks for one that is in no set.
  unfoldable pub select_fd : Ctx F → ℕ → Bool → Bool → Bool → ℕ
  unfolding poll_fd
  select_fd c fd r w x =
      if r || (w || x)
      then poll_fd c (pos fd) (bit_or (if r then pollin else 0) (if w then pollout else 0))
      else 0

  -- The loop of `select`, from the descriptor `fd` on.
  unfoldable pub select_from : Ctx F → List Bool → List Bool → List Bool → ℕ → ℕ → Selected
  unfolding select_fd in_set
  select_from c rs ws xs fd zero = record { readable = []; writable = []; ready = 0 }
  select_from c rs ws xs fd (suc left) =
      let rest = select_from c rs ws xs (suc fd) left in
      let r = in_set rs fd in
      let w = in_set ws fd in
      let events = select_fd c fd r w (in_set xs fd) in
      let can_read = r && has events (bit_or pollin (bit_or pollhup pollerr)) in
      let can_write = w && has events (bit_or pollout pollerr) in
      let counted = if can_read then count_one rest.ready else rest.ready in
      record {
        readable = can_read ∷ rest.readable;
        writable = can_write ∷ rest.writable;
        ready = if can_write then count_one counted else counted;
      }

  module _ (clock : Clock) where
    select_until : Sys F (Option ℕ) → ℕ → ℕ → ℕ → ℕ → Sys F ℤ
    unfolding read_fd_set select_from put_sets told wait_or
    select_until (c, err e) count read_at write_at except_at = (c, err e)
    select_until (c, ok until) count read_at write_at except_at =
        let sets = (do
          rs ← read_fd_set c.memory read_at count
          ws ← read_fd_set c.memory write_at count
          xs ← read_fd_set c.memory except_at count
          ok (select_from c rs ws xs 0 count)) in
        elim sets [
          | err e ↦ (c, err (errno e))
          | ok s ↦
              wait_or clock (λ c'. c') c until s.ready
                (told c s.ready
                  (put_sets c.memory read_at write_at except_at s.readable s.writable count))
        ]

    unfoldable pub sys_pselect : Ctx F → ℤ → ℕ → ℕ → ℕ → ℕ → Sys F ℤ
    unfolding until_ select_until clamp_count
    sys_pselect c count read_at write_at except_at timeout_at =
        select_until (until_ clock c timeout_at) (clamp_count count) read_at write_at except_at
