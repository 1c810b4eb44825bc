-- ===== src/Shared/Tables.antt =====
-- The operations of `FdTable` (kernel/fd.rs) keep the references of `Shared.Refs` in balance.
use wasmux.Prelude.{
  ℕ, ◌+◌, ◌-◌, ◌<◌, ◌^◌, ◌≡◌, refl, Option, none, some, List, [], ◌∷◌, ◌++◌, true, arith, is_some,
  ℤ, pos, negsuc, ok, err,
}
use wasmux.Errno.{Errno}
use wasmux.Slab
use wasmux.Slab.{Key, Slab}
use wasmux.Desc.{Desc}
use wasmux.Fd
use wasmux.Fd.{
  Fd, FdTable, at, reserve, alloc_from, entries_from, drain_marked, drain_slots, retain, retain_all,
}
use wasmux.Shared.Refs.{occurs, times, refs_at, IsBalanced, retain_lem}
use wasmux.Shared.Counts.{
  occurs-alloc_from, occurs-drain_slots, occurs-drain_marked, occurs-take, occurs-replace,
  occurs-take_err, occurs-replace_err, occurs_of_at, keys_of, times-entries, times-append,
}

-- The reference that `replace` displaces, if there is an old one.
abbrev pub displaced : Option Fd → List Key
displaced none = []
displaced (some e) = e.desc ∷ []

module _ {F : Type 0} where
  -- A reference in hand becomes a descriptor when `alloc` succeeds; else it stays in hand.
  pub alloc-IsBalanced :
      (t : FdTable) (ts : List FdTable) (held : List Key) (descs : Slab (Desc F)) (entry : Fd)
      (least max : ℕ) {i : ℤ}
      → (Fd.alloc t entry least max).1 ≡ ok i
      → IsBalanced (t ∷ ts) (entry.desc ∷ held) descs
      → IsBalanced ((Fd.alloc t entry least max).0 ∷ ts) held descs
  unfolding Fd.alloc
  alloc-IsBalanced t ts held descs entry least max e b = record {
    counted = λ key.
        ground (arith, b.counted key, occurs-alloc_from key (max - least) t.slots entry least);
    alive = b.alive;
  }

  -- A failed `alloc` leaves the reference in hand: nothing gives it back.
  pub alloc_err-IsBalanced :
      (t : FdTable) (ts : List FdTable) (held : List Key) (descs : Slab (Desc F)) (entry : Fd)
      (least max : ℕ) {x : Errno}
      → (Fd.alloc t entry least max).1 ≡ err x
      → IsBalanced (t ∷ ts) held descs
      → IsBalanced ((Fd.alloc t entry least max).0 ∷ ts) held descs
  unfolding Fd.alloc
  alloc_err-IsBalanced t ts held descs entry least max e b = record {
    counted = λ key.
        ground (arith, b.counted key, occurs-alloc_from key (max - least) t.slots entry least);
    alive = b.alive;
  }

  -- `take` turns a descriptor into a reference in hand.
  pub take-IsBalanced :
      (t : FdTable) (ts : List FdTable) (held : List Key) (descs : Slab (Desc F)) (fd : ℤ)
      {entry : Fd}
      → (Fd.take t fd).1 ≡ ok entry
      → IsBalanced (t ∷ ts) held descs
      → IsBalanced ((Fd.take t fd).0 ∷ ts) (entry.desc ∷ held) descs
  unfolding Fd.take
  take-IsBalanced t ts held descs (negsuc n) e b = cc
  take-IsBalanced t ts held descs (pos i) {entry} e b = record {
    counted = λ key. ground (arith, b.counted key, occurs-take t i entry key e);
    alive = b.alive;
  }

  -- A failed `take` changes nothing.
  pub take_err-IsBalanced :
      (t : FdTable) (ts : List FdTable) (held : List Key) (descs : Slab (Desc F)) (fd : ℤ)
      {x : Errno}
      → (Fd.take t fd).1 ≡ err x
      → IsBalanced (t ∷ ts) held descs
      → IsBalanced ((Fd.take t fd).0 ∷ ts) held descs
  unfolding Fd.take
  take_err-IsBalanced t ts held descs (negsuc n) e b = b
  take_err-IsBalanced t ts held descs (pos i) {x} e b = record {
    counted = λ key. ground (arith, b.counted key, occurs-take_err t i x key e);
    alive = b.alive;
  }

  -- Nor does a failed `replace` open or close anything.
  pub replace_err-IsBalanced :
      (t : FdTable) (ts : List FdTable) (held : List Key) (descs : Slab (Desc F)) (fd : ℤ)
      (entry : Fd) (max : ℕ) {x : Errno}
      → (Fd.replace t fd entry max).1 ≡ err x
      → IsBalanced (t ∷ ts) held descs
      → IsBalanced ((Fd.replace t fd entry max).0 ∷ ts) held descs
  unfolding Fd.replace
  replace_err-IsBalanced t ts held descs (negsuc n) entry max e b = b
  replace_err-IsBalanced t ts held descs (pos i) entry max {x} e b = record {
    counted = λ key. ground (arith, b.counted key, occurs-replace_err t i entry max x key e);
    alive = b.alive;
  }

  -- What an open descriptor points at is live.
  pub live_of_get :
      (t : FdTable) (ts : List FdTable) (held : List Key) (descs : Slab (Desc F)) (fd : ℤ)
      {entry : Fd}
      → Fd.get t fd ≡ ok entry
      → IsBalanced (t ∷ ts) held descs
      → is_some (Slab.get descs entry.desc) ≡ true
  unfolding Fd.get
  live_of_get t ts held descs (negsuc n) e b = cc
  live_of_get t ts held descs (pos i) {entry} e b =
      let h : at t.slots i ≡ some entry = ground arith in
      ground (arith, b.counted entry.desc, occurs_of_at t.slots i h)

  -- `replace` takes a reference in hand into the table and hands out the one that was there.
  pub replace-IsBalanced :
      (t : FdTable) (ts : List FdTable) (held : List Key) (descs : Slab (Desc F)) (fd : ℤ)
      (entry : Fd) (max : ℕ) (old : Option Fd)
      → (Fd.replace t fd entry max).1 ≡ ok old
      → IsBalanced (t ∷ ts) (entry.desc ∷ held) descs
      → IsBalanced ((Fd.replace t fd entry max).0 ∷ ts) (displaced old ++ held) descs
  unfolding Fd.replace
  replace-IsBalanced t ts held descs (negsuc n) entry max old e b = cc
  replace-IsBalanced t ts held descs (pos i) entry max none e b = record {
    counted = λ key. ground (arith, b.counted key, occurs-replace t i entry max none key e);
    alive = b.alive;
  }
  replace-IsBalanced t ts held descs (pos i) entry max (some f) e b = record {
    counted = λ key. ground (arith, b.counted key, occurs-replace t i entry max (some f) key e);
    alive = b.alive;
  }

  -- `drain_all` turns every descriptor of the table into a reference in hand.
  pub drain_all-IsBalanced :
      (t : FdTable) (ts : List FdTable) (held : List Key) (descs : Slab (Desc F))
      → IsBalanced (t ∷ ts) held descs
      → IsBalanced ts ((Fd.drain_all t).1 ++ held) descs
  unfolding Fd.drain_all
  drain_all-IsBalanced t ts held descs b = record {
    counted = λ key. omega (
      arith,
      b.counted key,
      (occurs-drain_slots key t.slots).0,
      times-append key (drain_slots t.slots).1 held,
    );
    alive = b.alive;
  }

  -- So does `drain_cloexec` for the marked ones.
  pub drain_cloexec-IsBalanced :
      (t : FdTable) (ts : List FdTable) (held : List Key) (descs : Slab (Desc F))
      → IsBalanced (t ∷ ts) held descs
      → IsBalanced ((Fd.drain_cloexec t).0 ∷ ts) ((Fd.drain_cloexec t).1 ++ held) descs
  unfolding Fd.drain_cloexec
  drain_cloexec-IsBalanced t ts held descs b = record {
    counted = λ key. omega (
      arith,
      b.counted key,
      occurs-drain_marked key t.slots,
      times-append key (drain_marked t.slots).1 held,
    );
    alive = b.alive;
  }

  -- Taking one reference for each entry of a list of live descriptions.
  retain_all_lem :
      (es : List (ℤ × Fd)) (descs : Slab (Desc F)) (key : Key)
      → ((k : Key) → refs_at descs k + times k (keys_of es) < 2 ^ 32)
      → ((k : Key) → 0 < times k (keys_of es) → is_some (Slab.get descs k) ≡ true)
      → (refs_at (retain_all descs es) key ≡ refs_at descs key + times key (keys_of es))
        × (is_some (Slab.get (retain_all descs es) key) ≡ is_some (Slab.get descs key))
  unfolding retain_all
  retain_all_lem [] descs key small live = (omega arith, refl)
  retain_all_lem ((n, e) ∷ es) descs key small live =
      let next =
        retain_all_lem es (retain descs e.desc) key
          (λ k. ground (arith, small k, retain_lem descs e.desc k))
          (λ k h. ground (arith, live k, retain_lem descs e.desc k)) in
      ground (arith, next, small key, live key, retain_lem descs e.desc key)

  -- A copy of the table for a new process takes a reference for each of its descriptors.
  pub duplicate-IsBalanced :
      (t : FdTable) (ts : List FdTable) (held : List Key) (descs : Slab (Desc F))
      → ((k : Key) → refs_at descs k + occurs k t.slots < 2 ^ 32)
      → IsBalanced (t ∷ ts) held descs
      → IsBalanced ((Fd.duplicate t descs).1 ∷ t ∷ ts) held (Fd.duplicate t descs).0
  unfolding Fd.duplicate
  duplicate-IsBalanced t ts held descs small b =
      let es : List (ℤ × Fd) = entries_from 0 t.slots in
      let h = λ (key : Key).
        retain_all_lem es descs key (λ k. omega (arith, small k, times-entries k 0 t.slots))
          (λ k p. ground (arith, b.counted k, times-entries k 0 t.slots)) in
      record {
        counted = λ key. omega (arith, b.counted key, (h key).0, times-entries key 0 t.slots);
        alive = λ key p. ground (arith, b.alive key, h key);
      }
