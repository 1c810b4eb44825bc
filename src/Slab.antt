-- ===== src/Slab.antt =====
-- crates/wasmux/src/slab.rs: the index-keyed store behind every shared kernel object.
-- A slab is the vector of its slots and the stack of freed keys, the top of the stack first.
-- `insert` and `remove` return the slab that the `&mut self` of the source is left with.
mod Tests
pub mod Valid
pub mod Refine
use wasmux.Prelude.{
  ℕ, ◌-◌, ◌^◌, Option, none, some, List, [], ◌∷◌, ◌++◌, ◌||◌, ltb, leb, if◌then◌else◌, length,
  get_elem?, set, is_some, join_option,
}

-- `u32`
abbrev pub Key : Type 0
Key = ℕ

-- `Key::MAX`
abbrev pub key_max : ℕ
key_max = 2 ^ 32 - 1

pub record Slab {ℓ} (A : Type ℓ) : Type ℓ where
  pub slots : List (Option A)
  pub free : List Key

module _ {ℓ} {A : Type ℓ} where
  unfoldable pub new : Slab A
  new = record { slots = []; free = [] }

  -- A freed key is reused only if its slot is there; the popped key is gone either way.
  unfoldable pub reuse : Slab A → A → Key → List Key → Slab A × Option Key
  reuse s value k rest =
      if ltb k (length s.slots)
      then (record { slots = set s.slots k (some value); free = rest }, some k)
      else (record { slots = s.slots; free = rest }, none)

  unfoldable pub push_slot : Slab A → A → ℕ → Slab A × Option Key
  push_slot s value cap =
      if leb cap (length s.slots) || leb key_max (length s.slots)
      then (s, none)
      else (record s { slots = s.slots ++ (some value ∷ []) }, some (length s.slots))

  unfoldable pub insert : Slab A → A → ℕ → Slab A × Option Key
  unfolding reuse push_slot
  insert s value cap = elim s.free [ [] ↦ push_slot s value cap | k ∷ rest ↦ reuse s value k rest ]

  unfoldable pub get : Slab A → Key → Option A
  get s k = join_option (get_elem? s.slots k)

  -- A write through `get_mut`: nothing happens where there is no live entry.
  unfoldable pub put : Slab A → Key → A → Slab A
  unfolding get
  put s k value = if is_some (get s k) then record s { slots = set s.slots k (some value) } else s

  unfoldable pub remove : Slab A → Key → Slab A × Option A
  unfolding get
  remove s k = elim (get s k) [
    | none ↦ (s, none)
    | some value ↦ (record { slots = set s.slots k none; free = k ∷ s.free }, some value)
  ]

  -- `saturating_sub` is the truncated subtraction of ℕ.
  unfoldable pub len : Slab A → ℕ
  len s = length s.slots - length s.free
