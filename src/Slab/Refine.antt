-- ===== src/Slab/Refine.antt =====
-- The slab of slab.rs seen as a map from keys to live entries.
use wasmux.Prelude.{
  ℕ, zero, suc, ◌<◌, ◌≡◌, refl, ap, ◌⊎◌, inl, inr, Option, none, some, List, [], ◌∷◌, ◌++◌, ◌&&◌,
  ◌||◌, arith, length, get_elem?, set, get_elem?-set, get_elem?-lt, get_elem?-none, leb, lt→ltb,
  ◌==◌, if◌then◌else◌, is_some, join_option, Bool-cases, Option-cases, join_option-some,
}
use wasmux.Slab.{Key, key_max, Slab, reuse, push_slot, insert, get, put, remove}
use wasmux.Slab.Valid.{IsValid, Dead}

module _ {ℓ} {A : Type ℓ} where
  join-get_elem?-set :
      (xs : List (Option A)) (k j : Key) (o : Option A)
      → k < length xs
      → join_option (get_elem? (set xs k o) j)
        ≡ (if j == k then o else join_option (get_elem? xs j))
  join-get_elem?-set xs k j o h = ground (arith, get_elem?-set xs k j o h)

  join-get_elem?-append :
      (xs : List (Option A)) (j : Key) (o : Option A)
      → join_option (get_elem? (xs ++ (o ∷ [])) j)
        ≡ (if j == length xs then o else join_option (get_elem? xs j))
  join-get_elem?-append [] zero o = refl
  join-get_elem?-append [] (suc j) o = ground arith
  join-get_elem?-append (x ∷ xs) zero o = ground arith
  join-get_elem?-append (x ∷ xs) (suc j) o = ground (arith, join-get_elem?-append xs j o)

  -- What `insert` promises: on a refusal nothing changed; else the key was not live, it now reads
  -- as the new value, and every other key reads as before.
  abbrev pub Inserts : Slab A → A → Slab A × Option Key → Type ℓ
  Inserts s a out =
      ((out.1 ≡ none) × (out.0 ≡ s))
      ⊎ ((k : Key) × (out.1 ≡ some k)
          × (get s k ≡ none)
          × ((j : Key) → get out.0 j ≡ (if j == k then some a else get s j)))

  push_slot-Inserts : (s : Slab A) (a : A) (cap : ℕ) → Inserts s a (push_slot s a cap)
  unfolding push_slot get
  push_slot-Inserts s a cap =
      elim (Bool-cases (leb cap (length s.slots) || leb key_max (length s.slots))) [
        | inl full ↦ rw full (inl (refl, refl))
        | inr room ↦ rw room (
            inr (
              length s.slots,
              refl,
              ap join_option (get_elem?-none s.slots (length s.slots) (omega arith)),
              λ j. join-get_elem?-append s.slots j (some a),
            ))
      ]

  reuse-Inserts :
      (s : Slab A) (a : A) (k : Key) (rest : List Key)
      → Dead s.slots k
      → Inserts s a (reuse s a k rest)
  unfolding reuse get
  reuse-Inserts s a k rest d =
      let within : k < length s.slots = get_elem?-lt s.slots k d in
      rw (lt→ltb k (length s.slots) within)
        (inr (k, refl, ap join_option d, λ j. join-get_elem?-set s.slots k j (some a) within))

  insert-Inserts :
      (slots : List (Option A)) (free : List Key) (a : A) (max : ℕ)
      → IsValid (record { slots = slots; free = free })
      → Inserts
          (record { slots = slots; free = free })
          a
          (insert (record { slots = slots; free = free }) a max)
  unfolding insert
  insert-Inserts slots [] a max v = push_slot-Inserts _ a max
  insert-Inserts slots (k ∷ rest) a max v = reuse-Inserts _ a k rest (v.dead.0)

  -- In a valid slab `insert` either refuses and changes nothing, or it answers with a key that was
  -- not live, at which the value now stands, and every other key reads as before.
  insert_refines : (s : Slab A) (a : A) (max : ℕ) → IsValid s → Inserts s a (insert s a max)
  insert_refines s a max v = insert-Inserts s.slots s.free a max v

  get-some : (s : Slab A) (k : Key) {a : A} → get s k ≡ some a → k < length s.slots
  unfolding get
  get-some s k e = get_elem?-lt s.slots k (join_option-some _ e)

  -- `remove` returns what stood at the key, forgets it, and leaves every other key alone.
  pub remove_refines :
      (s : Slab A) (k : Key)
      → ((remove s k).1 ≡ get s k)
        × ((j : Key) → get (remove s k).0 j ≡ (if j == k then none else get s j))
  unfolding remove get
  remove_refines s k = elim (Option-cases (get s k)) [
    | inl e ↦ (ground arith, λ j. ground arith)
    | inr (a, e) ↦
        (ground arith, λ j. ground (arith, join-get_elem?-set s.slots k j none (get-some s k e)))
  ]

  -- A write through `get_mut` changes what stands at its key, if that is live, and nothing else.
  pub put_refines :
      (s : Slab A) (k j : Key) (a : A)
      → get (put s k a) j ≡ (if (j == k) && is_some (get s k) then some a else get s j)
  unfolding put get
  put_refines s k j a = elim (Option-cases (get s k)) [
    | inl e ↦ ground arith
    | inr (b, e) ↦ ground (arith, join-get_elem?-set s.slots k j (some a) (get-some s k e))
  ]
