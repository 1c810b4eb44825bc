-- ===== src/Slab/Valid.antt =====
-- The representation invariant of the slab of slab.rs: the free stack holds exactly the dead slots.
use wasmux.Prelude.{
  ℕ, zero, suc, ◌+◌, ◌≤◌, ◌<◌, ◌≡◌, refl, ◌≢◌, inl, inr, Option, none, some, List, [], ◌∷◌, ◌++◌,
  arith, length, get_elem?, set, length-set, length-append, get_elem?-set, get_elem?-lt,
  get_elem?-append-left, ◌∙◌, All, leb, lt→ltb, ◌||◌, Bool-cases, Option-cases, join_option-some,
  get_elem?-set_self,
}
use wasmux.Slab.{Key, key_max, Slab, new, reuse, push_slot, insert, get, put, remove, len}

abbrev pub Distinct : List Key → Type 0
Distinct [] = Unit
Distinct (k ∷ ks) = All (λ j. j ≢ k) ks × Distinct ks

module _ {ℓ} {A : Type ℓ} where
  abbrev pub weight : Option A → ℕ
  weight none = 0
  weight (some a) = 1

  -- How many slots are live.
  abbrev pub live : List (Option A) → ℕ
  live [] = 0
  live (o ∷ slots) = weight o + live slots

  abbrev pub Dead : List (Option A) → Key → Type ℓ
  Dead slots k = get_elem? slots k ≡ some none

  pub record IsValid (s : Slab A) : Type ℓ where
    pub dead : All (Dead s.slots) s.free
    pub distinct : Distinct s.free
    pub counted : live s.slots + length s.free ≡ length s.slots
    pub bounded : length s.slots ≤ key_max

  pub live-set :
      (slots : List (Option A)) (k : Key) (old o : Option A)
      → get_elem? slots k ≡ some old
      → live (set slots k o) + weight old ≡ live slots + weight o
  live-set [] k old o e = cc
  live-set (x ∷ slots) zero old o e = ground arith
  live-set (x ∷ slots) (suc k) old o e = omega (arith, live-set slots k old o e)

  pub live-append : (xs ys : List (Option A)) → live (xs ++ ys) ≡ live xs + live ys
  live-append [] ys = omega arith
  live-append (x ∷ xs) ys = omega (arith, live-append xs ys)

  -- Writing one slot leaves the other dead slots dead.
  Dead-set :
      (slots : List (Option A)) (k : Key) (o : Option A) (ks : List Key)
      → k < length slots
      → All (λ j. j ≢ k) ks
      → All (Dead slots) ks
      → All (Dead (set slots k o)) ks
  Dead-set slots k o [] h ne d = d
  Dead-set slots k o (j ∷ ks) h ne d =
      (ground (arith, get_elem?-set slots k j o h), Dead-set slots k o ks h ne.1 d.1)

  Dead-append :
      (slots : List (Option A)) (o : Option A) (ks : List Key)
      → All (Dead slots) ks
      → All (Dead (slots ++ (o ∷ []))) ks
  Dead-append slots o [] d = d
  Dead-append slots o (j ∷ ks) d = (
    get_elem?-append-left slots (o ∷ []) j (get_elem?-lt slots j d.0) ∙ d.0,
    Dead-append slots o ks d.1,
  )

  -- A live slot is not on the free stack.
  Dead-ne :
      (slots : List (Option A)) (k : Key) {a : A} (ks : List Key)
      → get_elem? slots k ≡ some (some a)
      → All (Dead slots) ks
      → All (λ j. j ≢ k) ks
  Dead-ne slots k [] e d = tt
  Dead-ne slots k (j ∷ ks) e d = (λ p. cc (d.0), Dead-ne slots k ks e d.1)

  -- A fresh slab is valid.
  pub new-IsValid : IsValid (new {A = A})
  unfolding new
  new-IsValid = record { dead = tt; distinct = tt; counted = refl; bounded = omega arith }

  -- The top of the free stack is filled.
  fill-IsValid :
      (slots : List (Option A)) (a : A) (k : Key) (rest : List Key)
      → IsValid (record { slots = slots; free = k ∷ rest })
      → IsValid (record { slots = set slots k (some a); free = rest })
  fill-IsValid slots a k rest v =
      let within : k < length slots = get_elem?-lt slots k v.dead.0 in
      record {
        dead = Dead-set slots k (some a) rest within v.distinct.0 v.dead.1;
        distinct = v.distinct.1;
        counted =
            let h : live (set slots k (some a)) + 0 ≡ live slots + 1 =
              live-set slots k none (some a) v.dead.0 in
            omega (arith, h, v.counted, length-set slots k (some a));
        bounded = omega (arith, v.bounded, length-set slots k (some a));
      }

  reuse-IsValid :
      (s : Slab A) (a : A) (k : Key) (rest : List Key)
      → IsValid (record { slots = s.slots; free = k ∷ rest })
      → IsValid (reuse s a k rest).0
  unfolding reuse
  reuse-IsValid s a k rest v =
      rw (lt→ltb k (length s.slots) (get_elem?-lt s.slots k v.dead.0))
        (fill-IsValid s.slots a k rest v)

  grow-IsValid :
      (slots : List (Option A)) (a : A) (free : List Key)
      → length slots < key_max
      → IsValid (record { slots = slots; free = free })
      → IsValid (record { slots = slots ++ (some a ∷ []); free = free })
  grow-IsValid slots a free h v = record {
    dead = Dead-append slots (some a) free v.dead;
    distinct = v.distinct;
    counted =
        omega
          (arith, v.counted, live-append slots (some a ∷ []), length-append slots (some a ∷ []));
    bounded = omega (arith, h, length-append slots (some a ∷ []));
  }

  push_slot-IsValid : (s : Slab A) (a : A) (cap : ℕ) → IsValid s → IsValid (push_slot s a cap).0
  unfolding push_slot
  push_slot-IsValid s a cap v =
      elim (Bool-cases (leb cap (length s.slots) || leb key_max (length s.slots))) [
        | inl full ↦ rw full v
        | inr room ↦ rw room (grow-IsValid s.slots a s.free (ground arith) v)
      ]

  -- `insert` keeps a slab valid, whether it reuses a freed key, grows the vector or refuses: the free
  -- stack holds every dead slot, each once, and nothing else, and the slots have keys of 32 bits.
  pub insert-IsValid : (s : Slab A) (a : A) (cap : ℕ) → IsValid s → IsValid (insert s a cap).0
  unfolding insert
  insert-IsValid s a cap v = by_free s.free refl
    where
      by_free : (free : List Key) → s.free ≡ free → IsValid (insert s a cap).0
      by_free [] e = rw (e, insert) (push_slot-IsValid s a cap v)
      by_free (k ∷ rest) e = rw (e, insert) (reuse-IsValid s a k rest (rw e at v))

  free-IsValid :
      (s : Slab A) (k : Key) (a : A)
      → get_elem? s.slots k ≡ some (some a)
      → IsValid s
      → IsValid (record { slots = set s.slots k none; free = k ∷ s.free })
  free-IsValid s k a e v =
      let within : k < length s.slots = get_elem?-lt s.slots k e in
      let others : All (λ j. j ≢ k) s.free = Dead-ne s.slots k s.free e v.dead in
      record {
        dead = (
          get_elem?-set_self s.slots k none within,
          Dead-set s.slots k none s.free within others v.dead,
        );
        distinct = (others, v.distinct);
        counted =
            let h : live (set s.slots k none) + 1 ≡ live s.slots + 0 =
              live-set s.slots k (some a) none e in
            omega (arith, h, v.counted, length-set s.slots k none);
        bounded = omega (arith, v.bounded, length-set s.slots k none);
      }

  -- `remove` keeps a slab valid, whatever the key: the free stack still holds every dead slot, once.
  pub remove-IsValid : (s : Slab A) (k : Key) → IsValid s → IsValid (remove s k).0
  unfolding remove get
  remove-IsValid s k v = elim (Option-cases (get s k)) [
    | inl e ↦ rw (e, remove) v
    | inr (a, e) ↦ rw (e, remove) (free-IsValid s k a (join_option-some _ e) v)
  ]

  overwrite-IsValid :
      (s : Slab A) (k : Key) (b a : A)
      → get_elem? s.slots k ≡ some (some b)
      → IsValid s
      → IsValid (record s { slots = set s.slots k (some a) })
  overwrite-IsValid s k b a e v =
      let within : k < length s.slots = get_elem?-lt s.slots k e in
      record {
        dead = Dead-set s.slots k (some a) s.free within (Dead-ne s.slots k s.free e v.dead) v.dead;
        distinct = v.distinct;
        counted =
            let h : live (set s.slots k (some a)) + 1 ≡ live s.slots + 1 =
              live-set s.slots k (some b) (some a) e in
            omega (arith, h, v.counted, length-set s.slots k (some a));
        bounded = omega (arith, v.bounded, length-set s.slots k (some a));
      }

  -- A write through `get_mut` keeps a slab valid, whether or not the key is live.
  pub put-IsValid : (s : Slab A) (k : Key) (a : A) → IsValid s → IsValid (put s k a)
  unfolding put get
  put-IsValid s k a v = elim (Option-cases (get s k)) [
    | inl e ↦ rw (e, put) v
    | inr (b, e) ↦ rw (e, put) (overwrite-IsValid s k b a (join_option-some _ e) v)
  ]

  -- In a valid slab `len`, which is computed from two lengths, is the number of live entries.
  pub len-live : (s : Slab A) → IsValid s → len s ≡ live s.slots
  unfolding len
  len-live s v = omega (arith, v.counted)
