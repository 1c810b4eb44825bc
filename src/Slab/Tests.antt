-- ===== src/Slab/Tests.antt =====
-- The slab of slab.rs at work: three slots, of which the middle one is free.
use wasmux.Prelude.{ℕ, ◌≡◌, refl, none, some, [], ◌∷◌, arith}
use wasmux.Slab.{Slab, insert}
use wasmux.Slab.Valid.{IsValid, insert-IsValid}

abbrev holed : Slab ℕ
holed = record { slots = some 5 ∷ none ∷ some 7 ∷ []; free = 1 ∷ [] }

holed-IsValid : IsValid holed
holed-IsValid = record {
  dead = (refl, tt);
  distinct = (tt, tt);
  counted = refl;
  bounded = omega arith;
}

-- The freed key comes first, then the vector grows up to the cap.
insert-run :
    ((insert holed 9 4).1 ≡ some 1)
    × (((insert (insert holed 9 4).0 8 4).1 ≡ some 3)
        × ((insert (insert (insert holed 9 4).0 8 4).0 6 4).1 ≡ none))
unfolding insert
insert-run = (refl, (refl, refl))

insert-IsValid_example : IsValid (insert holed 9 4).0
insert-IsValid_example = insert-IsValid holed 9 4 holed-IsValid
