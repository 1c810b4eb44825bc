-- ===== src/Mem/Tests.antt =====
-- Guest memory of kernel/mem.rs: ten bytes.
use wasmux.Prelude.{◌≡◌, refl, inr, ok, [], ◌∷◌, arith, length}
use wasmux.Desc.{Bytes}
use wasmux.Mem.{slice, put}
use wasmux.Mem.Access.{slice-put}

abbrev bytes : Bytes
bytes = 1 ∷ 2 ∷ 3 ∷ 4 ∷ 5 ∷ 6 ∷ 7 ∷ 8 ∷ 9 ∷ 10 ∷ []

abbrev stored : Bytes
stored = 1 ∷ 2 ∷ 0x78 ∷ 0x56 ∷ 0x34 ∷ 0x12 ∷ 7 ∷ 8 ∷ 9 ∷ 10 ∷ []

abbrev patched : Bytes
patched = 1 ∷ 2 ∷ 3 ∷ 4 ∷ 20 ∷ 30 ∷ 7 ∷ 8 ∷ 9 ∷ 10 ∷ []

slice-put_example :
    (slice patched 4 2 ≡ ok (20 ∷ 30 ∷ []))
    × (length patched ≡ 10)
    × (slice patched 6 3 ≡ slice bytes 6 3)
unfolding put
slice-put_example = slice-put bytes 4 (20 ∷ 30 ∷ []) patched 6 3 refl (inr (omega arith))
