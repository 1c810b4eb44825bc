-- ===== src/Fd/Tests.antt =====
-- The descriptor table of kernel/fd.rs: descriptors 0 and 2 are open.
use wasmux.Prelude.{◌≡◌, refl, ok, pos, none, some, [], ◌∷◌, false}
use wasmux.Fd.{Fd, FdTable, alloc}
use wasmux.Fd.Alloc.{Allocates, alloc_lem}

abbrev entry : Fd
entry = record { desc = 4; cloexec = false }

abbrev gap : FdTable
gap = record { slots = some entry ∷ none ∷ some entry ∷ [] }

-- The lowest free number is taken.
alloc-run : (alloc gap entry 0 8).1 ≡ ok (pos 1)
unfolding alloc
alloc-run = refl

alloc_lem_example : Allocates gap.slots entry 2 3 (alloc gap entry 2 3)
alloc_lem_example = alloc_lem gap entry 2 3
