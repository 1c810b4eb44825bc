-- ===== src/Process/Tests.antt =====
-- The process table of kernel/mod.rs: a shell, its child and a grandchild.
use wasmux.Prelude.{◌≡◌, refl, pos, some, List, [], ◌∷◌, arith}
use wasmux.Shared.{ProcRecord}
use wasmux.Task.{is_alive, new_record}
use wasmux.Process.{find_record, exit_table}
use wasmux.Process.Table.{Below, Distinct, IsValid}
use wasmux.Process.Exit.{exit-IsZombie, IsZombie, HasSigchld}

abbrev shell : ProcRecord
shell = new_record (pos 1) (pos 0) (pos 1) (pos 1) []

abbrev child : ProcRecord
child = new_record (pos 2) (pos 1) (pos 1) (pos 1) []

abbrev grandchild : ProcRecord
grandchild = new_record (pos 3) (pos 2) (pos 1) (pos 1) []

abbrev family : List ProcRecord
family = shell ∷ child ∷ grandchild ∷ []

family-IsValid : IsValid family 4
unfolding Distinct Below new_record
family-IsValid = record {
  distinct = ((λ e. ground arith, (λ e. ground arith, tt)), ((λ e. ground arith, tt), (tt, tt)));
  below = (omega arith, (omega arith, (omega arith, tt)));
}

exit-IsZombie_example :
    (z : ProcRecord) × (q : ProcRecord) × (find_record (exit_table family (pos 2) (pos 256)) (pos 2)
      ≡ some z)
    × (find_record (exit_table family (pos 2) (pos 256)) (pos 1) ≡ some q)
    × IsZombie child (pos 256) z
    × HasSigchld shell q
unfolding find_record new_record is_alive
exit-IsZombie_example =
    exit-IsZombie family (pos 2) (pos 256) {r = child} {p = shell} refl (λ e. ground arith) refl
      refl
