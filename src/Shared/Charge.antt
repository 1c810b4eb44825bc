-- ===== src/Shared/Charge.antt =====
-- crates/wasmux/src/kernel/mod.rs: what `release_fds` and its kin leave alone.
use wasmux.Prelude.{
  ◌≡◌, refl, ◌∙◌, inl, inr, List, [], ◌∷◌, ◌==◌, ◌-◌, ◌&&◌, Bool-cases, Option-cases,
}
use wasmux.Slab
use wasmux.Slab.{Key}
use wasmux.Desc.{DescKind}
use wasmux.Fd
use wasmux.Fd.{FdTable}
use wasmux.Shared.{
  Shared, release_fds, release_keys, release_desc, drop_desc, close_kind, drop_reader, drop_writer,
  collect_pipe,
}

module _ {F : Type 0} where
  -- The charge and the limits are those of before.
  pub record SameCharge (a b : Shared F) : Type 0 where
    pub used : b.memory_used ≡ a.memory_used
    pub limit : b.limits.memory ≡ a.limits.memory

  pub same_trans : (a b c : Shared F) → SameCharge a b → SameCharge b c → SameCharge a c
  same_trans a b c x y = record { used = y.used ∙ x.used; limit = y.limit ∙ x.limit }

  pub same_charge : (a : Shared F) → SameCharge a a
  same_charge a = record { used = refl; limit = refl }

  collect_pipe-same : (sh : Shared F) (key : Key) → SameCharge sh (collect_pipe sh key)
  unfolding collect_pipe
  collect_pipe-same sh key = elim (Option-cases (Slab.get sh.pipes key)) [
    | inl e ↦ rw (collect_pipe, e) (same_charge sh)
    | inr (p, e) ↦ elim (Bool-cases (p.readers == 0 && p.writers == 0)) [
      | inl b ↦ rw (collect_pipe, e, b) (record { used = refl; limit = refl })
      | inr b ↦ rw (collect_pipe, e, b) (same_charge sh)
    ]
  ]

  drop_reader-same : (sh : Shared F) (key : Key) → SameCharge sh (drop_reader sh key)
  unfolding drop_reader
  drop_reader-same sh key = elim (Option-cases (Slab.get sh.pipes key)) [
    | inl e ↦ rw (drop_reader, e) (same_charge sh)
    | inr (p, e) ↦ rw (drop_reader, e) (record { used = refl; limit = refl })
  ]

  drop_writer-same : (sh : Shared F) (key : Key) → SameCharge sh (drop_writer sh key)
  unfolding drop_writer
  drop_writer-same sh key = elim (Option-cases (Slab.get sh.pipes key)) [
    | inl e ↦ rw (drop_writer, e) (same_charge sh)
    | inr (p, e) ↦ rw (drop_writer, e) (record { used = refl; limit = refl })
  ]

  close_kind-same : (sh : Shared F) (kind : DescKind F) → SameCharge sh (close_kind sh kind)
  unfolding close_kind
  close_kind-same sh (DescKind.file f mount done) = elim (Bool-cases done) [
    | inl e ↦ rw (close_kind, e) (same_charge sh)
    | inr e ↦ rw (close_kind, e) (record { used = refl; limit = refl })
  ]
  close_kind-same sh (DescKind.pipe_read key) =
      same_trans sh _ _ (drop_reader-same sh key) (collect_pipe-same (drop_reader sh key) key)
  close_kind-same sh (DescKind.pipe_write key) =
      same_trans sh _ _ (drop_writer-same sh key) (collect_pipe-same (drop_writer sh key) key)
  close_kind-same sh _ = same_charge sh

  drop_desc-same : (sh : Shared F) (key : Key) → SameCharge sh (drop_desc sh key)
  unfolding drop_desc
  drop_desc-same sh key = elim (Option-cases (Slab.remove sh.descs key).1) [
    | inl e ↦ rw (drop_desc, e) (record { used = refl; limit = refl })
    | inr (d, e) ↦
        let removed : Shared F = record sh { descs = (Slab.remove sh.descs key).0 } in
        let closed = close_kind-same removed d.kind in
        rw (drop_desc, e) (record { used = closed.used; limit = closed.limit })
  ]

  release_desc-same : (sh : Shared F) (key : Key) → SameCharge sh (release_desc sh key)
  unfolding release_desc
  release_desc-same sh key = elim (Option-cases (Slab.get sh.descs key)) [
    | inl e ↦ rw (release_desc, e) (same_charge sh)
    | inr (d, e) ↦
        let put : Shared F = record sh {
          descs = Slab.put sh.descs key (record d { refs = d.refs - 1 });
        } in
        let dropped = drop_desc-same put key in
        elim (Bool-cases (d.refs - 1 == 0)) [
          | inl b ↦ rw (release_desc, e, b) (record { used = dropped.used; limit = dropped.limit })
          | inr b ↦ rw (release_desc, e, b) (record { used = refl; limit = refl })
        ]
  ]

  release_keys-same : (sh : Shared F) (keys : List Key) → SameCharge sh (release_keys sh keys)
  unfolding release_keys
  release_keys-same sh [] = same_charge sh
  release_keys-same sh (key ∷ keys) =
      same_trans sh _ _ (release_desc-same sh key) (release_keys-same (release_desc sh key) keys)

  pub release_fds-same : (sh : Shared F) (t : FdTable) → SameCharge sh (release_fds sh t)
  unfolding release_fds
  release_fds-same sh t = release_keys-same sh (Fd.drain_all t).1
