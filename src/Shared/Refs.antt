-- ===== src/Shared/Refs.antt =====
-- Reference counts of descriptions (kernel/mod.rs `release_desc`, kernel/fd.rs): a description's
-- count is the number of descriptors that point at it, over the tables of all processes, and of
-- the references that a handler holds while it runs.
use wasmux.Prelude.{
  ℕ, ◌+◌, ◌-◌, ◌<◌, ◌^◌, ◌≡◌, refl, ap, ◌∙◌, inl, inr, Option, none, some, List, [], ◌∷◌, ◌++◌,
  true, arith, ◌==◌, if◌then◌else◌, is_some, Bool-cases, Option-cases,
}
use wasmux.Slab
use wasmux.Slab.{Key, Slab}
use wasmux.Slab.Refine.{put_refines, remove_refines}
use wasmux.Desc.{Desc, DescKind}
use wasmux.Fd.{Fd, FdTable, bump, retain}
use wasmux.Shared.{
  Shared, collect_pipe, drop_reader, drop_writer, close_kind, drop_desc, release_desc, release_keys,
}

-- How many descriptors of a table point at a key.
abbrev pub occurs : Key → List (Option Fd) → ℕ
occurs key [] = 0
occurs key (none ∷ slots) = occurs key slots
occurs key (some e ∷ slots) = (if key == e.desc then 1 else 0) + occurs key slots

abbrev pub total : Key → List FdTable → ℕ
total key [] = 0
total key (t ∷ ts) = occurs key t.slots + total key ts

abbrev pub times : Key → List Key → ℕ
times key [] = 0
times key (k ∷ ks) = (if key == k then 1 else 0) + times key ks

abbrev pub refs_of : {F : Type 0} → Option (Desc F) → ℕ
refs_of none = 0
refs_of (some d) = d.refs

module _ {F : Type 0} where
  abbrev pub refs_at : Slab (Desc F) → Key → ℕ
  refs_at descs key = refs_of (Slab.get descs key)

  -- The tables of the processes and the references in hand account for every count, and a
  -- description that nothing points at is gone.
  pub record IsBalanced (tables : List FdTable) (held : List Key) (descs : Slab (Desc F))
      : Type 0 where
    pub counted : (key : Key) → refs_at descs key ≡ total key tables + times key held
    pub alive : (key : Key) → is_some (Slab.get descs key) ≡ true → 0 < refs_at descs key

  descs-drop_reader : (sh : Shared F) (key : Key) → (drop_reader sh key).descs ≡ sh.descs
  unfolding drop_reader
  descs-drop_reader sh key = ground arith

  descs-drop_writer : (sh : Shared F) (key : Key) → (drop_writer sh key).descs ≡ sh.descs
  unfolding drop_writer
  descs-drop_writer sh key = ground arith

  descs-collect_pipe : (sh : Shared F) (key : Key) → (collect_pipe sh key).descs ≡ sh.descs
  unfolding collect_pipe
  descs-collect_pipe sh key = ground arith

  descs-close_kind : (sh : Shared F) (kind : DescKind F) → (close_kind sh kind).descs ≡ sh.descs
  unfolding close_kind
  descs-close_kind sh (DescKind.file f mount done) = ground arith
  descs-close_kind sh (DescKind.pipe_read key) =
      descs-collect_pipe (drop_reader sh key) key ∙ descs-drop_reader sh key
  descs-close_kind sh (DescKind.pipe_write key) =
      descs-collect_pipe (drop_writer sh key) key ∙ descs-drop_writer sh key
  descs-close_kind sh _ = refl

  descs-drop_desc :
      (sh : Shared F) (key : Key) → (drop_desc sh key).descs ≡ (Slab.remove sh.descs key).0
  unfolding drop_desc
  descs-drop_desc sh key = elim (Option-cases (Slab.remove sh.descs key).1) [
    | inl e ↦ rw (e, drop_desc)
    | inr (d, e) ↦ rw (e, drop_desc) (descs-close_kind _ d.kind)
  ]

  -- What is left of a description when one reference to it goes.
  abbrev pub fewer : Option (Desc F) → Option (Desc F)
  fewer none = none
  fewer (some d) = if d.refs - 1 == 0 then none else some (record d { refs = d.refs - 1 })

  get-lowered :
      (descs : Slab (Desc F)) (key j : Key) (d d' : Desc F)
      → Slab.get descs key ≡ some d
      → Slab.get (Slab.put descs key d') j ≡ (if j == key then some d' else Slab.get descs j)
  get-lowered descs key j d d' e = ground (arith, put_refines descs key j d')

  get-removed :
      (descs : Slab (Desc F)) (key j : Key) (d d' : Desc F)
      → Slab.get descs key ≡ some d
      → Slab.get (Slab.remove (Slab.put descs key d') key).0 j
        ≡ (if j == key then none else Slab.get descs j)
  get-removed descs key j d d' e =
      let h = (remove_refines (Slab.put descs key d') key).1 j in
      ground (arith, h, put_refines descs key j d')

  -- Releasing a reference lowers the count of that description alone, and takes the description away
  -- when the count reaches zero; every other one stays as it was.
  release_desc_lem :
      (sh : Shared F) (key j : Key)
      → Slab.get (release_desc sh key).descs j
        ≡ (if j == key then fewer (Slab.get sh.descs key) else Slab.get sh.descs j)
  unfolding release_desc
  release_desc_lem sh key j = elim (Option-cases (Slab.get sh.descs key)) [
    | inl e ↦ rw (e, release_desc) (ground arith)
    | inr (d, e) ↦ elim (Bool-cases (d.refs - 1 == 0)) [
      | inl last ↦
          rw (e, release_desc, last)
            (ap (λ (ds : Slab (Desc F)). Slab.get ds j) (descs-drop_desc _ key)
              ∙ get-removed sh.descs key j d (record d { refs = d.refs - 1 }) e)
      | inr more ↦
          rw (e, release_desc, more)
            (get-lowered sh.descs key j d (record d { refs = d.refs - 1 }) e)
    ]
  ]

  refs_at-release :
      (sh : Shared F) (key j : Key)
      → refs_at (release_desc sh key).descs j ≡ refs_at sh.descs j - (if j == key then 1 else 0)
  refs_at-release sh key j = ground (arith, release_desc_lem sh key j)

  -- A reference in hand is given up.
  pub release_desc-IsBalanced :
      (tables : List FdTable) (held : List Key) (sh : Shared F) (key : Key)
      → IsBalanced tables (key ∷ held) sh.descs
      → IsBalanced tables held (release_desc sh key).descs
  release_desc-IsBalanced tables held sh key b = record {
    counted = λ j. ground (arith, b.counted j, refs_at-release sh key j);
    alive = λ j h. ground (arith, b.alive j, release_desc_lem sh key j);
  }

  pub release_keys-IsBalanced :
      (tables : List FdTable) (keys held : List Key) (sh : Shared F)
      → IsBalanced tables (keys ++ held) sh.descs
      → IsBalanced tables held (release_keys sh keys).descs
  unfolding release_keys
  release_keys-IsBalanced tables [] held sh b = b
  release_keys-IsBalanced tables (key ∷ keys) held sh b =
      release_keys-IsBalanced tables keys held (release_desc sh key)
        (release_desc-IsBalanced tables (keys ++ held) sh key b)

  -- What taking one more reference does to a description.
  abbrev pub more : Option (Desc F) → Option (Desc F)
  more none = none
  more (some d) = some (record d { refs = bump d.refs })

  pub retain_lem :
      (descs : Slab (Desc F)) (key j : Key)
      → Slab.get (retain descs key) j
        ≡ (if j == key then more (Slab.get descs key) else Slab.get descs j)
  unfolding retain
  retain_lem descs key j = elim (Option-cases (Slab.get descs key)) [
    | inl e ↦ rw (e, retain) (ground arith)
    | inr (d, e) ↦ rw (e, retain) (get-lowered descs key j d _ e)
  ]

  -- One more reference is taken to a live description.
  pub retain-IsBalanced :
      (tables : List FdTable) (held : List Key) (descs : Slab (Desc F)) (key : Key)
      → is_some (Slab.get descs key) ≡ true
      → refs_at descs key < 2 ^ 32 - 1
      → IsBalanced tables held descs
      → IsBalanced tables (key ∷ held) (retain descs key)
  retain-IsBalanced tables held descs key live room b = record {
    counted = λ j. ground (arith, b.counted j, retain_lem descs key j);
    alive = λ j h. ground (arith, b.alive j, retain_lem descs key j);
  }
