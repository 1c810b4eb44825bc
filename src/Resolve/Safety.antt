-- ===== src/Resolve/Safety.antt =====
-- `Resolver::resolve` of kernel/path.rs: what a mount is asked for, whatever the guest's path and
-- the links that it meets.
use wasmux.Prelude.{
  ℕ, zero, suc, ◌≡◌, refl, ap, sym, ◌∙◌, ◌⊎◌, inl, inr, Bool, true, false, ◌&&◌, ◌||◌, not, none,
  some, List, [], ◌∷◌, ◌++◌, arith, if◌then◌else◌, All, Bool-cases, Option-cases, codes, ok, err,
  Result-cases, ltb, length,
}
use wasmux.Desc.{Bytes}
use wasmux.Errno.{Errno, VfsResult, loop, nametoolong}
use wasmux.Mem.{max_str}
use wasmux.Path.{same, is_absolute, normalize, join}
use wasmux.Path.Normal.{IsName, All-append, normalize-IsName}
use wasmux.Mounts.{Mount, find, root, strip_prefix}
use wasmux.Mounts.Find.{IsClean, find_lem, below-IsClean}
use wasmux.Decimal.{parse_i32}
use wasmux.Nodes.{
  Node, mounted, virtual_link, Overlay, Who, lookup, device_of, proc_node, proc_known, proc_rest,
  is_dir, virtual_link_of,
}
use wasmux.Resolve.{
  Next, stop, advance, splice, more, exists_in, classify_mounted, classify_final, spliced,
  symlink_target, look, walk, resolve, max_hops,
}

-- No name under /proc is a path of a mount.
not_proc_known :
    (guest rest : Bytes) {i : ℕ} {r g : Bytes} → proc_known guest rest ≡ some (mounted i r g) → ⊥
unfolding proc_known
not_proc_known guest rest e = ground (arith)

not_proc_node :
    (w : Who) (guest : Bytes) {i : ℕ} {r g : Bytes} → proc_node w guest ≡ some (mounted i r g) → ⊥
unfolding proc_node
not_proc_node w guest e = elim (Option-cases (strip_prefix (codes "/proc/") guest)) [
  | inl s ↦ ground arith
  | inr (stripped, s) ↦ elim (Bool-cases (same (proc_rest w stripped) (codes "fd"))) [
    | inl t ↦ ground arith
    | inr t ↦ elim (Option-cases (strip_prefix (codes "fd/") (proc_rest w stripped))) [
      | inl u ↦ not_proc_known guest (proc_rest w stripped) (rw (s, t, u, proc_node) at e)
      | inr (number, u) ↦ elim (Option-cases (parse_i32 number)) [
        | inl v ↦ absurd (ground arith)
        | inr (n, v) ↦ absurd (ground arith)
      ]
    ]
  ]
]

Next-cases :
    (n : Next)
    → ((r : VfsResult Node) × (n ≡ stop r)) ⊎ ((n ≡ advance) ⊎ ((t : Bytes) × (n ≡ splice t)))
Next-cases (stop r) = inl (r, refl)
Next-cases advance = inr (inl refl)
Next-cases (splice t) = inr (inr (t, refl))

module _ {i : ℕ} {r g : Bytes} where
  no_stop : {e : Errno} → stop (err e) ≡ stop (ok (mounted i r g)) → ⊥
  no_stop h = cc

  no_advance : advance ≡ stop (ok (mounted i r g)) → ⊥
  no_advance h = cc

  no_splice : {t : Bytes} → splice t ≡ stop (ok (mounted i r g)) → ⊥
  no_splice h = cc

  no_link : {t : Bytes} → stop (ok (virtual_link t)) ≡ stop (ok (mounted i r g)) → ⊥
  no_link h = cc

module _ (overlay : Overlay) (mounts : List Mount) (who : Who) where
  -- What it means that a node is a path of a mount.
  pub record Owned (index : ℕ) (rel guest : Bytes) : Type 0 where
    pub rel-IsClean : IsClean rel
    pub guest-IsClean : IsClean guest
    pub owner : find mounts guest ≡ some (index, rel)

  IsClean-Owned :
      {index : ℕ} {rel guest : Bytes}
      → IsClean guest
      → find mounts guest ≡ some (index, rel)
      → Owned index rel guest
  IsClean-Owned {index} {rel} {guest} c e =
      let f = find_lem mounts guest e in
      record {
        rel-IsClean = below-IsClean f.mount.point guest rel c f.owns;
        guest-IsClean = c;
        owner = e;
      }

  classify_mounted_lem :
      (i : ℕ) (r guest : Bytes) {index : ℕ} {rel g : Bytes}
      → classify_mounted overlay mounts who i r guest ≡ ok (mounted index rel g)
      → (i ≡ index) × ((r ≡ rel) × (guest ≡ g))
  unfolding classify_mounted
  classify_mounted_lem i r guest e =
      elim (Bool-cases (not (same guest root) && is_dir overlay guest)) [
        | inl a ↦ elim (Result-cases (exists_in overlay mounts who i r)) [
          | inr (true, b) ↦ ground arith
          | inr (false, b) ↦ absurd (ground arith)
          | inl (x, b) ↦ absurd (ground arith)
        ]
        | inr a ↦ ground arith
      ]

  classify_final_lem :
      (guest : Bytes) {index : ℕ} {rel g : Bytes}
      → classify_final overlay mounts who guest ≡ ok (mounted index rel g)
      → (find mounts guest ≡ some (index, rel)) × (guest ≡ g)
  unfolding classify_final
  classify_final_lem guest {index} {rel} {g} e =
      elim (Option-cases (lookup guest overlay.programs)) [
        | inr (id, a) ↦ absurd (ground arith)
        | inl a ↦ elim (Option-cases (device_of guest)) [
          | inr (d, b) ↦ absurd (ground arith)
          | inl b ↦ elim (Option-cases (proc_node who guest)) [
            | inr (node, c) ↦
                let r : ok node ≡ ok (mounted index rel g) = rw (a, b, c, classify_final) at e in
                absurd (not_proc_node who guest {i = index} {r = rel} {g = g} (c ∙ cc))
            | inl c ↦ elim (Option-cases (find mounts guest)) [
              | inl d ↦ absurd (ground arith)
              | inr ((i, r), d) ↦
                  let m : classify_mounted overlay mounts who i r guest ≡ ok (mounted index rel g) =
                    rw (a, b, c, d, classify_final) at e in
                  let (x, (y, z)) = classify_mounted_lem i r guest m in (d ∙ cc, z)
            ]
          ]
        ]
      ]

  spliced-IsName :
      (before rest : List Bytes) (target : Bytes)
      → All IsName rest
      → All IsName (spliced overlay mounts who before target rest)
  unfolding spliced
  spliced-IsName before rest target n = All-append IsName _ rest (start (is_absolute target)) n
    where
      start :
          (b : Bool)
          → All IsName (if b then normalize root target else normalize (join before) target)
      start true = normalize-IsName root target
      start false = normalize-IsName (join before) target

  classify_final-Owned :
      (before : List Bytes) {index : ℕ} {rel g : Bytes}
      → All IsName before
      → classify_final overlay mounts who (join before) ≡ ok (mounted index rel g)
      → Owned index rel g
  classify_final-Owned before n e =
      let (f, s) = classify_final_lem (join before) e in
      IsClean-Owned (before, n, sym s) (rw s at f)

  -- `look` stops with an error or with a link, never with a path of a mount.
  look_stop :
      (follow : Bool) (here : Bytes) {index : ℕ} {rel g : Bytes}
      → look overlay mounts who follow here ≡ stop (ok (mounted index rel g))
      → ⊥
  unfolding look
  look_stop true here e = elim (Result-cases (symlink_target overlay mounts who here)) [
    | inl (x, a) ↦ absurd (no_stop (rw (a, look) at e))
    | inr (none, a) ↦ absurd (no_advance (rw (a, look) at e))
    | inr (some target, a) ↦ absurd (no_splice (rw (a, look) at e))
  ]
  look_stop false here e = elim (Option-cases (virtual_link_of who here)) [
    | inl a ↦ absurd (no_advance (rw (a, look) at e))
    | inr (target, a) ↦ absurd (no_link (rw (a, look) at e))
  ]

  walk-Owned :
      (follow : Bool) (hops : ℕ) (before todo : List Bytes) {index : ℕ} {rel g : Bytes}
      → All IsName before
      → All IsName todo
      → walk overlay mounts who follow hops before todo ≡ ok (mounted index rel g)
      → Owned index rel g
  unfolding walk
  walk-Owned follow zero before [] n m e = classify_final-Owned before n e
  walk-Owned follow (suc hops) before [] n m e = classify_final-Owned before n e
  walk-Owned follow zero before (c ∷ rest) {index} {rel} {g} n m e =
      elim (Next-cases
        (look overlay mounts who (more rest || follow) (join (before ++ (c ∷ []))))) [
          | inl (r, a) ↦
              let t : r ≡ ok (mounted index rel g) = rw (a, walk) at e in
              absurd (look_stop (more rest || follow) (join (before ++ (c ∷ []))) (a ∙ ap stop t))
          | inr (inl a) ↦
              walk-Owned follow zero (before ++ (c ∷ [])) rest
                (All-append IsName before (c ∷ []) n (m.0, tt)) m.1 (rw (a, walk) at e)
          | inr (inr (target, a)) ↦
              let t : err loop ≡ ok (mounted index rel g) = rw (a, walk) at e in absurd (cc)
        ]
  walk-Owned follow (suc hops) before (c ∷ rest) {index} {rel} {g} n m e =
      elim (Next-cases
        (look overlay mounts who (more rest || follow) (join (before ++ (c ∷ []))))) [
          | inl (r, a) ↦
              let t : r ≡ ok (mounted index rel g) = rw (a, walk) at e in
              absurd (look_stop (more rest || follow) (join (before ++ (c ∷ []))) (a ∙ ap stop t))
          | inr (inl a) ↦
              walk-Owned follow (suc hops) (before ++ (c ∷ [])) rest
                (All-append IsName before (c ∷ []) n (m.0, tt)) m.1 (rw (a, walk) at e)
          | inr (inr (target, a)) ↦
              walk-Owned follow hops [] (spliced overlay mounts who before target rest) tt
                (spliced-IsName before rest target m.1) (rw (a, walk) at e)
        ]

  -- A path that resolves to a file of a mount is clean, and so is the path below the mount point
  -- that the mount is asked for; the mount is the one that `find` names. It holds for every path
  -- and for every link that a filesystem hands out, so that no `..` reaches a filesystem.
  pub resolve-Owned :
      (base path : Bytes) (follow_last : Bool) {index : ℕ} {rel g : Bytes}
      → resolve overlay mounts who base path follow_last ≡ ok (mounted index rel g)
      → Owned index rel g
  unfolding resolve
  resolve-Owned base path follow_last {index} {rel} {g} e =
      elim (Bool-cases (ltb max_str (length path))) [
        | inl a ↦
            let t : err nametoolong ≡ ok (mounted index rel g) = rw (a, resolve) at e in absurd (cc)
        | inr a ↦
            walk-Owned follow_last max_hops [] (normalize base path) tt (normalize-IsName base path)
              (rw (a, resolve) at e)
      ]
