-- ===== src/Resolve.antt =====
-- crates/wasmux/src/kernel/path.rs: how a guest path is resolved to a node, link by link.
mod Tests
pub mod Safety
use wasmux.Prelude.{
  ℕ, suc, ◌+◌, ◌-◌, ◌*◌, ◌/◌, ◌%◌, ◌≤◌, ◌<◌, ◌^◌, Bool, true, false, ◌&&◌, ◌||◌, not, Option, none,
  some, List, [], ◌∷◌, ◌++◌, ltb, leb, ◌==◌, if◌then◌else◌, length, get_elem?, is_some, ℤ, pos,
  negsuc, Result, ok, err, ◌>>=◌, codes,
}
use wasmux.Errno.{Errno, VfsResult, is, again, nametoolong, noent, loop}
use wasmux.Desc.{Bytes}
use wasmux.Path.{slash, same, is_absolute, is_empty, normalize, join}
use wasmux.Vfs.{Vfs, Stat, FileType}
use wasmux.Mounts.{Mount, strip_prefix, find, children_of, root}
use wasmux.Mem.{max_str}
use wasmux.Decimal.{to_string, parse_i32}
use wasmux.Nodes.{
  Device, null, random, tty, fd, Node, program, device, synth, mounted, virtual_dir, virtual_link,
  Overlay, Who, lookup, contains, is_dir, proc_files, device_of, strip_or, proc_rest, proc_known,
  proc_node, virtual_link_of,
}

abbrev pub max_hops : ℕ
max_hops = 40

-- What a round of the loop of `resolve` does next.
pub data Next : Type 0 where
  stop : VfsResult Node → Next
  advance : Next
  splice : Bytes → Next

-- Whether a component is not the last.
abbrev pub more : List Bytes → Bool
more [] = false
more (c ∷ rest) = true

module _ (overlay : Overlay) (mounts : List Mount) (who : Who) where
  -- The link that a mounted path is, if its filesystem says so.
  mounted_link : Vfs → Bytes → VfsResult (Option Bytes)
  mounted_link vfs rel = if not vfs.has_symlinks then ok none else elim (vfs.stat rel false) [
    | err e ↦ if is e again then err again else ok none
    | ok st ↦ elim (st.file_type) [
      | FileType.symlink ↦ elim (vfs.readlink rel) [
        | ok target ↦ ok (some target)
        | err e ↦ if is e again then err again else ok none
      ]
      | _ ↦ ok none
    ]
  ]

  unfoldable pub symlink_target : Bytes → VfsResult (Option Bytes)
  unfolding mounted_link virtual_link_of lookup device_of find
  symlink_target guest = elim (virtual_link_of who guest) [
    | some target ↦ ok (some target)
    | none ↦
        if is_some (lookup guest overlay.programs) || is_some (device_of guest)
        then ok none
        else elim (find mounts guest) [
          | none ↦ ok none
          | some (index, rel) ↦ elim (get_elem? mounts index) [
            | none ↦ ok none
            | some m ↦ mounted_link m.vfs rel
          ]
        ]
  ]

  -- Whether the mount has a directory at a path where the kernel invents one.
  exists_in : ℕ → Bytes → VfsResult Bool
  exists_in index rel = elim (get_elem? mounts index) [
    | none ↦ ok false
    | some m ↦ elim (m.vfs.stat rel true) [
      | ok st ↦ elim (st.file_type) [ FileType.dir ↦ ok true | _ ↦ ok false ]
      | err e ↦ if is e again then err again else ok false
    ]
  ]

  unfoldable pub is_mount_parent : Bytes → Bool
  unfolding children_of
  is_mount_parent guest = elim (children_of mounts guest) [ [] ↦ false | name ∷ rest ↦ true ]

  classify_mounted : ℕ → Bytes → Bytes → VfsResult Node
  unfolding exists_in is_dir
  classify_mounted index rel guest =
      if not (same guest root) && is_dir overlay guest
      then elim (exists_in index rel) [
        | err e ↦ err e
        | ok true ↦ ok (mounted index rel guest)
        | ok false ↦ ok (virtual_dir guest)
      ]
      else ok (mounted index rel guest)

  unfoldable pub classify_final : Bytes → VfsResult Node
  unfolding classify_mounted lookup device_of proc_node find is_mount_parent
  classify_final guest = elim (lookup guest overlay.programs) [
    | some id ↦ ok (program id guest)
    | none ↦ elim (device_of guest) [
      | some d ↦ ok (device d)
      | none ↦ elim (proc_node who guest) [
        | some node ↦ ok node
        | none ↦ elim (find mounts guest) [
          | some (index, rel) ↦ classify_mounted index rel guest
          | none ↦
              if is_dir overlay guest || is_mount_parent guest
              then ok (virtual_dir guest)
              else err noent
        ]
      ]
    ]
  ]

  -- The components after a link in `before` is replaced by its target.
  unfoldable pub spliced : List Bytes → Bytes → List Bytes → List Bytes
  unfolding normalize join is_absolute
  spliced before target rest =
      (if is_absolute target then normalize root target else normalize (join before) target) ++ rest

  -- What one component of the walk calls for: an intermediate one is always followed, the last
  -- one only on request.
  unfoldable pub look : Bool → Bytes → Next
  unfolding symlink_target virtual_link_of
  look follow here =
      if follow
      then elim (symlink_target here) [
        | err e ↦ stop (err e)
        | ok none ↦ advance
        | ok (some target) ↦ splice target
      ]
      else elim (virtual_link_of who here) [
        | some target ↦ stop (ok (virtual_link target))
        | none ↦ advance
      ]

  -- The loop of `resolve` with `hops` links left to follow: `before` are the components up to the
  -- index, and the other list those from the index on. It ends, since each round takes a component
  -- away or uses up a hop.
  unfoldable pub walk : Bool → ℕ → List Bytes → List Bytes → VfsResult Node
  unfolding classify_final spliced look
  walk follow_last hops before [] = classify_final (join before)
  walk follow_last ℕ.zero before (c ∷ rest) =
      elim (look (more rest || follow_last) (join (before ++ (c ∷ [])))) [
        | stop r ↦ r
        | advance ↦ walk follow_last ℕ.zero (before ++ (c ∷ [])) rest
        | splice target ↦ err loop
      ]
  walk follow_last (suc hops) before (c ∷ rest) =
      elim (look (more rest || follow_last) (join (before ++ (c ∷ [])))) [
        | stop r ↦ r
        | advance ↦ walk follow_last (suc hops) (before ++ (c ∷ [])) rest
        | splice target ↦ walk follow_last hops [] (spliced before target rest)
      ]

  unfoldable pub resolve : Bytes → Bytes → Bool → VfsResult Node
  unfolding walk normalize
  resolve base path follow_last =
      if ltb max_str (length path)
      then err nametoolong
      else walk follow_last max_hops [] (normalize base path)
