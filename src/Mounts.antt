-- ===== src/Mounts.antt =====
-- crates/wasmux/src/kernel/path.rs: the mount table, ordered by the length of the mount points.
pub mod Find
use wasmux.Prelude.{
  ℕ, suc, ◌+◌, Bool, true, false, ◌&&◌, not, Option, none, some, List, [], ◌∷◌, ◌++◌, ltb, leb,
  ◌==◌, if◌then◌else◌, length, get_elem?,
}
use wasmux.Desc.{Bytes}
use wasmux.Path.{slash, same, is_empty, is_absolute}
use wasmux.Vfs.{Vfs}

pub record Mount : Type 0 where
  pub point : Bytes
  pub vfs : Vfs
  pub read_only : Bool

-- `str::strip_prefix`
unfoldable pub strip_prefix : Bytes → Bytes → Option Bytes
strip_prefix [] s = some s
strip_prefix (p ∷ ps) [] = none
strip_prefix (p ∷ ps) (c ∷ s) = if p == c then strip_prefix ps s else none

-- `sort_by_key(|mount| Reverse(mount.at.len()))`, a stable sort: longest mount point first.
unfoldable pub insert : Mount → List Mount → List Mount
insert m [] = m ∷ []
insert m (n ∷ rest) =
    if ltb (length m.point) (length n.point) then n ∷ insert m rest else m ∷ n ∷ rest

unfoldable pub new : List Mount → List Mount
unfolding insert
new [] = []
new (m ∷ rest) = insert m (new rest)

abbrev pub root : Bytes
root = slash ∷ []

-- The path below one mount point, if the mount owns `guest`.
unfoldable pub below : Bytes → Bytes → Option Bytes
unfolding same strip_prefix
below point guest = if same point root then some guest else elim (strip_prefix point guest) [
  | none ↦ none
  | some rest ↦ if is_empty rest then some root else if is_absolute rest then some rest else none
]

unfoldable pub find_from : ℕ → List Mount → Bytes → Option (ℕ × Bytes)
unfolding below
find_from index [] guest = none
find_from index (m ∷ rest) guest = elim (below m.point guest) [
  | some rel ↦ some (index, rel)
  | none ↦ find_from (suc index) rest guest
]

unfoldable pub find : List Mount → Bytes → Option (ℕ × Bytes)
unfolding find_from
find mounts guest = find_from 0 mounts guest

-- `rest.contains('/')`
unfoldable pub has_slash : Bytes → Bool
has_slash [] = false
has_slash (c ∷ s) = if c == slash then true else has_slash s

-- `format!("{guest}/")`, but for the root.
unfoldable pub child_prefix : Bytes → Bytes
unfolding same
child_prefix guest = if same guest root then root else guest ++ (slash ∷ [])

-- The name of a path that lies directly below a prefix.
unfoldable pub child_name : Bytes → Bytes → Option Bytes
unfolding strip_prefix has_slash
child_name prefix path = elim (strip_prefix prefix path) [
  | none ↦ none
  | some rest ↦ if not (is_empty rest) && not (has_slash rest) then some rest else none
]

unfoldable pub children_of : List Mount → Bytes → List Bytes
unfolding child_prefix child_name
children_of [] guest = []
children_of (m ∷ rest) guest =
    let others = children_of rest guest in
    elim (child_name (child_prefix guest) m.point) [ none ↦ others | some name ↦ name ∷ others ]
