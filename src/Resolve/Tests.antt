-- ===== src/Resolve/Tests.antt =====
-- Name resolution of kernel/path.rs with two mounts, one of which holds a link that climbs.
use wasmux.Prelude.{
  ◌≤◌, ◌≡◌, refl, ok, pos, some, List, [], ◌∷◌, true, false, if◌then◌else◌, length, codes,
}
use wasmux.Path.{same, is_empty, is_absolute}
use wasmux.Vfs.{Vfs, stat_symlink, stat_file}
use wasmux.Mounts.{Mount, new, find, below}
use wasmux.Mounts.Find.{find-longest}
use wasmux.Nodes.{Overlay, Who}
use wasmux.Resolve.{resolve}
use wasmux.Resolve.Safety.{Owned, resolve-Owned}

-- `/up` is a link to `../../etc/hosts`; everything else is a file.
abbrev linked : Vfs
linked = record {
  has_symlinks = true;
  stat = λ path follow. ok (if same path (codes "/up") then stat_symlink 15 else stat_file 0);
  readlink = λ path. ok (codes "../../etc/hosts");
}

abbrev table : List Mount
table =
    record { point = codes "/"; vfs = linked; read_only = false }
    ∷ record { point = codes "/data"; vfs = linked; read_only = true }
    ∷ []

abbrev no_programs : Overlay
no_programs = record { programs = []; dirs = [] }

abbrev caller : Who
caller = record { cwd = codes "/"; exe = codes "/bin/sh"; pid = pos 3 }

find-longest_example :
    (below (codes "/data") (codes "/data/up") ≡ some (codes "/up"))
    × (length (codes "/") ≤ length (codes "/data"))
unfolding find new is_empty is_absolute same
find-longest_example = find-longest table (codes "/data/up") 0 1 refl refl refl refl

-- The link stays inside the guest's tree.
resolve-Owned_example :
    Owned no_programs (new table) caller 1 (codes "/etc/hosts") (codes "/etc/hosts")
unfolding resolve find new same stat_symlink stat_file
resolve-Owned_example =
    resolve-Owned no_programs (new table) caller (codes "/") (codes "data/up") true refl
