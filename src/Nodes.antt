-- ===== src/Nodes.antt =====
-- crates/wasmux/src/kernel/path.rs: what a guest path can name, and the names that the kernel itself
-- serves: programs, devices, /proc and its links.
use wasmux.Prelude.{
  ℕ, Bool, false, ◌||◌, Option, none, some, List, [], ◌∷◌, ◌++◌, if◌then◌else◌, ℤ, codes,
}
use wasmux.Desc.{Bytes}
use wasmux.Path.{same, is_empty}
use wasmux.Mounts.{strip_prefix, root}
use wasmux.Decimal.{to_string, parse_i32}

pub data Device : Type 0 where
  null : Device
  zero : Device
  random : Device
  tty : Device
  fd : ℤ → Device

pub data Node : Type 0 where
  program : ℕ → Bytes → Node
  device : Device → Node
  synth : Bytes → Node
  mounted : ℕ → Bytes → Bytes → Node
  virtual_dir : Bytes → Node
  virtual_link : Bytes → Node

-- The maps of `Overlay` as a list of pairs and a list of members.
pub record Overlay : Type 0 where
  pub programs : List (Bytes × ℕ)
  pub dirs : List Bytes

pub record Who : Type 0 where
  pub cwd : Bytes
  pub exe : Bytes
  pub pid : ℤ

-- `BTreeMap::get` and `BTreeSet::contains`.
unfoldable pub lookup : Bytes → List (Bytes × ℕ) → Option ℕ
unfolding same
lookup key [] = none
lookup key ((k, v) ∷ rest) = if same key k then some v else lookup key rest

unfoldable pub contains : List Bytes → Bytes → Bool
unfolding same
contains [] key = false
contains (k ∷ rest) key = same key k || contains rest key

unfoldable pub is_dir : Overlay → Bytes → Bool
unfolding contains
is_dir o guest = contains o.dirs guest || same guest (codes "/proc/self/fd")

abbrev pub proc_files : List Bytes
proc_files =
    codes "cpuinfo"
    ∷ codes "meminfo"
    ∷ codes "uptime"
    ∷ codes "version"
    ∷ codes "mounts"
    ∷ codes "filesystems"
    ∷ codes "loadavg"
    ∷ codes "stat"
    ∷ []

unfoldable pub device_of : Bytes → Option Device
unfolding same
device_of guest =
    if same guest (codes "/dev/null")
    then some null
    else if same guest (codes "/dev/zero")
    then some Device.zero
    else if same guest (codes "/dev/urandom") || same guest (codes "/dev/random")
    then some random
    else if same guest (codes "/dev/tty") || same guest (codes "/dev/console")
    then some tty
    else none

-- `strip_prefix(..).unwrap_or(rest)`
abbrev pub strip_or : Bytes → Bytes → Bytes
strip_or prefix s = elim (strip_prefix prefix s) [ none ↦ s | some rest ↦ rest ]

-- `/proc/<own pid>/x` and `/proc/self/x`, without what stands before `x`.
unfoldable pub proc_rest : Who → Bytes → Bytes
unfolding strip_prefix to_string
proc_rest who rest =
    let inner : Bytes = elim (strip_prefix (to_string who.pid) rest) [
      | none ↦ rest
      | some r ↦ elim (strip_prefix root r) [ none ↦ rest | some r' ↦ r' ]
    ] in
    strip_or (codes "self/") inner

unfoldable pub proc_known : Bytes → Bytes → Option Node
unfolding contains same is_empty
proc_known guest rest =
    if contains proc_files rest
      || (same rest (codes "cmdline")
          || (same rest (codes "comm") || (same rest (codes "stat") || same rest (codes "status"))))
    then some (synth guest)
    else if is_empty rest || same rest (codes "self")
    then some (virtual_dir guest)
    else none

unfoldable pub proc_node : Who → Bytes → Option Node
unfolding proc_rest proc_known parse_i32
proc_node who guest = elim (strip_prefix (codes "/proc/") guest) [
  | none ↦ none
  | some stripped ↦
      let rest = proc_rest who stripped in
      if same rest (codes "fd")
      then some (virtual_dir guest)
      else elim (strip_prefix (codes "fd/") rest) [
        | some number ↦ elim (parse_i32 number) [ none ↦ none | some n ↦ some (device (fd n)) ]
        | none ↦ proc_known guest rest
      ]
]

-- The links of a process: the tail behind `/proc/self` or `/proc/<pid>`.
own_link : Who → Bytes → Option Bytes
unfolding strip_prefix to_string
own_link who guest = elim (strip_prefix (codes "/proc/self") guest) [
  | some tail ↦ some tail
  | none ↦ strip_prefix (codes "/proc/" ++ to_string who.pid) guest
]

std_link : Bytes → Option Bytes
unfolding same
std_link guest =
    if same guest (codes "/dev/stdin")
    then some (codes "/proc/self/fd/0")
    else if same guest (codes "/dev/stdout")
    then some (codes "/proc/self/fd/1")
    else if same guest (codes "/dev/stderr")
    then some (codes "/proc/self/fd/2")
    else none

unfoldable pub virtual_link_of : Who → Bytes → Option Bytes
unfolding own_link std_link
virtual_link_of who guest = elim (own_link who guest) [
  | none ↦ std_link guest
  | some tail ↦
      if same tail (codes "/exe")
      then some who.exe
      else if same tail (codes "/cwd")
      then some who.cwd
      else std_link guest
]
