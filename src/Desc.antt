-- ===== src/Desc.antt =====
-- crates/wasmux/src/kernel/fd.rs: open file descriptions and pipes.
-- `Box<dyn VfsFile>` is a parameter `F`: the handle belongs to a mount. Text is a list of bytes.
use Prim.Native.Nat.{bit_and}
use wasmux.Prelude.{ℕ, ◌-◌, Bool, true, false, ◌||◌, List, [], ◌==◌, not, length}

-- crates/wasmux/src/abi.rs, the flags of open(2).
abbrev pub o_accmode : ℕ
o_accmode = 3

abbrev pub o_rdonly : ℕ
o_rdonly = 0

abbrev pub o_wronly : ℕ
o_wronly = 1

abbrev pub o_rdwr : ℕ
o_rdwr = 2

abbrev pub o_append : ℕ
o_append = 0o2000

abbrev pub o_nonblock : ℕ
o_nonblock = 0o4000

abbrev pub o_cloexec : ℕ
o_cloexec = 0o2000000

abbrev pub Bytes : Type 0
Bytes = List ℕ

abbrev pub pipe_capacity : ℕ
pipe_capacity = 65536

pub record DirEnt : Type 0 where
  pub ino : ℕ
  pub kind : ℕ
  pub name : Bytes

pub data DescKind (F : Type 0) : Type 0 where
  file : F → ℕ → Bool → DescKind F
  dir : List DirEnt → ℕ → DescKind F
  memory : Bytes → ℕ → DescKind F
  pipe_read : ℕ → DescKind F
  pipe_write : ℕ → DescKind F
  stdin : DescKind F
  stdout : ℕ → DescKind F
  null : DescKind F
  zero : DescKind F
  random : DescKind F

pub record Desc (F : Type 0) : Type 0 where
  pub kind : DescKind F
  pub path : Bytes
  pub flags : ℕ
  pub refs : ℕ

module _ {F : Type 0} where
  unfoldable pub new : DescKind F → Bytes → ℕ → Desc F
  new kind path flags = record { kind = kind; path = path; flags = flags; refs = 1 }

  unfoldable pub is_nonblocking : Desc F → Bool
  is_nonblocking d = not (bit_and d.flags o_nonblock == 0)

  unfoldable pub writable : Desc F → Bool
  writable d = let m = bit_and d.flags o_accmode in m == o_wronly || m == o_rdwr

  unfoldable pub readable : Desc F → Bool
  readable d = let m = bit_and d.flags o_accmode in m == o_rdonly || m == o_rdwr

  unfoldable pub is_std_stream : Desc F → Bool
  is_std_stream d = elim d.kind [ stdin ↦ true | stdout n ↦ true | _ ↦ false ]

-- `data` of the source is `bytes`, the front of the queue first.
pub record Pipe : Type 0 where
  pub bytes : Bytes
  pub readers : ℕ
  pub writers : ℕ

unfoldable pub new_pipe : Pipe
new_pipe = record { bytes = []; readers = 1; writers = 1 }

-- `saturating_sub`
unfoldable pub room : Pipe → ℕ
room p = pipe_capacity - length p.bytes
