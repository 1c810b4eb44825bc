-- ===== src/Syscall/Memory/Tests.antt =====
-- Tests and witnesses of the calls that grow the memory of a process.
use wasmux.Prelude.{
  ℕ, ◌^◌, ◌*◌, ◌/◌, ◌≡◌, ◌++◌, Option, false, refl, none, some, [], ◌∷◌, List, arith, pos, ok, err,
  replicate, length,
}
use wasmux.Errno.{io, again}
use wasmux.Slab
use wasmux.Desc.{Bytes, DescKind, new}
use wasmux.Shared.{Shared, Limits}
use wasmux.Task
use wasmux.Vfs.{VfsFile}
use wasmux.Ctx.{Ctx}
use wasmux.Syscall.Files.{SeekFile}
use wasmux.Syscall.Memory.{page}
use wasmux.Syscall.Memory.Charge.{Growth, IsMatched, grow_all, grow_all-IsMatched}

abbrev limits : Limits
limits = record {
  memory = 2 ^ 28;
  memory_per_process = 2 ^ 27;
  processes = 4;
  open_files = 2;
  output = 1000;
}

abbrev state : Shared ℕ
state = record {
  limits = limits;
  descs = record { slots = some (new (DescKind.file 9 0 false) [] 0) ∷ []; free = [] };
  pipes = record { slots = []; free = [] };
  table = [];
  next_pid = 2;
  stdin = record { bytes = []; closed = false; wanted = false };
  stdout = record { bytes = []; dropped = 0; taken = 0 };
  stderr = record { bytes = []; dropped = 0; taken = 0 };
  memory_used = 0;
  vfs_pending = false;
  host_pending = false;
  syscalls = 0;
  closed = [];
}

abbrev start : Ctx ℕ
start = record {
  shared = state;
  task = Task.new (pos 1) (record { slots = some (record { desc = 0; cloexec = false }) ∷ [] });
  vfork_stack = [];
  memory = replicate 40 0;
  deadline = none;
  mask_to_restore = none;
  signal_flag = 0;
  grown = 0;
  exec_request = none;
  spawn = [];
}

-- An engine that grows whatever it is asked.
abbrev grow : Bytes → ℕ → Option (Bytes × ℕ)
grow m pages = some (m ++ replicate (pages * page) 0, length m / page)

-- A file that is not ready.
abbrev files : VfsFile ℕ
files = record { read = λ f n. (f, err again); write = λ f bytes. (f, err io) }

abbrev seeks : SeekFile ℕ
seeks = record { seek = λ f to. (f, ok 0); set_len = λ f n. (f, err io) }

-- A mapping of the file blocks, with the page charged: made again, it is charged again.
retried_mapping :
    (grow_all grow files seeks start
      (Growth.mmap 0 100 0 (pos 0) 0 ∷ Growth.mmap 0 100 0 (pos 0) 0 ∷ [])).shared.memory_used
    ≡ 2 * 65536
unfolding grow_all wasmux.Syscall.Files.with_desc wasmux.Fd.get Task.new Slab.get new
    wasmux.Syscall.Paths.vfs_fault Slab.put
retried_mapping = refl

-- A growth, a mapping of the file, and a mapping through a descriptor that is not open.
abbrev calls : List (Growth grow files seeks)
calls = Growth.brk 70000 ∷ Growth.mmap 0 100 0 (pos 0) 0 ∷ Growth.mmap 0 100 0 (pos 7) 0 ∷ []

grow_all-IsMatched_example : IsMatched start (grow_all grow files seeks start calls)
grow_all-IsMatched_example =
    grow_all-IsMatched grow files seeks start calls
      (record { within = omega arith; covers = omega arith; fits = omega arith })
