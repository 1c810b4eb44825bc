-- ===== src/Syscall/Files/Tests.antt =====
-- Tests and witnesses of the calls on open files and directories.
use wasmux.Prelude.{
  ℕ, ◌^◌, ◌⊎◌, ◌<◌, ◌≤◌, err, ◌≡◌, false, refl, none, some, [], ◌∷◌, arith, pos, negsuc, codes,
  replicate,
}
use wasmux.Slab
use wasmux.Desc.{DescKind, DirEnt, new}
use wasmux.Fd.{get}
use wasmux.Shared.{Shared, Limits}
use wasmux.Task
use wasmux.Errno.{inval}
use wasmux.Ctx.{Ctx, errno}
use wasmux.Vfs.{SeekFrom}
use wasmux.Syscall.Streams.Transfer.{Opens}
use wasmux.Syscall.Files.{seek_from, getdents64, record_len}
use wasmux.Syscall.Files.Listing.{getdents64_lem, IsTold}

abbrev item : DirEnt
item = record { ino = 5; kind = 8; name = codes "notes" }

abbrev limits : Limits
limits = record {
  memory = 2 ^ 28;
  memory_per_process = 2 ^ 27;
  processes = 4;
  open_files = 2;
  output = 1000;
}

abbrev state : Shared ℕ
state = record {
  limits = limits;
  descs = record { slots = some (new (DescKind.dir (item ∷ []) 0) [] 0) ∷ []; free = [] };
  pipes = record { slots = []; free = [] };
  table = [];
  next_pid = 2;
  stdin = record { bytes = []; closed = false; wanted = false };
  stdout = record { bytes = []; dropped = 0; taken = 0 };
  stderr = record { bytes = []; dropped = 0; taken = 0 };
  memory_used = 0;
  vfs_pending = false;
  host_pending = false;
  syscalls = 0;
  closed = [];
}

abbrev start : Ctx ℕ
start = record {
  shared = state;
  task = Task.new (pos 1) (record { slots = some (record { desc = 0; cloexec = false }) ∷ [] });
  vfork_stack = [];
  memory = replicate 40 0;
  deadline = none;
  mask_to_restore = none;
  signal_flag = 0;
  grown = 0;
  exec_request = none;
  spawn = [];
}

-- A negative offset from the start is not refused: it is taken for 0.
negative_seek : seek_from (negsuc 4) (pos 0) ≡ some (SeekFrom.start 0)
unfolding seek_from
negative_seek = refl

open_listing : Opens start (pos 0) (DescKind.dir (item ∷ []) 0)
unfolding get Task.new new Slab.get
open_listing = record {
  entry = record { desc = 0; cloexec = false };
  desc = new (DescKind.dir (item ∷ []) 0) [] 0;
  open_fd = refl;
  live = refl;
  of_kind = refl;
}

getdents64_lem_example :
    ((40 < record_len item) × (getdents64 start (pos 0) 0 40 ≡ (start, err (errno inval))))
    ⊎ ((record_len item ≤ 40) × IsTold 40 (getdents64 start (pos 0) 0 40).1)
getdents64_lem_example =
    getdents64_lem start (pos 0) 0 40 (item ∷ []) 0 item [] open_listing refl (omega arith)
