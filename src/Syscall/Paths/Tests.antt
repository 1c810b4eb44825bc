-- ===== src/Syscall/Paths/Tests.antt =====
-- Tests and witnesses of the calls on paths.
use wasmux.Prelude.{ℕ, suc, ◌^◌, true, false, ◌≡◌, refl, none, [], ◌∷◌, ◌++◌, pos, ok, err, codes}
use wasmux.Errno.{again, rofs, inval}
use wasmux.Shared.{Shared, Limits}
use wasmux.Mem.{cstr_bytes}
use wasmux.Vfs.{Vfs, stat_file}
use wasmux.Mounts.{root}
use wasmux.Nodes.{Overlay}
use wasmux.Resolve
use wasmux.Task
use wasmux.Ctx.{Ctx, block, errno}
use wasmux.Syscall.Streams.{is_read_only}
use wasmux.Syscall.Paths.{Filesystems, at_fdcwd}
use wasmux.Syscall.Paths.Handlers.{unlinkat, truncate, run}
use wasmux.Syscall.Paths.Checks.{IsReadOnly}
use wasmux.Syscall.Paths.Safety.{run-read_only}

abbrev limits : Limits
limits = record {
  memory = 2 ^ 28;
  memory_per_process = 2 ^ 27;
  processes = 4;
  open_files = 2;
  output = 1000;
}

abbrev state : Shared ℕ
state = record {
  limits = limits;
  descs = record { slots = []; free = [] };
  pipes = record { slots = []; free = [] };
  table = [];
  next_pid = 2;
  stdin = record { bytes = []; closed = false; wanted = false };
  stdout = record { bytes = []; dropped = 0; taken = 0 };
  stderr = record { bytes = []; dropped = 0; taken = 0 };
  memory_used = 0;
  vfs_pending = false;
  host_pending = false;
  syscalls = 0;
  closed = [];
}

abbrev start : Ctx ℕ
start = record {
  shared = state;
  task = Task.new (pos 1) (record { slots = [] });
  vfork_stack = [];
  memory = codes "/a" ++ (0 ∷ []);
  deadline = none;
  mask_to_restore = none;
  signal_flag = 0;
  grown = 0;
  exec_request = none;
  spawn = [];
}

-- A filesystem that counts its changes, and is never ready to look a path up.
abbrev slow : Vfs
slow = record { has_symlinks = true; stat = λ path follow. err again; readlink = λ path. err again }

abbrev full : Vfs
full = record {
  has_symlinks = true;
  stat = λ path follow. ok (stat_file 3);
  readlink = λ path. err inval;
}

abbrev counting : Filesystems ℕ
counting = record {
  mounts = λ w. record { point = root; vfs = slow; read_only = true } ∷ [];
  truncate = λ w mount path size. (suc w, ok tt);
  mkdir = λ w mount path mode. (suc w, ok tt);
  unlink = λ w mount path. (suc w, ok tt);
  rmdir = λ w mount path. (suc w, ok tt);
  rename = λ w mount from to. (suc w, ok tt);
  symlink = λ w mount target path. (suc w, ok tt);
  set_mode = λ w mount path mode. (suc w, ok tt);
}

abbrev bare : Overlay
bare = record { programs = []; dirs = [] }

-- The same filesystems, with a file wherever one looks.
abbrev present : Filesystems ℕ
present = record counting {
  mounts = λ w. record { point = root; vfs = full; read_only = true } ∷ [];
}

present-IsReadOnly : IsReadOnly present 0
unfolding is_read_only
present-IsReadOnly ℕ.zero = refl
present-IsReadOnly (suc i) = refl

run-read_only_example : (run present bare (λ s. s) (unlinkat at_fdcwd 0 0) 0 start).0 ≡ 0
run-read_only_example =
    run-read_only present bare (λ s. s) (unlinkat at_fdcwd 0 0) 0 start present-IsReadOnly

-- The call comes to the test for a read-only mount.
unlink_refused : (run present bare (λ s. s) (unlinkat at_fdcwd 0 0) 0 start).1.1 ≡ err (errno rofs)
unfolding run Resolve.resolve Resolve.walk cstr_bytes
unlink_refused = refl

-- On a mount that is not read only, it removes the file.
abbrev open_ : Filesystems ℕ
open_ = record counting {
  mounts = λ w. record { point = root; vfs = full; read_only = false } ∷ [];
}

unlink_done : (run open_ bare (λ s. s) (unlinkat at_fdcwd 0 0) 0 start).0 ≡ 1
unfolding run Resolve.resolve Resolve.walk cstr_bytes
unlink_done = refl

truncate_blocks : (run counting bare (λ s. s) (truncate 0 5) 0 start).1.1 ≡ err block
unfolding run Resolve.resolve Resolve.walk cstr_bytes
truncate_blocks = refl
