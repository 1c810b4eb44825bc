-- ===== src/Kernel/Tests.antt =====
-- Tests and witnesses of the scheduler, on a world of one guest program that returns at once.
use wasmux.Prelude.{
  get_elem?, if◌then◌else◌, ℕ, ◌+◌, ◌^◌, ◌≡◌, ◌++◌, Option, false, true, refl, none, some, [], ◌∷◌,
  List, arith, pos, ℤ, ok, err, replicate, length, is_some,
}
use wasmux.Errno.{io, again}
use wasmux.Slab
use wasmux.Slab.{Slab}
use wasmux.Fd
use wasmux.Engine.{Exit}
use wasmux.Desc.{Bytes, DescKind, new, Desc, readable}
use wasmux.Fd.{FdTable}
use wasmux.Shared.{Shared, Limits, add_u64}
use wasmux.Task
use wasmux.Vfs.{VfsFile}
use wasmux.Ctx.{Ctx, Spawn, block}
use wasmux.Task.{status_exited}
use wasmux.Syscall.Files.{SeekFile}
use wasmux.Syscall.Memory.Charge.{Growth, grow_all, grow_all-IsMatched}
use wasmux.Kernel.{
  Kernel, enter, leave, put_proc, Suspension, World, Proc, ExecState, Resume, Body, ProgramKind,
  default_exec,
}
use wasmux.Kernel.Run.{Budget, Reading, Slice, Idle, pass, run, why_idle, step_process}
use wasmux.Kernel.Run.Ends.{Ending, pass-ends}
use wasmux.Kernel.Run.Charge.{IsSettled, cost}
use wasmux.Kernel.Run.Settled.{IsHonest, run-IsSettled}
use wasmux.Kernel.Run.Answers.{Explains, why_idle_lem, kill_all_lem}
use wasmux.Kernel.Finish.{kill_all, ProcStep}
use wasmux.Kernel.HostStep.{Drained, drain, reads}
use wasmux.Kernel.HostStep.Endless.{drain-zero}
use wasmux.Kernel.Asyncify.{
  read_args, syscall_entry, Suspend, read_asyncify_stack, write_asyncify_stack,
}
use wasmux.Kernel.Asyncify.Laws.{write-read_asyncify_stack}
use wasmux.Kernel.Steps.{step_guest}
use wasmux.Kernel.Run.Retry.{calling, GoesOn, syscall_entry-retried}

abbrev limits : Limits
limits = record {
  memory = 2 ^ 28;
  memory_per_process = 2 ^ 27;
  processes = 4;
  open_files = 2;
  output = 1000;
}

abbrev shared : ℕ → List (Option (Desc ℕ)) → Shared ℕ
shared used descs = record {
  limits = limits;
  descs = record { slots = descs; free = [] };
  pipes = record { slots = []; free = [] };
  table = [];
  next_pid = 2;
  stdin = record { bytes = []; closed = false; wanted = false };
  stdout = record { bytes = []; dropped = 0; taken = 0 };
  stderr = record { bytes = []; dropped = 0; taken = 0 };
  memory_used = used;
  vfs_pending = false;
  host_pending = false;
  syscalls = 0;
  closed = [];
}

abbrev files : VfsFile ℕ
files = record { read = λ f n. (f, err again); write = λ f bytes. (f, err io) }

abbrev seeks : SeekFile ℕ
seeks = record { seek = λ f to. (f, ok 0); set_len = λ f n. (f, err io) }

-- An engine that grows whatever it is asked.
abbrev grow : Bytes → ℕ → Option (Bytes × ℕ)
grow m pages = some (m ++ replicate pages 0, 1)

-- What a guest does before it returns, and what a call does: the memory grows by a page.
abbrev grown : Ctx ℕ → Ctx ℕ
grown c = grow_all grow files seeks c (Growth.brk 70000 ∷ [])

abbrev world : World ℕ ℕ ℕ ℕ
world = record {
  programs = ProgramKind.guest 0 ∷ [];
  instantiate = λ m. ok (m, replicate 16 0);
  grow = grow;
  start_rewind = λ i area. i;
  stop_unwind = λ i. i;
  run_start = λ i c e. (i, (grown c, (e, Exit.returned)));
  handle = λ number args c. (grown c, ok (pos 0));
  files = files;
  mounts = [];
  seed = 1;
  lossy = λ b. b;
}

abbrev ctx : Option Spawn → Ctx ℕ
ctx request = record {
  shared = shared 0 [];
  task = Task.new (pos 1) (record { slots = [] });
  vfork_stack = [];
  memory = replicate 16 0;
  deadline = none;
  mask_to_restore = none;
  signal_flag = 0;
  grown = 20;
  exec_request = request;
  spawn = [];
}

abbrev proc : Option Spawn → Resume → ExecState → Proc ℕ ℕ ℕ
proc request resume exec = record {
  ctx = ctx request;
  argv = [];
  envp = [];
  exec = exec;
  body = Body.guest 0;
  resume = resume;
  charged = 100;
  parked = false;
}

abbrev kernel : List (Proc ℕ ℕ ℕ) → ℕ → Kernel ℕ ℕ ℕ
kernel procs used = record {
  shared = shared used [];
  spawn = [];
  procs = procs;
  exit_status = none;
  host = 0;
}

abbrev one : Proc ℕ ℕ ℕ
one = proc none Resume.fresh default_exec

abbrev no_limit : Budget
no_limit = record { syscalls = none; duration = none }

abbrev now : Reading
now = record { before = 0; after = 1 }

pass-ends_example :
    Ending world 5
      (kernel (one ∷ []) 120)
      0
      false
      (pass world 5 2 (kernel (one ∷ []) 120) 0 false).1
pass-ends_example = pass-ends world 5 2 (kernel (one ∷ []) 120) 0 false (omega arith)

settled : IsSettled (kernel (one ∷ []) 120)
unfolding cost
settled = record { exact = refl; within = omega arith; fits = omega arith }

honest : IsHonest world
honest = record {
  on_run = λ i c e h. grow_all-IsMatched grow files seeks c (Growth.brk 70000 ∷ []) h;
  on_handle = λ number args c h. grow_all-IsMatched grow files seeks c (Growth.brk 70000 ∷ []) h;
}

run-IsSettled_example : IsSettled (run world 5 none no_limit (now ∷ []) (kernel (one ∷ []) 120)).0
run-IsSettled_example =
    run-IsSettled world honest 5 none no_limit (now ∷ []) (kernel (one ∷ []) 120) settled

why_idle_lem_example : Explains (kernel (one ∷ []) 120) (kernel (one ∷ []) 120) Idle.deadlock
unfolding why_idle
why_idle_lem_example = why_idle_lem (kernel (one ∷ []) 120)

kill_all_lem_example :
    ((kill_all (kernel (one ∷ []) 120) (pos 9)).procs ≡ [])
    × ((kill_all (kernel (one ∷ []) 120) (pos 9)).shared.memory_used ≡ 0)
    × (is_some (kill_all (kernel (one ∷ []) 120) (pos 9)).exit_status ≡ true)
kill_all_lem_example = kill_all_lem (kernel (one ∷ []) 120) (pos 9) settled

-- The header says that the saved stack ends at 14; it starts at 2.
abbrev saved : Bytes
saved = 0 ∷ 0 ∷ 14 ∷ 0 ∷ 0 ∷ 0 ∷ 30 ∷ 0 ∷ 0 ∷ 0 ∷ 1 ∷ 2 ∷ 3 ∷ 4 ∷ 5 ∷ 6 ∷ []

write-read_asyncify_stack_example :
    (m : Bytes) × (write_asyncify_stack (replicate 16 7) 2 (read_asyncify_stack saved 2) ≡ some m)
    × (read_asyncify_stack m 2 ≡ read_asyncify_stack saved 2)
    × (length m ≡ 16)
unfolding read_asyncify_stack
write-read_asyncify_stack_example =
    write-read_asyncify_stack saved (replicate 16 7) 2 (omega arith) (omega arith)

abbrev suspend : Suspend ℕ
suspend = record {
  stack_pointer = λ i. 40;
  set_stack_pointer = λ i sp. i + sp;
  start_unwind = λ i area. i;
  stop_rewind = λ i. i;
}

-- A guest whose memory has room for the arguments of a call.
abbrev caller : Proc ℕ ℕ ℕ
caller = record one { ctx = record (ctx none) { memory = replicate 40 0 } }

abbrev zeros : List ℤ
zeros = pos 0 ∷ pos 0 ∷ pos 0 ∷ pos 0 ∷ pos 0 ∷ pos 0 ∷ []

-- A call that blocks until standard input is closed.
abbrev waiting : World ℕ ℕ ℕ ℕ
waiting = record world {
  handle = λ number args c. (c, if c.shared.stdin.closed then ok (pos 5) else err block);
}

abbrev before : Kernel ℕ ℕ ℕ
before = kernel (caller ∷ []) 120

-- The process after the call, and the kernel in which its turn comes again.
abbrev left : Kernel ℕ ℕ ℕ
left = (step_guest (calling suspend (λ i v. i + v) 3 8 waiting) before 0 caller 0 Resume.fresh).0

abbrev closed : Kernel ℕ ℕ ℕ
closed = record left {
  shared = record (left.shared) { stdin = record (left.shared.stdin) { closed = true } };
}

-- What a call works on: the count of calls goes up.
abbrev counted : Kernel ℕ ℕ ℕ → Proc ℕ ℕ ℕ → Ctx ℕ
counted k p =
    let c = enter k p in
    record c { shared = record (c.shared) { syscalls = add_u64 c.shared.syscalls 1 } }

abbrev sleeper : Proc ℕ ℕ ℕ
sleeper = elim (get_elem? left.procs 0) [ none ↦ caller | some q ↦ q ]

syscall_entry-retried_example :
    ((step_guest (calling suspend (λ i v. i + v) 3 8 waiting) before 0 caller 0 Resume.fresh).1
      ≡ ProcStep.ran)
    × (q : Proc ℕ ℕ ℕ) × (step_process (calling suspend (λ i v. i + v) 3 8 waiting) 9 closed 0 ≡ (
      put_proc (leave closed (counted closed sleeper)) 0 q,
      some (ProcStep.ended (status_exited (pos 0))),
    ))
    × GoesOn suspend (λ i v. i + v) 3 8 waiting caller q 0 (counted closed sleeper) (pos 5)
unfolding read_args step_guest Task.triage syscall_entry
syscall_entry-retried_example =
    syscall_entry-retried suspend (λ i v. i + v) 3 8 waiting before 0 caller 0 zeros
      (counted before caller) 9 closed 0 sleeper (counted closed sleeper) (pos 5) (omega arith) refl
      refl refl refl refl refl refl

abbrev zero_input : Ctx ℕ
zero_input = record (ctx none) {
  shared = shared 0 (some (new DescKind.zero [] 0) ∷ []);
  task = Task.new (pos 1) (record { slots = some (record { desc = 0; cloexec = false }) ∷ [] });
}

drain-zero_example : (drain (reads world) 3 zero_input []).1.1 ≡ Drained.endless
unfolding Fd.get Task.new new Slab.get readable
drain-zero_example =
    drain-zero world zero_input
      (record {
        entry = record { desc = 0; cloexec = false };
        desc = new DescKind.zero [] 0;
        open_fd = refl;
        live = refl;
        of_kind = refl;
      })
      refl 3 []

-- The first process asks for a program that is not there: its exec fails with 126, it is gone, and
-- the session answers 0.
failed_exec :
    (run world 5 none no_limit (now ∷ []) (
      kernel
        (proc
            (some (record {
              task = Task.new (pos 1) (record { slots = [] });
              program = 9;
              exe = [];
              argv = [];
              envp = [];
            }))
            Resume.fresh
            (record default_exec { suspension = some Suspension.exec })
          ∷ [])
        120)).1
    ≡ some (Slice.finished (pos 0))
unfolding run grow_all
failed_exec = refl
