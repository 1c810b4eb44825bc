-- ===== src/Syscall/Tests.antt =====
-- The system calls at work: a process with the two ends of a pipe at 0 and 1.
use wasmux.Prelude.{
  ok, ◌⊎◌, ℕ, zero, suc, ◌+◌, ◌^◌, ◌≤◌, ◌<◌, ◌≡◌, refl, err, pos, none, some, List, [], ◌∷◌, ◌++◌,
  true, false, arith, length, is_some,
}
use wasmux.Errno.{badf}
use wasmux.Slab
use wasmux.Slab.{Slab, Key}
use wasmux.Desc.{
  Desc, DescKind, Pipe, new, new_pipe, pipe_capacity, o_rdonly, o_wronly, writable, readable,
}
use wasmux.Fd.{Fd, FdTable, get}
use wasmux.Fd.Alloc.{Full}
use wasmux.Shared.{Shared, Limits}
use wasmux.Shared.Refs.{IsBalanced, refs_at, total, occurs}
use wasmux.Task
use wasmux.Task.{Task, status_exited}
use wasmux.Process.{fork_record}
use wasmux.Ctx.{Ctx, errno, exit, Spawn}
use wasmux.Syscall.Descriptors.{dup3}
use wasmux.Syscall.Descriptors.Balance.{Balanced, Shares, dup3-Shares, dup3_leaks}
use wasmux.Syscall.Processes.{clone, exit_process, finish_exec, finish_process}
use wasmux.Syscall.Processes.Balance.{InBalance, asked, finish-IsBalanced}
use wasmux.Syscall.Processes.Fork.{IsRefused, IsShared, IsEnded, clone-IsShared, exit-IsEnded}
use wasmux.Syscall.Processes.Exec.{GoesOn, IsHandedOver, exec-IsHandedOver}
use wasmux.Vfs.{VfsFile}
use wasmux.Syscall.Streams.{read_bytes, write_bytes}
use wasmux.Syscall.Streams.Transfer.{Opens, write_bytes-read_bytes}
use wasmux.Syscall.Streams.Pipes.{Call, read, write, begin, run, pipe_fifo, run-Bounded}

abbrev limits : Limits
limits = record {
  memory = 2 ^ 28;
  memory_per_process = 2 ^ 27;
  processes = 4;
  open_files = 2;
  output = 1000;
}

abbrev pub reader : Desc ℕ
reader = new (DescKind.pipe_read 0) [] o_rdonly

abbrev pub writer : Desc ℕ
writer = new (DescKind.pipe_write 0) [] o_wronly

abbrev state : Shared ℕ
state = record {
  limits = limits;
  descs = record { slots = some reader ∷ some writer ∷ []; free = [] };
  pipes = record { slots = some new_pipe ∷ []; free = [] };
  table = [];
  next_pid = 2;
  stdin = record { bytes = []; closed = false; wanted = false };
  stdout = record { bytes = []; dropped = 0; taken = 0 };
  stderr = record { bytes = []; dropped = 0; taken = 0 };
  memory_used = 0;
  vfs_pending = false;
  host_pending = false;
  syscalls = 0;
  closed = [];
}

abbrev entry : Key → Fd
entry key = record { desc = key; cloexec = false }

abbrev fds : FdTable
fds = record { slots = some (entry 0) ∷ some (entry 1) ∷ [] }

abbrev pub start : Ctx ℕ
start = record {
  shared = state;
  task = Task.new (pos 1) fds;
  vfork_stack = [];
  memory = [];
  deadline = none;
  mask_to_restore = none;
  signal_flag = 0;
  grown = 0;
  exec_request = none;
  spawn = [];
}

counted : (key : Key) → refs_at state.descs key ≡ total key (fds ∷ []) + 0
unfolding new Slab.get
counted zero = refl
counted (suc zero) = refl
counted (suc (suc key)) = ground arith

alive : (key : Key) → is_some (Slab.get state.descs key) ≡ true → 0 < refs_at state.descs key
unfolding new Slab.get
alive zero e = omega arith
alive (suc zero) e = omega arith
alive (suc (suc key)) e = cc

start-Balanced : Balanced start [] []
unfolding Task.new
start-Balanced = record { counted = counted; alive = alive }

start-InBalance : InBalance start []
unfolding Task.new
start-InBalance = record { counted = counted; alive = alive }

small : (key : Key) → refs_at start.shared.descs key + occurs key start.task.fds.slots < 2 ^ 32
unfolding new Task.new Slab.get
small zero = omega arith
small (suc zero) = omega arith
small (suc (suc key)) = ground arith

dup3-Shares_example : Shares [] 1 (dup3 start (pos 1) (pos 0) 0)
unfolding get Task.new new Slab.get
dup3-Shares_example =
    dup3-Shares start [] (pos 1) (pos 0) 0 (entry 1) (λ e. ground arith) refl (omega arith)
      start-Balanced

-- The write end of the pipe has two references and one descriptor.
dup3_leaks_example :
    ((dup3 start (pos 1) (pos 9) 0).1 ≡ err (errno badf))
    × (refs_at (dup3 start (pos 1) (pos 9) 0).0.shared.descs 1
        ≡ 1 + total 1 ((dup3 start (pos 1) (pos 9) 0).0.task.fds ∷ []))
unfolding get Task.new new Slab.get
dup3_leaks_example =
    dup3_leaks start [] (pos 1) 9 0 (entry 1) (λ e. ground arith) (omega arith) refl (omega arith)
      start-Balanced

full : Full start.task.fds.slots 0 2
unfolding Task.new
full zero lo hi = refl
full (suc zero) lo hi = refl
full (suc (suc j)) lo hi = absurd (omega arith)

forked-InBalance : InBalance (clone start 0x4100).0 []
forked-InBalance = (clone-IsShared start [] 0x4100 small start-InBalance).0

clone-IsShared_example :
    InBalance (clone start 0x4100).0 []
    × (IsRefused start 0x4100
        ⊎ (((clone start 0x4100).1 ≡ ok (pos 0)) × IsShared start (clone start 0x4100).0))
clone-IsShared_example = clone-IsShared start [] 0x4100 small start-InBalance

exit-IsEnded_example :
    let c = (clone start 0x4100).0 in
    InBalance (exit_process c (pos 3)).0 []
    × (((c.vfork_stack ≡ []) × (exit_process c (pos 3) ≡ (c, err (exit (status_exited (pos 3))))))
        ⊎ ((parent : Task) × (rest : List Task) × (c.vfork_stack ≡ parent ∷ rest)
            × ((exit_process c (pos 3)).1 ≡ ok c.task.pid)
            × IsEnded c (exit_process c (pos 3)).0 parent rest))
exit-IsEnded_example = exit-IsEnded (clone start 0x4100).0 [] (pos 3) forked-InBalance

-- The write end is marked close-on-exec, then a child is forked.
abbrev marking : Ctx ℕ
marking = record start {
  task =
      Task.new (pos 1)
        (record { slots = some (entry 0) ∷ some (record { desc = 1; cloexec = true }) ∷ [] });
}

marking-InBalance : InBalance marking []
unfolding Task.new
marking-InBalance = record { counted = counted; alive = alive }

small_marking :
    (key : Key) → refs_at marking.shared.descs key + occurs key marking.task.fds.slots < 2 ^ 32
unfolding new Task.new Slab.get
small_marking zero = omega arith
small_marking (suc zero) = omega arith
small_marking (suc (suc key)) = ground arith

exec-IsHandedOver_example :
    let c = (clone marking 0x4100).0 in
    InBalance (finish_exec c 0 [] [] []).0 []
    × ((s : Spawn) × GoesOn c (finish_exec c 0 [] [] []) s
        × IsHandedOver c (finish_exec c 0 [] [] []).0 s)
unfolding clone fork_record
exec-IsHandedOver_example =
    exec-IsHandedOver (clone marking 0x4100).0 [] 0 [] [] [] refl
      (clone-IsShared marking [] 0x4100 small_marking marking-InBalance).0

finish-IsBalanced_example :
    IsBalanced
      (asked (clone start 0x4100).0 ++ [])
      []
      (finish_process (clone start 0x4100).0 65536 (pos 9)).descs
finish-IsBalanced_example =
    finish-IsBalanced (clone start 0x4100).0 [] 65536 (pos 9) forked-InBalance

abbrev half : Pipe
half = record { bytes = 1 ∷ 2 ∷ 3 ∷ []; readers = 1; writers = 1 }

abbrev calls : List Call
calls = read true 2 ∷ write false (7 ∷ 8 ∷ []) ∷ read false 9 ∷ read true 1 ∷ []

calls-run : (run (begin half) calls).delivered ≡ 1 ∷ 2 ∷ 3 ∷ 7 ∷ 8 ∷ []
unfolding run
calls-run = refl

pipe_fifo_example :
    (run (begin half) calls).delivered ++ (run (begin half) calls).pipe.bytes
    ≡ (1 ∷ 2 ∷ 3 ∷ []) ++ (run (begin half) calls).written
pipe_fifo_example = pipe_fifo half calls

run-Bounded_example : length (run (begin half) calls).pipe.bytes ≤ pipe_capacity
run-Bounded_example = run-Bounded (begin half) calls (omega arith)

-- Handles that are always at their end.
abbrev pub at_end : VfsFile ℕ
at_end = record { read = λ f n. (f, ok []); write = λ f bytes. (f, ok 0) }

abbrev pub write_end : Opens start (pos 1) (DescKind.pipe_write 0)
unfolding get Task.new new Slab.get
write_end = record { entry = entry 1; desc = writer; open_fd = refl; live = refl; of_kind = refl }

abbrev pub read_end : Opens start (pos 0) (DescKind.pipe_read 0)
unfolding get Task.new new Slab.get
read_end = record { entry = entry 0; desc = reader; open_fd = refl; live = refl; of_kind = refl }

write_bytes-read_bytes_example :
    ((write_bytes at_end [] 1 start (pos 1) (7 ∷ 8 ∷ [])).1 ≡ ok 2)
    × ((read_bytes at_end [] 1 (write_bytes at_end [] 1 start (pos 1) (7 ∷ 8 ∷ [])).0 (pos 0) 2).1
        ≡ ok (7 ∷ 8 ∷ []))
unfolding get Task.new new Slab.get new_pipe writable readable
write_bytes-read_bytes_example =
    write_bytes-read_bytes at_end [] 1 start (pos 1) (pos 0) 0 write_end read_end new_pipe
      (7 ∷ 8 ∷ []) refl refl refl (omega arith) (omega arith) (omega arith)
