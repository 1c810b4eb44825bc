-- ===== src/Syscall/Signals/Tests.antt =====
-- Tests and witnesses of the calls on signals.
use wasmux.Prelude.{
  ℕ, ◌^◌, ◌&&◌, false, ◌≡◌, refl, ◌⊎◌, inl, none, some, [], ◌∷◌, ltb, pos, ok, nth, nth-pow,
  replicate,
}
use wasmux.Errno.{intr, as_neg}
use wasmux.Shared.{Shared, Limits, ProcRecord}
use wasmux.Mem.{read_u64, slice, from_le_bytes, to_le_bytes, put, put_u32}
use wasmux.Task.{
  nsig, sigkill, triage, triage_from, triage_one, bit, action, is_ignored, default_ignored,
}
use wasmux.Task.Triage.{triage_lem, delivered, discarded, digit}
use wasmux.Process.{find_record}
use wasmux.Ctx.{Ctx}
use wasmux.Syscall.Signals.{
  value, blocked, rt_sigprocmask, rt_sigsuspend, dispatch, conclude, finish, raise_signal_flag,
  interrupted, live_signals, pending_of,
}
use wasmux.Syscall.Signals.Delivery.{SignalDelivery, next_signal}
use wasmux.Syscall.Signals.Delivery.Ends.{next_signal-ends}
use wasmux.Syscall.Signals.Masks.{rt_sigprocmask-unblockable, rt_sigsuspend-mask}

abbrev limits : Limits
limits = record {
  memory = 2 ^ 28;
  memory_per_process = 2 ^ 27;
  processes = 4;
  open_files = 2;
  output = 1000;
}

-- The process 1 has SIGUSR1, number 10, pending.
abbrev waiting : ProcRecord
waiting = record {
  pid = pos 1;
  ppid = pos 0;
  pgid = pos 1;
  sid = pos 1;
  pending = 2 ^ 10;
  exit = none;
  wake_at = none;
  comm = [];
}

abbrev state : Shared ℕ
state = record {
  limits = limits;
  descs = record { slots = []; free = [] };
  pipes = record { slots = []; free = [] };
  table = waiting ∷ [];
  next_pid = 2;
  stdin = record { bytes = []; closed = false; wanted = false };
  stdout = record { bytes = []; dropped = 0; taken = 0 };
  stderr = record { bytes = []; dropped = 0; taken = 0 };
  memory_used = 0;
  vfs_pending = false;
  host_pending = false;
  syscalls = 0;
  closed = [];
}

-- The mask blocks the signal, for which the guest has a handler, and the word of the flag is at 8.
abbrev start : Ctx ℕ
start = record {
  shared = state;
  task = record {
    pid = pos 1;
    fds = record { slots = [] };
    cwd = [];
    umask = 0;
    sigact = replicate 20 (record { handler = 7; flags = 0; mask = 0 });
    sigmask = 2 ^ 10;
    exe = [];
    comm = [];
  };
  vfork_stack = [];
  memory = replicate 16 0;
  deadline = none;
  mask_to_restore = none;
  signal_flag = 8;
  grown = 0;
  exec_request = none;
  spawn = [];
}

-- The wait with an empty mask ends, since the signal is there. The mask that blocks it is put back
-- before the flag is written, so that the guest is not told of the signal.
suspend_without_flag :
    let r = dispatch (λ c. rt_sigsuspend c 0) start in
    (r.1 ≡ value (as_neg intr))
    × (r.0.memory ≡ replicate 16 0)
    × (pending_of r.0.shared.table (pos 1) ≡ 2 ^ 10)
unfolding dispatch conclude rt_sigsuspend interrupted live_signals finish raise_signal_flag triage
    triage_from triage_one bit action is_ignored default_ignored pending_of find_record read_u64
    slice from_le_bytes to_le_bytes put put_u32
suspend_without_flag = (refl, refl, refl)

reads_mask : read_u64 start.memory 0 ≡ ok 0
unfolding read_u64 slice from_le_bytes
reads_mask = refl

rt_sigsuspend-mask_example :
    let r = dispatch (λ c. rt_sigsuspend c 0) start in
    ((r.1 ≡ blocked) × (r.0.task.sigmask ≡ 0) × (r.0.mask_to_restore ≡ some (2 ^ 10)))
    ⊎ ((r.1 ≡ value (as_neg intr)) × (r.0.task.sigmask ≡ 2 ^ 10) × (r.0.mask_to_restore ≡ none))
rt_sigsuspend-mask_example = rt_sigsuspend-mask start 0 0 reads_mask

kill_open : nth (2 ^ 10) sigkill ≡ 0
kill_open = nth-pow 10 sigkill

rt_sigprocmask-unblockable_example :
    nth (rt_sigprocmask start (pos 2) 0 0).0.task.sigmask sigkill ≡ 0
rt_sigprocmask-unblockable_example =
    rt_sigprocmask-unblockable start (pos 2) 0 0 sigkill (inl refl) kill_open

next_signal-ends_example : (d : SignalDelivery) × ((next_signal 65 start 0).1 ≡ some d)
next_signal-ends_example = next_signal-ends start 0

triage_lem_example :
    (nth (triage (2 ^ 10) 0 start.task).0 10
      ≡ digit (ltb 0 10 && (ltb 10 nsig && delivered (2 ^ 10) 0 start.task 10)))
    × (nth (triage (2 ^ 10) 0 start.task).1 10
        ≡ digit (ltb 0 10 && (ltb 10 nsig && discarded (2 ^ 10) start.task 10)))
triage_lem_example = triage_lem (2 ^ 10) 0 start.task 10
