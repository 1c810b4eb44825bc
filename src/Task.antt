-- ===== src/Task.antt =====
-- crates/wasmux/src/kernel/task.rs: one process's private state, and the signals.
-- A signal set is a `u64` with the bit `2 ^ sig` for the signal `sig`.
pub mod Triage
use Prim.Native.Nat.{bit_and, bit_or}
use wasmux.Prelude.{
  ℕ, zero, suc, ◌+◌, ◌-◌, ◌*◌, ◌^◌, Bool, true, false, ◌&&◌, ◌||◌, not, none, some, List, [], ◌∷◌,
  map, ltb, ◌==◌, if◌then◌else◌, get_elem?, set, replicate, ℤ, pos, negsuc, as_u32,
}
use wasmux.Desc.{Bytes}
use wasmux.Fd.{FdTable}
use wasmux.Shared.{ProcRecord}

abbrev pub nsig : ℕ
nsig = 64

-- crates/wasmux/src/abi.rs, the signals that the kernel itself names.
abbrev pub sigkill : ℕ
sigkill = 9

abbrev pub sigsegv : ℕ
sigsegv = 11

abbrev pub sigpipe : ℕ
sigpipe = 13

abbrev pub sigchld : ℕ
sigchld = 17

abbrev pub sigcont : ℕ
sigcont = 18

abbrev pub sigstop : ℕ
sigstop = 19

abbrev pub sigtstp : ℕ
sigtstp = 20

abbrev pub sigttin : ℕ
sigttin = 21

abbrev pub sigttou : ℕ
sigttou = 22

abbrev pub sigurg : ℕ
sigurg = 23

abbrev pub sigwinch : ℕ
sigwinch = 28

abbrev pub sig_dfl : ℕ
sig_dfl = 0

abbrev pub sig_ign : ℕ
sig_ign = 1

pub record SigAction : Type 0 where
  pub handler : ℕ
  pub flags : ℕ
  pub mask : ℕ

abbrev pub default_action : SigAction
default_action = record { handler = 0; flags = 0; mask = 0 }

pub record Task : Type 0 where
  pub pid : ℤ
  pub fds : FdTable
  pub cwd : Bytes
  pub umask : ℕ
  pub sigact : List SigAction
  pub sigmask : ℕ
  pub exe : Bytes
  pub comm : Bytes

unfoldable pub new : ℤ → FdTable → Task
new pid fds = record {
  pid = pid;
  fds = fds;
  cwd = b'/' ∷ [];
  umask = 0o022;
  sigact = replicate nsig default_action;
  sigmask = 0;
  exe = [];
  comm = [];
}

-- A signal number that is not positive has the default action.
unfoldable pub action : Task → ℤ → SigAction
action t (negsuc n) = default_action
action t (pos zero) = default_action
action t (pos (suc n)) = elim (get_elem? t.sigact (suc n)) [ none ↦ default_action | some a ↦ a ]

unfoldable pub set_action : Task → ℤ → SigAction → Task
set_action t (negsuc n) a = t
set_action t (pos zero) a = t
set_action t (pos (suc n)) a = record t { sigact = set t.sigact (suc n) a }

unfoldable pub reset_handlers_for_exec : Task → Task
reset_handlers_for_exec t = record t {
  sigact = map (λ a. if a.handler == sig_ign then a else default_action) t.sigact;
}

unfoldable pub default_ignored : ℕ → Bool
default_ignored sig =
    sig == sigchld
    || (sig == sigurg
        || (sig == sigwinch
            || (sig == sigcont
                || (sig == sigstop || (sig == sigtstp || (sig == sigttin || sig == sigttou))))))

unfoldable pub default_kills : ℕ → Bool
unfolding default_ignored
default_kills sig = not (default_ignored sig)

unfoldable pub is_ignored : SigAction → ℕ → Bool
unfolding default_ignored
is_ignored a sig = a.handler == sig_ign || (a.handler == sig_dfl && default_ignored sig)

unfoldable pub bit : ℤ → ℕ
bit (negsuc n) = 0
bit (pos n) = if ltb 0 n && ltb n nsig then 2 ^ n else 0

unfoldable pub raise : ProcRecord → ℤ → ProcRecord
unfolding bit
raise r (negsuc n) = r
raise r (pos n) =
    if ltb 0 n && ltb n nsig then record r { pending = bit_or r.pending (bit (pos n)) } else r

unfoldable pub is_alive : ProcRecord → Bool
is_alive r = elim r.exit [ none ↦ true | some status ↦ false ]

unfoldable pub new_record : ℤ → ℤ → ℤ → ℤ → Bytes → ProcRecord
new_record pid ppid pgid sid comm = record {
  pid = pid;
  ppid = ppid;
  pgid = pgid;
  sid = sid;
  pending = 0;
  exit = none;
  wake_at = none;
  comm = comm;
}

-- One round of the loop of `triage`, for the signal `sig`.
unfoldable pub triage_one : ℕ → ℕ → Task → ℕ → ℕ × ℕ → ℕ × ℕ
unfolding bit is_ignored action
triage_one pending mask t sig (live, discard) =
    let b = bit (pos sig) in
    if bit_and pending b == 0
    then (live, discard)
    else if is_ignored (action t (pos sig)) sig
    then (live, bit_or discard b)
    else if bit_and mask b == 0 || (sig == sigkill || sig == sigstop)
    then (bit_or live b, discard)
    else (live, discard)

-- The loop from the signal `sig` on, with `rounds` signals to go.
unfoldable pub triage_from : ℕ → ℕ → ℕ → Task → ℕ → ℕ × ℕ → ℕ × ℕ
unfolding triage_one
triage_from zero pending mask t sig acc = acc
triage_from (suc rounds) pending mask t sig acc =
    triage_from rounds pending mask t (sig + 1) (triage_one pending mask t sig acc)

unfoldable pub triage : ℕ → ℕ → Task → ℕ × ℕ
unfolding triage_from
triage pending mask t =
    if pending == 0 then (0, 0) else triage_from (nsig - 1) pending mask t 1 (0, 0)

unfoldable pub status_exited : ℤ → ℤ
status_exited code = pos (bit_and (as_u32 code) 0xff * 2 ^ 8)

unfoldable pub status_signaled : ℤ → ℤ
status_signaled sig = pos (bit_and (as_u32 sig) 0x7f)
