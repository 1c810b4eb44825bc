-- ===== src/Syscall/Poll/Tests.antt =====
-- poll(2) and select(2) on the two ends of an empty pipe, and the timeout of a poll.
use wasmux.Prelude.{
  Bool, List, ℕ, ◌+◌, ◌*◌, ◌≡◌, ◌≢◌, ◌↔◌, refl, arith, true, false, some, [], ◌∷◌, ◌++◌, ok, err,
  pos, replicate,
}
use wasmux.Desc.{Bytes, DescKind, new, new_pipe, readable, writable, is_nonblocking}
use wasmux.Fd.{get}
use wasmux.Slab
use wasmux.Task
use wasmux.Ctx.{Ctx, block}
use wasmux.Syscall.Streams.{read_bytes, write_bytes}
use wasmux.Syscall.Tests.{start, read_end, write_end, at_end}
use wasmux.Syscall.Poll.{Clock, poll_fd, pollin, pollout, sys_ppoll}
use wasmux.Syscall.Poll.Select.{read_fd_set, write_fd_set, sys_pselect}
use wasmux.Syscall.Poll.Bitmaps.{read_fd_set-write_fd_set}
use wasmux.Syscall.Poll.Truth.{poll_pipe}
use wasmux.Syscall.Poll.Wake.{sys_ppoll-wakes}

poll_pipe_example :
    ((poll_fd start (pos 0) pollin ≡ 0) ↔ ((read_bytes at_end [] 1 start (pos 0) 4).1 ≡ err block))
    × ((poll_fd start (pos 1) pollout ≡ 0)
        ↔ ((write_bytes at_end [] 1 start (pos 1) (7 ∷ [])).1 ≡ err block))
unfolding get Task.new new Slab.get new_pipe writable readable is_nonblocking
poll_pipe_example =
    poll_pipe at_end [] 1 start (pos 0) (pos 1) 0 read_end write_end new_pipe 4 (7 ∷ []) refl refl
      refl refl refl (omega arith)

-- The read end at 0, its input asked for; then one second.
abbrev asking : Bytes
asking = (0 ∷ 0 ∷ 0 ∷ 0 ∷ 1 ∷ 0 ∷ 0 ∷ 0 ∷ []) ++ (1 ∷ replicate 15 0)

abbrev poller : Ctx ℕ
poller = record start { memory = asking }

abbrev early : Clock
early = record { checked_add = λ d. some (d.secs * 1000 + 5); fallback = 5; now = 5 }

sys_ppoll-wakes_example :
    (at : ℕ) × ((sys_ppoll early poller 0 1 8).0.deadline ≡ some at)
    × ((n : ℕ)
        → (sys_ppoll (record early { now = at + n }) (sys_ppoll early poller 0 1 8).0 0 1 8).1
          ≢ err block)
unfolding sys_ppoll get Task.new new Slab.get new_pipe
sys_ppoll-wakes_example =
    sys_ppoll-wakes early early poller (sys_ppoll early poller 0 1 8).0 0 1 8 refl refl refl

-- Without a timeout, a poll on an open standard input tells the host that input is wanted, and a
-- select that waits for the same descriptor does not.
abbrev at_terminal : Ctx ℕ
at_terminal = record poller {
  shared = record (poller.shared) {
    descs = record { slots = some (new DescKind.stdin [] 0) ∷ []; free = [] };
  };
  memory = asking ++ (1 ∷ replicate 7 0);
}

polled :
    ((sys_ppoll early at_terminal 0 1 0).1 ≡ err block)
    × ((sys_ppoll early at_terminal 0 1 0).0.shared.stdin.wanted ≡ true)
unfolding sys_ppoll new get Task.new Slab.get
polled = (refl, refl)

selected :
    ((sys_pselect early at_terminal (pos 1) 24 0 0 0).1 ≡ err block)
    × ((sys_pselect early at_terminal (pos 1) 24 0 0 0).0.shared.stdin.wanted ≡ false)
unfolding sys_pselect new get Task.new Slab.get
selected = (refl, refl)

-- Descriptor 33 is in the second word.
abbrev asked : List Bool
asked = replicate 33 false ++ (true ∷ [])

read_fd_set-write_fd_set_example :
    read_fd_set (write_fd_set (replicate 16 0) 4 asked).0 4 34 ≡ ok asked
unfolding write_fd_set
read_fd_set-write_fd_set_example =
    read_fd_set-write_fd_set (replicate 16 0) 4 asked (omega arith) (omega arith) refl
