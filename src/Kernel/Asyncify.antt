-- ===== src/Kernel/Asyncify.antt =====
-- crates/wasmux/src/kernel/mod.rs, `read_asyncify_stack`, `write_asyncify_stack` and the module
-- `imports`: what a guest enters the kernel by, and how its stack is saved and put back.
-- A `Suspend` is an instance of the engine: the operations on its stack are parameters. The trace
-- that an environment variable asks for is left out.
pub mod Laws
use wasmux.Prelude.{
  ℕ, zero, suc, ◌+◌, ◌-◌, ◌*◌, ◌%◌, ◌^◌, min, Bool, true, false, Option, none, some, List, [], ◌∷◌,
  ◌++◌, ltb, leb, ◌==◌, ◌||◌, if◌then◌else◌, ℤ, pos, as_i32, as_u32, Result, ok, err, length, take,
  drop, map,
}
use wasmux.Errno.{Errno, VfsResult, as_neg, toobig}
use wasmux.Desc.{Bytes}
use wasmux.Mem.{put, put_u32, read_u32, from_le_bytes}
use wasmux.Ctx.{Ctx}
use wasmux.Syscall.Memory.{page_bytes}
use wasmux.Syscall.Signals.{Outcome, offset, put_or_keep}
use wasmux.Syscall.Signals.Delivery.{SignalDelivery}
use wasmux.Kernel.{Suspension, ExecState}
use wasmux.Kernel.Start.{asyncify_pages}

-- `read_asyncify_stack`: from the header's first word, where the next entry would go.
unfoldable pub read_asyncify_stack : Bytes → ℕ → Bytes
unfolding from_le_bytes
read_asyncify_stack m area =
    if ltb (length m) (area + 8)
    then []
    else let end = from_le_bytes (take 4 (drop area m)) in
      if leb end area || ltb (length m) end then [] else take (end - area) (drop area m)

-- `write_asyncify_stack`
unfoldable pub write_asyncify_stack : Bytes → ℕ → Bytes → Option Bytes
write_asyncify_stack m area snapshot =
    if leb (area + length snapshot) (length m)
    then some (take area m ++ (snapshot ++ drop (area + length snapshot) m))
    else none

-- The trait `Suspend` without the memory, which is the context's.
pub record Suspend (I : Type 0) : Type 0 where
  pub stack_pointer : I → ℕ
  pub set_stack_pointer : I → ℕ → I
  pub start_unwind : I → ℕ → I
  pub stop_rewind : I → I

-- What an import works on.
pub record Guest (F I : Type 0) : Type 0 where
  pub ctx : Ctx F
  pub exec : ExecState
  pub instance_state : I

-- The six arguments of a call, or the fault of the first that cannot be read.
unfoldable pub read_args : Bytes → ℕ → ℕ → VfsResult (List ℤ)
unfolding read_u32
read_args m at zero = ok []
read_args m at (suc n) = elim (read_u32 m at) [
  | err e ↦ err e
  | ok v ↦ elim (read_args m (offset at 4) n) [ err e ↦ err e | ok args ↦ ok (as_i32 v ∷ args) ]
]

-- `u32::saturating_add`
abbrev pub add_u32 : ℕ → ℕ → ℕ
add_u32 a b = min (a + b) (2 ^ 32 - 1)

-- The header that `unwind` writes: where to write next, and where to stop. Faults are dropped.
unfoldable pub write_header : Bytes → ℕ → Bytes
unfolding put_u32
write_header m area =
    let size = page_bytes asyncify_pages - 8 in
    let first = put_or_keep (put_u32 m area (add_u32 area 8)) m in
    put_or_keep (put_u32 first (add_u32 area 4) (add_u32 (add_u32 area 8) size)) first

module _ {F I : Type 0} (s : Suspend I) where
  unfoldable pub unwind : Guest F I → Suspension → Guest F I
  unfolding write_header
  unwind g why =
      let area = g.exec.asyncify_data in
      record {
        ctx = record (g.ctx) { memory = write_header g.ctx.memory area };
        exec = record (g.exec) { suspension = some why };
        instance_state = s.start_unwind g.instance_state area;
      }

  unfoldable pub finish_rewind : Guest F I → Guest F I × ℤ
  finish_rewind g =
      let i = s.stop_rewind g.instance_state in
      let sp = g.exec.resume_sp in
      (
        record g {
          exec = record (g.exec) { rewinding = false };
          instance_state = if sp == 0 then i else s.set_stack_pointer i sp;
        },
        g.exec.resume_value,
      )

  -- `finish_rewind(ctx, s) as u32`
  unfoldable pub rewound : Guest F I → Guest F I × ℕ
  unfolding finish_rewind
  rewound g = let (g', v) = finish_rewind g in (g', as_u32 v)

  -- What `syscall_entry` does with the outcome of a call.
  unfoldable pub after_dispatch : Guest F I → ℤ → List ℤ → Outcome → Guest F I × ℕ
  unfolding unwind
  after_dispatch g number args (Outcome.value v) = (g, as_u32 v)
  after_dispatch g number args Outcome.blocked =
      let sp = s.stack_pointer g.instance_state in
      (
        unwind (record g { exec = record (g.exec) { resume_sp = sp } })
            (Suspension.blocked number args),
        0,
      )
  after_dispatch g number args (Outcome.exited status) = (unwind g (Suspension.exit status), 0)
  after_dispatch g number args Outcome.replaced = (unwind g Suspension.exec, 0)

  -- `wasmux.syscall`; `dispatch` is that of kernel/syscall.rs.
  unfoldable pub syscall_entry :
      (ℤ → List ℤ → Ctx F → Ctx F × Outcome) → Guest F I → ℕ → ℕ → Guest F I × ℕ
  unfolding rewound after_dispatch read_args
  syscall_entry dispatch g number args_ptr =
      if g.exec.rewinding then rewound g else elim (read_args g.ctx.memory args_ptr 6) [
        | err e ↦ (g, as_u32 (as_neg e))
        | ok args ↦
            let (c, outcome) = dispatch (as_i32 number) args g.ctx in
            after_dispatch (record g { ctx = c }) (as_i32 number) args outcome
      ]

  unfoldable pub setjmp_entry : Guest F I → ℕ → Guest F I × ℕ
  unfolding rewound unwind
  setjmp_entry g env =
      if g.exec.rewinding
      then rewound g
      else (unwind g (Suspension.setjmp env (s.stack_pointer g.instance_state)), 0)

  unfoldable pub longjmp_entry : Guest F I → ℕ → ℤ → Guest F I
  unfolding unwind
  longjmp_entry g env value = unwind g (Suspension.longjmp env value)

  unfoldable pub init_entry : Guest F I → ℕ → Guest F I
  init_entry g signal_flag = record g { ctx = record (g.ctx) { signal_flag = signal_flag } }

  -- `wasmux.args`, for the startup block that `start_block` lays out.
  unfoldable pub args_entry : Bytes → Guest F I → ℕ → ℕ → Guest F I × ℕ
  args_entry block g buffer capacity =
      if capacity == 0
      then (g, length block % 2 ^ 32)
      else if ltb capacity (length block)
      then (g, as_u32 (as_neg toobig))
      else elim (put g.ctx.memory buffer block) [
        | err e ↦ (g, as_u32 (as_neg e))
        | ok m ↦ (record g { ctx = record (g.ctx) { memory = m } }, length block % 2 ^ 32)
      ]

  -- `wasmux.sigfetch`; `next_signal` is that of kernel/syscall.rs.
  unfoldable pub sigfetch_entry :
      (Ctx F → ℕ → Ctx F × SignalDelivery) → Guest F I → ℕ → Guest F I × ℕ
  unfolding unwind
  sigfetch_entry next_signal g out =
      let (c, delivery) = next_signal g.ctx out in
      let g' : Guest F I = record g { ctx = c } in
      elim delivery [
        | SignalDelivery.no_signal ↦ (g', 0)
        | SignalDelivery.handler ↦ (g', 1)
        | SignalDelivery.fatal status ↦ (unwind g' (Suspension.exit status), 0)
      ]
