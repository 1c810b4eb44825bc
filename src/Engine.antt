-- ===== src/Engine.antt =====
-- crates/wasmux/src/engine/mod.rs: what can go wrong in an engine, and how a guest comes back.
use wasmux.Prelude.{ℕ, codes}
use wasmux.Desc.{Bytes}
use wasmux.Errno.{Errno, noent, nomem, noexec}

pub data LoadError : Type 0 where
  not_found : Bytes → LoadError
  not_wasm : LoadError
  missing_export : Bytes → LoadError
  abi_mismatch : ℕ → ℕ → LoadError
  engine : Bytes → LoadError
  out_of_memory : LoadError

-- `LoadError::errno`
unfoldable pub load_errno : LoadError → Errno
load_errno (LoadError.not_found name) = noent
load_errno LoadError.out_of_memory = nomem
load_errno _ = noexec

pub data TrapKind : Type 0 where
  out_of_bounds exhaustion fault : TrapKind

-- `TrapKind::as_str`
unfoldable pub as_str : TrapKind → Bytes
as_str TrapKind.out_of_bounds = codes "out of bounds memory access"
as_str TrapKind.exhaustion = codes "call stack exhausted"
as_str TrapKind.fault = codes "illegal instruction"

-- Why `_start` came back.
pub data Exit : Type 0 where
  returned : Exit
  trap : TrapKind → Exit
