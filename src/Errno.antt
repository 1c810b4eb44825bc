-- ===== src/Errno.antt =====
-- crates/wasmux/src/errno.rs: Linux error numbers, and the result of a fallible operation.
use Prim.Native.String.{String}
use wasmux.Prelude.{ℕ, ◌-◌, Bool, ◌==◌, if◌then◌else◌, ℤ, pos, negsuc, List, [], ◌∷◌, Result}

-- `pub struct Errno(pub i32)`, "always positive".
pub record Errno : Type 0 where
  pub code : ℕ

abbrev pub is : Errno → Errno → Bool
is e f = e.code == f.code

-- `wrapping_neg`; `i32::MIN` is no error number.
unfoldable pub as_neg : Errno → ℤ
as_neg e = if e.code == 0 then pos 0 else negsuc (e.code - 1)

abbrev pub VfsResult {ℓ} : Type ℓ → Type ℓ
VfsResult A = Result Errno A

abbrev pub perm : Errno
perm = record { code = 1 }

abbrev pub noent : Errno
noent = record { code = 2 }

abbrev pub srch : Errno
srch = record { code = 3 }

abbrev pub intr : Errno
intr = record { code = 4 }

abbrev pub io : Errno
io = record { code = 5 }

abbrev pub nxio : Errno
nxio = record { code = 6 }

abbrev pub toobig : Errno
toobig = record { code = 7 }

abbrev pub noexec : Errno
noexec = record { code = 8 }

abbrev pub badf : Errno
badf = record { code = 9 }

abbrev pub child : Errno
child = record { code = 10 }

abbrev pub again : Errno
again = record { code = 11 }

abbrev pub nomem : Errno
nomem = record { code = 12 }

abbrev pub acces : Errno
acces = record { code = 13 }

abbrev pub fault : Errno
fault = record { code = 14 }

abbrev pub busy : Errno
busy = record { code = 16 }

abbrev pub exist : Errno
exist = record { code = 17 }

abbrev pub xdev : Errno
xdev = record { code = 18 }

abbrev pub nodev : Errno
nodev = record { code = 19 }

abbrev pub notdir : Errno
notdir = record { code = 20 }

abbrev pub isdir : Errno
isdir = record { code = 21 }

abbrev pub inval : Errno
inval = record { code = 22 }

abbrev pub nfile : Errno
nfile = record { code = 23 }

abbrev pub mfile : Errno
mfile = record { code = 24 }

abbrev pub notty : Errno
notty = record { code = 25 }

abbrev pub fbig : Errno
fbig = record { code = 27 }

abbrev pub nospc : Errno
nospc = record { code = 28 }

abbrev pub spipe : Errno
spipe = record { code = 29 }

abbrev pub rofs : Errno
rofs = record { code = 30 }

abbrev pub mlink : Errno
mlink = record { code = 31 }

abbrev pub pipe : Errno
pipe = record { code = 32 }

abbrev pub range : Errno
range = record { code = 34 }

abbrev pub nametoolong : Errno
nametoolong = record { code = 36 }

abbrev pub nosys : Errno
nosys = record { code = 38 }

abbrev pub notempty : Errno
notempty = record { code = 39 }

abbrev pub loop : Errno
loop = record { code = 40 }

abbrev pub overflow : Errno
overflow = record { code = 75 }

abbrev pub notsock : Errno
notsock = record { code = 88 }

abbrev pub notsup : Errno
notsup = record { code = 95 }

abbrev pub timedout : Errno
timedout = record { code = 110 }

-- The table that the macro `errnos!` expands to.
abbrev pub table : List (ℕ × String)
table =
    (1, "EPERM")
    ∷ (2, "ENOENT")
    ∷ (3, "ESRCH")
    ∷ (4, "EINTR")
    ∷ (5, "EIO")
    ∷ (6, "ENXIO")
    ∷ (7, "ETOOBIG")
    ∷ (8, "ENOEXEC")
    ∷ (9, "EBADF")
    ∷ (10, "ECHILD")
    ∷ (11, "EAGAIN")
    ∷ (12, "ENOMEM")
    ∷ (13, "EACCES")
    ∷ (14, "EFAULT")
    ∷ (16, "EBUSY")
    ∷ (17, "EEXIST")
    ∷ (18, "EXDEV")
    ∷ (19, "ENODEV")
    ∷ (20, "ENOTDIR")
    ∷ (21, "EISDIR")
    ∷ (22, "EINVAL")
    ∷ (23, "ENFILE")
    ∷ (24, "EMFILE")
    ∷ (25, "ENOTTY")
    ∷ (27, "EFBIG")
    ∷ (28, "ENOSPC")
    ∷ (29, "ESPIPE")
    ∷ (30, "EROFS")
    ∷ (31, "EMLINK")
    ∷ (32, "EPIPE")
    ∷ (34, "ERANGE")
    ∷ (36, "ENAMETOOLONG")
    ∷ (38, "ENOSYS")
    ∷ (39, "ENOTEMPTY")
    ∷ (40, "ELOOP")
    ∷ (75, "EOVERFLOW")
    ∷ (88, "ENOTSOCK")
    ∷ (95, "ENOTSUP")
    ∷ (110, "ETIMEDOUT")
    ∷ []

lookup_name : ℕ → List (ℕ × String) → String
lookup_name code [] = "E?"
lookup_name code ((n, s) ∷ rest) = if code == n then s else lookup_name code rest

pub name : Errno → String
unfolding lookup_name
name e = lookup_name e.code table
