-- ===== src/Errno.antt =====
-- crates/ruxeon-linux/src/lib.rs: `Errno` and `SyscallError`.
use ruxeon.Common.{ℕ}
use ruxeon.Region.{GuestMemoryError}

pub data Errno : Type 0 where
  perm no_ent intr io nx_io badf child again no_mem acces fault busy exist not_dir is_dir : Errno
  inval m_file no_tty pipe loop no_sys no_data nam_too_long : Errno

-- The discriminant; `linux_return` is its negation.
abbrev pub errno_code : Errno → ℕ
errno_code perm = 1
errno_code no_ent = 2
errno_code intr = 4
errno_code io = 5
errno_code nx_io = 6
errno_code badf = 9
errno_code child = 10
errno_code again = 11
errno_code no_mem = 12
errno_code acces = 13
errno_code fault = 14
errno_code busy = 16
errno_code exist = 17
errno_code not_dir = 20
errno_code is_dir = 21
errno_code inval = 22
errno_code m_file = 24
errno_code no_tty = 25
errno_code pipe = 32
errno_code loop = 40
errno_code no_sys = 38
errno_code no_data = 61
errno_code nam_too_long = 36

pub data SyscallError : Type 0 where
  memory : GuestMemoryError → SyscallError
  errno : Errno → SyscallError
