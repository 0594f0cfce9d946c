-- ===== src/Linux/Os.antt =====
-- crates/ruxeon-linux/src/lib.rs: what the system calls ask of the standard library and of the host. The answers may
-- depend on the host's state, and those that change it return the new one.
use ruxeon.Common.{ℕ, Bool, Option, List, Result}
use ruxeon.Errno.{SyscallError, errno, no_ent, acces, exist, inval, again, io}
use ruxeon.Fd.{TryClone}
use ruxeon.FdIo
use ruxeon.RootFs

-- `io::ErrorKind`, as far as the code tells the kinds apart.
pub data IoErrorKind : Type 0 where
  not_found permission_denied already_exists invalid_input would_block other_kind : IoErrorKind

unfoldable pub map_io_errno : IoErrorKind → SyscallError
map_io_errno not_found = errno no_ent
map_io_errno permission_denied = errno acces
map_io_errno already_exists = errno exist
map_io_errno invalid_input = errno inval
map_io_errno would_block = errno again
map_io_errno other_kind = errno io

pub record TerminalSize : Type 0 where
  pub rows : ℕ
  pub cols : ℕ
  pub xpixel : ℕ
  pub ypixel : ℕ

-- `fs::Metadata`: what the code reads of it. The time is that since the epoch, where there is one.
pub record Metadata : Type 0 where
  pub len : ℕ
  pub is_dir : Bool
  pub readonly : Bool
  pub modified : Option (ℕ × ℕ)

-- `OpenOptions`.
pub record OpenOptions : Type 0 where
  pub can_read : Bool
  pub can_write : Bool
  pub create : Bool
  pub truncate : Bool
  pub append : Bool

-- An entry that `read_dir` yields: its name, and whether its type says a directory.
pub record HostDirEntry : Type 0 where
  pub name : List ℕ
  pub file_type : Result IoErrorKind Bool

pub data SeekFrom : Type 0 where
  start : ℕ → SeekFrom
  end : ℕ → SeekFrom

pub record Os (File World : Type 0) : Type 0 where
  pub files : FdIo.Host File World
  pub try_clone : World → TryClone File
  pub root_view : List ℕ → World → RootFs.Host
  pub has_prefix : List ℕ → Bool
  pub push : List ℕ → List ℕ → List ℕ
  pub is_utf8 : List ℕ → Bool
  pub is_dir : List ℕ → World → Bool
  pub exists : List ℕ → World → Bool
  pub create_dir : List ℕ → World → Result IoErrorKind (Unit {0}) × World
  pub remove_dir : List ℕ → World → Result IoErrorKind (Unit {0}) × World
  pub remove_file : List ℕ → World → Result IoErrorKind (Unit {0}) × World
  pub open_file : OpenOptions → List ℕ → World → Result IoErrorKind File × World
  pub stream_position : File → World → Result IoErrorKind ℕ × World
  pub seek : File → SeekFrom → World → Result IoErrorKind (Unit {0}) × World
  pub read_dir : List ℕ → World → Result IoErrorKind (List (Result IoErrorKind HostDirEntry))
  pub read_link : List ℕ → World → Result IoErrorKind (List ℕ)
  pub metadata : List ℕ → World → Result IoErrorKind Metadata
  pub file_metadata : File → World → Result IoErrorKind Metadata
  -- `DefaultHasher` over the metadata's fields and the path.
  pub hash : Metadata → Option (List ℕ) → ℕ
  -- Seconds and nanoseconds since the epoch.
  pub now : World → Option (ℕ × ℕ)
  pub sleep : ℕ × ℕ → World → World
  pub terminal_size : World → Option TerminalSize
  pub set_raw_mode : Bool → World → Result IoErrorKind (Unit {0}) × World
