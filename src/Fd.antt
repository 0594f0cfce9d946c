-- ===== src/Fd.antt =====
-- crates/ruxeon-linux/src/lib.rs: `FdEntry`, `FdSlot`, `VirtualFd`, `DirectoryFd`. The type of host files is
-- a parameter; a buffer behind `Arc<Mutex<..>>` is a number into a store, so that copies share it.
use ruxeon.Common.{
  ℕ, ◌+◌, ◌-◌, Bool, true, false, not, none, some, List, [], ◌∷◌, bit_and, length, take, drop, min,
  get_elem?, ◌==◌, if◌then◌else◌, Result, ok, ◌>>=◌,
}
use ruxeon.Errno.{SyscallError}
use ruxeon.VirtualFile.{VirtualFile, dev_null, dev_zero, dev_random, dev_urandom}
use ruxeon.VirtualFile

pub record DirectoryEntry : Type 0 where
  pub name : List ℕ
  pub kind : ℕ

pub record DirectoryFd : Type 0 where
  pub path : List ℕ
  pub entries : List DirectoryEntry
  pub cursor : ℕ

pub record VirtualFd : Type 0 where
  pub file : VirtualFile
  pub contents : List ℕ
  pub cursor : ℕ

-- The data that `VirtualFd::new` keeps: none for the devices.
unfoldable pub kept_contents : ℕ → VirtualFile → List ℕ → List ℕ
kept_contents nanos dev_null exe = []
kept_contents nanos dev_zero exe = []
kept_contents nanos dev_random exe = []
kept_contents nanos dev_urandom exe = []
kept_contents nanos file exe = VirtualFile.read_bytes nanos file exe 0xffff_ffff_ffff_ffff

unfoldable pub open_virtual : ℕ → VirtualFile → List ℕ → VirtualFd
unfolding kept_contents
open_virtual nanos file exe = record {
  file = file;
  contents = kept_contents nanos file exe;
  cursor = 0;
}

unfoldable pub read_virtual_at : ℕ → ℕ → VirtualFile → VirtualFd → List ℕ × VirtualFd
read_virtual_at nanos len dev_null fd = ([], fd)
read_virtual_at nanos len dev_zero fd = (VirtualFile.read_bytes nanos dev_zero [] len, fd)
read_virtual_at nanos len dev_random fd = (VirtualFile.read_bytes nanos dev_random [] len, fd)
read_virtual_at nanos len dev_urandom fd = (VirtualFile.read_bytes nanos dev_urandom [] len, fd)
read_virtual_at nanos len _ fd =
    let count = min len (length fd.contents - fd.cursor) in
    (take count (drop fd.cursor fd.contents), record fd { cursor = fd.cursor + count })

-- `VirtualFd::read` into a buffer of `len` bytes.
unfoldable pub read_virtual : ℕ → ℕ → VirtualFd → List ℕ × VirtualFd
unfolding read_virtual_at
read_virtual nanos len fd = read_virtual_at nanos len fd.file fd

pub data FdEntry (File : Type 0) : Type 0 where
  stdin stdout stderr : FdEntry File
  file : File → FdEntry File
  directory : DirectoryFd → FdEntry File
  virtual : VirtualFd → FdEntry File
  pipe_read : ℕ → FdEntry File
  pipe_write : ℕ → FdEntry File
  buffer : ℕ → FdEntry File

pub record FdSlot (File : Type 0) : Type 0 where
  pub entry : FdEntry File
  pub close_on_exec : Bool
  pub status_flags : ℕ

abbrev pub o_nonblock : ℕ
o_nonblock = 0o4000

-- `file.try_clone()` with its error mapped to an errno; the host's.
abbrev pub TryClone : Type 0 → Type 0
TryClone File = File → Result SyscallError File

-- The contents of the shared buffers, by their numbers. A lock is never poisoned: the program
-- does not panic while it holds one.
abbrev pub contents_of : ℕ → List (List ℕ) → List ℕ
contents_of b buffers = elim (get_elem? buffers b) [ none ↦ [] | some bytes ↦ bytes ]

abbrev pub is_empty : List ℕ → Bool
is_empty [] = true
is_empty (x ∷ xs) = false

module _ {File : Type 0} where
  unfoldable pub new_slot : FdEntry File → FdSlot File
  new_slot entry = record { entry = entry; close_on_exec = false; status_flags = 0 }

  unfoldable pub with_close_on_exec : FdSlot File → Bool → FdSlot File
  with_close_on_exec slot close_on_exec = record slot { close_on_exec = close_on_exec }

  unfoldable pub duplicate_entry : TryClone File → FdEntry File → Result SyscallError (FdEntry File)
  duplicate_entry try_clone (file f) = do f' ← try_clone f; ok (file f')
  duplicate_entry try_clone stdin = ok stdin
  duplicate_entry try_clone stdout = ok stdout
  duplicate_entry try_clone stderr = ok stderr
  duplicate_entry try_clone (directory d) = ok (directory d)
  duplicate_entry try_clone (virtual v) = ok (virtual v)
  duplicate_entry try_clone (pipe_read b) = ok (pipe_read b)
  duplicate_entry try_clone (pipe_write b) = ok (pipe_write b)
  duplicate_entry try_clone (buffer b) = ok (buffer b)

  -- A duplicate keeps the status flags, and is not closed on exec.
  unfoldable pub duplicate_slot : TryClone File → FdSlot File → Result SyscallError (FdSlot File)
  unfolding duplicate_entry
  duplicate_slot try_clone slot = do
    entry ← duplicate_entry try_clone slot.entry
    ok (record { entry = entry; close_on_exec = false; status_flags = slot.status_flags })

  abbrev pub is_nonblocking : FdSlot File → Bool
  is_nonblocking slot = not (bit_and slot.status_flags o_nonblock == 0)

  -- `stdin_ready` is the host's answer, asked for only where standard input does not block.
  unfoldable pub read_ready_entry : Bool → Bool → List (List ℕ) → FdEntry File → Bool
  read_ready_entry nonblocking stdin_ready buffers stdin = if nonblocking then stdin_ready else true
  read_ready_entry nonblocking stdin_ready buffers (file f) = true
  read_ready_entry nonblocking stdin_ready buffers (virtual v) = true
  read_ready_entry nonblocking stdin_ready buffers (directory d) = true
  read_ready_entry nonblocking stdin_ready buffers (pipe_read b) =
      not (is_empty (contents_of b buffers))
  read_ready_entry nonblocking stdin_ready buffers (buffer b) =
      not (is_empty (contents_of b buffers))
  read_ready_entry nonblocking stdin_ready buffers stdout = false
  read_ready_entry nonblocking stdin_ready buffers stderr = false
  read_ready_entry nonblocking stdin_ready buffers (pipe_write b) = false

  unfoldable pub read_ready : Bool → List (List ℕ) → FdSlot File → Bool
  unfolding read_ready_entry
  read_ready stdin_ready buffers slot =
      read_ready_entry (is_nonblocking slot) stdin_ready buffers slot.entry

  unfoldable pub write_ready_entry : FdEntry File → Bool
  write_ready_entry stdout = true
  write_ready_entry stderr = true
  write_ready_entry (file f) = true
  write_ready_entry (virtual v) = true
  write_ready_entry (pipe_write b) = true
  write_ready_entry (buffer b) = true
  write_ready_entry _ = false
