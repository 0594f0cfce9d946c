-- ===== src/FdIo.antt =====
-- crates/ruxeon-linux/src/lib.rs: the operations of `FdTable` that move bytes: pipes, reads, writes and polling. The
-- shared buffers and the host's side are threaded through.
pub mod Pipes
mod Tests
use ruxeon.Common.{
  ℕ, ◌+◌, ◌-◌, Bool, true, false, not, ◌&&◌, Option, none, some, List, [], ◌∷◌, ◌++◌, bit_and,
  bit_or, min, length, take, drop, modify_at, ◌==◌, if◌then◌else◌, Result, ok, err,
}
use ruxeon.Common.Dict.{nat_eq, get, modify}
use ruxeon.Errno.{SyscallError, errno, badf, again}
use ruxeon.VirtualFile
use ruxeon.Fd.{
  FdEntry, stdin, stdout, stderr, file, directory, virtual, pipe_read, pipe_write, buffer, FdSlot,
  VirtualFd, new_slot, with_close_on_exec, is_nonblocking, contents_of, read_virtual, read_ready,
  write_ready_entry,
}
use ruxeon.FdTable.{FdTable, insert_slot}

-- What the host answers, with its state threaded through; errors are mapped to errnos.
pub record Host (File World : Type 0) : Type 0 where
  pub stdin_ready : World → Result SyscallError Bool × World
  pub stdin_read : ℕ → World → Result SyscallError (List ℕ) × World
  pub stdout_write : List ℕ → World → Result SyscallError (Unit {0}) × World
  pub stderr_write : List ℕ → World → Result SyscallError (Unit {0}) × World
  pub file_read : File → ℕ → World → Result SyscallError (List ℕ) × World
  pub file_write : File → List ℕ → World → Result SyscallError ℕ × World
  pub nanos : World → ℕ

pub record Files (File World : Type 0) : Type 0 where
  pub table : FdTable File
  pub buffers : List (List ℕ)
  pub world : World

module _ {File World : Type 0} where
  unfoldable pub pipe : Bool → Files File World → (ℕ × ℕ) × Files File World
  unfolding insert_slot new_slot with_close_on_exec
  pipe close_on_exec s =
      let b = length s.buffers in
      let (read_fd, t) =
        insert_slot (with_close_on_exec (new_slot (pipe_read b)) close_on_exec) s.table in
      let (write_fd, t') =
        insert_slot (with_close_on_exec (new_slot (pipe_write b)) close_on_exec) t in
      ((read_fd, write_fd), record s { table = t'; buffers = s.buffers ++ [] ∷ [] })

  -- Up to `len` bytes leave the front of a shared buffer.
  unfoldable pub drain : ℕ → ℕ → Files File World → Result SyscallError (List ℕ) × Files File World
  drain b len s =
      let bytes = contents_of b s.buffers in
      let count = min len (length bytes) in
      (ok (take count bytes), record s { buffers = modify_at b (drop count) s.buffers })

  unfoldable pub append_to :
      ℕ → List ℕ → Files File World → Result SyscallError ℕ × Files File World
  append_to b bytes s =
      (ok (length bytes), record s { buffers = modify_at b (λ old. old ++ bytes) s.buffers })

  abbrev pub with_world : {A : Type 0} → Files File World → A × World → A × Files File World
  with_world s (a, w) = (a, record s { world = w })

  abbrev pub put_entry : ℕ → FdEntry File → Files File World → Files File World
  put_entry fd entry s = record s {
    table = record (s.table) {
      entries = modify fd (λ slot. record slot { entry = entry }) s.table.entries;
    };
  }

  module _ (host : Host File World) where
    -- Standard input is asked for its readiness first where it does not block.
    unfoldable pub read_stdin :
        Bool → ℕ → Files File World → Result SyscallError (List ℕ) × Files File World
    read_stdin nonblocking len s =
        if nonblocking
        then (let (r, w) = host.stdin_ready s.world in
            elim r [
              | err e ↦ (err e, record s { world = w })
              | ok ready ↦
                  if ready
                  then with_world s (host.stdin_read len w)
                  else (err (errno again), record s { world = w })
            ])
        else with_world s (host.stdin_read len s.world)

    unfoldable pub read_entry :
        ℕ
        → Bool
        → ℕ
        → FdEntry File
        → Files File World
        → Result SyscallError (List ℕ) × Files File World
    unfolding read_stdin drain read_virtual
    read_entry fd nonblocking len stdin s = read_stdin nonblocking len s
    read_entry fd nonblocking len (file f) s = with_world s (host.file_read f len s.world)
    read_entry fd nonblocking len (virtual v) s =
        let (bytes, v') = read_virtual (host.nanos s.world) len v in
        (ok bytes, put_entry fd (virtual v') s)
    read_entry fd nonblocking len (pipe_read b) s = drain b len s
    read_entry fd nonblocking len (buffer b) s = drain b len s
    read_entry fd nonblocking len stdout s = (err (errno badf), s)
    read_entry fd nonblocking len stderr s = (err (errno badf), s)
    read_entry fd nonblocking len (pipe_write b) s = (err (errno badf), s)
    read_entry fd nonblocking len (directory d) s = (err (errno badf), s)

    unfoldable pub read : ℕ → ℕ → Files File World → Result SyscallError (List ℕ) × Files File World
    unfolding read_entry
    read fd len s = elim (get fd s.table.entries) [
      | none ↦ (err (errno badf), s)
      | some slot ↦ read_entry fd (is_nonblocking slot) len slot.entry s
    ]

    -- A write to a standard stream reports the whole length once the host has taken it.
    abbrev pub all_written :
        List ℕ
        → Files File World
        → Result SyscallError (Unit {0}) × World
        → Result SyscallError ℕ × Files File World
    all_written bytes s (ok _, w) = (ok (length bytes), record s { world = w })
    all_written bytes s (err e, w) = (err e, record s { world = w })

    unfoldable pub write_entry :
        List ℕ → FdEntry File → Files File World → Result SyscallError ℕ × Files File World
    unfolding append_to VirtualFile.write
    write_entry bytes stdout s = all_written bytes s (host.stdout_write bytes s.world)
    write_entry bytes stderr s = all_written bytes s (host.stderr_write bytes s.world)
    write_entry bytes (file f) s = with_world s (host.file_write f bytes s.world)
    write_entry bytes (virtual v) s = (ok (VirtualFile.write v.file bytes), s)
    write_entry bytes (pipe_write b) s = append_to b bytes s
    write_entry bytes (buffer b) s = append_to b bytes s
    write_entry bytes stdin s = (err (errno badf), s)
    write_entry bytes (pipe_read b) s = (err (errno badf), s)
    write_entry bytes (directory d) s = (err (errno badf), s)

    unfoldable pub write : ℕ → List ℕ → Files File World → Result SyscallError ℕ × Files File World
    unfolding write_entry
    write fd bytes s = elim (get fd s.table.entries) [
      | none ↦ (err (errno badf), s)
      | some slot ↦ write_entry bytes slot.entry s
    ]

  -- `ready` is what the host says of standard input.
  unfoldable pub poll_events : Bool → ℕ → ℕ → Files File World → ℕ
  unfolding read_ready write_ready_entry
  poll_events ready fd requested s = elim (get fd s.table.entries) [
    | none ↦ 0x020
    | some slot ↦
        let readable =
          if not (bit_and requested 0x001 == 0) && read_ready ready s.buffers slot
          then 0x001
          else 0 in
        if not (bit_and requested 0x004 == 0) && write_ready_entry slot.entry
        then bit_or readable 0x004
        else readable
  ]
