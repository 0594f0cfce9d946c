-- ===== src/Linux/Transfer.antt =====
-- crates/ruxeon-linux/src/lib.rs: the system calls that move bytes between descriptors and the memory: `readv`,
-- `writev`, `sendfile` and `poll`. A count in `usize` stands for a loop of as many rounds.
use ruxeon.Common.{
  ℕ, zero, suc, ◌+◌, ◌-◌, min, bit_and, Bool, true, false, not, ◌&&◌, Option, none, some, List, [],
  ◌∷◌, ltb, ◌==◌, if◌then◌else◌, length, drop, position, Result, ok, err,
}
use ruxeon.Common.Actions.{pure, ◌>>=◌, ◌>>◌}
use ruxeon.Common.Dict.{nat_eq, get}
use ruxeon.Access.{read_bytes, write_bytes, read_word, write_word}
use ruxeon.Errno.{SyscallError, io}
use ruxeon.Fd.{FdEntry, is_nonblocking, stdin}
use ruxeon.FdIo
use ruxeon.FdIo.{poll_events}
use ruxeon.Linux.Os.{Os}
use ruxeon.Linux.Terminal.{plus}
use ruxeon.Linux.State.{System, Handler, with_memory, from_memory, with_files, fail_when}
use ruxeon.Linux.Heap.{read_sendfile_chunk}

abbrev is_stdin : {File : Type 0} → FdEntry File → Bool
is_stdin stdin = true
is_stdin _ = false

abbrev unwrap_or : Bool → Result SyscallError Bool → Bool
unwrap_or default (ok b) = b
unwrap_or default (err _) = default

module _ {File World : Type 0} (os : Os File World) where
  abbrev pub read_fd : ℕ → ℕ → Handler File World (List ℕ)
  read_fd fd len = with_files (FdIo.read os.files fd len)

  abbrev pub write_fd : ℕ → List ℕ → Handler File World ℕ
  write_fd fd bytes = with_files (FdIo.write os.files fd bytes)

  -- The host is asked about standard input only where that may not block.
  abbrev asks_stdin : ℕ → ℕ → System File World → Bool
  asks_stdin fd events s = elim (get fd s.process.fd_table.entries) [
    | none ↦ false
    | some slot ↦ not (bit_and events 0x001 == 0) && is_stdin slot.entry && is_nonblocking slot
  ]

  unfoldable pub poll_fd : ℕ → ℕ → Handler File World ℕ
  unfolding poll_events
  poll_fd fd events s =
      let (ready, w) = os.files.stdin_ready s.world in
      let s' = record s { world = if asks_stdin fd events s then w else s.world } in
      with_files (λ files. (ok (poll_events (unwrap_or false ready) fd events files), files)) s'

  unfoldable pub poll_fds_from : ℕ → ℕ → ℕ → Handler File World ℕ
  unfolding read_word poll_fd write_word
  poll_fds_from zero base ready = pure ready
  poll_fds_from (suc n) base ready = do
    fd ← from_memory (read_word 4 base)
    events ← from_memory (read_word 2 (plus base 4))
    revents ← poll_fd fd events
    with_memory (write_word 2 (plus base 6) revents)
    poll_fds_from n (plus base 8) (if revents == 0 then ready else ready + 1)

  unfoldable pub poll_fds : ℕ → ℕ → Handler File World ℕ
  unfolding poll_fds_from
  poll_fds addr count = poll_fds_from count addr 0

  unfoldable pub writev_from : ℕ → ℕ → ℕ → ℕ → Handler File World ℕ
  unfolding read_word read_bytes FdIo.write
  writev_from fd zero entry total = pure total
  writev_from fd (suc n) entry total = do
    base ← from_memory (read_word 8 entry)
    len ← from_memory (read_word 8 (plus entry 8))
    written ←
        if len == 0
        then pure 0
        else (do bytes ← from_memory (read_bytes base len); write_fd fd bytes)
    writev_from fd n (plus entry 16) (total + written)

  unfoldable pub writev : ℕ → ℕ → ℕ → Handler File World ℕ
  unfolding writev_from
  writev fd iov_addr iov_count = writev_from fd iov_count iov_addr 0

  -- A read that is short ends the loop.
  unfoldable pub readv_from : ℕ → ℕ → ℕ → ℕ → Handler File World ℕ
  unfolding read_word write_bytes FdIo.read
  readv_from fd zero entry total = pure total
  readv_from fd (suc n) entry total = do
    base ← from_memory (read_word 8 entry)
    len ← from_memory (read_word 8 (plus entry 8))
    elim (len == 0) [
      | true ↦ readv_from fd n (plus entry 16) total
      | false ↦ (do
        bytes ← read_fd fd len
        with_memory (write_bytes base bytes)
        elim (ltb (length bytes) len) [
          | true ↦ pure (total + length bytes)
          | false ↦ readv_from fd n (plus entry 16) (total + length bytes)
        ])
    ]

  unfoldable pub readv : ℕ → ℕ → ℕ → Handler File World ℕ
  unfolding readv_from
  readv fd iov_addr iov_count = readv_from fd iov_count iov_addr 0

  -- The inner loop of `sendfile`: each write takes at least one byte, so that there are no more rounds than bytes.
  unfoldable pub write_chunk : ℕ → ℕ → List ℕ → Handler File World (Unit {0})
  unfolding FdIo.write
  write_chunk fd zero bytes = pure tt
  write_chunk fd (suc n) [] = pure tt
  write_chunk fd (suc n) (b ∷ bs) = do
    count ← write_fd fd (b ∷ bs)
    fail_when (count == 0) io
    write_chunk fd n (drop count (b ∷ bs))

  -- The outer loop, with so many bytes left: each round reads at least one of them or is the last.
  unfoldable pub send_from : ℕ → ℕ → ℕ → Option ℕ → ℕ → ℕ → Handler File World (ℕ × Option ℕ)
  unfolding read_sendfile_chunk write_chunk
  send_from zero out_fd in_fd position total count = pure (total, position)
  send_from (suc n) out_fd in_fd position total count = elim (ltb total count) [
    | false ↦ pure (total, position)
    | true ↦ (do
      (bytes, position') ← read_sendfile_chunk os in_fd position (min (count - total) 8192)
      elim (length bytes == 0) [
        | true ↦ pure (total, position')
        | false ↦ (do
          write_chunk out_fd (length bytes) bytes
          send_from n out_fd in_fd position' (total + length bytes) count)
      ])
  ]

  unfoldable pub sendfile : ℕ → ℕ → ℕ → ℕ → Handler File World ℕ
  unfolding read_word send_from write_word
  sendfile out_fd in_fd offset_addr count = if count == 0 then pure 0 else (do
    requested ←
        if offset_addr == 0
        then pure none
        else (do value ← from_memory (read_word 8 offset_addr); pure (some value))
    (total, position) ← send_from count out_fd in_fd requested 0 count
    elim position [
      | none ↦ pure total
      | some value ↦ (do with_memory (write_word 8 offset_addr value); pure total)
    ])
