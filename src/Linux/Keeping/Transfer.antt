-- ===== src/Linux/Keeping/Transfer.antt =====
-- The transfers between descriptors and the memory.
use ruxeon.Common.{ℕ, zero, suc, ◌+◌, ◌-◌, min, Option, List, [], ◌∷◌, ltb, ◌==◌, length}
use ruxeon.Access.{write_bytes, read_word}
use ruxeon.FdIo
use ruxeon.Linux.Os.{Os}
use ruxeon.Linux.Terminal.{plus}
use ruxeon.Linux.Keeping.{
  with_table-Same, pure-Keeps, from_memory-Keeps, with_files-Keeps, if-Keeps, elim_Bool-Keeps,
  elim_Option-Keeps, bind-Keeps, with_memory-Keeps, Keeps, keeping,
}
use ruxeon.Linux.Keeping.Basics.{read_sendfile_chunk-Keeps}
use ruxeon.Linux.Transfer.{
  poll_fd, poll_fds_from, poll_fds, writev_from, writev, readv_from, readv, write_chunk, send_from,
  sendfile,
}

module _ {File World : Type 0} (os : Os File World) where
  poll_fd-Keeps : (fd events : ℕ) → Keeps (poll_fd os fd events)
  unfolding poll_fd
  poll_fd-Keeps fd events = record { keeps = λ s. with_table-Same s.process _ }

  poll_fds_from-Keeps : (n base ready : ℕ) → Keeps (poll_fds_from os n base ready)
  unfolding poll_fds_from
  poll_fds_from-Keeps zero base ready = search keeping
  poll_fds_from-Keeps (suc n) base ready =
      search (keeping, poll_fd-Keeps, poll_fds_from-Keeps n) depth 12

  pub poll_fds-Keeps : (addr count : ℕ) → Keeps (poll_fds os addr count)
  unfolding poll_fds
  poll_fds-Keeps addr count = poll_fds_from-Keeps count addr 0

  writev_from-Keeps : (fd n entry total : ℕ) → Keeps (writev_from os fd n entry total)
  unfolding writev_from
  writev_from-Keeps fd zero entry total = search keeping
  writev_from-Keeps fd (suc n) entry total = search (keeping, writev_from-Keeps fd n) depth 12

  pub writev-Keeps : (fd addr count : ℕ) → Keeps (writev os fd addr count)
  unfolding writev
  writev-Keeps fd addr count = writev_from-Keeps fd count addr 0

  readv_from-Keeps : (fd n entry total : ℕ) → Keeps (readv_from os fd n entry total)
  unfolding readv_from
  readv_from-Keeps fd zero entry total = search keeping
  readv_from-Keeps fd (suc n) entry total =
      bind-Keeps _ _ (from_memory-Keeps (read_word 8 entry)) (λ base.
        bind-Keeps _ _ (from_memory-Keeps (read_word 8 (plus entry 8))) (λ len.
          elim_Bool-Keeps (len == 0) _ _ (readv_from-Keeps fd n (plus entry 16) total) (
            bind-Keeps _ _ (with_files-Keeps (FdIo.read os.files fd len)) (λ bytes.
              bind-Keeps _ _ (with_memory-Keeps (write_bytes base bytes)) (λ u.
                elim_Bool-Keeps (ltb (length bytes) len) _ _ (pure-Keeps (total + length bytes))
                  (readv_from-Keeps fd n (plus entry 16) (total + length bytes)))))))

  pub readv-Keeps : (fd addr count : ℕ) → Keeps (readv os fd addr count)
  unfolding readv
  readv-Keeps fd addr count = readv_from-Keeps fd count addr 0

  write_chunk-Keeps : (fd n : ℕ) (bytes : List ℕ) → Keeps (write_chunk os fd n bytes)
  unfolding write_chunk
  write_chunk-Keeps fd zero bytes = search keeping
  write_chunk-Keeps fd (suc n) [] = search keeping
  write_chunk-Keeps fd (suc n) (b ∷ bs) = search (keeping, write_chunk-Keeps fd n) depth 12

  send_from-Keeps :
      (n out_fd in_fd : ℕ) (position' : Option ℕ) (total count : ℕ)
      → Keeps (send_from os n out_fd in_fd position' total count)
  unfolding send_from
  send_from-Keeps zero out_fd in_fd p total count = search keeping
  send_from-Keeps (suc n) out_fd in_fd p total count =
      elim_Bool-Keeps (ltb total count) _ _
        (bind-Keeps _ _ (read_sendfile_chunk-Keeps os in_fd p (min (count - total) 8192)) (λ r.
          elim_Bool-Keeps (length r.0 == 0) _ _ (search keeping) (
            bind-Keeps _ _ (write_chunk-Keeps out_fd (length r.0) (r.0))
              (λ u. send_from-Keeps n out_fd in_fd (r.1) (total + length r.0) count))))
        (search keeping)

  pub sendfile-Keeps : (out_fd in_fd addr count : ℕ) → Keeps (sendfile os out_fd in_fd addr count)
  unfolding sendfile
  sendfile-Keeps out_fd in_fd addr count = if-Keeps (count == 0) _ _ (search keeping) (
      bind-Keeps _ _ (if-Keeps (addr == 0) _ _ (search keeping) (search keeping)) (λ requested.
        bind-Keeps _ _ (send_from-Keeps count out_fd in_fd requested 0 count)
          (λ r. elim_Option-Keeps (r.1) _ _ (search keeping) (λ value. search keeping))))
