-- ===== src/Linux/Keeping/Basics.antt =====
-- The arguments' texts and times, and the heap.
use ruxeon.Access.{read_word}
use ruxeon.Region.{page_size}
use ruxeon.Linux.State.{LinuxProcess, with_process, with_memory}
use ruxeon.Common.Actions.{pure, ◌>>◌}
use ruxeon.Fd.{
  VirtualFd, FdEntry, stdin, stdout, stderr, file, directory, virtual, pipe_read, pipe_write,
  buffer,
}
use ruxeon.Common.Dict.{nat_eq, get}
use ruxeon.Linux.Keeping.{
  Same-refl, with_table-Same, if-Same, from_memory-Keeps, if-Keeps, elim_Bool-Keeps, bind-Keeps,
  with_process-Keeps, Same, Keeps, keeping,
}
use ruxeon.Common.{
  ℕ, zero, suc, ◌%◌, bit_and, refl, inl, inr, not, ◌&&◌, ◌||◌, Option, none, some, List, [], ◌∷◌,
  ◌++◌, ltb, leb, ◌==◌, Option-cases,
}
use ruxeon.Linux.Os.{Os}
use ruxeon.Linux.Arguments.{
  read_c_string_from, read_c_string, read_strings_from, read_string_vector, clock_now,
  read_timespec, write_timespec,
}
use ruxeon.Linux.Terminal.{plus}
use ruxeon.Linux.Heap.{
  move_break, set_brk, set_mmap_next, brk, hint_is_free, choose_address, map_pages, read_file_chunk,
  read_virtual_chunk, read_entry_chunk, read_sendfile_chunk, load_mmap_backing, mmap,
}

module _ {File World : Type 0} where
  pub read_timespec-Keeps : (addr : ℕ) → Keeps {File = File} {World = World} (read_timespec addr)
  unfolding read_timespec
  read_timespec-Keeps addr = search keeping

  pub write_timespec-Keeps :
      (addr : ℕ) (t : ℕ × ℕ) → Keeps {File = File} {World = World} (write_timespec addr t)
  unfolding write_timespec
  write_timespec-Keeps addr t = search keeping

module _ {File World : Type 0} (os : Os File World) where
  read_c_string_from-Keeps :
      (n addr : ℕ) (bytes : List ℕ) → Keeps (read_c_string_from os n addr bytes)
  unfolding read_c_string_from
  read_c_string_from-Keeps zero addr bytes = search keeping
  read_c_string_from-Keeps (suc n) addr bytes =
      bind-Keeps _ _ (from_memory-Keeps (read_word 1 addr)) (λ byte.
        elim_Bool-Keeps (byte == 0) _ _ (search keeping)
          (read_c_string_from-Keeps n (plus addr 1) (bytes ++ byte ∷ [])))

  pub read_c_string-Keeps : (addr : ℕ) → Keeps (read_c_string os addr)
  unfolding read_c_string
  read_c_string-Keeps addr = read_c_string_from-Keeps 4096 addr []

  read_strings_from-Keeps :
      (n addr : ℕ) (values : List (List ℕ)) → Keeps (read_strings_from os n addr values)
  unfolding read_strings_from
  read_strings_from-Keeps zero addr values = search keeping
  read_strings_from-Keeps (suc n) addr values =
      bind-Keeps _ _ (from_memory-Keeps (read_word 8 addr)) (λ ptr.
        elim_Bool-Keeps (ptr == 0) _ _ (search keeping) (
          bind-Keeps _ _ (read_c_string-Keeps ptr)
            (λ value. read_strings_from-Keeps n (plus addr 8) (values ++ value ∷ []))))

  pub read_string_vector-Keeps : (addr : ℕ) → Keeps (read_string_vector os addr)
  unfolding read_string_vector
  read_string_vector-Keeps addr =
      if-Keeps (addr == 0) _ _ (search keeping) (read_strings_from-Keeps 4096 addr [])

  pub clock_now-Keeps : (clock : ℕ) → Keeps (clock_now os clock)
  unfolding clock_now
  clock_now-Keeps clock = record {
    keeps = λ s. if-Same s.process (leb clock 1) _ _ (Same-refl s.process) (Same-refl s.process);
  }

  read_file_chunk-Keeps : (f : File) (o : Option ℕ) (len : ℕ) → Keeps (read_file_chunk os f o len)
  unfolding read_file_chunk
  read_file_chunk-Keeps f none len = search keeping
  read_file_chunk-Keeps f (some o) len = search keeping

  read_virtual_chunk-Keeps :
      (fd : ℕ) (v : VirtualFd) (o : Option ℕ) (len : ℕ) → Keeps (read_virtual_chunk os fd v o len)
  unfolding read_virtual_chunk
  read_virtual_chunk-Keeps fd v none len = record { keeps = λ s. with_table-Same s.process _ }
  read_virtual_chunk-Keeps fd v (some o) len = record { keeps = λ s. with_table-Same s.process _ }

  read_entry_chunk-Keeps :
      (fd : ℕ) (e : FdEntry File) (o : Option ℕ) (len : ℕ) → Keeps (read_entry_chunk os fd e o len)
  unfolding read_entry_chunk
  read_entry_chunk-Keeps fd (file f) o len = read_file_chunk-Keeps f o len
  read_entry_chunk-Keeps fd (virtual v) o len = read_virtual_chunk-Keeps fd v o len
  read_entry_chunk-Keeps fd (directory d) o len = search keeping
  read_entry_chunk-Keeps fd stdin o len = search keeping
  read_entry_chunk-Keeps fd stdout o len = search keeping
  read_entry_chunk-Keeps fd stderr o len = search keeping
  read_entry_chunk-Keeps fd (pipe_read b) o len = search keeping
  read_entry_chunk-Keeps fd (pipe_write b) o len = search keeping
  read_entry_chunk-Keeps fd (buffer b) o len = search keeping

  pub read_sendfile_chunk-Keeps :
      (fd : ℕ) (o : Option ℕ) (len : ℕ) → Keeps (read_sendfile_chunk os fd o len)
  unfolding read_sendfile_chunk
  read_sendfile_chunk-Keeps fd o len = record {
    keeps = λ s. elim (Option-cases (get fd s.process.fd_table.entries)) [
      | inl e ↦ rw (e, read_sendfile_chunk) (Same-refl s.process)
      | inr (slot, e) ↦
          rw (e, read_sendfile_chunk) ((read_entry_chunk-Keeps fd slot.entry o len).keeps s)
    ];
  }

  load_mmap_backing-Keeps :
      (address len fd file_offset flags : ℕ)
      → Keeps (load_mmap_backing os address len fd file_offset flags)
  unfolding load_mmap_backing
  load_mmap_backing-Keeps address len fd file_offset flags =
      search (keeping, read_sendfile_chunk-Keeps)

module _ {File : Type 0} where
  set_brk-Same : (value : ℕ) (p : LinuxProcess File) → Same p (set_brk value p)
  set_brk-Same value p = record {
    pid = refl;
    tid = refl;
    ppid = refl;
    rootfs = refl;
    executable_path = refl;
    brk_base = refl;
    trace = refl;
  }

  set_mmap_next-Same : (value : ℕ) (p : LinuxProcess File) → Same p (set_mmap_next value p)
  set_mmap_next-Same value p = record {
    pid = refl;
    tid = refl;
    ppid = refl;
    rootfs = refl;
    executable_path = refl;
    brk_base = refl;
    trace = refl;
  }

module _ {File World : Type 0} where
  pub brk-Keeps : (requested : ℕ) → Keeps {File = File} {World = World} (brk requested)
  unfolding brk
  brk-Keeps requested = record {
    keeps = λ s.
        let moved : Keeps {File = File} {World = World} (do
          with_memory (move_break s.process.brk requested)
          with_process (set_brk requested)
          pure requested) =
          search (keeping, with_process-Keeps, set_brk-Same) in
        if-Same s.process (requested == 0 || ltb requested s.process.brk_base) _ _
          (Same-refl s.process) (moved.keeps s);
  }

  choose_address-Keeps :
      (requested size flags : ℕ)
      → Keeps {File = File} {World = World} (choose_address requested size flags)
  unfolding choose_address
  choose_address-Keeps requested size flags = record {
    keeps = λ s.
        let p = s.process in
        if-Same p (not (bit_and flags 0x10 == 0)) _ _
          (if-Same p (requested % page_size == 0) _ _ (Same-refl p) (Same-refl p))
          (if-Same p (not (requested == 0) && hint_is_free requested size s.memory) _ _
            (Same-refl p) (set_mmap_next-Same _ p));
  }

  map_pages-Keeps :
      (requested size prot flags : ℕ)
      → Keeps {File = File} {World = World} (map_pages requested size prot flags)
  unfolding map_pages
  map_pages-Keeps requested size prot flags = search (keeping, choose_address-Keeps)

module _ {File World : Type 0} (os : Os File World) where
  pub mmap-Keeps :
      (requested len prot flags fd file_offset : ℕ)
      → Keeps (mmap os requested len prot flags fd file_offset)
  unfolding mmap
  mmap-Keeps requested len prot flags fd file_offset =
      search (keeping, map_pages-Keeps, load_mmap_backing-Keeps os) depth 12
