-- ===== src/Linux/Heap.antt =====
-- crates/ruxeon-linux/src/lib.rs: `brk` and `mmap`.
pub mod Break
pub mod Pages
use ruxeon.Common.{
  ℕ, ◌+◌, ◌-◌, ◌%◌, bit_and, Bool, false, not, ◌&&◌, ◌||◌, Option, none, some, List, ltb, ◌==◌,
  if◌then◌else◌, length, position, any, ok, err,
}
use ruxeon.Common.Words.{u64_mod, checked_add, saturating_add}
use ruxeon.Common.Actions.{pure, fail, of_result, ◌>>=◌, ◌>>◌}
use ruxeon.Common.Dict.{nat_eq, get}
use ruxeon.Region.{page_size, MemoryPermission, end_of}
use ruxeon.Memory.{GuestMemory, Outcome, map_region, load_bytes, unmap_range}
use ruxeon.Errno.{badf, is_dir, inval, errno}
use ruxeon.Fd.{VirtualFd, read_virtual, FdEntry, file, directory, virtual}
use ruxeon.FdIo.{put_entry}
use ruxeon.FdTable.{fd_arg}
use ruxeon.Linux.Os.{map_io_errno, Os, start}
use ruxeon.Linux.State.{
  LinuxProcess, Handler, with_process, with_memory, with_files, with_world, fail_when,
}
use ruxeon.Linux.Arguments.{align_up, memory_permissions}

abbrev pub read_write : MemoryPermission
read_write = record { bits = 3 }

-- What `brk` does to the memory when the break moves from `old` to `requested`.
unfoldable pub move_break : ℕ → ℕ → GuestMemory → Outcome
unfolding align_up map_region unmap_range
move_break old requested m =
    if ltb requested old
    then (let first = align_up requested page_size in
        let last = align_up old page_size in
        if ltb first last then unmap_range first (last - first) m else (ok tt, m))
    else if ltb old requested
    then (let first = align_up old page_size in
        let last = align_up requested page_size in
        if ltb first last
        then map_region first (last - first) read_write (some "[brk]") m
        else (ok tt, m))
    else (ok tt, m)

abbrev pub set_brk : {File : Type 0} → ℕ → LinuxProcess File → LinuxProcess File
set_brk value p = record p { brk = value }

abbrev pub set_mmap_next : {File : Type 0} → ℕ → LinuxProcess File → LinuxProcess File
set_mmap_next value p = record p { mmap_next = value }

module _ {File World : Type 0} where
  unfoldable pub brk : ℕ → Handler File World ℕ
  unfolding move_break
  brk requested s =
      if requested == 0 || ltb requested s.process.brk_base
      then (ok (s.process.brk), s)
      else ((do
        with_memory (move_break s.process.brk requested)
        with_process (set_brk requested)
        pure requested)
          s)

-- Whether the range that a hint asks for ends in the address space and meets no region.
unfoldable pub hint_is_free : ℕ → ℕ → GuestMemory → Bool
hint_is_free base size m = elim (checked_add base size) [
  | none ↦ false
  | some stop ↦ not (any (λ r. ltb base (end_of r) && ltb r.base stop) m.map.regions)
]

module _ {File World : Type 0} where
  -- The address of a mapping: fixed, the hint, or the next free one.
  unfoldable pub choose_address : ℕ → ℕ → ℕ → Handler File World ℕ
  unfolding hint_is_free
  choose_address requested size flags s =
      if not (bit_and flags 0x10 == 0)
      then (if requested % page_size == 0 then (ok requested, s) else (err (errno inval), s))
      else if not (requested == 0) && hint_is_free requested size s.memory
      then (ok requested, s)
      else (let next = s.process.mmap_next in
          (
            ok next,
            record s {
              process =
                  set_mmap_next (saturating_add next ((size + page_size) % u64_mod)) s.process;
            },
          ))

  unfoldable pub map_pages : ℕ → ℕ → ℕ → ℕ → Handler File World ℕ
  unfolding choose_address unmap_range map_region memory_permissions
  map_pages requested size prot flags = do
    address ← choose_address requested size flags
    (if bit_and flags 0x10 == 0 then pure tt else with_memory (unmap_range address size))
    with_memory (map_region address size (memory_permissions prot) (some "[mmap]"))
    pure address

module _ {File World : Type 0} (os : Os File World) where
  -- A read of a host file at a position, which leaves the file's own position in the end.
  unfoldable pub read_file_chunk : File → Option ℕ → ℕ → Handler File World (List ℕ × Option ℕ)
  unfolding map_io_errno
  read_file_chunk f none len = do
    bytes ←
        with_files
          (λ s. let (r, w) = os.files.file_read f len s.world in (r, record s { world = w }))
    pure (bytes, none)
  read_file_chunk f (some position) len = do
    current ← with_world (os.stream_position f)
    with_world (os.seek f (start position))
    bytes ←
        with_files
          (λ s. let (r, w) = os.files.file_read f len s.world in (r, record s { world = w }))
    with_world (os.seek f (start current))
    pure (bytes, some (saturating_add position (length bytes)))

  -- The same of a virtual file: the read starts at the position, and the cursor is put back.
  unfoldable pub read_virtual_chunk :
      ℕ → VirtualFd → Option ℕ → ℕ → Handler File World (List ℕ × Option ℕ)
  unfolding read_virtual
  read_virtual_chunk fd v none len s =
      let (bytes, v') = read_virtual (os.files.nanos s.world) len v in
      ((do with_files (λ files. (ok tt, put_entry fd (virtual v') files)); pure (bytes, none)) s)
  read_virtual_chunk fd v (some position) len s =
      let (bytes, v') =
        read_virtual (os.files.nanos s.world) len (record v { cursor = position }) in
      ((do
        with_files
            (λ files. (ok tt, put_entry fd (virtual (record v' { cursor = v.cursor })) files))
        pure (bytes, some (saturating_add position (length bytes))))
        s)

  unfoldable pub read_entry_chunk :
      ℕ → FdEntry File → Option ℕ → ℕ → Handler File World (List ℕ × Option ℕ)
  unfolding read_file_chunk read_virtual_chunk
  read_entry_chunk fd (file f) position len = read_file_chunk f position len
  read_entry_chunk fd (virtual v) position len = read_virtual_chunk fd v position len
  read_entry_chunk fd (directory d) position len = fail (errno is_dir)
  read_entry_chunk fd _ position len = fail (errno inval)

  -- Up to `len` bytes of a descriptor, and the position behind them where one was given.
  unfoldable pub read_sendfile_chunk : ℕ → Option ℕ → ℕ → Handler File World (List ℕ × Option ℕ)
  unfolding read_entry_chunk
  read_sendfile_chunk fd position len s = elim (get fd s.process.fd_table.entries) [
    | none ↦ (err (errno badf), s)
    | some slot ↦ read_entry_chunk fd slot.entry position len s
  ]

  unfoldable pub load_mmap_backing : ℕ → ℕ → ℕ → ℕ → ℕ → Handler File World (Unit {0})
  unfolding read_sendfile_chunk load_bytes
  load_mmap_backing address len fd position flags = do
    fail_when (bit_and flags 0x02 == 0) inval
    fd' ← of_result (fd_arg fd)
    (bytes, _) ← read_sendfile_chunk fd' (some position) len
    (if length bytes == 0 then pure tt else with_memory (load_bytes address bytes))

  unfoldable pub mmap : ℕ → ℕ → ℕ → ℕ → ℕ → ℕ → Handler File World ℕ
  unfolding align_up map_pages load_mmap_backing
  mmap requested len prot flags fd position = do
    fail_when (len == 0) inval
    fail_when (not (position % page_size == 0)) inval
    address ← map_pages requested (align_up len page_size) prot flags
    (if bit_and flags 0x20 == 0
        then (do load_mmap_backing address len fd position flags; pure address)
        else pure address)
