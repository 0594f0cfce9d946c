-- ===== src/Linux/Directory.antt =====
-- crates/ruxeon-linux/src/lib.rs: `DirectoryFd`, and `getdents64` on it. A name is its bytes.
pub mod Records
use ruxeon.Common.{
  ℕ, ◌+◌, ◌-◌, none, some, List, [], ◌∷◌, ◌++◌, ltb, if◌then◌else◌, length, drop, replicate, Result,
  ok, err,
}
use ruxeon.Common.Words.{to_le_bytes}
use ruxeon.Common.Actions.{pure, ◌>>=◌, ◌>>◌}
use ruxeon.Common.Dict.{nat_eq, get}
use ruxeon.Errno.{SyscallError, badf, not_dir, errno}
use ruxeon.Fd.{DirectoryEntry, DirectoryFd, FdEntry, directory}
use ruxeon.FdIo.{Files, put_entry}
use ruxeon.Linux.Os.{IoErrorKind, map_io_errno, HostDirEntry, Os}
use ruxeon.Linux.State.{Handler, from_world}
use ruxeon.Linux.Arguments.{align_up}

abbrev dot_entries : List DirectoryEntry
dot_entries = record { name = 46 ∷ []; kind = 4 } ∷ record { name = 46 ∷ 46 ∷ []; kind = 4 } ∷ []

-- The loop over what `read_dir` yields: the first error ends it.
unfoldable pub gather_entries :
    List (Result IoErrorKind HostDirEntry) → Result IoErrorKind (List DirectoryEntry)
gather_entries [] = ok []
gather_entries (err e ∷ rest) = err e
gather_entries (ok entry ∷ rest) =
    let further = gather_entries rest in
    elim (entry.file_type) [
      | err e ↦ err e
      | ok directory_type ↦ elim further [
        | err e ↦ err e
        | ok entries ↦
            ok (record { name = entry.name; kind = if directory_type then 4 else 8 } ∷ entries)
      ]
    ]

-- The length of an entry's record.
unfoldable pub record_length : DirectoryEntry → ℕ
unfolding align_up
record_length entry = align_up (19 + length entry.name + 1) 8

-- The record of the entry at an index.
unfoldable pub record_bytes : ℕ → DirectoryEntry → List ℕ
unfolding to_le_bytes record_length
record_bytes index entry =
    to_le_bytes 8 (index + 1)
    ++ (to_le_bytes 8 (index + 1)
        ++ (to_le_bytes 2 (record_length entry)
            ++ (entry.kind
                ∷ (entry.name ++ replicate (record_length entry - (19 + length entry.name)) 0))))

-- The loop of `write_getdents64` over the entries that are left, with so many bytes of room: what it writes, and the
-- cursor behind it.
unfoldable pub write_records : ℕ → ℕ → List DirectoryEntry → List ℕ × ℕ
unfolding record_length record_bytes
write_records room index [] = ([], index)
write_records room index (entry ∷ rest) =
    let further = write_records (room - record_length entry) (index + 1) rest in
    if ltb room (record_length entry)
    then ([], index)
    else (record_bytes index entry ++ further.0, further.1)

unfoldable pub write_getdents64 : ℕ → DirectoryFd → List ℕ × DirectoryFd
unfolding write_records
write_getdents64 len d =
    let (bytes, cursor) = write_records len d.cursor (drop d.cursor d.entries) in
    (bytes, record d { cursor = cursor })

module _ {File World : Type 0} where
  unfoldable pub getdents64_entry :
      ℕ → ℕ → FdEntry File → Files File World → Result SyscallError (List ℕ) × Files File World
  unfolding write_getdents64
  getdents64_entry fd len (directory d) files =
      let (bytes, d') = write_getdents64 len d in (ok bytes, put_entry fd (directory d') files)
  getdents64_entry fd len _ files = (err (errno not_dir), files)

  unfoldable pub getdents64 :
      ℕ → ℕ → Files File World → Result SyscallError (List ℕ) × Files File World
  unfolding getdents64_entry
  getdents64 fd len files = elim (get fd files.table.entries) [
    | none ↦ (err (errno badf), files)
    | some slot ↦ getdents64_entry fd len slot.entry files
  ]

module _ {File World : Type 0} (os : Os File World) where
  abbrev entries_at : List ℕ → World → Result IoErrorKind (List DirectoryEntry)
  entries_at path w = elim (os.read_dir path w) [ err e ↦ err e | ok found ↦ gather_entries found ]

  -- `DirectoryFd::open`.
  unfoldable pub open_directory : List ℕ → Handler File World DirectoryFd
  unfolding gather_entries map_io_errno
  open_directory path = do
    entries ← from_world (entries_at path)
    pure (record { path = path; entries = dot_entries ++ entries; cursor = 0 })
