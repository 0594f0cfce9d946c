-- ===== src/Linux/Stat.antt =====
-- crates/ruxeon-linux/src/lib.rs: `stat`, `uname` and `sysinfo`: the structures that they lay out in the guest's memory.
use Prim.Native.String.{String}
use ruxeon.Common.{
  ℕ, ◌+◌, ◌-◌, ◌*◌, ◌/◌, max, Option, none, some, List, ◌++◌, ◌==◌, if◌then◌else◌, length, take,
  replicate, err,
}
use ruxeon.Common.Words.{to_le_bytes}
use ruxeon.Common.Text.{codes}
use ruxeon.Common.Actions.{pure, ◌>>=◌, ◌>>◌}
use ruxeon.Common.Dict.{nat_eq, get}
use ruxeon.Memory.{GuestMemory, Outcome}
use ruxeon.Access.{write_bytes}
use ruxeon.Errno.{badf, fault, errno}
use ruxeon.VirtualFile.{dev_null, dev_zero, dev_random, dev_urandom}
use ruxeon.Fd.{VirtualFd, FdEntry, file, directory, virtual}
use ruxeon.Linux.Os.{map_io_errno, Metadata, Os}
use ruxeon.Linux.State.{Handler, with_memory, from_world, fail_when}

pub record StatData : Type 0 where
  pub dev : ℕ
  pub ino : ℕ
  pub nlink : ℕ
  pub mode : ℕ
  pub size : ℕ
  pub blocks : ℕ

unfoldable pub regular : ℕ → ℕ → ℕ → ℕ → StatData
regular dev ino nlink size = record {
  dev = dev;
  ino = ino;
  nlink = nlink;
  mode = 0o100644;
  size = size;
  blocks = (size + 511) / 512;
}

unfoldable pub directory_stat : ℕ → ℕ → ℕ → StatData
directory_stat dev ino nlink = record {
  dev = dev;
  ino = ino;
  nlink = nlink;
  mode = 0o040755;
  size = 0;
  blocks = 0;
}

unfoldable pub char_device : StatData
char_device = record { dev = 5; ino = 1; nlink = 1; mode = 0o020666; size = 0; blocks = 0 }

-- The bytes of the structure, with the fields that the code sets and zeros between them.
unfoldable pub stat_bytes : StatData → List ℕ
unfolding to_le_bytes
stat_bytes data' =
    to_le_bytes 8 data'.dev
    ++ (to_le_bytes 8 data'.ino
        ++ (to_le_bytes 8 data'.nlink
            ++ (to_le_bytes 4 data'.mode
                ++ (replicate 20 0
                    ++ (to_le_bytes 8 data'.size
                        ++ (to_le_bytes 8 4096
                            ++ (to_le_bytes 8 data'.blocks ++ replicate 72 0)))))))

unfoldable pub write_stat : ℕ → StatData → GuestMemory → Outcome
unfolding write_bytes stat_bytes
write_stat addr data' m = write_bytes addr (stat_bytes data') m

unfoldable pub virtual_stat : VirtualFd → StatData
unfolding char_device regular
virtual_stat v = elim (v.file) [
  | dev_null ↦ char_device
  | dev_zero ↦ char_device
  | dev_random ↦ char_device
  | dev_urandom ↦ char_device
  | _ ↦ regular 0x1000 0x1000 1 (length v.contents)
]

abbrev utsname_field_size : ℕ
utsname_field_size = 65

-- One field: at most 64 bytes, and zeros.
unfoldable pub utsname_field : String → List ℕ
utsname_field text =
    let raw = take (utsname_field_size - 1) (codes text) in
    raw ++ replicate (utsname_field_size - length raw) 0

unfoldable pub utsname_bytes : List ℕ
unfolding utsname_field
utsname_bytes =
    utsname_field "Linux"
    ++ (utsname_field "ruxeon"
        ++ (utsname_field "6.0.0-ruxeon"
            ++ (utsname_field "#1 Ruxeon user-mode"
                ++ (utsname_field "x86_64" ++ utsname_field "ruxeon"))))

unfoldable pub write_uname : ℕ → GuestMemory → Outcome
unfolding write_bytes utsname_bytes
write_uname addr m = write_bytes addr utsname_bytes m

unfoldable pub sysinfo_bytes : List ℕ
unfolding to_le_bytes
sysinfo_bytes =
    replicate 32 0
    ++ (to_le_bytes 8 (1024 * 1024 * 1024)
        ++ (to_le_bytes 8 (512 * 1024 * 1024)
            ++ (replicate 24 0
                ++ (to_le_bytes 2 1 ++ (replicate 6 0 ++ (to_le_bytes 4 4096 ++ replicate 28 0))))))

module _ {File World : Type 0} where
  unfoldable pub write_sysinfo : ℕ → Handler File World (Unit {0})
  unfolding write_bytes sysinfo_bytes
  write_sysinfo addr = do fail_when (addr == 0) fault; with_memory (write_bytes addr sysinfo_bytes)

module _ {File World : Type 0} (os : Os File World) where
  -- The inode number is a hash of the metadata and the path.
  unfoldable pub metadata_identity : Metadata → Option (List ℕ) → ℕ × (ℕ × ℕ)
  metadata_identity metadata path = (1, (max (os.hash metadata path) 1, 1))

  unfoldable pub stat_from_metadata : Metadata → Option (List ℕ) → StatData
  unfolding metadata_identity directory_stat regular
  stat_from_metadata metadata path =
      let (dev, (ino, nlink)) = metadata_identity metadata path in
      if metadata.is_dir then directory_stat dev ino nlink else regular dev ino nlink metadata.len

  -- `write_stat_data_for_path`.
  unfoldable pub stat_of_path : List ℕ → Handler File World StatData
  unfolding stat_from_metadata map_io_errno
  stat_of_path path = do
    metadata ← from_world (os.metadata path)
    pure (stat_from_metadata metadata (some path))

  unfoldable pub stat_of_entry : FdEntry File → Handler File World StatData
  unfolding stat_of_path stat_from_metadata virtual_stat char_device map_io_errno
  stat_of_entry (file f) = do
    metadata ← from_world (os.file_metadata f)
    pure (stat_from_metadata metadata none)
  stat_of_entry (directory d) = stat_of_path d.path
  stat_of_entry (virtual v) = pure (virtual_stat v)
  stat_of_entry _ = pure char_device

  -- `FdTable::stat`.
  unfoldable pub stat_of_fd : ℕ → Handler File World StatData
  unfolding stat_of_entry
  stat_of_fd fd s = elim (get fd s.process.fd_table.entries) [
    | none ↦ (err (errno badf), s)
    | some slot ↦ stat_of_entry slot.entry s
  ]
