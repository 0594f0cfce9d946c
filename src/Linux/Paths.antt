-- ===== src/Linux/Paths.antt =====
-- crates/ruxeon-linux/src/lib.rs: how the process resolves a guest's path, and the system calls that take one.
use ruxeon.Common.{
  ℕ, bit_and, Bool, true, false, not, ◌||◌, Option, none, some, List, [], ◌∷◌, ◌==◌, if◌then◌else◌,
  Result, map_err, ok, err,
}
use ruxeon.Common.Actions.{pure, fail, gets, ◌>>=◌, ◌>>◌}
use ruxeon.Common.Dict.{nat_eq, get}
use ruxeon.Errno.{Errno, SyscallError, no_ent, badf, acces, not_dir, inval, loop, errno}
use ruxeon.Fd.{DirectoryFd, open_virtual, FdEntry, file, directory, virtual}
use ruxeon.FdTable.{widened, insert_entry}
use ruxeon.VirtualFile.{VirtualFile, from_guest_path, proc_self_exe}
use ruxeon.GuestPath.{
  FsError, empty_path, windows_prefix, nul_byte, too_many_symlinks, slash, backslash, parse, join,
  starts_with_slash,
}
use ruxeon.RootFs.{ResolvedPath, on_host, in_memory, resolve}
use ruxeon.Linux.Os.{map_io_errno, OpenOptions, Os, end}
use ruxeon.Linux.State.{
  ExecveRequest, System, Handler, with_process, with_memory, with_table, from_world, with_world,
  fail_when,
}
use ruxeon.Linux.Stat.{write_stat, virtual_stat, stat_of_path}
use ruxeon.Linux.Arguments.{read_string_vector}
use ruxeon.Linux.Directory.{open_directory}

-- `impl From<FsError> for SyscallError`.
unfoldable pub from_fs_error : FsError → SyscallError
from_fs_error empty_path = errno no_ent
from_fs_error windows_prefix = errno inval
from_fs_error nul_byte = errno inval
from_fs_error too_many_symlinks = errno loop

-- `path.replace('/', "\\")`.
unfoldable pub to_backslashes : List ℕ → List ℕ
to_backslashes [] = []
to_backslashes (c ∷ cs) = (if c == slash then backslash else c) ∷ to_backslashes cs

abbrev pub is_none : Option ℕ → Bool
is_none none = true
is_none (some _) = false

module _ {File World : Type 0} where
  abbrev pub from_fs : {A : Type 0} → Result FsError A → Handler File World A
  from_fs r s = (map_err from_fs_error r, s)

  -- `FdTable::insert`, and its descriptor as the call's result.
  unfoldable pub insert_fd : FdEntry File → Handler File World ℕ
  unfolding insert_entry
  insert_fd entry = with_table (λ w t. widened (ok (insert_entry entry t)))

  abbrev pub directory_at : ℕ → System File World → Option DirectoryFd
  directory_at fd s = elim (get fd s.process.fd_table.entries) [
    | none ↦ none
    | some slot ↦ elim (slot.entry) [ directory d ↦ some d | _ ↦ none ]
  ]

module _ {File World : Type 0} (os : Os File World) where
  -- A path from the root, or from the working directory, where the process has no root of its own.
  unfoldable pub resolve_unrooted : List ℕ → System File World → Result FsError ResolvedPath
  unfolding join from_guest_path
  resolve_unrooted path s = elim (join os.has_prefix s.process.cwd path) [
    | err e ↦ err e
    | ok guest ↦ elim (from_guest_path guest.raw) [
      | some v ↦ ok (in_memory guest v)
      | none ↦ ok (on_host guest guest.raw)
    ]
  ]

  -- A path that is relative to a directory's descriptor.
  unfoldable pub resolve_at : ℕ → List ℕ → Handler File World ResolvedPath
  unfolding parse from_fs_error to_backslashes
  resolve_at fd path s = elim (directory_at fd s) [
    | none ↦ (err (errno badf), s)
    | some d ↦
        (do
          guest ← from_fs (parse os.has_prefix path)
          pure (on_host guest (os.push d.path (to_backslashes path))))
          s
  ]

  unfoldable pub resolve_path : Option ℕ → List ℕ → Handler File World ResolvedPath
  unfolding resolve resolve_unrooted resolve_at from_fs_error
  resolve_path dirfd [] s = (err (errno no_ent), s)
  resolve_path dirfd (c ∷ cs) s =
      let path = c ∷ cs in
      if starts_with_slash path || is_none dirfd
      then elim (s.process.rootfs) [
        | some root ↦
            from_fs (resolve (os.root_view root s.world) os.push root s.process.cwd path) s
        | none ↦ from_fs (resolve_unrooted path s) s
      ]
      else elim dirfd [ none ↦ (err (errno badf), s) | some fd ↦ resolve_at fd path s ]

  abbrev pub host_or :
      {A : Type 0} → Errno → (List ℕ → Handler File World A) → ResolvedPath → Handler File World A
  host_or e f (in_memory guest v) = fail (errno e)
  host_or e f (on_host guest host) = f host

  unfoldable pub mkdir_guest_path : Option ℕ → List ℕ → Handler File World ℕ
  unfolding resolve_path map_io_errno
  mkdir_guest_path dirfd path = do
    resolved ← resolve_path dirfd path
    host_or acces (λ host. do with_world (os.create_dir host); pure 0) resolved

  unfoldable pub remove_guest_path : Option ℕ → List ℕ → Bool → Handler File World ℕ
  unfolding resolve_path map_io_errno
  remove_guest_path dirfd path remove_dir = do
    resolved ← resolve_path dirfd path
    host_or acces
        (λ host. do
          with_world (if remove_dir then os.remove_dir host else os.remove_file host)
          pure 0)
        resolved

  abbrev pub has_flag : ℕ → ℕ → Bool
  has_flag flags bit = not (bit_and flags bit == 0)

  -- The access mode, and `O_CREAT`, `O_TRUNC` and `O_APPEND`.
  unfoldable pub open_options : ℕ → OpenOptions
  open_options flags =
      let mode = bit_and flags 0o3 in
      record {
        can_read = not (mode == 0o1);
        can_write = mode == 0o1 || mode == 0o2;
        create = has_flag flags 0o100;
        truncate = has_flag flags 0o1000;
        append = has_flag flags 0o2000;
      }

  unfoldable pub open_host_path : List ℕ → ℕ → Handler File World ℕ
  unfolding open_directory open_options insert_fd map_io_errno
  open_host_path host flags s =
      if has_flag flags 0o200000
      then (if os.is_dir host s.world
          then (do d ← open_directory os host; insert_fd (directory d)) s
          else (err (errno not_dir), s))
      else (do
        f ← with_world (os.open_file (open_options flags) host)
        (if has_flag flags 0o2000 then with_world (os.seek f (end 0)) else pure tt)
        insert_fd (file f))
          s

  unfoldable pub open_guest_path : Option ℕ → List ℕ → ℕ → Handler File World ℕ
  unfolding resolve_path open_virtual insert_fd open_host_path
  open_guest_path dirfd path flags = do
    resolved ← resolve_path dirfd path
    exe ← gets (λ s. s.process.executable_path)
    nanos ← gets (λ s. os.files.nanos s.world)
    elim resolved [
      | in_memory guest v ↦ insert_fd (virtual (open_virtual nanos v exe))
      | on_host guest host ↦ open_host_path host flags
    ]

  unfoldable pub write_stat_for_guest_path : Option ℕ → List ℕ → ℕ → Handler File World (Unit {0})
  unfolding resolve_path open_virtual virtual_stat stat_of_path write_stat
  write_stat_for_guest_path dirfd path addr = do
    resolved ← resolve_path dirfd path
    exe ← gets (λ s. s.process.executable_path)
    nanos ← gets (λ s. os.files.nanos s.world)
    elim resolved [
      | in_memory guest v ↦ with_memory (write_stat addr (virtual_stat (open_virtual nanos v exe)))
      | on_host guest host ↦ (do stat ← stat_of_path os host; with_memory (write_stat addr stat))
    ]

  unfoldable pub execve_request : List ℕ → ℕ → ℕ → Handler File World ExecveRequest
  unfolding resolve_path read_string_vector
  execve_request guest_path argv_addr envp_addr = do
    resolved ← resolve_path none guest_path
    host_or acces
        (λ host. do
          argv ← read_string_vector os argv_addr
          envp ← read_string_vector os envp_addr
          rootfs ← gets (λ s. s.process.rootfs)
          pure (record {
            guest_path = guest_path;
            host_path = host;
            rootfs = rootfs;
            argv = argv;
            envp = envp;
          }))
        resolved

  unfoldable pub chdir : List ℕ → Handler File World ℕ
  unfolding resolve_path
  chdir path = do
    resolved ← resolve_path none path
    elim resolved [
      | in_memory guest v ↦ fail (errno not_dir)
      | on_host guest host ↦ (do
        found ← gets (λ s. os.is_dir host s.world)
        fail_when (not found) no_ent
        with_process (λ p. record p { cwd = guest })
        pure 0)
    ]

  unfoldable pub access : List ℕ → Handler File World ℕ
  unfolding resolve_path
  access path = do
    resolved ← resolve_path none path
    elim resolved [
      | in_memory guest v ↦ pure 0
      | on_host guest host ↦ (do
        found ← gets (λ s. os.exists host s.world)
        fail_when (not found) no_ent
        pure 0)
    ]

  -- What `readlink` finds: the executable's path behind `/proc/self/exe`, or a host's link.
  unfoldable pub target_in : VirtualFile → Handler File World (List ℕ)
  target_in proc_self_exe = gets (λ s. s.process.executable_path)
  target_in _ = fail (errno inval)

  unfoldable pub link_target : List ℕ → Handler File World (List ℕ)
  unfolding resolve_path map_io_errno target_in
  link_target path = do
    resolved ← resolve_path none path
    elim resolved [
      | in_memory guest v ↦ target_in v
      | on_host guest host ↦ from_world (os.read_link host)
    ]
