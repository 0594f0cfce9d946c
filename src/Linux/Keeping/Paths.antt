-- ===== src/Linux/Keeping/Paths.antt =====
-- The system calls on paths, and `stat`.
use ruxeon.VirtualFile.{
  VirtualFile, dev_null, dev_zero, dev_random, dev_urandom, proc_self_exe, proc_version,
  proc_cpu_info, proc_mem_info,
}
use ruxeon.Linux.Keeping.Basics.{read_string_vector-Keeps}
use ruxeon.Common.Actions.{pure, ◌>>=◌, ◌>>◌}
use ruxeon.Common.{
  ℕ, refl, inl, inr, Bool, ◌||◌, Option, none, List, [], ◌∷◌, if◌then◌else◌, Option-cases, ok,
}
use ruxeon.Common.Dict.{nat_eq, get}
use ruxeon.Errno.{Errno, acces}
use ruxeon.Fd.{
  open_virtual, FdEntry, stdin, stdout, stderr, file, directory, virtual, pipe_read, pipe_write,
  buffer,
}
use ruxeon.FdTable.{widened, insert_entry}
use ruxeon.RootFs.{ResolvedPath, on_host, in_memory}
use ruxeon.GuestPath.{GuestPath, starts_with_slash, parse}
use ruxeon.Linux.Os.{Os, end}
use ruxeon.Linux.State.{LinuxProcess, Handler, with_world}
use ruxeon.Linux.Keeping.{
  Same-refl, if-Same, elim_Option-Same, gets-Keeps, with_table-Keeps, bind-Keeps, with_memory-Keeps,
  with_process-Keeps, Same, Keeps, keeping,
}
use ruxeon.Linux.Stat.{
  write_stat, virtual_stat, write_sysinfo, stat_of_path, stat_of_entry, stat_of_fd,
}
use ruxeon.Linux.Directory.{open_directory}
use ruxeon.Linux.Paths.{
  to_backslashes, is_none, from_fs, insert_fd, directory_at, resolve_at, resolve_path, host_or,
  mkdir_guest_path, remove_guest_path, has_flag, open_options, open_host_path, open_guest_path,
  write_stat_for_guest_path, execve_request, chdir, access, target_in, link_target,
}

module _ {File World : Type 0} where
  pub write_sysinfo-Keeps : (addr : ℕ) → Keeps {File = File} {World = World} (write_sysinfo addr)
  unfolding write_sysinfo
  write_sysinfo-Keeps addr = search keeping

  insert_fd-Keeps : (entry : FdEntry File) → Keeps {World = World} (insert_fd entry)
  unfolding insert_fd
  insert_fd-Keeps entry = with_table-Keeps (λ w t. widened (ok (insert_entry entry t)))

module _ {File : Type 0} where
  set_cwd-Same : (guest : GuestPath) (p : LinuxProcess File) → Same p (record p { cwd = guest })
  set_cwd-Same guest p = record {
    pid = refl;
    tid = refl;
    ppid = refl;
    rootfs = refl;
    executable_path = refl;
    brk_base = refl;
    trace = refl;
  }

module _ {File World : Type 0} (os : Os File World) where
  stat_of_path-Keeps : (path : List ℕ) → Keeps (stat_of_path os path)
  unfolding stat_of_path
  stat_of_path-Keeps path = search keeping

  stat_of_entry-Keeps : (e : FdEntry File) → Keeps (stat_of_entry os e)
  unfolding stat_of_entry
  stat_of_entry-Keeps (file f) = search keeping
  stat_of_entry-Keeps (directory d) = stat_of_path-Keeps d.path
  stat_of_entry-Keeps (virtual v) = search keeping
  stat_of_entry-Keeps stdin = search keeping
  stat_of_entry-Keeps stdout = search keeping
  stat_of_entry-Keeps stderr = search keeping
  stat_of_entry-Keeps (pipe_read b) = search keeping
  stat_of_entry-Keeps (pipe_write b) = search keeping
  stat_of_entry-Keeps (buffer b) = search keeping

  pub stat_of_fd-Keeps : (fd : ℕ) → Keeps (stat_of_fd os fd)
  unfolding stat_of_fd
  stat_of_fd-Keeps fd = record {
    keeps = λ s. elim (Option-cases (get fd s.process.fd_table.entries)) [
      | inl e ↦ rw (e, stat_of_fd) (Same-refl s.process)
      | inr (slot, e) ↦ rw (e, stat_of_fd) ((stat_of_entry-Keeps slot.entry).keeps s)
    ];
  }

  open_directory-Keeps : (path : List ℕ) → Keeps (open_directory os path)
  unfolding open_directory
  open_directory-Keeps path = search keeping

  resolve_at-Keeps : (fd : ℕ) (path : List ℕ) → Keeps (resolve_at os fd path)
  unfolding resolve_at
  resolve_at-Keeps fd path = record {
    keeps = λ s. elim_Option-Same s.process (directory_at fd s) _ _ (Same-refl s.process) (λ d.
        (bind-Keeps (from_fs (parse os.has_prefix path))
            (λ guest. pure (on_host guest (os.push d.path (to_backslashes path))))
            (record { keeps = λ s. Same-refl s.process }) (λ guest. search keeping)).keeps
          s);
  }

  pub resolve_path-Keeps : (dirfd : Option ℕ) (path : List ℕ) → Keeps (resolve_path os dirfd path)
  unfolding resolve_path
  resolve_path-Keeps dirfd [] = search keeping
  resolve_path-Keeps dirfd (c ∷ cs) = record {
    keeps = λ s.
        let p = s.process in
        if-Same p (starts_with_slash (c ∷ cs) || is_none dirfd) _ _
          (elim_Option-Same p s.process.rootfs _ _ (Same-refl p) (λ root. Same-refl p))
          (elim_Option-Same p dirfd _ _ (Same-refl p)
            (λ fd. (resolve_at-Keeps fd (c ∷ cs)).keeps s));
  }

  host_or-Keeps :
      {A : Type 0} (e : Errno) (f : List ℕ → Handler File World A) (resolved : ResolvedPath)
      → ((host : List ℕ) → Keeps (f host))
      → Keeps (host_or os e f resolved)
  host_or-Keeps e f (in_memory guest v) h = search keeping
  host_or-Keeps e f (on_host guest host) h = h host

  by_kind-Keeps :
      {A : Type 0} (resolved : ResolvedPath) (f : GuestPath → VirtualFile → Handler File World A)
      (g : GuestPath → List ℕ → Handler File World A)
      → ((guest : GuestPath) (v : VirtualFile) → Keeps (f guest v))
      → ((guest : GuestPath) (host : List ℕ) → Keeps (g guest host))
      → Keeps (elim resolved [ in_memory guest v ↦ f guest v | on_host guest host ↦ g guest host ])
  by_kind-Keeps (in_memory guest v) f g h k = h guest v
  by_kind-Keeps (on_host guest host) f g h k = k guest host

  pub mkdir_guest_path-Keeps :
      (dirfd : Option ℕ) (path : List ℕ) → Keeps (mkdir_guest_path os dirfd path)
  unfolding mkdir_guest_path
  mkdir_guest_path-Keeps dirfd path =
      bind-Keeps _ _ (resolve_path-Keeps dirfd path)
        (λ resolved. host_or-Keeps acces _ resolved (λ host. search keeping))

  pub remove_guest_path-Keeps :
      (dirfd : Option ℕ) (path : List ℕ) (remove_dir : Bool)
      → Keeps (remove_guest_path os dirfd path remove_dir)
  unfolding remove_guest_path
  remove_guest_path-Keeps dirfd path remove_dir =
      bind-Keeps _ _ (resolve_path-Keeps dirfd path)
        (λ resolved. host_or-Keeps acces _ resolved (λ host. search keeping))

  open_host_path-Keeps : (host : List ℕ) (flags : ℕ) → Keeps (open_host_path os host flags)
  unfolding open_host_path
  open_host_path-Keeps host flags = record {
    keeps = λ s.
        let p = s.process in
        let opened : Keeps (do
          f ← with_world (os.open_file (open_options os flags) host)
          (if has_flag os flags 0o2000 then with_world (os.seek f (end 0)) else pure tt)
          insert_fd (file f)) =
          search (keeping, insert_fd-Keeps) depth 12 in
        let listed : Keeps (do d ← open_directory os host; insert_fd (directory d)) =
          search (keeping, open_directory-Keeps, insert_fd-Keeps) in
        if-Same p (has_flag os flags 0o200000) _ _
          (if-Same p (os.is_dir host s.world) _ _ (listed.keeps s) (Same-refl p)) (opened.keeps s);
  }

  pub open_guest_path-Keeps :
      (dirfd : Option ℕ) (path : List ℕ) (flags : ℕ) → Keeps (open_guest_path os dirfd path flags)
  unfolding open_guest_path
  open_guest_path-Keeps dirfd path flags =
      bind-Keeps _ _ (resolve_path-Keeps dirfd path) (λ resolved.
        bind-Keeps _ _ (gets-Keeps (λ s. s.process.executable_path)) (λ exe.
          bind-Keeps _ _ (gets-Keeps (λ s. os.files.nanos s.world)) (λ nanos.
            by_kind-Keeps resolved _ _
              (λ guest v. insert_fd-Keeps (virtual (open_virtual nanos v exe)))
              (λ guest host. open_host_path-Keeps host flags))))

  pub write_stat_for_guest_path-Keeps :
      (dirfd : Option ℕ) (path : List ℕ) (addr : ℕ)
      → Keeps (write_stat_for_guest_path os dirfd path addr)
  unfolding write_stat_for_guest_path
  write_stat_for_guest_path-Keeps dirfd path addr =
      bind-Keeps _ _ (resolve_path-Keeps dirfd path) (λ resolved.
        bind-Keeps _ _ (gets-Keeps (λ s. s.process.executable_path)) (λ exe.
          bind-Keeps _ _ (gets-Keeps (λ s. os.files.nanos s.world)) (λ nanos.
            by_kind-Keeps resolved _ _
              (λ guest v.
                with_memory-Keeps (write_stat addr (virtual_stat (open_virtual nanos v exe))))
              (λ guest host.
                bind-Keeps _ _ (stat_of_path-Keeps host)
                  (λ stat. with_memory-Keeps (write_stat addr stat))))))

  pub execve_request-Keeps :
      (guest_path : List ℕ) (argv envp : ℕ) → Keeps (execve_request os guest_path argv envp)
  unfolding execve_request
  execve_request-Keeps guest_path argv envp =
      bind-Keeps _ _ (resolve_path-Keeps none guest_path) (λ resolved.
        host_or-Keeps acces _ resolved
          (λ host. search (keeping, read_string_vector-Keeps os) depth 12))

  pub chdir-Keeps : (path : List ℕ) → Keeps (chdir os path)
  unfolding chdir
  chdir-Keeps path = bind-Keeps _ _ (resolve_path-Keeps none path) (λ resolved.
      by_kind-Keeps resolved _ _ (λ guest v. search keeping)
        (λ guest host. search (keeping, with_process-Keeps, set_cwd-Same) depth 12))

  pub access-Keeps : (path : List ℕ) → Keeps (access os path)
  unfolding access
  access-Keeps path = bind-Keeps _ _ (resolve_path-Keeps none path) (λ resolved.
      by_kind-Keeps resolved _ _ (λ guest v. search keeping)
        (λ guest host. search keeping depth 12))

  target_in-Keeps : (v : VirtualFile) → Keeps (target_in os v)
  unfolding target_in
  target_in-Keeps proc_self_exe = search keeping
  target_in-Keeps dev_null = search keeping
  target_in-Keeps dev_zero = search keeping
  target_in-Keeps dev_random = search keeping
  target_in-Keeps dev_urandom = search keeping
  target_in-Keeps proc_version = search keeping
  target_in-Keeps proc_cpu_info = search keeping
  target_in-Keeps proc_mem_info = search keeping

  pub link_target-Keeps : (path : List ℕ) → Keeps (link_target os path)
  unfolding link_target
  link_target-Keeps path = bind-Keeps _ _ (resolve_path-Keeps none path) (λ resolved.
      by_kind-Keeps resolved _ _ (λ guest v. target_in-Keeps v) (λ guest host. search keeping))
