-- ===== src/Linux/Dispatch/Tracing.antt =====
-- What a call of the dispatcher leaves of the process, and the trace that it adds.
use ruxeon.Common.{
  ℕ, ◌+◌, ◌^◌, ◌<◌, ◌≤◌, ◌⊎◌, inl, inr, Bool-cases, ltb, arith, ◌≡◌, refl, ap, true, false, Option,
  none, List, [], ◌∷◌, ◌++◌, ◌==◌,
}
use ruxeon.Errno.{errno, inval, no_sys}
use ruxeon.Syscall
use ruxeon.Syscall.{
  SyscallNumber, from_raw, read, write, readv, writev, open_file, close, stat, fstat, lstat, mmap,
  mprotect, munmap, brk, rt_sigreturn, ioctl, pipe, select, poll, dup, dup2, nanosleep, clone, fork,
  vfork, execve, wait4, kill, fcntl, mkdir, rmdir, unlink, getdents, times, sysinfo, access_file,
  arch_prctl, getpid, sendfile, getppid, getpgrp, gettid, getuid, getgid, setpgid, getpgid, geteuid,
  getegid, getcwd, chdir, readlink, uname, sigaltstack, getdents64, clock_gettime, pselect6, ppoll,
  dup3, pipe2, openat, mkdirat, unlinkat, newfstatat, rt_sigaction, rt_sigprocmask, set_tid_address,
  set_robust_list, prlimit64, getrandom, exit, other,
}
use ruxeon.Registers.{Registers}
use ruxeon.Linux.Os.{Os}
use ruxeon.Linux.State.{
  SyscallArgs, SyscallInput, SyscallOutcome, SyscallTrace, System, Handler, return_value,
  return_with, blocked, exit_with, execve_with,
}
use ruxeon.Linux.Keeping.{
  pure-Keeps, fail-Keeps, of_result-Keeps, if-Keeps, bind-Keeps, Same, Keeps, keeping,
}
use ruxeon.Linux.Keeping.Basics.{
  write_timespec-Keeps, read_c_string-Keeps, clock_now-Keeps, brk-Keeps, mmap-Keeps,
}
use ruxeon.Linux.Keeping.Transfer.{poll_fds-Keeps, writev-Keeps, readv-Keeps, sendfile-Keeps}
use ruxeon.Linux.Keeping.Paths.{
  write_sysinfo-Keeps, stat_of_fd-Keeps, mkdir_guest_path-Keeps, remove_guest_path-Keeps,
  open_guest_path-Keeps, write_stat_for_guest_path-Keeps, execve_request-Keeps, chdir-Keeps,
  access-Keeps,
}
use ruxeon.Linux.Keeping.Handlers.{
  ioctl-Keeps, fork-Keeps, exit_group-Keeps, wait_for-Keeps, syscall_read-Keeps,
  syscall_write-Keeps, syscall_getdents-Keeps, syscall_pipe-Keeps, syscall_dup-Keeps,
  syscall_dup2-Keeps, syscall_fcntl-Keeps, syscall_close-Keeps, syscall_mprotect-Keeps,
  syscall_munmap-Keeps, syscall_arch_prctl-Keeps, syscall_setpgid-Keeps, syscall_getcwd-Keeps,
  syscall_readlink-Keeps, syscall_nanosleep-Keeps, syscall_times-Keeps,
  syscall_set_tid_address-Keeps, syscall_getrandom-Keeps,
}
use ruxeon.Linux.Paths.{write_stat_for_guest_path}
use ruxeon.Linux.Handlers.{with_path, with_path_at, then_zero}
use ruxeon.Linux.Dispatch.{outcome_of, trace_of, returning, dispatch_inner, dispatch}

module _ {File World : Type 0} (os : Os File World) where
  with_path-Keeps :
      (addr : ℕ) (f : List ℕ → Handler File World ℕ)
      → ((path : List ℕ) → Keeps (f path))
      → Keeps (with_path os addr f)
  with_path-Keeps addr f h = bind-Keeps _ _ (read_c_string-Keeps os addr) h

  with_path_at-Keeps :
      (dirfd addr : ℕ) (f : Option ℕ → List ℕ → Handler File World ℕ)
      → ((fd : Option ℕ) (path : List ℕ) → Keeps (f fd path))
      → Keeps (with_path_at os dirfd addr f)
  with_path_at-Keeps dirfd addr f h =
      bind-Keeps _ _ (read_c_string-Keeps os addr)
        (λ path. bind-Keeps _ _ (of_result-Keeps _) (λ fd. h fd path))

  stat-Keeps :
      (dirfd : Option ℕ) (path : List ℕ) (addr : ℕ)
      → Keeps (then_zero os (write_stat_for_guest_path os dirfd path addr))
  stat-Keeps dirfd path addr =
      bind-Keeps _ _ (write_stat_for_guest_path-Keeps os dirfd path addr) (λ u. pure-Keeps 0)

  returning-Keeps : {m : Handler File World ℕ} → Keeps m → Keeps (returning os m)
  returning-Keeps h = bind-Keeps _ _ h (λ value. pure-Keeps (return_with value))

  dispatch_inner-Keeps :
      (number : SyscallNumber) (a : SyscallArgs) (regs : Option Registers)
      → Keeps (dispatch_inner os number a regs)
  unfolding dispatch_inner
  dispatch_inner-Keeps read a regs = returning-Keeps (syscall_read-Keeps os a)
  dispatch_inner-Keeps write a regs = returning-Keeps (syscall_write-Keeps os a)
  dispatch_inner-Keeps writev a regs = search (keeping, writev-Keeps os) depth 12
  dispatch_inner-Keeps readv a regs = search (keeping, readv-Keeps os) depth 12
  dispatch_inner-Keeps sendfile a regs = search (keeping, sendfile-Keeps os) depth 12
  dispatch_inner-Keeps open_file a regs =
      returning-Keeps (with_path-Keeps a.arg0 _ (λ path. open_guest_path-Keeps os none path a.arg1))
  dispatch_inner-Keeps mkdir a regs =
      returning-Keeps (with_path-Keeps a.arg0 _ (λ path. mkdir_guest_path-Keeps os none path))
  dispatch_inner-Keeps rmdir a regs =
      returning-Keeps (with_path-Keeps a.arg0 _ (λ path. remove_guest_path-Keeps os none path true))
  dispatch_inner-Keeps unlink a regs =
      returning-Keeps
        (with_path-Keeps a.arg0 _ (λ path. remove_guest_path-Keeps os none path false))
  dispatch_inner-Keeps openat a regs =
      returning-Keeps
        (with_path_at-Keeps a.arg0 a.arg1 _ (λ fd path. open_guest_path-Keeps os fd path a.arg2))
  dispatch_inner-Keeps mkdirat a regs =
      returning-Keeps
        (with_path_at-Keeps a.arg0 a.arg1 _ (λ fd path. mkdir_guest_path-Keeps os fd path))
  dispatch_inner-Keeps unlinkat a regs =
      returning-Keeps
        (with_path_at-Keeps a.arg0 a.arg1 _ (λ fd path. remove_guest_path-Keeps os fd path _))
  dispatch_inner-Keeps close a regs = returning-Keeps (syscall_close-Keeps os a)
  dispatch_inner-Keeps pipe a regs = returning-Keeps (syscall_pipe-Keeps os false a)
  dispatch_inner-Keeps pipe2 a regs = returning-Keeps (syscall_pipe-Keeps os _ a)
  dispatch_inner-Keeps dup a regs = returning-Keeps (syscall_dup-Keeps os a)
  dispatch_inner-Keeps dup2 a regs = returning-Keeps (syscall_dup2-Keeps os false a)
  dispatch_inner-Keeps dup3 a regs =
      returning-Keeps
        (if-Keeps (a.arg0 == a.arg1) _ _ (fail-Keeps (errno inval)) (syscall_dup2-Keeps os _ a))
  dispatch_inner-Keeps fcntl a regs = returning-Keeps (syscall_fcntl-Keeps os a)
  dispatch_inner-Keeps getdents a regs = returning-Keeps (syscall_getdents-Keeps os a)
  dispatch_inner-Keeps getdents64 a regs = returning-Keeps (syscall_getdents-Keeps os a)
  dispatch_inner-Keeps stat a regs =
      returning-Keeps (with_path-Keeps a.arg0 _ (λ path. stat-Keeps none path a.arg1))
  dispatch_inner-Keeps lstat a regs =
      returning-Keeps (with_path-Keeps a.arg0 _ (λ path. stat-Keeps none path a.arg1))
  dispatch_inner-Keeps fstat a regs = search (keeping, stat_of_fd-Keeps os) depth 12
  dispatch_inner-Keeps newfstatat a regs =
      returning-Keeps (with_path_at-Keeps a.arg0 a.arg1 _ (λ fd path. stat-Keeps fd path a.arg2))
  dispatch_inner-Keeps brk a regs = returning-Keeps (brk-Keeps a.arg0)
  dispatch_inner-Keeps mmap a regs =
      returning-Keeps (mmap-Keeps os a.arg0 a.arg1 a.arg2 a.arg3 a.arg4 a.arg5)
  dispatch_inner-Keeps munmap a regs = returning-Keeps (syscall_munmap-Keeps os a)
  dispatch_inner-Keeps mprotect a regs = returning-Keeps (syscall_mprotect-Keeps os a)
  dispatch_inner-Keeps arch_prctl a regs = returning-Keeps (syscall_arch_prctl-Keeps os a)
  dispatch_inner-Keeps getpid a regs = search keeping depth 12
  dispatch_inner-Keeps getppid a regs = search keeping depth 12
  dispatch_inner-Keeps getpgrp a regs = search keeping depth 12
  dispatch_inner-Keeps getpgid a regs = search keeping depth 12
  dispatch_inner-Keeps gettid a regs = search keeping depth 12
  dispatch_inner-Keeps getuid a regs = search keeping depth 12
  dispatch_inner-Keeps getgid a regs = search keeping depth 12
  dispatch_inner-Keeps geteuid a regs = search keeping depth 12
  dispatch_inner-Keeps getegid a regs = search keeping depth 12
  dispatch_inner-Keeps setpgid a regs = returning-Keeps (syscall_setpgid-Keeps os a)
  dispatch_inner-Keeps uname a regs = search keeping depth 12
  dispatch_inner-Keeps getcwd a regs = returning-Keeps (syscall_getcwd-Keeps os a)
  dispatch_inner-Keeps chdir a regs = returning-Keeps (with_path-Keeps a.arg0 _ (chdir-Keeps os))
  dispatch_inner-Keeps access_file a regs =
      returning-Keeps (with_path-Keeps a.arg0 _ (access-Keeps os))
  dispatch_inner-Keeps readlink a regs = returning-Keeps (syscall_readlink-Keeps os a)
  dispatch_inner-Keeps ioctl a regs = search (keeping, ioctl-Keeps os) depth 12
  dispatch_inner-Keeps clock_gettime a regs =
      search (keeping, clock_now-Keeps os, write_timespec-Keeps) depth 12
  dispatch_inner-Keeps nanosleep a regs = returning-Keeps (syscall_nanosleep-Keeps os a)
  dispatch_inner-Keeps times a regs = returning-Keeps (syscall_times-Keeps os a)
  dispatch_inner-Keeps sysinfo a regs = search (keeping, write_sysinfo-Keeps) depth 12
  dispatch_inner-Keeps poll a regs = returning-Keeps (poll_fds-Keeps os a.arg0 a.arg1)
  dispatch_inner-Keeps ppoll a regs = returning-Keeps (poll_fds-Keeps os a.arg0 a.arg1)
  dispatch_inner-Keeps clone a regs = returning-Keeps (fork-Keeps os regs)
  dispatch_inner-Keeps fork a regs = returning-Keeps (fork-Keeps os regs)
  dispatch_inner-Keeps vfork a regs = returning-Keeps (fork-Keeps os regs)
  dispatch_inner-Keeps set_tid_address a regs = returning-Keeps (syscall_set_tid_address-Keeps os a)
  dispatch_inner-Keeps getrandom a regs = returning-Keeps (syscall_getrandom-Keeps os a)
  dispatch_inner-Keeps (other n) a regs = fail-Keeps (errno no_sys)
  dispatch_inner-Keeps rt_sigreturn a regs = search keeping
  dispatch_inner-Keeps select a regs = search keeping
  dispatch_inner-Keeps execve a regs =
      search (keeping, read_c_string-Keeps os, execve_request-Keeps os)
  dispatch_inner-Keeps wait4 a regs = wait_for-Keeps a.arg0 a.arg1 a.arg2
  dispatch_inner-Keeps kill a regs = search keeping
  dispatch_inner-Keeps exit a regs = exit_group-Keeps a.arg0
  dispatch_inner-Keeps Syscall.exit_group a regs = exit_group-Keeps a.arg0
  dispatch_inner-Keeps rt_sigaction a regs = search keeping
  dispatch_inner-Keeps rt_sigprocmask a regs = search keeping
  dispatch_inner-Keeps sigaltstack a regs = search keeping
  dispatch_inner-Keeps pselect6 a regs = search keeping
  dispatch_inner-Keeps set_robust_list a regs = search keeping
  dispatch_inner-Keeps prlimit64 a regs = search keeping

-- The number that the caller receives as the call's result: a returned value itself, an exit code as a signed number in
-- two's complement, and zero where no value is returned.
abbrev pub Receives : SyscallOutcome → ℕ → Type 0
Receives (return_with v) received = received ≡ v
Receives blocked received = received ≡ 0
Receives (exit_with code) received =
    (code < 2 ^ 31) × (received ≡ code) ⊎ ((2 ^ 31 ≤ code) × (received + 2 ^ 32 ≡ code + 2 ^ 64))
Receives (execve_with _) received = received ≡ 0

-- A trace's entry for a call and its outcome.
pub record IsEntry (input : SyscallInput) (outcome : SyscallOutcome) (entry : SyscallTrace)
    : Type 0 where
  pub number_is : entry.number ≡ input.number
  pub name_is : entry.name ≡ Syscall.name (from_raw input.number)
  pub args_is : entry.args ≡ input.args
  pub received : Receives outcome entry.return_value

return_value-Receives : (outcome : SyscallOutcome) → Receives outcome (return_value outcome)
unfolding return_value
return_value-Receives (return_with v) = refl
return_value-Receives blocked = refl
return_value-Receives (exit_with code) = elim (Bool-cases (ltb code (2 ^ 31))) [
  | inl below ↦ inl (ground (arith, below), rw below refl)
  | inr above ↦ inr (ground (arith, above), rw above (omega arith))
]
return_value-Receives (execve_with _) = refl

-- Whatever it is given, and whether it succeeds or not, a call of the dispatcher leaves the process who it is, where
-- its root is, what it runs and where its heap begins, and adds exactly one entry to its trace: the call's number, name
-- and arguments, with the value that the caller receives (for an exit its signed code, and zero where none is returned).
pub dispatch-IsTraced :
    {File World : Type 0} (os : Os File World) (input : SyscallInput) (regs : Option Registers)
    (s : System File World)
    → let (outcome, s') = dispatch os input regs s in
      Same s.process (record (s'.process) { trace = s.process.trace })
      × (entry : SyscallTrace) × IsEntry input outcome entry
      × (s'.process.trace ≡ s.process.trace ++ entry ∷ [])
unfolding dispatch
dispatch-IsTraced os input regs s =
    let (r, s') = dispatch_inner os (from_raw input.number) input.args regs s in
    let k = (dispatch_inner-Keeps os (from_raw input.number) input.args regs).keeps s in
    (
      record {
        pid = k.pid;
        tid = k.tid;
        ppid = k.ppid;
        rootfs = k.rootfs;
        executable_path = k.executable_path;
        brk_base = k.brk_base;
        trace = refl;
      },
      trace_of input (outcome_of r),
      record {
        number_is = refl;
        name_is = refl;
        args_is = refl;
        received = return_value-Receives (outcome_of r);
      },
      ap (λ t. t ++ trace_of input (outcome_of r) ∷ []) k.trace,
    )
