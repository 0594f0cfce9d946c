-- ===== src/Linux/Dispatch.antt =====
-- crates/ruxeon-linux/src/lib.rs: `SyscallDispatcher`. Most arms of `dispatch_inner` have a value, the others an
-- outcome of their own.
pub mod Tracing
use ruxeon.Common.{
  ℕ, ◌-◌, bit_and, Bool, true, false, not, Option, none, [], ◌∷◌, ◌++◌, ◌==◌, if◌then◌else◌, Result,
  ok, err,
}
use ruxeon.Common.Words.{u64_mod}
use ruxeon.Common.Actions.{pure, fail, gets, ◌>>=◌, ◌>>◌}
use ruxeon.Errno.{Errno, errno_code, fault, no_sys, inval, SyscallError, memory, errno}
use ruxeon.Syscall
use ruxeon.Syscall.{
  SyscallNumber, name, from_raw, read, write, readv, writev, open_file, close, stat, fstat, lstat,
  mmap, mprotect, munmap, brk, ioctl, pipe, poll, dup, dup2, nanosleep, clone, fork, vfork, execve,
  wait4, fcntl, mkdir, rmdir, unlink, getdents, times, sysinfo, access_file, arch_prctl, getpid,
  sendfile, getppid, getpgrp, gettid, getuid, getgid, setpgid, getpgid, geteuid, getegid, getcwd,
  chdir, readlink, uname, getdents64, clock_gettime, ppoll, dup3, pipe2, openat, mkdirat, unlinkat,
  newfstatat, set_tid_address, getrandom, exit, other,
}
use ruxeon.Registers.{Registers}
use ruxeon.Linux.Os.{Os}
use ruxeon.Linux.State.{
  SyscallArgs, SyscallInput, SyscallOutcome, return_value, SyscallTrace, LinuxProcess, System,
  Handler, with_memory, return_with, execve_with,
}
use ruxeon.Linux.Arguments.{fd_arg_allow_at_fdcwd, read_c_string, clock_now, write_timespec}
use ruxeon.Linux.Heap
use ruxeon.Linux.Transfer
use ruxeon.Linux.Stat.{write_stat, write_uname, write_sysinfo, stat_of_fd}
use ruxeon.Linux.Paths
use ruxeon.Linux.Paths.{
  mkdir_guest_path, remove_guest_path, open_guest_path, write_stat_for_guest_path, execve_request,
}
use ruxeon.Linux.Ioctl
use ruxeon.Linux.Fork
use ruxeon.Linux.Fork.{wait_for}
use ruxeon.Linux.Handlers.{
  fd_of, with_path, with_path_at, then_zero, syscall_read, syscall_write, syscall_getdents,
  syscall_pipe, syscall_dup, syscall_dup2, syscall_fcntl, syscall_close, syscall_mprotect,
  syscall_munmap, syscall_arch_prctl, syscall_setpgid, syscall_getcwd, syscall_readlink,
  syscall_nanosleep, syscall_times, syscall_set_tid_address, syscall_getrandom,
}

-- `linux_return`: the code's negation.
unfoldable pub linux_return : Errno → ℕ
linux_return e = u64_mod - errno_code e

unfoldable pub error_return : SyscallError → ℕ
unfolding linux_return
error_return (errno e) = linux_return e
error_return (memory e) = linux_return fault

abbrev has_cloexec : ℕ → Bool
has_cloexec flags = not (bit_and flags 0o2000000 == 0)

abbrev pub outcome_of : Result SyscallError SyscallOutcome → SyscallOutcome
outcome_of (ok outcome) = outcome
outcome_of (err e) = return_with (error_return e)

abbrev pub trace_of : SyscallInput → SyscallOutcome → SyscallTrace
trace_of input outcome = record {
  number = input.number;
  name = Syscall.name (from_raw input.number);
  args = input.args;
  return_value = return_value outcome;
}

abbrev pub add_trace : {File : Type 0} → SyscallTrace → LinuxProcess File → LinuxProcess File
add_trace entry p = record p { trace = p.trace ++ entry ∷ [] }

module _ {File World : Type 0} (os : Os File World) where
  -- An arm whose value becomes the outcome's.
  abbrev pub returning : Handler File World ℕ → Handler File World SyscallOutcome
  returning action = do value ← action; pure (return_with value)

  -- What the last clause stands for answers 0: the waiting on sets of descriptors, the signals, the limits and the
  -- robust list.
  unfoldable pub dispatch_inner :
      SyscallNumber → SyscallArgs → Option Registers → Handler File World SyscallOutcome
  unfolding syscall_read syscall_write syscall_getdents syscall_pipe syscall_dup syscall_dup2
      syscall_fcntl syscall_close syscall_mprotect syscall_munmap syscall_arch_prctl syscall_setpgid
      syscall_getcwd syscall_readlink syscall_nanosleep syscall_times syscall_set_tid_address
      syscall_getrandom Transfer.writev Transfer.readv Transfer.sendfile Transfer.poll_fds
      read_c_string open_guest_path mkdir_guest_path remove_guest_path write_stat_for_guest_path
      stat_of_fd write_stat Heap.brk Heap.mmap write_uname Paths.chdir Paths.access Ioctl.ioctl
      write_timespec clock_now write_sysinfo Fork.fork fd_arg_allow_at_fdcwd Fork.exit_group
      wait_for execve_request
  dispatch_inner read a regs = returning (syscall_read os a)
  dispatch_inner write a regs = returning (syscall_write os a)
  dispatch_inner writev a regs =
      returning (do fd ← fd_of os a.arg0; Transfer.writev os fd a.arg1 a.arg2)
  dispatch_inner readv a regs =
      returning (do fd ← fd_of os a.arg0; Transfer.readv os fd a.arg1 a.arg2)
  dispatch_inner sendfile a regs = returning (do
    out_fd ← fd_of os a.arg0
    in_fd ← fd_of os a.arg1
    Transfer.sendfile os out_fd in_fd a.arg2 a.arg3)
  dispatch_inner open_file a regs =
      returning (with_path os a.arg0 (λ path. open_guest_path os none path a.arg1))
  dispatch_inner mkdir a regs =
      returning (with_path os a.arg0 (λ path. mkdir_guest_path os none path))
  dispatch_inner rmdir a regs =
      returning (with_path os a.arg0 (λ path. remove_guest_path os none path true))
  dispatch_inner unlink a regs =
      returning (with_path os a.arg0 (λ path. remove_guest_path os none path false))
  dispatch_inner openat a regs =
      returning (with_path_at os a.arg0 a.arg1 (λ dirfd path. open_guest_path os dirfd path a.arg2))
  dispatch_inner mkdirat a regs =
      returning (with_path_at os a.arg0 a.arg1 (λ dirfd path. mkdir_guest_path os dirfd path))
  dispatch_inner unlinkat a regs = returning (
      with_path_at os a.arg0 a.arg1
        (λ dirfd path. remove_guest_path os dirfd path (not (bit_and a.arg2 0x200 == 0))))
  dispatch_inner close a regs = returning (syscall_close os a)
  dispatch_inner pipe a regs = returning (syscall_pipe os false a)
  dispatch_inner pipe2 a regs = returning (syscall_pipe os (has_cloexec a.arg1) a)
  dispatch_inner dup a regs = returning (syscall_dup os a)
  dispatch_inner dup2 a regs = returning (syscall_dup2 os false a)
  dispatch_inner dup3 a regs =
      returning
        (if a.arg0 == a.arg1 then fail (errno inval) else syscall_dup2 os (has_cloexec a.arg2) a)
  dispatch_inner fcntl a regs = returning (syscall_fcntl os a)
  dispatch_inner getdents a regs = returning (syscall_getdents os a)
  dispatch_inner getdents64 a regs = returning (syscall_getdents os a)
  dispatch_inner stat a regs =
      returning
        (with_path os a.arg0 (λ path. then_zero os (write_stat_for_guest_path os none path a.arg1)))
  dispatch_inner lstat a regs =
      returning
        (with_path os a.arg0 (λ path. then_zero os (write_stat_for_guest_path os none path a.arg1)))
  dispatch_inner fstat a regs = returning (do
    fd ← fd_of os a.arg0
    found ← stat_of_fd os fd
    then_zero os (with_memory (write_stat a.arg1 found)))
  dispatch_inner newfstatat a regs = returning (
      with_path_at os a.arg0 a.arg1
        (λ dirfd path. then_zero os (write_stat_for_guest_path os dirfd path a.arg2)))
  dispatch_inner brk a regs = returning (Heap.brk a.arg0)
  dispatch_inner mmap a regs = returning (Heap.mmap os a.arg0 a.arg1 a.arg2 a.arg3 a.arg4 a.arg5)
  dispatch_inner munmap a regs = returning (syscall_munmap os a)
  dispatch_inner mprotect a regs = returning (syscall_mprotect os a)
  dispatch_inner arch_prctl a regs = returning (syscall_arch_prctl os a)
  dispatch_inner getpid a regs = returning (gets (λ s. s.process.pid))
  dispatch_inner getppid a regs = returning (gets (λ s. s.process.ppid))
  dispatch_inner getpgrp a regs = returning (gets (λ s. s.process.pgid))
  dispatch_inner getpgid a regs = returning (gets (λ s. s.process.pgid))
  dispatch_inner gettid a regs = returning (gets (λ s. s.process.tid))
  dispatch_inner getuid a regs = returning (pure 0)
  dispatch_inner getgid a regs = returning (pure 0)
  dispatch_inner geteuid a regs = returning (pure 0)
  dispatch_inner getegid a regs = returning (pure 0)
  dispatch_inner setpgid a regs = returning (syscall_setpgid os a)
  dispatch_inner uname a regs = returning (then_zero os (with_memory (write_uname a.arg0)))
  dispatch_inner getcwd a regs = returning (syscall_getcwd os a)
  dispatch_inner chdir a regs = returning (with_path os a.arg0 (Paths.chdir os))
  dispatch_inner access_file a regs = returning (with_path os a.arg0 (Paths.access os))
  dispatch_inner readlink a regs = returning (syscall_readlink os a)
  dispatch_inner ioctl a regs = returning (do fd ← fd_of os a.arg0; Ioctl.ioctl os fd a.arg1 a.arg2)
  dispatch_inner clock_gettime a regs =
      returning (do time ← clock_now os a.arg0; then_zero os (write_timespec a.arg1 time))
  dispatch_inner nanosleep a regs = returning (syscall_nanosleep os a)
  dispatch_inner times a regs = returning (syscall_times os a)
  dispatch_inner sysinfo a regs = returning (then_zero os (write_sysinfo a.arg0))
  dispatch_inner poll a regs = returning (Transfer.poll_fds os a.arg0 a.arg1)
  dispatch_inner ppoll a regs = returning (Transfer.poll_fds os a.arg0 a.arg1)
  dispatch_inner clone a regs = returning (Fork.fork os regs)
  dispatch_inner fork a regs = returning (Fork.fork os regs)
  dispatch_inner vfork a regs = returning (Fork.fork os regs)
  dispatch_inner set_tid_address a regs = returning (syscall_set_tid_address os a)
  dispatch_inner getrandom a regs = returning (syscall_getrandom os a)
  dispatch_inner (other n) a regs = fail (errno no_sys)
  dispatch_inner exit a regs = Fork.exit_group a.arg0
  dispatch_inner Syscall.exit_group a regs = Fork.exit_group a.arg0
  dispatch_inner wait4 a regs = wait_for a.arg0 a.arg1 a.arg2
  dispatch_inner execve a regs = do
    path ← read_c_string os a.arg0
    request ← execve_request os path a.arg1 a.arg2
    pure (execve_with request)
  dispatch_inner _ a regs = returning (pure 0)

  -- `dispatch_with_process_model`; `dispatch` is the same without a table and without registers.
  unfoldable pub dispatch :
      SyscallInput → Option Registers → System File World → SyscallOutcome × System File World
  unfolding from_raw dispatch_inner error_return return_value Syscall.name
  dispatch input regs s =
      let (r, s') = dispatch_inner (from_raw input.number) input.args regs s in
      let outcome = outcome_of r in
      (outcome, record s' { process = add_trace (trace_of input outcome) s'.process })
