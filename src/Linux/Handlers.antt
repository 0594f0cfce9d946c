-- ===== src/Linux/Handlers.antt =====
-- crates/ruxeon-linux/src/lib.rs: the larger arms of `SyscallDispatcher::dispatch_inner`.
use ruxeon.Common.{
  ℕ, ◌%◌, ◌^◌, min, Bool, false, Option, List, [], ◌∷◌, ◌++◌, ltb, ◌==◌, if◌then◌else◌, length,
  take, ok, err,
}
use ruxeon.Common.Actions.{pure, fail, gets, of_result, ◌>>=◌, ◌>>◌}
use ruxeon.Region.{page_size}
use ruxeon.Memory.{protect, unmap_range}
use ruxeon.Access.{read_bytes, write_bytes, write_word}
use ruxeon.Errno.{no_ent, inval, errno}
use ruxeon.FdTable.{widened, fd_arg, duplicate, duplicate_to, fcntl}
use ruxeon.FdTable
use ruxeon.FdIo
use ruxeon.Linux.Os.{Os}
use ruxeon.Linux.Terminal.{plus, and_then}
use ruxeon.Linux.State.{
  SyscallArgs, Handler, with_process, with_memory, from_memory, with_files, with_table, with_world,
  fail_when,
}
use ruxeon.Linux.Arguments.{
  align_up, memory_permissions, fd_arg_allow_at_fdcwd, deterministic_random, read_c_string,
  read_timespec,
}
use ruxeon.Linux.Transfer.{read_fd, write_fd}
use ruxeon.Linux.Directory.{getdents64}
use ruxeon.Linux.Paths.{link_target}

module _ {File World : Type 0} (os : Os File World) where
  abbrev pub fd_of : ℕ → Handler File World ℕ
  fd_of arg = of_result (fd_arg arg)

  abbrev pub dirfd_of : ℕ → Handler File World (Option ℕ)
  dirfd_of arg = of_result (fd_arg_allow_at_fdcwd arg)

  abbrev pub with_path : ℕ → (List ℕ → Handler File World ℕ) → Handler File World ℕ
  with_path addr f = do path ← read_c_string os addr; f path

  abbrev pub with_path_at :
      ℕ → ℕ → (Option ℕ → List ℕ → Handler File World ℕ) → Handler File World ℕ
  with_path_at dirfd addr f = do
    path ← read_c_string os addr
    dirfd' ← dirfd_of dirfd
    f dirfd' path

  abbrev pub then_zero : Handler File World (Unit {0}) → Handler File World ℕ
  then_zero action = do action; pure 0

  -- Bytes that a descriptor yields go into the guest's buffer.
  unfoldable pub deliver : ℕ → List ℕ → Handler File World ℕ
  unfolding write_bytes
  deliver addr bytes = do with_memory (write_bytes addr bytes); pure (length bytes)

  unfoldable pub syscall_read : SyscallArgs → Handler File World ℕ
  unfolding FdIo.read deliver
  syscall_read a = do fd ← fd_of a.arg0; bytes ← read_fd os fd a.arg2; deliver a.arg1 bytes

  unfoldable pub syscall_write : SyscallArgs → Handler File World ℕ
  unfolding read_bytes FdIo.write
  syscall_write a = do
    fd ← fd_of a.arg0
    bytes ← from_memory (read_bytes a.arg1 a.arg2)
    write_fd os fd bytes

  unfoldable pub syscall_getdents : SyscallArgs → Handler File World ℕ
  unfolding getdents64 deliver
  syscall_getdents a = do
    fd ← fd_of a.arg0
    bytes ← with_files (getdents64 fd a.arg2)
    deliver a.arg1 bytes

  unfoldable pub syscall_pipe : Bool → SyscallArgs → Handler File World ℕ
  unfolding FdIo.pipe write_word
  syscall_pipe close_on_exec a = do
    (read_fd', write_fd') ←
        with_files (λ files. let (p, files') = FdIo.pipe close_on_exec files in (ok p, files'))
    with_memory (and_then (write_word 4 a.arg0 read_fd') (write_word 4 (plus a.arg0 4) write_fd'))
    pure 0

  unfoldable pub syscall_dup : SyscallArgs → Handler File World ℕ
  unfolding duplicate
  syscall_dup a = do
    fd ← fd_of a.arg0
    with_table (λ w t. widened (duplicate (os.try_clone w) fd 0 false t))

  unfoldable pub syscall_dup2 : Bool → SyscallArgs → Handler File World ℕ
  unfolding duplicate_to
  syscall_dup2 close_on_exec a = do
    old_fd ← fd_of a.arg0
    new_fd ← fd_of a.arg1
    with_table (λ w t. widened (duplicate_to (os.try_clone w) old_fd new_fd close_on_exec t))

  unfoldable pub syscall_fcntl : SyscallArgs → Handler File World ℕ
  unfolding fcntl
  syscall_fcntl a = do fd ← fd_of a.arg0; with_table (λ w. fcntl (os.try_clone w) fd a.arg1 a.arg2)

  unfoldable pub syscall_close : SyscallArgs → Handler File World ℕ
  unfolding FdTable.close
  syscall_close a = do
    fd ← fd_of a.arg0
    with_table (λ w t. elim (FdTable.close fd t) [ ok t' ↦ ok (0, t') | err e ↦ err e ])

  unfoldable pub syscall_mprotect : SyscallArgs → Handler File World ℕ
  unfolding align_up protect memory_permissions
  syscall_mprotect a =
      then_zero
        (with_memory (protect a.arg0 (align_up a.arg1 page_size) (memory_permissions a.arg2)))

  unfoldable pub syscall_munmap : SyscallArgs → Handler File World ℕ
  unfolding align_up unmap_range
  syscall_munmap a = then_zero (with_memory (unmap_range a.arg0 (align_up a.arg1 page_size)))

  -- `ARCH_SET_FS` and `ARCH_GET_FS`.
  unfoldable pub syscall_arch_prctl : SyscallArgs → Handler File World ℕ
  unfolding write_word
  syscall_arch_prctl a =
      if a.arg0 == 0x1002
      then then_zero (with_process (λ p. record p { fs_base = a.arg1 }))
      else if a.arg0 == 0x1003
      then (do
        base ← gets (λ s. s.process.fs_base)
        then_zero (with_memory (write_word 8 a.arg1 base)))
      else fail (errno inval)

  unfoldable pub syscall_setpgid : SyscallArgs → Handler File World ℕ
  syscall_setpgid a =
      then_zero
        (with_process (λ p. record p { pgid = if a.arg1 == 0 then p.pid else a.arg1 % 2 ^ 32 }))

  unfoldable pub syscall_getcwd : SyscallArgs → Handler File World ℕ
  unfolding write_bytes
  syscall_getcwd a = do
    bytes ← gets (λ s. s.process.cwd.raw ++ 0 ∷ [])
    fail_when (ltb a.arg1 (length bytes)) no_ent
    with_memory (write_bytes a.arg0 bytes)
    pure (a.arg0)

  unfoldable pub syscall_readlink : SyscallArgs → Handler File World ℕ
  unfolding read_c_string link_target deliver
  syscall_readlink a =
      with_path a.arg0
        (λ path. do target ← link_target os path; deliver a.arg1 (take a.arg2 target))

  unfoldable pub syscall_nanosleep : SyscallArgs → Handler File World ℕ
  unfolding read_timespec write_word
  syscall_nanosleep a = do
    (secs, nanos) ← read_timespec a.arg0
    (if a.arg1 == 0
        then pure tt
        else with_memory (and_then (write_word 8 a.arg1 0) (write_word 8 (plus a.arg1 8) 0)))
    then_zero (with_world (λ w. (ok tt, os.sleep (secs, min nanos 999999999) w)))

  unfoldable pub syscall_times : SyscallArgs → Handler File World ℕ
  unfolding write_word
  syscall_times a =
      if a.arg0 == 0
      then pure 0
      else then_zero (
          with_memory (
            and_then (write_word 8 a.arg0 0) (
              and_then (write_word 8 (plus a.arg0 8) 0)
                (and_then (write_word 8 (plus a.arg0 16) 0) (write_word 8 (plus a.arg0 24) 0)))))

  unfoldable pub syscall_set_tid_address : SyscallArgs → Handler File World ℕ
  unfolding write_word
  syscall_set_tid_address a = do
    with_process (λ p. record p { set_tid_address = a.arg0 })
    tid ← gets (λ s. s.process.tid)
    (if a.arg0 == 0 then pure tt else with_memory (write_word 4 a.arg0 tid))
    pure tid

  unfoldable pub syscall_getrandom : SyscallArgs → Handler File World ℕ
  unfolding deterministic_random deliver
  syscall_getrandom a = deliver a.arg0 (deterministic_random a.arg1)
