-- ===== src/Linux/Keeping/Handlers.antt =====
-- The terminal, the processes, and the larger arms of the dispatcher.
use ruxeon.ProcessTable.{ProcessTable, wait4, has_child}
use ruxeon.Process.{wait_status}
use ruxeon.Linux.Keeping.Paths.{link_target-Keeps}
use ruxeon.Linux.Keeping.Basics.{read_timespec-Keeps, read_c_string-Keeps}
use ruxeon.Linux.Handlers.{
  deliver, syscall_read, syscall_write, syscall_getdents, syscall_pipe, syscall_dup, syscall_dup2,
  syscall_fcntl, syscall_close, syscall_mprotect, syscall_munmap, syscall_arch_prctl,
  syscall_setpgid, syscall_getcwd, syscall_readlink, syscall_nanosleep, syscall_times,
  syscall_set_tid_address, syscall_getrandom,
}
use ruxeon.Linux.Arguments.{wait_requested_pid, deterministic_random}
use ruxeon.Common.{ℕ, bit_and, refl, Bool, ◌||◌, Option, some, List, ◌==◌}
use ruxeon.Common.Actions.{pure, ◌>>◌}
use ruxeon.Common.Dict.{nat_eq, get}
use ruxeon.Errno.{inval, errno}
use ruxeon.Registers.{Registers}
use ruxeon.Linux.Os.{Os}
use ruxeon.Linux.Terminal.{TerminalState}
use ruxeon.Linux.State.{SyscallArgs, LinuxProcess, Machine, Handler, with_process, return_with}
use ruxeon.Linux.Keeping.{
  Same-refl, if-Same, elim_Option-Same, pure-Keeps, fail-Keeps, if-Keeps, bind-Keeps,
  with_process-Keeps, Same, Keeps, keeping,
}
use ruxeon.Linux.Ioctl.{
  set_terminal, is_standard, require_terminal_fd, get_winsize, set_winsize, get_termios,
  set_termios, get_foreground, on_terminal, ioctl,
}
use ruxeon.Linux.Fork.{fork, exit_group, write_status, wait_in, wait_for}

-- Updates of the other fields.
module _ {File : Type 0} (p : LinuxProcess File) where
  set_terminal-Same : (f : TerminalState → TerminalState) → Same p (set_terminal f p)
  set_terminal-Same f = record {
    pid = refl;
    tid = refl;
    ppid = refl;
    rootfs = refl;
    executable_path = refl;
    brk_base = refl;
    trace = refl;
  }

  count-Same : (n : ℕ) → Same p (record p { next_child_pid = n })
  count-Same n = record {
    pid = refl;
    tid = refl;
    ppid = refl;
    rootfs = refl;
    executable_path = refl;
    brk_base = refl;
    trace = refl;
  }

  fs_base-Same : (n : ℕ) → Same p (record p { fs_base = n })
  fs_base-Same n = record {
    pid = refl;
    tid = refl;
    ppid = refl;
    rootfs = refl;
    executable_path = refl;
    brk_base = refl;
    trace = refl;
  }

  pgid-Same : (n : ℕ) → Same p (record p { pgid = n })
  pgid-Same n = record {
    pid = refl;
    tid = refl;
    ppid = refl;
    rootfs = refl;
    executable_path = refl;
    brk_base = refl;
    trace = refl;
  }

  set_tid_address-Same : (n : ℕ) → Same p (record p { set_tid_address = n })
  set_tid_address-Same n = record {
    pid = refl;
    tid = refl;
    ppid = refl;
    rootfs = refl;
    executable_path = refl;
    brk_base = refl;
    trace = refl;
  }

module _ {File World : Type 0} (os : Os File World) where
  require_terminal_fd-Keeps :
      (fd : ℕ) → Keeps {File = File} {World = World} (require_terminal_fd fd)
  unfolding require_terminal_fd
  require_terminal_fd-Keeps fd = record {
    keeps = λ s.
        elim_Option-Same s.process (get fd s.process.fd_table.entries) _ _ (Same-refl s.process)
          (λ slot.
            if-Same s.process (is_standard slot.entry) _ _ (Same-refl s.process)
              (Same-refl s.process));
  }

  set_terminal-Keeps :
      (f : TerminalState → TerminalState)
      → Keeps {File = File} {World = World} (with_process (set_terminal f))
  set_terminal-Keeps f = with_process-Keeps (set_terminal f) (λ p. set_terminal-Same p f)

  on_terminal-Keeps :
      (fd arg : ℕ) (action : ℕ → Handler File World (Unit {0}))
      → Keeps (action arg)
      → Keeps (on_terminal os fd arg action)
  on_terminal-Keeps fd arg action h =
      bind-Keeps _ _ (require_terminal_fd-Keeps fd)
        (λ u. bind-Keeps _ _ (if-Keeps (arg == 0) _ _ (pure-Keeps tt) h) (λ u. pure-Keeps 0))

  get_winsize-Keeps : (arg : ℕ) → Keeps (get_winsize os arg)
  unfolding get_winsize
  get_winsize-Keeps arg = search keeping

  set_winsize-Keeps : (arg : ℕ) → Keeps (set_winsize os arg)
  unfolding set_winsize
  set_winsize-Keeps arg = search (keeping, set_terminal-Keeps)

  get_termios-Keeps : (arg : ℕ) → Keeps (get_termios os arg)
  unfolding get_termios
  get_termios-Keeps arg = search keeping

  set_termios-Keeps : (arg : ℕ) → Keeps (set_termios os arg)
  unfolding set_termios
  set_termios-Keeps arg = search (keeping, set_terminal-Keeps)

  get_foreground-Keeps : (arg : ℕ) → Keeps (get_foreground os arg)
  unfolding get_foreground
  get_foreground-Keeps arg = search keeping

  pub ioctl-Keeps : (fd request arg : ℕ) → Keeps (ioctl os fd request arg)
  unfolding ioctl
  ioctl-Keeps fd request arg =
      if-Keeps (request == 0x5413) _ _
        (on_terminal-Keeps fd arg (get_winsize os) (get_winsize-Keeps arg))
        (if-Keeps (request == 0x5414) _ _
          (on_terminal-Keeps fd arg (set_winsize os) (set_winsize-Keeps arg))
          (if-Keeps (request == 0x5401) _ _
            (on_terminal-Keeps fd arg (get_termios os) (get_termios-Keeps arg))
            (if-Keeps (request == 0x5402 || request == 0x5403 || request == 0x5404) _ _
              (on_terminal-Keeps fd arg (set_termios os) (set_termios-Keeps arg))
              (if-Keeps (request == 0x540f) _ _
                (on_terminal-Keeps fd arg (get_foreground os) (get_foreground-Keeps arg))
                (if-Keeps (request == 0x5410) _ _
                  (bind-Keeps _ _ (require_terminal_fd-Keeps fd) (λ u. pure-Keeps 0))
                  (fail-Keeps (errno inval)))))))

  pub fork-Keeps : (registers : Option Registers) → Keeps (fork os registers)
  unfolding fork
  fork-Keeps registers = record {
    keeps = λ s.
        let p = s.process in
        elim_Option-Same p s.processes _ _ (count-Same p _)
          (λ t. elim_Option-Same p registers _ _ (count-Same p _) (λ regs. Same-refl p));
  }

module _ {File World : Type 0} where
  pub exit_group-Keeps : (arg : ℕ) → Keeps {File = File} {World = World} (exit_group arg)
  unfolding exit_group
  exit_group-Keeps arg = record {
    keeps = λ s.
        elim_Option-Same s.process s.processes _ _ (Same-refl s.process) (λ t. Same-refl s.process);
  }

  write_status-Keeps :
      (addr status value : ℕ)
      → Keeps {File = File} {World = World} (do write_status addr status; pure (return_with value))
  write_status-Keeps addr status value = search keeping

  wait_in-Keeps :
      (t : ProcessTable (Machine File) Registers) (requested addr options : ℕ)
      → Keeps {File = File} {World = World} (wait_in t requested addr options)
  unfolding wait_in
  wait_in-Keeps t requested addr options = record {
    keeps = λ s.
        let p = s.process in
        let wanted = wait_requested_pid requested in
        let (found, t') = wait4 p.pid wanted t in
        elim_Option-Same p found _ _
          (if-Same p (has_child p.pid wanted t) _ _
            (if-Same p (bit_and options 0x1 == 0) _ _ (Same-refl p) (Same-refl p)) (Same-refl p))
          (λ e.
            (write_status-Keeps addr (wait_status (e.1)) (e.0)).keeps
              (record s { processes = some t' }));
  }

  pub wait_for-Keeps :
      (requested addr options : ℕ)
      → Keeps {File = File} {World = World} (wait_for requested addr options)
  unfolding wait_for
  wait_for-Keeps requested addr options = record {
    keeps = λ s.
        elim_Option-Same s.process s.processes _ _ ((write_status-Keeps addr 0 0).keeps s)
          (λ t. (wait_in-Keeps t requested addr options).keeps s);
  }

module _ {File World : Type 0} (os : Os File World) where
  deliver-Keeps : (addr : ℕ) (bytes : List ℕ) → Keeps (deliver os addr bytes)
  unfolding deliver
  deliver-Keeps addr bytes = search keeping

  pub syscall_read-Keeps : (a : SyscallArgs) → Keeps (syscall_read os a)
  unfolding syscall_read
  syscall_read-Keeps a = search (keeping, deliver-Keeps)

  pub syscall_write-Keeps : (a : SyscallArgs) → Keeps (syscall_write os a)
  unfolding syscall_write
  syscall_write-Keeps a = search keeping

  pub syscall_getdents-Keeps : (a : SyscallArgs) → Keeps (syscall_getdents os a)
  unfolding syscall_getdents
  syscall_getdents-Keeps a = search (keeping, deliver-Keeps)

  pub syscall_pipe-Keeps : (c : Bool) (a : SyscallArgs) → Keeps (syscall_pipe os c a)
  unfolding syscall_pipe
  syscall_pipe-Keeps c a = search keeping

  pub syscall_dup-Keeps : (a : SyscallArgs) → Keeps (syscall_dup os a)
  unfolding syscall_dup
  syscall_dup-Keeps a = search keeping

  pub syscall_dup2-Keeps : (c : Bool) (a : SyscallArgs) → Keeps (syscall_dup2 os c a)
  unfolding syscall_dup2
  syscall_dup2-Keeps c a = search keeping

  pub syscall_fcntl-Keeps : (a : SyscallArgs) → Keeps (syscall_fcntl os a)
  unfolding syscall_fcntl
  syscall_fcntl-Keeps a = search keeping

  pub syscall_close-Keeps : (a : SyscallArgs) → Keeps (syscall_close os a)
  unfolding syscall_close
  syscall_close-Keeps a = search keeping

  pub syscall_mprotect-Keeps : (a : SyscallArgs) → Keeps (syscall_mprotect os a)
  unfolding syscall_mprotect
  syscall_mprotect-Keeps a = search keeping

  pub syscall_munmap-Keeps : (a : SyscallArgs) → Keeps (syscall_munmap os a)
  unfolding syscall_munmap
  syscall_munmap-Keeps a = search keeping

  pub syscall_arch_prctl-Keeps : (a : SyscallArgs) → Keeps (syscall_arch_prctl os a)
  unfolding syscall_arch_prctl
  syscall_arch_prctl-Keeps a = search (keeping, with_process-Keeps, fs_base-Same) depth 12

  pub syscall_setpgid-Keeps : (a : SyscallArgs) → Keeps (syscall_setpgid os a)
  unfolding syscall_setpgid
  syscall_setpgid-Keeps a = search (keeping, with_process-Keeps, pgid-Same)

  pub syscall_getcwd-Keeps : (a : SyscallArgs) → Keeps (syscall_getcwd os a)
  unfolding syscall_getcwd
  syscall_getcwd-Keeps a = search keeping depth 12

  pub syscall_readlink-Keeps : (a : SyscallArgs) → Keeps (syscall_readlink os a)
  unfolding syscall_readlink
  syscall_readlink-Keeps a =
      search (keeping, read_c_string-Keeps os, link_target-Keeps os, deliver-Keeps)

  pub syscall_nanosleep-Keeps : (a : SyscallArgs) → Keeps (syscall_nanosleep os a)
  unfolding syscall_nanosleep
  syscall_nanosleep-Keeps a = search (keeping, read_timespec-Keeps) depth 12

  pub syscall_times-Keeps : (a : SyscallArgs) → Keeps (syscall_times os a)
  unfolding syscall_times
  syscall_times-Keeps a = search keeping

  pub syscall_set_tid_address-Keeps : (a : SyscallArgs) → Keeps (syscall_set_tid_address os a)
  unfolding syscall_set_tid_address
  syscall_set_tid_address-Keeps a =
      search (keeping, with_process-Keeps, set_tid_address-Same) depth 12

  pub syscall_getrandom-Keeps : (a : SyscallArgs) → Keeps (syscall_getrandom os a)
  unfolding syscall_getrandom
  syscall_getrandom-Keeps a = deliver-Keeps a.arg0 (deterministic_random a.arg1)
