-- ===== src/Linux/Ioctl.antt =====
-- crates/ruxeon-linux/src/lib.rs: `ioctl` on the standard streams.
use ruxeon.Common.{ℕ, Bool, true, false, ◌||◌, none, some, ◌==◌, if◌then◌else◌, ok, err}
use ruxeon.Common.Actions.{pure, fail, gets, ◌>>=◌, ◌>>◌}
use ruxeon.Common.Dict.{nat_eq, get}
use ruxeon.Access.{write_word}
use ruxeon.Errno.{badf, inval, no_tty, errno}
use ruxeon.Fd.{FdEntry, stdin, stdout, stderr}
use ruxeon.Linux.Os.{map_io_errno, Os}
use ruxeon.Linux.Terminal.{
  read_termios, write_termios, raw_mode, read_winsize, write_winsize, TerminalState,
  current_winsize,
}
use ruxeon.Linux.State.{LinuxProcess, Handler, with_process, with_memory, from_memory, with_world}

abbrev pub set_terminal :
    {File : Type 0} → (TerminalState → TerminalState) → LinuxProcess File → LinuxProcess File
set_terminal f p = record p { terminal = f p.terminal }

abbrev pub is_standard : {File : Type 0} → FdEntry File → Bool
is_standard stdin = true
is_standard stdout = true
is_standard stderr = true
is_standard _ = false

abbrev pub unless_null :
    {File World : Type 0} → ℕ → Handler File World (Unit {0}) → Handler File World (Unit {0})
unless_null arg action = if arg == 0 then pure tt else action

module _ {File World : Type 0} where
  unfoldable pub require_terminal_fd : ℕ → Handler File World (Unit {0})
  require_terminal_fd fd s = elim (get fd s.process.fd_table.entries) [
    | none ↦ (err (errno badf), s)
    | some slot ↦ if is_standard slot.entry then (ok tt, s) else (err (errno no_tty), s)
  ]

module _ {File World : Type 0} (os : Os File World) where
  unfoldable pub get_winsize : ℕ → Handler File World (Unit {0})
  unfolding current_winsize write_winsize
  get_winsize arg = do
    size ← gets (λ s. current_winsize (os.terminal_size s.world) s.process.terminal)
    with_memory (write_winsize size arg)

  unfoldable pub set_winsize : ℕ → Handler File World (Unit {0})
  unfolding read_winsize
  set_winsize arg = do
    size ← from_memory (read_winsize arg)
    with_process (set_terminal (λ t. record t { winsize = size; winsize_overridden = true }))

  unfoldable pub get_termios : ℕ → Handler File World (Unit {0})
  unfolding write_termios
  get_termios arg = do
    termios ← gets (λ s. s.process.terminal.termios)
    with_memory (write_termios termios arg)

  -- The host's mode follows the new settings.
  unfoldable pub set_termios : ℕ → Handler File World (Unit {0})
  unfolding read_termios raw_mode map_io_errno
  set_termios arg = do
    termios ← from_memory (read_termios arg)
    with_process (set_terminal (λ t. record t { termios = termios }))
    with_world (os.set_raw_mode (raw_mode termios))

  unfoldable pub get_foreground : ℕ → Handler File World (Unit {0})
  unfolding write_word
  get_foreground arg = do pgid ← gets (λ s. s.process.pgid); with_memory (write_word 4 arg pgid)

  abbrev pub on_terminal : ℕ → ℕ → (ℕ → Handler File World (Unit {0})) → Handler File World ℕ
  on_terminal fd arg action = do require_terminal_fd fd; unless_null arg (action arg); pure 0

  -- `TIOCGWINSZ`, `TIOCSWINSZ`, `TCGETS`, `TCSETS` to `TCSETSF`, `TIOCGPGRP` and `TIOCSPGRP`.
  unfoldable pub ioctl : ℕ → ℕ → ℕ → Handler File World ℕ
  unfolding require_terminal_fd get_winsize set_winsize get_termios set_termios get_foreground
  ioctl fd request arg =
      if request == 0x5413
      then on_terminal fd arg get_winsize
      else if request == 0x5414
      then on_terminal fd arg set_winsize
      else if request == 0x5401
      then on_terminal fd arg get_termios
      else if request == 0x5402 || request == 0x5403 || request == 0x5404
      then on_terminal fd arg set_termios
      else if request == 0x540f
      then on_terminal fd arg get_foreground
      else if request == 0x5410
      then (do require_terminal_fd fd; pure 0)
      else fail (errno inval)
