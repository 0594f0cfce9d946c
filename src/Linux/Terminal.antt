-- ===== src/Linux/Terminal.antt =====
-- crates/ruxeon-linux/src/lib.rs: `TerminalState`, `LinuxTermios`, `LinuxWinsize`.
pub mod Settings
use ruxeon.Common.{
  ℕ, ◌+◌, ◌%◌, max, bit_and, bit_or, Bool, false, Option, none, some, List, [], ◌∷◌, ◌++◌, ◌==◌,
  if◌then◌else◌, take, drop, Result, ◌>>=◌, ◌>>◌, ok, err,
}
use ruxeon.Common.Words.{u64_mod, to_le_bytes, from_le_bytes}
use ruxeon.Region.{GuestMemoryError}
use ruxeon.Memory.{GuestMemory, Outcome}
use ruxeon.Access.{read_bytes, write_bytes, read_word, write_word}
use ruxeon.Linux.Os.{TerminalSize}

-- `cc` holds `NCCS` bytes.
pub record LinuxTermios : Type 0 where
  pub iflag : ℕ
  pub oflag : ℕ
  pub cflag : ℕ
  pub lflag : ℕ
  pub line : ℕ
  pub cc : List ℕ

abbrev pub nccs : ℕ
nccs = 19

abbrev pub termios_size : ℕ
termios_size = 36

abbrev pub icanon : ℕ
icanon = 0x0002

unfoldable pub default_termios : LinuxTermios
default_termios = record {
  iflag = bit_or (bit_or 0x0002 0x0100) 0x0400;
  oflag = bit_or 0x0001 0x0004;
  cflag = bit_or (bit_or 0x000f 0x0030) 0x0080;
  lflag = bit_or (bit_or (bit_or (bit_or (bit_or 0x0001 icanon) 0x0008) 0x0010) 0x0020) 0x8000;
  line = 0;
  cc = 3 ∷ 28 ∷ 127 ∷ 21 ∷ 4 ∷ 0 ∷ 1 ∷ 0 ∷ 17 ∷ 19 ∷ 26 ∷ 0 ∷ 18 ∷ 15 ∷ 23 ∷ 22 ∷ 0 ∷ 0 ∷ 0 ∷ [];
}

abbrev pub slice : ℕ → ℕ → List ℕ → List ℕ
slice at size bytes = take size (drop at bytes)

unfoldable pub termios_of : List ℕ → LinuxTermios
unfolding from_le_bytes
termios_of bytes = record {
  iflag = from_le_bytes (slice 0 4 bytes);
  oflag = from_le_bytes (slice 4 4 bytes);
  cflag = from_le_bytes (slice 8 4 bytes);
  lflag = from_le_bytes (slice 12 4 bytes);
  line = from_le_bytes (slice 16 1 bytes);
  cc = slice 17 nccs bytes;
}

unfoldable pub read_termios : ℕ → GuestMemory → Result GuestMemoryError LinuxTermios
unfolding read_bytes termios_of
read_termios addr m = do bytes ← read_bytes addr termios_size m; ok (termios_of bytes)

unfoldable pub termios_bytes : LinuxTermios → List ℕ
unfolding to_le_bytes
termios_bytes t =
    to_le_bytes 4 t.iflag
    ++ (to_le_bytes 4 t.oflag
        ++ (to_le_bytes 4 t.cflag ++ (to_le_bytes 4 t.lflag ++ (t.line ∷ t.cc))))

unfoldable pub write_termios : LinuxTermios → ℕ → GuestMemory → Outcome
unfolding write_bytes termios_bytes
write_termios t addr m = write_bytes addr (termios_bytes t) m

unfoldable pub raw_mode : LinuxTermios → Bool
raw_mode t = bit_and t.lflag icanon == 0

pub record LinuxWinsize : Type 0 where
  pub rows : ℕ
  pub cols : ℕ
  pub xpixel : ℕ
  pub ypixel : ℕ

abbrev fallback_size : TerminalSize
fallback_size = record { rows = 24; cols = 80; xpixel = 0; ypixel = 0 }

abbrev at_least_one : TerminalSize → LinuxWinsize
at_least_one size = record {
  rows = max size.rows 1;
  cols = max size.cols 1;
  xpixel = size.xpixel;
  ypixel = size.ypixel;
}

unfoldable pub winsize_from_host : Option TerminalSize → LinuxWinsize
winsize_from_host none = at_least_one fallback_size
winsize_from_host (some size) = at_least_one size

-- A sum of addresses.
abbrev pub plus : ℕ → ℕ → ℕ
plus a b = (a + b) % u64_mod

unfoldable pub read_winsize : ℕ → GuestMemory → Result GuestMemoryError LinuxWinsize
unfolding read_word
read_winsize addr m = do
  rows ← read_word 2 addr m
  cols ← read_word 2 (plus addr 2) m
  xpixel ← read_word 2 (plus addr 4) m
  ypixel ← read_word 2 (plus addr 6) m
  ok (record { rows = rows; cols = cols; xpixel = xpixel; ypixel = ypixel })

-- A write goes on only where the one before has succeeded.
abbrev pub and_then : (GuestMemory → Outcome) → (GuestMemory → Outcome) → GuestMemory → Outcome
and_then f g m = let (r, m') = f m in elim r [ ok _ ↦ g m' | err e ↦ (err e, m') ]

unfoldable pub write_winsize : LinuxWinsize → ℕ → GuestMemory → Outcome
unfolding write_word
write_winsize w addr = and_then (write_word 2 addr w.rows) (
    and_then (write_word 2 (plus addr 2) w.cols)
      (and_then (write_word 2 (plus addr 4) w.xpixel) (write_word 2 (plus addr 6) w.ypixel)))

pub record TerminalState : Type 0 where
  pub termios : LinuxTermios
  pub winsize : LinuxWinsize
  pub winsize_overridden : Bool

-- The argument is the host's answer to `terminal_size`.
unfoldable pub default_terminal : Option TerminalSize → TerminalState
unfolding default_termios winsize_from_host
default_terminal size = record {
  termios = default_termios;
  winsize = winsize_from_host size;
  winsize_overridden = false;
}

unfoldable pub current_winsize : Option TerminalSize → TerminalState → LinuxWinsize
unfolding winsize_from_host
current_winsize size t = if t.winsize_overridden then t.winsize else winsize_from_host size
