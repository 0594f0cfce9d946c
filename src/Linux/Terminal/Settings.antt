-- ===== src/Linux/Terminal/Settings.antt =====
-- The terminal's settings, written to the guest's memory and read back.
use ruxeon.Region.{permission_read}
use ruxeon.Memory.Layout.{IsValid}
use ruxeon.Memory.{GuestMemory}
use ruxeon.Common.Words.{to_le_bytes, from_le_bytes, from_le_bytes-to_le_bytes}
use ruxeon.Access.Writing.{read_bytes-write_bytes}
use ruxeon.Access.{check_permission, read_bytes}
use ruxeon.Common.{
  ℕ, ◌^◌, ◌<◌, ◌≡◌, sym, ap, ◌∙◌, [], ◌∷◌, arith, length, take, take-length, ◌>>=◌, ok,
}
use ruxeon.Linux.Terminal.{
  LinuxTermios, nccs, termios_size, termios_of, read_termios, termios_bytes, write_termios,
}

-- Fields of their widths.
pub record IsTermios (t : LinuxTermios) : Type 0 where
  pub iflag : t.iflag < 256 ^ 4
  pub oflag : t.oflag < 256 ^ 4
  pub cflag : t.cflag < 256 ^ 4
  pub lflag : t.lflag < 256 ^ 4
  pub line : t.line < 256
  pub cc : length t.cc ≡ nccs

length-termios_bytes : (t : LinuxTermios) → IsTermios t → length (termios_bytes t) ≡ termios_size
unfolding termios_bytes
length-termios_bytes t h = omega (arith, h.cc)

pub termios_of-termios_bytes : (t : LinuxTermios) → IsTermios t → termios_of (termios_bytes t) ≡ t
unfolding termios_of termios_bytes
termios_of-termios_bytes t h =
    let word : (v : ℕ) → v < 256 ^ 4 → from_le_bytes (to_le_bytes 4 v) ≡ v =
      from_le_bytes-to_le_bytes 4 in
    let cc' : take nccs t.cc ≡ t.cc = ap (λ n. take n t.cc) (sym h.cc) ∙ take-length t.cc in
    let line' : from_le_bytes (t.line ∷ []) ≡ t.line = unfold from_le_bytes in omega arith in
    λ i. record {
      iflag = word t.iflag h.iflag i;
      oflag = word t.oflag h.oflag i;
      cflag = word t.cflag h.cflag i;
      lflag = word t.lflag h.lflag i;
      line = line' i;
      cc = cc' i;
    }

-- Settings whose fields have their widths, once written to a valid memory where that can be read, are read back as they
-- were.
pub read_termios-write_termios :
    (t : LinuxTermios) (addr : ℕ) (m : GuestMemory) {m' : GuestMemory}
    → IsTermios t
    → IsValid m
    → check_permission addr termios_size permission_read m ≡ ok tt
    → write_termios t addr m ≡ (ok tt, m')
    → read_termios addr m' ≡ ok t
unfolding write_termios read_termios
read_termios-write_termios t addr m {m' = m'} h v readable written =
    let size : length (termios_bytes t) ≡ termios_size = length-termios_bytes t h in
    let back : read_bytes addr termios_size m' ≡ ok (termios_bytes t) =
      ap (λ n. read_bytes addr n m') (sym size)
      ∙ read_bytes-write_bytes addr (termios_bytes t) m v
          (ap (λ n. check_permission addr n permission_read m) size ∙ readable) written in
    ap (λ r. do bytes ← r; ok (termios_of bytes)) back ∙ ap ok (termios_of-termios_bytes t h)
