-- ===== src/Registers/Tests.antt =====
-- The register file at concrete inputs.
use ruxeon.Common.{◌≡◌, refl, [], ok, ◌>>=◌}
use ruxeon.Registers.{Registers, ah, rbx, read, write}
use ruxeon.Registers.ReadBack.{write-read}

abbrev some_registers : Registers
some_registers = record {
  rax = 0x1122;
  rbx = 7;
  rcx = 0;
  rdx = 0;
  rsi = 0;
  rdi = 0;
  rbp = 0;
  rsp = 0;
  r8 = 0;
  r9 = 0;
  r10 = 0;
  r11 = 0;
  r12 = 0;
  r13 = 0;
  r14 = 0;
  r15 = 0;
  xmm = [];
  fs_base = 0;
  gs_base = 0;
  rip = 0;
  rflags = 2;
}

write-read_example : (write ah 0x1ab some_registers >>= read ah) ≡ ok 0xab
unfolding ruxeon.Registers.register_width
write-read_example = write-read ah 0x1ab some_registers refl
