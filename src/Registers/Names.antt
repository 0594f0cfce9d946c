-- ===== src/Registers/Names.antt =====
-- crates/ruxeon-cpu/src/registers.rs: the names of registers and their widths. The names are those of the decoder's
-- type that the source lists; `unsupported` stands for the other ones, by their numbers.
use ruxeon.Common.{ℕ, Bool, true, false, Result, ok, err}

pub data Register : Type 0 where
  rax eax ax al ah rbx ebx bx bl bh : Register
  rcx ecx cx cl ch rdx edx dx dl dh : Register
  rsi esi si sil rdi edi di dil : Register
  rbp ebp bp bpl rsp esp sp spl : Register
  r8 r8d r8w r8l r9 r9d r9w r9l : Register
  r10 r10d r10w r10l r11 r11d r11w r11l : Register
  r12 r12d r12w r12l r13 r13d r13w r13l : Register
  r14 r14d r14w r14l r15 r15d r15w r15l : Register
  rip eip : Register
  fs gs no_register : Register
  unsupported : ℕ → Register

pub data RegisterError : Type 0 where
  unsupported_register : Register → RegisterError

unfoldable pub register_width : Register → Result RegisterError ℕ
register_width rax = ok 64
register_width rbx = ok 64
register_width rcx = ok 64
register_width rdx = ok 64
register_width rsi = ok 64
register_width rdi = ok 64
register_width rbp = ok 64
register_width rsp = ok 64
register_width r8 = ok 64
register_width r9 = ok 64
register_width r10 = ok 64
register_width r11 = ok 64
register_width r12 = ok 64
register_width r13 = ok 64
register_width r14 = ok 64
register_width r15 = ok 64
register_width eax = ok 32
register_width ebx = ok 32
register_width ecx = ok 32
register_width edx = ok 32
register_width esi = ok 32
register_width edi = ok 32
register_width ebp = ok 32
register_width esp = ok 32
register_width r8d = ok 32
register_width r9d = ok 32
register_width r10d = ok 32
register_width r11d = ok 32
register_width r12d = ok 32
register_width r13d = ok 32
register_width r14d = ok 32
register_width r15d = ok 32
register_width ax = ok 16
register_width bx = ok 16
register_width cx = ok 16
register_width dx = ok 16
register_width si = ok 16
register_width di = ok 16
register_width bp = ok 16
register_width sp = ok 16
register_width r8w = ok 16
register_width r9w = ok 16
register_width r10w = ok 16
register_width r11w = ok 16
register_width r12w = ok 16
register_width r13w = ok 16
register_width r14w = ok 16
register_width r15w = ok 16
register_width al = ok 8
register_width bl = ok 8
register_width cl = ok 8
register_width dl = ok 8
register_width sil = ok 8
register_width dil = ok 8
register_width bpl = ok 8
register_width spl = ok 8
register_width r8l = ok 8
register_width r9l = ok 8
register_width r10l = ok 8
register_width r11l = ok 8
register_width r12l = ok 8
register_width r13l = ok 8
register_width r14l = ok 8
register_width r15l = ok 8
register_width ah = ok 8
register_width bh = ok 8
register_width ch = ok 8
register_width dh = ok 8
register_width rip = ok 64
register_width eip = ok 32
register_width fs = err (unsupported_register fs)
register_width gs = err (unsupported_register gs)
register_width no_register = err (unsupported_register no_register)
register_width (unsupported n) = err (unsupported_register (unsupported n))

-- The second byte of a register has a name of its own.
abbrev pub is_high : Register → Bool
is_high ah = true
is_high bh = true
is_high ch = true
is_high dh = true
is_high _ = false
