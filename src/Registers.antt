-- ===== src/Registers.antt =====
-- crates/ruxeon-cpu/src/registers.rs: the register file.
mod Names
unfoldable pub use Names.*
pub mod Masks
pub mod ReadBack
mod Tests
use ruxeon.Common.{
  ℕ, ◌+◌, ◌-◌, ◌*◌, ◌/◌, ◌%◌, ◌^◌, Bool, true, false, not, List, replicate, bit_and, bit_or, ltb,
  leb, ◌==◌, if◌then◌else◌, Result, ok, err, ◌>>=◌,
}
use ruxeon.Common.Words.{u64_mod}

pub record Registers : Type 0 where
  pub rax : ℕ
  pub rbx : ℕ
  pub rcx : ℕ
  pub rdx : ℕ
  pub rsi : ℕ
  pub rdi : ℕ
  pub rbp : ℕ
  pub rsp : ℕ
  pub r8 : ℕ
  pub r9 : ℕ
  pub r10 : ℕ
  pub r11 : ℕ
  pub r12 : ℕ
  pub r13 : ℕ
  pub r14 : ℕ
  pub r15 : ℕ
  pub xmm : List ℕ
  pub fs_base : ℕ
  pub gs_base : ℕ
  pub rip : ℕ
  pub rflags : ℕ

-- The field of `Registers` that a name reaches: the arms of `read` and `write`.
pub data Field : Type 0 where
  in_rax in_rbx in_rcx in_rdx in_rsi in_rdi in_rbp in_rsp : Field
  in_r8 in_r9 in_r10 in_r11 in_r12 in_r13 in_r14 in_r15 in_rip : Field

unfoldable pub new_registers : Registers
new_registers = record {
  rax = 0;
  rbx = 0;
  rcx = 0;
  rdx = 0;
  rsi = 0;
  rdi = 0;
  rbp = 0;
  rsp = 0;
  r8 = 0;
  r9 = 0;
  r10 = 0;
  r11 = 0;
  r12 = 0;
  r13 = 0;
  r14 = 0;
  r15 = 0;
  xmm = replicate 16 0;
  fs_base = 0;
  gs_base = 0;
  rip = 0;
  rflags = 0x2;
}

unfoldable pub field_of : Register → Result RegisterError Field
field_of rax = ok in_rax
field_of eax = ok in_rax
field_of ax = ok in_rax
field_of al = ok in_rax
field_of ah = ok in_rax
field_of rbx = ok in_rbx
field_of ebx = ok in_rbx
field_of bx = ok in_rbx
field_of bl = ok in_rbx
field_of bh = ok in_rbx
field_of rcx = ok in_rcx
field_of ecx = ok in_rcx
field_of cx = ok in_rcx
field_of cl = ok in_rcx
field_of ch = ok in_rcx
field_of rdx = ok in_rdx
field_of edx = ok in_rdx
field_of dx = ok in_rdx
field_of dl = ok in_rdx
field_of dh = ok in_rdx
field_of rsi = ok in_rsi
field_of esi = ok in_rsi
field_of si = ok in_rsi
field_of sil = ok in_rsi
field_of rdi = ok in_rdi
field_of edi = ok in_rdi
field_of di = ok in_rdi
field_of dil = ok in_rdi
field_of rbp = ok in_rbp
field_of ebp = ok in_rbp
field_of bp = ok in_rbp
field_of bpl = ok in_rbp
field_of rsp = ok in_rsp
field_of esp = ok in_rsp
field_of sp = ok in_rsp
field_of spl = ok in_rsp
field_of r8 = ok in_r8
field_of r8d = ok in_r8
field_of r8w = ok in_r8
field_of r8l = ok in_r8
field_of r9 = ok in_r9
field_of r9d = ok in_r9
field_of r9w = ok in_r9
field_of r9l = ok in_r9
field_of r10 = ok in_r10
field_of r10d = ok in_r10
field_of r10w = ok in_r10
field_of r10l = ok in_r10
field_of r11 = ok in_r11
field_of r11d = ok in_r11
field_of r11w = ok in_r11
field_of r11l = ok in_r11
field_of r12 = ok in_r12
field_of r12d = ok in_r12
field_of r12w = ok in_r12
field_of r12l = ok in_r12
field_of r13 = ok in_r13
field_of r13d = ok in_r13
field_of r13w = ok in_r13
field_of r13l = ok in_r13
field_of r14 = ok in_r14
field_of r14d = ok in_r14
field_of r14w = ok in_r14
field_of r14l = ok in_r14
field_of r15 = ok in_r15
field_of r15d = ok in_r15
field_of r15w = ok in_r15
field_of r15l = ok in_r15
field_of rip = ok in_rip
field_of eip = ok in_rip
field_of fs = err (unsupported_register fs)
field_of gs = err (unsupported_register gs)
field_of no_register = err (unsupported_register no_register)
field_of (unsupported n) = err (unsupported_register (unsupported n))

unfoldable pub get_field : Field → Registers → ℕ
get_field in_rax s = s.rax
get_field in_rbx s = s.rbx
get_field in_rcx s = s.rcx
get_field in_rdx s = s.rdx
get_field in_rsi s = s.rsi
get_field in_rdi s = s.rdi
get_field in_rbp s = s.rbp
get_field in_rsp s = s.rsp
get_field in_r8 s = s.r8
get_field in_r9 s = s.r9
get_field in_r10 s = s.r10
get_field in_r11 s = s.r11
get_field in_r12 s = s.r12
get_field in_r13 s = s.r13
get_field in_r14 s = s.r14
get_field in_r15 s = s.r15
get_field in_rip s = s.rip

unfoldable pub set_field : Field → ℕ → Registers → Registers
set_field in_rax v s = record s { rax = v }
set_field in_rbx v s = record s { rbx = v }
set_field in_rcx v s = record s { rcx = v }
set_field in_rdx v s = record s { rdx = v }
set_field in_rsi v s = record s { rsi = v }
set_field in_rdi v s = record s { rdi = v }
set_field in_rbp v s = record s { rbp = v }
set_field in_rsp v s = record s { rsp = v }
set_field in_r8 v s = record s { r8 = v }
set_field in_r9 v s = record s { r9 = v }
set_field in_r10 v s = record s { r10 = v }
set_field in_r11 v s = record s { r11 = v }
set_field in_r12 v s = record s { r12 = v }
set_field in_r13 v s = record s { r13 = v }
set_field in_r14 v s = record s { r14 = v }
set_field in_r15 v s = record s { r15 = v }
set_field in_rip v s = record s { rip = v }

-- `unwrap_or(64)`.
abbrev pub width_or_64 : Result RegisterError ℕ → ℕ
width_or_64 (ok width) = width
width_or_64 (err _) = 64

abbrev pub mask : ℕ → ℕ
mask width = if leb 64 width then u64_mod - 1 else 2 ^ width - 1

-- `!bits` on 64 bits.
abbrev pub complement : ℕ → ℕ
complement bits = u64_mod - 1 - bits

unfoldable pub extract_register_bits : Register → ℕ → ℕ
unfolding register_width
extract_register_bits r value =
    if is_high r
    then bit_and (value / 2 ^ 8) 0xff
    else bit_and value (mask (width_or_64 (register_width r)))

-- The new value of a slot.
unfoldable pub write_register_bits : ℕ → Register → ℕ → ℕ
unfolding register_width
write_register_bits slot r value =
    let width = width_or_64 (register_width r) in
    if width == 8
    then (if is_high r
        then bit_or (bit_and slot (complement 0xff00)) (bit_and value 0xff * 2 ^ 8)
        else bit_or (bit_and slot (complement 0xff)) (bit_and value 0xff))
    else if width == 16
    then bit_or (bit_and slot (complement 0xffff)) (bit_and value 0xffff)
    else if width == 32
    then bit_and value 0xffff_ffff
    else value

unfoldable pub read : Register → Registers → Result RegisterError ℕ
unfolding field_of get_field extract_register_bits
read r s = do f ← field_of r; ok (extract_register_bits r (get_field f s))

-- The instruction pointer takes the value whole under both of its names.
unfoldable pub new_value : Field → Register → ℕ → Registers → ℕ
unfolding get_field write_register_bits
new_value in_rip r value s = value
new_value f r value s = write_register_bits (get_field f s) r value

unfoldable pub write : Register → ℕ → Registers → Result RegisterError Registers
unfolding field_of set_field new_value
write r value s = do f ← field_of r; ok (set_field f (new_value f r value s) s)

unfoldable pub flag : Registers → ℕ → Bool
flag s bits = not (bit_and s.rflags bits == 0)

-- Bit 1 of the flags is always set.
unfoldable pub set_flag : ℕ → Bool → Registers → Registers
set_flag bits value s =
    let flags = if value then bit_or s.rflags bits else bit_and s.rflags (complement bits) in
    record s { rflags = bit_or flags 0x2 }
