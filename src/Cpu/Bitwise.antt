-- ===== src/Cpu/Bitwise.antt =====
-- crates/ruxeon-cpu/src/interpreter.rs: bit tests, bit scans, multiplication and division.
use ruxeon.Common.{
  ℕ, zero, suc, ◌+◌, ◌-◌, ◌*◌, ◌/◌, ◌%◌, ◌^◌, Bool, true, false, not, ◌&&◌, bit_and, bit_or,
  bit_xor, ltb, leb, ◌==◌, if◌then◌else◌,
}
use ruxeon.Common.Words.{u64_mod}
use ruxeon.Registers.{Registers, set_flag, mask, complement, al, ah, ax, dx, eax, edx}
use ruxeon.Cpu.Flags.{flag_cf, flag_zf, flag_of, sign_bit, differ}
use ruxeon.Cpu.State.{
  Instruction, Action, fail, gets, ◌>>=◌, ◌>>◌, with_registers, write_register, unsupported_operand,
  divide_error, panicked,
}
use ruxeon.Cpu.Operands.{sign_extend, read_operand, write_operand, destination_width, source_width}
use ruxeon.Cpu.Integer.{read_masked, shift_left, shift_right}

pub data BitModifyOp : Type 0 where
  bts btr btc : BitModifyOp

pub data BitScanOp : Type 0 where
  forward reverse : BitScanOp

unfoldable pub execute_bit_test : Instruction → Action (Unit {0})
unfolding destination_width read_operand set_flag
execute_bit_test i = do
  width ← destination_width i 0
  base ← read_operand i 0 width
  raw_bit ← read_operand i 1 width
  let bit = raw_bit % width
  with_registers (set_flag flag_cf (not (bit_and (shift_right base bit) 1 == 0)))

abbrev pub modify_bit : BitModifyOp → ℕ → ℕ → ℕ
modify_bit BitModifyOp.bts base single = bit_or base single
modify_bit BitModifyOp.btr base single = bit_and base (complement single)
modify_bit BitModifyOp.btc base single = bit_xor base single

unfoldable pub execute_bit_modify : Instruction → BitModifyOp → Action (Unit {0})
unfolding destination_width read_operand set_flag write_operand
execute_bit_modify i op = do
  width ← destination_width i 0
  base ← read_masked i 0 width
  raw_bit ← read_operand i 1 width
  let single = shift_left 1 (raw_bit % width)
  with_registers (set_flag flag_cf (not (bit_and base single == 0)))
  write_operand i 0 (modify_bit op base single) width

-- `trailing_zeros` of a number that is not zero and has at most so many digits.
unfoldable pub trailing_zeros : ℕ → ℕ → ℕ
trailing_zeros zero x = 0
trailing_zeros (suc n) x = elim (x % 2) [ zero ↦ suc (trailing_zeros n (x / 2)) | suc _ ↦ 0 ]

-- `63 - leading_zeros`: the index of the highest digit.
unfoldable pub highest_bit : ℕ → ℕ → ℕ
highest_bit zero x = 0
highest_bit (suc n) x = elim (x / 2) [ zero ↦ 0 | suc _ ↦ suc (highest_bit n (x / 2)) ]

abbrev pub scan_index : BitScanOp → ℕ → ℕ
scan_index BitScanOp.forward source = trailing_zeros 64 source
scan_index BitScanOp.reverse source = highest_bit 64 source

unfoldable pub execute_bit_scan : Instruction → BitScanOp → Action (Unit {0})
unfolding source_width read_operand set_flag trailing_zeros highest_bit destination_width
    write_operand
execute_bit_scan i op = do
  width ← source_width i 1
  source ← read_masked i 1 width
  (if source == 0 then with_registers (set_flag flag_zf true) else do
    destination ← destination_width i 0
    write_operand i 0 (scan_index op source) destination
    with_registers (set_flag flag_zf false))

abbrev pub u128_mod : ℕ
u128_mod = 2 ^ 128

-- `as i64 as i128`, as a pattern of 128 bits.
abbrev pub widen_signed : ℕ → ℕ
widen_signed x = if ltb x (2 ^ 63) then x else x + u128_mod - u64_mod

-- An error of a write to a register is dropped here; the names have a width.
unfoldable pub write_mul_result : ℕ → ℕ → Action (Unit {0})
unfolding write_register
write_mul_result width result =
    if width == 8
    then with_registers (λ r. record r {
      rax = bit_or (bit_and r.rax (complement 0xffff)) (bit_and (result % u64_mod) 0xffff);
    })
    else if width == 16
    then (do
      write_register ax (result % u64_mod)
      write_register dx (shift_right result 16 % u64_mod))
    else if width == 32
    then (do
      write_register eax (result % u64_mod)
      write_register edx (shift_right result 32 % u64_mod))
    else with_registers
        (λ r. record r { rax = result % u64_mod; rdx = shift_right result 64 % u64_mod })

abbrev pub product : Bool → ℕ → ℕ → ℕ → ℕ
product signed low rhs width =
    if signed
    then widen_signed (sign_extend low width) * widen_signed (sign_extend rhs width) % u128_mod
    else low * rhs

-- Whether the product does not fit the lower half.
abbrev pub product_overflows : Bool → ℕ → ℕ → Bool
product_overflows signed result width =
    if signed
    then not (result == widen_signed (sign_extend (bit_and (result % u64_mod) (mask width)) width))
    else not (shift_right result width == 0)

abbrev pub set_overflow : Bool → Action (Unit {0})
set_overflow b = with_registers (λ r. set_flag flag_of b (set_flag flag_cf b r))

unfoldable pub execute_mul : Instruction → Bool → Action (Unit {0})
unfolding source_width read_operand sign_extend write_mul_result set_flag
execute_mul i signed = do
  width ← source_width i 0
  rhs ← read_masked i 0 width
  low ← gets (λ s. bit_and s.registers.rax (mask width))
  let result = product signed low rhs width
  write_mul_result width result
  set_overflow (product_overflows signed result width)

abbrev pub imul_to_destination : Instruction → ℕ → ℕ → Action (Unit {0})
imul_to_destination i first second = do
  width ← destination_width i 0
  left ← read_operand i first width
  right ← read_operand i second width
  let result = product true left right width
  write_operand i 0 (bit_and (result % u64_mod) (mask width)) width
  set_overflow (product_overflows true result width)

unfoldable pub execute_imul : Instruction → Action (Unit {0})
unfolding execute_mul destination_width read_operand write_operand sign_extend set_flag
execute_imul i =
    if i.op_count == 1
    then execute_mul i true
    else if i.op_count == 2
    then imul_to_destination i 0 1
    else if i.op_count == 3
    then imul_to_destination i 1 2
    else fail (unsupported_operand i.ip)

unfoldable pub unsigned_dividend : ℕ → Registers → ℕ
unsigned_dividend width r =
    if width == 8
    then bit_and r.rax 0xffff
    else if width == 16
    then bit_or (bit_and r.rdx 0xffff * 2 ^ 16) (bit_and r.rax 0xffff)
    else if width == 32
    then bit_or (bit_and r.rdx 0xffff_ffff * 2 ^ 32) (bit_and r.rax 0xffff_ffff)
    else bit_or (r.rdx * 2 ^ 64) r.rax

-- As a pattern of 128 bits.
unfoldable pub signed_dividend : ℕ → Registers → ℕ
unfolding sign_extend
signed_dividend width r =
    if width == 8
    then widen_signed (sign_extend (bit_and r.rax 0xffff) 16)
    else if width == 16
    then widen_signed
        (sign_extend (bit_or (bit_and r.rdx 0xffff * 2 ^ 16) (bit_and r.rax 0xffff)) 32)
    else if width == 32
    then widen_signed
        (sign_extend (bit_or (bit_and r.rdx 0xffff_ffff * 2 ^ 32) (bit_and r.rax 0xffff_ffff)) 64)
    else bit_or (r.rdx * 2 ^ 64) r.rax

-- A signed number by its sign and magnitude, from its pattern of 128 bits, and its lower 64 bits.
pub record Signed : Type 0 where
  pub negative : Bool
  pub magnitude : ℕ

abbrev pub signed_of : ℕ → Signed
signed_of x =
    if ltb x (2 ^ 127)
    then record { negative = false; magnitude = x }
    else record { negative = true; magnitude = u128_mod - x }

abbrev pub low_bits : Signed → ℕ
low_bits n =
    if n.negative then (u64_mod - n.magnitude % u64_mod) % u64_mod else n.magnitude % u64_mod

-- Division of signed numbers rounds towards zero.
abbrev pub quotient_of : Signed → Signed → Signed
quotient_of a b = record {
  negative = differ a.negative b.negative;
  magnitude = a.magnitude / b.magnitude;
}

abbrev pub remainder_of : Signed → Signed → Signed
remainder_of a b = record { negative = a.negative; magnitude = a.magnitude % b.magnitude }

-- Outside `signed_min(width)` to `signed_max(width)`.
abbrev pub is_outside_signed : ℕ → Signed → Bool
is_outside_signed width n =
    if n.negative then ltb (sign_bit width) n.magnitude else leb (sign_bit width) n.magnitude

unfoldable pub write_div_result : ℕ → ℕ → ℕ → Action (Unit {0})
unfolding write_register
write_div_result width quotient remainder =
    if width == 8
    then (do write_register al quotient; write_register ah remainder)
    else if width == 16
    then (do write_register ax quotient; write_register dx remainder)
    else if width == 32
    then (do write_register eax quotient; write_register edx remainder)
    else with_registers (λ r. record r { rax = quotient; rdx = remainder })

-- The least number divided by minus one panics.
unfoldable pub divide_signed : ℕ → ℕ → ℕ → ℕ → Action (Unit {0})
unfolding sign_extend write_div_result
divide_signed ip width dividend divisor =
    let a = signed_of dividend in
    let b = signed_of (widen_signed (sign_extend divisor width)) in
    if a.magnitude == 2 ^ 127 && (b.negative && b.magnitude == 1)
    then fail panicked
    else if is_outside_signed width (quotient_of a b)
    then fail (divide_error ip)
    else write_div_result width (low_bits (quotient_of a b)) (low_bits (remainder_of a b))

unfoldable pub divide_unsigned : ℕ → ℕ → ℕ → ℕ → Action (Unit {0})
unfolding write_div_result
divide_unsigned ip width dividend divisor =
    if ltb (mask width) (dividend / divisor)
    then fail (divide_error ip)
    else write_div_result width (dividend / divisor) (dividend % divisor)

unfoldable pub execute_div : Instruction → Bool → Action (Unit {0})
unfolding source_width read_operand unsigned_dividend signed_dividend divide_signed divide_unsigned
execute_div i signed = do
  width ← source_width i 0
  divisor ← read_masked i 0 width
  (if divisor == 0
      then fail (divide_error i.ip)
      else if signed
      then (λ s. divide_signed i.ip width (signed_dividend width s.registers) divisor s)
      else (λ s. divide_unsigned i.ip width (unsigned_dividend width s.registers) divisor s))
