-- ===== src/Cpu/Shifts.antt =====
-- crates/ruxeon-cpu/src/interpreter.rs: rotations and shifts.
use ruxeon.Common.{
  ℕ, ◌-◌, ◌%◌, ◌^◌, Bool, false, not, ◌&&◌, bit_and, bit_or, bit_xor, ltb, leb, ◌==◌, if◌then◌else◌,
}
use ruxeon.Common.Words.{u64_mod}
use ruxeon.Registers.{Registers, set_flag, mask}
use ruxeon.Cpu.Flags.{flag_cf, flag_of, sign_bit, set_common_flags}
use ruxeon.Cpu.State.{Instruction, Action, pure, fail, ◌>>=◌, panicked}
use ruxeon.Cpu.Operands.{sign_extend, read_operand, write_operand, destination_width}
use ruxeon.Cpu.Integer.{shift_left, shift_right, on_registers, read_masked}

pub data ShiftOp : Type 0 where
  shl shr sar : ShiftOp

pub data DoubleShiftOp : Type 0 where
  shld shrd : DoubleShiftOp

pub data RotateOp : Type 0 where
  rol ror : RotateOp

abbrev pub count_mask : ℕ → ℕ
count_mask width = if width == 64 then 0x3f else 0x1f

unfoldable pub rotate_result : RotateOp → ℕ → ℕ → ℕ → ℕ
rotate_result RotateOp.rol value count width =
    bit_and (bit_or (shift_left value count) (shift_right value (width - count))) (mask width)
rotate_result RotateOp.ror value count width =
    bit_and (bit_or (shift_right value count) (shift_left value (width - count))) (mask width)

unfoldable pub rotate_carry : RotateOp → ℕ → ℕ → Bool
rotate_carry RotateOp.rol result width = not (bit_and result 1 == 0)
rotate_carry RotateOp.ror result width = not (bit_and (shift_right result (width - 1)) 1 == 0)

unfoldable pub rotate_overflow : RotateOp → ℕ → ℕ → Bool
rotate_overflow RotateOp.rol result width =
    not (bit_and (bit_xor (shift_right result (width - 1)) result) 1 == 0)
rotate_overflow RotateOp.ror result width =
    not (bit_and (bit_xor (shift_right result (width - 1)) (shift_right result (width - 2))) 1 == 0)

unfoldable pub rotate : RotateOp → ℕ → ℕ → ℕ → Registers → ℕ × Registers
unfolding rotate_result rotate_carry rotate_overflow set_flag
rotate op value count width s =
    let result = rotate_result op value count width in
    let s1 = set_flag flag_cf (rotate_carry op result width) s in
    (result, if count == 1 then set_flag flag_of (rotate_overflow op result width) s1 else s1)

unfoldable pub execute_rotate : Instruction → RotateOp → Action (Unit {0})
unfolding destination_width read_operand rotate write_operand
execute_rotate i op = do
  width ← destination_width i 0
  value ← read_masked i 0 width
  raw_count ← read_operand i 1 8
  let count = bit_and raw_count (count_mask width) % width
  (if count == 0
      then pure tt
      else do result ← on_registers (rotate op value count width); write_operand i 0 result width)

-- The arithmetic shift of the sign-extended value, as a `u64`.
unfoldable pub shift_signed : ℕ → ℕ → ℕ
shift_signed value count =
    if ltb value (2 ^ 63)
    then shift_right value count
    else u64_mod - 1 - shift_right (u64_mod - 1 - value) count

unfoldable pub shift_result : ShiftOp → ℕ → ℕ → ℕ → ℕ
unfolding shift_signed sign_extend
shift_result ShiftOp.shl value count width = bit_and (shift_left value count) (mask width)
shift_result ShiftOp.shr value count width = shift_right value count
shift_result ShiftOp.sar value count width =
    bit_and (shift_signed (sign_extend value width) count) (mask width)

unfoldable pub shift_carry : ShiftOp → ℕ → ℕ → ℕ → Bool
shift_carry ShiftOp.shl value count width =
    leb count width && not (bit_and (shift_right value (width - count)) 1 == 0)
shift_carry _ value count width =
    leb count width && not (bit_and (shift_right value (count - 1)) 1 == 0)

unfoldable pub shift_overflow : ShiftOp → ℕ → ℕ → ℕ → Bool
shift_overflow ShiftOp.shl value result width =
    not (bit_and (bit_xor result value) (sign_bit width) == 0)
shift_overflow ShiftOp.shr value result width = not (bit_and value (sign_bit width) == 0)
shift_overflow ShiftOp.sar value result width = false

unfoldable pub shift : ShiftOp → ℕ → ℕ → ℕ → Registers → ℕ × Registers
unfolding shift_result shift_carry shift_overflow set_flag set_common_flags
shift op value count width s =
    let result = shift_result op value count width in
    let s1 = set_flag flag_cf (shift_carry op value count width) s in
    let s2 =
      if count == 1 then set_flag flag_of (shift_overflow op value result width) s1 else s1 in
    (result, set_common_flags result width s2)

unfoldable pub execute_shift : Instruction → ShiftOp → Action (Unit {0})
unfolding destination_width read_operand shift write_operand
execute_shift i op = do
  width ← destination_width i 0
  value ← read_masked i 0 width
  raw_count ← read_operand i 1 8
  let count = bit_and raw_count (count_mask width)
  (if count == 0
      then pure tt
      else do result ← on_registers (shift op value count width); write_operand i 0 result width)

unfoldable pub double_shift_result : DoubleShiftOp → ℕ → ℕ → ℕ → ℕ → ℕ
double_shift_result DoubleShiftOp.shld value source count width =
    bit_and (bit_or (shift_left value count) (shift_right source (width - count))) (mask width)
double_shift_result DoubleShiftOp.shrd value source count width =
    bit_and (bit_or (shift_right value count) (shift_left source (width - count))) (mask width)

unfoldable pub double_shift_carry : DoubleShiftOp → ℕ → ℕ → ℕ → Bool
double_shift_carry DoubleShiftOp.shld value count width =
    not (bit_and (shift_right value (width - count)) 1 == 0)
double_shift_carry DoubleShiftOp.shrd value count width =
    not (bit_and (shift_right value (count - 1)) 1 == 0)

unfoldable pub double_shift : DoubleShiftOp → ℕ → ℕ → ℕ → ℕ → Registers → ℕ × Registers
unfolding double_shift_result double_shift_carry set_flag set_common_flags
double_shift op value source count width s =
    let result = double_shift_result op value source count width in
    let s1 = set_flag flag_cf (double_shift_carry op value count width) s in
    let s2 =
      if count == 1
      then set_flag flag_of (not (bit_and (bit_xor result value) (sign_bit width) == 0)) s1
      else s1 in
    (result, set_common_flags result width s2)

-- A count above the width, which 16 bits allow, underflows in `width - count`.
unfoldable pub execute_double_shift : Instruction → DoubleShiftOp → Action (Unit {0})
unfolding destination_width read_operand double_shift write_operand
execute_double_shift i op = do
  width ← destination_width i 0
  value ← read_masked i 0 width
  source ← read_masked i 1 width
  raw_count ← read_operand i 2 8
  let count = bit_and raw_count (count_mask width)
  (if count == 0 then pure tt else if ltb width count then fail panicked else do
    result ← on_registers (double_shift op value source count width)
    write_operand i 0 result width)
