-- ===== src/Cpu/Integer.antt =====
-- crates/ruxeon-cpu/src/interpreter.rs: the arithmetic and logic of one or two operands, and exchanges.
use ruxeon.Common.{
  ℕ, ◌-◌, ◌*◌, ◌/◌, ◌%◌, ◌^◌, Bool, true, false, not, List, [], ◌∷◌, bit_and, bit_or, bit_xor, ◌==◌,
  if◌then◌else◌, ok,
}
use ruxeon.Common.Words.{u64_mod, to_le_bytes, from_le_bytes}
use ruxeon.Registers.{Registers, flag, set_flag, mask, complement}
use ruxeon.Cpu.Flags.{
  flag_cf, flag_of, sign_bit, wrapping_add, wrapping_sub, set_common_flags, set_add_flags,
  set_sub_flags, set_logic_flags,
}
use ruxeon.Cpu.State.{
  Instruction, Action, pure, fail, ◌>>=◌, ◌>>◌, with_registers, unsupported_operand,
}
use ruxeon.Cpu.Operands.{
  read_operand, write_operand, destination_width, accumulator, write_accumulator,
}

pub data BinaryOp : Type 0 where
  add sub adc sbb xor_ and_ or_ : BinaryOp

pub data UnaryOp : Type 0 where
  neg not_ inc dec : UnaryOp

abbrev pub from_bool : Bool → ℕ
from_bool true = 1
from_bool false = 0

-- `!value` on 64 bits, and the shift to the left, which loses the bits above.
abbrev pub shift_left : ℕ → ℕ → ℕ
shift_left value count = value * 2 ^ count % u64_mod

abbrev pub shift_right : ℕ → ℕ → ℕ
shift_right value count = value / 2 ^ count

-- The result and the flags of a binary operation.
unfoldable pub binary : BinaryOp → ℕ → ℕ → ℕ → Registers → ℕ × Registers
unfolding set_add_flags set_sub_flags set_logic_flags flag
binary BinaryOp.add left right width s =
    let result = wrapping_add left right in (result, set_add_flags left right result width s)
binary BinaryOp.sub left right width s =
    let result = wrapping_sub left right in (result, set_sub_flags left right result width s)
binary BinaryOp.adc left right width s =
    let carry = from_bool (flag s flag_cf) in
    let result = wrapping_add (wrapping_add left right) carry in
    (result, set_add_flags left (wrapping_add right carry) result width s)
binary BinaryOp.sbb left right width s =
    let borrow = from_bool (flag s flag_cf) in
    let result = wrapping_sub (wrapping_sub left right) borrow in
    (result, set_sub_flags left (wrapping_add right borrow) result width s)
binary BinaryOp.xor_ left right width s =
    let result = bit_xor left right in (result, set_logic_flags result width s)
binary BinaryOp.and_ left right width s =
    let result = bit_and left right in (result, set_logic_flags result width s)
binary BinaryOp.or_ left right width s =
    let result = bit_or left right in (result, set_logic_flags result width s)

-- An operation on the registers that has a result.
abbrev pub on_registers : {A : Type 0} → (Registers → A × Registers) → Action A
on_registers f s = let (a, r) = f s.registers in (ok a, record s { registers = r })

unfoldable pub execute_binary : Instruction → BinaryOp → Action (Unit {0})
unfolding destination_width read_operand binary write_operand
execute_binary i op = do
  width ← destination_width i 0
  left ← read_operand i 0 width
  right ← read_operand i 1 width
  result ← on_registers (binary op left right width)
  write_operand i 0 result width

unfoldable pub unary : UnaryOp → ℕ → ℕ → Registers → ℕ × Registers
unfolding set_flag set_common_flags
unary UnaryOp.neg value width s =
    let result = bit_and (wrapping_sub 0 value) (mask width) in
    let s1 = set_flag flag_cf (not (value == 0)) s in
    let s2 = set_flag flag_of (value == sign_bit width) s1 in
    (result, set_common_flags result width s2)
unary UnaryOp.not_ value width s = (bit_and (complement value) (mask width), s)
unary UnaryOp.inc value width s =
    let result = bit_and (wrapping_add value 1) (mask width) in
    (result, set_common_flags result width (set_flag flag_of (value == sign_bit width - 1) s))
unary UnaryOp.dec value width s =
    let result = bit_and (wrapping_sub value 1) (mask width) in
    (result, set_common_flags result width (set_flag flag_of (value == sign_bit width) s))

-- An operand under the mask of its width.
abbrev pub read_masked : Instruction → ℕ → ℕ → Action ℕ
read_masked i op_index width = do
  value ← read_operand i op_index width
  pure (bit_and value (mask width))

unfoldable pub execute_unary : Instruction → UnaryOp → Action (Unit {0})
unfolding destination_width read_operand unary write_operand
execute_unary i op = do
  width ← destination_width i 0
  value ← read_masked i 0 width
  result ← on_registers (unary op value width)
  write_operand i 0 result width

-- `swap_bytes` of a word of `n` bytes.
abbrev pub reverse_onto : List ℕ → List ℕ → List ℕ
reverse_onto acc [] = acc
reverse_onto acc (x ∷ xs) = reverse_onto (x ∷ acc) xs

unfoldable pub swap_bytes : ℕ → ℕ → ℕ
unfolding to_le_bytes from_le_bytes
swap_bytes n value = from_le_bytes (reverse_onto [] (to_le_bytes n value))

unfoldable pub execute_bswap : Instruction → Action (Unit {0})
unfolding destination_width read_operand swap_bytes write_operand
execute_bswap i = do
  width ← destination_width i 0
  value ← read_masked i 0 width
  (if width == 32
      then write_operand i 0 (swap_bytes 4 value) width
      else if width == 64
      then write_operand i 0 (swap_bytes 8 value) width
      else fail (unsupported_operand i.ip))

unfoldable pub execute_xchg : Instruction → Action (Unit {0})
unfolding destination_width read_operand write_operand
execute_xchg i = do
  width ← destination_width i 0
  left ← read_operand i 0 width
  right ← read_operand i 1 width
  write_operand i 0 right width
  write_operand i 1 left width

unfoldable pub execute_xadd : Instruction → Action (Unit {0})
unfolding destination_width read_operand set_add_flags write_operand
execute_xadd i = do
  width ← destination_width i 0
  destination ← read_masked i 0 width
  source ← read_masked i 1 width
  let result = bit_and (wrapping_add destination source) (mask width)
  with_registers (set_add_flags destination source result width)
  write_operand i 0 result width
  write_operand i 1 destination width

unfoldable pub execute_cmpxchg : Instruction → Action (Unit {0})
unfolding destination_width read_operand accumulator set_sub_flags write_operand write_accumulator
execute_cmpxchg i = do
  width ← destination_width i 0
  destination ← read_masked i 0 width
  expected ← accumulator width
  source ← read_masked i 1 width
  with_registers (set_sub_flags expected destination (wrapping_sub expected destination) width)
  (if expected == destination
      then write_operand i 0 source width
      else write_accumulator width destination)
