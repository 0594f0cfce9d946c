-- ===== src/Cpu/Operands.antt =====
-- crates/ruxeon-cpu/src/interpreter.rs: operands, addresses, the stack, and the helpers on words.
use ruxeon.Common.{
  ℕ, ◌+◌, ◌-◌, ◌*◌, ◌/◌, ◌%◌, ◌^◌, Bool, true, false, not, ◌||◌, none, some, List, [], ◌∷◌, take,
  bit_and, bit_or, ltb, ◌==◌, if◌then◌else◌, ok, err,
}
use ruxeon.Common.Words.{u64_mod, to_le_bytes}
use ruxeon.Region.{contains, permission_execute}
use ruxeon.Memory.{GuestMemory}
use ruxeon.Access.{permissions_at, write_bytes, read_word, write_word}
use ruxeon.Access
use ruxeon.Registers as RegisterFile
use ruxeon.Registers.{
  Register, Registers, register_width, mask, complement, fs, gs, no_register, al, ax, eax, rax,
}
use ruxeon.Cpu.Flags.{wrapping_add, wrapping_sub, condition_passed, Mnemonic}
use ruxeon.Cpu.State.{
  unsupported_operand, OpKind, register, memory, immediate8, immediate8to16, immediate8to32,
  immediate8to64, immediate16, immediate32, immediate32to64, immediate64, near_branch16,
  near_branch32, near_branch64, other_kind, Instruction, Action, pure, fail, gets, from_memory,
  from_registers, ◌>>=◌, ◌>>◌, with_registers, with_memory, with_cache, write_register, invalidate,
}

-- The bytes of an operand, at most eight of them.
unfoldable pub or_bytes : ℕ → ℕ → List ℕ → ℕ
or_bytes value index [] = value
or_bytes value index (b ∷ bytes) =
    or_bytes (bit_or value (b * 2 ^ (index * 8) % u64_mod)) (index + 1) bytes

unfoldable pub little_endian_to_u64 : List ℕ → ℕ
unfolding or_bytes
little_endian_to_u64 bytes = or_bytes 0 0 bytes

unfoldable pub u64_to_little_endian : ℕ → ℕ → List ℕ
unfolding to_le_bytes
u64_to_little_endian value size = take size (to_le_bytes 8 value)

unfoldable pub sign_extend : ℕ → ℕ → ℕ
sign_extend value from_width =
    let value' = bit_and value (mask from_width) in
    if bit_and value' (2 ^ (from_width - 1)) == 0
    then value'
    else bit_or value' (complement (mask from_width))

unfoldable pub memory_size : Instruction → ℕ → Action ℕ
memory_size i fallback_width =
    if not (i.memory_size_of == 0)
    then pure i.memory_size_of
    else if fallback_width == 0 || ltb 64 fallback_width
    then fail (unsupported_operand i.ip)
    else pure (fallback_width / 8)

unfoldable pub segment_base : Register → Registers → ℕ
segment_base fs s = s.fs_base
segment_base gs s = s.gs_base
segment_base _ s = 0

abbrev pub is_none : Register → Bool
is_none no_register = true
is_none _ = false

-- What a register adds to an address; nothing where there is no register.
unfoldable pub address_part : Register → ℕ → Action ℕ
unfolding RegisterFile.read
address_part r scale = if is_none r then pure 0 else (do
  value ← (λ s. from_registers (RegisterFile.read r s.registers) s)
  pure (value * scale % u64_mod))

unfoldable pub effective_address : Instruction → Action ℕ
unfolding segment_base address_part
effective_address i = do
  segment ← gets (λ s. segment_base i.memory_segment s.registers)
  elim i.ip_rel_address [
    | some address ↦ pure (wrapping_add segment address)
    | none ↦ do
      base ← address_part i.memory_base 1
      index ← address_part i.memory_index i.memory_index_scale
      pure (wrapping_add (wrapping_add (wrapping_add segment i.memory_displacement) base) index)
  ]

unfoldable pub read_memory : ℕ → ℕ → Action (List ℕ)
unfolding Access.read_bytes
read_memory address size s = from_memory (Access.read_bytes address size s.memory) s

unfoldable pub read_kind : OpKind → Instruction → ℕ → ℕ → Action ℕ
unfolding RegisterFile.read sign_extend memory_size effective_address read_memory
    little_endian_to_u64
read_kind register i op_index width =
    λ s. from_registers (RegisterFile.read (i.op_register op_index) s.registers) s
read_kind immediate8 i op_index width = pure i.immediate
read_kind immediate8to16 i op_index width = pure (sign_extend i.immediate 8)
read_kind immediate8to32 i op_index width = pure (sign_extend i.immediate 8)
read_kind immediate8to64 i op_index width = pure (sign_extend i.immediate 8)
read_kind immediate16 i op_index width = pure i.immediate
read_kind immediate32 i op_index width = pure i.immediate
read_kind immediate32to64 i op_index width = pure (sign_extend i.immediate 32)
read_kind immediate64 i op_index width = pure i.immediate
read_kind memory i op_index width = do
  size ← memory_size i width
  address ← effective_address i
  bytes ← read_memory address size
  pure (little_endian_to_u64 bytes)
read_kind near_branch16 i op_index width = pure i.near_branch
read_kind near_branch32 i op_index width = pure i.near_branch
read_kind near_branch64 i op_index width = pure i.near_branch
read_kind other_kind i op_index width = fail (unsupported_operand i.ip)

unfoldable pub read_operand : Instruction → ℕ → ℕ → Action ℕ
unfolding read_kind
read_operand i op_index width = read_kind (i.op_kind op_index) i op_index width

abbrev pub is_executable_at : ℕ → GuestMemory → Bool
is_executable_at address m = elim (permissions_at address m) [
  | none ↦ false
  | some p ↦ contains p permission_execute
]

-- A write to memory that may hold code drops the cached blocks that it meets.
unfoldable pub write_kind : OpKind → Instruction → ℕ → ℕ → ℕ → Action (Unit {0})
unfolding write_register memory_size effective_address u64_to_little_endian permissions_at
    write_bytes invalidate
write_kind register i op_index value width =
    write_register (i.op_register op_index) (bit_and value (mask width))
write_kind memory i op_index value width = do
  size ← memory_size i width
  address ← effective_address i
  invalidate_cache ← gets (λ s. is_executable_at address s.memory)
  with_memory (write_bytes address (u64_to_little_endian value size))
  (if invalidate_cache then with_cache (λ c. (invalidate address size c).1) else pure tt)
write_kind _ i op_index value width = fail (unsupported_operand i.ip)

unfoldable pub write_operand : Instruction → ℕ → ℕ → ℕ → Action (Unit {0})
unfolding write_kind
write_operand i op_index value width = write_kind (i.op_kind op_index) i op_index value width

unfoldable pub destination_width : Instruction → ℕ → Action ℕ
unfolding register_width memory_size
destination_width i op_index = elim (i.op_kind op_index) [
  | register ↦ from_registers (register_width (i.op_register op_index))
  | memory ↦ do size ← memory_size i 64; pure (size * 8)
  | _ ↦ fail (unsupported_operand i.ip)
]

unfoldable pub source_width : Instruction → ℕ → Action ℕ
unfolding register_width memory_size
source_width i op_index = elim (i.op_kind op_index) [
  | register ↦ from_registers (register_width (i.op_register op_index))
  | memory ↦ do size ← memory_size i 64; pure (size * 8)
  | immediate8 ↦ pure 8
  | immediate8to16 ↦ pure 8
  | immediate8to32 ↦ pure 8
  | immediate8to64 ↦ pure 8
  | immediate16 ↦ pure 16
  | immediate32 ↦ pure 32
  | immediate32to64 ↦ pure 32
  | immediate64 ↦ pure 64
  | _ ↦ fail (unsupported_operand i.ip)
]

unfoldable pub branch_target : Instruction → ℕ → Action ℕ
unfolding read_operand
branch_target i op_index = elim (i.op_kind op_index) [
  | near_branch16 ↦ pure i.near_branch
  | near_branch32 ↦ pure i.near_branch
  | near_branch64 ↦ pure i.near_branch
  | register ↦ read_operand i op_index 64
  | memory ↦ read_operand i op_index 64
  | _ ↦ fail (unsupported_operand i.ip)
]

unfoldable pub push_u64 : ℕ → Action (Unit {0})
unfolding write_word
push_u64 value = do
  with_registers (λ r. record r { rsp = wrapping_sub r.rsp 8 })
  rsp ← gets (λ s. s.registers.rsp)
  with_memory (write_word 8 rsp value)

unfoldable pub pop_u64 : Action ℕ
unfolding read_word
pop_u64 = do
  value ← (λ s. from_memory (read_word 8 s.registers.rsp s.memory) s)
  with_registers (λ r. record r { rsp = wrapping_add r.rsp 8 })
  pure value

unfoldable pub check_condition : Mnemonic → Action Bool
unfolding condition_passed
check_condition m s = elim (condition_passed m s.registers) [
  | ok passed ↦ (ok passed, s)
  | err _ ↦ (err (unsupported_operand s.registers.rip), s)
]

abbrev pub accumulator_register : ℕ → Register
accumulator_register width =
    if width == 8 then al else if width == 16 then ax else if width == 32 then eax else rax

unfoldable pub accumulator : ℕ → Action ℕ
unfolding RegisterFile.read
accumulator width s = from_registers (RegisterFile.read (accumulator_register width) s.registers) s

unfoldable pub write_accumulator : ℕ → ℕ → Action (Unit {0})
unfolding write_register
write_accumulator width value = write_register (accumulator_register width) value
