-- ===== src/Cpu/Transfers.antt =====
-- crates/ruxeon-cpu/src/interpreter.rs: moves, tests, the stack and the changes of the instruction
-- pointer.
use ruxeon.Common.{ℕ, ◌-◌, ◌^◌, not, [], ◌∷◌, bit_and, ◌==◌, if◌then◌else◌}
use ruxeon.Common.Words.{u64_mod}
use ruxeon.Registers.{ax, dx, eax, edx}
use ruxeon.Cpu.Flags.{set_sub_flags, set_logic_flags, wrapping_add, wrapping_sub}
use ruxeon.Cpu.State.{
  Instruction, SyscallTrap, Action, pure, gets, ◌>>=◌, ◌>>◌, with_registers, write_register,
}
use ruxeon.Cpu.Operands.{
  sign_extend, effective_address, read_operand, write_operand, destination_width, source_width,
  branch_target, push_u64, pop_u64,
}

-- What an instruction has done to the instruction pointer.
pub data Flow : Type 0 where
  next : Flow
  jumped : Flow
  trapped : SyscallTrap → Flow

abbrev pub then_next : Action (Unit {0}) → Action Flow
then_next m = do m; pure next

abbrev pub jump_to : ℕ → Action Flow
jump_to target = do with_registers (λ r. record r { rip = target }); pure jumped

unfoldable pub execute_mov : Instruction → Action (Unit {0})
unfolding destination_width read_operand write_operand
execute_mov i = do
  width ← destination_width i 0
  value ← read_operand i 1 width
  write_operand i 0 value width

unfoldable pub execute_movsx : Instruction → Action (Unit {0})
unfolding destination_width source_width read_operand sign_extend write_operand
execute_movsx i = do
  destination ← destination_width i 0
  source ← source_width i 1
  value ← read_operand i 1 source
  write_operand i 0 (sign_extend value source) destination

unfoldable pub execute_movzx : Instruction → Action (Unit {0})
unfolding destination_width source_width read_operand write_operand
execute_movzx i = do
  destination ← destination_width i 0
  source ← source_width i 1
  value ← read_operand i 1 source
  write_operand i 0 value destination

unfoldable pub execute_cbw : Action (Unit {0})
unfolding sign_extend write_register
execute_cbw = do
  value ← gets (λ s. bit_and (sign_extend (bit_and s.registers.rax 0xff) 8) 0xffff)
  write_register ax value

unfoldable pub execute_cwde : Action (Unit {0})
unfolding sign_extend write_register
execute_cwde = do
  value ← gets (λ s. bit_and (sign_extend (bit_and s.registers.rax 0xffff) 16) 0xffff_ffff)
  write_register eax value

unfoldable pub execute_cdqe : Action (Unit {0})
unfolding sign_extend
execute_cdqe = with_registers (λ r. record r { rax = sign_extend (bit_and r.rax 0xffff_ffff) 32 })

unfoldable pub execute_cwd : Action (Unit {0})
unfolding write_register
execute_cwd = do
  sign ← gets (λ s. not (bit_and s.registers.rax 0x8000 == 0))
  write_register dx (if sign then 0xffff else 0)

unfoldable pub execute_cdq : Action (Unit {0})
unfolding write_register
execute_cdq = do
  sign ← gets (λ s. not (bit_and s.registers.rax 0x8000_0000 == 0))
  write_register edx (if sign then 0xffff_ffff else 0)

unfoldable pub execute_cqo : Action (Unit {0})
execute_cqo =
    with_registers (λ r. record r { rdx = if bit_and r.rax (2 ^ 63) == 0 then 0 else u64_mod - 1 })

unfoldable pub execute_lea : Instruction → Action (Unit {0})
unfolding effective_address destination_width write_operand
execute_lea i = do
  address ← effective_address i
  width ← destination_width i 0
  write_operand i 0 address width

unfoldable pub execute_cmp : Instruction → Action (Unit {0})
unfolding destination_width read_operand set_sub_flags
execute_cmp i = do
  width ← destination_width i 0
  left ← read_operand i 0 width
  right ← read_operand i 1 width
  with_registers (set_sub_flags left right (wrapping_sub left right) width)

unfoldable pub execute_test : Instruction → Action (Unit {0})
unfolding destination_width read_operand set_logic_flags
execute_test i = do
  width ← destination_width i 0
  left ← read_operand i 0 width
  right ← read_operand i 1 width
  with_registers (set_logic_flags (bit_and left right) width)

unfoldable pub execute_jmp : Instruction → Action Flow
unfolding branch_target
execute_jmp i = do target ← branch_target i 0; jump_to target

unfoldable pub execute_call : Instruction → Action Flow
unfolding branch_target push_u64
execute_call i = do target ← branch_target i 0; push_u64 i.next_ip; jump_to target

unfoldable pub execute_ret : Instruction → Action Flow
unfolding pop_u64
execute_ret i = do
  target ← pop_u64
  with_registers
      (λ r. if i.op_count == 1 then record r { rsp = wrapping_add r.rsp i.immediate } else r)
  jump_to target

unfoldable pub execute_leave : Action (Unit {0})
unfolding pop_u64
execute_leave = do
  with_registers (λ r. record r { rsp = r.rbp })
  value ← pop_u64
  with_registers (λ r. record r { rbp = value })

unfoldable pub execute_push : Instruction → Action (Unit {0})
unfolding read_operand push_u64
execute_push i = do value ← read_operand i 0 64; push_u64 value

unfoldable pub execute_pop : Instruction → Action (Unit {0})
unfolding pop_u64 destination_width write_operand
execute_pop i = do value ← pop_u64; width ← destination_width i 0; write_operand i 0 value width

unfoldable pub execute_syscall : Instruction → Action Flow
execute_syscall i = do
  with_registers (λ r. record r { rcx = i.next_ip; r11 = r.rflags; rip = i.next_ip })
  gets (λ s.
      let r = s.registers in
      trapped (record { number = r.rax; args = r.rdi ∷ r.rsi ∷ r.rdx ∷ r.r10 ∷ r.r8 ∷ r.r9 ∷ [] }))
