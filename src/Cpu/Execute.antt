-- ===== src/Cpu/Execute.antt =====
-- crates/ruxeon-cpu/src/interpreter.rs: `execute` for the integer instructions. The
-- vector instructions, and the error record of an unknown one, are the section's parameter.
use ruxeon.Common.{ℕ, true, false, if◌then◌else◌}
use ruxeon.Registers.{set_flag}
use ruxeon.Cpu.Flags.{
  adc, add, and_, bsf, bsr, bswap, bt, btc, btr, bts, call, cbw, cdq, cdqe, cld, cmp, cmpsb, cmpsd,
  cmpsq, cmpsw, cmpxchg, cpuid, cqo, cwd, cwde, dec, div, idiv, imul, inc, jmp, lea, leave, mov,
  movsb, movsd, movsq, movsw, movsx, movsxd, movzx, mul, neg, nop, prefetchnta, prefetcht0,
  prefetcht1, prefetcht2, prefetchw, not_, or_, pop, push, rdtsc, ret, rol, ror, sal, sar, sbb,
  scasb, scasd, scasq, scasw, shl, shld, shr, shrd, std, stosb, stosd, stosq, stosw, sub, syscall,
  test, xadd, xchg, xor_, Mnemonic, flag_df, is_cmovcc, is_setcc, is_jcc,
}
use ruxeon.Cpu.State.{
  Instruction, StepOutcome, Action, pure, ◌>>=◌, ◌>>◌, with_registers, go_on, trap,
}
use ruxeon.Cpu.Operands.{
  read_operand, write_operand, destination_width, branch_target, check_condition,
}
use ruxeon.Cpu.Shifts.{
  ShiftOp, DoubleShiftOp, RotateOp, execute_rotate, execute_shift, execute_double_shift,
}
use ruxeon.Cpu.Integer.{
  BinaryOp, UnaryOp, from_bool, execute_binary, execute_unary, execute_bswap, execute_xchg,
  execute_xadd, execute_cmpxchg,
}
use ruxeon.Cpu.Bitwise.{
  BitModifyOp, execute_bit_test, execute_bit_modify, execute_bit_scan, execute_mul, execute_imul,
  execute_div, forward, reverse,
}
use ruxeon.Cpu.Strings.{execute_stos, execute_movs, execute_scas, execute_cmps}
use ruxeon.Cpu.Transfers.{
  Flow, then_next, execute_mov, execute_movsx, execute_movzx, execute_cbw, execute_cwde,
  execute_cdqe, execute_cwd, execute_cdq, execute_cqo, execute_lea, execute_cmp, execute_test,
  execute_jmp, execute_call, execute_ret, execute_leave, execute_push, execute_pop, execute_syscall,
  next, jumped, trapped,
}
use ruxeon.Cpu.Environment.{execute_rdtsc, execute_cpuid}

module _ (ticks : ℕ) (other : Instruction → Action Flow) where
  -- The mnemonics with a condition.
  unfoldable pub execute_conditional : Mnemonic → Instruction → Action Flow
  unfolding is_cmovcc is_setcc is_jcc check_condition destination_width read_operand write_operand
      branch_target
  execute_conditional m i =
      if is_cmovcc m
      then (do
        passed ← check_condition m
        (if passed then then_next (execute_mov i) else pure next))
      else if is_setcc m
      then (do passed ← check_condition m; then_next (write_operand i 0 (from_bool passed) 8))
      else if is_jcc m
      then (do passed ← check_condition m; (if passed then execute_jmp i else pure next))
      else other i

  unfoldable pub execute_mnemonic : Mnemonic → Instruction → Action Flow
  unfolding execute_conditional execute_binary execute_bit_modify execute_bit_scan execute_bit_test
      execute_bswap execute_call execute_cbw execute_cdq execute_cdqe execute_cmp execute_cmps
      execute_cmpxchg execute_cpuid execute_cqo execute_cwd execute_cwde execute_div
      execute_double_shift execute_imul execute_jmp execute_lea execute_leave execute_mov
      execute_movs execute_movsx execute_movzx execute_mul execute_pop execute_push execute_rdtsc
      execute_ret execute_rotate execute_scas execute_shift execute_stos execute_syscall
      execute_test execute_unary execute_xadd execute_xchg set_flag
  execute_mnemonic mov i = then_next (execute_mov i)
  execute_mnemonic movsx i = then_next (execute_movsx i)
  execute_mnemonic movsxd i = then_next (execute_movsx i)
  execute_mnemonic movzx i = then_next (execute_movzx i)
  execute_mnemonic xchg i = then_next (execute_xchg i)
  execute_mnemonic xadd i = then_next (execute_xadd i)
  execute_mnemonic stosb i = then_next (execute_stos i 1)
  execute_mnemonic stosw i = then_next (execute_stos i 2)
  execute_mnemonic stosd i = then_next (execute_stos i 4)
  execute_mnemonic stosq i = then_next (execute_stos i 8)
  execute_mnemonic movsb i = then_next (execute_movs i 1)
  execute_mnemonic movsw i = then_next (execute_movs i 2)
  execute_mnemonic movsq i = then_next (execute_movs i 8)
  execute_mnemonic movsd i = if i.is_string_code then then_next (execute_movs i 4) else other i
  execute_mnemonic scasb i = then_next (execute_scas i 1)
  execute_mnemonic scasw i = then_next (execute_scas i 2)
  execute_mnemonic scasd i = then_next (execute_scas i 4)
  execute_mnemonic scasq i = then_next (execute_scas i 8)
  execute_mnemonic cmpsb i = then_next (execute_cmps i 1)
  execute_mnemonic cmpsw i = then_next (execute_cmps i 2)
  execute_mnemonic cmpsq i = then_next (execute_cmps i 8)
  execute_mnemonic cmpsd i = if i.is_string_code then then_next (execute_cmps i 4) else other i
  execute_mnemonic cbw i = then_next (execute_cbw)
  execute_mnemonic cwde i = then_next (execute_cwde)
  execute_mnemonic cdqe i = then_next (execute_cdqe)
  execute_mnemonic cwd i = then_next (execute_cwd)
  execute_mnemonic cdq i = then_next (execute_cdq)
  execute_mnemonic cqo i = then_next (execute_cqo)
  execute_mnemonic lea i = then_next (execute_lea i)
  execute_mnemonic add i = then_next (execute_binary i BinaryOp.add)
  execute_mnemonic sub i = then_next (execute_binary i BinaryOp.sub)
  execute_mnemonic adc i = then_next (execute_binary i BinaryOp.adc)
  execute_mnemonic sbb i = then_next (execute_binary i BinaryOp.sbb)
  execute_mnemonic xor_ i = then_next (execute_binary i BinaryOp.xor_)
  execute_mnemonic and_ i = then_next (execute_binary i BinaryOp.and_)
  execute_mnemonic or_ i = then_next (execute_binary i BinaryOp.or_)
  execute_mnemonic neg i = then_next (execute_unary i UnaryOp.neg)
  execute_mnemonic not_ i = then_next (execute_unary i UnaryOp.not_)
  execute_mnemonic inc i = then_next (execute_unary i UnaryOp.inc)
  execute_mnemonic dec i = then_next (execute_unary i UnaryOp.dec)
  execute_mnemonic rol i = then_next (execute_rotate i RotateOp.rol)
  execute_mnemonic ror i = then_next (execute_rotate i RotateOp.ror)
  execute_mnemonic bswap i = then_next (execute_bswap i)
  execute_mnemonic shl i = then_next (execute_shift i ShiftOp.shl)
  execute_mnemonic sal i = then_next (execute_shift i ShiftOp.shl)
  execute_mnemonic shr i = then_next (execute_shift i ShiftOp.shr)
  execute_mnemonic sar i = then_next (execute_shift i ShiftOp.sar)
  execute_mnemonic shld i = then_next (execute_double_shift i DoubleShiftOp.shld)
  execute_mnemonic shrd i = then_next (execute_double_shift i DoubleShiftOp.shrd)
  execute_mnemonic bt i = then_next (execute_bit_test i)
  execute_mnemonic bts i = then_next (execute_bit_modify i BitModifyOp.bts)
  execute_mnemonic btr i = then_next (execute_bit_modify i BitModifyOp.btr)
  execute_mnemonic btc i = then_next (execute_bit_modify i BitModifyOp.btc)
  execute_mnemonic cld i = then_next (with_registers (set_flag flag_df false))
  execute_mnemonic std i = then_next (with_registers (set_flag flag_df true))
  execute_mnemonic bsf i = then_next (execute_bit_scan i forward)
  execute_mnemonic bsr i = then_next (execute_bit_scan i reverse)
  execute_mnemonic mul i = then_next (execute_mul i false)
  execute_mnemonic imul i = then_next (execute_imul i)
  execute_mnemonic div i = then_next (execute_div i false)
  execute_mnemonic idiv i = then_next (execute_div i true)
  execute_mnemonic cmp i = then_next (execute_cmp i)
  execute_mnemonic cmpxchg i = then_next (execute_cmpxchg i)
  execute_mnemonic test i = then_next (execute_test i)
  execute_mnemonic jmp i = execute_jmp i
  execute_mnemonic call i = execute_call i
  execute_mnemonic ret i = execute_ret i
  execute_mnemonic leave i = then_next (execute_leave)
  execute_mnemonic push i = then_next (execute_push i)
  execute_mnemonic pop i = then_next (execute_pop i)
  execute_mnemonic nop i = then_next (pure tt)
  execute_mnemonic prefetchnta i = then_next (pure tt)
  execute_mnemonic prefetcht0 i = then_next (pure tt)
  execute_mnemonic prefetcht1 i = then_next (pure tt)
  execute_mnemonic prefetcht2 i = then_next (pure tt)
  execute_mnemonic prefetchw i = then_next (pure tt)
  execute_mnemonic syscall i = execute_syscall i
  execute_mnemonic rdtsc i = then_next (execute_rdtsc ticks)
  execute_mnemonic cpuid i = then_next (execute_cpuid)
  execute_mnemonic m i = execute_conditional m i

  -- `execute`: where an instruction has not written the instruction pointer, it goes to the next one.
  unfoldable pub execute : Instruction → Action StepOutcome
  unfolding execute_mnemonic
  execute i = do
    flow ← execute_mnemonic i.mnemonic i
    elim flow [
      | next ↦ (do with_registers (λ r. record r { rip = i.next_ip }); pure go_on)
      | jumped ↦ pure go_on
      | trapped t ↦ pure (trap t)
    ]
