-- ===== src/Cpu/Environment.antt =====
-- crates/ruxeon-cpu/src/interpreter.rs: the time-stamp counter, `cpuid` and the calls at fixed
-- addresses.
use ruxeon.Common.{ℕ, ◌+◌, ◌%◌, ◌^◌, Option, none, some, bit_and, ltb, ◌==◌, if◌then◌else◌}
use ruxeon.Common.Words.{u64_mod}
use ruxeon.Access.{write_word}
use ruxeon.Registers.{eax, edx, ebx, ecx}
use ruxeon.Cpu.State.{
  StepOutcome, Action, pure, fail, gets, ◌>>=◌, ◌>>◌, with_registers, with_memory, write_register,
  panicked, go_on,
}
use ruxeon.Cpu.Operands.{pop_u64}
use ruxeon.Cpu.Integer.{shift_right}

-- `ticks` is the host's clock in nanoseconds.
unfoldable pub execute_rdtsc : ℕ → Action (Unit {0})
execute_rdtsc ticks =
    with_registers (λ r. record r { rax = bit_and ticks 0xffff_ffff; rdx = shift_right ticks 32 })

abbrev pub cpuid_leaf : ℕ → (ℕ × ℕ) × (ℕ × ℕ)
cpuid_leaf leaf =
    if leaf == 0
    then ((7, 0x756e_6547), (0x6c65_746e, 0x4965_6e69))
    else if leaf == 1
    then (
      (0x0003_06a9, 0),
      (0, 2 ^ 0 + 2 ^ 4 + 2 ^ 5 + 2 ^ 8 + 2 ^ 15 + 2 ^ 19 + 2 ^ 23 + 2 ^ 24 + 2 ^ 25 + 2 ^ 26),
    )
    else if leaf == 0x8000_0000
    then ((0x8000_0001, 0), (0, 0))
    else if leaf == 0x8000_0001
    then ((0, 0), (0, 2 ^ 20 + 2 ^ 29))
    else ((0, 0), (0, 0))

-- The leaf 7 has the same answer as an unknown one, whatever the subleaf.
unfoldable pub execute_cpuid : Action (Unit {0})
unfolding write_register
execute_cpuid = do
  leaf ← gets (λ s. cpuid_leaf (s.registers.rax % 2 ^ 32))
  write_register eax leaf.0.0
  write_register ebx leaf.0.1
  write_register ecx leaf.1.0
  write_register edx leaf.1.1

abbrev pub vsyscall_gettimeofday : ℕ
vsyscall_gettimeofday = 0xffff_ffff_ff60_0000

abbrev pub vsyscall_time : ℕ
vsyscall_time = 0xffff_ffff_ff60_0400

abbrev pub vsyscall_getcpu : ℕ
vsyscall_getcpu = 0xffff_ffff_ff60_0800

abbrev pub store_unless_null : ℕ → ℕ → ℕ → Action (Unit {0})
store_unless_null width address value =
    if address == 0 then pure tt else with_memory (write_word width address value)

-- The sum `rdi + 8` is checked.
abbrev pub store_time : ℕ → ℕ → ℕ → Action (Unit {0})
store_time address seconds micros = if address == 0 then pure tt else (do
  with_memory (write_word 8 address seconds)
  (if ltb (address + 8) u64_mod
      then with_memory (write_word 8 (address + 8) micros)
      else fail panicked))

abbrev pub set_rax : ℕ → Action (Unit {0})
set_rax value = with_registers (λ r. record r { rax = value })

-- The calls at fixed addresses; `seconds` and `micros` are the host's clock. None where the instruction pointer is
-- at no such address.
unfoldable pub handle_vsyscall : ℕ → ℕ → Action (Option StepOutcome)
unfolding write_word pop_u64
handle_vsyscall seconds micros = do
  rip ← gets (λ s. s.registers.rip)
  rdi ← gets (λ s. s.registers.rdi)
  rsi ← gets (λ s. s.registers.rsi)
  let return = (do
    target ← pop_u64
    with_registers (λ r. record r { rip = target })
    pure (some go_on))
  (if rip == vsyscall_gettimeofday
      then (do store_time rdi seconds micros; set_rax 0; return)
      else if rip == vsyscall_time
      then (do store_unless_null 8 rdi seconds; set_rax seconds; return)
      else if rip == vsyscall_getcpu
      then (do store_unless_null 4 rdi 0; store_unless_null 4 rsi 0; set_rax 0; return)
      else pure none)
