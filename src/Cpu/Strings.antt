-- ===== src/Cpu/Strings.antt =====
-- crates/ruxeon-cpu/src/interpreter.rs: the string instructions. `size` is the operand's in bytes, which the source
-- takes from the mnemonic.
use ruxeon.Common.{
  ℕ, zero, suc, ◌*◌, Bool, true, false, not, ◌&&◌, ◌||◌, List, bit_and, if◌then◌else◌,
}
use ruxeon.Access.{write_bytes}
use ruxeon.Registers.{flag, mask}
use ruxeon.Cpu.Flags.{flag_zf, flag_df, wrapping_add, wrapping_sub, set_sub_flags}
use ruxeon.Cpu.State.{Instruction, Action, pure, gets, ◌>>=◌, ◌>>◌, with_registers, with_memory}
use ruxeon.Cpu.Operands.{
  little_endian_to_u64, u64_to_little_endian, segment_base, read_memory, accumulator,
}

-- One step of an address, down where the direction flag is set.
abbrev pub advance : Bool → ℕ → ℕ → ℕ
advance down size address = if down then wrapping_sub address size else wrapping_add address size

abbrev pub repeat_count : Bool → Action ℕ
repeat_count repeated = gets (λ s. if repeated then s.registers.rcx else 1)

abbrev pub direction : Action Bool
direction = gets (λ s. flag s.registers flag_df)

abbrev pub clear_rcx : Bool → Action (Unit {0})
clear_rcx repeated = with_registers (λ r. if repeated then record r { rcx = 0 } else r)

-- The loop of `execute_stos`, which returns the address behind.
unfoldable pub store_loop : ℕ → List ℕ → Bool → ℕ → ℕ → Action ℕ
unfolding write_bytes
store_loop zero bytes down size address = pure address
store_loop (suc count) bytes down size address = do
  with_memory (write_bytes address bytes)
  store_loop count bytes down size (advance down size address)

unfoldable pub execute_stos : Instruction → ℕ → Action (Unit {0})
unfolding flag u64_to_little_endian segment_base store_loop
execute_stos i size = do
  count ← repeat_count i.has_rep_prefix
  down ← direction
  bytes ← gets (λ s. u64_to_little_endian s.registers.rax size)
  base ← gets (λ s. segment_base i.memory_segment s.registers)
  start ← gets (λ s. wrapping_add base s.registers.rdi)
  address ← store_loop count bytes down size start
  with_registers (λ r. record r { rdi = wrapping_sub address base })
  clear_rcx i.has_rep_prefix

unfoldable pub move_loop : ℕ → Bool → ℕ → ℕ → ℕ → Action (ℕ × ℕ)
unfolding read_memory write_bytes
move_loop zero down size source destination = pure (source, destination)
move_loop (suc count) down size source destination = do
  bytes ← read_memory source size
  with_memory (write_bytes destination bytes)
  move_loop count down size (advance down size source) (advance down size destination)

unfoldable pub execute_movs : Instruction → ℕ → Action (Unit {0})
unfolding flag segment_base move_loop
execute_movs i size = do
  count ← repeat_count i.has_rep_prefix
  down ← direction
  base ← gets (λ s. segment_base i.memory_segment s.registers)
  source ← gets (λ s. wrapping_add base s.registers.rsi)
  destination ← gets (λ s. s.registers.rdi)
  ends ← move_loop count down size source destination
  with_registers (λ r. record r { rsi = wrapping_sub ends.0 base; rdi = ends.1 })
  clear_rcx i.has_rep_prefix

abbrev pub is_repeated : Instruction → Bool
is_repeated i = i.has_repe_prefix || i.has_repne_prefix

-- Whether the loop of a comparison ends after a round that left the zero flag so.
unfoldable pub stops : Instruction → Bool → Bool
stops i zf = i.has_repe_prefix && not zf || (i.has_repne_prefix && zf || not (is_repeated i))

-- The loop of `execute_scas`: the address behind and the rounds left.
unfoldable pub scan_loop : Instruction → ℕ → ℕ → Bool → ℕ → Action (ℕ × ℕ)
unfolding read_memory little_endian_to_u64 accumulator set_sub_flags flag stops
scan_loop i size zero down address = pure (address, 0)
scan_loop i size (suc count) down address = do
  bytes ← read_memory address size
  expected ← accumulator (size * 8)
  let scanned = little_endian_to_u64 bytes
  let expected' = bit_and expected (mask (size * 8))
  with_registers (set_sub_flags expected' scanned (wrapping_sub expected' scanned) (size * 8))
  zf ← gets (λ s. flag s.registers flag_zf)
  let next = advance down size address
  let rest = scan_loop i size count down next
  elim (stops i zf) [ true ↦ pure (next, count) | false ↦ rest ]

abbrev pub set_rcx : Bool → ℕ → Action (Unit {0})
set_rcx repeated count = with_registers (λ r. if repeated then record r { rcx = count } else r)

unfoldable pub execute_scas : Instruction → ℕ → Action (Unit {0})
unfolding flag segment_base scan_loop
execute_scas i size = do
  count ← repeat_count (is_repeated i)
  down ← direction
  base ← gets (λ s. segment_base i.memory_segment s.registers)
  start ← gets (λ s. wrapping_add base s.registers.rdi)
  found ← scan_loop i size count down start
  with_registers (λ r. record r { rdi = wrapping_sub found.0 base })
  set_rcx (is_repeated i) found.1

unfoldable pub compare_loop : Instruction → ℕ → ℕ → Bool → ℕ → ℕ → Action ((ℕ × ℕ) × ℕ)
unfolding read_memory little_endian_to_u64 set_sub_flags flag stops
compare_loop i size zero down source destination = pure ((source, destination), 0)
compare_loop i size (suc count) down source destination = do
  left_bytes ← read_memory source size
  right_bytes ← read_memory destination size
  let left = little_endian_to_u64 left_bytes
  let right = little_endian_to_u64 right_bytes
  with_registers (set_sub_flags left right (wrapping_sub left right) (size * 8))
  zf ← gets (λ s. flag s.registers flag_zf)
  let source' = advance down size source
  let destination' = advance down size destination
  let rest = compare_loop i size count down source' destination'
  elim (stops i zf) [ true ↦ pure ((source', destination'), count) | false ↦ rest ]

unfoldable pub execute_cmps : Instruction → ℕ → Action (Unit {0})
unfolding flag segment_base compare_loop
execute_cmps i size = do
  count ← repeat_count (is_repeated i)
  down ← direction
  base ← gets (λ s. segment_base i.memory_segment s.registers)
  source ← gets (λ s. wrapping_add base s.registers.rsi)
  destination ← gets (λ s. s.registers.rdi)
  found ← compare_loop i size count down source destination
  with_registers (λ r. record r { rsi = wrapping_sub (found.0.0) base; rdi = found.0.1 })
  set_rcx (is_repeated i) found.1
