-- ===== src/Cpu/Blocks.antt =====
-- crates/ruxeon-cpu/src/interpreter.rs: decoding through the cache of blocks, and the runs of blocks. Traces are left
-- out.
use Prim.Native.String.{String}
use ruxeon.Common.{
  ℕ, zero, suc, ◌^◌, ◌%◌, Bool, true, false, not, ◌&&◌, ◌||◌, Option, none, some, List, [], ◌∷◌,
  ◌==◌, if◌then◌else◌, ok, err,
}
use ruxeon.Common.Dict
use ruxeon.Common.Dict.{nat_eq}
use ruxeon.Access.{fetch_bytes}
use ruxeon.Ir
use ruxeon.Ir.{IrInstructionKind, IrInstruction, BlockTerminator, BasicBlock, new_block}
use ruxeon.Cpu.Flags.{Mnemonic, is_jcc}
use ruxeon.Cpu.State.{
  invalid_instruction, empty_step_limit, execution, panicked, Instruction, SyscallTrap, StepOutcome,
  go_on, trap, halted, Action, pure, fail, gets, from_memory, ◌>>=◌, ◌>>◌, with_cache,
}
use ruxeon.Cpu.Transfers.{Flow}
use ruxeon.Cpu.Environment.{handle_vsyscall}
use ruxeon.Cpu.Execute.{execute}

pub data RunOutcome : Type 0 where
  stopped : SyscallTrap → RunOutcome
  exited : ℕ → RunOutcome
  step_limit : RunOutcome

-- The decoder: the instruction that bytes at an address start with, if any, its length and its text.
pub record Decoder : Type 0 where
  pub instruction_at : List ℕ → ℕ → Option Instruction
  pub length_of : Instruction → ℕ
  pub format : Instruction → String

-- The host's clock, as an instruction finds it.
pub record Clock : Type 0 where
  pub ticks : ℕ
  pub seconds : ℕ
  pub micros : ℕ

abbrev pub max_instruction_len : ℕ
max_instruction_len = 15

abbrev pub max_block_instructions : ℕ
max_block_instructions = 64

unfoldable pub instruction_kind : Mnemonic → IrInstructionKind
unfolding is_jcc
instruction_kind Mnemonic.syscall = IrInstructionKind.syscall
instruction_kind Mnemonic.jmp = IrInstructionKind.branch
instruction_kind Mnemonic.call = IrInstructionKind.call
instruction_kind Mnemonic.ret = IrInstructionKind.return
instruction_kind m = if is_jcc m then IrInstructionKind.branch else IrInstructionKind.compute

abbrev pub block_terminator : IrInstructionKind → BlockTerminator
block_terminator IrInstructionKind.compute = BlockTerminator.fall_through
block_terminator IrInstructionKind.branch = BlockTerminator.branch
block_terminator IrInstructionKind.call = BlockTerminator.call
block_terminator IrInstructionKind.return = BlockTerminator.return
block_terminator IrInstructionKind.syscall = BlockTerminator.syscall

abbrev pub is_compute : IrInstructionKind → Bool
is_compute kind = elim kind [ IrInstructionKind.compute ↦ true | _ ↦ false ]

-- An error with the address of the instruction that it is from.
abbrev pub executing : ℕ → Action StepOutcome → Action StepOutcome
executing ip m s =
    let (r, s') = m s in
    elim r [ ok outcome ↦ (ok outcome, s') | err e ↦ (err (execution ip e), s') ]

-- What `translate_block` has gathered: instructions, their descriptions, and how the block ends.
pub record Translated : Type 0 where
  pub ir : List IrInstruction
  pub decoded : List Instruction
  pub terminator : BlockTerminator

abbrev pub ends_with : BlockTerminator → Translated
ends_with terminator = record { ir = []; decoded = []; terminator = terminator }

module _ (decoder : Decoder) (other : Instruction → Action Flow) where
  -- Bytes that are no instruction are an error in all callers.
  unfoldable pub decode : ℕ → Action Instruction
  unfolding fetch_bytes
  decode ip = do
    bytes ← (λ s. from_memory (fetch_bytes ip max_instruction_len s.memory) s)
    elim (decoder.instruction_at bytes ip) [
      | none ↦ fail (invalid_instruction ip)
      | some i ↦ pure i
    ]

  abbrev pub describe : Instruction → ℕ → IrInstruction
  describe i ip = record {
    ip = ip;
    len = decoder.length_of i;
    text = decoder.format i;
    kind = instruction_kind i.mnemonic;
  }

  -- The loop of `translate_block`, for at most so many instructions.
  unfoldable pub gather : ℕ → ℕ → Action Translated
  unfolding decode instruction_kind
  gather zero ip = pure (ends_with BlockTerminator.fall_through)
  gather (suc count) ip = do
    i ← decode ip
    let kind = instruction_kind i.mnemonic
    let more = gather count i.next_ip
    rest ← elim (is_compute kind && not (count == 0)) [
      | true ↦ more
      | false ↦ pure (ends_with (block_terminator kind))
    ]
    pure (record {
      ir = describe i ip ∷ rest.ir;
      decoded = i ∷ rest.decoded;
      terminator = rest.terminator;
    })

  unfoldable pub translate_block : ℕ → Action (BasicBlock × List Instruction)
  unfolding gather new_block
  translate_block start_ip = do
    found ← gather max_block_instructions start_ip
    pure (new_block start_ip found.ir found.terminator, found.decoded)

  -- The block that is cached with its instructions; the lookup counts as a hit or a miss.
  unfoldable pub lookup : ℕ → Action (Option (BasicBlock × List Instruction))
  unfolding Ir.get
  lookup ip s =
      let (found, ir') = Ir.get ip s.cache.ir in
      let s' = record s { cache = record s.cache { ir = ir' } } in
      elim found [
        | none ↦ (ok none, s')
        | some block ↦ elim (Dict.get ip s.cache.decoded) [
          | none ↦ (ok none, s')
          | some decoded ↦ (ok (some (block, decoded)), s')
        ]
      ]

  unfoldable pub cached_block : ℕ → Action (BasicBlock × List Instruction)
  unfolding lookup translate_block Ir.insert
  cached_block ip = do
    cached ← lookup ip
    elim cached [
      | some found ↦ pure found
      | none ↦ (do
        made ← translate_block ip
        with_cache
            (λ c. record { ir = Ir.insert made.0 c.ir; decoded = Dict.insert ip made.1 c.decoded })
        pure made)
    ]

  unfoldable pub step : Clock → Action StepOutcome
  unfolding handle_vsyscall decode execute
  step clock = do
    handled ← handle_vsyscall clock.seconds clock.micros
    elim handled [
      | some outcome ↦ pure outcome
      | none ↦ (do
        ip ← gets (λ s. s.registers.rip)
        i ← decode ip
        executing ip (execute clock.ticks other i))
    ]

  -- The loop of `step_block` over the instructions, with the clock at each.
  unfoldable pub run_instructions :
      (ℕ → Clock) → ℕ → List Instruction → List IrInstruction → Action StepOutcome
  unfolding execute
  run_instructions clock n [] irs = pure go_on
  run_instructions clock n (i ∷ rest) [] = do
    ip ← gets (λ s. s.registers.rip)
    (if ip == i.ip then fail panicked else pure go_on)
  run_instructions clock n (i ∷ rest) (ir ∷ irs) =
      let more = run_instructions clock (suc n) rest irs in
      gets (λ s. s.registers.rip) >>= λ ip.
      if not (ip == i.ip)
      then pure go_on
      else executing i.ip (execute ((clock n).ticks) other i) >>= λ outcome. elim outcome [
        | go_on ↦ if is_compute ir.kind then more else pure go_on
        | trap t ↦ pure (trap t)
        | halted code ↦ pure (halted code)
      ]

  unfoldable pub step_block : (ℕ → Clock) → Action StepOutcome
  unfolding handle_vsyscall cached_block run_instructions
  step_block clock = do
    handled ← handle_vsyscall ((clock 0).seconds) ((clock 0).micros)
    elim handled [
      | some outcome ↦ pure outcome
      | none ↦ (do
        ip ← gets (λ s. s.registers.rip)
        found ← cached_block ip
        run_instructions clock 0 found.1 found.0.instructions)
    ]

  -- The number that the first argument has as an `i32`, in two's complement.
  abbrev pub exit_code : SyscallTrap → ℕ
  exit_code t = elim t.args [ [] ↦ 0 | ◌∷◌ first _ ↦ first % 2 ^ 32 ]

  unfoldable pub run_steps : (ℕ → ℕ → Clock) → ℕ → ℕ → Action RunOutcome
  unfolding step_block
  run_steps clock n zero = pure step_limit
  run_steps clock n (suc steps) =
      let more = run_steps clock (suc n) steps in
      step_block (clock n) >>= λ outcome. elim outcome [
        | go_on ↦ more
        | halted code ↦ pure (exited code)
        | trap t ↦
            if t.number == 60 || t.number == 231
            then pure (exited (exit_code t))
            else pure (stopped t)
      ]

  unfoldable pub run : (ℕ → ℕ → Clock) → ℕ → Action RunOutcome
  unfolding run_steps
  run clock max_steps =
      if max_steps == 0 then fail empty_step_limit else run_steps clock 0 max_steps
