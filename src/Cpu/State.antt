-- ===== src/Cpu/State.antt =====
-- crates/ruxeon-cpu/src/interpreter.rs: the interpreter's state, its errors, and actions on the state. What the
-- decoder answers about an instruction is a record; texts are left out.
use ruxeon.Common.{ℕ, Bool, true, Option, none, some, List, [], Result, ok, err}
use ruxeon.Common.Words.{saturating_add}
use ruxeon.Common.Dict
use ruxeon.Common.Dict.{Dict, nat_eq}
use ruxeon.Region.{GuestMemoryError}
use ruxeon.Memory.{GuestMemory, Outcome}
use ruxeon.Registers.{Register, RegisterError, Registers}
use ruxeon.Registers as RegisterFile
use ruxeon.Ir.{BlockCache, invalidate_range, clear, get_without_stats, is_outside}
use ruxeon.Cpu.Flags.{Mnemonic}

-- `panicked` stands for a panic of the program, as a build with overflow checks has it.
pub data CpuError : Type 0 where
  memory_error : GuestMemoryError → CpuError
  register_error : RegisterError → CpuError
  invalid_instruction : ℕ → CpuError
  unsupported_instruction : ℕ → CpuError
  unsupported_operand : ℕ → CpuError
  empty_step_limit : CpuError
  divide_error : ℕ → CpuError
  execution : ℕ → CpuError → CpuError
  panicked : CpuError

pub data OpKind : Type 0 where
  register memory : OpKind
  immediate8 immediate8to16 immediate8to32 immediate8to64 : OpKind
  immediate16 immediate32 immediate32to64 immediate64 : OpKind
  near_branch16 near_branch32 near_branch64 : OpKind
  other_kind : OpKind

-- The decoder's answers about one instruction. `immediate` and `near_branch` are the value of the kind that the
-- operand has; `is_string_code` says that the code of a `movsd` or `cmpsd` is that of the string instruction;
-- `ip_rel_address` is there where the memory operand is relative to the instruction pointer.
pub record Instruction : Type 0 where
  pub ip : ℕ
  pub next_ip : ℕ
  pub mnemonic : Mnemonic
  pub op_count : ℕ
  pub op_kind : ℕ → OpKind
  pub op_register : ℕ → Register
  pub immediate : ℕ
  pub near_branch : ℕ
  pub memory_size_of : ℕ
  pub memory_segment : Register
  pub memory_base : Register
  pub memory_index : Register
  pub memory_index_scale : ℕ
  pub memory_displacement : ℕ
  pub ip_rel_address : Option ℕ
  pub is_string_code : Bool
  pub has_rep_prefix : Bool
  pub has_repe_prefix : Bool
  pub has_repne_prefix : Bool

pub record ExecutionCache : Type 0 where
  pub ir : BlockCache
  pub decoded : Dict ℕ (List Instruction)

-- The test by which `invalidate_range` keeps a decoded entry.
abbrev pub keeps_decoded : ℕ → ℕ → BlockCache → ℕ → List Instruction → Bool
keeps_decoded addr stop ir id _ = elim (get_without_stats id ir) [
  | none ↦ true
  | some block ↦ is_outside addr stop id block
]

unfoldable pub invalidate : ℕ → ℕ → ExecutionCache → ℕ × ExecutionCache
unfolding invalidate_range
invalidate addr size c =
    let stop = saturating_add addr size in
    let (removed, ir') = invalidate_range addr size c.ir in
    (removed, record { ir = ir'; decoded = Dict.retain (keeps_decoded addr stop c.ir) c.decoded })

unfoldable pub clear_cache : ExecutionCache → ExecutionCache
unfolding clear
clear_cache c = record { ir = clear c.ir; decoded = [] }

pub record Interpreter : Type 0 where
  pub memory : GuestMemory
  pub registers : Registers
  pub cache : ExecutionCache

pub record SyscallTrap : Type 0 where
  pub number : ℕ
  pub args : List ℕ

pub data StepOutcome : Type 0 where
  go_on : StepOutcome
  trap : SyscallTrap → StepOutcome
  halted : ℕ → StepOutcome

-- A method on `&mut self` that may fail; what it changed before an error stays.
abbrev pub Action : Type 0 → Type 0
Action A = Interpreter → Result CpuError A × Interpreter

module _ {A : Type 0} where
  abbrev pub pure : A → Action A
  pure a s = (ok a, s)

  abbrev pub fail : CpuError → Action A
  fail e s = (err e, s)

  abbrev pub gets : (Interpreter → A) → Action A
  gets f s = (ok (f s), s)

  abbrev pub from_memory : Result GuestMemoryError A → Action A
  from_memory (ok a) s = (ok a, s)
  from_memory (err e) s = (err (memory_error e), s)

  abbrev pub from_registers : Result RegisterError A → Action A
  from_registers (ok a) s = (ok a, s)
  from_registers (err e) s = (err (register_error e), s)

infixl 5 ◌>>=◌ ◌>>◌
abbrev pub ◌>>=◌ : {A B : Type 0} → Action A → (A → Action B) → Action B
◌>>=◌ m f s = let (r, s') = m s in elim r [ ok a ↦ f a s' | err e ↦ (err e, s') ]

abbrev pub ◌>>◌ : {A B : Type 0} → Action A → Action B → Action B
m >> k = m >>= λ _. k

abbrev pub with_registers : (Registers → Registers) → Action (Unit {0})
with_registers f s = (ok tt, record s { registers = f s.registers })

-- A write to the memory, whose outcome is kept also where it is an error.
abbrev pub with_memory : (GuestMemory → Outcome) → Action (Unit {0})
with_memory f s =
    let (r, m) = f s.memory in
    let s' = record s { memory = m } in
    elim r [ ok _ ↦ (ok tt, s') | err e ↦ (err (memory_error e), s') ]

abbrev pub with_cache : (ExecutionCache → ExecutionCache) → Action (Unit {0})
with_cache f s = (ok tt, record s { cache = f s.cache })

unfoldable pub write_register : Register → ℕ → Action (Unit {0})
unfolding RegisterFile.write
write_register r value s = elim (RegisterFile.write r value s.registers) [
  | ok regs ↦ (ok tt, record s { registers = regs })
  | err e ↦ (err (register_error e), s)
]
