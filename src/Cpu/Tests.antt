-- ===== src/Cpu/Tests.antt =====
-- The interpreter's theorems at concrete inputs.
use ruxeon.Common.{
  none, Bool, ◌==◌, if◌then◌else◌, ◌%◌, ◌^◌, ◌≡◌, refl, [], ◌∷◌, ok, true, false, inl, arith,
}
use ruxeon.Region.{MemoryRegion}
use ruxeon.Memory.Layout.{IsValid, next, end}
use ruxeon.Memory.Samples.{read_write, block, memory_of}
use ruxeon.Access.{check_permission}
use ruxeon.Registers.{Register, Registers, flag}
use ruxeon.Cpu.Flags.{Mnemonic, condition_passed, set_sub_flags, wrapping_sub, flag_cf}
use ruxeon.Cpu.Conditions.{condition_passed-compare, relation}
use ruxeon.Cpu.State.{Interpreter, Instruction, OpKind, fail, panicked}
use ruxeon.Cpu.Execute.{execute}
use ruxeon.Cpu.Operands.{push_u64, pop_u64}
use ruxeon.Cpu.Integer.{BinaryOp, binary}
use ruxeon.Cpu.Carry.{binary-adc}
use ruxeon.Cpu.Stack.{pop_u64-push_u64}

abbrev some_registers : Registers
some_registers = record {
  rax = 0x1122;
  rbx = 7;
  rcx = 0;
  rdx = 0;
  rsi = 0;
  rdi = 0;
  rbp = 0;
  rsp = 24;
  r8 = 0;
  r9 = 0;
  r10 = 0;
  r11 = 0;
  r12 = 0;
  r13 = 0;
  r14 = 0;
  r15 = 0;
  xmm = [];
  fs_base = 0;
  gs_base = 0;
  rip = 0;
  rflags = 3;
}

condition_passed-compare_example :
    condition_passed Mnemonic.jl (set_sub_flags 0xff 1 (wrapping_sub 0xff 1) 8 some_registers)
    ≡ ok true
unfolding relation
condition_passed-compare_example =
    condition_passed-compare Mnemonic.jl 0xff 1 some_registers (inl refl) (omega arith)
      (omega arith) refl

binary-adc_example :
    let (result, s') = binary BinaryOp.adc 3 0xff 8 some_registers in
    (result % 2 ^ 8 ≡ 3) × (flag s' flag_cf ≡ false)
unfolding flag
binary-adc_example = binary-adc 3 0xff some_registers (inl refl)

abbrev stack_block : MemoryRegion
stack_block = block 16 read_write (0 ∷ 0 ∷ 0 ∷ 0 ∷ 0 ∷ 0 ∷ 0 ∷ 0 ∷ []) 8

abbrev some_interpreter : Interpreter
some_interpreter = record {
  memory = memory_of (stack_block ∷ []);
  registers = some_registers;
  cache = record {
    ir = record { blocks = []; hits = 0; misses = 0; invalidations = 0 };
    decoded = [];
  };
}

stack-IsValid : IsValid some_interpreter.memory
stack-IsValid =
    next {r = stack_block} (omega arith)
      (record { positive = omega arith; filled = refl; bytes = omega arith }) (end (omega arith))

pop_u64-push_u64_example :
    let s' = (push_u64 0x1234 some_interpreter).1 in
    ((pop_u64 s').0 ≡ ok 0x1234) × ((pop_u64 s').1.registers.rsp ≡ 24)
unfolding push_u64 check_permission
pop_u64-push_u64_example =
    pop_u64-push_u64 0x1234 some_interpreter stack-IsValid (omega arith) (omega arith) refl refl

-- Two instructions as the tests of the source have them: a scan for a zero byte, and an exchange with addition.
abbrev is_scan : Mnemonic → Bool
is_scan Mnemonic.scasb = true
is_scan _ = false

abbrev plain : Mnemonic → Instruction
plain mnemonic = record {
  ip = 0;
  next_ip = 3;
  mnemonic = mnemonic;
  op_count = 2;
  op_kind = λ n. OpKind.register;
  op_register = λ n. if n == 0 then Register.rax else Register.rbx;
  immediate = 0;
  near_branch = 0;
  memory_size_of = 0;
  memory_segment = Register.no_register;
  memory_base = Register.no_register;
  memory_index = Register.no_register;
  memory_index_scale = 1;
  memory_displacement = 0;
  ip_rel_address = none;
  is_string_code = true;
  has_rep_prefix = false;
  has_repe_prefix = false;
  has_repne_prefix = is_scan mnemonic;
}

abbrev text_interpreter : Interpreter
text_interpreter = record some_interpreter {
  memory = memory_of (block 16 read_write (97 ∷ 98 ∷ 0 ∷ 99 ∷ []) 4 ∷ []);
  registers = record some_registers { rax = 0; rdi = 16; rcx = 16 };
}

scan_test :
    let s = (execute 0 (λ i. fail panicked) (plain Mnemonic.scasb) text_interpreter).1 in
    (s.registers.rdi ≡ 19) × (s.registers.rcx ≡ 13) × (s.registers.rip ≡ 3)
unfolding execute
scan_test = (refl, refl, refl)

xadd_test :
    let s = (execute 0 (λ i. fail panicked) (plain Mnemonic.xadd) some_interpreter).1 in
    (s.registers.rax ≡ 0x1129) × (s.registers.rbx ≡ 0x1122)
unfolding execute
xadd_test = (refl, refl)
