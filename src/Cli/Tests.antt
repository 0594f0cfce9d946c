-- ===== src/Cli/Tests.antt =====
-- The theorems on the scheduling loop at concrete inputs.
use ruxeon.Common.{
  ok, ℕ, ◌≡◌, refl, true, false, none, some, List, [], ◌∷◌, arith, replicate, Result, err,
}
use Prim.Native.String.{String}
use ruxeon.Common.Text.{codes}
use ruxeon.Common.Dict.{nat_eq, get, insert, remove, modify}
use ruxeon.Memory.Samples.{two_blocks, read_write, block, memory_of}
use ruxeon.Registers.{Registers, new_registers}
use ruxeon.Process.{LinuxThread, runnable}
use ruxeon.Scheduler.{is_runnable, may_run}
use ruxeon.Linux.Os.{IoErrorKind, not_found}
use ruxeon.Linux.State.{blocked}
use ruxeon.Linux.Samples.{some_os, some_process}
use ruxeon.ProcessTable
use ruxeon.Cli.{guest_search_path, host_environment}
use ruxeon.Cli.Runtime.{Task, Runtime, Running, new_cache}
use ruxeon.Cli.Loop.{round, conclude, on_step}
use ruxeon.Cli.Rounds.{IsConsistent, RoundLeaves, round-RoundLeaves}
use ruxeon.Cpu.Blocks.{Decoder, Clock}
use ruxeon.Cpu.Environment.{vsyscall_time}
use ruxeon.Cpu.State.{SyscallTrap, trap, fail, panicked}
use mathlib.Core.Path.{subst}
use ruxeon.Cli.Blocking.{IsStopped, conclude-IsStopped}

abbrev no_file : List ℕ → ℕ → Result IoErrorKind (List ℕ)
no_file path w = err not_found

abbrev no_name : ℕ → String
no_name k = ""

abbrev main_thread : LinuxThread Registers
main_thread = record { tid = 1000; process_id = 1000; registers = new_registers; state = runnable }

abbrev some_running : Running (List ℕ)
some_running = record {
  pid = 1000;
  task = record {
    machine = record { process = some_process; memory = two_blocks };
    tid = 1000;
    threads = (1000, main_thread) ∷ [];
    parent = none;
    children = [];
    state = runnable;
    exit_status = none;
    signal_state = record { pending = [] };
  };
  interpreter = record {
    memory = two_blocks;
    registers = record new_registers { rax = 61; rip = 2 };
    cache = new_cache;
  };
}

abbrev some_runtime : Runtime (List ℕ) ℕ
some_runtime = record {
  processes = ProcessTable.new_table;
  queue = [];
  caches = [];
  buffers = [];
  world = 5;
  initial_exit_code = none;
}

abbrev getpid_trap : SyscallTrap
getpid_trap = record { number = 39; args = replicate 6 0 }

abbrev no_decoder : Decoder
no_decoder = record { instruction_at = λ bytes ip. none; length_of = λ i. 1; format = λ i. "" }

abbrev some_clock : ℕ → Clock
some_clock n = record { ticks = n; seconds = 9; micros = 0 }

-- A process that has called the address of `time`, with its return address on the stack.
abbrev calling_task : Task (List ℕ)
calling_task = record (some_running.task) {
  machine = record {
    process = some_process;
    memory = memory_of (block 64 read_write (replicate 8 0) 8 ∷ []);
  };
  threads =
      (
        1000,
        record main_thread { registers = record new_registers { rip = vsyscall_time; rsp = 64 } },
      )
      ∷ [];
}

abbrev calling_runtime : Runtime (List ℕ) ℕ
calling_runtime = record some_runtime {
  processes = record { records = (1000, calling_task) ∷ []; wait_queues = []; next_pid = 1001 };
  queue = (1000, 1000) ∷ [];
}

calling_runtime-IsConsistent : IsConsistent calling_runtime
unfolding get
calling_runtime-IsConsistent pid tid r t found thread runs =
    let same : calling_task ≡ r = ground (arith, found) in
    subst (λ x. is_runnable x.state ≡ true) same refl

round-RoundLeaves_example : RoundLeaves calling_runtime (
    round some_os no_file no_name
      (λ d. d)
      1000
      no_decoder
      (λ i. fail panicked)
      some_clock
      calling_runtime)
round-RoundLeaves_example =
    round-RoundLeaves some_os no_file no_name (λ d. d) 1000 (λ d k. refl) no_decoder
      (λ i. fail panicked) some_clock calling_runtime calling_runtime-IsConsistent

round_test :
    let (r, s') =
      round some_os no_file no_name
        (λ d. d)
        1000
        no_decoder
        (λ i. fail panicked)
        some_clock
        calling_runtime in
    (r ≡ ok none) × (s'.queue ≡ (1000, 1000) ∷ [])
unfolding round get insert remove modify
round_test = (refl, refl)

-- A blocked `wait4` goes on behind its instruction, with its own number as the result.
conclude-IsStopped_example :
    let s' = (conclude some_os no_file no_name (λ d. d) 1000 blocked some_running some_runtime).1 in
    (r : Task (List ℕ)) × (get 1000 s'.processes.records ≡ some r)
    × IsStopped some_running main_thread r
    × (may_run s'.processes (1000, 1000) ≡ false)
    × (s'.initial_exit_code ≡ none)
unfolding get
conclude-IsStopped_example =
    conclude-IsStopped some_os no_file no_name (λ d. d) 1000 some_running main_thread some_runtime
      refl

queue_test :
    let s' =
      (on_step some_os no_file no_name
        (λ d. d)
        1000
        (trap getpid_trap)
        some_running
        some_runtime).1 in
    s'.queue ≡ (1000, 1000) ∷ []
unfolding on_step insert ProcessTable.new_table modify
queue_test = refl

environment_test :
    host_environment ((codes "Path", codes "C:") ∷ (codes "A", codes "b") ∷ [])
    ≡ guest_search_path ∷ codes "A=b" ∷ []
unfolding host_environment
environment_test = refl
