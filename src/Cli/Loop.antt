-- ===== src/Cli/Loop.antt =====
-- crates/ruxeon-cli/src/main.rs: the loop that schedules the processes, runs a block of the one whose turn it is and
-- carries out its system calls.
use ruxeon.Memory.{GuestMemory}
use ruxeon.Registers.{Registers}
use ruxeon.Common.{ℕ, zero, suc, Option, none, some, List, if◌then◌else◌, Result, ok, err}
use Prim.Native.String.{String}
use ruxeon.Common.Dict.{nat_eq, Dict, get, remove}
use ruxeon.Common.Actions.{Action}
use ruxeon.Process.{main_thread_registers}
use ruxeon.Scheduler.{Entry, is_runnable, next_thread}
use ruxeon.Cpu.State.{
  CpuError, Interpreter, Instruction, clear_cache, SyscallTrap, StepOutcome, go_on, trap, halted,
}
use ruxeon.Cpu.State
use ruxeon.Cpu.Transfers.{Flow}
use ruxeon.Cpu.Blocks.{Decoder, Clock, step_block}
use ruxeon.Linux.Os.{Os, IoErrorKind}
use ruxeon.Linux.Dispatch.{dispatch}
use ruxeon.Linux.State.{
  SyscallInput, SyscallOutcome, LinuxProcess, System, return_with, blocked, exit_with, execve_with,
}
use ruxeon.Cli.{CliError, execve_state, no_main_thread, guest_step, nothing_runnable, step_limit}
use ruxeon.Cli.Runtime.{
  Task, Runtime, Running, cache_or_default, default_max_steps, modifies_memory, args_of,
  insert_record, enqueue_runnable, settle, suspend, finish,
}

abbrev pub table_or : {Table : Type 0} → Table → Option Table → Table
table_or t none = t
table_or _ (some t) = t

module _ {File World : Type 0} where
  -- `initial_exit_code.context`: no thread may run any more.
  abbrev pub answer : Option ℕ → Action (Runtime File World) CliError (Option ℕ)
  answer none s = (err nothing_runnable, s)
  answer (some code) s = (ok (some code), s)

  abbrev pub carry_on :
      Result CliError (Unit {0}) × Runtime File World
      → Result CliError (Option ℕ) × Runtime File World
  carry_on (err e, s) = (err e, s)
  carry_on (ok _, s) = (ok none, s)

module _ {File World : Type 0} (os : Os File World)
    (read_file : List ℕ → World → Result IoErrorKind (List ℕ)) (segment_name : ℕ → String)
    (order : Dict ℕ (Task File) → Dict ℕ (Task File)) (initial_pid : ℕ) where
  abbrev pub system_of : Running File → Runtime File World → System File World
  system_of g s = record {
    process = g.task.machine.process;
    memory = g.interpreter.memory;
    buffers = s.buffers;
    world = s.world;
    processes = some s.processes;
  }

  -- A call of the dispatcher with the table in which the record of the caller is missing.
  unfoldable pub call :
      SyscallTrap
      → Running File
      → Runtime File World
      → SyscallOutcome × Running File × Runtime File World
  unfolding dispatch modifies_memory clear_cache
  call t g s =
      let input : SyscallInput = record { number = t.number; args = args_of t.args } in
      let (outcome, s') = dispatch os input (some g.interpreter.registers) (system_of g s) in
      (
        outcome,
        record g {
          task = record (g.task) { machine = record (g.task.machine) { process = s'.process } };
          interpreter = record {
            memory = s'.memory;
            registers = record (g.interpreter.registers) { fs_base = s'.process.fs_base };
            cache =
                if modifies_memory t.number
                then clear_cache g.interpreter.cache
                else g.interpreter.cache;
          };
        },
        record s {
          processes = table_or s.processes s'.processes;
          buffers = s'.buffers;
          world = s'.world;
        },
      )

  abbrev pub with_result : ℕ → Running File → Running File
  with_result value g = record g {
    interpreter = record (g.interpreter) {
      registers = record (g.interpreter.registers) { rax = value };
    };
  }

  -- `replace_state`, where the image has been loaded.
  abbrev pub after_execve :
      Result CliError ((GuestMemory × Registers) × LinuxProcess File)
      → Running File
      → Action (Runtime File World) CliError (Unit {0})
  after_execve (err e) g s = (err e, s)
  after_execve (ok ((m, registers), process)) g s = (
    ok tt,
    settle order
        (record g {
          task = record (g.task) { machine = record { process = process; memory = m } };
          interpreter = record {
            memory = m;
            registers = registers;
            cache = clear_cache g.interpreter.cache;
          };
        })
        s,
  )

  -- What a round makes of the call's outcome.
  unfoldable pub conclude :
      SyscallOutcome → Running File → Action (Runtime File World) CliError (Unit {0})
  unfolding settle suspend finish enqueue_runnable execve_state clear_cache
  conclude (return_with value) g s = (ok tt, settle order (with_result value g) s)
  conclude blocked g s = (ok tt, suspend order g s)
  conclude (exit_with code) g s = (ok tt, enqueue_runnable order (finish initial_pid code g s))
  conclude (execve_with request) g s =
      after_execve (execve_state os read_file segment_name g.task.machine.process request s.world) g
        s

  unfoldable pub on_step :
      StepOutcome → Running File → Action (Runtime File World) CliError (Unit {0})
  unfolding settle finish call conclude
  on_step go_on g s = (ok tt, settle order g s)
  on_step (halted code) g s = (ok tt, finish initial_pid code g s)
  on_step (trap t) g s = let (outcome, g', s') = call t g s in conclude outcome g' s'

  -- What a block has come to, from the registers that it started with.
  unfoldable pub after_block :
      ℕ
      → Task File
      → Registers
      → Result CpuError StepOutcome × Interpreter
      → Action (Runtime File World) CliError (Unit {0})
  unfolding on_step
  after_block pid r start (err e, i) s =
      (err (guest_step pid r.machine.process.executable_path start.rip e), s)
  after_block pid r start (ok outcome, i) s =
      on_step outcome (record { pid = pid; task = r; interpreter = i }) s

  -- `other` runs the vector instructions; the clock is that of each instruction of the block.
  module _ (decoder : Decoder) (other : Instruction → State.Action Flow) where
    unfoldable pub run_block :
        (ℕ → Clock)
        → ℕ
        → Task File
        → Option Registers
        → Action (Runtime File World) CliError (Unit {0})
    unfolding step_block after_block
    run_block clock pid r none s = (err no_main_thread, s)
    run_block clock pid r (some registers) s =
        let start : Interpreter = record {
          memory = r.machine.memory;
          registers = registers;
          cache = cache_or_default (get pid s.caches);
        } in
        after_block pid r registers (step_block decoder other clock start)
          (record s { caches = remove pid s.caches })

    unfoldable pub run_task :
        (ℕ → Clock) → ℕ → Task File → Action (Runtime File World) CliError (Unit {0})
    unfolding main_thread_registers run_block
    run_task clock pid r s =
        if is_runnable r.state
        then run_block clock pid r (main_thread_registers r) s
        else (ok tt, record s { processes = insert_record pid r s.processes })

    -- `take`, and the turn of the process where it has a record.
    unfoldable pub turn_of :
        (ℕ → Clock) → ℕ → Option (Task File) → Action (Runtime File World) CliError (Option ℕ)
    unfolding run_task
    turn_of clock pid none s = (ok none, s)
    turn_of clock pid (some r) s =
        let taken = record (s.processes) { records = remove pid s.processes.records } in
        carry_on (run_task clock pid r (record s { processes = taken }))

    -- A round after the scheduler's choice: the run's answer, where the loop ends with it.
    unfoldable pub take_turn :
        (ℕ → Clock) → Option Entry × List Entry → Action (Runtime File World) CliError (Option ℕ)
    unfolding turn_of
    take_turn clock (none, queue) s = answer s.initial_exit_code (record s { queue = queue })
    take_turn clock (some (pid, tid), queue) s =
        turn_of clock pid (get pid s.processes.records) (record s { queue = queue })

    unfoldable pub round : (ℕ → Clock) → Action (Runtime File World) CliError (Option ℕ)
    unfolding next_thread take_turn
    round clock s = take_turn clock (next_thread s.processes s.queue) s

    -- The loop, for at most so many rounds, with the clock at each.
    unfoldable pub run_rounds : (ℕ → ℕ → Clock) → ℕ → ℕ → Action (Runtime File World) CliError ℕ
    unfolding round
    run_rounds clock n zero s = (err step_limit, s)
    run_rounds clock n (suc steps) s =
        let (ran, s') = round (clock n) s in
        elim ran [
          | err e ↦ (err e, s')
          | ok answer ↦ elim answer [
            | some code ↦ (ok code, s')
            | none ↦ run_rounds clock (suc n) steps s'
          ]
        ]

    unfoldable pub run_until_exit : (ℕ → ℕ → Clock) → Action (Runtime File World) CliError ℕ
    unfolding run_rounds
    run_until_exit clock = run_rounds clock 0 default_max_steps
