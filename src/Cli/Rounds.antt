-- ===== src/Cli/Rounds.antt =====
-- Rounds of the loop, and the places that threads have in the queue behind them.
use ruxeon.Common.{
  ℕ, ◌≡◌, refl, sym, inl, inr, true, false, Option, none, some, List, arith, Option-cases, All,
  Result, ok, err,
}
use Prim.Native.String.{String}
use mathlib.Core.Path.{subst}
use ruxeon.Common.Dict.{nat_eq, Dict, get, remove}
use ruxeon.Registers.{Registers}
use ruxeon.Process.{LinuxThread, main_thread_registers}
use ruxeon.ProcessTable.{ProcessTable}
use ruxeon.Scheduler.{Entry, is_runnable, may_run, next_thread}
use ruxeon.Scheduler.RoundRobin.{Picks, next_thread-Picks}
use ruxeon.Scheduler.Queueing.{IsQueued}
use ruxeon.Cpu.State.{CpuError, StepOutcome, Instruction, Interpreter}
use ruxeon.Cpu.State
use ruxeon.Cpu.Transfers.{Flow}
use ruxeon.Cpu.Blocks.{Decoder, Clock, step_block}
use ruxeon.Cpu.Outcomes.{Satisfies, IsGoing, step_block-Yields}
use ruxeon.Linux.Os.{Os, IoErrorKind}
use ruxeon.Linux.State.{Machine}
use ruxeon.Cli.{CliError}
use ruxeon.Cli.Runtime.{Task, Runtime, cache_or_default}
use ruxeon.Cli.Loop.{answer, carry_on, after_block, run_block, run_task, turn_of, take_turn, round}
use ruxeon.Cli.Queued.{IsWalk, Leaves, on_step-IsQueued}

-- A process with a thread that may run is in a state to run itself.
abbrev pub IsConsistent : {File World : Type 0} → Runtime File World → Type 0
IsConsistent {File} s =
    (pid tid : ℕ) (r : Task File) (t : LinuxThread Registers)
    → get pid s.processes.records ≡ some r
    → get tid r.threads ≡ some t
    → is_runnable t.state ≡ true
    → is_runnable r.state ≡ true

-- What a round leaves: an error; the run's answer, which is the status that the first process has ended with, given
-- when no thread of the queue may run; or every thread that may run in the queue.
abbrev pub RoundLeaves :
    {File World : Type 0}
    → Runtime File World
    → Result CliError (Option ℕ) × Runtime File World
    → Type 0
RoundLeaves s (err e, s') = Unit
RoundLeaves s (ok (some code), s') =
    (s.initial_exit_code ≡ some code) × All (λ e. may_run s.processes e ≡ false) s.queue
RoundLeaves s (ok none, s') = IsQueued s'.processes.records s'.queue

may_run-found :
    {File : Type 0} (table : ProcessTable (Machine File) Registers) (pid tid : ℕ)
    → may_run table (pid, tid) ≡ true
    → (r : Task File) × (t : LinuxThread Registers) × (get pid table.records ≡ some r)
      × (get tid r.threads ≡ some t)
      × (is_runnable t.state ≡ true)
unfolding may_run
may_run-found table pid tid h = elim (Option-cases (get pid table.records)) [
  | inl missing ↦ absurd (ground (arith, missing, h))
  | inr (r, found) ↦ elim (Option-cases (get tid r.threads)) [
    | inl missing ↦ absurd (ground (arith, missing, found, h))
    | inr (t, thread) ↦ (r, t, found, thread, ground (arith, thread, found, h))
  ]
]

module _ {File World : Type 0} (os : Os File World)
    (read_file : List ℕ → World → Result IoErrorKind (List ℕ)) (segment_name : ℕ → String)
    (order : Dict ℕ (Task File) → Dict ℕ (Task File)) (initial_pid : ℕ) (walk : IsWalk order)
    (decoder : Decoder) (other : Instruction → State.Action Flow) (clock : ℕ → Clock) where
  after_block-IsQueued :
      (pid : ℕ) (r : Task File) (start : Registers)
      (block : Result CpuError StepOutcome × Interpreter) (s : Runtime File World)
      → is_runnable r.state ≡ true
      → Satisfies IsGoing block.0
      → Leaves (after_block os read_file segment_name order initial_pid pid r start block s)
  unfolding after_block
  after_block-IsQueued pid r start (err e, i) s h g = tt
  after_block-IsQueued pid r start (ok outcome, i) s h g =
      on_step-IsQueued os read_file segment_name order initial_pid walk outcome
        (record { pid = pid; task = r; interpreter = i }) s h g

  run_block-IsQueued :
      (pid : ℕ) (r : Task File) (registers : Option Registers) (s : Runtime File World)
      → is_runnable r.state ≡ true
      → Leaves (
          run_block os read_file segment_name order initial_pid decoder other clock pid r registers
            s)
  unfolding run_block
  run_block-IsQueued pid r none s h = tt
  run_block-IsQueued pid r (some registers) s h =
      let start : Interpreter = record {
        memory = r.machine.memory;
        registers = registers;
        cache = cache_or_default (get pid s.caches);
      } in
      after_block-IsQueued pid r registers (step_block decoder other clock start)
        (record s { caches = remove pid s.caches }) h
        ((step_block-Yields decoder other clock).yields start)

  run_task-IsQueued :
      (pid : ℕ) (r : Task File) (s : Runtime File World)
      → is_runnable r.state ≡ true
      → Leaves (run_task os read_file segment_name order initial_pid decoder other clock pid r s)
  unfolding run_task
  run_task-IsQueued pid r s h = rw h (run_block-IsQueued pid r (main_thread_registers r) s h)

  carry_on-RoundLeaves :
      (s : Runtime File World) (ran : Result CliError (Unit {0}) × Runtime File World)
      → Leaves ran
      → RoundLeaves s (carry_on ran)
  carry_on-RoundLeaves s (err e, s') h = tt
  carry_on-RoundLeaves s (ok _, s') h = h

  answer-RoundLeaves :
      (s s' : Runtime File World) (code : Option ℕ)
      → s.initial_exit_code ≡ code
      → All (λ e. may_run s.processes e ≡ false) s.queue
      → RoundLeaves s (answer code s')
  answer-RoundLeaves s s' none h idle = tt
  answer-RoundLeaves s s' (some code) h idle = (h, idle)

  turn_of-RoundLeaves :
      (s s' : Runtime File World) (pid : ℕ) (r : Task File)
      → is_runnable r.state ≡ true
      → RoundLeaves s
          (turn_of os read_file segment_name order initial_pid decoder other clock pid (some r) s')
  unfolding turn_of
  turn_of-RoundLeaves s s' pid r h =
      let taken = record (s'.processes) { records = remove pid s'.processes.records } in
      let s'' = record s' { processes = taken } in
      carry_on-RoundLeaves s
        (run_task os read_file segment_name order initial_pid decoder other clock pid r s'')
        (run_task-IsQueued pid r s'' h)

  take_turn-RoundLeaves :
      (s : Runtime File World) (choice : Option Entry × List Entry)
      → IsConsistent s
      → Picks s.processes s.queue choice
      → RoundLeaves s
          (take_turn os read_file segment_name order initial_pid decoder other clock choice s)
  unfolding take_turn
  take_turn-RoundLeaves s (none, queue) c p =
      answer-RoundLeaves s (record s { queue = queue }) s.initial_exit_code refl p.0
  take_turn-RoundLeaves s (some (pid, tid), queue) c p =
      let (r, t, found, thread, runs) = may_run-found s.processes pid tid p.runs in
      let s' = record s { queue = queue } in
      subst
        (λ o.
          RoundLeaves s
            (turn_of os read_file segment_name order initial_pid decoder other clock pid o s'))
        (sym found) (turn_of-RoundLeaves s s' pid r (c pid tid r t found thread runs))

  -- Where a walk over the map of the processes meets each of them, and every process with a thread that may run is
  -- itself in a state to run: a round that is not an error, whatever block of instructions it runs and whatever system
  -- call that ends in, either leaves every thread of the table that may run in the queue, or answers the status that
  -- the first process has ended with, which it does only where no thread of the queue may run.
  pub round-RoundLeaves :
      (s : Runtime File World)
      → IsConsistent s
      → RoundLeaves s (round os read_file segment_name order initial_pid decoder other clock s)
  unfolding round
  round-RoundLeaves s c =
      take_turn-RoundLeaves s (next_thread s.processes s.queue) c
        (next_thread-Picks s.processes s.queue)
