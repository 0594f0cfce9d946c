-- ===== src/Cli/Queued.antt =====
-- The queue behind a step of a process.
use ruxeon.Cpu.State.{clear_cache, StepOutcome, go_on, trap, halted}
use ruxeon.Memory.{GuestMemory}
use ruxeon.Common.{
  ℕ, ◌≡◌, sym, ◌∙◌, inl, inr, true, some, List, [], ◌∷◌, arith, ◌==◌, Bool-cases, Result, ok, err,
}
use Prim.Native.String.{String}
use mathlib.Core.Path.{subst}
use ruxeon.Common.Dict.{nat_eq, Dict, get}
use ruxeon.Scheduler.{Entry, is_runnable, enqueue_process}
use ruxeon.Scheduler.RoundRobin.{is_in}
use ruxeon.Scheduler.Queueing.{IsQueued, process_adds, process_keeps}
use ruxeon.Linux.Os.{Os, IoErrorKind}
use ruxeon.Registers.{Registers}
use ruxeon.Linux.State.{
  LinuxProcess, SyscallOutcome, LinuxProcess, return_with, blocked, exit_with, execve_with,
}
use ruxeon.Cpu.Outcomes.{IsGoing}
use ruxeon.Cli.{CliError, execve_state}
use ruxeon.Cli.Runtime.{
  Task, Runtime, Running, into_record, wait_main_thread, enqueue_records, enqueue_runnable,
  give_back, settle, suspend, finish,
}
use ruxeon.Cli.Loop.{after_execve, call, with_result, after_execve, conclude, on_step}

module _ {File : Type 0} where
  records_keep :
      (e : Entry) (records : Dict ℕ (Task File)) (queue : List Entry)
      → is_in e queue ≡ true
      → is_in e (enqueue_records records queue) ≡ true
  unfolding enqueue_records
  records_keep e [] queue h = h
  records_keep e ((pid, r) ∷ records) queue h =
      records_keep e records (enqueue_process r queue) (process_keeps e r queue h)

  enqueue_records-IsQueued :
      (records : Dict ℕ (Task File)) (queue : List Entry)
      → IsQueued records (enqueue_records records queue)
  unfolding get enqueue_records
  enqueue_records-IsQueued [] queue pid tid r t h ht runs = ground (arith, h)
  enqueue_records-IsQueued ((k, u) ∷ records) queue pid tid r t h ht runs =
      elim (Bool-cases (k == pid)) [
        | inl here ↦
            let same : u ≡ r = ground (arith, h, here) in
            records_keep (t.process_id, t.tid) records _
              (process_adds tid u t queue (subst (λ v. get tid v.threads ≡ some t) (sym same) ht)
                runs)
        | inr there ↦
            enqueue_records-IsQueued records _ pid tid r t (ground (arith, h, there)) ht runs
      ]

-- A walk over a map finds the map's entries, whatever their order.
abbrev pub IsWalk : {V : Type 0} → (Dict ℕ V → Dict ℕ V) → Type 0
IsWalk {V} order = (records : Dict ℕ V) (k : ℕ) → get k (order records) ≡ get k records

module _ {File World : Type 0} (order : Dict ℕ (Task File) → Dict ℕ (Task File))
    (walk : IsWalk order) where
  enqueue_runnable-IsQueued :
      (s : Runtime File World)
      → let s' = enqueue_runnable order s in IsQueued s'.processes.records s'.queue
  unfolding enqueue_runnable
  enqueue_runnable-IsQueued s pid tid r t h ht runs =
      enqueue_records-IsQueued (order s.processes.records) s.queue pid tid r t
        (walk s.processes.records pid ∙ h) ht runs

  settle-IsQueued :
      (g : Running File) (s : Runtime File World)
      → is_runnable g.task.state ≡ true
      → let s' = settle order g s in IsQueued s'.processes.records s'.queue
  unfolding settle
  settle-IsQueued g s h = rw h (enqueue_runnable-IsQueued (give_back order g (into_record g) s))

-- A step leaves every thread that may run in the queue, unless the run ends with an error.
abbrev pub Leaves : {File World : Type 0} → Result CliError (Unit {0}) × Runtime File World → Type 0
Leaves (err e, s) = Unit
Leaves (ok _, s) = IsQueued s.processes.records s.queue

module _ {File World : Type 0} (os : Os File World)
    (read_file : List ℕ → World → Result IoErrorKind (List ℕ)) (segment_name : ℕ → String)
    (order : Dict ℕ (Task File) → Dict ℕ (Task File)) (initial_pid : ℕ) (walk : IsWalk order) where
  after_execve-IsQueued :
      (r : Result CliError ((GuestMemory × Registers) × LinuxProcess File)) (g : Running File)
      (s : Runtime File World)
      → is_runnable g.task.state ≡ true
      → Leaves (after_execve os read_file segment_name order initial_pid r g s)
  after_execve-IsQueued (err e) g s h = tt
  after_execve-IsQueued (ok ((m, registers), process)) g s h =
      settle-IsQueued order walk
        (record g {
          task = record (g.task) { machine = record { process = process; memory = m } };
          interpreter = record {
            memory = m;
            registers = registers;
            cache = clear_cache g.interpreter.cache;
          };
        })
        s h

  conclude-IsQueued :
      (outcome : SyscallOutcome) (g : Running File) (s : Runtime File World)
      → is_runnable g.task.state ≡ true
      → Leaves (conclude os read_file segment_name order initial_pid outcome g s)
  unfolding conclude suspend
  conclude-IsQueued (return_with value) g s h =
      settle-IsQueued order walk (with_result os read_file segment_name order initial_pid value g) s
        h
  conclude-IsQueued blocked g s h =
      enqueue_runnable-IsQueued order walk (give_back order g (wait_main_thread (into_record g)) s)
  conclude-IsQueued (exit_with code) g s h =
      enqueue_runnable-IsQueued order walk (finish initial_pid code g s)
  conclude-IsQueued (execve_with request) g s h =
      after_execve-IsQueued
        (execve_state os read_file segment_name g.task.machine.process request s.world) g s h

  pub on_step-IsQueued :
      (step : StepOutcome) (g : Running File) (s : Runtime File World)
      → is_runnable g.task.state ≡ true
      → IsGoing step
      → Leaves (on_step os read_file segment_name order initial_pid step g s)
  unfolding on_step call
  on_step-IsQueued go_on g s h n = settle-IsQueued order walk g s h
  on_step-IsQueued (halted code) g s h n = elim n [ ]
  on_step-IsQueued (trap t) g s h n =
      let (outcome, g', s') = call os read_file segment_name order initial_pid t g s in
      conclude-IsQueued outcome g' s' h
