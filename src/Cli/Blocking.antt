-- ===== src/Cli/Blocking.antt =====
-- What a system call that blocks leaves of the process.
use ruxeon.Common.{ℕ, ◌≡◌, refl, false, some, List, arith, Result}
use Prim.Native.String.{String}
use ruxeon.Common.Dict.{nat_eq, Dict, get, insert, modify, get-insert, get-modify}
use ruxeon.Registers.{Registers}
use ruxeon.Process.{LinuxThread, set_main_thread_registers, waiting}
use ruxeon.Scheduler.{is_runnable, may_run}
use ruxeon.Linux.Os.{Os, IoErrorKind}
use ruxeon.ProcessTable.{ProcessTable}
use ruxeon.Linux.State.{Machine, blocked}
use ruxeon.Cli.Runtime.{
  Task, Runtime, Running, into_record, wait_main_thread, children_of, sync_children,
  enqueue_runnable, suspend,
}
use ruxeon.Cli.Loop.{conclude}

module _ {File : Type 0} where
  -- The record of a process that has been stopped in its turn: it waits, and keeps what the interpreter had.
  pub record IsStopped (g : Running File) (t : LinuxThread Registers) (r : Task File) : Type 0 where
    pub state : r.state ≡ waiting
    pub parent : r.parent ≡ g.task.parent
    pub memory : r.machine ≡ record (g.task.machine) { memory = g.interpreter.memory }
    pub thread :
        get g.task.tid r.threads
        ≡ some (record t { registers = g.interpreter.registers; state = waiting })

  wait_main_thread-IsStopped :
      (g : Running File) (t : LinuxThread Registers) (children : List ℕ)
      → get g.task.tid g.task.threads ≡ some t
      → IsStopped g t (record (wait_main_thread (into_record g)) { children = children })
  unfolding wait_main_thread into_record set_main_thread_registers
  wait_main_thread-IsStopped g t children h = record {
    state = refl;
    parent = refl;
    memory = refl;
    thread = ground (
      arith,
      h,
      get-modify g.task.tid g.task.tid (λ u. record u { registers = g.interpreter.registers })
          g.task.threads,
      get-modify g.task.tid g.task.tid (λ u. record u { state = waiting })
          (modify g.task.tid (λ u. record u { registers = g.interpreter.registers })
            g.task.threads),
    );
  }

  may_run-stops :
      (table : ProcessTable (Machine File) Registers) (pid tid : ℕ) {r : Task File}
      {t : LinuxThread Registers}
      → get pid table.records ≡ some r
      → get tid r.threads ≡ some t
      → is_runnable t.state ≡ false
      → may_run table (pid, tid) ≡ false
  unfolding may_run
  may_run-stops table pid tid {r} {t} found thread stops = ground (arith, found, thread, stops)

module _ {File World : Type 0} (os : Os File World)
    (read_file : List ℕ → World → Result IoErrorKind (List ℕ)) (segment_name : ℕ → String)
    (order : Dict ℕ (Task File) → Dict ℕ (Task File)) (initial_pid : ℕ) where
  -- Where a system call blocks, and the process has its main thread: the process's record in the table waits, with the
  -- parent that it had, and with the memory, the process and all the registers just as the call has left them. The
  -- thread may not run, and the run's answer stays as it was.
  pub conclude-IsStopped :
      (g : Running File) (t : LinuxThread Registers) (s : Runtime File World)
      → get g.task.tid g.task.threads ≡ some t
      → let s' = (conclude os read_file segment_name order initial_pid blocked g s).1 in
        (r : Task File) × (get g.pid s'.processes.records ≡ some r)
        × IsStopped g t r
        × (may_run s'.processes (g.pid, g.task.tid) ≡ false)
        × (s'.initial_exit_code ≡ s.initial_exit_code)
  unfolding conclude suspend enqueue_runnable sync_children
  conclude-IsStopped g t s h =
      let r : Task File = record (wait_main_thread (into_record g)) {
        children = children_of g.pid (order s.processes.records);
      } in
      let stopped = wait_main_thread-IsStopped g t r.children h in
      let found : get g.pid (insert g.pid r s.processes.records) ≡ some r =
        ground (arith, get-insert g.pid g.pid r s.processes.records) in
      (r, found, stopped, may_run-stops _ g.pid g.task.tid found stopped.thread refl, refl)
