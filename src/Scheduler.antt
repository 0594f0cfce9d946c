-- ===== src/Scheduler.antt =====
-- crates/ruxeon-linux/src/lib.rs: `Scheduler`, a round robin over the threads of the processes.
pub mod RoundRobin
pub mod Queueing
mod Tests
use ruxeon.Common.{
  ℕ, Bool, true, false, ◌&&◌, Option, none, some, List, [], ◌∷◌, ◌++◌, any, ◌==◌, if◌then◌else◌,
}
use ruxeon.Common.Dict.{Dict, nat_eq, get}
use ruxeon.Process.{ProcessState, runnable, LinuxThread, ProcessRecord}
use ruxeon.ProcessTable.{ProcessTable}

-- A process and one of its threads.
abbrev pub Entry : Type 0
Entry = ℕ × ℕ

abbrev pub is_runnable : ProcessState → Bool
is_runnable runnable = true
is_runnable _ = false

unfoldable pub enqueue : Entry → List Entry → List Entry
enqueue (pid, tid) queue =
    if any (λ e. e.0 == pid && e.1 == tid) queue then queue else queue ++ (pid, tid) ∷ []

-- The loop of `enqueue_process` over the threads of a record.
unfoldable pub enqueue_threads :
    {Registers : Type 0} → Dict ℕ (LinuxThread Registers) → List Entry → List Entry
unfolding enqueue
enqueue_threads [] queue = queue
enqueue_threads ((tid, t) ∷ threads) queue =
    enqueue_threads threads
      (if is_runnable t.state then enqueue (t.process_id, t.tid) queue else queue)

module _ {Machine Registers : Type 0} where
  unfoldable pub enqueue_process : ProcessRecord Machine Registers → List Entry → List Entry
  unfolding enqueue_threads
  enqueue_process r queue = enqueue_threads r.threads queue

  unfoldable pub may_run : ProcessTable Machine Registers → Entry → Bool
  may_run table (pid, tid) = elim (get pid table.records) [
    | none ↦ false
    | some r ↦ elim (get tid r.threads) [ none ↦ false | some t ↦ is_runnable t.state ]
  ]

  -- Entries that may not run are dropped on the way; the one returned goes to the back.
  unfoldable pub next_thread :
      ProcessTable Machine Registers → List Entry → Option Entry × List Entry
  unfolding may_run
  next_thread table [] = (none, [])
  next_thread table (e ∷ queue) = elim (may_run table e) [
    | true ↦ (some e, queue ++ e ∷ [])
    | false ↦ next_thread table queue
  ]
