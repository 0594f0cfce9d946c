-- ===== src/Cli/Runtime.antt =====
-- crates/ruxeon-cli/src/main.rs: what the loop over the rounds keeps, and how a process leaves its round. Traces and
-- the list of unsupported instructions, which are only printed, are left out.
use ruxeon.Common.{
  ℕ, Bool, false, ◌&&◌, Option, none, some, List, [], ◌∷◌, leb, ◌==◌, if◌then◌else◌,
}
use ruxeon.Common.Dict.{nat_eq, Dict, insert, modify}
use ruxeon.Registers.{Registers}
use ruxeon.Process.{ProcessRecord, set_main_thread_registers, mark_exited, waiting}
use ruxeon.ProcessTable.{ProcessTable, record_exit}
use ruxeon.Scheduler.{Entry, is_runnable, enqueue_process}
use ruxeon.Cpu.State.{Interpreter, ExecutionCache}
use ruxeon.Linux.State.{SyscallArgs, Machine}

-- A process record with the process and its memory in it.
abbrev pub Task : Type 0 → Type 0
Task File = ProcessRecord (Machine File) Registers

-- What lives through the rounds: besides the table, the scheduler's queue and the caches, what the processes share of
-- the host.
pub record Runtime (File World : Type 0) : Type 0 where
  pub processes : ProcessTable (Machine File) Registers
  pub queue : List Entry
  pub caches : Dict ℕ ExecutionCache
  pub buffers : List (List ℕ)
  pub world : World
  pub initial_exit_code : Option ℕ

-- The process that has its turn, taken from the table, with the interpreter that its memory has moved to.
pub record Running (File : Type 0) : Type 0 where
  pub pid : ℕ
  pub task : Task File
  pub interpreter : Interpreter

abbrev pub new_cache : ExecutionCache
new_cache = record {
  ir = record { blocks = []; hits = 0; misses = 0; invalidations = 0 };
  decoded = [];
}

abbrev pub cache_or_default : Option ExecutionCache → ExecutionCache
cache_or_default none = new_cache
cache_or_default (some cache) = cache

abbrev pub default_max_steps : ℕ
default_max_steps = 5_000_000

-- The numbers of `mmap`, `mprotect`, `munmap` and `brk`.
unfoldable pub modifies_memory : ℕ → Bool
modifies_memory number = leb 9 number && leb number 12

abbrev pub args_of : List ℕ → SyscallArgs
args_of (a ∷ b ∷ c ∷ d ∷ e ∷ f ∷ _) = record {
  arg0 = a;
  arg1 = b;
  arg2 = c;
  arg3 = d;
  arg4 = e;
  arg5 = f;
}
args_of _ = record { arg0 = 0; arg1 = 0; arg2 = 0; arg3 = 0; arg4 = 0; arg5 = 0 }

module _ {File : Type 0} where
  -- `into_state`, and its memory and registers into the record.
  unfoldable pub into_record : Running File → Task File
  unfolding set_main_thread_registers
  into_record g =
      set_main_thread_registers g.interpreter.registers
        (record (g.task) { machine = record (g.task.machine) { memory = g.interpreter.memory } })

  unfoldable pub wait_main_thread : Task File → Task File
  wait_main_thread r = record r {
    state = waiting;
    threads = modify r.tid (λ t. record t { state = waiting }) r.threads;
  }

  unfoldable pub children_of : ℕ → Dict ℕ (Task File) → List ℕ
  children_of pid [] = []
  children_of pid ((child, r) ∷ records) =
      let rest = children_of pid records in
      if elim r.parent [ none ↦ false | some p ↦ p == pid ] then child ∷ rest else rest

  -- The loop of `enqueue_runnable`.
  unfoldable pub enqueue_records : Dict ℕ (Task File) → List Entry → List Entry
  unfolding enqueue_process
  enqueue_records [] queue = queue
  enqueue_records ((pid, r) ∷ records) queue = enqueue_records records (enqueue_process r queue)

  abbrev pub insert_record :
      ℕ → Task File → ProcessTable (Machine File) Registers → ProcessTable (Machine File) Registers
  insert_record pid r t = record t { records = insert pid r t.records }

-- `order` is the order in which a walk over the map of the records meets them.
module _ {File : Type 0} (order : Dict ℕ (Task File) → Dict ℕ (Task File)) where
  unfoldable pub sync_children : ℕ → ProcessTable (Machine File) Registers → Task File → Task File
  unfolding children_of
  sync_children pid t r = record r { children = children_of pid (order t.records) }

module _ {File World : Type 0} (order : Dict ℕ (Task File) → Dict ℕ (Task File)) where
  unfoldable pub enqueue_runnable : Runtime File World → Runtime File World
  unfolding enqueue_records
  enqueue_runnable s = record s { queue = enqueue_records (order s.processes.records) s.queue }

  -- The end of a round: the record goes back into the table.
  abbrev pub give_back : Running File → Task File → Runtime File World → Runtime File World
  give_back g r s = record s {
    caches = insert g.pid g.interpreter.cache s.caches;
    processes = insert_record g.pid (sync_children order g.pid s.processes r) s.processes;
  }

  unfoldable pub settle : Running File → Runtime File World → Runtime File World
  unfolding into_record sync_children enqueue_runnable
  settle g s =
      let s' = give_back g (into_record g) s in
      if is_runnable g.task.state then enqueue_runnable s' else s'

  unfoldable pub suspend : Running File → Runtime File World → Runtime File World
  unfolding into_record wait_main_thread sync_children enqueue_runnable
  suspend g s = enqueue_runnable (give_back g (wait_main_thread (into_record g)) s)

module _ {File World : Type 0} (initial_pid : ℕ) where
  unfoldable pub finish : ℕ → Running File → Runtime File World → Runtime File World
  unfolding record_exit into_record mark_exited
  finish code g s = record s {
    processes =
        insert_record g.pid (mark_exited code (into_record g))
          (record_exit g.pid g.task.parent code s.processes);
    caches = insert g.pid g.interpreter.cache s.caches;
    initial_exit_code = if g.pid == initial_pid then some code else s.initial_exit_code;
  }
