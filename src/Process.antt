-- ===== src/Process.antt =====
-- crates/ruxeon-linux/src/lib.rs: process records, wait queues and signals. What a record holds of the
-- emulated machine (`LinuxProcess`, the memory, the registers) is of a type that the section is given; the maps
-- keep their entries in one order, on which nothing here depends.
use ruxeon.Common.{
  ℕ, ◌*◌, ◌%◌, Bool, true, Option, none, some, List, [], ◌∷◌, ◌++◌, position, get_elem?, remove_at,
  ◌==◌, if◌then◌else◌,
}
use ruxeon.Common.Dict.{Dict, nat_eq, get, modify}

pub data ProcessState : Type 0 where
  runnable waiting exited : ProcessState

-- The exit code's bit pattern as a `u32`.
pub record ExitStatus : Type 0 where
  pub code : ℕ

unfoldable pub wait_status : ExitStatus → ℕ
wait_status s = s.code % 256 * 256

pub record SignalState : Type 0 where
  pub pending : List ℕ

unfoldable pub enqueue_signal : ℕ → SignalState → SignalState
enqueue_signal signal s = record { pending = s.pending ++ signal ∷ [] }

unfoldable pub take_next : SignalState → Option ℕ × SignalState
take_next s = elim s.pending [
  | [] ↦ (none, s)
  | signal ∷ rest ↦ (some signal, record { pending = rest })
]

pub record LinuxThread (Registers : Type 0) : Type 0 where
  pub tid : ℕ
  pub process_id : ℕ
  pub registers : Registers
  pub state : ProcessState

-- `Machine` is the record's `LinuxProcess` with its memory; `tid` is the thread number in it.
pub record ProcessRecord (Machine Registers : Type 0) : Type 0 where
  pub machine : Machine
  pub tid : ℕ
  pub threads : Dict ℕ (LinuxThread Registers)
  pub parent : Option ℕ
  pub children : List ℕ
  pub state : ProcessState
  pub exit_status : Option ExitStatus
  pub signal_state : SignalState

-- `WaitQueue`: the children that have exited and have not been waited for, oldest first.
abbrev pub WaitQueue : Type 0
WaitQueue = List (ℕ × ExitStatus)

-- A request for any child, or for one.
abbrev pub matches : Option ℕ → ℕ × ExitStatus → Bool
matches none e = true
matches (some requested) (pid, status) = requested == pid

unfoldable pub pop_matching : Option ℕ → WaitQueue → Option ((ℕ × ExitStatus) × WaitQueue)
pop_matching requested queue = elim (position (matches requested) queue) [
  | none ↦ none
  | some index ↦ elim (get_elem? queue index) [
    | none ↦ none
    | some found ↦ some (found, remove_at index queue)
  ]
]

-- `values_mut`.
abbrev pub map_values : {V : Type 0} → (V → V) → Dict ℕ V → Dict ℕ V
map_values f [] = []
map_values f ((k, v) ∷ d) = (k, f v) ∷ map_values f d

-- `retain(|child| *child != pid)`.
abbrev pub without : ℕ → List ℕ → List ℕ
without pid [] = []
without pid (x ∷ xs) = if x == pid then without pid xs else x ∷ without pid xs

abbrev pub exit_thread : {Registers : Type 0} → LinuxThread Registers → LinuxThread Registers
exit_thread t = record t { state = exited }

abbrev pub wake_thread : {Registers : Type 0} → LinuxThread Registers → LinuxThread Registers
wake_thread t = elim t.state [ waiting ↦ record t { state = runnable } | _ ↦ t ]

module _ {Machine Registers : Type 0} where
  unfoldable pub main_thread_registers : ProcessRecord Machine Registers → Option Registers
  main_thread_registers r = elim (get r.tid r.threads) [ none ↦ none | some t ↦ some (t.registers) ]

  unfoldable pub set_main_thread_registers :
      Registers → ProcessRecord Machine Registers → ProcessRecord Machine Registers
  set_main_thread_registers registers r = record r {
    threads = modify r.tid (λ t. record t { registers = registers }) r.threads;
  }

  -- `mark_exited`, which `exit_process` repeats in its body.
  unfoldable pub mark_exited : ℕ → ProcessRecord Machine Registers → ProcessRecord Machine Registers
  mark_exited code r = record r {
    state = exited;
    exit_status = some (record { code = code });
    threads = map_values exit_thread r.threads;
  }

  -- What an exit does to the parent's record: whoever waits may run again.
  unfoldable pub wake : ProcessRecord Machine Registers → ProcessRecord Machine Registers
  wake r = record r { state = runnable; threads = map_values wake_thread r.threads }
