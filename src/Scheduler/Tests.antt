-- ===== src/Scheduler/Tests.antt =====
-- The scheduler at concrete inputs.
use ruxeon.Common.{ℕ, ◌≡◌, refl, none, some, [], ◌∷◌}
use ruxeon.Common.Dict.{get}
use ruxeon.Process.{ProcessState, runnable, waiting, LinuxThread, ProcessRecord}
use ruxeon.ProcessTable.{ProcessTable}
use ruxeon.Scheduler.{may_run, next_thread}
use ruxeon.Scheduler.RoundRobin.{Picks, turns, next_thread-Picks, turns_round}

abbrev thread : ℕ → ProcessState → LinuxThread Unit
thread pid state = record { tid = 1; process_id = pid; registers = tt; state = state }

abbrev process : ℕ → ProcessState → ProcessRecord Unit Unit
process pid state = record {
  machine = tt;
  tid = 1;
  threads = (1, thread pid state) ∷ [];
  parent = none;
  children = [];
  state = state;
  exit_status = none;
  signal_state = record { pending = [] };
}

abbrev three : ProcessTable Unit Unit
three = record {
  records = (7, process 7 waiting) ∷ (8, process 8 runnable) ∷ (9, process 9 runnable) ∷ [];
  wait_queues = [];
  next_pid = 1000;
}

next_thread-Picks_example :
    Picks three ((7, 1) ∷ (8, 1) ∷ (9, 1) ∷ []) (some (8, 1), (9, 1) ∷ (8, 1) ∷ [])
unfolding next_thread may_run get
next_thread-Picks_example = next_thread-Picks three ((7, 1) ∷ (8, 1) ∷ (9, 1) ∷ [])

turns_round_example :
    turns three 2 ((9, 1) ∷ (8, 1) ∷ []) ≡ ((9, 1) ∷ (8, 1) ∷ [], (9, 1) ∷ (8, 1) ∷ [])
unfolding may_run get
turns_round_example = turns_round three ((9, 1) ∷ (8, 1) ∷ []) (refl, (refl, tt))
