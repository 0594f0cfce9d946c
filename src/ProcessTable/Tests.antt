-- ===== src/ProcessTable/Tests.antt =====
-- The process table at concrete inputs.
use ruxeon.Common.{ℕ, ◌≡◌, inr, refl, Option, none, some, List, [], ◌∷◌}
use ruxeon.Common.Dict.{get, insert, modify, remove}
use ruxeon.Process.{runnable, ProcessRecord}
use ruxeon.ProcessTable.{ProcessTable, record_exit, wait4}
use ruxeon.ProcessTable.Waiting.{IsReaped, wait4-IsReaped}
use ruxeon.ProcessTable.Exiting.{record_exit-wait4}

abbrev process : Option ℕ → List ℕ → ProcessRecord Unit Unit
process parent children = record {
  machine = tt;
  tid = 1;
  threads = [];
  parent = parent;
  children = children;
  state = runnable;
  exit_status = none;
  signal_state = record { pending = [] };
}

-- The process 3 has two children; 5 has exited.
abbrev family : ProcessTable Unit Unit
family = record {
  records =
      (3, process none (4 ∷ 5 ∷ [])) ∷ (4, process (some 3) []) ∷ (5, process (some 3) []) ∷ [];
  wait_queues = (3, (5, record { code = 9 }) ∷ []) ∷ [];
  next_pid = 6;
}

abbrev reaped : ProcessTable Unit Unit
reaped = record {
  records = (3, process none (4 ∷ [])) ∷ (4, process (some 3) []) ∷ [];
  wait_queues = (3, []) ∷ [];
  next_pid = 6;
}

wait4-IsReaped_example : IsReaped 3 none family reaped (5, record { code = 9 })
unfolding wait4 get modify remove insert
wait4-IsReaped_example = wait4-IsReaped 3 none family refl

record_exit-wait4_example :
    ((wait4 3 (some 4) (record_exit 4 (some 3) 7 family)).0 ≡ some (4, record { code = 7 }))
    × ((wait4 3 (some 4) (wait4 3 (some 4) (record_exit 4 (some 3) 7 family)).1).0 ≡ none)
unfolding get
record_exit-wait4_example = record_exit-wait4 3 4 7 family (inr refl) refl
