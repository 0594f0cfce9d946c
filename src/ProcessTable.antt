-- ===== src/ProcessTable.antt =====
-- crates/ruxeon-linux/src/lib.rs: `ProcessTable`, without `fork_from_process`.
pub mod Allocation
pub mod Exiting
pub mod Waiting
mod Tests
use ruxeon.Common.{
  ℕ, ◌+◌, Bool, true, false, ◌&&◌, Option, none, some, List, [], ◌∷◌, ◌++◌, max, length, any, ◌==◌,
  if◌then◌else◌,
}
use ruxeon.Common.Dict.{Dict, nat_eq, get, insert, remove, modify}
use ruxeon.FdTable.{scan, wrapping_next}
use ruxeon.Process.{
  runnable, ExitStatus, LinuxThread, ProcessRecord, WaitQueue, pop_matching, mark_exited, wake,
  without,
}

pub record ProcessTable (Machine Registers : Type 0) : Type 0 where
  pub records : Dict ℕ (ProcessRecord Machine Registers)
  pub wait_queues : Dict ℕ WaitQueue
  pub next_pid : ℕ

-- The queue of a process, empty where there is none.
abbrev pub or_default : Option WaitQueue → WaitQueue
or_default none = []
or_default (some q) = q

abbrev pub queue_of : ℕ → Dict ℕ WaitQueue → WaitQueue
queue_of pid queues = or_default (get pid queues)

-- `entry(parent).or_default().push(pid, status)`.
unfoldable pub push_exit : ℕ → ℕ → ExitStatus → Dict ℕ WaitQueue → Dict ℕ WaitQueue
push_exit parent pid status queues =
    insert parent (queue_of parent queues ++ (pid, status) ∷ []) queues

abbrev pub is_queued : ℕ → WaitQueue → Bool
is_queued pid queue = any (λ e. e.0 == pid) queue

module _ {Machine Registers : Type 0} where
  unfoldable pub new_table : ProcessTable Machine Registers
  new_table = record { records = []; wait_queues = []; next_pid = 1000 }

  unfoldable pub insert_initial :
      ℕ → ℕ → Machine → Registers → ProcessTable Machine Registers → ProcessTable Machine Registers
  insert_initial pid tid machine registers t = record {
    next_pid = max t.next_pid (wrapping_next pid);
    records =
        insert pid
          (record {
            machine = machine;
            tid = tid;
            threads =
                (
                  tid,
                  record { tid = tid; process_id = pid; registers = registers; state = runnable },
                )
                ∷ [];
            parent = none;
            children = [];
            state = runnable;
            exit_status = none;
            signal_state = record { pending = [] };
          })
          t.records;
    wait_queues = insert pid (queue_of pid t.wait_queues) t.wait_queues;
  }

  abbrev pub parent_of : ℕ → ProcessTable Machine Registers → Option ℕ
  parent_of pid t = elim (get pid t.records) [ none ↦ none | some r ↦ r.parent ]

  unfoldable pub exit_process :
      ℕ → ℕ → ProcessTable Machine Registers → ProcessTable Machine Registers
  unfolding mark_exited wake push_exit
  exit_process pid code t =
      let gone = modify pid (mark_exited code) t.records in
      elim (parent_of pid t) [
        | none ↦ record t { records = gone }
        | some parent ↦ record t {
          records = modify parent wake gone;
          wait_queues = push_exit parent pid (record { code = code }) t.wait_queues;
        }
      ]

  unfoldable pub record_exit :
      ℕ → Option ℕ → ℕ → ProcessTable Machine Registers → ProcessTable Machine Registers
  unfolding exit_process wake push_exit
  record_exit pid none code t = exit_process pid code t
  record_exit pid (some parent) code t =
      let u = exit_process pid code t in
      let queues =
        if is_queued pid (queue_of parent u.wait_queues)
        then u.wait_queues
        else push_exit parent pid (record { code = code }) u.wait_queues in
      record u { records = modify parent wake u.records; wait_queues = queues }

  abbrev pub forget_child : ℕ → ProcessRecord Machine Registers → ProcessRecord Machine Registers
  forget_child pid r = record r { children = without pid r.children }

  unfoldable pub wait4 :
      ℕ
      → Option ℕ
      → ProcessTable Machine Registers
      → Option (ℕ × ExitStatus) × ProcessTable Machine Registers
  unfolding pop_matching
  wait4 parent requested t = elim (get parent t.wait_queues) [
    | none ↦ (none, t)
    | some queue ↦ elim (pop_matching requested queue) [
      | none ↦ (none, t)
      | some (found, queue') ↦ (
        some found,
        record t {
          records = modify parent (forget_child found.0) (remove (found.0) t.records);
          wait_queues = remove (found.0) (insert parent queue' t.wait_queues);
        },
      )
    ]
  ]

  abbrev pub is_child : ℕ → Option ℕ → ℕ × ProcessRecord Machine Registers → Bool
  is_child parent requested (pid, r) =
      elim r.parent [ none ↦ false | some p ↦ p == parent ]
      && elim requested [ none ↦ true | some wanted ↦ wanted == pid ]

  unfoldable pub has_child : ℕ → Option ℕ → ProcessTable Machine Registers → Bool
  has_child parent requested t = any (is_child parent requested) t.records

  -- The loop of `allocate_pid`, over `u32`s that wrap as in a release build, passes the numbers in use; at most as many rounds fail as there are
  -- records.
  unfoldable pub allocate_pid : ProcessTable Machine Registers → ℕ × ProcessTable Machine Registers
  allocate_pid t =
      let pid = scan (λ k. get k t.records) (length t.records) t.next_pid in
      (pid, record t { next_pid = wrapping_next pid })
