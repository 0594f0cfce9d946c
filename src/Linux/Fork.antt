-- ===== src/Linux/Fork.antt =====
-- crates/ruxeon-linux/src/lib.rs: `fork_from_process` and the system calls `fork`, `vfork`, `clone`, `wait4` and `exit`.
pub mod Child
pub mod Table
use ruxeon.Common.{
  ℕ, ◌+◌, ◌%◌, ◌^◌, bit_and, Option, none, some, [], ◌∷◌, ◌++◌, ◌==◌, if◌then◌else◌, Result, ok,
  err,
}
use ruxeon.Common.Actions.{pure, ◌>>=◌, ◌>>◌}
use ruxeon.Common.Dict.{nat_eq, Dict, insert, modify}
use ruxeon.Memory.{GuestMemory}
use ruxeon.Access.{permissions_at, write_word}
use ruxeon.Errno.{SyscallError, child, memory, errno}
use ruxeon.Registers.{Registers}
use ruxeon.Fd.{TryClone}
use ruxeon.Process.{wait_status, ProcessRecord, WaitQueue, runnable}
use ruxeon.ProcessTable.{ProcessTable, queue_of, exit_process, wait4, has_child, allocate_pid}
use ruxeon.Linux.Os.{Os}
use ruxeon.Linux.Terminal.{plus}
use ruxeon.Linux.State.{
  SyscallOutcome, LinuxProcess, Machine, System, Handler, try_clone_for_child, with_memory,
  return_with, blocked, exit_with,
}
use ruxeon.Linux.Arguments.{wait_requested_pid}

abbrev pub with_queue : ℕ → Dict ℕ WaitQueue → Dict ℕ WaitQueue
with_queue pid queues = insert pid (queue_of pid queues) queues

-- Where glibc keeps a thread's number, from the base of its `fs` segment.
abbrev pub glibc_pthread_tid_offset : ℕ
glibc_pthread_tid_offset = 0x2d0

-- A write to the child's memory ends the fork where it fails.
abbrev pub write_tid : ℕ → ℕ → GuestMemory → Result SyscallError GuestMemory
write_tid addr tid m =
    let (r, m') = write_word 4 addr tid m in elim r [ ok _ ↦ ok m' | err e ↦ err (memory e) ]

module _ {File : Type 0} where
  -- glibc's own copy of the thread's number, where that is mapped.
  unfoldable pub store_pthread_tid :
      LinuxProcess File → GuestMemory → Result SyscallError GuestMemory
  unfolding write_word permissions_at
  store_pthread_tid forked m =
      if forked.fs_base == 0
      then ok m
      else elim (permissions_at (plus forked.fs_base glibc_pthread_tid_offset) m) [
        | none ↦ ok m
        | some _ ↦ write_tid (plus forked.fs_base glibc_pthread_tid_offset) forked.tid m
      ]

  unfoldable pub child_memory : LinuxProcess File → GuestMemory → Result SyscallError GuestMemory
  unfolding write_word store_pthread_tid
  child_memory forked m =
      if forked.set_tid_address == 0
      then store_pthread_tid forked m
      else elim (write_tid forked.set_tid_address forked.tid m) [
        | err e ↦ err e
        | ok m' ↦ store_pthread_tid forked m'
      ]

  unfoldable pub child_record :
      ℕ → LinuxProcess File → GuestMemory → Registers → ProcessRecord (Machine File) Registers
  child_record parent forked m registers = record {
    machine = record { process = forked; memory = m };
    tid = forked.tid;
    threads =
        (
          forked.tid,
          record {
            tid = forked.tid;
            process_id = forked.pid;
            registers = record registers { rax = 0 };
            state = runnable;
          },
        )
        ∷ [];
    parent = some parent;
    children = [];
    state = runnable;
    exit_status = none;
    signal_state = record { pending = [] };
  }

  abbrev pub adopt :
      ℕ → ProcessRecord (Machine File) Registers → ProcessRecord (Machine File) Registers
  adopt pid r = record r { children = r.children ++ pid ∷ [] }

  unfoldable pub insert_child :
      ℕ
      → ℕ
      → ProcessRecord (Machine File) Registers
      → ProcessTable (Machine File) Registers
      → ProcessTable (Machine File) Registers
  insert_child parent pid forked t = record t {
    records = modify parent (adopt pid) (insert pid forked t.records);
    wait_queues = with_queue parent (with_queue pid t.wait_queues);
  }

  -- The number is taken also where the fork fails.
  unfoldable pub fork_from_process :
      TryClone File
      → LinuxProcess File
      → GuestMemory
      → Registers
      → ProcessTable (Machine File) Registers
      → Result SyscallError ℕ × ProcessTable (Machine File) Registers
  unfolding allocate_pid try_clone_for_child child_memory child_record insert_child
  fork_from_process try_clone parent m registers t =
      let (pid, t') = allocate_pid t in
      elim (try_clone_for_child try_clone pid parent) [
        | err e ↦ (err e, t')
        | ok forked ↦ elim (child_memory forked m) [
          | err e ↦ (err e, t')
          | ok m' ↦
              (ok pid, insert_child parent.pid pid (child_record parent.pid forked m' registers) t')
        ]
      ]

module _ {File World : Type 0} (os : Os File World) where
  -- Without a table, or without registers, a fork only counts.
  unfoldable pub fork : Option Registers → Handler File World ℕ
  unfolding fork_from_process
  fork registers s =
      let count = s.process.next_child_pid in
      let counted : Result SyscallError ℕ × System File World =
        (ok count, record s { process = record (s.process) { next_child_pid = count + 1 } }) in
      elim (s.processes) [
        | none ↦ counted
        | some t ↦ elim registers [
          | none ↦ counted
          | some regs ↦
              let (r, t') = fork_from_process (os.try_clone s.world) s.process s.memory regs t in
              (r, record s { processes = some t' })
        ]
      ]

module _ {File World : Type 0} where
  unfoldable pub exit_group : ℕ → Handler File World SyscallOutcome
  unfolding exit_process
  exit_group arg s =
      let code = arg % 2 ^ 32 in
      elim (s.processes) [
        | none ↦ (ok (exit_with code), s)
        | some t ↦
            (ok (exit_with code), record s { processes = some (exit_process s.process.pid code t) })
      ]

  abbrev pub write_status : ℕ → ℕ → Handler File World (Unit {0})
  write_status addr status = if addr == 0 then pure tt else with_memory (write_word 4 addr status)

  -- What `wait4` answers where a table is there: a child that has exited, or whether one may still exit.
  unfoldable pub wait_in :
      ProcessTable (Machine File) Registers → ℕ → ℕ → ℕ → Handler File World SyscallOutcome
  unfolding wait_requested_pid wait4 has_child wait_status write_word
  wait_in t requested addr options s =
      let wanted = wait_requested_pid requested in
      let (found, t') = wait4 s.process.pid wanted t in
      elim found [
        | some (pid, status) ↦
            (do write_status addr (wait_status status); pure (return_with pid))
              (record s { processes = some t' })
        | none ↦
            if has_child s.process.pid wanted t
            then (if bit_and options 0x1 == 0 then (ok blocked, s) else (ok (return_with 0), s))
            else (err (errno child), s)
      ]

  unfoldable pub wait_for : ℕ → ℕ → ℕ → Handler File World SyscallOutcome
  unfolding wait_in write_word
  wait_for requested addr options s = elim (s.processes) [
    | none ↦ ((do write_status addr 0; pure (return_with 0)) s)
    | some t ↦ wait_in t requested addr options s
  ]
