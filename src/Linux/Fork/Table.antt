-- ===== src/Linux/Fork/Table.antt =====
-- The table of processes after a fork.
use ruxeon.ProcessTable.Allocation.{allocate_pid_lem}
use ruxeon.Common.{
  ℕ, ◌+◌, ◌^◌, ◌<◌, ◌≡◌, refl, sym, ap, inl, inr, false, none, some, [], ◌∷◌, ◌++◌, length, arith,
  ◌==◌, if◌then◌else◌, Result-cases, ok,
}
use mathlib.Core.Path.{subst}
use ruxeon.Common.Dict.{nat_eq, get, insert, map_some, get-insert, get-modify}
use ruxeon.Memory.{GuestMemory}
use ruxeon.Memory.Layout.{IsValid}
use ruxeon.Memory.Cells.{cell}
use ruxeon.Registers.{Registers}
use ruxeon.Fd.{TryClone}
use ruxeon.FdTable.{duplicate_all}
use ruxeon.FdTable.Exec.{IsInherited, duplicate_all-IsInherited}
use ruxeon.Process.{ProcessRecord, runnable}
use ruxeon.ProcessTable.{ProcessTable, allocate_pid}
use ruxeon.Linux.Terminal.{plus}
use ruxeon.Linux.State.{LinuxProcess, Machine, try_clone_for_child}
use ruxeon.Linux.Fork.{
  glibc_pthread_tid_offset, child_memory, child_record, adopt, insert_child, fork_from_process,
}
use ruxeon.Linux.Fork.Child.{is_tid_byte, child_memory-keeps}

module _ {File : Type 0} (try_clone : TryClone File) where
  -- The child's process: its own numbers, the parent's as its parent's, an empty trace, and all else as the parent has it.
  pub record IsChild (parent : LinuxProcess File) (pid : ℕ) (forked : LinuxProcess File)
      : Type 0 where
    pub process_is : forked ≡ record parent {
      pid = pid;
      tid = pid;
      ppid = parent.pid;
      next_child_pid = pid + 1;
      fd_table = forked.fd_table;
      trace = [];
    }
    pub descriptors :
        (fd : ℕ)
        → IsInherited try_clone (get fd parent.fd_table.entries) (get fd forked.fd_table.entries)

  -- A parent's record with one more child.
  abbrev pub with_child :
      ℕ → ProcessRecord (Machine File) Registers → ProcessRecord (Machine File) Registers
  with_child pid r = record r { children = r.children ++ pid ∷ [] }

  -- A fork has put a record of the child into the table, under a number that was free, and that number among the
  -- children of the parent, where that has a record. The child's only thread runs with the parent's registers but for a
  -- result of zero, on a memory that agrees with the parent's outside the places of the thread's number.
  pub record IsForked (parent : LinuxProcess File) (m : GuestMemory) (registers : Registers)
      (t t' : ProcessTable (Machine File) Registers) (pid : ℕ) : Type 0 where
    pub fresh : get pid t.records ≡ none
    pub forked : LinuxProcess File
    pub memory' : GuestMemory
    pub is_child : IsChild parent pid forked
    pub recorded :
        get pid t'.records
        ≡ some (record {
          machine = record { process = forked; memory = memory' };
          tid = pid;
          threads =
              (
                pid,
                record {
                  tid = pid;
                  process_id = pid;
                  registers = record registers { rax = 0 };
                  state = runnable;
                },
              )
              ∷ [];
          parent = some parent.pid;
          children = [];
          state = runnable;
          exit_status = none;
          signal_state = record { pending = [] };
        })
    pub valid : IsValid memory'
    pub kept :
        (a : ℕ)
        → is_tid_byte forked.set_tid_address a ≡ false
        → is_tid_byte (plus forked.fs_base glibc_pthread_tid_offset) a ≡ false
        → cell memory' a ≡ cell m a
    pub others :
        (j : ℕ)
        → (pid == j) ≡ false
        → get j t'.records ≡ (
            if parent.pid == j
            then map_some (with_child pid) (get j t.records)
            else get j t.records)

  try_clone_for_child-IsChild :
      (pid : ℕ) (parent : LinuxProcess File) {forked : LinuxProcess File}
      → try_clone_for_child try_clone pid parent ≡ ok forked
      → IsChild parent pid forked
  unfolding try_clone_for_child
  try_clone_for_child-IsChild pid parent {forked} h =
      elim (Result-cases (duplicate_all try_clone parent.fd_table)) [
        | inr (e, failed) ↦ ground (arith, h, failed)
        | inl (fds, done) ↦
            let same : (record parent {
              pid = pid;
              tid = pid;
              ppid = parent.pid;
              next_child_pid = pid + 1;
              fd_table = fds;
              trace = [];
            })
                ≡ forked =
              ground (arith, h, done) in
            subst (IsChild parent pid) same (record {
              process_is = refl;
              descriptors = duplicate_all-IsInherited try_clone parent.fd_table done;
            })
      ]

  inserted-IsForked :
      (parent : LinuxProcess File) (m : GuestMemory) (registers : Registers)
      (t : ProcessTable (Machine File) Registers) (pid : ℕ) (forked : LinuxProcess File)
      (m' : GuestMemory)
      → IsValid m'
      → ((a : ℕ)
          → is_tid_byte forked.set_tid_address a ≡ false
          → is_tid_byte (plus forked.fs_base glibc_pthread_tid_offset) a ≡ false
          → cell m' a ≡ cell m a)
      → (parent.pid == pid) ≡ false
      → get pid t.records ≡ none
      → try_clone_for_child try_clone pid parent ≡ ok forked
      → IsForked parent m registers t
          (insert_child parent.pid pid
            (child_record parent.pid forked m' registers)
            (allocate_pid t).1)
          pid
  unfolding insert_child allocate_pid child_record
  inserted-IsForked parent m registers t pid forked m' v kept apart fresh cloned =
      let c = child_record parent.pid forked m' registers in
      let records = insert pid c t.records in
      let is_child = try_clone_for_child-IsChild pid parent cloned in
      record {
        fresh = fresh;
        forked = forked;
        memory' = m';
        is_child = is_child;
        recorded = ground (
          arith,
          apart,
          get-modify pid parent.pid (adopt pid) records,
          get-insert pid pid c t.records,
          ap (λ p. p.pid) is_child.process_is,
          ap (λ p. p.tid) is_child.process_is,
        );
        valid = v;
        kept = kept;
        others = λ j p.
            ground
              (arith, p, get-modify j parent.pid (adopt pid) records, get-insert j pid c t.records);
      }

  -- A fork that succeeds, from a valid memory and in a table whose next number is above the parent's and leaves room below
  -- 2^32, puts a record of the child into the table under a number that was free: a process that is the parent's but
  -- for its numbers, its trace and its table of copied descriptors, one thread that runs with the parent's registers but
  -- for a result of zero, no children, the parent as its parent, and a valid memory that agrees with the parent's outside
  -- the places of the thread's number. Where the parent has a record, that lists the child after its other children; all
  -- other records are as before.
  pub fork_from_process-IsForked :
      (parent : LinuxProcess File) (m : GuestMemory) (registers : Registers)
      (t : ProcessTable (Machine File) Registers) {pid : ℕ}
      {t' : ProcessTable (Machine File) Registers}
      → IsValid m
      → parent.pid < t.next_pid
      → t.next_pid + length t.records + 1 < 2 ^ 32
      → fork_from_process try_clone parent m registers t ≡ (ok pid, t')
      → IsForked parent m registers t t' pid
  unfolding fork_from_process insert_child
  fork_from_process-IsForked parent m registers t {pid = pid'} {t'} v older room h =
      let (pid, t1) = allocate_pid t in
      let (fresh, above, _, same) = allocate_pid_lem t room in
      let apart : (parent.pid == pid) ≡ false = ground (arith, older, above) in
      elim (Result-cases (try_clone_for_child try_clone pid parent)) [
        | inr (e, failed) ↦ ground (arith, h, failed)
        | inl (forked, cloned) ↦ elim (Result-cases (child_memory forked m)) [
          | inr (e, failed) ↦ ground (arith, h, cloned, failed)
          | inl (m', copied) ↦
              let (v', kept) = child_memory-keeps forked m v copied in
              let c = child_record parent.pid forked m' registers in
              let after = insert_child parent.pid pid c t1 in
              let same_table : after ≡ t' = ground (arith, h, cloned, copied) in
              let same_pid : pid ≡ pid' = ground (arith, h, cloned, copied) in
              let built =
                inserted-IsForked parent m registers t pid forked m' v' kept apart fresh cloned in
              rw (sym same_table, sym same_pid) built
        ]
      ]
