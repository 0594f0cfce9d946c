-- ===== src/ProcessTable/Allocation.antt =====
-- The process numbers that `allocate_pid` gives out.
use ruxeon.Common.{◌^◌, length, ◌+◌, ◌≤◌, ◌<◌, ◌≡◌, refl, none, arith}
use ruxeon.Common.Dict.{nat_eq, get}
use ruxeon.FdTable.Available.{free_above, scan-IsLowest}
use ruxeon.ProcessTable.{ProcessTable, allocate_pid}

module _ {Machine Registers : Type 0} where
  -- Where `next_pid` and the number of records leave room below 2^32: `allocate_pid` returns a number that no record has,
  -- at or above `next_pid`, and moves `next_pid` behind it without touching a record.
  pub allocate_pid_lem :
      (t : ProcessTable Machine Registers)
      → t.next_pid + length t.records + 1 < 2 ^ 32
      → let (pid, t') = allocate_pid t in
        (get pid t.records ≡ none)
        × (t.next_pid ≤ pid)
        × (pid < t'.next_pid)
        × (t'.records ≡ t.records)
  unfolding allocate_pid
  allocate_pid_lem t room =
      let (k, p, q, free) = free_above t.records t.next_pid in
      let first = scan-IsLowest t.records t.next_pid k p (omega (arith, q, room)) free in
      (first.free, first.above, omega (arith, first.near, q, room), refl)
