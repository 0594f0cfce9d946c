-- ===== src/Linux/Tests.antt =====
-- The theorems on the process and its system calls at concrete inputs.
use ruxeon.Common.{ℕ, ◌≡◌, refl, ◌⊎◌, false, none, List, [], ◌∷◌, ◌++◌, arith, drop, replicate, ok}
use ruxeon.Common.Dict.{nat_eq, get, insert}
use ruxeon.Region.{MemoryRegion}
use ruxeon.Memory.{GuestMemory}
use ruxeon.Memory.Layout.{IsValid, end, next}
use ruxeon.Memory.Cells.{cell}
use ruxeon.Memory.Samples.{read_write, block, memory_of, two_blocks, two_blocks-IsValid}
use ruxeon.Access.{check_permission}
use ruxeon.Registers.{new_registers, Registers}
use ruxeon.Fd.{DirectoryFd}
use ruxeon.FdTable
use ruxeon.FdTable
use ruxeon.ProcessTable.{ProcessTable}
use ruxeon.Linux.State.{SyscallInput, SyscallTrace, Machine, with_executable, return_with}
use ruxeon.Linux.Terminal.{default_termios, read_termios, write_termios}
use ruxeon.Linux.Terminal.Settings.{IsTermios, read_termios-write_termios}
use ruxeon.Linux.Heap.{brk, mmap}
use ruxeon.Linux.Heap.Break.{moved_cell, brk_moves}
use ruxeon.Linux.Heap.Pages.{is_fixed, mapped_cell, mmap_maps}
use ruxeon.Linux.Directory.{write_getdents64}
use ruxeon.Linux.Directory.Records.{IsWritten, write_getdents64-IsWritten}
use ruxeon.Linux.Fork.{fork_from_process}
use ruxeon.Linux.Fork.Table.{fork_from_process-IsForked, IsForked}
use ruxeon.Linux.Keeping.{Same}
use ruxeon.Linux.Dispatch.{dispatch}
use ruxeon.Linux.Dispatch.Tracing.{IsEntry, dispatch-IsTraced}
use ruxeon.Linux.Samples.{some_os, some_process, some_system}

-- Five bytes behind the heap's base.
abbrev new_break : ℕ
new_break = 0x7000_0000_0005

brk_moves_example :
    let s' = (brk new_break some_system).1 in
    (new_break ≡ new_break)
    × (s'.process ≡ record some_process { brk = new_break })
    × IsValid s'.memory
    × ((a : ℕ) → cell s'.memory a ≡ moved_cell some_process.brk new_break two_blocks a)
unfolding brk with_executable
brk_moves_example =
    brk_moves new_break some_system two_blocks-IsValid (omega arith) (omega arith) (omega arith)
      (omega arith) refl

abbrev fixed_address : ℕ
fixed_address = 8192

-- A fixed mapping of one page.
mmap_maps_example :
    let s' = (mmap some_os fixed_address 1 3 0x32 0 0 some_system).1 in
    ((is_fixed 0x32 ≡ false) ⊎ (fixed_address ≡ fixed_address))
    × IsValid s'.memory
    × ((a : ℕ) → cell s'.memory a ≡ mapped_cell fixed_address 1 3 two_blocks a)
unfolding mmap
mmap_maps_example =
    mmap_maps some_os fixed_address 1 3 0x32 0 0 some_system two_blocks-IsValid (omega arith) refl
      refl

abbrev some_directory : DirectoryFd
some_directory = record {
  path = 47 ∷ [];
  entries =
      record { name = 46 ∷ []; kind = 4 }
      ∷ record { name = 97 ∷ 98 ∷ []; kind = 8 }
      ∷ record { name = 99 ∷ []; kind = 8 }
      ∷ [];
  cursor = 1;
}

-- There is room for one of the two entries that are left.
write_getdents64-IsWritten_example :
    let (bytes, d') = write_getdents64 30 some_directory in
    IsWritten 30 1 (drop 1 some_directory.entries) (bytes, d'.cursor)
write_getdents64-IsWritten_example = write_getdents64-IsWritten 30 some_directory (omega arith)

abbrev settings_block : MemoryRegion
settings_block = block 64 read_write (replicate 40 0) 40

abbrev settings_memory : GuestMemory
settings_memory = memory_of (settings_block ∷ [])

settings_memory-IsValid : IsValid settings_memory
settings_memory-IsValid =
    next {r = settings_block} (omega arith)
      (record { positive = omega arith; filled = refl; bytes = omega arith }) (end (omega arith))

default-IsTermios : IsTermios default_termios
unfolding default_termios
default-IsTermios = record {
  iflag = omega arith;
  oflag = omega arith;
  cflag = omega arith;
  lflag = omega arith;
  line = omega arith;
  cc = refl;
}

read_termios-write_termios_example :
    read_termios 66 (write_termios default_termios 66 settings_memory).1 ≡ ok default_termios
unfolding write_termios check_permission default_termios
read_termios-write_termios_example =
    read_termios-write_termios default_termios 66 settings_memory default-IsTermios
      settings_memory-IsValid refl refl

abbrev some_machine : Machine (List ℕ)
some_machine = record { process = some_process; memory = two_blocks }

-- The table during a system call of the first process, whose record has been taken out.
abbrev some_table : ProcessTable (Machine (List ℕ)) Registers
some_table = record { records = []; wait_queues = (1000, []) ∷ []; next_pid = 1001 }

fork_from_process-IsForked_example :
    let (r, t') = fork_from_process (λ f. ok f) some_process two_blocks new_registers some_table in
    IsForked (λ f. ok f) some_process two_blocks new_registers some_table t' 1001
unfolding insert get with_executable fork_from_process FdTable.scan
fork_from_process-IsForked_example =
    fork_from_process-IsForked (λ f. ok f) some_process two_blocks new_registers some_table
      two_blocks-IsValid (unfold with_executable in omega arith) (omega arith) refl

abbrev getpid_input : SyscallInput
getpid_input = record {
  number = 39;
  args = record { arg0 = 0; arg1 = 0; arg2 = 0; arg3 = 0; arg4 = 0; arg5 = 0 };
}

dispatch-IsTraced_example :
    let (outcome, s') = dispatch some_os getpid_input none some_system in
    Same some_process (record (s'.process) { trace = some_process.trace })
    × (entry : SyscallTrace) × IsEntry getpid_input outcome entry
    × (s'.process.trace ≡ some_process.trace ++ entry ∷ [])
dispatch-IsTraced_example = dispatch-IsTraced some_os getpid_input none some_system

getpid_test : (dispatch some_os getpid_input none some_system).0 ≡ return_with 1000
unfolding dispatch with_executable
getpid_test = refl
