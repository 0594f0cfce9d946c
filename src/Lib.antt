-- ===== src/Lib.antt =====
-- RUXEON runs x86-64 Linux programs in user space: a loader puts an ELF file into a guest memory, an
-- interpreter steps its instructions over a register file, and a dispatcher answers its system calls from
-- a table of descriptors and a table of processes, whose threads a scheduler runs in turn.
--
-- Which file models what:
--   Common        shared names: tests, lists, results, machine words, maps, texts
--   Region        crates/ruxeon-core/src/memory.rs: MemoryPermission, GuestMemoryError, MemoryRegion
--   Memory        the same file: MemoryMap and the operations of GuestMemory that map, load, protect and
--                 unmap. Memory/Layout has the invariant (regions in order, apart, each with as many bytes
--                 as its size, ending within 64 bits), Memory/Cells the abstract view: what byte, under
--                 what permissions, an address holds. The other children prove one operation each.
--   Access        the same file: the reads and writes that check permissions
--   Syscall       crates/ruxeon-linux/src/lib.rs: SyscallNumber
--   Errno         the same file: Errno, SyscallError
--   VirtualFile   crates/ruxeon-fs/src/lib.rs: VirtualFile
--   GuestPath     the same file: GuestPath. GuestPath/Parts is about splitting and joining, GuestPath/Normal
--                 about paths in normal form.
--   RootFs        the same file: RootFs and ResolvedPath, over the host's answers
--   Fd            crates/ruxeon-linux/src/lib.rs: FdEntry, FdSlot, VirtualFd, DirectoryFd
--   FdTable       the same file: FdTable, but for the operations that move bytes or report on files
--   FdIo          the same file: FdTable's pipe, read, write and poll_events
--   Process       the same file: ProcessRecord, LinuxThread, WaitQueue, SignalState
--   ProcessTable  the same file: ProcessTable, over Process
--   Scheduler     the same file: Scheduler, over ProcessTable
--   Linux         crates/ruxeon-linux/src/lib.rs: LinuxProcess and SyscallDispatcher. Linux/Os is what the calls
--                 ask of the host, Linux/State the process and the state that a call works on, Linux/Terminal and
--                 Linux/Ioctl the terminal, Linux/Arguments the reading of arguments, Linux/Heap brk and mmap,
--                 Linux/Transfer readv, writev, sendfile and poll, Linux/Stat and Linux/Directory what is
--                 reported of files, Linux/Paths the calls on paths, Linux/Fork fork, wait4 and exit,
--                 Linux/Handlers the larger arms of dispatch_inner, Linux/Dispatch the dispatcher itself.
--                 Linux/Steps and Linux/Keeping carry the proofs.
--   Registers     crates/ruxeon-cpu/src/registers.rs
--   Ir            crates/ruxeon-ir/src/lib.rs: BasicBlock, BlockCache
--   Cpu           crates/ruxeon-cpu/src/interpreter.rs. Cpu/State has the interpreter's state, its errors and
--                 actions on the state, Cpu/Flags the flags and conditions, Cpu/Operands the operands,
--                 Cpu/Integer, Cpu/Shifts, Cpu/Bitwise and Cpu/Strings the instructions by kind,
--                 Cpu/Transfers moves, the stack and jumps, Cpu/Environment the clock, cpuid and the
--                 vsyscalls, Cpu/Execute the dispatch on mnemonics, Cpu/Blocks the translation and the
--                 cache of blocks, step and run.
--   Elf           crates/ruxeon-elf/src/elf.rs; Elf/Dynamic has the interpreter's path and dynamic entries
--   Cli           crates/ruxeon-cli/src/main.rs: the loading of a program and of its interpreter from the host and
--                 the guest's environment; Cli/Runtime has what the loop keeps and how a process leaves its
--                 round, Cli/Loop the rounds of run_until_exit, Cli/Run run_program. They compose Scheduler,
--                 ProcessTable, Cpu/Blocks, Linux/Dispatch and Loader/Program as the source does.
--   Loader        crates/ruxeon-elf/src/loader.rs: errors, the placement of segments and their loading.
--                 Loader/InitialStack builds the stack, Loader/Program loads a program with its interpreter.
-- Definitions keep the names of the source. The checks stand in a module Tests of each component.
--
-- How the program is carried over: a method with `&mut self` takes the state and returns its result with
-- the new state, so that what an error has changed is seen. Addresses and words are natural numbers; a sum
-- that may leave 64 bits is tested or reduced where the source does so, and `usize` has 64 bits. A
-- descriptor, an `i32` in the source, is its 32-bit pattern: the successor of one wraps, the tests for a
-- negative one read the top bit, and a descriptor returned in a register has its sign extended. Process
-- numbers wrap in the same way. A HashMap
-- is a list of pairs with one order, on which the results do not depend; where a walk over the processes
-- queues them, its order is a parameter. A buffer behind `Arc<Mutex<..>>` is a number into a store, so
-- that the copies of a descriptor share it; locks are never poisoned.
--
-- Parameters: the files, streams and clock of the host (Fd.TryClone, FdIo.Host, Linux.Os), whose state the calls
-- thread through, and the types of what a process record holds of the machine; the decoder, the clock and
-- the vector instructions (Cpu.Execute, Cpu.Blocks), the reading of a program's file (Cli), the test of UTF-8 and the formatted names of regions (Elf, Loader), the host's files and
-- the standard library's view of paths (GuestPath, RootFs.Host). The decoder's registers and mnemonics are
-- the names that the source lists; what the decoder answers about an instruction is a record.
--
-- A panic (an overflow in a build that checks, an index out of range, an overflowing division) is the
-- error `panicked` of the component; descriptors and process numbers wrap as said above, as in a
-- release build.
--
-- Loops: the search for a free descriptor or process number takes its bound from the number of entries,
-- since each round passes one of them. The loops of string instructions go over the count in rcx. The
-- resolution of symbolic links has 41 rounds, one more than the expansions that the source allows, so that
-- it ends. sendfile has a round for each byte that is asked for, since a round that reads none ends it, and
-- the loop of a chunk one for each of its bytes. The run of a program has the 5,000,000 rounds
-- of the source, after which it is an error there too. All other loops go over a list or a number of turns.
--
-- Not modelled: the vector instructions, decoding, traces and other text that is only printed, the bodies of the host
-- calls, the parsing of the command line and the reset of the terminal when a run ends.
pub mod Cli
pub mod Common
pub mod Region
pub mod Memory
pub mod Access
pub mod Syscall
pub mod Errno
pub mod VirtualFile
pub mod Fd
pub mod FdTable
pub mod FdIo
pub mod Process
pub mod ProcessTable
pub mod Scheduler
pub mod Ir
pub mod Registers
pub mod Cpu
pub mod Elf
pub mod Loader
pub mod Linux
pub mod GuestPath
pub mod RootFs
