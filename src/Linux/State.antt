-- ===== src/Linux/State.antt =====
-- crates/ruxeon-linux/src/lib.rs: `LinuxProcess`, and the state that a system call works on: the process, its memory,
-- the table of processes where there is one, and the host with the buffers that descriptors share.
use ruxeon.Common.{
  ◌>>=◌, ℕ, ◌+◌, ◌-◌, ◌^◌, Bool, true, false, Option, List, [], ltb, if◌then◌else◌, Result, map_err,
  ok, err,
}
use Prim.Native.String.{String}
use ruxeon.Common.Actions.{Action}
use ruxeon.Region.{GuestMemoryError}
use ruxeon.Memory.{GuestMemory, Outcome}
use ruxeon.Errno.{Errno, SyscallError, memory, errno}
use ruxeon.Registers.{Registers}
use ruxeon.Fd.{TryClone}
use ruxeon.FdTable
use ruxeon.FdTable.{FdTable, close_on_exec, duplicate_all}
use ruxeon.FdIo.{Files}
use ruxeon.GuestPath.{GuestPath, root}
use ruxeon.ProcessTable.{ProcessTable}
use ruxeon.Linux.Os.{IoErrorKind, map_io_errno, TerminalSize}
use ruxeon.Linux.Terminal.{TerminalState, default_terminal}

pub record SyscallArgs : Type 0 where
  pub arg0 : ℕ
  pub arg1 : ℕ
  pub arg2 : ℕ
  pub arg3 : ℕ
  pub arg4 : ℕ
  pub arg5 : ℕ

pub record SyscallInput : Type 0 where
  pub number : ℕ
  pub args : SyscallArgs

pub record ExecveRequest : Type 0 where
  pub guest_path : List ℕ
  pub host_path : List ℕ
  pub rootfs : Option (List ℕ)
  pub argv : List (List ℕ)
  pub envp : List (List ℕ)

pub data SyscallOutcome : Type 0 where
  return_with : ℕ → SyscallOutcome
  blocked : SyscallOutcome
  exit_with : ℕ → SyscallOutcome
  execve_with : ExecveRequest → SyscallOutcome

-- An `i32` as an `i64`.
abbrev pub sign_extend : ℕ → ℕ
sign_extend code = if ltb code (2 ^ 31) then code else code + (2 ^ 64 - 2 ^ 32)

unfoldable pub return_value : SyscallOutcome → ℕ
return_value (return_with value) = value
return_value blocked = 0
return_value (exit_with code) = sign_extend code
return_value (execve_with _) = 0

pub record SyscallTrace : Type 0 where
  pub number : ℕ
  pub name : String
  pub args : SyscallArgs
  pub return_value : ℕ

pub record LinuxProcess (File : Type 0) : Type 0 where
  pub pid : ℕ
  pub tid : ℕ
  pub ppid : ℕ
  pub pgid : ℕ
  pub next_child_pid : ℕ
  pub cwd : GuestPath
  pub rootfs : Option (List ℕ)
  pub executable_path : List ℕ
  pub brk_base : ℕ
  pub brk : ℕ
  pub mmap_next : ℕ
  pub fs_base : ℕ
  pub set_tid_address : ℕ
  pub fd_table : FdTable File
  pub terminal : TerminalState
  pub trace : List SyscallTrace

-- What a process record holds of the emulated machine.
pub record Machine (File : Type 0) : Type 0 where
  pub process : LinuxProcess File
  pub memory : GuestMemory

pub record System (File World : Type 0) : Type 0 where
  pub process : LinuxProcess File
  pub memory : GuestMemory
  pub buffers : List (List ℕ)
  pub world : World
  pub processes : Option (ProcessTable (Machine File) Registers)

abbrev pub Handler : Type 0 → Type 0 → Type 0 → Type 0
Handler File World A = Action (System File World) SyscallError A

module _ {File : Type 0} where
  unfoldable pub with_executable :
      Option TerminalSize → Option (List ℕ) → List ℕ → LinuxProcess File
  unfolding default_terminal FdTable.new_table
  with_executable size rootfs executable_path = record {
    pid = 1000;
    tid = 1000;
    ppid = 1;
    pgid = 1000;
    next_child_pid = 1001;
    cwd = root;
    rootfs = rootfs;
    executable_path = executable_path;
    brk_base = 0x0000_7000_0000_0000;
    brk = 0x0000_7000_0000_0000;
    mmap_next = 0x0000_7100_0000_0000;
    fs_base = 0;
    set_tid_address = 0;
    fd_table = FdTable.new_table;
    terminal = default_terminal size;
    trace = [];
  }

  unfoldable pub apply_exec : List ℕ → LinuxProcess File → LinuxProcess File
  unfolding close_on_exec
  apply_exec executable_path p = record p {
    executable_path = executable_path;
    fd_table = close_on_exec p.fd_table;
    fs_base = 0;
    set_tid_address = 0;
  }

  unfoldable pub try_clone_for_child :
      TryClone File → ℕ → LinuxProcess File → Result SyscallError (LinuxProcess File)
  unfolding duplicate_all
  try_clone_for_child try_clone child_pid p = do
    fd_table ← duplicate_all try_clone p.fd_table
    ok (record p {
      pid = child_pid;
      tid = child_pid;
      ppid = p.pid;
      next_child_pid = child_pid + 1;
      fd_table = fd_table;
      trace = [];
    })

module _ {File World : Type 0} where
  abbrev pub with_process : (LinuxProcess File → LinuxProcess File) → Handler File World (Unit {0})
  with_process f s = (ok tt, record s { process = f s.process })

  -- A write to the memory, whose outcome is kept also where it is an error.
  abbrev pub with_memory : (GuestMemory → Outcome) → Handler File World (Unit {0})
  with_memory f s =
      let (r, m) = f s.memory in
      let s' = record s { memory = m } in
      elim r [ ok _ ↦ (ok tt, s') | err e ↦ (err (memory e), s') ]

  abbrev pub from_memory :
      {A : Type 0} → (GuestMemory → Result GuestMemoryError A) → Handler File World A
  from_memory f s = elim (f s.memory) [ ok a ↦ (ok a, s) | err e ↦ (err (memory e), s) ]

  -- An operation of the descriptors that moves bytes.
  abbrev pub with_files :
      {A : Type 0}
      → (Files File World → Result SyscallError A × Files File World)
      → Handler File World A
  with_files f s =
      let (r, files) =
        f (record { table = s.process.fd_table; buffers = s.buffers; world = s.world }) in
      (
        r,
        record s {
          process = record (s.process) { fd_table = files.table };
          buffers = files.buffers;
          world = files.world;
        },
      )

  -- An operation of the table alone, which is left as it was where that fails.
  abbrev pub with_table :
      {A : Type 0}
      → (World → FdTable File → Result SyscallError (A × FdTable File))
      → Handler File World A
  with_table f s = elim (f s.world s.process.fd_table) [
    | ok (a, t) ↦ (ok a, record s { process = record (s.process) { fd_table = t } })
    | err e ↦ (err e, s)
  ]

  abbrev pub from_world : {A : Type 0} → (World → Result IoErrorKind A) → Handler File World A
  from_world f s = (map_err map_io_errno (f s.world), s)

  abbrev pub with_world :
      {A : Type 0} → (World → Result IoErrorKind A × World) → Handler File World A
  with_world f s = let (r, w) = f s.world in (map_err map_io_errno r, record s { world = w })

  abbrev pub fail_when : Bool → Errno → Handler File World (Unit {0})
  fail_when true e s = (err (errno e), s)
  fail_when false e s = (ok tt, s)
