-- ===== src/Cli.antt =====
-- crates/ruxeon-cli/src/main.rs: the loading of the program that a run starts with, or that a process changes to. A path
-- is its bytes, which are a text.
pub mod Runtime
pub mod Loop
pub mod Run
pub mod Queued
pub mod Rounds
pub mod Blocking
mod Tests
use ruxeon.Common.{
  ℕ, ◌-◌, Bool, false, ◌&&◌, Option, none, some, List, [], ◌∷◌, ◌++◌, map, leb, ◌==◌, if◌then◌else◌,
  any, Result, ◌>>=◌, ◌>>◌, map_err, ok, err,
}
use Prim.Native.String.{String}
use ruxeon.Common.Text.{codes}
use ruxeon.Memory.{GuestMemory}
use ruxeon.Registers.{Registers, new_registers}
use ruxeon.GuestPath.{FsError, root}
use ruxeon.RootFs.{on_host, in_memory, resolve}
use ruxeon.Elf.{ElfError, parse}
use ruxeon.Elf.Dynamic.{interpreter_path}
use ruxeon.Loader.{LoaderError, default_config}
use ruxeon.Loader.Program
use ruxeon.Loader.Program.{LoadedProgram, load_dynamic_with_config}
use ruxeon.Cpu.State.{CpuError}
use ruxeon.Linux.Os.{Os, IoErrorKind}
use ruxeon.Linux.State.{ExecveRequest, LinuxProcess, apply_exec}

pub data CliError : Type 0 where
  unreadable : List ℕ → IoErrorKind → CliError
  bad_image : ElfError → CliError
  no_rootfs : List ℕ → CliError
  bad_path : FsError → CliError
  virtual_interpreter : List ℕ → CliError
  bad_load : LoaderError → CliError
  no_main_thread : CliError
  guest_step : ℕ → List ℕ → ℕ → CpuError → CliError
  nothing_runnable : CliError
  step_limit : CliError
  exit_status : ℕ → CliError

-- `eq_ignore_ascii_case` with "PATH".
abbrev upper : ℕ → ℕ
upper c = if leb 97 c && leb c 122 then c - 32 else c

abbrev pub is_path_key : List ℕ → Bool
is_path_key (p ∷ a ∷ t ∷ h ∷ []) = upper p == 80 && upper a == 65 && upper t == 84 && upper h == 72
is_path_key _ = false

abbrev pub guest_search_path : List ℕ
guest_search_path = codes "PATH=/usr/local/sbin:/usr/local/bin:/usr/sbin:/usr/bin:/sbin:/bin"

-- The variables of the host's environment, in their order; those named PATH, in either case, get the guest's value.
abbrev pub guest_variable : List ℕ × List ℕ → List ℕ
guest_variable (key, value) = if is_path_key key then guest_search_path else key ++ 61 ∷ value

unfoldable pub host_environment : List (List ℕ × List ℕ) → List (List ℕ)
host_environment vars =
    if any (λ v. is_path_key v.0) vars
    then map guest_variable vars
    else map guest_variable vars ++ guest_search_path ∷ []

unfoldable pub program_registers : LoadedProgram → Registers
unfolding new_registers
program_registers loaded = record new_registers { rip = loaded.entry; rsp = loaded.stack_pointer }

-- `fs::read`, `segment_name` the formatted name of a segment's region.
module _ {File World : Type 0} (os : Os File World)
    (read_file : List ℕ → World → Result IoErrorKind (List ℕ)) (segment_name : ℕ → String) where
  abbrev pub read_named : List ℕ → World → Result CliError (List ℕ)
  read_named path w = map_err (unreadable path) (read_file path w)

  unfoldable pub translate_program_path : Option (List ℕ) → List ℕ → World → List ℕ
  unfolding resolve
  translate_program_path none program w = program
  translate_program_path (some rootfs) program w =
      elim (resolve (os.root_view rootfs w) os.push rootfs root program) [
        | err e ↦ program
        | ok resolved ↦ elim resolved [ on_host guest host ↦ host | in_memory guest file ↦ program ]
      ]

  unfoldable pub interpreter_bytes :
      Option (List ℕ) → List ℕ → World → Result CliError (Option (List ℕ))
  unfolding resolve
  interpreter_bytes none path w = err (no_rootfs path)
  interpreter_bytes (some rootfs) path w = do
    resolved ← map_err bad_path (resolve (os.root_view rootfs w) os.push rootfs root path)
    elim resolved [
      | on_host guest host ↦ (do bytes ← read_named host w; ok (some bytes))
      | in_memory guest file ↦ err (virtual_interpreter path)
    ]

  unfoldable pub load_interpreter :
      Option (List ℕ) → List ℕ → World → Result CliError (Option (List ℕ))
  unfolding parse interpreter_path interpreter_bytes
  load_interpreter rootfs bytes w = do
    image ← map_err bad_image (parse bytes)
    path ← map_err bad_image (interpreter_path os.is_utf8 image)
    elim path [ none ↦ ok none | some p ↦ interpreter_bytes rootfs p w ]

  unfoldable pub load_program_image :
      Option (List ℕ)
      → List ℕ
      → List (List ℕ)
      → List (List ℕ)
      → World
      → Result CliError LoadedProgram
  unfolding load_interpreter load_dynamic_with_config
  load_program_image rootfs bytes argv envp w = do
    found ← load_interpreter rootfs bytes w
    map_err bad_load
        (load_dynamic_with_config segment_name os.is_utf8 bytes found argv envp default_config)

  unfoldable pub execve_state :
      LinuxProcess File
      → ExecveRequest
      → World
      → Result CliError ((GuestMemory × Registers) × LinuxProcess File)
  unfolding load_program_image program_registers apply_exec
  execve_state process request w = do
    bytes ← read_named request.host_path w
    loaded ← load_program_image request.rootfs bytes request.argv request.envp w
    ok ((loaded.memory, program_registers loaded), apply_exec request.guest_path process)
