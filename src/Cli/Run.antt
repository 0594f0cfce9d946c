-- ===== src/Cli/Run.antt =====
-- crates/ruxeon-cli/src/main.rs: `run_program`, from the path of the program to the status of its process.
use ruxeon.Common.{ℕ, not, Option, none, some, List, [], ◌∷◌, ◌==◌, Result, ◌>>=◌, fail_if}
use Prim.Native.String.{String}
use ruxeon.Common.Dict.{nat_eq, Dict, get, insert}
use ruxeon.ProcessTable.{insert_initial}
use ruxeon.ProcessTable
use ruxeon.Scheduler.{enqueue_process}
use ruxeon.Loader.Program.{LoadedProgram}
use ruxeon.Cpu.State.{Instruction}
use ruxeon.Cpu.State
use ruxeon.Cpu.Transfers.{Flow}
use ruxeon.Cpu.Blocks.{Decoder, Clock}
use ruxeon.Linux.Os.{Os, IoErrorKind}
use ruxeon.Linux.State.{LinuxProcess, with_executable}
use ruxeon.Cli.{
  CliError, host_environment, program_registers, read_named, translate_program_path,
  load_program_image, exit_status,
}
use ruxeon.Cli.Runtime.{Task, Runtime, new_cache}
use ruxeon.Cli.Loop.{run_until_exit}

-- A run of a program: the host's path is read, loaded and run; every status but 0 is an error.
module _ {File World : Type 0} (os : Os File World)
    (read_file : List ℕ → World → Result IoErrorKind (List ℕ)) (segment_name : ℕ → String)
    (order : Dict ℕ (Task File) → Dict ℕ (Task File)) where
  unfoldable pub first_runtime : LinuxProcess File → LoadedProgram → World → Runtime File World
  unfolding insert_initial program_registers enqueue_process ProcessTable.new_table
  first_runtime process loaded w =
      let t =
        insert_initial process.pid process.tid
          (record { process = process; memory = loaded.memory }) (program_registers loaded)
          ProcessTable.new_table in
      record {
        processes = t;
        queue = elim (get process.pid t.records) [ none ↦ [] | some r ↦ enqueue_process r [] ];
        caches = insert process.pid new_cache [];
        buffers = [];
        world = w;
        initial_exit_code = none;
      }

  unfoldable pub run_program :
      Decoder
      → (Instruction → State.Action Flow)
      → (ℕ → ℕ → Clock)
      → Option (List ℕ)
      → List ℕ
      → List (List ℕ)
      → List (List ℕ × List ℕ)
      → World
      → Result CliError (Unit {0})
  unfolding translate_program_path load_program_image host_environment first_runtime run_until_exit
      with_executable
  run_program decoder other clock rootfs program args vars w = do
    bytes ←
        read_named os read_file segment_name
          (translate_program_path os read_file segment_name rootfs program w) w
    loaded ←
        load_program_image os read_file segment_name rootfs bytes (program ∷ args)
          (host_environment vars) w
    let process = with_executable (os.terminal_size w) rootfs program
    let start = first_runtime process loaded w
    code ← (run_until_exit os read_file segment_name order process.pid decoder other clock start).0
    fail_if (not (code == 0)) (exit_status code)
