-- ===== src/Loader/Program.antt =====
-- crates/ruxeon-elf/src/loader.rs: the loading of a program and of its interpreter.
use Prim.Native.String.{String}
use ruxeon.Common.{
  ℕ, ◌-◌, Bool, not, Option, none, some, List, any, ltb, if◌then◌else◌, Result, ok, ◌>>=◌, ◌>>◌,
  fail_if, map_err,
}
use ruxeon.Memory.{GuestMemory, empty, map_region}
use ruxeon.Elf.Dynamic.{DynamicEntry, interpreter_path, dynamic_entries}
use ruxeon.Elf.{ElfError, ElfImage, is_load, is_position_independent, parse}
use ruxeon.Loader.{
  LoaderError, elf_error, no_load_segments, stack_overflow, LoaderConfig, AuxEntry, checked_sum,
  loaded, program_header_guest_address, load_segments,
}
use ruxeon.Loader.InitialStack.{build}

pub record LoadedInterpreter : Type 0 where
  pub image : ElfImage
  pub path : List ℕ
  pub base : ℕ
  pub entry : ℕ
  pub dynamic_entries : List DynamicEntry

pub record LoadedProgram : Type 0 where
  pub image : ElfImage
  pub memory : GuestMemory
  pub entry : ℕ
  pub executable_entry : ℕ
  pub stack_pointer : ℕ
  pub auxv : List AuxEntry
  pub argv : List (List ℕ)
  pub envp : List (List ℕ)
  pub interpreter_path : Option (List ℕ)
  pub interpreter : Option LoadedInterpreter
  pub dynamic_entries : List DynamicEntry

abbrev pub elf : {A : Type 0} → Result ElfError A → Result LoaderError A
elf = map_err elf_error

-- `segment_name` is the formatted name of a segment's region, `is_utf8` the test of the standard library.
module _ (segment_name : ℕ → String) (is_utf8 : List ℕ → Bool) where
  unfoldable pub load_interpreter :
      Option (List ℕ)
      → Option (List ℕ)
      → LoaderConfig
      → GuestMemory
      → Result LoaderError (Option LoadedInterpreter × GuestMemory)
  unfolding parse load_segments dynamic_entries
  load_interpreter (some path) (some bytes) config m = do
    image ← elf (parse bytes)
    m' ←
        load_segments segment_name image.program_headers image config.interpreter_base
          config.page_size m
    start ← checked_sum image.header.entry config.interpreter_base
    entries ← elf (dynamic_entries image)
    ok (
      some (record {
        image = image;
        path = path;
        base = config.interpreter_base;
        entry = start;
        dynamic_entries = entries;
      }),
      m',
    )
  load_interpreter _ _ config m = ok (none, m)

  abbrev pub base_of : Option LoadedInterpreter → ℕ
  base_of none = 0
  base_of (some i) = i.base

  abbrev pub entry_of : ℕ → Option LoadedInterpreter → ℕ
  entry_of executable_entry none = executable_entry
  entry_of executable_entry (some i) = i.entry

  unfoldable pub load_dynamic_with_config :
      List ℕ
      → Option (List ℕ)
      → List (List ℕ)
      → List (List ℕ)
      → LoaderConfig
      → Result LoaderError LoadedProgram
  unfolding parse interpreter_path dynamic_entries load_segments program_header_guest_address
      load_interpreter map_region build
  load_dynamic_with_config bytes interpreter_bytes argv envp config = do
    image ← elf (parse bytes)
    let bias = if is_position_independent image then config.position_independent_base else 0
    path ← elf (interpreter_path is_utf8 image)
    entries ← elf (dynamic_entries image)
    m ← load_segments segment_name image.program_headers image bias config.page_size empty
    fail_if (not (any is_load image.program_headers)) no_load_segments
    table ← program_header_guest_address image bias
    executable_entry ← checked_sum image.header.entry bias
    found ← load_interpreter path interpreter_bytes config m
    fail_if (ltb config.stack_top config.stack_size) stack_overflow
    let stack_base = config.stack_top - config.stack_size
    m' ←
        loaded
          (map_region stack_base config.stack_size (record { bits = 3 }) (some "[stack]") found.1)
    built ←
        build argv envp
          (record {
            phdr = table;
            phent = image.header.program_header_entry_size;
            phnum = image.header.program_header_count;
            entry = executable_entry;
            base = base_of found.0;
            page_size = config.page_size;
          })
          (record { sp = config.stack_top; floor = stack_base; memory = m' })
    ok (record {
      image = image;
      memory = built.0.memory;
      entry = entry_of executable_entry found.0;
      executable_entry = executable_entry;
      stack_pointer = built.0.sp;
      auxv = built.1;
      argv = argv;
      envp = envp;
      interpreter_path = path;
      interpreter = found.0;
      dynamic_entries = entries;
    })
