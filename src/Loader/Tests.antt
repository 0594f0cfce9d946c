-- ===== src/Loader/Tests.antt =====
-- The loader's theorems at concrete inputs.
use Prim.Native.String.{String}
use ruxeon.Common.{
  ℕ, ◌%◌, ◌≤◌, ◌≡◌, ◌↔◌, if◌then◌else◌, some, [], ◌∷◌, ◌++◌, replicate, refl, arith,
}
use ruxeon.Region.{MemoryRegion}
use ruxeon.Memory.{GuestMemory, empty}
use ruxeon.Memory.Layout.{IsValid, end}
use ruxeon.Memory.Cells.{cell}
use ruxeon.Memory.Loading.{overwrite}
use ruxeon.Memory.Samples.{read_write, block, memory_of}
use ruxeon.Elf.{ElfImage, ProgramHeader, load}
use ruxeon.Loader.{load_segment}
use ruxeon.Loader.InitialStack.{Stack, StackAuxInput, build}
use ruxeon.Loader.Segments.{in_pages, load_segment-maps}
use ruxeon.Loader.Alignment.{build-alignment}

-- A segment of two bytes of the file, six in memory.
abbrev some_header : ProgramHeader
some_header = record {
  kind = load;
  flags = 6;
  offset = 1;
  virtual_address = 4;
  physical_address = 4;
  file_size = 2;
  memory_size = 6;
  align = 8;
}

abbrev some_image : ElfImage
some_image = record {
  header = record {
    file_type = 3;
    machine = 62;
    entry = 4;
    program_header_offset = 0;
    section_header_offset = 0;
    flags = 0;
    header_size = 64;
    program_header_entry_size = 56;
    program_header_count = 1;
  };
  program_headers = some_header ∷ [];
  bytes = 7 ∷ 8 ∷ 9 ∷ [];
}

abbrev segment_name : ℕ → String
segment_name _ = "LOAD"

-- The segment is at 20 with a bias of 16, in the first page.
abbrev loaded_memory : GuestMemory
loaded_memory = memory_of (
    record {
      base = 0;
      size = 4096;
      permissions = read_write;
      name = some "LOAD";
      contents = replicate 20 0 ++ 8 ∷ 9 ∷ replicate 4074 0;
    }
    ∷ [])

load_segment-maps_example :
    IsValid loaded_memory
    × ((a : ℕ)
        → cell loaded_memory a
          ≡ overwrite 20
              (8 ∷ 9 ∷ [])
              a
              (if in_pages 20 6 a then some (0, record { bits = 3 }) else cell empty a))
unfolding load_segment
load_segment-maps_example =
    load_segment-maps segment_name empty some_image some_header 16 (end (omega arith)) (omega arith)
      refl

abbrev stack_block : MemoryRegion
stack_block = block 16 read_write (replicate 320 0) 320

abbrev some_input : StackAuxInput
some_input = record { phdr = 1; phent = 56; phnum = 1; entry = 4; base = 0; page_size = 16 }

abbrev some_stack : Stack
some_stack = record { sp = 336; floor = 16; memory = memory_of (stack_block ∷ []) }

-- One argument and no environment: 32 words under the texts, and the pointer is aligned.
build-alignment_example : (16 ≤ 48) × ((48 % 16 ≡ 0) ↔ (1 % 2 ≡ 1))
unfolding build
build-alignment_example = build-alignment ((97 ∷ []) ∷ []) [] some_input some_stack refl
