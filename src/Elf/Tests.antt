-- ===== src/Elf/Tests.antt =====
-- A small file at which the parser's theorem is run.
use ruxeon.Common.{ℕ, List, [], ◌∷◌, ◌++◌, refl}
use ruxeon.Elf.{ElfImage, load, parse}
use ruxeon.Elf.Bounds.{IsParsed, parse-IsParsed}

abbrev header_bytes : List ℕ
header_bytes =
    127 ∷ 69 ∷ 76 ∷ 70 ∷ 2 ∷ 1 ∷ 1 ∷ 0 ∷ 0 ∷ 0 ∷ 0 ∷ 0 ∷ 0 ∷ 0 ∷ 0 ∷ 0 ∷ 2 ∷ 0 ∷ 62 ∷ 0 ∷ 1 ∷ 0 ∷ 0
    ∷ 0 ∷ 0 ∷ 16 ∷ 64 ∷ 0 ∷ 0 ∷ 0 ∷ 0 ∷ 0 ∷ 64 ∷ 0 ∷ 0 ∷ 0 ∷ 0 ∷ 0 ∷ 0 ∷ 0 ∷ 0 ∷ 0 ∷ 0 ∷ 0 ∷ 0 ∷ 0
    ∷ 0 ∷ 0 ∷ 0 ∷ 0 ∷ 0 ∷ 0 ∷ 64 ∷ 0 ∷ 56 ∷ 0 ∷ 1 ∷ 0 ∷ 64 ∷ 0 ∷ 0 ∷ 0 ∷ 0 ∷ 0 ∷ []

abbrev segment_bytes : List ℕ
segment_bytes =
    1 ∷ 0 ∷ 0 ∷ 0 ∷ 5 ∷ 0 ∷ 0 ∷ 0 ∷ 0 ∷ 0 ∷ 0 ∷ 0 ∷ 0 ∷ 0 ∷ 0 ∷ 0 ∷ 0 ∷ 0 ∷ 64 ∷ 0 ∷ 0 ∷ 0 ∷ 0 ∷ 0
    ∷ 0 ∷ 0 ∷ 64 ∷ 0 ∷ 0 ∷ 0 ∷ 0 ∷ 0 ∷ 120 ∷ 0 ∷ 0 ∷ 0 ∷ 0 ∷ 0 ∷ 0 ∷ 0 ∷ 130 ∷ 0 ∷ 0 ∷ 0 ∷ 0 ∷ 0 ∷ 0
    ∷ 0 ∷ 0 ∷ 16 ∷ 0 ∷ 0 ∷ 0 ∷ 0 ∷ 0 ∷ 0 ∷ []

-- The header, and one program header: all of the file is one segment, which is longer in memory.
abbrev some_image : ElfImage
some_image = record {
  header = record {
    file_type = 2;
    machine = 62;
    entry = 0x401000;
    program_header_offset = 64;
    section_header_offset = 0;
    flags = 0;
    header_size = 64;
    program_header_entry_size = 56;
    program_header_count = 1;
  };
  program_headers =
      record {
        kind = load;
        flags = 5;
        offset = 0;
        virtual_address = 0x400000;
        physical_address = 0x400000;
        file_size = 120;
        memory_size = 130;
        align = 0x1000;
      }
      ∷ [];
  bytes = header_bytes ++ segment_bytes;
}

parse-IsParsed_example : IsParsed (header_bytes ++ segment_bytes) some_image
unfolding parse
parse-IsParsed_example = parse-IsParsed (header_bytes ++ segment_bytes) refl
