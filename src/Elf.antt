-- ===== src/Elf.antt =====
-- crates/ruxeon-elf/src/elf.rs: the parser of ELF files. A file is the list of its bytes.
pub mod Dynamic
pub mod Bounds
mod Tests
use ruxeon.Common.{
  ℕ, zero, suc, ◌+◌, ◌-◌, ◌*◌, Bool, true, false, not, ◌&&◌, Option, none, some, List, [], ◌∷◌,
  length, get_elem?, take, drop, bit_and, ltb, leb, ◌==◌, if◌then◌else◌, Result, ok, ◌>>=◌, ◌>>◌,
  fail_if, ok_or,
}
use ruxeon.Common.Words.{checked_add, from_le_bytes}

pub data ElfError : Type 0 where
  too_small bad_magic : ElfError
  unsupported_class unsupported_endian unsupported_machine unsupported_version : ℕ → ElfError
  invalid_header_size invalid_program_header_size : ℕ → ElfError
  program_headers_out_of_bounds segment_out_of_bounds invalid_load_segment : ElfError
  dynamic_out_of_bounds invalid_interpreter : ElfError

pub record ElfHeader : Type 0 where
  pub file_type : ℕ
  pub machine : ℕ
  pub entry : ℕ
  pub program_header_offset : ℕ
  pub section_header_offset : ℕ
  pub flags : ℕ
  pub header_size : ℕ
  pub program_header_entry_size : ℕ
  pub program_header_count : ℕ

pub data ProgramHeaderType : Type 0 where
  null load dynamic interp note phdr tls gnu_stack : ProgramHeaderType
  other_type : ℕ → ProgramHeaderType

unfoldable pub program_header_type : ℕ → ProgramHeaderType
program_header_type value =
    if value == 0
    then ProgramHeaderType.null
    else if value == 1
    then load
    else if value == 2
    then dynamic
    else if value == 3
    then interp
    else if value == 4
    then note
    else if value == 6
    then phdr
    else if value == 7
    then tls
    else if value == 0x6474_e551
    then gnu_stack
    else other_type value

pub record ProgramHeader : Type 0 where
  pub kind : ProgramHeaderType
  pub flags : ℕ
  pub offset : ℕ
  pub virtual_address : ℕ
  pub physical_address : ℕ
  pub file_size : ℕ
  pub memory_size : ℕ
  pub align : ℕ

-- `readable`, `writable` and `executable` of the flags.
abbrev pub is_readable : ℕ → Bool
is_readable flags = not (bit_and flags 4 == 0)

abbrev pub is_writable : ℕ → Bool
is_writable flags = not (bit_and flags 2 == 0)

abbrev pub is_executable : ℕ → Bool
is_executable flags = not (bit_and flags 1 == 0)

abbrev pub is_load_type : ProgramHeaderType → Bool
is_load_type load = true
is_load_type _ = false

abbrev pub is_load : ProgramHeader → Bool
is_load h = is_load_type h.kind

pub record ElfImage : Type 0 where
  pub bytes : List ℕ
  pub header : ElfHeader
  pub program_headers : List ProgramHeader

-- `bytes.get(start..stop)`.
unfoldable pub get_range : List ℕ → ℕ → ℕ → Option (List ℕ)
get_range bytes start stop =
    if leb start stop && leb stop (length bytes)
    then some (take (stop - start) (drop start bytes))
    else none

-- `read_u16`, `read_u32` and `read_u64`, by the number of bytes.
unfoldable pub read_word : ℕ → List ℕ → ℕ → Result ElfError ℕ
unfolding get_range from_le_bytes
read_word size bytes offset = do
  stop ← ok_or (checked_add offset size) too_small
  found ← ok_or (get_range bytes offset stop) too_small
  ok (from_le_bytes found)

unfoldable pub validate_load_segment : List ℕ → ProgramHeader → Result ElfError (Unit {0})
validate_load_segment bytes h = do
  fail_if (ltb h.memory_size h.file_size) invalid_load_segment
  stop ← ok_or (checked_add h.offset h.file_size) segment_out_of_bounds
  fail_if (ltb (length bytes) stop) segment_out_of_bounds

unfoldable pub segment_bytes : List ℕ → ProgramHeader → Result ElfError (List ℕ)
unfolding get_range
segment_bytes bytes h = do
  stop ← ok_or (checked_add h.offset h.file_size) segment_out_of_bounds
  ok_or (get_range bytes h.offset stop) segment_out_of_bounds

-- The byte at an index in range.
abbrev pub byte_at : List ℕ → ℕ → ℕ
byte_at bytes i = elim (get_elem? bytes i) [ none ↦ 0 | some b ↦ b ]

abbrev pub has_magic : List ℕ → Bool
has_magic bytes =
    byte_at bytes 0 == 0x7f
    && (byte_at bytes 1 == 0x45 && (byte_at bytes 2 == 0x4c && byte_at bytes 3 == 0x46))

unfoldable pub parse_program_header : List ℕ → ℕ → Result ElfError ProgramHeader
unfolding read_word program_header_type
parse_program_header bytes offset = do
  kind ← read_word 4 bytes offset
  flags ← read_word 4 bytes (offset + 4)
  file_offset ← read_word 8 bytes (offset + 8)
  virtual_address ← read_word 8 bytes (offset + 16)
  physical_address ← read_word 8 bytes (offset + 24)
  file_size ← read_word 8 bytes (offset + 32)
  memory_size ← read_word 8 bytes (offset + 40)
  align ← read_word 8 bytes (offset + 48)
  ok (record {
    kind = program_header_type kind;
    flags = flags;
    offset = file_offset;
    virtual_address = virtual_address;
    physical_address = physical_address;
    file_size = file_size;
    memory_size = memory_size;
    align = align;
  })

abbrev pub validate : List ℕ → ProgramHeader → Result ElfError (Unit {0})
validate bytes h = if is_load h then validate_load_segment bytes h else ok tt

-- The loop of `parse` over so many entries, the first of them at `offset`.
unfoldable pub parse_program_headers : ℕ → List ℕ → ℕ → ℕ → Result ElfError (List ProgramHeader)
unfolding parse_program_header validate_load_segment
parse_program_headers zero bytes entry_size offset = ok []
parse_program_headers (suc count) bytes entry_size offset = do
  header ← parse_program_header bytes offset
  validate bytes header
  rest ← parse_program_headers count bytes entry_size (offset + entry_size)
  ok (header ∷ rest)

-- What `parse` checks of the first 24 bytes.
unfoldable pub check_identity : List ℕ → Result ElfError (Unit {0})
unfolding read_word
check_identity bytes = do
  fail_if (not (has_magic bytes)) bad_magic
  fail_if (not (byte_at bytes 4 == 2)) (unsupported_class (byte_at bytes 4))
  fail_if (not (byte_at bytes 5 == 1)) (unsupported_endian (byte_at bytes 5))
  machine ← read_word 2 bytes 18
  fail_if (not (machine == 62)) (unsupported_machine machine)
  version ← read_word 4 bytes 20
  fail_if (not (version == 1)) (unsupported_version version)

unfoldable pub parse_header : List ℕ → Result ElfError ElfHeader
unfolding read_word
parse_header bytes = do
  file_type ← read_word 2 bytes 16
  machine ← read_word 2 bytes 18
  entry ← read_word 8 bytes 24
  program_header_offset ← read_word 8 bytes 32
  section_header_offset ← read_word 8 bytes 40
  flags ← read_word 4 bytes 48
  header_size ← read_word 2 bytes 52
  program_header_entry_size ← read_word 2 bytes 54
  program_header_count ← read_word 2 bytes 56
  ok (record {
    file_type = file_type;
    machine = machine;
    entry = entry;
    program_header_offset = program_header_offset;
    section_header_offset = section_header_offset;
    flags = flags;
    header_size = header_size;
    program_header_entry_size = program_header_entry_size;
    program_header_count = program_header_count;
  })

-- The product of two 16-bit numbers fits.
unfoldable pub check_table : List ℕ → ElfHeader → Result ElfError (Unit {0})
check_table bytes h = do
  fail_if (ltb h.header_size 64) (invalid_header_size h.header_size)
  fail_if (ltb h.program_header_entry_size 56)
      (invalid_program_header_size h.program_header_entry_size)
  stop ←
      ok_or
        (checked_add h.program_header_offset (h.program_header_entry_size * h.program_header_count))
        program_headers_out_of_bounds
  fail_if (ltb (length bytes) stop) program_headers_out_of_bounds

unfoldable pub parse : List ℕ → Result ElfError ElfImage
unfolding check_identity parse_header check_table parse_program_headers
parse bytes = do
  fail_if (ltb (length bytes) 64) too_small
  check_identity bytes
  header ← parse_header bytes
  check_table bytes header
  headers ←
      parse_program_headers header.program_header_count bytes header.program_header_entry_size
        header.program_header_offset
  ok (record { bytes = bytes; header = header; program_headers = headers })

abbrev pub is_position_independent : ElfImage → Bool
is_position_independent image = image.header.file_type == 3
