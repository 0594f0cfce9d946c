-- ===== src/Loader.antt =====
-- crates/ruxeon-elf/src/loader.rs: the loader of programs. Sums that the source leaves unchecked are checked, as in
-- a build with overflow checks; `panicked` stands for the panic. A text is its bytes.
pub mod InitialStack
pub mod Program
pub mod Segments
pub mod Alignment
mod Tests
use Prim.Native.String.{String}
use ruxeon.Common.{
  ℕ, ◌+◌, ◌-◌, ◌*◌, Bool, true, ◌&&◌, none, some, List, [], ◌∷◌, find, bit_and, bit_or, ltb, leb,
  if◌then◌else◌, Result, ok, err, ◌>>=◌, ◌>>◌, fail_if, ok_or,
}
use ruxeon.Common.Words.{u64_mod, checked_add, saturating_add}
use ruxeon.Region.{MemoryPermission, GuestMemoryError, address_overflow, page_size}
use ruxeon.Memory.{GuestMemory, Outcome, map_with_data}
use ruxeon.Elf
use ruxeon.Elf.{
  ElfError, ElfImage, ProgramHeader, is_load, is_readable, is_writable, is_executable, get_range,
}

pub data LoaderError : Type 0 where
  elf_error : ElfError → LoaderError
  memory_error : GuestMemoryError → LoaderError
  no_load_segments missing_program_header_address stack_overflow panicked : LoaderError

pub record LoaderConfig : Type 0 where
  pub stack_top : ℕ
  pub stack_size : ℕ
  pub page_size : ℕ
  pub position_independent_base : ℕ
  pub interpreter_base : ℕ

abbrev pub default_config : LoaderConfig
default_config = record {
  stack_top = 0x0000_7fff_ffff_f000;
  stack_size = 8 * 1024 * 1024;
  page_size = page_size;
  position_independent_base = 0x0000_5555_0000_0000;
  interpreter_base = 0x0000_7fff_0000_0000;
}

pub data AuxType : Type 0 where
  null phdr phent phnum pagesz base entry uid euid gid egid secure random exec_fn : AuxType

abbrev pub aux_code : AuxType → ℕ
aux_code AuxType.null = 0
aux_code AuxType.phdr = 3
aux_code AuxType.phent = 4
aux_code AuxType.phnum = 5
aux_code AuxType.pagesz = 6
aux_code AuxType.base = 7
aux_code AuxType.entry = 9
aux_code AuxType.uid = 11
aux_code AuxType.euid = 12
aux_code AuxType.gid = 13
aux_code AuxType.egid = 14
aux_code AuxType.secure = 23
aux_code AuxType.random = 25
aux_code AuxType.exec_fn = 31

pub record AuxEntry : Type 0 where
  pub kind : AuxType
  pub value : ℕ

-- A sum of addresses.
abbrev pub checked_sum : ℕ → ℕ → Result LoaderError ℕ
checked_sum a b = ok_or (checked_add a b) panicked

-- `align` is a power of two.
unfoldable pub align_down : ℕ → ℕ → ℕ
align_down value align = bit_and value (u64_mod - align)

unfoldable pub align_up : ℕ → ℕ → Result LoaderError ℕ
unfolding align_down
align_up value align = do sum ← checked_sum value align; ok (align_down (sum - 1) align)

abbrev pub permission_bit : Bool → ℕ → ℕ
permission_bit b bit = if b then bit else 0

unfoldable pub permissions_from_flags : ℕ → MemoryPermission
permissions_from_flags flags = record {
  bits =
      bit_or (bit_or (permission_bit (is_readable flags) 1) (permission_bit (is_writable flags) 2))
        (permission_bit (is_executable flags) 4);
}

-- The result of an operation on the memory, which is dropped with an error.
abbrev pub loaded : Outcome → Result LoaderError GuestMemory
loaded (ok _, m) = ok m
loaded (err e, m) = err (memory_error e)

-- Where a segment goes: the pages and the data's place in them.
pub record Placement : Type 0 where
  pub address : ℕ
  pub map_start : ℕ
  pub map_end : ℕ

unfoldable pub place_segment : ProgramHeader → ℕ → ℕ → Result LoaderError Placement
unfolding align_down align_up
place_segment h load_bias page = do
  address ← checked_sum h.virtual_address load_bias
  stop ←
      ok_or (checked_add h.virtual_address h.memory_size)
        (memory_error (address_overflow address h.memory_size))
  segment_end ←
      ok_or (checked_add stop load_bias) (memory_error (address_overflow address h.memory_size))
  map_end ← align_up segment_end page
  ok (record { address = address; map_start = align_down address page; map_end = map_end })

-- The first header that is the table's own, or that loads it.
abbrev pub holds_table : ℕ → ProgramHeader → Bool
holds_table phoff h = elim h.kind [
  | Elf.phdr ↦ true
  | _ ↦ is_load h && (leb h.offset phoff && ltb phoff (saturating_add h.offset h.file_size))
]

unfoldable pub program_header_guest_address : ElfImage → ℕ → Result LoaderError ℕ
program_header_guest_address image load_bias =
    let phoff = image.header.program_header_offset in
    elim (find (holds_table phoff) image.program_headers) [
      | none ↦ err missing_program_header_address
      | some h ↦ elim h.kind [
        | Elf.phdr ↦ checked_sum h.virtual_address load_bias
        | _ ↦ do
          inside ← checked_sum h.virtual_address (phoff - h.offset)
          checked_sum inside load_bias
      ]
    ]

-- `segment_name` is the formatted name of a region.
module _ (segment_name : ℕ → String) where
  unfoldable pub load_segment :
      GuestMemory → ElfImage → ProgramHeader → ℕ → ℕ → Result LoaderError GuestMemory
  unfolding place_segment get_range map_with_data permissions_from_flags
  load_segment m image h load_bias page = do
    p ← place_segment h load_bias page
    fail_if (ltb p.map_end p.map_start) panicked
    bytes ← ok_or (get_range image.bytes h.offset (h.offset + h.file_size)) panicked
    loaded (
        map_with_data p.map_start (p.map_end - p.map_start) (permissions_from_flags h.flags)
          (p.address - p.map_start) bytes (some (segment_name p.address)) m)

  -- The loop over the headers of the segments to load.
  unfoldable pub load_segments :
      List ProgramHeader → ElfImage → ℕ → ℕ → GuestMemory → Result LoaderError GuestMemory
  unfolding load_segment
  load_segments [] image load_bias page m = ok m
  load_segments (h ∷ rest) image load_bias page m = do
    m' ← (if is_load h then load_segment m image h load_bias page else ok m)
    load_segments rest image load_bias page m'
