-- ===== src/Memory/Samples.antt =====
-- Small memories on which the theorems are run.
use ruxeon.Common.{ℕ, none, List, [], ◌∷◌, arith, refl}
use ruxeon.Region.{MemoryPermission, MemoryRegion}
use ruxeon.Memory.{GuestMemory}
use ruxeon.Memory.Layout.{IsValid, end, next}

abbrev pub read_write : MemoryPermission
read_write = record { bits = 3 }

abbrev pub read_only : MemoryPermission
read_only = record { bits = 1 }

abbrev pub block : ℕ → MemoryPermission → List ℕ → ℕ → MemoryRegion
block base p contents size = record {
  base = base;
  size = size;
  permissions = p;
  name = none;
  contents = contents;
}

abbrev pub memory_of : List MemoryRegion → GuestMemory
memory_of rs = record { map = record { regions = rs } }

-- Four writable bytes, a gap, and two bytes that may only be read.
abbrev pub low_block : MemoryRegion
low_block = block 16 read_write (1 ∷ 2 ∷ 3 ∷ 4 ∷ []) 4

abbrev pub high_block : MemoryRegion
high_block = block 32 read_only (9 ∷ 8 ∷ []) 2

abbrev pub two_blocks : GuestMemory
two_blocks = memory_of (low_block ∷ high_block ∷ [])

pub two_blocks-IsValid : IsValid two_blocks
two_blocks-IsValid =
    next {r = low_block} (omega arith)
      (record { positive = omega arith; filled = refl; bytes = omega arith })
      (next {r = high_block} (omega arith)
        (record { positive = omega arith; filled = refl; bytes = omega arith }) (end (omega arith)))
