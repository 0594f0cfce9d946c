-- ===== src/Region.antt =====
-- crates/ruxeon-core/src/memory.rs: permissions, errors and `MemoryRegion`.
use Prim.Native.String.{String}
use ruxeon.Common.{
  ℕ, ◌+◌, ◌-◌, Bool, false, ◌&&◌, Option, none, some, List, bit_and, ltb, leb, ◌==◌,
}
use ruxeon.Common.Words.{checked_add}

abbrev pub page_size : ℕ
page_size = 4096

-- The `bitflags` type over a byte.
pub record MemoryPermission : Type 0 where
  pub bits : ℕ

abbrev pub permission_read : MemoryPermission
permission_read = record { bits = 1 }

abbrev pub permission_write : MemoryPermission
permission_write = record { bits = 2 }

abbrev pub permission_execute : MemoryPermission
permission_execute = record { bits = 4 }

-- All bits of the second are set in the first.
unfoldable pub contains : MemoryPermission → MemoryPermission → Bool
contains p required = bit_and p.bits required.bits == required.bits

pub data GuestMemoryError : Type 0 where
  overlapping_mapping : ℕ → ℕ → GuestMemoryError
  unmapped : ℕ → ℕ → GuestMemoryError
  permission : ℕ → ℕ → MemoryPermission → GuestMemoryError
  address_overflow : ℕ → ℕ → GuestMemoryError
  empty_mapping : GuestMemoryError

pub record MemoryRegion : Type 0 where
  pub base : ℕ
  pub size : ℕ
  pub permissions : MemoryPermission
  pub name : Option String
  pub contents : List ℕ

-- `MemoryRegion::end`; in a valid memory the sum fits 64 bits.
abbrev pub end_of : MemoryRegion → ℕ
end_of r = r.base + r.size

abbrev pub contains_range : MemoryRegion → ℕ → ℕ → Bool
contains_range r addr size = elim (checked_add addr size) [
  | none ↦ false
  | some stop ↦ leb r.base addr && leb stop (end_of r)
]

abbrev pub offset : MemoryRegion → ℕ → ℕ
offset r addr = addr - r.base

-- `ranges_overlap` of two half-open ranges.
abbrev pub ranges_overlap : ℕ → ℕ → ℕ → ℕ → Bool
ranges_overlap left_start left_end right_start right_end =
    ltb left_start right_end && ltb right_start left_end
