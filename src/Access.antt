-- ===== src/Access.antt =====
-- crates/ruxeon-core/src/memory.rs: the checked reads and writes of `GuestMemory`.
pub mod Reading
pub mod Writing
mod Tests
use ruxeon.Common.{
  ℕ, Option, none, some, List, length, get_elem?, take, drop, find, if◌then◌else◌, Result, ok, err,
  ◌>>=◌, ◌>>◌, ok_or,
}
use ruxeon.Common.Words.{to_le_bytes, from_le_bytes}
use ruxeon.Region.{
  MemoryPermission, permission_read, permission_write, permission_execute, contains,
  GuestMemoryError, unmapped, permission, MemoryRegion, contains_range, offset,
}
use ruxeon.Memory.{GuestMemory, Outcome, find_index, load_bytes}

unfoldable pub permissions_at : ℕ → GuestMemory → Option MemoryPermission
permissions_at addr m = elim (find (λ r. contains_range r addr 1) m.map.regions) [
  | none ↦ none
  | some r ↦ some r.permissions
]

-- `region` and `region_mut`: the first region that holds the whole range.
unfoldable pub region : ℕ → ℕ → GuestMemory → Result GuestMemoryError MemoryRegion
unfolding find_index
region addr size m = elim (find_index m.map addr size) [
  | none ↦ err (unmapped addr size)
  | some index ↦ ok_or (get_elem? m.map.regions index) (unmapped addr size)
]

unfoldable pub check_permission :
    ℕ → ℕ → MemoryPermission → GuestMemory → Result GuestMemoryError (Unit {0})
unfolding region contains
check_permission addr size required m = do
  r ← region addr size m
  (if contains r.permissions required then ok tt else err (permission addr size required))

-- `region.data[offset..offset + size].to_vec()`.
abbrev pub slice_at : MemoryRegion → ℕ → ℕ → List ℕ
slice_at r addr size = take size (drop (offset r addr) r.contents)

unfoldable pub read_bytes : ℕ → ℕ → GuestMemory → Result GuestMemoryError (List ℕ)
unfolding check_permission region
read_bytes addr size m = do
  check_permission addr size permission_read m
  r ← region addr size m
  ok (slice_at r addr size)

-- Only the first byte's region is checked for the right to execute.
unfoldable pub fetch_bytes : ℕ → ℕ → GuestMemory → Result GuestMemoryError (List ℕ)
unfolding check_permission region
fetch_bytes addr size m = do
  check_permission addr 1 permission_execute m
  r ← region addr size m
  ok (slice_at r addr size)

unfoldable pub write_bytes : ℕ → List ℕ → GuestMemory → Outcome
unfolding check_permission load_bytes
write_bytes addr bytes m = elim (check_permission addr (length bytes) permission_write m) [
  | err e ↦ (err e, m)
  | ok _ ↦ load_bytes addr bytes m
]

-- `read_u8`, `read_u16`, `read_u32`, `read_u64` at 1, 2, 4 and 8 bytes; so for the writes.
unfoldable pub read_word : ℕ → ℕ → GuestMemory → Result GuestMemoryError ℕ
unfolding read_bytes from_le_bytes
read_word width addr m = do bytes ← read_bytes addr width m; ok (from_le_bytes bytes)

unfoldable pub write_word : ℕ → ℕ → ℕ → GuestMemory → Outcome
unfolding write_bytes to_le_bytes
write_word width addr value m = write_bytes addr (to_le_bytes width value) m
