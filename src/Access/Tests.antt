-- ===== src/Access/Tests.antt =====
-- The theorems on reads and writes at concrete inputs.
use ruxeon.Common.{
  ℕ, ◌+◌, ◌<◌, ◌≡◌, refl, ◌⊎◌, false, true, none, some, List, [], ◌∷◌, length, get_elem?, ok, arith,
}
use ruxeon.Region.{
  MemoryPermission, MemoryRegion, contains, permission, unmapped, permission_read, permission_write,
}
use ruxeon.Memory.{find_index}
use ruxeon.Memory.Layout.{IsValid}
use ruxeon.Memory.Cells.{cell}
use ruxeon.Memory.Loading.{overwrite}
use ruxeon.Memory.Samples.{read_write, block, memory_of, high_block, two_blocks, two_blocks-IsValid}
use ruxeon.Access.{region, check_permission, read_bytes, write_bytes}
use ruxeon.Access.Reading.{read_bytes_reads}
use ruxeon.Access.Writing.{write_bytes_writes, read_bytes-write_bytes, write_bytes_fails}

abbrev middle : List ℕ
middle = 2 ∷ 3 ∷ []

read_bytes_reads_example :
    (length middle ≡ 2)
    × ((i : ℕ)
        → i < 2
        → (b : ℕ) × (p : MemoryPermission) × (get_elem? middle i ≡ some b)
          × (cell two_blocks (17 + i) ≡ some (b, p))
          × (contains p permission_read ≡ true))
unfolding read_bytes
read_bytes_reads_example = read_bytes_reads 17 2 two_blocks two_blocks-IsValid refl

write_bytes_writes_example :
    let m' = memory_of (block 16 read_write (1 ∷ 7 ∷ 6 ∷ 4 ∷ []) 4 ∷ high_block ∷ []) in
    IsValid m' × ((a : ℕ) → cell m' a ≡ overwrite 17 (7 ∷ 6 ∷ []) a (cell two_blocks a))
unfolding write_bytes
write_bytes_writes_example =
    write_bytes_writes 17 (7 ∷ 6 ∷ []) two_blocks two_blocks-IsValid (omega arith) refl

read_bytes-write_bytes_example :
    read_bytes 17 2 (memory_of (block 16 read_write (1 ∷ 7 ∷ 6 ∷ 4 ∷ []) 4 ∷ high_block ∷ []))
    ≡ ok (7 ∷ 6 ∷ [])
unfolding write_bytes check_permission
read_bytes-write_bytes_example =
    read_bytes-write_bytes 17 (7 ∷ 6 ∷ []) two_blocks two_blocks-IsValid refl refl

write_bytes_fails_example :
    let e = permission 32 1 permission_write in
    (two_blocks ≡ two_blocks)
    × ((e ≡ unmapped 32 1) × (find_index two_blocks.map 32 1 ≡ none)
        ⊎ (e ≡ permission 32 1 permission_write)
          × ((r : MemoryRegion) × (region 32 1 two_blocks ≡ ok r)
              × (contains r.permissions permission_write ≡ false)))
unfolding write_bytes
write_bytes_fails_example = write_bytes_fails 32 (5 ∷ []) two_blocks refl
