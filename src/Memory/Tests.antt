-- ===== src/Memory/Tests.antt =====
-- The theorems on the memory map at concrete inputs.
use ruxeon.Common.{
  ◌+◌, ◌<◌, ◌≡◌, refl, ◌↔◌, none, some, [], ◌∷◌, ltb, leb, ◌&&◌, if◌then◌else◌, ok, arith,
}
use ruxeon.Common.Words.{u64_mod}
use ruxeon.Region.{unmapped}
use ruxeon.Memory.{map_region, unmap_range, protect, find_index}
use ruxeon.Memory.Layout.{IsValid}
use ruxeon.Memory.Cells.{cell}
use ruxeon.Memory.Mapping.{IsFree, map_region_maps, map_region_succeeds}
use ruxeon.Memory.Unmapping.{unmap_range_unmaps}
use ruxeon.Memory.Protecting.{repermit, protect_protects, protect_fails}
use ruxeon.Memory.Samples.{
  read_write, read_only, block, memory_of, low_block, high_block, two_blocks, two_blocks-IsValid,
}

map_region_maps_example :
    let m' = memory_of (low_block ∷ block 20 read_only (0 ∷ 0 ∷ 0 ∷ []) 3 ∷ high_block ∷ []) in
    IsValid m'
    × ((a : _)
        → cell m' a
          ≡ (if leb 20 a && ltb a (20 + 3) then some (0, read_only) else cell two_blocks a))
unfolding map_region
map_region_maps_example = map_region_maps 20 3 read_only none two_blocks two_blocks-IsValid refl

map_region_succeeds_example :
    ((map_region 18 3 read_only none two_blocks).0 ≡ ok tt)
    ↔ ((0 < 3) × (18 + 3 < u64_mod) × IsFree 18 3 two_blocks)
map_region_succeeds_example = map_region_succeeds 18 3 read_only none two_blocks two_blocks-IsValid

unmap_range_unmaps_example :
    let m' =
      memory_of
        (block 16 read_write (1 ∷ []) 1 ∷ block 19 read_write (4 ∷ []) 1 ∷ high_block ∷ []) in
    IsValid m'
    × ((a : _) → cell m' a ≡ (if leb 17 a && ltb a (17 + 2) then none else cell two_blocks a))
unfolding unmap_range
unmap_range_unmaps_example = unmap_range_unmaps 17 2 two_blocks two_blocks-IsValid refl

protect_protects_example :
    let m' = memory_of (
      block 16 read_write (1 ∷ []) 1
      ∷ block 17 read_only (2 ∷ 3 ∷ []) 2
      ∷ block 19 read_write (4 ∷ []) 1
      ∷ high_block
      ∷ []) in
    IsValid m'
    × ((a : _)
        → cell m' a ≡ (
            if leb 17 a && ltb a (17 + 2)
            then repermit read_only (cell two_blocks a)
            else cell two_blocks a))
unfolding protect
protect_protects_example =
    protect_protects 17 2 read_only two_blocks two_blocks-IsValid (omega arith) refl

protect_fails_example :
    (two_blocks ≡ two_blocks)
    × (unmapped 19 2 ≡ unmapped 19 2)
    × (find_index two_blocks.map 19 2 ≡ none)
unfolding protect
protect_fails_example = protect_fails 19 2 read_only two_blocks refl
