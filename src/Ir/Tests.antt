-- ===== src/Ir/Tests.antt =====
-- The cache of blocks at a concrete input.
use ruxeon.Common.{ℕ, ◌≡◌, ◌⊎◌, none, refl, ◌+◌, [], ◌∷◌, length, arith}
use ruxeon.Common.Dict
use ruxeon.Common.Dict.{nat_eq}
use ruxeon.Ir.{BasicBlock, BlockCache, fall_through, invalidate_range}
use ruxeon.Ir.Invalidation.{IsInvalidated, invalidate_range_lem}

abbrev block : ℕ → ℕ → BasicBlock
block from to = record {
  id = from;
  start_ip = from;
  end_ip = to;
  instructions = [];
  terminator = fall_through;
}

abbrev two : BlockCache
two = record {
  blocks = (16, block 16 20) ∷ (32, block 32 40) ∷ [];
  hits = 3;
  misses = 1;
  invalidations = 0;
}

abbrev one : BlockCache
one = record { blocks = (16, block 16 20) ∷ []; hits = 3; misses = 1; invalidations = 1 }

two-IsMap : Dict.IsMap two.blocks
unfolding Dict.get
two-IsMap = (refl, (refl, tt))

invalidate_range_lem_example :
    IsInvalidated 36 8 (block 32 40) none
    × ((j : ℕ) → (Dict.get j one.blocks ≡ none) ⊎ (Dict.get j one.blocks ≡ Dict.get j two.blocks))
    × (length one.blocks + 1 ≡ length two.blocks)
    × (one.invalidations ≡ two.invalidations + 1)
    × (one.hits ≡ two.hits)
    × (one.misses ≡ two.misses)
unfolding invalidate_range Dict.retain Dict.get
invalidate_range_lem_example =
    invalidate_range_lem 36 8 two 32 (block 32 40) two-IsMap (omega arith) (omega arith) refl
      (omega arith)
