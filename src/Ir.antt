-- ===== src/Ir.antt =====
-- crates/ruxeon-ir/src/lib.rs: basic blocks and `BlockCache`. The counters are not bounded here; the source keeps
-- them in 64 bits.
pub mod Invalidation
mod Tests
use Prim.Native.String.{String}
use ruxeon.Common.{
  ℕ, ◌+◌, ◌-◌, Bool, not, ◌||◌, Option, none, some, List, [], ◌∷◌, length, ltb, leb, if◌then◌else◌,
}
use ruxeon.Common.Words.{saturating_add}
use ruxeon.Common.Dict
use ruxeon.Common.Dict.{Dict, nat_eq}

pub data IrInstructionKind : Type 0 where
  compute branch call return syscall : IrInstructionKind

pub record IrInstruction : Type 0 where
  pub ip : ℕ
  pub len : ℕ
  pub text : String
  pub kind : IrInstructionKind

abbrev pub end_ip_of : IrInstruction → ℕ
end_ip_of i = i.ip + i.len

pub data BlockTerminator : Type 0 where
  fall_through branch call return syscall : BlockTerminator

-- A `BasicBlockId` is the number that it wraps.
pub record BasicBlock : Type 0 where
  pub id : ℕ
  pub start_ip : ℕ
  pub end_ip : ℕ
  pub instructions : List IrInstruction
  pub terminator : BlockTerminator

-- The end of the last instruction, or the given address where there is none.
unfoldable pub last_end : ℕ → List IrInstruction → ℕ
last_end ip [] = ip
last_end ip (i ∷ rest) = last_end (end_ip_of i) rest

unfoldable pub new_block : ℕ → List IrInstruction → BlockTerminator → BasicBlock
unfolding last_end
new_block start_ip instructions terminator = record {
  id = start_ip;
  start_ip = start_ip;
  end_ip = last_end start_ip instructions;
  instructions = instructions;
  terminator = terminator;
}

pub record BlockCacheStats : Type 0 where
  pub blocks : ℕ
  pub hits : ℕ
  pub misses : ℕ
  pub invalidations : ℕ

pub record BlockCache : Type 0 where
  pub blocks : Dict ℕ BasicBlock
  pub hits : ℕ
  pub misses : ℕ
  pub invalidations : ℕ

unfoldable pub get : ℕ → BlockCache → Option BasicBlock × BlockCache
get id c = elim (Dict.get id c.blocks) [
  | some block ↦ (some block, record c { hits = c.hits + 1 })
  | none ↦ (none, record c { misses = c.misses + 1 })
]

unfoldable pub insert : BasicBlock → BlockCache → BlockCache
insert block c = record c { blocks = Dict.insert block.id block c.blocks }

abbrev pub get_without_stats : ℕ → BlockCache → Option BasicBlock
get_without_stats id c = Dict.get id c.blocks

-- A block is kept where its range does not meet `[addr, stop)`.
abbrev pub is_outside : ℕ → ℕ → ℕ → BasicBlock → Bool
is_outside addr stop id block = leb block.end_ip addr || leb stop block.start_ip

unfoldable pub invalidate_range : ℕ → ℕ → BlockCache → ℕ × BlockCache
invalidate_range addr size c =
    let stop = saturating_add addr size in
    let kept = Dict.retain (is_outside addr stop) c.blocks in
    let removed = length c.blocks - length kept in
    (
      removed,
      record c {
        blocks = kept;
        invalidations = if ltb 0 removed then c.invalidations + removed else c.invalidations;
      },
    )

unfoldable pub clear : BlockCache → BlockCache
clear c =
    let count = length c.blocks in
    record c {
      blocks = [];
      invalidations = if ltb 0 count then c.invalidations + count else c.invalidations;
    }

unfoldable pub stats : BlockCache → BlockCacheStats
stats c = record {
  blocks = length c.blocks;
  hits = c.hits;
  misses = c.misses;
  invalidations = c.invalidations;
}
