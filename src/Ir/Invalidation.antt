-- ===== src/Ir/Invalidation.antt =====
-- What `invalidate_range` leaves in the cache of blocks.
use ruxeon.Common.{
  ℕ, ◌+◌, ◌≤◌, ◌<◌, ◌≡◌, ◌⊎◌, inl, inr, refl, Bool, true, false, ◌&&◌, Option, none, some, [], ◌∷◌,
  length, leb, ltb, max, Bool-cases, arith,
}
use ruxeon.Common.Words.{u64_mod, saturating_add}
use ruxeon.Common.Dict
use ruxeon.Common.Dict.{Dict, nat_eq, IsMap, keep_if, get-retain}
use ruxeon.Ir.{BasicBlock, BlockCache, is_outside, invalidate_range}

length-retain :
    (p : ℕ → BasicBlock → Bool) (d : Dict ℕ BasicBlock) → length (Dict.retain p d) ≤ length d
unfolding Dict.retain
length-retain p [] = omega arith
length-retain p ((k, b) ∷ d) = ground (arith, length-retain p d)

keep_if-cases :
    (p : BasicBlock → Bool) (o : Option BasicBlock) {found : Option BasicBlock}
    → found ≡ keep_if p o
    → (found ≡ none) ⊎ (found ≡ o)
keep_if-cases p none h = inl h
keep_if-cases p (some block) h = elim (Bool-cases (p block)) [
  | inl keeps ↦ inr (ground (arith, h, keeps))
  | inr drops ↦ inl (ground (arith, h, drops))
]

-- Whether an address lies in a range, and in a block.
abbrev pub in_range : ℕ → ℕ → ℕ → Bool
in_range addr size a = leb addr a && ltb a (addr + size)

abbrev pub in_block : BasicBlock → ℕ → Bool
in_block block a = leb block.start_ip a && ltb a block.end_ip

-- What becomes of a block: it is gone and shares an address with the range, or it is kept and shares none.
abbrev pub IsInvalidated : ℕ → ℕ → BasicBlock → Option BasicBlock → Type 0
IsInvalidated addr size block found =
    (found ≡ none) × ((a : ℕ) × (in_range addr size a ≡ true) × (in_block block a ≡ true))
    ⊎ (found ≡ some block) × ((a : ℕ) → (in_range addr size a && in_block block a) ≡ false)

-- In a cache that holds no block twice, and for a range of at least one byte that ends within 64 bits: a block of at
-- least one byte is dropped by `invalidate_range` exactly where it shares an address with the range, and is kept as it is
-- otherwise; under every number there stands what stood there before, or nothing. The returned number is by how much the
-- cache has shrunk, which is what the count of invalidations grows by; hits and misses stay.
pub invalidate_range_lem :
    (addr size : ℕ) (c : BlockCache) (id : ℕ) (block : BasicBlock)
    → IsMap c.blocks
    → 0 < size
    → addr + size < u64_mod
    → Dict.get id c.blocks ≡ some block
    → block.start_ip < block.end_ip
    → let (removed, c') = invalidate_range addr size c in
      IsInvalidated addr size block (Dict.get id c'.blocks)
      × ((j : ℕ) → (Dict.get j c'.blocks ≡ none) ⊎ (Dict.get j c'.blocks ≡ Dict.get j c.blocks))
      × (length c'.blocks + removed ≡ length c.blocks)
      × (c'.invalidations ≡ c.invalidations + removed)
      × (c'.hits ≡ c.hits)
      × (c'.misses ≡ c.misses)
unfolding invalidate_range
invalidate_range_lem addr size c id block m positive h e filled =
    let stop : saturating_add addr size ≡ addr + size = ground (arith, h) in
    let fewer = length-retain (is_outside addr (saturating_add addr size)) c.blocks in
    let kept : (j : ℕ)
        → Dict.get j (Dict.retain (is_outside addr (saturating_add addr size)) c.blocks)
          ≡ keep_if (is_outside addr (addr + size) j) (Dict.get j c.blocks) =
      λ j. rw stop (get-retain j (is_outside addr (addr + size)) c.blocks m) in
    (
      elim (Bool-cases (is_outside addr (addr + size) id block)) [
        | inl outside ↦ inr (ground (arith, kept id, e, outside), λ a. ground (arith, outside))
        | inr meets ↦ inl (
          ground (arith, kept id, e, meets),
          (
            max addr block.start_ip,
            ground (arith, meets, filled, positive),
            ground (arith, meets, filled, positive),
          ),
        )
      ],
      (λ j. keep_if-cases _ (Dict.get j c.blocks) (kept j)),
      omega (arith, fewer),
      ground arith,
      refl,
      refl,
    )
