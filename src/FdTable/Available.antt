-- ===== src/FdTable/Available.antt =====
-- crates/ruxeon-linux/src/lib.rs: the search of `next_available_from` for a free descriptor, which takes no more rounds
-- than there are entries.
use ruxeon.Common.{
  ℕ, zero, suc, ◌+◌, ◌^◌, ap, false, ◌≤◌, ◌<◌, ◌≡◌, ◌≢◌, inl, inr, none, some, [], ◌∷◌, length, leb,
  if◌then◌else◌, Option-cases, arith,
}
use ruxeon.Common.Dict.{Dict, nat_eq, get}
use ruxeon.FdTable.{FdTable, wrapping_next, scan, next_available_from}

module _ {V : Type 0} where
  -- The entries at a key or above it.
  count_from : ℕ → Dict ℕ V → ℕ
  count_from k [] = 0
  count_from k ((j, v) ∷ d) = if leb k j then suc (count_from k d) else count_from k d

  count_from-le : (k : ℕ) (d : Dict ℕ V) → count_from k d ≤ length d
  unfolding count_from
  count_from-le k [] = omega arith
  count_from-le k ((j, v) ∷ d) = ground (arith, count_from-le k d)

  count_from_next : (k : ℕ) (d : Dict ℕ V) → count_from (k + 1) d ≤ count_from k d
  unfolding count_from
  count_from_next k [] = omega arith
  count_from_next k ((j, v) ∷ d) = ground (arith, count_from_next k d)

  count_from_used :
      (k : ℕ) (d : Dict ℕ V) (v : V) → get k d ≡ some v → count_from (k + 1) d < count_from k d
  unfolding count_from get
  count_from_used k [] v h = absurd (ground (arith, h))
  count_from_used k ((j, w) ∷ d) v h = ground (arith, count_from_used k d v, count_from_next k d)

  -- The lowest key from `lo` on that the map does not hold, which is no higher than `top`.
  pub record IsLowest (d : Dict ℕ V) (lo top k : ℕ) : Type 0 where
    pub free : get k d ≡ none
    pub above : lo ≤ k
    pub taken : (j : ℕ) → lo ≤ j → j < k → get j d ≢ none
    pub near : k ≤ top

  -- Some key near `lo` is free.
  pub free_above :
      (d : Dict ℕ V) (lo : ℕ) → (k : ℕ) × (lo ≤ k) × (k ≤ lo + length d) × (get k d ≡ none)
  free_above d lo = search_up (length d) lo (count_from-le lo d)
    where
      search_up :
          (rounds lo : ℕ)
          → count_from lo d ≤ rounds
          → (k : ℕ) × (lo ≤ k) × (k ≤ lo + rounds) × (get k d ≡ none)
      search_up zero lo h = elim (Option-cases (get lo d)) [
        | inl unused ↦ (lo, omega arith, omega arith, unused)
        | inr (v, e) ↦ absurd (omega (arith, count_from_used lo d v e))
      ]
      search_up (suc rounds) lo h = elim (Option-cases (get lo d)) [
        | inl unused ↦ (lo, omega arith, omega arith, unused)
        | inr (v, e) ↦
            let (k, p, q, unused) =
              search_up rounds (lo + 1) (omega (arith, count_from_used lo d v e)) in
            (k, omega (arith, p), omega (arith, q), unused)
      ]

  -- Where a key below `top` is free, the search does not reach 2^32 and so does not wrap.
  scan-IsLowest_from :
      (d : Dict ℕ V) (rounds lo top : ℕ)
      → count_from lo d ≤ rounds
      → lo ≤ top
      → top < 2 ^ 32
      → get top d ≡ none
      → IsLowest d lo top (scan (λ k. get k d) rounds lo)
  unfolding scan
  scan-IsLowest_from d zero lo top h p q free = elim (Option-cases (get lo d)) [
    | inl unused ↦ record {
      free = unused;
      above = omega arith;
      taken = λ j p q. absurd (omega arith);
      near = p;
    }
    | inr (v, e) ↦ absurd (omega (arith, count_from_used lo d v e))
  ]
  scan-IsLowest_from d (suc rounds) lo top h p q free = elim (Option-cases (get lo d)) [
    | inl unused ↦
        rw (unused, scan)
          (record {
            free = unused;
            above = omega arith;
            taken = λ j p q. absurd (omega arith);
            near = p;
          })
    | inr (v, e) ↦
        let apart : lo ≢ top = ground (arith, e, free, ap (λ k. get k d)) in
        let up : wrapping_next lo ≡ lo + 1 = omega (arith, apart) in
        let r =
          scan-IsLowest_from d rounds (lo + 1) top (omega (arith, count_from_used lo d v e))
            (omega (arith, apart)) q free in
        rw (e, scan, up)
          (record {
            free = r.free;
            above = omega (arith, r.above);
            taken = λ j p q. ground (arith, r.taken j, e, next j);
            near = r.near;
          })
  ]
    where
      next : (j : ℕ) → lo ≤ j → lo ≢ j → lo + 1 ≤ j
      next j p q = omega arith

  pub scan-IsLowest :
      (d : Dict ℕ V) (lo top : ℕ)
      → lo ≤ top
      → top < 2 ^ 32
      → get top d ≡ none
      → IsLowest d lo top (scan (λ k. get k d) (length d) lo)
  scan-IsLowest d lo top = scan-IsLowest_from d (length d) lo top (count_from-le lo d)

module _ {File : Type 0} where
  -- Where some descriptor from the given one on is free, `next_available_from` returns the lowest such descriptor, within
  -- as many rounds as the table has entries.
  pub next_available_from-IsLowest :
      (t : FdTable File) (lo top : ℕ)
      → lo ≤ top
      → top < 2 ^ 31
      → get top t.entries ≡ none
      → IsLowest t.entries lo top (next_available_from t lo)
  unfolding next_available_from
  next_available_from-IsLowest t lo top p q free =
      let positive : leb (2 ^ 31) lo ≡ false = ground (arith, p, q) in
      rw positive (scan-IsLowest t.entries lo top p (omega (arith, q)) free)
