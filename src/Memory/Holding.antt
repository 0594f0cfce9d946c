-- ===== src/Memory/Holding.antt =====
-- The region that holds a range, as `find_index` finds it.
use ruxeon.Common.{
  [], ℕ, ◌+◌, ◌≤◌, ◌<◌, ◌≡◌, true, List, ◌++◌, ◌∷◌, some, remove_at, modify_at, get_elem?,
  get_elem?-middle, remove_at-middle, modify_at-middle, position-IsFound, arith,
}
use ruxeon.Common.Words.{u64_mod}
use ruxeon.Region.{MemoryRegion, end_of, contains_range}
use ruxeon.Memory.{GuestMemory, find_index}
use ruxeon.Memory.Layout.{IsRegion, IsLaid, next, IsLaid-le, IsLaid-from, IsLaid-append}

-- The region at an index, with its neighbours, holds the range.
pub record IsHeld (addr size : ℕ) (m : GuestMemory) (i : ℕ) : Type 0 where
  pub before : List MemoryRegion
  pub found : MemoryRegion
  pub behind : List MemoryRegion
  pub split : m.map.regions ≡ before ++ found ∷ behind
  pub above : found.base ≤ addr
  pub below : addr + size ≤ end_of found
  pub fits : addr + size < u64_mod
  pub looked_up : get_elem? m.map.regions i ≡ some found
  pub removed : remove_at i m.map.regions ≡ before ++ behind
  pub modified :
      (f : MemoryRegion → MemoryRegion) → modify_at i f m.map.regions ≡ before ++ f found ∷ behind

contains_range_bounds :
    (r : MemoryRegion) (addr size : ℕ)
    → contains_range r addr size ≡ true
    → (r.base ≤ addr) × (addr + size ≤ end_of r) × (addr + size < u64_mod)
contains_range_bounds r addr size h = ground arith

pub find_index-IsHeld :
    (addr size : ℕ) (m : GuestMemory) (i : ℕ)
    → find_index m.map addr size ≡ some i
    → IsHeld addr size m i
unfolding find_index
find_index-IsHeld addr size m i h =
    let f = position-IsFound (λ r. contains_range r addr size) m.map.regions i h in
    let (above, below, fits) = contains_range_bounds f.found addr size f.passes in
    record {
      before = f.before;
      found = f.found;
      behind = f.behind;
      split = f.split;
      above = above;
      below = below;
      fits = fits;
      looked_up = rw (f.split, ← f.index) (get_elem?-middle f.before f.found f.behind);
      removed = rw (f.split, ← f.index) (remove_at-middle f.before f.found f.behind);
      modified = λ g. rw (f.split, ← f.index) (modify_at-middle g f.before f.found f.behind);
    }

pub IsLaid-IsRegion :
    {hi : ℕ} (r : MemoryRegion) (xs ys : List MemoryRegion) {lo : ℕ}
    → IsLaid hi lo (xs ++ r ∷ ys)
    → IsRegion r × (end_of r ≤ hi)
IsLaid-IsRegion r [] ys (next p v h) = (v, IsLaid-le h)
IsLaid-IsRegion r (x ∷ xs) ys (next p v h) = IsLaid-IsRegion r xs ys h

-- A region may be put in the place of another that covers as much.
pub IsLaid-replace :
    {hi : ℕ} (r : MemoryRegion) (zs : List MemoryRegion) (xs ys : List MemoryRegion) {lo : ℕ}
    → IsLaid hi lo (xs ++ r ∷ ys)
    → IsLaid (end_of r) r.base zs
    → IsLaid hi lo (xs ++ (zs ++ ys))
IsLaid-replace r zs [] ys (next p v h) k = IsLaid-from p (IsLaid-append k h)
IsLaid-replace r zs (x ∷ xs) ys (next p v h) k = next p v (IsLaid-replace r zs xs ys h k)
