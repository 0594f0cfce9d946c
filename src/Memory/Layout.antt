-- ===== src/Memory/Layout.antt =====
-- The regions of a memory: sorted, disjoint, below the top of the address space, each with as
-- many bytes as its size. Sorting after a push puts the new region where it belongs.
use ruxeon.Common.{ℕ, ◌-◌, ◌≤◌, ◌<◌, ◌≡◌, refl, ap, ◌∙◌, List, [], ◌∷◌, ◌++◌, length, arith}
use ruxeon.Common.Words.{u64_mod, IsBytes}
use ruxeon.Region.{MemoryRegion, end_of}
use ruxeon.Memory.{GuestMemory, insert_by_base, sort_by_base}

pub record IsRegion (r : MemoryRegion) : Type 0 where
  pub positive : 0 < r.size
  pub filled : length r.contents ≡ r.size
  pub bytes : IsBytes r.contents

-- The regions lie one behind another, from `lo` on and up to `hi`.
pub data IsLaid (hi : ℕ) : ℕ → List MemoryRegion → Type 0 where
  end : {lo : ℕ} → lo ≤ hi → IsLaid hi lo []
  next :
      {lo : ℕ} {r : MemoryRegion} {rs : List MemoryRegion}
      → lo ≤ r.base
      → IsRegion r
      → IsLaid hi (end_of r) rs
      → IsLaid hi lo (r ∷ rs)

abbrev pub IsValid : GuestMemory → Type 0
IsValid m = IsLaid (u64_mod - 1) 0 m.map.regions

pub IsLaid-le : {hi lo : ℕ} {rs : List MemoryRegion} → IsLaid hi lo rs → lo ≤ hi
IsLaid-le (end p) = p
IsLaid-le (next p v h) = omega (arith, IsLaid-le h)

pub IsLaid-from :
    {hi lo lo' : ℕ} {rs : List MemoryRegion} → lo' ≤ lo → IsLaid hi lo rs → IsLaid hi lo' rs
IsLaid-from q (end p) = end (omega arith)
IsLaid-from q (next p v h) = next (omega arith) v h

pub IsLaid-append :
    {mid hi lo : ℕ} {xs ys : List MemoryRegion}
    → IsLaid mid lo xs
    → IsLaid hi mid ys
    → IsLaid hi lo (xs ++ ys)
IsLaid-append (end p) k = IsLaid-from p k
IsLaid-append (next p v h) k = next p v (IsLaid-append h k)

pub IsLaid-split :
    {hi : ℕ} (xs : List MemoryRegion) {ys : List MemoryRegion} {lo : ℕ}
    → IsLaid hi lo (xs ++ ys)
    → (mid : ℕ) × IsLaid mid lo xs × IsLaid hi mid ys
IsLaid-split [] {lo = lo} h = (lo, end (omega arith), h)
IsLaid-split (x ∷ xs) (next p v h) = let (mid, a, b) = IsLaid-split xs h in (mid, next p v a, b)

-- Taking a region out leaves the others as they are.
pub IsLaid-remove :
    {hi : ℕ} (r : MemoryRegion) (xs ys : List MemoryRegion) {lo : ℕ}
    → IsLaid hi lo (xs ++ r ∷ ys)
    → IsLaid hi lo (xs ++ ys)
IsLaid-remove r [] ys (next p v h) = IsLaid-from (omega arith) h
IsLaid-remove r (x ∷ xs) ys (next p v h) = next p v (IsLaid-remove r xs ys h)

insert_by_base_first :
    {hi : ℕ} (r : MemoryRegion) {rs : List MemoryRegion}
    → IsLaid hi (end_of r) rs
    → insert_by_base r rs ≡ r ∷ rs
unfolding insert_by_base
insert_by_base_first r (end p) = refl
insert_by_base_first r (next p v h) = ground arith

pub sort_by_base-IsLaid :
    {hi lo : ℕ} {rs : List MemoryRegion} → IsLaid hi lo rs → sort_by_base rs ≡ rs
unfolding sort_by_base
sort_by_base-IsLaid (end p) = refl
sort_by_base-IsLaid (next {r} p v h) =
    ap (insert_by_base r) (sort_by_base-IsLaid h) ∙ insert_by_base_first r h

-- A region pushed behind the list ends where it lies in address order.
sort_by_base_last :
    {hi lo : ℕ} (r : MemoryRegion) {ys : List MemoryRegion}
    → IsRegion r
    → end_of r ≤ lo
    → IsLaid hi lo ys
    → sort_by_base (ys ++ r ∷ []) ≡ r ∷ ys
unfolding sort_by_base
sort_by_base_last r w q (end p) = refl
sort_by_base_last r w q (next {r = y} p v h) =
    ap (insert_by_base y) (sort_by_base_last r w (omega arith) h)
    ∙ ground (arith, w.positive, insert_by_base_first y h)

pub sort_by_base_push :
    {hi : ℕ} (r : MemoryRegion) (xs ys : List MemoryRegion) {lo : ℕ}
    → IsLaid hi lo (xs ++ r ∷ ys)
    → sort_by_base ((xs ++ ys) ++ r ∷ []) ≡ xs ++ r ∷ ys
unfolding sort_by_base
sort_by_base_push r [] ys (next p v h) = sort_by_base_last r v (omega arith) h
sort_by_base_push r (x ∷ xs) ys (next p v h) =
    ap (insert_by_base x) (sort_by_base_push r xs ys h) ∙ insert_by_base_first x h
