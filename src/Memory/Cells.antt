-- ===== src/Memory/Cells.antt =====
-- A memory as a partial function from addresses to bytes with their permissions: what the guest
-- can observe, with the cut into regions forgotten.
use ruxeon.Common.{
  ℕ, ◌-◌, ◌≤◌, ◌<◌, ◌≡◌, refl, inl, inr, Option, none, some, List, [], ◌∷◌, ◌++◌, get_elem?,
  get_elem?-none, get_elem?-some, leb, ltb, if◌then◌else◌, or_else, Bool-cases, arith,
}
use ruxeon.Region.{MemoryPermission, MemoryRegion, end_of}
use ruxeon.Memory.{GuestMemory}
use ruxeon.Memory.Layout.{IsRegion, IsLaid, end, next, IsLaid-le}

abbrev pub Cell : Type 0
Cell = ℕ × MemoryPermission

abbrev pub with_permissions : MemoryPermission → Option ℕ → Option Cell
with_permissions p none = none
with_permissions p (some b) = some (b, p)

unfoldable pub region_cell : MemoryRegion → ℕ → Option Cell
region_cell r a =
    if leb r.base a
    then with_permissions r.permissions (get_elem? r.contents (a - r.base))
    else none

unfoldable pub cells : List MemoryRegion → ℕ → Option Cell
unfolding region_cell
cells [] a = none
cells (r ∷ rs) a = or_else (region_cell r a) (cells rs a)

abbrev pub cell : GuestMemory → ℕ → Option Cell
cell m = cells m.map.regions

pub cells-append :
    (xs ys : List MemoryRegion) (a : ℕ) → cells (xs ++ ys) a ≡ or_else (cells xs a) (cells ys a)
unfolding cells
cells-append [] ys a = refl
cells-append (x ∷ xs) ys a = ground (arith, cells-append xs ys a)

pub region_cell-below : (r : MemoryRegion) (a : ℕ) → a < r.base → region_cell r a ≡ none
unfolding region_cell
region_cell-below r a h = ground arith

pub region_cell-above :
    (r : MemoryRegion) (a : ℕ) → IsRegion r → end_of r ≤ a → region_cell r a ≡ none
unfolding region_cell
region_cell-above r a v h =
    ground (arith, v.filled, get_elem?-none r.contents (a - r.base) (omega (arith, v.filled)))

-- Every address of a region has a byte.
pub region_cell-inside :
    (r : MemoryRegion) (a : ℕ)
    → IsRegion r
    → r.base ≤ a
    → a < end_of r
    → (b : ℕ) × (get_elem? r.contents (a - r.base) ≡ some b)
      × (region_cell r a ≡ some (b, r.permissions))
unfolding region_cell
region_cell-inside r a v p q =
    let (b, e) = get_elem?-some r.contents (a - r.base) (omega (arith, v.filled)) in
    (b, e, ground (arith, e))

pub cells-below :
    {hi lo : ℕ} {rs : List MemoryRegion} (a : ℕ) → IsLaid hi lo rs → a < lo → cells rs a ≡ none
unfolding cells
cells-below a (end p) q = refl
cells-below a (next {r} p v h) q =
    ground (arith, region_cell-below r a, cells-below a h (omega arith))

pub cells-above :
    {hi lo : ℕ} {rs : List MemoryRegion} (a : ℕ) → IsLaid hi lo rs → hi ≤ a → cells rs a ≡ none
unfolding cells
cells-above a (end p) q = refl
cells-above a (next {r} p v h) q =
    ground (arith, region_cell-above r a v, IsLaid-le h, cells-above a h q)

IsLaid-base :
    {hi : ℕ} (r : MemoryRegion) (xs ys : List MemoryRegion) {lo : ℕ}
    → IsLaid hi lo (xs ++ r ∷ ys)
    → lo ≤ r.base
IsLaid-base r [] ys (next p v h) = p
IsLaid-base r (x ∷ xs) ys (next p v h) = omega (arith, v.positive, IsLaid-base r xs ys h)

-- A region may be read first, wherever it lies in the list.
pub cells_middle :
    {hi : ℕ} (r : MemoryRegion) (xs ys : List MemoryRegion) {lo : ℕ} (a : ℕ)
    → IsLaid hi lo (xs ++ r ∷ ys)
    → cells (xs ++ r ∷ ys) a ≡ or_else (region_cell r a) (cells (xs ++ ys) a)
unfolding cells
cells_middle r [] ys a h = refl
cells_middle r (x ∷ xs) ys a (next p v h) = elim (Bool-cases (ltb a (end_of x))) [
  | inl inside ↦
      ground (arith, cells_middle r xs ys a h, IsLaid-base r xs ys h, region_cell-below r a)
  | inr outside ↦ ground (arith, cells_middle r xs ys a h, region_cell-above x a v)
]
