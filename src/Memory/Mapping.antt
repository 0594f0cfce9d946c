-- ===== src/Memory/Mapping.antt =====
-- `map_region`: where it succeeds and what it maps.
use Prim.Native.String.{String}
use ruxeon.Common.{
  ℕ, zero, suc, ◌+◌, ◌-◌, ◌≤◌, ◌<◌, ◌≡◌, refl, ap, ◌∙◌, ◌↔◌, inl, inr, false, ◌&&◌, Option, none,
  some, List, [], ◌∷◌, ◌++◌, max, length-replicate, get_elem?-replicate, replicate, leb, ltb,
  if◌then◌else◌, Bool-cases, any, ok, arith,
}
use ruxeon.Common.Words.{u64_mod, IsBytes}
use ruxeon.Region.{MemoryPermission, MemoryRegion, end_of, ranges_overlap}
use ruxeon.Memory.{GuestMemory, push, overlaps, map_region}
use ruxeon.Memory.Layout.{IsRegion, IsLaid, IsValid, end, next, sort_by_base_push}
use ruxeon.Memory.Cells.{
  region_cell, region_cell-below, cells, cell, cells_middle, region_cell-inside, region_cell-above,
}

-- The range is free of mappings.
abbrev pub IsFree : ℕ → ℕ → GuestMemory → Type 0
IsFree base size m = (a : ℕ) → base ≤ a → a < base + size → cell m a ≡ none

-- A region that overlaps no other has its place among them.
pub place :
    {hi lo : ℕ} (r : MemoryRegion) {rs : List MemoryRegion}
    → IsRegion r
    → lo ≤ r.base
    → end_of r ≤ hi
    → any (λ x. ranges_overlap r.base (end_of r) x.base (end_of x)) rs ≡ false
    → IsLaid hi lo rs
    → (xs ys : List MemoryRegion) × (rs ≡ xs ++ ys) × IsLaid hi lo (xs ++ r ∷ ys)
place r w p q o (end s) = ([], [], refl, next p w (end q))
place r w p q o (next {r = x} {rs} s v h) = elim (Bool-cases (leb (end_of r) x.base)) [
  | inl before ↦ ([], x ∷ rs, refl, next p w (next (ground arith) v h))
  | inr behind ↦
      let (xs, ys, e, l) = place r w (ground (arith, w.positive, v.positive)) q (ground arith) h in
      (x ∷ xs, ys, ap (λ t. x ∷ t) e, next s v l)
]

replicate-IsBytes : (n : ℕ) → IsBytes (replicate n 0)
replicate-IsBytes zero = tt
replicate-IsBytes (suc n) = (omega arith, replicate-IsBytes n)

-- The region that `map_region` adds.
abbrev zeroed : ℕ → ℕ → MemoryPermission → Option String → MemoryRegion
zeroed base size permissions name = record {
  base = base;
  size = size;
  permissions = permissions;
  name = name;
  contents = replicate size 0;
}

zeroed-IsRegion :
    (base size : ℕ) (p : MemoryPermission) (name : Option String)
    → 0 < size
    → IsRegion (zeroed base size p name)
zeroed-IsRegion base size p name h = record {
  positive = h;
  filled = length-replicate size 0;
  bytes = replicate-IsBytes size;
}

region_cell-zeroed :
    (base size : ℕ) (p : MemoryPermission) (name : Option String) (a : ℕ)
    → region_cell (zeroed base size p name) a
      ≡ (if leb base a && ltb a (base + size) then some (0, p) else none)
unfolding region_cell
region_cell-zeroed base size p name a =
    ground (arith, get_elem?-replicate {A = ℕ} size 0 (a - base))

map_region_inversion :
    (base size : ℕ) (p : MemoryPermission) (name : Option String) (m : GuestMemory)
    {m' : GuestMemory}
    → map_region base size p name m ≡ (ok tt, m')
    → (0 < size)
      × (base + size < u64_mod)
      × (overlaps m.map base size ≡ false)
      × (m' ≡ record { map = push m.map (zeroed base size p name) })
unfolding map_region
map_region_inversion base size p name m h = ground arith

push_place :
    {hi : ℕ} (r : MemoryRegion) (xs ys : List MemoryRegion) (m : GuestMemory)
    → m.map.regions ≡ xs ++ ys
    → IsLaid hi 0 (xs ++ r ∷ ys)
    → (push m.map r).regions ≡ xs ++ r ∷ ys
unfolding push
push_place r xs ys m e l = rw e (sort_by_base_push r xs ys l)

-- A successful `map_region` of a valid memory leaves a valid memory with zeros under the given
-- permissions in the range, and all else as before.
pub map_region_maps :
    (base size : ℕ) (p : MemoryPermission) (name : Option String) (m : GuestMemory)
    {m' : GuestMemory}
    → IsValid m
    → map_region base size p name m ≡ (ok tt, m')
    → IsValid m'
      × ((a : ℕ)
          → cell m' a ≡ (if leb base a && ltb a (base + size) then some (0, p) else cell m a))
unfolding overlaps
map_region_maps base size p name m v h =
    let (positive, fits, free, result) = map_region_inversion base size p name m h in
    let r = zeroed base size p name in
    let w = zeroed-IsRegion base size p name positive in
    let (xs, ys, e, l) = place r w (omega arith) (omega arith) free v in
    let pushed = ap (λ m. m.map.regions) result ∙ push_place r xs ys m e l in
    (
      rw pushed l,
      λ a.
          ap (λ rs. cells rs a) pushed
          ∙ ground (arith, cells_middle r xs ys a l, region_cell-zeroed base size p name a, e),
    )

overlaps_free :
    {hi lo : ℕ} (base size : ℕ) {rs : List MemoryRegion} (a : ℕ)
    → IsLaid hi lo rs
    → any (λ x. ranges_overlap base (base + size) x.base (end_of x)) rs ≡ false
    → base ≤ a
    → a < base + size
    → cells rs a ≡ none
unfolding cells
overlaps_free base size a (end p) o q s = refl
overlaps_free base size a (next {r} p v h) o q s = ground (
  arith,
  region_cell-below r a,
  region_cell-above r a v,
  overlaps_free base size a h (ground arith) q s,
)

free_overlaps :
    {hi lo : ℕ} (base size : ℕ) {rs : List MemoryRegion}
    → IsLaid hi lo rs
    → 0 < size
    → ((a : ℕ) → base ≤ a → a < base + size → cells rs a ≡ none)
    → any (λ x. ranges_overlap base (base + size) x.base (end_of x)) rs ≡ false
free_overlaps base size (end p) z f = refl
free_overlaps base size (next {r} {rs} p v h) z f =
    elim (Bool-cases (ranges_overlap base (base + size) r.base (end_of r))) [
      | inl meets ↦
          let a = max base r.base in
          let (b, _, e) = region_cell-inside r a v (omega arith) (ground (arith, v.positive)) in
          absurd (hit a b e (f a (omega arith) (ground (arith, v.positive))))
      | inr misses ↦ rw misses (free_overlaps base size h z λ a q s. rest a (f a q s))
    ]
  where
    hit : (a b : ℕ) → region_cell r a ≡ some (b, r.permissions) → cells (r ∷ rs) a ≡ none → ⊥
    hit a b e n = unfold cells in ground (arith, e, n)

    rest : (a : ℕ) → cells (r ∷ rs) a ≡ none → cells rs a ≡ none
    rest a n = unfold cells in ground (arith, n)

-- In a valid memory `map_region` succeeds exactly where the range is not empty, ends below 2^64 and is
-- free of mappings.
pub map_region_succeeds :
    (base size : ℕ) (p : MemoryPermission) (name : Option String) (m : GuestMemory)
    → IsValid m
    → ((map_region base size p name m).0 ≡ ok tt)
      ↔ ((0 < size) × (base + size < u64_mod) × IsFree base size m)
unfolding map_region overlaps
map_region_succeeds base size p name m v = (
  λ h. (ground arith, ground arith, λ a q s. overlaps_free base size a v (ground arith) q s),
  λ h. ground (arith, h.0, h.1, free_overlaps base size v h.0 h.2),
)
