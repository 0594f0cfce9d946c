-- ===== src/Access/Reading.antt =====
-- Reads return the bytes of the range, all of them readable.
use ruxeon.Common.{
  ℕ, ◌+◌, ◌-◌, ◌≤◌, ◌<◌, ◌≡◌, true, inl, inr, ◌∙◌, some, List, length, drop, length-take,
  length-drop, get_elem?, get_elem?-take, get_elem?-drop, Option-cases, Option, or_else,
  Result-cases, ap, ◌++◌, ◌∷◌, ok, arith,
}
use ruxeon.Region.{MemoryPermission, permission_read, MemoryRegion, end_of, offset, contains}
use ruxeon.Memory.{GuestMemory, find_index}
use ruxeon.Memory.Layout.{IsRegion, IsLaid, IsValid}
use ruxeon.Memory.Cells.{Cell, region_cell, region_cell-inside, cells, cell, cells_middle}
use ruxeon.Memory.Holding.{IsHeld, find_index-IsHeld, IsLaid-IsRegion}
use ruxeon.Access.{region, check_permission, slice_at, read_bytes}

-- A region that `region` returns is one of the memory's, and holds the range.
pub record IsLookup (addr size : ℕ) (m : GuestMemory) (r : MemoryRegion) : Type 0 where
  pub index : ℕ
  pub held : IsHeld addr size m index
  pub same : held.found ≡ r

pub region-IsLookup :
    (addr size : ℕ) (m : GuestMemory) (r : MemoryRegion)
    → region addr size m ≡ ok r
    → IsLookup addr size m r
unfolding region
region-IsLookup addr size m r h = elim (Option-cases (find_index m.map addr size)) [
  | inl missing ↦ absurd (ground (arith, h, missing))
  | inr (i, e) ↦
      let f = find_index-IsHeld addr size m i e in
      record { index = i; held = f; same = ground (arith, h, e, f.looked_up) }
]

read_bytes_inversion :
    (addr size : ℕ) (m : GuestMemory) {bytes : List ℕ}
    → read_bytes addr size m ≡ ok bytes
    → (r : MemoryRegion) × (region addr size m ≡ ok r)
      × (contains r.permissions permission_read ≡ true)
      × (bytes ≡ slice_at r addr size)
unfolding read_bytes check_permission
read_bytes_inversion addr size m h = elim (Result-cases (region addr size m)) [
  | inr (e, missing) ↦ absurd (ground (arith, h, missing))
  | inl (r, e) ↦ (r, e, ground (arith, h, e), ground (arith, h, e))
]

-- What a lookup says of the cells: the bytes of the region, under its permissions.
pub slice_at-cells :
    (addr size : ℕ) (m : GuestMemory) (r : MemoryRegion)
    → IsValid m
    → IsLookup addr size m r
    → (length (slice_at r addr size) ≡ size)
      × ((i : ℕ)
          → i < size
          → (b : ℕ) × (get_elem? (slice_at r addr size) i ≡ some b)
            × (cell m (addr + i) ≡ some (b, r.permissions)))
slice_at-cells addr size m r v k =
    let f = k.held in
    let laid : IsLaid _ 0 (f.before ++ f.found ∷ f.behind) = rw f.split at v in
    let w = (IsLaid-IsRegion f.found f.before f.behind laid).0 in
    let above : r.base ≤ addr = rw (← k.same) f.above in
    let below : addr + size ≤ end_of r = rw (← k.same) f.below in
    let w' : IsRegion r = rw k.same at w in
    (
      omega (
        arith,
        w'.filled,
        length-take size (drop (offset r addr) r.contents),
        length-drop (offset r addr) r.contents,
      ),
      λ i q.
          let (b, e, c) = region_cell-inside r (addr + i) w' (omega arith) (omega arith) in
          (
            b,
            ground (
              arith,
              e,
              get_elem?-take size (drop (offset r addr) r.contents) i,
              get_elem?-drop (offset r addr) r.contents i,
              shift r.base addr i above,
            ),
            ap (λ rs. cells rs (addr + i)) f.split
                ∙ cells_middle f.found f.before f.behind (addr + i) laid
                ∙ first _ (ap (λ x. region_cell x (addr + i)) k.same ∙ c),
          ),
    )
  where
    shift : (base addr i : ℕ) → base ≤ addr → addr + i - base ≡ addr - base + i
    shift base addr i h = omega arith

    first : {c : Cell} {x : Option Cell} (y : Option Cell) → x ≡ some c → or_else x y ≡ some c
    first y e = ground (arith, e)

-- A successful read of a valid memory returns as many bytes as asked for; each is the byte at its
-- address, and is readable there.
pub read_bytes_reads :
    (addr size : ℕ) (m : GuestMemory) {bytes : List ℕ}
    → IsValid m
    → read_bytes addr size m ≡ ok bytes
    → (length bytes ≡ size)
      × ((i : ℕ)
          → i < size
          → (b : ℕ) × (p : MemoryPermission) × (get_elem? bytes i ≡ some b)
            × (cell m (addr + i) ≡ some (b, p))
            × (contains p permission_read ≡ true))
read_bytes_reads addr size m v h =
    let (r, e, readable, result) = read_bytes_inversion addr size m h in
    let (long, each) = slice_at-cells addr size m r v (region-IsLookup addr size m r e) in
    (
      ap length result ∙ long,
      λ i q.
          let (b, at, c) = each i q in
          (b, r.permissions, ap (λ bs. get_elem? bs i) result ∙ at, c, readable),
    )
