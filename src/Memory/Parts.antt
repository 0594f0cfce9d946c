-- ===== src/Memory/Parts.antt =====
-- The parts into which `protect` and `unmap_range` cut a region.
use ruxeon.Common.{
  ℕ, ◌+◌, ◌-◌, get_elem?, ◌≤◌, ◌<◌, ◌≡◌, inl, inr, none, drop, length-take, length-drop,
  get_elem?-take, get_elem?-drop, ltb, leb, if◌then◌else◌, Bool-cases, arith,
}
use ruxeon.Common.Words.{IsBytes-take, IsBytes-drop}
use ruxeon.Region.{MemoryRegion, MemoryPermission, end_of}
use ruxeon.Memory.{part_before, part_protected, part_after}
use ruxeon.Memory.Layout.{IsRegion, IsLaid, end, next}
use ruxeon.Memory.Cells.{with_permissions, region_cell, region_cell-above, cells}

module _ (r : MemoryRegion) (v : IsRegion r) where
  pub part_before-IsLaid :
      (at : ℕ) → r.base ≤ at → at ≤ end_of r → IsLaid at r.base (part_before r at)
  unfolding part_before
  part_before-IsLaid at p q = elim (Bool-cases (ltb 0 (at - r.base))) [
    | inl some_bytes ↦ rw some_bytes (
        next (omega arith)
          (record {
            positive = ground arith;
            filled = omega (arith, v.filled, length-take (at - r.base) r.contents);
            bytes = IsBytes-take (at - r.base) r.contents v.bytes;
          })
          (end (omega arith)))
    | inr no_bytes ↦ rw no_bytes (end p)
  ]

  pub part_after-IsLaid :
      (at : ℕ) → r.base ≤ at → at ≤ end_of r → IsLaid (end_of r) at (part_after r at)
  unfolding part_after
  part_after-IsLaid at p q = elim (Bool-cases (ltb 0 (end_of r - at))) [
    | inl some_bytes ↦ rw some_bytes (
        next (omega arith)
          (record {
            positive = ground arith;
            filled = omega (arith, v.filled, length-drop (at - r.base) r.contents);
            bytes = IsBytes-drop (at - r.base) r.contents v.bytes;
          })
          (end (omega arith)))
    | inr no_bytes ↦ rw no_bytes (end q)
  ]

  pub part_protected-IsRegion :
      (base size : ℕ) (p : MemoryPermission)
      → 0 < size
      → r.base ≤ base
      → base + size ≤ end_of r
      → IsRegion (part_protected r base size p)
  unfolding part_protected
  part_protected-IsRegion base size p h below above = record {
    positive = h;
    filled = omega (
      arith,
      v.filled,
      length-take size (drop (base - r.base) r.contents),
      length-drop (base - r.base) r.contents,
    );
    bytes =
        IsBytes-take size (drop (base - r.base) r.contents)
          (IsBytes-drop (base - r.base) r.contents v.bytes);
  }

  pub cells-part_before :
      (at a : ℕ)
      → r.base ≤ at
      → cells (part_before r at) a ≡ (if ltb a at then region_cell r a else none)
  unfolding part_before cells
  cells-part_before at a p = ground (arith, get_elem?-take (at - r.base) r.contents (a - r.base))

  pub cells-part_after :
      (at a : ℕ)
      → r.base ≤ at
      → cells (part_after r at) a ≡ (if leb at a then region_cell r a else none)
  unfolding part_after cells
  cells-part_after at a p =
      ground (arith, get_elem?-drop (at - r.base) r.contents (a - at), region_cell-above r a v)

  -- The protected part has the same bytes under the new permissions.
  pub region_cell-part_protected :
      (base size : ℕ) (p : MemoryPermission) (a : ℕ)
      → r.base ≤ base
      → base ≤ a
      → region_cell (part_protected r base size p) a ≡ (
          if ltb a (base + size)
          then with_permissions p (get_elem? r.contents (a - r.base))
          else none)
  unfolding part_protected region_cell
  region_cell-part_protected base size p a h k = ground (
    arith,
    get_elem?-take size (drop (base - r.base) r.contents) (a - base),
    get_elem?-drop (base - r.base) r.contents (a - base),
  )
