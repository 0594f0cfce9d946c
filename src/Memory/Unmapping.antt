-- ===== src/Memory/Unmapping.antt =====
-- `unmap_range` and `unmap_region`.
use ruxeon.Common.{
  ℕ, ◌+◌, ◌≤◌, ◌<◌, ◌≡◌, ap, ◌∙◌, inl, inr, none, List, max, min, leb, ltb, ◌&&◌, if◌then◌else◌,
  Bool-cases, ok, arith,
}
use ruxeon.Common.Words.{u64_mod}
use ruxeon.Region.{MemoryRegion, end_of}
use ruxeon.Memory.{GuestMemory, part_before, part_after, trim, trim_all, sort_by_base, unmap_range}
use ruxeon.Memory.Layout.{
  IsRegion, IsLaid, IsValid, end, next, IsLaid-from, IsLaid-append, sort_by_base-IsLaid,
}
use ruxeon.Memory.Cells.{
  region_cell, region_cell-below, region_cell-above, cells, cell, cells-append,
}
use ruxeon.Memory.Parts.{part_before-IsLaid, part_after-IsLaid, cells-part_before, cells-part_after}

module _ (base stop : ℕ) where
  trim-IsLaid :
      {lo : ℕ} (r : MemoryRegion)
      → lo ≤ r.base
      → IsRegion r
      → IsLaid (end_of r) lo (trim base stop r)
  unfolding trim
  trim-IsLaid r p v = elim (Bool-cases (leb (min (end_of r) stop) (max r.base base))) [
    | inl apart ↦ rw apart (next p v (end (omega arith)))
    | inr meets ↦
        let x = max r.base base in
        let y = min (end_of r) stop in
        rw meets (
          IsLaid-from p (
            IsLaid-append (part_before-IsLaid r v x (omega arith) (ground arith))
              (IsLaid-from (ground arith) (part_after-IsLaid r v y (ground arith) (omega arith)))))
  ]

  cells-trim :
      (r : MemoryRegion) (a : ℕ)
      → IsRegion r
      → base < stop
      → cells (trim base stop r) a ≡ (if leb base a && ltb a stop then none else region_cell r a)
  unfolding trim
  cells-trim r a v h = elim (Bool-cases (leb (min (end_of r) stop) (max r.base base))) [
    | inl apart ↦
        unfold cells in ground (arith, v.positive, region_cell-below r a, region_cell-above r a v)
    | inr meets ↦ ground (
      arith,
      region_cell-below r a,
      region_cell-above r a v,
      cells-append (part_before r (max r.base base)) (part_after r (min (end_of r) stop)) a,
      cells-part_before r v (max r.base base) a,
      cells-part_after r v (min (end_of r) stop) a,
    )
  ]

  trim_all-IsLaid :
      {hi lo : ℕ} {rs : List MemoryRegion} → IsLaid hi lo rs → IsLaid hi lo (trim_all base stop rs)
  unfolding trim_all
  trim_all-IsLaid (end p) = end p
  trim_all-IsLaid (next {r} p v h) = IsLaid-append (trim-IsLaid r p v) (trim_all-IsLaid h)

  cells-trim_all :
      {hi lo : ℕ} {rs : List MemoryRegion} (a : ℕ)
      → IsLaid hi lo rs
      → base < stop
      → cells (trim_all base stop rs) a ≡ (if leb base a && ltb a stop then none else cells rs a)
  unfolding trim_all cells
  cells-trim_all a (end p) q = ground arith
  cells-trim_all a (next {r} {rs} p v h) q = ground (
    arith,
    cells-append (trim base stop r) (trim_all base stop rs) a,
    cells-trim r a v q,
    cells-trim_all a h q,
  )

unmap_range_inversion :
    (base size : ℕ) (m : GuestMemory) {m' : GuestMemory}
    → unmap_range base size m ≡ (ok tt, m')
    → (0 < size)
      × (base + size < u64_mod)
      × (m'.map.regions ≡ sort_by_base (trim_all base (base + size) m.map.regions))
unfolding unmap_range
unmap_range_inversion base size m h = ground arith

-- A successful `unmap_range` leaves a valid memory valid, with no byte in the range and every other
-- byte, with its permissions, as before.
pub unmap_range_unmaps :
    (base size : ℕ) (m : GuestMemory) {m' : GuestMemory}
    → IsValid m
    → unmap_range base size m ≡ (ok tt, m')
    → IsValid m'
      × ((a : ℕ) → cell m' a ≡ (if leb base a && ltb a (base + size) then none else cell m a))
unmap_range_unmaps base size m v h =
    let (positive, fits, result) = unmap_range_inversion base size m h in
    let laid = trim_all-IsLaid base (base + size) v in
    let same = result ∙ sort_by_base-IsLaid laid in
    (
      rw same laid,
      λ a. ap (λ rs. cells rs a) same ∙ cells-trim_all base (base + size) a v (omega arith),
    )
