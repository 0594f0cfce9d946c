-- ===== src/Memory/Protecting.antt =====
-- `protect`: the bytes of the range get other permissions, whatever regions that takes.
use ruxeon.Common.{
  ℕ, ◌+◌, ◌≤◌, ◌<◌, ◌≡◌, refl, sym, ap, ◌∙◌, inl, inr, none, some, Option, List, [], ◌∷◌, ◌++◌, leb,
  ltb, ◌&&◌, if◌then◌else◌, or_else, Option-cases, ok, err, arith,
}
use mathlib.Core.List.{append_assoc}
use mathlib.Core.Path.{subst}
use ruxeon.Region.{GuestMemoryError, unmapped, MemoryPermission, MemoryRegion, end_of}
use ruxeon.Memory.{
  GuestMemory, push, push_all, find_index, part_before, part_protected, part_after, protect,
}
use ruxeon.Memory.Layout.{
  IsRegion, IsLaid, IsValid, next, IsLaid-from, IsLaid-append, IsLaid-split, sort_by_base_push,
}
use ruxeon.Memory.Cells.{
  Cell, region_cell, region_cell-below, region_cell-inside, cells, cell, cells-append, cells-above,
}
use ruxeon.Memory.Parts.{
  part_before-IsLaid, part_after-IsLaid, part_protected-IsRegion, cells-part_before,
  cells-part_after, region_cell-part_protected,
}
use ruxeon.Memory.Holding.{IsHeld, find_index-IsHeld, IsLaid-IsRegion, IsLaid-replace}

-- A cell under other permissions.
abbrev pub repermit : MemoryPermission → Option Cell → Option Cell
repermit p none = none
repermit p (some (b, _)) = some (b, p)

IsLaid-skip :
    {hi : ℕ} (zs : List MemoryRegion) {ys : List MemoryRegion} {lo : ℕ}
    → IsLaid hi lo (zs ++ ys)
    → IsLaid hi lo ys
IsLaid-skip [] h = h
IsLaid-skip (z ∷ zs) (next p v h) = IsLaid-from (omega arith) (IsLaid-skip zs h)

IsLaid-keep :
    {hi : ℕ} (z : MemoryRegion) (zs xs ys : List MemoryRegion) {lo : ℕ}
    → IsLaid hi lo (xs ++ z ∷ (zs ++ ys))
    → IsLaid hi lo (xs ++ z ∷ ys)
IsLaid-keep z zs [] ys (next p v h) = next p v (IsLaid-skip zs h)
IsLaid-keep z zs (x ∷ xs) ys (next p v h) = next p v (IsLaid-keep z zs xs ys h)

-- Pushed one after the other, the pieces end up side by side where there is room for them.
push_all_place :
    {hi : ℕ} (zs xs ys : List MemoryRegion)
    → IsLaid hi 0 (xs ++ (zs ++ ys))
    → (push_all (record { regions = xs ++ ys }) zs).regions ≡ xs ++ (zs ++ ys)
unfolding push_all push
push_all_place [] xs ys l = refl
push_all_place {hi} (z ∷ zs) xs ys l =
    let e = sort_by_base_push z xs ys (IsLaid-keep z zs xs ys l) in
    let f = e ∙ sym (append_assoc xs (z ∷ []) ys) in
    let l' = subst (IsLaid hi 0) (sym (append_assoc xs (z ∷ []) (zs ++ ys))) l in
    ap (λ rs. (push_all (record { regions = rs }) zs).regions) f
    ∙ push_all_place zs (xs ++ z ∷ []) ys l'
    ∙ append_assoc xs (z ∷ []) (zs ++ ys)

-- The pieces into which `protect` cuts the region that holds its range.
module _ (base size : ℕ) (p : MemoryPermission) (r : MemoryRegion) where
  abbrev pieces : List MemoryRegion
  pieces = part_before r base ++ part_protected r base size p ∷ part_after r (base + size)

  module _ (v : IsRegion r) (positive : 0 < size) (above : r.base ≤ base)
      (below : base + size ≤ end_of r) where
    pieces-IsLaid : IsLaid (end_of r) r.base pieces
    unfolding part_protected
    pieces-IsLaid = IsLaid-append (part_before-IsLaid r v base above (omega arith)) (
        next (omega arith) (part_protected-IsRegion r v base size p positive above below)
          (part_after-IsLaid r v (base + size) (omega arith) below))

    cells-pieces :
        (a : ℕ)
        → cells pieces a ≡ (
            if leb base a && ltb a (base + size)
            then repermit p (region_cell r a)
            else region_cell r a)
    cells-pieces a =
        unfold cells in
        ground (
          arith,
          cells-append (part_before r base)
              (part_protected r base size p ∷ part_after r (base + size)) a,
          cells-part_before r v base a,
          cells-part_after r v (base + size) a,
          region_cell-part_protected r v base size p a,
          protected_below a,
          region_cell-inside r a v,
        )
      where
        protected_below : (a : ℕ) → a < base → region_cell (part_protected r base size p) a ≡ none
        protected_below a h =
            region_cell-below (part_protected r base size p) a (unfold part_protected in h)

protect_inversion :
    (base size : ℕ) (p : MemoryPermission) (m : GuestMemory) {m' : GuestMemory}
    → 0 < size
    → protect base size p m ≡ (ok tt, m')
    → (i : ℕ) × (f : IsHeld base size m i) × (m'.map
        ≡ push_all (record { regions = f.before ++ f.behind }) (pieces base size p f.found))
unfolding protect
protect_inversion base size p m z h = elim (Option-cases (find_index m.map base size)) [
  | inl missing ↦ absurd (ground (arith, h, missing))
  | inr (i, e) ↦
      let f = find_index-IsHeld base size m i e in
      (i, f, ground (arith, h, e, f.looked_up, f.removed, f.fits))
]

IsLaid-first :
    {hi lo : ℕ} {r : MemoryRegion} {rs : List MemoryRegion} → IsLaid hi lo (r ∷ rs) → lo ≤ r.base
IsLaid-first (next p v h) = p

-- Nothing that lies before a region reaches into it.
cells-before :
    {hi lo : ℕ} (r : MemoryRegion) (xs ys : List MemoryRegion) (a : ℕ)
    → IsLaid hi lo (xs ++ r ∷ ys)
    → r.base ≤ a
    → cells xs a ≡ none
cells-before r xs ys a h q =
    let (mid, front, back) = IsLaid-split xs h in
    cells-above a front (omega (arith, IsLaid-first back))

cells-protected :
    {hi lo : ℕ} (base size : ℕ) (p : MemoryPermission) (r : MemoryRegion)
    (xs ys : List MemoryRegion) (a : ℕ)
    → IsLaid hi lo (xs ++ r ∷ ys)
    → 0 < size
    → r.base ≤ base
    → base + size ≤ end_of r
    → cells (xs ++ (pieces base size p r ++ ys)) a ≡ (
        if leb base a && ltb a (base + size)
        then repermit p (cells (xs ++ r ∷ ys) a)
        else cells (xs ++ r ∷ ys) a)
cells-protected base size p r xs ys a h z above below =
    let w = (IsLaid-IsRegion r xs ys h).0 in
    ground (
      arith,
      cells-append xs (pieces base size p r ++ ys) a,
      cells-append (pieces base size p r) ys a,
      cells-append xs (r ∷ ys) a,
      cells-one r ys a,
      cells-pieces base size p r w z above below a,
      cells-before r xs ys a h,
      region_cell-inside r a w,
    )
  where
    cells-one :
        (r : MemoryRegion) (ys : List MemoryRegion) (a : ℕ)
        → cells (r ∷ ys) a ≡ or_else (region_cell r a) (cells ys a)
    cells-one r ys a = unfold cells in refl

-- A successful `protect` of a range that is not empty leaves a valid memory valid, with the same bytes
-- at the same addresses, under the new permissions in the range and under the old ones elsewhere.
pub protect_protects :
    (base size : ℕ) (p : MemoryPermission) (m : GuestMemory) {m' : GuestMemory}
    → IsValid m
    → 0 < size
    → protect base size p m ≡ (ok tt, m')
    → IsValid m'
      × ((a : ℕ)
          → cell m' a
            ≡ (if leb base a && ltb a (base + size) then repermit p (cell m a) else cell m a))
protect_protects base size p m v z h =
    let (i, f, e) = protect_inversion base size p m z h in
    let r = f.found in
    let laid : IsLaid _ 0 (f.before ++ r ∷ f.behind) = rw f.split at v in
    let w = (IsLaid-IsRegion r f.before f.behind laid).0 in
    let covers = pieces-IsLaid base size p r w z f.above f.below in
    let laid' = IsLaid-replace r (pieces base size p r) f.before f.behind laid covers in
    let placed =
      ap (λ map. map.regions) e ∙ push_all_place (pieces base size p r) f.before f.behind laid' in
    (
      rw placed laid',
      λ a.
          ap (λ rs. cells rs a) placed
          ∙ rw f.split (cells-protected base size p r f.before f.behind a laid z f.above f.below),
    )

-- `protect` is atomic: an error leaves the memory as it was. Such an error is `unmapped`, and no
-- single region holds the range.
pub protect_fails :
    (base size : ℕ) (p : MemoryPermission) (m : GuestMemory) {m' : GuestMemory}
    {e : GuestMemoryError}
    → protect base size p m ≡ (err e, m')
    → (m' ≡ m) × (e ≡ unmapped base size) × (find_index m.map base size ≡ none)
unfolding protect
protect_fails base size p m h = elim (Option-cases (find_index m.map base size)) [
  | inl missing ↦ ground (arith, h, missing)
  | inr (i, e) ↦
      let f = find_index-IsHeld base size m i e in
      absurd (ground (arith, h, e, f.looked_up, f.fits))
]
