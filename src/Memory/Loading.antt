-- ===== src/Memory/Loading.antt =====
-- `load_bytes`: the bytes of the range are replaced, the permissions stay.
use ruxeon.Common.{
  ℕ, get_elem?-some, modify_at, ◌+◌, ◌-◌, ◌≤◌, ◌≡◌, ap, ◌∙◌, inl, inr, none, some, Option, List, [],
  ◌∷◌, ◌++◌, length, take, drop, get_elem?, length-append, length-take, length-drop,
  get_elem?-append, get_elem?-take, get_elem?-drop, leb, ltb, ◌&&◌, if◌then◌else◌, Option-cases, ok,
  arith,
}
use ruxeon.Common.Words.{IsBytes, IsBytes-take, IsBytes-drop, IsBytes-append}
use ruxeon.Region.{MemoryRegion, end_of, offset}
use ruxeon.Memory.{GuestMemory, find_index, copy_into, load_into, load_bytes}
use ruxeon.Memory.Layout.{IsRegion, IsLaid, IsValid, end, next}
use ruxeon.Memory.Cells.{
  Cell, with_permissions, region_cell, region_cell-inside, cells, cell, cells_middle,
}
use ruxeon.Memory.Holding.{IsHeld, find_index-IsHeld, IsLaid-IsRegion, IsLaid-replace}

-- The bytes at `addr` written over a cell, which keeps its permissions.
abbrev pub overwrite : ℕ → List ℕ → ℕ → Option Cell → Option Cell
overwrite addr bytes a c =
    if leb addr a && ltb a (addr + length bytes)
    then elim c [ none ↦ none | some (_, p) ↦ with_permissions p (get_elem? bytes (a - addr)) ]
    else c

length-copy_into :
    (at : ℕ) (bytes xs : List ℕ)
    → at + length bytes ≤ length xs
    → length (copy_into at bytes xs) ≡ length xs
length-copy_into at bytes xs h = omega (
  arith,
  length-append (take at xs) (bytes ++ drop (at + length bytes) xs),
  length-append bytes (drop (at + length bytes) xs),
  length-take at xs,
  length-drop (at + length bytes) xs,
)

get_elem?-copy_into :
    (at : ℕ) (bytes xs : List ℕ) (i : ℕ)
    → at + length bytes ≤ length xs
    → get_elem? (copy_into at bytes xs) i
      ≡ (if leb at i && ltb i (at + length bytes) then get_elem? bytes (i - at) else get_elem? xs i)
get_elem?-copy_into at bytes xs i h = ground (
  arith,
  get_elem?-append (take at xs) (bytes ++ drop (at + length bytes) xs) i,
  get_elem?-append bytes (drop (at + length bytes) xs) (i - at),
  length-take at xs,
  get_elem?-take at xs i,
  get_elem?-drop (at + length bytes) xs (i - at - length bytes),
)

module _ (addr : ℕ) (bytes : List ℕ) (r : MemoryRegion) (v : IsRegion r) where
  load_into-IsRegion :
      r.base ≤ addr
      → addr + length bytes ≤ end_of r
      → IsBytes bytes
      → IsRegion (load_into addr bytes r)
  load_into-IsRegion p q b = record {
    positive = v.positive;
    filled = length-copy_into (offset r addr) bytes r.contents (omega (arith, v.filled)) ∙ v.filled;
    bytes =
        IsBytes-append _ _ (IsBytes-take (offset r addr) r.contents v.bytes)
          (IsBytes-append _ _ b (IsBytes-drop (offset r addr + length bytes) r.contents v.bytes));
  }

  region_cell-load_into :
      (a : ℕ)
      → r.base ≤ addr
      → addr + length bytes ≤ end_of r
      → region_cell (load_into addr bytes r) a ≡ overwrite addr bytes a (region_cell r a)
  unfolding region_cell
  region_cell-load_into a p q = ground (
    arith,
    v.filled,
    get_elem?-copy_into (offset r addr) bytes r.contents (a - r.base) (omega (arith, v.filled)),
    region_cell-inside r a v,
  )

load_bytes_inversion :
    (addr : ℕ) (bytes : List ℕ) (m : GuestMemory) {m' : GuestMemory}
    → load_bytes addr bytes m ≡ (ok tt, m')
    → (i : ℕ) × IsHeld addr (length bytes) m i
      × (m'.map.regions ≡ modify_at i (load_into addr bytes) m.map.regions)
unfolding load_bytes
load_bytes_inversion addr bytes m h = elim (Option-cases (find_index m.map addr (length bytes))) [
  | inl missing ↦ absurd (ground (arith, h, missing))
  | inr (i, e) ↦ (i, find_index-IsHeld addr (length bytes) m i e, ground (arith, h, e))
]

-- A successful `load_bytes` leaves a valid memory valid: the bytes of the range are the given ones,
-- under the permissions that were there, and all other cells are as before.
pub load_bytes_loads :
    (addr : ℕ) (bytes : List ℕ) (m : GuestMemory) {m' : GuestMemory}
    → IsValid m
    → IsBytes bytes
    → load_bytes addr bytes m ≡ (ok tt, m')
    → IsValid m' × ((a : ℕ) → cell m' a ≡ overwrite addr bytes a (cell m a))
load_bytes_loads addr bytes m v b h =
    let (i, f, e) = load_bytes_inversion addr bytes m h in
    let r = f.found in
    let r' = load_into addr bytes r in
    let laid : IsLaid _ 0 (f.before ++ r ∷ f.behind) = rw f.split at v in
    let w = (IsLaid-IsRegion r f.before f.behind laid).0 in
    let w' = load_into-IsRegion addr bytes r w f.above f.below b in
    let laid' =
      IsLaid-replace r (r' ∷ []) f.before f.behind laid
        (next (omega arith) w' (end (omega arith))) in
    let result = e ∙ f.modified (load_into addr bytes) in
    (
      rw result laid',
      λ a.
          ap (λ rs. cells rs a) result
          ∙ ground (
            arith,
            f.split,
            cells_middle r f.before f.behind a laid,
            cells_middle r' f.before f.behind a laid',
            region_cell-load_into addr bytes r w a f.above f.below,
            region_cell-inside r a w,
            get_elem?-some bytes (a - addr),
          ),
    )
