-- ===== src/Memory.antt =====
-- crates/ruxeon-core/src/memory.rs: `MemoryMap` and `GuestMemory`. An operation that takes
-- `&mut self` returns its result and the new memory, since what it changed before an error stays.
pub mod Layout
pub mod Samples
pub mod Cells
pub mod Mapping
pub mod Parts
pub mod Unmapping
pub mod Holding
pub mod Loading
pub mod Protecting
mod Tests
use Prim.Native.String.{String}
use ruxeon.Common.{
  ℕ, ◌+◌, ◌-◌, ◌%◌, Bool, Option, none, some, List, [], ◌∷◌, ◌++◌, max, min, ltb, leb, ◌==◌, ◌&&◌,
  if◌then◌else◌, length, get_elem?, take, drop, replicate, position, any, remove_at, modify_at,
  Result, ok, err,
}
use ruxeon.Common.Words.{u64_mod, checked_add}
use ruxeon.Region.{
  MemoryPermission, GuestMemoryError, overlapping_mapping, unmapped, address_overflow,
  empty_mapping, MemoryRegion, end_of, contains_range, offset, ranges_overlap,
}

pub record MemoryMap : Type 0 where
  pub regions : List MemoryRegion

pub record GuestMemory : Type 0 where
  pub map : MemoryMap

abbrev pub Outcome : Type 0
Outcome = Result GuestMemoryError (Unit {0}) × GuestMemory

-- `GuestMemory::new`.
abbrev pub empty : GuestMemory
empty = record { map = record { regions = [] } }

-- `sort_by_key(|region| region.base)`, which is stable.
unfoldable pub insert_by_base : MemoryRegion → List MemoryRegion → List MemoryRegion
insert_by_base r [] = r ∷ []
insert_by_base r (x ∷ xs) = if leb r.base x.base then r ∷ x ∷ xs else x ∷ insert_by_base r xs

unfoldable pub sort_by_base : List MemoryRegion → List MemoryRegion
unfolding insert_by_base
sort_by_base [] = []
sort_by_base (x ∷ xs) = insert_by_base x (sort_by_base xs)

abbrev with_regions : List MemoryRegion → GuestMemory
with_regions rs = record { map = record { regions = rs } }

unfoldable pub push : MemoryMap → MemoryRegion → MemoryMap
unfolding sort_by_base
push map region = record { regions = sort_by_base (map.regions ++ region ∷ []) }

unfoldable pub find_index : MemoryMap → ℕ → ℕ → Option ℕ
find_index map addr size = position (λ r. contains_range r addr size) map.regions

unfoldable pub overlaps : MemoryMap → ℕ → ℕ → Bool
overlaps map base size = any (λ r. ranges_overlap base (base + size) r.base (end_of r)) map.regions

unfoldable pub map_region : ℕ → ℕ → MemoryPermission → Option String → GuestMemory → Outcome
unfolding overlaps push
map_region base size permissions name m =
    if size == 0 then (err empty_mapping, m) else elim (checked_add base size) [
      | none ↦ (err (address_overflow base size), m)
      | some _ ↦ if overlaps m.map base size then (err (overlapping_mapping base size), m) else (
        ok tt,
        record {
          map = push m.map (record {
            base = base;
            size = size;
            permissions = permissions;
            name = name;
            contents = replicate size 0;
          });
        },
      )
    ]

-- `region.data[at..at + bytes.len()].copy_from_slice(bytes)`.
abbrev pub copy_into : ℕ → List ℕ → List ℕ → List ℕ
copy_into at bytes contents = take at contents ++ (bytes ++ drop (at + length bytes) contents)

abbrev pub load_into : ℕ → List ℕ → MemoryRegion → MemoryRegion
load_into addr bytes r = record r { contents = copy_into (offset r addr) bytes r.contents }

unfoldable pub load_bytes : ℕ → List ℕ → GuestMemory → Outcome
unfolding find_index
load_bytes addr bytes m = elim (find_index m.map addr (length bytes)) [
  | none ↦ (err (unmapped addr (length bytes)), m)
  | some index ↦ (ok tt, with_regions (modify_at index (load_into addr bytes) m.map.regions))
]

-- The region stays mapped when its data does not fit. The sum of the addresses wraps.
unfoldable pub map_with_data :
    ℕ → ℕ → MemoryPermission → ℕ → List ℕ → Option String → GuestMemory → Outcome
unfolding map_region load_bytes
map_with_data base size permissions data_offset bytes name m =
    let (r, m') = map_region base size permissions name m in
    elim r [ err e ↦ (err e, m') | ok _ ↦ load_bytes ((base + data_offset) % u64_mod) bytes m' ]

-- The pieces of `region` that `protect` pushes: what lies before, the protected part, the rest.
unfoldable pub part_before : MemoryRegion → ℕ → List MemoryRegion
part_before r base =
    if ltb 0 (base - r.base)
    then record r { size = base - r.base; contents = take (base - r.base) r.contents } ∷ []
    else []

unfoldable pub part_protected : MemoryRegion → ℕ → ℕ → MemoryPermission → MemoryRegion
part_protected r base size permissions = record {
  base = base;
  size = size;
  permissions = permissions;
  name = r.name;
  contents = take size (drop (base - r.base) r.contents);
}

unfoldable pub part_after : MemoryRegion → ℕ → List MemoryRegion
part_after r stop =
    if ltb 0 (end_of r - stop)
    then record r {
      base = stop;
      size = end_of r - stop;
      contents = drop (stop - r.base) r.contents;
    }
      ∷ []
    else []

unfoldable pub push_all : MemoryMap → List MemoryRegion → MemoryMap
unfolding push
push_all map [] = map
push_all map (r ∷ rs) = push_all (push map r) rs

-- A region is taken out at the index where it was found.
unfoldable pub protect : ℕ → ℕ → MemoryPermission → GuestMemory → Outcome
unfolding find_index push_all part_before part_protected part_after
protect base size permissions m =
    if size == 0 then (ok tt, m) else elim (find_index m.map base size) [
      | none ↦ (err (unmapped base size), m)
      | some index ↦ elim (get_elem? m.map.regions index) [
        | none ↦ (err (unmapped base size), m)
        | some region ↦
            let rest = remove_at index m.map.regions in
            elim (checked_add base size) [
              | none ↦ (err (address_overflow base size), with_regions rest)
              | some stop ↦ (
                ok tt,
                record {
                  map =
                      push_all (record { regions = rest })
                        (part_before region base
                          ++ (part_protected region base size permissions
                              ∷ part_after region stop));
                },
              )
            ]
      ]
    ]

unfoldable pub unmap_region : ℕ → ℕ → GuestMemory → Outcome
unmap_region base size m =
    if size == 0
    then (err empty_mapping, m)
    else elim (position (λ r. r.base == base && r.size == size) m.map.regions) [
      | none ↦ (err (unmapped base size), m)
      | some index ↦ (ok tt, with_regions (remove_at index m.map.regions))
    ]

-- One round of the loop of `unmap_range`: what is left of a region outside `[base, stop)`.
unfoldable pub trim : ℕ → ℕ → MemoryRegion → List MemoryRegion
unfolding part_before part_after
trim base stop r =
    if leb (min (end_of r) stop) (max r.base base)
    then r ∷ []
    else part_before r (max r.base base) ++ part_after r (min (end_of r) stop)

unfoldable pub trim_all : ℕ → ℕ → List MemoryRegion → List MemoryRegion
unfolding trim
trim_all base stop [] = []
trim_all base stop (r ∷ rs) = trim base stop r ++ trim_all base stop rs

unfoldable pub unmap_range : ℕ → ℕ → GuestMemory → Outcome
unfolding trim_all sort_by_base
unmap_range base size m =
    if size == 0 then (err empty_mapping, m) else elim (checked_add base size) [
      | none ↦ (err (address_overflow base size), m)
      | some stop ↦ (ok tt, with_regions (sort_by_base (trim_all base stop m.map.regions)))
    ]
