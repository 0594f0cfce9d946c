-- ===== src/Access/Writing.antt =====
-- Writes: what they change, what they refuse, and that a read returns what was written.
use ruxeon.Common.{
  ℕ, ◌+◌, ◌^◌, ◌≤◌, ◌<◌, ◌≡◌, refl, ap, ◌∙◌, ◌⊎◌, true, false, inl, inr, none, List, ◌++◌, ◌∷◌,
  length, take, drop, sym, get_elem?-modify_at, length-take, position-modify_at, drop-append,
  take-append, Option-cases, Bool-cases, Result-cases, ok, err, arith,
}
use ruxeon.Common.Words.{
  IsBytes, to_le_bytes, from_le_bytes, length-to_le_bytes, from_le_bytes-to_le_bytes,
}
use ruxeon.Region.{
  MemoryPermission, GuestMemoryError, unmapped, permission, permission_read, permission_write,
  MemoryRegion, end_of, offset, contains, contains_range,
}
use ruxeon.Memory.{GuestMemory, find_index, copy_into, load_into, load_bytes}
use ruxeon.Memory.Layout.{IsRegion, IsLaid, IsValid}
use ruxeon.Memory.Cells.{cell}
use ruxeon.Memory.Holding.{find_index-IsHeld, IsLaid-IsRegion}
use ruxeon.Memory.Loading.{overwrite, load_bytes_loads}
use ruxeon.Access.Reading.{region-IsLookup}
use ruxeon.Access.{
  region, check_permission, slice_at, read_bytes, write_bytes, read_word, write_word,
}

write_bytes_inversion :
    (addr : ℕ) (bytes : List ℕ) (m : GuestMemory) {m' : GuestMemory}
    → write_bytes addr bytes m ≡ (ok tt, m')
    → (check_permission addr (length bytes) permission_write m ≡ ok tt)
      × (load_bytes addr bytes m ≡ (ok tt, m'))
unfolding write_bytes
write_bytes_inversion addr bytes m h =
    elim (Result-cases (check_permission addr (length bytes) permission_write m)) [
      | inr (e, denied) ↦ absurd (ground (arith, h, denied))
      | inl (_, granted) ↦ (granted, ground (arith, h, granted))
    ]

-- A successful write of bytes leaves a valid memory valid: exactly the bytes of the range are replaced,
-- and no permission changes.
pub write_bytes_writes :
    (addr : ℕ) (bytes : List ℕ) (m : GuestMemory) {m' : GuestMemory}
    → IsValid m
    → IsBytes bytes
    → write_bytes addr bytes m ≡ (ok tt, m')
    → IsValid m' × ((a : ℕ) → cell m' a ≡ overwrite addr bytes a (cell m a))
write_bytes_writes addr bytes m v b h =
    load_bytes_loads addr bytes m v b (write_bytes_inversion addr bytes m h).1

-- The slice of what was copied in.
slice-copy_into :
    (at : ℕ) (bytes xs : List ℕ)
    → at ≤ length xs
    → take (length bytes) (drop at (copy_into at bytes xs)) ≡ bytes
slice-copy_into at bytes xs h =
    let e : length (take at xs) ≡ at = omega (arith, length-take at xs) in
    ap (λ n. take (length bytes) (drop n (copy_into at bytes xs))) (sym e)
    ∙ ap (take (length bytes)) (drop-append (take at xs) (bytes ++ drop (at + length bytes) xs))
    ∙ take-append bytes (drop (at + length bytes) xs)

-- After a load the same range is found in the same region, with the new bytes.
region-load_bytes :
    (addr : ℕ) (bytes : List ℕ) (m : GuestMemory) {m' : GuestMemory} (r : MemoryRegion)
    → load_bytes addr bytes m ≡ (ok tt, m')
    → region addr (length bytes) m ≡ ok r
    → region addr (length bytes) m' ≡ ok (load_into addr bytes r)
unfolding region load_bytes find_index
region-load_bytes addr bytes m r h k = elim (Option-cases (find_index m.map addr (length bytes))) [
  | inl missing ↦ absurd (ground (arith, k, missing))
  | inr (i, e) ↦
      let f = find_index-IsHeld addr (length bytes) m i e in
      ground (
        arith,
        h,
        k,
        e,
        f.looked_up,
        get_elem?-modify_at (load_into addr bytes) m.map.regions i f.found f.looked_up,
        position-modify_at (λ x. contains_range x addr (length bytes)) (load_into addr bytes) i
            m.map.regions (λ x. refl),
      )
]

slice_at-load_into :
    (addr : ℕ) (bytes : List ℕ) (m : GuestMemory) (r : MemoryRegion)
    → IsValid m
    → region addr (length bytes) m ≡ ok r
    → slice_at (load_into addr bytes r) addr (length bytes) ≡ bytes
slice_at-load_into addr bytes m r v h =
    let k = region-IsLookup addr (length bytes) m r h in
    let f = k.held in
    let laid : IsLaid _ 0 (f.before ++ f.found ∷ f.behind) = rw f.split at v in
    let w : IsRegion r = rw k.same at ((IsLaid-IsRegion f.found f.before f.behind laid).0) in
    let below : addr + length bytes ≤ end_of r = rw (← k.same) f.below in
    let above : r.base ≤ addr = rw (← k.same) f.above in
    slice-copy_into (offset r addr) bytes r.contents (omega (arith, w.filled))

check_permission-ok :
    (addr size : ℕ) (p : MemoryPermission) (m : GuestMemory) (r : MemoryRegion)
    → region addr size m ≡ ok r
    → contains r.permissions p ≡ true
    → check_permission addr size p m ≡ ok tt
unfolding check_permission
check_permission-ok addr size p m r h c = ground (arith, h, c)

check_permission_inversion :
    (addr size : ℕ) (p : MemoryPermission) (m : GuestMemory)
    → check_permission addr size p m ≡ ok tt
    → (r : MemoryRegion) × (region addr size m ≡ ok r) × (contains r.permissions p ≡ true)
unfolding check_permission
check_permission_inversion addr size p m h = elim (Result-cases (region addr size m)) [
  | inr (e, missing) ↦ absurd (ground (arith, h, missing))
  | inl (r, e) ↦ (r, e, ground (arith, h, e))
]

read_bytes-ok :
    (addr size : ℕ) (m : GuestMemory) (r : MemoryRegion)
    → region addr size m ≡ ok r
    → contains r.permissions permission_read ≡ true
    → read_bytes addr size m ≡ ok (slice_at r addr size)
unfolding read_bytes
read_bytes-ok addr size m r h c = ground (arith, h, c)

-- After a successful write to a valid memory, at a range that may be read, reading the range returns
-- what was written.
pub read_bytes-write_bytes :
    (addr : ℕ) (bytes : List ℕ) (m : GuestMemory) {m' : GuestMemory}
    → IsValid m
    → check_permission addr (length bytes) permission_read m ≡ ok tt
    → write_bytes addr bytes m ≡ (ok tt, m')
    → read_bytes addr (length bytes) m' ≡ ok bytes
read_bytes-write_bytes addr bytes m {m'} v readable h =
    let (r, e, c) = check_permission_inversion addr (length bytes) permission_read m readable in
    let loaded = (write_bytes_inversion addr bytes m h).1 in
    let e' = region-load_bytes addr bytes m r loaded e in
    read_bytes-ok addr (length bytes) m' (load_into addr bytes r) e' c
    ∙ ap ok (slice_at-load_into addr bytes m r v e)

-- Words come back: in a valid memory, a word that fits `width` bytes and is written to a readable range
-- is read there.
pub read_word-write_word :
    (width addr value : ℕ) (m : GuestMemory) {m' : GuestMemory}
    → IsValid m
    → value < 256 ^ width
    → check_permission addr width permission_read m ≡ ok tt
    → write_word width addr value m ≡ (ok tt, m')
    → read_word width addr m' ≡ ok value
unfolding write_word
read_word-write_word width addr value m {m'} v fits readable h =
    let bytes = to_le_bytes width value in
    let n = length-to_le_bytes width value in
    let back = read_bytes-write_bytes addr bytes m v (rw n readable) h in
    word_of (rw n at back) ∙ ap ok (from_le_bytes-to_le_bytes width value fits)
  where
    word_of :
        {bytes : List ℕ}
        → read_bytes addr width m' ≡ ok bytes
        → read_word width addr m' ≡ ok (from_le_bytes bytes)
    word_of e = unfold read_word in ground (arith, e)

-- A write that fails changes nothing: the range lies in no region, or its region is not writable.
pub write_bytes_fails :
    (addr : ℕ) (bytes : List ℕ) (m : GuestMemory) {m' : GuestMemory} {e : GuestMemoryError}
    → write_bytes addr bytes m ≡ (err e, m')
    → (m' ≡ m)
      × ((e ≡ unmapped addr (length bytes)) × (find_index m.map addr (length bytes) ≡ none)
          ⊎ (e ≡ permission addr (length bytes) permission_write)
            × ((r : MemoryRegion) × (region addr (length bytes) m ≡ ok r)
                × (contains r.permissions permission_write ≡ false)))
unfolding write_bytes
write_bytes_fails addr bytes m h = elim (Option-cases (find_index m.map addr (length bytes))) [
  | inl missing ↦ (ground (arith, h, missing), inl (ground (arith, h, missing), missing))
  | inr (i, e) ↦
      let f = find_index-IsHeld addr (length bytes) m i e in
      elim (Bool-cases (contains f.found.permissions permission_write)) [
        | inl writable ↦ absurd (ground (arith, h, e, f.looked_up, writable))
        | inr protected ↦ (
          ground (arith, h, e, f.looked_up, protected),
          inr (
            ground (arith, h, e, f.looked_up, protected),
            (f.found, ground (arith, e, f.looked_up), protected),
          ),
        )
      ]
]
