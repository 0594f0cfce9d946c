-- ===== src/Loader/Segments.antt =====
-- The mapping of a segment: what the memory holds afterwards.
use Prim.Native.String.{String}
use ruxeon.Common.{
  ℕ, ◌+◌, ◌-◌, ◌*◌, ◌/◌, ◌%◌, ◌^◌, ◌==◌, Bool, not, bit_and, ◌≤◌, ◌<◌, ◌≡◌, ap, sym, ◌∙◌, Option,
  some, List, take, drop, ltb, leb, ◌&&◌, if◌then◌else◌, ok, err, fail_if, ok_or, bind-ok,
  fail_if-ok, ok_or-ok, inl, inr, Result-cases, arith,
}
use ruxeon.Common.Flags.{bit_or-three, flag-bit_at, bit_and-page}
use ruxeon.Common.Words.{u64_mod, checked_add, IsBytes, IsBytes-take, IsBytes-drop}
use ruxeon.Region.{MemoryPermission, page_size}
use ruxeon.Memory.{GuestMemory, Outcome, map_region, map_with_data, load_bytes}
use ruxeon.Memory.Layout.{IsValid}
use ruxeon.Memory.Cells.{cell}
use ruxeon.Memory.Mapping.{map_region_maps}
use ruxeon.Memory.Loading.{overwrite, load_bytes_loads}
use ruxeon.Elf.{ElfImage, ProgramHeader, get_range}
use ruxeon.Loader.{
  panicked, align_down, align_up, checked_sum, loaded, Placement, place_segment,
  permissions_from_flags, load_segment,
}

-- The bits of a segment's permissions: reading, writing and executing have the flags 4, 2 and 1.
abbrev pub granted : ℕ → MemoryPermission
granted flags = record { bits = flags / 4 % 2 + flags / 2 % 2 * 2 + flags % 2 * 4 }

permissions_from_flags-granted : (flags : ℕ) → permissions_from_flags flags ≡ granted flags
unfolding permissions_from_flags
permissions_from_flags-granted flags =
    let bit = λ (k : ℕ). not (bit_and flags (2 ^ k) == 0) in
    let with_bits : ℕ → MemoryPermission = λ b. record { bits = b } in
    ap with_bits (
      omega (
        arith,
        bit_or-three (bit 2) (bit 1) (bit 0),
        flag-bit_at 2 flags 1,
        flag-bit_at 1 flags 2,
        flag-bit_at 0 flags 4,
      ))

-- Whether an address lies in a page of 4096 bytes that a range of the given size at `address` meets.
abbrev pub in_pages : ℕ → ℕ → ℕ → Bool
in_pages address size a = leb (address - address % 4096) a && ltb (a - a % 4096) (address + size)

-- A successful placement: the data's address is the header's with the bias, and its pages are those that the segment
-- in memory meets.
place_segment-ok :
    (h : ProgramHeader) (load_bias : ℕ) {p : Placement}
    → place_segment h load_bias page_size ≡ ok p
    → (p.address ≡ h.virtual_address + load_bias)
      × (p.map_start ≤ p.address)
      × (p.address < u64_mod)
      × ((a : ℕ)
          → (leb p.map_start a && ltb a p.map_end)
            ≡ in_pages (h.virtual_address + load_bias) h.memory_size a)
unfolding place_segment align_up align_down
place_segment-ok h load_bias {p} e =
    bind-ok (checked_sum h.virtual_address load_bias) _ e λ address p1 q1.
      bind-ok (ok_or (checked_add h.virtual_address h.memory_size) _) _ q1 λ stop p2 q2.
        bind-ok (ok_or (checked_add stop load_bias) _) _ q2 λ end p3 q3.
          bind-ok (align_up end page_size) _ q3 λ map_end p4 done.
            let at : p.address ≡ address = ground (arith, done) in
            let start : p.map_start ≡ address - address % 4096 =
              ground (arith, done) ∙ bit_and-page address (ground (arith, p1)) in
            let is_sum : address ≡ h.virtual_address + load_bias = ground (arith, p1) in
            let is_end : end ≡ h.virtual_address + h.memory_size + load_bias =
              ground (arith, p2, p3) in
            let small : address < u64_mod = ground (arith, p1) in
            let fits : end + 4096 < u64_mod = ground (arith, p4) in
            let top : end + 4096 - 1 < u64_mod = omega (arith, fits) in
            let up : bit_and (end + 4096 - 1) (u64_mod - 4096) ≡ map_end = ground (arith, p4) in
            let stop_is : p.map_end ≡ (end + 4096 - 1) - (end + 4096 - 1) % 4096 =
              ground (arith, done) ∙ sym up ∙ bit_and-page (end + 4096 - 1) top in
            (
              omega (arith, at, is_sum),
              omega (arith, at, start),
              omega (arith, at, small),
              λ a. ground (arith, start, stop_is, is_sum, is_end),
            )

map_with_data_maps :
    (base size : ℕ) (p : MemoryPermission) (data_offset : ℕ) (bytes : List ℕ) (name : Option String)
    (m : GuestMemory) {m' : GuestMemory}
    → IsValid m
    → IsBytes bytes
    → base + data_offset < u64_mod
    → map_with_data base size p data_offset bytes name m ≡ (ok tt, m')
    → IsValid m'
      × ((a : ℕ)
          → cell m' a
            ≡ overwrite
                (base + data_offset)
                bytes
                a
                (if leb base a && ltb a (base + size) then some (0, p) else cell m a))
unfolding map_with_data
map_with_data_maps base size p data_offset bytes name m {m' = m'} v b small h =
    let m1 = (map_region base size p name m).1 in
    elim (Result-cases (map_region base size p name m).0) [
      | inl (t, k) ↦
          let mapped : map_region base size p name m ≡ (ok tt, m1) = ground (arith, k) in
          let (valid, cells) = map_region_maps base size p name m v mapped in
          let at : (base + data_offset) % u64_mod ≡ base + data_offset = omega arith in
          let stored : load_bytes (base + data_offset) bytes m1 ≡ (ok tt, m') =
            ap (λ x. load_bytes x bytes m1) (sym at) ∙ ground (arith, h, k) in
          let (valid', cells') = load_bytes_loads (base + data_offset) bytes m1 valid b stored in
          (valid', λ a. cells' a ∙ ap (overwrite (base + data_offset) bytes a) (cells a))
      | inr (e, k) ↦ absurd (ground (arith, h, k))
    ]

get_range-ok :
    (bytes : List ℕ) (offset size : ℕ) {found : List ℕ}
    → get_range bytes offset (offset + size) ≡ some found
    → found ≡ take size (drop offset bytes)
unfolding get_range
get_range-ok bytes offset size h =
    let same : offset + size - offset ≡ size = omega arith in
    ground (arith, h, ap (λ n. take n (drop offset bytes)) same)

loaded-ok : (o : Outcome) {m : GuestMemory} → loaded o ≡ ok m → o ≡ (ok tt, m)
loaded-ok (ok tt, m') h = ground (arith, h)
loaded-ok (err e, m') h = cc

-- A successful loading of a segment of a file of bytes into a valid memory, with pages of 4096 bytes, leaves a valid
-- memory: the pages that the segment meets, from its address with the bias on and for its size in memory, are mapped,
-- readable, writable and executable as the header's flags 4, 2 and 1 say, and hold zeros, over which the segment's bytes
-- of the file lie from its address on; all other cells are as before.
pub load_segment-maps :
    (segment_name : ℕ → String) (m : GuestMemory) (image : ElfImage) (h : ProgramHeader)
    (load_bias : ℕ) {m' : GuestMemory}
    → IsValid m
    → IsBytes image.bytes
    → load_segment segment_name m image h load_bias page_size ≡ ok m'
    → IsValid m'
      × ((a : ℕ)
          → cell m' a
            ≡ overwrite
                (h.virtual_address + load_bias)
                (take h.file_size (drop h.offset image.bytes))
                a
                (if in_pages (h.virtual_address + load_bias) h.memory_size a
                  then some (0, granted h.flags)
                  else cell m a))
unfolding load_segment
load_segment-maps segment_name m image h load_bias {m'} v b e =
    bind-ok (place_segment h load_bias page_size) _ e λ p p1 q1.
      bind-ok (fail_if (ltb p.map_end p.map_start) panicked) _ q1 λ t p2 q2.
        bind-ok (ok_or (get_range image.bytes h.offset (h.offset + h.file_size)) panicked) _ q2
          λ bytes p3 q3.
            let (address, low, small, pages) = place_segment-ok h load_bias p1 in
            let ordered : p.map_start ≤ p.map_end = ground (arith, fail_if-ok _ _ p2) in
            let found = get_range-ok image.bytes h.offset h.file_size (ok_or-ok _ _ p3) in
            let stored = take h.file_size (drop h.offset image.bytes) in
            let stored_bytes : IsBytes stored =
              IsBytes-take h.file_size _ (IsBytes-drop h.offset image.bytes b) in
            let size = p.map_end - p.map_start in
            let inside = p.address - p.map_start in
            let at : p.map_start + inside ≡ h.virtual_address + load_bias =
              omega (arith, address, low) in
            let stop : p.map_start + size ≡ p.map_end = omega (arith, ordered) in
            let permissions = permissions_from_flags h.flags in
            let name = some (segment_name p.address) in
            let done : map_with_data p.map_start size permissions inside stored name m
                ≡ (ok tt, m') =
              loaded-ok _ (
                ap (λ x. loaded (map_with_data p.map_start size permissions inside x name m))
                  (sym found)
                ∙ q3) in
            let (valid, cells) =
              map_with_data_maps p.map_start size permissions inside stored name m v stored_bytes
                (omega (arith, at, address, small)) done in
            (
              valid,
              λ a.
                  cells a
                  ∙ (λ i. overwrite (at i) stored a (
                      if leb p.map_start a && ltb a (stop i)
                      then some (0, permissions)
                      else cell m a))
                  ∙ (λ i. overwrite (h.virtual_address + load_bias) stored a (
                      if pages a i
                      then some (0, permissions_from_flags-granted h.flags i)
                      else cell m a)),
            )
