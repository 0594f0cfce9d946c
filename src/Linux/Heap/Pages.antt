-- ===== src/Linux/Heap/Pages.antt =====
-- `mmap` without a file.
use ruxeon.Errno.{inval}
use ruxeon.Linux.Os.{Os}
use ruxeon.Common.{
  ℕ, ◌+◌, ◌-◌, ◌*◌, ◌/◌, ◌%◌, ◌^◌, ◌<◌, bit_and, ◌≡◌, sym, ap, ◌∙◌, ◌⊎◌, inl, inr, Bool, false, not,
  ◌&&◌, Option, some, arith, ltb, leb, ◌==◌, if◌then◌else◌, Bool-cases, ok,
}
use ruxeon.Common.Actions.{pure, ◌>>=◌, ◌>>◌}
use ruxeon.Common.Words.{u64_mod}
use ruxeon.Common.Flags.{bit_or-three, flag-bit_at}
use ruxeon.Region.{page_size, MemoryPermission}
use ruxeon.Memory.{GuestMemory, map_region, unmap_range}
use ruxeon.Memory.Layout.{IsValid}
use ruxeon.Memory.Cells.{cell}
use ruxeon.Memory.Mapping.{place, map_region_maps, map_region_succeeds}
use ruxeon.Memory.Unmapping.{unmap_range_unmaps}
use ruxeon.Linux.State.{System, Handler, with_memory, fail_when}
use ruxeon.Linux.Steps.{action-ok, with_memory-ok, fail_when-ok}
use ruxeon.Linux.Arguments.{align_up, memory_permissions}
use ruxeon.Linux.Heap.{choose_address, map_pages, load_mmap_backing, mmap}

abbrev pub is_fixed : ℕ → Bool
is_fixed flags = not (bit_and flags 0x10 == 0)

module _ {File World : Type 0} where
  -- The choice of an address leaves the memory, and a fixed mapping lies where it is asked for.
  choose_address-ok :
      (requested size flags : ℕ) (s : System File World) {address : ℕ} {s' : System File World}
      → choose_address requested size flags s ≡ (ok address, s')
      → (s'.memory ≡ s.memory) × ((is_fixed flags ≡ false) ⊎ (address ≡ requested))
  unfolding choose_address
  choose_address-ok requested size flags s h = elim (Bool-cases (is_fixed flags)) [
    | inl fixed ↦ (ground (arith, h, fixed), inr (ground (arith, h, fixed)))
    | inr free ↦ (ground (arith, h, free), inl free)
  ]

-- The bits of a protection: reading, writing and executing are its lowest three.
abbrev pub asked : ℕ → MemoryPermission
asked prot = record { bits = prot % 8 }

memory_permissions-asked : (prot : ℕ) → memory_permissions prot ≡ asked prot
unfolding memory_permissions
memory_permissions-asked prot =
    let bit = λ (k : ℕ). not (bit_and prot (2 ^ k) == 0) in
    let sum : prot / 1 % 2 * 1 + prot / 2 % 2 * 2 + prot / 4 % 2 * 4 ≡ prot % 8 = omega arith in
    let with_bits : ℕ → MemoryPermission = λ b. record { bits = b } in
    ap with_bits (
      omega (
        arith,
        bit_or-three (bit 0) (bit 1) (bit 2),
        flag-bit_at 0 prot 1,
        flag-bit_at 1 prot 2,
        flag-bit_at 2 prot 4,
        sum,
      ))

-- Whether an address lies in a page of 4096 bytes, counted from the mapping's address, that begins within its length.
abbrev pub in_mapping : ℕ → ℕ → ℕ → Bool
in_mapping address len a = leb address a && ltb (a - address - (a - address) % 4096) len

-- The memory after a mapping.
abbrev pub mapped_cell : ℕ → ℕ → ℕ → GuestMemory → ℕ → Option (ℕ × MemoryPermission)
mapped_cell address len prot m a =
    if in_mapping address len a then some (0, asked prot) else cell m a

-- A length that rounds up to a size that is not empty has not wrapped.
in_mapping-align_up :
    (address len a : ℕ)
    → len < u64_mod
    → 0 < align_up len page_size
    → in_mapping address len a ≡ (leb address a && ltb a (address + align_up len page_size))
unfolding align_up
in_mapping-align_up address len a h p = ground (arith, h, p)

-- The memory after a mapping of a range.
abbrev range_cell : ℕ → ℕ → ℕ → GuestMemory → ℕ → Option (ℕ × MemoryPermission)
range_cell address size prot m a =
    if leb address a && ltb a (address + size) then some (0, memory_permissions prot) else cell m a

module _ {File World : Type 0} where
  clear-ok :
      (address size flags : ℕ) (s : System File World) {u : Unit {0}} {s' : System File World}
      → (if bit_and flags 0x10 == 0 then pure tt else with_memory (unmap_range address size)) s
        ≡ (ok u, s')
      → IsValid s.memory
      → IsValid s'.memory
        × ((a : ℕ)
            → (leb address a && ltb a (address + size)) ≡ false
            → cell s'.memory a ≡ cell s.memory a)
  clear-ok address size flags s {s' = s'} h v = elim (Bool-cases (bit_and flags 0x10 == 0)) [
    | inl free ↦
        let same : s ≡ s' = ground (arith, h, free) in
        (rw (sym same) v, λ a out. ap (λ s. cell s.memory a) (sym same))
    | inr fixed ↦
        let e : with_memory (unmap_range address size) s ≡ (ok tt, s') = ground (arith, h, fixed) in
        let (done, _) = with_memory-ok (unmap_range address size) s e in
        let (v', c) = unmap_range_unmaps address size s.memory v done in
        (v', λ a out. ground (arith, c a, out))
  ]

  map_pages_maps :
      (requested size prot flags : ℕ) (s : System File World) {address : ℕ} {s' : System File World}
      → IsValid s.memory
      → map_pages requested size prot flags s ≡ (ok address, s')
      → ((is_fixed flags ≡ false) ⊎ (address ≡ requested))
        × IsValid s'.memory
        × (0 < size)
        × ((a : ℕ) → cell s'.memory a ≡ range_cell address size prot s.memory a)
  unfolding map_pages
  map_pages_maps requested size prot flags s {address = address'} {s' = s'} v h =
      let region : ℕ → Handler File World (Unit {0}) = λ address.
        with_memory (map_region address size (memory_permissions prot) (some "[mmap]")) in
      let cleared : ℕ → Handler File World (Unit {0}) = λ address.
        if bit_and flags 0x10 == 0 then pure tt else with_memory (unmap_range address size) in
      let answer : ℕ → Unit {0} → Handler File World ℕ = λ address u. pure address in
      let placed : ℕ → Unit {0} → Handler File World ℕ =
        λ address u. region address >>= answer address in
      action-ok (choose_address requested size flags)
        (λ address. cleared address >>= placed address) s h
        (λ address s1 chosen h1.
          action-ok (cleared address) (placed address) s1 h1 (λ u1 s2 emptied h2.
            action-ok (region address) (answer address) s2 h2 (λ u2 s3 mapped h3.
              let same : s3 ≡ s' = ground (arith, h3) in
              let where_ : address ≡ address' = ground (arith, h3) in
              let (kept, place) = choose_address-ok requested size flags s chosen in
              let (v2, c2) = clear-ok address size flags s1 emptied (rw kept v) in
              let (done, _) =
                with_memory-ok (map_region address size (memory_permissions prot) (some "[mmap]"))
                  s2 mapped in
              let (v3, c3) =
                map_region_maps address size (memory_permissions prot) (some "[mmap]") s2.memory v2
                  done in
              (
                rw (sym where_) place,
                rw (sym same) v3,
                ((map_region_succeeds address size (memory_permissions prot) (some "[mmap]")
                      s2.memory v2).0
                    (ap (λ r. r.0) done)).0,
                λ a.
                    ap (λ s. cell s.memory a) (sym same)
                    ∙ c3 a
                    ∙ ground (arith, c2 a, ap (λ m. cell m a) kept, where_),
              ))))

-- An anonymous `mmap` of a 64-bit length that succeeds leaves a valid memory valid: the pages of 4096 bytes that begin
-- within the length from the mapping's address are zeros, to be read, written and executed as the lowest three bits of
-- the protection say; every other byte is as before, and a fixed mapping lies at the address asked for.
pub mmap_maps :
    {File World : Type 0} (os : Os File World) (requested len prot flags fd file_offset : ℕ)
    (s : System File World) {address : ℕ} {s' : System File World}
    → IsValid s.memory
    → len < u64_mod
    → (bit_and flags 0x20 == 0) ≡ false
    → mmap os requested len prot flags fd file_offset s ≡ (ok address, s')
    → ((is_fixed flags ≡ false) ⊎ (address ≡ requested))
      × IsValid s'.memory
      × ((a : ℕ) → cell s'.memory a ≡ mapped_cell address len prot s.memory a)
unfolding mmap
mmap_maps {File} {World} os requested len prot flags fd file_offset s {address} {s'} v short
      anonymous h =
    let size = align_up len page_size in
    let backed : ℕ → Handler File World ℕ = λ address.
      if bit_and flags 0x20 == 0
      then load_mmap_backing os address len fd file_offset flags >> pure address
      else pure address in
    let aligned : Unit {0} → Handler File World ℕ =
      λ u. map_pages requested size prot flags >>= backed in
    let unaligned = not (file_offset % page_size == 0) in
    let positive : Unit {0} → Handler File World ℕ = λ u. fail_when unaligned inval >>= aligned in
    action-ok (fail_when (len == 0) inval) positive s h (λ u1 s1 e1 h1.
      action-ok (fail_when unaligned inval) aligned s1 h1 (λ u2 s2 e2 h2.
        action-ok (map_pages requested size prot flags) backed s2 h2 (λ a s3 e3 h3.
          let same : s ≡ s2 =
            (fail_when-ok (len == 0) inval s e1).1 ∙ (fail_when-ok unaligned inval s1 e2).1 in
          let result : (ok a, s3) ≡ (ok address, s') = ground (arith, h3, anonymous) in
          let (place, v', positive', c) =
            map_pages_maps requested size prot flags s v
              (ap (map_pages requested size prot flags) same ∙ e3 ∙ result) in
          (
            place,
            v',
            λ a. ground (
              arith,
              c a,
              memory_permissions-asked prot,
              in_mapping-align_up address len a short positive',
            ),
          ))))
