-- ===== src/Linux/Heap/Break.antt =====
-- `brk`: what moving the break does to the memory.
use ruxeon.Linux.State.{System}
use ruxeon.Common.{
  ℕ, ◌-◌, ◌%◌, Bool, not, ◌≤◌, ◌<◌, ◌≡◌, sym, ap, ◌∙◌, inl, inr, ◌&&◌, Option, none, some, arith,
  ltb, if◌then◌else◌, Bool-cases, Result-cases, ok,
}
use ruxeon.Memory.Unmapping.{unmap_range_unmaps}
use ruxeon.Memory.Mapping.{map_region_maps}
use ruxeon.Memory.Cells.{cell}
use ruxeon.Memory.Layout.{IsValid}
use ruxeon.Common.Words.{u64_mod}
use ruxeon.Region.{page_size, MemoryPermission}
use ruxeon.Memory.{GuestMemory, map_region, unmap_range}
use ruxeon.Linux.Arguments.{align_up}
use ruxeon.Linux.Heap.{read_write, move_break, brk}

-- A break whose page ends in the address space.
abbrev pub top_break : ℕ
top_break = u64_mod - page_size

pub align_up-IsMonotone :
    (a b : ℕ) → a ≤ b → b ≤ top_break → align_up a page_size ≤ align_up b page_size
unfolding align_up
align_up-IsMonotone a b h k = ground arith

-- Whether an address lies in a page of 4096 bytes that begins below the break.
abbrev pub in_heap : ℕ → ℕ → Bool
in_heap break a = ltb (a - a % 4096) break

-- The memory after a move: the pages that the break leaves are gone, those that it takes are zeros that can be read and
-- written (bits 1 and 2).
abbrev pub moved_cell : ℕ → ℕ → GuestMemory → ℕ → Option (ℕ × MemoryPermission)
moved_cell old requested m a =
    if in_heap old a && not (in_heap requested a)
    then none
    else if in_heap requested a && not (in_heap old a)
    then some (0, record { bits = 3 })
    else cell m a

in_heap-align_up :
    (break a : ℕ) → break ≤ top_break → in_heap break a ≡ ltb a (align_up break page_size)
unfolding align_up
in_heap-align_up break a h = ground arith

pub move_break_moves :
    (old requested : ℕ) (m : GuestMemory) {m' : GuestMemory}
    → IsValid m
    → old ≤ top_break
    → requested ≤ top_break
    → move_break old requested m ≡ (ok tt, m')
    → IsValid m' × ((a : ℕ) → cell m' a ≡ moved_cell old requested m a)
unfolding move_break
move_break_moves old requested m {m' = m'} v p q h =
    let first = align_up requested page_size in
    let last = align_up old page_size in
    elim (Bool-cases (ltb requested old)) [
      | inl below ↦
          let up : first ≤ last = align_up-IsMonotone requested old (ground arith) p in
          elim (Bool-cases (ltb first last)) [
            | inl apart ↦
                let e : unmap_range first (last - first) m ≡ (ok tt, m') = ground (arith, h) in
                let (v', c) = unmap_range_unmaps first (last - first) m v e in
                (
                  v',
                  λ a.
                      ground (arith, c a, in_heap-align_up old a p, in_heap-align_up requested a q),
                )
            | inr same ↦
                let e : m ≡ m' = ground (arith, h) in
                (
                  rw (sym e) v,
                  λ a. ground (
                    arith,
                    ap (λ m. cell m a) e,
                    in_heap-align_up old a p,
                    in_heap-align_up requested a q,
                  ),
                )
          ]
      | inr above ↦
          let up : last ≤ first = align_up-IsMonotone old requested (ground arith) q in
          elim (Bool-cases (ltb last first)) [
            | inl apart ↦
                let size = first - last in
                let e : map_region last size read_write (some "[brk]") m ≡ (ok tt, m') =
                  ground (arith, h) in
                let (v', c) = map_region_maps last size read_write (some "[brk]") m v e in
                (
                  v',
                  λ a.
                      ground (arith, c a, in_heap-align_up old a p, in_heap-align_up requested a q),
                )
            | inr same ↦
                let e : m ≡ m' = ground (arith, h) in
                (
                  rw (sym e) v,
                  λ a. ground (
                    arith,
                    ap (λ m. cell m a) e,
                    in_heap-align_up old a p,
                    in_heap-align_up requested a q,
                  ),
                )
          ]
    ]

-- Where the memory is valid, and neither the break nor the request, which is not zero and not below the heap's base, lies
-- in the last page of the address space: a `brk` that succeeds answers the request and makes it the break. The memory
-- stays valid: the pages of 4096 bytes that began below the break and do so no longer are unmapped, those that begin
-- below the new break and did not below the old one are zeros that can be read and written, and every other byte is as
-- before.
pub brk_moves :
    {File World : Type 0} (requested : ℕ) (s : System File World) {value : ℕ}
    {s' : System File World}
    → IsValid s.memory
    → s.process.brk ≤ top_break
    → requested ≤ top_break
    → 0 < requested
    → s.process.brk_base ≤ requested
    → brk requested s ≡ (ok value, s')
    → (value ≡ requested)
      × (s'.process ≡ record (s.process) { brk = requested })
      × IsValid s'.memory
      × ((a : ℕ) → cell s'.memory a ≡ moved_cell s.process.brk requested s.memory a)
unfolding brk
brk_moves requested s {value} {s'} v p q r b h =
    let m' = (move_break s.process.brk requested s.memory).1 in
    elim (Result-cases ((move_break s.process.brk requested s.memory).0)) [
      | inr (e, failed) ↦ ground (arith, h, failed)
      | inl (t, done) ↦
          let (v', c) =
            move_break_moves s.process.brk requested s.memory {m' = m'} v p q
              (ap (λ r. (r, m')) done) in
          let same : s'.memory ≡ m' = ground (arith, h, done) in
          (
            ground (arith, h, done),
            ground (arith, h, done),
            rw same v',
            λ a. ap (λ m. cell m a) same ∙ c a,
          )
    ]
