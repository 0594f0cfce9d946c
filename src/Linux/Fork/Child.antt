-- ===== src/Linux/Fork/Child.antt =====
-- The memory and the process of a fork's child.
use ruxeon.Common.{
  ℕ, ◌+◌, ◌≡◌, sym, ap, ◌∙◌, inl, inr, Bool, false, ◌&&◌, arith, ltb, leb, ◌==◌, Bool-cases,
  Option-cases, Result-cases, ok,
}
use ruxeon.Common.Words.{to_le_bytes, length-to_le_bytes, to_le_bytes-IsBytes}
use ruxeon.Memory.{GuestMemory}
use ruxeon.Memory.Layout.{IsValid}
use ruxeon.Memory.Cells.{cell}
use ruxeon.Access.{permissions_at, write_bytes, write_word}
use ruxeon.Access.Writing.{write_bytes_writes}
use ruxeon.Linux.Terminal.{plus}
use ruxeon.Linux.State.{LinuxProcess}
use ruxeon.Linux.Fork.{glibc_pthread_tid_offset, write_tid, store_pthread_tid, child_memory}

-- The four bytes of a thread's number at an address.
abbrev pub is_tid_byte : ℕ → ℕ → Bool
is_tid_byte addr a = leb addr a && ltb a (addr + 4)

write_tid-keeps :
    (addr tid : ℕ) (m : GuestMemory) {m' : GuestMemory}
    → IsValid m
    → write_tid addr tid m ≡ ok m'
    → IsValid m' × ((a : ℕ) → is_tid_byte addr a ≡ false → cell m' a ≡ cell m a)
unfolding write_word
write_tid-keeps addr tid m {m'} v h =
    let bytes = to_le_bytes 4 tid in
    let after = (write_bytes addr bytes m).1 in
    elim (Result-cases ((write_bytes addr bytes m).0)) [
      | inr (e, failed) ↦ ground (arith, h, failed)
      | inl (t, done) ↦
          let (v1, c) =
            write_bytes_writes addr bytes m {m' = after} v (to_le_bytes-IsBytes 4 tid)
              (ap (λ r. (r, after)) done) in
          let same : after ≡ m' = ground (arith, h, done) in
          (
            rw (sym same) v1,
            λ a out.
                ap (λ m. cell m a) (sym same) ∙ c a ∙ ground (arith, out, length-to_le_bytes 4 tid),
          )
    ]

module _ {File : Type 0} where
  store_pthread_tid-keeps :
      (forked : LinuxProcess File) (m : GuestMemory) {m' : GuestMemory}
      → IsValid m
      → store_pthread_tid forked m ≡ ok m'
      → IsValid m'
        × ((a : ℕ)
            → is_tid_byte (plus forked.fs_base glibc_pthread_tid_offset) a ≡ false
            → cell m' a ≡ cell m a)
  unfolding store_pthread_tid
  store_pthread_tid-keeps forked m {m'} v h =
      let at = plus forked.fs_base glibc_pthread_tid_offset in
      elim (Bool-cases (forked.fs_base == 0)) [
        | inl null ↦
            let same : m ≡ m' = ground (arith, h, null) in
            (rw (sym same) v, λ a out. ap (λ m. cell m a) (sym same))
        | inr set ↦ elim (Option-cases (permissions_at at m)) [
          | inl unmapped' ↦
              let same : m ≡ m' = ground (arith, h, set, unmapped') in
              (rw (sym same) v, λ a out. ap (λ m. cell m a) (sym same))
          | inr (p, mapped) ↦ write_tid-keeps at forked.tid m v (ground (arith, h, set, mapped))
        ]
      ]

  -- A valid memory's copy for the child is valid, and differs from it at most in the two places where the child's thread
  -- number is kept.
  pub child_memory-keeps :
      (forked : LinuxProcess File) (m : GuestMemory) {m' : GuestMemory}
      → IsValid m
      → child_memory forked m ≡ ok m'
      → IsValid m'
        × ((a : ℕ)
            → is_tid_byte forked.set_tid_address a ≡ false
            → is_tid_byte (plus forked.fs_base glibc_pthread_tid_offset) a ≡ false
            → cell m' a ≡ cell m a)
  unfolding child_memory
  child_memory-keeps forked m {m'} v h = elim (Bool-cases (forked.set_tid_address == 0)) [
    | inl null ↦
        let (v', c) = store_pthread_tid-keeps forked m v (ground (arith, h, null)) in
        (v', λ a out out'. c a out')
    | inr set ↦ elim (Result-cases (write_tid forked.set_tid_address forked.tid m)) [
      | inr (e, failed) ↦ ground (arith, h, set, failed)
      | inl (m1, done) ↦
          let (v1, c1) = write_tid-keeps forked.set_tid_address forked.tid m v done in
          let (v', c) = store_pthread_tid-keeps forked m1 v1 (ground (arith, h, set, done)) in
          (v', λ a out out'. c a out' ∙ c1 a out)
    ]
  ]
