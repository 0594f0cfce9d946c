-- ===== src/Cpu/Stack.antt =====
-- The stack: what is pushed comes back.
use ruxeon.Common.{ℕ, ◌<◌, ◌≡◌, ◌∙◌, inl, inr, ok, Result-cases, arith}
use ruxeon.Common.Words.{u64_mod}
use ruxeon.Region.{permission_read}
use ruxeon.Memory.Layout.{IsValid}
use ruxeon.Access.{check_permission, read_word, write_word}
use ruxeon.Access.Writing.{read_word-write_word}
use ruxeon.Cpu.Flags.{wrapping_add, wrapping_sub}
use ruxeon.Cpu.State.{Interpreter}
use ruxeon.Cpu.Operands.{push_u64, pop_u64}

-- A successful push of a 64-bit value to a valid memory, where the eight bytes below the stack pointer may be read: a
-- pop then returns the value and leaves the stack pointer as it was before the push.
pub pop_u64-push_u64 :
    (value : ℕ) (s : Interpreter) {s' : Interpreter}
    → IsValid s.memory
    → value < u64_mod
    → s.registers.rsp < u64_mod
    → check_permission (wrapping_sub s.registers.rsp 8) 8 permission_read s.memory ≡ ok tt
    → push_u64 value s ≡ (ok tt, s')
    → ((pop_u64 s').0 ≡ ok value) × ((pop_u64 s').1.registers.rsp ≡ s.registers.rsp)
unfolding push_u64 pop_u64
pop_u64-push_u64 value s {s'} v small rsp readable h =
    let low = wrapping_sub s.registers.rsp 8 in
    let back : wrapping_add low 8 ≡ s.registers.rsp = omega (arith, rsp) in
    elim (Result-cases (write_word 8 low value s.memory).0) [
      | inl (t, k) ↦
          let m' = (write_word 8 low value s.memory).1 in
          let written : write_word 8 low value s.memory ≡ (ok tt, m') = ground (arith, k) in
          let word = read_word-write_word 8 low value s.memory v small readable written in
          let memory : s'.memory ≡ m' = ground (arith, h, k) in
          let pointer : s'.registers.rsp ≡ low = ground (arith, h, k) in
          let found : read_word 8 s'.registers.rsp s'.memory ≡ ok value =
            (λ i. read_word 8 (pointer i) (memory i)) ∙ word in
          (ground (arith, found), ground (arith, found, pointer, back))
      | inr (e, k) ↦ absurd (ground (arith, h, k))
    ]
