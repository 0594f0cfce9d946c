-- ===== src/Registers/Masks.antt =====
-- The merge of a masked register with a masked value.
use ruxeon.Common.{ℕ, zero, suc, ◌-◌, ◌/◌, ◌%◌, ◌^◌, ◌≡◌, ap, ◌∙◌, bit_and, bit_or, arith}
use ruxeon.Common.Bits.{bit_and_step, bit_or_step, bit_and-mask, mod-pow, half-ones, odd-ones}

low-zero : (n c : ℕ) → c % 2 ^ suc n ≡ 0 → (c / 2 % 2 ^ n ≡ 0) × (c % 2 ≡ 0)
low-zero n c h = (omega (arith, mod-pow n c, h), omega (arith, mod-pow n c, h))

-- The low bits of a merge are those of the second word, where the first one is masked to the bits above.
pub merge-mask :
    (n a c v : ℕ)
    → c % 2 ^ n ≡ 0
    → bit_and (bit_or (bit_and a c) (bit_and v (2 ^ n - 1))) (2 ^ n - 1) ≡ v % 2 ^ n
merge-mask n a c v h = bit_and-mask n (bit_or (bit_and a c) (bit_and v (2 ^ n - 1))) ∙ low n a c v h
  where
    low :
        (n a c v : ℕ)
        → c % 2 ^ n ≡ 0
        → bit_or (bit_and a c) (bit_and v (2 ^ n - 1)) % 2 ^ n ≡ v % 2 ^ n
    low zero a c v h = omega arith
    low (suc n) a c v h =
        let p = bit_and a c in
        let q = bit_and v (2 ^ suc n - 1) in
        let z = low-zero n c h in
        let p_half : p / 2 ≡ bit_and (a / 2) (c / 2) = omega (arith, bit_and_step a c) in
        let q_half : q / 2 ≡ bit_and (v / 2) (2 ^ n - 1) =
          omega (arith, bit_and_step v (2 ^ suc n - 1)) ∙ ap (bit_and (v / 2)) (half-ones n) in
        let p_low : p % 2 ≡ 0 = omega (arith, bit_and_step a c, z.1) in
        let q_low : q % 2 ≡ v % 2 = omega (arith, bit_and_step v (2 ^ suc n - 1), odd-ones n) in
        let or_half : bit_or p q / 2
            ≡ bit_or (bit_and (a / 2) (c / 2)) (bit_and (v / 2) (2 ^ n - 1)) =
          omega (arith, bit_or_step p q)
          ∙ (ap (λ x. bit_or x (q / 2)) p_half ∙ ap (bit_or (bit_and (a / 2) (c / 2))) q_half) in
        let or_low : bit_or p q % 2 ≡ v % 2 = omega (arith, bit_or_step p q, p_low, q_low) in
        let rest : bit_or p q / 2 % 2 ^ n ≡ v / 2 % 2 ^ n =
          ap (λ x. x % 2 ^ n) or_half ∙ low n (a / 2) (c / 2) (v / 2) z.0 in
        omega (arith, mod-pow n (bit_or p q), mod-pow n v, rest, or_low)
