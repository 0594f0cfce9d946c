-- ===== src/Common/Bits.antt =====
-- The binary digits of `bit_and`, `bit_or` and `bit_xor`: laws for the lowest digit, masks, and single bits.
use Prim.Native.Nat.{
  ℕ, zero, suc, ◌+◌, ◌-◌, ◌*◌, ◌/◌, ◌%◌, ◌^◌, ◌≤◌, ◌<◌, min, max, differ, bit_and, bit_or, bit_xor,
  digits, bit_and-bitwise, bit_or-bitwise, bit_xor-bitwise,
}
use mathlib.Core.Path.{◌≡◌, refl, sym, ap, ◌∙◌}
use native.Mathlib.Omega.{arith}
use native.Mathlib.Nat.{
  pow-suc, mod-lt, div-add-mod', add-mul-mod_self_right, mod-eq_of_lt, mul_assoc,
  div-div-eq-div-mul,
}

-- The count of digits to go does not matter where it is enough.
digits_fuel :
    (z : ℕ → ℕ) (f : ℕ → ℕ → ℕ) (n m a b : ℕ) → a ≤ n → a ≤ m → digits z f n a b ≡ digits z f m a b
digits_fuel z f zero zero a b p q = refl
digits_fuel z f zero (suc m) zero b p q = refl
digits_fuel z f zero (suc m) (suc a) b p q = absurd (omega arith)
digits_fuel z f (suc n) zero zero b p q = refl
digits_fuel z f (suc n) zero (suc a) b p q = absurd (omega arith)
digits_fuel z f (suc n) (suc m) zero b p q = refl
digits_fuel z f (suc n) (suc m) (suc a) b p q =
    omega (arith, digits_fuel z f n m (suc a / 2) (b / 2) (omega arith) (omega arith))

pub bit_and_step : (a b : ℕ) → bit_and a b ≡ bit_and (a / 2) (b / 2) * 2 + min (a % 2) (b % 2)
bit_and_step zero b = omega (arith, bit_and-bitwise 0 b, bit_and-bitwise 0 (b / 2))
bit_and_step (suc a) b = omega (
  arith,
  bit_and-bitwise (suc a) b,
  bit_and-bitwise (suc a / 2) (b / 2),
  digits_fuel (λ b. zero) min a (suc a / 2) (suc a / 2) (b / 2) (omega arith) (omega arith),
)

pub bit_or_step : (a b : ℕ) → bit_or a b ≡ bit_or (a / 2) (b / 2) * 2 + max (a % 2) (b % 2)
bit_or_step zero b = omega (arith, bit_or-bitwise 0 b, bit_or-bitwise 0 (b / 2))
bit_or_step (suc a) b = omega (
  arith,
  bit_or-bitwise (suc a) b,
  bit_or-bitwise (suc a / 2) (b / 2),
  digits_fuel (λ b. b) max a (suc a / 2) (suc a / 2) (b / 2) (omega arith) (omega arith),
)

pub bit_xor_step : (a b : ℕ) → bit_xor a b ≡ bit_xor (a / 2) (b / 2) * 2 + differ (a % 2) (b % 2)
bit_xor_step zero b = omega (arith, bit_xor-bitwise 0 b, bit_xor-bitwise 0 (b / 2))
bit_xor_step (suc a) b = omega (
  arith,
  bit_xor-bitwise (suc a) b,
  bit_xor-bitwise (suc a / 2) (b / 2),
  digits_fuel (λ b. b) differ a (suc a / 2) (suc a / 2) (b / 2) (omega arith) (omega arith),
)

pub bit_and-zero : (a : ℕ) → bit_and a 0 ≡ 0
bit_and-zero a = below a a (omega arith)
  where
    below : (n a : ℕ) → a ≤ n → bit_and a 0 ≡ 0
    below n zero h = omega (arith, bit_and-bitwise 0 0)
    below zero (suc a) h = absurd (omega arith)
    below (suc n) (suc a) h =
        omega (arith, bit_and_step (suc a) 0, below n (suc a / 2) (omega arith))

pub pow-IsPositive : (n : ℕ) → 1 ≤ 2 ^ n
pow-IsPositive zero = omega arith
pow-IsPositive (suc n) = omega (arith, pow-suc 2 n, pow-IsPositive n)

pub half-ones : (n : ℕ) → (2 ^ suc n - 1) / 2 ≡ 2 ^ n - 1
half-ones n = omega (arith, pow-suc 2 n, pow-IsPositive n)

pub odd-ones : (n : ℕ) → (2 ^ suc n - 1) % 2 ≡ 1
odd-ones n = omega (arith, pow-suc 2 n, pow-IsPositive n)

pub mod-pow : (n v : ℕ) → v % 2 ^ suc n ≡ v / 2 % 2 ^ n * 2 + v % 2
mod-pow n v =
    let low = v / 2 % 2 ^ n * 2 + v % 2 in
    let q = v / 2 / 2 ^ n in
    let small : v / 2 % 2 ^ n < 2 ^ n = mod-lt (v / 2) (omega (arith, pow-IsPositive n)) in
    let power : 2 ^ suc n ≡ 2 ^ n * 2 = omega (arith, pow-suc 2 n) in
    let half : q * 2 ^ n + v / 2 % 2 ^ n ≡ v / 2 = div-add-mod' (v / 2) (2 ^ n) in
    let whole : v ≡ low + q * 2 ^ suc n =
      omega (arith, half, power, ap (λ m. q * m) power, mul_assoc q (2 ^ n) 2) in
    let below : low < 2 ^ suc n = omega (arith, small, power) in
    ap (λ m. m % 2 ^ suc n) whole ∙ (add-mul-mod_self_right low q (2 ^ suc n) ∙ mod-eq_of_lt below)

-- A mask of low ones is a remainder.
pub bit_and-mask : (n v : ℕ) → bit_and v (2 ^ n - 1) ≡ v % 2 ^ n
bit_and-mask zero v = omega (arith, bit_and-zero v)
bit_and-mask (suc n) v = omega (
  arith,
  bit_and_step v (2 ^ suc n - 1),
  half-ones n,
  odd-ones n,
  bit_and-mask n (v / 2),
  mod-pow n v,
  ap (bit_and (v / 2)) (half-ones n),
)

bit_or-half : (p q : ℕ) → bit_or p q / 2 ≡ bit_or (p / 2) (q / 2)
bit_or-half p q = omega (arith, bit_or_step p q)

bit_and-half : (p q : ℕ) → bit_and p q / 2 ≡ bit_and (p / 2) (q / 2)
bit_and-half p q = omega (arith, bit_and_step p q)

pub div-pow : (k n : ℕ) → n / 2 ^ suc k ≡ n / 2 / 2 ^ k
div-pow k n = ap (λ m. n / m) (power k) ∙ sym (div-div-eq-div-mul n 2 (2 ^ k))
  where
    power : (k : ℕ) → 2 ^ suc k ≡ 2 * 2 ^ k
    power k = omega (arith, pow-suc 2 k)

div-one : (n : ℕ) → n / 2 ^ 0 ≡ n
div-one n = omega arith

pub bit_or-shift : (k p q : ℕ) → bit_or p q / 2 ^ k ≡ bit_or (p / 2 ^ k) (q / 2 ^ k)
bit_or-shift zero p q = rw (div-one (bit_or p q), div-one p, div-one q) refl
bit_or-shift (suc k) p q =
    rw (div-pow k (bit_or p q), div-pow k p, div-pow k q, bit_or-half p q)
      (bit_or-shift k (p / 2) (q / 2))

pub bit_and-shift : (k p q : ℕ) → bit_and p q / 2 ^ k ≡ bit_and (p / 2 ^ k) (q / 2 ^ k)
bit_and-shift zero p q = rw (div-one (bit_and p q), div-one p, div-one q) refl
bit_and-shift (suc k) p q =
    rw (div-pow k (bit_and p q), div-pow k p, div-pow k q, bit_and-half p q)
      (bit_and-shift k (p / 2) (q / 2))

bit_xor-half : (p q : ℕ) → bit_xor p q / 2 ≡ bit_xor (p / 2) (q / 2)
bit_xor-half p q = differ_low (p % 2) (q % 2) (omega arith) (omega arith) (bit_xor_step p q)
  where
    differ_low :
        (x y : ℕ)
        → x < 2
        → y < 2
        → bit_xor p q ≡ bit_xor (p / 2) (q / 2) * 2 + differ x y
        → bit_xor p q / 2 ≡ bit_xor (p / 2) (q / 2)
    differ_low zero zero a b h = omega arith
    differ_low zero (suc zero) a b h = omega arith
    differ_low (suc zero) zero a b h = omega arith
    differ_low (suc zero) (suc zero) a b h = omega arith
    differ_low (suc (suc x)) y a b h = absurd (omega arith)
    differ_low x (suc (suc y)) a b h = absurd (omega arith)

pub bit_xor-shift : (k p q : ℕ) → bit_xor p q / 2 ^ k ≡ bit_xor (p / 2 ^ k) (q / 2 ^ k)
bit_xor-shift zero p q = rw (div-one (bit_xor p q), div-one p, div-one q) refl
bit_xor-shift (suc k) p q =
    rw (div-pow k (bit_xor p q), div-pow k p, div-pow k q, bit_xor-half p q)
      (bit_xor-shift k (p / 2) (q / 2))

-- Bit `k` of a number, and of a combination.
abbrev pub bit_at : ℕ → ℕ → ℕ
bit_at k n = n / 2 ^ k % 2

pub bit_and-bit : (k p q : ℕ) → bit_at k (bit_and p q) ≡ min (bit_at k p) (bit_at k q)
bit_and-bit k p q =
    ap (λ x. x % 2) (bit_and-shift k p q) ∙ omega (arith, bit_and_step (p / 2 ^ k) (q / 2 ^ k))

pub bit_or-bit : (k p q : ℕ) → bit_at k (bit_or p q) ≡ max (bit_at k p) (bit_at k q)
bit_or-bit k p q =
    ap (λ x. x % 2) (bit_or-shift k p q) ∙ omega (arith, bit_or_step (p / 2 ^ k) (q / 2 ^ k))

pub bit_and-single : (k n : ℕ) → bit_and n (2 ^ k) ≡ bit_at k n * 2 ^ k
bit_and-single zero n = omega (arith, bit_and_step n 1, bit_and-zero (n / 2))
bit_and-single (suc k) n =
    let half : 2 ^ suc k / 2 ≡ 2 ^ k = omega (arith, pow-suc 2 k) in
    let even : 2 ^ suc k % 2 ≡ 0 = omega (arith, pow-suc 2 k) in
    let power : 2 ^ suc k ≡ 2 ^ k * 2 = omega (arith, pow-suc 2 k) in
    let b = bit_at k (n / 2) in
    let shifted : bit_at (suc k) n ≡ b = ap (λ x. x % 2) (div-pow k n) in
    let rest : bit_and (n / 2) (2 ^ suc k / 2) ≡ b * 2 ^ k =
      ap (bit_and (n / 2)) half ∙ bit_and-single k (n / 2) in
    let whole : bit_and n (2 ^ suc k) ≡ b * 2 ^ k * 2 =
      omega (arith, bit_and_step n (2 ^ suc k), rest, even) in
    whole
    ∙ (mul_assoc b (2 ^ k) 2
        ∙ (ap (λ x. b * x) (sym power) ∙ ap (λ x. x * 2 ^ suc k) (sym shifted)))

pub bit_xor-bit : (k p q : ℕ) → bit_at k (bit_xor p q) ≡ differ (bit_at k p) (bit_at k q)
bit_xor-bit k p q =
    ap (λ x. x % 2) (bit_xor-shift k p q)
    ∙ low (p / 2 ^ k % 2) (q / 2 ^ k % 2) (bit_xor (p / 2 ^ k / 2) (q / 2 ^ k / 2)) (omega arith)
        (omega arith) (bit_xor_step (p / 2 ^ k) (q / 2 ^ k))
  where
    low : (x y : ℕ) {a : ℕ} (b : ℕ) → x < 2 → y < 2 → a ≡ b * 2 + differ x y → a % 2 ≡ differ x y
    low zero zero b p q h = omega arith
    low zero (suc zero) b p q h = omega arith
    low (suc zero) zero b p q h = omega arith
    low (suc zero) (suc zero) b p q h = omega arith
    low (suc (suc x)) y b p q h = absurd (omega arith)
    low x (suc (suc y)) b p q h = absurd (omega arith)

pub bit_and-le : (a b : ℕ) → bit_and a b ≤ a
bit_and-le a b = below a a b (omega arith)
  where
    below : (n a b : ℕ) → a ≤ n → bit_and a b ≤ a
    below n zero b h = omega (arith, bit_and-bitwise 0 b)
    below zero (suc a) b h = absurd (omega arith)
    below (suc n) (suc a) b h =
        omega (arith, bit_and_step (suc a) b, below n (suc a / 2) (b / 2) (omega arith))
