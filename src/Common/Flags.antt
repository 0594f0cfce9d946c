-- ===== src/Common/Flags.antt =====
-- Words that are put together from the flags of another word.
use Prim.Native.Nat.{ℕ, zero, suc, ◌+◌, ◌-◌, ◌*◌, ◌/◌, ◌%◌, ◌^◌, ◌<◌, bit_and, bit_or}
use mathlib.Core.Path.{◌≡◌, refl, sym, ap, ◌∙◌}
use mathlib.Core.Bool.{Bool, true, false, not}
use native.Mathlib.Omega.{arith}
use native.Mathlib.Nat.{pow-suc, mod-eq_of_lt, mul_assoc}
use ruxeon.Common.Tests.{◌==◌, if◌then◌else◌}
use ruxeon.Common.Bits.{bit_at, bit_and_step, bit_and-mask, bit_and-single, div-pow, pow-IsPositive}

pub bit_or-three :
    (a b c : Bool)
    → bit_or (bit_or (if a then 1 else 0) (if b then 2 else 0)) (if c then 4 else 0)
      ≡ (if a then 1 else 0) + (if b then 2 else 0) + (if c then 4 else 0)
bit_or-three true true true = refl
bit_or-three true true false = refl
bit_or-three true false true = refl
bit_or-three true false false = refl
bit_or-three false true true = refl
bit_or-three false true false = refl
bit_or-three false false true = refl
bit_or-three false false false = refl

pub flag-bit_at : (k n v : ℕ) → (if not (bit_and n (2 ^ k) == 0) then v else 0) ≡ bit_at k n * v
flag-bit_at k n v = digit (bit_at k n) (omega arith) (bit_and-single k n)
  where
    digit :
        (b : ℕ)
        → b < 2
        → bit_and n (2 ^ k) ≡ b * 2 ^ k
        → (if not (bit_and n (2 ^ k) == 0) then v else 0) ≡ b * v
    digit zero h e = ground (arith, e)
    digit (suc zero) h e = ground (arith, e, pow-IsPositive k)
    digit (suc (suc b)) h e = absurd (omega arith)

-- The product of a mask with a power of two reaches the higher digits alone.
pub bit_and-scaled : (k v m : ℕ) → bit_and v (m * 2 ^ k) ≡ bit_and (v / 2 ^ k) m * 2 ^ k
bit_and-scaled zero v m =
    let one : m * 2 ^ 0 ≡ m = omega arith in
    let same : v / 2 ^ 0 ≡ v = omega arith in rw (one, same) (omega arith)
bit_and-scaled (suc k) v m =
    let power : 2 ^ suc k ≡ 2 ^ k * 2 = omega (arith, pow-suc 2 k) in
    let double : m * 2 ^ suc k ≡ m * 2 ^ k * 2 =
      ap (λ x. m * x) power ∙ sym (mul_assoc m (2 ^ k) 2) in
    let half : m * 2 ^ suc k / 2 ≡ m * 2 ^ k = omega (arith, double) in
    let even : m * 2 ^ suc k % 2 ≡ 0 = omega (arith, double) in
    let rest : bit_and (v / 2) (m * 2 ^ suc k / 2) ≡ bit_and (v / 2 / 2 ^ k) m * 2 ^ k =
      ap (bit_and (v / 2)) half ∙ bit_and-scaled k (v / 2) m in
    let b = bit_and (v / 2 / 2 ^ k) m in
    let whole : bit_and v (m * 2 ^ suc k) ≡ b * 2 ^ k * 2 =
      omega (arith, bit_and_step v (m * 2 ^ suc k), rest, even) in
    whole
    ∙ mul_assoc b (2 ^ k) 2
    ∙ ap (λ x. b * x) (sym power)
    ∙ ap (λ x. bit_and x m * 2 ^ suc k) (sym (div-pow k v))

-- In 64 bits, what lies below a page of 4096 is cleared.
pub bit_and-page : (v : ℕ) → v < 2 ^ 64 → bit_and v (2 ^ 64 - 4096) ≡ v - v % 4096
bit_and-page v h =
    let high : bit_and (v / 4096) (2 ^ 52 - 1) ≡ v / 4096 =
      bit_and-mask 52 (v / 4096) ∙ mod-eq_of_lt (omega (arith, h)) in
    omega (arith, bit_and-scaled 12 v (2 ^ 52 - 1), high)
