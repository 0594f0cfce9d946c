-- ===== src/Cpu/Carry.antt =====
-- The result and the carry of an addition with carry.
use ruxeon.Common.{
  ℕ, ◌+◌, ◌%◌, ◌^◌, ◌<◌, ◌≡◌, inl, inr, ◌∙◌, Bool, true, false, not, ◌&&◌, bit_and, ltb, leb, ◌==◌,
  arith,
}
use ruxeon.Registers.{Registers, flag, mask}
use ruxeon.Cpu.Flags.{set_common_flags, set_add_flags, wrapping_add, flag_cf}
use ruxeon.Cpu.FlagBits.{cf, pf, zf, sf, of_, flag-set_flag}
use ruxeon.Cpu.Conditions.{IsWidth, masked}
use ruxeon.Cpu.Integer.{BinaryOp, from_bool, binary}

add_cf :
    (left right result width : ℕ) (s : Registers)
    → flag (set_add_flags left right result width s) flag_cf
      ≡ ltb (bit_and result (mask width)) (bit_and left (mask width))
unfolding set_add_flags set_common_flags
add_cf left right result width s =
    flag-set_flag pf cf _ _
    ∙ (flag-set_flag sf cf _ _
        ∙ (flag-set_flag zf cf _ _ ∙ (flag-set_flag of_ cf _ _ ∙ flag-set_flag cf cf _ _)))

carry_core :
    (l r c : ℕ) {w : ℕ}
    → IsWidth w
    → c < 2
    → (wrapping_add (wrapping_add l r) c % 2 ^ w ≡ (l % 2 ^ w + r % 2 ^ w + c) % 2 ^ w)
      × (ltb (wrapping_add (wrapping_add l r) c % 2 ^ w) (l % 2 ^ w)
          ≡ (leb (2 ^ w) (l % 2 ^ w + r % 2 ^ w + c) && not (r % 2 ^ w + c == 2 ^ w)))
carry_core l r c (inl p) h = rw p (ground arith, ground arith)
carry_core l r c (inr (inl p)) h = rw p (ground arith, ground arith)
carry_core l r c (inr (inr (inl p))) h = rw p (ground arith, ground arith)
carry_core l r c (inr (inr (inr p))) h = rw p (ground arith, ground arith)

from_bool-lt : (b : Bool) → from_bool b < 2
from_bool-lt true = omega arith
from_bool-lt false = omega arith

-- An addition with carry of two words of 8, 16, 32 or 64 bits gives their sum with the carry. The carry that it
-- leaves says whether that sum has left the width, save where the right operand and the carry alone fill the width:
-- there the carry is lost.
pub binary-adc :
    (left right : ℕ) (s : Registers) {w : ℕ}
    → IsWidth w
    → let (result, s') = binary BinaryOp.adc left right w s in
      let sum = left % 2 ^ w + right % 2 ^ w + from_bool (flag s flag_cf) in
      (result % 2 ^ w ≡ sum % 2 ^ w)
      × (flag s' flag_cf
          ≡ (leb (2 ^ w) sum && not (right % 2 ^ w + from_bool (flag s flag_cf) == 2 ^ w)))
unfolding binary
binary-adc left right s {w} iw =
    let c = from_bool (flag s flag_cf) in
    let core = carry_core left right c iw (from_bool-lt (flag s flag_cf)) in
    let result = wrapping_add (wrapping_add left right) c in
    (
      core.0,
      add_cf left (wrapping_add right c) result w s
          ∙ ((λ i. ltb (masked result iw i) (masked left iw i)) ∙ core.1),
    )
