-- ===== src/Cpu/Conditions.antt =====
-- What the conditions mean after a comparison: the flags of `cmp` and `sub` decide the order of the operands, as
-- unsigned and as signed words.
use ruxeon.Common.{
  ℕ, zero, suc, ◌≤◌, Bool-cases, ltb→lt, ◌+◌, ◌-◌, ◌/◌, ◌%◌, ◌^◌, ◌<◌, ◌≡◌, ◌⊎◌, inl, inr, refl, ap,
  ◌∙◌, Bool, true, false, not, ◌&&◌, ◌||◌, Option, none, some, bit_and, bit_xor, ltb, ◌==◌,
  if◌then◌else◌, ok, arith,
}
use Prim.Native.Nat.{differ}
use native.Mathlib.Nat.{pow-suc, div-eq_of_lt, div-eq-sub-div, mod-lt, mod-eq_of_lt}
use ruxeon.Common.Words.{u64_mod}
use ruxeon.Common.Bits.{
  bit_at, bit_and-bit, bit_xor-bit, bit_and-single, bit_and-mask, pow-IsPositive,
}
use ruxeon.Registers.{Registers, flag, mask}
use ruxeon.Cpu.Flags
use ruxeon.Cpu.Flags.{
  Mnemonic, sign_bit, wrapping_sub, set_common_flags, set_sub_flags, condition, condition_passed,
  flag_cf, flag_zf, flag_sf, flag_of, flag_pf, jb, jae, je, jne, jbe, ja, jl, jge, jle, jg, cmovb,
  cmovae, cmove, cmovne, cmovbe, cmova, cmovl, cmovge, cmovle, cmovg, setb, setae, sete, setne,
  setbe, seta, setl, setge, setle, setg,
}
use ruxeon.Cpu.FlagBits.{cf, pf, zf, sf, of_, flag-set_flag}

-- The value of a word in two's complement, raised by `2 ^ width` to be a natural number.
abbrev pub raised : ℕ → ℕ → ℕ
raised width x = if ltb x (2 ^ (width - 1)) then x + 2 ^ width else x

-- The relation that a mnemonic tests, given whether the left operand is below the right one, equal to it, and less
-- than it as a signed number; none for the mnemonics of a single flag.
unfoldable pub relation : Mnemonic → Bool → Bool → Bool → Option Bool
relation jb below equal less = some (below)
relation cmovb below equal less = some (below)
relation setb below equal less = some (below)
relation jae below equal less = some (not below)
relation cmovae below equal less = some (not below)
relation setae below equal less = some (not below)
relation je below equal less = some (equal)
relation cmove below equal less = some (equal)
relation sete below equal less = some (equal)
relation jne below equal less = some (not equal)
relation cmovne below equal less = some (not equal)
relation setne below equal less = some (not equal)
relation jbe below equal less = some (below || equal)
relation cmovbe below equal less = some (below || equal)
relation setbe below equal less = some (below || equal)
relation ja below equal less = some (not below && not equal)
relation cmova below equal less = some (not below && not equal)
relation seta below equal less = some (not below && not equal)
relation jl below equal less = some (less)
relation cmovl below equal less = some (less)
relation setl below equal less = some (less)
relation jge below equal less = some (not less)
relation cmovge below equal less = some (not less)
relation setge below equal less = some (not less)
relation jle below equal less = some (equal || less)
relation cmovle below equal less = some (equal || less)
relation setle below equal less = some (equal || less)
relation jg below equal less = some (not equal && not less)
relation cmovg below equal less = some (not equal && not less)
relation setg below equal less = some (not equal && not less)
relation _ below equal less = none

relation-condition :
    (m : Mnemonic) (c z s o p : Bool) {b : Bool}
    → relation m c z (Flags.differ s o) ≡ some b
    → condition m c z s o p ≡ ok b
unfolding relation condition
relation-condition jb c z s o p h = ground (arith, h)
relation-condition m c z true true p h = ground (arith, h)
relation-condition m c z true false p h = ground (arith, h)
relation-condition m c z false true p h = ground (arith, h)
relation-condition m c z false false p h = ground (arith, h)

-- The widths of the integer registers.
abbrev pub IsWidth : ℕ → Type 0
IsWidth w = (w ≡ 8) ⊎ ((w ≡ 16) ⊎ ((w ≡ 32) ⊎ (w ≡ 64)))

-- The flags that a subtraction leaves, as tests on the masked operands.
module _ (left right result width : ℕ) (s : Registers) where
  l : ℕ
  l = bit_and left (mask width)

  r : ℕ
  r = bit_and right (mask width)

  d : ℕ
  d = bit_and result (mask width)

  abbrev after : Registers
  after = set_sub_flags left right result width s

  sub_cf : flag after flag_cf ≡ ltb l r
  unfolding set_sub_flags set_common_flags l r
  sub_cf =
      flag-set_flag pf cf _ _
      ∙ (flag-set_flag sf cf _ _
          ∙ (flag-set_flag zf cf _ _ ∙ (flag-set_flag of_ cf _ _ ∙ flag-set_flag cf cf _ _)))

  sub_of :
      flag after flag_of ≡ not (bit_and (bit_and (bit_xor l r) (bit_xor l d)) (sign_bit width) == 0)
  unfolding set_sub_flags set_common_flags l r d
  sub_of =
      flag-set_flag pf of_ _ _
      ∙ (flag-set_flag sf of_ _ _ ∙ (flag-set_flag zf of_ _ _ ∙ flag-set_flag of_ of_ _ _))

  sub_zf : flag after flag_zf ≡ (bit_and d (mask width) == 0)
  unfolding set_sub_flags set_common_flags d
  sub_zf = flag-set_flag pf zf _ _ ∙ (flag-set_flag sf zf _ _ ∙ flag-set_flag zf zf _ _)

  sub_sf : flag after flag_sf ≡ not (bit_and (bit_and d (mask width)) (sign_bit width) == 0)
  unfolding set_sub_flags set_common_flags d
  sub_sf = flag-set_flag pf sf _ _ ∙ flag-set_flag sf sf _ _

top-bit : (k x : ℕ) → x < 2 ^ suc k → bit_at k x ≡ (if ltb x (2 ^ k) then 0 else 1)
top-bit k x h = elim (Bool-cases (ltb x (2 ^ k))) [
  | inl low ↦
      let small : x < 2 ^ k = ltb→lt x (2 ^ k) low in rw low (ap (λ q. q % 2) (div-eq_of_lt small))
  | inr high ↦
      let above : 2 ^ k ≤ x = ground (arith, high) in
      let rest : x - 2 ^ k < 2 ^ k = omega (arith, h, pow-suc 2 k, above) in
      let one : x / 2 ^ k ≡ 1 =
        div-eq-sub-div (pow-IsPositive k) above ∙ ap (λ q. q + 1) (div-eq_of_lt rest) in
      rw high (ap (λ q. q % 2) one)
]

differ_bits : (x y : ℕ) → x < 2 → y < 2 → differ x y ≡ (if x == y then 0 else 1)
differ_bits zero zero h k = refl
differ_bits zero (suc zero) h k = refl
differ_bits (suc zero) zero h k = refl
differ_bits (suc zero) (suc zero) h k = refl
differ_bits (suc (suc x)) y h k = absurd (omega arith)
differ_bits x (suc (suc y)) h k = absurd (omega arith)

-- Words below `2 ^ suc k` by their halves: the sign of `x` is set.
abbrev is_set : ℕ → ℕ → Bool
is_set k x = not (ltb x (2 ^ k))

sign-test : (k x : ℕ) → x < 2 ^ suc k → not (bit_and x (2 ^ k) == 0) ≡ is_set k x
sign-test k x h = ground (arith, bit_and-single k x, top-bit k x h, pow-IsPositive k)

overflow-test :
    (k l r d : ℕ)
    → l < 2 ^ suc k
    → r < 2 ^ suc k
    → d < 2 ^ suc k
    → not (bit_and (bit_and (bit_xor l r) (bit_xor l d)) (2 ^ k) == 0)
      ≡ (Flags.differ (is_set k l) (is_set k r) && Flags.differ (is_set k l) (is_set k d))
overflow-test k l r d hl hr hd =
    let single = bit_and-single k (bit_and (bit_xor l r) (bit_xor l d)) in
    let both = bit_and-bit k (bit_xor l r) (bit_xor l d) in
    let first =
      bit_xor-bit k l r ∙ differ_bits (bit_at k l) (bit_at k r) (omega arith) (omega arith) in
    let second =
      bit_xor-bit k l d ∙ differ_bits (bit_at k l) (bit_at k d) (omega arith) (omega arith) in
    let tl = top-bit k l hl in
    let tr = top-bit k r hr in
    let td = top-bit k d hd in
    ground (arith, single, both, first, second, tl, tr, td, pow-IsPositive k)

pub masked : (x : ℕ) {w : ℕ} → IsWidth w → bit_and x (mask w) ≡ x % 2 ^ w
masked x (inl p) = rw p (bit_and-mask 8 x)
masked x (inr (inl p)) = rw p (bit_and-mask 16 x)
masked x (inr (inr (inl p))) = rw p (bit_and-mask 32 x)
masked x (inr (inr (inr p))) = rw p (bit_and-mask 64 x)

-- The masked difference of two words.
abbrev IsDifference : ℕ → ℕ → ℕ → ℕ → Type 0
IsDifference m l r d = (d < m) × (r ≤ l → d + r ≡ l) × (l < r → d + r ≡ l + m)

masked_sub :
    (l r : ℕ) {w : ℕ}
    → IsWidth w
    → l < u64_mod
    → r < u64_mod
    → IsDifference (2 ^ w) (l % 2 ^ w) (r % 2 ^ w) (wrapping_sub l r % 2 ^ w)
masked_sub l r (inl p) h k = rw p (omega arith)
masked_sub l r (inr (inl p)) h k = rw p (omega arith)
masked_sub l r (inr (inr (inl p))) h k = rw p (omega arith)
masked_sub l r (inr (inr (inr p))) h k = rw p (omega arith)

less-core :
    (k l r d : ℕ)
    → l < 2 ^ suc k
    → r < 2 ^ suc k
    → IsDifference (2 ^ suc k) l r d
    → Flags.differ
        (is_set k d)
        (Flags.differ (is_set k l) (is_set k r) && Flags.differ (is_set k l) (is_set k d))
      ≡ ltb (raised (suc k) l) (raised (suc k) r)
less-core k l r d hl hr hd = ground (arith, pow-suc 2 k, pow-IsPositive k)

equal-core :
    (k l r d : ℕ)
    → l < 2 ^ suc k
    → r < 2 ^ suc k
    → IsDifference (2 ^ suc k) l r d
    → (d == 0) ≡ (l == r)
equal-core k l r d hl hr hd = ground arith

-- The flags after a comparison, as relations between the masked operands.
record IsCompared (k l r : ℕ) (s : Registers) : Type 0 where
  below : flag s flag_cf ≡ ltb l r
  equal : flag s flag_zf ≡ (l == r)
  less : Flags.differ (flag s flag_sf) (flag s flag_of) ≡ ltb (raised (suc k) l) (raised (suc k) r)

pred : (k : ℕ) → suc k - 1 ≡ k
pred k = omega arith

compared :
    (k left right : ℕ) (s : Registers)
    → IsWidth (suc k)
    → left < u64_mod
    → right < u64_mod
    → IsCompared k
        (left % 2 ^ suc k)
        (right % 2 ^ suc k)
        (set_sub_flags left right (wrapping_sub left right) (suc k) s)
unfolding l r d
compared k left right s w hl hr =
    let result = wrapping_sub left right in
    let power = pow-IsPositive (suc k) in
    let el = masked left w in
    let er = masked right w in
    let ed = masked result w in
    let dd : bit_and (bit_and result (mask (suc k))) (mask (suc k)) ≡ result % 2 ^ suc k =
      masked (bit_and result (mask (suc k))) w
      ∙ (ap (λ x. x % 2 ^ suc k) ed ∙ mod-eq_of_lt (mod-lt result power)) in
    let difference = masked_sub left right w hl hr in
    let small_l = mod-lt left power in
    let small_r = mod-lt right power in
    let small_d = mod-lt result power in
    let half : sign_bit (suc k) ≡ 2 ^ k = ap (λ x. 2 ^ x) (pred k) in
    let sign =
      sub_sf left right result (suc k) s
      ∙ ((λ i. not (bit_and (dd i) (half i) == 0)) ∙ sign-test k _ small_d) in
    let overflow =
      sub_of left right result (suc k) s
      ∙ ((λ i.
            not (bit_and (bit_and (bit_xor (el i) (er i)) (bit_xor (el i) (ed i))) (half i) == 0))
          ∙ overflow-test k _ _ _ small_l small_r small_d) in
    record {
      below =
          sub_cf left right result (suc k) s
          ∙ (ap (λ x. ltb x (bit_and right (mask (suc k)))) el ∙ ap (ltb (left % 2 ^ suc k)) er);
      equal =
          sub_zf left right result (suc k) s
          ∙ (ap (λ x. x == 0) dd ∙ equal-core k _ _ _ small_l small_r difference);
      less =
          (λ i. Flags.differ (sign i) (overflow i)) ∙ less-core k _ _ _ small_l small_r difference;
    }

-- After a comparison of two words of 8, 16, 32 or 64 bits, the conditions of all branch, move and set mnemonics decide
-- the relation that they name: equality, and the order of the operands as unsigned and as signed numbers.
pub condition_passed-compare :
    (m : Mnemonic) (left right : ℕ) (s : Registers) {w : ℕ} {b : Bool}
    → IsWidth w
    → left < u64_mod
    → right < u64_mod
    → relation m
        (ltb (left % 2 ^ w) (right % 2 ^ w))
        (left % 2 ^ w == right % 2 ^ w)
        (ltb (raised w (left % 2 ^ w)) (raised w (right % 2 ^ w)))
      ≡ some b
    → condition_passed m (set_sub_flags left right (wrapping_sub left right) w s) ≡ ok b
unfolding condition_passed
condition_passed-compare m left right s {w = zero} iw hl hr h = absurd (ground arith)
condition_passed-compare m left right s {w = suc k} {b = b} iw hl hr h =
    let after = set_sub_flags left right (wrapping_sub left right) (suc k) s in
    let v = compared k left right s iw hl hr in
    let known : relation m (flag after flag_cf) (flag after flag_zf)
          (Flags.differ (flag after flag_sf) (flag after flag_of))
        ≡ some b =
      (λ i. relation m (v.below i) (v.equal i) (v.less i)) ∙ h in
    relation-condition m _ _ _ _ (flag after flag_pf) known
