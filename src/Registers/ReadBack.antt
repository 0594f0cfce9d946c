-- ===== src/Registers/ReadBack.antt =====
-- Reading a register after a write to it, and what a write leaves alone.
use ruxeon.Common.{
  ℕ, ◌*◌, ◌/◌, ◌%◌, ◌^◌, ◌≡◌, ◌≢◌, ◌⊎◌, refl, ap, ◌∙◌, sym, inl, inr, true, false, ◌||◌, bit_and,
  bit_or, ◌==◌, ==_iff, Bool-cases, ok, ◌>>=◌, arith,
}
use mathlib.Core.Path.{subst}
use ruxeon.Registers.{
  Register, Registers, Field, fs, gs, no_register, unsupported, in_rax, in_rbx, in_rcx, in_rdx,
  in_rsi, in_rdi, in_rbp, in_rsp, in_r8, in_r9, in_r10, in_r11, in_r12, in_r13, in_r14, in_r15,
  in_rip, ah, bh, ch, dh, rip, eip, field_of, get_field, set_field, register_width, is_high,
  complement, extract_register_bits, write_register_bits, new_value, read, write,
}
use ruxeon.Registers.Masks.{merge-mask}
use ruxeon.Common.Bits.{bit_and-mask, bit_or-shift, bit_and-shift}

high-width : (r : Register) → is_high r ≡ true → register_width r ≡ ok 8
unfolding register_width
high-width ah h = refl
high-width bh h = refl
high-width ch h = refl
high-width dh h = refl
high-width _ h = absurd (ground (arith, h))

widths :
    (r : Register) {w : ℕ}
    → register_width r ≡ ok w
    → (w == 8 || w == 16 || w == 32 || w == 64) ≡ true
unfolding register_width
widths _ h = ground (arith, h)

get-set : (f : Field) (x : ℕ) (s : Registers) → get_field f (set_field f x s) ≡ x
unfolding get_field set_field
get-set in_rip x s = refl
get-set _ x s = refl

get-set_other :
    (f g : Field) (x : ℕ) (s : Registers) → f ≢ g → get_field g (set_field f x s) ≡ get_field g s
unfolding get_field set_field
get-set_other in_rax in_rax x s n = absurd (n refl)
get-set_other in_rbx in_rbx x s n = absurd (n refl)
get-set_other in_rcx in_rcx x s n = absurd (n refl)
get-set_other in_rdx in_rdx x s n = absurd (n refl)
get-set_other in_rsi in_rsi x s n = absurd (n refl)
get-set_other in_rdi in_rdi x s n = absurd (n refl)
get-set_other in_rbp in_rbp x s n = absurd (n refl)
get-set_other in_rsp in_rsp x s n = absurd (n refl)
get-set_other in_r8 in_r8 x s n = absurd (n refl)
get-set_other in_r9 in_r9 x s n = absurd (n refl)
get-set_other in_r10 in_r10 x s n = absurd (n refl)
get-set_other in_r11 in_r11 x s n = absurd (n refl)
get-set_other in_r12 in_r12 x s n = absurd (n refl)
get-set_other in_r13 in_r13 x s n = absurd (n refl)
get-set_other in_r14 in_r14 x s n = absurd (n refl)
get-set_other in_r15 in_r15 x s n = absurd (n refl)
get-set_other in_rip in_rip x s n = absurd (n refl)
get-set_other _ _ x s n = refl

extract-write_high :
    (r : Register) (slot v : ℕ)
    → is_high r ≡ true
    → extract_register_bits r (write_register_bits slot r v) ≡ v % 2 ^ 8
unfolding extract_register_bits write_register_bits
extract-write_high r slot v h =
    let w = high-width r h in
    let kept = bit_and slot (complement 0xff00) in
    let value = bit_and v 0xff * 2 ^ 8 in
    let down : bit_or kept value / 2 ^ 8
        ≡ bit_or (bit_and (slot / 2 ^ 8) (complement 0xff00 / 2 ^ 8)) (bit_and v 0xff) =
      bit_or-shift 8 kept value
      ∙ (ap (λ x. bit_or x (value / 2 ^ 8)) (bit_and-shift 8 slot (complement 0xff00))
          ∙ ap (bit_or (bit_and (slot / 2 ^ 8) (complement 0xff00 / 2 ^ 8))) (omega arith)) in
    ground (arith, h, w, down, merge-mask 8 (slot / 2 ^ 8) (complement 0xff00 / 2 ^ 8) v refl)

module _ (r : Register) (slot v : ℕ) (h : is_high r ≡ false) where
  at_8 :
      register_width r ≡ ok 8 → extract_register_bits r (write_register_bits slot r v) ≡ v % 2 ^ 8
  unfolding extract_register_bits write_register_bits
  at_8 k = ground (arith, h, k, merge-mask 8 slot (complement 0xff) v refl)

  at_16 :
      register_width r ≡ ok 16 → extract_register_bits r (write_register_bits slot r v) ≡ v % 2 ^ 16
  unfolding extract_register_bits write_register_bits
  at_16 k = ground (arith, h, k, merge-mask 16 slot (complement 0xffff) v refl)

  at_32 :
      register_width r ≡ ok 32 → extract_register_bits r (write_register_bits slot r v) ≡ v % 2 ^ 32
  unfolding extract_register_bits write_register_bits
  at_32 k = ground (arith, h, k, bit_and-mask 32 v, bit_and-mask 32 (v % 2 ^ 32))

  at_64 :
      register_width r ≡ ok 64 → extract_register_bits r (write_register_bits slot r v) ≡ v % 2 ^ 64
  unfolding extract_register_bits write_register_bits
  at_64 k = ground (arith, h, k, bit_and-mask 64 v)

  extract-write_low :
      {w : ℕ}
      → register_width r ≡ ok w
      → extract_register_bits r (write_register_bits slot r v) ≡ v % 2 ^ w
  extract-write_low {w} k =
      let at : (n : ℕ) → w ≡ n → (register_width r ≡ ok n → Holds n) → Holds w =
        λ n p f. subst Holds (sym p) (f (k ∙ ap ok p)) in
      elim (Bool-cases (w == 8)) [
        | inl e ↦ at 8 ((==_iff w 8).0 e) at_8
        | inr not_8 ↦ elim (Bool-cases (w == 16)) [
          | inl e ↦ at 16 ((==_iff w 16).0 e) at_16
          | inr not_16 ↦ elim (Bool-cases (w == 32)) [
            | inl e ↦ at 32 ((==_iff w 32).0 e) at_32
            | inr not_32 ↦ at 64 (ground (arith, widths r k, not_8, not_16, not_32)) at_64
          ]
        ]
      ]
    where
      Holds : ℕ → Type 0
      Holds n = extract_register_bits r (write_register_bits slot r v) ≡ v % 2 ^ n

-- What is read of a slot after a write to it is the value written, at the width of the name.
extract-write :
    (r : Register) (slot v : ℕ) {w : ℕ}
    → register_width r ≡ ok w
    → extract_register_bits r (write_register_bits slot r v) ≡ v % 2 ^ w
extract-write r slot v {w} k = elim (Bool-cases (is_high r)) [
  | inl high ↦
      let same : w ≡ 8 = ground (arith, k, high-width r high) in
      subst (λ n. extract_register_bits r (write_register_bits slot r v) ≡ v % 2 ^ n) (sym same)
        (extract-write_high r slot v high)
  | inr low ↦ extract-write_low r slot v low k
]

rip-is_low : (r : Register) → field_of r ≡ ok in_rip → is_high r ≡ false
unfolding field_of
rip-is_low rip h = refl
rip-is_low eip h = refl
rip-is_low _ h = ground (arith, h)

rip-width :
    (r : Register) {w : ℕ} → field_of r ≡ ok in_rip → register_width r ≡ ok w → (w ≡ 64) ⊎ (w ≡ 32)
unfolding field_of register_width
rip-width rip h k = inl (ground (arith, k))
rip-width eip h k = inr (ground (arith, k))
rip-width _ h k = absurd (ground (arith, h))

width-field : (r : Register) {w : ℕ} → register_width r ≡ ok w → (f : Field) × (field_of r ≡ ok f)
unfolding field_of register_width
width-field rip k = (in_rip, refl)
width-field fs k = absurd (ground (arith, k))
width-field gs k = absurd (ground (arith, k))
width-field no_register k = absurd (ground (arith, k))
width-field (unsupported n) k = absurd (ground (arith, k))
width-field _ k = (_, refl)

new_value-extract :
    (f : Field) (r : Register) (v : ℕ) (s : Registers) {w : ℕ}
    → field_of r ≡ ok f
    → register_width r ≡ ok w
    → extract_register_bits r (new_value f r v s) ≡ v % 2 ^ w
unfolding new_value extract_register_bits
new_value-extract in_rip r v s {w} e k = by_width (rip-width r e k)
  where
    by_width : (w ≡ 64) ⊎ (w ≡ 32) → extract_register_bits r v ≡ v % 2 ^ w
    by_width (inl p) = ground (arith, p, k, rip-is_low r e, bit_and-mask 64 v)
    by_width (inr p) = ground (arith, p, k, rip-is_low r e, bit_and-mask 32 v)
new_value-extract f r v s e k = extract-write r (get_field f s) v k

-- A write to a register that has a width succeeds, and reading the same name then gives the value written at that
-- width: its low byte for the names of a byte, the second byte's included, and so for 16, 32 and 64 bits.
pub write-read :
    (r : Register) (v : ℕ) (s : Registers) {w : ℕ}
    → register_width r ≡ ok w
    → (write r v s >>= read r) ≡ ok (v % 2 ^ w)
unfolding write read
write-read r v s {w} k =
    let (f, e) = width-field r k in
    let value = new_value f r v s in
    let read_back : extract_register_bits r (get_field f (set_field f value s)) ≡ v % 2 ^ w =
      ap (extract_register_bits r) (get-set f value s) ∙ new_value-extract f r v s e k in
    ground (arith, e, read_back)

-- A write to one name leaves what is read through a name of another field as it was.
pub write-read_other :
    (r r' : Register) (v : ℕ) (s : Registers) {f g : Field} {s' : Registers}
    → field_of r ≡ ok f
    → field_of r' ≡ ok g
    → f ≢ g
    → write r v s ≡ ok s'
    → read r' s' ≡ read r' s
unfolding write read
write-read_other r r' v s {f} {g} {s'} e e' n h =
    let value = new_value f r v s in
    let after : set_field f value s ≡ s' = ground (arith, e, h) in
    let field : get_field g s' ≡ get_field g s =
      ap (get_field g) (sym after) ∙ get-set_other f g value s n in
    rw e' (ap (λ x. ok (extract_register_bits r' x)) field)
