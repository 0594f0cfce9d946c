-- ===== src/Cpu/FlagBits.antt =====
-- Reading a flag after setting one.
use ruxeon.Common.{
  ℕ, ◌*◌, ◌^◌, ◌<◌, ◌≡◌, ap, sym, ◌∙◌, min, max, Bool, true, false, not, bit_and, bit_or, ◌==◌,
  if◌then◌else◌, arith,
}
use ruxeon.Common.Bits.{bit_at, bit_and-bit, bit_or-bit, bit_and-single}
use ruxeon.Registers.{Registers, flag, set_flag, complement}

-- The flags that the interpreter keeps, by their bits.
pub data Flag : Type 0 where
  cf pf zf sf df of_ : Flag

abbrev pub bit_of : Flag → ℕ
bit_of cf = 0
bit_of pf = 2
bit_of zf = 6
bit_of sf = 7
bit_of df = 10
bit_of of_ = 11

pub flag-bit : (k : ℕ) (s : Registers) → flag s (2 ^ k) ≡ not (bit_at k s.rflags * 2 ^ k == 0)
unfolding flag
flag-bit k s = ap (λ x. not (x == 0)) (bit_and-single k s.rflags)

set_true :
    (f g : Flag) (s : Registers)
    → bit_at (bit_of g) (set_flag (2 ^ bit_of f) true s).rflags
      ≡ max
          (max (bit_at (bit_of g) s.rflags) (bit_at (bit_of g) (2 ^ bit_of f)))
          (bit_at (bit_of g) 2)
unfolding set_flag
set_true f g s =
    bit_or-bit (bit_of g) (bit_or s.rflags (2 ^ bit_of f)) 2
    ∙ ap (λ x. max x (bit_at (bit_of g) 2)) (bit_or-bit (bit_of g) s.rflags (2 ^ bit_of f))

set_false :
    (f g : Flag) (s : Registers)
    → bit_at (bit_of g) (set_flag (2 ^ bit_of f) false s).rflags
      ≡ max
          (min (bit_at (bit_of g) s.rflags) (bit_at (bit_of g) (complement (2 ^ bit_of f))))
          (bit_at (bit_of g) 2)
unfolding set_flag
set_false f g s =
    bit_or-bit (bit_of g) (bit_and s.rflags (complement (2 ^ bit_of f))) 2
    ∙ ap (λ x. max x (bit_at (bit_of g) 2))
        (bit_and-bit (bit_of g) s.rflags (complement (2 ^ bit_of f)))

one_bit : (g : Flag) (b : ℕ) → b < 2 → not (b * 2 ^ bit_of g == 0) ≡ (b == 1)
one_bit cf b h = ground arith
one_bit g b h = ground arith

flag-bit_at : (g : Flag) (s : Registers) → flag s (2 ^ bit_of g) ≡ (bit_at (bit_of g) s.rflags == 1)
flag-bit_at g s = flag-bit (bit_of g) s ∙ one_bit g (bit_at (bit_of g) s.rflags) (omega arith)

on_table :
    (f g : Flag) (b : ℕ)
    → b < 2
    → (max (max b (bit_at (bit_of g) (2 ^ bit_of f))) (bit_at (bit_of g) 2) == 1)
      ≡ (if bit_of f == bit_of g then true else (b == 1))
on_table cf cf b h = ground arith
on_table f g b h = ground arith

off_table :
    (f g : Flag) (b : ℕ)
    → b < 2
    → (max (min b (bit_at (bit_of g) (complement (2 ^ bit_of f)))) (bit_at (bit_of g) 2) == 1)
      ≡ (if bit_of f == bit_of g then false else (b == 1))
off_table cf cf b h = ground arith
off_table f g b h = ground arith

-- Setting a flag changes that flag alone.
pub flag-set_flag :
    (f g : Flag) (value : Bool) (s : Registers)
    → flag (set_flag (2 ^ bit_of f) value s) (2 ^ bit_of g)
      ≡ (if bit_of f == bit_of g then value else flag s (2 ^ bit_of g))
flag-set_flag f g true s =
    flag-bit_at g (set_flag (2 ^ bit_of f) true s)
    ∙ (ap (λ x. x == 1) (set_true f g s)
        ∙ (on_table f g (bit_at (bit_of g) s.rflags) (omega arith)
            ∙ ap (λ x. if bit_of f == bit_of g then true else x) (sym (flag-bit_at g s))))
flag-set_flag f g false s =
    flag-bit_at g (set_flag (2 ^ bit_of f) false s)
    ∙ (ap (λ x. x == 1) (set_false f g s)
        ∙ (off_table f g (bit_at (bit_of g) s.rflags) (omega arith)
            ∙ ap (λ x. if bit_of f == bit_of g then false else x) (sym (flag-bit_at g s))))
