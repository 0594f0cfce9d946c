-- ===== src/Syscall/Laws.antt =====
-- The two directions of the numbering agree.
use ruxeon.Common.{ℕ, ◌≡◌, refl, Bool, true, ◌==◌, ==_iff, ◌&&◌, List, [], ◌∷◌, arith}
use ruxeon.Syscall.{SyscallNumber, read, other, raw, arms, from_arms, from_raw}

-- Every arm maps a number to the call that has it.
arms_agree : List (ℕ × SyscallNumber) → Bool
arms_agree [] = true
arms_agree ((k, n) ∷ rest) = raw n == k && arms_agree rest

arms_agree-arms : arms_agree arms ≡ true
unfolding arms_agree raw arms
arms_agree-arms = refl

raw-from_arms :
    (v : ℕ) (l : List (ℕ × SyscallNumber)) → arms_agree l ≡ true → raw (from_arms v l) ≡ v
unfolding from_arms arms_agree
raw-from_arms v [] h = unfold raw in refl
raw-from_arms v ((k, n) ∷ rest) h = ground (arith, ==_iff (raw n) k, raw-from_arms v rest)

-- Decoding a number and encoding the result gives the number back, known or not.
pub raw-from_raw : (v : ℕ) → raw (from_raw v) ≡ v
unfolding from_raw
raw-from_raw v = raw-from_arms v arms arms_agree-arms

-- Every call that has a name of its own is decoded from its number.
from_raw-raw : (n : SyscallNumber) → ((v : ℕ) → n ≡ other v → ⊥) → from_raw (raw n) ≡ n
unfolding from_raw raw
from_raw-raw (other v) h = absurd (h v refl)
from_raw-raw read h = refl
from_raw-raw _ h = refl
