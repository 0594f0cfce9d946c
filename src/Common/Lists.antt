-- ===== src/Common/Lists.antt =====
-- Lists measured and indexed by the native numbers.
use Prim.Native.Nat.{ℕ, zero, suc, ◌+◌, ◌-◌, ◌≤◌, ◌<◌, min}
use mathlib.Core.Path.{◌≡◌, refl, ap}
use mathlib.Core.Logic.{inl, inr}
use mathlib.Core.Bool.{Bool, true, false, ◌||◌}
use mathlib.Core.List.{List, [], ◌∷◌, ◌++◌}
use mathlib.Core.Option.{Option, none, some}
use native.Mathlib.Omega.{arith}
use ruxeon.Common.Tests.{ltb, if◌then◌else◌, Bool-cases, Option-cases}

module _ {ℓ} {A : Type ℓ} where
  abbrev pub length : List A → ℕ
  length [] = 0
  length (x ∷ xs) = suc (length xs)

  abbrev pub get_elem? : List A → ℕ → Option A
  get_elem? [] i = none
  get_elem? (x ∷ xs) zero = some x
  get_elem? (x ∷ xs) (suc i) = get_elem? xs i

  abbrev pub take : ℕ → List A → List A
  take zero xs = []
  take (suc n) [] = []
  take (suc n) (x ∷ xs) = x ∷ take n xs

  abbrev pub drop : ℕ → List A → List A
  drop zero xs = xs
  drop (suc n) [] = []
  drop (suc n) (x ∷ xs) = drop n xs

  abbrev pub replicate : ℕ → A → List A
  replicate zero a = []
  replicate (suc n) a = a ∷ replicate n a

  abbrev pub All {κ} : (A → Type κ) → List A → Type κ
  All P [] = Unit
  All P (x ∷ xs) = P x × All P xs

  -- The first element that passes a test, and its index: `iter().find` and `iter().position`.
  abbrev pub find : (A → Bool) → List A → Option A
  find p [] = none
  find p (x ∷ xs) = if p x then some x else find p xs

  abbrev pub position : (A → Bool) → List A → Option ℕ
  position p [] = none
  position p (x ∷ xs) =
      if p x then some 0 else elim (position p xs) [ none ↦ none | some i ↦ some (suc i) ]

  -- `Vec::remove`, for an index in range.
  abbrev pub remove_at : ℕ → List A → List A
  remove_at i [] = []
  remove_at zero (x ∷ xs) = xs
  remove_at (suc i) (x ∷ xs) = x ∷ remove_at i xs

  pub length-append : (xs ys : List A) → length (xs ++ ys) ≡ length xs + length ys
  length-append [] ys = omega arith
  length-append (x ∷ xs) ys = omega (arith, length-append xs ys)

  pub length-take : (n : ℕ) (xs : List A) → length (take n xs) ≡ min n (length xs)
  length-take zero xs = omega arith
  length-take (suc n) [] = omega arith
  length-take (suc n) (x ∷ xs) = omega (arith, length-take n xs)

  pub length-drop : (n : ℕ) (xs : List A) → length (drop n xs) ≡ length xs - n
  length-drop zero xs = omega arith
  length-drop (suc n) [] = omega arith
  length-drop (suc n) (x ∷ xs) = omega (arith, length-drop n xs)

  pub length-replicate : (n : ℕ) (a : A) → length (replicate n a) ≡ n
  length-replicate zero a = refl
  length-replicate (suc n) a = ap suc (length-replicate n a)

  pub get_elem?-take :
      (n : ℕ) (xs : List A) (i : ℕ)
      → get_elem? (take n xs) i ≡ (if ltb i n then get_elem? xs i else none)
  get_elem?-take zero xs i = ground arith
  get_elem?-take (suc n) [] i = ground arith
  get_elem?-take (suc n) (x ∷ xs) zero = ground arith
  get_elem?-take (suc n) (x ∷ xs) (suc i) = ground (arith, get_elem?-take n xs i)

  pub get_elem?-drop :
      (n : ℕ) (xs : List A) (i : ℕ) → get_elem? (drop n xs) i ≡ get_elem? xs (n + i)
  get_elem?-drop zero xs i = ground arith
  get_elem?-drop (suc n) [] i = refl
  get_elem?-drop (suc n) (x ∷ xs) i = ground (arith, get_elem?-drop n xs i)

  pub get_elem?-replicate :
      (n : ℕ) (a : A) (i : ℕ) → get_elem? (replicate n a) i ≡ (if ltb i n then some a else none)
  get_elem?-replicate zero a i = ground arith
  get_elem?-replicate (suc n) a zero = ground arith
  get_elem?-replicate (suc n) a (suc i) = ground (arith, get_elem?-replicate n a i)

  pub get_elem?-append :
      (xs ys : List A) (i : ℕ)
      → get_elem? (xs ++ ys) i
        ≡ (if ltb i (length xs) then get_elem? xs i else get_elem? ys (i - length xs))
  get_elem?-append [] ys i = ground arith
  get_elem?-append (x ∷ xs) ys zero = ground arith
  get_elem?-append (x ∷ xs) ys (suc i) = ground (arith, get_elem?-append xs ys i)

  -- An index is in range exactly when there is an element.
  pub get_elem?-none : (xs : List A) (i : ℕ) → length xs ≤ i → get_elem? xs i ≡ none
  get_elem?-none [] i h = refl
  get_elem?-none (x ∷ xs) zero h = absurd (omega arith)
  get_elem?-none (x ∷ xs) (suc i) h = get_elem?-none xs i (omega arith)

  pub get_elem?-some : (xs : List A) (i : ℕ) → i < length xs → (a : A) × (get_elem? xs i ≡ some a)
  get_elem?-some [] i h = absurd (omega arith)
  get_elem?-some (x ∷ xs) zero h = (x, refl)
  get_elem?-some (x ∷ xs) (suc i) h = get_elem?-some xs i (omega arith)

  abbrev pub any : (A → Bool) → List A → Bool
  any p [] = false
  any p (x ∷ xs) = p x || any p xs

  -- A write through `&mut xs[i]`.
  abbrev pub modify_at : ℕ → (A → A) → List A → List A
  modify_at i f [] = []
  modify_at zero f (x ∷ xs) = f x ∷ xs
  modify_at (suc i) f (x ∷ xs) = x ∷ modify_at i f xs

  -- What stands around the element that `position` finds.
  pub record IsFound (p : A → Bool) (xs : List A) (i : ℕ) : Type ℓ where
    pub before : List A
    pub found : A
    pub behind : List A
    pub split : xs ≡ before ++ found ∷ behind
    pub earlier : All (λ x. p x ≡ false) before
    pub passes : p found ≡ true
    pub index : length before ≡ i

  IsFound-cons :
      (p : A → Bool) (x : A) (xs : List A) (i : ℕ)
      → p x ≡ false
      → IsFound p xs i
      → IsFound p (x ∷ xs) (suc i)
  IsFound-cons p x xs i h f = record {
    earlier = (h, f.earlier);
    before = x ∷ f.before;
    found = f.found;
    behind = f.behind;
    split = ap (λ t. x ∷ t) f.split;
    passes = f.passes;
    index = ap suc f.index;
  }

  pub position-IsFound :
      (p : A → Bool) (xs : List A) (i : ℕ) → position p xs ≡ some i → IsFound p xs i
  position-IsFound p [] i h = absurd (ground (arith, h))
  position-IsFound p (x ∷ xs) i h = elim (Bool-cases (p x)) [
    | inl here ↦ record {
      before = [];
      found = x;
      behind = xs;
      split = refl;
      earlier = tt;
      passes = here;
      index = ground (arith, h, here);
    }
    | inr further ↦ elim (Option-cases (position p xs)) [
      | inl nowhere ↦ absurd (ground (arith, h, further, nowhere))
      | inr (j, e) ↦
          let f : i ≡ suc j = ground (arith, h, further, e) in
          rw f (IsFound-cons p x xs j further (position-IsFound p xs j e))
    ]
  ]

  pub get_elem?-middle :
      (xs : List A) (y : A) (ys : List A) → get_elem? (xs ++ y ∷ ys) (length xs) ≡ some y
  get_elem?-middle [] y ys = refl
  get_elem?-middle (x ∷ xs) y ys = get_elem?-middle xs y ys

  pub remove_at-middle :
      (xs : List A) (y : A) (ys : List A) → remove_at (length xs) (xs ++ y ∷ ys) ≡ xs ++ ys
  remove_at-middle [] y ys = refl
  remove_at-middle (x ∷ xs) y ys = ap (λ t. x ∷ t) (remove_at-middle xs y ys)

  pub modify_at-middle :
      (f : A → A) (xs : List A) (y : A) (ys : List A)
      → modify_at (length xs) f (xs ++ y ∷ ys) ≡ xs ++ f y ∷ ys
  modify_at-middle f [] y ys = refl
  modify_at-middle f (x ∷ xs) y ys = ap (λ t. x ∷ t) (modify_at-middle f xs y ys)

  -- A write that the test does not see moves no position.
  pub position-modify_at :
      (p : A → Bool) (f : A → A) (i : ℕ) (xs : List A)
      → ((x : A) → p (f x) ≡ p x)
      → position p (modify_at i f xs) ≡ position p xs
  position-modify_at p f i [] h = refl
  position-modify_at p f zero (x ∷ xs) h = rw (h x) refl
  position-modify_at p f (suc i) (x ∷ xs) h = rw (position-modify_at p f i xs h) refl

  pub drop-append : (xs ys : List A) → drop (length xs) (xs ++ ys) ≡ ys
  drop-append [] ys = refl
  drop-append (x ∷ xs) ys = drop-append xs ys

  pub take-length : (xs : List A) → take (length xs) xs ≡ xs
  take-length [] = refl
  take-length (x ∷ xs) = ap (λ t. x ∷ t) (take-length xs)

  pub take-append : (xs ys : List A) → take (length xs) (xs ++ ys) ≡ xs
  take-append [] ys = refl
  take-append (x ∷ xs) ys = ap (λ t. x ∷ t) (take-append xs ys)

  pub get_elem?-modify_at :
      (f : A → A) (xs : List A) (i : ℕ) (x : A)
      → get_elem? xs i ≡ some x
      → get_elem? (modify_at i f xs) i ≡ some (f x)
  get_elem?-modify_at f [] i x h = absurd (ground (arith, h))
  get_elem?-modify_at f (y ∷ xs) zero x h = ground (arith, h)
  get_elem?-modify_at f (y ∷ xs) (suc i) x h = get_elem?-modify_at f xs i x h

  pub position-last :
      (p : A → Bool) (xs : List A) (y : A)
      → any p xs ≡ false
      → p y ≡ true
      → position p (xs ++ y ∷ []) ≡ some (length xs)
  position-last p [] y h k = ground (arith, k)
  position-last p (x ∷ xs) y h k = ground (arith, h, position-last p xs y, k)

  pub position-any : (p : A → Bool) (xs : List A) → any p xs ≡ false → position p xs ≡ none
  position-any p [] h = refl
  position-any p (x ∷ xs) h = ground (arith, h, position-any p xs)
