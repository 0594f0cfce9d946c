-- ===== src/Common/Dict.antt =====
-- `HashMap` as an association list in which no key stands twice, over an interface for equal keys.
-- What the program does with a map does not depend on the order of its entries.
use ruxeon.Common.Tests.{◌==◌, ==_iff, if◌then◌else◌}
use Prim.Native.Nat.{ℕ, ◌+◌, ◌≤◌}
use ruxeon.Common.Lists.{length}
use mathlib.Core.Path.{◌≡◌, refl}
use mathlib.Core.Logic.{◌↔◌}
use mathlib.Core.Bool.{Bool, true, false}
use mathlib.Core.Option.{Option, none, some}
use mathlib.Core.List.{List, [], ◌∷◌}
use native.Mathlib.Omega.{arith}

pub record Eq (A : Type 0) : Type 0 where
  pub beq : A → A → Bool
  pub beq_iff : (a b : A) → (beq a b ≡ true) ↔ (a ≡ b)

instance abbrev pub nat_eq : Eq ℕ
nat_eq = record { beq = ◌==◌; beq_iff = ==_iff }

abbrev pub Dict : Type 0 → Type 0 → Type 0
Dict K V = List (K × V)

module _ {V : Type 0} where
  abbrev pub map_some : (V → V) → Option V → Option V
  map_some f none = none
  map_some f (some v) = some (f v)

  abbrev pub keep_if : (V → Bool) → Option V → Option V
  keep_if p none = none
  keep_if p (some v) = if p v then some v else none

module _ {K V : Type 0} ⦃e : Eq K⦄ where
  unfoldable pub get : K → Dict K V → Option V
  get k [] = none
  get k ((j, v) ∷ d) = if e.beq j k then some v else get k d

  unfoldable pub insert : K → V → Dict K V → Dict K V
  insert k v [] = (k, v) ∷ []
  insert k v ((j, w) ∷ d) = if e.beq j k then (k, v) ∷ d else (j, w) ∷ insert k v d

  unfoldable pub remove : K → Dict K V → Dict K V
  remove k [] = []
  remove k ((j, w) ∷ d) = if e.beq j k then remove k d else (j, w) ∷ remove k d

  -- A write through `get_mut`.
  unfoldable pub modify : K → (V → V) → Dict K V → Dict K V
  modify k f [] = []
  modify k f ((j, w) ∷ d) = if e.beq j k then (j, f w) ∷ d else (j, w) ∷ modify k f d

  unfoldable pub retain : (K → V → Bool) → Dict K V → Dict K V
  retain p [] = []
  retain p ((j, w) ∷ d) = if p j w then (j, w) ∷ retain p d else retain p d

  unfoldable pub contains_key : K → Dict K V → Bool
  unfolding get
  contains_key k d = elim (get k d) [ none ↦ false | some _ ↦ true ]

  -- No key stands twice.
  abbrev pub IsMap : Dict K V → Type 0
  IsMap [] = Unit
  IsMap ((k, v) ∷ d) = (get k d ≡ none) × IsMap d

  pub get-insert :
      (j k : K) (v : V) (d : Dict K V)
      → get j (insert k v d) ≡ (if e.beq k j then some v else get j d)
  unfolding get insert
  get-insert j k v [] = refl
  get-insert j k v ((i, w) ∷ d) =
      ground (arith, e.beq_iff k j, e.beq_iff i k, e.beq_iff i j, get-insert j k v d)

  pub get-remove :
      (j k : K) (d : Dict K V) → get j (remove k d) ≡ (if e.beq k j then none else get j d)
  unfolding get remove
  get-remove j k [] = ground arith
  get-remove j k ((i, w) ∷ d) =
      ground (arith, e.beq_iff k j, e.beq_iff i k, e.beq_iff i j, get-remove j k d)

  pub get-modify :
      (j k : K) (f : V → V) (d : Dict K V)
      → get j (modify k f d) ≡ (if e.beq k j then map_some f (get j d) else get j d)
  unfolding get modify
  get-modify j k f [] = ground arith
  get-modify j k f ((i, w) ∷ d) =
      ground (arith, e.beq_iff k j, e.beq_iff i k, e.beq_iff i j, get-modify j k f d)

  get-retain-none :
      (j : K) (p : K → V → Bool) (d : Dict K V) → get j d ≡ none → get j (retain p d) ≡ none
  unfolding get retain
  get-retain-none j p [] h = refl
  get-retain-none j p ((i, w) ∷ d) h = ground (arith, get-retain-none j p d)

  pub get-retain :
      (j : K) (p : K → V → Bool) (d : Dict K V)
      → IsMap d
      → get j (retain p d) ≡ keep_if (p j) (get j d)
  unfolding get retain
  get-retain j p [] h = refl
  get-retain j p ((i, w) ∷ d) h =
      ground (arith, e.beq_iff i j, get-retain j p d h.1, get-retain-none j p d, h.0)

  pub length-insert : (k : K) (v : V) (d : Dict K V) → length (insert k v d) ≤ length d + 1
  unfolding insert
  length-insert k v [] = omega arith
  length-insert k v ((i, w) ∷ d) = ground (arith, length-insert k v d)

  pub insert-IsMap : (k : K) (v : V) (d : Dict K V) → IsMap d → IsMap (insert k v d)
  unfolding insert get
  insert-IsMap k v [] h = (refl, tt)
  insert-IsMap k v ((i, w) ∷ d) h =
      ground (arith, e.beq_iff i k, e.beq_iff k i, insert-IsMap k v d h.1, get-insert i k v d, h.0)

  pub remove-IsMap : (k : K) (d : Dict K V) → IsMap d → IsMap (remove k d)
  unfolding remove
  remove-IsMap k [] h = tt
  remove-IsMap k ((i, w) ∷ d) h = ground (arith, remove-IsMap k d h.1, get-remove i k d, h.0)

  pub modify-IsMap : (k : K) (f : V → V) (d : Dict K V) → IsMap d → IsMap (modify k f d)
  unfolding modify
  modify-IsMap k f [] h = tt
  modify-IsMap k f ((i, w) ∷ d) h = ground (arith, modify-IsMap k f d h.1, get-modify i k f d, h.0)

  pub retain-IsMap : (p : K → V → Bool) (d : Dict K V) → IsMap d → IsMap (retain p d)
  unfolding retain
  retain-IsMap p [] h = tt
  retain-IsMap p ((i, w) ∷ d) h = ground (arith, retain-IsMap p d h.1, get-retain-none i p d h.0)
