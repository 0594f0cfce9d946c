-- ===== src/GuestPath/Parts.antt =====
-- Splitting a path into parts and joining parts to a path.
use ruxeon.Common.{
  ℕ, ◌≡◌, ◌≢◌, refl, ap, ◌∙◌, List, [], ◌∷◌, ◌++◌, ◌==◌, All, Bool-cases, inl, inr, length, ◌<◌,
  arith,
}
use ruxeon.GuestPath.{
  GuestPath, slash, onto_first, split, non_empty, join_parts, components, guest_from_components,
}

-- A part that is not empty and has no slash.
abbrev pub IsPart : List ℕ → Type 0
IsPart p = (0 < length p) × All (λ c. c ≢ slash) p

split-plain : (p : List ℕ) → All (λ d. d ≢ slash) p → split p ≡ p ∷ []
unfolding split
split-plain [] h = refl
split-plain (c ∷ cs) h = ground (arith, h.0, split-plain cs h.1)

split-append :
    (p rest : List ℕ) → All (λ d. d ≢ slash) p → split (p ++ slash ∷ rest) ≡ p ∷ split rest
unfolding split
split-append [] rest h = refl
split-append (c ∷ cs) rest h = ground (arith, h.0, split-append cs rest h.1)

pub split-join_parts :
    (p : List ℕ) (ps : List (List ℕ)) → All IsPart (p ∷ ps) → split (join_parts (p ∷ ps)) ≡ p ∷ ps
unfolding join_parts
split-join_parts p [] h = split-plain p h.0.1
split-join_parts p (q ∷ ps) h =
    split-append p (join_parts (q ∷ ps)) h.0.1 ∙ ap (λ x. p ∷ x) (split-join_parts q ps h.1)

non_empty-parts : (ps : List (List ℕ)) → All IsPart ps → non_empty ps ≡ ps
unfolding non_empty
non_empty-parts [] h = refl
non_empty-parts ([] ∷ ps) h = absurd (omega (arith, h.0.0))
non_empty-parts ((c ∷ cs) ∷ ps) h = ap (λ x. (c ∷ cs) ∷ x) (non_empty-parts ps h.1)

-- The components of a path that was made of parts are those parts.
pub components-guest_from_components :
    (ps : List (List ℕ)) → All IsPart ps → components (guest_from_components ps) ≡ ps
unfolding components guest_from_components
components-guest_from_components [] h = refl
components-guest_from_components (p ∷ ps) h =
    ap non_empty (split-join_parts p ps h) ∙ non_empty-parts (p ∷ ps) h

onto_first-All :
    (P : ℕ → Type 0) (c : ℕ) (ps : List (List ℕ))
    → P c
    → All (All P) ps
    → All (All P) (onto_first c ps)
onto_first-All P c [] p h = ((p, tt), tt)
onto_first-All P c (q ∷ qs) p h = ((p, h.0), h.1)

-- What holds for each character of a text holds for those of its parts, which are no slashes.
pub split-All :
    (P : ℕ → Type 0) (cs : List ℕ) → All P cs → All (All (λ c. P c × (c ≢ slash))) (split cs)
unfolding split
split-All P [] h = (tt, tt)
split-All P (c ∷ cs) h = elim (Bool-cases (c == slash)) [
  | inl e ↦ rw e (tt, split-All P cs h.1)
  | inr e ↦ rw e (onto_first-All _ c (split cs) (h.0, ground (arith, e)) (split-All P cs h.1))
]

non_empty-All :
    (ps : List (List ℕ)) → All (All (λ c. Unit {0} × (c ≢ slash))) ps → All IsPart (non_empty ps)
unfolding non_empty
non_empty-All [] h = tt
non_empty-All ([] ∷ ps) h = non_empty-All ps h.1
non_empty-All ((c ∷ cs) ∷ ps) h = ((omega arith, slashless (c ∷ cs) h.0), non_empty-All ps h.1)
  where
    slashless : (p : List ℕ) → All (λ c. Unit {0} × (c ≢ slash)) p → All (λ c. c ≢ slash) p
    slashless [] h = tt
    slashless (c ∷ cs) h = (h.0.1, slashless cs h.1)

any_character : (cs : List ℕ) → All (λ c. Unit {0}) cs
any_character [] = tt
any_character (c ∷ cs) = (tt, any_character cs)

pub components-All : (path : GuestPath) → All IsPart (components path)
unfolding components
components-All path =
    non_empty-All (split path.raw) (split-All (λ c. Unit {0}) path.raw (any_character path.raw))
