-- ===== src/GuestPath/Normal.antt =====
-- Paths in normal form: from the root, with parts that name an entry each.
use mathlib.Core.List.{append-nil, append_assoc}
use ruxeon.Common.{
  ℕ, ◌≡◌, ◌≢◌, refl, ap, sym, ◌∙◌, false, List, [], ◌∷◌, ◌++◌, any, All, Bool-cases, inl, inr,
  arith,
}
use ruxeon.GuestPath.{
  GuestPath, slash, backslash, split, join_parts, raw_of, components, guest_from_components,
  is_skipped, is_parent, pop, visit, visit_all, normalize, is_nul,
}
use ruxeon.GuestPath.Parts.{IsPart, split-join_parts, components-guest_from_components}

abbrev pub IsPlain : ℕ → Type 0
IsPlain c = (c ≢ 0) × (c ≢ backslash)

abbrev pub IsNameChar : ℕ → Type 0
IsNameChar c = IsPlain c × (c ≢ slash)

-- A part that names an entry of a directory: neither "", "." nor "..", with no slash, backslash or NUL.
pub record IsName (p : List ℕ) : Type 0 where
  pub chars : All IsNameChar p
  pub names : is_skipped p ≡ false
  pub descends : is_parent p ≡ false

pub record IsNormal (path : GuestPath) : Type 0 where
  pub parts : List (List ℕ)
  pub named : All IsName parts
  pub made : path ≡ guest_from_components parts

chars-plain : (p : List ℕ) → All IsNameChar p → All (λ c. c ≢ slash) p
chars-plain [] h = tt
chars-plain (c ∷ cs) h = (h.0.1, chars-plain cs h.1)

pub IsName-IsPart : (p : List ℕ) → IsName p → IsPart p
unfolding is_skipped
IsName-IsPart [] n = absurd (ground (arith, n.names))
IsName-IsPart (c ∷ cs) n = (omega arith, chars-plain (c ∷ cs) n.chars)

pub names-parts : (ps : List (List ℕ)) → All IsName ps → All IsPart ps
names-parts [] h = tt
names-parts (p ∷ ps) h = (IsName-IsPart p h.0, names-parts ps h.1)

pub normalize-All : (cs : List ℕ) → any is_nul cs ≡ false → All IsPlain (normalize cs)
unfolding normalize
normalize-All [] h = tt
normalize-All (c ∷ cs) h = (ground (arith, h), normalize-All cs (ground (arith, h)))

All-append : (xs ys : List (List ℕ)) → All IsName xs → All IsName ys → All IsName (xs ++ ys)
All-append [] ys h k = k
All-append (x ∷ xs) ys h k = (h.0, All-append xs ys h.1 k)

pop-All : (ps : List (List ℕ)) → All IsName ps → All IsName (pop ps)
unfolding pop
pop-All [] h = tt
pop-All (p ∷ []) h = tt
pop-All (p ∷ q ∷ ps) h = (h.0, pop-All (q ∷ ps) h.1)

visit-All :
    (ps : List (List ℕ)) (p : List ℕ) → All IsName ps → All IsNameChar p → All IsName (visit ps p)
unfolding visit
visit-All ps p h k = elim (Bool-cases (is_skipped p)) [
  | inl e ↦ rw e h
  | inr e ↦ elim (Bool-cases (is_parent p)) [
    | inl f ↦ rw (e, f) (pop-All ps h)
    | inr f ↦
        rw (e, f) (All-append ps (p ∷ []) h (record { chars = k; names = e; descends = f }, tt))
  ]
]

pub visit_all-All :
    (ps rest : List (List ℕ))
    → All IsName ps
    → All (All IsNameChar) rest
    → All IsName (visit_all ps rest)
unfolding visit_all
visit_all-All ps [] h k = h
visit_all-All ps (p ∷ rest) h k = visit_all-All (visit ps p) rest (visit-All ps p h k.0) k.1

pub components-IsNormal : (path : GuestPath) → IsNormal path → All IsName (components path)
components-IsNormal path n =
    rw (n.made, components-guest_from_components n.parts (names-parts n.parts n.named)) n.named

-- Characters that are neither NUL nor backslashes pass unchanged.
pub normalize-plain : (cs : List ℕ) → All IsPlain cs → (normalize cs ≡ cs) × (any is_nul cs ≡ false)
unfolding normalize
normalize-plain [] h = (refl, refl)
normalize-plain (c ∷ cs) h =
    let (same, none) = normalize-plain cs h.1 in
    (ground (arith, h.0.1, ap (λ x. c ∷ x) same), ground (arith, h.0.0, none))

IsPlain-append : (p rest : List ℕ) → All IsNameChar p → All IsPlain rest → All IsPlain (p ++ rest)
IsPlain-append [] rest h k = k
IsPlain-append (c ∷ cs) rest h k = (h.0.0, IsPlain-append cs rest h.1 k)

IsPlain-name : (p : List ℕ) → All IsNameChar p → All IsPlain p
IsPlain-name [] h = tt
IsPlain-name (c ∷ cs) h = (h.0.0, IsPlain-name cs h.1)

slash-IsPlain : IsPlain slash
slash-IsPlain = (omega arith, omega arith)

join_parts-IsPlain : (ps : List (List ℕ)) → All IsName ps → All IsPlain (join_parts ps)
unfolding join_parts
join_parts-IsPlain [] h = tt
join_parts-IsPlain (p ∷ []) h = IsPlain-name p h.0.chars
join_parts-IsPlain (p ∷ q ∷ ps) h =
    IsPlain-append p (slash ∷ join_parts (q ∷ ps)) h.0.chars
      (slash-IsPlain, join_parts-IsPlain (q ∷ ps) h.1)

-- Names are all pushed.
visit_all-names : (acc ps : List (List ℕ)) → All IsName ps → visit_all acc ps ≡ acc ++ ps
unfolding visit_all visit
visit_all-names acc [] h = sym (append-nil acc)
visit_all-names acc (p ∷ ps) h =
    rw (h.0.names, h.0.descends)
      (visit_all-names (acc ++ p ∷ []) ps h.1 ∙ append_assoc acc (p ∷ []) ps)

-- The parts of a normal path's text, after the empty one before the first slash, are pushed again.
pub visited : (ps : List (List ℕ)) → All IsName ps → visit_all [] (split (raw_of ps)) ≡ ps
unfolding raw_of split visit_all visit is_skipped
visited [] h = refl
visited (p ∷ ps) h =
    ap (visit_all []) (split-join_parts p ps (names-parts (p ∷ ps) h))
    ∙ visit_all-names [] (p ∷ ps) h

pub raw-IsPlain : (ps : List (List ℕ)) → All IsName ps → All IsPlain (raw_of ps)
unfolding raw_of
raw-IsPlain [] h = (slash-IsPlain, tt)
raw-IsPlain (p ∷ ps) h = (slash-IsPlain, join_parts-IsPlain (p ∷ ps) h)
