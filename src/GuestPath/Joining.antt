-- ===== src/GuestPath/Joining.antt =====
-- `GuestPath::join`: paths stay under the root and their text stands for them.
use ruxeon.Common.{
  ℕ, ◌≡◌, refl, Bool, true, false, List, [], ◌∷◌, any, if◌then◌else◌, All, Bool-cases, inl, inr, ok,
  err, fail_if, bind-ok, fail_if-ok, arith,
}
use ruxeon.GuestPath.{
  windows_prefix, empty_path, nul_byte, GuestPath, split, raw_of, components, guest_from_components,
  visit_all, normalize, is_empty, is_nul, starts_with_slash, join,
}
use ruxeon.GuestPath.Parts.{split-All}
use ruxeon.GuestPath.Normal.{
  IsPlain, IsName, IsNormal, components-IsNormal, normalize-All, normalize-plain, visit_all-All,
  visited, raw-IsPlain,
}

abbrev start : GuestPath → List ℕ → List (List ℕ)
start cwd path = if starts_with_slash (normalize path) then [] else components cwd

start-All : (cwd : GuestPath) (path : List ℕ) → IsNormal cwd → All IsName (start cwd path)
start-All cwd path n = elim (Bool-cases (starts_with_slash (normalize path))) [
  | inl e ↦ rw e tt
  | inr e ↦ rw e (components-IsNormal cwd n)
]

raw-starts :
    (parts : List (List ℕ))
    → (is_empty (raw_of parts) ≡ false) × (starts_with_slash (raw_of parts) ≡ true)
unfolding raw_of
raw-starts [] = (refl, refl)
raw-starts (p ∷ ps) = (refl, refl)

module _ (has_prefix : List ℕ → Bool) where
  joined :
      (cwd : GuestPath) (path : List ℕ) {p : GuestPath}
      → join has_prefix cwd path ≡ ok p
      → (any is_nul path ≡ false)
        × (p ≡ guest_from_components (visit_all (start cwd path) (split (normalize path))))
  unfolding join guest_from_components components
  joined cwd path h = bind-ok (fail_if (is_empty path) empty_path) _ h λ t p q.
      bind-ok (fail_if (any is_nul path) nul_byte) _ q λ t' p' q'.
        bind-ok (fail_if (has_prefix path) windows_prefix) _ q'
          λ t2 p2 done. (fail_if-ok _ _ p', ground (arith, done))

  -- The text of a path made of names gives that path again, from any directory.
  raw-join :
      (cwd : GuestPath) (parts : List (List ℕ))
      → All IsName parts
      → join has_prefix cwd (raw_of parts) ≡ (
          if has_prefix (raw_of parts)
          then err windows_prefix
          else ok (guest_from_components parts))
  unfolding join guest_from_components
  raw-join cwd parts n =
      let (same, none) = normalize-plain (raw_of parts) (raw-IsPlain parts n) in
      let (filled, absolute) = raw-starts parts in
      elim (Bool-cases (has_prefix (raw_of parts))) [
        | inl e ↦ rw (filled, none, e) refl
        | inr e ↦ rw (filled, none, e, same, absolute, visited parts n) refl
      ]

  -- Joining a path to a directory in normal form, where it succeeds, gives a path in normal form: from the root, each
  -- part with a name and none of them "", "." or "..". Its text, joined to any directory, gives the same path, unless
  -- the standard library finds a Windows prefix in it.
  pub join-IsNormal :
      (cwd : GuestPath) (path : List ℕ) (other : GuestPath) {p : GuestPath}
      → IsNormal cwd
      → join has_prefix cwd path ≡ ok p
      → IsNormal p
        × (join has_prefix other p.raw ≡ (if has_prefix p.raw then err windows_prefix else ok p))
  unfolding guest_from_components
  join-IsNormal cwd path other {p} n h =
      let (plain, same) = joined cwd path h in
      let parts = visit_all (start cwd path) (split (normalize path)) in
      let named =
        visit_all-All _ _ (start-All cwd path n)
          (split-All IsPlain (normalize path) (normalize-All path plain)) in
      (record { parts = parts; named = named; made = same }, rw same (raw-join other parts named))
