-- ===== src/RootFs/Resolving.antt =====
-- The resolution of symbolic links ends, and no link is left on what it returns.
use mathlib.Core.List.{append-nil, append_assoc}
use ruxeon.Common.{
  ℕ, zero, suc, ◌+◌, ◌≤◌, ◌<◌, ◌≡◌, refl, ap, sym, ◌∙◌, Bool-cases, inl, inr, some, List, [], ◌∷◌,
  ◌++◌, ltb, Result, ok, err, Result-cases, arith,
}
use ruxeon.GuestPath.{
  FsError, GuestPath, components, guest_from_components, join, too_many_symlinks,
}
use ruxeon.GuestPath.Parts.{components-guest_from_components, components-All}
use ruxeon.RootFs.{
  Host, HostEntry-cases, Round-cases, Round, finished, expanded, max_symlink_expansions, walk,
  next_guest, resolve_loop, resolve_guest_path,
}

-- A walk along the path returned meets no link: each of its components, up to the first that is missing, is there
-- and is something else.
pub data IsResolved (host : Host) : Result FsError GuestPath → Type 0 where
  refused : {e : FsError} → IsResolved host (err e)
  resolved :
      {path : GuestPath}
      → walk host [] (components path) ≡ finished (components path)
      → IsResolved host (ok path)

is_finished : Round → List (List ℕ) → List (List ℕ)
is_finished (finished all) other = all
is_finished (expanded parent target rest) other = other

module _ (host : Host) where
  -- A walk that finishes has found all components.
  walk-finished :
      (before rest : List (List ℕ)) {all : List (List ℕ)}
      → walk host before rest ≡ finished all
      → all ≡ before ++ rest
  unfolding walk is_finished
  walk-finished before [] {all} h = sym (append-nil before ∙ ap (λ r. is_finished r []) h)
  walk-finished before (component ∷ rest) {all} h =
      let here = before ++ component ∷ [] in
      elim (HostEntry-cases (host.entry here)) [
        | inl (t, e) ↦ absurd (ground (arith, rw (walk, e) at h))
        | inr (inl e) ↦
            walk-finished here rest (rw (walk, e) at h) ∙ append_assoc before (component ∷ []) rest
        | inr (inr (inl e)) ↦ sym (ap (λ r. is_finished r []) (rw (walk, e) at h))
        | inr (inr (inr e)) ↦
            walk-finished here rest (rw (walk, e) at h) ∙ append_assoc before (component ∷ []) rest
      ]

  -- A walk that finishes on the components of a path: the path made of them is resolved.
  IsResolved-finished :
      (guest : GuestPath) {all : List (List ℕ)}
      → walk host [] (components guest) ≡ finished all
      → IsResolved host (ok (guest_from_components all))
  IsResolved-finished guest {all} h =
      let found = walk-finished [] (components guest) h in
      let same : components (guest_from_components all) ≡ all =
        components-guest_from_components all (rw found (components-All guest)) in
      resolved (rw (same, found) (h ∙ ap finished found))

  -- Where the rounds suffice, the loop ends.
  resolve_loop-ends :
      (fuel expansions : ℕ) (guest : GuestPath)
      → max_symlink_expansions < fuel + expansions
      → expansions ≤ max_symlink_expansions
      → (r : Result FsError GuestPath) × (resolve_loop host fuel expansions guest ≡ some r)
        × IsResolved host r
  unfolding resolve_loop
  resolve_loop-ends zero expansions guest h k = absurd (omega arith)
  resolve_loop-ends (suc fuel) expansions guest h k =
      elim (Round-cases (walk host [] (components guest))) [
        | inl (all, e) ↦
            (ok (guest_from_components all), rw (resolve_loop, e) refl, IsResolved-finished guest e)
        | inr (parent, target, rest, e) ↦
            elim (Bool-cases (ltb max_symlink_expansions (suc expansions))) [
              | inl f ↦ (err too_many_symlinks, rw (resolve_loop, e, f) refl, refused)
              | inr f ↦ elim (Result-cases (next_guest host parent target rest)) [
                | inl (guest', g) ↦
                    let (r, ends, found) =
                      resolve_loop-ends fuel (suc expansions) guest' (omega (arith, h))
                        (ground (arith, f)) in
                    (r, rw (resolve_loop, e, f, g) ends, found)
                | inr (error, g) ↦ (err error, rw (resolve_loop, e, f, g) refl, refused)
              ]
            ]
      ]

  -- The resolution of a path returns, after 41 rounds at most. Where it returns a path, a walk along it meets no
  -- symbolic link.
  pub resolve_guest_path-IsResolved :
      (cwd : GuestPath) (path : List ℕ)
      → (r : Result FsError GuestPath) × (resolve_guest_path host cwd path ≡ some r)
        × IsResolved host r
  unfolding resolve_guest_path
  resolve_guest_path-IsResolved cwd path = elim (Result-cases (join host.has_prefix cwd path)) [
    | inl (guest, e) ↦
        let (r, ends, found) = resolve_loop-ends 41 0 guest (omega arith) (omega arith) in
        (r, rw (resolve_guest_path, e) ends, found)
    | inr (error, e) ↦ (err error, rw (resolve_guest_path, e) refl, refused)
  ]
