-- ===== src/RootFs/Tests.antt =====
-- The resolution at a small host.
use ruxeon.Common.{ℕ, ◌≡◌, refl, ◌==◌, if◌then◌else◌, false, some, none, List, [], ◌∷◌, Result, ok}
use ruxeon.GuestPath.{FsError, GuestPath, root}
use ruxeon.RootFs.{Host, HostEntry, symlink, present, resolve_guest_path}
use ruxeon.RootFs.Resolving.{IsResolved, resolve_guest_path-IsResolved}

-- A link "a" in the root, to "b".
abbrev entry_of : List (List ℕ) → HostEntry
entry_of ((c ∷ []) ∷ []) = if c == 97 then symlink (some (98 ∷ [])) else present
entry_of _ = present

abbrev some_host : Host
some_host = record {
  entry = entry_of;
  has_prefix = λ path. false;
  is_absolute = λ path. false;
  under_root = λ path. none;
  under_parent = λ path. none;
  is_root_name = λ name. false;
}

resolve_guest_path-IsResolved_example :
    (r : Result FsError GuestPath) × (resolve_guest_path some_host root (97 ∷ 47 ∷ 99 ∷ [])
      ≡ some r)
    × IsResolved some_host r
resolve_guest_path-IsResolved_example =
    resolve_guest_path-IsResolved some_host root (97 ∷ 47 ∷ 99 ∷ [])

resolve_guest_path_test :
    resolve_guest_path some_host root (97 ∷ 47 ∷ 99 ∷ [])
    ≡ some (ok (record { raw = 47 ∷ 98 ∷ 47 ∷ 99 ∷ [] }))
unfolding resolve_guest_path
resolve_guest_path_test = refl
