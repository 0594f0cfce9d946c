-- ===== src/RootFs.antt =====
-- crates/ruxeon-fs/src/lib.rs: `RootFs`: the resolution of paths with their symbolic links, and `ResolvedPath`. A text is its bytes.
pub mod Resolving
mod Tests
use ruxeon.Common.{
  ℕ, zero, suc, ◌+◌, Bool, true, false, Option, none, some, List, [], ◌∷◌, ◌++◌, ltb, if◌then◌else◌,
  Result, ok, err, ◌>>=◌, ◌≡◌, ◌⊎◌, inl, inr, refl,
}
use ruxeon.VirtualFile.{VirtualFile, from_guest_path}
use ruxeon.GuestPath.{
  FsError, windows_prefix, too_many_symlinks, GuestPath, join_parts, components,
  guest_from_components, parse, join,
}

abbrev pub max_symlink_expansions : ℕ
max_symlink_expansions = 40

-- What `symlink_metadata` and `read_link` answer about the file of a guest path under the host's root: a link with its
-- target where that can be read, another file, no file, or another error.
pub data HostEntry : Type 0 where
  symlink : Option (List ℕ) → HostEntry
  present missing failed : HostEntry

-- The questions that the code asks the standard library about paths and the host's files. A target that lies under the
-- host's root, or under the root's parent, is given by its normal components there.
pub record Host : Type 0 where
  pub entry : List (List ℕ) → HostEntry
  pub has_prefix : List ℕ → Bool
  pub is_absolute : List ℕ → Bool
  pub under_root : List ℕ → Option (List (List ℕ))
  pub under_parent : List ℕ → Option (List (List ℕ))
  pub is_root_name : List ℕ → Bool

-- What one round over the components has found: all of them, or a link below `parent` with what remains behind it.
pub data Round : Type 0 where
  finished : List (List ℕ) → Round
  expanded : List (List ℕ) → List ℕ → List (List ℕ) → Round

abbrev pub target_or : List ℕ → Option (List ℕ) → List ℕ
target_or component none = component
target_or component (some target) = target

module _ (host : Host) where
  unfoldable pub drop_root_name : List (List ℕ) → List (List ℕ)
  drop_root_name [] = []
  drop_root_name (first ∷ rest) = if host.is_root_name first then rest else first ∷ rest

  unfoldable pub symlink_target_guest_path : GuestPath → List ℕ → Result FsError GuestPath
  unfolding parse join guest_from_components drop_root_name
  symlink_target_guest_path parent target =
      if host.has_prefix target
      then elim (host.under_root target) [
        | some relative ↦ ok (guest_from_components relative)
        | none ↦ elim (host.under_parent target) [
          | some relative ↦ ok (guest_from_components (drop_root_name relative))
          | none ↦ err windows_prefix
        ]
      ]
      else if host.is_absolute target
      then parse host.has_prefix target
      else join host.has_prefix parent target

  unfoldable pub walk : List (List ℕ) → List (List ℕ) → Round
  walk resolved [] = finished resolved
  walk resolved (component ∷ rest) =
      let further = walk (resolved ++ component ∷ []) rest in
      elim (host.entry (resolved ++ component ∷ [])) [
        | symlink target ↦ expanded resolved (target_or component target) rest
        | present ↦ further
        | missing ↦ finished (resolved ++ component ∷ rest)
        | failed ↦ further
      ]

  unfoldable pub next_guest : List (List ℕ) → List ℕ → List (List ℕ) → Result FsError GuestPath
  unfolding symlink_target_guest_path guest_from_components join join_parts
  next_guest parent target [] = symlink_target_guest_path (guest_from_components parent) target
  next_guest parent target (component ∷ rest) = do
    guest ← symlink_target_guest_path (guest_from_components parent) target
    join host.has_prefix guest (join_parts (component ∷ rest))

  -- The loop, for at most so many rounds; none where they do not suffice.
  unfoldable pub resolve_loop : ℕ → ℕ → GuestPath → Option (Result FsError GuestPath)
  unfolding walk components guest_from_components next_guest
  resolve_loop zero expansions guest = none
  resolve_loop (suc fuel) expansions guest = elim (walk [] (components guest)) [
    | finished resolved ↦ some (ok (guest_from_components resolved))
    | expanded parent target rest ↦ elim (ltb max_symlink_expansions (suc expansions)) [
      | true ↦ some (err too_many_symlinks)
      | false ↦ elim (next_guest parent target rest) [
        | err e ↦ some (err e)
        | ok guest' ↦ resolve_loop fuel (suc expansions) guest'
      ]
    ]
  ]

  unfoldable pub resolve_guest_path : GuestPath → List ℕ → Option (Result FsError GuestPath)
  unfolding join resolve_loop
  resolve_guest_path cwd path = elim (join host.has_prefix cwd path) [
    | err e ↦ some (err e)
    | ok guest ↦ resolve_loop (suc max_symlink_expansions) 0 guest
  ]

pub HostEntry-cases :
    (e : HostEntry)
    → ((t : Option (List ℕ)) × (e ≡ symlink t)) ⊎ ((e ≡ present) ⊎ ((e ≡ missing) ⊎ (e ≡ failed)))
HostEntry-cases (symlink t) = inl (t, refl)
HostEntry-cases present = inr (inl refl)
HostEntry-cases missing = inr (inr (inl refl))
HostEntry-cases failed = inr (inr (inr refl))

pub Round-cases :
    (r : Round)
    → ((all : List (List ℕ)) × (r ≡ finished all))
      ⊎ ((parent : List (List ℕ)) × (target : List ℕ) × (rest : List (List ℕ)) × (r
            ≡ expanded parent target rest))
Round-cases (finished all) = inl (all, refl)
Round-cases (expanded parent target rest) = inr (parent, target, rest, refl)

pub data ResolvedPath : Type 0 where
  on_host : GuestPath → List ℕ → ResolvedPath
  in_memory : GuestPath → VirtualFile → ResolvedPath

abbrev pub guest_of : ResolvedPath → GuestPath
guest_of (on_host guest host) = guest
guest_of (in_memory guest file) = guest

-- `PathBuf::push` for each component, below the host's root.
unfoldable pub host_path : (List ℕ → List ℕ → List ℕ) → List ℕ → List (List ℕ) → List ℕ
host_path push path [] = path
host_path push path (component ∷ rest) = host_path push (push path component) rest

-- The loop of the resolution has always an answer (`RootFs.Resolving`), so that the first case is never met.
abbrev pub answer_of : Option (Result FsError GuestPath) → Result FsError GuestPath
answer_of none = err too_many_symlinks
answer_of (some r) = r

module _ (host : Host) (push : List ℕ → List ℕ → List ℕ) (host_root : List ℕ) where
  unfoldable pub resolve : GuestPath → List ℕ → Result FsError ResolvedPath
  unfolding resolve_guest_path from_guest_path components host_path
  resolve cwd path = do
    guest ← answer_of (resolve_guest_path host cwd path)
    elim (from_guest_path guest.raw) [
      | some file ↦ ok (in_memory guest file)
      | none ↦ ok (on_host guest (host_path push host_root (components guest)))
    ]

  unfoldable pub resolve_host : GuestPath → List ℕ → Result FsError (GuestPath × List ℕ)
  unfolding resolve components host_path
  resolve_host cwd path = do
    resolved ← resolve cwd path
    elim resolved [
      | on_host guest host_path' ↦ ok (guest, host_path')
      | in_memory guest file ↦ ok (guest, host_path push host_root (components guest))
    ]
