-- ===== src/GuestPath.antt =====
-- crates/ruxeon-fs/src/lib.rs: `GuestPath`. A text is its bytes. `has_prefix` says whether the standard
-- library finds a Windows prefix in a path.
pub mod Parts
pub mod Normal
pub mod Joining
mod Tests
use ruxeon.Common.{
  ℕ, ◌+◌, Bool, true, false, not, ◌&&◌, List, [], ◌∷◌, ◌++◌, any, ◌==◌, if◌then◌else◌, Result, ok,
  err, ◌>>=◌, ◌>>◌, fail_if,
}

pub data FsError : Type 0 where
  empty_path windows_prefix nul_byte too_many_symlinks : FsError

pub record GuestPath : Type 0 where
  pub raw : List ℕ

abbrev pub slash : ℕ
slash = 47

abbrev pub backslash : ℕ
backslash = 92

abbrev pub dot : ℕ
dot = 46

abbrev pub onto_first : ℕ → List (List ℕ) → List (List ℕ)
onto_first c [] = (c ∷ []) ∷ []
onto_first c (part ∷ parts) = (c ∷ part) ∷ parts

-- `split('/')`.
unfoldable pub split : List ℕ → List (List ℕ)
split [] = [] ∷ []
split (c ∷ cs) = let rest = split cs in if c == slash then [] ∷ rest else onto_first c rest

-- `filter(|part| !part.is_empty())`.
unfoldable pub non_empty : List (List ℕ) → List (List ℕ)
non_empty [] = []
non_empty ([] ∷ parts) = non_empty parts
non_empty ((c ∷ cs) ∷ parts) = (c ∷ cs) ∷ non_empty parts

-- `join("/")`.
unfoldable pub join_parts : List (List ℕ) → List ℕ
join_parts [] = []
join_parts (part ∷ []) = part
join_parts (part ∷ next ∷ parts) = part ++ slash ∷ join_parts (next ∷ parts)

unfoldable pub raw_of : List (List ℕ) → List ℕ
unfolding join_parts
raw_of [] = slash ∷ []
raw_of (part ∷ parts) = slash ∷ join_parts (part ∷ parts)

abbrev pub root : GuestPath
root = record { raw = slash ∷ [] }

unfoldable pub components : GuestPath → List (List ℕ)
unfolding split non_empty
components path = non_empty (split path.raw)

unfoldable pub guest_from_components : List (List ℕ) → GuestPath
unfolding raw_of
guest_from_components parts = record { raw = raw_of parts }

-- The parts "" and ".", and "..".
unfoldable pub is_skipped : List ℕ → Bool
is_skipped [] = true
is_skipped (c ∷ []) = c == dot
is_skipped (c ∷ d ∷ cs) = false

unfoldable pub is_parent : List ℕ → Bool
is_parent [] = false
is_parent (c ∷ []) = false
is_parent (c ∷ d ∷ []) = c == dot && d == dot
is_parent (c ∷ d ∷ e ∷ cs) = false

unfoldable pub pop : List (List ℕ) → List (List ℕ)
pop [] = []
pop (part ∷ []) = []
pop (part ∷ next ∷ parts) = part ∷ pop (next ∷ parts)

unfoldable pub visit : List (List ℕ) → List ℕ → List (List ℕ)
unfolding is_skipped is_parent pop
visit parts part =
    if is_skipped part then parts else if is_parent part then pop parts else parts ++ part ∷ []

unfoldable pub visit_all : List (List ℕ) → List (List ℕ) → List (List ℕ)
unfolding visit
visit_all parts [] = parts
visit_all parts (part ∷ rest) = visit_all (visit parts part) rest

-- `path.replace('\\', "/")`.
unfoldable pub normalize : List ℕ → List ℕ
normalize [] = []
normalize (c ∷ cs) = (if c == backslash then slash else c) ∷ normalize cs

abbrev pub is_empty : List ℕ → Bool
is_empty [] = true
is_empty (c ∷ cs) = false

abbrev pub starts_with_slash : List ℕ → Bool
starts_with_slash [] = false
starts_with_slash (c ∷ cs) = c == slash

abbrev pub is_nul : ℕ → Bool
is_nul c = c == 0

module _ (has_prefix : List ℕ → Bool) where
  unfoldable pub from_parts : List ℕ → List ℕ → Result FsError GuestPath
  unfolding split non_empty visit_all normalize raw_of
  from_parts cwd path = do
    fail_if (is_empty path) empty_path
    fail_if (any is_nul path) nul_byte
    fail_if (has_prefix path) windows_prefix
    let normalized = normalize path
    let parts = if starts_with_slash normalized then [] else non_empty (split cwd)
    ok (record { raw = raw_of (visit_all parts (split normalized)) })

  unfoldable pub parse : List ℕ → Result FsError GuestPath
  unfolding from_parts
  parse path = from_parts (slash ∷ []) path

  unfoldable pub join : GuestPath → List ℕ → Result FsError GuestPath
  unfolding from_parts
  join cwd path = from_parts cwd.raw path
