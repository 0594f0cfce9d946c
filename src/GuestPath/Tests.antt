-- ===== src/GuestPath/Tests.antt =====
-- Paths at concrete inputs.
use ruxeon.Common.{ℕ, ◌≡◌, refl, Bool, false, List, [], ◌∷◌, ok, arith}
use ruxeon.GuestPath.{GuestPath, guest_from_components, is_skipped, is_parent, join}
use ruxeon.GuestPath.Normal.{IsName, IsNormal}
use ruxeon.GuestPath.Joining.{join-IsNormal}

abbrev no_prefix : List ℕ → Bool
no_prefix _ = false

-- "/a" and "/b/c".
abbrev directory : GuestPath
directory = record { raw = 47 ∷ 97 ∷ [] }

abbrev file : GuestPath
file = record { raw = 47 ∷ 98 ∷ 47 ∷ 99 ∷ [] }

abbrev part_a : List ℕ
part_a = 97 ∷ []

part_a-IsName : IsName part_a
unfolding is_skipped is_parent
part_a-IsName = record { chars = omega arith; names = refl; descends = refl }

directory-IsNormal : IsNormal directory
unfolding guest_from_components
directory-IsNormal = record { parts = part_a ∷ []; named = (part_a-IsName, tt); made = refl }

-- "../b\./c" from "/a".
join-IsNormal_example : IsNormal file × (join no_prefix directory file.raw ≡ ok file)
unfolding join
join-IsNormal_example =
    join-IsNormal no_prefix directory (46 ∷ 46 ∷ 47 ∷ 98 ∷ 92 ∷ 46 ∷ 47 ∷ 99 ∷ []) directory
      directory-IsNormal refl
