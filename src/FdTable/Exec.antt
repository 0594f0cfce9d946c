-- ===== src/FdTable/Exec.antt =====
-- What `execve` and `fork` leave of a table, and closing.
use ruxeon.Common.{
  ℕ, ◌≤◌, ◌<◌, ◌^◌, ◌≢◌, Bool, false, ◌&&◌, ltb, ◌≡◌, refl, ◌⊎◌, inl, inr, Option, none, some, [],
  ◌∷◌, ◌==◌, if◌then◌else◌, Option-cases, Bool-cases, Result-cases, ok, err, leb, arith,
}
use mathlib.Core.Path.{subst}
use ruxeon.Common.Dict.{
  Dict, nat_eq, get, remove, get-retain, get-remove, IsMap, retain-IsMap, keep_if,
}
use ruxeon.Errno.{errno, badf}
use ruxeon.Fd.{FdSlot, FdEntry, TryClone, duplicate_entry}
use ruxeon.FdTable.{
  FdTable, close_on_exec, duplicate_to, survives_exec, duplicate_entries, duplicate_all, close,
  is_negative,
}
use ruxeon.FdTable.Duplicate.{IsCopy, duplicate_entry-IsSame, duplicate_to-IsDuplicated}

module _ {File : Type 0} where
  -- In a table that lists no descriptor twice, `close_on_exec` keeps the standard streams and the slots
  -- that are not marked, as they are, and takes all others out; no descriptor is listed twice then.
  close_on_exec-keeps :
      (t : FdTable File)
      → IsMap t.entries
      → IsMap (close_on_exec t).entries
        × ((fd : ℕ)
            → get fd (close_on_exec t).entries ≡ keep_if (survives_exec fd) (get fd t.entries))
  unfolding close_on_exec
  close_on_exec-keeps t v =
      (retain-IsMap survives_exec t.entries v, λ fd. get-retain fd survives_exec t.entries v)

  -- `close` of a standard stream changes nothing; of another descriptor below 2^31 it fails with `badf` where that is
  -- not open, and otherwise takes it out and leaves the others.
  close_lem :
      (fd : ℕ) (t : FdTable File)
      → fd < 2 ^ 31
      → (fd ≤ 2) × (close fd t ≡ ok t)
        ⊎ ((2 < fd) × (get fd t.entries ≡ none) × (close fd t ≡ err (errno badf))
            ⊎ (2 < fd)
              × ((t' : FdTable File) × (close fd t ≡ ok t')
                  × ((j : ℕ) → get j t'.entries ≡ (if fd == j then none else get j t.entries))))
  unfolding close
  close_lem fd t small =
      let positive : is_negative fd ≡ false = ground (arith, small) in
      elim (Bool-cases (leb fd 2)) [
        | inl standard ↦ inl (ground (arith, standard), rw standard refl)
        | inr other ↦ inr (elim (Option-cases (get fd t.entries)) [
          | inl missing ↦ inl (ground (arith, other), missing, rw (other, positive, missing) refl)
          | inr (slot, e) ↦ inr (
            ground (arith, other),
            (
              record t { entries = remove fd t.entries },
              rw (other, positive, e) refl,
              λ j. get-remove j fd t.entries,
            ),
          )
        ])
      ]

  module _ (try_clone : TryClone File) where
    -- What a descriptor stands for in the child.
    abbrev pub IsInherited : Option (FdSlot File) → Option (FdSlot File) → Type 0
    IsInherited none child = child ≡ none
    IsInherited (some slot) child =
        (copy : FdSlot File) × (child ≡ some copy) × IsCopy try_clone slot copy slot.close_on_exec

    inherited :
        (j : ℕ) (slot : FdSlot File) (entry : FdEntry File)
        → duplicate_entry try_clone slot.entry ≡ ok entry
        → (d rest : Dict ℕ (FdSlot File)) (fd : ℕ) → IsInherited (get fd d) (get fd rest)
        → IsInherited (get fd ((j, slot) ∷ d)) (get fd ((j, record slot { entry = entry }) ∷ rest))
    unfolding get
    inherited j slot entry e d rest fd h = elim (Bool-cases (j == fd)) [
      | inl same ↦ rw same (
        record slot { entry = entry },
        refl,
        record {
          same_entry = duplicate_entry-IsSame try_clone slot.entry e;
          same_flags = refl;
          flagged = refl;
        },
      )
      | inr other ↦ rw other h
    ]

    duplicate_entries-IsInherited :
        (d : Dict ℕ (FdSlot File)) {d' : Dict ℕ (FdSlot File)} (fd : ℕ)
        → duplicate_entries try_clone d ≡ ok d'
        → IsInherited (get fd d) (get fd d')
    unfolding duplicate_entries get
    duplicate_entries-IsInherited [] fd h = ground (arith, h)
    duplicate_entries-IsInherited ((j, slot) ∷ d) {d'} fd h =
        elim (Result-cases (duplicate_entry try_clone slot.entry)) [
          | inr (x, fails) ↦ absurd (ground (arith, h, fails))
          | inl (entry, e) ↦ elim (Result-cases (duplicate_entries try_clone d)) [
            | inr (x, fails) ↦ absurd (ground (arith, h, e, fails))
            | inl (rest, k) ↦
                let same : ((j, record slot { entry = entry }) ∷ rest) ≡ d' =
                  ground (arith, h, e, k) in
                subst (λ x. IsInherited (get fd ((j, slot) ∷ d)) (get fd x)) same
                  (inherited j slot entry e d rest fd (duplicate_entries-IsInherited d fd k))
          ]
        ]

    -- A successful `duplicate_all`, for the child of a fork, gives a table with the same descriptors open and no other,
    -- each for a copy of what it stands for in the parent (a clone of a file, the same end of the same pipe), with the
    -- same status flags and the same close-on-exec flag.
    pub duplicate_all-IsInherited :
        (t : FdTable File) {t' : FdTable File}
        → duplicate_all try_clone t ≡ ok t'
        → (fd : ℕ) → IsInherited (get fd t.entries) (get fd t'.entries)
    unfolding duplicate_all
    duplicate_all-IsInherited t h fd = elim (Result-cases (duplicate_entries try_clone t.entries)) [
      | inr (x, fails) ↦ absurd (ground (arith, h, fails))
      | inl (d, e) ↦
          subst (λ u. IsInherited (get fd t.entries) (get fd u)) (ground (arith, h, e))
            (duplicate_entries-IsInherited t.entries fd e)
    ]

    -- In a table that lists no descriptor twice, after a successful `duplicate_to` onto another descriptor and then an
    -- `execve`: the new descriptor is gone where the close-on-exec flag was asked for and it is no standard stream, and
    -- stands otherwise for the copy of what the old one stood for; every other descriptor is as if there had been no
    -- duplicate.
    pub close_on_exec-duplicate_to :
        (old new : ℕ) (b : Bool) (t : FdTable File) {fd : ℕ} {t' : FdTable File}
        → IsMap t.entries
        → old ≢ new
        → new < 2 ^ 31
        → duplicate_to try_clone old new b t ≡ ok (fd, t')
        → (slot : FdSlot File) × (copy : FdSlot File) × (get old t.entries ≡ some slot)
          × IsCopy try_clone slot copy b
          × (get new (close_on_exec t').entries ≡ (if b && ltb 2 new then none else some copy))
          × ((j : ℕ)
              → (new == j) ≡ false
              → get j (close_on_exec t').entries ≡ get j (close_on_exec t).entries)
    unfolding close_on_exec
    close_on_exec-duplicate_to old new b t {fd} {t'} v apart small h =
        let d = (duplicate_to-IsDuplicated try_clone old new b t apart h).1 in
        let kept = λ (j : ℕ). get-retain j survives_exec t'.entries (d.unique v) in
        (
          d.slot,
          d.copy,
          d.source,
          d.copied,
          ground (arith, kept new, d.entries new, d.copied.flagged, small),
          λ j other.
              ground (arith, kept j, d.entries j, get-retain j survives_exec t.entries v, other),
        )
