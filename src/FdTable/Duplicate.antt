-- ===== src/FdTable/Duplicate.antt =====
-- `duplicate`, `duplicate_to`: a second descriptor for what the first one stands for.
use ruxeon.Common.{
  ℕ, ◌≤◌, ◌<◌, ◌^◌, none, ◌≡◌, ◌≢◌, ◌⊎◌, refl, ◌∙◌, inl, inr, Bool, true, some, ◌==◌, if◌then◌else◌,
  Option-cases, Result-cases, ok, arith,
}
use ruxeon.Common.Dict.{
  nat_eq, get, insert, remove, get-insert, get-remove, get-modify, IsMap, insert-IsMap,
  remove-IsMap,
}
use ruxeon.Fd.{
  FdEntry, stdin, stdout, stderr, file, directory, virtual, pipe_read, pipe_write, buffer, FdSlot,
  TryClone, duplicate_entry, duplicate_slot, with_close_on_exec,
}
use ruxeon.FdTable.{
  FdTable, next_available_from, set_slot, duplicate, duplicate_to, set_close_on_exec,
}
use ruxeon.FdTable.Available.{IsLowest, next_available_from-IsLowest}

module _ {File : Type 0} (try_clone : TryClone File) where
  -- What stands for the same thing as an entry: a file's clone for a file, and for all else the entry itself, so that the
  -- copies of a pipe's end or of a buffer share its bytes.
  abbrev pub IsSame : FdEntry File → FdEntry File → Type 0
  IsSame (file f) copy = (f' : File) × (try_clone f ≡ ok f') × (copy ≡ file f')
  IsSame stdin copy = copy ≡ stdin
  IsSame stdout copy = copy ≡ stdout
  IsSame stderr copy = copy ≡ stderr
  IsSame (directory d) copy = copy ≡ directory d
  IsSame (virtual v) copy = copy ≡ virtual v
  IsSame (pipe_read b) copy = copy ≡ pipe_read b
  IsSame (pipe_write b) copy = copy ≡ pipe_write b
  IsSame (buffer b) copy = copy ≡ buffer b

  pub duplicate_entry-IsSame :
      (entry : FdEntry File) {copy : FdEntry File}
      → duplicate_entry try_clone entry ≡ ok copy
      → IsSame entry copy
  unfolding duplicate_entry
  duplicate_entry-IsSame (file f) h = elim (Result-cases (try_clone f)) [
    | inl (f', e) ↦ (f', e, ground (arith, h, e))
    | inr (x, e) ↦ absurd (ground (arith, h, e))
  ]
  duplicate_entry-IsSame stdin h = ground (arith, h)
  duplicate_entry-IsSame stdout h = ground (arith, h)
  duplicate_entry-IsSame stderr h = ground (arith, h)
  duplicate_entry-IsSame (directory d) h = ground (arith, h)
  duplicate_entry-IsSame (virtual v) h = ground (arith, h)
  duplicate_entry-IsSame (pipe_read b) h = ground (arith, h)
  duplicate_entry-IsSame (pipe_write b) h = ground (arith, h)
  duplicate_entry-IsSame (buffer b) h = ground (arith, h)

  -- The slot that a duplicate gets.
  pub record IsCopy (slot copy : FdSlot File) (close_on_exec : Bool) : Type 0 where
    pub same_entry : IsSame slot.entry copy.entry
    pub same_flags : copy.status_flags ≡ slot.status_flags
    pub flagged : copy.close_on_exec ≡ close_on_exec

  -- A table in which `new` stands for what `old` stood for, and nothing else has changed.
  pub record IsDuplicated (t t' : FdTable File) (old new : ℕ) (close_on_exec : Bool) : Type 0 where
    pub slot : FdSlot File
    pub copy : FdSlot File
    pub source : get old t.entries ≡ some slot
    pub copied : IsCopy slot copy close_on_exec
    pub entries : (fd : ℕ) → get fd t'.entries ≡ (if new == fd then some copy else get fd t.entries)
    pub unique : IsMap t.entries → IsMap t'.entries

  duplicate_slot-IsCopy :
      (slot slot' : FdSlot File) (b : Bool)
      → duplicate_slot try_clone slot ≡ ok slot'
      → IsCopy slot (with_close_on_exec slot' b) b
  unfolding duplicate_slot with_close_on_exec
  duplicate_slot-IsCopy slot slot' b h =
      elim (Result-cases (duplicate_entry try_clone slot.entry)) [
        | inr (e, fails) ↦ absurd (ground (arith, h, fails))
        | inl (entry, e) ↦ record {
          same_entry = duplicate_entry-IsSame slot.entry (ground (arith, h, e));
          same_flags = ground (arith, h, e);
          flagged = refl;
        }
      ]

  set_slot-IsDuplicated :
      (old new : ℕ) (b : Bool) (t u : FdTable File) (slot slot' : FdSlot File)
      → get old t.entries ≡ some slot
      → duplicate_slot try_clone slot ≡ ok slot'
      → ((fd : ℕ) → get fd u.entries ≡ get fd t.entries ⊎ (new ≡ fd))
      → (IsMap t.entries → IsMap u.entries)
      → IsDuplicated t (set_slot new (with_close_on_exec slot' b) u) old new b
  unfolding set_slot
  set_slot-IsDuplicated old new b t u slot slot' e k same keep = record {
    slot = slot;
    copy = with_close_on_exec slot' b;
    source = e;
    copied = duplicate_slot-IsCopy slot slot' b k;
    entries = λ fd. entries_at fd (same fd);
    unique = λ v. insert-IsMap new (with_close_on_exec slot' b) u.entries (keep v);
  }
    where
      entries_at :
          (fd : ℕ)
          → get fd u.entries ≡ get fd t.entries ⊎ (new ≡ fd)
          → get fd (insert new (with_close_on_exec slot' b) u.entries)
            ≡ (if new == fd then some (with_close_on_exec slot' b) else get fd t.entries)
      entries_at fd (inl p) = get-insert fd new (with_close_on_exec slot' b) u.entries ∙ rw p refl
      entries_at fd (inr p) =
          get-insert fd new (with_close_on_exec slot' b) u.entries ∙ ground (arith, p)

  duplicate_inversion :
      (old min_fd : ℕ) (b : Bool) (t : FdTable File) {new : ℕ} {t' : FdTable File}
      → duplicate try_clone old min_fd b t ≡ ok (new, t')
      → (slot : FdSlot File) × (slot' : FdSlot File) × (get old t.entries ≡ some slot)
        × (duplicate_slot try_clone slot ≡ ok slot')
        × (new ≡ next_available_from t min_fd)
        × (t' ≡ set_slot new (with_close_on_exec slot' b) t)
  unfolding duplicate
  duplicate_inversion old min_fd b t h = elim (Option-cases (get old t.entries)) [
    | inl missing ↦ absurd (ground (arith, h, missing))
    | inr (slot, e) ↦ elim (Result-cases (duplicate_slot try_clone slot)) [
      | inr (x, fails) ↦ absurd (ground (arith, h, e, fails))
      | inl (slot', k) ↦ (slot, slot', e, k, ground (arith, h, e, k), ground (arith, h, e, k))
    ]
  ]

  -- Where some descriptor that is not below the one asked for is free: a successful `duplicate` returns the lowest such
  -- descriptor, and lets it stand for a copy of what the old one stands for (a clone of a file, the same end of the same
  -- pipe), with the same status flags and the given close-on-exec flag; no other descriptor changes.
  pub duplicate-IsDuplicated :
      (old min_fd top : ℕ) (b : Bool) (t : FdTable File) {new : ℕ} {t' : FdTable File}
      → min_fd ≤ top
      → top < 2 ^ 31
      → get top t.entries ≡ none
      → duplicate try_clone old min_fd b t ≡ ok (new, t')
      → IsLowest t.entries min_fd top new × IsDuplicated t t' old new b
  duplicate-IsDuplicated old min_fd top b t {new} {t'} p q free h =
      let (slot, slot', e, k, lowest, result) = duplicate_inversion old min_fd b t h in
      (
        rw lowest (next_available_from-IsLowest t min_fd top p q free),
        rw result (set_slot-IsDuplicated old new b t t slot slot' e k (λ fd. inl refl) (λ v. v)),
      )

  duplicate_to_inversion :
      (old new : ℕ) (b : Bool) (t : FdTable File) {fd : ℕ} {t' : FdTable File}
      → old ≢ new
      → duplicate_to try_clone old new b t ≡ ok (fd, t')
      → (slot : FdSlot File) × (slot' : FdSlot File) × (get old t.entries ≡ some slot)
        × (duplicate_slot try_clone slot ≡ ok slot')
        × (fd ≡ new)
        × (t'
            ≡ set_slot new
                (with_close_on_exec slot' b)
                (record t { entries = remove new t.entries }))
  unfolding duplicate_to
  duplicate_to_inversion old new b t n h = elim (Option-cases (get old t.entries)) [
    | inl missing ↦ absurd (ground (arith, h, missing))
    | inr (slot, e) ↦ elim (Result-cases (duplicate_slot try_clone slot)) [
      | inr (x, fails) ↦ absurd (ground (arith, h, e, fails))
      | inl (slot', k) ↦ (slot, slot', e, k, ground (arith, h, e, k), ground (arith, h, e, k))
    ]
  ]

  -- A successful `duplicate_to` onto another descriptor returns that descriptor, which stands for a copy of what the old
  -- one stands for (a clone of a file, the same end of the same pipe) whatever it stood for before, with the same status
  -- flags and the given close-on-exec flag; no other descriptor changes.
  pub duplicate_to-IsDuplicated :
      (old new : ℕ) (b : Bool) (t : FdTable File) {fd : ℕ} {t' : FdTable File}
      → old ≢ new
      → duplicate_to try_clone old new b t ≡ ok (fd, t')
      → (fd ≡ new) × IsDuplicated t t' old new b
  duplicate_to-IsDuplicated old new b t n h =
      let (slot, slot', e, k, same, result) = duplicate_to_inversion old new b t n h in
      (
        same,
        rw result (
            set_slot-IsDuplicated old new b t (record t { entries = remove new t.entries }) slot
              slot' e k others (λ v. remove-IsMap new t.entries v)),
      )
    where
      others : (fd : ℕ) → get fd (remove new t.entries) ≡ get fd t.entries ⊎ (new ≡ fd)
      others fd = ground (arith, get-remove fd new t.entries)

  -- A successful `duplicate_to` of a descriptor onto itself found it open. It sets the close-on-exec flag
  -- if that is asked for, and leaves the flag as it is where it is not; no other descriptor changes.
  pub duplicate_to_self :
      (fd : ℕ) (b : Bool) (t : FdTable File) {new : ℕ} {t' : FdTable File}
      → duplicate_to try_clone fd fd b t ≡ ok (new, t')
      → (new ≡ fd)
        × ((slot : FdSlot File) × (get fd t.entries ≡ some slot)
            × ((j : ℕ)
                → get j t'.entries ≡ (
                    if fd == j
                    then some (if b then set_close_on_exec true slot else slot)
                    else get j t.entries)))
  unfolding duplicate_to
  duplicate_to_self fd b t h = elim (Option-cases (get fd t.entries)) [
    | inl missing ↦ absurd (ground (arith, h, missing))
    | inr (slot, e) ↦ (
      ground (arith, h, e),
      (
        slot,
        e,
        λ j. ground (
          arith,
          h,
          e,
          get-modify j fd (set_close_on_exec true) t.entries,
          get-modify j fd (λ slot. slot) t.entries,
        ),
      ),
    )
  ]
