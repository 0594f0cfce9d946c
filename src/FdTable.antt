-- ===== src/FdTable.antt =====
-- crates/ruxeon-linux/src/lib.rs: `FdTable`. A descriptor is an `i32`, by its bit pattern: those that reach the table
-- through `fd_arg` are below 2^31, and sums wrap as in a release build (one that checks for overflow panics there).
pub mod Available
pub mod Duplicate
pub mod Exec
mod Tests
use ruxeon.Common.{
  ℕ, zero, suc, ◌+◌, ◌-◌, ◌%◌, ◌^◌, Bool, true, false, not, ◌&&◌, ◌||◌, Option, none, some, List,
  [], ◌∷◌, ◌++◌, bit_and, bit_or, length, ltb, leb, ◌==◌, if◌then◌else◌, Result, ok, err, ◌>>=◌,
  ok_or,
}
use ruxeon.Common.Dict.{Dict, nat_eq, get, insert, remove, modify, retain, contains_key}
use ruxeon.Errno.{SyscallError, errno, badf, inval}
use ruxeon.Fd.{
  FdEntry, stdin, stdout, stderr, pipe_read, pipe_write, FdSlot, TryClone, new_slot,
  with_close_on_exec, duplicate_entry, duplicate_slot, read_ready, write_ready_entry,
}

pub record FdTable (File : Type 0) : Type 0 where
  pub entries : Dict ℕ (FdSlot File)
  pub next_fd : ℕ

-- One more, in 32 bits.
abbrev pub wrapping_next : ℕ → ℕ
wrapping_next n = (n + 1) % 2 ^ 32

-- The greater of two `i32`s: the sign is the highest bit.
abbrev pub signed_max : ℕ → ℕ → ℕ
signed_max a b = if ltb ((a + 2 ^ 31) % 2 ^ 32) ((b + 2 ^ 31) % 2 ^ 32) then b else a

abbrev pub is_negative : ℕ → Bool
is_negative n = leb (2 ^ 31) n

-- The loop of `next_available_from`, which goes up past the descriptors in use, in 32 bits; no more rounds are needed
-- than there are entries.
unfoldable pub scan {ℓ} : {A : Type ℓ} → (ℕ → Option A) → ℕ → ℕ → ℕ
scan used zero fd = fd
scan used (suc rounds) fd = elim (used fd) [
  | none ↦ fd
  | some _ ↦ scan used rounds (wrapping_next fd)
]

-- `i32::try_from`.
abbrev pub fd_arg : ℕ → Result SyscallError ℕ
fd_arg value = if ltb value (2 ^ 31) then ok value else err (errno badf)

-- An `i32` as an `i64`.
abbrev pub widen : ℕ → ℕ
widen fd = if is_negative fd then fd + (2 ^ 64 - 2 ^ 32) else fd

module _ {File : Type 0} where
  unfoldable pub new_table : FdTable File
  unfolding new_slot
  new_table = record {
    entries = (0, new_slot stdin) ∷ (1, new_slot stdout) ∷ (2, new_slot stderr) ∷ [];
    next_fd = 3;
  }

  unfoldable pub next_available_from : FdTable File → ℕ → ℕ
  unfolding scan
  next_available_from t min_fd =
      scan (λ fd. get fd t.entries) (length t.entries) (if is_negative min_fd then 0 else min_fd)

  unfoldable pub set_slot : ℕ → FdSlot File → FdTable File → FdTable File
  set_slot fd slot t = record {
    entries = insert fd slot t.entries;
    next_fd = signed_max t.next_fd (wrapping_next fd);
  }

  unfoldable pub insert_slot : FdSlot File → FdTable File → ℕ × FdTable File
  insert_slot slot t =
      let fd = next_available_from t t.next_fd in
      (fd, record { entries = insert fd slot t.entries; next_fd = wrapping_next t.next_fd })

  -- `FdTable::insert` and `FdTable::set`, which `install_buffer` calls.
  unfoldable pub insert_entry : FdEntry File → FdTable File → ℕ × FdTable File
  unfolding insert_slot new_slot
  insert_entry entry t = insert_slot (new_slot entry) t

  unfoldable pub set_entry : ℕ → FdEntry File → FdTable File → FdTable File
  unfolding set_slot new_slot
  set_entry fd entry t = set_slot fd (new_slot entry) t

  -- Closing a standard stream, or a negative number, does nothing.
  unfoldable pub close : ℕ → FdTable File → Result SyscallError (FdTable File)
  close fd t = if leb fd 2 || is_negative fd then ok t else elim (get fd t.entries) [
    | none ↦ err (errno badf)
    | some _ ↦ ok (record t { entries = remove fd t.entries })
  ]

  unfoldable pub duplicate :
      TryClone File → ℕ → ℕ → Bool → FdTable File → Result SyscallError (ℕ × FdTable File)
  unfolding set_slot with_close_on_exec duplicate_slot
  duplicate try_clone old_fd min_fd close_on_exec t = do
    slot ← ok_or (get old_fd t.entries) (errno badf)
    slot' ← duplicate_slot try_clone slot
    let new_fd = next_available_from t min_fd
    ok (new_fd, set_slot new_fd (with_close_on_exec slot' close_on_exec) t)

  abbrev pub set_close_on_exec : Bool → FdSlot File → FdSlot File
  set_close_on_exec b slot = record slot { close_on_exec = b }

  abbrev pub set_status_flags : ℕ → FdSlot File → FdSlot File
  set_status_flags flags slot = record slot { status_flags = flags }

  -- A write through `entries.get_mut(&fd).ok_or(Badf)?`.
  unfoldable pub update_slot :
      ℕ → (FdSlot File → FdSlot File) → FdTable File → Result SyscallError (FdTable File)
  update_slot fd f t = elim (get fd t.entries) [
    | none ↦ err (errno badf)
    | some _ ↦ ok (record t { entries = modify fd f t.entries })
  ]

  unfoldable pub duplicate_to :
      TryClone File → ℕ → ℕ → Bool → FdTable File → Result SyscallError (ℕ × FdTable File)
  unfolding set_slot with_close_on_exec duplicate_slot update_slot
  duplicate_to try_clone old_fd new_fd close_on_exec t =
      if old_fd == new_fd
      then (do
        t' ←
            if close_on_exec
            then update_slot new_fd (set_close_on_exec true) t
            else update_slot old_fd (λ slot. slot) t
        ok (new_fd, t'))
      else (do
        slot ← ok_or (get old_fd t.entries) (errno badf)
        slot' ← duplicate_slot try_clone slot
        let cleared = record t { entries = remove new_fd t.entries }
        ok (new_fd, set_slot new_fd (with_close_on_exec slot' close_on_exec) cleared))

  -- `i64::from` of a descriptor that an operation returns.
  abbrev pub widened :
      Result SyscallError (ℕ × FdTable File) → Result SyscallError (ℕ × FdTable File)
  widened (ok (fd, t)) = ok (widen fd, t)
  widened (err e) = err e

  -- `F_DUPFD`, `F_DUPFD_CLOEXEC`, `F_GETFD`, `F_SETFD`, `F_GETFL` and `F_SETFL`.
  unfoldable pub fcntl :
      TryClone File → ℕ → ℕ → ℕ → FdTable File → Result SyscallError (ℕ × FdTable File)
  unfolding duplicate update_slot
  fcntl try_clone fd cmd arg t =
      if cmd == 0
      then (do min_fd ← fd_arg arg; widened (duplicate try_clone fd min_fd false t))
      else if cmd == 1030
      then (do min_fd ← fd_arg arg; widened (duplicate try_clone fd min_fd true t))
      else if cmd == 1
      then (do
        slot ← ok_or (get fd t.entries) (errno badf)
        ok (if slot.close_on_exec then 1 else 0, t))
      else if cmd == 2
      then (do t' ← update_slot fd (set_close_on_exec (not (bit_and arg 1 == 0))) t; ok (0, t'))
      else if cmd == 3
      then (do slot ← ok_or (get fd t.entries) (errno badf); ok (slot.status_flags, t))
      else if cmd == 4
      then (do t' ← update_slot fd (set_status_flags arg) t; ok (0, t'))
      else err (errno inval)

  abbrev pub survives_exec : ℕ → FdSlot File → Bool
  survives_exec fd slot = leb fd 2 || is_negative fd || not slot.close_on_exec

  unfoldable pub close_on_exec : FdTable File → FdTable File
  close_on_exec t = record t { entries = retain survives_exec t.entries }

  -- The loop of `duplicate_all`, for the child of a fork: unlike `duplicate`, it keeps the
  -- close-on-exec flags.
  unfoldable pub duplicate_entries :
      TryClone File → Dict ℕ (FdSlot File) → Result SyscallError (Dict ℕ (FdSlot File))
  unfolding duplicate_entry
  duplicate_entries try_clone [] = ok []
  duplicate_entries try_clone ((fd, slot) ∷ rest) = do
    entry ← duplicate_entry try_clone slot.entry
    rest' ← duplicate_entries try_clone rest
    ok ((fd, record slot { entry = entry }) ∷ rest')

  unfoldable pub duplicate_all : TryClone File → FdTable File → Result SyscallError (FdTable File)
  unfolding duplicate_entries
  duplicate_all try_clone t = do
    entries ← duplicate_entries try_clone t.entries
    ok (record t { entries = entries })
